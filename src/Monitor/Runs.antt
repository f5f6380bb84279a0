-- ===== src/Monitor/Runs.antt =====
-- osbuild/monitor.py: the calls that a `JSONSeqMonitor` gets while a manifest is built, as steps.
use osbuild.Prelude.{ℕ, zero, suc, String, Option, List, length, ok, ◌≡◌}
use osbuild.Json.{Json}
use osbuild.Digest.{Digest}
use osbuild.Objects.{Stage, Pipeline}
use osbuild.Build.{StageResult}
use osbuild.Sources.{SourceResults}
use osbuild.Monitor.{
  Progress, flat, nested, JsonSeqMonitor, monitor_init, log, begin, finish, start_module,
  stage_result, source_result,
}

-- What a monitor with so many steps comes to after some calls of `finish`, the first number, and some
-- calls at all, the second, none of which raised.
pub data Reach (h : Digest) (show : ℕ → String) (format : List Json → String)
    (as_json : Json → String) (total : ℕ) : ℕ → ℕ → JsonSeqMonitor → Type 0 where
  made : Reach h show format as_json total zero zero (monitor_init total)
  logged :
      {n k : ℕ} {mon : JsonSeqMonitor} (now : Json) (message : String) (origin : Option String)
      → Reach h show format as_json total n k mon
      → Reach h show format as_json total n (suc k) (log h now message origin mon)
  begun :
      {n k : ℕ} {mon : JsonSeqMonitor} (now : Json) (pl : Pipeline)
      → Reach h show format as_json total n k mon
      → Reach h show format as_json total n (suc k) (begin h now pl mon)
  started :
      {n k : ℕ} {mon : JsonSeqMonitor} (now : Json) (s : Stage)
      → Reach h show format as_json total n k mon
      → Reach h show format as_json total n (suc k) (start_module h now s mon)
  stage_resulted :
      {n k : ℕ} {mon : JsonSeqMonitor} (now elapsed : Json) (r : StageResult) (metadata : Json)
      → Reach h show format as_json total n k mon
      → Reach h show format as_json total n
          (suc k)
          (stage_result h show now elapsed r metadata mon).1
  source_resulted :
      {n k : ℕ} {mon mon' : JsonSeqMonitor} (now elapsed : Json) (sr : SourceResults)
      → Reach h show format as_json total n k mon
      → source_result h format as_json now elapsed sr mon ≡ ok mon'
      → Reach h show format as_json total n (suc k) mon'
  finished :
      {n k : ℕ} {mon : JsonSeqMonitor} (now : Json) (name : String)
      → Reach h show format as_json total n k mon
      → Reach h show format as_json total (suc n) (suc k) (finish h now name mon)

abbrev pub done_of : Progress → ℕ
done_of (flat name total done) = done
done_of (nested name total done sub) = done

abbrev pub total_of : Progress → ℕ
total_of (flat name total done) = total
total_of (nested name total done sub) = total

-- The outer progress has counted n of the total.
abbrev Counts : ℕ → ℕ → Progress → Type 0
Counts total n p = (done_of p ≡ n) × (total_of p ≡ total)

abbrev Reports : ℕ → ℕ → ℕ → JsonSeqMonitor → Type 0
Reports total n k mon = Counts total n mon.progress × (length mon.out ≡ k)
