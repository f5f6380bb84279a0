-- ===== src/Tests/Monitors.antt =====
-- Runs of osbuild/monitor.py: a stream with two contexts, one of them twice, and the long results of a
-- source that failed.
use Prim.Native.String
use osbuild.Prelude.{ℕ, true, String, ◌||◌, List, [], ◌∷◌, none, some}
use osbuild.Json.{Json, str, num, obj, field, end, truthy}
use osbuild.Digest.{Digest}
use osbuild.Monitor.{Context, context_init, JsonSeqMonitor, monitor_init, source_result}
use osbuild.Monitor.Failing.{is_short, IsLogged, reported, source_result-IsLogged}
use osbuild.Build.{StageResult}
use osbuild.Monitor.{begin, finish, stage_result}
use osbuild.Tests.Samples.{build_pipeline}
use osbuild.Tests.Sources.{first_text, results, sent, results_sent}

abbrev first_field : Json → String
first_field (obj (field k (str s) fs)) = s
first_field j = "none"

abbrev one_text : List String → String
one_text [] = ""
one_text (s ∷ rest) = s

abbrev by_origin : Digest
by_origin = record { dumps = first_field; sha256 = one_text }

abbrev own : Context
own = context_init (some "org.osbuild")

abbrev stream : List Context
stream = own ∷ context_init none ∷ own ∷ []

abbrev twice : String → String
twice s = String.◌++◌ s s

abbrev long : Json → String
long j = twice (
    twice (
      twice (
        twice (twice (twice (twice (twice (twice (twice "32 characters of JSON text ......")))))))))

source_result-IsLogged_example :
    IsLogged first_text by_origin long
      (num 1)
      (num 2)
      sent
      results
      (monitor_init 1)
      (truthy results.success || is_short long sent)
      (reported first_text by_origin long (num 1) (num 2) sent results (monitor_init 1))
      (source_result by_origin first_text long (num 1) (num 2) results (monitor_init 1))
source_result-IsLogged_example =
    source_result-IsLogged first_text by_origin long (num 1) (num 2) sent results (monitor_init 1)
      results_sent

abbrev begun_monitor : JsonSeqMonitor
begun_monitor = begin by_origin (num 1) build_pipeline (monitor_init 1)

abbrev shown : ℕ → String
shown n = "n"

abbrev stage_done : StageResult
stage_done = record {
  name = "org.osbuild.copy";
  id = "org.osbuild.copy";
  success = true;
  output = "copied";
  error = str "";
}

abbrev resulted_monitor : JsonSeqMonitor
resulted_monitor =
    (stage_result by_origin shown (num 2) (num 1) stage_done (obj end) begun_monitor).1

abbrev ended_monitor : JsonSeqMonitor
ended_monitor = finish by_origin (num 2) "build" resulted_monitor
