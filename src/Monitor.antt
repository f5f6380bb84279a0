-- ===== src/Monitor.antt =====
-- osbuild/monitor.py: contexts, progress, log entries and `JSONSeqMonitor`, whose output is the list of
-- the entries that it wrote. The time of a call is given to it: `now` is the `timestamp`, and `elapsed`
-- the seconds since the module started. `show` is `str` of a number, `as_json` of a result of a source
-- the text of its JSON, and `format` what Python writes for JSON in a text.
pub mod Written
pub mod Contexts
pub mod Failing
pub mod Runs
use Prim.Native.String
use Prim.Native.String.{[], ◌∷◌, count}
use osbuild.Prelude.{
  ℕ, zero, suc, ◌+◌, ◌-◌, String, ◌==◌, Bool, true, false, Option, none, some, List, [], ◌∷◌, ◌++◌,
  length, ltb, if◌then◌else◌, Result, ok, err, ◌>>=◌,
}
use osbuild.Json.{
  Json, null, bool, num, number, str, arr, obj, Fields, end, field, fields, truthy, opt_text,
}
use osbuild.Digest.{Digest}
use osbuild.Objects.{Stage, Pipeline}
use osbuild.Stage.{stage_id}
use osbuild.Pipeline.{pipeline_id}
use osbuild.Build.{StageResult}
use osbuild.Sources.{SourceResults, results_as_dict}

-- `omitempty`
unfoldable pub omitempty : Fields → Fields
omitempty end = end
omitempty (field k null fs) = omitempty fs
omitempty (field k (str s) fs) =
    let rest = omitempty fs in if s == "" then rest else field k (str s) rest
omitempty (field k (obj gs) fs) = field k (obj (omitempty gs)) (omitempty fs)
omitempty (field k (bool b) fs) = field k (bool b) (omitempty fs)
omitempty (field k (num n) fs) = field k (num n) (omitempty fs)
omitempty (field k (number s) fs) = field k (number s) (omitempty fs)
omitempty (field k (arr xs) fs) = field k (arr xs) (omitempty fs)

-- The set `_id_history` is shared by all copies of a context, so it is a part of the monitor; the kept
-- id is computed again after every write, so it is a function.
pub record Context : Type 0 where
  pub origin : Option String
  pub pipeline_name : Option String
  pub pipeline_id : Option String
  pub stage_name : Option String
  pub stage_id : Option String

abbrev pub context_init : Option String → Context
context_init origin = record {
  origin = origin;
  pipeline_name = none;
  pipeline_id = none;
  stage_name = none;
  stage_id = none;
}

-- The same origin is kept: a context with it is equal.
unfoldable pub with_origin : Option String → Context → Context
with_origin none ctx = ctx
with_origin (some origin) ctx = record ctx { origin = some origin }

unfoldable pub context_fields : Context → Fields → Fields
context_fields ctx rest = field "origin" (opt_text ctx.origin) (
    field "pipeline"
      (obj (
        field "name" (opt_text ctx.pipeline_name) (
          field "id" (opt_text ctx.pipeline_id) (
            field "stage"
              (obj
                (field "name" (opt_text ctx.stage_name) (field "id" (opt_text ctx.stage_id) end)))
              end))))
      rest)

unfoldable pub has_id : String → List String → Bool
has_id id [] = false
has_id id (x ∷ xs) = if x == id then true else has_id id xs

module _ (h : Digest) where
  unfoldable pub set_pipeline : Pipeline → Context → Context
  set_pipeline pl ctx = record ctx { pipeline_name = some pl.name; pipeline_id = pipeline_id h pl }

  unfoldable pub set_stage : Stage → Context → Context
  set_stage s ctx = record ctx { stage_name = some s.info_name; stage_id = some (stage_id h s) }

  unfoldable pub context_id : Context → String
  unfolding context_fields
  context_id ctx = h.sha256 (h.dumps (obj (context_fields ctx end)) ∷ [])

  -- `as_dict`, with the history after it.
  unfoldable pub context_as_dict : Context → List String → Fields × List String
  unfolding context_id has_id
  context_as_dict ctx history =
      let id = context_id ctx in
      if has_id id history
      then (field "id" (str id) end, history)
      else (context_fields ctx (field "id" (str id) end), id ∷ history)

-- With or without a nested progress.
pub data Progress : Type 0 where
  flat : String → ℕ → ℕ → Progress
  nested : String → ℕ → ℕ → Progress → Progress

abbrev pub progress_init : String → ℕ → Progress
progress_init name total = flat name total 0

-- An increment takes the nested progress away.
unfoldable pub incr : Progress → Progress
incr (flat name total done) = flat name total (suc done)
incr (nested name total done sub) = flat name total (suc done)

unfoldable pub set_sub : Progress → Progress → Progress
set_sub sub (flat name total done) = nested name total done sub
set_sub sub (nested name total done old) = nested name total done sub

unfoldable pub incr_sub : Progress → Progress
unfolding incr
incr_sub (flat name total done) = flat name total done
incr_sub (nested name total done sub) = nested name total done (incr sub)

unfoldable pub progress_as_dict : Progress → Fields
progress_as_dict (flat name total done) =
    field "name" (str name) (field "total" (num total) (field "done" (num done) end))
progress_as_dict (nested name total done sub) = field "name" (str name) (
    field "total" (num total)
      (field "done" (num done) (field "progress" (obj (progress_as_dict sub)) end)))

pub record JsonSeqMonitor : Type 0 where
  pub history : List String
  pub progress : Progress
  pub context : Context
  pub module_options : Json
  pub module_started : Bool
  pub out : List Json

abbrev pub monitor_init : ℕ → JsonSeqMonitor
monitor_init total_steps = record {
  history = [];
  progress = progress_init "pipelines/sources" total_steps;
  context = context_init (some "org.osbuild");
  module_options = obj end;
  module_started = false;
  out = [];
}

abbrev or_null : Json → Json
or_null j = if truthy j then j else null

-- `log_entry`: what is `None` there is `null`.
unfoldable pub log_entry : Json → Json → Fields → Progress → Json → Json → Json → Json → Json
unfolding omitempty progress_as_dict
log_entry now message context progress options duration result metadata = obj (
    omitempty (
      field "message" message (
        field "result" result (
          field "context" (obj context) (
            field "progress" (obj (progress_as_dict progress)) (
              field "options" (or_null options) (
                field "timestamp" now
                  (field "duration" duration (field "metadata" (or_null metadata) end)))))))))

module _ (h : Digest) where
  unfoldable pub log : Json → String → Option String → JsonSeqMonitor → JsonSeqMonitor
  unfolding with_origin context_as_dict log_entry
  log now message origin mon =
      let (context, history) = context_as_dict h (with_origin origin mon.context) mon.history in
      record mon {
        history = history;
        out = mon.out ++ log_entry now (str message) context mon.progress null null null null ∷ [];
      }

  abbrev stage_progress : Pipeline → Progress → Progress
  stage_progress pl progress = elim pl.stages [
    | [] ↦ progress
    | s ∷ rest ↦
        set_sub (progress_init (String.◌++◌ "pipeline: " pl.name) (length (s ∷ rest))) progress
  ]

  unfoldable pub begin : Json → Pipeline → JsonSeqMonitor → JsonSeqMonitor
  unfolding set_pipeline set_sub log
  begin now pl mon =
      log now (String.◌++◌ "Starting pipeline " pl.name) (some "osbuild.monitor") (record mon {
        context = set_pipeline h pl mon.context;
        progress = stage_progress pl mon.progress;
      })

  unfoldable pub finish : Json → String → JsonSeqMonitor → JsonSeqMonitor
  unfolding incr log
  finish now name mon =
      log now (String.◌++◌ "Finished pipeline " name) (some "osbuild.monitor")
        (record mon { progress = incr mon.progress })

  -- `_module`, for stages and assemblers
  unfoldable pub start_module : Json → Stage → JsonSeqMonitor → JsonSeqMonitor
  unfolding set_stage log
  start_module now s mon =
      record (log now (String.◌++◌ "Starting module " s.info_name) (some "osbuild.monitor")
        (record mon {
          context = set_stage h s mon.context;
          module_options = if truthy s.options then s.options else obj end;
        })) { module_started = true }

  -- The end of `result`, with the result that is logged.
  unfoldable pub log_result : Json → Json → String → Json → Json → JsonSeqMonitor → JsonSeqMonitor
  unfolding with_origin context_as_dict log_entry incr_sub
  log_result now elapsed name result metadata mon =
      let (context, history) =
        context_as_dict h (with_origin (some "osbuild.monitor") mon.context) mon.history in
      let progress = incr_sub mon.progress in
      record mon {
        history = history;
        progress = progress;
        out =
            mon.out
            ++ log_entry now (str (String.◌++◌ "Finished module " name)) context progress
                mon.module_options (if mon.module_started then elapsed else null) result metadata
              ∷ [];
      }

abbrev pub max_output_len : ℕ
max_output_len = 31000

drop : ℕ → String → String
drop zero s = s
drop (suc n) [] = []
drop (suc n) (c ∷ s) = drop n s

-- The result that is logged is the one that was given: its output is cut in place.
unfoldable pub cut_output : (ℕ → String) → StageResult → StageResult
unfolding drop
cut_output show r =
    let removed = count r.output - max_output_len in
    if ltb max_output_len (count r.output)
    then record r {
      output =
          String.◌++◌ "[..." (
            String.◌++◌ (show removed) (String.◌++◌ " bytes hidden...]\n" (drop removed r.output)));
    }
    else r

unfoldable pub stage_as_dict : StageResult → Json
stage_as_dict r = obj (
    fields (
      ("name", str r.name)
      ∷ ("id", str r.id)
      ∷ ("success", bool r.success)
      ∷ ("output", str r.output)
      ∷ ("error", r.error)
      ∷ []))

-- `result` for a stage: the monitor, and the result as it is afterwards.
unfoldable pub stage_result :
    Digest
    → (ℕ → String)
    → Json
    → Json
    → StageResult
    → Json
    → JsonSeqMonitor
    → StageResult × JsonSeqMonitor
unfolding cut_output stage_as_dict log_result
stage_result h show now elapsed r metadata mon =
    let r' = cut_output show r in
    (r', log_result h now elapsed r'.name (stage_as_dict r') metadata mon)

-- The results of a source without those of its items, if their JSON is too long.
unfoldable pub cut_results : String → SourceResults → SourceResults
cut_results as_json sr =
    if ltb max_output_len (count as_json) then record sr { results = [] } else sr

-- `result` for a source.
unfoldable pub source_result :
    Digest
    → (List Json → String)
    → (Json → String)
    → Json
    → Json
    → SourceResults
    → JsonSeqMonitor
    → Result JsonSeqMonitor
unfolding cut_results log_result
source_result h format as_json now elapsed sr mon = do
  whole ← results_as_dict format sr
  logged ← results_as_dict format (cut_results (as_json whole) sr)
  ok (log_result h now elapsed (format (str "source " ∷ sr.source_type ∷ [])) logged null mon)
