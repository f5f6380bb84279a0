-- ===== src/Monitor/Failing.antt =====
-- osbuild/monitor.py: which results of a source `JSONSeqMonitor.result` can log.
use osbuild.Prelude.{
  Result, some, ◌∷◌, ◌++◌, if◌then◌else◌, String, Bool, true, false, not, ◌||◌, List, [], ltb, ok,
  err, index_error, ◌≡◌, refl, sym, subst, Bool-cases, inl, inr, arith,
}
use Prim.Native.String
use Prim.Native.String.{count}
use osbuild.Json.{Json, null, str, truthy}
use osbuild.Digest.{Digest}
use osbuild.Sources.{SourceResults, output, results_as_dict}
use osbuild.Monitor.{
  JsonSeqMonitor, max_output_len, with_origin, context_as_dict, incr_sub, log_entry, log_result,
  cut_results, source_result,
}

-- The JSON of the results is short enough to be logged as it is.
abbrev pub is_short : (Json → String) → Json → Bool
is_short as_json whole = not (ltb max_output_len (count (as_json whole)))

module _ (format : List Json → String) where
  results_as_dict-success :
      (sr : SourceResults)
      → truthy sr.success ≡ true
      → (j : Json) × (results_as_dict format sr ≡ ok j)
  unfolding results_as_dict output
  results_as_dict-success sr fine = rw fine (_, refl)

  results_as_dict-no_items :
      (sr : SourceResults)
      → truthy sr.success ≡ false
      → sr.results ≡ []
      → results_as_dict format sr ≡ err index_error
  unfolding results_as_dict output
  results_as_dict-no_items sr failed none_ = rw (failed, none_) refl

  module _ (h : Digest) (as_json : Json → String) (now elapsed whole : Json) (sr : SourceResults)
      (mon : JsonSeqMonitor) where
    -- The entry that reports some results: its message, its context, the nested progress one step
    -- further, the options of the last stage, and the results.
    abbrev pub entry_of : Json → Json
    entry_of logged =
        log_entry now
          (str (String.◌++◌ "Finished module " (format (str "source " ∷ sr.source_type ∷ []))))
          (context_as_dict h (with_origin (some "osbuild.monitor") mon.context) mon.history).0
          (incr_sub mon.progress) mon.module_options (if mon.module_started then elapsed else null)
          logged null

    -- One entry was written, which reports these results; or the monitor raised an IndexError.
    abbrev pub IsLogged : Bool → SourceResults → Result JsonSeqMonitor → Type 0
    IsLogged true reported r =
        (logged : Json) × (mon' : JsonSeqMonitor) × (results_as_dict format reported ≡ ok logged)
        × (r ≡ ok mon')
        × (mon'.out ≡ mon.out ++ entry_of logged ∷ [])
    IsLogged false reported r = r ≡ err index_error

    abbrev pub reported : SourceResults
    reported = if is_short as_json whole then sr else record sr { results = [] }

    Outcome : SourceResults → Bool → Type 0
    Outcome cut b = IsLogged b cut (source_result h format as_json now elapsed sr mon)

    source_result-cut :
        (logged : Json) (cut : SourceResults)
        → results_as_dict format sr ≡ ok whole
        → cut_results (as_json whole) sr ≡ cut
        → results_as_dict format cut ≡ ok logged
        → Outcome cut true
    unfolding source_result log_result Outcome
    source_result-cut logged cut written is_cut again =
        rw (written, is_cut, again) (logged, _, refl, refl, refl)

    -- Results of a source that can be written as JSON are logged in one new entry, with the results of
    -- the items if the JSON of all is short enough and without them else; unless the source failed and
    -- the JSON is too long: then the monitor raises an IndexError.
    pub source_result-IsLogged :
        results_as_dict format sr ≡ ok whole
        → IsLogged
            (truthy sr.success || is_short as_json whole)
            reported
            (source_result h format as_json now elapsed sr mon)
    unfolding source_result cut_results Outcome
    source_result-IsLogged written = elim (Bool-cases (is_short as_json whole)) [
      | inl short ↦
          let either : (truthy sr.success || true) ≡ true = ground arith in
          let under : ltb max_output_len (count (as_json whole)) ≡ false = ground arith in
          rw short (
            subst (Outcome sr) (sym either)
              (source_result-cut whole sr written (rw under refl) written))
      | inr long ↦
          let over : ltb max_output_len (count (as_json whole)) ≡ true = ground arith in
          let cut = record sr { results = [] } in
          rw long (elim (Bool-cases (truthy sr.success)) [
            | inl fine ↦
                let either : (truthy sr.success || false) ≡ true = ground arith in
                let (j, again) = results_as_dict-success cut fine in
                subst (Outcome cut) (sym either)
                  (source_result-cut j cut written (rw over refl) again)
            | inr failed ↦
                let neither : (truthy sr.success || false) ≡ false = ground arith in
                subst (Outcome cut) (sym neither)
                  (rw (written, over, results_as_dict-no_items cut failed refl) refl)
          ])
    ]
