-- ===== src/Tests/Sources.antt =====
-- Runs of osbuild/sources.py: the results of two items, as they are sent, and a copy that fails.
use osbuild.Prelude.{String, true, false, List, [], ◌∷◌, ok, ◌≡◌, refl}
use osbuild.Json.{Json, bool, str, arr, obj, nil, cons, end, field}
use osbuild.Sources.{
  SourceItemResult, SourceResults, results_init, results_as_dict, results_from_dict, copy_all,
  item_result_init,
}
use osbuild.Sources.RoundTrip.{results_from_dict-as_dict}

abbrev pub first_text : List Json → String
first_text (str s ∷ rest) = s
first_text other = ""

abbrev pub done : SourceItemResult
done = item_result_init (bool true) (obj (field "cached" (bool true) end)) (str "")

abbrev pub lost : SourceItemResult
lost = item_result_init (bool false) (obj end) (str "not found")

abbrev pub results : SourceResults
results = record {
  source_type = str "org.osbuild.curl";
  success = bool false;
  results = done ∷ lost ∷ [];
}

abbrev pub sent : Json
sent = obj (
    field "name" (str "source ") (
      field "source_type" (str "org.osbuild.curl") (
        field "success" (bool false) (
          field "output" (str "source ") (
            field "results"
              (arr (
                cons
                  (obj (
                    field "success" (bool true) (
                      field "metadata" (obj (field "cached" (bool true) end))
                        (field "error" (str "") end))))
                  (cons
                    (obj (
                      field "success" (bool false)
                        (field "metadata" (obj end) (field "error" (str "not found") end))))
                    nil)))
              end)))))

pub results_sent : results_as_dict first_text results ≡ ok sent
unfolding results_as_dict osbuild.Sources.output osbuild.Sources.item_as_dict
results_sent = refl

results_from_dict-as_dict_example : results_from_dict sent ≡ ok results
results_from_dict-as_dict_example = results_from_dict-as_dict first_text results sent results_sent
