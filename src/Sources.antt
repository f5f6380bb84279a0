-- ===== src/Sources.antt =====
-- osbuild/sources.py: the results of the source services, their JSON form, and `copy_all`. A value
-- that a service sends is JSON of any kind, as in the code. `format`, what Python writes for such a
-- value in a text, is a parameter.
pub mod RoundTrip
use osbuild.Prelude.{
  String, Bool, true, false, Option, none, some, List, [], ◌∷◌, ◌++◌, if◌then◌else◌, Result, ok,
  err, ◌>>=◌, type_error, index_error, truthy_text,
}
use osbuild.Json.{Json, null, bool, str, arr, obj, Items, nil, cons, Fields, end, field, truthy}
use osbuild.Json.Reads.{item, get_or, iterate}

pub record SourceItemResult : Type 0 where
  pub success : Json
  pub metadata : Json
  pub error : Json

pub record SourceResults : Type 0 where
  pub source_type : Json
  pub success : Json
  pub results : List SourceItemResult

abbrev or_fields : Json → Json
or_fields null = obj end
or_fields j = j

abbrev pub item_result_init : Json → Json → Json → SourceItemResult
item_result_init success metadata error = record {
  success = success;
  metadata = or_fields metadata;
  error = error;
}

unfoldable pub set_error : Json → SourceItemResult → SourceItemResult
set_error error r = record r { error = error; success = bool false }

unfoldable pub item_as_dict : SourceItemResult → Json
item_as_dict r =
    obj (field "success" r.success (field "metadata" r.metadata (field "error" r.error end)))

unfoldable pub item_from_dict : Json → Result SourceItemResult
item_from_dict j = item "success" j >>= λ success. ok (record {
  success = success;
  metadata = get_or "metadata" (obj end) j;
  error = get_or "error" (str "") j;
})

abbrev pub results_init : Json → SourceResults
results_init source_type = record { source_type = source_type; success = bool true; results = [] }

unfoldable pub add_item : SourceItemResult → SourceResults → SourceResults
add_item r sr = record sr {
  results = sr.results ++ r ∷ [];
  success = if truthy r.success then sr.success else bool false;
}

-- `results[-1].error`
last_error : List SourceItemResult → Result Json
last_error [] = err index_error
last_error (r ∷ []) = ok r.error
last_error (r ∷ t ∷ rest) = last_error (t ∷ rest)

items_as_dicts : List SourceItemResult → Items
items_as_dicts [] = nil
items_as_dicts (r ∷ rs) = cons (item_as_dict r) (items_as_dicts rs)

items_from_dicts : Items → Result (List SourceItemResult)
items_from_dicts nil = ok []
items_from_dicts (cons j js) = item_from_dict j >>= λ r. (items_from_dicts js >>= λ rs. ok (r ∷ rs))

module _ (format : List Json → String) where
  -- The texts are `f"source {source_type}"` and the two of `output`; `format` joins the parts.
  source_name : SourceResults → String
  source_name sr = format (str "source " ∷ sr.source_type ∷ [])

  unfoldable pub output : SourceResults → Result String
  unfolding last_error
  output sr =
      if truthy sr.success
      then ok (format (str "source " ∷ sr.source_type ∷ str " finished successfully" ∷ []))
      else (last_error sr.results >>= λ error.
          ok (
            format
              (str "source " ∷ sr.source_type ∷ str " finished unsuccessfully: " ∷ error ∷ [])))

  unfoldable pub results_as_dict : SourceResults → Result Json
  unfolding items_as_dicts source_name
  results_as_dict sr = output sr >>= λ text. ok (
      obj (
        field "name" (str (source_name sr)) (
          field "source_type" sr.source_type (
            field "success" sr.success (
              field "output" (str text) (field "results" (arr (items_as_dicts sr.results)) end))))))

unfoldable pub results_from_dict : Json → Result SourceResults
unfolding items_from_dicts
results_from_dict j = do
  source_type ← item "source_type" j
  success ← item "success" j
  listed ← item "results" j
  dicts ← iterate listed
  results ← items_from_dicts dicts
  ok (record { source_type = source_type; success = success; results = results })

abbrev copied : SourceItemResult → Option String → SourceItemResult
copied res none = res
copied res (some e) = set_error (str e) res

-- The body of the loop of `copy_all`: `copy` tries to copy one item of the cache, and gives the
-- error's text where that fails.
unfoldable pub copy_one : (String → Option String) → String → SourceItemResult
unfolding set_error
copy_one copy i =
    copied (item_result_init (bool true) (obj (field "checksum" (str i) end)) (str "")) (copy i)

unfoldable pub copy_all : (String → Option String) → List String → SourceResults → SourceResults
unfolding add_item copy_one
copy_all copy [] sr = sr
copy_all copy (i ∷ rest) sr = copy_all copy rest (add_item (copy_one copy i) sr)
