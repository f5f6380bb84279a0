-- ===== src/Sources/RoundTrip.antt =====
-- osbuild/sources.py: results that are sent as JSON and read back, and the results of `copy_all`.
use osbuild.Prelude.{
  String, Bool, true, false, ◌&&◌, Option, none, some, List, [], ◌∷◌, ok, >>=-eq-ok, ◌≡◌, refl,
  subst, ◌∙◌, arith, Bool-cases, inl, inr,
}
use osbuild.Json.{Json, str, arr, obj, end, field, truthy}
use osbuild.Json.Reads.{item, get_or, iterate}
use osbuild.Sources.{
  SourceItemResult, SourceResults, item_as_dict, item_from_dict, items_as_dicts, items_from_dicts,
  output, source_name, results_as_dict, results_from_dict, add_item, copy_one, copy_all,
}

item_from_dict-as_dict : (r : SourceItemResult) → item_from_dict (item_as_dict r) ≡ ok r
unfolding item_from_dict item_as_dict item get_or
item_from_dict-as_dict r = refl

items_from_dicts-as_dicts :
    (rs : List SourceItemResult) → items_from_dicts (items_as_dicts rs) ≡ ok rs
unfolding items_from_dicts items_as_dicts
items_from_dicts-as_dicts [] = refl
items_from_dicts-as_dicts (r ∷ rs) =
    rw (item_from_dict-as_dict r, items_from_dicts-as_dicts rs) refl

-- Where results can be written as JSON at all, reading the JSON gives them back.
pub results_from_dict-as_dict :
    (format : List Json → String) (sr : SourceResults) (j : Json)
    → results_as_dict format sr ≡ ok j
    → results_from_dict j ≡ ok sr
unfolding results_as_dict results_from_dict item iterate
results_from_dict-as_dict format sr j e =
    let (text, written, same) = >>=-eq-ok (output format sr) _ e in
    let shape : obj (
          field "name" (str (source_name format sr)) (
            field "source_type" sr.source_type (
              field "success" sr.success (
                field "output" (str text)
                  (field "results" (arr (items_as_dicts sr.results)) end)))))
        ≡ j =
      cc in
    subst (λ (k : Json). results_from_dict k ≡ ok sr) shape
      (rw (items_from_dicts-as_dicts sr.results) refl)

abbrev is_done : Option String → Bool
is_done none = true
is_done (some e) = false

-- No copy of the list fails.
unfoldable pub all_copied : (String → Option String) → List String → Bool
all_copied copy [] = true
all_copied copy (i ∷ rest) = is_done (copy i) && all_copied copy rest

copy_one-success :
    (copy : String → Option String) (i : String)
    → truthy (copy_one copy i).success ≡ is_done (copy i)
unfolding copy_one
copy_one-success copy i = ground arith

add_item-failed :
    (r : SourceItemResult) (sr : SourceResults)
    → truthy sr.success ≡ false
    → truthy (add_item r sr).success ≡ false
unfolding add_item
add_item-failed r sr e = elim (Bool-cases (truthy r.success)) [
  | inl good ↦ rw good e
  | inr bad ↦ rw bad refl
]

copy_all-failed :
    (copy : String → Option String) (items : List String) (sr : SourceResults)
    → truthy sr.success ≡ false
    → truthy (copy_all copy items sr).success ≡ false
unfolding copy_all
copy_all-failed copy [] sr e = e
copy_all-failed copy (i ∷ rest) sr e =
    copy_all-failed copy rest (add_item (copy_one copy i) sr)
      (add_item-failed (copy_one copy i) sr e)

-- `copy_all` reports success, for results that were successful before, exactly where no copy fails.
copy_all-all_copied :
    (copy : String → Option String) (items : List String) (sr : SourceResults)
    → truthy sr.success ≡ true
    → truthy (copy_all copy items sr).success ≡ all_copied copy items
unfolding copy_all all_copied add_item
copy_all-all_copied copy [] sr e = e
copy_all-all_copied copy (i ∷ rest) sr e = elim (Bool-cases (is_done (copy i))) [
  | inl done ↦
      let good : truthy (copy_one copy i).success ≡ true = copy_one-success copy i ∙ done in
      rw done (copy_all-all_copied copy rest (add_item (copy_one copy i) sr) (rw good e))
  | inr failed ↦
      let bad : truthy (copy_one copy i).success ≡ false = copy_one-success copy i ∙ failed in
      rw failed (copy_all-failed copy rest (add_item (copy_one copy i) sr) (rw bad refl))
]
