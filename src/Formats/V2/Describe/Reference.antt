-- ===== src/Formats/V2/Describe/Reference.antt =====
-- osbuild/formats/v2.py: a reference that `describe` writes, read by `resolve_ref`.
use Prim.Native.String
use Prim.Native.String.{slice, len}
use text.Mathlib.TextPositions.{slice-append_right, len-append}
use osbuild.Prelude.{
  String, false, Option, none, some, List, [], ◌∷◌, ok, ◌≡◌, refl, sym, ap, subst, ◌∙◌, Bool-cases,
  inl, inr, opt_eq_sound, opt_eq, Has, All, All_at, arith,
}
use osbuild.Prelude.Dict
use osbuild.Digest.{Digest}
use osbuild.Objects.{Pipeline, Manifest}
use osbuild.Pipeline.{pipeline_id}
use osbuild.Manifest.{named, find_id, get, get_item}
use osbuild.Formats.V2.Refs.{resolve_ref}
use osbuild.Formats.V2.Describe.{pipeline_ref}

module _ (h : Digest) where
  find_id-found :
      (id : Option String) (pls : List Pipeline) (pl : Pipeline)
      → find_id h id pls ≡ some pl
      → Has pl pls × (pipeline_id h pl ≡ id)
  unfolding find_id
  find_id-found id [] pl e = cc
  find_id-found id (p ∷ rest) pl e = elim (Bool-cases (opt_eq (pipeline_id h p) id)) [
    | inl same ↦
        let here : some p ≡ some pl = (rw same at e) in
        let equal : p ≡ pl = cc in
        (inl (sym equal), subst (λ x. pipeline_id h x ≡ id) equal (opt_eq_sound _ _ same))
    | inr apart ↦
        let (there, found) = find_id-found id rest pl (rw apart at e) in (inr there, found)
  ]

  resolve_ref-name :
      (m : Manifest) (pl : Pipeline)
      → Dict.get pl.name m.pipelines ≡ some pl
      → resolve_ref h (String.◌++◌ "name:" pl.name) m ≡ ok (pipeline_id h pl)
  unfolding resolve_ref
  resolve_ref-name m pl there =
      rw (len-append "name:" pl.name, slice-append_right "name:" pl.name, there) refl

  -- Every pipeline of the manifest is the one under its name.
  abbrev pub IsNamed : Manifest → Type 0
  IsNamed m =
      All (λ (pl : Pipeline). Dict.get pl.name m.pipelines ≡ some pl) (Dict.values m.pipelines)

  -- In a manifest whose pipelines are those under their names, `describe` writes a reference for the
  -- id of any of them, if the id is not also a name, and `resolve_ref` reads the id back from it.
  resolve_ref-pipeline_ref :
      (m : Manifest) (pid : Option String) (pl : Pipeline)
      → IsNamed m
      → named pid m.pipelines ≡ none
      → get_item h m pid ≡ ok pl
      → (ref : String) × (pipeline_ref h m false pid ≡ ok (some ref))
        × (resolve_ref h ref m ≡ ok pid)
  unfolding pipeline_ref get_item get
  resolve_ref-pipeline_ref m pid pl is_named no_name found =
      let by_id : find_id h pid (Dict.values m.pipelines) ≡ some pl = ground arith in
      let (there, same) = find_id-found pid (Dict.values m.pipelines) pl by_id in
      (
        String.◌++◌ "name:" pl.name,
        rw found refl,
        resolve_ref-name m pl (All_at _ (Dict.values m.pipelines) pl is_named there) ∙ ap ok same,
      )
