-- ===== src/Formats/V2/Refs.antt =====
-- osbuild/formats/v2.py: the references of an input, in `resolve_ref` and `load_input`.
use Prim.Native.String.{slice, len}
use text.Mathlib.Text.{starts_with}
use osbuild.Prelude.{
  String, ◌==◌, Bool, true, false, Option, none, some, List, [], ◌∷◌, if◌then◌else◌, opt_eq, Result,
  ok, err, value_error, attribute_error, ◌>>=◌,
}
use osbuild.Prelude.Dict
use osbuild.Prelude.Dict.{Dict}
use osbuild.Json.{Json, obj, end}
use osbuild.Digest.{Digest}
use osbuild.Objects.{Input, Pipeline, Manifest, Refs, put_ref, add_reference}
use osbuild.Pipeline.{pipeline_id}
use osbuild.Formats.V2.{
  RefItem, name_ref, object_ref, bad_ref, RefsDesc, no_refs, ref_list, ref_dict,
}

-- `description.get("options", {})`
abbrev pub options_or : Option Json → Json
options_or none = obj end
options_or (some j) = j

-- `dict(make_ref(ref) for ref in refs)`
unfoldable pub make_refs : List RefItem → Refs → Result Refs
make_refs [] refs = ok refs
make_refs (name_ref name ∷ rest) refs = make_refs rest (put_ref (some name) (obj end) refs)
make_refs (object_ref id options ∷ rest) refs =
    make_refs rest (put_ref id (options_or options) refs)
make_refs (bad_ref ∷ rest) refs = err value_error

dict_refs : Dict Json → Refs
dict_refs [] = []
dict_refs ((k, v) ∷ d) = (some k, v) ∷ dict_refs d

unfoldable pub read_refs : RefsDesc → Result Refs
unfolding dict_refs
read_refs no_refs = ok []
read_refs (ref_list items) = make_refs items []
read_refs (ref_dict d) = ok (dict_refs d)

known : Option String → List String → Bool
known k [] = false
known k (r ∷ rs) = if opt_eq k (some r) then true else known k rs

-- `set(refs.keys()) - source_refs` is empty.
unfoldable pub all_known : List String → Refs → Bool
unfolding known
all_known source_refs [] = true
all_known source_refs ((k, v) ∷ refs) =
    let rest = all_known source_refs refs in if known k source_refs then rest else false

module _ (h : Digest) where
  target_id : Option Pipeline → Result (Option String)
  target_id none = err value_error
  target_id (some target) = ok (pipeline_id h target)

  unfoldable pub resolve_ref : String → Manifest → Result (Option String)
  unfolding target_id
  resolve_ref name m = target_id (Dict.get (slice name 5 (len name)) m.pipelines)

  -- References to pipelines are by name; others are passed over. (A key `None` has no
  -- `startswith`.)
  unfoldable pub resolve_refs : Manifest → Refs → Refs → Result Refs
  resolve_refs m [] resolved = ok resolved
  resolve_refs m ((none, desc) ∷ refs) resolved = err attribute_error
  resolve_refs m ((some r, desc) ∷ refs) resolved =
      if starts_with r "name:"
      then resolve_ref r m >>= (λ target. resolve_refs m refs (put_ref target desc resolved))
      else resolve_refs m refs resolved

  unfoldable pub resolve_origin : String → Manifest → List String → Refs → Result Refs
  resolve_origin origin m source_refs refs =
      if origin == "org.osbuild.pipeline"
      then resolve_refs m refs []
      else if origin == "org.osbuild.source"
      then (if all_known source_refs refs then ok refs else err value_error)
      else ok refs

  unfoldable pub add_references : Refs → Input → Input
  add_references [] ip = ip
  add_references ((r, desc) ∷ refs) ip = add_references refs (add_reference h r desc ip)
