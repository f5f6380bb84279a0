-- ===== src/Formats/V2/Load/Bases.antt =====
-- osbuild/formats/v2.py: the base of a stage that is loaded.
use osbuild.Prelude.{
  ℕ, String, Option, none, some, List, [], ◌∷◌, ◌++◌, ok, >>=-eq-ok, ◌≡◌, refl, Bool-cases,
  Option-cases, arith, inl, inr,
}
use osbuild.Prelude.Dict
use osbuild.Prelude.Dict.{Dict}
use osbuild.Json.{null}
use osbuild.Digest.{Digest}
use osbuild.Objects.{Stage, input_init, Pipeline, Manifest}
use osbuild.Stage.{stage_init, stage_id, add_device, add_mount}
use osbuild.Pipeline.{pipeline_id, last_id, add_stage}
use osbuild.Formats.V2.{DeviceDesc, InputDesc, MountDesc, StageDesc}
use osbuild.Formats.V2.Refs.{options_or, read_refs, resolve_origin}
use osbuild.Formats.V2.Devices.{sort_devices}
use osbuild.Formats.V2.Load.{
  Index, need_info, load_device, load_devices, load_input, load_inputs, mount_device, load_mount,
  load_mounts, load_devices_of, load_stage,
}

-- What the constructor of a stage sets once and for all.
abbrev pub IsOf : Option String → Option String → Option ℕ → Stage → Type 0
IsOf build base epoch s = (s.build ≡ build) × (s.base ≡ base) × (s.source_epoch ≡ epoch)

module _ (h : Digest) (build base : Option String) (epoch : Option ℕ) where
  load_device-IsOf :
      (index : Index) (name : String) (desc : DeviceDesc) (s s' : Stage)
      → load_device h index name desc s ≡ ok s'
      → IsOf build base epoch s
      → IsOf build base epoch s'
  unfolding load_device add_device
  load_device-IsOf index name desc s s' e w = ground arith

  load_devices-IsOf :
      (index : Index) (ds : Dict DeviceDesc) (s s' : Stage)
      → load_devices h index ds s ≡ ok s'
      → IsOf build base epoch s
      → IsOf build base epoch s'
  unfolding load_devices
  load_devices-IsOf index [] s s' e w = ground arith
  load_devices-IsOf index ((name, desc) ∷ rest) s s' e w =
      let (t, first, later) = >>=-eq-ok (load_device h index name desc s) _ e in
      load_devices-IsOf index rest t s' later (load_device-IsOf index name desc s t first w)

  load_input-IsOf :
      (index : Index) (name : String) (desc : InputDesc) (place : Stage → Manifest)
      (source_refs : List String) (s s' : Stage)
      → load_input h index name desc place source_refs s ≡ ok s'
      → IsOf build base epoch s
      → IsOf build base epoch s'
  unfolding load_input
  load_input-IsOf index name desc place source_refs s s' e w =
      let (info, known_info, e₁) =
        >>=-eq-ok (need_info (index.module_info "Input" desc.kind)) _ e in
      let (refs, read, e₂) = >>=-eq-ok (read_refs desc.references) _ e₁ in
      let ip = input_init h name info desc.origin (options_or desc.options) in
      let added : Stage = record s { inputs = Dict.put name ip s.inputs } in
      let (resolved, origin, e₃) =
        >>=-eq-ok (resolve_origin h desc.origin (place added) source_refs refs) _ e₂ in
      ground arith

  load_inputs-IsOf :
      (index : Index) (ds : Dict InputDesc) (place : Stage → Manifest) (source_refs : List String)
      (s s' : Stage)
      → load_inputs h index ds place source_refs s ≡ ok s'
      → IsOf build base epoch s
      → IsOf build base epoch s'
  unfolding load_inputs
  load_inputs-IsOf index [] place source_refs s s' e w = ground arith
  load_inputs-IsOf index ((name, desc) ∷ rest) place source_refs s s' e w =
      let (t, first, later) = >>=-eq-ok (load_input h index name desc place source_refs s) _ e in
      load_inputs-IsOf index rest place source_refs t s' later
        (load_input-IsOf index name desc place source_refs s t first w)

  load_mount-IsOf :
      (index : Index) (desc : MountDesc) (s s' : Stage)
      → load_mount h index desc s ≡ ok s'
      → IsOf build base epoch s
      → IsOf build base epoch s'
  unfolding load_mount add_mount
  load_mount-IsOf index desc s s' e w = elim (Bool-cases (Dict.has desc.name s.mounts)) [
    | inl taken ↦ let never = (rw taken at e) in cc
    | inr new ↦
        let (device, found, e₁) = >>=-eq-ok (mount_device h s desc.source) _ (rw new at e) in
        let (info, known_info, e₂) =
          >>=-eq-ok (need_info (index.module_info "Mount" desc.kind)) _ e₁ in
        ground arith
  ]

  load_mounts-IsOf :
      (index : Index) (ds : List MountDesc) (s s' : Stage)
      → load_mounts h index ds s ≡ ok s'
      → IsOf build base epoch s
      → IsOf build base epoch s'
  unfolding load_mounts
  load_mounts-IsOf index [] s s' e w = ground arith
  load_mounts-IsOf index (desc ∷ rest) s s' e w =
      let (t, first, later) = >>=-eq-ok (load_mount h index desc s) _ e in
      load_mounts-IsOf index rest t s' later (load_mount-IsOf index desc s t first w)

  load_devices_of-IsOf :
      (index : Index) (ds : Dict DeviceDesc) (s s' : Stage)
      → load_devices_of h index ds s ≡ ok s'
      → IsOf build base epoch s
      → IsOf build base epoch s'
  unfolding load_devices_of
  load_devices_of-IsOf index ds s s' e w = elim (Option-cases (sort_devices ds)) [
    | inl ended ↦ let never = (rw (ended, load_devices_of) at e) in cc
    | inr (sorted, found) ↦
        let (devs, done, e₁) =
          >>=-eq-ok sorted (λ l. load_devices h index l s) (rw (found, load_devices_of) at e) in
        load_devices-IsOf index devs s s' e₁ w
  ]

-- Each stage was made for the pipeline, on top of the one before it: its base is the id of that
-- stage, and none for the first.
abbrev pub IsChain : Digest → Pipeline → Option String → List Stage → Type 0
IsChain h pl base [] = Unit
IsChain h pl base (s ∷ rest) =
    (s.build ≡ pl.build)
    × (s.base ≡ base)
    × (s.source_epoch ≡ pl.source_epoch)
    × IsChain h pl (some (stage_id h s)) rest

module _ (h : Digest) where
  -- The id of the last stage, or `base` where there is none.
  abbrev pub top : Option String → List Stage → Option String
  top base [] = base
  top base (s ∷ rest) = top (some (stage_id h s)) rest

  last_id-cons :
      (base : Option String) (s : Stage) (rest : List Stage)
      → last_id h (s ∷ rest) ≡ top base (s ∷ rest)
  unfolding last_id
  last_id-cons base s [] = refl
  last_id-cons base s (t ∷ rest) = last_id-cons (some (stage_id h s)) t rest

  pub last_id-top : (ss : List Stage) → last_id h ss ≡ top none ss
  unfolding last_id
  last_id-top [] = refl
  last_id-top (s ∷ rest) = last_id-cons none s rest

  pub IsChain-snoc :
      (pl : Pipeline) (base : Option String) (ss : List Stage) (s : Stage)
      → IsChain h pl base ss
      → IsOf pl.build (top base ss) pl.source_epoch s
      → IsChain h pl base (ss ++ s ∷ [])
  IsChain-snoc pl base [] s chain w = (w.0, w.1, w.2, tt)
  IsChain-snoc pl base (t ∷ rest) s chain w =
      (chain.0, chain.1, chain.2, IsChain-snoc pl (some (stage_id h t)) rest s chain.3 w)

  -- `load_stage` appends one stage that was made for the pipeline.
  pub load_stage-snoc :
      (index : Index) (desc : StageDesc) (m : Manifest) (source_refs : List String)
      (pl pl' : Pipeline)
      → load_stage h index desc m source_refs pl ≡ ok pl'
      → (s : Stage) × IsOf pl.build (pipeline_id h pl) pl.source_epoch s
        × (pl' ≡ record pl { stages = pl.stages ++ s ∷ [] })
  unfolding load_stage add_stage stage_init
  load_stage-snoc index desc m source_refs pl pl' e =
      let (info, known_info, e₁) =
        >>=-eq-ok (need_info (index.module_info "Stage" desc.kind)) _ e in
      let place = λ (s : Stage). record m {
        pipelines = Dict.put pl.name (record pl { stages = pl.stages ++ s ∷ [] }) m.pipelines;
      } in
      let made = (add_stage h info (options_or desc.options) null pl).1 in
      let (a, with_devices, e₂) = >>=-eq-ok (load_devices_of h index desc.devices made) _ e₁ in
      let (b, with_inputs, e₃) =
        >>=-eq-ok (load_inputs h index desc.inputs place source_refs a) _ e₂ in
      let (c, with_mounts, e₄) = >>=-eq-ok (load_mounts h index desc.mounts b) _ e₃ in
      (
        c,
        load_mounts-IsOf h pl.build (pipeline_id h pl) pl.source_epoch index desc.mounts b c
            with_mounts
            (load_inputs-IsOf h pl.build (pipeline_id h pl) pl.source_epoch index desc.inputs place
              source_refs a b with_inputs
              (load_devices_of-IsOf h pl.build (pipeline_id h pl) pl.source_epoch index desc.devices
                made a with_devices (refl, refl, refl))),
        cc,
      )
