-- ===== src/Formats/V2/Devices/Pass.antt =====
-- What one pass of `sort_devices` of osbuild/formats/v2.py over `todo` keeps.
use mathlib.Core.List.{append_assoc, append-nil}
use osbuild.Prelude.{
  suc, ◌≤◌, ◌+◌, String, ◌==◌, eq_iff, true, false, Option, none, some, List, [], ◌∷◌, ◌++◌,
  truthy_text, Result, ok, value_error, length, Has, All, All-imp, Has-append, Has-append_left,
  Has-append_right, ◌≡◌, refl, sym, ap, ◌∙◌, subst, ◌⊎◌, inl, inr, arith, Bool-cases, Option-cases,
}
use osbuild.Prelude.Dict
use osbuild.Prelude.Dict.{Dict, has-put}
use osbuild.Formats.V2.{DeviceDesc}
use osbuild.Formats.V2.Devices.{Wait, ready, waits, missing, wait_for, pass}

-- The device has no parent, or its parent stands before it.
abbrev pub ParentIn : List String → Option String → Type 0
ParentIn before none = Unit
ParentIn before (some p) = (truthy_text p ≡ false) ⊎ Has p before

-- Every device stands behind its parent.
abbrev pub IsSorted : List String → Dict DeviceDesc → Type 0
IsSorted before [] = Unit
IsSorted before ((name, desc) ∷ rest) = ParentIn before desc.parent × IsSorted (name ∷ before) rest

-- Every entry of the result is one of `devices`.
abbrev pub IsFrom : Dict DeviceDesc → Dict DeviceDesc → Type 0
IsFrom devices [] = Unit
IsFrom devices ((name, desc) ∷ rest) = (Dict.get name devices ≡ some desc) × IsFrom devices rest

-- Each of `names` is done or still to do.
abbrev pub Covers : List String → Dict DeviceDesc → List String → Type 0
Covers todo result = All (λ k. Has k todo ⊎ (Dict.has k result ≡ true))

-- The parent stands among `before` or in `result`.
abbrev ParentKnown : List String → Dict DeviceDesc → Option String → Type 0
ParentKnown before result none = Unit
ParentKnown before result (some p) =
    (truthy_text p ≡ false) ⊎ (Has p before ⊎ (Dict.has p result ≡ true))

wait_for-ready :
    (parent : Option String) (todo : List String) (result : Dict DeviceDesc)
    → wait_for parent todo result ≡ ready
    → ParentKnown [] result parent
unfolding wait_for
wait_for-ready none todo result e = tt
wait_for-ready (some parent) todo result e = ground arith

-- Nothing is left to look through, or the first entry is one of those before.
ParentKnown-nil :
    (before : List String) (o : Option String) → ParentKnown before [] o → ParentIn before o
unfolding Dict.has
ParentKnown-nil before none k = tt
ParentKnown-nil before (some p) (inl e) = inl e
ParentKnown-nil before (some p) (inr (inl w)) = inr w
ParentKnown-nil before (some p) (inr (inr h)) = cc

ParentKnown-cons :
    (before : List String) (j : String) (w : DeviceDesc) (result : Dict DeviceDesc)
    (o : Option String)
    → ParentKnown before ((j, w) ∷ result) o
    → ParentKnown (j ∷ before) result o
unfolding Dict.has
ParentKnown-cons before j w result none k = tt
ParentKnown-cons before j w result (some p) (inl e) = inl e
ParentKnown-cons before j w result (some p) (inr (inl h)) = inr (inl (inr h))
ParentKnown-cons before j w result (some p) (inr (inr h)) = elim (Bool-cases (j == p)) [
  | inl same ↦ inr (inl (inl (ground (arith, eq_iff j p))))
  | inr other ↦ inr (inr (rw other at h))
]

IsFrom-put :
    (devices : Dict DeviceDesc) (name : String) (desc : DeviceDesc) (result : Dict DeviceDesc)
    → Dict.get name devices ≡ some desc
    → IsFrom devices result
    → IsFrom devices (Dict.put name desc result)
unfolding Dict.put
IsFrom-put devices name desc [] e f = (e, tt)
IsFrom-put devices name desc ((j, w) ∷ result) e f = elim (Bool-cases (j == name)) [
  | inl same ↦ rw same (rw ((eq_iff j name).0 same) e, f.1)
  | inr other ↦ rw other (f.0, IsFrom-put devices name desc result e f.1)
]

-- A device whose parent is there can be added, at the end or where it stands already.
IsSorted-put :
    (devices : Dict DeviceDesc) (before : List String) (name : String) (desc : DeviceDesc)
    (result : Dict DeviceDesc)
    → Dict.get name devices ≡ some desc
    → IsFrom devices result
    → IsSorted before result
    → ParentKnown before result desc.parent
    → IsSorted before (Dict.put name desc result)
unfolding Dict.put
IsSorted-put devices before name desc [] e f s k = (ParentKnown-nil before desc.parent k, tt)
IsSorted-put devices before name desc ((j, w) ∷ result) e f s k = elim (Bool-cases (j == name)) [
  | inl same ↦ rw same (
      let here : some w ≡ some desc =
        sym f.0 ∙ ap (λ n. Dict.get n devices) ((eq_iff j name).0 same) ∙ e in
      let same_desc : w ≡ desc = cc in
      (subst (λ (d : DeviceDesc). ParentIn before d.parent) same_desc s.0, s.1))
  | inr other ↦ rw other (
    s.0,
    IsSorted-put devices (j ∷ before) name desc result e f.1 s.1
        (ParentKnown-cons before j w result desc.parent k),
  )
]

-- What `pass` keeps of its invariants, for the devices that it has seen and the rest.
pub record PassInv (devices : Dict DeviceDesc) (names todo : List String) (result : Dict DeviceDesc)
    : Type 0 where
  pub from : IsFrom devices result
  pub sorted : IsSorted [] result
  pub covers : Covers todo result names

cover_done :
    (name k : String) (desc : DeviceDesc) (kept todo : List String) (result : Dict DeviceDesc)
    → Has k (kept ++ name ∷ todo) ⊎ (Dict.has k result ≡ true)
    → Has k (kept ++ todo) ⊎ (Dict.has k (Dict.put name desc result) ≡ true)
cover_done name k desc kept todo result (inr h) = inr (rw has-put (ground arith))
cover_done name k desc kept todo result (inl w) = elim (Has-append k kept (name ∷ todo) w) [
  | inl l ↦ inl (Has-append_left k kept todo l)
  | inr (inl e) ↦ inr (rw has-put (ground (arith, eq_iff name k)))
  | inr (inr r) ↦ inl (Has-append_right k kept todo r)
]

Wait-cases : (w : Wait) → (w ≡ ready) ⊎ ((w ≡ waits) ⊎ (w ≡ missing))
Wait-cases ready = inl refl
Wait-cases waits = inr (inl refl)
Wait-cases missing = inr (inr refl)

ready-PassInv :
    (devices : Dict DeviceDesc) (names kept todo : List String) (result : Dict DeviceDesc)
    (name : String) (desc : DeviceDesc)
    → PassInv devices names (kept ++ name ∷ todo) result
    → Dict.get name devices ≡ some desc
    → wait_for desc.parent (kept ++ name ∷ todo) result ≡ ready
    → PassInv devices names (kept ++ todo) (Dict.put name desc result)
ready-PassInv devices names kept todo result name desc inv g w = record {
  from = IsFrom-put devices name desc result g inv.from;
  sorted =
      IsSorted-put devices [] name desc result g inv.from inv.sorted
        (wait_for-ready desc.parent (kept ++ name ∷ todo) result w);
  covers = All-imp _ _ names (λ k. cover_done name k desc kept todo result) inv.covers;
}

length-snoc : (xs : List String) (x : String) → length (xs ++ x ∷ []) ≡ suc (length xs)
length-snoc [] x = refl
length-snoc (y ∷ xs) x = ap suc (length-snoc xs x)

pub pass-PassInv :
    (devices : Dict DeviceDesc) (names kept todo : List String) (result : Dict DeviceDesc)
    {left : List String} {result' : Dict DeviceDesc}
    → PassInv devices names (kept ++ todo) result
    → pass devices kept todo result ≡ ok (left, result')
    → PassInv devices names left result' × (length left ≤ length kept + length todo)
unfolding pass
pass-PassInv devices names kept [] result {left} {result'} inv e =
    let same : kept ≡ left = cc in
    let same_result : result ≡ result' = cc in
    rw (← same, ← same_result)
      (
        record { from = inv.from; sorted = inv.sorted; covers = rw append-nil at inv.covers },
        omega arith,
      )
pass-PassInv devices names kept (name ∷ todo) result {left} {result'} inv e =
    elim (Option-cases (Dict.get name devices)) [
      | inl g ↦ let never : Result.err value_error ≡ ok (left, result') = (rw (g, pass) at e) in cc
      | inr (desc, g) ↦ elim (Wait-cases (wait_for desc.parent (kept ++ name ∷ todo) result)) [
        | inl w ↦
            let (kept_inv, short) =
              pass-PassInv devices names kept todo (Dict.put name desc result)
                (ready-PassInv devices names kept todo result name desc inv g w)
                (rw (g, pass, w) at e) in
            (kept_inv, omega arith)
        | inr (inl w) ↦
            let (kept_inv, short) =
              pass-PassInv devices names (kept ++ name ∷ []) todo result (rw append_assoc inv)
                (rw (g, pass, w) at e) in
            (kept_inv, omega (arith, length-snoc kept name))
        | inr (inr w) ↦
            let never : Result.err value_error ≡ ok (left, result') = (rw (g, pass, w) at e) in cc
      ]
    ]
