-- ===== src/Meta/Runners/Best.antt =====
-- osbuild/meta.py: which runner `detect_runner` takes.
use osbuild.Prelude.{
  ℕ, ◌≤◌, ◌<◌, String, ◌==◌, eq_iff, true, false, some, List, [], ◌∷◌, reverse, reverse_aux, leb,
  Result, ok, err, value_error, ◌↔◌, ◌≡◌, refl, sym, ap, subst, ◌∙◌, ◌⊎◌, inl, inr, Bool-cases,
  arith, Has, All, All-imp, All-and, All_at, All-Has, List-cases, Has-reverse_aux,
  Has-reverse_aux_inv,
}
use Prim.Native.String
use osbuild.Meta.Runners.{
  RunnerInfo, le_runner, sort_runners, of_distro, first_fit, Index, from_paths, list_runners,
  parse_name, detect_runner,
}
use osbuild.Meta.Runners.Order.{
  le_pair, le_pair-version, IsAscending, sort_runners-IsAscending, sort_runners-Has,
}

of_distro-Has_same :
    (d : String) (x r : RunnerInfo) (rs : List RunnerInfo)
    → r.distro ≡ d
    → Has x (of_distro d rs) ↔ ((x.distro ≡ d) × Has x rs)
    → Has x (r ∷ of_distro d rs) ↔ ((x.distro ≡ d) × Has x (r ∷ rs))
of_distro-Has_same d x r rs same (there, back) = (into, onto)
  where
    into : Has x (r ∷ of_distro d rs) → (x.distro ≡ d) × Has x (r ∷ rs)
    into (inl e) = (ap (λ (y : RunnerInfo). y.distro) e ∙ same, inl e)
    into (inr w) = let (f, v) = there w in (f, inr v)

    onto : (x.distro ≡ d) × Has x (r ∷ rs) → Has x (r ∷ of_distro d rs)
    onto (f, inl e) = inl e
    onto (f, inr w) = inr (back (f, w))

of_distro-Has_other :
    (d : String) (x r : RunnerInfo) (rs : List RunnerInfo)
    → ¬ (r.distro ≡ d)
    → Has x (of_distro d rs) ↔ ((x.distro ≡ d) × Has x rs)
    → Has x (of_distro d rs) ↔ ((x.distro ≡ d) × Has x (r ∷ rs))
of_distro-Has_other d x r rs other (there, back) = (into, onto)
  where
    into : Has x (of_distro d rs) → (x.distro ≡ d) × Has x (r ∷ rs)
    into w = let (f, v) = there w in (f, inr v)

    onto : (x.distro ≡ d) × Has x (r ∷ rs) → Has x (of_distro d rs)
    onto (f, inl e) = absurd (other (sym (ap (λ (y : RunnerInfo). y.distro) e) ∙ f))
    onto (f, inr w) = back (f, w)

of_distro-Has :
    (d : String) (x : RunnerInfo) (rs : List RunnerInfo)
    → Has x (of_distro d rs) ↔ ((x.distro ≡ d) × Has x rs)
unfolding of_distro
of_distro-Has d x [] = (λ w. absurd w, λ w. w.1)
of_distro-Has d x (r ∷ rs) = elim (Bool-cases (r.distro == d)) [
  | inl same ↦
      rw same
        (of_distro-Has_same d x r rs (ground (arith, eq_iff r.distro d)) (of_distro-Has d x rs))
  | inr apart ↦
      rw apart
        (of_distro-Has_other d x r rs (ground (arith, eq_iff r.distro d)) (of_distro-Has d x rs))
]

of_distro-All :
    (P : RunnerInfo → Type 0) (d : String) (rs : List RunnerInfo)
    → All P rs
    → All P (of_distro d rs)
unfolding of_distro
of_distro-All P d [] a = tt
of_distro-All P d (r ∷ rs) a = elim (Bool-cases (r.distro == d)) [
  | inl same ↦ rw same (a.0, of_distro-All P d rs a.1)
  | inr apart ↦ rw apart (of_distro-All P d rs a.1)
]

of_distro-IsAscending :
    (d : String) (rs : List RunnerInfo) → IsAscending rs → IsAscending (of_distro d rs)
unfolding of_distro
of_distro-IsAscending d [] a = tt
of_distro-IsAscending d (r ∷ rs) a = elim (Bool-cases (r.distro == d)) [
  | inl same ↦ rw same (of_distro-All _ d rs a.0, of_distro-IsAscending d rs a.1)
  | inr apart ↦ rw apart (of_distro-IsAscending d rs a.1)
]

abbrev IsRising : List RunnerInfo → Type 0
IsRising [] = Unit
IsRising (r ∷ rs) = All (λ (x : RunnerInfo). r.version ≤ x.version) rs × IsRising rs

abbrev IsFalling : List RunnerInfo → Type 0
IsFalling [] = Unit
IsFalling (r ∷ rs) = All (λ (x : RunnerInfo). x.version ≤ r.version) rs × IsFalling rs

le_runner-version :
    (d : String) (a b : RunnerInfo)
    → a.distro ≡ d
    → b.distro ≡ d
    → le_runner a b ≡ true
    → a.version ≤ b.version
le_runner-version d a b ea eb le = le_pair-version d a.version b.version (
    subst (λ s. le_pair d a.version s b.version ≡ true) eb
      (subst (λ s. le_pair s a.version b.distro b.version ≡ true) ea le))

IsAscending-IsRising :
    (d : String) (rs : List RunnerInfo)
    → All (λ (x : RunnerInfo). x.distro ≡ d) rs
    → IsAscending rs
    → IsRising rs
IsAscending-IsRising d [] same a = tt
IsAscending-IsRising d (r ∷ rs) same a = (
  All-imp _ _ rs (λ x k. le_runner-version d r x same.0 k.0 k.1) (All-and _ _ rs same.1 a.0),
  IsAscending-IsRising d rs same.1 a.1,
)

reverse_aux-IsFalling :
    (rs acc : List RunnerInfo)
    → IsRising rs
    → IsFalling acc
    → All (λ (r : RunnerInfo). All (λ (x : RunnerInfo). x.version ≤ r.version) acc) rs
    → IsFalling (reverse_aux rs acc)
reverse_aux-IsFalling [] acc up down over = down
reverse_aux-IsFalling (r ∷ rs) acc up down over =
    reverse_aux-IsFalling rs (r ∷ acc) up.1 (over.0, down) (All-and _ _ rs up.0 over.1)

-- The answer is the highest version up to the one asked for among runners, or an error where all of
-- them are newer.
abbrev pub IsBest : ℕ → (RunnerInfo → Type 0) → Result RunnerInfo → Type 0
IsBest version Known answer =
    ((r : RunnerInfo) × (answer ≡ ok r)
      × Known r
      × (r.version ≤ version)
      × ((x : RunnerInfo) → Known x → x.version ≤ version → x.version ≤ r.version))
    ⊎ ((answer ≡ err value_error) × ((x : RunnerInfo) → Known x → version < x.version))

first_fit-IsBest :
    (version : ℕ) (rs : List RunnerInfo)
    → IsFalling rs
    → IsBest version (λ x. Has x rs) (first_fit version rs)
unfolding first_fit
first_fit-IsBest version [] down = inr (refl, λ x w. absurd w)
first_fit-IsBest version (r ∷ rs) down = elim (Bool-cases (leb r.version version)) [
  | inl fits ↦ rw fits (inl (r, refl, inl refl, ground arith, newest))
  | inr newer ↦ rw newer (older (ground arith) (first_fit-IsBest version rs down.1))
]
  where
    newest : (x : RunnerInfo) → Has x (r ∷ rs) → x.version ≤ version → x.version ≤ r.version
    newest x (inl e) le = ground arith
    newest x (inr w) le = All_at _ rs x down.0 w

    older :
        version < r.version
        → IsBest version (λ x. Has x rs) (first_fit version rs)
        → IsBest version (λ x. Has x (r ∷ rs)) (first_fit version rs)
    older newer (inl (b, found, there, fits, best)) = inl (b, found, inr there, fits, over)
      where
        over : (x : RunnerInfo) → Has x (r ∷ rs) → x.version ≤ version → x.version ≤ b.version
        over x (inl e) le = let same = ap (λ (y : RunnerInfo). y.version) e in ground arith
        over x (inr w) le = best x w le
    older newer (inr (missed, above)) = inr (missed, over)
      where
        over : (x : RunnerInfo) → Has x (r ∷ rs) → version < x.version
        over x (inl e) = let same = ap (λ (y : RunnerInfo). y.version) e in ground arith
        over x (inr w) = above x w

IsBest-iff :
    (version : ℕ) (P Q : RunnerInfo → Type 0) (answer : Result RunnerInfo)
    → ((x : RunnerInfo) → P x ↔ Q x)
    → IsBest version P answer
    → IsBest version Q answer
IsBest-iff version P Q answer f (inl (r, found, p, fits, best)) =
    inl (r, found, (f r).0 p, fits, λ x q. best x ((f x).1 q))
IsBest-iff version P Q answer f (inr (missed, above)) = inr (missed, λ x q. above x ((f x).1 q))

abbrev pub all_runners : Index → List RunnerInfo
all_runners index = from_paths (String.◌++◌ index.path "/runners") index.files

-- The runners are not read yet, or they are those of the files, sorted.
abbrev pub IsIndex : Index → Type 0
IsIndex index = (index.runners ≡ []) ⊎ (index.runners ≡ sort_runners (all_runners index))

sorted_fit-IsBest :
    (d : String) (version : ℕ) (rs : List RunnerInfo)
    → IsBest version
        (λ x. Has x rs × (x.distro ≡ d))
        (first_fit version (reverse (of_distro d (sort_runners rs))))
sorted_fit-IsBest d version rs =
    let kept = of_distro d (sort_runners rs) in
    let same =
      All-Has (λ (x : RunnerInfo). x.distro ≡ d) kept
        (λ x w. ((of_distro-Has d x (sort_runners rs)).0 w).0) in
    let up =
      IsAscending-IsRising d kept same
        (of_distro-IsAscending d (sort_runners rs) (sort_runners-IsAscending rs)) in
    IsBest-iff version _ _ _ known (
      first_fit-IsBest version (reverse kept)
        (reverse_aux-IsFalling kept [] up tt (All-Has _ kept (λ x w. tt))))
  where
    known :
        (x : RunnerInfo)
        → Has x (reverse (of_distro d (sort_runners rs))) ↔ (Has x rs × (x.distro ≡ d))
    known x = (into, onto)
      where
        into : Has x (reverse (of_distro d (sort_runners rs))) → Has x rs × (x.distro ≡ d)
        into w = elim (Has-reverse_aux_inv x (of_distro d (sort_runners rs)) [] w) [
          | inl v ↦
              let (e, u) = (of_distro-Has d x (sort_runners rs)).0 v in
              ((sort_runners-Has x rs).0 u, e)
          | inr never ↦ absurd never
        ]

        onto : Has x rs × (x.distro ≡ d) → Has x (reverse (of_distro d (sort_runners rs)))
        onto (v, e) =
            Has-reverse_aux x (of_distro d (sort_runners rs)) []
              (inl ((of_distro-Has d x (sort_runners rs)).1 (e, (sort_runners-Has x rs).1 v)))

list_runners-unread :
    (d : String) (index : Index)
    → index.runners ≡ []
    → (d == "") ≡ false
    → ((list_runners (some d) index).0 ≡ of_distro d (sort_runners (all_runners index)))
      × IsIndex (list_runners (some d) index).1
unfolding list_runners
list_runners-unread d index new named = rw (new, named) (refl, inr refl)

list_runners-sorted :
    (d : String) (index : Index)
    → IsIndex index
    → (d == "") ≡ false
    → ((list_runners (some d) index).0 ≡ of_distro d (sort_runners (all_runners index)))
      × IsIndex (list_runners (some d) index).1
unfolding list_runners
list_runners-sorted d index (inl new) named = list_runners-unread d index new named
list_runners-sorted d index (inr old) named = elim (List-cases (sort_runners (all_runners index))) [
  | inl none_ ↦ list_runners-unread d index (old ∙ none_) named
  | inr (r, rs, some_) ↦ rw (old, some_, named) (refl, inr refl)
]

-- On an index whose runners are not read yet or are those of its files, and for a name whose
-- distribution part is not empty, `detect_runner` gives the runner of that distribution with the
-- highest version up to the one asked for; it raises a ValueError where every runner of the
-- distribution is newer. The index stays such an index.
pub detect_runner-IsBest :
    (name : String) (index : Index)
    → IsIndex index
    → ((parse_name name).0 == "") ≡ false
    → IsBest
        (parse_name name).1
        (λ (r : RunnerInfo). Has r (all_runners index) × (r.distro ≡ (parse_name name).0))
        (detect_runner name index).0
      × IsIndex (detect_runner name index).1
unfolding detect_runner
detect_runner-IsBest name index known named =
    let (same, kept) = list_runners-sorted (parse_name name).0 index known named in
    (rw same (sorted_fit-IsBest (parse_name name).0 (parse_name name).1 (all_runners index)), kept)
