-- ===== src/Monitor/Written.antt =====
-- osbuild/monitor.py: how the contexts of a stream of entries are written.
use osbuild.Prelude.{
  String, ◌==◌, eq_iff, true, false, List, [], ◌∷◌, ◌≡◌, refl, sym, subst, ◌⊎◌, ap, Bool-cases, inl,
  inr, arith, All, Has,
}
use osbuild.Json.{str, Fields, end, field}
use osbuild.Digest.{Digest}
use osbuild.Monitor.{omitempty, Context, context_fields, has_id, context_id, context_as_dict}

unfoldable pub with_id : Context → String → Fields
with_id ctx id = omitempty (context_fields ctx (field "id" (str id) end))

module _ (h : Digest) where
  -- The contexts of a stream of entries, as they are written one after the other.
  unfoldable pub write_all : List Context → List String → List Fields
  write_all [] history = []
  write_all (ctx ∷ rest) history =
      let (fs, history') = context_as_dict h ctx history in omitempty fs ∷ write_all rest history'

  -- A context in full.
  unfoldable pub whole : Context → Fields
  unfolding with_id
  whole ctx = with_id ctx (context_id h ctx)

  -- Each context is written in full where it was not written before, and by its id where it was.
  abbrev pub FullOnce : List Context → List Context → List Fields → Type 0
  FullOnce seen [] out = out ≡ []
  FullOnce seen (ctx ∷ rest) [] = ⊥
  FullOnce seen (ctx ∷ rest) (fs ∷ out) =
      ((Has ctx seen × (fs ≡ omitempty (field "id" (str (context_id h ctx)) end)))
        ⊎ (¬ Has ctx seen × (fs ≡ whole ctx)))
      × FullOnce (ctx ∷ seen) rest out

  module _ (P : Context → Type 0) where
    -- No hash is the empty text, and contexts with one id are equal.
    abbrev pub IsHashed : Type 0
    IsHashed =
        ((ctx : Context) → P ctx → (context_id h ctx == "") ≡ false)
        × ((a b : Context) → P a → P b → context_id h a ≡ context_id h b → a ≡ b)

    -- The history has the ids of the contexts that were written.
    abbrev Records : List Context → List String → Type 0
    Records seen history =
        (ctx : Context)
        → P ctx
        → ((has_id (context_id h ctx) history ≡ true → Has ctx seen)
            × (Has ctx seen → has_id (context_id h ctx) history ≡ true))

    Records-cons :
        (ctx : Context) (seen : List Context) (history : List String)
        → IsHashed
        → P ctx
        → Records seen history
        → Records (ctx ∷ seen) (context_id h ctx ∷ history)
    unfolding has_id
    Records-cons ctx seen history (hashed, apart) p records other q =
        elim (Bool-cases (context_id h ctx == context_id h other)) [
          | inl same ↦
              let equal =
                apart ctx other p q
                  (ground (arith, eq_iff (context_id h ctx) (context_id h other))) in
              (λ there. inl (sym equal), λ w. rw same refl)
          | inr differ ↦ (
            λ there. inr ((records other q).0 (rw differ at there)),
            λ w. rw differ (elim w [
              | inl same ↦ absurd (eq_differs ctx other same differ)
              | inr old ↦ (records other q).1 old
            ]),
          )
        ]
      where
        eq_differs : (a b : Context) → b ≡ a → (context_id h a == context_id h b) ≡ false → ⊥
        eq_differs a b same differ =
            let equal : context_id h a ≡ context_id h b = ap (context_id h) (sym same) in
            ground (arith, eq_iff (context_id h a) (context_id h b))

    Records-seen :
        (ctx : Context) (seen : List Context) (history : List String)
        → P ctx
        → has_id (context_id h ctx) history ≡ true
        → Records seen history
        → Records (ctx ∷ seen) history
    Records-seen ctx seen history p there records other q = (
      λ known. inr ((records other q).0 known),
      λ w. elim w [
        | inl same ↦ subst (λ c. has_id (context_id h c) history ≡ true) (sym same) there
        | inr old ↦ (records other q).1 old
      ],
    )

    pub write_all-FullOnce :
        (ctxs seen : List Context) (history : List String)
        → IsHashed
        → All P ctxs
        → Records seen history
        → FullOnce seen ctxs (write_all ctxs history)
    unfolding write_all context_as_dict whole with_id
    write_all-FullOnce [] seen history hashed all records = refl
    write_all-FullOnce (ctx ∷ rest) seen history hashed (p, all) records =
        elim (Bool-cases (has_id (context_id h ctx) history)) [
          | inl there ↦ rw there (
            inl ((records ctx p).0 there, refl),
            write_all-FullOnce rest (ctx ∷ seen) history hashed all
                (Records-seen ctx seen history p there records),
          )
          | inr new ↦ rw new (
            inr (λ w. (let never = (records ctx p).1 w in cc), refl),
            write_all-FullOnce rest (ctx ∷ seen) (context_id h ctx ∷ history) hashed all
                (Records-cons ctx seen history hashed p records),
          )
        ]
