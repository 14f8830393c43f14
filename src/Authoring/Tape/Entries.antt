-- ===== src/Authoring/Tape/Entries.antt =====
-- The array of entries of `Build` in internal/authoring/tape.go, under writes and appends.
use mathlib.Core.Option
use tspack.Base.{
  ◌==◌, ℕ, zero, suc, ◌≡◌, ◌≢◌, refl, ap, true, Option, none, some, List, [], ◌∷◌, ◌++◌, length,
  arith, Option-cases, Bool-cases, ◌⊎◌, inl, inr, if◌then◌else◌,
}
use tspack.Authoring.Tape.{TapeEntry, shadow, update_at, entry_at, shadowed_entries}

pub entry_at-update_at :
    (i j : ℕ) (f : TapeEntry → TapeEntry) (es : List TapeEntry)
    → entry_at (update_at i f es) j
      ≡ (if i == j then Option.map f (entry_at es j) else entry_at es j)
unfolding entry_at update_at
entry_at-update_at i j f [] = ground arith
entry_at-update_at zero zero f (e ∷ es) = refl
entry_at-update_at zero (suc j) f (e ∷ es) = ground arith
entry_at-update_at (suc i) zero f (e ∷ es) = ground arith
entry_at-update_at (suc i) (suc j) f (e ∷ es) = ground (arith, entry_at-update_at i j f es)

pub length-update_at :
    (i : ℕ) (f : TapeEntry → TapeEntry) (es : List TapeEntry)
    → length (update_at i f es) ≡ length es
unfolding update_at
length-update_at i f [] = refl
length-update_at zero f (e ∷ es) = refl
length-update_at (suc i) f (e ∷ es) = ap suc (length-update_at i f es)

pub entry_at-concat :
    (es : List TapeEntry) (last : TapeEntry) (j : ℕ) (e : TapeEntry)
    → entry_at (es ++ last ∷ []) j ≡ some e
    → (entry_at es j ≡ some e) ⊎ ((j ≡ length es) × (e ≡ last))
unfolding entry_at
entry_at-concat [] last zero e h = inr (refl, ground arith)
entry_at-concat [] last (suc j) e h = cc
entry_at-concat (x ∷ es) last zero e h = inl h
entry_at-concat (x ∷ es) last (suc j) e h = ground (arith, entry_at-concat es last j e h)

pub entry_at-concat_old :
    (es : List TapeEntry) (last : TapeEntry) (j : ℕ) (e : TapeEntry)
    → entry_at es j ≡ some e
    → entry_at (es ++ last ∷ []) j ≡ some e
unfolding entry_at
entry_at-concat_old [] last j e h = cc
entry_at-concat_old (x ∷ es) last zero e h = h
entry_at-concat_old (x ∷ es) last (suc j) e h = entry_at-concat_old es last j e h

pub entry_at-concat_last :
    (es : List TapeEntry) (last : TapeEntry) → entry_at (es ++ last ∷ []) (length es) ≡ some last
unfolding entry_at
entry_at-concat_last [] last = refl
entry_at-concat_last (x ∷ es) last = entry_at-concat_last es last

module _ (later : TapeEntry) (es : List TapeEntry) where
  pub length-shadowed : (o : Option ℕ) → length (shadowed_entries later es o) ≡ length es
  length-shadowed none = refl
  length-shadowed (some i) = length-update_at i (shadow later) es

  -- An entry that is effective after the shadowing was there before, and not where it struck.
  pub shadowed-effective :
      (o : Option ℕ) (j : ℕ) (e : TapeEntry)
      → entry_at (shadowed_entries later es o) j ≡ some e
      → e.effective ≡ true
      → (entry_at es j ≡ some e) × (o ≢ some j)
  shadowed-effective none j e found effective = (found, λ x. cc)
  shadowed-effective (some i) j e found effective = elim (Bool-cases (i == j)) [
    | inl same ↦
        absurd
          (ground (arith, entry_at-update_at i j (shadow later) es, Option-cases (entry_at es j)))
    | inr other ↦ (ground (arith, entry_at-update_at i j (shadow later) es), λ x. ground arith)
  ]

  -- Shadowing keeps the declaration of each entry.
  pub shadowed-held :
      (o : Option ℕ) (j : ℕ) (e : TapeEntry)
      → entry_at es j ≡ some e
      → (x : TapeEntry) × (entry_at (shadowed_entries later es o) j ≡ some x)
        × (x.declaration ≡ e.declaration)
  shadowed-held none j e found = (e, found, refl)
  shadowed-held (some i) j e found = elim (Bool-cases (i == j)) [
    | inl same ↦ (shadow later e, ground (arith, entry_at-update_at i j (shadow later) es), refl)
    | inr other ↦ (e, ground (arith, entry_at-update_at i j (shadow later) es), refl)
  ]
