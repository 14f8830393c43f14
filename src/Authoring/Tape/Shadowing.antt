-- ===== src/Authoring/Tape/Shadowing.antt =====
-- Which entries stay effective in one round of the loop of `Build` in internal/authoring/tape.go.

use tspack.Base.{
  ℕ, zero, suc, ◌≡◌, ◌∙◌, refl, ap, sym, true, false, not, some, List, [], ◌∷◌, ◌++◌, String,
  str_eq, eq_iff, lookup, lookup-put, length, keep, arith, Option-cases, Bool-cases, inl, inr,
}
use tspack.Authoring.Declaration.{DependencyDeclaration, declaration_slot_key}
use tspack.Authoring.Tape.{
  TapeEntry, Tape, new_entry, shadow, update_at, entry_at, shadowed_entries, place, blank,
  effective_entries,
}
use tspack.Authoring.Tape.Entries.{
  entry_at-concat, entry_at-concat_old, entry_at-concat_last, length-shadowed, shadowed-effective,
  shadowed-held,
}

abbrev pub others : String → List DependencyDeclaration → List DependencyDeclaration
others slot = keep (λ d. not (str_eq (declaration_slot_key d) slot))

abbrev pub slot_of : TapeEntry → String
slot_of e = declaration_slot_key e.declaration

-- No effective entry has the slot.
abbrev Without : String → List TapeEntry → Type 0
Without slot es =
    (j : ℕ) (e : TapeEntry)
    → entry_at es j ≡ some e
    → e.effective ≡ true
    → str_eq (slot_of e) slot ≡ false

others-Without :
    (slot : String) (es : List TapeEntry)
    → Without slot es
    → others slot (effective_entries es) ≡ effective_entries es
unfolding effective_entries entry_at
others-Without slot [] h = refl
others-Without slot (e ∷ es) h =
    let rest = others-Without slot es (λ j x. h (suc j) x) in ground (arith, h zero e, rest)

-- Effective entries of the slot stand at one place only, and that place holds the slot.
record Single (slot : String) (i : ℕ) (es : List TapeEntry) : Type 0 where
  only :
      (j : ℕ) (e : TapeEntry)
      → entry_at es j ≡ some e
      → e.effective ≡ true
      → slot_of e ≡ slot
      → j ≡ i
  there : (e : TapeEntry) → entry_at es i ≡ some e → slot_of e ≡ slot

effective-update_at :
    (later : TapeEntry) (slot : String) (i : ℕ) (es : List TapeEntry)
    → Single slot i es
    → effective_entries (update_at i (shadow later) es) ≡ others slot (effective_entries es)
unfolding effective_entries update_at entry_at
effective-update_at later slot i [] h = refl
effective-update_at later slot zero (e ∷ es) h =
    let rest = others-Without slot es (λ j x found effective.
      ground (arith, h.only (suc j) x found effective, eq_iff (slot_of x) slot)) in
    ground (arith, h.there e refl, rest, eq_iff (slot_of e) slot)
effective-update_at later slot (suc i) (e ∷ es) h =
    let rest = effective-update_at later slot i es (record {
      only = λ j x found effective same. omega (arith, h.only (suc j) x found effective same);
      there = λ x found. h.there x found;
    }) in
    ground (arith, h.only zero e refl, rest, eq_iff (slot_of e) slot)

effective-append :
    (es : List TapeEntry) (e : TapeEntry)
    → e.effective ≡ true
    → effective_entries (es ++ e ∷ []) ≡ effective_entries es ++ e.declaration ∷ []
unfolding effective_entries
effective-append [] e h = rw h
effective-append (x ∷ es) e h = ground (arith, effective-append es e h)

-- What `latestByIdentity` says of the entries.
pub record Tracks (t : Tape) : Type 0 where
  pub latest :
      (j : ℕ) (e : TapeEntry)
      → entry_at t.entries j ≡ some e
      → e.effective ≡ true
      → lookup (slot_of e) t.latest_by_identity ≡ some j
  pub held :
      (slot : String) (i : ℕ)
      → lookup slot t.latest_by_identity ≡ some i
      → (e : TapeEntry) × (entry_at t.entries i ≡ some e) × (slot_of e ≡ slot)

abbrev cleared : Tape → DependencyDeclaration → List TapeEntry
cleared t d =
    shadowed_entries (new_entry (length t.entries) d) t.entries
      (lookup (declaration_slot_key d) t.latest_by_identity)

effective-cleared :
    (t : Tape) (d : DependencyDeclaration)
    → Tracks t
    → effective_entries (cleared t d)
      ≡ others (declaration_slot_key d) (effective_entries t.entries)
effective-cleared t d h =
    elim (Option-cases (lookup (declaration_slot_key d) t.latest_by_identity)) [
      | inl new ↦
          ap
            (λ o. effective_entries (shadowed_entries (new_entry (length t.entries) d) t.entries o))
            new
          ∙ sym (
              others-Without (declaration_slot_key d) t.entries (λ j e found effective.
                ground (
                  arith,
                  h.latest j e found effective,
                  eq_iff (slot_of e) (declaration_slot_key d),
                )))
      | inr (i, old) ↦
          ap
            (λ o. effective_entries (shadowed_entries (new_entry (length t.entries) d) t.entries o))
            old
          ∙ effective-update_at (new_entry (length t.entries) d) (declaration_slot_key d) i
              t.entries
              (record {
                only = λ j e found effective same. ground (arith, h.latest j e found effective);
                there = λ e found. let (x, at, slot) = h.held (declaration_slot_key d) i old in cc;
              })
    ]

pub effective-place :
    (t : Tape) (d : DependencyDeclaration)
    → Tracks t
    → effective_entries (place t d).entries
      ≡ others (declaration_slot_key d) (effective_entries t.entries) ++ d ∷ []
unfolding place
effective-place t d h =
    effective-append (cleared t d) (new_entry (length t.entries) d) refl
    ∙ ap (λ l. l ++ d ∷ []) (effective-cleared t d h)

pub place-Tracks : (t : Tape) (d : DependencyDeclaration) → Tracks t → Tracks (place t d)
unfolding place
place-Tracks t d h =
    let slot = declaration_slot_key d in
    let entry : TapeEntry = new_entry (length t.entries) d in
    let o = lookup slot t.latest_by_identity in
    record {
      latest = λ j e found effective. elim (entry_at-concat (cleared t d) entry j e found) [
        | inl before ↦
            let (old, spared) = shadowed-effective entry t.entries o j e before effective in
            let was = h.latest j e old effective in
            ground (
              arith,
              lookup-put slot (slot_of e) (length t.entries) t.latest_by_identity,
              eq_iff slot (slot_of e),
            )
        | inr (at, new) ↦ ground (
          arith,
          lookup-put slot (slot_of e) (length t.entries) t.latest_by_identity,
          eq_iff slot (slot_of e),
          length-shadowed entry t.entries o,
          ap slot_of new,
        )
      ];
      held = λ other i found. elim (Bool-cases (str_eq slot other)) [
        | inl same ↦ (
          entry,
          ground (
            arith,
            lookup-put slot other (length t.entries) t.latest_by_identity,
            length-shadowed entry t.entries o,
            entry_at-concat_last (cleared t d) entry,
          ),
          (eq_iff slot other).0 same,
        )
        | inr apart ↦
            let (x, at, has) =
              h.held other i
                (ground (arith, lookup-put slot other (length t.entries) t.latest_by_identity)) in
            let (y, still, kept) = shadowed-held entry t.entries o i x at in
            (
              y,
              entry_at-concat_old (cleared t d) entry i y still,
              ap declaration_slot_key kept ∙ has,
            )
      ];
    }

pub blank-Tracks : Tracks blank
unfolding entry_at lookup
blank-Tracks = record { latest = λ j e found effective. cc; held = λ slot i found. cc }
