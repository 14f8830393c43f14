-- ===== src/Authoring/Tape/Collisions/Fatal.antt =====
-- When `Build` of internal/authoring/tape.go reports a fatal conflict.
use tspack.Base.{
  ℕ, zero, suc, ◌≡◌, ◌∙◌, refl, ap, sym, subst, true, false, ◌||◌, Option, none, some, List, [],
  ◌∷◌, ◌++◌, lookup, put, length, any, arith, get_elem?, Bool-cases, inl, inr,
}
use tspack.Authoring.Declaration.{DependencyDeclaration, declaration_slot_key}
use tspack.Authoring.Tape.{
  TapeEntry, Tape, new_entry, entry_at, entry_of, shadowed_entries, effective_key,
  collision_conflict, shadow_conflict, classify_shadow, place, blank, place_all, ordered, build,
  any_fatal, has_fatal_conflicts,
}
use tspack.Authoring.Tape.Collisions.{
  rivals, collides, declarations_of, any_fatal-append, or_false, map_append,
  declarations_of-shadowed, clash, Keyed, Uniform, differs, at_index, differs-clash,
}
use tspack.Authoring.Tape.Collisions.Keys.{put-Keyed, put-Uniform}

abbrev held : Option TapeEntry → Option DependencyDeclaration
held none = none
held (some e) = some e.declaration

held-entry_at :
    (es : List TapeEntry) (i : ℕ) → held (entry_at es i) ≡ get_elem? (declarations_of es) i
unfolding entry_at
held-entry_at [] i = refl
held-entry_at (e ∷ es) zero = refl
held-entry_at (e ∷ es) (suc i) = held-entry_at es i

held-entry_of :
    (es : List TapeEntry) (o : Option ℕ) → held (entry_of es o) ≡ at_index (declarations_of es) o
held-entry_of es none = refl
held-entry_of es (some i) = held-entry_at es i

fatal-collision :
    (position : ℕ) (d : DependencyDeclaration) (o : Option TapeEntry)
    → any_fatal (collision_conflict (new_entry position d) o) ≡ differs (held o) d
unfolding any_fatal
fatal-collision position d none = refl
fatal-collision position d (some e) = ground arith

fatal-shadow :
    (later : TapeEntry) (o : Option TapeEntry) → any_fatal (shadow_conflict later o) ≡ false
unfolding any_fatal classify_shadow
fatal-shadow later none = refl
fatal-shadow later (some e) = refl

rivals-clash :
    (d : DependencyDeclaration) (xs : List DependencyDeclaration)
    → any (λ x. rivals x d) xs ≡ clash (effective_key d) d.identity xs
rivals-clash d [] = refl
rivals-clash d (x ∷ xs) = ap (λ b. rivals x d || b) (rivals-clash d xs)

-- The fatal conflicts after one more declaration.
fatal-place :
    (t : Tape) (d : DependencyDeclaration)
    → Keyed t.latest_by_key (declarations_of t.entries)
    → Uniform t.latest_by_key (declarations_of t.entries)
    → any_fatal (place t d).conflicts
      ≡ (any_fatal t.conflicts || any (λ x. rivals x d) (declarations_of t.entries))
unfolding place
fatal-place t d k u =
    let entry : TapeEntry = new_entry (length t.entries) d in
    let before = entry_of t.entries (lookup (declaration_slot_key d) t.latest_by_identity) in
    let rival = entry_of t.entries (lookup (effective_key d) t.latest_by_key) in
    any_fatal-append (t.conflicts ++ shadow_conflict entry before) (collision_conflict entry rival)
    ∙ ap (λ b. b || any_fatal (collision_conflict entry rival))
        (any_fatal-append t.conflicts (shadow_conflict entry before)
          ∙ ap (λ b. any_fatal t.conflicts || b) (fatal-shadow entry before))
    ∙ ap (λ b. (any_fatal t.conflicts || false) || b)
        (fatal-collision (length t.entries) d rival
          ∙ ap (λ o. differs o d)
              (held-entry_of t.entries (lookup (effective_key d) t.latest_by_key))
          ∙ differs-clash t.latest_by_key (declarations_of t.entries) d k u
          ∙ sym (rivals-clash d (declarations_of t.entries)))
    ∙ ap (λ b. b || any (λ x. rivals x d) (declarations_of t.entries))
        (or_false (any_fatal t.conflicts))

declarations_of-place :
    (t : Tape) (d : DependencyDeclaration)
    → declarations_of (place t d).entries ≡ declarations_of t.entries ++ d ∷ []
unfolding place
declarations_of-place t d =
    let entry : TapeEntry = new_entry (length t.entries) d in
    map_append (λ e. e.declaration)
      (shadowed_entries entry t.entries (lookup (declaration_slot_key d) t.latest_by_identity))
      (entry ∷ [])
    ∙ ap (λ l. l ++ d ∷ [])
        (declarations_of-shadowed entry t.entries
          (lookup (declaration_slot_key d) t.latest_by_identity))

length-declarations_of : (es : List TapeEntry) → length (declarations_of es) ≡ length es
length-declarations_of [] = refl
length-declarations_of (e ∷ es) = ap suc (length-declarations_of es)

abbrev Ready : Tape → Type 0
Ready t =
    Keyed t.latest_by_key (declarations_of t.entries)
    × Uniform t.latest_by_key (declarations_of t.entries)

keys-place :
    (t : Tape) (d : DependencyDeclaration)
    → (place t d).latest_by_key
      ≡ put (effective_key d) (length (declarations_of t.entries)) t.latest_by_key
unfolding place
keys-place t d =
    ap (λ n. put (effective_key d) n t.latest_by_key) (sym (length-declarations_of t.entries))

place-Ready :
    (t : Tape) (d : DependencyDeclaration)
    → Ready t
    → any (λ x. rivals x d) (declarations_of t.entries) ≡ false
    → Ready (place t d)
place-Ready t d (k, u) calm =
    let xs = declarations_of t.entries in
    subst
      (λ m.
        Keyed m (declarations_of (place t d).entries)
        × Uniform m (declarations_of (place t d).entries))
      (sym (keys-place t d))
      (subst
        (λ l.
          Keyed (put (effective_key d) (length xs) t.latest_by_key) l
          × Uniform (put (effective_key d) (length xs) t.latest_by_key) l)
        (sym (declarations_of-place t d))
        (
          put-Keyed t.latest_by_key xs d k,
          put-Uniform t.latest_by_key xs d k u (sym (rivals-clash d xs) ∙ calm),
        ))

stays-place :
    (t : Tape) (d : DependencyDeclaration)
    → any_fatal t.conflicts ≡ true
    → any_fatal (place t d).conflicts ≡ true
unfolding place
stays-place t d h =
    let entry : TapeEntry = new_entry (length t.entries) d in
    let before = entry_of t.entries (lookup (declaration_slot_key d) t.latest_by_identity) in
    let rival = entry_of t.entries (lookup (effective_key d) t.latest_by_key) in
    any_fatal-append (t.conflicts ++ shadow_conflict entry before) (collision_conflict entry rival)
    ∙ ap (λ b. b || any_fatal (collision_conflict entry rival))
        (any_fatal-append t.conflicts (shadow_conflict entry before)
          ∙ ap (λ b. b || any_fatal (shadow_conflict entry before)) h)

stays-place_all :
    (t : Tape) (ds : List DependencyDeclaration)
    → any_fatal t.conflicts ≡ true
    → any_fatal (place_all t ds).conflicts ≡ true
unfolding place_all
stays-place_all t [] h = h
stays-place_all t (d ∷ ds) h = stays-place_all (place t d) ds (stays-place t d h)

fatal-place_all :
    (t : Tape) (ds : List DependencyDeclaration)
    → any_fatal t.conflicts ≡ false
    → Ready t
    → any_fatal (place_all t ds).conflicts ≡ collides (declarations_of t.entries) ds
unfolding place_all collides
fatal-place_all t [] none_yet r = none_yet
fatal-place_all t (d ∷ ds) none_yet (k, u) =
    let xs = declarations_of t.entries in
    let here : any_fatal (place t d).conflicts ≡ any (λ x. rivals x d) xs =
      fatal-place t d k u ∙ ap (λ b. b || any (λ x. rivals x d) xs) none_yet in
    elim (Bool-cases (any (λ x. rivals x d) xs)) [
      | inl hit ↦
          stays-place_all (place t d) ds (here ∙ hit)
          ∙ ap (λ b. b || collides (xs ++ d ∷ []) ds) (sym hit)
      | inr calm ↦
          fatal-place_all (place t d) ds (here ∙ calm) (place-Ready t d (k, u) calm)
          ∙ ap (λ l. collides l ds) (declarations_of-place t d)
          ∙ ap (λ b. b || collides (xs ++ d ∷ []) ds) (sym calm)
    ]

-- `Build` reports a fatal conflict just where, in order, the effective key of some declaration is
-- that of an earlier one that names another package.
pub has_fatal_conflicts-build :
    (declarations : List DependencyDeclaration)
    → has_fatal_conflicts (build declarations) ≡ collides [] (ordered declarations)
unfolding build has_fatal_conflicts any_fatal lookup
has_fatal_conflicts-build declarations =
    fatal-place_all blank (ordered declarations) refl
      (record { found = λ key i h. cc; missing = λ key h. refl }, λ key i x h at. cc)
