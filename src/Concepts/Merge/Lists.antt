-- ===== src/Concepts/Merge/Lists.antt =====
-- The loops of merge.go that add named contributions, as unions.
use tspack.Base.{◌≡◌, refl, ap, subst, Bool, true, List, [], ◌∷◌, String, eq_iff, arith}
use tspack.Concepts.Fragment.{DependencyContribution}
use tspack.Concepts.Merge.{
  Outcome, conflicting, merged, ◌>>=◌, Owners, Priority, Found, absent, equal, different, find_same,
  place_found, add_unique, add_uniques, cross_kind_dependency_conflict, declared, same_dependency,
  dependency_name, place_dependency, add_dependency, add_deps,
}
use tspack.Concepts.Merge.Unions.{
  Union, Union-refl, Union-append, Union-equal, Union-absent, find_same-absent, find_same-equal,
}

-- `err != nil` handed on.
pub >>=-merged {ℓ κ} :
    {A : Type ℓ} {B : Type κ} (first : Outcome A) (next : A → Outcome B) {b : B}
    → first >>= next ≡ merged b
    → (a : A) × (first ≡ merged a) × (next a ≡ merged b)
>>=-merged (conflicting c) next h = cc
>>=-merged (merged a) next h = (a, refl, h)

pub on_merged {ℓ κ μ} :
    {A : Type ℓ} {B : Type κ} {C : Type μ} (first : Outcome A) (next : A → Outcome B) {b : B}
    → first >>= next ≡ merged b
    → ((a : A) → first ≡ merged a → next a ≡ merged b → C)
    → C
on_merged first next h go = let (a, e, h') = >>=-merged first next h in go a e h'

pub merged_inj {ℓ} : {A : Type ℓ} {a b : A} → merged a ≡ merged b → a ≡ b
merged_inj h = cc

module _ {T : Type 0} (key : T → String) (same : T → T → Bool)
    (same_sound : (a b : T) → same a b ≡ true → a ≡ b) (priority : Priority)
    (prefix concept : String) where
  add_unique-Union :
      (value : T) (target : List T) (owners : Owners) (p : List T × Owners)
      → add_unique key same priority prefix concept value target owners ≡ merged p
      → Union key (λ a. a) target (value ∷ []) p.0
  unfolding add_unique
  add_unique-Union value target owners p h = place (find_same key same target value) refl h
    where
      place :
          (found : Found)
          → find_same key same target value ≡ found
          → place_found key same priority prefix concept value target owners found ≡ merged p
          → Union key (λ a. a) target (value ∷ []) p.0
      place absent e h =
          subst (Union key (λ a. a) target (value ∷ []))
            (ap (λ (q : List T × Owners). q.0) (merged_inj h))
            (Union-absent key (λ a. a) target value value (find_same-absent key same target value e)
              refl)
      place equal e h =
          let (old, m, k, s) = find_same-equal key same target value e in
          subst (Union key (λ a. a) target (value ∷ []))
            (ap (λ (q : List T × Owners). q.0) (merged_inj h))
            (Union-equal key (λ a. a) target value old m (same_sound old value s))
      place different e h = cc

  pub add_uniques-Union :
      (values target : List T) (owners : Owners) (p : List T × Owners)
      → add_uniques key same priority prefix concept values target owners ≡ merged p
      → Union key (λ a. a) target values p.0
  unfolding add_uniques
  add_uniques-Union [] target owners p h =
      subst (Union key (λ a. a) target []) (ap (λ (q : List T × Owners). q.0) (merged_inj h))
        (Union-refl key (λ a. a) target)
  add_uniques-Union (value ∷ values) target owners p h =
      let (q, e, h') =
        >>=-merged (add_unique key same priority prefix concept value target owners)
          (λ q. add_uniques key same priority prefix concept values q.0 q.1) h in
      Union-append key (λ a. a) target (value ∷ []) q.0 values p.0
        (add_unique-Union value target owners q e) (add_uniques-Union values q.0 q.1 p h')

-- What a dependency says, without who declared it.
abbrev pub dependency_view : DependencyContribution → String × String × String
dependency_view d = (d.name, d.range, d.source)

module _ (priority : Priority) (path concept kind : String) where
  add_dependency-Union :
      (value : DependencyContribution) (target : List DependencyContribution) (owners : Owners)
      (p : List DependencyContribution × Owners)
      → add_dependency priority path concept kind value target owners ≡ merged p
      → Union dependency_name dependency_view target (value ∷ []) p.0
  unfolding add_dependency
  add_dependency-Union value target owners p h =
      let (owners', e, h') =
        >>=-merged (cross_kind_dependency_conflict priority value.name kind concept owners)
          (λ owners'.
            place_dependency priority path concept kind value target owners'
              (find_same dependency_name same_dependency target value))
          h in
      place owners' (find_same dependency_name same_dependency target value) refl h'
    where
      place :
          (owners' : Owners) (found : Found)
          → find_same dependency_name same_dependency target value ≡ found
          → place_dependency priority path concept kind value target owners' found ≡ merged p
          → Union dependency_name dependency_view target (value ∷ []) p.0
      place owners' absent e h =
          subst (Union dependency_name dependency_view target (value ∷ []))
            (ap (λ (q : List DependencyContribution × Owners). q.0) (merged_inj h))
            (Union-absent dependency_name dependency_view target value
              (declared priority path concept kind value)
              (find_same-absent dependency_name same_dependency target value e) refl)
      place owners' equal e h =
          let (old, m, k, s) = find_same-equal dependency_name same_dependency target value e in
          subst (Union dependency_name dependency_view target (value ∷ []))
            (ap (λ (q : List DependencyContribution × Owners). q.0) (merged_inj h))
            (Union-equal dependency_name dependency_view target value old m
              (grind (arith, k, s, eq_iff old.range value.range, eq_iff old.source value.source)))
      place owners' different e h = cc

  pub add_deps-Union :
      (values target : List DependencyContribution) (owners : Owners)
      (p : List DependencyContribution × Owners)
      → add_deps priority path concept kind values target owners ≡ merged p
      → Union dependency_name dependency_view target values p.0
  unfolding add_deps
  add_deps-Union [] target owners p h =
      subst (Union dependency_name dependency_view target [])
        (ap (λ (q : List DependencyContribution × Owners). q.0) (merged_inj h))
        (Union-refl dependency_name dependency_view target)
  add_deps-Union (value ∷ values) target owners p h =
      let (q, e, h') =
        >>=-merged (add_dependency priority path concept kind value target owners)
          (λ q. add_deps priority path concept kind values q.0 q.1) h in
      Union-append dependency_name dependency_view target (value ∷ []) q.0 values p.0
        (add_dependency-Union value target owners q e) (add_deps-Union values q.0 q.1 p h')
