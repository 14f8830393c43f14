-- ===== src/Concepts/Merge/Records.antt =====
-- `addDeps` of merge.go keeps packages of different kinds apart, and records each kind.
use tspack.Base.{
  ◌≡◌, ◌≢◌, ◌∙◌, sym, ap, subst, inl, inr, some, List, [], ◌∷◌, ◌++◌, String, Memᴰ, lookup,
  Mem-append-cases,
}
use Prim.Native.String.{◌++◌ as append}
use tspack.Concepts.Fragment.{DependencyContribution}
use tspack.Concepts.Merge.{
  merged, Owners, Priority, Found, absent, equal, different, find_same, kind_key, owner_key,
  cross_kind_dependency_conflict, dependency_kinds, declared, same_dependency, dependency_name,
  place_dependency, add_dependency, add_deps,
}
use tspack.Concepts.Merge.Lists.{on_merged, merged_inj}
use tspack.Concepts.Merge.Kinds.{IsOwned, Grows, Grows-put, Cleared, cross_kinds-Cleared}

-- Each package of a list has its kind on record.
abbrev pub IsRecorded : String → List DependencyContribution → Owners → Type 0
IsRecorded kind ds owners =
    (d : DependencyContribution) → Memᴰ d ds → IsOwned (kind_key kind d.name) owners

-- No package is in both lists.
abbrev pub IsApart : List DependencyContribution → List DependencyContribution → Type 0
IsApart ds es = (d e : DependencyContribution) → Memᴰ d ds → Memᴰ e es → d.name ≢ e.name

pub record Keeps (kind : String) (target new : List DependencyContribution) (owners after : Owners)
    : Type 0 where
  pub grown : Grows owners after
  pub recorded : IsRecorded kind target owners → IsRecorded kind new after
  pub apart :
      (other : String) (ds : List DependencyContribution)
      → Memᴰ other dependency_kinds
      → other ≢ kind
      → IsRecorded other ds owners
      → IsApart ds target
      → IsApart ds new

module _ (priority : Priority) (path concept kind : String) where
  appended-Keeps :
      (value : DependencyContribution) (target : List DependencyContribution)
      (owners middle after : Owners)
      → Cleared value.name kind owners middle dependency_kinds
      → Grows middle after
      → Keeps kind target (target ++ declared priority path concept kind value ∷ []) owners after
  appended-Keeps value target owners middle after c g =
      let new : DependencyContribution = declared priority path concept kind value in
      record {
        grown = λ k o. g k (c.grown k o);
        recorded = λ r d m. elim (Mem-append-cases d target (new ∷ []) m) [
          | inl old ↦ g (kind_key kind d.name) (c.grown (kind_key kind d.name) (r d old))
          | inr (Memᴰ.head e) ↦ g (kind_key kind d.name) (
              subst (λ (x : DependencyContribution). IsOwned (kind_key kind x.name) middle) (sym e)
                c.recorded)
          | inr (Memᴰ.tail m') ↦ elim m' [ ]
        ];
        apart = λ other ds at differs r a d e m n same.
            elim (Mem-append-cases e target (new ∷ []) n) [
              | inl old ↦ a d e m old same
              | inr (Memᴰ.head h) ↦
                  let (owner, owned) = r d m in
                  let named : d.name ≡ value.name =
                    same ∙ ap (λ (x : DependencyContribution). x.name) h in
                  let free = c.free other at differs in
                  let owned' =
                    subst (λ x. lookup (kind_key other x) owners ≡ some owner) named owned in
                  cc
              | inr (Memᴰ.tail n') ↦ elim n' [ ]
            ];
      }

  add_dependency-Keeps :
      (value : DependencyContribution) (target : List DependencyContribution) (owners : Owners)
      (p : List DependencyContribution × Owners)
      → add_dependency priority path concept kind value target owners ≡ merged p
      → Keeps kind target p.0 owners p.1
  unfolding add_dependency cross_kind_dependency_conflict
  add_dependency-Keeps value target owners p h =
      on_merged (cross_kind_dependency_conflict priority value.name kind concept owners)
        (λ middle.
          place_dependency priority path concept kind value target middle
            (find_same dependency_name same_dependency target value))
        h
        (λ middle e h'.
          placed middle
            (cross_kinds-Cleared priority value.name kind concept owners middle dependency_kinds e)
            (find_same dependency_name same_dependency target value) h')
    where
      placed :
          (middle : Owners)
          → Cleared value.name kind owners middle dependency_kinds
          → (found : Found)
          → place_dependency priority path concept kind value target middle found ≡ merged p
          → Keeps kind target p.0 owners p.1
      placed middle c absent h =
          subst (λ (q : List DependencyContribution × Owners). Keeps kind target q.0 owners q.1)
            (merged_inj h)
            (appended-Keeps value target owners middle _ c
              (Grows-put (owner_key (append path (append "." value.name))) concept middle))
      placed middle c equal h =
          subst (λ (q : List DependencyContribution × Owners). Keeps kind target q.0 owners q.1)
            (merged_inj h)
            (record {
              grown = c.grown;
              recorded = λ r d m. c.grown (kind_key kind d.name) (r d m);
              apart = λ other ds at differs r a. a;
            })
      placed middle c different h = cc

  pub add_deps-Keeps :
      (values target : List DependencyContribution) (owners : Owners)
      (p : List DependencyContribution × Owners)
      → add_deps priority path concept kind values target owners ≡ merged p
      → Keeps kind target p.0 owners p.1
  unfolding add_deps
  add_deps-Keeps [] target owners p h =
      subst (λ (q : List DependencyContribution × Owners). Keeps kind target q.0 owners q.1)
        (merged_inj h)
        (record { grown = λ k o. o; recorded = λ r. r; apart = λ other ds at differs r a. a })
  add_deps-Keeps (value ∷ values) target owners p h =
      on_merged (add_dependency priority path concept kind value target owners)
        (λ q. add_deps priority path concept kind values q.0 q.1) h
        (λ q e h'.
          let first = add_dependency-Keeps value target owners q e in
          let rest = add_deps-Keeps values q.0 q.1 p h' in
          record {
            grown = λ k o. rest.grown k (first.grown k o);
            recorded = λ r. rest.recorded (first.recorded r);
            apart = λ other ds at differs r a.
                rest.apart other ds at differs (λ d m. first.grown (kind_key other d.name) (r d m))
                  (first.apart other ds at differs r a);
          })
