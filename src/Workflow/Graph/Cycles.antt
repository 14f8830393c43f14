-- ===== src/Workflow/Graph/Cycles.antt =====
-- `visit` inside `ValidateFlow` of internal/workflow/flow.go: where it finds no cycle, every walk
-- from the name ends.
use mathlib.Core.WellFounded.{Acc}
use tspack.Base.{
  ℕ, zero, suc, ◌≡◌, refl, sym, subst, Bool, true, false, Option, none, some, List, [], ◌∷◌, String,
  Memᴰ, str_eq, eq_iff, eq_refl, lookup, put, lookup-put, arith, Bool-cases, inl, inr, ◌==◌,
  if◌then◌else◌,
}
use tspack.Workflow.Graph.{
  Adjacency, Visits, targets_of, visit_state, and_visit, visit_all, leave, visit,
}

pub visit_state-put :
    (k j : String) (n : ℕ) (visits : Visits)
    → visit_state (put k n visits) j ≡ (if str_eq k j then n else visit_state visits j)
unfolding visit_state
visit_state-put k j n visits = ground (arith, lookup-put k j n visits)

and_visit-eq :
    (o : Option (Bool × Visits)) (f : Visits → Option (Bool × Visits)) (next : Visits)
    → and_visit o f ≡ some (false, next)
    → (mid : Visits) × (o ≡ some (false, mid)) × (f mid ≡ some (false, next))
and_visit-eq none f next h = cc
and_visit-eq (some (true, mid)) f next h = cc
and_visit-eq (some (false, mid)) f next h = (mid, refl, h)

leave-eq :
    (v : String) (o : Option (Bool × Visits)) (next : Visits)
    → leave v o ≡ some (false, next)
    → (mid : Visits) × (o ≡ some (false, mid)) × (next ≡ put v 2 mid)
leave-eq v none next h = cc
leave-eq v (some (true, mid)) next h = cc
leave-eq v (some (false, mid)) next h = (mid, refl, cc)

module _ (adjacency : Adjacency) where
  -- One step of a walk, read backwards.
  abbrev pub Follows : String → String → Type 0
  Follows v u = Memᴰ v (targets_of adjacency u)

  -- Every walk from a name that is done ends, and a name that is done stays so.
  record Done (before after : Visits) : Type 0 where
    ends : (v : String) → visit_state after v ≡ 2 → Acc Follows v
    kept : (v : String) → visit_state before v ≡ 2 → visit_state after v ≡ 2

  abbrev Ends : Visits → Type 0
  Ends visits = (v : String) → visit_state visits v ≡ 2 → Acc Follows v

  abbrev Visited : (String → Visits → Option (Bool × Visits)) → Type 0
  Visited f =
      (v : String) (visits next : Visits)
      → f v visits ≡ some (false, next)
      → Ends visits
      → Done visits next × (visit_state next v ≡ 2)

  visit_all-Done :
      (f : String → Visits → Option (Bool × Visits)) (targets : List String) (visits next : Visits)
      → Visited f
      → visit_all f targets visits ≡ some (false, next)
      → Ends visits
      → Done visits next × ((v : String) → Memᴰ v targets → visit_state next v ≡ 2)
  unfolding visit_all
  visit_all-Done f [] visits next spec h e =
      let same : visits ≡ next = cc in
      (subst (λ n. Done visits n) same (record { ends = e; kept = λ v d. d }), λ v m. elim m [ ])
  visit_all-Done f (t ∷ targets) visits next spec h e =
      let (mid, here, later) = and_visit-eq (f t visits) (visit_all f targets) next h in
      let (d, at) = spec t visits mid here e in
      let (d', rest) = visit_all-Done f targets mid next spec later d.ends in
      (
        record { ends = d'.ends; kept = λ v old. d'.kept v (d.kept v old) },
        λ v m. elim m [
          | Memᴰ.head same ↦ subst (λ x. visit_state next x ≡ 2) (sym same) (d'.kept t at)
          | Memᴰ.tail m' ↦ rest v m'
        ],
      )

  visit-Visited : (fuel : ℕ) → Visited (visit fuel adjacency)
  unfolding visit
  visit-Visited zero v visits next h e = cc
  visit-Visited (suc fuel) v visits next h e = elim (Bool-cases (visit_state visits v == 2)) [
    | inl done ↦
        let same : visits ≡ next = ground arith in
        (subst (λ n. Done visits n) same (record { ends = e; kept = λ u d. d }), ground arith)
    | inr open_yet ↦
        let below = visit_all (visit fuel adjacency) (targets_of adjacency v) (put v 1 visits) in
        let (mid, walked, left) =
          leave-eq v below next (ground (arith, Bool-cases (visit_state visits v == 1))) in
        let (d, at) =
          visit_all-Done (visit fuel adjacency) (targets_of adjacency v) (put v 1 visits) mid
            (visit-Visited fuel) walked
            (λ u two. e u (ground (arith, visit_state-put v u 1 visits))) in
        let ends_here : Acc Follows v = Acc.intro v (λ y m. d.ends y (at y m)) in
        subst (λ n. Done visits n × (visit_state n v ≡ 2)) (sym left)
          (
            record {
              ends = λ u two. elim (Bool-cases (str_eq v u)) [
                | inl same ↦ subst (Acc Follows) (ground (arith, eq_iff v u)) ends_here
                | inr other ↦ d.ends u (ground (arith, visit_state-put v u 2 mid))
              ];
              kept = λ u two. elim (Bool-cases (str_eq v u)) [
                | inl same ↦ ground (arith, visit_state-put v u 2 mid)
                | inr other ↦
                    let old : visit_state mid u ≡ 2 =
                      d.kept u (ground (arith, visit_state-put v u 1 visits)) in
                    ground (arith, visit_state-put v u 2 mid)
              ];
            },
            ground (arith, visit_state-put v v 2 mid, eq_refl v),
          )
  ]

-- Where `visit` finds no cycle from a name, no walk from it goes on for ever.
pub visit-Acc :
    (fuel : ℕ) (adjacency : Adjacency) (v : String) (next : Visits)
    → visit fuel adjacency v [] ≡ some (false, next)
    → Acc (Follows adjacency) v
unfolding visit_state lookup
visit-Acc fuel adjacency v next h =
    let (d, at) = visit-Visited adjacency fuel v [] next h (λ u two. absurd (ground arith)) in
    d.ends v at
