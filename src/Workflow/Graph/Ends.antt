-- ===== src/Workflow/Graph/Ends.antt =====
-- The recursions of `ValidateFlow` in internal/workflow/flow.go end within a depth of one more than
-- the names that have targets.
use tspack.Base.{
  is_among, ℕ, zero, suc, ◌+◌, ◌≤◌, ◌<◌, ◌≡◌, ◌∙◌, refl, ap, sym, subst, Bool, true, false, not,
  ◌&&◌, Option, some, List, [], ◌∷◌, String, str_eq, eq_iff, eq_refl, lookup, put, length, arith,
  Bool-cases, inl, inr, ◌⊎◌, ◌==◌, if◌then◌else◌,
}
use tspack.Workflow.Graph.{
  Adjacency, Visits, targets_of, visit_state, and_visit, visit_all, leave, visit, and_mark,
  mark_all, mark_reachable,
}
use tspack.Workflow.Graph.Cycles.{visit_state-put}

-- How many of the names with targets pass a test.
open_names : (String → Bool) → Adjacency → ℕ
open_names open_yet [] = 0
open_names open_yet ((name, targets) ∷ rest) =
    (if open_yet name then 1 else 0) + open_names open_yet rest

open_names-le-length :
    (p : String → Bool) (adjacency : Adjacency) → open_names p adjacency ≤ length adjacency
unfolding open_names
open_names-le-length p [] = omega arith
open_names-le-length p ((name, targets) ∷ rest) = ground (arith, open_names-le-length p rest)

open_names_mono :
    (p q : String → Bool) (adjacency : Adjacency)
    → ((v : String) → p v ≡ true → q v ≡ true)
    → open_names p adjacency ≤ open_names q adjacency
unfolding open_names
open_names_mono p q [] h = omega arith
open_names_mono p q ((name, targets) ∷ rest) h = ground (arith, h name, open_names_mono p q rest h)

-- A name has no targets, or is one less that is open.
open_names_less :
    (p q : String → Bool) (adjacency : Adjacency) (v : String)
    → ((u : String) → p u ≡ true → q u ≡ true)
    → p v ≡ false
    → q v ≡ true
    → (targets_of adjacency v ≡ []) ⊎ (open_names p adjacency < open_names q adjacency)
unfolding open_names targets_of lookup
open_names_less p q [] v h closed was = inl refl
open_names_less p q ((name, targets) ∷ rest) v h closed was = elim (Bool-cases (str_eq name v)) [
  | inl same ↦
      let e : name ≡ v = ground (arith, eq_iff name v) in
      let fresh : p name ≡ false = subst (λ x. p x ≡ false) (sym e) closed in
      let old : q name ≡ true = subst (λ x. q x ≡ true) (sym e) was in
      inr (ground (arith, open_names_mono p q rest h))
  | inr other ↦ elim (open_names_less p q rest v h closed was) [
    | inl empty ↦ inl (ground arith)
    | inr less ↦ inr (ground (arith, h name))
  ]
]

is_open : Visits → String → Bool
is_open visits v = not (visit_state visits v == 1) && not (visit_state visits v == 2)

is_open-put :
    (visits : Visits) (k v : String) (n : ℕ)
    → (n ≡ 1) ⊎ (n ≡ 2)
    → is_open (put k n visits) v ≡ true
    → is_open visits v ≡ true
unfolding is_open
is_open-put visits k v n two h = ground (arith, visit_state-put k v n visits)

module _ (adjacency : Adjacency) where
  abbrev left_open : Visits → ℕ
  left_open visits = open_names (is_open visits) adjacency

  -- A call ends, and opens no name again.
  abbrev EndsBelow : ℕ → (String → Visits → Option (Bool × Visits)) → Type 0
  EndsBelow fuel f =
      (v : String) (visits : Visits)
      → left_open visits < fuel
      → (b : Bool) × (next : Visits) × (f v visits ≡ some (b, next))
        × (left_open next ≤ left_open visits)

  left_open-put :
      (visits : Visits) (k : String) (n : ℕ)
      → (n ≡ 1) ⊎ (n ≡ 2)
      → left_open (put k n visits) ≤ left_open visits
  left_open-put visits k n two =
      open_names_mono (is_open (put k n visits)) (is_open visits) adjacency
        (λ v. is_open-put visits k v n two)

  visit_all_ends :
      (fuel : ℕ) (f : String → Visits → Option (Bool × Visits)) (targets : List String)
      (visits : Visits)
      → EndsBelow fuel f
      → left_open visits < fuel
      → (b : Bool) × (next : Visits) × (visit_all f targets visits ≡ some (b, next))
        × (left_open next ≤ left_open visits)
  unfolding visit_all
  visit_all_ends fuel f [] visits spec h = (false, visits, refl, omega arith)
  visit_all_ends fuel f (t ∷ targets) visits spec h =
      let (b, mid, e, less) = spec t visits h in
      elim (Bool-cases b) [
        | inl found ↦ (
          true,
          mid,
          ap (λ o. and_visit o (visit_all f targets)) (e ∙ ap (λ x. some (x, mid)) found),
          less,
        )
        | inr none_yet ↦
            let (c, next, e', less') = visit_all_ends fuel f targets mid spec (omega arith) in
            (
              c,
              next,
              ap (λ o. and_visit o (visit_all f targets)) (e ∙ ap (λ x. some (x, mid)) none_yet)
                  ∙ e',
              omega arith,
            )
      ]

  expand_ends :
      (fuel : ℕ) (f : String → Visits → Option (Bool × Visits)) (v : String) (visits : Visits)
      → EndsBelow fuel f
      → left_open visits < suc fuel
      → visit_state visits v == 1 ≡ false
      → visit_state visits v == 2 ≡ false
      → (b : Bool) × (next : Visits) × (visit_all f (targets_of adjacency v) (put v 1 visits)
          ≡ some (b, next))
        × (left_open next ≤ left_open visits)
  unfolding visit_all is_open
  expand_ends fuel f v visits spec h unstacked undone =
      let stacked : Visits = put v 1 visits in
      let fewer = left_open-put visits v 1 (inl refl) in
      elim (open_names_less (is_open stacked) (is_open visits) adjacency v
        (λ u. is_open-put visits v u 1 (inl refl))
        (ground (arith, visit_state-put v v 1 visits, eq_refl v)) (ground arith)) [
          | inl empty ↦ (false, stacked, ap (λ l. visit_all f l stacked) empty, fewer)
          | inr less ↦
              let (b, next, e, less') =
                visit_all_ends fuel f (targets_of adjacency v) stacked spec (omega arith) in
              (b, next, e, omega arith)
        ]

  leave_ends :
      (v : String) (b : Bool) (next : Visits)
      → (c : Bool) × (last : Visits) × (leave v (some (b, next)) ≡ some (c, last))
        × (left_open last ≤ left_open next)
  leave_ends v true next = (true, next, refl, omega arith)
  leave_ends v false next = (false, put v 2 next, refl, left_open-put next v 2 (inr refl))

  visit_ends : (fuel : ℕ) → EndsBelow fuel (visit fuel adjacency)
  unfolding visit
  visit_ends zero v visits h = absurd (omega arith)
  visit_ends (suc fuel) v visits h = elim (Bool-cases (visit_state visits v == 1)) [
    | inl first ↦ (true, visits, ground arith, omega arith)
    | inr unstacked ↦ elim (Bool-cases (visit_state visits v == 2)) [
      | inl done ↦ (false, visits, ground arith, omega arith)
      | inr undone ↦
          let (b, next, e, less) =
            expand_ends fuel (visit fuel adjacency) v visits (visit_ends fuel) h unstacked undone in
          let (c, last, e', less') = leave_ends v b next in
          (c, last, ground (arith, e, e'), omega arith)
    ]
  ]

-- The depth that is given to the recursions.
pub visit_returns :
    (adjacency : Adjacency) (v : String)
    → (b : Bool) × (next : Visits) × (visit (suc (length adjacency)) adjacency v []
        ≡ some (b, next))
visit_returns adjacency v =
    let (b, next, e, less) =
      visit_ends adjacency (suc (length adjacency)) v []
        (omega (arith, open_names-le-length (is_open []) adjacency)) in
    (b, next, e)

is_new : List String → String → Bool
is_new reachable v = not (is_among v reachable)

module _ (adjacency : Adjacency) where
  abbrev left_new : List String → ℕ
  left_new reachable = open_names (is_new reachable) adjacency

  abbrev MarksBelow : ℕ → (String → List String → Option (List String)) → Type 0
  MarksBelow fuel f =
      (v : String) (reachable : List String)
      → left_new reachable < fuel
      → (next : List String) × (f v reachable ≡ some next) × (left_new next ≤ left_new reachable)

  left_new-cons :
      (v : String) (reachable : List String) → left_new (v ∷ reachable) ≤ left_new reachable
  unfolding is_new
  left_new-cons v reachable =
      open_names_mono (is_new (v ∷ reachable)) (is_new reachable) adjacency (λ u h. ground arith)

  mark_all_ends :
      (fuel : ℕ) (f : String → List String → Option (List String)) (targets reachable : List String)
      → MarksBelow fuel f
      → left_new reachable < fuel
      → (next : List String) × (mark_all f targets reachable ≡ some next)
        × (left_new next ≤ left_new reachable)
  unfolding mark_all
  mark_all_ends fuel f [] reachable spec h = (reachable, refl, omega arith)
  mark_all_ends fuel f (t ∷ targets) reachable spec h =
      let (mid, e, less) = spec t reachable h in
      let (next, e', less') = mark_all_ends fuel f targets mid spec (omega arith) in
      (next, ap (λ o. and_mark o (mark_all f targets)) e ∙ e', omega arith)

  mark_reachable_ends : (fuel : ℕ) → MarksBelow fuel (mark_reachable fuel adjacency)
  unfolding mark_reachable mark_all is_new
  mark_reachable_ends zero v reachable h = absurd (omega arith)
  mark_reachable_ends (suc fuel) v reachable h = elim (Bool-cases (is_among v reachable)) [
    | inl old ↦ (reachable, ground arith, omega arith)
    | inr new ↦
        let fewer = left_new-cons v reachable in
        elim (open_names_less (is_new (v ∷ reachable)) (is_new reachable) adjacency v
          (λ u fresh. ground arith) (ground (arith, eq_refl v)) (ground arith)) [
            | inl empty ↦ (
              v ∷ reachable,
              ground (
                arith,
                ap (λ l. mark_all (mark_reachable fuel adjacency) l (v ∷ reachable)) empty,
              ),
              fewer,
            )
            | inr less ↦
                let (next, e, less') =
                  mark_all_ends fuel (mark_reachable fuel adjacency) (targets_of adjacency v)
                    (v ∷ reachable) (mark_reachable_ends fuel) (omega arith) in
                (next, ground arith, omega arith)
          ]
  ]

pub mark_reachable_returns :
    (adjacency : Adjacency) (v : String)
    → (next : List String) × (mark_reachable (suc (length adjacency)) adjacency v [] ≡ some next)
mark_reachable_returns adjacency v =
    let (next, e, less) =
      mark_reachable_ends adjacency (suc (length adjacency)) v []
        (omega (arith, open_names-le-length (is_new []) adjacency)) in
    (next, e)
