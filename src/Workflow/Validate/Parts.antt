-- ===== src/Workflow/Validate/Parts.antt =====
-- What the loops of `ValidateFlow` in internal/workflow/flow.go rule out when they find nothing.
use tspack.Base.{
  is_among, ◌≡◌, refl, ap, sym, subst, Bool, true, false, none, some, List, [], ◌∷◌, ◌++◌, String,
  Memᴰ, eq_iff, eq_refl, lookup, put, lookup-put, keep, arith, Bool-cases, inl, inr,
}
use tspack.Base.Text.{sort_strings, insert}
use tspack.Workflow.Flow.{FlowNode, Transition}
use tspack.Workflow.Validate.{
  note_if, node_notes, nodes_notes, Nodes, add_known, transition_notes, transitions_notes, case_key,
}

pub append-nil-both {ℓ} : {A : Type ℓ} (xs ys : List A) → xs ++ ys ≡ [] → (xs ≡ []) × (ys ≡ [])
append-nil-both [] ys h = (refl, h)
append-nil-both (x ∷ xs) ys h = cc

pub note_if-nil : (b : Bool) (code message : String) → note_if b code message ≡ [] → b ≡ false
note_if-nil true code message h = cc
note_if-nil false code message h = refl

insert-ne-nil : (x : String) (xs : List String) → insert x xs ≡ [] → ⊥
unfolding insert
insert-ne-nil x [] h = cc
insert-ne-nil x (y ∷ xs) h = ground arith

pub sort_strings-nil : (xs : List String) → sort_strings xs ≡ [] → xs ≡ []
unfolding sort_strings
sort_strings-nil [] h = refl
sort_strings-nil (x ∷ xs) h = absurd (insert-ne-nil x (sort_strings xs) h)

-- The identity of a node is new.
node_notes-new :
    (nodes : Nodes) (node : FlowNode)
    → node_notes nodes node ≡ []
    → lookup node.identity nodes ≡ none
unfolding node_notes
node_notes-new nodes node h = ground arith

add_known-kept :
    (nodes : Nodes) (rest : List FlowNode) (k : String) (node : FlowNode)
    → nodes_notes nodes rest ≡ []
    → lookup k nodes ≡ some node
    → lookup k (add_known nodes rest) ≡ some node
unfolding nodes_notes add_known
add_known-kept nodes [] k node h at = at
add_known-kept nodes (n ∷ rest) k node h at =
    let (here, later) =
      append-nil-both (node_notes nodes n) (nodes_notes (put n.identity n nodes) rest) h in
    add_known-kept (put n.identity n nodes) rest k node later (
      ground
        (arith, node_notes-new nodes n here, lookup-put n.identity k n nodes, eq_iff n.identity k))

-- Without duplicates each node is found under its identity.
pub lookup-add_known :
    (nodes : Nodes) (rest : List FlowNode) (node : FlowNode)
    → nodes_notes nodes rest ≡ []
    → Memᴰ node rest
    → lookup node.identity (add_known nodes rest) ≡ some node
unfolding nodes_notes add_known
lookup-add_known nodes [] node h m = elim m [ ]
lookup-add_known nodes (n ∷ rest) node h (Memᴰ.head e) =
    let (here, later) =
      append-nil-both (node_notes nodes n) (nodes_notes (put n.identity n nodes) rest) h in
    add_known-kept (put n.identity n nodes) rest node.identity node later (
      subst (λ x. lookup x.identity (put n.identity n nodes) ≡ some x) (sym e)
        (ground (arith, lookup-put n.identity n.identity n nodes, eq_refl n.identity)))
lookup-add_known nodes (n ∷ rest) node h (Memᴰ.tail m) =
    let (here, later) =
      append-nil-both (node_notes nodes n) (nodes_notes (put n.identity n nodes) rest) h in
    lookup-add_known (put n.identity n nodes) rest node later m

-- The case of a transition is new.
transition_notes-new :
    (nodes : Nodes) (keys cases : List String) (t : Transition)
    → transition_notes nodes keys cases t ≡ []
    → is_among (case_key nodes t) cases ≡ false
unfolding transition_notes
transition_notes-new nodes keys cases t h =
    note_if-nil (is_among (case_key nodes t) cases) "TSPACK_WORKFLOW_TRANSITION_AMBIGUOUS" _
      (append-nil-both _ _ h).1

-- A transition with a key that is among the cases before is none of those left.
keep-none :
    (nodes : Nodes) (test : Transition → Bool) (key : String) (keys cases : List String)
    (ts : List Transition)
    → ((t : Transition) → test t ≡ true → case_key nodes t ≡ key)
    → transitions_notes nodes keys cases ts ≡ []
    → is_among key cases ≡ true
    → keep test ts ≡ []
unfolding transitions_notes
keep-none nodes test key keys cases [] same h old = refl
keep-none nodes test key keys cases (t ∷ ts) same h old =
    let (here, later) = append-nil-both (transition_notes nodes keys cases t) _ h in
    let new = transition_notes-new nodes keys cases t here in
    elim (Bool-cases (test t)) [
      | inl passes ↦ absurd (ground (arith, ap (λ k. is_among k cases) (same t passes)))
      | inr fails ↦
          let rest =
            keep-none nodes test key (t.identity ∷ keys) (case_key nodes t ∷ cases) ts same later
              (ground arith) in
          ground arith
    ]

pub keep-only :
    (nodes : Nodes) (test : Transition → Bool) (key : String) (keys cases : List String)
    (ts : List Transition) (t : Transition)
    → ((u : Transition) → test u ≡ true → case_key nodes u ≡ key)
    → transitions_notes nodes keys cases ts ≡ []
    → Memᴰ t ts
    → test t ≡ true
    → keep test ts ≡ t ∷ []
unfolding transitions_notes
keep-only nodes test key keys cases [] t same h m passes = elim m [ ]
keep-only nodes test key keys cases (x ∷ ts) t same h (Memᴰ.head e) passes =
    let (here, later) = append-nil-both (transition_notes nodes keys cases x) _ h in
    let here_passes : test x ≡ true = subst (λ y. test y ≡ true) e passes in
    let rest =
      keep-none nodes test key (x.identity ∷ keys) (case_key nodes x ∷ cases) ts same later
        (ground (arith, same x here_passes, eq_iff (case_key nodes x) key)) in
    ground arith
keep-only nodes test key keys cases (x ∷ ts) t same h (Memᴰ.tail m) passes =
    let (here, later) = append-nil-both (transition_notes nodes keys cases x) _ h in
    let rest =
      keep-only nodes test key (x.identity ∷ keys) (case_key nodes x ∷ cases) ts t same later m
        passes in
    elim (Bool-cases (test x)) [
      | inr fails ↦ ground arith
      | inl twice ↦
          let none_left =
            keep-none nodes test key (x.identity ∷ keys) (case_key nodes x ∷ cases) ts same later
              (ground (arith, same x twice, eq_iff (case_key nodes x) key)) in
          cc
    ]
