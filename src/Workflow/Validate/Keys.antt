-- ===== src/Workflow/Validate/Keys.antt =====
-- The keys that `ValidateFlow` of internal/workflow/flow.go joins with NUL: their parts, where
-- those before the last have no NUL.
use tspack.Base.Text.{join_nul}
use Prim.Native.Char.{Char, code, nul}
use Prim.Native.String.{◌++◌ as append}
use text.Mathlib.TextLemmas.{append_assoc as text_assoc, cons-append, nil-append}
use tspack.Base.{
  ◌≡◌, ◌∙◌, refl, subst, str_eq, eq_iff, ℕ, ap, sym, Bool, true, false, not, ◌&&◌, some, String,
  arith, ◌==◌, inl, inr, if◌then◌else◌, Bool-cases, lookup,
}
use tspack.Workflow.Flow.{MachineEventKind, FlowNode, Transition}
use tspack.Workflow.Transitions.{event_index, event_eq, leaves, leaves_guarded}
use tspack.Workflow.Validate.{is_guarded, event_name, case_key, Nodes, is_guarded_node}

unfoldable pub no_nul : String → Bool
no_nul String.[] = true
no_nul (String.◌∷◌ c s) = not (code c == 0) && no_nul s

-- The text behind the NUL.
abbrev behind : String → String
behind s = String.◌∷◌ nul s

join_nul-behind : (a b : String) → join_nul a b ≡ append a (behind b)
join_nul-behind a b = ap (append a) (cons-append nul "" b ∙ ap behind (nil-append b))

cons_inj : (c d : Char) (s t : String) → String.◌∷◌ c s ≡ String.◌∷◌ d t → (c ≡ d) × (s ≡ t)
cons_inj c d s t h = (cc, cc)

before_nul :
    (a b s t : String)
    → no_nul a ≡ true
    → no_nul b ≡ true
    → append a (behind s) ≡ append b (behind t)
    → (a ≡ b) × (s ≡ t)
unfolding no_nul
before_nul String.[] String.[] s t ha hb h =
    (refl, (cons_inj nul nul s t (sym (nil-append (behind s)) ∙ h ∙ nil-append (behind t))).1)
before_nul String.[] (String.◌∷◌ d b) s t ha hb h =
    let (e, _) =
      cons_inj nul d s (append b (behind t))
        (sym (nil-append (behind s)) ∙ h ∙ cons-append d b (behind t)) in
    let bad : no_nul (String.◌∷◌ nul b) ≡ true =
      subst (λ x. no_nul (String.◌∷◌ x b) ≡ true) (sym e) hb in
    absurd (ground arith)
before_nul (String.◌∷◌ c a) String.[] s t ha hb h =
    let (e, _) =
      cons_inj c nul (append a (behind s)) t
        (sym (cons-append c a (behind s)) ∙ h ∙ nil-append (behind t)) in
    let bad : no_nul (String.◌∷◌ nul a) ≡ true = subst (λ x. no_nul (String.◌∷◌ x a) ≡ true) e ha in
    absurd (ground arith)
before_nul (String.◌∷◌ c a) (String.◌∷◌ d b) s t ha hb h =
    let (e, r) =
      cons_inj c d (append a (behind s)) (append b (behind t))
        (sym (cons-append c a (behind s)) ∙ h ∙ cons-append d b (behind t)) in
    let (ab, st) = before_nul a b s t (ground arith) (ground arith) r in (cc, st)

-- What stands behind the source in the key of a transition.
abbrev tail_of : Bool → Transition → String
tail_of guarded t =
    if guarded then append (event_name t.event) (behind t.guard) else event_name t.event

case_key-behind :
    (nodes : Nodes) (t : Transition)
    → case_key nodes t ≡ append t.from (behind (tail_of (is_guarded_node (lookup t.from nodes)) t))
unfolding case_key
case_key-behind nodes t = elim (Bool-cases (is_guarded_node (lookup t.from nodes))) [
  | inl yes_guarded ↦ rw yes_guarded (
      join_nul-behind (join_nul t.from (event_name t.event)) t.guard
      ∙ ap (λ x. append x (behind t.guard)) (join_nul-behind t.from (event_name t.event))
      ∙ text_assoc t.from (behind (event_name t.event)) (behind t.guard)
      ∙ ap (append t.from) (cons-append nul (event_name t.event) (behind t.guard)))
  | inr plain ↦ rw plain (join_nul-behind t.from (event_name t.event))
]

from_index : ℕ → MachineEventKind
from_index n =
    if n == 0
    then MachineEventKind.start
    else if n == 1
    then MachineEventKind.continue
    else if n == 2
    then MachineEventKind.effect_started
    else if n == 3
    then MachineEventKind.effect_succeeded
    else if n == 4
    then MachineEventKind.effect_failed
    else if n == 5
    then MachineEventKind.cancel_requested
    else MachineEventKind.timeout

from_index-event_index : (e : MachineEventKind) → from_index (event_index e) ≡ e
unfolding from_index
from_index-event_index MachineEventKind.start = refl
from_index-event_index MachineEventKind.continue = refl
from_index-event_index MachineEventKind.effect_started = refl
from_index-event_index MachineEventKind.effect_succeeded = refl
from_index-event_index MachineEventKind.effect_failed = refl
from_index-event_index MachineEventKind.cancel_requested = refl
from_index-event_index MachineEventKind.timeout = refl

event_eq-true : (a b : MachineEventKind) → event_eq a b ≡ true → a ≡ b
event_eq-true a b h =
    sym (from_index-event_index a) ∙ ap from_index (ground arith) ∙ from_index-event_index b

-- The index of a name.
name_index : String → ℕ
name_index s =
    if str_eq s "start"
    then 0
    else if str_eq s "continue"
    then 1
    else if str_eq s "effectStarted"
    then 2
    else if str_eq s "effectSucceeded"
    then 3
    else if str_eq s "effectFailed"
    then 4
    else if str_eq s "cancelRequested"
    then 5
    else 6

name_index-event_name : (e : MachineEventKind) → name_index (event_name e) ≡ event_index e
unfolding name_index
name_index-event_name MachineEventKind.start = refl
name_index-event_name MachineEventKind.continue = refl
name_index-event_name MachineEventKind.effect_started = refl
name_index-event_name MachineEventKind.effect_succeeded = refl
name_index-event_name MachineEventKind.effect_failed = refl
name_index-event_name MachineEventKind.cancel_requested = refl
name_index-event_name MachineEventKind.timeout = refl

event_name_inj : (a b : MachineEventKind) → event_name a ≡ event_name b → event_eq a b ≡ true
event_name_inj a b h =
    let same : event_index a ≡ event_index b =
      sym (name_index-event_name a) ∙ ap name_index h ∙ name_index-event_name b in
    ground arith

event_name_clear : (e : MachineEventKind) → no_nul (event_name e) ≡ true
unfolding no_nul
event_name_clear MachineEventKind.start = refl
event_name_clear MachineEventKind.continue = refl
event_name_clear MachineEventKind.effect_started = refl
event_name_clear MachineEventKind.effect_succeeded = refl
event_name_clear MachineEventKind.effect_failed = refl
event_name_clear MachineEventKind.cancel_requested = refl
event_name_clear MachineEventKind.timeout = refl

-- A text with a NUL in it is no event's name.
behind-dirty : (a s : String) → no_nul (append a (behind s)) ≡ false
unfolding no_nul
behind-dirty String.[] s = ap no_nul (nil-append (behind s)) ∙ ground arith
behind-dirty (String.◌∷◌ c a) s =
    ap no_nul (cons-append c a (behind s)) ∙ ground (arith, behind-dirty a s)

tail_of-event :
    (guarded : Bool) (t : Transition) (e : MachineEventKind)
    → tail_of guarded t ≡ event_name e
    → event_eq t.event e ≡ true
tail_of-event true t e h =
    let dirty = behind-dirty (event_name t.event) t.guard in
    absurd (ground (arith, ap no_nul h, event_name_clear e))
tail_of-event false t e h = event_name_inj t.event e h

tail_of-guard :
    (guarded : Bool) (t : Transition) (e : MachineEventKind) (outcome : String)
    → tail_of guarded t ≡ append (event_name e) (behind outcome)
    → (event_eq t.event e ≡ true) × (t.guard ≡ outcome)
tail_of-guard false t e outcome h =
    let dirty = behind-dirty (event_name e) outcome in
    absurd (ground (arith, ap no_nul h, event_name_clear t.event))
tail_of-guard true t e outcome h =
    let (names, guards) =
      before_nul (event_name t.event) (event_name e) t.guard outcome (event_name_clear t.event)
        (event_name_clear e) h in
    (event_name_inj t.event e names, guards)

-- The transition of a key leaves the node on the event.
pub leaves-case_key :
    (nodes : Nodes) (t : Transition) (identity : String) (e : MachineEventKind)
    → no_nul t.from ≡ true
    → no_nul identity ≡ true
    → case_key nodes t ≡ join_nul identity (event_name e)
    → leaves identity e t ≡ true
leaves-case_key nodes t identity e clear_t clear h =
    let guarded = is_guarded_node (lookup t.from nodes) in
    let (from, tail) =
      before_nul t.from identity (tail_of guarded t) (event_name e) clear_t clear
        (sym (case_key-behind nodes t) ∙ h ∙ join_nul-behind identity (event_name e)) in
    ground (arith, eq_iff t.from identity, tail_of-event guarded t e tail)

join_nul-behind_two :
    (a b c : String) → join_nul (join_nul a b) c ≡ append a (behind (append b (behind c)))
join_nul-behind_two a b c =
    join_nul-behind (join_nul a b) c
    ∙ ap (λ x. append x (behind c)) (join_nul-behind a b)
    ∙ text_assoc a (behind b) (behind c)
    ∙ ap (append a) (cons-append nul b (behind c))

pub leaves_guarded-case_key :
    (nodes : Nodes) (t : Transition) (identity : String) (e : MachineEventKind) (outcome : String)
    → no_nul t.from ≡ true
    → no_nul identity ≡ true
    → case_key nodes t ≡ join_nul (join_nul identity (event_name e)) outcome
    → leaves_guarded identity e outcome t ≡ true
leaves_guarded-case_key nodes t identity e outcome clear_t clear h =
    let guarded = is_guarded_node (lookup t.from nodes) in
    let (from, tail) =
      before_nul t.from identity (tail_of guarded t) (append (event_name e) (behind outcome))
        clear_t clear
        (sym (case_key-behind nodes t) ∙ h ∙ join_nul-behind_two identity (event_name e) outcome) in
    let (events, guards) = tail_of-guard guarded t e outcome tail in
    ground (arith, eq_iff t.from identity, eq_iff t.guard outcome)

-- The key of a transition that leaves a node whose transitions do not differ by guards.
pub case_key-leaves :
    (nodes : Nodes) (t : Transition) (node : FlowNode) (e : MachineEventKind)
    → lookup node.identity nodes ≡ some node
    → is_guarded node.kind ≡ false
    → leaves node.identity e t ≡ true
    → case_key nodes t ≡ join_nul node.identity (event_name e)
unfolding case_key
case_key-leaves nodes t node e at plain h =
    let from : t.from ≡ node.identity = ground (arith, eq_iff t.from node.identity) in
    let events : t.event ≡ e =
      event_eq-true t.event e (ground (arith, Bool-cases (event_eq t.event e))) in
    let open_kind : is_guarded_node (lookup t.from nodes) ≡ false =
      ap (λ x. is_guarded_node (lookup x nodes)) from ∙ ap is_guarded_node at ∙ plain in
    ap
      (λ b.
        if b
        then join_nul (join_nul t.from (event_name t.event)) t.guard
        else join_nul t.from (event_name t.event))
      open_kind
    ∙ ap (λ x. join_nul x (event_name t.event)) from
    ∙ ap (λ x. join_nul node.identity (event_name x)) events

pub case_key-leaves_guarded :
    (nodes : Nodes) (t : Transition) (node : FlowNode) (e : MachineEventKind) (outcome : String)
    → lookup node.identity nodes ≡ some node
    → is_guarded node.kind ≡ true
    → leaves_guarded node.identity e outcome t ≡ true
    → case_key nodes t ≡ join_nul (join_nul node.identity (event_name e)) outcome
unfolding case_key
case_key-leaves_guarded nodes t node e outcome at plain h =
    let from : t.from ≡ node.identity = ground (arith, eq_iff t.from node.identity) in
    let guards : t.guard ≡ outcome =
      ground (arith, eq_iff t.guard outcome, Bool-cases (event_eq t.event e)) in
    let events : t.event ≡ e =
      event_eq-true t.event e (ground (arith, Bool-cases (event_eq t.event e))) in
    let open_kind : is_guarded_node (lookup t.from nodes) ≡ true =
      ap (λ x. is_guarded_node (lookup x nodes)) from ∙ ap is_guarded_node at ∙ plain in
    ap
      (λ b.
        if b
        then join_nul (join_nul t.from (event_name t.event)) t.guard
        else join_nul t.from (event_name t.event))
      open_kind
    ∙ ap (λ x. join_nul (join_nul x (event_name t.event)) t.guard) from
    ∙ ap (λ x. join_nul (join_nul node.identity (event_name x)) t.guard) events
    ∙ ap (λ x. join_nul (join_nul node.identity (event_name e)) x) guards
