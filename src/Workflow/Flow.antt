-- ===== src/Workflow/Flow.antt =====
-- The data types of internal/workflow/flow.go and executor.go that the machine reads and writes.
-- Fields that neither machine.go nor `ValidateFlow` reads are left out.
use tspack.Base.{ℕ, ℤ, ◌≡◌, refl, Bool, Option, List, String, Map}

pub data NodeKind : Type 0 where
  entry effect fork join branch_exit match iterator predicate terminal : NodeKind

pub data MachineEventKind : Type 0 where
  start continue effect_started effect_succeeded effect_failed : MachineEventKind
  cancel_requested timeout : MachineEventKind

-- `unset` is the empty string of a kind that was never assigned.
pub data TerminalKind : Type 0 where
  unset succeeded failed cancelled timed_out : TerminalKind

-- `unset` is the zero value, which a read of a missing map key returns.
pub data State : Type 0 where
  unset pending waiting running succeeded failed timed_out skipped blocked cancelled : State

-- A finite float64: the mantissa over 2 ^ scale, with its sign.
pub record Float64 : Type 0 where
  pub negative : Bool
  pub mantissa : ℕ
  pub scale : ℕ

pub record ValueRef : Type 0 where
  pub identity : String
  pub source : String
  pub result_type : String
  pub field_path : List String
  pub category : String
  pub index : Option ℤ

pub data PredicateKind : Type 0 where
  and or not greater_than less_than not_empty is_empty : PredicateKind
  unknown : String → PredicateKind

pub record PredicateInfo : Type 0 where
  pub kind : PredicateKind
  pub input : Option ValueRef
  pub number : Option Float64

mutual
  pub data Predicate : Type 0 where
    predicate : PredicateInfo → Predicates → Predicate

  pub data Predicates : Type 0 where
    none : Predicates
    more : Predicate → Predicates → Predicates

pub record IterationValue : Type 0 where
  pub kind : String
  pub string : String
  pub number : Option Float64
  pub boolean : Option Bool
  pub source : Option ValueRef

pub record IteratorCursor : Type 0 where
  pub source_identity : String
  pub index : ℤ
  pub count : ℕ
  pub binding : String
  pub value : IterationValue
  pub mode : String
  pub failure_policy : String
  pub concurrency : ℕ
  pub aggregate : String
  pub source_aggregate : String
  pub element_identity : String
  pub path : String

pub record AggregateDefinition : Type 0 where
  pub identity : String
  pub elements : List String
  pub mode : String
  pub concurrency : ℤ
  pub failure_policy : String
  pub complete : Bool

pub record AggregateElement : Type 0 where
  pub index : ℕ
  pub value : String
  pub outcome : TerminalKind

pub record AggregateValue : Type 0 where
  pub identity : String
  pub elements : List AggregateElement

pub record FlowTerminals : Type 0 where
  pub succeeded : String
  pub failed : String
  pub cancelled : String
  pub timed_out : String

pub record PlanStep : Type 0 where
  pub identity : String
  pub operation : String
  pub inputs : List ValueRef

pub record AggregateElementProjection : Type 0 where
  pub aggregate : String
  pub index : ℤ
  pub value : String

pub record FlowNode : Type 0 where
  pub identity : String
  pub kind : NodeKind
  pub region : String
  pub effect : Option PlanStep
  pub value : String
  pub source : String
  pub projection : Option AggregateElementProjection
  pub iterator : Option IteratorCursor
  pub predicate : Option Predicate
  pub cleanup : Bool
  pub cleanup_cause : TerminalKind
  pub targets : List String
  pub wait_for : List String
  pub terminal : TerminalKind

pub record Transition : Type 0 where
  pub identity : String
  pub from : String
  pub event : MachineEventKind
  pub guard : String
  pub to : String

pub record ExecutionRegion : Type 0 where
  pub identity : String
  pub platform : String

-- The embedded `ValueRef` is the field `ref`.
pub record ValueDefinition : Type 0 where
  pub ref : ValueRef
  pub producer : String
  pub region : String
  pub transported : Bool

pub record ExpansionMetadata : Type 0 where
  pub planned_iterations : ℤ
  pub limit : ℤ
  pub max_concurrency : ℤ

pub record Flow : Type 0 where
  pub schema_version : ℤ
  pub identity : String
  pub entry : String
  pub terminals : FlowTerminals
  pub regions : List ExecutionRegion
  pub values : List ValueDefinition
  pub expansion : ExpansionMetadata
  pub aggregates : List AggregateDefinition
  pub nodes : List FlowNode
  pub transitions : List Transition

-- The results of the native operations, as far as predicates read them.
pub record TestOperationResult : Type 0 where
  pub passed : ℕ
  pub failed : ℕ
  pub skipped : ℕ
  pub duration_ms : Float64
  pub tests : List String

pub record AuditOperationResult : Type 0 where
  pub failing : ℕ

pub record BuildOperationResult : Type 0 where
  pub targets : List String
  pub artifacts : List String

pub record NativeResult : Type 0 where
  pub build : Option BuildOperationResult
  pub test : Option TestOperationResult
  pub audit : Option AuditOperationResult

pub record MachineEvent : Type 0 where
  pub kind : MachineEventKind
  pub node : String
  pub result : Option NativeResult
  pub error : String

pub record NodeSnapshot : Type 0 where
  pub state : State
  pub result : Option NativeResult
  pub error : String

pub record CleanupFailure : Type 0 where
  pub cause : TerminalKind
  pub node : String
  pub error : String

pub record StepTrace : Type 0 where
  pub step : ℕ
  pub state_before : List String
  pub event : MachineEvent
  pub eligible_transitions : List String
  pub selected_transition : String
  pub effect : String
  pub result_kind : String
  pub value_identity : String
  pub state_after : List String

pub record Snapshot : Type 0 where
  pub status : State
  pub nodes : Map NodeSnapshot
  pub active : List String
  pub values : Map NativeResult
  pub outcomes : Map TerminalKind
  pub iterators : Map IteratorCursor
  pub aggregates : Map AggregateValue
  pub cleanup_failures : List CleanupFailure
  pub step_count : ℕ
  pub step_limit : ℕ
  pub trace : List StepTrace
  pub trace_limit : ℕ
  pub dropped_trace : ℕ

-- The errors of machine.go, one for each message. `nil_effect` is the panic on a nil
-- `node.Effect`, and `out_of_fuel` is the model's own.
pub data MachineError : Type 0 where
  step_limit_exceeded : ℕ → MachineError
  start_requires_pending : MachineError
  not_ready_to_start : String → MachineError
  state_invalid : String → State → MachineError
  unsupported_event : MachineEventKind → MachineError
  effect_unknown : String → MachineError
  state_unknown : String → MachineError
  result_unhandled : String → MachineEventKind → MachineError
  match_unhandled : String → String → MachineError
  transition_ambiguous : String → MachineError
  value_unknown : String → MachineError
  predicate_invalid : PredicateKind → MachineError
  predicate_missing : MachineError
  predicate_type_invalid : PredicateKind → MachineError
  projection_invalid : MachineError
  nil_effect : String → MachineError
  out_of_fuel : MachineError

-- A value, or the error that the code returns with a zero value.
pub data Result {ℓ} (Value : Type ℓ) : Type ℓ where
  err : MachineError → Result Value
  ok : Value → Result Value

infixl 10 ◌>>=◌
abbrev pub ◌>>=◌ {ℓ κ} :
    {Value : Type ℓ} {Next : Type κ} → Result Value → (Value → Result Next) → Result Next
err e >>= next = err e
ok value >>= next = next value

-- `err != nil` handed on: the parts of a sequence that succeeded.
pub >>=-eq-ok {ℓ κ} :
    {Value : Type ℓ} {Next : Type κ} (first : Result Value) (next : Value → Result Next)
    → {last : Next} → first >>= next ≡ ok last
    → (value : Value) × (first ≡ ok value) × (next value ≡ ok last)
>>=-eq-ok (err e) next h = cc
>>=-eq-ok (ok value) next h = (value, refl, h)
