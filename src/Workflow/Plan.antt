-- ===== src/Workflow/Plan.antt =====
-- `BuildPlan` of internal/workflow/plan.go: the jobs of a workflow, one for each combination of its
-- matrix. The values of a matrix are a parameter, with `encode` for their JSON text; `upper` is
-- `strings.ToUpper`. `sort.Slice` on equal names of an environment promises no order: here they
-- keep theirs.
pub mod Jobs
pub mod Matrix
pub mod Needs
pub mod Bindings
use Prim.Native.Char.{code}
use Prim.Native.String.{◌++◌ as append}
use tspack.Base.{
  ℕ, suc, ◌+◌, Bool, Option, none, some, List, [], ◌∷◌, ◌++◌, map, String, Map, lookup, put, str_eq,
  length, ltb, ◌==◌, if◌then◌else◌,
}
use tspack.Base.Text.{sort_strings, string_lt, decimal}

pub record WorkflowTrigger : Type 0 where
  pub kind : String
  pub branches : List String
  pub paths : List String

pub record WorkflowValue : Type 0 where
  pub kind : String
  pub value : String
  pub name : String

pub record WorkflowEnvironment : Type 0 where
  pub name : String
  pub value : WorkflowValue

-- The fields of a step that the plan reads.
pub record WorkflowStep : Type 0 where
  pub name : String
  pub operation : String
  pub packages : List String
  pub targets : List String
  pub target : String
  pub filter : String
  pub audit_level : String
  pub require_coverage : Bool
  pub command : List String
  pub script : String
  pub shell : String
  pub cwd : String
  pub capabilities : List String
  pub env : List WorkflowEnvironment
  pub timeout_seconds : ℕ

pub record Environment : Type 0 where
  pub name : String
  pub kind : String
  pub value : String
  pub secret : String

-- The fields of a planned step that `BuildPlan` sets.
pub record PlannedStep : Type 0 where
  pub identity : String
  pub name : String
  pub operation : String
  pub packages : List String
  pub targets : List String
  pub target : String
  pub filter : String
  pub audit_level : String
  pub require_coverage : Bool
  pub command : List String
  pub script : String
  pub shell : String
  pub cwd : String
  pub capabilities : List String
  pub environment : List Environment
  pub timeout_seconds : ℕ

pub record WorkflowJob (V : Type 0) : Type 0 where
  pub identity : String
  pub needs : List String
  pub runs_on : String
  pub matrix : Map (List V)
  pub env : List WorkflowEnvironment
  pub steps : List WorkflowStep

pub record Workflow (V : Type 0) : Type 0 where
  pub identity : String
  pub triggers : List WorkflowTrigger
  pub jobs : List (WorkflowJob V)

pub record PlanJob (V : Type 0) : Type 0 where
  pub identity : String
  pub job_identity : String
  pub needs : List String
  pub platform : String
  pub matrix : Map V
  pub environment : List Environment
  pub steps : List PlannedStep
  pub declaration_ord : ℕ

pub record Plan (V : Type 0) : Type 0 where
  pub workflow : String
  pub triggers : List WorkflowTrigger
  pub jobs : List (PlanJob V)

abbrev sorted_trigger : WorkflowTrigger → WorkflowTrigger
sorted_trigger t = record t { branches = sort_strings t.branches; paths = sort_strings t.paths }

unfoldable pub native_capabilities : String → List String
native_capabilities operation =
    if str_eq operation "sync"
    then "network" ∷ "workspaceWrite" ∷ []
    else if str_eq operation "check"
    then "workspaceRead" ∷ []
    else if str_eq operation "test"
    then "process" ∷ "workspaceRead" ∷ []
    else if str_eq operation "build"
    then "process" ∷ "workspaceRead" ∷ "workspaceWrite" ∷ []
    else if str_eq operation "pack"
    then "workspaceRead" ∷ "workspaceWrite" ∷ []
    else if str_eq operation "transfer"
    then "workspaceRead" ∷ "workspaceWrite" ∷ []
    else if str_eq operation "audit"
    then "network" ∷ "workspaceRead" ∷ []
    else []

-- The environment by name.
unfoldable pub insert_environment : Environment → List Environment → List Environment
insert_environment e [] = e ∷ []
insert_environment e (x ∷ rest) =
    let later = insert_environment e rest in
    if string_lt x.name e.name then x ∷ later else e ∷ x ∷ rest

abbrev environment_of : WorkflowEnvironment → Environment
environment_of v = record {
  name = v.name;
  kind = v.value.kind;
  value = v.value.value;
  secret = v.value.name;
}

unfoldable pub normalize_environment : List WorkflowEnvironment → List Environment
unfolding insert_environment
normalize_environment [] = []
normalize_environment (v ∷ values) =
    insert_environment (environment_of v) (normalize_environment values)

-- The bytes of a text in UTF-8.
unfoldable pub byte_length : String → ℕ
byte_length String.[] = 0
byte_length (String.◌∷◌ c s) =
    (if ltb (code c) 128
      then 1
      else if ltb (code c) 2048
      then 2
      else if ltb (code c) 65536
      then 3
      else 4)
    + byte_length s

-- `strings.Join(parts, ",")`.
unfoldable pub join_commas : List String → String
join_commas [] = ""
join_commas (part ∷ []) = part
join_commas (part ∷ next ∷ parts) = append part (append "," (join_commas (next ∷ parts)))

-- `%02d`.
abbrev decimal_02 : ℕ → String
decimal_02 n = if ltb n 10 then append "0" (decimal n) else decimal n

-- `operation[:1]` is the first byte: that of an operation that begins with a character of ASCII.
abbrev first_upper : (String → String) → String → String
first_upper upper String.[] = "Step"
first_upper upper (String.◌∷◌ c s) = append (upper (String.◌∷◌ c "")) s

abbrev operation_display_name : (String → String) → String → String
operation_display_name upper operation =
    if str_eq operation "shellScript" then "Shell script" else first_upper upper operation

abbrev or_capabilities : List String → String → List String
or_capabilities [] operation = native_capabilities operation
or_capabilities (c ∷ cs) operation = c ∷ cs

abbrev pub keys {ℓ} : {A : Type ℓ} → Map A → List String
keys m = map (λ entry. entry.0) m

module _ {V : Type 0} where
  -- `matrix[axis]`.
  abbrev pub values_of : Map (List V) → String → List V
  values_of matrix axis = elim (lookup axis matrix) [ none ↦ [] | some values ↦ values ]

  -- The loop over the values of an axis, for one combination.
  unfoldable pub extend : String → Map V → List V → List (Map V)
  extend axis combination [] = []
  extend axis combination (value ∷ values) =
      put axis value combination ∷ extend axis combination values

  -- The loop over the combinations.
  unfoldable pub extend_all : String → List V → List (Map V) → List (Map V)
  unfolding extend
  extend_all axis values [] = []
  extend_all axis values (combination ∷ combinations) =
      extend axis combination values ++ extend_all axis values combinations

  -- The loop over the axes.
  unfoldable pub expand_axes : Map (List V) → List String → List (Map V) → List (Map V)
  unfolding extend_all
  expand_axes matrix [] combinations = combinations
  expand_axes matrix (axis ∷ axes) combinations =
      expand_axes matrix axes (extend_all axis (values_of matrix axis) combinations)

  -- An empty matrix has the one empty combination, as the loop gives it.
  unfoldable pub expand_matrix : Map (List V) → List (Map V)
  unfolding expand_axes
  expand_matrix matrix = expand_axes matrix (sort_strings (keys matrix)) ([] ∷ [])
