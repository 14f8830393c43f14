-- ===== src/Workflow/Plan/Jobs.antt =====
-- The loops of `BuildPlan` in internal/workflow/plan.go over the jobs and their needs.
use Prim.Native.String.{◌++◌ as append}
use tspack.Base.{
  ℕ, ◌+◌, Option, none, some, List, [], ◌∷◌, ◌++◌, map, String, Map, lookup, put, get_elem?, str_eq,
  if◌then◌else◌,
}
use tspack.Base.Text.{sort_strings, decimal}
use tspack.Workflow.Plan.{
  WorkflowStep, PlannedStep, WorkflowJob, Workflow, PlanJob, Plan, sorted_trigger,
  normalize_environment, byte_length, join_commas, decimal_02, operation_display_name,
  or_capabilities, keys, expand_matrix,
}

abbrev pub instances_of : Option (List String) → List String
instances_of none = []
instances_of (some identities) = identities

-- The loop over the needs of a declared job.
unfoldable pub needed : Map (List String) → List String → List String
needed instances [] = []
needed instances (dependency ∷ needs) =
    instances_of (lookup dependency instances) ++ needed instances needs

-- The variables of the loop over the jobs: `instancesByJob` and `plan.Jobs`.
abbrev pub Planned : Type 0 → Type 0
Planned V = Map (List String) × List (PlanJob V)

module _ {V : Type 0} where
  -- `declaration.Jobs[i].Needs`; a planned job has the index of its declaration.
  abbrev pub declared_needs : Option (WorkflowJob V) → List String
  declared_needs none = []
  declared_needs (some job) = job.needs

  abbrev pub with_needs : Map (List String) → List (WorkflowJob V) → PlanJob V → PlanJob V
  with_needs instances declared job = record job {
    needs =
        sort_strings
          (job.needs ++ needed instances (declared_needs (get_elem? declared job.declaration_ord)));
  }

  abbrev finish_plan : Workflow V → Planned V → Plan V
  finish_plan declaration (instances, jobs) = record {
    workflow = declaration.identity;
    triggers = map sorted_trigger declaration.triggers;
    jobs = map (with_needs instances declaration.jobs) jobs;
  }

module _ {V : Type 0} (encode : V → String) (upper : String → String) where
  -- `values[key]`, where a missing key gives nil.
  abbrev encoded : Option V → String
  encoded none = "null"
  encoded (some value) = encode value

  abbrev matrix_part : Map V → String → String
  matrix_part values key =
      let text : String = encoded (lookup key values) in
      append key (append "=" (append (decimal (byte_length text)) (append ":" text)))

  abbrev pub matrix_identity : String → Map V → String
  matrix_identity job [] = job
  matrix_identity job (entry ∷ values) = append job (
      append "[" (
        append
          (join_commas (map (matrix_part (entry ∷ values)) (sort_strings (keys (entry ∷ values)))))
          "]"))

  abbrev planned_step : String → ℕ → WorkflowStep → PlannedStep
  planned_step identity index step = record {
    identity =
        append identity
          (append "/step-" (append (decimal_02 (index + 1)) (append "-" step.operation)));
    name = if str_eq step.name "" then operation_display_name upper step.operation else step.name;
    operation = step.operation;
    packages = sort_strings step.packages;
    targets = sort_strings step.targets;
    target = step.target;
    filter = step.filter;
    audit_level = step.audit_level;
    require_coverage = step.require_coverage;
    command = step.command;
    script = step.script;
    shell = step.shell;
    cwd = step.cwd;
    capabilities = or_capabilities (sort_strings step.capabilities) step.operation;
    environment = normalize_environment step.env;
    timeout_seconds = step.timeout_seconds;
  }

  unfoldable pub planned_steps : String → ℕ → List WorkflowStep → List PlannedStep
  planned_steps identity index [] = []
  planned_steps identity index (step ∷ steps) =
      planned_step identity index step ∷ planned_steps identity (index + 1) steps

  abbrev pub planned_job : WorkflowJob V → ℕ → Map V → PlanJob V
  planned_job job job_index combination =
      let identity : String = matrix_identity job.identity combination in
      record {
        identity = identity;
        job_identity = job.identity;
        needs = [];
        platform = job.runs_on;
        matrix = combination;
        environment = normalize_environment job.env;
        steps = planned_steps identity 0 job.steps;
        declaration_ord = job_index;
      }

  abbrev pub plan_combination : WorkflowJob V → ℕ → Planned V → Map V → Planned V
  plan_combination job job_index (instances, jobs) combination =
      let planned : PlanJob V = planned_job job job_index combination in
      (
        put job.identity (instances_of (lookup job.identity instances) ++ planned.identity ∷ [])
            instances,
        jobs ++ planned ∷ [],
      )

  unfoldable pub plan_combinations : WorkflowJob V → ℕ → Planned V → List (Map V) → Planned V
  plan_combinations job job_index p [] = p
  plan_combinations job job_index p (combination ∷ combinations) =
      plan_combinations job job_index (plan_combination job job_index p combination) combinations

  unfoldable pub plan_jobs : ℕ → Planned V → List (WorkflowJob V) → Planned V
  unfolding plan_combinations
  plan_jobs job_index p [] = p
  plan_jobs job_index p (job ∷ jobs) =
      plan_jobs (job_index + 1) (plan_combinations job job_index p (expand_matrix job.matrix)) jobs

  unfoldable pub build_plan : Workflow V → Plan V
  unfolding plan_jobs needed
  build_plan declaration = finish_plan declaration (plan_jobs 0 ([], []) declaration.jobs)
