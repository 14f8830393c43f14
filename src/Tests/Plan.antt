-- ===== src/Tests/Plan.antt =====
-- A workflow of two jobs, one of them with a matrix of two axes.
use Prim.Native.String.{◌++◌ as append}
use tspack.Base.{
  Memᴰ, lookup, put, true, false, ◌≡◌, refl, List, [], ◌∷◌, map, String, Map, length, all,
}
use tspack.Base.Text.{sort_strings, insert, decimal}
use tspack.Workflow.Plan.{
  WorkflowStep, WorkflowJob, Workflow, Plan, native_capabilities, insert_environment,
  normalize_environment, byte_length, join_commas, keys, extend, extend_all, expand_axes,
  expand_matrix,
}
use tspack.Workflow.Plan.Jobs.{planned_steps, plan_combinations, plan_jobs, needed, build_plan}
use tspack.Workflow.Plan.Bindings.{Binds, expand_matrix-Binds}
use tspack.Workflow.Plan.Matrix.{combinations_of, length-expand_matrix}
use tspack.Workflow.Plan.Needs.{names, needs-build_plan}

abbrev build_step : WorkflowStep
build_step = record {
  name = "";
  operation = "build";
  packages = [];
  targets = [];
  target = "";
  filter = "";
  audit_level = "";
  require_coverage = false;
  command = [];
  script = "";
  shell = "";
  cwd = "";
  capabilities = [];
  env = [];
  timeout_seconds = 0;
}

abbrev axes : Map (List String)
axes = ("os", "linux" ∷ "mac" ∷ []) ∷ ("node", "20" ∷ "22" ∷ []) ∷ []

abbrev matrix_job : WorkflowJob String
matrix_job = record {
  identity = "build";
  needs = [];
  runs_on = "linux";
  matrix = axes;
  env = [];
  steps = build_step ∷ [];
}

abbrev pack_job : WorkflowJob String
pack_job = record matrix_job { identity = "pack"; needs = "build" ∷ []; matrix = [] }

abbrev both_jobs : Workflow String
both_jobs = record { identity = "ci"; triggers = []; jobs = pack_job ∷ matrix_job ∷ [] }

abbrev quote : String → String
quote s = append "\"" (append s "\"")

-- `build_plan`, with all that it calls unfolded wherever this name is.
replay_plan : Workflow String → Plan String
unfolding sort_strings insert decimal lookup put native_capabilities insert_environment
    normalize_environment byte_length join_commas extend extend_all expand_axes expand_matrix
    planned_steps plan_combinations plan_jobs needed build_plan
replay_plan = build_plan quote (λ s. s)

planned : length (build_plan quote (λ s. s) both_jobs).jobs ≡ 5
unfolding replay_plan
planned = refl

pack_needs :
    map (λ job. job.needs) (build_plan quote (λ s. s) both_jobs).jobs
    ≡ ("build[node=4:\"20\",os=5:\"mac\"]" ∷ "build[node=4:\"20\",os=7:\"linux\"]"
        ∷ "build[node=4:\"22\",os=5:\"mac\"]" ∷ "build[node=4:\"22\",os=7:\"linux\"]" ∷ [])
      ∷ []
      ∷ []
      ∷ []
      ∷ []
      ∷ []
unfolding replay_plan
pack_needs = refl

length-expand_matrix_example : length (expand_matrix axes) ≡ combinations_of axes (keys axes)
length-expand_matrix_example = length-expand_matrix axes

needs-build_plan_example :
    let jobs = (build_plan quote (λ s. s) both_jobs).jobs in
    all (λ job. all (names jobs) job.needs) jobs ≡ true
needs-build_plan_example = needs-build_plan quote (λ s. s) both_jobs

abbrev first_combination : Map String
first_combination = ("node", "20") ∷ ("os", "linux") ∷ []

first_expanded : Memᴰ first_combination (expand_matrix axes)
unfolding replay_plan
first_expanded = Memᴰ.head refl

expand_matrix-Binds_example : Binds axes first_combination "os"
expand_matrix-Binds_example = expand_matrix-Binds axes first_combination "os" first_expanded refl
