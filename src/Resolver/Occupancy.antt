-- ===== src/Resolver/Occupancy.antt =====
-- internal/resolver/occupancy_controller.go: how many jobs a frontier of the resolver may run. A
-- count that is not positive is 0; the product of the hosts and their jobs wraps as an `int` of 64
-- bits does. The parser of a URL and the lower case of a text are parameters.
pub mod Bounds
pub mod Reasons
use tspack.Base.{
  ℕ, ◌*◌, ℤ, pos, negsuc, ltb_ℤ, wrap_int, Bool, true, false, not, ◌&&◌, Option, none, some, List,
  [], ◌∷◌, ◌++◌, String, Map, str_eq, length, map, any, ltb, leb, ◌==◌, if◌then◌else◌,
}
use tspack.Base.Text.{sort_strings, trim_space}

pub record ResolveOccupancyController : Type 0 where
  pub mode : String
  pub max_jobs : ℕ
  pub min_jobs : ℕ
  pub per_host_jobs : ℕ

pub record FrontierInput : Type 0 where
  pub frontier_index : ℕ
  pub frontier_width : ℕ
  pub work_items : ℕ
  pub metadata_items : ℕ
  pub tarball_items : ℕ
  pub hosts : Map ℕ

pub record FrontierDecision : Type 0 where
  pub mode : String
  pub frontier_index : ℕ
  pub frontier_width : ℕ
  pub work_items : ℕ
  pub metadata_items : ℕ
  pub tarball_items : ℕ
  pub max_jobs : ℕ
  pub target_jobs : ℕ
  pub clamp_reasons : List String
  pub hosts : List String

abbrev pub default_resolve_jobs : ℕ
default_resolve_jobs = 24

abbrev pub mode_fixed : String
mode_fixed = "fixed"

abbrev pub mode_feedforward : String
mode_feedforward = "feedforward"

abbrev or_positive : ℕ → ℕ → ℕ
or_positive n default = if n == 0 then default else n

unfoldable pub new_controller : String → ℕ → ℕ → ResolveOccupancyController
new_controller mode max_jobs per_host_jobs =
    let most : ℕ = or_positive max_jobs default_resolve_jobs in
    record {
      mode = if str_eq mode "" then mode_fixed else mode;
      max_jobs = most;
      min_jobs = 1;
      per_host_jobs = or_positive per_host_jobs most;
    }

unfoldable pub add_clamp_reason : List String → String → List String
add_clamp_reason reasons reason =
    if any (λ existing. str_eq existing reason) reasons then reasons else reasons ++ reason ∷ []

unfoldable pub sorted_host_keys : Map ℕ → List String
unfolding sort_strings
sorted_host_keys hosts = sort_strings (map (λ h. h.0) hosts)

-- The target and the reasons of `Decide`.
abbrev pub Clamped : Type 0
Clamped = ℤ × List String

abbrev lower : ℤ → String → Clamped → Clamped
lower limit reason (target, reasons) =
    if ltb_ℤ limit target then (limit, add_clamp_reason reasons reason) else (target, reasons)

-- Whether the hosts bound the jobs.
abbrev pub has_budget : ResolveOccupancyController → FrontierInput → Bool
has_budget c input =
    str_eq c.mode mode_feedforward && ltb 0 c.per_host_jobs && ltb 0 (length input.hosts)

abbrev clamp_hosts : ResolveOccupancyController → FrontierInput → Clamped → Clamped
clamp_hosts c input clamped =
    if has_budget c input
    then lower (wrap_int (length input.hosts * c.per_host_jobs)) "host_budget" clamped
    else clamped

-- `if target < c.MinJobs { target = c.MinJobs }`, which leaves no negative target.
abbrev raise_to : ℕ → ℤ → ℕ
raise_to least (pos target) = if ltb target least then least else target
raise_to least (negsuc target) = least

abbrev clamp_ends : ℕ → ℕ → ℤ → ℕ
clamp_ends least most target =
    let raised : ℕ = raise_to least target in if ltb most raised then most else raised

-- The last reason, where there is no other.
abbrev final_reasons : ℕ → ℕ → List String → List String
final_reasons work target [] = if target == work then add_clamp_reason [] "frontier_width" else []
final_reasons work target (reason ∷ reasons) = reason ∷ reasons

abbrev first_decision : ResolveOccupancyController → FrontierInput → FrontierDecision
first_decision c input = record {
  mode = c.mode;
  frontier_index = input.frontier_index;
  frontier_width = input.frontier_width;
  work_items = input.work_items;
  metadata_items = input.metadata_items;
  tarball_items = input.tarball_items;
  max_jobs = c.max_jobs;
  target_jobs = 0;
  clamp_reasons = [];
  hosts = sorted_host_keys input.hosts;
}

abbrev settle_decision : ResolveOccupancyController → FrontierInput → Clamped → FrontierDecision
settle_decision c input (clamped, reasons) =
    let target : ℕ = clamp_ends c.min_jobs input.work_items clamped in
    record (first_decision c input) {
      target_jobs = target;
      clamp_reasons = final_reasons input.work_items target reasons;
    }

unfoldable pub decide : ResolveOccupancyController → FrontierInput → FrontierDecision
unfolding add_clamp_reason sorted_host_keys
decide c input =
    if input.work_items == 0
    then record (first_decision c input) { clamp_reasons = "no_work" ∷ [] }
    else if leb c.max_jobs 1
    then record (first_decision c input) { target_jobs = 1; clamp_reasons = "serial_forced" ∷ [] }
    else settle_decision c input (
        clamp_hosts c input (
          lower (pos c.max_jobs) "max_jobs"
            (pos input.work_items, add_clamp_reason [] "frontier_width")))

abbrev host_map : Option String → Map ℕ
host_map none = []
host_map (some host) = if str_eq host "" then [] else (host, 1) ∷ []

-- `parse_host` is the host of the parsed URL, or none on an error.
unfoldable pub resolve_controller_host_map : (String → Option String) → String → Map ℕ
unfolding trim_space
resolve_controller_host_map parse_host registry_url =
    let url = trim_space registry_url in if str_eq url "" then [] else host_map (parse_host url)

unfoldable pub parse_resolve_controller_mode : (String → String) → String → String × Bool
unfolding trim_space
parse_resolve_controller_mode to_lower value =
    let word = trim_space (to_lower value) in
    if str_eq word ""
    then (mode_fixed, true)
    else if str_eq word mode_feedforward
    then (mode_feedforward, true)
    else if str_eq word mode_fixed
    then (mode_fixed, true)
    else ("", false)
