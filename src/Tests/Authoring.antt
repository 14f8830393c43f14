-- ===== src/Tests/Authoring.antt =====
-- A tape of three declarations, two of them of one slot.
use tspack.Base.{true, lookup, put, ◌≡◌, refl, false, none, List, [], ◌∷◌, map, String}
use tspack.Base.Text.{is_blank, decimal, decimal_04}
use tspack.Authoring.Declaration.{
  DependencyDeclaration, effective_dependency, source_identity, is_valid, identity_key,
  effective_identity, declaration_slot_key, normalize_declaration, layer_rank,
}
use tspack.Authoring.Tape.{
  TapeResolution, build, ordered, place, place_all, update_at, entry_at, effective_entries,
  sort_stable, insert_stable, declaration_lt, has_fatal_conflicts, any_fatal, classify_shadow,
  shadow_outcome,
}
use tspack.Authoring.Tape.Collisions.{collides}
use tspack.Authoring.Tape.Collisions.Fatal.{has_fatal_conflicts-build}
use tspack.Authoring.Tape.Survivors.{survivors, effective-build}

abbrev declare : String → String → String → DependencyDeclaration
declare name range layer = record {
  id = "";
  key = "";
  identity = record { source = "npm"; name = name };
  source = record {
    kind = "npm";
    package_name = name;
    range = range;
    ref = "";
    repo = "";
    tag = "";
    rev = "";
    branch = "";
    path = "";
    name = "";
  };
  constraint = "";
  kind = "runtime";
  optional = false;
  origin = record { kind = ""; name = ""; source_path = ""; ref = "" };
  layer = layer;
  layer_order = 0;
  order = 0;
  authority = "";
  editability = "";
  patch = none;
}

abbrev three : List DependencyDeclaration
three =
    declare "react" "19" "explicit" ∷ declare "zod" "4" "base" ∷ declare "react" "18" "base" ∷ []

-- `build`, with all that it calls unfolded wherever this name is.
replay_build : List DependencyDeclaration → TapeResolution
unfolding lookup put is_blank decimal decimal_04 effective_dependency source_identity is_valid
    identity_key effective_identity declaration_slot_key normalize_declaration layer_rank ordered
    place place_all update_at entry_at effective_entries sort_stable insert_stable declaration_lt
    has_fatal_conflicts any_fatal classify_shadow shadow_outcome build
replay_build = build

three_effective : map (λ d. d.source.range) (build three).effective ≡ "4" ∷ "19" ∷ []
unfolding replay_build
three_effective = refl

three_calm : has_fatal_conflicts (build three) ≡ false
unfolding replay_build
three_calm = refl

effective-build_example :
    (build three).effective ≡ map effective_dependency (survivors (ordered three))
effective-build_example = effective-build three

-- Two packages under one key.
abbrev two : List DependencyDeclaration
two =
    record (declare "preact" "10" "base") { key = "react" }
    ∷ record (declare "react" "19" "explicit") { key = "react" }
    ∷ []

two_fatal : has_fatal_conflicts (build two) ≡ true
unfolding replay_build
two_fatal = refl

has_fatal_conflicts-build_example : has_fatal_conflicts (build two) ≡ collides [] (ordered two)
has_fatal_conflicts-build_example = has_fatal_conflicts-build two
