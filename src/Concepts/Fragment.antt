-- ===== src/Concepts/Fragment.antt =====
-- The types of internal/concepts/types.go. A slice or a map that `reflect.DeepEqual` compares is
-- `none` where it is nil; elsewhere a nil one is empty.
use tspack.Base.{ℕ, Bool, Option, List, String, Map}
use tspack.Authoring.Declaration.{DependencyDeclaration}

pub record VariableContribution : Type 0 where
  pub name : String
  pub description : String
  pub default : String
  pub allowed : Option (List String)
  pub source : String

pub record WorkspaceContribution : Type 0 where
  pub name : String

pub record PackageContribution : Type 0 where
  pub name : String
  pub kind : String

pub record PackContribution : Type 0 where
  pub format : String
  pub artifact : String

pub record TargetContribution : Type 0 where
  pub name : String
  pub export : String
  pub entry : String
  pub runtime : String
  pub types : String

pub record DependencyContribution : Type 0 where
  pub name : String
  pub range : String
  pub source : String
  pub declared_by : String
  pub declaration_order : ℕ

pub record RunTargetContribution : Type 0 where
  pub name : String
  pub command : String
  pub cwd : String

pub record EnvContribution : Type 0 where
  pub name : String
  pub default : String
  pub description : String
  pub required : Bool
  pub secret : Bool

pub record ServiceContribution : Type 0 where
  pub name : String
  pub protocol : String
  pub endpoint : String
  pub optional : Bool

pub record PolicyContribution : Type 0 where
  pub subject : String
  pub action : String
  pub range : String

pub record FileContribution : Type 0 where
  pub path : String
  pub content : String
  pub rendered : Bool

pub record ManifestContributions : Type 0 where
  pub workspace : Option WorkspaceContribution
  pub pkg : Option PackageContribution
  pub dependencies : List DependencyContribution
  pub tools : List DependencyContribution
  pub peers : List DependencyContribution
  pub targets : List TargetContribution
  pub run_targets : List RunTargetContribution
  pub env : List EnvContribution
  pub services : List ServiceContribution
  pub update_policy : List PolicyContribution
  pub security_policy : List PolicyContribution
  pub pack : Option PackContribution
  pub concepts : List String

-- `ProjectionContributions.Objects`.
abbrev pub Projections : Type 0
Projections = Map (Map String)

pub data SlotMode : Type 0 where
  single_owner append_ordered map_by_key : SlotMode

pub record SlotContribution : Type 0 where
  pub name : String
  pub mode : SlotMode
  pub owner : String
  pub values : Option (List String)
  pub entries : Option (Map String)

pub record Fragment : Type 0 where
  pub name : String
  pub provides : List String
  pub requires : List String
  pub requires_any_of : List (List String)
  pub conflicts : List String
  pub compatible_kinds : List String
  pub variables : List VariableContribution
  pub manifest : ManifestContributions
  pub files : List FileContribution
  pub projections : Projections
  pub slots : List SlotContribution
  pub warnings : List String

pub record MergedConceptIr : Type 0 where
  pub concepts : List String
  pub variables : List VariableContribution
  pub manifest : ManifestContributions
  pub dependency_authoring : List DependencyDeclaration
  pub files : List FileContribution
  pub projections : Projections
  pub slots : List SlotContribution
  pub warnings : List String

-- Why a conflict is one: the parts of its message.
pub data Reason : Type 0 where
  different_contribution different_workspace different_package different_pack : Reason
  slot_ownership_differs declared_conflict : Reason
  scalar_differs : String → String → Reason
  declared_as : String → String → Reason

pub record Conflict : Type 0 where
  pub path : String
  pub concept_a : String
  pub concept_b : String
  pub reason : Reason
  pub higher_priority_concept : String
  pub lower_priority_concept : String
