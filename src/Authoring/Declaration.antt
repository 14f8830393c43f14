-- ===== src/Authoring/Declaration.antt =====
-- The declarations of internal/authoring/types.go, and their normal form in tape.go. The string
-- types of the source are strings; messages for people are left out.
use Prim.Native.String.{◌++◌ as append}
use tspack.Base.{ℕ, Bool, Option, String, str_eq, not, ◌&&◌, if◌then◌else◌}
use tspack.Base.Text.{is_blank, decimal_04}

pub record PackageSource : Type 0 where
  pub kind : String
  pub package_name : String
  pub range : String
  pub ref : String
  pub repo : String
  pub tag : String
  pub rev : String
  pub branch : String
  pub path : String
  pub name : String

pub record PackageIdentity : Type 0 where
  pub source : String
  pub name : String

pub record DeclarationOrigin : Type 0 where
  pub kind : String
  pub name : String
  pub source_path : String
  pub ref : String

pub record PatchDeclaration : Type 0 where
  pub path : String
  pub version : String

pub record DependencyDeclaration : Type 0 where
  pub id : String
  pub key : String
  pub identity : PackageIdentity
  pub source : PackageSource
  pub constraint : String
  pub kind : String
  pub optional : Bool
  pub origin : DeclarationOrigin
  pub layer : String
  pub layer_order : ℕ
  pub order : ℕ
  pub authority : String
  pub editability : String
  pub patch : Option PatchDeclaration

pub record EffectiveDependency : Type 0 where
  pub key : String
  pub kind : String
  pub source : PackageSource
  pub optional : Bool
  pub patch : Option PatchDeclaration

-- `if name == "" { name = other }`.
abbrev pub or_else : String → String → String
or_else name other = if str_eq name "" then other else name

unfoldable pub source_identity : PackageSource → PackageIdentity
source_identity s = record {
  source = s.kind;
  name = or_else (or_else (or_else (or_else s.package_name s.name) s.ref) s.path) s.repo;
}

unfoldable pub identity_key : PackageIdentity → String
identity_key i = append i.source (append ":" i.name)

unfoldable pub is_valid : PackageIdentity → Bool
is_valid i = not (is_blank i.source) && not (is_blank i.name)

unfoldable pub effective_dependency : DependencyDeclaration → EffectiveDependency
effective_dependency d =
    let source : PackageSource = d.source in
    record {
      key = d.key;
      kind = d.kind;
      source =
          if not (str_eq d.constraint "") then record source { range = d.constraint } else source;
      optional = d.optional;
      patch = d.patch;
    }

unfoldable pub effective_identity : EffectiveDependency → String
unfolding source_identity
effective_identity d = if not (str_eq d.key "") then d.key else (source_identity d.source).name

unfoldable pub declaration_slot_key : DependencyDeclaration → String
unfolding effective_identity effective_dependency identity_key
declaration_slot_key d =
    append (identity_key d.identity) (append "|" (effective_identity (effective_dependency d)))

unfoldable pub normalize_declaration : DependencyDeclaration → ℕ → DependencyDeclaration
unfolding source_identity is_valid
normalize_declaration d fallback_order = record d {
  identity = if not (is_valid d.identity) then source_identity d.source else d.identity;
  constraint = or_else d.constraint d.source.range;
  layer = or_else d.layer "base";
  authority = or_else d.authority "owned";
  editability = or_else d.editability "derived";
  id = or_else d.id (append "declaration-" (decimal_04 fallback_order));
}

unfoldable pub layer_rank : String → ℕ
layer_rank layer =
    if str_eq layer "base"
    then 0
    else if str_eq layer "concept"
    then 10
    else if str_eq layer "template"
    then 20
    else if str_eq layer "project"
    then 30
    else if str_eq layer "package"
    then 40
    else if str_eq layer "compatibility"
    then 50
    else if str_eq layer "explicit"
    then 60
    else 25
