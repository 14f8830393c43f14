-- ===== src/Identity/Names.antt =====
-- internal/packageidentity/identity.go: JSR names and their spelling in the npm compatibility
-- registry. A name is the list of its code points.
pub mod Slashes
pub mod Underscores
pub mod RoundTrips
use tspack.Base.{
  ℕ, suc, Bool, true, false, not, ◌&&◌, ◌||◌, Option, none, some, List, [], ◌∷◌, ◌++◌, ◌⊎◌, inl,
  inr, String, str_eq, any, all, ◌==◌, if◌then◌else◌,
}
use tspack.Base.Text.{is_space}

abbrev pub Name : Type 0
Name = List ℕ

pub data NameError : Type 0 where
  not_scoped unsupported_characters ambiguous : NameError
  not_compatibility empty_name no_mapping : NameError

-- A result and its error.
abbrev pub Outcome {ℓ} : Type ℓ → Type ℓ
Outcome A = NameError ⊎ A

abbrev at_sign : ℕ
at_sign = 64

abbrev pub slash : ℕ
slash = 47

abbrev pub underscore : ℕ
underscore = 95

-- `@jsr/`.
abbrev pub jsr_prefix : Name
jsr_prefix = 64 ∷ 106 ∷ 115 ∷ 114 ∷ 47 ∷ []

abbrev pub push_front : ℕ → List Name → List Name
push_front c [] = (c ∷ []) ∷ []
push_front c (part ∷ parts) = (c ∷ part) ∷ parts

-- `strings.Split(s, "/")`.
unfoldable pub split_slash : Name → List Name
split_slash [] = [] ∷ []
split_slash (c ∷ s) =
    let parts = split_slash s in if c == slash then [] ∷ parts else push_front c parts

-- `strings.TrimSpace(s) == ""`.
abbrev pub is_blank_name : Name → Bool
is_blank_name = all is_space

-- `strings.ContainsAny(s, "\\:@")`.
abbrev pub has_unsupported : Name → Bool
has_unsupported = any (λ c. c == 92 || c == 58 || c == 64)

-- `strings.HasPrefix` and then `strings.TrimPrefix`.
abbrev strip_prefix : Name → Name → Option Name
strip_prefix [] s = some s
strip_prefix (c ∷ p) [] = none
strip_prefix (c ∷ p) (d ∷ s) = let rest = strip_prefix p s in if c == d then rest else none

-- `strings.Contains(s, "__")`.
unfoldable pub has_double : Name → Bool
has_double [] = false
has_double (c ∷ []) = false
has_double (c ∷ d ∷ s) = (c == underscore && d == underscore) || has_double (d ∷ s)

-- `strings.Count(s, "__")`: occurrences do not overlap.
unfoldable pub count_double : Name → ℕ
count_double [] = 0
count_double (c ∷ []) = 0
count_double (c ∷ d ∷ s) =
    let after = count_double s in
    let later = count_double (d ∷ s) in
    if c == underscore && d == underscore then suc after else later

abbrev pub push_first : ℕ → Option (Name × Name) → Option (Name × Name)
push_first c none = none
push_first c (some (a, b)) = some (c ∷ a, b)

-- `strings.SplitN(s, "__", 2)`, where there are two parts.
unfoldable pub cut_double : Name → Option (Name × Name)
cut_double [] = none
cut_double (c ∷ []) = none
cut_double (c ∷ d ∷ s) =
    let later = cut_double (d ∷ s) in
    if c == underscore && d == underscore then some ([], s) else push_first c later

abbrev check_parts : List Name → Outcome (Name × Name)
check_parts (scope ∷ pkg ∷ []) =
    if is_blank_name scope || is_blank_name pkg
    then inl not_scoped
    else if has_unsupported scope || has_unsupported pkg
    then inl unsupported_characters
    else inr (scope, pkg)
check_parts _ = inl not_scoped

abbrev split_after : Option Name → Outcome (Name × Name)
split_after none = inl not_scoped
split_after (some rest) = check_parts (split_slash rest)

unfoldable pub split_jsr_name : Name → Outcome (Name × Name)
unfolding split_slash is_space
split_jsr_name name = split_after (strip_prefix (at_sign ∷ []) name)

-- `"@jsr/" + scope + "__" + pkg`.
abbrev pub join_compatibility : Name → Name → Name
join_compatibility scope pkg = jsr_prefix ++ scope ++ underscore ∷ underscore ∷ pkg

-- `"@" + scope + "/" + pkg`.
abbrev pub join_logical : Name → Name → Name
join_logical scope pkg = at_sign ∷ scope ++ slash ∷ pkg

abbrev pub compatibility_of : Outcome (Name × Name) → Outcome Name
compatibility_of (inl e) = inl e
compatibility_of (inr (scope, pkg)) =
    if has_double scope || has_double pkg then inl ambiguous else inr (join_compatibility scope pkg)

unfoldable pub compatibility_name : Name → Outcome Name
unfolding split_jsr_name has_double
compatibility_name name = compatibility_of (split_jsr_name name)

abbrev pub checked : Name → Outcome (Name × Name) → Outcome Name
checked name (inl e) = inl not_compatibility
checked name (inr parts) = inr name

-- One occurrence gives two parts, so `none` is not met after the count.
abbrev pub logical_of : Option (Name × Name) → Outcome Name
logical_of none = inl not_compatibility
logical_of (some (a, b)) = checked (join_logical a b) (split_jsr_name (join_logical a b))

abbrev pub logical_after : Option Name → Outcome Name
logical_after none = inl not_compatibility
logical_after (some value) =
    if not (count_double value == 1) then inl not_compatibility else logical_of (cut_double value)

unfoldable pub logical_jsr_name : Name → Outcome Name
unfolding split_jsr_name count_double cut_double
logical_jsr_name name = logical_after (strip_prefix jsr_prefix name)

pub record PackageIdentity : Type 0 where
  pub source : String
  pub name : Name

pub record MaterializationIdentity : Type 0 where
  pub source : String
  pub name : Name

pub record ImportIdentity : Type 0 where
  pub runtime : String
  pub specifier : Name

-- `Notes` holds one text for people, or none.
pub record PackageUsage : Type 0 where
  pub semantic : PackageIdentity
  pub materialized_as : MaterializationIdentity
  pub imported : ImportIdentity
  pub has_note : Bool

abbrev plain_usage : PackageIdentity → PackageUsage
plain_usage identity = record {
  semantic = identity;
  materialized_as = record { source = identity.source; name = identity.name };
  imported = record { runtime = "node"; specifier = identity.name };
  has_note = false;
}

abbrev jsr_usage : PackageIdentity → Outcome Name → Outcome PackageUsage
jsr_usage identity (inl e) = inl e
jsr_usage identity (inr name) = inr (record {
  semantic = identity;
  materialized_as = record { source = "npm-compat"; name = name };
  imported = record { runtime = "node"; specifier = name };
  has_note = true;
})

unfoldable pub node_usage : PackageIdentity → Outcome PackageUsage
unfolding compatibility_name is_space
node_usage identity =
    if str_eq identity.source "npm"
    then if is_blank_name identity.name then inl empty_name else inr (plain_usage identity)
    else if str_eq identity.source "jsr"
    then jsr_usage identity (compatibility_name identity.name)
    else inl no_mapping
