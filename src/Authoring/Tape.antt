-- ===== src/Authoring/Tape.antt =====
-- `Build` of internal/authoring/tape.go: declarations are normalized and ordered, and each shadows
-- the earlier ones in its slot.
pub mod Entries
pub mod Shadowing
pub mod Survivors
pub mod Collisions
use tspack.Base.{
  bool_eq, ℕ, zero, suc, ◌+◌, Bool, true, false, not, ◌&&◌, Option, none, some, List, [], ◌∷◌, ◌++◌,
  map, String, Map, str_eq, lookup, put, length, keep, ltb, ◌==◌, if◌then◌else◌,
}
use tspack.Base.Text.{string_lt}
use tspack.Authoring.Declaration.{
  DependencyDeclaration, EffectiveDependency, PackageIdentity, effective_dependency,
  effective_identity, declaration_slot_key, normalize_declaration, layer_rank,
}

pub record TapeRef : Type 0 where
  pub position : ℕ
  pub id : String

pub record TapeEntry : Type 0 where
  pub declaration : DependencyDeclaration
  pub position : ℕ
  pub effective : Bool
  pub shadowed_by : Option TapeRef

pub data ConflictOutcome : Type 0 where
  duplicate constraint_override kind_override optional_override key_collision : ConflictOutcome

pub record AuthoringConflict : Type 0 where
  pub outcome : ConflictOutcome
  pub earlier : TapeRef
  pub later : TapeRef
  pub fatal : Bool

pub record TapeResolution : Type 0 where
  pub entries : List TapeEntry
  pub effective : List EffectiveDependency
  pub conflicts : List AuthoringConflict

-- The loop over `range ordered`.
normalize_from : ℕ → List DependencyDeclaration → List DependencyDeclaration
normalize_from index [] = []
normalize_from index (d ∷ rest) = normalize_declaration d index ∷ normalize_from (index + 1) rest

-- The comparison that `sort.SliceStable` is given.
unfoldable pub declaration_lt : DependencyDeclaration → DependencyDeclaration → Bool
declaration_lt a b =
    if not (layer_rank a.layer == layer_rank b.layer)
    then ltb (layer_rank a.layer) (layer_rank b.layer)
    else if not (a.layer_order == b.layer_order)
    then ltb a.layer_order b.layer_order
    else if not (a.order == b.order)
    then ltb a.order b.order
    else string_lt a.id b.id

-- A stable sort: an element goes behind those that are less.
unfoldable pub insert_stable :
    DependencyDeclaration → List DependencyDeclaration → List DependencyDeclaration
insert_stable d [] = d ∷ []
insert_stable d (x ∷ rest) = if declaration_lt x d then x ∷ insert_stable d rest else d ∷ x ∷ rest

unfoldable pub sort_stable : List DependencyDeclaration → List DependencyDeclaration
unfolding insert_stable
sort_stable [] = []
sort_stable (d ∷ rest) = insert_stable d (sort_stable rest)

unfoldable pub ordered : List DependencyDeclaration → List DependencyDeclaration
unfolding normalize_from sort_stable
ordered declarations = sort_stable (normalize_from 0 declarations)

abbrev pub tape_ref : TapeEntry → TapeRef
tape_ref entry = record { position = entry.position; id = entry.declaration.id }

unfoldable pub shadow_outcome : DependencyDeclaration → DependencyDeclaration → ConflictOutcome
shadow_outcome earlier later =
    if not (str_eq earlier.kind later.kind)
    then kind_override
    else if not (bool_eq earlier.optional later.optional)
    then optional_override
    else if not (str_eq earlier.constraint later.constraint)
    then constraint_override
    else duplicate

unfoldable pub classify_shadow : TapeEntry → TapeEntry → AuthoringConflict
unfolding shadow_outcome
classify_shadow earlier later = record {
  outcome = shadow_outcome earlier.declaration later.declaration;
  earlier = tape_ref earlier;
  later = tape_ref later;
  fatal = false;
}

abbrev pub identity_eq : PackageIdentity → PackageIdentity → Bool
identity_eq a b = str_eq a.source b.source && str_eq a.name b.name

-- The variables of the loop of `Build`.
pub record Tape : Type 0 where
  pub entries : List TapeEntry
  pub conflicts : List AuthoringConflict
  pub latest_by_identity : Map ℕ
  pub latest_by_key : Map ℕ

abbrev pub new_entry : ℕ → DependencyDeclaration → TapeEntry
new_entry position d = record {
  declaration = d;
  position = position;
  effective = true;
  shadowed_by = none;
}

abbrev pub shadow : TapeEntry → TapeEntry → TapeEntry
shadow later earlier = record earlier { effective = false; shadowed_by = some (tape_ref later) }

-- A write to `resolution.Entries[i]`.
unfoldable pub update_at : ℕ → (TapeEntry → TapeEntry) → List TapeEntry → List TapeEntry
update_at i f [] = []
update_at zero f (e ∷ es) = f e ∷ es
update_at (suc i) f (e ∷ es) = e ∷ update_at i f es

unfoldable pub entry_at : List TapeEntry → ℕ → Option TapeEntry
entry_at [] i = none
entry_at (e ∷ es) zero = some e
entry_at (e ∷ es) (suc i) = entry_at es i

-- The entries and the conflicts behind the test of `latestByIdentity`.
abbrev pub shadowed_entries : TapeEntry → List TapeEntry → Option ℕ → List TapeEntry
shadowed_entries later es none = es
shadowed_entries later es (some i) = update_at i (shadow later) es

abbrev shadow_conflict : TapeEntry → Option TapeEntry → List AuthoringConflict
shadow_conflict later none = []
shadow_conflict later (some earlier) = classify_shadow (shadow later earlier) later ∷ []

abbrev collision : TapeEntry → TapeEntry → AuthoringConflict
collision earlier later = record {
  outcome = key_collision;
  earlier = tape_ref earlier;
  later = tape_ref later;
  fatal = true;
}

abbrev pub collision_conflict : TapeEntry → Option TapeEntry → List AuthoringConflict
collision_conflict later none = []
collision_conflict later (some earlier) =
    if not (identity_eq earlier.declaration.identity later.declaration.identity)
    then collision earlier later ∷ []
    else []

-- `entries[i]`, where the map has an index.
abbrev pub entry_of : List TapeEntry → Option ℕ → Option TapeEntry
entry_of es none = none
entry_of es (some i) = entry_at es i

abbrev pub effective_key : DependencyDeclaration → String
effective_key d = effective_identity (effective_dependency d)

-- The body of the loop over `ordered`. The array `Entries` is the list of those written so far.
unfoldable pub place : Tape → DependencyDeclaration → Tape
place t d =
    let position : ℕ = length t.entries in
    let entry : TapeEntry = new_entry position d in
    let slot = declaration_slot_key d in
    let key = effective_key d in
    let before = lookup slot t.latest_by_identity in
    let rival = lookup key t.latest_by_key in
    record {
      entries = shadowed_entries entry t.entries before ++ entry ∷ [];
      conflicts =
          t.conflicts
          ++ shadow_conflict entry (entry_of t.entries before)
          ++ collision_conflict entry (entry_of t.entries rival);
      latest_by_identity = put slot position t.latest_by_identity;
      latest_by_key = put key position t.latest_by_key;
    }

abbrev pub blank : Tape
blank = record { entries = []; conflicts = []; latest_by_identity = []; latest_by_key = [] }

unfoldable pub place_all : Tape → List DependencyDeclaration → Tape
unfolding place
place_all t [] = t
place_all t (d ∷ ds) = place_all (place t d) ds

-- The last loop of `Build`.
unfoldable pub effective_entries : List TapeEntry → List DependencyDeclaration
effective_entries [] = []
effective_entries (e ∷ es) =
    if e.effective then e.declaration ∷ effective_entries es else effective_entries es

abbrev resolution : Tape → TapeResolution
resolution t = record {
  entries = t.entries;
  effective = map effective_dependency (effective_entries t.entries);
  conflicts = t.conflicts;
}

unfoldable pub build : List DependencyDeclaration → TapeResolution
unfolding ordered place_all effective_entries
build declarations = resolution (place_all blank (ordered declarations))

unfoldable pub any_fatal : List AuthoringConflict → Bool
any_fatal [] = false
any_fatal (conflict ∷ rest) = if conflict.fatal then true else any_fatal rest

unfoldable pub has_fatal_conflicts : TapeResolution → Bool
unfolding any_fatal
has_fatal_conflicts resolution = any_fatal resolution.conflicts
