-- ===== src/Identity/Instances.antt =====
-- internal/packageidentity/instance.go: module instances and their peer contexts. The digest
-- `sha256_hex` is that of the text that is written to the hash.
pub mod Order
use Prim.Native.String.{◌++◌ as append}
use tspack.Base.{Bool, true, false, List, [], ◌∷◌, map, String, str_eq, if◌then◌else◌}
use tspack.Base.Text.{join_nul, string_le, trim_space}

pub record PeerBinding : Type 0 where
  pub reference : String
  pub source : String
  pub name : String
  pub realization_id : String
  pub instance_id : String
  pub optional : Bool
  pub state : String

pub record PeerContext : Type 0 where
  pub id : String
  pub bindings : List PeerBinding

pub record ModuleInstance : Type 0 where
  pub id : String
  pub realization_id : String
  pub peer_context : PeerContext

unfoldable pub peer_binding_key : PeerBinding → String
peer_binding_key b = join_nul b.reference (
    join_nul b.source (
      join_nul b.name (
        join_nul b.state (
          join_nul (if b.optional then "optional" else "required")
            (join_nul b.realization_id b.instance_id)))))

-- The body of the loop of `CanonicalPeerBindings`.
unfoldable pub canonical_binding : PeerBinding → PeerBinding
unfolding trim_space
canonical_binding b =
    let realization_id = trim_space b.realization_id in
    record {
      reference = trim_space b.reference;
      source = trim_space b.source;
      name = trim_space b.name;
      realization_id = realization_id;
      instance_id = trim_space b.instance_id;
      optional = b.optional;
      state =
          if str_eq b.state ""
          then (if str_eq realization_id "" then "absent" else "present")
          else b.state;
    }

-- A stable sort by the key: an element goes before those that are not less.
unfoldable pub insert_binding : PeerBinding → List PeerBinding → List PeerBinding
unfolding peer_binding_key
insert_binding b [] = b ∷ []
insert_binding b (x ∷ rest) =
    if string_le (peer_binding_key b) (peer_binding_key x)
    then b ∷ x ∷ rest
    else x ∷ insert_binding b rest

unfoldable pub sort_bindings : List PeerBinding → List PeerBinding
unfolding insert_binding
sort_bindings [] = []
sort_bindings (b ∷ rest) = insert_binding b (sort_bindings rest)

unfoldable pub canonical_peer_bindings : List PeerBinding → List PeerBinding
unfolding canonical_binding sort_bindings
canonical_peer_bindings bindings = sort_bindings (map canonical_binding bindings)

-- The lines that `peerContextDigest` writes, and the digest of the text.
unfoldable pub key_lines : List PeerBinding → String
unfolding peer_binding_key
key_lines [] = ""
key_lines (b ∷ rest) = append (peer_binding_key b) (append "\n" (key_lines rest))

module _ (sha256_hex : String → String) where
  unfoldable pub peer_context_digest : List PeerBinding → String
  unfolding key_lines
  peer_context_digest bindings = sha256_hex (append "tspack-peer-context-v1\n" (key_lines bindings))

  unfoldable pub new_module_instance : String → List PeerBinding → ModuleInstance
  unfolding canonical_peer_bindings peer_context_digest
  new_module_instance realization_id bindings =
      let canonical_bindings = canonical_peer_bindings bindings in
      let digest = peer_context_digest canonical_bindings in
      record {
        id = append realization_id (append "#peers=" digest);
        realization_id = realization_id;
        peer_context = record {
          id = append "peer-context:sha256:" digest;
          bindings = canonical_bindings;
        };
      }
