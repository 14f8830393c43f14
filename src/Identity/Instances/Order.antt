-- ===== src/Identity/Instances/Order.antt =====
-- The order in which peer bindings are given does not matter to the identity of an instance.
use Prim.Native.String.{◌++◌ as append}
use mathlib.Core.List.{Permᴰ}
use tspack.Base.{◌≡◌, ◌∙◌, refl, sym, ap, List, [], ◌∷◌, map, String, arith}
use tspack.Base.Text.{insert, sort_strings}
use tspack.Base.Text.Order.{sort_strings-Perm}
use tspack.Identity.Instances.{
  PeerBinding, peer_binding_key, canonical_binding, insert_binding, sort_bindings,
  canonical_peer_bindings, key_lines, peer_context_digest, new_module_instance,
}

keys-insert_binding :
    (b : PeerBinding) (xs : List PeerBinding)
    → map peer_binding_key (insert_binding b xs)
      ≡ insert (peer_binding_key b) (map peer_binding_key xs)
unfolding insert_binding insert
keys-insert_binding b [] = refl
keys-insert_binding b (x ∷ xs) = ground (arith, keys-insert_binding b xs)

keys-sort_bindings :
    (bs : List PeerBinding)
    → map peer_binding_key (sort_bindings bs) ≡ sort_strings (map peer_binding_key bs)
unfolding sort_bindings sort_strings
keys-sort_bindings [] = refl
keys-sort_bindings (b ∷ bs) =
    keys-insert_binding b (sort_bindings bs)
    ∙ ap (insert (peer_binding_key b)) (keys-sort_bindings bs)

lines : List String → String
lines [] = ""
lines (key ∷ keys) = append key (append "\n" (lines keys))

key_lines-lines : (bs : List PeerBinding) → key_lines bs ≡ lines (map peer_binding_key bs)
unfolding key_lines lines
key_lines-lines [] = refl
key_lines-lines (b ∷ bs) =
    ap (λ rest. append (peer_binding_key b) (append "\n" rest)) (key_lines-lines bs)

map-Perm : {A B : Type 0} (f : A → B) (xs ys : List A) → Permᴰ xs ys → Permᴰ (map f xs) (map f ys)
map-Perm f xs ys Permᴰ.nil = Permᴰ.nil
map-Perm f (x ∷ xs) (y ∷ ys) (Permᴰ.cons e p) = Permᴰ.cons (ap f e) (map-Perm f xs ys p)
map-Perm f (a ∷ b ∷ xs) (c ∷ d ∷ ys) (Permᴰ.swap e h) = Permᴰ.swap (ap f e) (ap f h)
map-Perm f xs ys (Permᴰ.trans {l₂ = zs} p q) = Permᴰ.trans (map-Perm f xs zs p) (map-Perm f zs ys q)

canonical-lines :
    (bs cs : List PeerBinding)
    → Permᴰ bs cs
    → key_lines (canonical_peer_bindings bs) ≡ key_lines (canonical_peer_bindings cs)
unfolding canonical_peer_bindings
canonical-lines bs cs p =
    let keys = λ (bs : List PeerBinding). map peer_binding_key (map canonical_binding bs) in
    let sorted = λ (bs : List PeerBinding).
      key_lines-lines (sort_bindings (map canonical_binding bs))
      ∙ ap lines (keys-sort_bindings (map canonical_binding bs)) in
    sorted bs
    ∙ ap lines (
        sort_strings-Perm (keys bs) (keys cs) (
          map-Perm peer_binding_key (map canonical_binding bs) (map canonical_binding cs)
            (map-Perm canonical_binding bs cs p)))
    ∙ sym (sorted cs)

-- Peer bindings in another order give a module instance of the same identity and the same peer
-- context identity.
pub new_module_instance-Perm :
    (sha256_hex : String → String) (realization_id : String) (bs cs : List PeerBinding)
    → Permᴰ bs cs
    → ((new_module_instance sha256_hex realization_id bs).id
        ≡ (new_module_instance sha256_hex realization_id cs).id)
      × ((new_module_instance sha256_hex realization_id bs).peer_context.id
          ≡ (new_module_instance sha256_hex realization_id cs).peer_context.id)
unfolding new_module_instance peer_context_digest
new_module_instance-Perm sha256_hex realization_id bs cs p =
    let same =
      ap (λ t. sha256_hex (append "tspack-peer-context-v1\n" t)) (canonical-lines bs cs p) in
    (
      ap (λ digest. append realization_id (append "#peers=" digest)) same,
      ap (append "peer-context:sha256:") same,
    )
