-- ===== src/Tests/Identity.antt =====
-- The names `@a/b`, `@a_/b` and `@a/_b`.
use mathlib.Core.List.{Permᴰ}
use tspack.Base.Text.{is_space, is_blank, trim_start, trim_end, trim_space}
use tspack.Identity.Instances.{
  PeerBinding, peer_binding_key, canonical_binding, insert_binding, sort_bindings,
  canonical_peer_bindings, new_module_instance,
}
use tspack.Identity.Instances.Order.{new_module_instance-Perm}
use tspack.Base.{◌↔◌, true, map, false, ◌≡◌, refl, ◌++◌, [], ◌∷◌, inl, inr}
use tspack.Identity.Names.{
  Name, NameError, Outcome, split_jsr_name, split_slash, has_double, count_double, cut_double,
  join_logical, join_compatibility, compatibility_name, logical_jsr_name, node_usage,
}
use tspack.Identity.Names.Underscores.{ends_in_underscore}
use tspack.Identity.Names.RoundTrips.{
  compatibility_name-logical_jsr_name, logical_jsr_name-compatibility_name,
  compatibility_name-ambiguous,
}

abbrev letter_a : Name
letter_a = 97 ∷ []

abbrev letter_b : Name
letter_b = 98 ∷ []

abbrev a_b : Name
a_b = join_logical letter_a letter_b

-- `compatibility_name`, with all that it and the way back call unfolded wherever this name is.
replay_name : Name → Outcome Name
unfolding is_space split_slash has_double count_double cut_double split_jsr_name compatibility_name
    logical_jsr_name node_usage ends_in_underscore
replay_name = compatibility_name

spelled : compatibility_name a_b ≡ inr (join_compatibility letter_a letter_b)
unfolding replay_name
spelled = refl

read_back : logical_jsr_name (join_compatibility letter_a letter_b) ≡ inr a_b
unfolding replay_name
read_back = refl

parts : split_jsr_name a_b ≡ inr (letter_a, letter_b)
unfolding replay_name
parts = refl

calm : ends_in_underscore letter_a ≡ false
unfolding replay_name
calm = refl

too_many : compatibility_name (join_logical (97 ∷ 95 ∷ 95 ∷ []) letter_b) ≡ inl NameError.ambiguous
unfolding replay_name
too_many = refl

blank : node_usage (record { source = "npm"; name = 32 ∷ [] }) ≡ inl NameError.empty_name
unfolding replay_name
blank = refl

scope_first :
    compatibility_name (join_logical (letter_a ++ 95 ∷ []) letter_b)
    ≡ inr (join_compatibility (97 ∷ 95 ∷ []) letter_b)
unfolding replay_name
scope_first = refl

package_first :
    compatibility_name (join_logical letter_a (95 ∷ letter_b))
    ≡ inr (join_compatibility letter_a (95 ∷ letter_b))
unfolding replay_name
package_first = refl

-- The way back from the name of `@a_/b` gives `@a/_b`.
read_back_other :
    logical_jsr_name (join_compatibility (97 ∷ 95 ∷ []) letter_b)
    ≡ inr (join_logical letter_a (95 ∷ letter_b))
unfolding replay_name
read_back_other = refl

compatibility_name-logical_jsr_name_example :
    compatibility_name a_b ≡ inr (join_compatibility letter_a letter_b)
compatibility_name-logical_jsr_name_example =
    compatibility_name-logical_jsr_name (join_compatibility letter_a letter_b) a_b read_back

logical_jsr_name-compatibility_name_example :
    logical_jsr_name (join_compatibility letter_a letter_b) ≡ inr a_b
logical_jsr_name-compatibility_name_example =
    logical_jsr_name-compatibility_name a_b letter_a letter_b (join_compatibility letter_a letter_b)
      parts calm spelled

split_first :
    split_jsr_name (join_logical (letter_a ++ 95 ∷ []) letter_b)
    ≡ inr (letter_a ++ 95 ∷ [], letter_b)
unfolding replay_name
split_first = refl

split_second :
    split_jsr_name (join_logical letter_a (95 ∷ letter_b)) ≡ inr (letter_a, 95 ∷ letter_b)
unfolding replay_name
split_second = refl

-- Both sides hold of this name, as `scope_first`, `package_first` and `read_back_other` show.
compatibility_name-ambiguous_example :
    ((compatibility_name (join_logical (letter_a ++ 95 ∷ []) letter_b)
        ≡ inr (join_compatibility (97 ∷ 95 ∷ []) letter_b))
      × (compatibility_name (join_logical letter_a (95 ∷ letter_b))
          ≡ inr (join_compatibility (97 ∷ 95 ∷ []) letter_b)))
    ↔ ((has_double (letter_a ++ 95 ∷ []) ≡ false)
        × (has_double (95 ∷ letter_b) ≡ false)
        × (join_compatibility (97 ∷ 95 ∷ []) letter_b ≡ join_compatibility letter_a (95 ∷ letter_b))
        × (logical_jsr_name (join_compatibility (97 ∷ 95 ∷ []) letter_b)
            ≡ inr (join_logical letter_a (95 ∷ letter_b))))
compatibility_name-ambiguous_example =
    compatibility_name-ambiguous letter_a letter_b (join_compatibility (97 ∷ 95 ∷ []) letter_b)
      split_first split_second

abbrev react_binding : PeerBinding
react_binding = record {
  reference = "react ";
  source = "npm";
  name = "react";
  realization_id = "npm:react@18";
  instance_id = "";
  optional = false;
  state = "";
}

abbrev csstype_binding : PeerBinding
csstype_binding = record react_binding {
  reference = "csstype";
  name = "csstype";
  realization_id = "";
  optional = true;
}

canonical-sorted :
    map peer_binding_key (canonical_peer_bindings (react_binding ∷ csstype_binding ∷ []))
    ≡ peer_binding_key (canonical_binding csstype_binding)
      ∷ peer_binding_key (canonical_binding react_binding)
      ∷ []
unfolding peer_binding_key canonical_binding insert_binding sort_bindings canonical_peer_bindings
    is_space is_blank trim_start trim_end trim_space
canonical-sorted = refl

new_module_instance-Perm_example :
    ((new_module_instance (λ t. t) "npm:app@1" (react_binding ∷ csstype_binding ∷ [])).id
      ≡ (new_module_instance (λ t. t) "npm:app@1" (csstype_binding ∷ react_binding ∷ [])).id)
    × ((new_module_instance
          (λ t. t)
          "npm:app@1"
          (react_binding ∷ csstype_binding ∷ [])).peer_context.id
        ≡ (new_module_instance
            (λ t. t)
            "npm:app@1"
            (csstype_binding ∷ react_binding ∷ [])).peer_context.id)
new_module_instance-Perm_example =
    new_module_instance-Perm (λ t. t) "npm:app@1" (react_binding ∷ csstype_binding ∷ [])
      (csstype_binding ∷ react_binding ∷ []) (Permᴰ.swap refl refl)
