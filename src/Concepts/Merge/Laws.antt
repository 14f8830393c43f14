-- ===== src/Concepts/Merge/Laws.antt =====
-- What a caller of `Merge` in internal/concepts/merge.go may rely on.
use tspack.Base.{
  ◌≡◌, ◌≢◌, ◌∙◌, refl, sym, ap, subst, true, inl, inr, List, [], ◌∷◌, Memᴰ, Mem-append-cases,
  Mem-append_left, Mem-append_right, arith,
}
use tspack.Concepts.Fragment.{Fragment, MergedConceptIr, Conflict}
use tspack.Concepts.Merge.{Outcome, conflicting, merged}
use tspack.Concepts.Merge.Whole.{merge}
use tspack.Concepts.Merge.Unions.{has_unique_keys, has_unique_keys-Mem}
use tspack.Concepts.Merge.Parts.{
  Part, variables, dependencies, tools, peers, targets, run_targets, env, services, update_policy,
  security_policy, files, Element, view, key, contributed, merged_part, contributions, merge-Union,
}

contributions-Mem :
    (p : Part) (fs : List Fragment) (f : Fragment) (a : Element p)
    → Memᴰ f fs
    → Memᴰ a (contributed p f)
    → Memᴰ a (contributions p fs)
contributions-Mem p [] f a m n = elim m [ ]
contributions-Mem p (g ∷ fs) f a (Memᴰ.head e) n =
    Mem-append_left a (contributed p g) (contributions p fs)
      (subst (λ f. Memᴰ a (contributed p f)) e n)
contributions-Mem p (g ∷ fs) f a (Memᴰ.tail m) n =
    Mem-append_right a (contributed p g) (contributions p fs) (contributions-Mem p fs f a m n)

Mem-contributions :
    (p : Part) (fs : List Fragment) (a : Element p)
    → Memᴰ a (contributions p fs)
    → (f : Fragment) × Memᴰ f fs × Memᴰ a (contributed p f)
Mem-contributions p [] a m = elim m [ ]
Mem-contributions p (g ∷ fs) a m =
    elim (Mem-append-cases a (contributed p g) (contributions p fs) m) [
      | inl at ↦ (g, Memᴰ.head refl, at)
      | inr at ↦ let (f, m', n) = Mem-contributions p fs a at in (f, Memᴰ.tail m', n)
    ]

-- In what `Merge` returns without a conflict, no part has a name, path or subject twice.
pub merge-has_unique_keys :
    (fs : List Fragment) (ir : MergedConceptIr) (p : Part)
    → merge fs ≡ merged ir
    → has_unique_keys (key p) (merged_part p ir) ≡ true
merge-has_unique_keys fs ir p h = (merge-Union fs ir p h).unique (ground arith)

-- What `Merge` returns without a conflict has all that a fragment contributes to a part. Who
-- declared a dependency, and in which order, is not compared.
pub merge-contributed :
    (fs : List Fragment) (ir : MergedConceptIr) (p : Part) (f : Fragment) (a : Element p)
    → merge fs ≡ merged ir
    → Memᴰ f fs
    → Memᴰ a (contributed p f)
    → (b : Element p) × Memᴰ b (merged_part p ir) × (view p b ≡ view p a)
merge-contributed fs ir p f a h m n =
    (merge-Union fs ir p h).added a (contributions-Mem p fs f a m n)

-- What `Merge` returns without a conflict has in a part only what a fragment contributes to it.
pub merge-only :
    (fs : List Fragment) (ir : MergedConceptIr) (p : Part) (b : Element p)
    → merge fs ≡ merged ir
    → Memᴰ b (merged_part p ir)
    → (f : Fragment) × Memᴰ f fs
      × ((a : Element p) × Memᴰ a (contributed p f) × (view p b ≡ view p a))
merge-only fs ir p b h m = elim ((merge-Union fs ir p h).only b m) [
  | inl old ↦ elim old [ ]
  | inr (a, at, e) ↦ let (f, m', n) = Mem-contributions p fs a at in (f, m', (a, n, e))
]

-- The name of an element is part of its view.
key-view : (p : Part) (a b : Element p) → view p a ≡ view p b → key p a ≡ key p b
key-view variables a b e = ap (key variables) e
key-view dependencies a b e = cc
key-view tools a b e = cc
key-view peers a b e = cc
key-view targets a b e = ap (key targets) e
key-view run_targets a b e = ap (key run_targets) e
key-view env a b e = ap (key env) e
key-view services a b e = ap (key services) e
key-view update_policy a b e = ap (key update_policy) e
key-view security_policy a b e = ap (key security_policy) e
key-view files a b e = ap (key files) e

same-view :
    (fs : List Fragment) (ir : MergedConceptIr) (p : Part) (f g : Fragment) (a b : Element p)
    → merge fs ≡ merged ir
    → Memᴰ f fs
    → Memᴰ g fs
    → Memᴰ a (contributed p f)
    → Memᴰ b (contributed p g)
    → key p a ≡ key p b
    → view p a ≡ view p b
same-view fs ir p f g a b h mf mg ma mb e =
    let (a', ma', ea) = merge-contributed fs ir p f a h mf ma in
    let (b', mb', eb) = merge-contributed fs ir p g b h mg mb in
    let same =
      has_unique_keys-Mem (key p) (merged_part p ir) a' b' (merge-has_unique_keys fs ir p h) ma' mb'
        (key-view p a' a ea ∙ e ∙ sym (key-view p b' b eb)) in
    sym ea ∙ ap (view p) same ∙ eb

-- `Merge` returns a conflict where two fragments contribute different things of one name to a
-- part.
pub merge-conflicting :
    (fs : List Fragment) (p : Part) (f g : Fragment) (a b : Element p)
    → Memᴰ f fs
    → Memᴰ g fs
    → Memᴰ a (contributed p f)
    → Memᴰ b (contributed p g)
    → key p a ≡ key p b
    → view p a ≢ view p b
    → (c : Conflict) × (merge fs ≡ conflicting c)
merge-conflicting fs p f g a b mf mg ma mb e differ = go (merge fs) refl
  where
    go : (o : Outcome MergedConceptIr) → merge fs ≡ o → (c : Conflict) × (o ≡ conflicting c)
    go (conflicting c) h = (c, refl)
    go (merged ir) h = elim (differ (same-view fs ir p f g a b h mf mg ma mb e)) [ ]
