-- ===== src/Concepts/Resolve/Stack.antt =====
-- Just the stacks of concepts that fit together are resolved.
use tspack.Base.{
  Mem-append_left, Mem-is_among, all-Mem, all_intro, is_among, is_among-Mem, ◌≡◌, ◌↔◌, refl, sym,
  ap, ◌∙◌, subst, Bool, true, false, ◌||◌, ◌⊎◌, inl, inr, Option, none, some, Option-cases,
  Bool-cases, List, [], ◌∷◌, ◌++◌, String, str_eq, eq_iff, eq_refl, arith, Memᴰ, if◌then◌else◌,
}
use tspack.Concepts.Fragment.{Fragment}
use tspack.Concepts.Resolve.{
  Resolution, failed, resolved, Listed, list_fragment, list_found, list_all, first_failure,
  unless_failure, check_listed, nothing_listed, resolve_with_registry,
}
use tspack.Concepts.Resolve.Checks.{fits_among, fits, first_failure-fits}

list_found-resolved :
    (name : String) (o : Option Fragment) (s : Listed) (next : Listed → Resolution Listed)
    (t : Listed)
    → list_found name o s next ≡ resolved t
    → (f : Fragment) × (o ≡ some f) × (next (list_fragment name f s) ≡ resolved t)
list_found-resolved name none s next t h = cc
list_found-resolved name (some f) s next t h = (f, refl, h)

list_fragment-listed :
    (name x : String) (f : Fragment) (s : Listed)
    → is_among x (list_fragment name f s).listed ≡ (is_among x s.listed || str_eq name x)
list_fragment-listed name x f s = elim (Bool-cases (is_among name s.listed)) [
  | inl at ↦ ground (arith, eq_iff name x)
  | inr new ↦ ground arith
]

-- What `list_all` lists beside what was listed.
list_all-listed :
    (find : String → Option Fragment) (names : List String) (s t : Listed)
    → list_all find names s ≡ resolved t
    → (x : String) → is_among x t.listed ≡ (is_among x s.listed || is_among x names)
unfolding list_all
list_all-listed find [] s t h x = let e : s ≡ t = ground arith in ground arith
list_all-listed find (name ∷ rest) s t h x =
    let (f, e, h') = list_found-resolved name (find name) s (list_all find rest) t h in
    ground (
      arith,
      list_fragment-listed name x f s,
      list_all-listed find rest (list_fragment name f s) t h' x,
    )

-- What is listed, and the fragments that are found for it.
record Matches (find : String → Option Fragment) (s : Listed) : Type 0 where
  found :
      (x : String)
      → is_among x s.listed ≡ true
      → (f : Fragment) × (find x ≡ some f) × Memᴰ f s.fragments
  only :
      (f : Fragment)
      → Memᴰ f s.fragments
      → (x : String) × (is_among x s.listed ≡ true) × (find x ≡ some f)

Mem-last : {A : Type 0} (xs : List A) (x : A) → Memᴰ x (xs ++ x ∷ [])
Mem-last [] x = Memᴰ.head refl
Mem-last (y ∷ xs) x = Memᴰ.tail (Mem-last xs x)

Mem-split : {A : Type 0} (xs : List A) (y x : A) → Memᴰ x (xs ++ y ∷ []) → Memᴰ x xs ⊎ (x ≡ y)
Mem-split [] y x (Memᴰ.head e) = inr e
Mem-split [] y x (Memᴰ.tail m) = elim m [ ]
Mem-split (z ∷ xs) y x (Memᴰ.head e) = inl (Memᴰ.head e)
Mem-split (z ∷ xs) y x (Memᴰ.tail m) = elim (Mem-split xs y x m) [
  | inl at ↦ inl (Memᴰ.tail at)
  | inr e ↦ inr e
]

listed-Matches :
    (find : String → Option Fragment) (name : String) (f : Fragment) (s : Listed)
    → find name ≡ some f
    → is_among name s.listed ≡ false
    → Matches find s
    → Matches find (record { listed = name ∷ s.listed; fragments = s.fragments ++ f ∷ [] })
listed-Matches find name f s e new m = record {
  found = λ x at. elim (Bool-cases (str_eq name x)) [
    | inl same ↦
        let same' : name ≡ x = (eq_iff name x).0 same in
        (f, subst (λ y. find y ≡ some f) same' e, Mem-last s.fragments f)
    | inr differs ↦
        let (g, e', at') = m.found x (ground (arith, differs, at)) in
        (g, e', Mem-append_left g s.fragments (f ∷ []) at')
  ];
  only = λ g at. elim (Mem-split s.fragments f g at) [
    | inl old ↦ let (x, at', e') = m.only g old in (x, ground (arith, at'), e')
    | inr same ↦ (name, ground (arith, eq_refl name), e ∙ ap some (sym same))
  ];
}

list_fragment-Matches :
    (find : String → Option Fragment) (name : String) (f : Fragment) (s : Listed)
    → find name ≡ some f
    → Matches find s
    → Matches find (list_fragment name f s)
list_fragment-Matches find name f s e m = elim (Bool-cases (is_among name s.listed)) [
  | inl at ↦
      subst (Matches find)
        (sym (
          ap
            (λ b.
              if b
              then s
              else record { listed = name ∷ s.listed; fragments = s.fragments ++ f ∷ [] })
            at))
        m
  | inr new ↦
      subst (Matches find)
        (sym (
          ap
            (λ b.
              if b
              then s
              else record { listed = name ∷ s.listed; fragments = s.fragments ++ f ∷ [] })
            new))
        (listed-Matches find name f s e new m)
]

list_all-Matches :
    (find : String → Option Fragment) (names : List String) (s t : Listed)
    → list_all find names s ≡ resolved t
    → Matches find s
    → Matches find t
unfolding list_all
list_all-Matches find [] s t h m = let e : s ≡ t = ground arith in subst (Matches find) e m
list_all-Matches find (name ∷ rest) s t h m =
    let (f, e, h') = list_found-resolved name (find name) s (list_all find rest) t h in
    list_all-Matches find rest (list_fragment name f s) t h'
      (list_fragment-Matches find name f s e m)

-- The loop ends well where every name has a fragment.
list_all-resolved :
    (find : String → Option Fragment) (names : List String) (s : Listed)
    → ((x : String) → Memᴰ x names → (f : Fragment) × (find x ≡ some f))
    → (t : Listed) × (list_all find names s ≡ resolved t)
unfolding list_all
list_all-resolved find [] s h = (s, refl)
list_all-resolved find (name ∷ rest) s h =
    let (f, e) = h name (Memᴰ.head refl) in
    let (t, e') = list_all-resolved find rest (list_fragment name f s) (λ x m. h x (Memᴰ.tail m)) in
    (t, ap (λ o. list_found name o s (list_all find rest)) e ∙ e')

same_names : {f g : String → Bool} → ((x : String) → f x ≡ g x) → f ≡ g
same_names h i x = h x i

fits-listed :
    (find : String → Option Fragment) (names : List String) (t : Listed)
    → list_all find names nothing_listed ≡ resolved t
    → fits t.listed ≡ fits names
fits-listed find names t h =
    ap fits_among (same_names (list_all-listed find names nothing_listed t h))

start-Matches : (find : String → Option Fragment) → Matches find nothing_listed
start-Matches find = record { found = λ x at. ground arith; only = λ f m. elim m [ ] }

check_listed-resolved :
    (kind : String) (o : Resolution Listed) (fs : List Fragment)
    → check_listed kind o ≡ resolved fs
    → (t : Listed) × (o ≡ resolved t)
      × (first_failure kind t.listed t.fragments ≡ none)
      × (t.fragments ≡ fs)
check_listed-resolved kind (failed e) fs h = cc
check_listed-resolved kind (resolved t) fs h =
    elim (Option-cases (first_failure kind t.listed t.fragments)) [
      | inl e ↦ (t, refl, e, ground arith)
      | inr (e, at) ↦ cc
    ]

-- The fragment of each name that is requested is on the stack.
pub resolve_with_registry-Mem :
    (find : String → Option Fragment) (requested : List String) (kind x : String)
    (fs : List Fragment)
    → resolve_with_registry find requested kind ≡ resolved fs
    → Memᴰ x requested
    → (f : Fragment) × (find x ≡ some f) × Memᴰ f fs
unfolding resolve_with_registry
resolve_with_registry-Mem find requested kind x fs h m =
    let (t, e, quiet, same) =
      check_listed-resolved kind (list_all find requested nothing_listed) fs h in
    let matches = list_all-Matches find requested nothing_listed t e (start-Matches find) in
    let (f, e', at) =
      matches.found x
        (list_all-listed find requested nothing_listed t e x ∙ is_among-Mem x requested m) in
    (f, e', subst (Memᴰ f) same at)

-- A stack is resolved just where each name that is requested has a fragment, and each of these
-- fragments fits the names that are requested.
pub resolve_with_registry_iff :
    (find : String → Option Fragment) (requested : List String) (kind : String)
    → ((fs : List Fragment) × (resolve_with_registry find requested kind ≡ resolved fs)) ↔ (
        (x : String)
        → Memᴰ x requested
        → (f : Fragment) × (find x ≡ some f) × (fits requested kind f ≡ true))
unfolding resolve_with_registry
resolve_with_registry_iff find requested kind = (
  λ p. λ x m.
      let (t, h, quiet, same) =
        check_listed-resolved kind (list_all find requested nothing_listed) p.0 p.1 in
      let matches = list_all-Matches find requested nothing_listed t h (start-Matches find) in
      let (f, e, at) =
        matches.found x
          (list_all-listed find requested nothing_listed t h x ∙ is_among-Mem x requested m) in
      (
        f,
        e,
        subst (λ fit. fit kind f ≡ true) (fits-listed find requested t h)
            (all-Mem (fits t.listed kind) t.fragments f
              ((first_failure-fits kind t.listed t.fragments).0 quiet) at),
      ),
  λ h.
      let (t, e) =
        list_all-resolved find requested nothing_listed
          (λ x m. let (f, e, fit) = h x m in (f, e)) in
      let matches = list_all-Matches find requested nothing_listed t e (start-Matches find) in
      let quiet = (first_failure-fits kind t.listed t.fragments).1 (
        all_intro (fits t.listed kind) t.fragments (λ f m.
          let (x, at, e') = matches.only f m in
          let among =
            Mem-is_among x requested
              (sym (list_all-listed find requested nothing_listed t e x) ∙ at) in
          let (g, e'', fit) = h x among in
          subst (λ fit. fit kind f ≡ true) (sym (fits-listed find requested t e))
            (subst (λ g. fits requested kind g ≡ true) (ground (arith, e', e'')) fit))) in
      (t.fragments, ap (check_listed kind) e ∙ ap (unless_failure t.fragments) quiet),
)
