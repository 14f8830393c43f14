-- ===== src/Identity/Names/Slashes.antt =====
-- `splitJSRName` of internal/packageidentity/identity.go and the names it takes apart.
use tspack.Base.{ℕ, ◌≡◌, ◌∙◌, refl, ap, sym, List, [], ◌∷◌, ◌++◌, inl, inr, arith, ◌==◌, Bool-cases}
use tspack.Identity.Names.{
  Name, slash, split_slash, push_front, split_jsr_name, check_parts, join_logical,
}

push_front-append :
    (c : ℕ) (part : Name) (parts rest : List Name)
    → push_front c ((part ∷ parts) ++ rest) ≡ push_front c (part ∷ parts) ++ rest
push_front-append c part parts rest = refl

split_slash_first : (s : Name) → (p : Name) × (ps : List Name) × (split_slash s ≡ p ∷ ps)
unfolding split_slash
split_slash_first [] = ([], [], refl)
split_slash_first (c ∷ s) =
    let (p, ps, e) = split_slash_first s in
    elim (Bool-cases (c == slash)) [
      | inl cut ↦ ([], split_slash s, ground arith)
      | inr on ↦ (c ∷ p, ps, ground arith)
    ]

-- Splitting at the slashes of a text that has one: before it and after it.
pub split_slash-append :
    (a b : Name) → split_slash (a ++ slash ∷ b) ≡ split_slash a ++ split_slash b
unfolding split_slash
split_slash-append [] b = refl
split_slash-append (c ∷ a) b = ground (arith, split_slash-append a b, split_slash_first a)

-- A text that splits into one part is that part.
pub split_slash_one : (s p : Name) → split_slash s ≡ p ∷ [] → s ≡ p
unfolding split_slash
split_slash_one [] p h = ground arith
split_slash_one (c ∷ s) p h =
    let (q, qs, e) = split_slash_first s in ground (arith, split_slash_one s q)

-- A text that splits into two parts has its slash between them.
pub split_slash_two : (s p q : Name) → split_slash s ≡ p ∷ q ∷ [] → s ≡ p ++ slash ∷ q
unfolding split_slash
split_slash_two [] p q h = ground arith
split_slash_two (c ∷ s) p q h =
    let (r, rs, e) = split_slash_first s in
    ground (arith, split_slash_one s q, split_slash_two s r q)

check_parts-eq : (ps : List Name) (a b : Name) → check_parts ps ≡ inr (a, b) → ps ≡ a ∷ b ∷ []
check_parts-eq [] a b h = cc
check_parts-eq (p ∷ []) a b h = cc
check_parts-eq (p ∷ q ∷ []) a b h = ground arith
check_parts-eq (p ∷ q ∷ r ∷ ps) a b h = cc

-- A name that is taken apart is the join of its parts.
pub split_jsr_name-join : (n a b : Name) → split_jsr_name n ≡ inr (a, b) → n ≡ join_logical a b
unfolding split_jsr_name
split_jsr_name-join [] a b h = cc
split_jsr_name-join (c ∷ n) a b h =
    ground (arith, check_parts-eq (split_slash n) a b, split_slash_two n a b)

append_two :
    (p q : Name) (ps qs : List Name) (a b : Name)
    → (p ∷ ps) ++ q ∷ qs ≡ a ∷ b ∷ []
    → (ps ≡ []) × (qs ≡ []) × (p ≡ a) × (q ≡ b)
append_two p q [] qs a b h = ground arith
append_two p q (r ∷ []) qs a b h = cc
append_two p q (r ∷ t ∷ ps) qs a b h = cc

-- A join that is taken apart gives the parts back.
pub join-split_jsr_name :
    (a b c d : Name) → split_jsr_name (join_logical a b) ≡ inr (c, d) → (a ≡ c) × (b ≡ d)
unfolding split_jsr_name
join-split_jsr_name a b c d h =
    let whole = check_parts-eq (split_slash (a ++ slash ∷ b)) c d h in
    let (p, ps, ea) = split_slash_first a in
    let (q, qs, eb) = split_slash_first b in
    let (none_a, none_b, pc, qd) = append_two p q ps qs c d (
      ap (λ l. l ++ q ∷ qs) (sym ea)
      ∙ ap (λ l. split_slash a ++ l) (sym eb)
      ∙ sym (split_slash-append a b)
      ∙ whole) in
    (split_slash_one a c (ground arith), split_slash_one b d (ground arith))
