-- ===== src/Pairing/Counting.antt =====
-- The comparison loop of `Pairing` decides equality as multisets.
use multiagent_fipa_acl.Base.{
  if◌then◌else◌, Option-cases, Bool-ext, Eq, ◌==◌, nat_eq, ==_refl, text_eq, is_empty, length,
  count, ℕ, zero, suc, ◌≤◌, ◌≡◌, refl, sym, ◌∙◌, subst, ◌↔◌, ◌⊎◌, inl, inr, Bool, true, false,
  Option, none, some, List, [], ◌∷◌, ◌++◌, append-nil, append_assoc, arith,
}
use multiagent_fipa_acl.Pairing.{erase_first, erase_common, both_empty, same_collection}

pub record IsEquivalence {ℓ} {A : Type ℓ} (eq : A → A → Bool) : Type ℓ where
  pub reflexive : (a : A) → eq a a ≡ true
  pub symmetric : (a b : A) → eq a b ≡ true → eq b a ≡ true
  pub transitive : (a b c : A) → eq a b ≡ true → eq b c ≡ true → eq a c ≡ true

-- As many elements of each class in one list as in the other.
abbrev pub SameCounts {ℓ} : {A : Type ℓ} → (A → A → Bool) → List A → List A → Type ℓ
SameCounts {A} eq xs bs = (x : A) → count (eq x) xs ≡ count (eq x) bs

abbrev is_none {ℓ} : {A : Type ℓ} → Option A → Bool
is_none none = true
is_none (some _) = false

module _ {ℓ} {A : Type ℓ} (eq : A → A → Bool) where
  -- One pass over the first list, with no restart.
  pub matches : List A → List A → Bool
  matches [] bs = is_empty bs
  matches (a ∷ xs) bs = elim (erase_first eq a bs) [ none ↦ false | some bs' ↦ matches xs bs' ]

  -- Some element has no partner.
  abbrev Lonely : List A → List A → Type 0
  Lonely bs [] = ⊥
  Lonely bs (x ∷ xs) = (is_none (erase_first eq x bs) ≡ true) ⊎ Lonely bs xs

  Lonely-left : (bs xs ys : List A) → Lonely bs xs → Lonely bs (xs ++ ys)
  Lonely-left bs [] ys h = absurd h
  Lonely-left bs (x ∷ xs) ys (inl h) = inl h
  Lonely-left bs (x ∷ xs) ys (inr h) = inr (Lonely-left bs xs ys h)

  Lonely-right : (bs xs ys : List A) → Lonely bs ys → Lonely bs (xs ++ ys)
  Lonely-right bs [] ys h = h
  Lonely-right bs (x ∷ xs) ys h = inr (Lonely-right bs xs ys h)

  Lonely-split : (bs xs ys : List A) → Lonely bs (xs ++ ys) → Lonely bs xs ⊎ Lonely bs ys
  Lonely-split bs [] ys h = inr h
  Lonely-split bs (x ∷ xs) ys (inl h) = inl (inl h)
  Lonely-split bs (x ∷ xs) ys (inr h) = elim (Lonely-split bs xs ys h) [
    | inl l ↦ inl (inr l)
    | inr r ↦ inr r
  ]

  -- An erasure does not bring a partner.
  erase_first-none :
      (a c : A) (bs : List A) {bs' : List A}
      → is_none (erase_first eq a bs) ≡ true
      → erase_first eq c bs ≡ some bs'
      → is_none (erase_first eq a bs') ≡ true
  unfolding erase_first
  erase_first-none a c [] h k = cc
  erase_first-none a c (b ∷ bs) {bs'} h k = elim (Option-cases (erase_first eq c bs)) [
    | inl e ↦ ground arith
    | inr (cs, e) ↦ ground (arith, erase_first-none a c bs {bs' = cs})
  ]

  Lonely-erase :
      (c : A) (bs : List A) (xs : List A) {bs' : List A}
      → erase_first eq c bs ≡ some bs'
      → Lonely bs xs
      → Lonely bs' xs
  Lonely-erase c bs [] k h = absurd h
  Lonely-erase c bs (x ∷ xs) k (inl h) = inl (erase_first-none x c bs h k)
  Lonely-erase c bs (x ∷ xs) k (inr h) = inr (Lonely-erase c bs xs k h)

  Lonely-nonempty : (bs xs : List A) → Lonely bs xs → is_empty xs ≡ false
  Lonely-nonempty bs [] h = absurd h
  Lonely-nonempty bs (x ∷ xs) h = refl

  -- The element that finds a partner is not the one without.
  Lonely-other :
      (a : A) (bs seen rest : List A) {bs' : List A}
      → erase_first eq a bs ≡ some bs'
      → Lonely bs (seen ++ a ∷ rest)
      → Lonely bs' (seen ++ rest)
  Lonely-other a bs seen rest {bs'} k h =
      Lonely-erase a bs (seen ++ rest) k (elim (Lonely-split bs seen (a ∷ rest) h) [
        | inl l ↦ Lonely-left bs seen rest l
        | inr (inl e) ↦ absurd (ground arith)
        | inr (inr r) ↦ Lonely-right bs seen rest r
      ])

  -- An element that has no partner is left over, whatever the order of the erasures.
  erase_common-Lonely :
      (n : ℕ) (seen rest bs : List A)
      → Lonely bs (seen ++ rest)
      → is_empty (erase_common eq n seen rest bs).0 ≡ false
  unfolding erase_common
  erase_common-Lonely zero seen [] bs h =
      Lonely-nonempty bs seen (subst (Lonely bs) (append-nil seen) h)
  erase_common-Lonely (suc n) seen [] bs h =
      Lonely-nonempty bs seen (subst (Lonely bs) (append-nil seen) h)
  erase_common-Lonely zero seen (a ∷ rest) bs h = elim (Option-cases (erase_first eq a bs)) [
    | inl e ↦
        rw (e, erase_common)
          (erase_common-Lonely zero (seen ++ a ∷ []) rest bs
            (subst (Lonely bs) (sym (append_assoc seen (a ∷ []) rest)) h))
    | inr (bs', e) ↦ rw (e, erase_common) (Lonely-nonempty bs (seen ++ a ∷ rest) h)
  ]
  erase_common-Lonely (suc n) seen (a ∷ rest) bs h = elim (Option-cases (erase_first eq a bs)) [
    | inl e ↦
        rw (e, erase_common)
          (erase_common-Lonely (suc n) (seen ++ a ∷ []) rest bs
            (subst (Lonely bs) (sym (append_assoc seen (a ∷ []) rest)) h))
    | inr (bs', e) ↦
        rw (e, erase_common)
          (erase_common-Lonely n [] (seen ++ rest) bs' (Lonely-other a bs seen rest e h))
  ]

  -- With the length of the first list as its bound the loop is never cut short, and the restarts
  -- change nothing.
  erase_common-matches :
      (n : ℕ) (xs bs : List A)
      → length xs ≤ n
      → both_empty (erase_common eq n [] xs bs) ≡ matches xs bs
  unfolding erase_common matches
  erase_common-matches zero [] bs h = refl
  erase_common-matches (suc n) [] bs h = refl
  erase_common-matches zero (a ∷ xs) bs h = absurd (omega arith)
  erase_common-matches (suc n) (a ∷ xs) bs h = elim (Option-cases (erase_first eq a bs)) [
    | inl e ↦
        rw (e, erase_common, matches)
          (rw (erase_common-Lonely (suc n) (a ∷ []) xs bs (inl (rw e))) refl)
    | inr (bs', e) ↦ rw (e, erase_common, matches) (erase_common-matches n xs bs' (omega arith))
  ]

  erase_first-not_found : (a : A) (bs : List A) → erase_first eq a bs ≡ none → count (eq a) bs ≡ 0
  unfolding erase_first
  erase_first-not_found a [] h = refl
  erase_first-not_found a (b ∷ bs) h = ground (arith, erase_first-not_found a bs)

module _ {ℓ} {A : Type ℓ} (eq : A → A → Bool) (q : IsEquivalence eq) where
  eq_class : (x a b : A) → eq a b ≡ true → eq x a ≡ eq x b
  eq_class x a b h =
      Bool-ext (eq x a) (eq x b) (λ k. q.transitive x a b k h)
        (λ k. q.transitive x b a k (q.symmetric a b h))

  count-erase_first :
      (x a : A) (bs : List A) {bs' : List A}
      → erase_first eq a bs ≡ some bs'
      → count (eq x) bs ≡ (if eq x a then suc (count (eq x) bs') else count (eq x) bs')
  unfolding erase_first
  count-erase_first x a [] h = cc
  count-erase_first x a (b ∷ bs) {bs'} h = elim (Option-cases (erase_first eq a bs)) [
    | inl e ↦ ground (arith, eq_class x a b)
    | inr (cs, e) ↦ ground (arith, eq_class x a b, count-erase_first x a bs {bs' = cs})
  ]

  matches-SameCounts : (xs bs : List A) → matches eq xs bs ≡ true → SameCounts eq xs bs
  unfolding matches
  matches-SameCounts [] [] h x = refl
  matches-SameCounts [] (b ∷ bs) h x = cc
  matches-SameCounts (a ∷ xs) bs h x = elim (Option-cases (erase_first eq a bs)) [
    | inl e ↦ ground arith
    | inr (bs', e) ↦
        let rest = matches-SameCounts xs bs' (rw (e, matches) at h) x in
        ground (arith, count-erase_first x a bs {bs' = bs'})
  ]

  SameCounts-matches : (xs bs : List A) → SameCounts eq xs bs → matches eq xs bs ≡ true
  unfolding matches
  SameCounts-matches [] [] h = refl
  SameCounts-matches [] (b ∷ bs) h = let k = h b in let r = q.reflexive b in absurd (ground arith)
  SameCounts-matches (a ∷ xs) bs h = elim (Option-cases (erase_first eq a bs)) [
    | inl e ↦
        let k = h a in
        let r = q.reflexive a in absurd (ground (arith, erase_first-not_found eq a bs))
    | inr (bs', e) ↦
        rw (e, matches)
          (SameCounts-matches xs bs'
            λ x. let k = h x in ground (arith, count-erase_first x a bs {bs' = bs'}))
  ]

  -- The comparison loop decides whether two vectors hold as many elements of each class.
  pub same_collection_iff :
      (xs bs : List A) → (same_collection eq xs bs ≡ true) ↔ SameCounts eq xs bs
  unfolding same_collection
  same_collection_iff xs bs =
      rw (erase_common-matches eq (length xs) xs bs (omega arith))
        (matches-SameCounts xs bs, SameCounts-matches xs bs)

  -- So it is an equivalence on vectors.
  pub same_collection-IsEquivalence : IsEquivalence (same_collection eq)
  same_collection-IsEquivalence = record {
    reflexive = λ a. (same_collection_iff a a).1 (λ x. refl);
    symmetric = λ a b h. (same_collection_iff b a).1 (λ x. sym ((same_collection_iff a b).0 h x));
    transitive = λ a b c h k.
        (same_collection_iff a c).1
          (λ x. (same_collection_iff a b).0 h x ∙ (same_collection_iff b c).0 k x);
  }

-- Where the elements are compared by their values, as strings are.
pub ==-IsEquivalence {ℓ} : {A : Type ℓ} ⦃e : Eq A⦄ → IsEquivalence {A = A} ◌==◌
==-IsEquivalence ⦃e⦄ = record {
  reflexive = ==_refl;
  symmetric = λ a b h. (e.beq_iff b a).1 (sym ((e.beq_iff a b).0 h));
  transitive = λ a b c h k. (e.beq_iff a c).1 ((e.beq_iff a b).0 h ∙ (e.beq_iff b c).0 k);
}
