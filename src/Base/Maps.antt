-- ===== src/Base/Maps.antt =====
-- `std::map` as an association list. The program reads it by key only, or in an order that it
-- does not depend on, so the entries stand in the order of insertion.
use mathlib.Core.Path.{◌≡◌, refl}
use mathlib.Core.Bool.{Bool, true, false}
use mathlib.Core.Option.{Option, none, some}
use mathlib.Core.Logic.{inl, inr}
use mathlib.Core.List.{List, [], ◌∷◌, ◌++◌}
use native.Mathlib.Omega.{arith}
use multiagent_fipa_acl.Base.Tests.{if◌then◌else◌, Bool-cases}
use multiagent_fipa_acl.Base.Lists.{All}
use mathlib.Core.Path.{subst}
use multiagent_fipa_acl.Base.Equality.{Eq, ◌==◌}

abbrev pub Map {ℓ κ} : Type ℓ → Type κ → Type (ℓ ⊔ κ)
Map K V = List (K × V)

module _ {ℓ κ} {K : Type ℓ} {V : Type κ} ⦃e : Eq K⦄ where
  -- `find`; `none` is `end()`.
  unfoldable pub find : K → Map K V → Option V
  find k [] = none
  find k ((j, v) ∷ m) = if j == k then some v else find k m

  -- `operator[]` on the left of an assignment.
  unfoldable pub put : K → V → Map K V → Map K V
  put k v [] = (k, v) ∷ []
  put k v ((j, w) ∷ m) = if j == k then (j, v) ∷ m else (j, w) ∷ put k v m

  unfoldable pub has : K → Map K V → Bool
  has k [] = false
  has k ((j, v) ∷ m) = if j == k then true else has k m

  -- `insert`: an entry that is there already stays.
  unfoldable pub insert_new : K → V → Map K V → Map K V
  insert_new k v m = if has k m then m else m ++ (k, v) ∷ []

  -- `erase` by key.
  unfoldable pub erase : K → Map K V → Map K V
  erase k [] = []
  erase k ((j, v) ∷ m) = if j == k then erase k m else (j, v) ∷ erase k m

  pub find-put :
      (k j : K) (v : V) (m : Map K V) → find j (put k v m) ≡ (if k == j then some v else find j m)
  unfolding find put
  find-put k j v [] = refl
  find-put k j v ((i, w) ∷ m) =
      ground (arith, e.beq_iff k j, e.beq_iff i k, e.beq_iff i j, find-put k j v m)

  pub find-erase :
      (k j : K) (m : Map K V) → find j (erase k m) ≡ (if k == j then none else find j m)
  unfolding find erase
  find-erase k j [] = ground arith
  find-erase k j ((i, w) ∷ m) =
      ground (arith, e.beq_iff k j, e.beq_iff i k, e.beq_iff i j, find-erase k j m)

  find-append_new :
      (k j : K) (v : V) (m : Map K V)
      → has k m ≡ false
      → find j (m ++ (k, v) ∷ []) ≡ (if k == j then some v else find j m)
  unfolding find has
  find-append_new k j v [] h = refl
  find-append_new k j v ((i, w) ∷ m) h =
      ground (arith, e.beq_iff k j, e.beq_iff i k, e.beq_iff i j, find-append_new k j v m)

  pub has-find : (k : K) (m : Map K V) {v : V} → find k m ≡ some v → has k m ≡ true
  unfolding find has
  has-find k [] h = cc
  has-find k ((i, w) ∷ m) {v} h = ground (arith, has-find k m {v = v})

  pub find-has : (k : K) (m : Map K V) → has k m ≡ true → (v : V) × (find k m ≡ some v)
  unfolding find has
  find-has k [] h = cc
  find-has k ((i, w) ∷ m) h = elim (Bool-cases (i == k)) [
    | inl t ↦ (w, rw t)
    | inr f ↦ let (v, q) = find-has k m (rw f at h) in (v, rw f q)
  ]

  pub not_has-find : (k : K) (m : Map K V) → has k m ≡ false → find k m ≡ none
  unfolding find has
  not_has-find k [] h = refl
  not_has-find k ((i, w) ∷ m) h = ground (arith, not_has-find k m)

  pub has-put :
      (k j : K) (v : V) (m : Map K V) → has j (put k v m) ≡ (if k == j then true else has j m)
  unfolding has put
  has-put k j v [] = refl
  has-put k j v ((i, w) ∷ m) =
      ground (arith, e.beq_iff k j, e.beq_iff i k, e.beq_iff i j, has-put k j v m)

  has-append :
      (j k : K) (v : V) (m : Map K V)
      → has j (m ++ (k, v) ∷ []) ≡ (if k == j then true else has j m)
  unfolding has
  has-append j k v [] = refl
  has-append j k v ((i, w) ∷ m) = ground (arith, has-append j k v m)

  pub has-insert_new :
      (k j : K) (v : V) (m : Map K V)
      → has j (insert_new k v m) ≡ (if k == j then true else has j m)
  unfolding insert_new
  has-insert_new k j v m = ground (arith, has-append j k v m, e.beq_iff k j)

  pub find-insert_new :
      (k j : K) (v : V) (m : Map K V)
      → find j (insert_new k v m)
        ≡ (if has k m then find j m else if k == j then some v else find j m)
  unfolding insert_new
  find-insert_new k j v m = ground (arith, find-append_new k j v m)

-- Facts about every entry of a map.
module _ {ℓ κ μ} {K : Type ℓ} {V : Type κ} ⦃e : Eq K⦄ (P : K × V → Type μ) where
  pub All-find : (k : K) (m : Map K V) {v : V} → All P m → find k m ≡ some v → P (k, v)
  unfolding find
  All-find k [] a h = cc
  All-find k ((j, w) ∷ m) {v} a h = elim (Bool-cases (j == k)) [
    | inl t ↦ subst P (ground (arith, e.beq_iff j k)) a.0
    | inr f ↦ All-find k m a.1 (rw f at h)
  ]

  pub All-put : (k : K) (v : V) (m : Map K V) → All P m → P (k, v) → All P (put k v m)
  unfolding put
  All-put k v [] a p = (p, tt)
  All-put k v ((j, w) ∷ m) a p = elim (Bool-cases (j == k)) [
    | inl t ↦ rw t (subst P (ground (arith, e.beq_iff j k)) p, a.1)
    | inr f ↦ rw f (a.0, All-put k v m a.1 p)
  ]

module _ {ℓ κ} {K : Type ℓ} {V : Type κ} ⦃e : Eq K⦄ where
  -- Writing back what was read changes nothing.
  pub put-find_self : (k : K) (m : Map K V) {v : V} → find k m ≡ some v → put k v m ≡ m
  unfolding find put
  put-find_self k [] h = cc
  put-find_self k ((j, w) ∷ m) {v} h = ground (arith, put-find_self k m {v = v})

  -- A key that is there can be written without making others known.
  pub has-put_known : (k j : K) (v : V) (m : Map K V) → has k m ≡ true → has j (put k v m) ≡ has j m
  has-put_known k j v m h = ground (arith, has-put k j v m, e.beq_iff k j)
