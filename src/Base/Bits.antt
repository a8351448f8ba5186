-- ===== src/Base/Bits.antt =====
-- Sets of flags kept in one number: `|` adds flags, and `&` tests them.
use Prim.Native.Nat.{
  ℕ, zero, suc, ◌+◌, ◌*◌, ◌/◌, ◌%◌, ◌≤◌, min, max, bit_and, bit_or, digits, bit_and-bitwise,
  bit_or-bitwise,
}
use mathlib.Core.Path.{◌≡◌, refl, ap, sym, ◌∙◌}
use mathlib.Core.Logic.{◌↔◌}
use mathlib.Core.Bool.{not, ◌||◌}
use native.Mathlib.Omega.{arith}
use multiagent_fipa_acl.Base.Tests.{nat_beq}

-- The loop over the digits that both operations stand for: more turns than the first number needs
-- change nothing.
module _ (stop : ℕ → ℕ) (f : ℕ → ℕ → ℕ) where
  digits-zero : (n b : ℕ) → digits stop f n 0 b ≡ stop b
  digits-zero zero b = refl
  digits-zero (suc n) b = refl

  digits-more : (n m a b : ℕ) → a ≤ n → n ≤ m → digits stop f m a b ≡ digits stop f n a b
  digits-more n m zero b h le = digits-zero m b ∙ sym (digits-zero n b)
  digits-more zero m (suc a) b h le = absurd (omega arith)
  digits-more (suc n) zero (suc a) b h le = absurd (omega arith)
  digits-more (suc n) (suc m) (suc a) b h le =
      ap (λ t. t * 2 + f (suc a % 2) (b % 2))
        (digits-more n m (suc a / 2) (b / 2) (omega arith) (omega arith))

  -- The lowest digit, and the rest with just as many turns as it needs.
  digits-step :
      (a b : ℕ)
      → digits stop f (suc a) (suc a) b
        ≡ digits stop f (suc a / 2) (suc a / 2) (b / 2) * 2 + f (suc a % 2) (b % 2)
  digits-step a b =
      ap (λ t. t * 2 + f (suc a % 2) (b % 2))
        (digits-more (suc a / 2) a (suc a / 2) (b / 2) (omega arith) (omega arith))

and_nothing : (y : ℕ) → bit_and 0 y ≡ 0
and_nothing y = bit_and-bitwise 0 y

or_nothing : (y : ℕ) → bit_or 0 y ≡ y
or_nothing y = bit_or-bitwise 0 y

and_split : (x y : ℕ) → bit_and x y ≡ min (x % 2) (y % 2) + 2 * bit_and (x / 2) (y / 2)
and_split zero y = omega (arith, and_nothing (y / 2), and_nothing y)
and_split (suc x) y =
    let turned = digits-step (λ y. 0) min x y in
    omega (arith, turned, bit_and-bitwise (suc x / 2) (y / 2), bit_and-bitwise (suc x) y)

or_split : (x y : ℕ) → bit_or x y ≡ max (x % 2) (y % 2) + 2 * bit_or (x / 2) (y / 2)
or_split zero y = omega (arith, or_nothing (y / 2), or_nothing y)
or_split (suc x) y =
    let turned = digits-step (λ y. y) max x y in
    omega (arith, turned, bit_or-bitwise (suc x / 2) (y / 2), bit_or-bitwise (suc x) y)

or_half : (a b : ℕ) → bit_or a b / 2 ≡ bit_or (a / 2) (b / 2)
or_half a b = omega (arith, or_split a b)

or_digit : (a b : ℕ) → bit_or a b % 2 ≡ max (a % 2) (b % 2)
or_digit a b = omega (arith, or_split a b)

nothing_and : (n x : ℕ) → x ≤ n → bit_and x 0 ≡ 0
nothing_and n zero h = and_nothing 0
nothing_and zero (suc x) h = absurd (omega arith)
nothing_and (suc n) (suc x) h =
    let half = nothing_and n (suc x / 2) (omega arith) in omega (arith, half, and_split (suc x) 0)

-- No flag of `c` is in `a | b` exactly if none is in either.
no_flags :
    (n a b c : ℕ) → c ≤ n → (bit_and (bit_or a b) c ≡ 0) ↔ ((bit_and a c ≡ 0) × (bit_and b c ≡ 0))
no_flags n a b zero h = ground (
  arith,
  nothing_and (bit_or a b) (bit_or a b) (omega arith),
  nothing_and a a (omega arith),
  nothing_and b b (omega arith),
)
no_flags zero a b (suc c) h = absurd (omega arith)
no_flags (suc n) a b (suc c) h =
    let ih : (bit_and (bit_or a b / 2) (suc c / 2) ≡ 0)
        ↔ ((bit_and (a / 2) (suc c / 2) ≡ 0) × (bit_and (b / 2) (suc c / 2) ≡ 0)) =
      rw (or_half a b) (no_flags n (a / 2) (b / 2) (suc c / 2) (omega arith)) in
    ground (
      arith,
      ih,
      and_split (bit_or a b) (suc c),
      and_split a (suc c),
      and_split b (suc c),
      or_digit a b,
    )

pub bit_and-or :
    (a b c : ℕ)
    → not (nat_beq (bit_and (bit_or a b) c) 0)
      ≡ (not (nat_beq (bit_and a c) 0) || not (nat_beq (bit_and b c) 0))
bit_and-or a b c = ground (arith, no_flags c a b c (omega arith))
