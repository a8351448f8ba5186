-- ===== src/Bitefficient/Decimal.antt =====
-- The decimal digits that `snprintf` writes for `%d`.
use multiagent_fipa_acl.Base.{
  ltb, leb, if◌then◌else◌, Bool-cases, nat_eq, Text, text_eq, codes, length, length-append, All,
  All-append, ℕ, zero, suc, ◌+◌, ◌-◌, ◌*◌, ◌/◌, ◌%◌, ◌≤◌, ◌<◌, ◌≡◌, refl, sym, ap, ◌∙◌, subst, inl,
  inr, Bool, true, false, ◌&&◌, [], ◌∷◌, ◌++◌, arith,
}

digits_of : ℕ → ℕ → Text
digits_of zero n = []
digits_of (suc fuel) n =
    let rest = digits_of fuel (n / 10) in
    if ltb n 10 then (48 + n) ∷ [] else rest ++ (48 + n % 10) ∷ []

-- The digits of an unsigned number; each turn takes one digit, and a number has fewer digits than
-- its successor is large.
unfoldable pub decimal : ℕ → Text
unfolding digits_of
decimal n = digits_of (suc n) n

-- `%d` given a 32-bit number: it is printed as a signed one.
unfoldable pub print_int : ℕ → Text
unfolding decimal
print_int n = if ltb n 2147483648 then decimal n else codes "-" ++ decimal (4294967296 - n)

abbrev pub is_digit : ℕ → Bool
is_digit c = leb 48 c && leb c 57

abbrev pub AreDigits : Text → Type 0
AreDigits t = All (λ c. is_digit c ≡ true) t

digits_of-AreDigits : (fuel n : ℕ) → AreDigits (digits_of fuel n)
unfolding digits_of
digits_of-AreDigits zero n = tt
digits_of-AreDigits (suc fuel) n = elim (Bool-cases (ltb n 10)) [
  | inl t ↦ rw t (ground arith, tt)
  | inr f ↦ rw f (
      All-append _ (digits_of fuel (n / 10)) ((48 + n % 10) ∷ [])
        (digits_of-AreDigits fuel (n / 10)) (ground arith, tt))
]

-- The value of digits read from the left.
unfoldable pub digits_value : ℕ → Text → ℕ
digits_value acc [] = acc
digits_value acc (c ∷ t) = digits_value (acc * 10 + (c - 48)) t

digits_value-append :
    (acc : ℕ) (t u : Text) → digits_value acc (t ++ u) ≡ digits_value (digits_value acc t) u
unfolding digits_value
digits_value-append acc [] u = refl
digits_value-append acc (c ∷ t) u = digits_value-append (acc * 10 + (c - 48)) t u

not_ltb : (a b : ℕ) → ltb a b ≡ false → b ≤ a
not_ltb a b h = ground arith

digits_of-value : (fuel n : ℕ) → n < fuel → digits_value 0 (digits_of fuel n) ≡ n
unfolding digits_of digits_value
digits_of-value zero n h = absurd (omega arith)
digits_of-value (suc fuel) n h = elim (Bool-cases (ltb n 10)) [
  | inl t ↦ rw t omega arith
  | inr f ↦ rw f (
      digits_value-append 0 (digits_of fuel (n / 10)) ((48 + n % 10) ∷ [])
      ∙ ap (λ v. v * 10 + (48 + n % 10 - 48))
          (digits_of-value fuel (n / 10) (omega (arith, not_ltb n 10 f)))
      ∙ omega arith)
]

digits_of-some : (fuel n : ℕ) → 0 < length (digits_of (suc fuel) n)
unfolding digits_of
digits_of-some fuel n = elim (Bool-cases (ltb n 10)) [
  | inl t ↦ rw t omega arith
  | inr f ↦ rw f (
      subst (0 <◌) (sym (length-append (digits_of fuel (n / 10)) ((48 + n % 10) ∷ [])))
        (omega arith))
]

-- The digits of a number are digits, one at least, and their value is the number.
pub decimal_lem :
    (n : ℕ) → AreDigits (decimal n) × (0 < length (decimal n)) × (digits_value 0 (decimal n) ≡ n)
unfolding decimal
decimal_lem n =
    (digits_of-AreDigits (suc n) n, digits_of-some n n, digits_of-value (suc n) n (omega arith))

less_ltb : (a b : ℕ) → a < b → ltb a b ≡ true
less_ltb a b h = ground arith

-- Below 2^31 a number is printed with its decimal digits.
pub print_int-decimal : (n : ℕ) → n < 2147483648 → print_int n ≡ decimal n
unfolding print_int
print_int-decimal n h =
    ap (λ b. if b then decimal n else codes "-" ++ decimal (4294967296 - n))
      (less_ltb n 2147483648 h)
