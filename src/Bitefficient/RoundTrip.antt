-- ===== src/Bitefficient/RoundTrip.antt =====
-- The grammar reads back what the format writes: the tests on texts that the encoding can hold.
pub mod Texts
pub mod Parts
pub mod Trees
pub mod Agents
pub mod Content
pub mod Types
pub mod Parameters
pub mod Digits
pub mod Dates
pub mod Built
pub mod Steps
pub mod Messages
pub mod Delivered
use multiagent_fipa_acl.Base.{
  ltb, nat_beq, nat_eq, Text, text_eq, ℕ, Bool, true, false, not, ◌&&◌, List, [], ◌∷◌,
}
use multiagent_fipa_acl.Bitefficient.Decimal.{is_digit}

-- A character that `Word` takes behind the first one.
abbrev pub is_word_char : ℕ → Bool
is_word_char c = ltb c 128 && ltb 32 c && not (nat_beq 40 c) && not (nat_beq 41 c)

abbrev pub all_of {ℓ} : {A : Type ℓ} → (A → Bool) → List A → Bool
all_of p [] = true
all_of p (x ∷ xs) = p x && all_of p xs

-- A text that `Word` takes.
unfoldable pub is_word : Text → Bool
is_word [] = false
is_word (c ∷ w) =
    is_word_char c
    && not (nat_beq 35 c)
    && not (is_digit c)
    && not (nat_beq 45 c)
    && not (nat_beq 64 c)
    && all_of is_word_char w

-- A text without a quote that does not end in a backslash.
unfoldable pub is_quotable : Text → Bool
is_quotable [] = true
is_quotable (c ∷ []) = not (nat_beq 34 c) && not (nat_beq 92 c)
is_quotable (c ∷ d ∷ s) = not (nat_beq 34 c) && is_quotable (d ∷ s)
