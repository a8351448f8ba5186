-- ===== src/Words.antt =====
-- The test for illegal words, which message_generator/acl_message.cpp, agent_id.cpp and
-- userdef_param.cpp write out before they take a name, an address, a performative or a protocol.
use multiagent_fipa_acl.Base.{
  ◌==◌, nat_eq, Text, text_eq, codes, any_of, All, ℕ, ◌≡◌, ◌≢◌, ◌⊎◌, ◌≤◌, Bool, ◌||◌, [], ◌∷◌, ◌++◌,
}

-- `std::string("() ") + char(0x00)`
abbrev pub illegal_word_chars : Text
illegal_word_chars = codes "() " ++ 0 ∷ []

abbrev pub illegal_word_start : Text
illegal_word_start = codes "@#-0123456789"

unfoldable pub occurs_in : Text → ℕ → Bool
occurs_in chars c = any_of (λ d. c == d) chars

-- `word.c_str()[0]`: the terminating zero if the word is empty.
abbrev pub c_str_front : Text → ℕ
c_str_front [] = 0
c_str_front (c ∷ _) = c

unfoldable pub is_illegal_word : Text → Bool
unfolding occurs_in
is_illegal_word word =
    any_of (occurs_in illegal_word_chars) word || occurs_in illegal_word_start (c_str_front word)

-- A byte that a word may hold: not zero, no space, no parenthesis.
abbrev pub IsWordByte : ℕ → Type 0
IsWordByte c = (c ≢ 0) × (c ≢ 32) × (c ≢ 40) × (c ≢ 41)

-- A byte that no word starts with: a commercial at, a hash, a hyphen or a digit.
abbrev pub IsStopByte : ℕ → Type 0
IsStopByte c = (c ≡ 64) ⊎ ((c ≡ 35) ⊎ ((c ≡ 45) ⊎ ((48 ≤ c) × (c ≤ 57))))

-- A legal word: all its bytes may stand in a word, and its first one may start it. The empty word
-- is one.
abbrev pub IsLegal : Text → Type 0
IsLegal [] = Unit {0}
IsLegal (c ∷ word) = (¬ IsStopByte c) × All IsWordByte (c ∷ word)
