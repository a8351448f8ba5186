-- ===== src/Bitefficient/Qi.antt =====
-- The parts of Boost.Spirit.Qi that the grammars of message_parser/grammar are made of, as an
-- interface with the laws that its documentation gives: a rule is a function from the input that
-- is left to what it matches, and a rule that fails consumes nothing.
use multiagent_fipa_acl.Base.{
  if◌then◌else◌, nat_eq, Text, text_eq, length, Error, Result, ok, err, ℕ, suc, ◌+◌, ◌*◌, ◌/◌, ◌%◌,
  ◌≤◌, ◌<◌, ◌≡◌, ◌≢◌, Bool, true, false, Option, none, some, List, [], ◌∷◌,
}

pub data Parsed (A : Type 0) : Type 0 where
  matched : A → Text → Parsed A
  failed : Parsed A
  thrown : Error → Parsed A

abbrev pub Parser : Type 0 → Type 0
Parser A = Text → Parsed A

-- The input is empty or begins with another byte.
abbrev pub HeadNot : ℕ → Text → Type 0
HeadNot c [] = Unit
HeadNot c (d ∷ s) = c ≢ d

-- Numbers in the memory of the machine, and the functions of arpa/inet.h that bring them into
-- the order of the network.
pub record Host : Type 0 where
  pub word_at : ℕ → ℕ → ℕ
  pub dword_at : ℕ → ℕ → ℕ → ℕ → ℕ
  pub word_bytes : ℕ → Text
  pub dword_bytes : ℕ → Text
  pub ntohs : ℕ → ℕ
  pub ntohl : ℕ → ℕ
  pub htons : ℕ → ℕ
  pub htonl : ℕ → ℕ
  pub ntohs-word_at : (a b : ℕ) → a < 256 → b < 256 → ntohs (word_at a b) ≡ a * 256 + b
  pub ntohl-dword_at :
      (a b c d : ℕ)
      → a < 256
      → b < 256
      → c < 256
      → d < 256
      → ntohl (dword_at a b c d) ≡ ((a * 256 + b) * 256 + c) * 256 + d
  pub word_bytes-htons : (n : ℕ) → n < 65536 → word_bytes (htons n) ≡ n / 256 ∷ n % 256 ∷ []
  pub dword_bytes-htonl :
      (n : ℕ)
      → n < 4294967296
      → dword_bytes (htonl n) ≡ n / 16777216 ∷ n / 65536 % 256 ∷ n / 256 % 256 ∷ n % 256 ∷ []

pub record Qi : Type 1 where
  pub host : Host
  -- `word` and `dword`: in the order of the machine
  pub word : Parser ℕ
  pub dword : Parser ℕ
  -- `byte_(c)`, `byte_`, and a character of `spirit::ascii` that passes a test.
  pub byte : ℕ → Parser ℕ
  pub any_byte : Parser ℕ
  pub ascii : (ℕ → Bool) → Parser ℕ
  -- `a >> b`, `a | b`, `a - b`, `*a`, `-a`, `repeat(n)[a]`
  pub seq : {A B : Type 0} → Parser A → Parser B → Parser (A × B)
  pub alt : {A : Type 0} → Parser A → Parser A → Parser A
  pub minus : {A B : Type 0} → Parser A → Parser B → Parser A
  pub star : {A : Type 0} → Parser A → Parser (List A)
  pub opt : {A : Type 0} → Parser A → Parser (Option A)
  pub repeated : {A : Type 0} → ℕ → Parser A → Parser (List A)
  -- `a[f]`, `a >> eps(p)` and `a[_a = _1] >> b(_a)`
  pub act : {A B : Type 0} → Parser A → (A → Result B) → Parser B
  pub tested : {A : Type 0} → Parser A → (A → Bool) → Parser A
  pub pass : {A B : Type 0} → Parser A → (A → Parser B) → Parser B
  pub byte-matched : (c : ℕ) (s : Text) → byte c (c ∷ s) ≡ matched c s
  pub byte-failed : (c : ℕ) (s : Text) → HeadNot c s → byte c s ≡ failed
  pub word-matched : (a b : ℕ) (s : Text) → word (a ∷ b ∷ s) ≡ matched (host.word_at a b) s
  pub dword-matched :
      (a b c d : ℕ) (s : Text) → dword (a ∷ b ∷ c ∷ d ∷ s) ≡ matched (host.dword_at a b c d) s
  pub any_byte-matched : (c : ℕ) (s : Text) → any_byte (c ∷ s) ≡ matched c s
  pub any_byte-failed : any_byte [] ≡ failed
  pub ascii-matched :
      (p : ℕ → Bool) (c : ℕ) (s : Text) → c < 128 → p c ≡ true → ascii p (c ∷ s) ≡ matched c s
  pub ascii-failed : (p : ℕ → Bool) (c : ℕ) (s : Text) → p c ≡ false → ascii p (c ∷ s) ≡ failed
  pub ascii-beyond : (p : ℕ → Bool) (c : ℕ) (s : Text) → 128 ≤ c → ascii p (c ∷ s) ≡ failed
  pub ascii-end : (p : ℕ → Bool) → ascii p [] ≡ failed
  pub seq-matched :
      {A B : Type 0} {p : Parser A} {q : Parser B} {a : A} {b : B} {s r t : Text}
      → p s ≡ matched a r
      → q r ≡ matched b t
      → seq p q s ≡ matched (a, b) t
  pub seq-failed :
      {A B : Type 0} {p : Parser A} {q : Parser B} {s : Text} → p s ≡ failed → seq p q s ≡ failed
  pub seq-failed_later :
      {A B : Type 0} {p : Parser A} {q : Parser B} {a : A} {s r : Text}
      → p s ≡ matched a r
      → q r ≡ failed
      → seq p q s ≡ failed
  pub alt-matched :
      {A : Type 0} {p q : Parser A} {a : A} {s r : Text}
      → p s ≡ matched a r
      → alt p q s ≡ matched a r
  pub alt-failed : {A : Type 0} {p q : Parser A} {s : Text} → p s ≡ failed → alt p q s ≡ q s
  pub minus-matched :
      {A B : Type 0} {p : Parser A} {q : Parser B} {s : Text} → q s ≡ failed → minus p q s ≡ p s
  pub minus-failed :
      {A B : Type 0} {p : Parser A} {q : Parser B} {b : B} {s r : Text}
      → q s ≡ matched b r
      → minus p q s ≡ failed
  pub star-failed : {A : Type 0} {p : Parser A} {s : Text} → p s ≡ failed → star p s ≡ matched [] s
  pub star-matched :
      {A : Type 0} {p : Parser A} {a : A} {xs : List A} {s r t : Text}
      → length r < length s
      → p s ≡ matched a r
      → star p r ≡ matched xs t
      → star p s ≡ matched (a ∷ xs) t
  pub opt-matched :
      {A : Type 0} {p : Parser A} {a : A} {s r : Text}
      → p s ≡ matched a r
      → opt p s ≡ matched (some a) r
  pub opt-failed : {A : Type 0} {p : Parser A} {s : Text} → p s ≡ failed → opt p s ≡ matched none s
  pub repeated-zero : {A : Type 0} {p : Parser A} (s : Text) → repeated 0 p s ≡ matched [] s
  pub repeated-matched :
      {A : Type 0} {p : Parser A} {a : A} {xs : List A} {n : ℕ} {s r t : Text}
      → p s ≡ matched a r
      → repeated n p r ≡ matched xs t
      → repeated (suc n) p s ≡ matched (a ∷ xs) t
  pub act-matched :
      {A B : Type 0} {p : Parser A} {f : A → Result B} {a : A} {b : B} {s r : Text}
      → p s ≡ matched a r
      → f a ≡ ok b
      → act p f s ≡ matched b r
  pub act-thrown :
      {A B : Type 0} {p : Parser A} {f : A → Result B} {a : A} {e : Error} {s r : Text}
      → p s ≡ matched a r
      → f a ≡ err e
      → act p f s ≡ thrown e
  pub act-failed :
      {A B : Type 0} {p : Parser A} {f : A → Result B} {s : Text}
      → p s ≡ failed
      → act p f s ≡ failed
  pub tested-matched :
      {A : Type 0} {p : Parser A} {test : A → Bool} {a : A} {s r : Text}
      → p s ≡ matched a r
      → tested p test s ≡ (if test a then matched a r else failed)
  pub tested-failed :
      {A : Type 0} {p : Parser A} {test : A → Bool} {s : Text}
      → p s ≡ failed
      → tested p test s ≡ failed
  pub pass-matched :
      {A B : Type 0} {p : Parser A} {q : A → Parser B} {a : A} {s r : Text}
      → p s ≡ matched a r
      → pass p q s ≡ q a r
  pub pass-failed :
      {A B : Type 0} {p : Parser A} {q : A → Parser B} {s : Text}
      → p s ≡ failed
      → pass p q s ≡ failed
