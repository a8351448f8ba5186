-- ===== src/Examples/Spirit.antt =====
-- The parsing combinators as functions that satisfy the laws of the interface, for the examples.
use multiagent_fipa_acl.Base.{
  ltb, nat_beq, if◌then◌else◌, Bool-cases, nat_eq, Text, text_eq, length, Result, ok, err, ℕ, zero,
  suc, ◌+◌, ◌*◌, ◌/◌, ◌%◌, ◌≤◌, ◌<◌, ◌≡◌, refl, ap, ◌∙◌, inl, inr, Bool, true, false, ◌&&◌, Option,
  none, some, List, [], ◌∷◌, arith,
}
use multiagent_fipa_acl.Bitefficient.Qi.{Parser, Parsed, matched, failed, thrown, HeadNot, Host, Qi}

abbrev pub big_endian : Host
big_endian = record {
  word_at = λ a b. a * 256 + b;
  dword_at = λ a b c d. ((a * 256 + b) * 256 + c) * 256 + d;
  word_bytes = λ n. n / 256 ∷ n % 256 ∷ [];
  dword_bytes = λ n. n / 16777216 ∷ n / 65536 % 256 ∷ n / 256 % 256 ∷ n % 256 ∷ [];
  ntohs = λ n. n;
  ntohl = λ n. n;
  htons = λ n. n;
  htonl = λ n. n;
  ntohs-word_at = λ a b h k. refl;
  ntohl-dword_at = λ a b c d h k l m. refl;
  word_bytes-htons = λ n h. refl;
  dword_bytes-htonl = λ n h. refl;
}

module _ {A B : Type 0} where
  abbrev pub and_then : Parsed A → (A → Parser B) → Parsed B
  and_then (matched a r) next = next a r
  and_then failed next = failed
  and_then (thrown e) next = thrown e

  abbrev pub unless_matched : Parsed B → Parsed A → Parsed A
  unless_matched (matched b r) p = failed
  unless_matched failed p = p
  unless_matched (thrown e) p = thrown e

abbrev pub convert_result : {B : Type 0} → Result B → Text → Parsed B
convert_result (ok b) r = matched b r
convert_result (err e) r = thrown e

module _ {A : Type 0} where
  abbrev pub or_else_parsed : Parsed A → Parsed A → Parsed A
  or_else_parsed (matched a r) q = matched a r
  or_else_parsed failed q = q
  or_else_parsed (thrown e) q = thrown e

  abbrev pub prepend : A → Parsed (List A) → Parsed (List A)
  prepend a (matched xs r) = matched (a ∷ xs) r
  prepend a failed = failed
  prepend a (thrown e) = thrown e

  abbrev pub optional : Parsed A → Text → Parsed (Option A)
  optional (matched a r) s = matched (some a) r
  optional failed s = matched none s
  optional (thrown e) s = thrown e

  -- One turn of the loop of `*`, with the rest of the loop for each input.
  abbrev pub turn : Parsed A → Text → (Text → Parsed (List A)) → Parsed (List A)
  turn (matched a r) s loop =
      let rest = loop r in if ltb (length r) (length s) then prepend a rest else matched [] s
  turn failed s loop = matched [] s
  turn (thrown e) s loop = thrown e

  abbrev pub star_for : ℕ → Parser A → Parser (List A)
  star_for zero p s = turn (p s) s (λ r. matched [] r)
  star_for (suc n) p s = turn (p s) s (star_for n p)

  abbrev pub repeat_for : ℕ → Parser A → Parser (List A)
  repeat_for zero p s = matched [] s
  repeat_for (suc n) p s = and_then (p s) (λ a r. prepend a (repeat_for n p r))

  turn-more :
      (x : Parsed A) (s : Text) (f g : Text → Parsed (List A))
      → ((r : Text) → length r < length s → f r ≡ g r)
      → turn x s f ≡ turn x s g
  turn-more (matched a r) s f g h = elim (Bool-cases (ltb (length r) (length s))) [
    | inl t ↦ rw t (ap (prepend a) (h r (ground arith)))
    | inr f ↦ rw f refl
  ]
  turn-more failed s f g h = refl
  turn-more (thrown e) s f g h = refl

  star-more :
      (n m : ℕ) (p : Parser A) (s : Text)
      → length s ≤ n
      → length s ≤ m
      → star_for n p s ≡ star_for m p s
  star-more zero zero p s h k = refl
  star-more zero (suc m) p s h k = turn-more (p s) s _ _ (λ r l. absurd (omega arith))
  star-more (suc n) zero p s h k = turn-more (p s) s _ _ (λ r l. absurd (omega arith))
  star-more (suc n) (suc m) p s h k =
      turn-more (p s) s _ _ (λ r l. star-more n m p r (omega arith) (omega arith))

  unfoldable pub star_run : Parser A → Parser (List A)
  star_run p s = star_for (length s) p s

  pub star_run-matched :
      (p : Parser A) {a : A} {xs : List A} {s r t : Text}
      → length r < length s
      → p s ≡ matched a r
      → star_run p r ≡ matched xs t
      → star_run p s ≡ matched (a ∷ xs) t
  unfolding star_run
  star_run-matched p {a} {xs} {s = []} {r} {t} l h k = absurd (omega arith)
  star_run-matched p {a} {xs} {s = c ∷ s} {r} {t} l h k =
      ap (λ x. turn x (c ∷ s) (star_for (length s) p)) h
      ∙ ap (λ b. if b then prepend a (star_for (length s) p r) else matched [] (c ∷ s))
          (less (length r) (suc (length s)) l)
      ∙ ap (prepend a) (star-more (length s) (length r) p r (omega arith) (omega arith) ∙ k)
    where
      less : (m n : ℕ) → m < n → ltb m n ≡ true
      less m n h = ground arith

  pub star_run-failed : (p : Parser A) {s : Text} → p s ≡ failed → star_run p s ≡ matched [] s
  unfolding star_run
  star_run-failed p {s = []} h = ap (λ x. turn x [] (λ r. matched [] r)) h
  star_run-failed p {s = c ∷ s} h = ap (λ x. turn x (c ∷ s) (star_for (length s) p)) h

abbrev pub byte_run : ℕ → Parser ℕ
byte_run c [] = failed
byte_run c (d ∷ s) = if nat_beq c d then matched d s else failed

abbrev pub any_byte_run : Parser ℕ
any_byte_run [] = failed
any_byte_run (d ∷ s) = matched d s

abbrev pub ascii_run : (ℕ → Bool) → Parser ℕ
ascii_run p [] = failed
ascii_run p (d ∷ s) = if ltb d 128 && p d then matched d s else failed

abbrev pub word_run : Parser ℕ
word_run (a ∷ b ∷ s) = matched (big_endian.word_at a b) s
word_run _ = failed

abbrev pub dword_run : Parser ℕ
dword_run (a ∷ b ∷ c ∷ d ∷ s) = matched (big_endian.dword_at a b c d) s
dword_run _ = failed

pub byte_run-matched : (c : ℕ) (s : Text) → byte_run c (c ∷ s) ≡ matched c s
byte_run-matched c s = ground arith

pub byte_run-failed : (c : ℕ) (s : Text) → HeadNot c s → byte_run c s ≡ failed
byte_run-failed c [] h = refl
byte_run-failed c (d ∷ s) h = ground arith

pub ascii_run-matched :
    (p : ℕ → Bool) (c : ℕ) (s : Text) → c < 128 → p c ≡ true → ascii_run p (c ∷ s) ≡ matched c s
ascii_run-matched p c s h k = ground arith

pub ascii_run-failed :
    (p : ℕ → Bool) (c : ℕ) (s : Text) → p c ≡ false → ascii_run p (c ∷ s) ≡ failed
ascii_run-failed p c s h = ground arith

pub ascii_run-beyond : (p : ℕ → Bool) (c : ℕ) (s : Text) → 128 ≤ c → ascii_run p (c ∷ s) ≡ failed
ascii_run-beyond p c s h = ground arith

abbrev pub peg : Qi
peg = record {
  host = big_endian;
  word = word_run;
  dword = dword_run;
  byte = byte_run;
  any_byte = any_byte_run;
  ascii = ascii_run;
  seq = λ {A} {B} p q s. and_then (p s) (λ a r. and_then (q r) (λ b t. matched (a, b) t));
  alt = λ {A} p q s. or_else_parsed (p s) (q s);
  minus = λ {A} {B} p q s. unless_matched (q s) (p s);
  star = λ {A} p. star_run p;
  opt = λ {A} p s. optional (p s) s;
  repeated = λ {A} n p. repeat_for n p;
  act = λ {A} {B} p f s. and_then (p s) (λ a r. convert_result (f a) r);
  tested = λ {A} p test s. and_then (p s) (λ a r. if test a then matched a r else failed);
  pass = λ {A} {B} p q s. and_then (p s) q;
  word-matched = λ a b s. refl;
  dword-matched = λ a b c d s. refl;
  byte-matched = byte_run-matched;
  byte-failed = byte_run-failed;
  any_byte-matched = λ c s. refl;
  any_byte-failed = refl;
  ascii-matched = ascii_run-matched;
  ascii-failed = ascii_run-failed;
  ascii-beyond = ascii_run-beyond;
  ascii-end = λ p. refl;
  seq-matched = λ {A} {B} {p} {q} {a} {b} {s} {r} {t} h k.
      ap (λ x. and_then x (λ a r. and_then (q r) (λ b t. matched (a, b) t))) h
      ∙ ap (λ x. and_then x (λ b t. matched (a, b) t)) k;
  seq-failed = λ {A} {B} {p} {q} {s} h.
      ap (λ x. and_then x (λ a r. and_then (q r) (λ b t. matched (a, b) t))) h;
  seq-failed_later = λ {A} {B} {p} {q} {a} {s} {r} h k.
      ap (λ x. and_then x (λ a r. and_then (q r) (λ b t. matched (a, b) t))) h
      ∙ ap (λ x. and_then x (λ b t. matched (a, b) t)) k;
  alt-matched = λ {A} {p} {q} {a} {s} {r} h. ap (λ x. or_else_parsed x (q s)) h;
  alt-failed = λ {A} {p} {q} {s} h. ap (λ x. or_else_parsed x (q s)) h;
  minus-matched = λ {A} {B} {p} {q} {s} h. ap (λ x. unless_matched x (p s)) h;
  minus-failed = λ {A} {B} {p} {q} {b} {s} {r} h. ap (λ x. unless_matched x (p s)) h;
  star-failed = λ {A} {p} {s} h. star_run-failed p h;
  star-matched = λ {A} {p} {a} {xs} {s} {r} {t} l h k. star_run-matched p l h k;
  opt-matched = λ {A} {p} {a} {s} {r} h. ap (λ x. optional x s) h;
  opt-failed = λ {A} {p} {s} h. ap (λ x. optional x s) h;
  repeated-zero = λ {A} {p} s. refl;
  repeated-matched = λ {A} {p} {a} {xs} {n} {s} {r} {t} h k.
      ap (λ x. and_then x (λ a r. prepend a (repeat_for n p r))) h ∙ ap (prepend a) k;
  act-matched = λ {A} {B} {p} {f} {a} {b} {s} {r} h k.
      ap (λ x. and_then x (λ a r. convert_result (f a) r)) h ∙ ap (λ x. convert_result x r) k;
  act-thrown = λ {A} {B} {p} {f} {a} {e} {s} {r} h k.
      ap (λ x. and_then x (λ a r. convert_result (f a) r)) h ∙ ap (λ x. convert_result x r) k;
  act-failed = λ {A} {B} {p} {f} {s} h. ap (λ x. and_then x (λ a r. convert_result (f a) r)) h;
  tested-matched = λ {A} {p} {test} {a} {s} {r} h.
      ap (λ x. and_then x (λ a r. if test a then matched a r else failed)) h;
  tested-failed = λ {A} {p} {test} {s} h.
      ap (λ x. and_then x (λ a r. if test a then matched a r else failed)) h;
  pass-matched = λ {A} {B} {p} {q} {a} {s} {r} h. ap (λ x. and_then x q) h;
  pass-failed = λ {A} {B} {p} {q} {s} h. ap (λ x. and_then x q) h;
}
