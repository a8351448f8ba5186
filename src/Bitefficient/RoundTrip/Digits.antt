-- ===== src/Bitefficient/RoundTrip/Digits.antt =====
-- The digits of a date: what the encoder erases and packs, and what the grammar unpacks.
use multiagent_fipa_acl.Base.{
  nat_beq_iff, ◌==◌, nat_eq, Text, text_eq, codes, ok, ℕ, ◌+◌, ◌-◌, ◌*◌, ◌/◌, ◌%◌, ◌≤◌, ◌≡◌, refl,
  ap, ap₂, ◌∙◌, Bool, true, false, ◌&&◌, [], ◌∷◌, ◌++◌, arith,
}
use multiagent_fipa_acl.Bitefficient.Qi.{Qi, matched}
use multiagent_fipa_acl.Bitefficient.Decimal.{is_digit}
use multiagent_fipa_acl.Bitefficient.Format.{coded_natural_number, bin_date_text, erase_all}
use multiagent_fipa_acl.Bitefficient.Grammar.{convert, number_token, coded_number, year}
use multiagent_fipa_acl.Bitefficient.Grammar.Expressions.{DateTime}

-- The digits of a time to the millisecond.
pub record TimeDigits : Type 0 where
  pub century : ℕ × ℕ
  pub decade : ℕ × ℕ
  pub month : ℕ × ℕ
  pub day : ℕ × ℕ
  pub hour : ℕ × ℕ
  pub minute : ℕ × ℕ
  pub second : ℕ × ℕ
  pub millis_first : ℕ
  pub millis_last : ℕ × ℕ

abbrev pub two_digits : ℕ × ℕ → Bool
two_digits p = is_digit p.0 && is_digit p.1

abbrev pub AreTimeDigits : TimeDigits → Type 0
AreTimeDigits d =
    (two_digits d.century ≡ true)
    × (two_digits d.decade ≡ true)
    × (two_digits d.month ≡ true)
    × (two_digits d.day ≡ true)
    × (two_digits d.hour ≡ true)
    × (two_digits d.minute ≡ true)
    × (two_digits d.second ≡ true)
    × (is_digit d.millis_first ≡ true)
    × (two_digits d.millis_last ≡ true)

abbrev pub pair_text : ℕ × ℕ → Text → Text
pair_text p t = p.0 ∷ p.1 ∷ t

-- `%Y%m%d-%H:%M:%S` and the milliseconds.
unfoldable pub printed : TimeDigits → Text
printed d = pair_text d.century (
    pair_text d.decade (
      pair_text d.month (
        pair_text d.day (
          45
          ∷ pair_text d.hour (
              58
              ∷ pair_text d.minute
                  (58 ∷ pair_text d.second (58 ∷ d.millis_first ∷ pair_text d.millis_last [])))))))

-- What the parser reads: the text for `strptime` and the milliseconds with a leading zero.
unfoldable pub date_of_digits : TimeDigits → DateTime
date_of_digits d = record {
  relative = 32;
  date_text =
      (pair_text d.century [] ++ pair_text d.decade [])
      ++ codes "-"
      ++ pair_text d.month []
      ++ codes "-"
      ++ pair_text d.day []
      ++ codes "T"
      ++ pair_text d.hour []
      ++ codes ":"
      ++ pair_text d.minute []
      ++ codes ":"
      ++ pair_text d.second [];
  milliseconds = (48 ∷ d.millis_first ∷ []) ++ pair_text d.millis_last [];
  timezone = 0;
}

pair_range : (p : ℕ × ℕ) → two_digits p ≡ true → (48 ≤ p.0) × (p.0 ≤ 57) × (48 ≤ p.1) × (p.1 ≤ 57)
pair_range p h = ground arith

pub keep_pair :
    (c : ℕ) (p : ℕ × ℕ) (t u : Text)
    → is_digit c ≡ false
    → two_digits p ≡ true
    → erase_all c t ≡ u
    → erase_all c (pair_text p t) ≡ pair_text p u
unfolding erase_all
keep_pair c p t u h k e = ground arith

pub drop_mark : (c : ℕ) (t u : Text) → erase_all c t ≡ u → erase_all c (c ∷ t) ≡ u
unfolding erase_all
drop_mark c t u e = ground (arith, nat_beq_iff c c)

pub keep_one :
    (c d : ℕ) (t u : Text) → (d == c) ≡ false → erase_all c t ≡ u → erase_all c (d ∷ t) ≡ d ∷ u
unfolding erase_all
keep_one c d t u h e = ground arith

pub not_mark : (c d : ℕ) → is_digit c ≡ false → is_digit d ≡ true → (d == c) ≡ false
not_mark c d h k = ground arith

pub zero_first : (d : ℕ) → is_digit d ≡ true → two_digits (48, d) ≡ true
zero_first d h = h

pub nothing_erased : (c : ℕ) → erase_all c [] ≡ []
unfolding erase_all
nothing_erased c = refl

abbrev pub packed : ℕ × ℕ → ℕ
packed p = ((p.0 - 47) * 16 + (p.1 - 47)) % 256

pub pack_pair :
    (p : ℕ × ℕ) (t u : Text)
    → two_digits p ≡ true
    → bin_date_text t ≡ ok u
    → bin_date_text (pair_text p t) ≡ ok (packed p ∷ u)
unfolding bin_date_text coded_natural_number
pack_pair p t u h e = rw h (rw e refl)

pub nothing_packed : bin_date_text [] ≡ ok []
unfolding bin_date_text
nothing_packed = refl

convert_digit : (c : ℕ) → is_digit c ≡ true → convert (c - 47) ≡ c ∷ []
unfolding convert
convert_digit c h = ground arith

unpack : (p : ℕ × ℕ) → two_digits p ≡ true → number_token (packed p) ≡ pair_text p []
unfolding number_token
unpack p h =
    ap₂ (λ a b. convert a ++ convert b) (upper p h) (lower p h)
    ∙ ap₂ ◌++◌ (convert_digit p.0 (ground arith)) (convert_digit p.1 (ground arith))
  where
    upper : (p : ℕ × ℕ) → two_digits p ≡ true → packed p / 16 % 16 ≡ p.0 - 47
    upper p h = omega (arith, pair_range p h)

    lower : (p : ℕ × ℕ) → two_digits p ≡ true → packed p % 16 ≡ p.1 - 47
    lower p h = omega (arith, pair_range p h)

module _ (qi : Qi) where
  pub coded_read :
      (p : ℕ × ℕ) (rest : Text)
      → two_digits p ≡ true
      → coded_number qi (packed p ∷ rest) ≡ matched (pair_text p []) rest
  coded_read p rest h =
      qi.act-matched
        (qi.minus-matched (qi.byte-failed 0x00 (packed p ∷ rest) (omega (arith, pair_range p h)))
          ∙ qi.any_byte-matched (packed p) rest)
        (ap ok (unpack p h))

  pub year_read :
      (p q : ℕ × ℕ) (rest : Text)
      → two_digits p ≡ true
      → two_digits q ≡ true
      → year qi (packed p ∷ packed q ∷ rest) ≡ matched (pair_text p [] ++ pair_text q []) rest
  year_read p q rest h k =
      qi.act-matched (qi.seq-matched (coded_read p _ h) (coded_read q rest k)) refl
