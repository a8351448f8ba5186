-- ===== src/Bitefficient/RoundTrip/Parts.antt =====
-- Collections and parts that may be missing are read back.
use multiagent_fipa_acl.Base.{
  nat_eq, Text, text_eq, is_empty, Result, ok_injective, ok, err, ℕ, ◌≡◌, refl, sym, ap, subst, ◌≢◌,
  Bool, true, Option, none, some, List, [], ◌∷◌, ◌++◌, map, arith,
}
use multiagent_fipa_acl.Bitefficient.Qi.{Qi, Parser, HeadNot, matched}
use multiagent_fipa_acl.Bitefficient.Reads.{
  Runs-one, Runs-append, lead-failed, Runs-nil, Reads, Runs, ◌+++◌, lead,
}
use multiagent_fipa_acl.Bitefficient.Format.{each, unless_empty}
use multiagent_fipa_acl.Bitefficient.Grammar.Agents.{or_empty}
use multiagent_fipa_acl.Bitefficient.RoundTrip.{all_of}

-- A part that is written, led by a byte, if its list is not empty, and read by `-p`.
pub record Optional (qi : Qi) {B : Type 0} (c : ℕ) (p : Parser (List B)) (r : Result Text)
    (ys : List B) : Type 0 where
  pub text : Text
  pub written : r ≡ ok text
  pub found : Option (List B)
  pub agrees : or_empty found ≡ ys
  pub read :
      (rest : Text) → HeadNot c rest → qi.opt (lead qi c p) (text ++ rest) ≡ matched found rest
  pub head : (d : ℕ) (rest : Text) → d ≢ c → HeadNot d rest → HeadNot d (text ++ rest)

module _ (qi : Qi) {A B : Type 0} where
  pub Runs-each :
      (p : Parser B) (write : A → Result Text) (tree : A → B) (fits : A → Bool)
      → ((x : A) → fits x ≡ true → Reads p (write x) (tree x))
      → (xs : List A) → all_of fits xs ≡ true
      → Runs qi p (each write xs) (map tree xs)
  Runs-each p write tree fits h [] k = Runs-nil qi
  Runs-each p write tree fits h (x ∷ xs) k =
      Runs-append qi (Runs-one qi (h x (ground arith)))
        (Runs-each p write tree fits h xs (ground arith))

  pub Optional-list :
      (c : ℕ) (p : Parser (List B)) (xs : List A) (r : Result Text) (ys : List B)
      → ((is_empty xs ≡ true) → ys ≡ [])
      → Reads p r ys
      → Optional qi c p (unless_empty xs (ok (c ∷ []) +++ r)) ys
  Optional-list c p [] r ys h k = record {
    text = [];
    written = refl;
    found = none;
    agrees = sym (h refl);
    read = λ rest n. qi.opt-failed (lead-failed qi c n);
    head = λ d rest ne n. n;
  }
  Optional-list c p (x ∷ xs) r ys h k = record {
    text = c ∷ k.text;
    written = ap (ok (c ∷ []) +++◌) k.written;
    found = some ys;
    agrees = refl;
    read = λ rest n.
        qi.opt-matched (qi.act-matched (qi.seq-matched (qi.byte-matched c _) (k.read rest)) refl);
    head = λ d rest ne n. ne;
  }

-- A text that is written with a leading byte begins with it.
led_twice :
    (c : ℕ) (r s : Result Text) (t : Text)
    → ((ok (c ∷ []) +++ r) +++ s) ≡ ok t
    → (u : Text) × (t ≡ c ∷ u)
led_twice c (ok u) (ok v) t h = (u ++ v, cc)
led_twice c (ok u) (err e) t h = cc
led_twice c (err e) s t h = cc

pub each-head :
    {A : Type 0} (c d : ℕ) (write : A → Result Text) (xs : List A) (t rest : Text)
    → each (λ x. ok (c ∷ []) +++ write x) xs ≡ ok t
    → d ≢ c
    → HeadNot d rest
    → HeadNot d (t ++ rest)
each-head c d write [] t rest h ne n = subst (λ t. HeadNot d (t ++ rest)) (ok_injective h) n
each-head c d write (x ∷ xs) t rest h ne n =
    let (u, e) = led_twice c (write x) (each (λ x. ok (c ∷ []) +++ write x) xs) t h in
    subst (λ t. HeadNot d (t ++ rest)) (sym e) ne
