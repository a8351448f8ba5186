-- ===== src/Bitefficient/Reads.antt =====
-- What it means that a rule reads back what a format wrote, and how that is put together from the
-- parts of the rule.
use multiagent_fipa_acl.Base.{
  nat_eq, Text, text_eq, length, length-append, Result, ok, err, ℕ, ◌<◌, ◌≡◌, refl, sym, ap, ap₂,
  ◌∙◌, subst, ◌≢◌, List, [], ◌∷◌, ◌++◌, append-nil, append_assoc, arith,
}
use multiagent_fipa_acl.Bitefficient.Qi.{HeadNot, Qi, Parser, matched, failed}

-- Texts that are written one after the other, each by code that may throw.
infixr 40 ◌+++◌
abbrev pub ◌+++◌ : Result Text → Result Text → Result Text
ok t +++ ok u = ok (t ++ u)
ok t +++ err e = err e
err e +++ r = err e

-- The text is written, and the rule reads the value from it, whatever follows.
pub record Reads {A : Type 0} (p : Parser A) (r : Result Text) (x : A) : Type 0 where
  pub text : Text
  pub written : r ≡ ok text
  pub read : (rest : Text) → p (text ++ rest) ≡ matched x rest
  pub nonempty : 0 < length text

-- The text is written, and the rule under `*` reads the values from it in front of what it reads
-- from what follows.
pub record Runs (qi : Qi) {A : Type 0} (p : Parser A) (r : Result Text) (xs : List A) : Type 0 where
  pub text : Text
  pub written : r ≡ ok text
  pub read :
      {rest out : Text} {ys : List A}
      → qi.star p rest ≡ matched ys out
      → qi.star p (text ++ rest) ≡ matched (xs ++ ys) out

-- The rule fails on what is written, whatever follows.
abbrev pub Rejects : {A : Type 0} → Parser A → Result Text → Type 0
Rejects p r = (t : Text) → r ≡ ok t → (rest : Text) → p (t ++ rest) ≡ failed

+++-led :
    (c : ℕ) (r : Result Text) (t : Text)
    → (ok (c ∷ []) +++ r) ≡ ok t
    → (u : Text) × (t ≡ c ∷ u) × (r ≡ ok u)
+++-led c (ok u) t h = (u, cc, refl)
+++-led c (err e) t h = cc

module _ (qi : Qi) where
  -- `byte_(c) >> p`, with the value of `p`, and `p >> byte_(c)`.
  abbrev pub lead : {A : Type 0} → ℕ → Parser A → Parser A
  lead c p = qi.act (qi.seq (qi.byte c) p) (λ x. ok x.1)

  abbrev pub close : {A : Type 0} → Parser A → ℕ → Parser A
  close p c = qi.act (qi.seq p (qi.byte c)) (λ x. ok x.0)

  module _ {A : Type 0} {p : Parser A} {r : Result Text} {x : A} where
    pub Reads-lead : (c : ℕ) → Reads p r x → Reads (lead c p) (ok (c ∷ []) +++ r) x
    Reads-lead c h = record {
      text = c ∷ h.text;
      written = ap (ok (c ∷ []) +++◌) h.written;
      read = λ rest.
          qi.act-matched (qi.seq-matched (qi.byte-matched c (h.text ++ rest)) (h.read rest)) refl;
      nonempty = omega arith;
    }

    pub Reads-close : (c : ℕ) → Reads p r x → Reads (close p c) (r +++ ok (c ∷ [])) x
    Reads-close c h = record {
      text = h.text ++ c ∷ [];
      written = ap (◌+++ ok (c ∷ [])) h.written;
      read = λ rest.
          subst (λ s. close p c s ≡ matched x rest) (sym (append_assoc h.text (c ∷ []) rest))
            (qi.act-matched (qi.seq-matched (h.read (c ∷ rest)) (qi.byte-matched c rest)) refl);
      nonempty = omega (arith, h.nonempty, length-append h.text (c ∷ []));
    }

    pub Reads-act :
        {B : Type 0} {f : A → Result B} {y : B} → f x ≡ ok y → Reads p r x → Reads (qi.act p f) r y
    Reads-act k h = record {
      text = h.text;
      written = h.written;
      read = λ rest. qi.act-matched (h.read rest) k;
      nonempty = h.nonempty;
    }

    pub Reads-seq :
        {B : Type 0} {q : Parser B} {r' : Result Text} {y : B}
        → Reads p r x
        → Reads q r' y
        → Reads (qi.seq p q) (r +++ r') (x, y)
    Reads-seq {q = q} {y = y} h k = record {
      text = h.text ++ k.text;
      written = ap₂ ◌+++◌ h.written k.written;
      read = λ rest.
          subst (λ s. qi.seq p q s ≡ matched (x, y) rest) (sym (append_assoc h.text k.text rest))
            (qi.seq-matched (h.read (k.text ++ rest)) (k.read rest));
      nonempty = omega (arith, h.nonempty, length-append h.text k.text);
    }

    pub Reads-alt : {q : Parser A} → Reads p r x → Reads (qi.alt p q) r x
    Reads-alt h = record {
      text = h.text;
      written = h.written;
      read = λ rest. qi.alt-matched (h.read rest);
      nonempty = h.nonempty;
    }

    pub Reads-or : {q : Parser A} → Rejects q r → Reads p r x → Reads (qi.alt q p) r x
    Reads-or k h = record {
      text = h.text;
      written = h.written;
      read = λ rest. qi.alt-failed (k h.text h.written rest) ∙ h.read rest;
      nonempty = h.nonempty;
    }

    pub Runs-one : Reads p r x → Runs qi p r (x ∷ [])
    Runs-one h = record {
      text = h.text;
      written = h.written;
      read = λ {rest} {out} {ys} k.
          qi.star-matched
            (subst (length rest <◌) (sym (length-append h.text rest)) omega (arith, h.nonempty))
            (h.read rest) k;
    }

  module _ {A : Type 0} {p : Parser A} where
    pub Runs-nil : Runs qi p (ok []) []
    Runs-nil = record { text = []; written = refl; read = λ {rest} {out} {ys} k. k }

    pub Runs-append :
        {r r' : Result Text} {xs ys : List A}
        → Runs qi p r xs
        → Runs qi p r' ys
        → Runs qi p (r +++ r') (xs ++ ys)
    Runs-append {xs = xs} {ys = ys} h k = record {
      text = h.text ++ k.text;
      written = ap₂ ◌+++◌ h.written k.written;
      read = λ {rest} {out} {ys = zs} m.
          subst (λ s. qi.star p s ≡ matched ((xs ++ ys) ++ zs) out)
            (sym (append_assoc h.text k.text rest))
            (h.read (k.read m) ∙ ap (λ l. matched l out) (sym (append_assoc xs ys zs)));
    }

    -- The values that `*p` reads are all that stand in front of a byte at which `p` fails.
    pub Reads-star :
        {r : Result Text} {xs : List A} (c : ℕ)
        → ((rest : Text) → p (c ∷ rest) ≡ failed)
        → Runs qi p r xs
        → Reads (close (qi.star p) c) (r +++ ok (c ∷ [])) xs
    Reads-star {xs = xs} c f h = record {
      text = h.text ++ c ∷ [];
      written = ap (◌+++ ok (c ∷ [])) h.written;
      read = λ rest.
          subst (λ s. close (qi.star p) c s ≡ matched xs rest)
            (sym (append_assoc h.text (c ∷ []) rest))
            (qi.act-matched
              (qi.seq-matched
                (h.read (qi.star-failed (f rest)) ∙ ap (λ l. matched l (c ∷ rest)) (append-nil xs))
                (qi.byte-matched c rest))
              refl);
      nonempty = omega (arith, length-append h.text (c ∷ []));
    }

    pub lead-failed : (c : ℕ) {s : Text} → HeadNot c s → lead c p s ≡ failed
    lead-failed c {s} k = qi.act-failed (qi.seq-failed (qi.byte-failed c s k))

    pub Rejects-lead : (c d : ℕ) (r : Result Text) → c ≢ d → Rejects (lead c p) (ok (d ∷ []) +++ r)
    Rejects-lead c d r k t e rest =
        let (u, q, _) = +++-led d r t e in
        subst (λ t. lead c p (t ++ rest) ≡ failed) (sym q) (lead-failed c k)
