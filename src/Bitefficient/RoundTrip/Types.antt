-- ===== src/Bitefficient/RoundTrip/Types.antt =====
-- The message type is read back, whether the performative is a predefined one or not.
use multiagent_fipa_acl.Bitefficient.RoundTrip.Texts.{Reads-bin_word}
use multiagent_fipa_acl.Base.{
  Bool-cases, Option-cases, ◌==◌, ==→eq, nat_eq, Text, text_eq, is_empty, ok, ℕ, suc, ◌<◌, ◌≡◌,
  refl, sym, ap, ◌∙◌, subst, inl, inr, true, false, none, some, List, [], ◌∷◌, ◌++◌, arith,
}
use multiagent_fipa_acl.Performative.{Performative, performatives, performative_txt}
use multiagent_fipa_acl.Message.{AclMessage}
use multiagent_fipa_acl.Bitefficient.Qi.{Qi, Parser, matched}
use multiagent_fipa_acl.Bitefficient.Reads.{Reads, ◌+++◌}
use multiagent_fipa_acl.Bitefficient.Format.Message.{predefined_code, bit_message_type}
use multiagent_fipa_acl.Bitefficient.Grammar.Message.{
  typed, predefined_types, message_type, user_defined_message_type,
}
use multiagent_fipa_acl.Bitefficient.RoundTrip.{is_word}

-- The performatives with the numbers that the grammar gives them.
numbered : ℕ → List Performative → List (ℕ × Text)
numbered i [] = []
numbered i (p ∷ ps) = (suc i, performative_txt p) ∷ numbered (suc i) ps

types_numbered : predefined_types ≡ numbered 0 performatives
unfolding numbered performative_txt
types_numbered = refl

word_nonempty : (w : Text) → is_word w ≡ true → is_empty w ≡ false
unfolding is_word
word_nonempty [] h = cc
word_nonempty (c ∷ w) h = refl

some_injective : {A : Type 0} {a b : A} → some a ≡ some b → a ≡ b
some_injective h = cc

module _ (qi : Qi) (hex : Text → Text) where
  typed-later :
      (i : ℕ) (text : Text) (ps : List Performative) (c : ℕ)
      → predefined_code i text ps ≡ some c
      → i < c
  unfolding predefined_code
  typed-later i text [] c h = cc
  typed-later i text (p ∷ ps) c h = elim (Bool-cases (performative_txt p == text)) [
    | inl t ↦ omega (arith, some_injective (rw t at h))
    | inr f ↦ omega (arith, typed-later (suc i) text ps c (rw f at h))
  ]

  typed-code :
      (i : ℕ) (text : Text) (ps : List Performative) (last : Parser Text) (c : ℕ) (rest : Text)
      → predefined_code i text ps ≡ some c
      → typed qi hex (numbered i ps) last (c ∷ rest) ≡ matched text rest
  unfolding predefined_code numbered
  typed-code i text [] last c rest h = cc
  typed-code i text (p ∷ ps) last c rest h = elim (Bool-cases (performative_txt p == text)) [
    | inl t ↦
        subst (λ c. typed qi hex (numbered i (p ∷ ps)) last (c ∷ rest) ≡ matched text rest)
          (some_injective (rw t at h))
          (qi.alt-matched (qi.act-matched (qi.byte-matched (suc i) rest) (ap ok (==→eq _ text t))))
    | inr f ↦
        qi.alt-failed (
          qi.act-failed (
            qi.byte-failed (suc i) (c ∷ rest)
              (omega (arith, typed-later (suc i) text ps c (rw f at h)))))
        ∙ typed-code (suc i) text ps last c rest (rw f at h)
  ]

  typed-last :
      (i : ℕ) (ps : List Performative) (last : Parser Text) (rest : Text)
      → typed qi hex (numbered i ps) last (0x00 ∷ rest) ≡ last (0x00 ∷ rest)
  unfolding numbered
  typed-last i [] last rest = refl
  typed-last i (p ∷ ps) last rest =
      qi.alt-failed (qi.act-failed (qi.byte-failed (suc i) (0x00 ∷ rest) (ground arith)))
      ∙ typed-last (suc i) ps last rest

  type_predefined :
      (m : AclMessage) (c : ℕ)
      → predefined_code 0 m.performative performatives ≡ some c
      → bit_message_type false m ≡ ok (c ∷ [])
  unfolding bit_message_type predefined_code performative_txt
  type_predefined m c e = rw e refl

  type_user_defined :
      (m : AclMessage)
      → predefined_code 0 m.performative performatives ≡ none
      → is_word m.performative ≡ true
      → bit_message_type false m ≡ (ok (0x00 ∷ []) +++ ok (0x10 ∷ m.performative ++ 0x00 ∷ []))
  unfolding bit_message_type predefined_code performative_txt
  type_user_defined m e h = rw e (rw (word_nonempty m.performative h) refl)

  -- A performative that the encoding can hold is read back, be it predefined or not.
  pub Reads-message_type :
      (m : AclMessage)
      → is_word m.performative ≡ true
      → Reads (message_type qi hex) (bit_message_type false m) m.performative
  Reads-message_type m h = elim (Option-cases (predefined_code 0 m.performative performatives)) [
    | inl n ↦
        let w = Reads-bin_word qi m.performative h in
        record {
          text = 0x00 ∷ w.text;
          written = type_user_defined m n h ∙ ap (ok (0x00 ∷ []) +++◌) w.written;
          read = λ rest.
              subst
                (λ types.
                  typed qi hex types (user_defined_message_type qi hex) (0x00 ∷ w.text ++ rest)
                  ≡ matched m.performative rest)
                (sym types_numbered)
                (typed-last 0 performatives _ (w.text ++ rest)
                  ∙ qi.act-matched (qi.seq-matched (qi.byte-matched 0x00 _) (w.read rest)) refl);
          nonempty = omega arith;
        }
    | inr (c, e) ↦ record {
      text = c ∷ [];
      written = type_predefined m c e;
      read = λ rest.
          subst
            (λ types.
              typed qi hex types (user_defined_message_type qi hex) (c ∷ rest)
              ≡ matched m.performative rest)
            (sym types_numbered) (typed-code 0 m.performative performatives _ c rest e);
      nonempty = omega arith;
    }
  ]
