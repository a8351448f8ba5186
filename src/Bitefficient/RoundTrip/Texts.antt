-- ===== src/Bitefficient/RoundTrip/Texts.antt =====
-- Words and strings are read back.
use multiagent_fipa_acl.Base.{
  nat_beq, Bool-cases, nat_eq, Text, text_eq, ℕ, ◌≡◌, refl, sym, ◌∙◌, subst, ◌≢◌, ◌⊎◌, inl, inr,
  true, false, [], ◌∷◌, ◌++◌, append_assoc, arith,
}
use multiagent_fipa_acl.Bitefficient.Qi.{HeadNot, Qi, matched, failed}
use multiagent_fipa_acl.Bitefficient.Reads.{lead-failed, Reads, lead, close}
use multiagent_fipa_acl.Bitefficient.Format
use multiagent_fipa_acl.Bitefficient.Grammar.{
  char, literal_char, word_exceptions_general, any_char, word,
}
use multiagent_fipa_acl.Bitefficient.Grammar.Expressions.{bin_string, bin_expression, bin_word}
use multiagent_fipa_acl.Bitefficient.RoundTrip.{is_quotable, is_word_char, is_word, all_of}

module _ (qi : Qi) where
  no_exception :
      (c : ℕ) (s : Text) → is_word_char c ≡ true → word_exceptions_general qi (c ∷ s) ≡ failed
  no_exception c s h =
      qi.alt-failed (qi.ascii-failed _ c s (ground arith))
      ∙ qi.alt-failed (qi.ascii-failed _ c s (ground arith))
      ∙ qi.ascii-failed _ c s (ground arith)

  word_char_read :
      (c : ℕ) (s : Text)
      → is_word_char c ≡ true
      → qi.minus (any_char qi) (word_exceptions_general qi) (c ∷ s) ≡ matched c s
  word_char_read c s h =
      qi.minus-matched (no_exception c s h) ∙ qi.ascii-matched _ c s (ground arith) refl

  word_chars_read :
      (w rest : Text)
      → all_of is_word_char w ≡ true
      → qi.star (qi.minus (any_char qi) (word_exceptions_general qi)) (w ++ 0 ∷ rest)
        ≡ matched w (0 ∷ rest)
  word_chars_read [] rest h =
      qi.star-failed
        (qi.minus-failed (qi.alt-matched (qi.ascii-matched _ 0 rest (omega arith) refl)))
  word_chars_read (c ∷ w) rest h =
      qi.star-matched (omega arith) (word_char_read c (w ++ 0 ∷ rest) (ground arith))
        (word_chars_read w rest (ground arith))

  word_read : (w rest : Text) → is_word w ≡ true → word qi (w ++ 0 ∷ rest) ≡ matched w (0 ∷ rest)
  unfolding is_word
  word_read [] rest h = cc
  word_read (c ∷ w) rest h =
      qi.act-matched
        (qi.seq-matched
          (qi.minus-matched (
              qi.alt-failed (no_exception c (w ++ 0 ∷ rest) (ground arith))
              ∙ qi.alt-failed (qi.ascii-failed _ c _ (ground arith))
              ∙ qi.alt-failed (qi.ascii-failed _ c _ (ground arith))
              ∙ qi.alt-failed (qi.ascii-failed _ c _ (ground arith))
              ∙ qi.ascii-failed _ c _ (ground arith))
            ∙ qi.ascii-matched _ c (w ++ 0 ∷ rest) (ground arith) refl)
          (word_chars_read w rest (ground arith)))
        refl

  -- A word is read back.
  pub Reads-bin_word :
      (w : Text) → is_word w ≡ true → Reads (bin_word qi) (Format.bin_word false w) w
  Reads-bin_word w h = record {
    text = 0x10 ∷ w ++ 0x00 ∷ [];
    written = refl;
    read = λ rest. qi.alt-matched (
        subst (λ s. close qi (lead qi 0x10 (word qi)) 0x00 (0x10 ∷ s) ≡ matched w rest)
          (sym (append_assoc w (0 ∷ []) rest))
          (qi.act-matched
            (qi.seq-matched
              (qi.act-matched (qi.seq-matched (qi.byte-matched _ _) (word_read w rest h)) refl)
              (qi.byte-matched _ rest))
            refl));
    nonempty = omega arith;
  }

  not_quote : (s : Text) → HeadNot 34 s → char qi 34 s ≡ failed
  not_quote [] h = qi.ascii-end _
  not_quote (d ∷ s) h = qi.ascii-failed _ d s (ground arith)

  literal_char_read :
      (c : ℕ) (s : Text)
      → nat_beq 34 c ≡ false
      → (nat_beq 92 c ≡ false) ⊎ HeadNot 34 s
      → literal_char qi (c ∷ s) ≡ matched c s
  literal_char_read c s h k =
      qi.alt-failed (qi.act-failed (no_escape c s k))
      ∙ qi.minus-matched (qi.ascii-failed _ c s h)
      ∙ qi.any_byte-matched c s
    where
      no_escape :
          (c : ℕ) (s : Text)
          → (nat_beq 92 c ≡ false) ⊎ HeadNot 34 s
          → qi.seq (char qi 92) (char qi 34) (c ∷ s) ≡ failed
      no_escape c s (inl other) = qi.seq-failed (qi.ascii-failed _ c s other)
      no_escape c s (inr h) = elim (Bool-cases (nat_beq 92 c)) [
        | inl same ↦
            qi.seq-failed_later (qi.ascii-matched _ c s (ground arith) same) (not_quote s h)
        | inr other ↦ qi.seq-failed (qi.ascii-failed _ c s other)
      ]

  quotable_head : (d : ℕ) (s : Text) → is_quotable (d ∷ s) ≡ true → d ≢ 34
  unfolding is_quotable
  quotable_head d [] h = ground arith
  quotable_head d (e ∷ s) h = ground arith

  literal_read :
      (t rest : Text)
      → is_quotable t ≡ true
      → qi.star (literal_char qi) (t ++ 34 ∷ rest) ≡ matched t (34 ∷ rest)
  unfolding is_quotable
  literal_read [] rest h = qi.star-failed (
      qi.alt-failed (qi.act-failed (qi.seq-failed (qi.ascii-failed _ 34 rest refl)))
      ∙ qi.minus-failed (qi.ascii-matched _ 34 rest (omega arith) refl))
  literal_read (c ∷ []) rest h =
      qi.star-matched (omega arith)
        (literal_char_read c (34 ∷ rest) (ground arith) (inl (ground arith)))
        (literal_read [] rest refl)
  literal_read (c ∷ d ∷ t) rest h =
      qi.star-matched (omega arith)
        (literal_char_read c (d ∷ t ++ 34 ∷ rest) (ground arith)
          (inr (λ e. quotable_head d t (ground arith) (sym e))))
        (literal_read (d ∷ t) rest (ground arith))

  string_read :
      (t rest : Text)
      → is_quotable t ≡ true
      → bin_string qi ((0x14 ∷ 34 ∷ t ++ 34 ∷ 0 ∷ []) ++ rest)
        ≡ matched (record { encoding = []; bytes = t }) rest
  string_read t rest h =
      subst
        (λ s. bin_string qi (0x14 ∷ 34 ∷ s) ≡ matched (record { encoding = []; bytes = t }) rest)
        (sym (append_assoc t (34 ∷ 0 ∷ []) rest))
        (qi.alt-matched (
          qi.alt-matched (
            qi.act-matched
              (qi.seq-matched (qi.byte-matched _ _) (
                qi.alt-matched (
                  qi.act-matched
                    (qi.seq-matched
                      (qi.act-matched
                        (qi.seq-matched (qi.ascii-matched _ 34 _ (omega arith) refl) (
                          qi.seq-matched (literal_read t (0 ∷ rest) h)
                            (qi.ascii-matched _ 34 _ (omega arith) refl)))
                        refl)
                      (qi.byte-matched _ rest))
                    refl)))
              refl)))

  -- A string is read back.
  pub Reads-bin_string :
      (t : Text)
      → is_quotable t ≡ true
      → Reads (bin_string qi) (Format.bin_string false t) (record { encoding = []; bytes = t })
  Reads-bin_string t h = record {
    text = 0x14 ∷ 34 ∷ t ++ 34 ∷ 0 ∷ [];
    written = refl;
    read = λ rest. string_read t rest h;
    nonempty = omega arith;
  }

  -- A string is read back where the grammar takes any expression.
  pub Reads-bin_expression :
      (hex : Text → Text) (t : Text)
      → is_quotable t ≡ true
      → Reads (bin_expression qi hex) (Format.bin_expression false t 115) t
  Reads-bin_expression hex t h = record {
    text = 0x14 ∷ 34 ∷ t ++ 34 ∷ 0 ∷ [];
    written = refl;
    read = λ rest. qi.alt-matched (
        qi.alt-failed (
          qi.alt-failed (qi.act-failed (qi.seq-failed (lead-failed qi 0x10 (ground arith))))
          ∙ lead-failed qi 0x11 (ground arith))
        ∙ qi.alt-matched (qi.act-matched (string_read t rest h) refl));
    nonempty = omega arith;
  }
