-- ===== src/Bitefficient/Grammar/Expressions.antt =====
-- message_parser/grammar/grammar_bitefficient.h: strings, words, numbers, dates and expressions.
use multiagent_fipa_acl.Base.{
  leb, nat_eq, Text, text_eq, codes, length, ◌>>=◌, aborted, ok, ℕ, zero, suc, ◌+◌, ◌&&◌, ◌||◌,
  List, [], ◌∷◌, ◌++◌,
}
use multiagent_fipa_acl.Bitefficient.Qi.{Qi, Parser, thrown, failed}
use multiagent_fipa_acl.Bitefficient.Reads.{lead, close}
use multiagent_fipa_acl.Bitefficient.Grammar.{
  word, byte_length_encoded_string_terminated, len32, len16, byte_length_header,
  extract_from_codetable, len8, digits, string_literal, date_time, null_terminated_string, index,
  ByteSequence,
}

-- `fipa::acl::DateTime`, with the texts that its time was read from.
pub record DateTime : Type 0 where
  pub relative : ℕ
  pub date_text : Text
  pub milliseconds : Text
  pub timezone : ℕ

module _ (qi : Qi) where
  -- `byteSeq`
  abbrev pub byte_seq : ℕ → Parser ByteSequence
  byte_seq n = qi.act (qi.repeated n qi.any_byte) (λ bs. ok (record { encoding = []; bytes = bs }))

  -- `BinStringNoCodetable`, `BinStringCodetable`, `BinString`
  abbrev pub bin_string_no_codetable : Parser ByteSequence
  bin_string_no_codetable = qi.alt (lead qi 0x14 (null_terminated_string qi)) (
      qi.alt (lead qi 0x16 (qi.pass (len8 qi) byte_seq)) (
        qi.alt (lead qi 0x17 (qi.pass (len16 qi) byte_seq))
          (lead qi 0x19 (qi.pass (len32 qi) byte_seq))))

  abbrev pub from_codetable : Parser ByteSequence
  from_codetable =
      qi.act (index qi)
        (λ i. extract_from_codetable qi i >>= λ text. ok (record { encoding = []; bytes = text }))

  abbrev pub bin_string_codetable : Parser ByteSequence
  bin_string_codetable = qi.alt (lead qi 0x15 from_codetable) (lead qi 0x18 from_codetable)

  abbrev pub bin_string : Parser ByteSequence
  bin_string = qi.alt bin_string_no_codetable bin_string_codetable

  -- `convertToString`
  abbrev pub to_text : Parser ByteSequence → Parser Text
  to_text p = qi.act p (λ b. ok b.bytes)

  -- `BinWord`
  abbrev pub bin_word : Parser Text
  bin_word =
      qi.alt (close qi (lead qi 0x10 (word qi)) 0x00)
        (lead qi 0x11 (qi.act (index qi) (extract_from_codetable qi)))

  -- `BinDateTime`
  abbrev pub type_designator : Parser ℕ
  type_designator = qi.ascii (λ c. (leb 65 c && leb c 90) || (leb 97 c && leb c 122))

  abbrev pub date_of : ℕ → Parser DateTime
  date_of sign =
      qi.act (date_time qi)
        (λ d. ok (record { relative = sign; date_text = d.0; milliseconds = d.1; timezone = 0 }))

  abbrev pub zoned_date_of : ℕ → Parser DateTime
  zoned_date_of sign =
      qi.act (qi.seq (date_of sign) type_designator) (λ x. ok (record x.0 { timezone = x.1 }))

  abbrev pub bin_date_time : Parser DateTime
  bin_date_time = qi.alt (lead qi 0x20 (date_of 32)) (
      qi.alt (lead qi 0x21 (date_of 43)) (
        qi.alt (lead qi 0x22 (date_of 45)) (
          qi.alt (lead qi 0x24 (zoned_date_of 32))
            (qi.alt (lead qi 0x25 (zoned_date_of 43)) (lead qi 0x26 (zoned_date_of 45))))))

  -- The rules of `BinNumber` and `BinExpression`, with `convertDigitsToHex`, which calls `atoi`
  -- and `snprintf`, as an argument.
  module _ (hex : Text → Text) where
    abbrev pub bin_number : Parser Text
    bin_number =
        qi.alt (lead qi 0x12 (digits qi)) (lead qi 0x13 (qi.act (digits qi) (λ d. ok (hex d))))

    abbrev pub sized_string : ℕ → Parser ByteSequence
    sized_string n = qi.alt (string_literal qi) (
        qi.act (qi.seq (byte_length_header qi) (qi.repeated n qi.any_byte))
          (λ x. ok (record { encoding = x.0; bytes = x.1 })))

    abbrev pub marked_index : Parser Text
    marked_index = qi.act (index qi) (extract_from_codetable qi)

    -- The rule `stringLiteralTerminated` of `BinExpression` is declared and never defined: a rule
    -- without a definition fails.
    abbrev pub undefined_rule : Parser ByteSequence
    undefined_rule _ = failed

    -- `exprStart` and `exprEnd`: the codes of the one are those of the other but for the first
    -- digit.
    abbrev pub expr_mark : ℕ → ℕ → Parser Text
    expr_mark bare base = qi.alt (qi.act (qi.byte bare) (λ _. ok [])) (
        qi.alt (close qi (lead qi base (word qi)) 0x00) (
          qi.alt (lead qi (base + 1) marked_index) (
            qi.alt (lead qi (base + 2) (digits qi)) (
              qi.alt (lead qi (base + 3) (digits qi)) (
                qi.alt
                  (lead qi (base + 4)
                    (to_text (qi.alt undefined_rule (byte_length_encoded_string_terminated qi))))
                  (qi.alt (lead qi (base + 5) marked_index) (
                    qi.alt (lead qi (base + 6) (to_text (qi.pass (len8 qi) sized_string))) (
                      qi.alt (lead qi (base + 7) (to_text (qi.pass (len16 qi) sized_string))) (
                        qi.alt (lead qi (base + 8) (to_text (qi.pass (len32 qi) sized_string)))
                          (lead qi (base + 9) marked_index))))))))))

    abbrev pub concat : List Text → Text
    concat [] = []
    concat (t ∷ ts) = t ++ concat ts

    -- `binExpr`, which calls itself below `exprStart`; the number bounds the nesting.
    abbrev pub bin_expr : ℕ → Parser Text
    bin_expr zero = λ s. thrown aborted
    bin_expr (suc depth) = qi.alt bin_word (
        qi.alt (to_text bin_string) (
          qi.alt bin_number (
            qi.act
              (qi.seq (expr_mark 0x60 0x70)
                (qi.seq (qi.star (bin_expr depth)) (expr_mark 0x40 0x50)))
              (λ x. ok (codes "(" ++ x.0 ++ concat x.1.0 ++ codes ")" ++ x.1.1)))))

    -- `BinExpression`. Each level of nesting takes a byte, so the input bounds it.
    abbrev pub bin_expression : Parser Text
    bin_expression = λ s. qi.alt (bin_expr (suc (length s))) (lead qi 0xff (to_text bin_string)) s
