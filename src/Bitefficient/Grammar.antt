-- ===== src/Bitefficient/Grammar.antt =====
-- message_parser/grammar/grammar_common.h: the rules that the bit-efficient grammars share, over
-- the combinators of Boost.Spirit.Qi. `spirit::ascii` is the encoding of the characters. A
-- `ByteSequence` keeps its bytes as a string or as a vector; both are the bytes here.
pub mod Expressions
pub mod Agents
pub mod Message
use multiagent_fipa_acl.Base.{
  leb, nat_beq, if◌then◌else◌, nat_eq, Text, text_eq, codes, Result, runtime_error, ok, err, ℕ, ◌+◌,
  ◌-◌, ◌/◌, ◌%◌, true, List, [], ◌∷◌, ◌++◌,
}
use multiagent_fipa_acl.Bitefficient.Qi.{Qi, Parser}
use multiagent_fipa_acl.Bitefficient.Decimal.{is_digit}
use multiagent_fipa_acl.Bitefficient.Reads.{close}

-- `ByteSequence`
pub record ByteSequence : Type 0 where
  pub encoding : Text
  pub bytes : Text

-- `convertToNumberToken`
unfoldable pub convert : ℕ → Text
convert lowerbyte =
    if nat_beq lowerbyte 0
    then []
    else if leb lowerbyte 10
    then (lowerbyte + 47) ∷ []
    else if nat_beq lowerbyte 12
    then codes "+"
    else if nat_beq lowerbyte 13
    then codes "E"
    else if nat_beq lowerbyte 14
    then codes "-"
    else if nat_beq lowerbyte 15
    then codes "."
    else []

unfoldable pub number_token : ℕ → Text
number_token b = convert (b / 16 % 16) ++ convert (b % 16)

module _ (qi : Qi) where
  -- `extractFromCodetable` always throws.
  abbrev pub extract_from_codetable : ℕ → Result Text
  extract_from_codetable index = err runtime_error

  -- `Len8`, `Len16`, `Len32`, `Index`
  abbrev pub len8 : Parser ℕ
  len8 = qi.any_byte

  abbrev pub len16 : Parser ℕ
  len16 = qi.act qi.word (λ n. ok (qi.host.ntohs n))

  abbrev pub len32 : Parser ℕ
  len32 = qi.act qi.dword (λ n. ok (qi.host.ntohl n))

  abbrev pub index : Parser ℕ
  index = qi.alt (qi.act qi.word (λ n. ok (qi.host.ntohs n))) qi.any_byte

  abbrev pub char : ℕ → Parser ℕ
  char c = qi.ascii (nat_beq c)

  -- `StringLiteral`: an escaped quote, or any byte but a quote.
  abbrev pub literal_char : Parser ℕ
  literal_char =
      qi.alt (qi.act (qi.seq (char 92) (char 34)) (λ _. ok 34)) (qi.minus qi.any_byte (char 34))

  abbrev pub string_literal : Parser ByteSequence
  string_literal =
      qi.act (qi.seq (char 34) (qi.seq (qi.star literal_char) (char 34)))
        (λ x. ok (record { encoding = []; bytes = x.1.0 }))

  -- `StringLiteralTerminated`
  abbrev pub string_literal_terminated : Parser ByteSequence
  string_literal_terminated = close qi string_literal 0x00

  -- `byteLengthEncodedStringHeader`
  abbrev pub byte_length_header : Parser Text
  byte_length_header =
      qi.act
        (qi.seq (char 35)
          (qi.seq (qi.seq (qi.ascii is_digit) (qi.star (qi.ascii is_digit))) (char 34)))
        (λ x. ok (x.1.0.0 ∷ x.1.0.1))

  -- `ByteLengthEncodedStringTerminated`: the length is kept as the encoding, and the bytes up to
  -- a zero byte are taken.
  abbrev pub byte_length_encoded_string_terminated : Parser ByteSequence
  byte_length_encoded_string_terminated =
      close qi
        (qi.act (qi.seq byte_length_header (qi.star (qi.minus qi.any_byte (qi.byte 0x00))))
          (λ x. ok (record { encoding = x.0; bytes = x.1 })))
        0x00

  -- `NullTerminatedString`
  abbrev pub null_terminated_string : Parser ByteSequence
  null_terminated_string = qi.alt string_literal_terminated byte_length_encoded_string_terminated

  -- `Word`
  abbrev pub word_exceptions_general : Parser ℕ
  word_exceptions_general = qi.alt (qi.ascii (λ c. leb c 0x20)) (qi.alt (char 40) (char 41))

  abbrev pub word_exceptions_start : Parser ℕ
  word_exceptions_start =
      qi.alt word_exceptions_general
        (qi.alt (char 35) (qi.alt (qi.ascii is_digit) (qi.alt (char 45) (char 64))))

  abbrev pub any_char : Parser ℕ
  any_char = qi.ascii (λ _. true)

  abbrev pub word : Parser Text
  word =
      qi.act
        (qi.seq (qi.minus any_char word_exceptions_start)
          (qi.star (qi.minus any_char word_exceptions_general)))
        (λ x. ok (x.0 ∷ x.1))

  -- `Digits`: the last byte is zero, or has nothing in its lower half.
  abbrev pub lower_bits_padding : Parser ℕ
  lower_bits_padding = qi.tested qi.any_byte (λ b. nat_beq (b % 16) 0)

  abbrev pub end_padding_marker : Parser ℕ
  end_padding_marker = qi.alt (char 0) lower_bits_padding

  abbrev pub tokens : List ℕ → Text
  tokens [] = []
  tokens (b ∷ bs) = number_token b ++ tokens bs

  abbrev pub digits : Parser Text
  digits = qi.alt (qi.act lower_bits_padding (λ b. ok (number_token b))) (
      qi.act
        (qi.seq
          (qi.seq (qi.minus qi.any_byte end_padding_marker)
            (qi.star (qi.minus qi.any_byte end_padding_marker)))
          end_padding_marker)
        (λ x. ok (number_token x.0.0 ++ tokens x.0.1 ++ number_token x.1)))

  -- `CodedNumber`
  abbrev pub coded_number : Parser Text
  coded_number = qi.act (qi.minus qi.any_byte (qi.byte 0x00)) (λ b. ok (number_token b))

  -- The two coded numbers of a year, and of the milliseconds.
  abbrev pub year : Parser Text
  year = qi.act (qi.seq coded_number coded_number) (λ x. ok (x.0 ++ x.1))

  -- `DateTime`: the text that `strptime` reads, and the one of the milliseconds.
  abbrev pub date_time : Parser (Text × Text)
  date_time =
      qi.act
        (qi.seq year (
          qi.seq coded_number (
            qi.seq coded_number
              (qi.seq coded_number (qi.seq coded_number (qi.seq coded_number year))))))
        (λ x.
          let (y, (month, (day, (hour, (minute, (second, milliseconds)))))) = x in
          ok (
            y
                ++ codes "-"
                ++ month
                ++ codes "-"
                ++ day
                ++ codes "T"
                ++ hour
                ++ codes ":"
                ++ minute
                ++ codes ":"
                ++ second,
            milliseconds,
          ))
