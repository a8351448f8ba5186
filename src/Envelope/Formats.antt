-- ===== src/Envelope/Formats.antt =====
-- message_generator/message_generator.cpp and message_parser/message_parser.cpp: the tables of
-- message formats and of message parsers by representation.
use multiagent_fipa_acl.Base.{Text, Result, Outcome, runtime_error, err, ℕ, Bool}
use multiagent_fipa_acl.Message.{AclMessage}
use multiagent_fipa_acl.Envelope.{Representation, unknown, bitefficient, string_rep, xml}
use multiagent_fipa_acl.Bitefficient.Qi.{Qi}
use multiagent_fipa_acl.Bitefficient.Times.{CTime}
use multiagent_fipa_acl.Bitefficient.Format.{Printing, default_format}
use multiagent_fipa_acl.Bitefficient.Format.Message.{apply}
use multiagent_fipa_acl.Bitefficient.Parser as BitefficientMessageParser

-- What a letter calls: what the bit-efficient format and its parser call, the formats and parsers
-- of the two other representations, the clock with the text of a time, and the decimal digits that
-- a stream prints for a `uint32_t`.
pub record Transport : Type 1 where
  pub printing : Printing
  pub qi : Qi
  pub hex : Text → Text
  pub c_time : CTime
  pub apply_xml : AclMessage → Result Text
  pub apply_string : AclMessage → Result Text
  pub parse_xml : Text → AclMessage → Outcome AclMessage Bool
  pub parse_string : Text → AclMessage → Outcome AclMessage Bool
  pub now : ℕ
  pub time_text : ℕ → Text
  pub decimal : ℕ → Text

-- `MessageGenerator::create`
unfoldable pub generator_create : Transport → AclMessage → Representation → Result Text
generator_create t m unknown = err runtime_error
generator_create t m bitefficient = apply default_format t.printing m
generator_create t m string_rep = t.apply_string m
generator_create t m xml = t.apply_xml m

-- `MessageParser::parseData`
unfoldable pub parser_parse_data :
    Transport → Text → AclMessage → Representation → Outcome AclMessage Bool
parser_parse_data t storage m unknown = (m, err runtime_error)
parser_parse_data t storage m bitefficient =
    BitefficientMessageParser.parse_data t.c_time t.qi t.hex storage m
parser_parse_data t storage m string_rep = t.parse_string storage m
parser_parse_data t storage m xml = t.parse_xml storage m
