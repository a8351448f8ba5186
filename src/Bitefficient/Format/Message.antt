-- ===== src/Bitefficient/Format/Message.antt =====
-- message_generator/format/bitefficient_message_format.cpp: header, message type, parameters and
-- content, and `apply`, which puts them together.
use multiagent_fipa_acl.Bitefficient.Decimal.{print_int}
use multiagent_fipa_acl.Base.{
  leb, nat_beq, if◌then◌else◌, ◌==◌, nat_eq, Text, text_eq, is_empty, length, Result, runtime_error,
  ok, err, ℕ, zero, suc, ◌+◌, ◌*◌, ◌%◌, Bool, not, Option, none, some, List, [], ◌∷◌, ◌++◌,
}
use multiagent_fipa_acl.Agent.{agent_empty}
use multiagent_fipa_acl.Performative.{performative_txt, Performative, performatives}
use multiagent_fipa_acl.Message.{AclMessage, strlen}
use multiagent_fipa_acl.Bitefficient.Qi.{Host}
use multiagent_fipa_acl.Bitefficient.Reads.{◌+++◌}
use multiagent_fipa_acl.Bitefficient.Format.{
  bin_date_time_token, bit_aid_coll, bit_aid, bin_expression, bit_parse_param, eof_collection, each,
  bin_word, unless_empty, MessageFormat, Printing,
}

-- `getBitMessageID`
abbrev pub bit_message_id : MessageFormat → ℕ
bit_message_id f =
    if not f.use_code_tables then 0xfa else if f.update_code_tables then 0xfb else 0xfc

-- The character of a string at a position; the terminating zero stands behind the last one.
abbrev pub char_at : ℕ → Text → ℕ
char_at n [] = 0
char_at zero (c ∷ t) = c
char_at (suc n) (c ∷ t) = char_at n t

-- `getBitMessageVersion`: the differences are made modulo 256, as the cast to `char` takes them.
abbrev pub bit_message_version : MessageFormat → ℕ
bit_message_version f = ((char_at 0 f.version + 208) * 16 + (char_at 2 f.version + 208)) % 256

-- `getBitHeader`
abbrev pub bit_header : MessageFormat → Text
bit_header f = bit_message_id f ∷ bit_message_version f ∷ []

-- The loop over the predefined performatives, which are numbered from 1 in the encoding.
unfoldable pub predefined_code : ℕ → Text → List Performative → Option ℕ
predefined_code i text [] = none
predefined_code i text (p ∷ ps) =
    if performative_txt p == text then some (suc i) else predefined_code (suc i) text ps

-- `getBitMessageType`
unfoldable pub bit_message_type : Bool → AclMessage → Result Text
bit_message_type tables m = elim (predefined_code 0 m.performative performatives) [
  | some code ↦ ok (code ∷ [])
  | none ↦
      if is_empty m.performative
      then err runtime_error
      else ok (0x00 ∷ []) +++ bin_word tables m.performative
]

-- `getBitPredefMessageParams`
unfoldable pub bit_predef_message_params : MessageFormat → Printing → AclMessage → Result Text
bit_predef_message_params f env m =
    let tables = f.use_code_tables in
    let text = (λ (code : ℕ) (value : Text).
      unless_empty value (ok (code ∷ []) +++ bin_expression tables value 115)) in
    (if agent_empty m.sender
      then ok []
      else ok (0x02 ∷ []) +++ bit_aid tables f.resolver_depth m.sender)
    +++ unless_empty m.receivers
        (ok (0x03 ∷ []) +++ bit_aid_coll tables f.resolver_depth m.receivers)
    +++ text 0x05 m.reply_with
    +++ (if nat_beq m.reply_by 0
        then ok []
        else ok (0x06 ∷ []) +++ bin_date_time_token env m.reply_by)
    +++ text 0x07 m.in_reply_to
    +++ unless_empty m.reply_to (ok (0x08 ∷ []) +++ bit_aid_coll tables f.resolver_depth m.reply_to)
    +++ text 0x09 m.language
    +++ text 0x0a m.encoding
    +++ text 0x0b m.ontology
    +++ unless_empty m.protocol (ok (0x0c ∷ []) +++ bin_word tables m.protocol)
    +++ text 0x0d m.conversation_id

-- `getBitUserdefMessageParams`
unfoldable pub bit_userdef_message_params : Bool → AclMessage → Result Text
bit_userdef_message_params tables m =
    each (λ p. ok (0x00 ∷ []) +++ bit_parse_param tables p) m.parameters

-- The content as `apply` writes it: as a string if it has no zero byte, else with its length in
-- one, two or four bytes.
abbrev pub content_body : Host → Text → ℕ → Text
content_body host content digit =
    if not (nat_beq (strlen content) digit)
    then (if leb digit 255
        then 0x16 ∷ digit ∷ content
        else if leb digit 65535
        then 0x17 ∷ host.word_bytes (host.htons digit) ++ content
        else 0x19 ∷ host.dword_bytes (host.htonl digit) ++ content)
    else 0x14 ∷ 0x23 ∷ print_int digit ++ (0x22 ∷ content ++ 0x00 ∷ [])

unfoldable pub bit_content : Host → Text → Text
bit_content host content = 0x04 ∷ content_body host content (length content % 4294967296)

-- `apply`
unfoldable pub apply : MessageFormat → Printing → AclMessage → Result Text
apply f env m =
    (ok (bit_header f) +++ bit_message_type f.use_code_tables m)
    +++ (bit_predef_message_params f env m +++ bit_userdef_message_params f.use_code_tables m)
    +++ ok (if is_empty m.content then [] else bit_content env.host m.content)
    +++ ok eof_collection
