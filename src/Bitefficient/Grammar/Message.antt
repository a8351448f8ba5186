-- ===== src/Bitefficient/Grammar/Message.antt =====
-- message_parser/types.h and parameter.h, and the rules of `Message` in
-- message_parser/grammar/grammar_bitefficient.h.
use multiagent_fipa_acl.Base.{nat_eq, Text, text_eq, codes, ok, ℕ, List, [], ◌∷◌}
use multiagent_fipa_acl.Bitefficient.Qi.{Qi, Parser}
use multiagent_fipa_acl.Bitefficient.Reads.{lead, close}
use multiagent_fipa_acl.Bitefficient.Grammar.{ByteSequence}
use multiagent_fipa_acl.Bitefficient.Grammar.Expressions.{
  bin_date_time, DateTime, bin_word, bin_expression, bin_string,
}
use multiagent_fipa_acl.Bitefficient.Grammar.Agents.{agent_identifier_rule, AgentIdentifier}

-- `message::ParameterValue`; the grammar makes no value of its last alternative, `ByteString`.
pub data ParameterValue : Type 0 where
  text_value : Text → ParameterValue
  agent_value : AgentIdentifier → ParameterValue
  agents_value : List AgentIdentifier → ParameterValue
  bytes_value : ByteSequence → ParameterValue
  date_value : DateTime → ParameterValue

-- `message::Parameter`, `Header` and `Message`
pub record Parameter : Type 0 where
  pub name : Text
  pub value : ParameterValue

pub record Header : Type 0 where
  pub id : ℕ
  pub version : ℕ

pub record Message : Type 0 where
  pub header : Header
  pub type_text : Text
  pub parameters : List Parameter

abbrev pub predefined_types : List (ℕ × Text)
predefined_types =
    (0x01, codes "accept-proposal")
    ∷ (0x02, codes "agree")
    ∷ (0x03, codes "cancel")
    ∷ (0x04, codes "cfp")
    ∷ (0x05, codes "confirm")
    ∷ (0x06, codes "disconfirm")
    ∷ (0x07, codes "failure")
    ∷ (0x08, codes "inform")
    ∷ (0x09, codes "inform-if")
    ∷ (0x0a, codes "inform-ref")
    ∷ (0x0b, codes "not-understood")
    ∷ (0x0c, codes "propagate")
    ∷ (0x0d, codes "propose")
    ∷ (0x0e, codes "proxy")
    ∷ (0x0f, codes "query-if")
    ∷ (0x10, codes "query-ref")
    ∷ (0x11, codes "refuse")
    ∷ (0x12, codes "reject-proposal")
    ∷ (0x13, codes "request")
    ∷ (0x14, codes "request-when")
    ∷ (0x15, codes "request-whenever")
    ∷ (0x16, codes "subscribe")
    ∷ []

module _ (qi : Qi) (hex : Text → Text) where
  -- Alternatives of which each begins with its own byte; the last one given comes last.
  abbrev pub typed : List (ℕ × Text) → Parser Text → Parser Text
  typed [] p = p
  typed ((code, text) ∷ types) p = qi.alt (qi.act (qi.byte code) (λ _. ok text)) (typed types p)

  -- `messageType`
  abbrev pub user_defined_message_type : Parser Text
  user_defined_message_type = lead qi 0x00 (bin_word qi)

  abbrev pub message_type : Parser Text
  message_type = typed predefined_types user_defined_message_type

  abbrev pub message_id : Parser ℕ
  message_id = qi.alt (qi.byte 0xfa) (qi.alt (qi.byte 0xfb) (qi.byte 0xfc))

  abbrev pub header : Parser Header
  header = qi.act (qi.seq message_id qi.any_byte) (λ x. ok (record { id = x.0; version = x.1 }))

  -- `recipientExpr` and `replyToParam`
  abbrev pub recipient_expr : Parser (List AgentIdentifier)
  recipient_expr = close qi (qi.star (agent_identifier_rule qi hex)) 0x01

  -- The alternatives of `predefinedMessageParameter`, behind the byte that each begins with.
  abbrev pub named : {A : Type 0} → Text → Parser A → (A → ParameterValue) → Parser Parameter
  named name p f = qi.act p (λ x. ok (record { name = name; value = f x }))

  abbrev pub predefined_parameters : List (ℕ × Parser Parameter)
  predefined_parameters =
      (0x02, named (codes "sender") (agent_identifier_rule qi hex) agent_value)
      ∷ (0x03, named (codes "receiver") recipient_expr agents_value)
      ∷ (0x04, named (codes "content") (bin_string qi) bytes_value)
      ∷ (0x05, named (codes "reply-with") (bin_expression qi hex) text_value)
      ∷ (0x06, named (codes "reply-by") (bin_date_time qi) date_value)
      ∷ (0x07, named (codes "in-reply-to") (bin_expression qi hex) text_value)
      ∷ (0x08, named (codes "reply-to") recipient_expr agents_value)
      ∷ (0x09, named (codes "language") (bin_expression qi hex) text_value)
      ∷ (0x0a, named (codes "encoding") (bin_expression qi hex) text_value)
      ∷ (0x0b, named (codes "ontology") (bin_expression qi hex) text_value)
      ∷ (0x0c, named (codes "protocol") (bin_word qi) text_value)
      ∷ (0x0d, named (codes "conversation-id") (bin_expression qi hex) text_value)
      ∷ []

  abbrev pub user_defined_message_parameter : Parser Parameter
  user_defined_message_parameter = lead qi 0x00 (
      qi.act (qi.seq (bin_word qi) (bin_expression qi hex))
        (λ x. ok (record { name = x.0; value = text_value x.1 })))

  abbrev pub coded : List (ℕ × Parser Parameter) → Parser Parameter → Parser Parameter
  coded [] last = last
  coded ((code, p) ∷ alternatives) last = qi.alt (lead qi code p) (coded alternatives last)

  -- `messageParameter`: the predefined ones, then the user-defined one.
  abbrev pub message_parameter : Parser Parameter
  message_parameter = coded predefined_parameters user_defined_message_parameter

  -- `aclCommunicativeAct`
  abbrev pub acl_communicative_act : Parser Message
  acl_communicative_act =
      qi.act (qi.seq header (qi.seq message_type (close qi (qi.star message_parameter) 0x01)))
        (λ x. ok (record { header = x.0; type_text = x.1.0; parameters = x.1.1 }))
