-- ===== src/Message.antt =====
-- message_generator/acl_message.h and acl_message.cpp: the message, its setters and its
-- comparison. A `base::Time` is the number of microseconds that it holds, 0 if it is null; the
-- class copies and compares it.
pub mod Receivers
pub mod Compare
use multiagent_fipa_acl.Base.{
  nat_beq, if◌then◌else◌, ◌==◌, nat_eq, Text, text_eq, length, any_of, Result, Outcome,
  runtime_error, ok, err, ℕ, suc, Bool, false, not, List, [], ◌∷◌,
}
use multiagent_fipa_acl.Pairing.{same_collection}
use multiagent_fipa_acl.Words.{is_illegal_word}
use multiagent_fipa_acl.Agent.{
  AgentId, UserdefParam, param_eq, undefined_agent_id, agent_beq, contains_agent, erase_agent,
}
use multiagent_fipa_acl.Performative.{Performative, performative_txt, inform}

pub record AclMessage : Type 0 where
  pub performative : Text
  pub sender : AgentId
  pub receivers : List AgentId
  pub reply_to : List AgentId
  pub language : Text
  pub encoding : Text
  pub ontology : Text
  pub protocol : Text
  pub conversation_id : Text
  pub reply_with : Text
  pub in_reply_to : Text
  pub reply_by : ℕ
  pub parameters : List UserdefParam
  pub content : Text

with_performative : Text → AclMessage
with_performative text = record {
  performative = text;
  sender = undefined_agent_id;
  receivers = [];
  reply_to = [];
  language = [];
  encoding = [];
  ontology = [];
  protocol = [];
  conversation_id = [];
  reply_with = [];
  in_reply_to = [];
  reply_by = 0;
  parameters = [];
  content = [];
}

-- The constructors: with no argument, with an enumerator, and with a string.
unfoldable pub empty_message : AclMessage
unfolding with_performative performative_txt
empty_message = with_performative (performative_txt inform)

unfoldable pub message_of_performative : Performative → AclMessage
unfolding with_performative
message_of_performative p = with_performative (performative_txt p)

unfoldable pub message_of_string : Text → Result AclMessage
unfolding with_performative
message_of_string perf =
    if is_illegal_word perf then err runtime_error else ok (with_performative perf)

-- `setPerformative`, with an enumerator (every one of them has a text) and with a string.
unfoldable pub set_performative : AclMessage → Performative → AclMessage
set_performative m p = record m { performative = performative_txt p }

unfoldable pub set_performative_string : AclMessage → Text → Outcome AclMessage (Unit {0})
set_performative_string m text =
    if is_illegal_word text
    then (m, err runtime_error)
    else (record m { performative = text }, ok tt)

-- `addReceiver`, `deleteReceiver`, `clearReceivers`
unfoldable pub add_receiver : AclMessage → AgentId → AclMessage
add_receiver m aid =
    if contains_agent m.receivers aid then m else record m { receivers = aid ∷ m.receivers }

unfoldable pub delete_receiver : AclMessage → AgentId → AclMessage
delete_receiver m aid = record m { receivers = erase_agent aid m.receivers }

unfoldable pub clear_receivers : AclMessage → AclMessage
clear_receivers m = record m { receivers = [] }

-- `addReplyTo`, `deleteReplyTo`, `clearReplyTo`
unfoldable pub add_reply_to : AclMessage → AgentId → AclMessage
add_reply_to m aid =
    if contains_agent m.reply_to aid then m else record m { reply_to = aid ∷ m.reply_to }

unfoldable pub delete_reply_to : AclMessage → AgentId → AclMessage
delete_reply_to m aid = record m { reply_to = erase_agent aid m.reply_to }

unfoldable pub clear_reply_to : AclMessage → AclMessage
clear_reply_to m = record m { reply_to = [] }

-- `setProtocol`
unfoldable pub set_protocol : AclMessage → Text → Outcome AclMessage (Unit {0})
set_protocol m text =
    if is_illegal_word text then (m, err runtime_error) else (record m { protocol = text }, ok tt)

-- `strlen(text.c_str())`
abbrev pub strlen : Text → ℕ
strlen [] = 0
strlen (c ∷ text) = let rest = suc (strlen text) in if nat_beq c 0 then 0 else rest

-- `hasBinaryContent`
unfoldable pub has_binary_content : AclMessage → Bool
has_binary_content m = not (strlen m.content == length m.content)

-- `addUserdefParam` and `setUserdefParams`
unfoldable pub add_userdef_param : AclMessage → UserdefParam → AclMessage
add_userdef_param m p =
    if any_of (λ other. other == p) m.parameters
    then m
    else record m { parameters = p ∷ m.parameters }

unfoldable pub set_userdef_params : AclMessage → List UserdefParam → AclMessage
set_userdef_params m ps = record m { parameters = ps }

-- The setters that only assign.
unfoldable pub set_all_receivers : AclMessage → List AgentId → AclMessage
set_all_receivers m v = record m { receivers = v }

unfoldable pub set_all_reply_to : AclMessage → List AgentId → AclMessage
set_all_reply_to m v = record m { reply_to = v }

unfoldable pub set_in_reply_to : AclMessage → Text → AclMessage
set_in_reply_to m v = record m { in_reply_to = v }

unfoldable pub set_reply_with : AclMessage → Text → AclMessage
set_reply_with m v = record m { reply_with = v }

unfoldable pub set_conversation_id : AclMessage → Text → AclMessage
set_conversation_id m v = record m { conversation_id = v }

unfoldable pub set_ontology : AclMessage → Text → AclMessage
set_ontology m v = record m { ontology = v }

unfoldable pub set_encoding : AclMessage → Text → AclMessage
set_encoding m v = record m { encoding = v }

unfoldable pub set_language : AclMessage → Text → AclMessage
set_language m v = record m { language = v }

unfoldable pub set_content : AclMessage → Text → AclMessage
set_content m v = record m { content = v }

unfoldable pub set_sender : AclMessage → AgentId → AclMessage
set_sender m v = record m { sender = v }

unfoldable pub set_reply_by : AclMessage → ℕ → AclMessage
set_reply_by m v = record m { reply_by = v }

-- `ACLMessage::operator==`: the early returns in their order.
unfoldable pub message_beq : AclMessage → AclMessage → Bool
message_beq m other =
    if not (m.performative == other.performative)
    then false
    else if not (m.content == other.content)
    then false
    else if not (m.language == other.language)
    then false
    else if not (m.encoding == other.encoding)
    then false
    else if not (m.ontology == other.ontology)
    then false
    else if not (m.protocol == other.protocol)
    then false
    else if not (m.conversation_id == other.conversation_id)
    then false
    else if not (m.reply_with == other.reply_with)
    then false
    else if not (m.in_reply_to == other.in_reply_to)
    then false
    else if not (m.reply_by == other.reply_by)
    then false
    else if not (agent_beq m.sender other.sender)
    then false
    else if not (same_collection agent_beq m.receivers other.receivers)
    then false
    else if not (same_collection agent_beq m.reply_to other.reply_to)
    then false
    else same_collection ◌==◌ m.parameters other.parameters
