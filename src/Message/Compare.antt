-- ===== src/Message/Compare.antt =====
-- What the comparison of messages decides.
use multiagent_fipa_acl.Base.{
  nat_beq_iff, ◌==◌, nat_eq, list_beq_iff, ==→eq, text_eq, ◌≡◌, ◌↔◌, true, arith,
}
use multiagent_fipa_acl.Pairing.{same_collection}
use multiagent_fipa_acl.Pairing.Counting.{
  IsEquivalence, SameCounts, same_collection_iff, ==-IsEquivalence,
}
use multiagent_fipa_acl.Agent.{UserdefParam, param_eq, agent_beq}
use multiagent_fipa_acl.Agent.Compare.{agent_beq-IsEquivalence}
use multiagent_fipa_acl.Message.{AclMessage, message_beq}

-- Equal texts and times, equal senders, and the same receivers, reply-to and parameters in any
-- order, agents being compared by `AgentID::operator==`.
pub record SameMessage (m other : AclMessage) : Type 0 where
  pub performative : m.performative ≡ other.performative
  pub content : m.content ≡ other.content
  pub language : m.language ≡ other.language
  pub encoding : m.encoding ≡ other.encoding
  pub ontology : m.ontology ≡ other.ontology
  pub protocol : m.protocol ≡ other.protocol
  pub conversation_id : m.conversation_id ≡ other.conversation_id
  pub reply_with : m.reply_with ≡ other.reply_with
  pub in_reply_to : m.in_reply_to ≡ other.in_reply_to
  pub reply_by : m.reply_by ≡ other.reply_by
  pub sender : agent_beq m.sender other.sender ≡ true
  pub receivers : SameCounts agent_beq m.receivers other.receivers
  pub reply_to : SameCounts agent_beq m.reply_to other.reply_to
  pub parameters : SameCounts ◌==◌ m.parameters other.parameters

record Tests (m other : AclMessage) : Type 0 where
  performative : m.performative == other.performative ≡ true
  content : m.content == other.content ≡ true
  language : m.language == other.language ≡ true
  encoding : m.encoding == other.encoding ≡ true
  ontology : m.ontology == other.ontology ≡ true
  protocol : m.protocol == other.protocol ≡ true
  conversation_id : m.conversation_id == other.conversation_id ≡ true
  reply_with : m.reply_with == other.reply_with ≡ true
  in_reply_to : m.in_reply_to == other.in_reply_to ≡ true
  reply_by : m.reply_by == other.reply_by ≡ true
  sender : agent_beq m.sender other.sender ≡ true
  receivers : same_collection agent_beq m.receivers other.receivers ≡ true
  reply_to : same_collection agent_beq m.reply_to other.reply_to ≡ true
  parameters : same_collection ◌==◌ m.parameters other.parameters ≡ true

message_beq-Tests : (m other : AclMessage) → message_beq m other ≡ true → Tests m other
unfolding message_beq
message_beq-Tests m other h = ground arith

Tests-message_beq : (m other : AclMessage) → Tests m other → message_beq m other ≡ true
unfolding message_beq
Tests-message_beq m other t = ground arith

parameter_classes : IsEquivalence {A = UserdefParam} ◌==◌
parameter_classes = ==-IsEquivalence

module _ (m other : AclMessage) where
  same_of_Tests : Tests m other → SameMessage m other
  same_of_Tests t = record {
    performative = ==→eq _ _ t.performative;
    content = ==→eq _ _ t.content;
    language = ==→eq _ _ t.language;
    encoding = ==→eq _ _ t.encoding;
    ontology = ==→eq _ _ t.ontology;
    protocol = ==→eq _ _ t.protocol;
    conversation_id = ==→eq _ _ t.conversation_id;
    reply_with = ==→eq _ _ t.reply_with;
    in_reply_to = ==→eq _ _ t.in_reply_to;
    reply_by = ==→eq _ _ t.reply_by;
    sender = t.sender;
    receivers = (same_collection_iff agent_beq agent_beq-IsEquivalence _ _).0 t.receivers;
    reply_to = (same_collection_iff agent_beq agent_beq-IsEquivalence _ _).0 t.reply_to;
    parameters = (same_collection_iff ◌==◌ parameter_classes _ _).0 t.parameters;
  }

  Tests-of_same : SameMessage m other → Tests m other
  Tests-of_same s = record {
    performative = (list_beq_iff _ _).1 s.performative;
    content = (list_beq_iff _ _).1 s.content;
    language = (list_beq_iff _ _).1 s.language;
    encoding = (list_beq_iff _ _).1 s.encoding;
    ontology = (list_beq_iff _ _).1 s.ontology;
    protocol = (list_beq_iff _ _).1 s.protocol;
    conversation_id = (list_beq_iff _ _).1 s.conversation_id;
    reply_with = (list_beq_iff _ _).1 s.reply_with;
    in_reply_to = (list_beq_iff _ _).1 s.in_reply_to;
    reply_by = (nat_beq_iff _ _).1 s.reply_by;
    sender = s.sender;
    receivers = (same_collection_iff agent_beq agent_beq-IsEquivalence _ _).1 s.receivers;
    reply_to = (same_collection_iff agent_beq agent_beq-IsEquivalence _ _).1 s.reply_to;
    parameters = (same_collection_iff ◌==◌ parameter_classes _ _).1 s.parameters;
  }

  -- `operator==` of messages holds exactly if the ten text and time fields are equal, the senders
  -- are equal agents, and receivers, reply-to and parameters agree as multisets.
  pub message_beq_iff : (message_beq m other ≡ true) ↔ SameMessage m other
  message_beq_iff = (
    λ h. same_of_Tests (message_beq-Tests m other h),
    λ s. Tests-message_beq m other (Tests-of_same s),
  )
