-- ===== src/Conversation/Update.antt =====
-- `Conversation::update` of conversation_monitor/conversation.cpp.
pub mod Outcomes
pub mod Started
pub mod Keeps
pub mod Sound
pub mod Identity
use multiagent_fipa_acl.Base.{
  if◌then◌else◌, ◌==◌, nat_eq, Text, text_eq, is_empty, Error, is_runtime_error, Result, Outcome,
  attempt, follow, within, runtime_error, protocol_exception, aborted, ok, err, ℕ, Bool, true,
  false, not, [],
}
use multiagent_fipa_acl.Message.{AclMessage}
use multiagent_fipa_acl.Agent.{new_agent_id}
use multiagent_fipa_acl.Role.{RegexMatch}
use multiagent_fipa_acl.State.SubConversations.{SubMachine}
use multiagent_fipa_acl.Machine.{StateMachine, set_self, consume_message, consume_sub_message}
use multiagent_fipa_acl.Conversation.{Conversation, Observers, notify_all, new_conversation}

-- `catch(const std::runtime_error&)` that throws a `ProtocolException`.
abbrev pub as_protocol_exception : Error → Error
as_protocol_exception e = if is_runtime_error e then protocol_exception else e

abbrev pub translated : {S A : Type 0} → Outcome S A → Outcome S A
translated (s, ok a) = (s, ok a)
translated (s, err e) = (s, err (as_protocol_exception e))

-- What the conversation takes from the rest of the program and from outside it.
pub record Environment (M : Type 0) : Type 0 where
  pub regex_match : RegexMatch
  pub sub : SubMachine M
  pub get_state_machine : Text → Result (StateMachine M)
  pub get_sub_state_machine : Text → Result M
  pub now : ℕ → ℕ

module _ {M : Type 0} (env : Environment M) where
  open env use {regex_match, sub, get_state_machine, get_sub_state_machine, now}

  -- The first message: the conversation takes the state machine of its protocol. What was
  -- assigned before a throw stays.
  pub initialise : Conversation M → AclMessage → Outcome (Conversation M) (Unit {0})
  initialise c m =
      if is_empty m.protocol
      then (c, err runtime_error)
      else attempt (get_state_machine m.protocol) c λ machine.
        let c1 = record c { state_machine = machine } in
        attempt (new_agent_id c.owner) c1 λ owner.
          follow (within (λ sm. record c { state_machine = sm }) (set_self machine owner)) λ c2 _. (
            record c2 {
              protocol = m.protocol;
              content_language = m.language;
              conversation_id = m.conversation_id;
            },
            ok tt,
          )

  -- The end of `update`: the state machine, then the observers.
  consume :
      Conversation M
      → Observers
      → AclMessage
      → Bool
      → Outcome (Conversation M × Observers) (Unit {0})
  consume c observers m new_conversation =
      follow
        (within (λ sm. (record c { state_machine = sm }, observers))
          (translated (consume_message regex_match c.state_machine m)))
        λ s _. notify_all sub now s.0 s.1 m new_conversation

  -- A message of another protocol: it belongs to a sub-conversation.
  consume_sub :
      Conversation M → Observers → AclMessage → Outcome (Conversation M × Observers) (Unit {0})
  consume_sub c observers m =
      follow
        (within (λ sm. (record c { state_machine = sm }, observers))
          (translated (
            attempt (get_sub_state_machine m.protocol) c.state_machine λ machine.
              consume_sub_message sub regex_match c.state_machine m machine
                c.number_of_sub_conversations)))
        λ s _. notify_all sub now s.0 s.1 m false

  -- `Conversation::update`
  unfoldable pub update :
      Conversation M → Observers → AclMessage → Outcome (Conversation M × Observers) (Unit {0})
  unfolding initialise consume consume_sub
  update c observers m =
      if is_empty c.protocol
      then (follow (within (λ c'. (c', observers)) (initialise c m)) λ s _. consume s.0 s.1 m true)
      else if not (c.protocol == m.protocol)
      then consume_sub c observers m
      else consume c observers m false

  -- `Conversation::Conversation(owner, initiator)`, with its `assert` at the end.
  unfoldable pub conversation_of_initiator :
      ℕ → Text → AclMessage → Observers → Outcome (Conversation M × Observers) (Unit {0})
  conversation_of_initiator self owner initiator observers =
      follow
        (update (record (new_conversation self owner [] []) { conversation_id = [] }) observers
          initiator)
        λ s _. if is_empty s.0.conversation_id then (s, err aborted) else (s, ok tt)
