-- ===== src/Machine.antt =====
-- conversation_monitor/statemachine.h and statemachine.cpp: the state machine of a protocol, with
-- message_archive.cpp.
pub mod Loading
pub mod WellFormed
pub mod Roles
pub mod Moved
pub mod Consume
pub mod Keeps
use multiagent_fipa_acl.Base.{
  if◌then◌else◌, ◌==◌, nat_eq, Text, text_eq, is_empty, is_exception, Result, ◌>>=◌, Outcome,
  attempt, follow, catch, within, runtime_error, ok, err, ◌+◌, Bool, ◌||◌, none, some, List, [],
  ◌∷◌, ◌++◌,
}
use multiagent_fipa_acl.Base.Ints.{ℤ}
use multiagent_fipa_acl.Base.Maps.{Map, find, put}
use multiagent_fipa_acl.Agent.{AgentId}
use multiagent_fipa_acl.Message.{AclMessage}
use multiagent_fipa_acl.Role
use multiagent_fipa_acl.Role.{Role, RoleMapping, RegexMatch, add_expected_agent, new_role_mapping}
use multiagent_fipa_acl.Transition.{
  StateId, Transition, general_failure_id, conversation_cancel_failure_id,
  conversation_cancel_success_id,
}
use multiagent_fipa_acl.State.{State}
use multiagent_fipa_acl.State.Messages.{
  MessageArchive, get_transition, get_substate_machine_proxied_transition,
}
use multiagent_fipa_acl.State.SubConversations.{
  SubMachine, is_finished, consume_sub_state_machine_message,
}

pub record StateMachine (M : Type 0) : Type 0 where
  pub initial_state_id : StateId
  pub current_state_id : StateId
  pub states : Map StateId (State M)
  pub role_mapping : RoleMapping
  pub message_archive : MessageArchive
  pub protocol : Text

module _ {M : Type 0} where
  -- The default constructor, and the setters.
  unfoldable pub new_state_machine : StateMachine M
  new_state_machine = record {
    initial_state_id = [];
    current_state_id = [];
    states = [];
    role_mapping = new_role_mapping;
    message_archive = [];
    protocol = [];
  }

  unfoldable pub set_initial_state : StateMachine M → StateId → StateMachine M
  set_initial_state sm id = record sm { initial_state_id = id }

  unfoldable pub set_current_state_id : StateMachine M → StateId → StateMachine M
  set_current_state_id sm id = record sm { current_state_id = id }

  unfoldable pub set_protocol : StateMachine M → Text → StateMachine M
  set_protocol sm protocol = record sm { protocol = protocol }

  -- `StateMachine::reset`
  unfoldable pub reset : StateMachine M → StateMachine M
  reset sm = record sm { current_state_id = sm.initial_state_id }

  -- `StateMachine::addState`
  unfoldable pub add_state : StateMachine M → State M → Outcome (StateMachine M) (Unit {0})
  add_state sm s = elim (find s.id sm.states) [
    | some _ ↦ (sm, err runtime_error)
    | none ↦ (record sm { states = put s.id s sm.states }, ok tt)
  ]

  -- `StateMachine::getCurrentState` and `getCurrentStateModifiably`
  unfoldable pub get_current_state : StateMachine M → Result (State M)
  get_current_state sm =
      if is_empty sm.current_state_id
      then err runtime_error
      else elim (find sm.current_state_id sm.states) [ none ↦ err runtime_error | some s ↦ ok s ]

  -- `StateMachine::setSelf`
  unfoldable pub set_self : StateMachine M → AgentId → Outcome (StateMachine M) (Unit {0})
  set_self sm a =
      within (λ roles. record sm { role_mapping = roles }) (Role.set_self sm.role_mapping a)

  -- `StateMachine::inFailureState` and `StateMachine::cancelled`
  unfoldable pub in_failure_state : StateMachine M → Bool
  in_failure_state sm =
      sm.current_state_id == general_failure_id
      || sm.current_state_id == conversation_cancel_failure_id

  unfoldable pub cancelled : StateMachine M → Bool
  cancelled sm = sm.current_state_id == conversation_cancel_success_id

-- `StateMachine::updateRoleMapping`, on the mapping
expect_receivers : RoleMapping → Role → List AgentId → Outcome RoleMapping (Unit {0})
expect_receivers roles role [] = (roles, ok tt)
expect_receivers roles role (a ∷ agents) =
    follow (add_expected_agent roles role a) λ roles' _. expect_receivers roles' role agents

unfoldable pub update_role_mapping :
    RoleMapping → AclMessage → Transition → Outcome RoleMapping (Unit {0})
unfolding expect_receivers
update_role_mapping roles m t =
    follow (add_expected_agent roles t.sender_role m.sender)
      λ roles' _. expect_receivers roles' t.receiver_role m.receivers

module _ {M : Type 0} where
  -- The end of both branches of `consumeMessage`: roles, archive, transition.
  unfoldable pub perform :
      StateMachine M → AclMessage → Transition → Outcome (StateMachine M) (Unit {0})
  perform sm m t =
      follow
        (within (λ roles. record sm { role_mapping = roles })
          (update_role_mapping sm.role_mapping m t))
        λ sm' _. (
          record sm' {
            message_archive = sm.message_archive ++ m ∷ [];
            current_state_id = t.target_state_id;
          },
          ok tt,
        )

  module _ (regex_match : RegexMatch) where
    -- The `try` block.
    consume_directly : StateMachine M → AclMessage → Outcome (StateMachine M) (Unit {0})
    unfolding perform
    consume_directly sm m = attempt (get_current_state sm) sm λ s.
        attempt (get_transition regex_match s m sm.message_archive sm.role_mapping) sm
          λ t. perform sm m t

    -- The handler: the message may be the reply of a sub-conversation.
    consume_proxied : StateMachine M → AclMessage → Outcome (StateMachine M) (Unit {0})
    unfolding perform
    consume_proxied sm m = attempt (get_current_state sm) sm λ s.
        follow
          (within (λ s'. record sm { states = put sm.current_state_id s' sm.states })
            (get_substate_machine_proxied_transition regex_match s m sm.message_archive
              sm.role_mapping))
          λ sm' t. perform sm' m t

    -- `StateMachine::consumeMessage`
    unfoldable pub consume_message :
        StateMachine M → AclMessage → Outcome (StateMachine M) (Unit {0})
    unfolding consume_directly consume_proxied
    consume_message sm m = catch is_exception (consume_directly sm m) λ sm'. consume_proxied sm' m

  module _ (sub : SubMachine M) where
    -- `StateMachine::inFinalState`
    unfoldable pub in_final_state : StateMachine M → Result Bool
    in_final_state sm = get_current_state sm >>= λ s. is_finished sub s

    -- `StateMachine::consumeSubStateMachineMessage`
    unfoldable pub consume_sub_message :
        RegexMatch → StateMachine M → AclMessage → M → ℤ → Outcome (StateMachine M) (Unit {0})
    consume_sub_message regex_match sm m machine amount = attempt (get_current_state sm) sm λ s.
        within (λ s'. record sm { states = put sm.current_state_id s' sm.states })
          (consume_sub_state_machine_message sub regex_match s m machine sm.role_mapping amount)

-- The state machines of one level are the sub state machines of the next.
abbrev pub machine_level : {M : Type 0} → SubMachine M → RegexMatch → SubMachine (StateMachine M)
machine_level sub regex_match = record {
  in_final_state = in_final_state sub;
  in_failure_state = in_failure_state;
  consume_message = consume_message regex_match;
  set_self = set_self;
}

-- A state machine with no sub state machines: none is ever asked.
abbrev pub no_machine : SubMachine ⊥
no_machine = record {
  in_final_state = λ x. absurd x;
  in_failure_state = λ x. absurd x;
  consume_message = λ x. absurd x;
  set_self = λ x. absurd x;
}
