-- ===== src/State.antt =====
-- conversation_monitor/state.h and state.cpp: the states of a protocol, and the transitions that
-- are added to each of them by default.
pub mod Messages
pub mod SubConversations
pub mod Defaults
pub mod Owed
pub mod Generated
pub mod Linked
use multiagent_fipa_acl.Base.{
  if◌then◌else◌, ◌==◌, nat_eq, Text, text_eq, is_empty, any_of, Outcome, attempt, follow,
  runtime_error, ok, err, ◌+◌, Bool, true, false, Option, none, some, List, [], ◌∷◌, ◌++◌,
}
use multiagent_fipa_acl.Base.Ints.{ℤ}
use multiagent_fipa_acl.Performative.{performative_txt, not_understood, cancel, failure}
use multiagent_fipa_acl.Role.{Role, RegexMatch}
use multiagent_fipa_acl.Transition.{
  StateId, Transition, transition_beq, not_understood_id, conversation_cancelling_id,
  conversation_cancel_success_id, conversation_cancel_failure_id, undefined_id, general_failure_id,
  not_understood_transition, conversation_cancelling_transition, general_failure_transition,
  cancel_success_transition, cancel_failure_transition,
}

-- `EmbeddedStateMachine` (statemachine.h). Its member `stateMachine` is neither read nor written.
pub record EmbeddedStateMachine : Type 0 where
  pub from : Text
  pub from_role : Role
  pub name : Text
  pub proxied_to : Text
  pub proxied_to_role : Role
  pub actual_protocol : Text
  pub number_of_sub_conversations : ℤ
  pub received_proxied_reply : Bool

-- A state holds state machines, whose states hold state machines: `M` is their type. What a state
-- does with one of them is the interface `SubMachine` of module `State.SubConversations`.
pub record State (M : Type 0) : Type 0 where
  pub id : StateId
  pub is_final : Bool
  pub transitions : List Transition
  pub embedded_state_machines : List EmbeddedStateMachine
  pub sub_state_machines : List M
  pub substate_machine_proxied_transitions : List Transition

-- `State::State(const StateId&)`
unfoldable pub new_state : {M : Type 0} → StateId → State M
new_state id = record {
  id = id;
  is_final = false;
  transitions = [];
  embedded_state_machines = [];
  sub_state_machines = [];
  substate_machine_proxied_transitions = [];
}

-- `State::setFinal`, `State::setId`, `FinalState::FinalState` and `State::addEmbeddedStateMachine`
unfoldable pub set_final : {M : Type 0} → State M → Bool → State M
set_final s final = record s { is_final = final }

unfoldable pub set_id : {M : Type 0} → State M → StateId → State M
set_id s id = record s { id = id }

unfoldable pub final_state : {M : Type 0} → StateId → State M
unfolding new_state set_final
final_state id = set_final (new_state id) true

unfoldable pub add_embedded_state_machine : {M : Type 0} → State M → EmbeddedStateMachine → State M
add_embedded_state_machine s e = record s {
  embedded_state_machines = s.embedded_state_machines ++ e ∷ [];
}

-- `State::isDefaultState`
unfoldable pub is_default_state : {M : Type 0} → State M → Bool
is_default_state s =
    any_of (λ id. id == s.id)
      (not_understood_id ∷ conversation_cancelling_id ∷ conversation_cancel_success_id
        ∷ conversation_cancel_failure_id ∷ undefined_id ∷ general_failure_id ∷ [])

pub not_understood_both : StateId → Role → Role → List Transition
not_understood_both id one other =
    not_understood_transition one other id ∷ not_understood_transition other one id ∷ []

pub cancelling_both : StateId → Role → Role → List Transition
cancelling_both id one other =
    conversation_cancelling_transition one other id
    ∷ conversation_cancelling_transition other one id
    ∷ []

pub find_transition : Transition → List Transition → Option Transition
find_transition t [] = none
find_transition t (other ∷ ts) = if transition_beq other t then some other else find_transition t ts

module _ {M : Type 0} where
  -- `State::addTransition`
  unfoldable pub add_transition : State M → Transition → State M × Transition
  unfolding find_transition
  add_transition s t = elim (find_transition t s.transitions) [
    | none ↦ (
      record s { transitions = s.transitions ++ (record t { source_state_id = s.id }) ∷ [] },
      record t { source_state_id = s.id },
    )
    | some known ↦ (s, known)
  ]

  -- Transitions added one after the other.
  unfoldable pub add_transitions : State M → List Transition → State M
  add_transitions s [] = s
  add_transitions s (t ∷ ts) = add_transitions (add_transition s t).0 ts

  -- `default_state::ConversationCancelling::ConversationCancelling`
  unfoldable pub conversation_cancelling_state : State M
  unfolding add_transitions new_state
  conversation_cancelling_state =
      add_transitions (new_state conversation_cancelling_id)
        (cancel_success_transition ∷ cancel_failure_transition ∷ [])

  -- The second loop of `generateDefaultTransitions`: the state machines that proxy.
  proxy_defaults : State M → List EmbeddedStateMachine → State M
  unfolding add_transitions not_understood_both cancelling_both
  proxy_defaults s [] = s
  proxy_defaults s (e ∷ es) =
      proxy_defaults
        (if is_empty e.proxied_to
          then s
          else add_transitions s (
              not_understood_both s.id e.from_role e.proxied_to_role
              ++ cancelling_both s.id e.from_role e.proxied_to_role
              ++ general_failure_transition s.id ∷ []))
        es

  module _ (regex_match : RegexMatch) where
    -- The body of the first loop of `generateDefaultTransitions`; `continue` ends it.
    defaults_for : State M → Transition → Outcome (State M) (Unit {0})
    unfolding add_transitions not_understood_both cancelling_both
    defaults_for s t =
        attempt (regex_match (performative_txt not_understood) t.performative_reg_exp) s λ matched.
          if matched
          then (s, ok tt)
          else (let s1 =
                add_transitions s (not_understood_both s.id t.sender_role t.receiver_role) in
              attempt (regex_match (performative_txt cancel) t.performative_reg_exp) s1 λ matched.
                if matched
                then (s1, ok tt)
                else (let s2 =
                      add_transitions s1 (cancelling_both s.id t.sender_role t.receiver_role) in
                    attempt (regex_match (performative_txt failure) t.performative_reg_exp) s2
                      λ matched.
                        if matched
                        then (s2, ok tt)
                        else (add_transitions s2 (general_failure_transition s.id ∷ []), ok tt)))

    pub all_defaults : State M → List Transition → Outcome (State M) (Unit {0})
    unfolding defaults_for
    all_defaults s [] = (s, ok tt)
    all_defaults s (t ∷ ts) = follow (defaults_for s t) λ s' _. all_defaults s' ts

    -- `State::generateDefaultTransitions`. The first loop runs over a copy of the transitions.
    unfoldable pub generate_default_transitions : State M → Outcome (State M) (Unit {0})
    unfolding all_defaults proxy_defaults
    generate_default_transitions s =
        let generate =
          follow (all_defaults s s.transitions)
            λ s' _. (proxy_defaults s' s'.embedded_state_machines, ok tt) in
        if s.is_final
        then (if is_empty s.embedded_state_machines then (s, ok tt) else generate)
        else if is_empty s.transitions
        then (s, err runtime_error)
        else generate
