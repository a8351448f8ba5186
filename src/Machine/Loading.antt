-- ===== src/Machine/Loading.antt =====
-- What `StateMachineReader::loadSpecification` (statemachine_reader.cpp) does with the state
-- machine that it has parsed: default transitions, default states, roles, validation, reset; with
-- the methods of statemachine.cpp that it calls.
pub mod Known
pub mod Prepared
pub mod Loaded
use multiagent_fipa_acl.Base.{
  if◌then◌else◌, nat_eq, Text, text_eq, is_runtime_error, Result, Outcome, attempt, follow, catch,
  within, runtime_error, aborted, ok, err, Bool, true, false, not, List, [], ◌∷◌,
}
use multiagent_fipa_acl.Base.Maps.{Map, has}
use multiagent_fipa_acl.Role.{RoleMapping, RegexMatch, add_role}
use multiagent_fipa_acl.Transition.{
  StateId, Transition, not_understood_id, conversation_cancel_success_id,
  conversation_cancel_failure_id, general_failure_id,
}
use multiagent_fipa_acl.State.{State, final_state, conversation_cancelling_state}
use multiagent_fipa_acl.State
use multiagent_fipa_acl.Machine.{StateMachine, add_state, set_protocol, reset}

-- `StateMachine::updateRoles`, on the mapping: for each transition of each state
roles_of_transitions : RoleMapping → List Transition → RoleMapping
roles_of_transitions roles [] = roles
roles_of_transitions roles (t ∷ ts) =
    roles_of_transitions (add_role (add_role roles t.sender_role) t.receiver_role) ts

pub roles_of_states : {M : Type 0} → RoleMapping → Map StateId (State M) → RoleMapping
unfolding roles_of_transitions
roles_of_states roles [] = roles
roles_of_states roles ((id, s) ∷ states) =
    roles_of_states (roles_of_transitions roles s.transitions) states

unfoldable pub update_roles : {M : Type 0} → StateMachine M → StateMachine M
unfolding roles_of_states
update_roles sm = record sm { role_mapping = roles_of_states sm.role_mapping sm.states }

-- `StateMachine::validate`: the ids that the transitions refer to (the source keeps them in a
-- `std::set`; only whether one is missing shows).
all_referenced_known : {M : Type 0} → Map StateId (State M) → List Transition → Bool
all_referenced_known states [] = true
all_referenced_known states (t ∷ ts) =
    if not (has t.target_state_id states)
    then false
    else if not (has t.source_state_id states)
    then false
    else all_referenced_known states ts

pub all_states_closed : {M : Type 0} → Map StateId (State M) → Map StateId (State M) → Bool
unfolding all_referenced_known
all_states_closed states [] = true
all_states_closed states ((id, s) ∷ rest) =
    if not (all_referenced_known states s.transitions) then false else all_states_closed states rest

unfoldable pub validate : {M : Type 0} → StateMachine M → Result (Unit {0})
unfolding all_states_closed
validate sm = if all_states_closed sm.states sm.states then ok tt else err runtime_error

-- `StateMachine::generateDefaultTransitions`: an entry is left as its state's method leaves it.
entry_done :
    {M : Type 0}
    → StateId
    → Map StateId (State M)
    → Outcome (State M) (Unit {0})
    → Outcome (Map StateId (State M)) (Unit {0})
    → Outcome (Map StateId (State M)) (Unit {0})
entry_done id states (s, ok _) rest = within (λ states'. (id, s) ∷ states') rest
entry_done id states (s, err e) rest = ((id, s) ∷ states, err e)

module _ {M : Type 0} where
  module _ (regex_match : RegexMatch) where
    pub default_transitions_of : Map StateId (State M) → Outcome (Map StateId (State M)) (Unit {0})
    unfolding entry_done
    default_transitions_of [] = ([], ok tt)
    default_transitions_of ((id, s) ∷ states) =
        entry_done id states (State.generate_default_transitions regex_match s)
          (default_transitions_of states)

    unfoldable pub generate_default_transitions :
        StateMachine M → Outcome (StateMachine M) (Unit {0})
    unfolding default_transitions_of
    generate_default_transitions sm =
        within (λ states. record sm { states = states }) (default_transitions_of sm.states)

  -- `StateMachine::generateDefaultStates`: a state that is there already ends in `assert(false)`.
  unfoldable pub generate_default_states : StateMachine M → Outcome (StateMachine M) (Unit {0})
  generate_default_states sm =
      catch is_runtime_error
        (follow (add_state sm (final_state not_understood_id)) λ sm _.
          follow (add_state sm conversation_cancelling_state) λ sm _.
            follow (add_state sm (final_state conversation_cancel_success_id)) λ sm _.
              follow (add_state sm (final_state conversation_cancel_failure_id))
                λ sm _. add_state sm (final_state general_failure_id))
        λ sm. (sm, err aborted)

  -- `StateMachineReader::loadSpecification`, from the parsed state machine on.
  unfoldable pub load_specification :
      RegexMatch → StateMachine M → Text → Outcome (StateMachine M) (Unit {0})
  load_specification regex_match parsed protocol =
      follow (generate_default_transitions regex_match (set_protocol parsed protocol)) λ sm _.
        follow (generate_default_states sm) λ sm _.
          attempt (validate (update_roles sm)) (update_roles sm)
            λ _. (reset (update_roles sm), ok tt)
