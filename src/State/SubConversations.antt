-- ===== src/State/SubConversations.antt =====
-- The part of conversation_monitor/state.cpp that is about sub-conversations: their messages, and
-- whether a state is finished.
pub mod Kept
use multiagent_fipa_acl.Base.{
  modify, leb, if◌then◌else◌, ◌==◌, nat_eq, Text, text_eq, is_empty, length, is_runtime_error,
  Result, ◌>>=◌, Outcome, attempt, follow, within, runtime_error, logic_error, ok, err, ℕ, suc,
  Bool, true, false, not, Option, none, some, List, [], ◌∷◌, ◌++◌,
}
use mathlib.Core.Option
use multiagent_fipa_acl.Base.Ints.{ℤ, to_size_t}
use multiagent_fipa_acl.Base.Maps.{find}
use multiagent_fipa_acl.Agent.{AgentId, contains_agent}
use multiagent_fipa_acl.Message.{AclMessage}
use multiagent_fipa_acl.Role.{RegexMatch, RoleMapping}
use multiagent_fipa_acl.State.{State, EmbeddedStateMachine}
use multiagent_fipa_acl.State.Messages.{awaits_reply}

-- What a state asks of the state machines of its sub-conversations (`StateMachine`).
pub record SubMachine (M : Type 0) : Type 0 where
  pub in_final_state : M → Result Bool
  pub in_failure_state : M → Bool
  pub consume_message : M → AclMessage → Outcome M (Unit {0})
  pub set_self : M → AgentId → Outcome M (Unit {0})

-- What one machine's `consumeMessage` means for the loop below. A machine that throws a
-- `std::runtime_error` is put back as it was.
after_try :
    {M : Type 0} → M → List M → Outcome M (Unit {0}) → Outcome (List M) Bool → Outcome (List M) Bool
after_try machine ms (machine', ok _) rest = (machine' ∷ ms, ok true)
after_try machine ms (machine', err e) rest =
    if is_runtime_error e then within (λ ms'. machine ∷ ms') rest else (machine' ∷ ms, err e)

record_start : Text → ℤ → EmbeddedStateMachine → EmbeddedStateMachine
record_start protocol amount e = record e {
  actual_protocol = protocol;
  number_of_sub_conversations = amount;
}

-- `catch(const std::runtime_error&)` that throws a `std::runtime_error` of its own.
rethrow : {S A : Type 0} → Outcome S A → Outcome S A
rethrow (s, ok a) = (s, ok a)
rethrow (s, err e) = (s, err (if is_runtime_error e then runtime_error else e))

-- A machine that took its first message is kept; otherwise the copy is dropped.
keep_started :
    {M : Type 0}
    → State M
    → AclMessage
    → ℕ
    → ℤ
    → Outcome M (Unit {0})
    → Outcome (State M) (Unit {0})
unfolding record_start
keep_started s m position amount (machine, err e) = (s, err e)
keep_started s m position amount (machine, ok _) = (
  record s {
    sub_state_machines = s.sub_state_machines ++ machine ∷ [];
    embedded_state_machines =
        modify position (record_start m.protocol amount) s.embedded_state_machines;
  },
  ok tt,
)

module _ {M : Type 0} (sub : SubMachine M) where
  -- `inFinalState() || inFailureState()`
  sub_ended : M → Result Bool
  sub_ended machine = do
    final ← sub.in_final_state machine
    ok (if final then true else sub.in_failure_state machine)

  -- The loop over the sub state machines that have not ended: true if one of them took the
  -- message.
  try_sub_machines : List M → AclMessage → Outcome (List M) Bool
  unfolding sub_ended after_try
  try_sub_machines [] m = ([], ok false)
  try_sub_machines (machine ∷ ms) m =
      let rest = try_sub_machines ms m in
      attempt (sub_ended machine) (machine ∷ ms) λ ended.
        if ended
        then within (λ ms'. machine ∷ ms') rest
        else after_try machine ms (sub.consume_message machine m) rest

  -- The subprotocols of a state are finished.
  all_ended : List M → Result Bool
  all_ended [] = ok true
  all_ended (machine ∷ ms) =
      let rest = all_ended ms in
      (sub.in_final_state machine >>= λ final.
      if final then rest else if sub.in_failure_state machine then rest else ok false)

  all_embedded_done : ℕ → List EmbeddedStateMachine → Bool
  all_embedded_done subs [] = true
  all_embedded_done subs (e ∷ es) =
      if not (to_size_t e.number_of_sub_conversations == subs)
      then false
      else if awaits_reply e
      then false
      else all_embedded_done subs es

  -- `State::isFinished`
  unfoldable pub is_finished : State M → Result Bool
  unfolding all_ended all_embedded_done
  is_finished s =
      if not s.is_final
      then ok false
      else (all_ended s.sub_state_machines >>= λ ended.
          if ended
          then ok (all_embedded_done (length s.sub_state_machines) s.embedded_state_machines)
          else ok false)

  module _ (regex_match : RegexMatch) where
    -- The search for an embedded state machine that fits: the position of the first one whose name
    -- matches the protocol, in whose role the sender stands, and with room for one more
    -- conversation. `at` throws a `std::out_of_range` on an unknown role.
    find_embedded : List EmbeddedStateMachine → AclMessage → RoleMapping → ℕ → ℤ → Result (Option ℕ)
    find_embedded [] m roles subs amount = ok none
    find_embedded (e ∷ es) m roles subs amount =
        let rest = find_embedded es m roles subs amount >>= λ found. ok (Option.map suc found) in
        (regex_match m.protocol e.name >>= λ matched.
        if matched
        then elim (find e.from_role roles.expected_agent_mapping) [
          | none ↦ err logic_error
          | some agents ↦
              if not (contains_agent agents m.sender)
              then rest
              else if leb (to_size_t amount) subs
              then rest
              else ok (some 0)
        ]
        else rest)

    -- The end of `consumeSubStateMachineMessage`: a copy of the given state machine starts.
    start_sub_machine : State M → AclMessage → M → ℕ → ℤ → Outcome (State M) (Unit {0})
    unfolding rethrow keep_started
    start_sub_machine s m machine position amount =
        if is_empty m.protocol
        then (s, err runtime_error)
        else keep_started s m position amount (
            follow (sub.set_self machine m.sender)
              λ machine' _. rethrow (sub.consume_message machine' m))

    -- `State::consumeSubStateMachineMessage`
    unfoldable pub consume_sub_state_machine_message :
        State M → AclMessage → M → RoleMapping → ℤ → Outcome (State M) (Unit {0})
    unfolding try_sub_machines find_embedded start_sub_machine
    consume_sub_state_machine_message s m machine roles amount =
        follow
          (within (λ ms. record s { sub_state_machines = ms })
            (try_sub_machines s.sub_state_machines m))
          λ s' taken.
            if taken
            then (s', ok tt)
            else attempt
                (find_embedded s'.embedded_state_machines m roles (length s'.sub_state_machines)
                  amount)
                s'
                λ found. elim found [
                  | none ↦ (s', err runtime_error)
                  | some position ↦ start_sub_machine s' m machine position amount
                ]
