-- ===== src/State/Messages.antt =====
-- The part of conversation_monitor/state.cpp that finds the transition which a message triggers.
pub mod Found
use multiagent_fipa_acl.Base.{
  modify, if◌then◌else◌, ◌==◌, nat_eq, text_eq, codes, is_empty, Result, ◌>>=◌, Outcome, attempt,
  runtime_error, ok, err, ℕ, suc, ◌+◌, ◌*◌, Bool, true, not, ◌&&◌, List, [], ◌∷◌, ◌++◌,
}
use multiagent_fipa_acl.Message.{AclMessage}
use multiagent_fipa_acl.Role.{RegexMatch, RoleMapping}
use multiagent_fipa_acl.Transition.{Transition, triggers}
use multiagent_fipa_acl.State.{State, EmbeddedStateMachine}

-- `MessageArchive`: the messages, oldest first.
abbrev pub MessageArchive : Type 0
MessageArchive = List AclMessage

-- `it0->actualProtocol != "inform"`, and the whole test for a reply that is still to be forwarded
abbrev pub awaits_reply : EmbeddedStateMachine → Bool
awaits_reply e =
    not (is_empty e.proxied_to)
    && not (e.actual_protocol == codes "inform")
    && not e.received_proxied_reply

-- The transition that `getSubstateMachineProxiedTransition` makes up for a proxy.
unfoldable pub proxied_transition : {M : Type 0} → State M → EmbeddedStateMachine → Transition
proxied_transition s e = record {
  sender_role = e.from_role;
  receiver_role = e.proxied_to_role;
  performative_reg_exp = codes ".*";
  source_state_id = s.id;
  target_state_id = s.id;
}

unfoldable pub mark_replied : EmbeddedStateMachine → EmbeddedStateMachine
mark_replied e = record e { received_proxied_reply = true }

module _ (regex_match : RegexMatch) where
  find_initiating : List Transition → AclMessage → Result Transition
  find_initiating [] m = err runtime_error
  find_initiating (t ∷ ts) m = do
    matched ← regex_match m.performative t.performative_reg_exp
    let rest = find_initiating ts m
    if matched then ok t else rest

  find_triggered : List Transition → AclMessage → AclMessage → RoleMapping → Result Transition
  find_triggered [] m initiating roles = err runtime_error
  find_triggered (t ∷ ts) m initiating roles = do
    triggered ← triggers regex_match t m initiating roles
    let rest = find_triggered ts m initiating roles
    if triggered then ok t else rest

  module _ {M : Type 0} where
    -- `State::getTransition`
    unfoldable pub get_transition :
        State M → AclMessage → MessageArchive → RoleMapping → Result Transition
    unfolding find_initiating find_triggered
    get_transition s m [] roles = find_initiating s.transitions m
    get_transition s m (initiating ∷ _) roles = find_triggered s.transitions m initiating roles

    -- The loop of `getSubstateMachineProxiedTransition`: the position of the proxy whose reply the message is.
    find_proxy :
        State M
        → List EmbeddedStateMachine
        → AclMessage
        → AclMessage
        → RoleMapping
        → Result (ℕ × Transition)
    unfolding proxied_transition
    find_proxy s [] m initiating roles = err runtime_error
    find_proxy s (e ∷ es) m initiating roles =
        let rest = find_proxy s es m initiating roles >>= λ found. ok (suc found.0, found.1) in
        if awaits_reply e
        then (triggers regex_match (proxied_transition s e) m initiating roles >>= λ triggered.
            if triggered then ok (0, proxied_transition s e) else rest)
        else rest

    -- `State::getSubstateMachineProxiedTransition`
    unfoldable pub get_substate_machine_proxied_transition :
        State M → AclMessage → MessageArchive → RoleMapping → Outcome (State M) Transition
    unfolding find_proxy
    get_substate_machine_proxied_transition s m [] roles = (s, err runtime_error)
    get_substate_machine_proxied_transition s m (initiating ∷ _) roles =
        attempt (find_proxy s s.embedded_state_machines m initiating roles) s λ found. (
          record s {
            embedded_state_machines = modify found.0 mark_replied s.embedded_state_machines;
            substate_machine_proxied_transitions =
                s.substate_machine_proxied_transitions ++ found.1 ∷ [];
          },
          ok found.1,
        )
