-- ===== src/Machine/Keeps.antt =====
-- `StateMachine::setSelf` and `StateMachine::consumeSubStateMachineMessage` on a well-formed
-- machine.
use multiagent_fipa_acl.Base.{nat_eq, text_eq, All, All-mono, refl, sym, ◌∙◌, subst}
use multiagent_fipa_acl.Agent.{AgentId}
use multiagent_fipa_acl.Message.{AclMessage}
use multiagent_fipa_acl.Role
use multiagent_fipa_acl.Role.{Role, RegexMatch}
use multiagent_fipa_acl.Role.Expected.{set_self-has_role}
use multiagent_fipa_acl.State.SubConversations.{SubMachine, consume_sub_state_machine_message}
use multiagent_fipa_acl.State.SubConversations.Kept.{consume_sub_state_machine_message-SameShape}
use multiagent_fipa_acl.Machine.{ℤ, StateMachine, set_self, consume_sub_message}
use multiagent_fipa_acl.Machine.WellFormed.{
  TransitionOk, IsWellFormed, EntryOk, ProxyOk, current_state,
}
use multiagent_fipa_acl.Machine.Moved.{EntryOk-transfer, replace_state}

module _ {M : Type 0} where
  pub set_self-IsWellFormed :
      (sm : StateMachine M) (a : AgentId) → IsWellFormed sm → IsWellFormed (set_self sm a).0
  unfolding set_self
  set_self-IsWellFormed sm a w =
      let roles' = (Role.set_self sm.role_mapping a).0 in
      record {
        current = w.current;
        named = w.named;
        entries =
            All-mono (EntryOk sm.states sm.role_mapping) (EntryOk sm.states roles') sm.states
              (EntryOk-transfer sm.states sm.states sm.role_mapping roles' (λ id. refl)
                (set_self-has_role sm.role_mapping a))
              w.entries;
      }

  -- Whether or not it throws, a message of a sub-conversation keeps the machine well formed.
  pub consume_sub_message-IsWellFormed :
      (sub : SubMachine M) (regex_match : RegexMatch) (sm : StateMachine M) (m : AclMessage)
      (machine : M) (amount : ℤ)
      → IsWellFormed sm
      → IsWellFormed (consume_sub_message sub regex_match sm m machine amount).0
  unfolding consume_sub_message
  consume_sub_message-IsWellFormed sub regex_match sm m machine amount w =
      let (s, here, now, o) = current_state sm w in
      let s' =
        (consume_sub_state_machine_message sub regex_match s m machine sm.role_mapping amount).0 in
      let same =
        consume_sub_state_machine_message-SameShape sub regex_match s m machine sm.role_mapping
          amount in
      rw now (
        replace_state sm s s' w (
          same.id ∙ o.0,
          subst (All (TransitionOk sm.states sm.role_mapping sm.current_state_id))
              (sym same.transitions) o.1,
          same.proxies (ProxyOk sm.role_mapping) (λ e p a k. k) o.2,
        ))
