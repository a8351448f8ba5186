-- ===== src/Conversation/Update/Identity.antt =====
-- `update` keeps the id of a conversation that gets its own messages.
use multiagent_fipa_acl.Base.{
  if◌then◌else◌, nat_eq, text_eq, is_empty, Result, Outcome, attempt, follow, within, runtime_error,
  ok, err, ◌≡◌, refl, Bool, true, false,
}
use multiagent_fipa_acl.Agent.{AgentId, new_agent_id}
use multiagent_fipa_acl.Message.{AclMessage}
use multiagent_fipa_acl.Machine.{StateMachine, set_self}
use multiagent_fipa_acl.Conversation.{Conversation, Observers}
use multiagent_fipa_acl.Conversation.Update.{Environment, initialise, update}
use multiagent_fipa_acl.Conversation.Update.Keeps.{update-keeps}

module _ {M : Type 0} (env : Environment M) where
  initialise-id :
      (c : Conversation M) (m : AclMessage)
      → c.conversation_id ≡ m.conversation_id
      → (initialise env c m).0.conversation_id ≡ m.conversation_id
  unfolding initialise
  initialise-id c m h =
      by_protocol (is_empty m.protocol) (env.get_state_machine m.protocol) (new_agent_id c.owner)
    where
      with_self :
          (out : Outcome (StateMachine M) (Unit {0}))
          → (follow (within (λ sm. record c { state_machine = sm }) out) λ c2 _. (
            record c2 {
              protocol = m.protocol;
              content_language = m.language;
              conversation_id = m.conversation_id;
            },
            ok tt,
          )).0.conversation_id
            ≡ m.conversation_id
      with_self (sm, ok _) = refl
      with_self (sm, err e) = h

      by_protocol :
          (b : Bool) (got : Result (StateMachine M)) (owner : Result AgentId)
          → (if b
              then (c, err runtime_error)
              else attempt got c λ machine.
                attempt owner
                  (record c { state_machine = machine })
                  λ self.
                    follow
                      (within (λ sm. record c { state_machine = sm }) (set_self machine self))
                      λ c2 _. (
                        record c2 {
                          protocol = m.protocol;
                          content_language = m.language;
                          conversation_id = m.conversation_id;
                        },
                        ok tt,
                      )).0.conversation_id
            ≡ m.conversation_id
      by_protocol true got owner = h
      by_protocol false (err e) owner = h
      by_protocol false (ok machine) (err e) = h
      by_protocol false (ok machine) (ok self) = with_self (set_self machine self)

  pub update-id :
      (c : Conversation M) (observers : Observers) (m : AclMessage)
      → c.conversation_id ≡ m.conversation_id
      → (update env c observers m).0.0.conversation_id ≡ m.conversation_id
  update-id c observers m h =
      update-keeps env (λ c. c.conversation_id ≡ m.conversation_id) (λ c messages status k. k) c
        observers m (λ e. initialise-id c m h) (λ c' k. k) h h
