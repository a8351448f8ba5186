-- ===== src/Conversation/Update/Sound.antt =====
-- The state machine of a conversation stays well formed, whatever messages arrive.
use multiagent_fipa_acl.Base.{
  if◌then◌else◌, nat_eq, Text, text_eq, is_empty, Result, Outcome, attempt, follow, within,
  runtime_error, ok, err, ◌≡◌, refl, sym, subst, inl, inr, Bool, true, false, List, [], ◌∷◌, arith,
}
use multiagent_fipa_acl.Agent.{AgentId, new_agent_id}
use multiagent_fipa_acl.Message.{AclMessage}
use multiagent_fipa_acl.Machine.{StateMachine, set_self, consume_message, consume_sub_message}
use multiagent_fipa_acl.Machine.WellFormed.{IsWellFormed}
use multiagent_fipa_acl.Machine.Consume.{consume_message_lem}
use multiagent_fipa_acl.Machine.Keeps.{set_self-IsWellFormed, consume_sub_message-IsWellFormed}
use multiagent_fipa_acl.Conversation.{Conversation, Observers}
use multiagent_fipa_acl.Conversation.Update.Keeps.{update-keeps}
use multiagent_fipa_acl.Conversation.Update.{Environment, initialise, update}

module _ {M : Type 0} where
  -- A conversation that has a protocol has a well-formed state machine.
  abbrev pub Sound : Conversation M → Type 0
  Sound c = is_empty c.protocol ≡ false → IsWellFormed c.state_machine

  -- The factory makes well-formed state machines.
  abbrev pub MakesWellFormed : Environment M → Type 0
  MakesWellFormed env =
      (protocol : Text) (sm : StateMachine M)
      → env.get_state_machine protocol ≡ ok sm
      → IsWellFormed sm

  -- The messages one after the other, each whether or not the one before was refused.
  pub updates :
      Environment M → Conversation M × Observers → List AclMessage → Conversation M × Observers
  updates env s [] = s
  updates env s (m ∷ ms) = updates env (update env s.0 s.1 m).0 ms

module _ {M : Type 0} (env : Environment M) where
  consumed-IsWellFormed :
      (sm : StateMachine M) (m : AclMessage)
      → IsWellFormed sm
      → IsWellFormed (consume_message env.regex_match sm m).0
  consumed-IsWellFormed sm m w = elim (consume_message_lem env.regex_match sm m w) [
    | inl (x, e) ↦
        subst (λ (out : Outcome (StateMachine M) (Unit {0})). IsWellFormed out.0) (sym e) w
    | inr (done, a) ↦ a.well_formed
  ]

  sub_consumed-IsWellFormed :
      (c : Conversation M) (m : AclMessage) (r : Result M)
      → IsWellFormed c.state_machine
      → IsWellFormed
          (attempt r c.state_machine λ machine.
            consume_sub_message env.sub env.regex_match c.state_machine m machine
              c.number_of_sub_conversations).0
  sub_consumed-IsWellFormed c m (err e) w = w
  sub_consumed-IsWellFormed c m (ok machine) w =
      consume_sub_message-IsWellFormed env.sub env.regex_match c.state_machine m machine
        c.number_of_sub_conversations w

  initialise-Sound :
      (c : Conversation M) (m : AclMessage)
      → MakesWellFormed env
      → is_empty c.protocol ≡ true
      → Sound (initialise env c m).0
  unfolding initialise
  initialise-Sound c m makes empty =
      by_protocol (is_empty m.protocol) (env.get_state_machine m.protocol) (makes m.protocol)
        (new_agent_id c.owner)
    where
      unset : {A : Type 0} → is_empty c.protocol ≡ false → A
      unset p = absurd (ground arith)

      with_self :
          (out : Outcome (StateMachine M) (Unit {0}))
          → IsWellFormed out.0
          → Sound
              (follow (within (λ sm. record c { state_machine = sm }) out) λ c2 _. (
                record c2 {
                  protocol = m.protocol;
                  content_language = m.language;
                  conversation_id = m.conversation_id;
                },
                ok tt,
              )).0
      with_self (sm, ok _) w p = w
      with_self (sm, err e) w p = w

      by_protocol :
          (b : Bool) (got : Result (StateMachine M))
          → ((sm : StateMachine M) → got ≡ ok sm → IsWellFormed sm)
          → (owner : Result AgentId)
          → Sound
              (if b
                then (c, err runtime_error)
                else attempt got c λ machine.
                  attempt owner
                    (record c { state_machine = machine })
                    λ self.
                      follow
                        (within (λ sm. record c { state_machine = sm }) (set_self machine self))
                        λ c2 _. (
                          record c2 {
                            protocol = m.protocol;
                            content_language = m.language;
                            conversation_id = m.conversation_id;
                          },
                          ok tt,
                        )).0
      by_protocol true got w owner = unset
      by_protocol false (err e) w owner = unset
      by_protocol false (ok machine) w (err e) = λ p. w machine refl
      by_protocol false (ok machine) w (ok self) =
          with_self (set_self machine self) (set_self-IsWellFormed machine self (w machine refl))

  -- Where the factory makes well-formed state machines, `update` keeps a conversation sound,
  -- whether or not it throws.
  update-Sound :
      (c : Conversation M) (observers : Observers) (m : AclMessage)
      → MakesWellFormed env
      → Sound c
      → Sound (update env c observers m).0.0
  update-Sound c observers m makes s =
      update-keeps env Sound (λ c messages status k. k) c observers m (initialise-Sound c m makes)
        (λ c' k p. consumed-IsWellFormed c'.state_machine m (k p))
        (λ p. sub_consumed-IsWellFormed c m (env.get_sub_state_machine m.protocol) (s p)) s

  -- Where the factory makes well-formed state machines, a conversation that starts without a
  -- protocol has, after any sequence of messages and however many of them were refused, no
  -- protocol or a well-formed state machine.
  pub updates-Sound :
      (c : Conversation M) (observers : Observers) (ms : List AclMessage)
      → MakesWellFormed env
      → is_empty c.protocol ≡ true
      → Sound (updates env (c, observers) ms).0
  unfolding updates
  updates-Sound c observers ms makes empty = go (c, observers) ms (λ p. absurd (ground arith))
    where
      go :
          (s : Conversation M × Observers) (ms : List AclMessage)
          → Sound s.0
          → Sound (updates env s ms).0
      go s [] k = k
      go s (m ∷ ms) k = go (update env s.0 s.1 m).0 ms (update-Sound s.0 s.1 m makes k)
