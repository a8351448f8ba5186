-- ===== src/Conversation/Update/Outcomes.antt =====
-- What `Conversation::update` promises, on every path.
use multiagent_fipa_acl.Base.{
  if◌then◌else◌, ◌==◌, nat_eq, text_eq, is_empty, Error, is_runtime_error, Result, Outcome, attempt,
  follow, within, runtime_error, ok, err, ◌≡◌, refl, ◌∙◌, ◌≢◌, ◌⊎◌, inl, inr, Bool, true, false,
  not, arith,
}
use multiagent_fipa_acl.Message.{AclMessage}
use multiagent_fipa_acl.Agent.{AgentId, new_agent_id}
use multiagent_fipa_acl.Machine.{StateMachine, set_self, consume_message, consume_sub_message}
use multiagent_fipa_acl.Conversation.{Conversation, Observers, notify_all}
use multiagent_fipa_acl.Conversation.Observed.{Notified, Distinct, notify_all-Notified}
use multiagent_fipa_acl.Conversation.Update.{
  Environment, translated, initialise, consume, consume_sub, update,
}

module _ {M : Type 0} where
  -- Archive, status and observers are as they were.
  pub record Kept (c c' : Conversation M) : Type 0 where
    pub messages : c'.messages ≡ c.messages
    pub status : c'.status ≡ c.status
    pub observers : c'.observers ≡ c.observers

  -- Either something was thrown, and if that was a `std::runtime_error` then the archive, the
  -- status and what observers saw are as before; or observers were notified.
  abbrev pub UpdateResult :
      Environment M
      → Conversation M
      → Observers
      → AclMessage
      → Bool
      → Outcome (Conversation M × Observers) (Unit {0})
      → Type 0
  UpdateResult env c observers m new out =
      ((e : Error) × (out.1 ≡ err e)
        × (is_runtime_error e ≡ true → Kept c out.0.0 × (out.0.1 ≡ observers)))
      ⊎ ((out.1 ≡ ok tt)
          × (mid : Conversation M) × Kept c mid
          × Notified env.sub env.now mid out.0.0 observers out.0.1 m new)

module _ {M : Type 0} (env : Environment M) where
  after_machine :
      (c : Conversation M) (observers : Observers) (m : AclMessage) (new : Bool)
      (out : Outcome (StateMachine M) (Unit {0}))
      → Distinct c.observers
      → UpdateResult env c observers m new (
          follow
            (within (λ sm. (record c { state_machine = sm }, observers)) out)
            λ s _. notify_all env.sub env.now s.0 s.1 m new)
  after_machine c observers m new (sm, err e) d =
      inl (e, refl, λ _. (record { messages = refl; status = refl; observers = refl }, refl))
  after_machine c observers m new (sm, ok _) d =
      elim (notify_all-Notified env.sub env.now (record c { state_machine = sm }) observers m new
        d) [
          | inl (e, thrown, other) ↦ inl (e, thrown, λ h. absurd (ground arith))
          | inr (done, n) ↦ inr (
            done,
            record c { state_machine = sm },
            record { messages = refl; status = refl; observers = refl },
            n,
          )
        ]

  consume-UpdateResult :
      (c : Conversation M) (observers : Observers) (m : AclMessage) (new : Bool)
      → Distinct c.observers
      → UpdateResult env c observers m new (consume env c observers m new)
  unfolding consume
  consume-UpdateResult c observers m new d =
      after_machine c observers m new
        (translated (consume_message env.regex_match c.state_machine m)) d

  consume_sub-UpdateResult :
      (c : Conversation M) (observers : Observers) (m : AclMessage)
      → Distinct c.observers
      → UpdateResult env c observers m false (consume_sub env c observers m)
  unfolding consume_sub
  consume_sub-UpdateResult c observers m d =
      after_machine c observers m false
        (translated (
          attempt (env.get_sub_state_machine m.protocol) c.state_machine λ machine.
            consume_sub_message env.sub env.regex_match c.state_machine m machine
              c.number_of_sub_conversations))
        d

  -- What `initialise` leaves alone, and what it sets if it returns.
  abbrev Initialised : Conversation M → AclMessage → Outcome (Conversation M) (Unit {0}) → Type 0
  Initialised c m out =
      Kept c out.0
      × (out.1 ≡ ok tt → (is_empty m.protocol ≡ false) × (out.0.protocol ≡ m.protocol))
      × (out.1 ≢ ok tt → out.0.protocol ≡ c.protocol)

  threw :
      (c c' : Conversation M) (m : AclMessage) (e : Error)
      → Kept c c'
      → c'.protocol ≡ c.protocol
      → Initialised c m (c', err e)
  threw c c' m e k p = (k, (λ h. absurd (ground arith)), λ h. p)

  with_machine :
      (c : Conversation M) (m : AclMessage) (out : Outcome (StateMachine M) (Unit {0}))
      → is_empty m.protocol ≡ false
      → Initialised c m (
          follow (within (λ sm. record c { state_machine = sm }) out) λ c2 _. (
            record c2 {
              protocol = m.protocol;
              content_language = m.language;
              conversation_id = m.conversation_id;
            },
            ok tt,
          ))
  with_machine c m (sm, err e) p =
      threw c (record c { state_machine = sm }) m e
        (record { messages = refl; status = refl; observers = refl }) refl
  with_machine c m (sm, ok _) p = (
    record { messages = refl; status = refl; observers = refl },
    (λ h. (p, refl)),
    λ h. absurd (h refl),
  )

  initialise-Initialised :
      (c : Conversation M) (m : AclMessage) → Initialised c m (initialise env c m)
  unfolding initialise
  initialise-Initialised c m =
      by_protocol (is_empty m.protocol) refl (env.get_state_machine m.protocol)
        (new_agent_id c.owner)
    where
      same : Kept c c
      same = record { messages = refl; status = refl; observers = refl }

      by_protocol :
          (b : Bool)
          → is_empty m.protocol ≡ b
          → (got : Result (StateMachine M)) (owner : Result AgentId)
          → Initialised c m (
              if b
              then (c, err runtime_error)
              else attempt got c λ machine.
                attempt owner
                  (record c { state_machine = machine })
                  λ self.
                    follow
                      (within (λ sm. record c { state_machine = sm }) (set_self machine self))
                      λ c2 _. (
                        record c2 {
                          protocol = m.protocol;
                          content_language = m.language;
                          conversation_id = m.conversation_id;
                        },
                        ok tt,
                      ))
      by_protocol true p got owner = threw c c m runtime_error same refl
      by_protocol false p (err e) owner = threw c c m e same refl
      by_protocol false p (ok machine) (err e) =
          threw c (record c { state_machine = machine }) m e
            (record { messages = refl; status = refl; observers = refl }) refl
      by_protocol false p (ok machine) (ok self) = with_machine c m (set_self machine self) p

  after_initialise :
      (c : Conversation M) (observers : Observers) (m : AclMessage)
      (out : Outcome (Conversation M) (Unit {0}))
      → Distinct c.observers
      → Initialised c m out
      → UpdateResult env c observers m true
          (follow (within (λ c'. (c', observers)) out) λ s _. consume env s.0 s.1 m true)
  after_initialise c observers m (c', err e) d i = inl (e, refl, λ _. (i.0, refl))
  after_initialise c observers m (c', ok _) d i =
      let k = i.0 in
      elim (consume-UpdateResult c' observers m true (rw k.observers d)) [
        | inl (e, h, same) ↦ inl (e, h, λ r. let (k', o) = same r in (trans k k', o))
        | inr (h, mid, k', n) ↦ inr (h, mid, trans k k', n)
      ]
    where
      trans : {a b : Conversation M} → Kept c a → Kept a b → Kept c b
      trans f g = record {
        messages = g.messages ∙ f.messages;
        status = g.status ∙ f.status;
        observers = g.observers ∙ f.observers;
      }

  -- `update` of a conversation, its first message and a message of another protocol included:
  -- either it throws, and where that is a `std::runtime_error` the archive, the status, the list
  -- of observers and what observers saw are as before; or it returns, with the message archived,
  -- one event of the right kind for each observer and the status of that event. The message is
  -- new exactly where the conversation had no protocol.
  pub update-UpdateResult :
      (c : Conversation M) (observers : Observers) (m : AclMessage)
      → Distinct c.observers
      → UpdateResult env c observers m (is_empty c.protocol) (update env c observers m)
  unfolding update
  update-UpdateResult c observers m d =
      by_test (is_empty c.protocol) (not (c.protocol == m.protocol))
    where
      by_test :
          (first other : Bool)
          → UpdateResult env c observers m first (
              if first
              then (follow
                  (within (λ c'. (c', observers)) (initialise env c m))
                  λ s _. consume env s.0 s.1 m true)
              else if other
              then consume_sub env c observers m
              else consume env c observers m false)
      by_test true other =
          after_initialise c observers m (initialise env c m) d (initialise-Initialised c m)
      by_test false true = consume_sub-UpdateResult c observers m d
      by_test false false = consume-UpdateResult c observers m false d
