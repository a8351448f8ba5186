-- ===== src/Conversation/Update/Keeps.antt =====
-- What `update` keeps of a conversation, whether or not it throws: it is enough to look at the
-- steps that change more than the archive and the status.
use multiagent_fipa_acl.Base.{
  if◌then◌else◌, ◌==◌, nat_eq, text_eq, is_empty, Result, Outcome, attempt, follow, within, ok, err,
  ◌≡◌, refl, sym, subst, Bool, true, false, not, List, [], ◌∷◌, ◌++◌,
}
use multiagent_fipa_acl.Message.{AclMessage}
use multiagent_fipa_acl.Machine.{StateMachine, consume_message, consume_sub_message}
use multiagent_fipa_acl.Conversation.{
  Conversation, Observers, EventType, Status, notify_all, notify, status_after, notify_each,
  event_of,
}
use multiagent_fipa_acl.Conversation.Update.{
  Environment, translated, initialise, consume, consume_sub, update,
}

-- A property of the object holds after two steps if each keeps it, thrown or not.
follow_keeps :
    {S A B : Type 0} (P : S → Type 0) (out : Outcome S A) (next : S → A → Outcome S B)
    → P out.0
    → ((s : S) (a : A) → P s → P (next s a).0)
    → P (follow out next).0
follow_keeps P (s, ok a) next p q = q s a p
follow_keeps P (s, err e) next p q = p

translated_same : {S A : Type 0} (out : Outcome S A) → (translated out).0 ≡ out.0
translated_same (s, ok a) = refl
translated_same (s, err e) = refl

module _ {M : Type 0} (env : Environment M) (P : Conversation M → Type 0)
    (stable : (c : Conversation M) (messages : List AclMessage) (status : Status)
      → P c
      → P (record c { messages = messages; status = status })) where
  notify_all-keeps :
      (c : Conversation M) (observers : Observers) (m : AclMessage) (new : Bool)
      → P c
      → P (notify_all env.sub env.now c observers m new).0.0
  unfolding notify_all notify
  notify_all-keeps c observers m new p =
      by_kind (event_of env.sub (record c { messages = c.messages ++ m ∷ [] }) new)
    where
      archived : Conversation M
      archived = record c { messages = c.messages ++ m ∷ [] }

      by_status :
          (told : Observers) (r : Result Status)
          → P
              (attempt {S = Conversation M × Observers} r
                (archived, told)
                λ status. ((record archived { status = status }, told), ok tt)).0.0
      by_status told (ok status) = stable c (c.messages ++ m ∷ []) status p
      by_status told (err e) = stable c (c.messages ++ m ∷ []) c.status p

      by_kind :
          (r : Result EventType)
          → P
              (attempt {S = Conversation M × Observers} r
                (archived, observers)
                λ kind. notify env.now archived observers m kind).0.0
      by_kind (err e) = stable c (c.messages ++ m ∷ []) c.status p
      by_kind (ok kind) =
          by_status (notify_each env.now m kind observers c.observers) (status_after kind c.status)

  -- The end of both kinds of update.
  taken-keeps :
      (c : Conversation M) (observers : Observers) (m : AclMessage) (new : Bool)
      (out : Outcome (StateMachine M) (Unit {0}))
      → P (record c { state_machine = out.0 })
      → P
          (follow
            (within (λ sm. (record c { state_machine = sm }, observers)) (translated out))
            λ s _. notify_all env.sub env.now s.0 s.1 m new).0.0
  taken-keeps c observers m new out p =
      follow_keeps (λ (s : Conversation M × Observers). P s.0)
        (within (λ sm. (record c { state_machine = sm }, observers)) (translated out))
        (λ s _. notify_all env.sub env.now s.0 s.1 m new)
        (subst (λ sm. P (record c { state_machine = sm })) (sym (translated_same out)) p)
        (λ s _ q. notify_all-keeps s.0 s.1 m new q)

  pub update-keeps :
      (c : Conversation M) (observers : Observers) (m : AclMessage)
      → (is_empty c.protocol ≡ true → P (initialise env c m).0)
      → ((c' : Conversation M)
          → P c'
          → P (record c' {
            state_machine = (consume_message env.regex_match c'.state_machine m).0;
          }))
      → P (record c {
        state_machine =
            (attempt (env.get_sub_state_machine m.protocol) c.state_machine λ machine.
              consume_sub_message env.sub env.regex_match c.state_machine m machine
                c.number_of_sub_conversations).0;
      })
      → P c
      → P (update env c observers m).0.0
  unfolding update consume consume_sub
  update-keeps c observers m initialised consumed consumed_sub p =
      by_tests (is_empty c.protocol) refl (not (c.protocol == m.protocol))
    where
      by_tests :
          (first : Bool)
          → is_empty c.protocol ≡ first
          → (other : Bool)
          → P
              (if first
                then (follow
                    (within (λ c'. (c', observers)) (initialise env c m))
                    λ s _. consume env s.0 s.1 m true)
                else if other
                then consume_sub env c observers m
                else consume env c observers m false).0.0
      by_tests false e true = taken-keeps c observers m false _ consumed_sub
      by_tests false e false =
          taken-keeps c observers m false (consume_message env.regex_match c.state_machine m)
            (consumed c p)
      by_tests true e other =
          follow_keeps (λ (s : Conversation M × Observers). P s.0)
            (within (λ c'. (c', observers)) (initialise env c m))
            (λ s _. consume env s.0 s.1 m true) (initialised e)
            (λ s _ q.
              taken-keeps s.0 s.1 m true (consume_message env.regex_match s.0.state_machine m)
                (consumed s.0 q))
