-- ===== src/Conversation/Update/Started.antt =====
-- When observers are told that a conversation starts.
use multiagent_fipa_acl.Base.{
  if◌then◌else◌, nat_eq, text_eq, is_empty, count, count-append, ok, ℕ, ◌≡◌, refl, ap, ◌∙◌, subst,
  inl, inr, Bool, true, false, [], ◌∷◌, arith,
}
use multiagent_fipa_acl.Message.{AclMessage}
use multiagent_fipa_acl.Conversation.{
  Conversation, Observers, Observer, Event, EventType, unknown, start_of_conversation,
  intermediate_update, end_of_conversation, failure_event, update_observer,
}
use multiagent_fipa_acl.Conversation.Observed.{Distinct, Classified, observes}
use multiagent_fipa_acl.Conversation.Update.{Environment, update}
use multiagent_fipa_acl.Conversation.Update.Outcomes.{UpdateResult, update-UpdateResult}

abbrev pub is_start : Event → Bool
is_start event = elim event.event_type [
  | start_of_conversation ↦ true
  | unknown ↦ false
  | intermediate_update ↦ false
  | end_of_conversation ↦ false
  | failure_event ↦ false
]

count-told :
    (o : Observer) (event : Event) (told : Bool)
    → is_start event ≡ false
    → count is_start (if told then update_observer o event else o).events ≡ count is_start o.events
unfolding update_observer
count-told o event false h = refl
count-told o event true h = count-append is_start o.events (event ∷ []) ∙ rw h (omega arith)

module _ {M : Type 0} (env : Environment M) where
  not_start :
      (c : Conversation M) (m : AclMessage) (kind : EventType) (time : ℕ)
      → Classified env.sub c false kind
      → is_start (record { msg = m; event_type = kind; timestamp = time }) ≡ false
  not_start c m kind time (inl (_, k)) = rw k refl
  not_start c m kind time (inr (inl (_, _, k))) = rw k refl
  not_start c m kind time (inr (inr (_, _, k))) = rw k refl

  -- An `update` that returns on a conversation which has a protocol already adds no
  -- `START_OF_CONVERSATION` to what any observer has seen, where the observers are distinct.
  pub update-no_start :
      (c : Conversation M) (observers : Observers) (m : AclMessage)
      → Distinct c.observers
      → is_empty c.protocol ≡ false
      → (update env c observers m).1 ≡ ok tt
      → (k : ℕ)
      → count is_start ((update env c observers m).0.1 k).events
        ≡ count is_start (observers k).events
  update-no_start c observers m d p done k =
      elim (subst (λ new. UpdateResult env c observers m new (update env c observers m)) p
        (update-UpdateResult env c observers m d)) [
          | inl (e, thrown, _) ↦ absurd (ground arith)
          | inr (_, mid, _, n) ↦
              ap (λ o. count is_start o.events) (n.told k)
              ∙ count-told (observers k) _ (observes mid.observers k)
                  (not_start _ m n.kind (env.now k) n.classified)
        ]
