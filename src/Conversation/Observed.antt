-- ===== src/Conversation/Observed.antt =====
-- What the observers of a conversation see of `notifyAll`, and how the status follows.
use multiagent_fipa_acl.Base.{
  nat_beq, if◌then◌else◌, Bool-cases, nat_eq, text_eq, any_of, any_of-append, Error,
  is_runtime_error, Result-cases, aborted, ok, err, ℕ, ◌≡◌, refl, ap, ◌∙◌, ◌≢◌, ◌⊎◌, inl, inr, Bool,
  true, false, ◌||◌, List, [], ◌∷◌, ◌++◌, arith,
}
use multiagent_fipa_acl.Message.{AclMessage}
use multiagent_fipa_acl.State.SubConversations.{SubMachine}
use multiagent_fipa_acl.Machine.{in_failure_state}
use multiagent_fipa_acl.Conversation.{
  unknown, start_of_conversation, intermediate_update, end_of_conversation, failure_event,
  uninitialized, running, ended, failed, EventType, Status, Event, Observers, Conversation, change,
  update_observer, add_observer, notify, notify_each, notify_all, status_after, has_ended, event_of,
}

abbrev pub observes : List ℕ → ℕ → Bool
observes ks k = any_of (λ other. nat_beq other k) ks

-- No observer is registered twice.
abbrev pub Distinct : List ℕ → Type 0
Distinct [] = Unit {0}
Distinct (k ∷ ks) = (observes ks k ≡ false) × Distinct ks

module _ (ks : List ℕ) where
  observes-append : (k j : ℕ) → observes (ks ++ k ∷ []) j ≡ (observes ks j || nat_beq k j)
  observes-append k j = any_of-append (λ other. nat_beq other j) ks (k ∷ []) ∙ ground arith

Distinct-append :
    (ks : List ℕ) (k : ℕ) → observes ks k ≡ false → Distinct ks → Distinct (ks ++ k ∷ [])
Distinct-append [] k h d = (refl, tt)
Distinct-append (j ∷ ks) k h d =
    (ground (arith, observes-append ks k j), Distinct-append ks k (ground arith) d.1)

-- `addObserver` registers an observer once, and keeps the observers distinct.
pub add_observer-Distinct :
    {M : Type 0} (c : Conversation M) (observers : Observers) (k : ℕ)
    → Distinct c.observers
    → Distinct (add_observer c observers k).0.observers
      × (observes (add_observer c observers k).0.observers k ≡ true)
unfolding add_observer
add_observer-Distinct c observers k d = elim (Bool-cases (observes c.observers k)) [
  | inl h ↦ rw h (d, h)
  | inr h ↦
      rw h (Distinct-append c.observers k h d, ground (arith, observes-append c.observers k k))
]

-- The observer `k` after the event: one more event if it is registered.
abbrev pub Told : (ℕ → ℕ) → AclMessage → EventType → List ℕ → Observers → Observers → Type 0
Told now m kind ks before after =
    (k : ℕ)
    → after k ≡ (
        if observes ks k
        then update_observer (before k) (record { msg = m; event_type = kind; timestamp = now k })
        else before k)

notify_each-Told :
    (now : ℕ → ℕ) (m : AclMessage) (kind : EventType) (observers : Observers) (ks : List ℕ)
    → Distinct ks
    → Told now m kind ks observers (notify_each now m kind observers ks)
unfolding notify_each
notify_each-Told now m kind observers [] d k = refl
notify_each-Told now m kind observers (j ∷ ks) d k =
    let event : Event = record { msg = m; event_type = kind; timestamp = now j } in
    notify_each-Told now m kind (change observers j (update_observer (observers j) event)) ks d.1 k
    ∙ ground arith

-- The status that an event leaves.
abbrev pub status_of : EventType → Status
status_of unknown = uninitialized
status_of start_of_conversation = running
status_of intermediate_update = running
status_of end_of_conversation = ended
status_of failure_event = failed

status_after-status_of :
    (kind : EventType) (status : Status) {after : Status}
    → kind ≢ unknown
    → status_after kind status ≡ ok after
    → after ≡ status_of kind
unfolding status_after
status_after-status_of unknown status n h = absurd (n refl)
status_after-status_of start_of_conversation status n h = ground arith
status_after-status_of intermediate_update status n h = ground arith
status_after-status_of end_of_conversation status n h = ground arith
status_after-status_of failure_event status n h = ground arith

status_after-aborted :
    (kind : EventType) (status : Status) {e : Error}
    → status_after kind status ≡ err e
    → e ≡ aborted
unfolding status_after
status_after-aborted unknown status h = ground arith
status_after-aborted start_of_conversation status h = ground arith
status_after-aborted intermediate_update status h = ground arith
status_after-aborted end_of_conversation status h = ground arith
status_after-aborted failure_event status h = ground arith

module _ {M : Type 0} (sub : SubMachine M) where
  -- Which event a message is, by the state machine that has taken it: a failure, or the end, or
  -- the start if the conversation is new, or an update.
  abbrev pub Classified : Conversation M → Bool → EventType → Type 0
  Classified c new kind =
      ((in_failure_state c.state_machine ≡ true) × (kind ≡ failure_event))
      ⊎ (((in_failure_state c.state_machine ≡ false)
            × (has_ended sub c ≡ ok true)
            × (kind ≡ end_of_conversation))
          ⊎ ((in_failure_state c.state_machine ≡ false)
              × (has_ended sub c ≡ ok false)
              × (kind ≡ (if new then start_of_conversation else intermediate_update))))

  event_of-Classified :
      (c : Conversation M) (new : Bool) {kind : EventType}
      → event_of sub c new ≡ ok kind
      → Classified c new kind
  unfolding event_of
  event_of-Classified c new h = ground arith

  event_of-known :
      (c : Conversation M) (new : Bool) {kind : EventType}
      → event_of sub c new ≡ ok kind
      → kind ≢ unknown
  unfolding event_of
  event_of-known c new h k = ground arith

  event_of-err :
      (c : Conversation M) (new : Bool) {e : Error}
      → event_of sub c new ≡ err e
      → is_runtime_error e ≡ false
  unfolding event_of has_ended
  event_of-err c new h = ground arith

  -- A message that the state machine has taken: it is archived, each observer of the conversation
  -- gets one event of the right kind and no other observer gets any, and the status follows the
  -- event.
  pub record Notified (now : ℕ → ℕ) (c c' : Conversation M) (before after : Observers)
      (m : AclMessage) (new : Bool) : Type 0 where
    pub kind : EventType
    pub classified : Classified c' new kind
    pub told : Told now m kind c.observers before after
    pub messages : c'.messages ≡ c.messages ++ m ∷ []
    pub status : c'.status ≡ status_of kind
    pub machine : c'.state_machine ≡ c.state_machine
    pub protocol : c'.protocol ≡ c.protocol
    pub observers : c'.observers ≡ c.observers

  notified :
      (now : ℕ → ℕ) (c : Conversation M) (observers : Observers) (m : AclMessage) (new : Bool)
      (kind : EventType) {status : Status}
      → Distinct c.observers
      → event_of sub (record c { messages = c.messages ++ m ∷ [] }) new ≡ ok kind
      → status_after kind c.status ≡ ok status
      → Notified now c
          (record c { messages = c.messages ++ m ∷ []; status = status })
          observers
          (notify_each now m kind observers c.observers)
          m
          new
  unfolding has_ended
  notified now c observers m new kind d e f = record {
    kind = kind;
    classified = event_of-Classified (record c { messages = c.messages ++ m ∷ [] }) new e;
    told = notify_each-Told now m kind observers c.observers d;
    messages = refl;
    status =
        status_after-status_of kind c.status
          (event_of-known (record c { messages = c.messages ++ m ∷ [] }) new e) f;
    machine = refl;
    protocol = refl;
    observers = refl;
  }

  -- `notifyAll` notifies, or throws what is no `std::runtime_error`.
  pub notify_all-Notified :
      (now : ℕ → ℕ) (c : Conversation M) (observers : Observers) (m : AclMessage) (new : Bool)
      → Distinct c.observers
      → let out = notify_all sub now c observers m new in
        ((e : Error) × (out.1 ≡ err e) × (is_runtime_error e ≡ false))
        ⊎ ((out.1 ≡ ok tt) × Notified now c out.0.0 observers out.0.1 m new)
  unfolding notify_all notify
  notify_all-Notified now c observers m new d =
      elim (Result-cases (event_of sub (record c { messages = c.messages ++ m ∷ [] }) new)) [
        | inr (x, e) ↦
            rw e (inl (x, refl, event_of-err (record c { messages = c.messages ++ m ∷ [] }) new e))
        | inl (kind, e) ↦ rw e (elim (Result-cases (status_after kind c.status)) [
          | inr (x, f) ↦
              rw f (inl (x, refl, ap is_runtime_error (status_after-aborted kind c.status f)))
          | inl (status, f) ↦ rw f (inr (refl, notified now c observers m new kind d e f))
        ])
      ]
