-- ===== src/Conversation.antt =====
-- conversation_monitor/conversation.h and conversation.cpp: a conversation, which feeds its state
-- machine with messages, and its observers. The locks of the source make each method one step.
-- `StateMachineFactory::getStateMachine`, which reads files, is an argument, once for the
-- conversation's own state machine and once for those of its sub-conversations.
pub mod Update
pub mod Observed
use multiagent_fipa_acl.Base.{
  nat_beq, if◌then◌else◌, ◌==◌, nat_eq, Text, text_eq, codes, is_empty, any_of, is_runtime_error,
  Result, ◌>>=◌, Outcome, attempt, aborted, ok, err, ℕ, ◌+◌, Bool, false, not, Option, none, some,
  List, [], ◌∷◌, ◌++◌,
}
use multiagent_fipa_acl.Base.Ints.{ℤ, pos}
use multiagent_fipa_acl.Message.{AclMessage}
use multiagent_fipa_acl.State.SubConversations.{SubMachine}
use multiagent_fipa_acl.Machine.{StateMachine, new_state_machine, in_final_state, in_failure_state}

-- `conversation::EventType` and `conversation::Status`
pub data EventType : Type 0 where
  unknown start_of_conversation intermediate_update end_of_conversation failure_event : EventType

pub data Status : Type 0 where
  uninitialized running ended failed : Status

-- `conversation::Event`. A `base::Time` is the number that it holds.
pub record Event : Type 0 where
  pub msg : AclMessage
  pub event_type : EventType
  pub timestamp : ℕ

-- `ConversationObserver`: its events, and the conversations it is attached to. Observers and
-- conversations are shared objects, named by numbers.
pub record Observer : Type 0 where
  pub events : List Event
  pub observables : List ℕ

abbrev pub Observers : Type 0
Observers = ℕ → Observer

abbrev pub change : Observers → ℕ → Observer → Observers
change observers k o j = if nat_beq j k then o else observers j

-- `ConversationObserver::hasEvents`, `update`, `getNextEvent`, `registerObservable`
unfoldable pub has_events : Observer → Bool
has_events o = not (is_empty o.events)

unfoldable pub update_observer : Observer → Event → Observer
update_observer o event = record o { events = o.events ++ event ∷ [] }

next_of : List Event → Observer → Observer × Option Event
next_of [] o = (o, none)
next_of (event ∷ events) o = (record o { events = events }, some event)

unfoldable pub get_next_event : Observer → Observer × Option Event
unfolding next_of
get_next_event o = next_of o.events o

unfoldable pub register_observable : Observer → ℕ → Observer
register_observable o conversation =
    if any_of (λ other. other == conversation) o.observables
    then o
    else record o { observables = o.observables ++ conversation ∷ [] }

-- `ConversationObservable` and `Conversation`, with the number by which observers know it.
pub record Conversation (M : Type 0) : Type 0 where
  pub self : ℕ
  pub conversation_id : Text
  pub status : Status
  pub observers : List ℕ
  pub owner : Text
  pub protocol : Text
  pub content_language : Text
  pub number_of_sub_conversations : ℤ
  pub messages : List AclMessage
  pub state_machine : StateMachine M

-- `Conversation::generateConversationID`; the UUID and the time are arguments.
unfoldable pub generate_conversation_id : Text → Text → Text → Text
generate_conversation_id uuid time topic = uuid ++ codes "--" ++ topic ++ codes "--" ++ time

module _ {M : Type 0} where
  -- `Conversation::Conversation(owner, conversationId)`; `fresh` is a generated id.
  unfoldable pub new_conversation : ℕ → Text → Text → Text → Conversation M
  new_conversation self owner conversation_id fresh = record {
    self = self;
    conversation_id = if is_empty conversation_id then fresh else conversation_id;
    status = uninitialized;
    observers = [];
    owner = owner;
    protocol = [];
    content_language = [];
    number_of_sub_conversations = pos 0;
    messages = [];
    state_machine = new_state_machine;
  }

  -- The setters that only assign, and `detachObservers`.
  unfoldable pub set_number_of_sub_conversations : Conversation M → ℤ → Conversation M
  set_number_of_sub_conversations c amount = record c { number_of_sub_conversations = amount }

  unfoldable pub set_protocol : Conversation M → Text → Conversation M
  set_protocol c protocol = record c { protocol = protocol }

  unfoldable pub set_content_language : Conversation M → Text → Conversation M
  set_content_language c language = record c { content_language = language }

  unfoldable pub set_conversation_id : Conversation M → Text → Conversation M
  set_conversation_id c id = record c { conversation_id = id }

  unfoldable pub detach_observers : Conversation M → Conversation M
  detach_observers c = record c { observers = [] }

  -- `ConversationObservable::addObserver` and `removeObserver`
  unfoldable pub add_observer : Conversation M → Observers → ℕ → Conversation M × Observers
  add_observer c observers k =
      if any_of (λ other. other == k) c.observers then (c, observers) else (
        record c { observers = c.observers ++ k ∷ [] },
        change observers k (register_observable (observers k) c.self),
      )

-- `std::find` and `erase`
unfoldable pub erase_observer : ℕ → List ℕ → List ℕ
erase_observer k [] = []
erase_observer k (j ∷ observers) = if j == k then observers else j ∷ erase_observer k observers

-- The loop of `ConversationObservable::notify`. The clock is read once for each observer.
notify_each : (ℕ → ℕ) → AclMessage → EventType → Observers → List ℕ → Observers
notify_each now m event_type observers [] = observers
notify_each now m event_type observers (k ∷ ks) =
    notify_each now m event_type
      (change observers k (
        update_observer (observers k)
          (record { msg = m; event_type = event_type; timestamp = now k })))
      ks

-- The `switch` of `notify`: `START_OF_CONVERSATION` asserts that nothing was notified before.
unfoldable pub status_after : EventType → Status → Result Status
status_after start_of_conversation uninitialized = ok running
status_after start_of_conversation _ = err aborted
status_after end_of_conversation status = ok ended
status_after intermediate_update status = ok running
status_after failure_event status = ok failed
status_after unknown status = ok status

module _ {M : Type 0} where
  unfoldable pub remove_observer : Conversation M → ℕ → Conversation M
  remove_observer c k = record c { observers = erase_observer k c.observers }

  -- `ConversationObservable::notify`
  unfoldable pub notify :
      (ℕ → ℕ)
      → Conversation M
      → Observers
      → AclMessage
      → EventType
      → Outcome (Conversation M × Observers) (Unit {0})
  unfolding notify_each
  notify now c observers m event_type =
      let told = notify_each now m event_type observers c.observers in
      attempt (status_after event_type c.status) (c, told)
        λ status. ((record c { status = status }, told), ok tt)

  module _ (sub : SubMachine M) where
    -- `Conversation::hasEnded`: a `std::runtime_error` means that it did not.
    ended_of : Result Bool → Result Bool
    ended_of (ok b) = ok b
    ended_of (err e) = if is_runtime_error e then ok false else err e

    unfoldable pub has_ended : Conversation M → Result Bool
    unfolding ended_of
    has_ended c = ended_of (in_final_state sub c.state_machine)

    -- `Conversation::notifyAll`; which event it is
    event_of : Conversation M → Bool → Result EventType
    event_of c new_conversation =
        let has = has_ended c >>= λ over. ok (
          if over
          then end_of_conversation
          else if new_conversation
          then start_of_conversation
          else intermediate_update) in
        if in_failure_state c.state_machine then ok failure_event else has

    unfoldable pub notify_all :
        (ℕ → ℕ)
        → Conversation M
        → Observers
        → AclMessage
        → Bool
        → Outcome (Conversation M × Observers) (Unit {0})
    unfolding event_of
    notify_all now c observers m new_conversation =
        let c' = record c { messages = c.messages ++ m ∷ [] } in
        attempt (event_of c' new_conversation) (c', observers)
          λ event_type. notify now c' observers m event_type
