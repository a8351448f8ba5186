-- ===== src/Monitor.antt =====
-- conversation_monitor/conversation_monitor.h and conversation_monitor.cpp: the table of the
-- conversations of an agent. A conversation is a shared object: the table holds its number in the
-- store of conversations. The lock of the source makes each method one step. The source's map is
-- sorted by key, the list here is not: the order shows in `get_active_conversations` only.
pub mod Keys
pub mod Cleanup
pub mod Lookup
pub mod Consistent
pub mod Reachable
use multiagent_fipa_acl.Base.{
  nat_beq, if◌then◌else◌, nat_eq, Text, text_eq, Outcome, attempt, follow, within,
  invalid_operation, ok, err, ℕ, suc, Bool, Option, none, some, List, [], ◌∷◌, map,
}
use multiagent_fipa_acl.Base.Maps.{Map, find, has, erase, insert_new}
use multiagent_fipa_acl.Agent.{AgentId, get_name}
use multiagent_fipa_acl.Message.{AclMessage}
use multiagent_fipa_acl.Conversation.{
  Conversation, Observers, new_conversation, has_ended, detach_observers,
}
use multiagent_fipa_acl.Conversation.Update.{Environment, update}

-- `ConversationMonitor`, with the conversations and observers that its methods reach.
pub record Monitor (M : Type 0) : Type 0 where
  pub self : AgentId
  pub active_conversations : Map Text ℕ
  pub conversations : ℕ → Conversation M
  pub created : ℕ
  pub observers : Observers

abbrev pub set_at : {A : Type 0} → (ℕ → A) → ℕ → A → ℕ → A
set_at store k a j = if nat_beq j k then a else store j

module _ {M : Type 0} where
  -- `ConversationMonitor::ConversationMonitor`; the directory of the protocols is left out.
  unfoldable pub new_monitor : AgentId → (ℕ → Conversation M) → Observers → Monitor M
  new_monitor self unused observers = record {
    self = self;
    active_conversations = [];
    conversations = unused;
    created = 0;
    observers = observers;
  }

  -- `new Conversation(...)` and `mActiveConversations.insert`, which keeps an entry that is there.
  pub create : Monitor M → Text → Conversation M → Monitor M × ℕ
  create mon id c = (
    record mon {
      active_conversations = insert_new id mon.created mon.active_conversations;
      conversations = set_at mon.conversations mon.created c;
      created = suc mon.created;
    },
    mon.created,
  )

  -- `startConversation`; the generated id, which holds a UUID, is an argument.
  unfoldable pub start_conversation : Monitor M → Text → Monitor M × ℕ
  unfolding create
  start_conversation mon id =
      let c = new_conversation mon.created (get_name mon.self) id id in
      create mon c.conversation_id c

  -- `getConversation`; `none` is a null pointer.
  unfoldable pub get_conversation : Monitor M → Text → Option ℕ
  get_conversation mon id = find id mon.active_conversations

  -- `getOrCreateConversation`; `fresh` is the id generated for a conversation without one.
  unfoldable pub get_or_create_conversation : Monitor M → Text → Text → Monitor M × ℕ
  unfolding create
  get_or_create_conversation mon id fresh = elim (find id mon.active_conversations) [
    | some k ↦ (mon, k)
    | none ↦ create mon id (new_conversation mon.created (get_name mon.self) id fresh)
  ]

  -- `removeConversation`
  unfoldable pub remove_conversation : Monitor M → Text → Monitor M × Bool
  remove_conversation mon id = (
    record mon { active_conversations = erase id mon.active_conversations },
    has id mon.active_conversations,
  )

  -- `getActiveConversations`
  unfoldable pub get_active_conversations : Monitor M → List Text
  get_active_conversations mon = map (λ (p : Text × ℕ). p.0) mon.active_conversations

  module _ (env : Environment M) where
    -- The call of `update` on a conversation of the store.
    pub update_at : Monitor M → ℕ → AclMessage → Outcome (Monitor M) (Unit {0})
    update_at mon k m =
        within
          (λ (s : Conversation M × Observers). record mon {
            conversations = set_at mon.conversations k s.0;
            observers = s.1;
          })
          (update env (mon.conversations k) mon.observers m)

    -- `updateConversation`
    unfoldable pub update_conversation : Monitor M → AclMessage → Outcome (Monitor M) ℕ
    unfolding update_at
    update_conversation mon m = elim (find m.conversation_id mon.active_conversations) [
      | none ↦ (mon, err invalid_operation)
      | some k ↦ attempt (has_ended env.sub (mon.conversations k)) mon λ ended.
          if ended
          then (mon, err invalid_operation)
          else follow (update_at mon k m) λ mon' _. (mon', ok k)
    ]

    -- The first loop of `cleanup`: the ended conversations lose their observers.
    pub detach_ended : (ℕ → Conversation M) → Map Text ℕ → Outcome (ℕ → Conversation M) (List Text)
    detach_ended conversations [] = (conversations, ok [])
    detach_ended conversations ((id, k) ∷ entries) =
        attempt (has_ended env.sub (conversations k)) conversations λ ended.
          if ended
          then (follow
              (detach_ended (set_at conversations k (detach_observers (conversations k))) entries)
              λ store ids. (store, ok (id ∷ ids)))
          else detach_ended conversations entries

    pub erase_all : List Text → Map Text ℕ → Map Text ℕ
    erase_all [] entries = entries
    erase_all (id ∷ ids) entries = erase_all ids (erase id entries)

    -- `cleanup`
    unfoldable pub cleanup : Monitor M → Outcome (Monitor M) (Unit {0})
    unfolding detach_ended erase_all
    cleanup mon =
        follow
          (within (λ store. record mon { conversations = store })
            (detach_ended mon.conversations mon.active_conversations))
          λ mon' ids.
            (record mon' { active_conversations = erase_all ids mon.active_conversations }, ok tt)
