-- ===== src/Monitor/Reachable.antt =====
-- Runs of a conversation monitor: any sequence of calls of its methods.
use multiagent_fipa_acl.Base.{
  if◌then◌else◌, nat_eq, Text, text_eq, is_empty, All, All-mono, Result, Outcome, attempt, follow,
  within, ok, err, ℕ, ◌≡◌, refl, Bool, true, false, some, List, [], ◌∷◌,
}
use multiagent_fipa_acl.Base.Maps.{Map, erase, All-find}
use multiagent_fipa_acl.Agent.{AgentId}
use multiagent_fipa_acl.Message.{AclMessage}
use multiagent_fipa_acl.Conversation.{Conversation, Observers, has_ended, detach_observers}
use multiagent_fipa_acl.Conversation.Update.{Environment}
use multiagent_fipa_acl.Monitor.{
  Monitor, set_at, new_monitor, get_conversation, start_conversation, get_or_create_conversation,
  remove_conversation, update_conversation, detach_ended, erase_all, cleanup,
}
use multiagent_fipa_acl.Monitor.Keys.{DistinctKeys, erase-keys, All-erase}
use multiagent_fipa_acl.Monitor.Consistent.{
  Consistent, Known, Known-changed, start-Consistent, get_or_create-Consistent, remove-Consistent,
  update-Consistent,
}

module _ {M : Type 0} (env : Environment M) where
  detach_ended-Known :
      (created : ℕ) (table : Map Text ℕ) (store : ℕ → Conversation M) (entries : Map Text ℕ)
      → All (Known created store) table
      → All (Known created (detach_ended env store entries).0) table
  unfolding detach_ended detach_observers
  detach_ended-Known created table store [] a = a
  detach_ended-Known created table store ((id, k) ∷ entries) a =
      by_end (has_ended env.sub (store k)) (detach_ended-Known created table store entries a) (
        detach_ended-Known created table (set_at store k (detach_observers (store k))) entries (
          All-mono (Known created store)
            (Known created (set_at store k (detach_observers (store k)))) table
            (Known-changed created store k (detach_observers (store k)) refl) a))
    where
      detached : ℕ → Conversation M
      detached = set_at store k (detach_observers (store k))

      with_id :
          (out : Outcome (ℕ → Conversation M) (List Text))
          → All (Known created out.0) table
          → All (Known created (follow out λ store ids. (store, ok (id ∷ ids))).0) table
      with_id (store, ok ids) b = b
      with_id (store, err e) b = b

      by_end :
          (r : Result Bool)
          → All (Known created (detach_ended env store entries).0) table
          → All (Known created (detach_ended env detached entries).0) table
          → All
              (Known created
                (attempt r store λ ended.
                  if ended
                  then (follow
                      (detach_ended env detached entries)
                      λ store ids. (store, ok (id ∷ ids)))
                  else detach_ended env store entries).0)
              table
      by_end (err e) other changed = a
      by_end (ok false) other changed = other
      by_end (ok true) other changed = with_id (detach_ended env detached entries) changed

  erase_all-keys :
      (P : Text × ℕ → Type 0) (ids : List Text) (table : Map Text ℕ)
      → DistinctKeys table
      → All P table
      → DistinctKeys (erase_all env ids table) × All P (erase_all env ids table)
  unfolding erase_all
  erase_all-keys P [] table d a = (d, a)
  erase_all-keys P (id ∷ ids) table d a =
      erase_all-keys P ids (erase id table) (erase-keys table id d).0 (All-erase P table id a)

  cleanup-Consistent : (mon : Monitor M) → Consistent mon → Consistent (cleanup env mon).0
  unfolding cleanup
  cleanup-Consistent mon w = erased (detach_ended env mon.conversations mon.active_conversations) (
      detach_ended-Known mon.created mon.active_conversations mon.conversations
        mon.active_conversations w.entries)
    where
      erased :
          (out : Outcome (ℕ → Conversation M) (List Text))
          → All (Known mon.created out.0) mon.active_conversations
          → Consistent
              (follow (within (λ store. record mon { conversations = store }) out) λ mon' ids. (
                record mon' { active_conversations = erase_all env ids mon.active_conversations },
                ok tt,
              )).0
      erased (store, err e) a = record { keys = w.keys; entries = a }
      erased (store, ok ids) a =
          let (keys, entries) =
            erase_all-keys (Known mon.created store) ids mon.active_conversations w.keys a in
          record { keys = keys; entries = entries }

  -- One call, whether or not it throws. A conversation is asked for with an id that is not empty.
  pub data Step : Monitor M → Monitor M → Type 0 where
    started : (mon : Monitor M) (id : Text) → Step mon (start_conversation mon id).0
    asked :
        (mon : Monitor M) (id fresh : Text)
        → is_empty id ≡ false
        → Step mon (get_or_create_conversation mon id fresh).0
    removed : (mon : Monitor M) (id : Text) → Step mon (remove_conversation mon id).0
    updated : (mon : Monitor M) (m : AclMessage) → Step mon (update_conversation env mon m).0
    cleaned : (mon : Monitor M) → Step mon (cleanup env mon).0

  pub data Run : Monitor M → Monitor M → Type 0 where
    finished : {mon : Monitor M} → Run mon mon
    next : {mon mon' mon'' : Monitor M} → Step mon mon' → Run mon' mon'' → Run mon mon''

  Step-Consistent : {mon mon' : Monitor M} → Step mon mon' → Consistent mon → Consistent mon'
  Step-Consistent (started mon id) w = start-Consistent mon id w
  Step-Consistent (asked mon id fresh n) w = get_or_create-Consistent mon id fresh n w
  Step-Consistent (removed mon id) w = remove-Consistent mon id w
  Step-Consistent (updated mon m) w = update-Consistent env mon m w
  Step-Consistent (cleaned mon) w = cleanup-Consistent mon w

  Run-Consistent : {mon mon' : Monitor M} → Run mon mon' → Consistent mon → Consistent mon'
  Run-Consistent finished w = w
  Run-Consistent (next s r) w = Run-Consistent r (Step-Consistent s w)

  -- After any sequence of calls on a new monitor, thrown or not, in which nobody asks for a
  -- conversation with an empty id, the table is consistent, and the conversation found under an
  -- id has that id.
  pub Run-lookup :
      (self : AgentId) (unused : ℕ → Conversation M) (observers : Observers) {mon : Monitor M}
      → Run (new_monitor self unused observers) mon
      → Consistent mon
        × ((id : Text) (k : ℕ)
            → get_conversation mon id ≡ some k
            → (mon.conversations k).conversation_id ≡ id)
  unfolding new_monitor get_conversation
  Run-lookup self unused observers {mon} r =
      let w = Run-Consistent r (record { keys = tt; entries = tt }) in
      (
        w,
        λ id k e.
            (All-find (Known mon.created mon.conversations) id mon.active_conversations {v = k}
              w.entries e).1,
      )
