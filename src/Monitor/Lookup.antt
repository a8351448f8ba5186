-- ===== src/Monitor/Lookup.antt =====
-- Conversations are found again under the ids with which they were asked for.
use multiagent_fipa_acl.Base.{
  if◌then◌else◌, Bool-cases, Option-cases, list_beq_iff, ◌==◌, nat_eq, Text, text_eq, ℕ, ◌≡◌, refl,
  ◌∙◌, ◌≢◌, inl, inr, none, some, arith,
}
use multiagent_fipa_acl.Base.Maps.{find, has, find-insert_new, find-has}
use multiagent_fipa_acl.Conversation.{Conversation, new_conversation}
use multiagent_fipa_acl.Agent.{get_name}
use multiagent_fipa_acl.Monitor.{Monitor, create, get_conversation, get_or_create_conversation}

module _ {M : Type 0} where
  create-find :
      (mon : Monitor M) (id other : Text) (c : Conversation M)
      → find id mon.active_conversations ≡ none
      → find other (create mon id c).0.active_conversations
        ≡ (if id == other then some mon.created else find other mon.active_conversations)
  unfolding create
  create-find mon id other c h =
      find-insert_new id other mon.created mon.active_conversations
      ∙ elim (Bool-cases (has id mon.active_conversations)) [
        | inl t ↦ let (v, e) = find-has id mon.active_conversations t in absurd (ground arith)
        | inr f ↦ rw f refl
      ]

  asked_again :
      (mon : Monitor M) (id fresh : Text) (k : ℕ)
      → find id mon.active_conversations ≡ some k
      → get_or_create_conversation mon id fresh ≡ (mon, k)
  unfolding get_or_create_conversation
  asked_again mon id fresh k e = rw (e, get_or_create_conversation) refl

  asked_first :
      (mon : Monitor M) (id fresh : Text)
      → find id mon.active_conversations ≡ none
      → get_or_create_conversation mon id fresh
        ≡ create mon id (new_conversation mon.created (get_name mon.self) id fresh)
  unfolding get_or_create_conversation
  asked_first mon id fresh e = rw (e, get_or_create_conversation) refl

  create-find_self :
      (mon : Monitor M) (id : Text) (c : Conversation M)
      → find id mon.active_conversations ≡ none
      → find id (create mon id c).0.active_conversations ≡ some mon.created
  create-find_self mon id c e = create-find mon id id c e ∙ rw ((list_beq_iff id id).1 refl) refl

  -- `getOrCreateConversation` puts the conversation into the table under the id, gives the same
  -- one and changes nothing when it is asked again, and no other id finds another conversation.
  pub get_or_create_conversation_lem :
      (mon : Monitor M) (id fresh again : Text)
      → let out = get_or_create_conversation mon id fresh in
        (get_conversation out.0 id ≡ some out.1)
        × (get_or_create_conversation out.0 id again ≡ out)
        × ((other : Text) → other ≢ id → get_conversation out.0 other ≡ get_conversation mon other)
  unfolding get_conversation create
  get_or_create_conversation_lem mon id fresh again =
      elim (Option-cases (find id mon.active_conversations)) [
        | inr (k, e) ↦
            rw (asked_again mon id fresh k e) (e, asked_again mon id again k e, λ other n. refl)
        | inl e ↦
            let c = new_conversation mon.created (get_name mon.self) id fresh in
            let found = create-find_self mon id c e in
            rw (asked_first mon id fresh e) (
              found,
              asked_again (create mon id c).0 id again mon.created found,
              λ other n. create-find mon id other c e ∙ ground (arith, list_beq_iff id other),
            )
      ]
