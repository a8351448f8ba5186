-- ===== src/Monitor/Consistent.antt =====
-- The table of conversations stays consistent, whatever methods are called.
use multiagent_fipa_acl.Base.{
  nat_beq, if◌then◌else◌, nat_beq_iff, Bool-cases, Option-cases, nat_eq, Text, text_eq, is_empty,
  All, All-append, All-mono, Result, Outcome, attempt, follow, invalid_operation, ok, err, ℕ, suc,
  ◌<◌, ◌≡◌, refl, sym, ap, ◌∙◌, inl, inr, Bool, true, false, some, [], ◌∷◌, arith,
}
use multiagent_fipa_acl.Base.Maps.{find, has, insert_new, All-find}
use multiagent_fipa_acl.Agent.{get_name}
use multiagent_fipa_acl.Message.{AclMessage}
use multiagent_fipa_acl.Conversation.{Conversation, Observers, new_conversation, has_ended}
use multiagent_fipa_acl.Conversation.Update.{Environment, update}
use multiagent_fipa_acl.Conversation.Update.Identity.{update-id}
use multiagent_fipa_acl.Monitor.{
  Monitor, set_at, create, start_conversation, get_or_create_conversation, remove_conversation,
  update_at, update_conversation,
}
use multiagent_fipa_acl.Monitor.Keys.{DistinctKeys, DistinctKeys-append, erase-keys, All-erase}

module _ {M : Type 0} where
  abbrev pub Known : ℕ → (ℕ → Conversation M) → Text × ℕ → Type 0
  Known created store (id, k) = (k < created) × ((store k).conversation_id ≡ id)

  -- No id stands in the table twice, and each entry is a conversation that was created and has
  -- that id.
  pub record Consistent (mon : Monitor M) : Type 0 where
    pub keys : DistinctKeys mon.active_conversations
    pub entries : All (Known mon.created mon.conversations) mon.active_conversations

  -- A new object changes no entry.
  Known-created :
      (created : ℕ) (store : ℕ → Conversation M) (c : Conversation M) (p : Text × ℕ)
      → Known created store p
      → Known (suc created) (set_at store created c) p
  Known-created created store c (id, k) h =
      let other : nat_beq k created ≡ false = elim (Bool-cases (nat_beq k created)) [
        | inl t ↦ let e = (nat_beq_iff k created).0 t in absurd (omega arith)
        | inr f ↦ f
      ] in
      (omega arith, rw other h.1)

  create-Consistent :
      (mon : Monitor M) (id : Text) (c : Conversation M)
      → c.conversation_id ≡ id
      → Consistent mon
      → Consistent (create mon id c).0
  unfolding create insert_new
  create-Consistent mon id c h w =
      let P = Known (suc mon.created) (set_at mon.conversations mon.created c) in
      let kept =
        All-mono (Known mon.created mon.conversations) P mon.active_conversations
          (Known-created mon.created mon.conversations c) w.entries in
      let itself : nat_beq mon.created mon.created ≡ true =
        (nat_beq_iff mon.created mon.created).1 refl in
      elim (Bool-cases (has id mon.active_conversations)) [
        | inl t ↦ record { keys = rw t w.keys; entries = rw t kept }
        | inr f ↦ record {
          keys = rw f (DistinctKeys-append mon.active_conversations id mon.created f w.keys);
          entries = rw f (
              All-append P mon.active_conversations ((id, mon.created) ∷ []) kept
                ((omega arith, rw itself h), tt));
        }
      ]

  pub remove-Consistent :
      (mon : Monitor M) (id : Text) → Consistent mon → Consistent (remove_conversation mon id).0
  unfolding remove_conversation
  remove-Consistent mon id w = record {
    keys = (erase-keys mon.active_conversations id w.keys).0;
    entries = All-erase (Known mon.created mon.conversations) mon.active_conversations id w.entries;
  }

  pub get_or_create-Consistent :
      (mon : Monitor M) (id fresh : Text)
      → is_empty id ≡ false
      → Consistent mon
      → Consistent (get_or_create_conversation mon id fresh).0
  unfolding get_or_create_conversation new_conversation
  get_or_create-Consistent mon id fresh named w =
      elim (Option-cases (find id mon.active_conversations)) [
        | inr (k, e) ↦ rw (e, get_or_create_conversation) w
        | inl e ↦
            rw (e, get_or_create_conversation)
              (create-Consistent mon id (new_conversation mon.created (get_name mon.self) id fresh)
                (rw named refl) w)
      ]

  pub start-Consistent :
      (mon : Monitor M) (id : Text) → Consistent mon → Consistent (start_conversation mon id).0
  unfolding start_conversation
  start-Consistent mon id w =
      let c = new_conversation mon.created (get_name mon.self) id id in
      create-Consistent mon c.conversation_id c refl w

  -- A change of one conversation that keeps its id.
  pub Known-changed :
      (created : ℕ) (store : ℕ → Conversation M) (k : ℕ) (c : Conversation M)
      → c.conversation_id ≡ (store k).conversation_id
      → (p : Text × ℕ) → Known created store p
      → Known created (set_at store k c) p
  Known-changed created store k c same (id, j) (lt, name) = elim (Bool-cases (nat_beq j k)) [
    | inl t ↦
        (lt, rw t (same ∙ ap (λ i. (store i).conversation_id) (sym ((nat_beq_iff j k).0 t)) ∙ name))
    | inr f ↦ (lt, rw f name)
  ]

  changed-Consistent :
      (mon : Monitor M) (k : ℕ) (c : Conversation M) (observers : Observers)
      → c.conversation_id ≡ (mon.conversations k).conversation_id
      → Consistent mon
      → Consistent
          (record mon { conversations = set_at mon.conversations k c; observers = observers })
  changed-Consistent mon k c observers same w = record {
    keys = w.keys;
    entries =
        All-mono (Known mon.created mon.conversations)
          (Known mon.created (set_at mon.conversations k c)) mon.active_conversations
          (Known-changed mon.created mon.conversations k c same) w.entries;
  }

  module _ (env : Environment M) where
    update_at-Consistent :
        (mon : Monitor M) (m : AclMessage) (k : ℕ)
        → find m.conversation_id mon.active_conversations ≡ some k
        → Consistent mon
        → Consistent (update_at env mon k m).0
    unfolding update_at
    update_at-Consistent mon m k e w =
        let out = update env (mon.conversations k) mon.observers m in
        let known =
          All-find (Known mon.created mon.conversations) m.conversation_id mon.active_conversations
            {v = k} w.entries e in
        changed-Consistent mon k out.0.0 out.0.1
          (update-id env (mon.conversations k) mon.observers m known.1 ∙ sym known.1) w

    pub update-Consistent :
        (mon : Monitor M) (m : AclMessage)
        → Consistent mon
        → Consistent (update_conversation env mon m).0
    unfolding update_conversation
    update-Consistent mon m w =
        elim (Option-cases (find m.conversation_id mon.active_conversations)) [
          | inl e ↦ rw (e, update_conversation) w
          | inr (k, e) ↦
              rw (e, update_conversation)
                (by_end k (update_at-Consistent mon m k e w)
                  (has_ended env.sub (mon.conversations k)))
        ]
      where
        returned :
            (k : ℕ) (out : Outcome (Monitor M) (Unit {0}))
            → Consistent out.0
            → Consistent (follow out λ mon' _. (mon', ok k)).0
        returned k (mon', ok _) v = v
        returned k (mon', err e) v = v

        by_end :
            (k : ℕ)
            → Consistent (update_at env mon k m).0
            → (r : Result Bool)
            → Consistent
                (attempt {S = Monitor M} r mon λ ended.
                  if ended
                  then (mon, err invalid_operation)
                  else follow (update_at env mon k m) λ mon' _. (mon', ok k)).0
        by_end k v (err e) = w
        by_end k v (ok true) = w
        by_end k v (ok false) = returned k (update_at env mon k m) v
