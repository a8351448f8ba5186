-- ===== src/Monitor/Cleanup.antt =====
-- What `cleanup` leaves in the table and in the store.
use multiagent_fipa_acl.Base.{
  nat_beq, if◌then◌else◌, nat_beq_iff, Bool-cases, list_beq_iff, ◌==◌, nat_eq, Text, text_eq,
  any_of, Outcome, follow, ok, err, ℕ, ◌≡◌, refl, sym, ap, ◌∙◌, inl, inr, Bool, true, false, ◌&&◌,
  ◌||◌, Option, none, some, List, [], ◌∷◌, arith,
}
use multiagent_fipa_acl.Base.Maps.{Map, find, has, erase, find-erase}
use multiagent_fipa_acl.Conversation.{Conversation, has_ended, detach_observers}
use multiagent_fipa_acl.Conversation.Update.{Environment}
use multiagent_fipa_acl.Monitor.Keys.{DistinctKeys}
use multiagent_fipa_acl.Monitor.{Monitor, set_at, detach_ended, erase_all, cleanup}

-- The entry, unless its conversation has ended.
abbrev pub not_ended : (ℕ → Bool) → Option ℕ → Option ℕ
not_ended ended none = none
not_ended ended (some k) = if ended k then none else some k

abbrev ended_ids : (ℕ → Bool) → Map Text ℕ → List Text
ended_ids ended [] = []
ended_ids ended ((id, k) ∷ entries) =
    if ended k then id ∷ ended_ids ended entries else ended_ids ended entries

abbrev pub refers : Map Text ℕ → ℕ → Bool
refers entries k = any_of (λ (p : Text × ℕ). nat_beq k p.1) entries

erase_all-find :
    {M : Type 0} (env : Environment M) (ids : List Text) (entries : Map Text ℕ) (id : Text)
    → find id (erase_all env ids entries)
      ≡ (if any_of (λ other. other == id) ids then none else find id entries)
unfolding erase_all
erase_all-find env [] entries id = refl
erase_all-find env (other ∷ ids) entries id =
    erase_all-find env ids (erase other entries) id ∙ ground (arith, find-erase other id entries)

no_ended_ids :
    (ended : ℕ → Bool) (entries : Map Text ℕ) (id : Text)
    → has id entries ≡ false
    → any_of (λ other. other == id) (ended_ids ended entries) ≡ false
unfolding has
no_ended_ids ended [] id h = refl
no_ended_ids ended ((other, k) ∷ entries) id h = ground (arith, no_ended_ids ended entries id)

ended_ids-find :
    (ended : ℕ → Bool) (entries : Map Text ℕ) (id : Text)
    → DistinctKeys entries
    → (if any_of (λ other. other == id) (ended_ids ended entries) then none else find id entries)
      ≡ not_ended ended (find id entries)
unfolding find
ended_ids-find ended [] id d = refl
ended_ids-find ended ((other, k) ∷ entries) id d = elim (Bool-cases (other == id)) [
  | inl same ↦
      let eq = (list_beq_iff other id).0 same in
      let absent = no_ended_ids ended entries id (rw eq at d.0) in ground (arith, absent)
  | inr differs ↦ ground (arith, ended_ids-find ended entries id d.1)
]

module _ {M : Type 0} (env : Environment M) (ended : ℕ → Bool) where
  kept_on :
      {S : Type 0} (id : Text) {ids : List Text} (out : Outcome S (List Text))
      → out.1 ≡ ok ids
      → ((follow out λ store ids. (store, ok (id ∷ ids))).1 ≡ ok (id ∷ ids))
        × ((follow out λ store ids. (store, ok (id ∷ ids))).0 ≡ out.0)
  kept_on id (store, ok ids) h = (ground arith, refl)
  kept_on id (store, err e) h = absurd (ground arith)

  abbrev detached : (ℕ → Conversation M) → ℕ → ℕ → Conversation M
  detached store k = set_at store k (detach_observers (store k))

  detached-has_ended :
      (store : ℕ → Conversation M) (k : ℕ)
      → ((j : ℕ) → has_ended env.sub (store j) ≡ ok (ended j))
      → (j : ℕ) → has_ended env.sub (detached store k j) ≡ ok (ended j)
  unfolding detach_observers has_ended
  detached-has_ended store k h j = elim (Bool-cases (nat_beq j k)) [
    | inl t ↦ rw t (h k ∙ ap (λ i. ok (ended i)) (sym ((nat_beq_iff j k).0 t)))
    | inr f ↦ rw f (h j)
  ]

  detached_twice :
      (store : ℕ → Conversation M) (k j : ℕ) (more : Bool)
      → ended k ≡ true
      → (if more && ended j then detach_observers (detached store k j) else detached store k j)
        ≡ (if (nat_beq j k || more) && ended j then detach_observers (store j) else store j)
  unfolding detach_observers
  detached_twice store k j true h = elim (Bool-cases (nat_beq j k)) [
    | inr f ↦ rw f refl
    | inl t ↦ rw t (rw ((nat_beq_iff j k).0 t) (rw h refl))
  ]
  detached_twice store k j false h = elim (Bool-cases (nat_beq j k)) [
    | inr f ↦ rw f refl
    | inl t ↦ rw t (rw ((nat_beq_iff j k).0 t) (rw h refl))
  ]

  detach_ended_lem :
      (store : ℕ → Conversation M) (entries : Map Text ℕ)
      → ((k : ℕ) → has_ended env.sub (store k) ≡ ok (ended k))
      → ((detach_ended env store entries).1 ≡ ok (ended_ids ended entries))
        × ((k : ℕ)
            → (detach_ended env store entries).0 k
              ≡ (if refers entries k && ended k then detach_observers (store k) else store k))
  unfolding detach_ended
  detach_ended_lem store [] h = (refl, λ k. refl)
  detach_ended_lem store ((id, k) ∷ entries) h = elim (Bool-cases (ended k)) [
    | inl t ↦
        let (ids, stored) =
          detach_ended_lem (detached store k) entries (detached-has_ended store k h) in
        let (ids', same) = kept_on id (detach_ended env (detached store k) entries) ids in
        (
          rw (h k, t) ids',
          λ j.
              rw (h k, t)
                (ap (λ (f : ℕ → Conversation M). f j) same
                  ∙ stored j
                  ∙ detached_twice store k j (refers entries j) t),
        )
    | inr f ↦
        let (ids, stored) = detach_ended_lem store entries h in
        (rw (h k, f) ids, λ j. rw (h k, f) (stored j ∙ unaffected j k (store j) f))
  ]
    where
      unaffected :
          (j k : ℕ) (c : Conversation M)
          → ended k ≡ false
          → (if refers entries j && ended j then detach_observers c else c)
            ≡ (if (nat_beq j k || refers entries j) && ended j then detach_observers c else c)
      unaffected j k c f = elim (Bool-cases (nat_beq j k)) [
        | inr n ↦ rw n refl
        | inl t ↦ rw (t, (nat_beq_iff j k).0 t, f) (ground arith)
      ]

  -- Where `hasEnded` throws for no conversation, `cleanup` returns. Then just the entries of ended
  -- conversations are gone from the table, the ended conversations that stood in it have no
  -- observers, and every other conversation is as before. No id stands in the table twice.
  pub cleanup_lem :
      (mon : Monitor M)
      → DistinctKeys mon.active_conversations
      → ((k : ℕ) → has_ended env.sub (mon.conversations k) ≡ ok (ended k))
      → ((cleanup env mon).1 ≡ ok tt)
        × ((id : Text)
            → find id (cleanup env mon).0.active_conversations
              ≡ not_ended ended (find id mon.active_conversations))
        × ((k : ℕ)
            → (cleanup env mon).0.conversations k ≡ (
                if refers mon.active_conversations k && ended k
                then detach_observers (mon.conversations k)
                else mon.conversations k))
  unfolding cleanup
  cleanup_lem mon d h =
      let (ids, stored) = detach_ended_lem mon.conversations mon.active_conversations h in
      (
        rw ids refl,
        (λ id. rw ids (
            erase_all-find env (ended_ids ended mon.active_conversations) mon.active_conversations
              id
            ∙ ended_ids-find ended mon.active_conversations id d)),
        λ k. rw ids (stored k),
      )
