-- ===== src/State/SubConversations/Kept.antt =====
-- What a message of a sub-conversation leaves alone in a state.
use multiagent_fipa_acl.Base.{
  if◌then◌else◌, Bool-cases, nat_eq, Text, text_eq, is_empty, length, All, All-modify, Result,
  Outcome, attempt, follow, within, runtime_error, ok, err, ℕ, ◌≡◌, refl, inl, inr, Bool, true,
  false, Option, none, some, List,
}
use multiagent_fipa_acl.Base.Ints.{ℤ}
use multiagent_fipa_acl.Message.{AclMessage}
use multiagent_fipa_acl.Role.{RoleMapping, RegexMatch}
use multiagent_fipa_acl.State.{State, EmbeddedStateMachine}
use multiagent_fipa_acl.State.SubConversations.{
  SubMachine, record_start, keep_started, start_sub_machine, try_sub_machines, find_embedded,
  consume_sub_state_machine_message,
}

module _ {M : Type 0} where
  -- Id and transitions stay, and so does what holds of an embedded state machine whatever its
  -- protocol in use and its number of sub-conversations.
  pub record SameShape (s s' : State M) : Type 1 where
    pub id : s'.id ≡ s.id
    pub transitions : s'.transitions ≡ s.transitions
    pub proxies :
        (P : EmbeddedStateMachine → Type 0)
        → ((e : EmbeddedStateMachine) (protocol : Text) (amount : ℤ)
            → P e
            → P (record e { actual_protocol = protocol; number_of_sub_conversations = amount }))
        → All P s.embedded_state_machines
        → All P s'.embedded_state_machines

  SameShape-refl : (s : State M) → SameShape s s
  SameShape-refl s = record { id = refl; transitions = refl; proxies = λ P k a. a }

  keep_started-SameShape :
      (s s' : State M) (m : AclMessage) (position : ℕ) (amount : ℤ) (out : Outcome M (Unit {0}))
      → SameShape s s'
      → SameShape s (keep_started s' m position amount out).0
  unfolding keep_started record_start
  keep_started-SameShape s s' m position amount (machine, err e) k = k
  keep_started-SameShape s s' m position amount (machine, ok _) k = record {
    id = k.id;
    transitions = k.transitions;
    proxies = λ P keep a.
        All-modify P position (record_start m.protocol amount) s'.embedded_state_machines
          (λ e. keep e m.protocol amount) (k.proxies P keep a);
  }

  module _ (sub : SubMachine M) (regex_match : RegexMatch) where
    start_sub_machine-SameShape :
        (s s' : State M) (m : AclMessage) (machine : M) (position : ℕ) (amount : ℤ)
        → SameShape s s'
        → SameShape s (start_sub_machine sub regex_match s' m machine position amount).0
    unfolding start_sub_machine
    start_sub_machine-SameShape s s' m machine position amount k =
        elim (Bool-cases (is_empty m.protocol)) [
          | inl e ↦ rw e k
          | inr e ↦ rw e (keep_started-SameShape s s' m position amount _ k)
        ]

    -- Whether or not it throws.
    pub consume_sub_state_machine_message-SameShape :
        (s : State M) (m : AclMessage) (machine : M) (roles : RoleMapping) (amount : ℤ)
        → SameShape s (consume_sub_state_machine_message sub regex_match s m machine roles amount).0
    unfolding consume_sub_state_machine_message
    consume_sub_state_machine_message-SameShape s m machine roles amount =
        tried (try_sub_machines sub s.sub_state_machines m)
      where
        searched :
            (s' : State M) (found : Result (Option ℕ))
            → SameShape s s'
            → SameShape s
                (attempt found s' λ position. elim position [
                  | none ↦ (s', err runtime_error)
                  | some position ↦ start_sub_machine sub regex_match s' m machine position amount
                ]).0
        searched s' (err e) k = k
        searched s' (ok none) k = k
        searched s' (ok (some position)) k =
            start_sub_machine-SameShape s s' m machine position amount k

        tried :
            (out : Outcome (List M) Bool)
            → SameShape s
                (follow (within (λ ms. record s { sub_state_machines = ms }) out) λ s' taken.
                  if taken
                  then (s', ok tt)
                  else attempt
                      (find_embedded sub regex_match s'.embedded_state_machines m roles
                        (length s'.sub_state_machines)
                        amount)
                      s'
                      λ found. elim found [
                        | none ↦ (s', err runtime_error)
                        | some position ↦
                            start_sub_machine sub regex_match s' m machine position amount
                      ]).0
        tried (ms, err e) = record { id = refl; transitions = refl; proxies = λ P k a. a }
        tried (ms, ok true) = record { id = refl; transitions = refl; proxies = λ P k a. a }
        tried (ms, ok false) =
            searched (record s { sub_state_machines = ms }) _
              (record { id = refl; transitions = refl; proxies = λ P k a. a })
