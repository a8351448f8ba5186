-- ===== src/State/Messages/Found.antt =====
-- What the searches for a transition return.
use multiagent_fipa_acl.Base.{
  modify, Bool-cases, nat_eq, text_eq, get_elem?, All, Error, Result, Outcome, Result-cases, ◌>>=◌,
  runtime_error, ok, err, ℕ, suc, ◌≡◌, refl, subst, inl, inr, true, false, some, List, [], ◌∷◌,
  ◌++◌, arith,
}
use multiagent_fipa_acl.Message.{AclMessage}
use multiagent_fipa_acl.Role.{RoleMapping, RegexMatch}
use multiagent_fipa_acl.Transition.{Transition, triggers}
use multiagent_fipa_acl.State.{State, EmbeddedStateMachine}
use multiagent_fipa_acl.State.Messages.{
  mark_replied, get_substate_machine_proxied_transition, MessageArchive, find_initiating,
  find_triggered, get_transition, find_proxy, proxied_transition, awaits_reply,
}

module _ (regex_match : RegexMatch) where
  find_initiating-All :
      (P : Transition → Type 0) (ts : List Transition) (m : AclMessage) {t : Transition}
      → All P ts
      → find_initiating regex_match ts m ≡ ok t
      → P t
  unfolding find_initiating
  find_initiating-All P [] m a h = cc
  find_initiating-All P (u ∷ ts) m {t} a h =
      elim (Result-cases (regex_match m.performative u.performative_reg_exp)) [
        | inr (x, e) ↦ absurd (ground arith)
        | inl (true, e) ↦ subst P (ground arith) a.0
        | inl (false, e) ↦ find_initiating-All P ts m a.1 (rw (e, find_initiating) at h)
      ]

  find_triggered-All :
      (P : Transition → Type 0) (ts : List Transition) (m initiating : AclMessage)
      (roles : RoleMapping) {t : Transition}
      → All P ts
      → find_triggered regex_match ts m initiating roles ≡ ok t
      → P t
  unfolding find_triggered
  find_triggered-All P [] m initiating roles a h = cc
  find_triggered-All P (u ∷ ts) m initiating roles {t} a h =
      elim (Result-cases (triggers regex_match u m initiating roles)) [
        | inr (x, e) ↦ absurd (ground arith)
        | inl (true, e) ↦ subst P (ground arith) a.0
        | inl (false, e) ↦
            find_triggered-All P ts m initiating roles a.1 (rw (e, find_triggered) at h)
      ]

module _ (regex_match : RegexMatch) {M : Type 0} where
  -- What holds of all transitions of the state holds of the one that is found.
  pub get_transition-All :
      (P : Transition → Type 0) (s : State M) (m : AclMessage) (archive : MessageArchive)
      (roles : RoleMapping) {t : Transition}
      → All P s.transitions
      → get_transition regex_match s m archive roles ≡ ok t
      → P t
  unfolding get_transition
  get_transition-All P s m [] roles a h = find_initiating-All regex_match P s.transitions m a h
  get_transition-All P s m (initiating ∷ _) roles a h =
      find_triggered-All regex_match P s.transitions m initiating roles a h

  -- A proxy with property `P` that still awaits its reply, and whose made-up transition the
  -- message triggers.
  ProxyFound :
      (EmbeddedStateMachine → Type 0)
      → State M
      → AclMessage
      → AclMessage
      → RoleMapping
      → List EmbeddedStateMachine
      → ℕ × Transition
      → Type 0
  ProxyFound P s m initiating roles es (i, t) =
      (e : EmbeddedStateMachine) × P e
      × (awaits_reply e ≡ true)
      × (triggers regex_match (proxied_transition s e) m initiating roles ≡ ok true)
      × (t ≡ proxied_transition s e)
      × (get_elem? es i ≡ some e)

  module _ (P : EmbeddedStateMachine → Type 0) (s : State M) (m initiating : AclMessage)
      (roles : RoleMapping) where
    found_behind :
        (e : EmbeddedStateMachine) (es : List EmbeddedStateMachine) (r : Result (ℕ × Transition))
        {found : ℕ × Transition}
        → ((f : ℕ × Transition) → r ≡ ok f → ProxyFound P s m initiating roles es f)
        → (r >>= λ f. ok (suc f.0, f.1)) ≡ ok found
        → ProxyFound P s m initiating roles (e ∷ es) found
    unfolding ProxyFound
    found_behind e es (ok f) {found} k h =
        let (x, px, wx, tx, fx, gx) = k f refl in
        let behind : suc f.0 ≡ found.0 = ground arith in
        (x, px, wx, tx, ground arith, subst (λ i. get_elem? (e ∷ es) i ≡ some x) behind gx)
    found_behind e es (err x) k h = cc

    find_proxy-ProxyFound :
        (es : List EmbeddedStateMachine) (found : ℕ × Transition)
        → All P es
        → find_proxy regex_match s es m initiating roles ≡ ok found
        → ProxyFound P s m initiating roles es found
    unfolding find_proxy ProxyFound
    find_proxy-ProxyFound [] found a h = cc
    find_proxy-ProxyFound (e ∷ es) found a h =
        let later =
          found_behind e es (find_proxy regex_match s es m initiating roles) {found = found}
            (λ f k. find_proxy-ProxyFound es f a.1 k) in
        elim (Bool-cases (awaits_reply e)) [
          | inr w ↦ later (rw (w, find_proxy) at h)
          | inl w ↦
              elim (Result-cases
                (triggers regex_match (proxied_transition s e) m initiating roles)) [
                  | inr (x, t) ↦ absurd (ground arith)
                  | inl (true, t) ↦
                      let front : 0 ≡ found.0 = ground arith in
                      (
                        e,
                        a.0,
                        w,
                        t,
                        ground arith,
                        subst (λ i. get_elem? (e ∷ es) i ≡ some e) front refl,
                      )
                  | inl (false, t) ↦ later (rw (w, t, find_proxy) at h)
                ]
        ]

  -- The outcomes of `getSubstateMachineProxiedTransition`.
  pub data ProxyOutcome (P : EmbeddedStateMachine → Type 0) (s : State M) (m : AclMessage)
      (archive : MessageArchive) (roles : RoleMapping) : Outcome (State M) Transition → Type 0 where
    thrown : (x : Error) → ProxyOutcome P s m archive roles (s, err x)
    forwarded :
        (initiating : AclMessage) (rest : List AclMessage) (position : ℕ) (e : EmbeddedStateMachine)
        → archive ≡ initiating ∷ rest
        → get_elem? s.embedded_state_machines position ≡ some e
        → P e
        → awaits_reply e ≡ true
        → triggers regex_match (proxied_transition s e) m initiating roles ≡ ok true
        → ProxyOutcome P s m archive roles (
          record s {
            embedded_state_machines = modify position mark_replied s.embedded_state_machines;
            substate_machine_proxied_transitions =
                s.substate_machine_proxied_transitions ++ proxied_transition s e ∷ [];
          },
          ok (proxied_transition s e),
        )

  pub get_substate_machine_proxied_transition_lem :
      (P : EmbeddedStateMachine → Type 0) (s : State M) (m : AclMessage) (archive : MessageArchive)
      (roles : RoleMapping)
      → All P s.embedded_state_machines
      → ProxyOutcome P s m archive roles
          (get_substate_machine_proxied_transition regex_match s m archive roles)
  unfolding get_substate_machine_proxied_transition ProxyFound
  get_substate_machine_proxied_transition_lem P s m [] roles a = thrown runtime_error
  get_substate_machine_proxied_transition_lem P s m (initiating ∷ rest) roles a =
      elim (Result-cases (find_proxy regex_match s s.embedded_state_machines m initiating roles)) [
        | inr (x, h) ↦ rw (h, get_substate_machine_proxied_transition) (thrown x)
        | inl ((i, t), h) ↦
            let (e, p, w, tr, same, found) =
              find_proxy-ProxyFound P s m initiating roles s.embedded_state_machines (i, t) a h in
            rw (h, get_substate_machine_proxied_transition)
              (rw same (forwarded initiating rest i e refl found p w tr))
      ]
