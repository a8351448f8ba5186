-- ===== src/Machine/Consume.antt =====
-- `StateMachine::consumeMessage` on a well-formed machine.
use multiagent_fipa_acl.Machine.Moved.{replace_state, Moved-IsWellFormed, perform-Moved}
use multiagent_fipa_acl.State.Messages.{proxied_transition, mark_replied, awaits_reply}
use multiagent_fipa_acl.State.Messages.Found.{
  get_substate_machine_proxied_transition_lem, forwarded, thrown, get_transition-All, ProxyOutcome,
}
use multiagent_fipa_acl.Base.{
  modify, if◌then◌else◌, Bool-cases, nat_eq, text_eq, is_empty, get_elem?, All-modify, Error,
  is_exception, Outcome, attempt, follow, catch, within, Result-cases, ok, err, ℕ, ◌≡◌, refl, ap,
  ◌∙◌, ◌⊎◌, inl, inr, true, false, some, List, [], ◌∷◌, ◌++◌, arith,
}
use multiagent_fipa_acl.Base.Maps.{put-find_self, has-put_known, find, put}
use multiagent_fipa_acl.Message.{AclMessage}
use multiagent_fipa_acl.Transition.{triggers, Transition}
use multiagent_fipa_acl.State.{EmbeddedStateMachine, State}
use multiagent_fipa_acl.Machine.{
  get_substate_machine_proxied_transition, consume_message, consume_directly, consume_proxied,
  get_current_state, get_transition, RegexMatch, StateMachine, perform,
}
use multiagent_fipa_acl.Machine.WellFormed.{
  current_state, IsWellFormed, TransitionOk, ProxyOk, EntryOk,
}
use multiagent_fipa_acl.Machine.Roles.{SameRoles}

module _ (regex_match : RegexMatch) {M : Type 0} where
  -- Why a message was taken, in state `s`: a transition of the state that leads to the new state,
  -- or the reply that an embedded state machine waited for, with which the state stays.
  abbrev pub Cause : StateMachine M → State M → AclMessage → StateMachine M → Type 0
  Cause sm s m after =
      ((t : Transition) × (get_transition regex_match s m sm.message_archive sm.role_mapping ≡ ok t)
        × (after.current_state_id ≡ t.target_state_id)
        × (after.states ≡ sm.states))
      ⊎ ((initiating : AclMessage) × (rest : List AclMessage) × (position : ℕ)
          × (e : EmbeddedStateMachine) × (sm.message_archive ≡ initiating ∷ rest)
          × (get_elem? s.embedded_state_machines position ≡ some e)
          × (awaits_reply e ≡ true)
          × (triggers regex_match (proxied_transition s e) m initiating sm.role_mapping ≡ ok true)
          × (after.current_state_id ≡ sm.current_state_id))

  pub record Accepted (sm : StateMachine M) (m : AclMessage) (after : StateMachine M) : Type 0 where
    pub well_formed : IsWellFormed after
    pub archive : after.message_archive ≡ sm.message_archive ++ m ∷ []
    pub roles : SameRoles sm.role_mapping after.role_mapping
    pub initial : after.initial_state_id ≡ sm.initial_state_id
    pub cause : (s : State M) × (find sm.current_state_id sm.states ≡ some s) × Cause sm s m after

  -- Either an exception and the machine as it was, or the message taken.
  abbrev pub ConsumeOutcome :
      StateMachine M → AclMessage → Outcome (StateMachine M) (Unit {0}) → Type 0
  ConsumeOutcome sm m out =
      ((x : Error) × (out ≡ (sm, err x))) ⊎ ((out.1 ≡ ok tt) × Accepted sm m out.0)

  module _ (sm : StateMachine M) (m : AclMessage) (w : IsWellFormed sm) (s : State M)
      (here : find sm.current_state_id sm.states ≡ some s) (now : get_current_state sm ≡ ok s)
      (o : EntryOk sm.states sm.role_mapping (sm.current_state_id, s)) where
    by_transition :
        (t : Transition)
        → get_transition regex_match s m sm.message_archive sm.role_mapping ≡ ok t
        → ((perform sm m t).1 ≡ ok tt) × Accepted sm m (perform sm m t).0
    by_transition t h =
        let k =
          get_transition-All regex_match
            (TransitionOk sm.states sm.role_mapping sm.current_state_id) s m sm.message_archive
            sm.role_mapping o.1 h in
        let (done, v) = perform-Moved sm m t k.sender k.receiver in
        (
          done,
          record {
            well_formed = Moved-IsWellFormed sm (perform sm m t).0 m t.target_state_id w k.target v;
            archive = v.archive;
            roles = v.roles;
            initial = v.initial;
            cause = (s, here, inl (t, h, v.current, v.states));
          },
        )

    unchanged : record sm { states = put sm.current_state_id s sm.states } ≡ sm
    unchanged =
        ap (λ states. record sm { states = states })
          (put-find_self sm.current_state_id sm.states here)

    ProxyDone : Outcome (State M) Transition → Type 0
    ProxyDone out = ConsumeOutcome sm m (
        follow (within (λ s'. record sm { states = put sm.current_state_id s' sm.states }) out)
          λ sm' t. perform sm' m t)

    mark_ProxyOk :
        (e : EmbeddedStateMachine)
        → ProxyOk sm.role_mapping e
        → ProxyOk sm.role_mapping (mark_replied e)
    unfolding mark_replied
    mark_ProxyOk e k = k

    awaiting_proxied :
        (e : EmbeddedStateMachine) → awaits_reply e ≡ true → is_empty e.proxied_to ≡ false
    awaiting_proxied e h = ground arith

    by_proxy :
        (out : Outcome (State M) Transition)
        → ProxyOutcome regex_match
            (ProxyOk sm.role_mapping)
            s
            m
            sm.message_archive
            sm.role_mapping
            out
        → ProxyDone out
    unfolding ProxyDone proxied_transition
    by_proxy _ (thrown x) = inl (x, rw unchanged refl)
    by_proxy _ (forwarded initiating rest i e first found p aw trig) =
        let s' = record s {
          embedded_state_machines = modify i mark_replied s.embedded_state_machines;
          substate_machine_proxied_transitions =
              s.substate_machine_proxied_transitions ++ proxied_transition s e ∷ [];
        } in
        let marked = record sm { states = put sm.current_state_id s' sm.states } in
        let fine = replace_state sm s s' w (
          o.0,
          o.1,
          All-modify (ProxyOk sm.role_mapping) i mark_replied s.embedded_state_machines mark_ProxyOk
              o.2,
        ) in
        let known = p (awaiting_proxied e aw) in
        let (done, v) = perform-Moved marked m (proxied_transition s e) known.0 known.1 in
        inr (
          done,
          record {
            well_formed =
                Moved-IsWellFormed marked (perform marked m (proxied_transition s e)).0 m s.id fine
                  (has-put_known sm.current_state_id s.id s' sm.states w.current ∙ rw o.0 w.current)
                  v;
            archive = v.archive;
            roles = v.roles;
            initial = v.initial;
            cause =
                (s, here, inr (initiating, rest, i, e, first, found, aw, trig, v.current ∙ o.0));
          },
        )

    consume_directly_steps :
        consume_directly regex_match sm m
        ≡ attempt
            (get_transition regex_match s m sm.message_archive sm.role_mapping)
            sm
            λ t. perform sm m t
    unfolding consume_directly
    consume_directly_steps = rw now refl

    consume_proxied_steps :
        consume_proxied regex_match sm m
        ≡ follow
            (within
              (λ s'. record sm { states = put sm.current_state_id s' sm.states })
              (get_substate_machine_proxied_transition regex_match s m sm.message_archive
                sm.role_mapping))
            λ sm' t. perform sm' m t
    unfolding consume_proxied
    consume_proxied_steps = rw now refl

    proxied_outcome : ConsumeOutcome sm m (consume_proxied regex_match sm m)
    unfolding ProxyDone proxied_transition
    proxied_outcome = rw consume_proxied_steps (
        by_proxy
          (get_substate_machine_proxied_transition regex_match s m sm.message_archive
            sm.role_mapping)
          (get_substate_machine_proxied_transition_lem regex_match (ProxyOk sm.role_mapping) s m
            sm.message_archive sm.role_mapping o.2))

    caught :
        (x : Error)
        → ConsumeOutcome sm m
            (if is_exception x then consume_proxied regex_match sm m else (sm, err x))
    caught x = elim (Bool-cases (is_exception x)) [
      | inl t ↦ rw t proxied_outcome
      | inr f ↦ rw f (inl (x, refl))
    ]

    direct_done :
        (out : Outcome (StateMachine M) (Unit {0}))
        → (out.1 ≡ ok tt) × Accepted sm m out.0
        → ConsumeOutcome sm m (catch is_exception out λ sm'. consume_proxied regex_match sm' m)
    direct_done (after, ok _) (done, a) = inr (refl, a)
    direct_done (after, err x) (bad, a) = absurd (ground arith)

    state_outcome : ConsumeOutcome sm m (consume_message regex_match sm m)
    unfolding consume_message
    state_outcome =
        rw consume_directly_steps
          (elim (Result-cases (get_transition regex_match s m sm.message_archive sm.role_mapping)) [
            | inl (t, h) ↦ rw h (direct_done (perform sm m t) (by_transition t h))
            | inr (x, h) ↦ rw h (caught x)
          ])

  -- On a well-formed machine `consumeMessage` either throws and changes nothing, or takes the
  -- message: the machine stays well formed, the archive has the message at its end, no role is
  -- lost or made up, and the current state is the target of the transition that the message
  -- triggers, or stays where a proxy awaited the message as its reply.
  pub consume_message_lem :
      (sm : StateMachine M) (m : AclMessage)
      → IsWellFormed sm
      → ConsumeOutcome sm m (consume_message regex_match sm m)
  consume_message_lem sm m w =
      let (s, here, now, o) = current_state sm w in state_outcome sm m w s here now o
