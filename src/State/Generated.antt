-- ===== src/State/Generated.antt =====
-- `State::generateDefaultTransitions` as a whole.
use multiagent_fipa_acl.Base.{
  if◌then◌else◌, Bool-cases, nat_eq, text_eq, is_empty, All, All-append, Outcome, follow,
  runtime_error, ok, err, ◌≡◌, refl, subst, inl, inr, Bool, true, false, ◌&&◌, List, [], ◌∷◌, ◌++◌,
  arith,
}
use multiagent_fipa_acl.Role.{RegexMatch}
use multiagent_fipa_acl.Transition.{general_failure_transition, StateId, Transition}
use multiagent_fipa_acl.State.{
  cancelling_both, not_understood_both, add_transitions, State, EmbeddedStateMachine,
  generate_default_transitions, proxy_defaults, all_defaults,
}
use multiagent_fipa_acl.State.Defaults.{
  general_failure-default, cancelling_both-default, not_understood_both-default,
  add_transitions-Grows, Grows-trans, LeadsToDefault, Grows-refl, Grows, FromState,
  occurs-add_transitions, not_understood_both-source, cancelling_both-source,
  general_failure-source,
}
use multiagent_fipa_acl.State.Owed.{
  Among, Among-Grows, Owed, Owed-All_Grows, all_defaults-Grows, all_defaults-Owed,
}

-- The default transitions between the roles of an embedded state machine that forwards replies.
abbrev pub proxied_defaults : StateId → EmbeddedStateMachine → List Transition
proxied_defaults id e =
    not_understood_both id e.from_role e.proxied_to_role
    ++ cancelling_both id e.from_role e.proxied_to_role
    ++ general_failure_transition id ∷ []

-- An embedded state machine that forwards replies has all of them.
abbrev pub Covered : StateId → List Transition → EmbeddedStateMachine → Type 0
Covered id ts e = is_empty e.proxied_to ≡ false → Among ts (proxied_defaults id e)

module _ {M : Type 0} where
  Covered-Grows :
      (s s' : State M) (id : StateId)
      → Grows s s'
      → (e : EmbeddedStateMachine) → Covered id s.transitions e
      → Covered id s'.transitions e
  Covered-Grows s s' id g e c h = Among-Grows s s' (proxied_defaults id e) g (c h)

  proxy_transitions-default :
      (s : State M) (e : EmbeddedStateMachine) → All LeadsToDefault (proxied_defaults s.id e)
  proxy_transitions-default s e =
      let nu = not_understood_both s.id e.from_role e.proxied_to_role in
      let ca = cancelling_both s.id e.from_role e.proxied_to_role in
      All-append LeadsToDefault (nu ++ ca) (general_failure_transition s.id ∷ [])
        (All-append LeadsToDefault nu ca
          (not_understood_both-default s.id e.from_role e.proxied_to_role)
          (cancelling_both-default s.id e.from_role e.proxied_to_role))
        (general_failure-default s.id)

  proxy_step : State M → EmbeddedStateMachine → State M
  proxy_step s e = if is_empty e.proxied_to then s else add_transitions s (proxied_defaults s.id e)

  proxy_step-Grows : (s : State M) (e : EmbeddedStateMachine) → Grows s (proxy_step s e)
  unfolding proxy_step
  proxy_step-Grows s e = elim (Bool-cases (is_empty e.proxied_to)) [
    | inl h ↦ rw h (Grows-refl s)
    | inr h ↦
        rw h (add_transitions-Grows s (proxied_defaults s.id e) (proxy_transitions-default s e))
  ]

  proxy_transitions-source :
      (s : State M) (e : EmbeddedStateMachine) → All (FromState s.id) (proxied_defaults s.id e)
  proxy_transitions-source s e =
      let nu = not_understood_both s.id e.from_role e.proxied_to_role in
      let ca = cancelling_both s.id e.from_role e.proxied_to_role in
      All-append (FromState s.id) (nu ++ ca) (general_failure_transition s.id ∷ [])
        (All-append (FromState s.id) nu ca
          (not_understood_both-source s.id e.from_role e.proxied_to_role)
          (cancelling_both-source s.id e.from_role e.proxied_to_role))
        (general_failure-source s.id)

  proxy_step-Covered :
      (s : State M) (e : EmbeddedStateMachine) → Covered s.id (proxy_step s e).transitions e
  unfolding proxy_step
  proxy_step-Covered s e h = rw h (
      occurs-add_transitions s s.id (proxied_defaults s.id e) refl (proxy_transitions-source s e)
        (proxy_transitions-default s e))

  proxy_defaults-Grows :
      (s : State M) (es : List EmbeddedStateMachine)
      → Grows s (proxy_defaults s es) × All (Covered s.id (proxy_defaults s es).transitions) es
  unfolding proxy_defaults proxy_step
  proxy_defaults-Grows s [] = (Grows-refl s, tt)
  proxy_defaults-Grows s (e ∷ es) =
      let s' = proxy_step s e in
      let (g, c) = proxy_defaults-Grows s' es in
      let first = proxy_step-Grows s e in
      (
        Grows-trans s s' (proxy_defaults s' es) first g,
        (
          Covered-Grows s' (proxy_defaults s' es) s.id g e (proxy_step-Covered s e),
          subst (λ i. All (Covered i (proxy_defaults s' es).transitions) es) first.id c,
        ),
      )

module _ {M : Type 0} (regex_match : RegexMatch) where
  generate : State M → Outcome (State M) (Unit {0})
  generate s =
      follow (all_defaults regex_match s s.transitions)
        λ s' _. (proxy_defaults s' s'.embedded_state_machines, ok tt)

  -- The state has grown. A final state with no embedded state machine stays as it is; where the
  -- method returns on another, each transition that was there has what it calls for, and each
  -- embedded state machine that forwards replies has its defaults.
  abbrev pub Generated : State M → Outcome (State M) (Unit {0}) → Type 0
  Generated s out =
      Grows s out.0
      × ((s.is_final && is_empty s.embedded_state_machines) ≡ true → out ≡ (s, ok tt))
      × ((s.is_final && is_empty s.embedded_state_machines) ≡ false
          → out.1 ≡ ok tt
          → All (Owed regex_match s.id out.0.transitions) s.transitions
            × All (Covered s.id out.0.transitions) s.embedded_state_machines)

  abbrev Filled : State M → Outcome (State M) (Unit {0}) → Type 0
  Filled s out =
      Grows s out.0
      × (out.1 ≡ ok tt
          → All (Owed regex_match s.id out.0.transitions) s.transitions
            × All (Covered s.id out.0.transitions) s.embedded_state_machines)

  generate-Filled : (s : State M) → Filled s (generate s)
  unfolding generate
  generate-Filled s =
      go (all_defaults regex_match s s.transitions) (all_defaults-Grows regex_match s s.transitions)
        (all_defaults-Owed regex_match s s.transitions)
    where
      go :
          (out : Outcome (State M) (Unit {0}))
          → Grows s out.0
          → (out.1 ≡ ok tt → All (Owed regex_match s.id out.0.transitions) s.transitions)
          → Filled s (follow out λ s' _. (proxy_defaults s' s'.embedded_state_machines, ok tt))
      go (s', err x) g o = (g, λ h. absurd (ground arith))
      go (s', ok _) g o =
          let (h, c) = proxy_defaults-Grows s' s'.embedded_state_machines in
          let after = proxy_defaults s' s'.embedded_state_machines in
          (
            Grows-trans s s' after g h,
            λ _. (
              Owed-All_Grows regex_match s' after s.id s.transitions h (o refl),
              subst (All (Covered s.id after.transitions)) g.embedded (
                  subst (λ i. All (Covered i after.transitions) s'.embedded_state_machines) g.id c),
            ),
          )

  by_tests :
      (s : State M) (final no_embedded no_transitions : Bool)
      → s.is_final ≡ final
      → is_empty s.embedded_state_machines ≡ no_embedded
      → Filled s (generate s)
      → Generated s (
          if final
          then (if no_embedded then (s, ok tt) else generate s)
          else if no_transitions
          then (s, err runtime_error)
          else generate s)
  by_tests s true true n a b f = (Grows-refl s, λ _. refl, λ h. absurd (ground arith))
  by_tests s true false n a b f = (f.0, λ h. absurd (ground arith), λ _. f.1)
  by_tests s false e true a b f =
      (Grows-refl s, λ h. absurd (ground arith), λ _ k. absurd (ground arith))
  by_tests s false e false a b f = (f.0, λ h. absurd (ground arith), λ _. f.1)

  pub generate_default_transitions-Generated :
      (s : State M) → Generated s (generate_default_transitions regex_match s)
  unfolding generate_default_transitions generate
  generate_default_transitions-Generated s =
      by_tests s s.is_final (is_empty s.embedded_state_machines) (is_empty s.transitions) refl refl
        (generate-Filled s)
