-- ===== src/State/Owed.antt =====
-- The first loop of `State::generateDefaultTransitions`: the defaults of each transition.
use multiagent_fipa_acl.Performative.{cancel, failure, not_understood, performative_txt}
use multiagent_fipa_acl.Base.{
  nat_eq, text_eq, All, Outcome, follow, Result-cases, ok, err, ◌≡◌, refl, subst, inl, inr, true,
  false, List, [], ◌∷◌, arith,
}
use multiagent_fipa_acl.Role.{RegexMatch}
use multiagent_fipa_acl.Transition.{StateId, Transition, general_failure_transition}
use multiagent_fipa_acl.State.{
  State, add_transitions, not_understood_both, cancelling_both, defaults_for, all_defaults,
}
use multiagent_fipa_acl.State.Defaults.{
  occurs, occurs-Grows, occurs-add_transitions, Grows, Grows-refl, Grows-trans,
  add_transitions-Grows, not_understood_both-default, cancelling_both-default,
  general_failure-default, not_understood_both-source, cancelling_both-source,
  general_failure-source,
}

-- All of these transitions are among the others.
abbrev pub Among : List Transition → List Transition → Type 0
Among ts ds = All (λ d. occurs d ts ≡ true) ds

pub Among-Grows :
    {M : Type 0} (s s' : State M) (ds : List Transition)
    → Grows s s'
    → Among s.transitions ds
    → Among s'.transitions ds
Among-Grows s s' [] g h = tt
Among-Grows s s' (d ∷ ds) g h = (occurs-Grows d s s' g h.0, Among-Grows s s' ds g h.1)

module _ (regex_match : RegexMatch) where
  -- What a transition calls for, by the performatives that its pattern does not match: the first of
  -- "not-understood", "cancel" and "failure" that it matches leaves out that one and those behind.
  abbrev pub Owed : StateId → List Transition → Transition → Type 0
  Owed id ts t =
      (regex_match (performative_txt not_understood) t.performative_reg_exp ≡ ok false
        → Among ts (not_understood_both id t.sender_role t.receiver_role))
      × (regex_match (performative_txt not_understood) t.performative_reg_exp ≡ ok false
          → regex_match (performative_txt cancel) t.performative_reg_exp ≡ ok false
          → Among ts (cancelling_both id t.sender_role t.receiver_role))
      × (regex_match (performative_txt not_understood) t.performative_reg_exp ≡ ok false
          → regex_match (performative_txt cancel) t.performative_reg_exp ≡ ok false
          → regex_match (performative_txt failure) t.performative_reg_exp ≡ ok false
          → Among ts (general_failure_transition id ∷ []))

  Owed-Grows :
      {M : Type 0} (s s' : State M) (id : StateId) (t : Transition)
      → Grows s s'
      → Owed id s.transitions t
      → Owed id s'.transitions t
  Owed-Grows s s' id t g h = (
    λ a. Among-Grows s s' (not_understood_both id t.sender_role t.receiver_role) g (h.0 a),
    λ a b. Among-Grows s s' (cancelling_both id t.sender_role t.receiver_role) g (h.1 a b),
    λ a b c. Among-Grows s s' (general_failure_transition id ∷ []) g (h.2 a b c),
  )

  pub Owed-All_Grows :
      {M : Type 0} (s s' : State M) (id : StateId) (ts : List Transition)
      → Grows s s'
      → All (Owed id s.transitions) ts
      → All (Owed id s'.transitions) ts
  Owed-All_Grows s s' id [] g h = tt
  Owed-All_Grows s s' id (t ∷ ts) g h =
      (Owed-Grows s s' id t g h.0, Owed-All_Grows s s' id ts g h.1)

module _ {M : Type 0} (regex_match : RegexMatch) where
  module _ (s : State M) (t : Transition) where
    -- The state after each group of defaults.
    abbrev one : State M
    one = add_transitions s (not_understood_both s.id t.sender_role t.receiver_role)

    abbrev two : State M
    two = add_transitions one (cancelling_both s.id t.sender_role t.receiver_role)

    abbrev three : State M
    three = add_transitions two (general_failure_transition s.id ∷ [])

    one-Grows : Grows s one
    one-Grows =
        add_transitions-Grows s (not_understood_both s.id t.sender_role t.receiver_role)
          (not_understood_both-default s.id t.sender_role t.receiver_role)

    two_step : Grows one two
    two_step =
        add_transitions-Grows one (cancelling_both s.id t.sender_role t.receiver_role)
          (cancelling_both-default s.id t.sender_role t.receiver_role)

    two-Grows : Grows s two
    two-Grows = Grows-trans s one two one-Grows two_step

    three_step : Grows two three
    three_step =
        add_transitions-Grows two (general_failure_transition s.id ∷ [])
          (general_failure-default s.id)

    three-Grows : Grows s three
    three-Grows = Grows-trans s two three two-Grows three_step

    one-Among : Among one.transitions (not_understood_both s.id t.sender_role t.receiver_role)
    one-Among =
        occurs-add_transitions s s.id (not_understood_both s.id t.sender_role t.receiver_role) refl
          (not_understood_both-source s.id t.sender_role t.receiver_role)
          (not_understood_both-default s.id t.sender_role t.receiver_role)

    two-Among : Among two.transitions (cancelling_both s.id t.sender_role t.receiver_role)
    two-Among =
        occurs-add_transitions one s.id (cancelling_both s.id t.sender_role t.receiver_role)
          one-Grows.id (cancelling_both-source s.id t.sender_role t.receiver_role)
          (cancelling_both-default s.id t.sender_role t.receiver_role)

    three-Among : Among three.transitions (general_failure_transition s.id ∷ [])
    three-Among =
        occurs-add_transitions two s.id (general_failure_transition s.id ∷ []) two-Grows.id
          (general_failure-source s.id) (general_failure-default s.id)

    two-keeps : Among two.transitions (not_understood_both s.id t.sender_role t.receiver_role)
    two-keeps =
        Among-Grows one two (not_understood_both s.id t.sender_role t.receiver_role) two_step
          one-Among

    three-keeps :
        Among three.transitions (not_understood_both s.id t.sender_role t.receiver_role)
        × Among three.transitions (cancelling_both s.id t.sender_role t.receiver_role)
    three-keeps = (
      Among-Grows two three (not_understood_both s.id t.sender_role t.receiver_role) three_step
          two-keeps,
      Among-Grows two three (cancelling_both s.id t.sender_role t.receiver_role) three_step
          two-Among,
    )

  defaults_for-Grows : (s : State M) (t : Transition) → Grows s (defaults_for regex_match s t).0
  unfolding defaults_for
  defaults_for-Grows s t =
      elim (Result-cases (regex_match (performative_txt not_understood) t.performative_reg_exp)) [
        | inr (x, e) ↦ rw e (Grows-refl s)
        | inl (true, e) ↦ rw e (Grows-refl s)
        | inl (false, e) ↦
            rw e
              (elim (Result-cases (regex_match (performative_txt cancel) t.performative_reg_exp)) [
                | inr (x, f) ↦ rw f (one-Grows s t)
                | inl (true, f) ↦ rw f (one-Grows s t)
                | inl (false, f) ↦
                    rw f
                      (elim (Result-cases
                        (regex_match (performative_txt failure) t.performative_reg_exp)) [
                          | inr (x, g) ↦ rw g (two-Grows s t)
                          | inl (true, g) ↦ rw g (two-Grows s t)
                          | inl (false, g) ↦ rw g (three-Grows s t)
                        ])
              ])
      ]

  follow-Grows :
      (s : State M) (out : Outcome (State M) (Unit {0}))
      (next : State M → Unit {0} → Outcome (State M) (Unit {0}))
      → Grows s out.0
      → ((s' : State M) → Grows s' (next s' tt).0)
      → Grows s (follow out next).0
  follow-Grows s (s', ok _) next g h = Grows-trans s s' (next s' tt).0 g (h s')
  follow-Grows s (s', err x) next g h = g

  pub all_defaults-Grows :
      (s : State M) (ts : List Transition) → Grows s (all_defaults regex_match s ts).0
  unfolding all_defaults
  all_defaults-Grows s [] = Grows-refl s
  all_defaults-Grows s (t ∷ ts) =
      follow-Grows s (defaults_for regex_match s t) (λ s' _. all_defaults regex_match s' ts)
        (defaults_for-Grows s t) (λ s'. all_defaults-Grows s' ts)

  -- What the body of the loop adds is what the transition calls for.
  defaults_for-Owed :
      (s : State M) (t : Transition)
      → (defaults_for regex_match s t).1 ≡ ok tt
      → Owed regex_match s.id (defaults_for regex_match s t).0.transitions t
  unfolding defaults_for
  defaults_for-Owed s t =
      elim (Result-cases (regex_match (performative_txt not_understood) t.performative_reg_exp)) [
        | inr (x, e) ↦ rw e (λ h. absurd (ground arith))
        | inl (true, e) ↦ rw e (λ h. (
          λ a. absurd (ground arith),
          λ a b. absurd (ground arith),
          λ a b c. absurd (ground arith),
        ))
        | inl (false, e) ↦
            rw e
              (elim (Result-cases (regex_match (performative_txt cancel) t.performative_reg_exp)) [
                | inr (x, f) ↦ rw f (λ h. absurd (ground arith))
                | inl (true, f) ↦ rw f (λ h. (
                  λ a. one-Among s t,
                  λ a b. absurd (ground arith),
                  λ a b c. absurd (ground arith),
                ))
                | inl (false, f) ↦
                    rw f
                      (elim (Result-cases
                        (regex_match (performative_txt failure) t.performative_reg_exp)) [
                          | inr (x, g) ↦ rw g (λ h. absurd (ground arith))
                          | inl (true, g) ↦ rw g (λ h. (
                            λ a. two-keeps s t,
                            λ a b. two-Among s t,
                            λ a b c. absurd (ground arith),
                          ))
                          | inl (false, g) ↦ rw g (λ h. (
                            (λ a. (three-keeps s t).0),
                            (λ a b. (three-keeps s t).1),
                            λ a b c. three-Among s t,
                          ))
                        ])
              ])
      ]

  pub all_defaults-Owed :
      (s : State M) (ts : List Transition)
      → (all_defaults regex_match s ts).1 ≡ ok tt
      → All (Owed regex_match s.id (all_defaults regex_match s ts).0.transitions) ts
  unfolding all_defaults
  all_defaults-Owed s [] h = tt
  all_defaults-Owed s (t ∷ ts) h =
      after (defaults_for regex_match s t) (defaults_for-Grows s t) (defaults_for-Owed s t)
        (λ s'. all_defaults-Grows s' ts) (λ s'. all_defaults-Owed s' ts) h
    where
      after :
          (out : Outcome (State M) (Unit {0}))
          → Grows s out.0
          → (out.1 ≡ ok tt → Owed regex_match s.id out.0.transitions t)
          → ((s' : State M) → Grows s' (all_defaults regex_match s' ts).0)
          → ((s' : State M)
              → (all_defaults regex_match s' ts).1 ≡ ok tt
              → All (Owed regex_match s'.id (all_defaults regex_match s' ts).0.transitions) ts)
          → (follow out (λ s' _. all_defaults regex_match s' ts)).1 ≡ ok tt
          → All
              (Owed regex_match s.id
                (follow out (λ s' _. all_defaults regex_match s' ts)).0.transitions)
              (t ∷ ts)
      after (s', err x) g o grows rest h = absurd (ground arith)
      after (s', ok _) g o grows rest h = (
        Owed-Grows regex_match s' (all_defaults regex_match s' ts).0 s.id t (grows s') (o refl),
        subst (λ i. All (Owed regex_match i (all_defaults regex_match s' ts).0.transitions) ts) g.id
            (rest s' h),
      )
