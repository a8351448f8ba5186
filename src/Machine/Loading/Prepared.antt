-- ===== src/Machine/Loading/Prepared.antt =====
-- What the default transitions and default states of `loadSpecification` keep of a parsed machine.
use multiagent_fipa_acl.Base.{
  if◌then◌else◌, Bool-cases, Option-cases, ◌==◌, nat_eq, text_eq, is_empty, All, is_runtime_error,
  Outcome, follow, catch, aborted, ok, err, ◌≡◌, refl, sym, ◌∙◌, subst, inl, inr, Bool, true, false,
  [], ◌∷◌, arith,
}
use multiagent_fipa_acl.Base.Maps.{Map, has, find, has-put, All-put}
use multiagent_fipa_acl.Role.{RegexMatch}
use multiagent_fipa_acl.Transition.{
  StateId, not_understood_id, conversation_cancel_success_id, conversation_cancel_failure_id,
  general_failure_id,
}
use multiagent_fipa_acl.State.{
  State, new_state, set_final, final_state, conversation_cancelling_state,
}
use multiagent_fipa_acl.State
use multiagent_fipa_acl.State.Defaults.{FromState, conversation_cancelling_state-sources}
use multiagent_fipa_acl.State.Generated.{Generated, generate_default_transitions-Generated}
use multiagent_fipa_acl.State.Linked.{Linked, Generated-Linked}
use multiagent_fipa_acl.Machine.{StateMachine, add_state}
use multiagent_fipa_acl.Machine.Loading.{
  entry_done, default_transitions_of, generate_default_states,
}

-- If both steps return, what the first gives the second keeps.
pub followed :
    {S : Type 0} (P Q : S → Type 0) (out : Outcome S (Unit {0})) (next : S → Outcome S (Unit {0}))
    → (out.1 ≡ ok tt → P out.0)
    → ((s : S) → P s → (next s).1 ≡ ok tt → Q (next s).0)
    → (follow out λ s _. next s).1 ≡ ok tt
    → Q (follow out λ s _. next s).0
followed P Q (s, ok _) next p q h = q s (p refl) h
followed P Q (s, err e) next p q h = absurd (ground arith)

caught :
    {S : Type 0} (out : Outcome S (Unit {0}))
    → (catch is_runtime_error out λ s. (s, err aborted)).1 ≡ ok tt
    → (out.1 ≡ ok tt) × ((catch is_runtime_error out λ s. (s, err aborted)).0 ≡ out.0)
caught (s, ok _) h = (refl, refl)
caught (s, err e) h = elim (Bool-cases (is_runtime_error e)) [
  | inl t ↦ absurd (ground arith)
  | inr f ↦ absurd (ground arith)
]

module _ {M : Type 0} where
  -- An entry of the parsed machine: under its id, with transitions that start from it.
  abbrev pub Keyed : StateId × State M → Type 0
  Keyed (id, s) = (s.id ≡ id) × All (FromState id) s.transitions

  abbrev pub Ready : StateId × State M → Type 0
  Ready (id, s) =
      (s.id ≡ id)
      × All (FromState id) s.transitions
      × All (Linked s.transitions) s.embedded_state_machines

  module _ (regex_match : RegexMatch) where
    -- The entries, with their default transitions.
    unfoldable pub Completed :
        Map StateId (State M) → Outcome (Map StateId (State M)) (Unit {0}) → Type 0
    Completed states out =
        out.1 ≡ ok tt → All Ready out.0 × ((j : StateId) → has j out.0 ≡ has j states)

    entry_done-Completed :
        (id : StateId) (s : State M) (states : Map StateId (State M))
        (out : Outcome (State M) (Unit {0})) (rest : Outcome (Map StateId (State M)) (Unit {0}))
        → Keyed (id, s)
        → Generated regex_match s out
        → Completed states rest
        → Completed ((id, s) ∷ states) (entry_done id states out rest)
    unfolding Completed entry_done has
    entry_done-Completed id s states (s', err e) rest k g c h = absurd (ground arith)
    entry_done-Completed id s states (s', ok _) (states', r) k g c h =
        let (ready, same) = c h in
        let grows = g.0 in
        (
          (
            (
              grows.id ∙ k.0,
              subst (λ i. All (FromState i) s'.transitions) k.0
                  (grows.sources (subst (λ i. All (FromState i) s.transitions) (sym k.0) k.1)),
              Generated-Linked regex_match s (s', ok tt) g refl,
            ),
            ready,
          ),
          λ j. ground (arith, same j),
        )

    pub default_transitions_of-Completed :
        (states : Map StateId (State M))
        → All Keyed states
        → Completed states (default_transitions_of regex_match states)
    unfolding Completed default_transitions_of
    default_transitions_of-Completed [] k = λ h. (tt, λ j. refl)
    default_transitions_of-Completed ((id, s) ∷ states) k =
        entry_done-Completed id s states (State.generate_default_transitions regex_match s)
          (default_transitions_of regex_match states) k.0
          (generate_default_transitions-Generated regex_match s)
          (default_transitions_of-Completed states k.1)

  -- What every step of loading keeps.
  pub record Prepared (initial : StateId) (sm : StateMachine M) : Type 0 where
    pub entries : All Ready sm.states
    pub named : has {V = State M} [] sm.states ≡ false
    pub known : has initial sm.states ≡ true
    pub initial_state : sm.initial_state_id ≡ initial

  add_state-Prepared :
      (initial : StateId) (s : State M) (sm : StateMachine M)
      → Ready (s.id, s)
      → is_empty s.id ≡ false
      → Prepared initial sm
      → (add_state sm s).1 ≡ ok tt
      → Prepared initial (add_state sm s).0
  unfolding add_state
  add_state-Prepared initial s sm r n p h = elim (Option-cases (find s.id sm.states)) [
    | inr (old, e) ↦ absurd (ground arith)
    | inl e ↦
        rw (e, add_state)
          (record {
            entries = All-put Ready s.id s sm.states p.entries r;
            named = has-put s.id [] s sm.states ∙ unnamed s.id n p.named;
            known = has-put s.id initial s sm.states ∙ kept (s.id == initial) p.known;
            initial_state = p.initial_state;
          })
  ]
    where
      unnamed :
          (id : StateId) {b : Bool}
          → is_empty id ≡ false
          → b ≡ false
          → (if id == [] then true else b) ≡ false
      unnamed [] h k = cc
      unnamed (c ∷ id) h k = k

      kept : (test : Bool) {b : Bool} → b ≡ true → (if test then true else b) ≡ true
      kept test k = ground arith

  add_final-Prepared :
      (initial id : StateId) (sm : StateMachine M)
      → is_empty id ≡ false
      → Prepared initial sm
      → (add_state sm (final_state id)).1 ≡ ok tt
      → Prepared initial (add_state sm (final_state id)).0
  unfolding final_state new_state set_final
  add_final-Prepared initial id sm n p h =
      add_state-Prepared initial (final_state id) sm (refl, tt, tt) n p h

  add_cancelling-Prepared :
      (initial : StateId) (sm : StateMachine M)
      → Prepared initial sm
      → (add_state sm conversation_cancelling_state).1 ≡ ok tt
      → Prepared initial (add_state sm conversation_cancelling_state).0
  add_cancelling-Prepared initial sm p h =
      let (sources, no_embedded, name) = conversation_cancelling_state-sources M in
      let s = conversation_cancelling_state {M = M} in
      add_state-Prepared initial s sm
        (
          refl,
          subst (λ i. All (FromState i) s.transitions) (sym name) sources,
          subst (All (Linked s.transitions)) (sym no_embedded) tt,
        )
        (rw name refl) p h

  pub generate_default_states-Prepared :
      (initial : StateId) (sm : StateMachine M)
      → Prepared initial sm
      → (generate_default_states sm).1 ≡ ok tt
      → Prepared initial (generate_default_states sm).0
  unfolding generate_default_states
  generate_default_states-Prepared initial sm p h =
      let (done, same) = caught _ h in
      subst (Prepared initial) (sym same) (
        followed (Prepared initial) (Prepared initial)
          (add_state sm (final_state not_understood_id)) _
          (add_final-Prepared initial not_understood_id sm refl p)
          (λ sm1 p1.
            followed (Prepared initial) (Prepared initial)
              (add_state sm1 conversation_cancelling_state) _
              (add_cancelling-Prepared initial sm1 p1)
              (λ sm2 p2.
                followed (Prepared initial) (Prepared initial)
                  (add_state sm2 (final_state conversation_cancel_success_id)) _
                  (add_final-Prepared initial conversation_cancel_success_id sm2 refl p2)
                  (λ sm3 p3.
                    followed (Prepared initial) (Prepared initial)
                      (add_state sm3 (final_state conversation_cancel_failure_id)) _
                      (add_final-Prepared initial conversation_cancel_failure_id sm3 refl p3)
                      (λ sm4 p4. add_final-Prepared initial general_failure_id sm4 refl p4))))
          done)
