-- ===== src/State/Defaults.antt =====
-- What `State::generateDefaultTransitions` keeps and adds.
use multiagent_fipa_acl.Base.{
  Bool-cases, Option-cases, nat_eq, text_eq, any_of, any_of-append, All, All-append, ◌≡◌, refl, sym,
  ap, ◌∙◌, subst, ◌⊎◌, inl, inr, Bool, true, false, ◌||◌, some, List, [], ◌∷◌, ◌++◌, append-nil,
  append_assoc, arith,
}
use multiagent_fipa_acl.Role.{Role}
use multiagent_fipa_acl.Transition.{
  transition_of, cancel_failure_transition, cancel_success_transition, not_understood_id,
  conversation_cancelling_id, general_failure_id, StateId, Transition, transition_beq,
  not_understood_transition, conversation_cancelling_transition, general_failure_transition,
}
use multiagent_fipa_acl.Transition.Triggers.{transition_beq_iff}
use multiagent_fipa_acl.State.{
  new_state, conversation_cancelling_state, State, find_transition, add_transition, add_transitions,
  not_understood_both, cancelling_both,
}

-- An equal transition is in the list.
abbrev pub occurs : Transition → List Transition → Bool
occurs t ts = any_of (λ u. transition_beq u t) ts

abbrev pub FromState : StateId → Transition → Type 0
FromState id t = t.source_state_id ≡ id

or_true : (a : Bool) {b : Bool} → b ≡ true → (a || b) ≡ true
or_true a h = ground arith

find_transition-occurs :
    (t : Transition) (ts : List Transition) {u : Transition}
    → find_transition t ts ≡ some u
    → occurs t ts ≡ true
unfolding find_transition
find_transition-occurs t [] h = cc
find_transition-occurs t (other ∷ ts) {u} h = elim (Bool-cases (transition_beq other t)) [
  | inl same ↦ rw same refl
  | inr differs ↦
      or_true (transition_beq other t)
        (find_transition-occurs t ts {u = u} (rw (differs, find_transition) at h))
]

occurs-last : (t u : Transition) (ts : List Transition) → u ≡ t → occurs t (ts ++ u ∷ []) ≡ true
occurs-last t u ts h =
    any_of-append (λ u. transition_beq u t) ts (u ∷ [])
    ∙ or_true (occurs t ts) (or_first ((transition_beq_iff u t).1 h))
  where
    or_first : {a : Bool} → a ≡ true → (a || false) ≡ true
    or_first h = ground arith

-- The default transitions start from the state and lead to one of three others.
abbrev pub LeadsToDefault : Transition → Type 0
LeadsToDefault t =
    (t.target_state_id ≡ not_understood_id)
    ⊎ ((t.target_state_id ≡ conversation_cancelling_id) ⊎ (t.target_state_id ≡ general_failure_id))

module _ {M : Type 0} where
  -- A state that has only gained transitions, which start from it and lead to default states.
  pub record Grows (s s' : State M) : Type 0 where
    pub id : s'.id ≡ s.id
    pub final : s'.is_final ≡ s.is_final
    pub embedded : s'.embedded_state_machines ≡ s.embedded_state_machines
    pub subs : s'.sub_state_machines ≡ s.sub_state_machines
    pub sources : All (FromState s.id) s.transitions → All (FromState s.id) s'.transitions
    pub added :
        (ts : List Transition) × (s'.transitions ≡ s.transitions ++ ts)
        × All LeadsToDefault ts
        × All (FromState s.id) ts

  pub Grows-refl : (s : State M) → Grows s s
  Grows-refl s = record {
    id = refl;
    final = refl;
    embedded = refl;
    subs = refl;
    sources = λ h. h;
    added = ([], sym (append-nil s.transitions), tt, tt);
  }

  pub Grows-trans : (s t u : State M) → Grows s t → Grows t u → Grows s u
  Grows-trans s t u g h = record {
    id = h.id ∙ g.id;
    final = h.final ∙ g.final;
    embedded = h.embedded ∙ g.embedded;
    subs = h.subs ∙ g.subs;
    sources = λ a.
        subst (λ i. All (FromState i) u.transitions) g.id
          (h.sources (subst (λ i. All (FromState i) t.transitions) (sym g.id) (g.sources a)));
    added = (
      g.added.0 ++ h.added.0,
      h.added.1
          ∙ ap (λ ts. ts ++ h.added.0) g.added.1
          ∙ append_assoc s.transitions g.added.0 h.added.0,
      All-append LeadsToDefault g.added.0 h.added.0 g.added.2 h.added.2,
      All-append (FromState s.id) g.added.0 h.added.0 g.added.3
          (subst (λ i. All (FromState i) h.added.0) g.id h.added.3),
    );
  }

  pub occurs-Grows :
      (t : Transition) (s s' : State M)
      → Grows s s'
      → occurs t s.transitions ≡ true
      → occurs t s'.transitions ≡ true
  occurs-Grows t s s' g h =
      ap (occurs t) g.added.1
      ∙ any_of-append (λ u. transition_beq u t) s.transitions g.added.0
      ∙ rw h refl

  add_transition-Grows :
      (s : State M) (t : Transition) → LeadsToDefault t → Grows s (add_transition s t).0
  unfolding add_transition
  add_transition-Grows s t d = elim (Option-cases (find_transition t s.transitions)) [
    | inr (u, e) ↦ rw (e, add_transition) (Grows-refl s)
    | inl e ↦
        rw (e, add_transition)
          (record {
            id = refl;
            final = refl;
            embedded = refl;
            subs = refl;
            sources = λ h.
                All-append (FromState s.id) s.transitions (record t { source_state_id = s.id } ∷ [])
                  h (refl, tt);
            added = (record t { source_state_id = s.id } ∷ [], refl, (d, tt), (refl, tt));
          })
  ]

  pub add_transitions-Grows :
      (s : State M) (ts : List Transition) → All LeadsToDefault ts → Grows s (add_transitions s ts)
  unfolding add_transitions
  add_transitions-Grows s [] d = Grows-refl s
  add_transitions-Grows s (t ∷ ts) d =
      Grows-trans s (add_transition s t).0 (add_transitions (add_transition s t).0 ts)
        (add_transition-Grows s t d.0) (add_transitions-Grows (add_transition s t).0 ts d.1)

  -- After `addTransition` the transition is there.
  occurs-add_transition :
      (s : State M) (t : Transition)
      → FromState s.id t
      → occurs t (add_transition s t).0.transitions ≡ true
  unfolding add_transition
  occurs-add_transition s t h = elim (Option-cases (find_transition t s.transitions)) [
    | inr (u, e) ↦ rw (e, add_transition) (find_transition-occurs t s.transitions e)
    | inl e ↦
        rw (e, add_transition)
          (occurs-last t (record t { source_state_id = s.id }) s.transitions
            (ap (λ i. record t { source_state_id = i }) (sym h)))
  ]

  pub occurs-add_transitions :
      (s : State M) (id : StateId) (ts : List Transition)
      → s.id ≡ id
      → All (FromState id) ts
      → All LeadsToDefault ts
      → All (λ t. occurs t (add_transitions s ts).transitions ≡ true) ts
  unfolding add_transitions
  occurs-add_transitions s id [] e h d = tt
  occurs-add_transitions s id (t ∷ ts) e h d = (
    occurs-Grows t (add_transition s t).0 (add_transitions (add_transition s t).0 ts)
        (add_transitions-Grows (add_transition s t).0 ts d.1)
        (occurs-add_transition s t (h.0 ∙ sym e)),
    occurs-add_transitions (add_transition s t).0 id ts ((add_transition-Grows s t d.0).id ∙ e) h.1
        d.1,
  )

-- The default transitions between two roles and to a failure start from the state.
pub not_understood_both-source :
    (id : StateId) (one other : Role) → All (FromState id) (not_understood_both id one other)
unfolding not_understood_both not_understood_transition transition_of
not_understood_both-source id one other = (refl, (refl, tt))

pub cancelling_both-source :
    (id : StateId) (one other : Role) → All (FromState id) (cancelling_both id one other)
unfolding cancelling_both conversation_cancelling_transition transition_of
cancelling_both-source id one other = (refl, (refl, tt))

pub general_failure-source :
    (id : StateId) → All (FromState id) (general_failure_transition id ∷ [])
unfolding general_failure_transition transition_of
general_failure-source id = (refl, tt)

pub not_understood_both-default :
    (id : StateId) (one other : Role) → All LeadsToDefault (not_understood_both id one other)
unfolding not_understood_both not_understood_transition
not_understood_both-default id one other = (inl refl, (inl refl, tt))

pub cancelling_both-default :
    (id : StateId) (one other : Role) → All LeadsToDefault (cancelling_both id one other)
unfolding cancelling_both conversation_cancelling_transition
cancelling_both-default id one other = (inr (inl refl), (inr (inl refl), tt))

pub general_failure-default :
    (id : StateId) → All LeadsToDefault (general_failure_transition id ∷ [])
unfolding general_failure_transition
general_failure-default id = (inr (inr refl), tt)

-- The state in which a conversation is being cancelled has no embedded state machine, and its
-- transitions start from it.
pub conversation_cancelling_state-sources :
    (M : Type 0)
    → All (FromState conversation_cancelling_id) (conversation_cancelling_state {M = M}).transitions
      × ((conversation_cancelling_state {M = M}).embedded_state_machines ≡ [])
      × ((conversation_cancelling_state {M = M}).id ≡ conversation_cancelling_id)
unfolding conversation_cancelling_state add_transitions add_transition find_transition new_state
    cancel_success_transition cancel_failure_transition transition_of
conversation_cancelling_state-sources M = ((refl, (refl, tt)), refl, refl)
