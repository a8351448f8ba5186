-- ===== src/Machine/Loading/Loaded.antt =====
-- A state machine that `loadSpecification` returns is ready for use.
use multiagent_fipa_acl.Machine.Loading.Prepared.{
  default_transitions_of-Completed, generate_default_states-Prepared, followed, Prepared, Keyed,
  Completed, Ready,
}
use multiagent_fipa_acl.Base.{
  nat_eq, Text, text_eq, All, All-mono, Result, attempt, ok, err, ◌≡◌, refl, ◌∙◌, true, false, List,
  [], ◌∷◌, arith,
}
use multiagent_fipa_acl.Base.Maps.{Map, has}
use multiagent_fipa_acl.Role.{RegexMatch, RoleMapping}
use multiagent_fipa_acl.Transition.{Transition, StateId}
use multiagent_fipa_acl.State.{State}
use multiagent_fipa_acl.State.Defaults.{FromState}
use multiagent_fipa_acl.State.Linked.{Linked}
use multiagent_fipa_acl.Machine.{StateMachine, set_protocol, reset}
use multiagent_fipa_acl.Machine.WellFormed.{IsWellFormed, EntryOk, TransitionOk, ProxyOk}
use multiagent_fipa_acl.Machine.Loading.{
  generate_default_transitions, generate_default_states, update_roles, roles_of_states, validate,
  load_specification,
}
use multiagent_fipa_acl.Machine.Loading.Known.{
  RolesKnown, roles_of_states-RolesKnown, all_states_closed-All, Linked-ProxyOk,
}

module _ {M : Type 0} where
  module _ (states : Map StateId (State M)) (roles : RoleMapping) where
    transitions-TransitionOk :
        (id : StateId) (ts : List Transition)
        → All (FromState id) ts
        → All (RolesKnown roles) ts
        → All (λ (t : Transition). has t.target_state_id states ≡ true) ts
        → All (TransitionOk states roles id) ts
    transitions-TransitionOk id [] from known target = tt
    transitions-TransitionOk id (t ∷ ts) from known target = (
      record { source = from.0; target = target.0; sender = known.0.0; receiver = known.0.1 },
      transitions-TransitionOk id ts from.1 known.1 target.1,
    )

    entries-EntryOk :
        (rest : Map StateId (State M))
        → All Ready rest
        → All (λ p. All (RolesKnown roles) p.1.transitions) rest
        → All
            (λ p. All (λ (t : Transition). has t.target_state_id states ≡ true) p.1.transitions)
            rest
        → All (EntryOk states roles) rest
    entries-EntryOk [] ready known target = tt
    entries-EntryOk ((id, s) ∷ rest) ((name, from, covered), ready) (k, known) (t, target) = (
      (
        name,
        transitions-TransitionOk id s.transitions from k t,
        All-mono (Linked s.transitions) (ProxyOk roles) s.embedded_state_machines
            (Linked-ProxyOk roles s.transitions k) covered,
      ),
      entries-EntryOk rest ready known target,
    )

  validated :
      (initial : StateId) (sm : StateMachine M)
      → Prepared initial sm
      → validate (update_roles sm) ≡ ok tt
      → IsWellFormed (reset (update_roles sm))
  unfolding validate update_roles reset
  validated initial sm p h =
      let roles = roles_of_states sm.role_mapping sm.states in
      record {
        current = rw p.initial_state p.known;
        named = p.named;
        entries =
            entries-EntryOk sm.states roles sm.states p.entries
              (roles_of_states-RolesKnown sm.role_mapping sm.states).1
              (all_states_closed-All sm.states sm.states (ground arith));
      }

  module _ (regex_match : RegexMatch) where
    completed-Prepared :
        (sm : StateMachine M)
        → All Keyed sm.states
        → has {V = State M} [] sm.states ≡ false
        → has sm.initial_state_id sm.states ≡ true
        → (generate_default_transitions regex_match sm).1 ≡ ok tt
        → Prepared sm.initial_state_id (generate_default_transitions regex_match sm).0
    unfolding generate_default_transitions Completed
    completed-Prepared sm keyed unnamed known h =
        let (ready, same) = default_transitions_of-Completed regex_match sm.states keyed h in
        record {
          entries = ready;
          named = same [] ∙ unnamed;
          known = same sm.initial_state_id ∙ known;
          initial_state = refl;
        }

    -- A parsed state machine has each state under its id with transitions that start from it, no
    -- state with the empty id, and a known initial state. If `loadSpecification` returns such a
    -- machine, it is well formed and in its initial state.
    pub load_specification-IsWellFormed :
        (parsed : StateMachine M) (protocol : Text)
        → All Keyed parsed.states
        → has {V = State M} [] parsed.states ≡ false
        → has parsed.initial_state_id parsed.states ≡ true
        → (load_specification regex_match parsed protocol).1 ≡ ok tt
        → IsWellFormed (load_specification regex_match parsed protocol).0
          × ((load_specification regex_match parsed protocol).0.current_state_id
              ≡ parsed.initial_state_id)
    unfolding load_specification set_protocol update_roles reset
    load_specification-IsWellFormed parsed protocol keyed unnamed known =
        followed (Prepared parsed.initial_state_id) Loaded
          (generate_default_transitions regex_match (set_protocol parsed protocol)) _
          (completed-Prepared (set_protocol parsed protocol) keyed unnamed known)
          (λ sm p.
            followed (Prepared parsed.initial_state_id) Loaded (generate_default_states sm) _
              (generate_default_states-Prepared parsed.initial_state_id sm p)
              (λ sm' p'. close sm' p' (validate (update_roles sm')) refl))
      where
        Loaded : StateMachine M → Type 0
        Loaded sm = IsWellFormed sm × (sm.current_state_id ≡ parsed.initial_state_id)

        close :
            (sm : StateMachine M)
            → Prepared parsed.initial_state_id sm
            → (r : Result (Unit {0})) → validate (update_roles sm) ≡ r
            → (attempt r (update_roles sm) λ _. (reset (update_roles sm), ok tt)).1 ≡ ok tt
            → Loaded (attempt r (update_roles sm) λ _. (reset (update_roles sm), ok tt)).0
        close sm p (ok _) e h = (validated parsed.initial_state_id sm p e, p.initial_state)
        close sm p (err x) e h = absurd (ground arith)
