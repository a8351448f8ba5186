-- ===== src/Machine/Loading/Known.antt =====
-- The checks that `loadSpecification` makes of a parsed state machine: roles and states known.
use multiagent_fipa_acl.Base.{
  Bool-cases, &&_iff, list_beq_iff, ◌==◌, nat_eq, text_eq, All, All-mono, ◌≡◌, inl, inr, true, ◌&&◌,
  List, [], ◌∷◌, arith,
}
use multiagent_fipa_acl.Base.Maps.{Map, has}
use multiagent_fipa_acl.Role.{Role, RoleMapping, add_role}
use multiagent_fipa_acl.Role.Expected.{has_role, has_role-add_role}
use multiagent_fipa_acl.Transition.{Transition, StateId}
use multiagent_fipa_acl.State.{State, EmbeddedStateMachine}
use multiagent_fipa_acl.State.Linked.{Linked, links}
use multiagent_fipa_acl.Machine.WellFormed.{ProxyOk}
use multiagent_fipa_acl.Machine.Loading.{
  roles_of_transitions, roles_of_states, all_referenced_known, all_states_closed,
}

abbrev pub RolesKnown : RoleMapping → Transition → Type 0
RolesKnown roles t = (has_role roles t.sender_role ≡ true) × (has_role roles t.receiver_role ≡ true)

-- The second mapping knows every role of the first.
abbrev KnowsAll : RoleMapping → RoleMapping → Type 0
KnowsAll roles roles' = (role : Role) → has_role roles role ≡ true → has_role roles' role ≡ true

add_role-KnowsAll : (roles : RoleMapping) (role : Role) → KnowsAll roles (add_role roles role)
add_role-KnowsAll roles role other h = ground (arith, has_role-add_role roles role other)

has_role-add_role_self :
    (roles : RoleMapping) (role : Role) → has_role (add_role roles role) role ≡ true
has_role-add_role_self roles role =
    ground (arith, has_role-add_role roles role role, list_beq_iff role role)

RolesKnown-mono :
    (roles roles' : RoleMapping)
    → KnowsAll roles roles'
    → (ts : List Transition) → All (RolesKnown roles) ts
    → All (RolesKnown roles') ts
RolesKnown-mono roles roles' k ts a =
    All-mono (RolesKnown roles) (RolesKnown roles') ts
      (λ t h. (k t.sender_role h.0, k t.receiver_role h.1)) a

roles_of_transitions-RolesKnown :
    (roles : RoleMapping) (ts : List Transition)
    → KnowsAll roles (roles_of_transitions roles ts)
      × All (RolesKnown (roles_of_transitions roles ts)) ts
unfolding roles_of_transitions
roles_of_transitions-RolesKnown roles [] = ((λ role h. h), tt)
roles_of_transitions-RolesKnown roles (t ∷ ts) =
    let one = add_role roles t.sender_role in
    let (k, a) = roles_of_transitions-RolesKnown (add_role one t.receiver_role) ts in
    let keep = add_role-KnowsAll one t.receiver_role in
    (
      (λ role h. k role (keep role (add_role-KnowsAll roles t.sender_role role h))),
      (
        (
          k t.sender_role (keep t.sender_role (has_role-add_role_self roles t.sender_role)),
          k t.receiver_role (has_role-add_role_self one t.receiver_role),
        ),
        a,
      ),
    )

module _ {M : Type 0} where
  -- The mapping that `updateRoles` makes knows the roles of every transition.
  pub roles_of_states-RolesKnown :
      (roles : RoleMapping) (states : Map StateId (State M))
      → KnowsAll roles (roles_of_states roles states)
        × All (λ p. All (RolesKnown (roles_of_states roles states)) p.1.transitions) states
  unfolding roles_of_states
  roles_of_states-RolesKnown roles [] = ((λ role h. h), tt)
  roles_of_states-RolesKnown roles ((id, s) ∷ states) =
      let one = roles_of_transitions roles s.transitions in
      let (k, a) = roles_of_transitions-RolesKnown roles s.transitions in
      let (k', a') = roles_of_states-RolesKnown one states in
      (
        (λ role h. k' role (k role h)),
        (RolesKnown-mono one (roles_of_states one states) k' s.transitions a, a'),
      )

  all_referenced_known-All :
      (states : Map StateId (State M)) (ts : List Transition)
      → all_referenced_known states ts ≡ true
      → All (λ (t : Transition). has t.target_state_id states ≡ true) ts
  unfolding all_referenced_known
  all_referenced_known-All states [] h = tt
  all_referenced_known-All states (t ∷ ts) h =
      (ground arith, all_referenced_known-All states ts (ground arith))

  -- What passes `validate` leads to known states only.
  pub all_states_closed-All :
      (states rest : Map StateId (State M))
      → all_states_closed states rest ≡ true
      → All
          (λ p. All (λ (t : Transition). has t.target_state_id states ≡ true) p.1.transitions)
          rest
  unfolding all_states_closed
  all_states_closed-All states [] h = tt
  all_states_closed-All states ((id, s) ∷ rest) h = (
    all_referenced_known-All states s.transitions (ground arith),
    all_states_closed-All states rest (ground arith),
  )

links-RolesKnown :
    (roles : RoleMapping) (one other : Role) (ts : List Transition)
    → All (RolesKnown roles) ts
    → links one other ts ≡ true
    → (has_role roles one ≡ true) × (has_role roles other ≡ true)
links-RolesKnown roles one other [] a h = cc
links-RolesKnown roles one other (t ∷ ts) a h =
    elim (Bool-cases (t.sender_role == one && t.receiver_role == other)) [
      | inl e ↦
          let both = (&&_iff (t.sender_role == one) (t.receiver_role == other)).0 e in
          (
            rw ((list_beq_iff t.sender_role one).0 both.0) at a.0.0,
            rw ((list_beq_iff t.receiver_role other).0 both.1) at a.0.1,
          )
      | inr e ↦ links-RolesKnown roles one other ts a.1 (ground arith)
    ]

-- An embedded state machine whose roles a transition names forwards between known roles.
pub Linked-ProxyOk :
    (roles : RoleMapping) (ts : List Transition)
    → All (RolesKnown roles) ts
    → (e : EmbeddedStateMachine) → Linked ts e
    → ProxyOk roles e
Linked-ProxyOk roles ts a e c h = links-RolesKnown roles e.from_role e.proxied_to_role ts a (c h)
