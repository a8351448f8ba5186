-- ===== src/Role/Expected.antt =====
-- What the role mapping promises: `setSelf` works once, roles and their agents only grow.
use multiagent_fipa_acl.Agent.Compare.{agent_beq_refl}
use multiagent_fipa_acl.Base.{
  if◌then◌else◌, Bool-cases, Option-cases, list_beq_iff, ◌==◌, nat_eq, text_eq, Outcome,
  runtime_error, ok, err, ◌≡◌, refl, ◌∙◌, ◌≢◌, ◌⊎◌, inl, inr, Bool, true, false, none, some, List,
  [], ◌∷◌, ◌++◌, arith,
}
use multiagent_fipa_acl.Base.Maps.{
  insert_new, put, find-put, find, has, has-put, has-insert_new, has-find,
}
use multiagent_fipa_acl.Agent.{undefined_agent_id, agent_beq, contains_agent, AgentId}
use multiagent_fipa_acl.Role.{
  set_self_of, new_role_mapping, self_role, get_self, set_self, Role, RoleMapping, add_role,
  add_expected_agent, add_agent,
}

abbrev pub has_role : RoleMapping → Role → Bool
has_role roles role = has role roles.expected_agent_mapping

-- Adding a role makes it known, and forgets none.
pub has_role-add_role :
    (roles : RoleMapping) (role other : Role)
    → has_role (add_role roles role) other ≡ (if role == other then true else has_role roles other)
unfolding add_role
has_role-add_role roles role other = has-insert_new role other [] roles.expected_agent_mapping

-- Adding an agent changes no role.
pub has_role-add_expected_agent :
    (roles : RoleMapping) (role other : Role) (a : AgentId)
    → has_role (add_expected_agent roles role a).0 other ≡ has_role roles other
unfolding add_expected_agent
has_role-add_expected_agent roles role other a =
    elim (Option-cases (find role roles.expected_agent_mapping)) [
      | inl e ↦ rw (e, add_expected_agent) refl
      | inr (agents, e) ↦
          rw (e, add_expected_agent)
            (ground (
              arith,
              has-put role other (add_agent agents a) roles.expected_agent_mapping,
              has-find role roles.expected_agent_mapping {v = agents},
              list_beq_iff role other,
            ))
    ]

-- The two outcomes of `addExpectedAgent`.
abbrev pub AgentAdded : RoleMapping → Role → AgentId → Outcome RoleMapping (Unit {0}) → Type 0
AgentAdded roles role a outcome =
    ((find role roles.expected_agent_mapping ≡ none) × (outcome ≡ (roles, err runtime_error)))
    ⊎ ((agents : List AgentId) × (find role roles.expected_agent_mapping ≡ some agents)
        × (outcome.1 ≡ ok tt)
        × (find role outcome.0.expected_agent_mapping
            ≡ some (if contains_agent agents a then agents else agents ++ a ∷ []))
        × ((other : Role)
            → other ≢ role
            → find other outcome.0.expected_agent_mapping
              ≡ find other roles.expected_agent_mapping))

-- `addExpectedAgent` throws and changes nothing for an unknown role; for a known one it puts the
-- agent among those of the role unless an equal one is there, and changes no other role.
pub add_expected_agent_lem :
    (roles : RoleMapping) (role : Role) (a : AgentId)
    → AgentAdded roles role a (add_expected_agent roles role a)
unfolding add_expected_agent add_agent
add_expected_agent_lem roles role a = elim (Option-cases (find role roles.expected_agent_mapping)) [
  | inl e ↦ inl (e, rw (e, add_expected_agent) refl)
  | inr (agents, e) ↦ inr (
    agents,
    e,
    rw (e, add_expected_agent) refl,
    rw (e, add_expected_agent)
        (ground (
          arith,
          find-put role role (add_agent agents a) roles.expected_agent_mapping,
          list_beq_iff role role,
        )),
    λ other ne.
        rw (e, add_expected_agent)
          (ground (
            arith,
            find-put role other (add_agent agents a) roles.expected_agent_mapping,
            list_beq_iff role other,
            ne,
          )),
  )
]

cleared : RoleMapping → RoleMapping
cleared roles = record roles {
  expected_agent_mapping = put self_role [] roles.expected_agent_mapping;
}

find-cleared :
    (roles : RoleMapping) → find self_role (cleared roles).expected_agent_mapping ≡ some []
unfolding cleared
find-cleared roles = find-put self_role self_role [] roles.expected_agent_mapping

set_self_undefined :
    (roles : RoleMapping) (rest : List AgentId) (a : AgentId)
    → find self_role roles.expected_agent_mapping ≡ some (undefined_agent_id ∷ rest)
    → set_self roles a ≡ add_expected_agent (cleared roles) self_role a
unfolding set_self cleared
set_self_undefined roles rest a e =
    rw (e, set_self) (rw (agent_beq_refl undefined_agent_id, set_self_of) refl)

add_self :
    (roles : RoleMapping) (a : AgentId)
    → find self_role roles.expected_agent_mapping ≡ some []
    → ((add_expected_agent roles self_role a).1 ≡ ok tt)
      × (find self_role (add_expected_agent roles self_role a).0.expected_agent_mapping
          ≡ some (a ∷ []))
unfolding contains_agent
add_self roles a e = elim (add_expected_agent_lem roles self_role a) [
  | inl (missing, _) ↦ absurd (ground arith)
  | inr (agents, found, done, now, _) ↦ (done, ground arith)
]

get_self_of :
    (roles : RoleMapping) (a : AgentId) (rest : List AgentId)
    → find self_role roles.expected_agent_mapping ≡ some (a ∷ rest)
    → get_self roles ≡ ok a
unfolding get_self
get_self_of roles a rest e = rw (e, get_self) refl

set_self_again :
    (roles : RoleMapping) (front : AgentId) (rest : List AgentId) (a : AgentId)
    → find self_role roles.expected_agent_mapping ≡ some (front ∷ rest)
    → agent_beq front undefined_agent_id ≡ false
    → set_self roles a ≡ (roles, err runtime_error)
unfolding set_self
set_self_again roles front rest a e d = rw (e, set_self) (rw d refl)

find-new_role_mapping :
    find self_role new_role_mapping.expected_agent_mapping ≡ some (undefined_agent_id ∷ [])
unfolding new_role_mapping add_role add_expected_agent find put insert_new has contains_agent
find-new_role_mapping = refl

-- In a new mapping 'self' can be set, and is then what was set; once it is an agent other than
-- the undefined one, setting it again throws and changes nothing.
pub set_self_once :
    (a b : AgentId)
    → let once = set_self new_role_mapping a in
      (once.1 ≡ ok tt)
      × (get_self once.0 ≡ ok a)
      × (agent_beq a undefined_agent_id ≡ false → set_self once.0 b ≡ (once.0, err runtime_error))
set_self_once a b =
    let start = cleared new_role_mapping in
    let added = add_self start a (find-cleared new_role_mapping) in
    rw (set_self_undefined new_role_mapping [] a find-new_role_mapping) (
      added.0,
      get_self_of (add_expected_agent start self_role a).0 a [] added.1,
      set_self_again (add_expected_agent start self_role a).0 a [] b added.1,
    )

-- `setSelf` makes no role known or unknown.
pub set_self-has_role :
    (roles : RoleMapping) (a : AgentId) (other : Role)
    → has_role (set_self roles a).0 other ≡ has_role roles other
unfolding set_self cleared
set_self-has_role roles a other =
    elim (Option-cases (find self_role roles.expected_agent_mapping)) [
      | inl e ↦ rw (e, set_self) refl
      | inr ([], e) ↦ rw (e, set_self) refl
      | inr (front ∷ rest, e) ↦ elim (Bool-cases (agent_beq front undefined_agent_id)) [
        | inr f ↦ rw (e, set_self) (rw f refl)
        | inl t ↦
            rw (e, set_self)
              (rw t (
                has_role-add_expected_agent (cleared roles) self_role other a
                ∙ ground (
                  arith,
                  has-put self_role other [] roles.expected_agent_mapping,
                  has-find self_role roles.expected_agent_mapping {v = front ∷ rest},
                  list_beq_iff self_role other,
                )))
      ]
    ]
