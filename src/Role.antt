-- ===== src/Role.antt =====
-- conversation_monitor/role.h and role.cpp: roles, and which agents are expected in them.
pub mod Expected
pub mod Matching
use multiagent_fipa_acl.Base.{
  if◌then◌else◌, nat_eq, Text, text_eq, codes, Result, ◌>>=◌, Outcome, runtime_error, aborted, ok,
  err, ◌+◌, Bool, true, false, none, some, List, [], ◌∷◌, ◌++◌,
}
use multiagent_fipa_acl.Base.Maps.{Map, find, put, insert_new}
use multiagent_fipa_acl.Agent.{AgentId, get_name, undefined_agent_id, agent_beq, contains_agent}

-- `Role` wraps the text of its id, and compares by it.
abbrev pub Role : Type 0
Role = Text

abbrev pub undefined_role : Role
undefined_role = codes "__undefined__"

abbrev pub self_role : Role
self_role = codes "__self__"

-- `std::regex_match(text, std::regex(pattern))`, of the C++ library: whether the whole text
-- matches, or an error where the pattern is no regular expression.
abbrev pub RegexMatch : Type 0
RegexMatch = Text → Text → Result Bool

pub record RoleMapping : Type 0 where
  pub expected_agent_mapping : Map Role (List AgentId)

-- `RoleMapping::addRole`
unfoldable pub add_role : RoleMapping → Role → RoleMapping
add_role roles role = record roles {
  expected_agent_mapping = insert_new role [] roles.expected_agent_mapping;
}

add_agent : List AgentId → AgentId → List AgentId
add_agent agents a = if contains_agent agents a then agents else agents ++ a ∷ []

-- `RoleMapping::addExpectedAgent`
unfoldable pub add_expected_agent : RoleMapping → Role → AgentId → Outcome RoleMapping (Unit {0})
unfolding add_agent
add_expected_agent roles role a = elim (find role roles.expected_agent_mapping) [
  | none ↦ (roles, err runtime_error)
  | some agents ↦ (
    record roles {
      expected_agent_mapping = put role (add_agent agents a) roles.expected_agent_mapping;
    },
    ok tt,
  )
]

no_roles : RoleMapping
no_roles = record { expected_agent_mapping = [] }

-- `RoleMapping::RoleMapping()`, and `resetExpectedAgents`, which clears the map first.
unfoldable pub new_role_mapping : RoleMapping
unfolding no_roles
new_role_mapping = (add_expected_agent (add_role no_roles self_role) self_role undefined_agent_id).0

unfoldable pub reset_expected_agents : RoleMapping → RoleMapping
unfolding no_roles
reset_expected_agents roles =
    (add_expected_agent (add_role no_roles self_role) self_role undefined_agent_id).0

-- `RoleMapping::setSelf`. Its `assert` fails where 'self' has no agent; so does the read of the
-- entry where there is none.
set_self_of : List AgentId → RoleMapping → AgentId → Outcome RoleMapping (Unit {0})
set_self_of [] roles a = (roles, err aborted)
set_self_of (front ∷ _) roles a =
    if agent_beq front undefined_agent_id
    then add_expected_agent
        (record roles { expected_agent_mapping = put self_role [] roles.expected_agent_mapping })
        self_role a
    else (roles, err runtime_error)

unfoldable pub set_self : RoleMapping → AgentId → Outcome RoleMapping (Unit {0})
unfolding set_self_of
set_self roles a = elim (find self_role roles.expected_agent_mapping) [
  | none ↦ (roles, err aborted)
  | some agents ↦ set_self_of agents roles a
]

-- `RoleMapping::getSelf`; the `front` of an empty vector is undefined.
front_of : List AgentId → Result AgentId
front_of [] = err aborted
front_of (a ∷ _) = ok a

unfoldable pub get_self : RoleMapping → Result AgentId
unfolding front_of
get_self roles = elim (find self_role roles.expected_agent_mapping) [
  | none ↦ err aborted
  | some agents ↦ front_of agents
]

-- `RoleMapping::isSelf`
unfoldable pub is_self : RoleMapping → AgentId → Result Bool
is_self roles a = do self ← get_self roles; ok (agent_beq self a)

-- `RoleMapping::clearExpectedAgents`
unfoldable pub clear_expected_agents : RoleMapping → Role → RoleMapping
clear_expected_agents roles role = elim (find role roles.expected_agent_mapping) [
  | none ↦ roles
  | some agents ↦ record roles { expected_agent_mapping = put role [] roles.expected_agent_mapping }
]

-- `RoleMapping::getExpectedAgents`
unfoldable pub get_expected_agents : RoleMapping → Role → Result (List AgentId)
get_expected_agents roles role = elim (find role roles.expected_agent_mapping) [
  | none ↦ err runtime_error
  | some agents ↦ ok agents
]

module _ (regex_match : RegexMatch) where
  -- The loop of `isExpected`: it does not stop at the first match.
  any_expected : Bool → List AgentId → AgentId → Result Bool
  any_expected expected [] a = ok expected
  any_expected expected (other ∷ agents) a = do
    matched ← regex_match (get_name a) (get_name other ++ codes "$")
    any_expected (if matched then true else expected) agents a

  expected_among : List AgentId → AgentId → Result Bool
  unfolding any_expected
  expected_among [] a = ok true
  expected_among (other ∷ agents) a = any_expected false (other ∷ agents) a

  -- `RoleMapping::isExpected`
  unfoldable pub is_expected : RoleMapping → Role → AgentId → Result Bool
  unfolding expected_among
  is_expected roles role a = do
    by_role ← regex_match (get_name a) role
    let in_mapping = get_expected_agents roles role >>= λ agents. expected_among agents a
    if by_role then ok true else in_mapping
