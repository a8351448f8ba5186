-- ===== src/Agent.antt =====
-- message_generator/userdef_param.cpp and message_generator/agent_id.cpp: user-defined
-- parameters, and agent identifiers with their addresses, resolvers and parameters.
pub mod Compare
use multiagent_fipa_acl.Base.{
  if◌then◌else◌, Eq, ◌==◌, nat_eq, list_beq_iff, Text, text_eq, codes, is_empty, any_of, Result,
  Outcome, runtime_error, ok, err, ℕ, zero, suc, ◌+◌, ◌≡◌, ◌↔◌, Bool, true, false, not, ◌&&◌, List,
  [], ◌∷◌, ◌++◌, arith,
}
use multiagent_fipa_acl.Pairing.{same_collection}
use multiagent_fipa_acl.Words.{is_illegal_word}

pub record UserdefParam : Type 0 where
  pub name : Text
  pub value : Text

-- `UserdefParam::operator==`
abbrev pub param_beq : UserdefParam → UserdefParam → Bool
param_beq p other = p.name == other.name && p.value == other.value

pub param_beq_iff : (p other : UserdefParam) → (param_beq p other ≡ true) ↔ (p ≡ other)
param_beq_iff p other =
    ground (arith, list_beq_iff p.name other.name, list_beq_iff p.value other.value)

instance abbrev pub param_eq : Eq UserdefParam
param_eq = record { beq = param_beq; beq_iff = param_beq_iff }

-- `UserdefParam::setName`
unfoldable pub set_param_name : UserdefParam → Text → Outcome UserdefParam (Unit {0})
set_param_name p name =
    if is_illegal_word name then (p, err runtime_error) else (record p { name = name }, ok tt)

-- An agent's resolvers are agents.
mutual
  pub data AgentId : Type 0 where
    agent_id : Text → List Text → Resolvers → List UserdefParam → AgentId

  pub data Resolvers : Type 0 where
    nil : Resolvers
    cons : AgentId → Resolvers → Resolvers

abbrev pub to_list : Resolvers → List AgentId
to_list nil = []
to_list (cons a r) = a ∷ to_list r

abbrev pub of_list : List AgentId → Resolvers
of_list [] = nil
of_list (a ∷ r) = cons a (of_list r)

abbrev pub get_name : AgentId → Text
get_name (agent_id name addresses resolvers params) = name

abbrev pub get_addresses : AgentId → List Text
get_addresses (agent_id name addresses resolvers params) = addresses

abbrev pub get_resolvers : AgentId → List AgentId
get_resolvers (agent_id name addresses resolvers params) = to_list resolvers

abbrev pub get_userdef_params : AgentId → List UserdefParam
get_userdef_params (agent_id name addresses resolvers params) = params

abbrev pub undefined_name : Text
undefined_name = codes "agent_id:undefined"

-- `AgentID::AgentID()` and `UndefinedAgentID::UndefinedAgentID()`
abbrev pub undefined_agent_id : AgentId
undefined_agent_id = agent_id undefined_name [] nil []

-- `AgentID::setName`
unfoldable pub set_name : AgentId → Text → Outcome AgentId (Unit {0})
set_name (agent_id old addresses resolvers params) name =
    if is_illegal_word name
    then (agent_id old addresses resolvers params, err runtime_error)
    else (agent_id name addresses resolvers params, ok tt)

-- `AgentID::AgentID(const std::string&)`: the members are empty when `setName` is called.
unfoldable pub new_agent_id : Text → Result AgentId
new_agent_id name = if is_illegal_word name then err runtime_error else ok (agent_id name [] nil [])

-- `AgentID::empty` and `AgentID::isValid`
unfoldable pub agent_empty : AgentId → Bool
agent_empty a = is_empty (get_name a)

unfoldable pub is_valid : AgentId → Bool
unfolding agent_empty
is_valid a = not (get_name a == undefined_name) && not (agent_empty a)

-- `AgentID::addAddress`
unfoldable pub add_address : AgentId → Text → Outcome AgentId (Unit {0})
add_address (agent_id name addresses resolvers params) address =
    if is_illegal_word address
    then (agent_id name addresses resolvers params, err runtime_error)
    else (agent_id name (addresses ++ address ∷ []) resolvers params, ok tt)

-- `AgentID::compareEqual`. A depth below 1 is 0 here: the code only tests `depth > 0`.
unfoldable pub compare_equal : ℕ → AgentId → AgentId → Bool
compare_equal zero a b =
    if not (get_name a == get_name b)
    then false
    else if not (same_collection ◌==◌ (get_addresses a) (get_addresses b))
    then false
    else same_collection ◌==◌ (get_userdef_params a) (get_userdef_params b)
compare_equal (suc depth) a b =
    if not (get_name a == get_name b)
    then false
    else if not (same_collection ◌==◌ (get_addresses a) (get_addresses b))
    then false
    else if not (same_collection (compare_equal depth) (get_resolvers a) (get_resolvers b))
    then false
    else same_collection ◌==◌ (get_userdef_params a) (get_userdef_params b)

abbrev pub resolver_comparison_depth : ℕ
resolver_comparison_depth = 1

-- `AgentID::operator==`
unfoldable pub agent_beq : AgentId → AgentId → Bool
agent_beq = compare_equal resolver_comparison_depth

-- `std::find(list.begin(), list.end(), a) != list.end()`: the element is the left operand.
unfoldable pub contains_agent : List AgentId → AgentId → Bool
contains_agent agents a = any_of (λ other. agent_beq other a) agents

-- `std::find` and `erase`: the first equal element goes.
unfoldable pub erase_agent : AgentId → List AgentId → List AgentId
erase_agent a [] = []
erase_agent a (other ∷ agents) = if agent_beq other a then agents else other ∷ erase_agent a agents

-- `AgentID::addResolver`, `AgentID::deleteResolver` and `AgentID::addUserdefParam`
unfoldable pub add_resolver : AgentId → AgentId → AgentId
add_resolver (agent_id name addresses resolvers params) a =
    if contains_agent (to_list resolvers) a
    then agent_id name addresses resolvers params
    else agent_id name addresses (of_list (to_list resolvers ++ a ∷ [])) params

unfoldable pub delete_resolver : AgentId → AgentId → AgentId
delete_resolver (agent_id name addresses resolvers params) a =
    agent_id name addresses (of_list (erase_agent a (to_list resolvers))) params

unfoldable pub add_userdef_param : AgentId → UserdefParam → AgentId
add_userdef_param (agent_id name addresses resolvers params) p =
    agent_id name addresses resolvers (params ++ p ∷ [])
