-- ===== src/Examples/Messages.antt =====
-- Agents, messages, roles and transitions at concrete inputs.
use multiagent_fipa_acl.Base.Maps.{find}
use multiagent_fipa_acl.Base.{
  nat_eq, text_eq, codes, runtime_error, ok, err, ◌≡◌, refl, ◌↔◌, true, false, some, none, List, [],
  ◌∷◌,
}
use multiagent_fipa_acl.Pairing.{same_collection}
use multiagent_fipa_acl.Pairing.Counting.{IsEquivalence, SameCounts, same_collection_iff}
use multiagent_fipa_acl.Agent.{
  AgentId, get_name, compare_equal, agent_beq, contains_agent, undefined_agent_id,
}
use multiagent_fipa_acl.Agent.Compare.{
  SameAgent, compare_equal_iff, compare_equal-IsEquivalence, agent_beq-IsEquivalence,
}
use multiagent_fipa_acl.Performative.{
  performative_from_string, performative_txt, agree, performative_from_string_iff,
}
use multiagent_fipa_acl.Message.{message_beq, add_receiver, delete_receiver}
use multiagent_fipa_acl.Message.Receivers.{
  AllDistinct, add_receiver-AllDistinct, delete_receiver-AllDistinct,
}
use multiagent_fipa_acl.Message.Compare.{SameMessage, message_beq_iff}
use multiagent_fipa_acl.Role.{
  set_self, get_self, new_role_mapping, add_expected_agent, is_expected, get_expected_agents,
}
use multiagent_fipa_acl.Role.Expected.{AgentAdded, add_expected_agent_lem, set_self_once}
use multiagent_fipa_acl.Role.Matching.{IsExpected, is_expected_iff}
use multiagent_fipa_acl.Transition.{validate_receivers, validate_message, triggers}
use multiagent_fipa_acl.Transition.Triggers.{Fits, triggers_iff}
use multiagent_fipa_acl.Examples.Data.{
  plain_match, alice, alice_again, bob, request, reply, answer, roles, known_roles,
}

same_collection_iff_example :
    (same_collection agent_beq (alice ∷ bob ∷ []) (bob ∷ alice_again ∷ []) ≡ true)
    ↔ SameCounts agent_beq (alice ∷ bob ∷ []) (bob ∷ alice_again ∷ [])
same_collection_iff_example =
    same_collection_iff agent_beq agent_beq-IsEquivalence (alice ∷ bob ∷ [])
      (bob ∷ alice_again ∷ [])

compare_equal_iff_example :
    (compare_equal 1 alice alice_again ≡ true) ↔ SameAgent 1 alice alice_again
compare_equal_iff_example = compare_equal_iff 1 alice alice_again

compare_equal-IsEquivalence_example : IsEquivalence (compare_equal 2)
compare_equal-IsEquivalence_example = compare_equal-IsEquivalence 2

performative_from_string_iff_example :
    (performative_from_string (codes "agree") ≡ ok agree) ↔ (performative_txt agree ≡ codes "agree")
performative_from_string_iff_example = performative_from_string_iff (codes "agree") agree

request_distinct : AllDistinct request.receivers
unfolding contains_agent
request_distinct = (refl, tt)

add_receiver-AllDistinct_example :
    AllDistinct (add_receiver request alice).receivers
    × (contains_agent (add_receiver request alice).receivers alice ≡ true)
    × (contains_agent request.receivers alice ≡ true → add_receiver request alice ≡ request)
add_receiver-AllDistinct_example = add_receiver-AllDistinct request alice request_distinct

delete_receiver-AllDistinct_example :
    AllDistinct (delete_receiver request bob).receivers
    × (contains_agent (delete_receiver request bob).receivers bob ≡ false)
    × (contains_agent request.receivers bob ≡ false
        → delete_receiver (add_receiver request bob) bob ≡ request)
delete_receiver-AllDistinct_example = delete_receiver-AllDistinct request bob request_distinct

message_beq_iff_example : (message_beq request reply ≡ true) ↔ SameMessage request reply
message_beq_iff_example = message_beq_iff request reply

add_expected_agent_lem_example :
    AgentAdded roles (codes "participant") bob (add_expected_agent roles (codes "participant") bob)
add_expected_agent_lem_example = add_expected_agent_lem roles (codes "participant") bob

set_self_once_example :
    ((set_self new_role_mapping alice).1 ≡ ok tt)
    × (get_self (set_self new_role_mapping alice).0 ≡ ok alice)
    × (agent_beq alice undefined_agent_id ≡ false
        → set_self (set_self new_role_mapping alice).0 bob
          ≡ ((set_self new_role_mapping alice).0, err runtime_error))
set_self_once_example = set_self_once alice bob

is_expected_iff_example :
    ((agents : List AgentId)
      → find (codes "participant") known_roles.expected_agent_mapping ≡ some agents
      → (is_expected plain_match known_roles (codes "participant") bob ≡ ok true)
        ↔ IsExpected plain_match agents (codes "participant") bob)
    × (find (codes "participant") known_roles.expected_agent_mapping ≡ none
        → plain_match (get_name bob) (codes "participant") ≡ ok false
        → is_expected plain_match known_roles (codes "participant") bob ≡ err runtime_error)
is_expected_iff_example = is_expected_iff plain_match known_roles (codes "participant") bob

triggers_iff_example :
    (triggers plain_match answer reply request known_roles ≡ ok true)
    ↔ Fits plain_match answer reply request known_roles
triggers_iff_example = triggers_iff plain_match answer reply request known_roles

-- The reply does trigger the transition.
answer-triggers : triggers plain_match answer reply request known_roles ≡ ok true
unfolding triggers validate_message validate_receivers is_expected get_expected_agents find
answer-triggers = refl
