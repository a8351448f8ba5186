-- ===== src/Examples/Data.antt =====
-- Agents, messages and a request protocol, for the examples.
use multiagent_fipa_acl.Base.{
  ◌==◌, nat_eq, Text, text_eq, codes, runtime_error, ok, err, Bool, true, false, ◌||◌, List, [],
  ◌∷◌, ◌++◌,
}
use multiagent_fipa_acl.Base.Ints.{pos}
use multiagent_fipa_acl.Agent.{AgentId, agent_id, nil, cons}
use multiagent_fipa_acl.Message.{AclMessage}
use multiagent_fipa_acl.Role.{RegexMatch, RoleMapping}
use multiagent_fipa_acl.Transition.{Transition}
use multiagent_fipa_acl.State.{State, EmbeddedStateMachine}
use multiagent_fipa_acl.Machine.{StateMachine, no_machine}
use multiagent_fipa_acl.Conversation.{Conversation, Observers, uninitialized}
use multiagent_fipa_acl.Conversation.Update.{Environment}

-- The patterns that the examples use: any text, or one text, with or without the end mark.
abbrev pub plain_match : RegexMatch
plain_match text pattern =
    ok (pattern == codes ".*" || pattern == text || pattern == text ++ codes "$")

abbrev pub alice : AgentId
alice = agent_id (codes "alice") (codes "tcp:1" ∷ codes "udp:2" ∷ []) nil []

abbrev pub alice_again : AgentId
alice_again = agent_id (codes "alice") (codes "udp:2" ∷ codes "tcp:1" ∷ []) nil []

abbrev pub bob : AgentId
bob = agent_id (codes "bob") [] (cons alice nil) []

abbrev pub request : AclMessage
request = record {
  performative = codes "request";
  sender = alice;
  receivers = bob ∷ [];
  reply_to = [];
  language = codes "plain";
  encoding = [];
  ontology = [];
  protocol = codes "request";
  conversation_id = codes "c1";
  reply_with = [];
  in_reply_to = [];
  reply_by = 0;
  parameters = [];
  content = codes "move";
}

abbrev pub reply : AclMessage
reply = record request { performative = codes "agree"; sender = bob; receivers = alice ∷ [] }

abbrev pub ask : Transition
ask = record {
  sender_role = codes "initiator";
  receiver_role = codes "participant";
  performative_reg_exp = codes "request";
  source_state_id = codes "1";
  target_state_id = codes "2";
}

abbrev pub answer : Transition
answer = record {
  sender_role = codes "participant";
  receiver_role = codes "initiator";
  performative_reg_exp = codes "agree";
  source_state_id = codes "2";
  target_state_id = codes "3";
}

-- A sub-conversation whose replies go to the initiator.
abbrev pub proxy : EmbeddedStateMachine
proxy = record {
  from = codes "participant";
  from_role = codes "participant";
  name = codes "query";
  proxied_to = codes "initiator";
  proxied_to_role = codes "initiator";
  actual_protocol = codes "query";
  number_of_sub_conversations = pos 1;
  received_proxied_reply = false;
}

abbrev pub state : Text → Bool → List Transition → List EmbeddedStateMachine → State ⊥
state id final ts es = record {
  id = id;
  is_final = final;
  transitions = ts;
  embedded_state_machines = es;
  sub_state_machines = [];
  substate_machine_proxied_transitions = [];
}

abbrev pub waiting : State ⊥
waiting = state (codes "2") false (answer ∷ []) (proxy ∷ [])

abbrev pub roles : RoleMapping
roles = record {
  expected_agent_mapping =
      (codes "__self__", alice ∷ []) ∷ (codes "initiator", []) ∷ (codes "participant", []) ∷ [];
}

abbrev pub known_roles : RoleMapping
known_roles = record {
  expected_agent_mapping =
      (codes "__self__", alice ∷ [])
      ∷ (codes "initiator", alice ∷ [])
      ∷ (codes "participant", bob ∷ [])
      ∷ [];
}

abbrev pub machine : StateMachine ⊥
machine = record {
  initial_state_id = codes "1";
  current_state_id = codes "1";
  states =
      (codes "1", state (codes "1") false (ask ∷ []) [])
      ∷ (codes "2", waiting)
      ∷ (codes "3", state (codes "3") true [] [])
      ∷ [];
  role_mapping = roles;
  message_archive = [];
  protocol = codes "request";
}

abbrev pub environment : Environment ⊥
environment = record {
  regex_match = plain_match;
  sub = no_machine;
  get_state_machine = λ _. ok machine;
  get_sub_state_machine = λ _. err runtime_error;
  now = λ k. k;
}

abbrev pub conversation : Conversation ⊥
conversation = record {
  self = 0;
  conversation_id = codes "c1";
  status = uninitialized;
  observers = 4 ∷ 7 ∷ [];
  owner = codes "alice";
  protocol = codes "request";
  content_language = [];
  number_of_sub_conversations = pos 0;
  messages = [];
  state_machine = machine;
}

abbrev pub silent : Observers
silent k = record { events = []; observables = 0 ∷ [] }
