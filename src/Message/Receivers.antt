-- ===== src/Message/Receivers.antt =====
-- Lists of agents that are kept without duplicates: resolvers, receivers and reply-to.
use multiagent_fipa_acl.Base.{
  Bool-ext, nat_eq, text_eq, ◌≡◌, refl, true, false, List, [], ◌∷◌, arith,
}
use multiagent_fipa_acl.Agent.{AgentId, agent_beq, contains_agent, erase_agent}
use multiagent_fipa_acl.Agent.Compare.{agent_beq-IsEquivalence, agent_beq_refl}
use multiagent_fipa_acl.Message.{AclMessage, add_receiver, delete_receiver}

-- No agent of the list equals one behind it.
abbrev pub AllDistinct : List AgentId → Type 0
AllDistinct [] = Unit {0}
AllDistinct (a ∷ agents) = (contains_agent agents a ≡ false) × AllDistinct agents

contains_agent-erase :
    (a b : AgentId) (agents : List AgentId)
    → contains_agent agents b ≡ false
    → contains_agent (erase_agent a agents) b ≡ false
unfolding contains_agent erase_agent
contains_agent-erase a b [] h = refl
contains_agent-erase a b (c ∷ agents) h = ground (arith, contains_agent-erase a b agents)

erase_agent-AllDistinct :
    (a : AgentId) (agents : List AgentId) → AllDistinct agents → AllDistinct (erase_agent a agents)
unfolding erase_agent
erase_agent-AllDistinct a [] d = tt
erase_agent-AllDistinct a (c ∷ agents) d =
    ground (arith, erase_agent-AllDistinct a agents d.1, contains_agent-erase a c agents)

agent_class : (a b c : AgentId) → agent_beq c a ≡ true → agent_beq b c ≡ agent_beq b a
agent_class a b c h =
    let q = agent_beq-IsEquivalence in
    Bool-ext (agent_beq b c) (agent_beq b a) (λ k. q.transitive b c a k h)
      (λ k. q.transitive b a c k (q.symmetric c a h))

contains_agent-class :
    (a c : AgentId) (agents : List AgentId)
    → agent_beq c a ≡ true
    → contains_agent agents c ≡ contains_agent agents a
unfolding contains_agent
contains_agent-class a c [] h = refl
contains_agent-class a c (b ∷ agents) h =
    ground (arith, agent_class a b c h, contains_agent-class a c agents h)

erase_agent-gone :
    (a : AgentId) (agents : List AgentId)
    → AllDistinct agents
    → contains_agent (erase_agent a agents) a ≡ false
unfolding erase_agent contains_agent
erase_agent-gone a [] d = refl
erase_agent-gone a (c ∷ agents) d =
    ground (arith, erase_agent-gone a agents d.1, contains_agent-class a c agents)

-- `addReceiver` keeps the receivers distinct, and puts the agent among them; where it is there
-- already, nothing changes.
pub add_receiver-AllDistinct :
    (m : AclMessage) (aid : AgentId)
    → AllDistinct m.receivers
    → AllDistinct (add_receiver m aid).receivers
      × (contains_agent (add_receiver m aid).receivers aid ≡ true)
      × (contains_agent m.receivers aid ≡ true → add_receiver m aid ≡ m)
unfolding add_receiver contains_agent
add_receiver-AllDistinct m aid d = (ground arith, ground (arith, agent_beq_refl aid), ground arith)

-- `deleteReceiver` keeps the receivers distinct, leaves none that equals the agent, and undoes an
-- `addReceiver` of an agent that was not among them.
pub delete_receiver-AllDistinct :
    (m : AclMessage) (aid : AgentId)
    → AllDistinct m.receivers
    → AllDistinct (delete_receiver m aid).receivers
      × (contains_agent (delete_receiver m aid).receivers aid ≡ false)
      × (contains_agent m.receivers aid ≡ false → delete_receiver (add_receiver m aid) aid ≡ m)
unfolding delete_receiver
delete_receiver-AllDistinct m aid d = (
  erase_agent-AllDistinct aid m.receivers d,
  erase_agent-gone aid m.receivers d,
  λ h. add-delete h,
)
  where
    add-delete :
        contains_agent m.receivers aid ≡ false → delete_receiver (add_receiver m aid) aid ≡ m
    add-delete h = unfold add_receiver erase_agent in ground (arith, agent_beq_refl aid)
