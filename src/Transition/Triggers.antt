-- ===== src/Transition/Triggers.antt =====
-- Which messages trigger a transition.
use multiagent_fipa_acl.Base.{
  if◌then◌else◌, list_beq_iff, ◌==◌, nat_eq, text_eq, is_empty, All, Result-cases, ◌>>=◌, ok, ◌≡◌,
  refl, sym, ◌∙◌, ◌↔◌, inl, inr, true, false, List, [], ◌∷◌, arith,
}
use multiagent_fipa_acl.Agent.{AgentId}
use multiagent_fipa_acl.Message.{AclMessage}
use multiagent_fipa_acl.Role.{Role, RoleMapping, RegexMatch, is_expected}
use multiagent_fipa_acl.Transition.{
  triggers, Transition, transition_beq, all_expected, validate_receivers,
}

-- `operator==` of transitions compares every member.
pub transition_beq_iff : (t other : Transition) → (transition_beq t other ≡ true) ↔ (t ≡ other)
transition_beq_iff t other = ground (
  arith,
  list_beq_iff t.source_state_id other.source_state_id,
  list_beq_iff t.target_state_id other.target_state_id,
  list_beq_iff t.sender_role other.sender_role,
  list_beq_iff t.receiver_role other.receiver_role,
  list_beq_iff t.performative_reg_exp other.performative_reg_exp,
)

module _ (regex_match : RegexMatch) where
  -- A message for the transition: its performative matches, the sender and every receiver are
  -- expected in their roles, there is a receiver, and conversation and protocol are those of the
  -- message that began the conversation.
  pub record Fits (t : Transition) (m initiating : AclMessage) (roles : RoleMapping) : Type 0 where
    pub performative : regex_match m.performative t.performative_reg_exp ≡ ok true
    pub sender : is_expected regex_match roles t.sender_role m.sender ≡ ok true
    pub has_receiver : is_empty m.receivers ≡ false
    pub receivers : All (λ a. is_expected regex_match roles t.receiver_role a ≡ ok true) m.receivers
    pub conversation_id : m.conversation_id ≡ initiating.conversation_id
    pub protocol : m.protocol ≡ initiating.protocol

  all_expected_iff :
      (roles : RoleMapping) (role : Role) (agents : List AgentId)
      → (all_expected regex_match roles role agents ≡ ok true)
        ↔ All (λ a. is_expected regex_match roles role a ≡ ok true) agents
  unfolding all_expected
  all_expected_iff roles role [] = (λ _. tt, λ _. refl)
  all_expected_iff roles role (a ∷ agents) =
      elim (Result-cases (is_expected regex_match roles role a)) [
        | inr (x, e) ↦ ground (arith, all_expected_iff roles role agents)
        | inl (true, e) ↦ ground (arith, all_expected_iff roles role agents)
        | inl (false, e) ↦ ground (arith, all_expected_iff roles role agents)
      ]

  validate_receivers_iff :
      (t : Transition) (m : AclMessage) (roles : RoleMapping)
      → (validate_receivers regex_match t m roles ≡ ok true) ↔ (
          (is_empty m.receivers ≡ false)
          × All (λ a. is_expected regex_match roles t.receiver_role a ≡ ok true) m.receivers)
  unfolding validate_receivers
  validate_receivers_iff t m roles =
      ground (arith, all_expected_iff roles t.receiver_role m.receivers)

  -- `triggers` runs the five standard checks in their order; each that fails ends the run.
  triggers_steps :
      (t : Transition) (m initiating : AclMessage) (roles : RoleMapping)
      → triggers regex_match t m initiating roles ≡ (
          regex_match m.performative t.performative_reg_exp >>= λ p.
          if p
          then (is_expected regex_match roles t.sender_role m.sender >>= λ s.
              if s
              then (validate_receivers regex_match t m roles >>= λ r.
                  if r
                  then (if m.conversation_id == initiating.conversation_id
                      then (if m.protocol == initiating.protocol then ok true else ok false)
                      else ok false)
                  else ok false)
              else ok false)
          else ok false)
  unfolding triggers
  triggers_steps t m initiating roles = ground arith

  triggers-Fits :
      (t : Transition) (m initiating : AclMessage) (roles : RoleMapping)
      → triggers regex_match t m initiating roles ≡ ok true
      → Fits t m initiating roles
  triggers-Fits t m initiating roles h =
      let k = sym (triggers_steps t m initiating roles) ∙ h in
      ground (
        arith,
        validate_receivers_iff t m roles,
        list_beq_iff m.conversation_id initiating.conversation_id,
        list_beq_iff m.protocol initiating.protocol,
      )

  -- A transition is triggered by exactly the messages that fit it.
  pub triggers_iff :
      (t : Transition) (m initiating : AclMessage) (roles : RoleMapping)
      → (triggers regex_match t m initiating roles ≡ ok true) ↔ Fits t m initiating roles
  triggers_iff t m initiating roles = (
    triggers-Fits t m initiating roles,
    λ f.
        triggers_steps t m initiating roles
        ∙ ground (
          arith,
          validate_receivers_iff t m roles,
          list_beq_iff m.conversation_id initiating.conversation_id,
          list_beq_iff m.protocol initiating.protocol,
        ),
  )
