-- ===== src/Transition.antt =====
-- conversation_monitor/transition.h and transition.cpp: transitions between states, and which
-- messages trigger them.
pub mod Flag
pub mod Triggers
use Flag
use Prim.Native.Nat.{bit_and}
use multiagent_fipa_acl.Base.{
  nat_beq, if◌then◌else◌, ◌==◌, nat_eq, Text, text_eq, codes, is_empty, Result, ◌>>=◌,
  runtime_error, ok, err, ℕ, ◌*◌, Bool, true, false, not, List, [], ◌∷◌,
}
use multiagent_fipa_acl.Agent.{AgentId}
use multiagent_fipa_acl.Performative.{
  Performative, performative_txt, not_understood, cancel, inform, failure,
}
use multiagent_fipa_acl.Message.{AclMessage}
use multiagent_fipa_acl.Role.{Role, RoleMapping, RegexMatch, self_role, is_expected}

abbrev pub StateId : Type 0
StateId = Text

-- The ids of the default states (state.cpp).
abbrev pub not_understood_id : StateId
not_understood_id = codes "__internal_state:not_understood__"

abbrev pub conversation_cancelling_id : StateId
conversation_cancelling_id = codes "__internal_state:conversation_cancelling__"

abbrev pub conversation_cancel_success_id : StateId
conversation_cancel_success_id = codes "__internal_state:conversation_cancel_success__"

abbrev pub conversation_cancel_failure_id : StateId
conversation_cancel_failure_id = codes "__internal_state:conversation_cancel_failure__"

abbrev pub undefined_id : StateId
undefined_id = codes "__undefined__"

abbrev pub general_failure_id : StateId
general_failure_id = codes "__internal_state:general_failure__"

pub record Transition : Type 0 where
  pub sender_role : Role
  pub receiver_role : Role
  pub performative_reg_exp : Text
  pub source_state_id : StateId
  pub target_state_id : StateId

-- The constructor that takes a performative.
unfoldable pub transition_of : Role → Role → Performative → StateId → StateId → Transition
transition_of sender receiver p source target = record {
  sender_role = sender;
  receiver_role = receiver;
  performative_reg_exp = performative_txt p;
  source_state_id = source;
  target_state_id = target;
}

abbrev pub any_role : Role
any_role = codes ".*"

-- `default_transition::NotUnderstood` and the four classes behind it
unfoldable pub not_understood_transition : Role → Role → StateId → Transition
unfolding transition_of
not_understood_transition sender receiver source =
    transition_of sender receiver not_understood source not_understood_id

unfoldable pub conversation_cancelling_transition : Role → Role → StateId → Transition
unfolding transition_of
conversation_cancelling_transition sender receiver source =
    transition_of sender receiver cancel source conversation_cancelling_id

unfoldable pub cancel_success_transition : Transition
unfolding transition_of
cancel_success_transition =
    transition_of any_role any_role inform conversation_cancelling_id conversation_cancel_success_id

unfoldable pub cancel_failure_transition : Transition
unfolding transition_of
cancel_failure_transition =
    transition_of any_role any_role failure conversation_cancelling_id
      conversation_cancel_failure_id

unfoldable pub general_failure_transition : StateId → Transition
unfolding transition_of
general_failure_transition source =
    transition_of any_role self_role failure source general_failure_id

-- `Transition::operator==`
abbrev pub transition_beq : Transition → Transition → Bool
transition_beq t other =
    if not (t.source_state_id == other.source_state_id)
    then false
    else if not (t.target_state_id == other.target_state_id)
    then false
    else if not (t.sender_role == other.sender_role)
    then false
    else if not (t.receiver_role == other.receiver_role)
    then false
    else if not (t.performative_reg_exp == other.performative_reg_exp)
    then false
    else true

-- One check of `validateMessage`: if its flag is set and it fails, the rest is not run.
abbrev checked : ℕ → ℕ → Result Bool → Result Bool → Result Bool
checked flag flags test rest =
    if nat_beq (bit_and flag flags) 0
    then rest
    else (test >>= λ passed. if passed then rest else ok false)

module _ (regex_match : RegexMatch) where
  all_expected : RoleMapping → Role → List AgentId → Result Bool
  all_expected roles role [] = ok true
  all_expected roles role (a ∷ agents) = do
    expected ← is_expected regex_match roles role a
    let rest = all_expected roles role agents
    if expected then rest else ok false

  -- `Transition::validateReceivers`
  unfoldable pub validate_receivers : Transition → AclMessage → RoleMapping → Result Bool
  unfolding all_expected
  validate_receivers t m roles =
      if is_empty m.receivers
      then err runtime_error
      else all_expected roles t.receiver_role m.receivers

  -- `Transition::validateMessage`
  unfoldable pub validate_message :
      Transition → AclMessage → AclMessage → RoleMapping → ℕ → Result Bool
  validate_message t m validator roles flags =
      if nat_beq flags 0
      then ok true
      else checked Flag.performative flags (regex_match m.performative t.performative_reg_exp) (
          checked Flag.sender flags (is_expected regex_match roles t.sender_role m.sender) (
            checked Flag.receivers flags (validate_receivers t m roles) (
              checked Flag.conversation_id flags
                (ok (m.conversation_id == validator.conversation_id))
                (checked Flag.protocol flags (ok (m.protocol == validator.protocol)) (
                  checked Flag.encoding flags (ok (m.encoding == validator.encoding)) (
                    checked Flag.language flags (ok (m.language == validator.language)) (
                      checked Flag.ontology flags (ok (m.ontology == validator.ontology)) (
                        checked Flag.in_reply_to flags (ok (m.in_reply_to == validator.in_reply_to))
                          (ok true)))))))))

  -- `Transition::triggers`
  unfoldable pub triggers : Transition → AclMessage → AclMessage → RoleMapping → Result Bool
  unfolding validate_message
  triggers t m initiating roles = do
    valid ← validate_message t m initiating roles Flag.standard
    if valid then ok true else ok false
