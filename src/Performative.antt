-- ===== src/Performative.antt =====
-- The predefined performatives, `ACLMessage::Performative` and `PerformativeTxt` of
-- message_generator/acl_message.h and acl_message.cpp.
use multiagent_fipa_acl.Base.{
  if◌then◌else◌, ◌==◌, nat_eq, list_beq_iff, Text, text_eq, codes, Result, runtime_error, ok, err,
  ◌≡◌, refl, subst, ◌↔◌, List, [], ◌∷◌, arith,
}

pub data Performative : Type 0 where
  accept_proposal agree cancel call_for_proposal confirm disconfirm failure inform : Performative
  inform_if inform_ref not_understood propagate propose proxy query_if query_ref : Performative
  refuse reject_proposal request request_when request_whenever subscribe : Performative

-- `PerformativeTxt`
unfoldable pub performative_txt : Performative → Text
performative_txt accept_proposal = codes "accept-proposal"
performative_txt agree = codes "agree"
performative_txt cancel = codes "cancel"
performative_txt call_for_proposal = codes "cfp"
performative_txt confirm = codes "confirm"
performative_txt disconfirm = codes "disconfirm"
performative_txt failure = codes "failure"
performative_txt inform = codes "inform"
performative_txt inform_if = codes "inform-if"
performative_txt inform_ref = codes "inform-ref"
performative_txt not_understood = codes "not-understood"
performative_txt propagate = codes "propagate"
performative_txt propose = codes "propose"
performative_txt proxy = codes "proxy"
performative_txt query_if = codes "query-if"
performative_txt query_ref = codes "query-ref"
performative_txt refuse = codes "refuse"
performative_txt reject_proposal = codes "reject-proposal"
performative_txt request = codes "request"
performative_txt request_when = codes "request-when"
performative_txt request_whenever = codes "request-whenever"
performative_txt subscribe = codes "subscribe"

-- The order of the enumeration, in which `std::map` iterates.
abbrev pub performatives : List Performative
performatives =
    accept_proposal ∷ agree ∷ cancel ∷ call_for_proposal ∷ confirm ∷ disconfirm ∷ failure ∷ inform
    ∷ inform_if ∷ inform_ref ∷ not_understood ∷ propagate ∷ propose ∷ proxy ∷ query_if ∷ query_ref
    ∷ refuse ∷ reject_proposal ∷ request ∷ request_when ∷ request_whenever ∷ subscribe ∷ []

find_performative : Text → List Performative → Result Performative
find_performative text [] = err runtime_error
find_performative text (p ∷ ps) =
    if performative_txt p == text then ok p else find_performative text ps

-- `ACLMessage::performativeFromString`
unfoldable pub performative_from_string : Text → Result Performative
unfolding find_performative
performative_from_string text = find_performative text performatives

find_performative-txt :
    (text : Text) (ps : List Performative) {p : Performative}
    → find_performative text ps ≡ ok p
    → performative_txt p ≡ text
unfolding find_performative
find_performative-txt text [] h = cc
find_performative-txt text (q ∷ ps) {p} h =
    ground (arith, list_beq_iff (performative_txt q) text, find_performative-txt text ps {p = p})

-- Every performative is read back from its text.
pub from_txt : (p : Performative) → performative_from_string (performative_txt p) ≡ ok p
unfolding performative_from_string performative_txt
from_txt accept_proposal = refl
from_txt _ = refl

-- A text is read as a performative exactly if it is that performative's text.
pub performative_from_string_iff :
    (text : Text) (p : Performative)
    → (performative_from_string text ≡ ok p) ↔ (performative_txt p ≡ text)
unfolding performative_from_string
performative_from_string_iff text p = (
  find_performative-txt text performatives,
  λ h. subst (λ t. performative_from_string t ≡ ok p) h (from_txt p),
)
