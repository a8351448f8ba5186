-- ===== src/Envelope/Inserted.antt =====
-- `ACLEnvelope::insert`: what a letter says of the message that was put into it.
use multiagent_fipa_acl.Envelope.Formats.{Transport, generator_create}
use multiagent_fipa_acl.Base.{
  nat_beq, if◌then◌else◌, nat_eq, Text, text_eq, length, Error, Result, Outcome, attempt, ok, err,
  ◌%◌, ◌^◌, ◌≡◌, refl, sym, ap, ◌∙◌, subst, Bool, true, false, not, ◌≢◌, ◌||◌, Option, none, some,
  List, [], ◌∷◌, arith,
}
use multiagent_fipa_acl.Message.{AclMessage}
use multiagent_fipa_acl.Envelope.{
  transport_behaviour, userdefined_parameters, set_date, set_payload_encoding, set_payload_length,
  set_acl_representation, set_from, set_intended_receivers, set_to, mask, bit_and, with_flag,
  contains, to, from, comments, acl_representation, payload_length, payload_encoding, date,
  intended_receivers, received_object, ParameterId, Representation, BaseEnvelope,
}
use multiagent_fipa_acl.Envelope.Merging.{value, Value, listed, said, contains-with_flag}
use multiagent_fipa_acl.Envelope.Letter.{addressed, Letter, insert}

-- Setting flags one after the other.
abbrev with_flags : BaseEnvelope → List ParameterId → BaseEnvelope
with_flags e [] = e
with_flags e (q ∷ qs) = with_flags (with_flag e q) qs

contains-with_flags :
    (qs : List ParameterId) (p : ParameterId) (e : BaseEnvelope)
    → contains (with_flags e qs) p ≡ (contains e p || listed p qs)
contains-with_flags [] p e = ground arith
contains-with_flags (q ∷ qs) p e =
    ground (arith, contains-with_flags qs p (with_flag e q), contains-with_flag q p e)

-- The parameters that `insert` sets, in its order.
abbrev pub inserted_ids : List ParameterId
inserted_ids =
    to ∷ intended_receivers ∷ from ∷ acl_representation ∷ payload_length ∷ payload_encoding ∷ date
    ∷ []

same_flags :
    (e x : BaseEnvelope) (p : ParameterId)
    → e.parameters ≡ x.parameters
    → contains e p ≡ contains x p
unfolding contains
same_flags e x p h = ap (λ n. not (nat_beq (bit_and n (mask p)) 0)) h

addressed_flags :
    (t : Transport) (e : BaseEnvelope) (m : AclMessage) (r : Representation) (text : Text)
    → (addressed t e m r text).parameters ≡ (with_flags e inserted_ids).parameters
unfolding addressed with_flag set_to set_intended_receivers set_from set_acl_representation
    set_payload_length set_payload_encoding set_date
addressed_flags t e m r text = refl

contains-addressed :
    (t : Transport) (e : BaseEnvelope) (m : AclMessage) (r : Representation) (text : Text)
    (p : ParameterId)
    → contains (addressed t e m r text) p ≡ (contains e p || listed p inserted_ids)
contains-addressed t e m r text p =
    same_flags (addressed t e m r text) (with_flags e inserted_ids) p (addressed_flags t e m r text)
    ∙ contains-with_flags inserted_ids p e

-- What the base envelope says after `insert`: of the seven parameters, what the message and its
-- encoding give; of the others, what it said.
abbrev pub inserted :
    Transport
    → BaseEnvelope
    → AclMessage
    → Representation
    → Text
    → (p : ParameterId) → Option (Value p)
inserted t e m r text to = some m.receivers
inserted t e m r text intended_receivers = some m.receivers
inserted t e m r text from = some m.sender
inserted t e m r text acl_representation = some r
inserted t e m r text payload_length = some (length text % 2 ^ 32)
inserted t e m r text payload_encoding = some m.encoding
inserted t e m r text date = some t.now
inserted t e m r text comments = said comments e
inserted t e m r text received_object = said received_object e
inserted t e m r text transport_behaviour = said transport_behaviour e
inserted t e m r text userdefined_parameters = said userdefined_parameters e

said_as :
    (p : ParameterId) (e : BaseEnvelope) (b : Bool)
    → contains e p ≡ b
    → said p e ≡ (if b then some (value p e) else none)
unfolding said
said_as p e b h = ap (λ b. if b then some (value p e) else none) h

all_true : (b : Bool) → (b || true) ≡ true
all_true b = ground arith

all_same : (b : Bool) → (b || false) ≡ b
all_same b = ground arith

pub said-addressed :
    (t : Transport) (e : BaseEnvelope) (m : AclMessage) (r : Representation) (text : Text)
    (p : ParameterId)
    → said p (addressed t e m r text) ≡ inserted t e m r text p
unfolding addressed said with_flag set_to set_intended_receivers set_from set_acl_representation
    set_payload_length set_payload_encoding set_date
said-addressed t e m r text to = said_as to _ true (contains-addressed t e m r text to ∙ all_true _)
said-addressed t e m r text from =
    said_as from _ true (contains-addressed t e m r text from ∙ all_true _)
said-addressed t e m r text comments =
    said_as comments _ (contains e comments) (contains-addressed t e m r text comments ∙ all_same _)
said-addressed t e m r text acl_representation =
    said_as acl_representation _ true
      (contains-addressed t e m r text acl_representation ∙ all_true _)
said-addressed t e m r text payload_length =
    said_as payload_length _ true (contains-addressed t e m r text payload_length ∙ all_true _)
said-addressed t e m r text payload_encoding =
    said_as payload_encoding _ true (contains-addressed t e m r text payload_encoding ∙ all_true _)
said-addressed t e m r text date =
    said_as date _ true (contains-addressed t e m r text date ∙ all_true _)
said-addressed t e m r text intended_receivers =
    said_as intended_receivers _ true
      (contains-addressed t e m r text intended_receivers ∙ all_true _)
said-addressed t e m r text received_object =
    said_as received_object _ (contains e received_object)
      (contains-addressed t e m r text received_object ∙ all_same _)
said-addressed t e m r text transport_behaviour =
    said_as transport_behaviour _ (contains e transport_behaviour)
      (contains-addressed t e m r text transport_behaviour ∙ all_same _)
said-addressed t e m r text userdefined_parameters =
    said_as userdefined_parameters _ (contains e userdefined_parameters)
      (contains-addressed t e m r text userdefined_parameters ∙ all_same _)

insert_run :
    (t : Transport) (l : Letter) (m : AclMessage) (r : Representation) (g : Result Text)
    → generator_create t m r ≡ g
    → insert t l m r
      ≡ attempt g l (λ text.
        (record l { payload = text; base_envelope = addressed t l.base_envelope m r text }, ok tt))
unfolding insert
insert_run t l m r g h =
    ap
      (λ g. attempt {S = Letter} g l (λ text.
        (record l { payload = text; base_envelope = addressed t l.base_envelope m r text }, ok tt)))
      h

-- `insert` throws and changes nothing where the format throws; else it keeps the encoded message
-- as the payload, leaves the extra envelopes as they are, and makes the base envelope say the
-- receivers, the sender, the representation, the length of the payload, its encoding and the date;
-- the comments, the received object, the transport behaviour and the parameters of the user stay
-- as they were. Of the intended receivers nothing is stated.
pub insert_lem :
    (t : Transport) (l : Letter) (m : AclMessage) (r : Representation)
    → ((e : Error) → generator_create t m r ≡ err e → insert t l m r ≡ (l, err e))
      × ((text : Text)
          → generator_create t m r ≡ ok text
          → ((insert t l m r).1 ≡ ok tt)
            × ((insert t l m r).0.payload ≡ text)
            × ((insert t l m r).0.extra_envelopes ≡ l.extra_envelopes)
            × ((p : ParameterId)
                → p ≢ intended_receivers
                → said p (insert t l m r).0.base_envelope ≡ inserted t l.base_envelope m r text p))
insert_lem t l m r = (
  λ e h. insert_run t l m r (err e) h,
  λ text h.
      subst
        (λ (o : Outcome Letter Unit).
          (o.1 ≡ ok tt)
          × (o.0.payload ≡ text)
          × (o.0.extra_envelopes ≡ l.extra_envelopes)
          × ((p : ParameterId)
              → p ≢ intended_receivers
              → said p o.0.base_envelope ≡ inserted t l.base_envelope m r text p))
        (sym (insert_run t l m r (ok text) h))
        (refl, refl, refl, λ p _. said-addressed t l.base_envelope m r text p),
)
