-- ===== src/Envelope.antt =====
-- message_generator/acl_envelope.h, acl_envelope.cpp and received_object.h: the base envelope with
-- the flags of the parameters that were set, its setters, and the merging of envelopes. A
-- `base::Time` is the number that it holds, 0 if it is null.
pub mod Merging
pub mod Formats
pub mod Letter
pub mod Stamps
pub mod Inserted
pub mod Received
use Prim.Native.Nat.{bit_and, bit_or}
use multiagent_fipa_acl.Base.{
  nat_beq, if◌then◌else◌, ◌==◌, nat_eq, Text, text_eq, codes, Outcome, runtime_error, ok, err, ℕ,
  ◌+◌, ◌-◌, Bool, true, false, not, List, [], ◌∷◌, ◌++◌,
}
use multiagent_fipa_acl.Agent.{
  erase_agent, undefined_agent_id, contains_agent, AgentId, UserdefParam,
}

-- `representation::Type`
pub data Representation : Type 0 where
  unknown bitefficient string_rep xml : Representation

-- `representation::TypeTxt`
abbrev pub type_txt : Representation → Text
type_txt unknown = codes "unknown"
type_txt bitefficient = codes "fipa.acl.rep.bitefficient.std"
type_txt string_rep = codes "fipa.acl.rep.string.std"
type_txt xml = codes "fipa.acl.rep.xml.std"

abbrev pub representations : List Representation
representations = unknown ∷ bitefficient ∷ string_rep ∷ xml ∷ []

pub record ReceivedObject : Type 0 where
  pub by : Text
  pub from : Text
  pub date : ℕ
  pub id : Text
  pub via : Text
  pub parameters : List UserdefParam

abbrev pub no_received_object : ReceivedObject
no_received_object = record { by = []; from = []; date = 0; id = []; via = []; parameters = [] }

-- `envelope::ParameterId`, but for its two end markers.
pub data ParameterId : Type 0 where
  to from comments acl_representation payload_length payload_encoding date : ParameterId
  intended_receivers received_object transport_behaviour userdefined_parameters : ParameterId

abbrev pub mask : ParameterId → ℕ
mask to = 0x01
mask from = 0x02
mask comments = 0x04
mask acl_representation = 0x08
mask payload_length = 0x10
mask payload_encoding = 0x20
mask date = 0x40
mask intended_receivers = 0x80
mask received_object = 0x0100
mask transport_behaviour = 0x0200
mask userdefined_parameters = 0x0400

pub record BaseEnvelope : Type 0 where
  pub parameters : ℕ
  pub to : List AgentId
  pub from : AgentId
  pub comments : Text
  pub acl_representation : Representation
  pub payload_length : ℕ
  pub payload_encoding : Text
  pub date : ℕ
  pub intended_receivers : List AgentId
  pub received_object : ReceivedObject
  pub transport_behaviour : Text
  pub userdefined_parameters : List UserdefParam

-- `contains`
unfoldable pub contains : BaseEnvelope → ParameterId → Bool
contains e p = not (nat_beq (bit_and e.parameters (mask p)) 0)

-- `mParameters = (ParameterId) (mParameters | ...)`
unfoldable pub with_flag : BaseEnvelope → ParameterId → BaseEnvelope
with_flag e p = record e { parameters = bit_or e.parameters (mask p) }

-- The constructor. The length, which it leaves uninitialised, is 0 here.
abbrev pub empty_envelope : BaseEnvelope
empty_envelope = record {
  parameters = 0;
  to = [];
  from = undefined_agent_id;
  comments = [];
  acl_representation = unknown;
  payload_length = 0;
  payload_encoding = codes "US-ASCII";
  date = 0;
  intended_receivers = [];
  received_object = no_received_object;
  transport_behaviour = [];
  userdefined_parameters = [];
}

-- The setters, in the source's order.
unfoldable pub add_to : BaseEnvelope → AgentId → BaseEnvelope
add_to e a = if contains_agent e.to a then e else record e { to = e.to ++ a ∷ [] }

unfoldable pub set_to : BaseEnvelope → List AgentId → BaseEnvelope
unfolding with_flag
set_to e v = record (with_flag e to) { to = v }

unfoldable pub remove_to : BaseEnvelope → AgentId → BaseEnvelope × Bool
remove_to e a =
    if contains_agent e.to a then (record e { to = erase_agent a e.to }, true) else (e, false)

unfoldable pub clear_all_to : BaseEnvelope → BaseEnvelope
clear_all_to e = record e { to = [] }

unfoldable pub set_from : BaseEnvelope → AgentId → BaseEnvelope
unfolding with_flag
set_from e v = record (with_flag e from) { from = v }

unfoldable pub set_comments : BaseEnvelope → Text → BaseEnvelope
unfolding with_flag
set_comments e v = record (with_flag e comments) { comments = v }

unfoldable pub set_acl_representation : BaseEnvelope → Representation → BaseEnvelope
unfolding with_flag
set_acl_representation e v = record (with_flag e acl_representation) { acl_representation = v }

set_first_named : BaseEnvelope → Text → List Representation → Outcome BaseEnvelope (Unit {0})
set_first_named e text [] = (e, err runtime_error)
set_first_named e text (r ∷ rs) =
    if text == type_txt r then (set_acl_representation e r, ok tt) else set_first_named e text rs

-- `setACLRepresentation(const std::string&)`
unfoldable pub set_acl_representation_string : BaseEnvelope → Text → Outcome BaseEnvelope (Unit {0})
unfolding set_first_named
set_acl_representation_string e text = set_first_named e text representations

unfoldable pub set_payload_length : BaseEnvelope → ℕ → BaseEnvelope
unfolding with_flag
set_payload_length e v = record (with_flag e payload_length) { payload_length = v }

unfoldable pub set_payload_encoding : BaseEnvelope → Text → BaseEnvelope
unfolding with_flag
set_payload_encoding e v = record (with_flag e payload_encoding) { payload_encoding = v }

unfoldable pub set_date : BaseEnvelope → ℕ → BaseEnvelope
unfolding with_flag
set_date e v = record (with_flag e date) { date = v }

unfoldable pub set_intended_receivers : BaseEnvelope → List AgentId → BaseEnvelope
unfolding with_flag
set_intended_receivers e v = record (with_flag e intended_receivers) { intended_receivers = v }

unfoldable pub add_intended_receiver : BaseEnvelope → AgentId → BaseEnvelope
add_intended_receiver e a =
    if contains_agent e.intended_receivers a
    then e
    else record e { intended_receivers = e.intended_receivers ++ a ∷ [] }

unfoldable pub remove_intended_receiver : BaseEnvelope → AgentId → BaseEnvelope × Bool
remove_intended_receiver e a =
    if contains_agent e.intended_receivers a
    then (record e { intended_receivers = erase_agent a e.intended_receivers }, true)
    else (e, false)

unfoldable pub clear_all_intended_receivers : BaseEnvelope → BaseEnvelope
clear_all_intended_receivers e = record e { intended_receivers = [] }

unfoldable pub set_received_object : BaseEnvelope → ReceivedObject → BaseEnvelope
unfolding with_flag
set_received_object e v = record (with_flag e received_object) { received_object = v }

-- `hasReceivedObject`
unfoldable pub has_received_object : BaseEnvelope → ReceivedObject → Bool
has_received_object e r = if contains e received_object then r.by == e.received_object.by else false

unfoldable pub set_transport_behaviour : BaseEnvelope → Text → BaseEnvelope
unfolding with_flag
set_transport_behaviour e v = record (with_flag e transport_behaviour) { transport_behaviour = v }

unfoldable pub set_userdefined_parameters : BaseEnvelope → List UserdefParam → BaseEnvelope
unfolding with_flag
set_userdefined_parameters e v = record (with_flag e userdefined_parameters) {
  userdefined_parameters = v;
}

-- One block of `merge`: what `other` contains is set.
unfoldable pub merge_parameter : BaseEnvelope → ParameterId → BaseEnvelope → BaseEnvelope
merge_parameter other to e = if contains other to then set_to e other.to else e
merge_parameter other from e = if contains other from then set_from e other.from else e
merge_parameter other comments e =
    if contains other comments then set_comments e other.comments else e
merge_parameter other acl_representation e =
    if contains other acl_representation
    then set_acl_representation e other.acl_representation
    else e
merge_parameter other payload_length e =
    if contains other payload_length then set_payload_length e other.payload_length else e
merge_parameter other payload_encoding e =
    if contains other payload_encoding then set_payload_encoding e other.payload_encoding else e
merge_parameter other date e = if contains other date then set_date e other.date else e
merge_parameter other intended_receivers e =
    if contains other intended_receivers
    then set_intended_receivers e other.intended_receivers
    else e
merge_parameter other received_object e =
    if contains other received_object then set_received_object e other.received_object else e
merge_parameter other transport_behaviour e =
    if contains other transport_behaviour
    then set_transport_behaviour e other.transport_behaviour
    else e
merge_parameter other userdefined_parameters e =
    if contains other userdefined_parameters
    then set_userdefined_parameters e other.userdefined_parameters
    else e

-- The blocks of `merge` in their order.
abbrev pub parameter_ids : List ParameterId
parameter_ids =
    to ∷ from ∷ comments ∷ acl_representation ∷ payload_length ∷ payload_encoding ∷ date
    ∷ intended_receivers ∷ received_object ∷ transport_behaviour ∷ userdefined_parameters ∷ []

unfoldable pub merge_parameters : BaseEnvelope → List ParameterId → BaseEnvelope → BaseEnvelope
merge_parameters other [] e = e
merge_parameters other (p ∷ ps) e = merge_parameters other ps (merge_parameter other p e)

-- `merge` and `flatten`
unfoldable pub merge : BaseEnvelope → BaseEnvelope → BaseEnvelope
merge e other = merge_parameters other parameter_ids e

unfoldable pub flatten : BaseEnvelope → List BaseEnvelope → BaseEnvelope
flatten e [] = e
flatten e (x ∷ xs) = flatten (merge e x) xs
