-- ===== src/Envelope/Letter.antt =====
-- `ACLEnvelope`, the letter, of message_generator/acl_envelope.h and acl_envelope.cpp: a payload
-- with its base envelope and the extra envelopes that transport services add.
use multiagent_fipa_acl.Base.{
  if◌then◌else◌, ◌>>=◌, nat_eq, Text, text_eq, codes, length, any_of, Result, Outcome, attempt,
  runtime_error, ok, err, ℕ, suc, ◌%◌, ◌^◌, Bool, true, false, List, [], ◌∷◌, ◌++◌,
}
use multiagent_fipa_acl.Agent.{AgentId, new_agent_id, get_name}
use multiagent_fipa_acl.Message.{AclMessage, empty_message}
use multiagent_fipa_acl.Envelope.Formats.{Transport, generator_create, parser_parse_data}
use multiagent_fipa_acl.Envelope.{
  set_date, set_payload_encoding, set_payload_length, set_acl_representation, set_from,
  set_received_object, received_object, has_received_object, no_received_object, contains, set_to,
  set_intended_receivers, flatten, empty_envelope, Representation, BaseEnvelope,
}

pub record Letter : Type 0 where
  pub extra_envelopes : List BaseEnvelope
  pub base_envelope : BaseEnvelope
  pub payload : Text

abbrev pub empty_letter : Letter
empty_letter = record { extra_envelopes = []; base_envelope = empty_envelope; payload = [] }

-- The base envelope after `insert`, which sets it from the message and its encoding.
unfoldable pub addressed :
    Transport → BaseEnvelope → AclMessage → Representation → Text → BaseEnvelope
addressed t e m r text =
    let e1 = set_to e m.receivers in
    let e2 = set_intended_receivers e1 e1.to in
    let e3 = set_from e2 m.sender in
    let e4 = set_acl_representation e3 r in
    let e5 = set_payload_length e4 (length text % 2 ^ 32) in
    let e6 = set_payload_encoding e5 m.encoding in set_date e6 t.now

-- `insert`: the format may throw, before anything is changed.
unfoldable pub insert : Transport → Letter → AclMessage → Representation → Outcome Letter (Unit {0})
unfolding addressed
insert t l m r = attempt (generator_create t m r) l (λ text.
    (record l { payload = text; base_envelope = addressed t l.base_envelope m r text }, ok tt))

-- `ACLEnvelope(const ACLMessage&, const representation::Type&)`
unfoldable pub new_letter : Transport → AclMessage → Representation → Result Letter
unfolding addressed
new_letter t m r = do
  text ← generator_create t m r
  ok (record empty_letter { payload = text; base_envelope = addressed t empty_envelope m r text })

unfoldable pub add_extra_envelope : Letter → BaseEnvelope → Letter
add_extra_envelope l e = record l { extra_envelopes = l.extra_envelopes ++ e ∷ [] }

unfoldable pub flattened : Letter → BaseEnvelope
flattened l = flatten l.base_envelope l.extra_envelopes

-- The loop of `getDeliveryPath`, in which the constructor of the agent's identifier may throw.
unfoldable pub hops : List BaseEnvelope → Result (List AgentId)
hops [] = ok []
hops (e ∷ es) =
    if contains e received_object
    then (do hop ← new_agent_id e.received_object.by; path ← hops es; ok (hop ∷ path))
    else hops es

-- `getDeliveryPath`: the base envelope is read in front of the extra envelopes.
unfoldable pub get_delivery_path : Letter → Result (List AgentId)
unfolding hops
get_delivery_path l = hops (l.base_envelope ∷ l.extra_envelopes)

unfoldable pub joined : List AgentId → Text
joined [] = []
joined (a ∷ []) = get_name a
joined (a ∷ b ∷ path) = get_name a ++ codes "," ++ joined (b ∷ path)

-- `getDeliveryPathString`
unfoldable pub get_delivery_path_string : Letter → Result Text
unfolding get_delivery_path joined
get_delivery_path_string l = do path ← get_delivery_path l; ok (joined path)

-- `getACLMessage`: what the parser throws goes through, and a letter that it refuses is an error.
unfoldable pub accepted : Outcome AclMessage Bool → Result AclMessage
accepted (m, ok true) = ok m
accepted (m, ok false) = err runtime_error
accepted (m, err e) = err e

unfoldable pub get_acl_message : Transport → Letter → Result AclMessage
unfolding flattened accepted
get_acl_message t l =
    accepted (parser_parse_data t l.payload empty_message (flattened l).acl_representation)

-- `createLocalId`, with the counter of stamps that all letters share.
unfoldable pub create_local_id : Transport → ℕ → ℕ × Text
create_local_id t counter =
    let next = suc counter % 2 ^ 32 in (next, t.decimal next ++ codes ":" ++ t.time_text t.now)

-- `stamp`: with the counter after the call.
unfoldable pub stamp : Transport → ℕ → Letter → AgentId → ℕ × Letter
unfolding create_local_id add_extra_envelope
stamp t counter l a =
    let (next, id) = create_local_id t counter in
    let r = record no_received_object { by = get_name a; date = t.now; id = id } in
    (next, add_extra_envelope l (set_received_object empty_envelope r))

-- `hasStamp`: only the extra envelopes are asked.
unfoldable pub has_stamp : Letter → AgentId → Bool
has_stamp l a =
    any_of (λ e. has_received_object e (record no_received_object { by = get_name a }))
      l.extra_envelopes

-- `createDedicatedEnvelope`
unfoldable pub create_dedicated_envelope : Letter → AgentId → Letter
unfolding add_extra_envelope
create_dedicated_envelope l a =
    add_extra_envelope l (set_intended_receivers empty_envelope (a ∷ []))
