-- ===== src/Bitefficient/Parser.antt =====
-- message_parser/bitefficient_message_parser.cpp: the message is built from the parse tree. A
-- parameter that cannot be set becomes a user-defined one.
pub mod Reserved
use multiagent_fipa_acl.Bitefficient.Times.{CTime, to_time}
use multiagent_fipa_acl.Base.{
  if◌then◌else◌, ◌==◌, nat_eq, Text, text_eq, codes, is_runtime_error, Result, Outcome, attempt,
  follow, catch, ◌>>=◌, bad_get, runtime_error, ok, err, ℕ, Bool, true, false, List, [], ◌∷◌,
}
use multiagent_fipa_acl.Agent.{
  add_userdef_param, AgentId, UserdefParam, undefined_agent_id, set_name, add_address, add_resolver,
  set_param_name,
}
use multiagent_fipa_acl.Message.{
  add_userdef_param as add_message_param, AclMessage, set_performative_string, add_receiver,
  add_reply_to, set_protocol, set_in_reply_to, set_reply_with, set_language, set_encoding,
  set_ontology, set_conversation_id, set_sender, set_reply_by, set_content,
}
use multiagent_fipa_acl.Bitefficient.Qi.{Qi, Parsed, matched, failed, thrown}
use multiagent_fipa_acl.Bitefficient.Grammar.Expressions.{DateTime}
use multiagent_fipa_acl.Bitefficient.Grammar.Agents.{
  AgentIdentifier, ResolverList, UserDefinedParameter, agent_identifier, no_resolver, resolver,
}
use multiagent_fipa_acl.Bitefficient.Grammar.Message.{
  Message, Parameter, ParameterValue, text_value, agent_value, agents_value, bytes_value,
  date_value, acl_communicative_act,
}

-- A change of a local object: if it throws, the object is gone.
abbrev pub done : {S : Type 0} → Outcome S (Unit {0}) → Result S
done (s, ok _) = ok s
done (s, err e) = err e

-- `buildUserdefParameter`
unfoldable pub build_userdef_parameter : Text → Text → Result UserdefParam
build_userdef_parameter name value = do
  p ← done (set_param_name (record { name = []; value = [] }) name)
  ok (record p { value = value })

-- The loops of `buildAgentID` over the addresses and of `buildAgentParameters`.
unfoldable pub add_addresses : AgentId → List Text → Result AgentId
add_addresses a [] = ok a
add_addresses a (address ∷ rest) = done (add_address a address) >>= λ b. add_addresses b rest

unfoldable pub build_agent_parameters : AgentId → List UserDefinedParameter → Result AgentId
unfolding build_userdef_parameter
build_agent_parameters a [] = ok a
build_agent_parameters a (p ∷ rest) = build_userdef_parameter p.name p.data_text >>= λ q.
    build_agent_parameters (add_userdef_param a q) rest

-- `buildAgentID` and `buildResolvers`
unfoldable mutual
  pub build_agent_id : AgentIdentifier → Result AgentId
  build_agent_id (agent_identifier name addresses resolvers params) =
      done (set_name undefined_agent_id name) >>= λ a. add_addresses a addresses >>= λ b.
      build_resolvers b resolvers >>= λ c. build_agent_parameters c params

  pub build_resolvers : AgentId → ResolverList → Result AgentId
  build_resolvers a no_resolver = ok a
  build_resolvers a (resolver r rest) =
      build_agent_id r >>= λ b. build_resolvers (add_resolver a b) rest

-- The loops of `buildReceiver` and `buildReplyTo`.
unfoldable pub add_each :
    (AclMessage → AgentId → AclMessage)
    → AclMessage
    → List AgentIdentifier
    → Outcome AclMessage (Unit {0})
unfolding build_agent_id
add_each add m [] = (m, ok tt)
add_each add m (a ∷ rest) = attempt (build_agent_id a) m (λ b. add_each add (add m b) rest)

-- `boost::get` of one alternative of the value.
abbrev pub get_text : ParameterValue → Result Text
get_text (text_value v) = ok v
get_text _ = err bad_get

abbrev pub get_agent : ParameterValue → Result AgentIdentifier
get_agent (agent_value v) = ok v
get_agent _ = err bad_get

abbrev pub get_agents : ParameterValue → Result (List AgentIdentifier)
get_agents (agents_value v) = ok v
get_agents _ = err bad_get

abbrev pub get_bytes : ParameterValue → Result Text
get_bytes (bytes_value v) = ok v.bytes
get_bytes _ = err bad_get

abbrev pub get_date : ParameterValue → Result DateTime
get_date (date_value v) = ok v
get_date _ = err bad_get

-- The parameters whose value is a text, once it is known.
unfoldable pub build_text_parameter : Text → Text → AclMessage → Outcome AclMessage (Unit {0})
build_text_parameter name value m =
    if name == codes "in-reply-to"
    then (set_in_reply_to m value, ok tt)
    else if name == codes "reply-with"
    then (set_reply_with m value, ok tt)
    else if name == codes "language"
    then (set_language m value, ok tt)
    else if name == codes "encoding"
    then (set_encoding m value, ok tt)
    else if name == codes "ontology"
    then (set_ontology m value, ok tt)
    else if name == codes "protocol"
    then set_protocol m value
    else if name == codes "conversation-id"
    then (set_conversation_id m value, ok tt)
    else (m, err runtime_error)

-- `strptime`, `atoi` and `mktime` of the texts of a date are an argument: they give the time.
module _ (c_time : CTime) where
  -- `buildPredefMessageParameters`
  unfoldable pub build_predef_message_parameters :
      Parameter → AclMessage → Outcome AclMessage (Unit {0})
  unfolding build_text_parameter add_each
  build_predef_message_parameters p m =
      if p.name == codes "sender"
      then attempt (get_agent p.value) m
          (λ a. attempt (build_agent_id a) m (λ b. (set_sender m b, ok tt)))
      else if p.name == codes "receiver"
      then attempt (get_agents p.value) m (λ agents. add_each add_receiver m agents)
      else if p.name == codes "content"
      then attempt (get_bytes p.value) m (λ bytes. (set_content m bytes, ok tt))
      else if p.name == codes "reply-by"
      then attempt (get_date p.value) m (λ date. (set_reply_by m (to_time c_time date), ok tt))
      else if p.name == codes "reply-to"
      then attempt (get_agents p.value) m (λ agents. add_each add_reply_to m agents)
      else attempt (get_text p.value) m (λ value. build_text_parameter p.name value m)

  -- `buildParameters`
  unfoldable pub build_parameter : Parameter → AclMessage → Outcome AclMessage (Unit {0})
  unfolding build_predef_message_parameters build_userdef_parameter
  build_parameter p m = catch is_runtime_error (build_predef_message_parameters p m) (λ n.
      attempt (get_text p.value) n (λ value.
        attempt (build_userdef_parameter p.name value) n (λ q. (add_message_param n q, ok tt))))

  unfoldable pub build_parameters : List Parameter → AclMessage → Outcome AclMessage (Unit {0})
  unfolding build_parameter
  build_parameters [] m = (m, ok tt)
  build_parameters (p ∷ rest) m = follow (build_parameter p m) (λ n _. build_parameters rest n)

  -- `buildMessage`
  unfoldable pub build_message : Message → AclMessage → Outcome AclMessage Bool
  unfolding build_parameters
  build_message tree m =
      follow (set_performative_string m tree.type_text)
        (λ n _. follow (build_parameters tree.parameters n) (λ o _. (o, ok true)))

  -- `parseData`
  unfoldable pub parsed_message : Parsed Message → AclMessage → Outcome AclMessage Bool
  unfolding build_message
  parsed_message (matched tree []) m = build_message tree m
  parsed_message (matched tree (_ ∷ _)) m = (m, ok false)
  parsed_message failed m = (m, ok false)
  parsed_message (thrown e) m = (m, err e)

  unfoldable pub parse_data : Qi → (Text → Text) → Text → AclMessage → Outcome AclMessage Bool
  unfolding parsed_message
  parse_data qi hex storage m = parsed_message (acl_communicative_act qi hex storage) m
