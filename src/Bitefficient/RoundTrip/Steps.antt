-- ===== src/Bitefficient/RoundTrip/Steps.antt =====
-- message_parser/bitefficient_message_parser.cpp: what is built of each parameter in the tree of a
-- message that was encoded.
use multiagent_fipa_acl.Bitefficient.Times.{CTime, to_time}
use multiagent_fipa_acl.Base.{
  if◌then◌else◌, ◌==◌, nat_eq, text_eq, nat_beq, Text, codes, any_of, is_empty, ok, err,
  runtime_error, ℕ, ◌≡◌, refl, Bool, true, false, not, ◌||◌, List, [], ◌∷◌, ◌++◌, map, arith,
}
use multiagent_fipa_acl.Agent.{
  AgentId, UserdefParam, param_eq, agent_empty, contains_agent, set_param_name,
}
use multiagent_fipa_acl.Message.{
  AclMessage, add_receiver, add_reply_to, set_protocol, set_in_reply_to, set_reply_with,
  set_language, set_encoding, set_ontology, set_conversation_id, set_sender, set_reply_by,
  set_content, add_userdef_param,
}
use multiagent_fipa_acl.Bitefficient.Grammar.Expressions.{DateTime}
use multiagent_fipa_acl.Bitefficient.Grammar.Message.{Parameter, agent_value, date_value}
use multiagent_fipa_acl.Bitefficient.Parser.{
  add_each, build_text_parameter, build_predef_message_parameters, build_parameter,
  build_parameters, build_userdef_parameter,
}
use multiagent_fipa_acl.Bitefficient.RoundTrip.{all_of, is_word}
use multiagent_fipa_acl.Bitefficient.RoundTrip.Trees.{
  agent_fits, agent_tree, param_fits, text_parameter, agents_parameter, user_parameter,
  sender_parameter, date_parameter, content_parameter,
}
use multiagent_fipa_acl.Bitefficient.RoundTrip.Built.{cut, agent_built, is_word-legal}

abbrev pub text_or : Text → Text → Text
text_or old v = if is_empty v then old else v

-- Agents put in front one after the other, each only if it is not there yet.
abbrev pub listed : List AgentId → List AgentId → List AgentId
listed kept [] = kept
listed kept (a ∷ rest) =
    listed (if contains_agent kept (cut 1 a) then kept else cut 1 a ∷ kept) rest

abbrev pub params_listed : List UserdefParam → List UserdefParam → List UserdefParam
params_listed kept [] = kept
params_listed kept (p ∷ rest) =
    params_listed (if any_of (λ other. other == p) kept then kept else p ∷ kept) rest

receiver_added :
    (m : AclMessage) (a : AgentId)
    → add_receiver m a ≡ record m {
      receivers = if contains_agent m.receivers a then m.receivers else a ∷ m.receivers;
    }
unfolding add_receiver
receiver_added m a = step (contains_agent m.receivers a)
  where
    step :
        (b : Bool)
        → (if b then m else record m { receivers = a ∷ m.receivers })
          ≡ record m { receivers = if b then m.receivers else a ∷ m.receivers }
    step true = refl
    step false = refl

one_reply_to_added :
    (m : AclMessage) (a : AgentId)
    → add_reply_to m a
      ≡ record m { reply_to = if contains_agent m.reply_to a then m.reply_to else a ∷ m.reply_to }
unfolding add_reply_to
one_reply_to_added m a = step (contains_agent m.reply_to a)
  where
    step :
        (b : Bool)
        → (if b then m else record m { reply_to = a ∷ m.reply_to })
          ≡ record m { reply_to = if b then m.reply_to else a ∷ m.reply_to }
    step true = refl
    step false = refl

receivers_added :
    (m : AclMessage) (agents : List AgentId)
    → all_of (agent_fits 1) agents ≡ true
    → add_each add_receiver m (map (agent_tree 1) agents)
      ≡ (record m { receivers = listed m.receivers agents }, ok tt)
unfolding add_each
receivers_added m [] h = refl
receivers_added m (a ∷ rest) h = rw (agent_built 1 a (ground arith)) (
    rw (receiver_added m (cut 1 a)) (
      receivers_added
        (record m {
          receivers =
              if contains_agent m.receivers (cut 1 a) then m.receivers else cut 1 a ∷ m.receivers;
        })
        rest (ground arith)))

reply_to_added :
    (m : AclMessage) (agents : List AgentId)
    → all_of (agent_fits 1) agents ≡ true
    → add_each add_reply_to m (map (agent_tree 1) agents)
      ≡ (record m { reply_to = listed m.reply_to agents }, ok tt)
unfolding add_each
reply_to_added m [] h = refl
reply_to_added m (a ∷ rest) h = rw (agent_built 1 a (ground arith)) (
    rw (one_reply_to_added m (cut 1 a)) (
      reply_to_added
        (record m {
          reply_to =
              if contains_agent m.reply_to (cut 1 a) then m.reply_to else cut 1 a ∷ m.reply_to;
        })
        rest (ground arith)))

module _ (c_time : CTime) (rest : List Parameter) (n : AclMessage) where
  pub language_built :
      (v : Text)
      → build_parameters c_time (text_parameter (codes "language") v ++ rest) n
        ≡ build_parameters c_time rest (record n { language = text_or n.language v })
  unfolding build_parameters build_parameter build_predef_message_parameters build_text_parameter
      set_language
  language_built [] = refl
  language_built (c ∷ v) = refl

  pub reply_with_built :
      (v : Text)
      → build_parameters c_time (text_parameter (codes "reply-with") v ++ rest) n
        ≡ build_parameters c_time rest (record n { reply_with = text_or n.reply_with v })
  unfolding build_parameters build_parameter build_predef_message_parameters build_text_parameter
      set_reply_with
  reply_with_built [] = refl
  reply_with_built (c ∷ v) = refl

  pub in_reply_to_built :
      (v : Text)
      → build_parameters c_time (text_parameter (codes "in-reply-to") v ++ rest) n
        ≡ build_parameters c_time rest (record n { in_reply_to = text_or n.in_reply_to v })
  unfolding build_parameters build_parameter build_predef_message_parameters build_text_parameter
      set_in_reply_to
  in_reply_to_built [] = refl
  in_reply_to_built (c ∷ v) = refl

  pub encoding_built :
      (v : Text)
      → build_parameters c_time (text_parameter (codes "encoding") v ++ rest) n
        ≡ build_parameters c_time rest (record n { encoding = text_or n.encoding v })
  unfolding build_parameters build_parameter build_predef_message_parameters build_text_parameter
      set_encoding
  encoding_built [] = refl
  encoding_built (c ∷ v) = refl

  pub ontology_built :
      (v : Text)
      → build_parameters c_time (text_parameter (codes "ontology") v ++ rest) n
        ≡ build_parameters c_time rest (record n { ontology = text_or n.ontology v })
  unfolding build_parameters build_parameter build_predef_message_parameters build_text_parameter
      set_ontology
  ontology_built [] = refl
  ontology_built (c ∷ v) = refl

  pub conversation_id_built :
      (v : Text)
      → build_parameters c_time (text_parameter (codes "conversation-id") v ++ rest) n
        ≡ build_parameters c_time rest (record n { conversation_id = text_or n.conversation_id v })
  unfolding build_parameters build_parameter build_predef_message_parameters build_text_parameter
      set_conversation_id
  conversation_id_built [] = refl
  conversation_id_built (c ∷ v) = refl

  pub reply_by_built :
      (time : ℕ) (date : DateTime)
      → build_parameters c_time (date_parameter time date ++ rest) n
        ≡ build_parameters c_time rest
            (record n { reply_by = if nat_beq time 0 then n.reply_by else to_time c_time date })
  unfolding build_parameters build_parameter build_predef_message_parameters set_reply_by
  reply_by_built time date = step (nat_beq time 0)
    where
      step :
          (b : Bool)
          → build_parameters c_time
              ((if b
                  then []
                  else (record { name = codes "reply-by"; value = date_value date }) ∷ [])
                ++ rest)
              n
            ≡ build_parameters c_time rest
                (record n { reply_by = if b then n.reply_by else to_time c_time date })
      step true = refl
      step false = refl

  pub content_built :
      (content : Text)
      → build_parameters c_time (content_parameter content ++ rest) n
        ≡ build_parameters c_time rest (record n { content = text_or n.content content })
  unfolding build_parameters build_parameter build_predef_message_parameters set_content
  content_built [] = refl
  content_built (c ∷ content) = refl

  pub reply_to_built :
      (agents : List AgentId)
      → all_of (agent_fits 1) agents ≡ true
      → build_parameters c_time (agents_parameter 1 (codes "reply-to") agents ++ rest) n
        ≡ build_parameters c_time rest (record n { reply_to = listed n.reply_to agents })
  unfolding build_parameters build_parameter build_predef_message_parameters
  reply_to_built [] h = refl
  reply_to_built (a ∷ agents) h = rw (reply_to_added n (a ∷ agents) h) refl

  pub protocol_built :
      (v : Text)
      → (is_empty v || is_word v) ≡ true
      → build_parameters c_time (text_parameter (codes "protocol") v ++ rest) n
        ≡ build_parameters c_time rest (record n { protocol = text_or n.protocol v })
  unfolding build_parameters build_parameter build_predef_message_parameters build_text_parameter
      set_protocol
  protocol_built [] h = refl
  protocol_built (c ∷ v) h = rw (is_word-legal (c ∷ v) h) refl

  pub sender_built :
      (a : AgentId)
      → (agent_empty a || agent_fits 1 a) ≡ true
      → build_parameters c_time (sender_parameter a ++ rest) n
        ≡ build_parameters c_time rest
            (record n { sender = if agent_empty a then n.sender else cut 1 a })
  unfolding build_parameters build_parameter build_predef_message_parameters set_sender
  sender_built a h = step (agent_empty a) h
    where
      step :
          (b : Bool)
          → (b || agent_fits 1 a) ≡ true
          → build_parameters c_time
              ((if b
                  then []
                  else (record { name = codes "sender"; value = agent_value (agent_tree 1 a) })
                    ∷ [])
                ++ rest)
              n
            ≡ build_parameters c_time rest (record n { sender = if b then n.sender else cut 1 a })
      step true k = refl
      step false k = rw (agent_built 1 a k) refl

  pub receivers_built :
      (agents : List AgentId)
      → all_of (agent_fits 1) agents ≡ true
      → build_parameters c_time (agents_parameter 1 (codes "receiver") agents ++ rest) n
        ≡ build_parameters c_time rest (record n { receivers = listed n.receivers agents })
  unfolding build_parameters build_parameter build_predef_message_parameters
  receivers_built [] h = refl
  receivers_built (a ∷ agents) h = rw (receivers_added n (a ∷ agents) h) refl

-- The names that the parser takes for those of fields.
abbrev pub field_names : List Text
field_names =
    codes "sender"
    ∷ codes "receiver"
    ∷ codes "content"
    ∷ codes "reply-by"
    ∷ codes "reply-to"
    ∷ codes "in-reply-to"
    ∷ codes "reply-with"
    ∷ codes "language"
    ∷ codes "encoding"
    ∷ codes "ontology"
    ∷ codes "protocol"
    ∷ codes "conversation-id"
    ∷ []

abbrev pub is_free : UserdefParam → Bool
is_free p = not (any_of (λ name. p.name == name) field_names)

param_added :
    (m : AclMessage) (p : UserdefParam)
    → add_userdef_param m p ≡ record m {
      parameters =
          if any_of (λ other. other == p) m.parameters then m.parameters else p ∷ m.parameters;
    }
unfolding add_userdef_param
param_added m p = step (any_of (λ other. other == p) m.parameters)
  where
    step :
        (b : Bool)
        → (if b then m else record m { parameters = p ∷ m.parameters })
          ≡ record m { parameters = if b then m.parameters else p ∷ m.parameters }
    step true = refl
    step false = refl

-- A name that is none of a field is refused as one, and the message stays.
not_a_field :
    (c_time : CTime) (p : UserdefParam) (m : AclMessage)
    → is_free p ≡ true
    → build_predef_message_parameters c_time (user_parameter p) m ≡ (m, err runtime_error)
unfolding build_predef_message_parameters build_text_parameter
not_a_field c_time p m h = ground arith

param_built :
    (c_time : CTime) (p : UserdefParam) (m : AclMessage)
    → is_free p ≡ true
    → param_fits p ≡ true
    → build_parameter c_time (user_parameter p) m ≡ (add_userdef_param m p, ok tt)
unfolding build_parameter build_userdef_parameter set_param_name param_fits
param_built c_time p m h k =
    rw (not_a_field c_time p m h) (rw (is_word-legal p.name (ground arith)) refl)

pub params_built :
    (c_time : CTime) (rest : List Parameter) (ps : List UserdefParam) (n : AclMessage)
    → all_of is_free ps ≡ true
    → all_of param_fits ps ≡ true
    → build_parameters c_time (map user_parameter ps ++ rest) n
      ≡ build_parameters c_time rest (record n { parameters = params_listed n.parameters ps })
unfolding build_parameters
params_built c_time rest [] n h k = refl
params_built c_time rest (p ∷ ps) n h k =
    rw (param_built c_time p n (ground arith) (ground arith)) (
      rw (param_added n p) (
        params_built c_time rest ps
          (record n {
            parameters =
                if any_of (λ other. other == p) n.parameters
                then n.parameters
                else p ∷ n.parameters;
          })
          (ground arith) (ground arith)))
