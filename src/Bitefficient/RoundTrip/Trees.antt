-- ===== src/Bitefficient/RoundTrip/Trees.antt =====
-- What the encoding can hold, and the trees that the grammar makes of it.
use multiagent_fipa_acl.Base.{
  ltb, nat_beq, if◌then◌else◌, Text, codes, is_empty, length, ℕ, zero, suc, ◌%◌, Bool, ◌&&◌, ◌||◌,
  not, List, [], ◌∷◌, ◌++◌, map,
}
use multiagent_fipa_acl.Agent.{
  AgentId, UserdefParam, agent_empty, get_name, get_addresses, get_resolvers, get_userdef_params,
}
use multiagent_fipa_acl.Message.{AclMessage, strlen}
use multiagent_fipa_acl.Bitefficient.Decimal.{print_int}
use multiagent_fipa_acl.Bitefficient.Grammar.{ByteSequence}
use multiagent_fipa_acl.Bitefficient.Grammar.Expressions.{DateTime}
use multiagent_fipa_acl.Bitefficient.Grammar.Agents.{
  UserDefinedParameter, AgentIdentifier, agent_identifier, resolver_list,
}
use multiagent_fipa_acl.Bitefficient.Grammar.Message.{
  Message, Parameter, text_value, agents_value, agent_value, bytes_value, date_value,
}
use multiagent_fipa_acl.Bitefficient.RoundTrip.{all_of, is_word, is_quotable}

-- A parameter and an agent identifier that the encoding can hold, and the trees that they are
-- read as, with resolvers down to a depth.
unfoldable pub param_fits : UserdefParam → Bool
param_fits p = is_word p.name && is_quotable p.value

abbrev pub param_tree : UserdefParam → UserDefinedParameter
param_tree p = record { name = p.name; data_text = p.value }

unfoldable pub agent_fits : ℕ → AgentId → Bool
agent_fits zero a =
    is_word (get_name a)
    && all_of is_word (get_addresses a)
    && all_of param_fits (get_userdef_params a)
agent_fits (suc depth) a =
    is_word (get_name a)
    && all_of is_word (get_addresses a)
    && all_of param_fits (get_userdef_params a)
    && all_of (agent_fits depth) (get_resolvers a)

unfoldable pub agent_tree : ℕ → AgentId → AgentIdentifier
agent_tree zero a =
    agent_identifier (get_name a) (get_addresses a) (resolver_list [])
      (map param_tree (get_userdef_params a))
agent_tree (suc depth) a =
    agent_identifier (get_name a) (get_addresses a)
      (resolver_list (map (agent_tree depth) (get_resolvers a)))
      (map param_tree (get_userdef_params a))

-- The parameters of the tree; one without a value is left out.
abbrev pub text_parameter : Text → Text → List Parameter
text_parameter name v =
    if is_empty v then [] else (record { name = name; value = text_value v }) ∷ []

abbrev pub agents_parameter : ℕ → Text → List AgentId → List Parameter
agents_parameter depth name v =
    if is_empty v
    then []
    else (record { name = name; value = agents_value (map (agent_tree depth) v) }) ∷ []

abbrev pub user_parameter : UserdefParam → Parameter
user_parameter p = record { name = p.name; value = text_value p.value }

-- The content, with the digits of its length where it is read as a string.
abbrev pub content_tree : Text → ℕ → ByteSequence
content_tree content digit = record {
  encoding = if not (nat_beq (strlen content) digit) then [] else print_int digit;
  bytes = content;
}

-- A message that the encoding can hold.
unfoldable pub message_fits : AclMessage → Bool
message_fits m =
    is_word m.performative
    && (agent_empty m.sender || agent_fits 1 m.sender)
    && all_of (agent_fits 1) m.receivers
    && is_quotable m.reply_with
    && is_quotable m.in_reply_to
    && all_of (agent_fits 1) m.reply_to
    && is_quotable m.language
    && is_quotable m.encoding
    && is_quotable m.ontology
    && (is_empty m.protocol || is_word m.protocol)
    && is_quotable m.conversation_id
    && all_of param_fits m.parameters
    && ltb (length m.content) 2147483648

-- The tree of a message, with the date that its reply-by time is read as.
abbrev pub sender_parameter : AgentId → List Parameter
sender_parameter a =
    if agent_empty a
    then []
    else (record { name = codes "sender"; value = agent_value (agent_tree 1 a) }) ∷ []

abbrev pub date_parameter : ℕ → DateTime → List Parameter
date_parameter time date =
    if nat_beq time 0
    then []
    else (record { name = codes "reply-by"; value = date_value date }) ∷ []

abbrev pub content_parameter : Text → List Parameter
content_parameter content =
    if is_empty content
    then []
    else (record {
      name = codes "content";
      value = bytes_value (content_tree content (length content % 4294967296));
    })
      ∷ []

unfoldable pub predefined_trees : AclMessage → DateTime → List Parameter
predefined_trees m date =
    sender_parameter m.sender
    ++ (agents_parameter 1 (codes "receiver") m.receivers
        ++ (text_parameter (codes "reply-with") m.reply_with
            ++ (date_parameter m.reply_by date
                ++ (text_parameter (codes "in-reply-to") m.in_reply_to
                    ++ (agents_parameter 1 (codes "reply-to") m.reply_to
                        ++ (text_parameter (codes "language") m.language
                            ++ (text_parameter (codes "encoding") m.encoding
                                ++ (text_parameter (codes "ontology") m.ontology
                                    ++ (text_parameter (codes "protocol") m.protocol
                                        ++ text_parameter (codes "conversation-id")
                                            m.conversation_id)))))))))

unfoldable pub message_tree : AclMessage → DateTime → Message
unfolding predefined_trees
message_tree m date = record {
  header = record { id = 0xfa; version = 0x10 };
  type_text = m.performative;
  parameters =
      (predefined_trees m date ++ map user_parameter m.parameters) ++ content_parameter m.content;
}
