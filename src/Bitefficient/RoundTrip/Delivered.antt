-- ===== src/Bitefficient/RoundTrip/Delivered.antt =====
-- message_parser/bitefficient_message_parser.cpp: the message that is built of the tree of one that
-- was encoded.
use multiagent_fipa_acl.Bitefficient.Times.{CTime, to_time}
use multiagent_fipa_acl.Base.{
  if◌then◌else◌, Text, nat_beq, codes, ok, ℕ, ◌≡◌, refl, ap, ◌∙◌, true, false, List, [], ◌++◌, map,
  append-nil, append_assoc, arith,
}
use multiagent_fipa_acl.Agent.{agent_empty}
use multiagent_fipa_acl.Message.{AclMessage, set_performative_string}
use multiagent_fipa_acl.Bitefficient.Qi.{Qi}
use multiagent_fipa_acl.Bitefficient.Format.{Printing, default_format}
use multiagent_fipa_acl.Bitefficient.Format.Message.{apply}
use multiagent_fipa_acl.Bitefficient.Grammar.Expressions.{DateTime}
use multiagent_fipa_acl.Bitefficient.Parser.{build_parameters, build_message, parse_data}
use multiagent_fipa_acl.Bitefficient.RoundTrip.{all_of}
use multiagent_fipa_acl.Bitefficient.RoundTrip.Built.{cut, is_word-legal}
use multiagent_fipa_acl.Bitefficient.RoundTrip.Digits.{
  TimeDigits, AreTimeDigits, printed, date_of_digits,
}
use multiagent_fipa_acl.Bitefficient.RoundTrip.Trees.{
  message_fits, message_tree, predefined_trees, sender_parameter, agents_parameter, text_parameter,
  date_parameter, content_parameter, user_parameter,
}
use multiagent_fipa_acl.Bitefficient.RoundTrip.Steps.{
  text_or, listed, params_listed, is_free, params_built, sender_built, receivers_built,
  reply_with_built, reply_by_built, in_reply_to_built, reply_to_built, language_built,
  encoding_built, ontology_built, protocol_built, conversation_id_built, content_built,
}
use multiagent_fipa_acl.Bitefficient.RoundTrip.Messages.{apply-parse_data}

-- A message as it arrives in another one: what it has replaces what is there, its agents are cut
-- to one level of resolvers, and its receivers, the agents to reply to and its parameters are put
-- in front, each once.
unfoldable pub arrived : AclMessage → ℕ → AclMessage → AclMessage
arrived m time n = record {
  performative = m.performative;
  sender = if agent_empty m.sender then n.sender else cut 1 m.sender;
  receivers = listed n.receivers m.receivers;
  reply_to = listed n.reply_to m.reply_to;
  language = text_or n.language m.language;
  encoding = text_or n.encoding m.encoding;
  ontology = text_or n.ontology m.ontology;
  protocol = text_or n.protocol m.protocol;
  conversation_id = text_or n.conversation_id m.conversation_id;
  reply_with = text_or n.reply_with m.reply_with;
  in_reply_to = text_or n.in_reply_to m.in_reply_to;
  reply_by = if nat_beq m.reply_by 0 then n.reply_by else time;
  parameters = params_listed n.parameters m.parameters;
  content = text_or n.content m.content;
}

in_order :
    {A : Type 0} (a b c d e f g h i j k us cs : List A)
    → (((a ++ (b ++ (c ++ (d ++ (e ++ (f ++ (g ++ (h ++ (i ++ (j ++ k)))))))))) ++ us) ++ cs)
      ≡ a
        ++ (b ++ (c ++ (d ++ (e ++ (f ++ (g ++ (h ++ (i ++ (j ++ (k ++ (us ++ (cs ++ []))))))))))))
in_order a b c d e f g h i j k us cs = simp (append_assoc, append-nil)

parameters_built :
    (c_time : CTime) (m n : AclMessage) (date : DateTime)
    → message_fits m ≡ true
    → all_of is_free m.parameters ≡ true
    → build_parameters c_time
        ((predefined_trees m date ++ map user_parameter m.parameters)
          ++ content_parameter m.content)
        n
      ≡ (record (arrived m (to_time c_time date) n) { performative = n.performative }, ok tt)
unfolding arrived message_fits predefined_trees build_parameters
parameters_built c_time m n date h free =
    ap (λ ps. build_parameters c_time ps n)
      (in_order (sender_parameter m.sender) (agents_parameter 1 (codes "receiver") m.receivers)
        (text_parameter (codes "reply-with") m.reply_with) (date_parameter m.reply_by date)
        (text_parameter (codes "in-reply-to") m.in_reply_to)
        (agents_parameter 1 (codes "reply-to") m.reply_to)
        (text_parameter (codes "language") m.language)
        (text_parameter (codes "encoding") m.encoding)
        (text_parameter (codes "ontology") m.ontology)
        (text_parameter (codes "protocol") m.protocol)
        (text_parameter (codes "conversation-id") m.conversation_id)
        (map user_parameter m.parameters) (content_parameter m.content))
    ∙ sender_built c_time _ n m.sender (ground arith)
    ∙ receivers_built c_time _ _ m.receivers (ground arith)
    ∙ reply_with_built c_time _ _ m.reply_with
    ∙ reply_by_built c_time _ _ m.reply_by date
    ∙ in_reply_to_built c_time _ _ m.in_reply_to
    ∙ reply_to_built c_time _ _ m.reply_to (ground arith)
    ∙ language_built c_time _ _ m.language
    ∙ encoding_built c_time _ _ m.encoding
    ∙ ontology_built c_time _ _ m.ontology
    ∙ protocol_built c_time _ _ m.protocol (ground arith)
    ∙ conversation_id_built c_time _ _ m.conversation_id
    ∙ params_built c_time _ m.parameters _ free (ground arith)
    ∙ content_built c_time [] _ m.content

message_built :
    (c_time : CTime) (m n : AclMessage) (date : DateTime)
    → message_fits m ≡ true
    → all_of is_free m.parameters ≡ true
    → build_message c_time (message_tree m date) n ≡ (arrived m (to_time c_time date) n, ok true)
unfolding build_message message_tree set_performative_string message_fits arrived
message_built c_time m n date h free =
    rw (is_word-legal m.performative (ground arith))
      (rw (parameters_built c_time m (record n { performative = m.performative }) date h free) refl)

-- A message that the encoding can hold, whose parameters have no names of fields, is delivered:
-- `apply` encodes it, and `parseData` of the encoding succeeds and leaves the other message with
-- the texts, the content, the performative and the time of this one where it has them, its
-- sender, receivers, agents to reply to and parameters, the lists in front of those that were
-- there and each member once, and agents with one level of resolvers. A reply-by time is printed
-- with digits as `base::Time` prints them, and the time is what `DateTime::toTime` makes of these
-- digits. The byte order of the format is that of the grammar.
pub parse_data-apply :
    (qi : Qi) (hex : Text → Text) (c_time : CTime) (env : Printing) (m n : AclMessage)
    (d : TimeDigits)
    → env.host ≡ qi.host
    → message_fits m ≡ true
    → all_of is_free m.parameters ≡ true
    → (nat_beq m.reply_by 0 ≡ false → AreTimeDigits d × (env.time_text m.reply_by ≡ printed d))
    → (t : Text) × (apply default_format env m ≡ ok t)
      × (parse_data c_time qi hex t n ≡ (arrived m (to_time c_time (date_of_digits d)) n, ok true))
parse_data-apply qi hex c_time env m n d same fits free time =
    let r = apply-parse_data qi hex c_time env m n d same fits time in
    (r.0, r.1, r.3 ∙ message_built c_time m n (date_of_digits d) fits free)
