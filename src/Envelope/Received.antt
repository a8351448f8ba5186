-- ===== src/Envelope/Received.antt =====
-- `ACLEnvelope::getACLMessage`: how the message in a letter is read back.
use multiagent_fipa_acl.Bitefficient.Times.{to_time}
use multiagent_fipa_acl.Bitefficient.RoundTrip.{all_of}
use multiagent_fipa_acl.Bitefficient.RoundTrip.Digits.{
  TimeDigits, AreTimeDigits, printed, date_of_digits,
}
use multiagent_fipa_acl.Bitefficient.RoundTrip.Trees.{message_fits}
use multiagent_fipa_acl.Bitefficient.RoundTrip.Steps.{is_free}
use multiagent_fipa_acl.Bitefficient.RoundTrip.Delivered.{parse_data-apply, arrived}
use multiagent_fipa_acl.Envelope.Formats.{Transport, generator_create, parser_parse_data}
use multiagent_fipa_acl.Base.{
  nat_beq, if◌then◌else◌, nat_eq, Text, text_eq, All, ◌>>=◌, ok, ◌≡◌, refl, ap, ap₂, ◌∙◌, true,
  false, none, some, List, [], ◌∷◌, arith,
}
use multiagent_fipa_acl.Message.{AclMessage, empty_message}
use multiagent_fipa_acl.Envelope.{
  empty_envelope, contains, acl_representation, ParameterId, Representation, bitefficient,
  BaseEnvelope,
}
use multiagent_fipa_acl.Envelope.Merging.{flatten-latest, or_else, value, Value, latest, said}
use multiagent_fipa_acl.Envelope.Letter.{
  flattened, get_acl_message, new_letter, addressed, Letter, accepted,
}
use multiagent_fipa_acl.Envelope.Inserted.{said-addressed}

-- The value that an envelope says a parameter has.
said-value : (p : ParameterId) (e : BaseEnvelope) {v : Value p} → said p e ≡ some v → value p e ≡ v
unfolding said
said-value p e h = ground arith

latest-none :
    (p : ParameterId) (es : List BaseEnvelope)
    → All (λ e. contains e p ≡ false) es
    → latest p es ≡ none
unfolding said
latest-none p [] h = refl
latest-none p (e ∷ es) h =
    ap₂ or_else (latest-none p es h.1) (ap (λ b. if b then some (value p e) else none) h.0)

-- What a new letter holds.
abbrev letter_of : Transport → AclMessage → Representation → Text → List BaseEnvelope → Letter
letter_of t m r text es = record {
  extra_envelopes = es;
  base_envelope = addressed t empty_envelope m r text;
  payload = text;
}

representation_of :
    (t : Transport) (m : AclMessage) (r : Representation) (text : Text) (es : List BaseEnvelope)
    → All (λ e. contains e acl_representation ≡ false) es
    → (flattened (letter_of t m r text es)).acl_representation ≡ r
unfolding flattened
representation_of t m r text es h = said-value acl_representation _ (
    flatten-latest acl_representation (addressed t empty_envelope m r text) es
    ∙ ap₂ or_else (latest-none acl_representation es h)
        (said-addressed t empty_envelope m r text acl_representation))

-- A letter is read by the parser of the representation that it was made with, whatever envelopes
-- were added that say nothing of the representation.
read_back :
    (t : Transport) (m : AclMessage) (r : Representation) (text : Text) (es : List BaseEnvelope)
    → All (λ e. contains e acl_representation ≡ false) es
    → get_acl_message t (letter_of t m r text es)
      ≡ accepted (parser_parse_data t text empty_message r)
unfolding get_acl_message
read_back t m r text es h =
    ap (λ r. accepted (parser_parse_data t text empty_message r))
      (representation_of t m r text es h)

-- A message that the bit-efficient encoding can hold, whose parameters have no names of fields,
-- is delivered in a letter: the letter is made, and `getACLMessage` gives the message back,
-- whatever envelopes were added that say nothing of the representation. Its texts and its content
-- are the same, its agents have one level of resolvers, its receivers, agents to reply to and
-- parameters come in reverse order with each member once, and a sender without a name is the
-- undefined agent. A reply-by time is printed with digits as `base::Time` prints them, and read
-- back as what `DateTime::toTime` makes of these digits. The byte order of the format is that of
-- the grammar.
pub get_acl_message_lem :
    (t : Transport) (m : AclMessage) (d : TimeDigits) (es : List BaseEnvelope)
    → t.printing.host ≡ t.qi.host
    → message_fits m ≡ true
    → all_of is_free m.parameters ≡ true
    → (nat_beq m.reply_by 0 ≡ false
        → AreTimeDigits d × (t.printing.time_text m.reply_by ≡ printed d))
    → All (λ e. contains e acl_representation ≡ false) es
    → (l : Letter) × (new_letter t m bitefficient ≡ ok l)
      × (get_acl_message t (record l { extra_envelopes = es })
          ≡ ok (arrived m (to_time t.c_time (date_of_digits d)) empty_message))
unfolding new_letter generator_create parser_parse_data accepted
get_acl_message_lem t m d es same fits free time h =
    let r = parse_data-apply t.qi t.hex t.c_time t.printing m empty_message d same fits free time in
    (
      letter_of t m bitefficient r.0 [],
      ap (λ g. g >>= λ text. ok (letter_of t m bitefficient text [])) r.1,
      read_back t m bitefficient r.0 es h ∙ ap accepted r.2,
    )
