-- ===== src/Examples/Encoding.antt =====
-- Letters and encoded messages at concrete inputs.
use multiagent_fipa_acl.Envelope.Received.{get_acl_message_lem}
use multiagent_fipa_acl.Envelope.Formats.{Transport, generator_create}
use multiagent_fipa_acl.Bitefficient.Times.{CTime, to_time}
use multiagent_fipa_acl.Bitefficient.RoundTrip.Delivered.{parse_data-apply, arrived}
use multiagent_fipa_acl.Bitefficient.RoundTrip.Built.{build_agent_id-bit_aid, cut}
use multiagent_fipa_acl.Bitefficient.RoundTrip.Trees.{
  param_fits, agent_fits, agent_tree, message_fits, message_tree,
}
use multiagent_fipa_acl.Words.{is_illegal_word}
use multiagent_fipa_acl.Envelope.Stamps.{stamp_lem, create_dedicated_envelope_lem}
use multiagent_fipa_acl.Bitefficient.Parser.{build_agent_id, build_message, parse_data}
use multiagent_fipa_acl.Bitefficient.Grammar.Agents.{AgentIdentifier, agent_identifier_at}
use multiagent_fipa_acl.Envelope.Inserted.{insert_lem, inserted}
use multiagent_fipa_acl.Bitefficient.Reads.{Reads}
use multiagent_fipa_acl.Bitefficient.Parser.Reserved.{
  build_parameters-reserved, reserved_names, IsRefused,
}
use multiagent_fipa_acl.Envelope.Merging.{flatten-latest, latest, said}
use multiagent_fipa_acl.Bitefficient.RoundTrip.Agents.{Reads-agent}
use multiagent_fipa_acl.Bitefficient.Grammar.Message.{acl_communicative_act}
use multiagent_fipa_acl.Bitefficient.RoundTrip.{is_quotable, is_word}
use multiagent_fipa_acl.Bitefficient.RoundTrip.Messages.{apply-parse_data}
use multiagent_fipa_acl.Bitefficient.Format.Message.{apply}
use multiagent_fipa_acl.Bitefficient.Grammar.Expressions.{bin_date_time}
use multiagent_fipa_acl.Base.{
  if◌then◌else◌, ◌==◌, nat_eq, Text, text_eq, codes, All, Error, runtime_error, ok, err, ◌+◌, ◌≡◌,
  refl, ◌≢◌, true, false, ◌||◌, some, List, [], ◌∷◌, ◌++◌, arith,
}
use multiagent_fipa_acl.Agent.{nil, agent_id, get_name, agent_empty, AgentId}
use multiagent_fipa_acl.Message.{empty_message, AclMessage}
use multiagent_fipa_acl.Envelope.{
  acl_representation, received_object, with_flag, flatten, ParameterId, intended_receivers, to,
  set_comments, empty_envelope, contains, set_to, xml, bitefficient, BaseEnvelope,
}
use multiagent_fipa_acl.Envelope.Letter.{
  get_delivery_path, create_dedicated_envelope, flattened, insert, get_acl_message, has_stamp,
  new_letter, Letter, stamp,
}
use multiagent_fipa_acl.Bitefficient.Qi.{matched}
use multiagent_fipa_acl.Bitefficient.Format.{bit_aid, bin_date_time_token, default_format, Printing}
use multiagent_fipa_acl.Bitefficient.RoundTrip.Dates.{Reads-date}
use multiagent_fipa_acl.Bitefficient.RoundTrip.Digits.{date_of_digits, printed, TimeDigits}
use multiagent_fipa_acl.Examples.Data.{alice, bob, request}
use multiagent_fipa_acl.Examples.Spirit.{peg, big_endian}

abbrev date_text : Text
date_text = codes "20240131-12:34:56:789"

abbrev printing : Printing
printing = record { host = big_endian; time_text = λ t. date_text }

abbrev time_digits : TimeDigits
time_digits = record {
  century = (50, 48);
  decade = (50, 52);
  month = (48, 49);
  day = (51, 49);
  hour = (49, 50);
  minute = (51, 52);
  second = (53, 54);
  millis_first = 55;
  millis_last = (56, 57);
}

abbrev no_hex : Text → Text
no_hex t = t

abbrev no_time : CTime
no_time = record {
  calendar = λ t. 5;
  atoi = λ t. 7;
  milliseconds = 1000;
  from_milliseconds = λ n. n;
}

abbrev dated : AclMessage
dated = record request {
  reply_by = 5;
  parameters = (record { name = codes "x-key"; value = codes "v 1" }) ∷ [];
}

date_printed : (printing.time_text 5) ≡ printed time_digits
unfolding printed
date_printed = refl

dated_fits : message_fits dated ≡ true
unfolding message_fits is_word is_quotable agent_fits param_fits agent_empty
dated_fits = refl

apply-parse_data_example :
    (t : Text) × (apply default_format printing dated ≡ ok t)
    × (acl_communicative_act peg no_hex t
        ≡ matched (message_tree dated (date_of_digits time_digits)) [])
    × (parse_data no_time peg no_hex t empty_message
        ≡ build_message no_time (message_tree dated (date_of_digits time_digits)) empty_message)
apply-parse_data_example =
    apply-parse_data peg no_hex no_time printing dated empty_message time_digits refl dated_fits
      (λ h. ((refl, refl, refl, refl, refl, refl, refl, refl, refl), date_printed))

parse_data-apply_example :
    (t : Text) × (apply default_format printing dated ≡ ok t)
    × (parse_data no_time peg no_hex t empty_message
        ≡ (arrived dated (to_time no_time (date_of_digits time_digits)) empty_message, ok true))
parse_data-apply_example =
    parse_data-apply peg no_hex no_time printing dated empty_message time_digits refl dated_fits
      refl (λ h. ((refl, refl, refl, refl, refl, refl, refl, refl, refl), date_printed))

build_parameters-reserved_example : All (IsRefused no_time) reserved_names
build_parameters-reserved_example = build_parameters-reserved no_time

-- A letter to bob that is stamped twice.
abbrev transport : Transport
transport = record {
  printing = printing;
  qi = peg;
  hex = no_hex;
  c_time = no_time;
  apply_xml = λ m. ok m.content;
  apply_string = λ m. ok m.content;
  parse_xml = λ t m. (m, ok false);
  parse_string = λ t m. (m, ok false);
  now = 7;
  time_text = λ t. codes "now";
  decimal = λ n. (48 + n) ∷ [];
}

abbrev delivered : Letter
delivered = record {
  extra_envelopes = [];
  base_envelope = set_to empty_envelope (bob ∷ []);
  payload = codes "move";
}

abbrev overlay : BaseEnvelope
overlay = set_to (set_comments empty_envelope (codes "urgent")) (alice ∷ [])

flatten-latest_example :
    said to (flatten delivered.base_envelope (overlay ∷ empty_envelope ∷ []))
    ≡ latest to (delivered.base_envelope ∷ overlay ∷ empty_envelope ∷ [])
flatten-latest_example = flatten-latest to delivered.base_envelope (overlay ∷ empty_envelope ∷ [])

stamp_lem_example :
    ((b : AgentId)
      → has_stamp (stamp transport 0 delivered bob).1 b
        ≡ (has_stamp delivered b || get_name b == get_name bob))
    × ((stamp transport 0 delivered bob).1.payload ≡ delivered.payload)
    × ((p : ParameterId)
        → p ≢ received_object
        → said p (flattened (stamp transport 0 delivered bob).1) ≡ said p (flattened delivered))
    × ((path : List AgentId)
        → get_delivery_path delivered ≡ ok path
        → get_delivery_path (stamp transport 0 delivered bob).1 ≡ (
            if is_illegal_word (get_name bob)
            then err runtime_error
            else ok (path ++ agent_id (get_name bob) [] nil [] ∷ [])))
stamp_lem_example = stamp_lem transport 0 delivered bob

create_dedicated_envelope_lem_example :
    (said intended_receivers (flattened (create_dedicated_envelope delivered bob))
      ≡ some (bob ∷ []))
    × ((create_dedicated_envelope delivered bob).payload ≡ delivered.payload)
    × ((p : ParameterId)
        → p ≢ intended_receivers
        → said p (flattened (create_dedicated_envelope delivered bob))
          ≡ said p (flattened delivered))
    × ((b : AgentId)
        → has_stamp (create_dedicated_envelope delivered bob) b ≡ has_stamp delivered b)
    × (get_delivery_path (create_dedicated_envelope delivered bob) ≡ get_delivery_path delivered)
create_dedicated_envelope_lem_example = create_dedicated_envelope_lem delivered bob

insert_lem_example :
    ((e : Error)
      → generator_create transport request xml ≡ err e
      → insert transport delivered request xml ≡ (delivered, err e))
    × ((text : Text)
        → generator_create transport request xml ≡ ok text
        → ((insert transport delivered request xml).1 ≡ ok tt)
          × ((insert transport delivered request xml).0.payload ≡ text)
          × ((insert transport delivered request xml).0.extra_envelopes ≡ delivered.extra_envelopes)
          × ((p : ParameterId)
              → p ≢ intended_receivers
              → said p (insert transport delivered request xml).0.base_envelope
                ≡ inserted transport delivered.base_envelope request xml text p))
insert_lem_example = insert_lem transport delivered request xml

overlay_silent : contains overlay acl_representation ≡ false
unfolding contains set_to set_comments with_flag
overlay_silent = refl

get_acl_message_lem_example :
    (l : Letter) × (new_letter transport dated bitefficient ≡ ok l)
    × (get_acl_message transport (record l { extra_envelopes = overlay ∷ [] })
        ≡ ok (arrived dated (to_time no_time (date_of_digits time_digits)) empty_message))
get_acl_message_lem_example =
    get_acl_message_lem transport dated time_digits (overlay ∷ []) refl dated_fits refl
      (λ h. ((refl, refl, refl, refl, refl, refl, refl, refl, refl), date_printed))
      (overlay_silent, tt)

bob_fits : agent_fits 1 bob ≡ true
unfolding agent_fits is_word
bob_fits = refl

Reads-agent_example :
    Reads (agent_identifier_at peg no_hex 2) (bit_aid false 1 bob) (agent_tree 1 bob)
Reads-agent_example = Reads-agent peg no_hex 1 2 bob (omega arith) bob_fits

build_agent_id-bit_aid_example :
    (t : Text) × (bit_aid false 1 bob ≡ ok t)
    × ((rest : Text)
        → (tree : AgentIdentifier) × (agent_identifier_at peg no_hex 2 (t ++ rest)
            ≡ matched tree rest)
          × (build_agent_id tree ≡ ok (cut 1 bob)))
build_agent_id-bit_aid_example = build_agent_id-bit_aid peg no_hex 1 2 bob (omega arith) bob_fits

Reads-date_example :
    Reads (bin_date_time peg) (bin_date_time_token printing 5) (date_of_digits time_digits)
Reads-date_example =
    Reads-date peg printing 5 time_digits (refl, refl, refl, refl, refl, refl, refl, refl, refl)
      date_printed
