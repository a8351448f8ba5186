-- ===== src/Bitefficient/RoundTrip/Messages.antt =====
-- A message is read back: the grammar makes of what `apply` writes the tree of the message.
use multiagent_fipa_acl.Bitefficient.Times.{CTime}
use multiagent_fipa_acl.Bitefficient.RoundTrip.Trees.{
  agent_fits, user_parameter, message_fits, sender_parameter, date_parameter, content_parameter,
  predefined_trees, message_tree,
}
use multiagent_fipa_acl.Bitefficient.RoundTrip.Dates.{Reads-date}
use multiagent_fipa_acl.Bitefficient.RoundTrip.Digits.{
  AreTimeDigits, date_of_digits, printed, TimeDigits,
}
use multiagent_fipa_acl.Bitefficient.Parser.{build_message, parsed_message, parse_data}
use multiagent_fipa_acl.Bitefficient.RoundTrip.Types.{Reads-message_type}
use multiagent_fipa_acl.Base.{
  nat_beq, if◌then◌else◌, Bool-cases, nat_eq, Text, text_eq, is_empty, length, Result, ok, err, ℕ,
  ◌<◌, ◌≡◌, refl, sym, ap, ◌∙◌, subst, inl, inr, true, false, ◌||◌, [], ◌∷◌, ◌++◌, map, append-nil,
  append_assoc, arith,
}
use multiagent_fipa_acl.Agent.{AgentId, agent_empty}
use multiagent_fipa_acl.Message.{AclMessage}
use multiagent_fipa_acl.Bitefficient.Qi.{matched, Qi}
use multiagent_fipa_acl.Bitefficient.Reads.{
  Reads-star, Reads-seq, Runs-append, Reads-act, Runs-one, Runs-nil, Reads, Runs, ◌+++◌,
}
use multiagent_fipa_acl.Bitefficient.Format.{default_format, Printing, bit_aid, bin_date_time_token}
use multiagent_fipa_acl.Bitefficient.Format.Message.{
  bit_message_type, bit_header, apply, bit_predef_message_params, bit_userdef_message_params,
  bit_content,
}
use multiagent_fipa_acl.Bitefficient.Grammar.Expressions.{DateTime, bin_date_time}
use multiagent_fipa_acl.Bitefficient.Grammar.Message.{
  acl_communicative_act, header, message_parameter,
}
use multiagent_fipa_acl.Bitefficient.RoundTrip.{is_word}
use multiagent_fipa_acl.Bitefficient.RoundTrip.Content.{Reads-content}
use multiagent_fipa_acl.Bitefficient.RoundTrip.Parameters.{
  parameter_fails, Runs-word, Runs-text, Runs-agents, Runs-users, Reads-agent_rule, predefined,
}

+++_assoc : (r s t : Result Text) → ((r +++ s) +++ t) ≡ (r +++ (s +++ t))
+++_assoc (ok r) (ok s) (ok t) = ap ok (append_assoc r s t)
+++_assoc (ok r) (ok s) (err e) = refl
+++_assoc (ok r) (err e) t = refl
+++_assoc (err e) s t = refl

module _ (qi : Qi) (hex : Text → Text) where
  Runs-sender :
      (a : AgentId)
      → (agent_empty a || agent_fits 1 a) ≡ true
      → Runs qi
          (message_parameter qi hex)
          (if agent_empty a then ok [] else ok (0x02 ∷ []) +++ bit_aid false 1 a)
          (sender_parameter a)
  Runs-sender a h = elim (Bool-cases (agent_empty a)) [
    | inl t ↦ rw t (Runs-nil qi)
    | inr f ↦ rw f (
        Runs-one qi (
          predefined qi hex 0 0x02 refl refl
            (Reads-act qi refl (Reads-agent_rule qi hex 1 a (omega arith) (ground arith)))))
  ]

  Runs-date :
      (env : Printing) (time : ℕ) (date : DateTime)
      → (nat_beq time 0 ≡ false → Reads (bin_date_time qi) (bin_date_time_token env time) date)
      → Runs qi
          (message_parameter qi hex)
          (if nat_beq time 0 then ok [] else ok (0x06 ∷ []) +++ bin_date_time_token env time)
          (date_parameter time date)
  Runs-date env time date h = elim (Bool-cases (nat_beq time 0)) [
    | inl t ↦ rw t (Runs-nil qi)
    | inr f ↦ rw f (Runs-one qi (predefined qi hex 4 0x06 refl refl (Reads-act qi refl (h f))))
  ]

  Runs-content :
      (content : Text)
      → length content < 2147483648
      → Runs qi
          (message_parameter qi hex)
          (ok (if is_empty content then [] else bit_content qi.host content))
          (content_parameter content)
  unfolding bit_content
  Runs-content [] h = Runs-nil qi
  Runs-content (c ∷ t) h =
      Runs-one qi
        (predefined qi hex 2 0x04 refl refl (Reads-act qi refl (Reads-content qi (c ∷ t) h)))

  module _ (env : Printing) (m : AclMessage) (date : DateTime) (fits : message_fits m ≡ true) where
    Runs-predefined :
        (nat_beq m.reply_by 0 ≡ false
          → Reads (bin_date_time qi) (bin_date_time_token env m.reply_by) date)
        → Runs qi
            (message_parameter qi hex)
            (bit_predef_message_params default_format env m)
            (predefined_trees m date)
    unfolding bit_predef_message_params predefined_trees message_fits
    Runs-predefined d = Runs-append qi (Runs-sender m.sender (ground arith)) (
        Runs-append qi
          (Runs-agents qi hex 1 0x03 _ 1 m.receivers refl refl (omega arith) (ground arith))
          (Runs-append qi (Runs-text qi hex 3 0x05 _ m.reply_with refl refl (ground arith)) (
            Runs-append qi (Runs-date env m.reply_by date d) (
              Runs-append qi (Runs-text qi hex 5 0x07 _ m.in_reply_to refl refl (ground arith)) (
                Runs-append qi
                  (Runs-agents qi hex 6 0x08 _ 1 m.reply_to refl refl (omega arith) (ground arith))
                  (Runs-append qi (Runs-text qi hex 7 0x09 _ m.language refl refl (ground arith)) (
                    Runs-append qi (Runs-text qi hex 8 0x0a _ m.encoding refl refl (ground arith)) (
                      Runs-append qi (Runs-text qi hex 9 0x0b _ m.ontology refl refl (ground arith))
                        (Runs-append qi (Runs-word qi hex m.protocol (ground arith)) (
                          Runs-text qi hex 11 0x0d _ m.conversation_id refl refl
                            (ground arith)))))))))))

    Runs-userdef :
        Runs qi
          (message_parameter qi hex)
          (bit_userdef_message_params false m)
          (map user_parameter m.parameters)
    unfolding bit_userdef_message_params message_fits
    Runs-userdef = Runs-users qi hex m.parameters (ground arith)

    fits_type : is_word m.performative ≡ true
    unfolding message_fits
    fits_type = ground arith

    fits_content : length m.content < 2147483648
    unfolding message_fits
    fits_content = ground arith

  header_read :
      Reads (header qi hex) (ok (bit_header default_format)) (record { id = 0xfa; version = 0x10 })
  header_read = record {
    text = 0xfa ∷ 0x10 ∷ [];
    written = refl;
    read = λ rest.
        qi.act-matched
          (qi.seq-matched (qi.alt-matched (qi.byte-matched 0xfa (0x10 ∷ rest)))
            (qi.any_byte-matched 0x10 rest))
          refl;
    nonempty = omega arith;
  }

  pub Reads-message :
      (env : Printing) (m : AclMessage) (date : DateTime)
      → env.host ≡ qi.host
      → message_fits m ≡ true
      → (nat_beq m.reply_by 0 ≡ false
          → Reads (bin_date_time qi) (bin_date_time_token env m.reply_by) date)
      → Reads (acl_communicative_act qi hex) (apply default_format env m) (message_tree m date)
  unfolding apply message_tree
  Reads-message env m date same fits d =
      subst (λ r. Reads (acl_communicative_act qi hex) r (message_tree m date))
        (ap (λ r. ok (bit_header default_format) +++ bit_message_type false m +++ r)
            (+++_assoc
              (bit_predef_message_params default_format env m
                +++ bit_userdef_message_params false m)
              (ok (if is_empty m.content then [] else bit_content qi.host m.content))
              (ok (0x01 ∷ [])))
          ∙ sym (+++_assoc (ok (bit_header default_format)) (bit_message_type false m) _)
          ∙ ap
              (λ host.
                (ok (bit_header default_format) +++ bit_message_type false m)
                +++ ((bit_predef_message_params default_format env m
                      +++ bit_userdef_message_params false m)
                    +++ ok (
                        (if is_empty m.content then [] else bit_content host m.content)
                        ++ 0x01 ∷ [])))
              (sym same))
        (Reads-act qi refl (
          Reads-seq qi header_read (
            Reads-seq qi (Reads-message_type qi hex m (fits_type env m date fits)) (
              Reads-star qi 0x01 (parameter_fails qi hex) (
                Runs-append qi
                  (Runs-append qi (Runs-predefined env m date fits d)
                    (Runs-userdef env m date fits))
                  (Runs-content m.content (fits_content env m date fits)))))))

-- What `apply` writes of a message that fits, with the default format, is read by the grammar to
-- the end, as the tree of the message, so that `parseData` builds the message of that tree. A
-- message fits if its names, addresses and protocol are words, its texts have no quote and no
-- backslash at their end, and its content is shorter than 2^31 bytes. A reply-by time is printed
-- with digits as `base::Time` prints them, and read as their date; resolvers are read to the depth
-- to which they are written. The byte order of the format is that of the grammar.
pub apply-parse_data :
    (qi : Qi) (hex : Text → Text) (c_time : CTime) (env : Printing) (m n : AclMessage)
    (d : TimeDigits)
    → env.host ≡ qi.host
    → message_fits m ≡ true
    → (nat_beq m.reply_by 0 ≡ false → AreTimeDigits d × (env.time_text m.reply_by ≡ printed d))
    → (t : Text) × (apply default_format env m ≡ ok t)
      × (acl_communicative_act qi hex t ≡ matched (message_tree m (date_of_digits d)) [])
      × (parse_data c_time qi hex t n ≡ build_message c_time (message_tree m (date_of_digits d)) n)
unfolding parse_data parsed_message
apply-parse_data qi hex c_time env m n d same fits date =
    let read =
      Reads-message qi hex env m (date_of_digits d) same fits
        (λ h. Reads-date qi env m.reply_by d (date h).0 (date h).1) in
    let tree =
      subst (λ t. acl_communicative_act qi hex t ≡ matched (message_tree m (date_of_digits d)) [])
        (append-nil read.text) (read.read []) in
    (read.text, read.written, tree, ap (λ p. parsed_message c_time p n) tree)
