-- ===== src/Bitefficient/RoundTrip/Parameters.antt =====
-- The parameters of a message are read back, in the order in which the format writes them.
use multiagent_fipa_acl.Bitefficient.RoundTrip.Trees.{
  param_fits, agent_fits, agent_tree, text_parameter, agents_parameter, user_parameter,
}
use multiagent_fipa_acl.Bitefficient.RoundTrip.Texts.{Reads-bin_expression, Reads-bin_word}
use multiagent_fipa_acl.Bitefficient.RoundTrip.Parts.{Runs-each}
use multiagent_fipa_acl.Bitefficient.Format.{
  unless_empty, bit_aid, bit_aid_coll, bit_parse_param, each,
}
use multiagent_fipa_acl.Bitefficient.RoundTrip.{is_quotable, is_word, all_of}
use multiagent_fipa_acl.Bitefficient.Grammar.Agents.{agent_identifier_at, agent_identifier_rule}
use multiagent_fipa_acl.Base.{
  nat_beq, if◌then◌else◌, nat_eq, Text, text_eq, codes, is_empty, length, length-append, any_of,
  take, get_elem?, Result, ok_injective, ok, ℕ, zero, suc, ◌<◌, ◌≡◌, refl, sym, ◌∙◌, subst, true,
  false, ◌||◌, some, List, [], ◌∷◌, ◌++◌, map, arith,
}
use multiagent_fipa_acl.Bitefficient.Format
use multiagent_fipa_acl.Agent.{AgentId, UserdefParam}
use multiagent_fipa_acl.Bitefficient.Grammar.Expressions.{bin_expression}
use multiagent_fipa_acl.Bitefficient.Qi.{matched, failed, Qi, Parser}
use multiagent_fipa_acl.Bitefficient.Reads.{
  Reads-star, Runs-one, Runs-nil, Reads-seq, Reads-act, lead-failed, Runs, Reads, ◌+++◌,
  Rejects-lead, Reads-alt, Reads-or, Reads-lead,
}
use multiagent_fipa_acl.Bitefficient.Grammar.Message.{
  recipient_expr, named, predefined_parameters, message_parameter, Parameter, text_value,
  agents_value, coded,
}
use multiagent_fipa_acl.Bitefficient.RoundTrip.Agents.{Reads-agent}

pair_of : {A : Type 0} {x y : A} → some x ≡ some y → x ≡ y
pair_of h = cc

module _ (qi : Qi) (hex : Text → Text) where
  -- The alternative with the byte that is written is the one that reads the parameter.
  Reads-coded :
      (i : ℕ) (alternatives : List (ℕ × Parser Parameter)) (last : Parser Parameter) (code : ℕ)
      (p : Parser Parameter) {r : Result Text} {x : Parameter}
      → get_elem? alternatives i ≡ some (code, p)
      → any_of (λ q. nat_beq q.0 code) (take i alternatives) ≡ false
      → Reads p r x
      → Reads (coded qi hex alternatives last) (ok (code ∷ []) +++ r) x
  Reads-coded i [] last code p h k read = cc
  Reads-coded zero ((c, q) ∷ rest) last code p {r} {x} h k read =
      subst
        (λ (l : ℕ × Parser Parameter).
          Reads (coded qi hex (l ∷ rest) last) (ok (code ∷ []) +++ r) x)
        (sym (pair_of h)) (Reads-alt qi (Reads-lead qi code read))
  Reads-coded (suc i) ((c, q) ∷ rest) last code p {r} h k read =
      Reads-or qi (Rejects-lead qi c code r (ground arith))
        (Reads-coded i rest last code p h (ground arith) read)

  pub predefined :
      (i : ℕ) (code : ℕ) {p : Parser Parameter} {r : Result Text} {x : Parameter}
      → get_elem? (predefined_parameters qi hex) i ≡ some (code, p)
      → any_of (λ q. nat_beq q.0 code) (take i (predefined_parameters qi hex)) ≡ false
      → Reads p r x
      → Reads (message_parameter qi hex) (ok (code ∷ []) +++ r) x
  predefined i code {p} h k read = Reads-coded i (predefined_parameters qi hex) _ code p h k read

  -- A parameter that is written if its value is not empty.
  Runs-unless_empty :
      {A : Type 0} (v : List A) (r : Result Text) (x : Parameter)
      → (is_empty v ≡ false → Reads (message_parameter qi hex) r x)
      → Runs qi (message_parameter qi hex) (unless_empty v r) (if is_empty v then [] else x ∷ [])
  Runs-unless_empty [] r x h = Runs-nil qi
  Runs-unless_empty (y ∷ v) r x h = Runs-one qi (h refl)

  pub Runs-text :
      (i : ℕ) (code : ℕ) (name v : Text)
      → get_elem? (predefined_parameters qi hex) i
        ≡ some (code, named qi hex name (bin_expression qi hex) text_value)
      → any_of (λ q. nat_beq q.0 code) (take i (predefined_parameters qi hex)) ≡ false
      → is_quotable v ≡ true
      → Runs qi
          (message_parameter qi hex)
          (unless_empty v
            (ok (code ∷ []) +++ multiagent_fipa_acl.Bitefficient.Format.bin_expression false v 115))
          (text_parameter name v)
  Runs-text i code name v h k q =
      Runs-unless_empty v _ _
        (λ _. predefined i code h k (Reads-act qi refl (Reads-bin_expression qi hex v q)))

  pub Runs-word :
      (v : Text)
      → (is_empty v || is_word v) ≡ true
      → Runs qi
          (message_parameter qi hex)
          (unless_empty v
            (ok (0x0c ∷ []) +++ multiagent_fipa_acl.Bitefficient.Format.bin_word false v))
          (text_parameter (codes "protocol") v)
  Runs-word v q =
      Runs-unless_empty v _ _
        (λ n. predefined 10 0x0c refl refl (Reads-act qi refl (Reads-bin_word qi v (ground arith))))

  -- The rule for identifiers: the input bounds its levels.
  pub Reads-agent_rule :
      (depth : ℕ) (a : AgentId)
      → depth < 2
      → agent_fits depth a ≡ true
      → Reads (agent_identifier_rule qi hex) (bit_aid false depth a) (agent_tree depth a)
  Reads-agent_rule depth a lt h =
      let first = Reads-agent qi hex depth 2 a lt h in
      record {
        text = first.text;
        written = first.written;
        read = λ rest.
            let long : 1 < suc (length (first.text ++ rest)) =
              omega (arith, first.nonempty, length-append first.text rest) in
            let again =
              Reads-agent qi hex depth (suc (length (first.text ++ rest))) a
                (omega (arith, long, lt)) h in
            subst
              (λ t.
                agent_identifier_at qi hex (suc (length (first.text ++ rest))) (t ++ rest)
                ≡ matched (agent_tree depth a) rest)
              (ok_injective (sym again.written ∙ first.written)) (again.read rest);
        nonempty = first.nonempty;
      }

  agent_rule_fails : (rest : Text) → agent_identifier_rule qi hex (0x01 ∷ rest) ≡ failed
  agent_rule_fails rest =
      qi.act-failed
        (qi.seq-failed (qi.act-failed (qi.seq-failed (lead-failed qi 0x02 (ground arith)))))

  pub Runs-agents :
      (i : ℕ) (code : ℕ) (name : Text) (depth : ℕ) (v : List AgentId)
      → get_elem? (predefined_parameters qi hex) i
        ≡ some (code, named qi hex name (recipient_expr qi hex) agents_value)
      → any_of (λ q. nat_beq q.0 code) (take i (predefined_parameters qi hex)) ≡ false
      → depth < 2
      → all_of (agent_fits depth) v ≡ true
      → Runs qi
          (message_parameter qi hex)
          (unless_empty v (ok (code ∷ []) +++ bit_aid_coll false depth v))
          (agents_parameter depth name v)
  Runs-agents i code name depth v h k lt f = Runs-unless_empty v _ _ (λ _. predefined i code h k (
      Reads-act qi refl (
        Reads-star qi 0x01 agent_rule_fails (
          Runs-each qi _ (bit_aid false depth) (agent_tree depth) (agent_fits depth)
            (λ a g. Reads-agent_rule depth a lt g) v f))))

  Rejects-coded :
      (alternatives : List (ℕ × Parser Parameter)) (last : Parser Parameter) (code : ℕ)
      (r : Result Text) {x : Parameter}
      → any_of (λ q. nat_beq q.0 code) alternatives ≡ false
      → Reads last (ok (code ∷ []) +++ r) x
      → Reads (coded qi hex alternatives last) (ok (code ∷ []) +++ r) x
  Rejects-coded [] last code r h read = read
  Rejects-coded ((c, q) ∷ rest) last code r h read =
      Reads-or qi (Rejects-lead qi c code r (ground arith))
        (Rejects-coded rest last code r (ground arith) read)

  Reads-user :
      (p : UserdefParam)
      → param_fits p ≡ true
      → Reads
          (message_parameter qi hex)
          (ok (0x00 ∷ []) +++ bit_parse_param false p)
          (user_parameter p)
  unfolding param_fits
  Reads-user p h =
      Rejects-coded (predefined_parameters qi hex) _ 0x00 (bit_parse_param false p) refl (
        Reads-lead qi 0x00 (
          Reads-act qi refl (
            Reads-seq qi (Reads-bin_word qi p.name (ground arith))
              (Reads-bin_expression qi hex p.value (ground arith)))))

  pub Runs-users :
      (ps : List UserdefParam)
      → all_of param_fits ps ≡ true
      → Runs qi
          (message_parameter qi hex)
          (each (λ p. ok (0x00 ∷ []) +++ bit_parse_param false p) ps)
          (map user_parameter ps)
  Runs-users ps h = Runs-each qi _ _ user_parameter param_fits Reads-user ps h

  coded_fails :
      (alternatives : List (ℕ × Parser Parameter)) (last : Parser Parameter) (code : ℕ)
      (rest : Text)
      → any_of (λ q. nat_beq q.0 code) alternatives ≡ false
      → last (code ∷ rest) ≡ failed
      → coded qi hex alternatives last (code ∷ rest) ≡ failed
  coded_fails [] last code rest h f = f
  coded_fails ((c, q) ∷ more) last code rest h f =
      qi.alt-failed (lead-failed qi c (ground arith))
      ∙ coded_fails more last code rest (ground arith) f

  -- No parameter begins with the byte that closes the message.
  pub parameter_fails : (rest : Text) → message_parameter qi hex (0x01 ∷ rest) ≡ failed
  parameter_fails rest =
      coded_fails (predefined_parameters qi hex) _ 0x01 rest refl
        (lead-failed qi 0x00 (ground arith))
