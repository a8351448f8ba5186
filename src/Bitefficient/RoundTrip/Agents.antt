-- ===== src/Bitefficient/RoundTrip/Agents.antt =====
-- Agent identifiers are read back, with as many levels of resolvers as the format writes.
use multiagent_fipa_acl.Bitefficient.RoundTrip.Trees.{
  param_fits, param_tree, agent_fits, agent_tree,
}
use multiagent_fipa_acl.Bitefficient.RoundTrip.Texts.{Reads-bin_expression, Reads-bin_word}
use multiagent_fipa_acl.Base.{
  nat_eq, Text, text_eq, is_empty, length, length-append, Result, ok, err, ℕ, zero, suc, ◌<◌, ◌≡◌,
  refl, sym, ap, ap₂, ◌∙◌, subst, ◌≢◌, true, false, Option, none, List, [], ◌∷◌, ◌++◌, map,
  append-nil, append_assoc, arith,
}
use multiagent_fipa_acl.Agent.{
  AgentId, UserdefParam, get_name, get_addresses, get_resolvers, get_userdef_params,
}
use multiagent_fipa_acl.Bitefficient.Qi.{Qi, Parser, HeadNot, matched, failed}
use multiagent_fipa_acl.Bitefficient.Reads.{
  lead-failed, Reads-seq, Reads-act, Reads-star, Reads-lead, Reads, Runs, ◌+++◌, lead, close,
}
use multiagent_fipa_acl.Bitefficient.Format.{
  each, unless_empty, bit_aid, bit_parse_param, bit_userdef_params, bin_url_col, eof_collection,
}
use multiagent_fipa_acl.Bitefficient.Grammar.Expressions.{bin_word}
use multiagent_fipa_acl.Bitefficient.Grammar.Agents.{
  url_collection, or_empty, UserDefinedParameter, AgentIdentifier, agent_identifier, resolver_list,
  agent_identifier_at, agent_rest, userdefined_parameter,
}
use multiagent_fipa_acl.Bitefficient.RoundTrip.{all_of, is_word}
use multiagent_fipa_acl.Bitefficient.RoundTrip.Parts.{each-head, Runs-each, Optional-list, Optional}

abbrev write_param : UserdefParam → Result Text
write_param p = ok (0x04 ∷ []) +++ bit_parse_param false p

map_id : (xs : List Text) → map (λ x. x) xs ≡ xs
map_id [] = refl
map_id (x ∷ xs) = ap (x ∷◌) (map_id xs)

empty-map : {A B : Type 0} (f : A → B) (xs : List A) → is_empty xs ≡ true → map f xs ≡ []
empty-map f [] h = refl
empty-map f (x ∷ xs) h = cc

unless_empty-each :
    {A : Type 0} (write : A → Result Text) (xs : List A)
    → unless_empty xs (each write xs) ≡ each write xs
unless_empty-each write [] = refl
unless_empty-each write (x ∷ xs) = refl

-- Five texts, one after the other.
abbrev in_row : Text → Text → Text → Text → Text → Text
in_row t u v w x = t ++ (u ++ (v ++ (w ++ x)))

in_row-append : (t u v w x rest : Text) → in_row t u v w x ++ rest ≡ in_row t u v w (x ++ rest)
in_row-append t u v w x rest =
    append_assoc t (u ++ (v ++ (w ++ x))) rest
    ∙ ap (t ++◌) (
        append_assoc u (v ++ (w ++ x)) rest
        ∙ ap (u ++◌) (append_assoc v (w ++ x) rest ∙ ap (v ++◌) (append_assoc w x rest)))

nil-+++ : (r : Result Text) → (ok [] +++ r) ≡ r
nil-+++ (ok t) = refl
nil-+++ (err e) = refl

length-prefix : (t u : Text) → 0 < length t → 0 < length (t ++ u)
length-prefix t u h = omega (arith, h, length-append t u)

empty_list : {A : Type 0} (xs : List A) → is_empty xs ≡ true → xs ≡ []
empty_list [] h = refl
empty_list (x ∷ xs) h = cc

module _ (qi : Qi) (hex : Text → Text) where
  identifier_of :
      (name : Text) (found : Option (List Text)) {addresses : List Text}
      (more : Option (List AgentIdentifier)) {resolvers : List AgentIdentifier}
      {params rest : List UserDefinedParameter}
      → or_empty found ≡ addresses
      → or_empty more ≡ resolvers
      → params ≡ rest
      → ok (agent_identifier name (or_empty found) (resolver_list (or_empty more)) params)
        ≡ ok (agent_identifier name addresses (resolver_list resolvers) rest)
  identifier_of name found more h k l = cc

  Reads-parameter :
      (p : UserdefParam)
      → param_fits p ≡ true
      → Reads
          (userdefined_parameter qi hex)
          (ok (0x04 ∷ []) +++ bit_parse_param false p)
          (param_tree p)
  unfolding param_fits
  Reads-parameter p h = Reads-lead qi 0x04 (
      Reads-act qi refl (
        Reads-seq qi (Reads-bin_word qi p.name (ground arith))
          (Reads-bin_expression qi hex p.value (ground arith))))

  word_fails : (rest : Text) → bin_word qi (1 ∷ rest) ≡ failed
  word_fails rest =
      qi.alt-failed (qi.act-failed (qi.seq-failed (lead-failed qi 0x10 (ground arith))))
      ∙ lead-failed qi 0x11 (ground arith)

  Optional-addresses :
      (xs : List Text)
      → all_of is_word xs ≡ true
      → Optional qi 0x02
          (url_collection qi hex)
          (unless_empty xs (ok (0x02 ∷ []) +++ bin_url_col false xs))
          xs
  Optional-addresses xs h = Optional-list qi 0x02 _ xs _ xs (empty_list xs) (
      Reads-star qi 0x01 word_fails (
        subst (Runs qi (bin_word qi) _) (map_id xs)
          (Runs-each qi (bin_word qi) _ (λ x. x) is_word (Reads-bin_word qi) xs h)))

  -- The parts of an identifier, put together.
  Reads-parts :
      {nested : Parser AgentIdentifier} {name : Text} {addresses : List Text}
      {resolvers : List AgentIdentifier} {params : List UserDefinedParameter}
      {rn ra ro rp : Result Text} (n : Reads (lead qi 0x02 (bin_word qi)) rn name)
      (a : Optional qi 0x02 (url_collection qi hex) ra addresses)
      (o : Optional qi 0x03 (close qi (qi.star nested) 0x01) ro resolvers)
      (ps : Runs qi (userdefined_parameter qi hex) rp params)
      → ((d : ℕ) (rest : Text) → d ≢ 4 → HeadNot d rest → HeadNot d (ps.text ++ rest))
      → Reads
          (agent_rest qi hex nested)
          (rn +++ ra +++ ro +++ rp +++ ok eof_collection)
          (agent_identifier name addresses (resolver_list resolvers) params)
  Reads-parts {nested} {name} {addresses} {resolvers} {params} n a o ps head = record {
    text = in_row n.text a.text o.text ps.text (0x01 ∷ []);
    written =
        ap₂ ◌+++◌ n.written
          (ap₂ ◌+++◌ a.written (ap₂ ◌+++◌ o.written (ap (◌+++ ok eof_collection) ps.written)));
    read = λ rest.
        subst
          (λ s.
            agent_rest qi hex nested s
            ≡ matched (agent_identifier name addresses (resolver_list resolvers) params) rest)
          (sym (in_row-append n.text a.text o.text ps.text (0x01 ∷ []) rest))
          (qi.act-matched
            (qi.seq-matched
              (qi.act-matched
                (qi.seq-matched (n.read _) (
                  qi.seq-matched
                    (a.read _ (o.head 2 _ (ground arith) (head 2 _ (ground arith) (ground arith))))
                    (qi.seq-matched (o.read _ (head 3 _ (ground arith) (ground arith)))
                      (ps.read (qi.star-failed (lead-failed qi 0x04 (ground arith)))))))
                (identifier_of name a.found o.found a.agrees o.agrees (append-nil params)))
              (qi.byte-matched _ rest))
            refl);
    nonempty = length-prefix n.text _ n.nonempty;
  }

  no_part : {B : Type 0} {p : Parser (List B)} (c : ℕ) → Optional qi c p (ok []) []
  no_part c = record {
    text = [];
    written = refl;
    found = none;
    agrees = refl;
    read = λ rest n. qi.opt-failed (lead-failed qi c n);
    head = λ d rest ne n. n;
  }

  -- The parameters, and the byte in front of each of them.
  Runs-parameters :
      (params : List UserdefParam)
      → all_of param_fits params ≡ true
      → Runs qi
          (userdefined_parameter qi hex)
          (unless_empty params (bit_userdef_params false params))
          (map param_tree params)
  Runs-parameters params h =
      subst (λ r. Runs qi (userdefined_parameter qi hex) r (map param_tree params))
        (sym (unless_empty-each write_param params))
        (Runs-each qi _ _ param_tree param_fits Reads-parameter params h)

  parameters-head :
      (params : List UserdefParam)
      (ps : Runs qi
        (userdefined_parameter qi hex)
        (unless_empty params (bit_userdef_params false params))
        (map param_tree params))
      (d : ℕ) (rest : Text)
      → d ≢ 4
      → HeadNot d rest
      → HeadNot d (ps.text ++ rest)
  parameters-head params ps d rest ne n =
      each-head 4 d (bit_parse_param false) params ps.text rest
        (sym (unless_empty-each write_param params) ∙ ps.written) ne n

  Reads-body :
      (name : Text) (addresses : List Text) (params : List UserdefParam)
      {nested : Parser AgentIdentifier} {r : Result Text} {resolvers : List AgentIdentifier}
      → is_word name ≡ true
      → all_of is_word addresses ≡ true
      → all_of param_fits params ≡ true
      → Optional qi 0x03 (close qi (qi.star nested) 0x01) r resolvers
      → Reads
          (agent_rest qi hex nested)
          ((ok (0x02 ∷ []) +++ ok (0x10 ∷ name ++ 0x00 ∷ []))
            +++ unless_empty addresses (ok (0x02 ∷ []) +++ bin_url_col false addresses)
            +++ r
            +++ unless_empty params (bit_userdef_params false params)
            +++ ok eof_collection)
          (agent_identifier name addresses (resolver_list resolvers) (map param_tree params))
  Reads-body name addresses params hn ha hp o =
      let ps = Runs-parameters params hp in
      Reads-parts (Reads-lead qi 0x02 (Reads-bin_word qi name hn)) (Optional-addresses addresses ha)
        o ps (parameters-head params ps)

  agent_fails :
      (level : ℕ) (rest : Text) → agent_identifier_at qi hex (suc level) (0x01 ∷ rest) ≡ failed
  agent_fails level rest =
      qi.act-failed
        (qi.seq-failed (qi.act-failed (qi.seq-failed (lead-failed qi 0x02 (ground arith)))))

  -- An agent identifier whose names and addresses are words, and whose parameters have words for
  -- names and values without a quote and without a backslash at their end, is read back from what
  -- the format writes to a depth, whatever follows, at any bound for the nesting above that depth;
  -- resolvers below the depth are gone.
  pub Reads-agent :
      (depth level : ℕ) (a : AgentId)
      → depth < level
      → agent_fits depth a ≡ true
      → Reads (agent_identifier_at qi hex level) (bit_aid false depth a) (agent_tree depth a)
  unfolding agent_fits agent_tree
  Reads-agent depth zero a lt h = absurd (omega arith)
  Reads-agent zero (suc level) a lt h =
      subst
        (λ r.
          Reads (agent_identifier_at qi hex (suc level))
            ((ok (0x02 ∷ []) +++ ok (0x10 ∷ get_name a ++ 0x00 ∷ []))
              +++ unless_empty (get_addresses a)
                  (ok (0x02 ∷ []) +++ bin_url_col false (get_addresses a))
              +++ r)
            (agent_tree zero a))
        (nil-+++ _)
        (Reads-body (get_name a) (get_addresses a) (get_userdef_params a) (ground arith)
          (ground arith) (ground arith) (no_part 0x03))
  Reads-agent (suc depth) (suc zero) a lt h = absurd (omega arith)
  Reads-agent (suc depth) (suc (suc level)) a lt h =
      Reads-body (get_name a) (get_addresses a) (get_userdef_params a) (ground arith) (ground arith)
        (ground arith)
        (Optional-list qi 0x03 _ (get_resolvers a) _ _
          (empty-map (agent_tree depth) (get_resolvers a))
          (Reads-star qi 0x01 (agent_fails level) (
            Runs-each qi _ (bit_aid false depth) (agent_tree depth) (agent_fits depth)
              (λ b k. Reads-agent depth (suc level) b (omega arith) k) (get_resolvers a)
              (ground arith))))
