-- ===== src/Bitefficient/RoundTrip/Built.antt =====
-- message_parser/bitefficient_message_parser.cpp: the agent identifier that is built of the tree of
-- one that was encoded.
use multiagent_fipa_acl.Base.{
  if◌then◌else◌, nat_eq, Text, text_eq, any_of, ok, ℕ, zero, suc, ◌<◌, ◌≡◌, refl, sym, ap, ◌∙◌,
  Bool, true, false, List, [], ◌∷◌, ◌++◌, map, append-nil, append_assoc, arith,
}
use multiagent_fipa_acl.Words.{is_illegal_word, occurs_in, illegal_word_chars}
use multiagent_fipa_acl.Agent.{
  AgentId, UserdefParam, Resolvers, agent_id, nil, of_list, to_list, get_name, get_addresses,
  get_resolvers, get_userdef_params, set_name, add_address, add_resolver, add_userdef_param,
  set_param_name, contains_agent,
}
use multiagent_fipa_acl.Bitefficient.Qi.{Qi, matched}
use multiagent_fipa_acl.Bitefficient.Format.{bit_aid}
use multiagent_fipa_acl.Bitefficient.RoundTrip.Agents.{Reads-agent}
use multiagent_fipa_acl.Bitefficient.Grammar.Agents.{
  AgentIdentifier, resolver_list, agent_identifier_at,
}
use multiagent_fipa_acl.Bitefficient.Parser.{
  build_agent_id, build_resolvers, add_addresses, build_agent_parameters, build_userdef_parameter,
}
use multiagent_fipa_acl.Bitefficient.RoundTrip.{all_of, is_word, is_word_char}
use multiagent_fipa_acl.Bitefficient.RoundTrip.Trees.{
  param_fits, param_tree, agent_fits, agent_tree,
}

-- The identifiers added one after the other, each only if it is not there yet.
abbrev distinct : List AgentId → List AgentId → List AgentId
distinct kept [] = kept
distinct kept (a ∷ rest) = distinct (if contains_agent kept a then kept else kept ++ a ∷ []) rest

-- An identifier with the levels of resolvers that a depth keeps.
unfoldable pub cut : ℕ → AgentId → AgentId
cut zero a = agent_id (get_name a) (get_addresses a) nil (get_userdef_params a)
cut (suc depth) a =
    agent_id (get_name a) (get_addresses a)
      (of_list (distinct [] (map (cut depth) (get_resolvers a)))) (get_userdef_params a)

char_legal : (c : ℕ) → is_word_char c ≡ true → occurs_in illegal_word_chars c ≡ false
unfolding occurs_in
char_legal c h = ground arith

chars_legal :
    (w : Text) → all_of is_word_char w ≡ true → any_of (occurs_in illegal_word_chars) w ≡ false
chars_legal [] h = refl
chars_legal (c ∷ w) h = ground (arith, char_legal c, chars_legal w)

-- A word that the encoding takes is no illegal word.
pub is_word-legal : (w : Text) → is_word w ≡ true → is_illegal_word w ≡ false
unfolding is_word is_illegal_word occurs_in
is_word-legal [] h = absurd (ground arith)
is_word-legal (c ∷ w) h = ground (arith, char_legal c, chars_legal w)

to_list-of_list : (xs : List AgentId) → to_list (of_list xs) ≡ xs
to_list-of_list [] = refl
to_list-of_list (x ∷ xs) = ap (x ∷◌) (to_list-of_list xs)

module _ (name : Text) where
  addresses_built :
      (rest xs : List Text) (r : Resolvers) (ps : List UserdefParam)
      → all_of is_word rest ≡ true
      → add_addresses (agent_id name xs r ps) rest ≡ ok (agent_id name (xs ++ rest) r ps)
  unfolding add_addresses add_address
  addresses_built [] xs r ps h = ap (λ t. ok (agent_id name t r ps)) (sym (append-nil xs))
  addresses_built (w ∷ rest) xs r ps h = rw (is_word-legal w (ground arith)) (
      addresses_built rest (xs ++ w ∷ []) r ps (ground arith)
      ∙ ap (λ t. ok (agent_id name t r ps)) (append_assoc xs (w ∷ []) rest))

  params_built :
      (rest ps : List UserdefParam) (xs : List Text) (r : Resolvers)
      → all_of param_fits rest ≡ true
      → build_agent_parameters (agent_id name xs r ps) (map param_tree rest)
        ≡ ok (agent_id name xs r (ps ++ rest))
  unfolding build_agent_parameters build_userdef_parameter set_param_name add_userdef_param
      param_fits
  params_built [] ps xs r h = ap (λ t. ok (agent_id name xs r t)) (sym (append-nil ps))
  params_built (p ∷ rest) ps xs r h = rw (is_word-legal p.name (ground arith)) (
      params_built rest (ps ++ p ∷ []) xs r (ground arith)
      ∙ ap (λ t. ok (agent_id name xs r t)) (append_assoc ps (p ∷ []) rest))

module _ (depth : ℕ)
    (built : (b : AgentId)
      → agent_fits depth b ≡ true
      → build_agent_id (agent_tree depth b) ≡ ok (cut depth b))
    (name : Text) (xs : List Text) (ps : List UserdefParam) where
  resolver_added :
      (kept : List AgentId) (a : AgentId)
      → add_resolver (agent_id name xs (of_list kept) ps) a
        ≡ agent_id name xs (of_list (if contains_agent kept a then kept else kept ++ a ∷ [])) ps
  unfolding add_resolver
  resolver_added kept a = rw (to_list-of_list kept) (if_resolvers (contains_agent kept a))
    where
      if_resolvers :
          (b : Bool)
          → (if b
              then agent_id name xs (of_list kept) ps
              else agent_id name xs (of_list (kept ++ a ∷ [])) ps)
            ≡ agent_id name xs (of_list (if b then kept else kept ++ a ∷ [])) ps
      if_resolvers true = refl
      if_resolvers false = refl

  resolvers_built :
      (rest kept : List AgentId)
      → all_of (agent_fits depth) rest ≡ true
      → build_resolvers
          (agent_id name xs (of_list kept) ps)
          (resolver_list (map (agent_tree depth) rest))
        ≡ ok (agent_id name xs (of_list (distinct kept (map (cut depth) rest))) ps)
  unfolding build_resolvers
  resolvers_built [] kept h = refl
  resolvers_built (b ∷ rest) kept h = rw (built b (ground arith)) (
      rw (resolver_added kept (cut depth b)) (
        resolvers_built rest
          (if contains_agent kept (cut depth b) then kept else kept ++ cut depth b ∷ [])
          (ground arith)))

pub agent_built :
    (depth : ℕ) (a : AgentId)
    → agent_fits depth a ≡ true
    → build_agent_id (agent_tree depth a) ≡ ok (cut depth a)
unfolding agent_fits agent_tree cut set_name build_agent_id build_resolvers
agent_built zero (agent_id name xs r ps) h = rw (is_word-legal name (ground arith)) (
    rw (addresses_built name xs [] nil [] (ground arith))
      (params_built name ps [] xs nil (ground arith)))
agent_built (suc depth) (agent_id name xs r ps) h = rw (is_word-legal name (ground arith)) (
    rw (addresses_built name xs [] nil [] (ground arith)) (
      rw (resolvers_built depth (agent_built depth) name xs [] (to_list r) [] (ground arith))
        (params_built name ps [] xs _ (ground arith))))

-- An agent identifier that the encoding can hold, written to a depth, is read whatever follows at
-- any bound for the nesting above that depth, and what is built of it is the identifier, with its
-- addresses and parameters in their order, as many levels of resolvers as the depth, and in each of
-- them every resolver once.
pub build_agent_id-bit_aid :
    (qi : Qi) (hex : Text → Text) (depth level : ℕ) (a : AgentId)
    → depth < level
    → agent_fits depth a ≡ true
    → (t : Text) × (bit_aid false depth a ≡ ok t)
      × ((rest : Text)
          → (tree : AgentIdentifier) × (agent_identifier_at qi hex level (t ++ rest)
              ≡ matched tree rest)
            × (build_agent_id tree ≡ ok (cut depth a)))
build_agent_id-bit_aid qi hex depth level a lt h =
    let r = Reads-agent qi hex depth level a lt h in
    (r.text, r.written, λ rest. (agent_tree depth a, r.read rest, agent_built depth a h))
