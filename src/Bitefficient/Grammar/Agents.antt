-- ===== src/Bitefficient/Grammar/Agents.antt =====
-- message_parser/agent_id.h, and the rules for agent identifiers of
-- message_parser/grammar/grammar_bitefficient.h. Of the alternatives of a user-defined value the
-- grammar only makes the string, so the value is its text.
use multiagent_fipa_acl.Base.{
  nat_eq, Text, text_eq, length, aborted, ok, ℕ, zero, suc, Option, none, some, List, [], ◌∷◌,
}
use multiagent_fipa_acl.Bitefficient.Qi.{Qi, Parser, thrown}
use multiagent_fipa_acl.Bitefficient.Reads.{lead, close}
use multiagent_fipa_acl.Bitefficient.Grammar.Expressions.{bin_word, bin_expression}

-- `UserDefinedParameter`
pub record UserDefinedParameter : Type 0 where
  pub name : Text
  pub data_text : Text

-- `AgentIdentifier`, with its resolvers, which are agent identifiers.
mutual
  pub data AgentIdentifier : Type 0 where
    agent_identifier : Text → List Text → ResolverList → List UserDefinedParameter → AgentIdentifier

  pub data ResolverList : Type 0 where
    no_resolver : ResolverList
    resolver : AgentIdentifier → ResolverList → ResolverList

abbrev pub resolver_list : List AgentIdentifier → ResolverList
resolver_list [] = no_resolver
resolver_list (a ∷ rest) = resolver a (resolver_list rest)

-- A collection that may be missing is empty.
abbrev pub or_empty : {A : Type 0} → Option (List A) → List A
or_empty none = []
or_empty (some xs) = xs

module _ (qi : Qi) (hex : Text → Text) where
  -- `UserdefinedParameter`
  abbrev pub userdefined_parameter : Parser UserDefinedParameter
  userdefined_parameter = lead qi 0x04 (
      qi.act (qi.seq (bin_word qi) (bin_expression qi hex))
        (λ x. ok (record { name = x.0; data_text = x.1 })))

  -- `endOfCollection` closes the collections.
  abbrev pub url_collection : Parser (List Text)
  url_collection = close qi (qi.star (bin_word qi)) 0x01

  abbrev pub addresses : Parser (List Text)
  addresses = lead qi 0x02 url_collection

  -- The parts of `agent_identifier_rule` behind its name, given the rule for the resolvers.
  abbrev pub agent_rest : Parser AgentIdentifier → Parser AgentIdentifier
  agent_rest nested =
      close qi
        (qi.act
          (qi.seq (lead qi 0x02 (bin_word qi)) (
            qi.seq (qi.opt addresses) (
              qi.seq (qi.opt (lead qi 0x03 (close qi (qi.star nested) 0x01)))
                (qi.star userdefined_parameter))))
          (λ x.
            ok (agent_identifier x.0 (or_empty x.1.0) (resolver_list (or_empty x.1.1.0)) x.1.1.1)))
        0x01

  -- `agent_identifier_rule`; the number bounds the nesting of resolvers.
  abbrev pub agent_identifier_at : ℕ → Parser AgentIdentifier
  agent_identifier_at zero = λ s. thrown aborted
  agent_identifier_at (suc depth) = agent_rest (agent_identifier_at depth)

  -- `AgentIdentifier`. Each resolver takes two bytes at least, so the input bounds the nesting.
  abbrev pub agent_identifier_rule : Parser AgentIdentifier
  agent_identifier_rule = λ s. agent_identifier_at (suc (length s)) s
