-- ===== src/Agent/Compare.antt =====
-- What the comparison of agent identifiers decides.
use multiagent_fipa_acl.Base.{
  ◌==◌, nat_eq, list_beq_iff, Text, text_eq, ℕ, zero, suc, ◌≡◌, refl, sym, ◌∙◌, ◌↔◌, true, arith,
}
use multiagent_fipa_acl.Pairing.{same_collection}
use multiagent_fipa_acl.Pairing.Counting.{
  IsEquivalence, SameCounts, same_collection_iff, ==-IsEquivalence,
}
use multiagent_fipa_acl.Agent.{
  AgentId, UserdefParam, param_eq, get_name, get_addresses, get_resolvers, get_userdef_params,
  compare_equal, agent_beq,
}

-- The same name, and the same addresses, resolvers and parameters in any order; resolvers are
-- compared one level less deep, and at depth 0 not at all.
abbrev pub SameAgent : ℕ → AgentId → AgentId → Type 0
SameAgent zero a b =
    (get_name a ≡ get_name b)
    × SameCounts ◌==◌ (get_addresses a) (get_addresses b)
    × SameCounts ◌==◌ (get_userdef_params a) (get_userdef_params b)
SameAgent (suc depth) a b =
    (get_name a ≡ get_name b)
    × SameCounts ◌==◌ (get_addresses a) (get_addresses b)
    × SameCounts ◌==◌ (get_userdef_params a) (get_userdef_params b)
    × SameCounts (compare_equal depth) (get_resolvers a) (get_resolvers b)

string_classes : IsEquivalence {A = Text} ◌==◌
string_classes = ==-IsEquivalence

param_classes : IsEquivalence {A = UserdefParam} ◌==◌
param_classes = ==-IsEquivalence

compare_equal-tests :
    (depth : ℕ) (a b : AgentId)
    → (compare_equal (suc depth) a b ≡ true) ↔ (
        (get_name a == get_name b ≡ true)
        × (same_collection ◌==◌ (get_addresses a) (get_addresses b) ≡ true)
        × (same_collection ◌==◌ (get_userdef_params a) (get_userdef_params b) ≡ true)
        × (same_collection (compare_equal depth) (get_resolvers a) (get_resolvers b) ≡ true))
unfolding compare_equal
compare_equal-tests depth a b = ground arith

compare_equal-flat :
    (a b : AgentId)
    → (compare_equal zero a b ≡ true) ↔ (
        (get_name a == get_name b ≡ true)
        × (same_collection ◌==◌ (get_addresses a) (get_addresses b) ≡ true)
        × (same_collection ◌==◌ (get_userdef_params a) (get_userdef_params b) ≡ true))
unfolding compare_equal
compare_equal-flat a b = ground arith

module _ (a b : AgentId) where
  name_iff : (get_name a == get_name b ≡ true) ↔ (get_name a ≡ get_name b)
  name_iff = list_beq_iff (get_name a) (get_name b)

  addresses_iff :
      (same_collection ◌==◌ (get_addresses a) (get_addresses b) ≡ true)
      ↔ SameCounts ◌==◌ (get_addresses a) (get_addresses b)
  addresses_iff = same_collection_iff ◌==◌ string_classes (get_addresses a) (get_addresses b)

  params_iff :
      (same_collection ◌==◌ (get_userdef_params a) (get_userdef_params b) ≡ true)
      ↔ SameCounts ◌==◌ (get_userdef_params a) (get_userdef_params b)
  params_iff = same_collection_iff ◌==◌ param_classes (get_userdef_params a) (get_userdef_params b)

  same_of_compare_zero : compare_equal zero a b ≡ true → SameAgent zero a b
  same_of_compare_zero h =
      let t = (compare_equal-flat a b).0 h in
      (name_iff.0 t.0, addresses_iff.0 t.1, params_iff.0 t.2)

  compare_of_same_zero : SameAgent zero a b → compare_equal zero a b ≡ true
  compare_of_same_zero s =
      (compare_equal-flat a b).1 (name_iff.1 s.0, addresses_iff.1 s.1, params_iff.1 s.2)

  module _ (depth : ℕ) (q : IsEquivalence (compare_equal depth)) where
    resolvers_iff :
        (same_collection (compare_equal depth) (get_resolvers a) (get_resolvers b) ≡ true)
        ↔ SameCounts (compare_equal depth) (get_resolvers a) (get_resolvers b)
    resolvers_iff = same_collection_iff (compare_equal depth) q (get_resolvers a) (get_resolvers b)

    same_of_compare_suc : compare_equal (suc depth) a b ≡ true → SameAgent (suc depth) a b
    same_of_compare_suc h =
        let t = (compare_equal-tests depth a b).0 h in
        (name_iff.0 t.0, addresses_iff.0 t.1, params_iff.0 t.2, resolvers_iff.0 t.3)

    compare_of_same_suc : SameAgent (suc depth) a b → compare_equal (suc depth) a b ≡ true
    compare_of_same_suc s =
        (compare_equal-tests depth a b).1
          (name_iff.1 s.0, addresses_iff.1 s.1, params_iff.1 s.2, resolvers_iff.1 s.3)

SameAgent-refl : (depth : ℕ) (a : AgentId) → SameAgent depth a a
SameAgent-refl zero a = (refl, λ x. refl, λ x. refl)
SameAgent-refl (suc depth) a = (refl, λ x. refl, λ x. refl, λ x. refl)

SameAgent-sym : (depth : ℕ) (a b : AgentId) → SameAgent depth a b → SameAgent depth b a
SameAgent-sym zero a b s = (sym s.0, λ x. sym (s.1 x), λ x. sym (s.2 x))
SameAgent-sym (suc depth) a b s = (sym s.0, λ x. sym (s.1 x), λ x. sym (s.2 x), λ x. sym (s.3 x))

SameAgent-trans :
    (depth : ℕ) (a b c : AgentId) → SameAgent depth a b → SameAgent depth b c → SameAgent depth a c
SameAgent-trans zero a b c s t = (s.0 ∙ t.0, λ x. s.1 x ∙ t.1 x, λ x. s.2 x ∙ t.2 x)
SameAgent-trans (suc depth) a b c s t =
    (s.0 ∙ t.0, λ x. s.1 x ∙ t.1 x, λ x. s.2 x ∙ t.2 x, λ x. s.3 x ∙ t.3 x)

IsEquivalence-of_iff :
    (depth : ℕ)
    → ((a b : AgentId) → (compare_equal depth a b ≡ true) ↔ SameAgent depth a b)
    → IsEquivalence (compare_equal depth)
IsEquivalence-of_iff depth iff = record {
  reflexive = λ a. (iff a a).1 (SameAgent-refl depth a);
  symmetric = λ a b h. (iff b a).1 (SameAgent-sym depth a b ((iff a b).0 h));
  transitive =
      λ a b c h k. (iff a c).1 (SameAgent-trans depth a b c ((iff a b).0 h) ((iff b c).0 k));
}

-- `compareEqual` holds exactly if the names are the same and the addresses, the parameters and,
-- above depth 0, the resolvers agree as multisets, resolvers being compared one level less deep.
pub compare_equal_iff :
    (depth : ℕ) (a b : AgentId) → (compare_equal depth a b ≡ true) ↔ SameAgent depth a b
compare_equal_iff zero a b = (same_of_compare_zero a b, compare_of_same_zero a b)
compare_equal_iff (suc depth) a b =
    let q = IsEquivalence-of_iff depth (compare_equal_iff depth) in
    (same_of_compare_suc a b depth q, compare_of_same_suc a b depth q)

-- At every depth the comparison is an equivalence relation.
pub compare_equal-IsEquivalence : (depth : ℕ) → IsEquivalence (compare_equal depth)
compare_equal-IsEquivalence depth = IsEquivalence-of_iff depth (compare_equal_iff depth)

pub agent_beq-IsEquivalence : IsEquivalence agent_beq
unfolding agent_beq
agent_beq-IsEquivalence = compare_equal-IsEquivalence 1

pub agent_beq_refl : (a : AgentId) → agent_beq a a ≡ true
agent_beq_refl a = agent_beq-IsEquivalence.reflexive a
