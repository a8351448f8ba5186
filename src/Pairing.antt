-- ===== src/Pairing.antt =====
-- The comparison of two vectors as collections, which message_generator/agent_id.cpp writes out
-- for addresses, resolvers and parameters, and message_generator/acl_message.cpp for receivers,
-- reply-to and parameters: each element found in both copies is erased from both, and the walk
-- starts again at the front; the collections agree if both copies end up empty.
pub mod Counting
use multiagent_fipa_acl.Base.{
  if◌then◌else◌, nat_eq, text_eq, is_empty, length, ℕ, zero, suc, ◌+◌, Bool, ◌&&◌, Option, none,
  some, List, [], ◌∷◌, ◌++◌,
}

abbrev pub both_empty {ℓ} : {A : Type ℓ} → List A × List A → Bool
both_empty (left, right) = is_empty left && is_empty right

module _ {ℓ} {A : Type ℓ} (eq : A → A → Bool) where
  -- The inner loop: the second vector without its first element equal to `a`; `none` if the loop
  -- runs to the end.
  pub erase_first : A → List A → Option (List A)
  erase_first a [] = none
  erase_first a (b ∷ bs) =
      if eq a b
      then some bs
      else elim (erase_first a bs) [ none ↦ none | some bs' ↦ some (b ∷ bs') ]

  -- The outer loop. `seen` is the part of the first vector in front of the iterator and `rest` the
  -- part from it on; the number bounds the erasures still to come.
  pub erase_common : ℕ → List A → List A → List A → List A × List A
  erase_common n seen [] bs = (seen, bs)
  erase_common zero seen (a ∷ rest) bs = elim (erase_first a bs) [
    | none ↦ erase_common zero (seen ++ a ∷ []) rest bs
    | some _ ↦ (seen ++ a ∷ rest, bs)
  ]
  erase_common (suc n) seen (a ∷ rest) bs = elim (erase_first a bs) [
    | none ↦ erase_common (suc n) (seen ++ a ∷ []) rest bs
    | some bs' ↦ erase_common n [] (seen ++ rest) bs'
  ]

  -- The whole comparison. An erasure shortens the first vector, so its length bounds them.
  pub same_collection : List A → List A → Bool
  unfolding erase_common erase_first
  same_collection xs bs = both_empty (erase_common (length xs) [] xs bs)
