-- ===== src/State/Linked.antt =====
-- What loading reads from the default transitions of a state: the roles between which an embedded
-- state machine forwards replies are named by a transition.
use multiagent_fipa_acl.Base.{
  Bool-cases, list_beq_iff, ◌==◌, nat_eq, text_eq, is_empty, any_of, All, All-mono, Outcome, ok,
  ◌≡◌, sym, ap, subst, inl, inr, Bool, true, false, ◌&&◌, ◌||◌, List, [], ◌∷◌, arith,
}
use multiagent_fipa_acl.Role.{Role, RegexMatch}
use multiagent_fipa_acl.Transition.{StateId, Transition, transition_beq, not_understood_transition}
use multiagent_fipa_acl.Transition.Triggers.{transition_beq_iff}
use multiagent_fipa_acl.State.{State, EmbeddedStateMachine, not_understood_both}
use multiagent_fipa_acl.State.Defaults.{occurs}
use multiagent_fipa_acl.State.Generated.{Covered, Generated}

-- Some transition leads from one role to the other.
abbrev pub links : Role → Role → List Transition → Bool
links one other ts = any_of (λ t. t.sender_role == one && t.receiver_role == other) ts

abbrev pub Linked : List Transition → EmbeddedStateMachine → Type 0
Linked ts e = is_empty e.proxied_to ≡ false → links e.from_role e.proxied_to_role ts ≡ true

same_ends :
    (t u : Transition)
    → t ≡ u
    → (t.sender_role == u.sender_role && t.receiver_role == u.receiver_role) ≡ true
same_ends t u h =
    let s =
      (list_beq_iff t.sender_role u.sender_role).1 (ap (λ (x : Transition). x.sender_role) h) in
    let r =
      (list_beq_iff t.receiver_role u.receiver_role).1
        (ap (λ (x : Transition). x.receiver_role) h) in
    rw s r

occurs-links :
    (t : Transition) (ts : List Transition)
    → occurs t ts ≡ true
    → links t.sender_role t.receiver_role ts ≡ true
occurs-links t [] h = cc
occurs-links t (u ∷ ts) h = elim (Bool-cases (transition_beq u t)) [
  | inl same ↦ first _ (same_ends u t ((transition_beq_iff u t).0 same))
  | inr differs ↦ later _ (occurs-links t ts (rw differs at h))
]
  where
    first : {a : Bool} (b : Bool) → a ≡ true → (a || b) ≡ true
    first b h = ground arith

    later : (a : Bool) {b : Bool} → b ≡ true → (a || b) ≡ true
    later a h = ground arith

Covered-Linked :
    (id : StateId) (ts : List Transition) (e : EmbeddedStateMachine) → Covered id ts e → Linked ts e
unfolding not_understood_both not_understood_transition
Covered-Linked id ts e c h =
    occurs-links (not_understood_transition e.from_role e.proxied_to_role id) ts (c h).0

module _ {M : Type 0} (regex_match : RegexMatch) where
  pub Generated-Linked :
      (s : State M) (out : Outcome (State M) (Unit {0}))
      → Generated regex_match s out
      → out.1 ≡ ok tt
      → All (Linked out.0.transitions) out.0.embedded_state_machines
  Generated-Linked s out g h =
      elim (Bool-cases (s.is_final && is_empty s.embedded_state_machines)) [
        | inl skipped ↦
            subst (All (Linked out.0.transitions))
              (sym (
                ap (λ (o : Outcome (State M) (Unit {0})). o.0.embedded_state_machines)
                  (g.1 skipped)))
              (none_embedded s.embedded_state_machines (ground arith))
        | inr run ↦ subst (All (Linked out.0.transitions)) (sym g.0.embedded) (
            All-mono (Covered s.id out.0.transitions) (Linked out.0.transitions)
              s.embedded_state_machines (Covered-Linked s.id out.0.transitions) (g.2 run h).1)
      ]
    where
      none_embedded :
          (es : List EmbeddedStateMachine) → is_empty es ≡ true → All (Linked out.0.transitions) es
      none_embedded [] h = tt
      none_embedded (_ ∷ _) h = cc
