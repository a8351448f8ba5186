-- ===== src/Machine/WellFormed.antt =====
-- The invariant of a state machine that is in use.
use multiagent_fipa_acl.Base.{
  nat_eq, text_eq, is_empty, All, ok, ◌≡◌, refl, true, false, some, [], ◌∷◌, arith,
}
use multiagent_fipa_acl.Base.Maps.{Map, find, has, find-has, All-find}
use multiagent_fipa_acl.Role.{RoleMapping}
use multiagent_fipa_acl.Role.Expected.{has_role}
use multiagent_fipa_acl.Transition.{StateId, Transition}
use multiagent_fipa_acl.State.{State, EmbeddedStateMachine}
use multiagent_fipa_acl.Machine.{StateMachine, get_current_state}

-- A transition leads from its state to a known one, between known roles.
pub record TransitionOk {M : Type 0} (states : Map StateId (State M)) (roles : RoleMapping)
    (id : StateId) (t : Transition) : Type 0 where
  pub source : t.source_state_id ≡ id
  pub target : has t.target_state_id states ≡ true
  pub sender : has_role roles t.sender_role ≡ true
  pub receiver : has_role roles t.receiver_role ≡ true

-- An embedded state machine that forwards replies does so between known roles.
abbrev pub ProxyOk : RoleMapping → EmbeddedStateMachine → Type 0
ProxyOk roles e =
    is_empty e.proxied_to ≡ false
    → (has_role roles e.from_role ≡ true) × (has_role roles e.proxied_to_role ≡ true)

abbrev pub EntryOk : {M : Type 0} → Map StateId (State M) → RoleMapping → StateId × State M → Type 0
EntryOk states roles (id, s) =
    (s.id ≡ id)
    × All (TransitionOk states roles id) s.transitions
    × All (ProxyOk roles) s.embedded_state_machines

pub record IsWellFormed {M : Type 0} (sm : StateMachine M) : Type 0 where
  pub current : has sm.current_state_id sm.states ≡ true
  pub named : has {V = State M} [] sm.states ≡ false
  pub entries : All (EntryOk sm.states sm.role_mapping) sm.states

module _ {M : Type 0} (sm : StateMachine M) (w : IsWellFormed sm) where
  current_named : is_empty sm.current_state_id ≡ false
  current_named = go sm.current_state_id w.current
    where
      go : (id : StateId) → has id sm.states ≡ true → is_empty id ≡ false
      go [] h = absurd (let n = w.named in ground arith)
      go (_ ∷ _) h = refl

  -- A well-formed machine has a current state, and its entry is in order.
  pub current_state :
      (s : State M) × (find sm.current_state_id sm.states ≡ some s)
      × (get_current_state sm ≡ ok s)
      × EntryOk sm.states sm.role_mapping (sm.current_state_id, s)
  unfolding get_current_state
  current_state =
      let (s, e) = find-has sm.current_state_id sm.states w.current in
      (
        s,
        e,
        rw (current_named, get_current_state) (rw (e, get_current_state) refl),
        All-find (EntryOk sm.states sm.role_mapping) sm.current_state_id sm.states w.entries e,
      )
