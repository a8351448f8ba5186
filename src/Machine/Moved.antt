-- ===== src/Machine/Moved.antt =====
-- A well-formed machine after a transition, and after a change of its current state.
use multiagent_fipa_acl.Base.{
  nat_eq, text_eq, All-mono, Outcome, follow, within, ok, err, ◌≡◌, refl, ◌∙◌, true, [], ◌∷◌, ◌++◌,
}
use multiagent_fipa_acl.Base.Maps.{All-put, has-put_known, put, Map, has}
use multiagent_fipa_acl.Message.{AclMessage}
use multiagent_fipa_acl.Role.{RoleMapping}
use multiagent_fipa_acl.Role.Expected.{has_role}
use multiagent_fipa_acl.Transition.{StateId, Transition}
use multiagent_fipa_acl.State.{State}
use multiagent_fipa_acl.Machine.{StateMachine, update_role_mapping, perform}
use multiagent_fipa_acl.Machine.WellFormed.{IsWellFormed, TransitionOk, ProxyOk, EntryOk}
use multiagent_fipa_acl.Machine.Roles.{SameRoles, update_role_mapping-Learns}

module _ {M : Type 0} where
  -- Entries stay in order while the known states and roles stay the same.
  pub EntryOk-transfer :
      (states states' : Map StateId (State M)) (roles roles' : RoleMapping)
      → ((id : StateId) → has id states' ≡ has id states)
      → SameRoles roles roles'
      → (p : StateId × State M) → EntryOk states roles p
      → EntryOk states' roles' p
  EntryOk-transfer states states' roles roles' known same (id, s) (i, ts, es) = (
    i,
    All-mono (TransitionOk states roles id) (TransitionOk states' roles' id) s.transitions
        (λ t o. record {
          source = o.source;
          target = known t.target_state_id ∙ o.target;
          sender = same t.sender_role ∙ o.sender;
          receiver = same t.receiver_role ∙ o.receiver;
        })
        ts,
    All-mono (ProxyOk roles) (ProxyOk roles') s.embedded_state_machines
        (λ e o h. let both = o h in (same e.from_role ∙ both.0, same e.proxied_to_role ∙ both.1))
        es,
  )

  -- The machine after a transition: the archive has one more message, the current state is the
  -- target, and the mapping knows the same roles.
  pub record Moved (sm after : StateMachine M) (m : AclMessage) (target : StateId) : Type 0 where
    pub archive : after.message_archive ≡ sm.message_archive ++ m ∷ []
    pub current : after.current_state_id ≡ target
    pub states : after.states ≡ sm.states
    pub roles : SameRoles sm.role_mapping after.role_mapping
    pub initial : after.initial_state_id ≡ sm.initial_state_id

  pub perform-Moved :
      (sm : StateMachine M) (m : AclMessage) (t : Transition)
      → has_role sm.role_mapping t.sender_role ≡ true
      → has_role sm.role_mapping t.receiver_role ≡ true
      → ((perform sm m t).1 ≡ ok tt) × Moved sm (perform sm m t).0 m t.target_state_id
  unfolding perform
  perform-Moved sm m t hs hr =
      go (update_role_mapping sm.role_mapping m t)
        (update_role_mapping-Learns sm.role_mapping m t hs hr)
    where
      go :
          (out : Outcome RoleMapping (Unit {0}))
          → (out.1 ≡ ok tt) × SameRoles sm.role_mapping out.0
          → let done : Outcome (StateMachine M) (Unit {0}) =
              follow (within (λ roles. record sm { role_mapping = roles }) out) λ sm' _. (
                record sm' {
                  message_archive = sm.message_archive ++ m ∷ [];
                  current_state_id = t.target_state_id;
                },
                ok tt,
              ) in
            (done.1 ≡ ok tt) × Moved sm done.0 m t.target_state_id
      go (roles, ok _) (_, same) = (
        refl,
        record { archive = refl; current = refl; states = refl; roles = same; initial = refl },
      )
      go (roles, err x) (bad, _) = cc

  pub Moved-IsWellFormed :
      (sm after : StateMachine M) (m : AclMessage) (target : StateId)
      → IsWellFormed sm
      → has target sm.states ≡ true
      → Moved sm after m target
      → IsWellFormed after
  Moved-IsWellFormed sm after m target w known v = record {
    current = rw (v.current, v.states) known;
    named = rw v.states w.named;
    entries = rw v.states (
        All-mono (EntryOk sm.states sm.role_mapping) (EntryOk sm.states after.role_mapping)
          sm.states
          (EntryOk-transfer sm.states sm.states sm.role_mapping after.role_mapping (λ id. refl)
            v.roles)
          w.entries);
  }

  -- Writing a state back under its id, with the same transitions and embedded machines in order.
  pub replace_state :
      (sm : StateMachine M) (s s' : State M)
      → IsWellFormed sm
      → EntryOk sm.states sm.role_mapping (sm.current_state_id, s')
      → IsWellFormed (record sm { states = put sm.current_state_id s' sm.states })
  replace_state sm s s' w o =
      let known : (id : StateId)
          → has id (put sm.current_state_id s' sm.states) ≡ has id sm.states =
        λ id. has-put_known sm.current_state_id id s' sm.states w.current in
      let states' = put sm.current_state_id s' sm.states in
      record {
        current = known sm.current_state_id ∙ w.current;
        named = known [] ∙ w.named;
        entries =
            All-mono (EntryOk sm.states sm.role_mapping) (EntryOk states' sm.role_mapping) states'
              (EntryOk-transfer sm.states states' sm.role_mapping sm.role_mapping known (λ r. refl))
              (All-put (EntryOk sm.states sm.role_mapping) sm.current_state_id s' sm.states
                w.entries o);
      }
