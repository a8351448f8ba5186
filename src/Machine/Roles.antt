-- ===== src/Machine/Roles.antt =====
-- Role mappings only learn agents while messages are consumed: known roles stay the same, and a
-- transition between known roles never makes `updateRoleMapping` throw.
use multiagent_fipa_acl.Base.{
  nat_eq, text_eq, Outcome, follow, ok, err, ◌≡◌, refl, ◌∙◌, inl, inr, true, List, [], ◌∷◌, arith,
}
use multiagent_fipa_acl.Base.Maps.{find-has}
use multiagent_fipa_acl.Agent.{AgentId}
use multiagent_fipa_acl.Message.{AclMessage}
use multiagent_fipa_acl.Role.{Role, RoleMapping, add_expected_agent}
use multiagent_fipa_acl.Role.Expected.{
  has_role, has_role-add_expected_agent, add_expected_agent_lem,
}
use multiagent_fipa_acl.Transition.{Transition}
use multiagent_fipa_acl.Machine.{expect_receivers, update_role_mapping}

-- The two mappings know the same roles.
abbrev pub SameRoles : RoleMapping → RoleMapping → Type 0
SameRoles roles roles' = (role : Role) → has_role roles' role ≡ has_role roles role

add_expected_agent_known :
    (roles : RoleMapping) (role : Role) (a : AgentId)
    → has_role roles role ≡ true
    → (add_expected_agent roles role a).1 ≡ ok tt
add_expected_agent_known roles role a h =
    let (agents, e) = find-has role roles.expected_agent_mapping h in
    elim (add_expected_agent_lem roles role a) [
      | inl (missing, _) ↦ absurd (ground arith)
      | inr (_, _, done, _, _) ↦ done
    ]

Learns : RoleMapping → Outcome RoleMapping (Unit {0}) → Type 0
Learns roles out = (out.1 ≡ ok tt) × SameRoles roles out.0

follow_ok :
    {S A B : Type 0} (out : Outcome S A) (next : S → A → Outcome S B) {a : A}
    → out.1 ≡ ok a
    → follow out next ≡ next out.0 a
follow_ok (s, ok b) next h = ground arith
follow_ok (s, err e) next h = cc

expect_receivers-Learns :
    (roles : RoleMapping) (role : Role) (agents : List AgentId)
    → has_role roles role ≡ true
    → Learns roles (expect_receivers roles role agents)
unfolding expect_receivers Learns
expect_receivers-Learns roles role [] h = (refl, λ r. refl)
expect_receivers-Learns roles role (a ∷ agents) h =
    let added = add_expected_agent roles role a in
    let same : SameRoles roles added.0 = λ r. has_role-add_expected_agent roles role r a in
    let rest = expect_receivers-Learns added.0 role agents (same role ∙ h) in
    rw
      (follow_ok added (λ roles' _. expect_receivers roles' role agents)
        (add_expected_agent_known roles role a h))
      (rest.0, λ r. rest.1 r ∙ same r)

pub update_role_mapping-Learns :
    (roles : RoleMapping) (m : AclMessage) (t : Transition)
    → has_role roles t.sender_role ≡ true
    → has_role roles t.receiver_role ≡ true
    → ((update_role_mapping roles m t).1 ≡ ok tt)
      × SameRoles roles (update_role_mapping roles m t).0
unfolding update_role_mapping Learns
update_role_mapping-Learns roles m t hs hr =
    let added = add_expected_agent roles t.sender_role m.sender in
    let same : SameRoles roles added.0 =
      λ r. has_role-add_expected_agent roles t.sender_role r m.sender in
    let rest =
      expect_receivers-Learns added.0 t.receiver_role m.receivers (same t.receiver_role ∙ hr) in
    rw
      (follow_ok added (λ roles' _. expect_receivers roles' t.receiver_role m.receivers)
        (add_expected_agent_known roles t.sender_role m.sender hs))
      (rest.0, λ r. rest.1 r ∙ same r)
