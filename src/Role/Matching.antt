-- ===== src/Role/Matching.antt =====
-- Which agents `RoleMapping::isExpected` accepts.
use multiagent_fipa_acl.Base.{
  if◌then◌else◌, nat_eq, text_eq, codes, Result-cases, ◌>>=◌, ok, err, runtime_error, ap, ◌≡◌, refl,
  sym, ◌∙◌, ◌↔◌, ◌⊎◌, inl, inr, Bool, true, false, some, none, List, [], ◌∷◌, ◌++◌, arith,
}
use multiagent_fipa_acl.Base.Maps.{find}
use multiagent_fipa_acl.Agent.{get_name, AgentId}
use multiagent_fipa_acl.Role.{
  get_expected_agents, expected_among, is_expected, any_expected, RegexMatch, Role, RoleMapping,
}

module _ (regex_match : RegexMatch) where
  -- Each agent's name is a pattern, and the name in question matches one of them at least.
  abbrev pub MatchesAgain : List AgentId → AgentId → Type 0
  MatchesAgain [] a = ⊥
  MatchesAgain (other ∷ agents) a =
      (regex_match (get_name a) (get_name other ++ codes "$") ≡ ok true) ⊎ MatchesAgain agents a

  abbrev pub AllRun : List AgentId → AgentId → Type 0
  AllRun [] a = Unit {0}
  AllRun (other ∷ agents) a =
      ((b : Bool) × (regex_match (get_name a) (get_name other ++ codes "$") ≡ ok b))
      × AllRun agents a

  any_expected-true :
      (agents : List AgentId) (a : AgentId)
      → AllRun agents a
      → any_expected regex_match true agents a ≡ ok true
  unfolding any_expected
  any_expected-true [] a run = refl
  any_expected-true (other ∷ agents) a ((b, e), run) =
      rw (e, any_expected) (ground (arith, any_expected-true agents a run))

  any_expected_of :
      (agents : List AgentId) (a : AgentId)
      → AllRun agents a
      → MatchesAgain agents a
      → any_expected regex_match false agents a ≡ ok true
  unfolding any_expected
  any_expected_of [] a run m = absurd m
  any_expected_of (other ∷ agents) a ((b, e), run) (inl m) =
      rw (m, any_expected) (any_expected-true agents a run)
  any_expected_of (other ∷ agents) a ((b, e), run) (inr m) =
      rw (e, any_expected)
        (ground (arith, any_expected-true agents a run, any_expected_of agents a run m))

  any_expected_run :
      (expected : Bool) (agents : List AgentId) (a : AgentId)
      → any_expected regex_match expected agents a ≡ ok true
      → AllRun agents a × ((expected ≡ true) ⊎ MatchesAgain agents a)
  unfolding any_expected
  any_expected_run expected [] a h = (tt, inl (ground arith))
  any_expected_run expected (other ∷ agents) a h =
      elim (Result-cases (regex_match (get_name a) (get_name other ++ codes "$"))) [
        | inr (x, e) ↦ absurd (ground arith)
        | inl (true, e) ↦
            let rest = any_expected_run true agents a (rw (e, any_expected) at h) in
            (((true, e), rest.0), inr (inl e))
        | inl (false, e) ↦
            let rest = any_expected_run expected agents a (rw (e, any_expected) at h) in
            (((false, e), rest.0), ground arith)
      ]

  -- Where these agents stand in a role: the name matches the role as a pattern, or else nobody
  -- stands in the role yet, or the name matches the name of one who does.
  abbrev pub IsExpected : List AgentId → Role → AgentId → Type 0
  IsExpected agents role a =
      (regex_match (get_name a) role ≡ ok true)
      ⊎ ((regex_match (get_name a) role ≡ ok false)
          × ((agents ≡ []) ⊎ (AllRun agents a × MatchesAgain agents a)))

  expected_among_iff :
      (agents : List AgentId) (a : AgentId)
      → (expected_among regex_match agents a ≡ ok true)
        ↔ ((agents ≡ []) ⊎ (AllRun agents a × MatchesAgain agents a))
  unfolding expected_among
  expected_among_iff [] a = (λ _. inl refl, λ _. refl)
  expected_among_iff (other ∷ agents) a = (
    λ h. let r = any_expected_run false (other ∷ agents) a h in inr (r.0, ground arith),
    λ h. elim h [
      | inl e ↦ absurd (ground arith)
      | inr (run, m) ↦ any_expected_of (other ∷ agents) a run m
    ],
  )

  is_expected_by_role :
      (roles : RoleMapping) (role : Role) (a : AgentId) {b : Bool}
      → regex_match (get_name a) role ≡ ok b
      → is_expected regex_match roles role a ≡ (
          if b
          then ok true
          else (get_expected_agents roles role >>= λ agents. expected_among regex_match agents a))
  unfolding is_expected
  is_expected_by_role roles role a e = rw (e, is_expected) refl

  known_agents :
      (roles : RoleMapping) (role : Role) {agents : List AgentId}
      → find role roles.expected_agent_mapping ≡ some agents
      → get_expected_agents roles role ≡ ok agents
  unfolding get_expected_agents
  known_agents roles role e = ground arith

  unknown_role :
      (roles : RoleMapping) (role : Role)
      → find role roles.expected_agent_mapping ≡ none
      → get_expected_agents roles role ≡ err runtime_error
  unfolding get_expected_agents
  unknown_role roles role e = ground arith

  -- For a role that is known, `isExpected` returns true exactly if the name of the agent matches
  -- the role as a pattern, or nobody stands in the role yet, or the name matches that of one who
  -- does, with every pattern valid. For an unknown role it throws std::runtime_error where the name
  -- does not match the role.
  pub is_expected_iff :
      (roles : RoleMapping) (role : Role) (a : AgentId)
      → ((agents : List AgentId)
          → find role roles.expected_agent_mapping ≡ some agents
          → (is_expected regex_match roles role a ≡ ok true) ↔ IsExpected agents role a)
        × (find role roles.expected_agent_mapping ≡ none
            → regex_match (get_name a) role ≡ ok false
            → is_expected regex_match roles role a ≡ err runtime_error)
  unfolding is_expected
  is_expected_iff roles role a = (
    λ agents known. (
      λ h. elim (Result-cases (regex_match (get_name a) role)) [
        | inr (x, e) ↦ absurd (ground arith)
        | inl (true, e) ↦ inl e
        | inl (false, e) ↦
            inr (e, (expected_among_iff agents a).0 (sym (of_known agents known e) ∙ h))
      ],
      λ h. elim h [
        | inl m ↦ is_expected_by_role roles role a m
        | inr (e, k) ↦ of_known agents known e ∙ (expected_among_iff agents a).1 k
      ],
    ),
    λ unknown e.
        is_expected_by_role roles role a e
        ∙ ap (λ r. r >>= λ agents. expected_among regex_match agents a)
            (unknown_role roles role unknown),
  )
    where
      of_known :
          (agents : List AgentId)
          → find role roles.expected_agent_mapping ≡ some agents
          → regex_match (get_name a) role ≡ ok false
          → is_expected regex_match roles role a ≡ expected_among regex_match agents a
      of_known agents known e =
          is_expected_by_role roles role a e
          ∙ ap (λ r. r >>= λ agents. expected_among regex_match agents a)
              (known_agents roles role known)
