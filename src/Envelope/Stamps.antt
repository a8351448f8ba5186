-- ===== src/Envelope/Stamps.antt =====
-- Stamps and dedicated letters: what a transport service adds to a letter and reads from it.
use multiagent_fipa_acl.Envelope.Formats.{Transport}
use multiagent_fipa_acl.Words.{is_illegal_word}
use multiagent_fipa_acl.Base.{
  if◌then◌else◌, Bool-cases, ◌==◌, nat_eq, Text, text_eq, any_of-append, Result, ◌>>=◌,
  runtime_error, ok, err, ℕ, ◌≡◌, refl, ap, ap₂, ◌∙◌, ◌≢◌, ◌⊎◌, inl, inr, Bool, true, false, ◌||◌,
  none, some, List, [], ◌∷◌, ◌++◌, append-nil, arith,
}
use multiagent_fipa_acl.Agent.{AgentId, agent_id, nil, new_agent_id, get_name}
use multiagent_fipa_acl.Envelope.{
  no_received_object, has_received_object, empty_envelope, ParameterId, with_flag,
  set_intended_receivers, set_received_object, merge, contains, flatten, BaseEnvelope,
  ReceivedObject, received_object, intended_receivers,
}
use multiagent_fipa_acl.Envelope.Merging.{or_else, value, said, merge_lem}
use multiagent_fipa_acl.Envelope.Letter.{
  get_delivery_path, create_dedicated_envelope, has_stamp, add_extra_envelope, flattened, Letter,
  hops, stamp,
}

flatten-snoc :
    (es : List BaseEnvelope) (e x : BaseEnvelope)
    → flatten e (es ++ x ∷ []) ≡ merge (flatten e es) x
unfolding flatten
flatten-snoc [] e x = refl
flatten-snoc (y ∷ es) e x = flatten-snoc es (merge e y) x

-- An envelope with one parameter set says nothing of another one.
stamped_only :
    (p : ParameterId) (r : ReceivedObject)
    → (p ≡ received_object) ⊎ (contains (set_received_object empty_envelope r) p ≡ false)
unfolding contains set_received_object with_flag
stamped_only received_object r = inl refl
stamped_only _ r = inr refl

dedicated_only :
    (p : ParameterId) (v : List AgentId)
    → (p ≡ intended_receivers) ⊎ (contains (set_intended_receivers empty_envelope v) p ≡ false)
unfolding contains set_intended_receivers with_flag
dedicated_only intended_receivers v = inl refl
dedicated_only _ v = inr refl

said-added_all :
    (p : ParameterId) (l : Letter) (x : BaseEnvelope)
    → said p (flattened (add_extra_envelope l x)) ≡ or_else (said p x) (said p (flattened l))
unfolding flattened add_extra_envelope
said-added_all p l x =
    ap (said p) (flatten-snoc l.extra_envelopes l.base_envelope x)
    ∙ (merge_lem p (flatten l.base_envelope l.extra_envelopes) x).1

-- What an added envelope does not contain, the letter says as before.
said-added :
    (p : ParameterId) (l : Letter) (x : BaseEnvelope)
    → contains x p ≡ false
    → said p (flattened (add_extra_envelope l x)) ≡ said p (flattened l)
unfolding said
said-added p l x h =
    said-added_all p l x
    ∙ ap (λ b. or_else (if b then some (value p x) else none) (said p (flattened l))) h

-- Two parts of a path, one after the other: the first error ends the run.
abbrev in_turn : Result (List AgentId) → Result (List AgentId) → Result (List AgentId)
in_turn (ok path) (ok more) = ok (path ++ more)
in_turn (ok path) (err e) = err e
in_turn (err e) more = err e

in_turn-step :
    (b : Bool) (hop : Result AgentId) (path more : Result (List AgentId))
    → (if b then (hop >>= λ a. in_turn path more >>= λ rest. ok (a ∷ rest)) else in_turn path more)
      ≡ in_turn (if b then (hop >>= λ a. path >>= λ rest. ok (a ∷ rest)) else path) more
in_turn-step false hop path more = refl
in_turn-step true (err e) path more = refl
in_turn-step true (ok a) (err e) more = refl
in_turn-step true (ok a) (ok path) (err e) = refl
in_turn-step true (ok a) (ok path) (ok more) = refl

in_turn-nil : (more : Result (List AgentId)) → more ≡ in_turn (ok []) more
in_turn-nil (ok more) = refl
in_turn-nil (err e) = refl

hops-append :
    (es : List BaseEnvelope) (x : BaseEnvelope)
    → hops (es ++ x ∷ []) ≡ in_turn (hops es) (hops (x ∷ []))
unfolding hops
hops-append [] x = in_turn-nil (hops (x ∷ []))
hops-append (e ∷ es) x =
    ap
      (λ r.
        if contains e received_object
        then (new_agent_id e.received_object.by >>= λ a. r >>= λ rest. ok (a ∷ rest))
        else r)
      (hops-append es x)
    ∙ in_turn-step (contains e received_object) (new_agent_id e.received_object.by) (hops es)
        (hops (x ∷ []))

has_stamp-added :
    (l : Letter) (x : BaseEnvelope) (b : AgentId)
    → has_stamp (add_extra_envelope l x) b ≡ (
        has_stamp l b
        || (has_received_object x (record no_received_object { by = get_name b }) || false))
unfolding has_stamp add_extra_envelope
has_stamp-added l x b = any_of-append _ l.extra_envelopes (x ∷ [])

path-added :
    (l : Letter) (x : BaseEnvelope)
    → get_delivery_path (add_extra_envelope l x) ≡ in_turn (get_delivery_path l) (hops (x ∷ []))
unfolding get_delivery_path add_extra_envelope
path-added l x = hops-append (l.base_envelope ∷ l.extra_envelopes) x

stamped_by :
    (r s : ReceivedObject)
    → has_received_object (set_received_object empty_envelope r) s ≡ (s.by == r.by)
unfolding has_received_object contains set_received_object with_flag
stamped_by r s = refl

hop_of_stamp :
    (r : ReceivedObject)
    → hops (set_received_object empty_envelope r ∷ [])
      ≡ (new_agent_id r.by >>= λ hop. ok (hop ∷ []))
unfolding hops contains set_received_object with_flag
hop_of_stamp r = refl

hop_or_error :
    (name : Text) (path : List AgentId)
    → in_turn (ok path) (new_agent_id name >>= λ hop. ok (hop ∷ [])) ≡ (
        if is_illegal_word name
        then err runtime_error
        else ok (path ++ agent_id name [] nil [] ∷ []))
unfolding new_agent_id
hop_or_error name path = elim (Bool-cases (is_illegal_word name)) [
  | inl t ↦ rw t refl
  | inr f ↦ rw f refl
]

no_hop_of_dedicated :
    (v : List AgentId) → hops (set_intended_receivers empty_envelope v ∷ []) ≡ ok []
unfolding hops contains set_intended_receivers with_flag
no_hop_of_dedicated v = refl

no_stamp_of_dedicated :
    (v : List AgentId) (s : ReceivedObject)
    → has_received_object (set_intended_receivers empty_envelope v) s ≡ false
unfolding has_received_object contains set_intended_receivers with_flag
no_stamp_of_dedicated v s = refl

in_turn-ok_nil : (path : Result (List AgentId)) → in_turn path (ok []) ≡ path
in_turn-ok_nil (ok path) = ap ok (append-nil path)
in_turn-ok_nil (err e) = refl

-- The delivery path of a letter that its agent `a` has stamped last.
stamped_path :
    (l : Letter) (r : ReceivedObject) (path : List AgentId)
    → get_delivery_path l ≡ ok path
    → get_delivery_path (add_extra_envelope l (set_received_object empty_envelope r)) ≡ (
        if is_illegal_word r.by
        then err runtime_error
        else ok (path ++ agent_id r.by [] nil [] ∷ []))
stamped_path l r path h = path-added l _ ∙ ap₂ in_turn h (hop_of_stamp r) ∙ hop_or_error r.by path

said_dedicated :
    (v : List AgentId) → said intended_receivers (set_intended_receivers empty_envelope v) ≡ some v
unfolding said contains set_intended_receivers with_flag
said_dedicated v = refl

-- A stamp adds the agent to those that have stamped the letter, leaves the payload and what the
-- letter says of every parameter but the received object, and where the letter has a delivery
-- path, puts the agent's name at its end; if the name is an illegal word, the path can no longer
-- be had.
pub stamp_lem :
    (t : Transport) (counter : ℕ) (l : Letter) (a : AgentId)
    → ((b : AgentId)
        → has_stamp (stamp t counter l a).1 b ≡ (has_stamp l b || get_name b == get_name a))
      × ((stamp t counter l a).1.payload ≡ l.payload)
      × ((p : ParameterId)
          → p ≢ received_object
          → said p (flattened (stamp t counter l a).1) ≡ said p (flattened l))
      × ((path : List AgentId)
          → get_delivery_path l ≡ ok path
          → get_delivery_path (stamp t counter l a).1 ≡ (
              if is_illegal_word (get_name a)
              then err runtime_error
              else ok (path ++ agent_id (get_name a) [] nil [] ∷ [])))
unfolding stamp
stamp_lem t counter l a = (
  λ b.
      has_stamp-added l _ b
      ∙ ap (λ s. has_stamp l b || (s || false)) (stamped_by _ _)
      ∙ ground arith,
  refl,
  λ p ne. said-added p l _ (elim (stamped_only p _) [ inl e ↦ absurd (ne e) | inr h ↦ h ]),
  λ path h. stamped_path l _ path h,
)

-- A dedicated letter goes to the receiver alone: that is what it says of the intended receivers.
-- What it says of any other parameter, its payload, the stamps and the delivery path are those of
-- the letter.
pub create_dedicated_envelope_lem :
    (l : Letter) (a : AgentId)
    → (said intended_receivers (flattened (create_dedicated_envelope l a)) ≡ some (a ∷ []))
      × ((create_dedicated_envelope l a).payload ≡ l.payload)
      × ((p : ParameterId)
          → p ≢ intended_receivers
          → said p (flattened (create_dedicated_envelope l a)) ≡ said p (flattened l))
      × ((b : AgentId) → has_stamp (create_dedicated_envelope l a) b ≡ has_stamp l b)
      × (get_delivery_path (create_dedicated_envelope l a) ≡ get_delivery_path l)
unfolding create_dedicated_envelope
create_dedicated_envelope_lem l a = (
  said-added_all intended_receivers l _
      ∙ ap (λ o. or_else o (said intended_receivers (flattened l))) (said_dedicated (a ∷ [])),
  refl,
  λ p ne. said-added p l _ (elim (dedicated_only p _) [ inl e ↦ absurd (ne e) | inr h ↦ h ]),
  λ b.
      has_stamp-added l _ b
      ∙ ap (λ s. has_stamp l b || (s || false)) (no_stamp_of_dedicated _ _)
      ∙ ground arith,
  path-added l _
      ∙ ap (in_turn (get_delivery_path l)) (no_hop_of_dedicated (a ∷ []))
      ∙ in_turn-ok_nil (get_delivery_path l),
)
