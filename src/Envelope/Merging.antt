-- ===== src/Envelope/Merging.antt =====
-- `ACLBaseEnvelope::merge` and `ACLBaseEnvelope::flatten`: which parameters the result contains,
-- and with which values.
use Prim.Native.Nat.{bit_and}
use multiagent_fipa_acl.Base.{
  nat_beq, if◌then◌else◌, nat_beq_iff, nat_eq, Text, text_eq, any_of, ℕ, ◌≡◌, refl, ap, ◌∙◌, Bool,
  true, false, not, ◌&&◌, ◌||◌, Option, none, some, List, [], ◌∷◌, arith,
}
use multiagent_fipa_acl.Base.Bits.{bit_and-or}
use multiagent_fipa_acl.Agent.{AgentId, UserdefParam}
use multiagent_fipa_acl.Envelope.{
  merge, flatten, merge_parameters, parameter_ids, to, from, comments, acl_representation,
  payload_length, payload_encoding, date, intended_receivers, received_object, transport_behaviour,
  userdefined_parameters, set_from, set_comments, set_acl_representation, set_payload_length,
  set_payload_encoding, set_date, set_intended_receivers, set_received_object,
  set_transport_behaviour, set_userdefined_parameters, with_flag, Representation, ReceivedObject,
  ParameterId, BaseEnvelope, contains, merge_parameter, mask, set_to,
}

-- The type of a parameter, and its value in an envelope.
abbrev pub Value : ParameterId → Type 0
Value to = List AgentId
Value from = AgentId
Value comments = Text
Value acl_representation = Representation
Value payload_length = ℕ
Value payload_encoding = Text
Value date = ℕ
Value intended_receivers = List AgentId
Value received_object = ReceivedObject
Value transport_behaviour = Text
Value userdefined_parameters = List UserdefParam

abbrev pub value : (p : ParameterId) → BaseEnvelope → Value p
value to e = e.to
value from e = e.from
value comments e = e.comments
value acl_representation e = e.acl_representation
value payload_length e = e.payload_length
value payload_encoding e = e.payload_encoding
value date e = e.date
value intended_receivers e = e.intended_receivers
value received_object e = e.received_object
value transport_behaviour e = e.transport_behaviour
value userdefined_parameters e = e.userdefined_parameters

abbrev pub same_id : ParameterId → ParameterId → Bool
same_id p q = nat_beq (mask q) (mask p)

-- Reading one field of an envelope that was set under a condition.
read_set :
    {A : Type 0} (f : BaseEnvelope → A) (b : Bool) (x e : BaseEnvelope)
    → f (if b then x else e) ≡ (if b then f x else f e)
read_set f true x e = refl
read_set f false x e = refl

read_kept :
    {A : Type 0} (f : BaseEnvelope → A) (b : Bool) {x e : BaseEnvelope}
    → f x ≡ f e
    → f (if b then x else e) ≡ f e
read_kept f true h = h
read_kept f false h = refl

value-merge_parameter :
    (q p : ParameterId) (other e : BaseEnvelope)
    → value p (merge_parameter other q e)
      ≡ (if same_id p q && contains other p then value p other else value p e)
unfolding merge_parameter set_to set_from set_comments set_acl_representation set_payload_length
    set_payload_encoding set_date set_intended_receivers set_received_object set_transport_behaviour
    set_userdefined_parameters with_flag
value-merge_parameter to to other e = read_set (value to) (contains other to) _ e
value-merge_parameter to p other e = read_kept (value p) (contains other to) refl
value-merge_parameter from from other e = read_set (value from) (contains other from) _ e
value-merge_parameter from p other e = read_kept (value p) (contains other from) refl
value-merge_parameter comments comments other e =
    read_set (value comments) (contains other comments) _ e
value-merge_parameter comments p other e = read_kept (value p) (contains other comments) refl
value-merge_parameter acl_representation acl_representation other e =
    read_set (value acl_representation) (contains other acl_representation) _ e
value-merge_parameter acl_representation p other e =
    read_kept (value p) (contains other acl_representation) refl
value-merge_parameter payload_length payload_length other e =
    read_set (value payload_length) (contains other payload_length) _ e
value-merge_parameter payload_length p other e =
    read_kept (value p) (contains other payload_length) refl
value-merge_parameter payload_encoding payload_encoding other e =
    read_set (value payload_encoding) (contains other payload_encoding) _ e
value-merge_parameter payload_encoding p other e =
    read_kept (value p) (contains other payload_encoding) refl
value-merge_parameter date date other e = read_set (value date) (contains other date) _ e
value-merge_parameter date p other e = read_kept (value p) (contains other date) refl
value-merge_parameter intended_receivers intended_receivers other e =
    read_set (value intended_receivers) (contains other intended_receivers) _ e
value-merge_parameter intended_receivers p other e =
    read_kept (value p) (contains other intended_receivers) refl
value-merge_parameter received_object received_object other e =
    read_set (value received_object) (contains other received_object) _ e
value-merge_parameter received_object p other e =
    read_kept (value p) (contains other received_object) refl
value-merge_parameter transport_behaviour transport_behaviour other e =
    read_set (value transport_behaviour) (contains other transport_behaviour) _ e
value-merge_parameter transport_behaviour p other e =
    read_kept (value p) (contains other transport_behaviour) refl
value-merge_parameter userdefined_parameters userdefined_parameters other e =
    read_set (value userdefined_parameters) (contains other userdefined_parameters) _ e
value-merge_parameter userdefined_parameters p other e =
    read_kept (value p) (contains other userdefined_parameters) refl

-- A flag is found exactly where it was set.
mask_test : (q p : ParameterId) → not (nat_beq (bit_and (mask q) (mask p)) 0) ≡ same_id p q
mask_test to to = refl
mask_test to _ = refl
mask_test from to = refl
mask_test from _ = refl
mask_test comments to = refl
mask_test comments _ = refl
mask_test acl_representation to = refl
mask_test acl_representation _ = refl
mask_test payload_length to = refl
mask_test payload_length _ = refl
mask_test payload_encoding to = refl
mask_test payload_encoding _ = refl
mask_test date to = refl
mask_test date _ = refl
mask_test intended_receivers to = refl
mask_test intended_receivers _ = refl
mask_test received_object to = refl
mask_test received_object _ = refl
mask_test transport_behaviour to = refl
mask_test transport_behaviour _ = refl
mask_test userdefined_parameters to = refl
mask_test userdefined_parameters _ = refl

pub contains-with_flag :
    (q p : ParameterId) (e : BaseEnvelope)
    → contains (with_flag e q) p ≡ (contains e p || same_id p q)
unfolding contains with_flag
contains-with_flag q p e =
    bit_and-or e.parameters (mask q) (mask p) ∙ ap (λ b. contains e p || b) (mask_test q p)

contains-set :
    (q p : ParameterId) (b : Bool) (x e : BaseEnvelope)
    → x.parameters ≡ (with_flag e q).parameters
    → contains (if b then x else e) p ≡ (contains e p || (b && same_id p q))
unfolding contains
contains-set q p true x e h =
    ap (λ n. not (nat_beq (bit_and n (mask p)) 0)) h ∙ contains-with_flag q p e
contains-set q p false x e h = ground arith

contains-merge_parameter :
    (q p : ParameterId) (other e : BaseEnvelope)
    → contains (merge_parameter other q e) p ≡ (contains e p || (contains other q && same_id p q))
unfolding merge_parameter set_to set_from set_comments set_acl_representation set_payload_length
    set_payload_encoding set_date set_intended_receivers set_received_object set_transport_behaviour
    set_userdefined_parameters
contains-merge_parameter to p other e = contains-set to p (contains other to) _ e refl
contains-merge_parameter from p other e = contains-set from p (contains other from) _ e refl
contains-merge_parameter comments p other e =
    contains-set comments p (contains other comments) _ e refl
contains-merge_parameter acl_representation p other e =
    contains-set acl_representation p (contains other acl_representation) _ e refl
contains-merge_parameter payload_length p other e =
    contains-set payload_length p (contains other payload_length) _ e refl
contains-merge_parameter payload_encoding p other e =
    contains-set payload_encoding p (contains other payload_encoding) _ e refl
contains-merge_parameter date p other e = contains-set date p (contains other date) _ e refl
contains-merge_parameter intended_receivers p other e =
    contains-set intended_receivers p (contains other intended_receivers) _ e refl
contains-merge_parameter received_object p other e =
    contains-set received_object p (contains other received_object) _ e refl
contains-merge_parameter transport_behaviour p other e =
    contains-set transport_behaviour p (contains other transport_behaviour) _ e refl
contains-merge_parameter userdefined_parameters p other e =
    contains-set userdefined_parameters p (contains other userdefined_parameters) _ e refl

contains_same :
    (p q : ParameterId) (e : BaseEnvelope) → same_id p q ≡ true → contains e q ≡ contains e p
unfolding contains
contains_same p q e h =
    ap (λ n. not (nat_beq (bit_and e.parameters n) 0)) ((nat_beq_iff (mask q) (mask p)).0 h)

abbrev pub listed : ParameterId → List ParameterId → Bool
listed p ps = any_of (same_id p) ps

contains-merge_parameters :
    (ps : List ParameterId) (p : ParameterId) (other e : BaseEnvelope)
    → contains (merge_parameters other ps e) p ≡ (contains e p || (contains other p && listed p ps))
unfolding merge_parameters
contains-merge_parameters [] p other e = ground arith
contains-merge_parameters (q ∷ ps) p other e = ground (
  arith,
  contains-merge_parameters ps p other (merge_parameter other q e),
  contains-merge_parameter q p other e,
  contains_same p q other,
)

value-merge_parameters :
    (ps : List ParameterId) (p : ParameterId) (other e : BaseEnvelope)
    → value p (merge_parameters other ps e)
      ≡ (if listed p ps && contains other p then value p other else value p e)
unfolding merge_parameters
value-merge_parameters [] p other e = refl
value-merge_parameters (q ∷ ps) p other e = ground (
  arith,
  value-merge_parameters ps p other (merge_parameter other q e),
  value-merge_parameter q p other e,
)

all_listed : (p : ParameterId) → listed p parameter_ids ≡ true
all_listed to = refl
all_listed _ = refl

-- What an envelope says of a parameter: its value if the envelope contains it.
unfoldable pub said : (p : ParameterId) → BaseEnvelope → Option (Value p)
said p e = if contains e p then some (value p e) else none

-- The parameter is looked up in the first option, then in the second.
abbrev pub or_else {ℓ} : {A : Type ℓ} → Option A → Option A → Option A
or_else none o = o
or_else (some a) o = some a

said-merge_of :
    (p : ParameterId) (e other : BaseEnvelope)
    → contains (merge e other) p ≡ (contains e p || (contains other p && true))
    → value p (merge e other) ≡ (if contains other p then value p other else value p e)
    → said p (merge e other) ≡ or_else (said p other) (said p e)
unfolding said
said-merge_of p e other c v = ground (arith, c, v)

-- The merged envelope contains what either envelope contains, says what the other one says, and
-- where that says nothing, what this one says; the value of a parameter that the other one does
-- not contain stays.
pub merge_lem :
    (p : ParameterId) (e other : BaseEnvelope)
    → (contains (merge e other) p ≡ (contains e p || contains other p))
      × (said p (merge e other) ≡ or_else (said p other) (said p e))
      × (contains other p ≡ false → value p (merge e other) ≡ value p e)
unfolding merge said
merge_lem p e other =
    let c : contains (merge e other) p ≡ (contains e p || (contains other p && true)) =
      rw (all_listed p) at (contains-merge_parameters parameter_ids p other e) in
    let v : value p (merge e other) ≡ (if contains other p then value p other else value p e) =
      rw (all_listed p) at (value-merge_parameters parameter_ids p other e) in
    (ground (arith, c), said-merge_of p e other c v, ground (arith, v))

-- What the last of the envelopes that say something of the parameter says.
abbrev pub latest : (p : ParameterId) → List BaseEnvelope → Option (Value p)
latest p [] = none
latest p (e ∷ es) = or_else (latest p es) (said p e)

or_else_assoc {ℓ} :
    {A : Type ℓ} (a b c : Option A) → or_else a (or_else b c) ≡ or_else (or_else a b) c
or_else_assoc none b c = refl
or_else_assoc (some x) b c = refl

said-flatten :
    (p : ParameterId) (es : List BaseEnvelope) (e : BaseEnvelope)
    → said p (flatten e es) ≡ or_else (latest p es) (said p e)
unfolding flatten
said-flatten p [] e = refl
said-flatten p (x ∷ es) e =
    said-flatten p es (merge e x)
    ∙ ap (or_else (latest p es)) (merge_lem p e x).1
    ∙ or_else_assoc (latest p es) (said p x) (said p e)

-- The flattened envelope says of each parameter what the last envelope that contains the
-- parameter says, the base envelope being the first of them.
pub flatten-latest :
    (p : ParameterId) (e : BaseEnvelope) (es : List BaseEnvelope)
    → said p (flatten e es) ≡ latest p (e ∷ es)
flatten-latest p e es = said-flatten p es e
