-- ===== src/Monitor/Keys.antt =====
-- The table as a map: each id stands in it once.
use multiagent_fipa_acl.Base.{
  Bool-cases, list_beq_iff, ◌==◌, nat_eq, Text, text_eq, All, ℕ, ◌≡◌, refl, inl, inr, false, [],
  ◌∷◌, ◌++◌, arith,
}
use multiagent_fipa_acl.Base.Maps.{Map, has, erase}

-- No key stands in the map twice.
abbrev pub DistinctKeys : {V : Type 0} → Map Text V → Type 0
DistinctKeys [] = Unit {0}
DistinctKeys ((id, k) ∷ entries) = (has id entries ≡ false) × DistinctKeys entries

pub DistinctKeys-append :
    (entries : Map Text ℕ) (id : Text) (k : ℕ)
    → has id entries ≡ false
    → DistinctKeys entries
    → DistinctKeys (entries ++ (id, k) ∷ [])
unfolding has
DistinctKeys-append [] id k h d = (refl, tt)
DistinctKeys-append ((other, j) ∷ entries) id k h d = (
  has-append_other entries (ground (arith, list_beq_iff id other, list_beq_iff other id)) d.0,
  DistinctKeys-append entries id k (ground arith) d.1,
)
  where
    has-append_other :
        (entries : Map Text ℕ)
        → (id == other) ≡ false
        → has other entries ≡ false
        → has other (entries ++ (id, k) ∷ []) ≡ false
    has-append_other [] n h = rw n refl
    has-append_other ((i, v) ∷ entries) n h = ground (arith, has-append_other entries n)

pub erase-keys :
    (entries : Map Text ℕ) (id : Text)
    → DistinctKeys entries
    → DistinctKeys (erase id entries)
      × ((other : Text) → has other entries ≡ false → has other (erase id entries) ≡ false)
unfolding has erase
erase-keys [] id d = (tt, λ other h. h)
erase-keys ((j, v) ∷ entries) id d =
    let (keys, absent) = erase-keys entries id d.1 in
    elim (Bool-cases (j == id)) [
      | inl t ↦ rw t (keys, λ other h. absent other (ground arith))
      | inr f ↦ rw f ((absent j d.0, keys), λ other h. ground (arith, absent other))
    ]

pub All-erase :
    (P : Text × ℕ → Type 0) (entries : Map Text ℕ) (id : Text)
    → All P entries
    → All P (erase id entries)
unfolding erase
All-erase P [] id a = tt
All-erase P ((j, v) ∷ entries) id a = elim (Bool-cases (j == id)) [
  | inl t ↦ rw t (All-erase P entries id a.1)
  | inr f ↦ rw f (a.0, All-erase P entries id a.1)
]
