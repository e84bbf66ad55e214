-- ===== src/Redis.antt =====
-- What the code relies on of Redis and its client (neither is in the repository): strings with a
-- time to live, counters and one geographic set. Every command is atomic and takes the server's
-- time. `entry` is what a key holds, with the time at which it lapses, for the laws alone.
-- The points are those that Redis takes, up to 85.05112878 degrees of latitude, and their rounding
-- to its grid is left out. A key is the text that the code formats; the model keeps its parts.
use ride_flow.Prelude.{
  ℕ, suc, ◌+◌, ◌≤◌, Bool, true, false, List, [], ◌∷◌, Option, none, some, String, ◌≡◌, ◌↔◌, ◌&&◌,
  All, length, ltb, nat_eq, string_eq, ◌==◌, Eq, if◌then◌else◌, arith, eq_iff,
}
use ride_flow.Models.{Uuid, Float}

-- `driver:reservation:{driver_id}` and `ratelimit:{client_ip}:{window}`.
pub data Key : Type 0 where
  reservation : Uuid → Key
  ratelimit : String → ℕ → Key

abbrev pub key_eqb : Key → Key → Bool
key_eqb (reservation d) (reservation e) = d == e
key_eqb (ratelimit ip w) (ratelimit jp v) = ip == jp && w == v
key_eqb _ _ = false

pub key_eqb_iff : (a b : Key) → (key_eqb a b ≡ true) ↔ (a ≡ b)
key_eqb_iff (reservation d) (reservation e) = (λ h. ground arith, λ h. ground arith)
key_eqb_iff (reservation d) (ratelimit ip w) = (λ h. cc, λ h. cc)
key_eqb_iff (ratelimit ip w) (reservation e) = (λ h. cc, λ h. cc)
key_eqb_iff (ratelimit ip w) (ratelimit jp v) =
    (λ h. ground (arith, eq_iff ip jp), λ h. ground (arith, eq_iff ip jp))

instance abbrev pub key_eq : Eq Key
key_eq = record { test = key_eqb; decides = key_eqb_iff }

-- A value with the time at which it lapses, if it does.
abbrev pub Entry : Type 0
Entry = ℕ × Option ℕ

-- What a key is worth at a time.
abbrev pub alive : ℕ → Option Entry → Option ℕ
alive now none = none
alive now (some (v, none)) = some v
alive now (some (v, some lapse)) = if ltb now lapse then some v else none

abbrev pub is_none {ℓ} : {A : Type ℓ} → Option A → Bool
is_none none = true
is_none (some _) = false

-- What `INCR` leaves: a live counter keeps its lapse, and a new one has none.
abbrev pub bumped : ℕ → Option Entry → Entry
bumped now e = elim (alive now e) [
  | none ↦ (1, none)
  | some v ↦ (suc v, elim e [ none ↦ none | some x ↦ x.1 ])
]

-- A longitude and a latitude.
abbrev pub Point : Type 0
Point = Float × Float

-- No member stands behind one that is farther away.
abbrev pub AreNearestFirst : (Uuid → Option Point) → (Point → Point → Bool) → List Uuid → Type 0
AreNearestFirst position is_nearer [] = Unit
AreNearestFirst position is_nearer (d ∷ ds) =
    All (λ e. (p q : Point) → position d ≡ some p → position e ≡ some q → is_nearer p q ≡ true) ds
    × AreNearestFirst position is_nearer ds

pub record Redis : Type 1 where
  pub Strings : Type 0
  pub Geo : Type 0
  pub entry : Strings → Key → Option Entry
  -- `GET`
  pub get : ℕ → Key → Strings → Option ℕ
  -- `SET key value NX EX ttl`
  pub set_nx_ex : ℕ → Key → ℕ → ℕ → Strings → Bool × Strings
  -- `DEL`
  pub delete : ℕ → Key → Strings → Strings
  -- `INCR`
  pub incr : ℕ → Key → Strings → ℕ × Strings
  -- `EXPIRE`
  pub expire : ℕ → Key → ℕ → Strings → Strings
  pub get-entry : (now : ℕ) (k : Key) (s : Strings) → get now k s ≡ alive now (entry s k)
  pub set_nx_ex-done :
      (now : ℕ) (k : Key) (v ttl : ℕ) (s : Strings)
      → (set_nx_ex now k v ttl s).0 ≡ is_none (get now k s)
  pub entry-set_nx_ex :
      (now : ℕ) (k : Key) (v ttl : ℕ) (s : Strings) (j : Key)
      → entry (set_nx_ex now k v ttl s).1 j
        ≡ (if is_none (get now k s) && key_eqb j k then some (v, some (now + ttl)) else entry s j)
  pub entry-delete :
      (now : ℕ) (k : Key) (s : Strings) (j : Key)
      → entry (delete now k s) j ≡ (if key_eqb j k then none else entry s j)
  pub incr-entry : (now : ℕ) (k : Key) (s : Strings) → (incr now k s).0 ≡ (bumped now (entry s k)).0
  pub entry-incr :
      (now : ℕ) (k : Key) (s : Strings) (j : Key)
      → entry (incr now k s).1 j
        ≡ (if key_eqb j k then some (bumped now (entry s k)) else entry s j)
  pub entry-expire :
      (now : ℕ) (k : Key) (ttl : ℕ) (s : Strings) (j : Key)
      → entry (expire now k ttl s) j ≡ (
          if key_eqb j k
          then elim (get now k s) [ none ↦ entry s k | some v ↦ some (v, some (now + ttl)) ]
          else entry s j)
  pub position : Geo → Uuid → Option (Float × Float)
  -- `GEOADD`, longitude first
  pub geoadd : Float → Float → Uuid → Geo → Geo
  -- `ZREM`
  pub zrem : Uuid → Geo → Geo
  -- `GEOSEARCH` around a point (longitude, latitude) in a radius of so many kilometres, nearest
  -- first, at most `count` members
  pub geosearch : Float → Float → Float → ℕ → Geo → List Uuid
  -- the great-circle distance of two points is at most so many kilometres
  pub is_within : Float → Point → Point → Bool
  -- the second point is not farther from the first than the third is
  pub is_nearer : Point → Point → Point → Bool
  pub position-geoadd :
      (lng lat : Float) (d : Uuid) (g : Geo) (e : Uuid)
      → position (geoadd lng lat d g) e ≡ (if e == d then some (lng, lat) else position g e)
  pub position-zrem :
      (d : Uuid) (g : Geo) (e : Uuid)
      → position (zrem d g) e ≡ (if e == d then none else position g e)
  pub geosearch-within :
      (lng lat radius : Float) (count : ℕ) (g : Geo)
      → All
          (λ d. (p : Point) × (position g d ≡ some p) × (is_within radius (lng, lat) p ≡ true))
          (geosearch lng lat radius count g)
  pub geosearch-nearest :
      (lng lat radius : Float) (count : ℕ) (g : Geo)
      → AreNearestFirst (position g) (is_nearer (lng, lat)) (geosearch lng lat radius count g)
  pub geosearch-count :
      (lng lat radius : Float) (count : ℕ) (g : Geo)
      → length (geosearch lng lat radius count g) ≤ count
