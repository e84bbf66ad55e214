-- ===== src/Tests/Strings.antt =====
-- A Redis in a function from keys, with the positions in a list. Every position counts as near.
use ride_flow.Prelude.{
  true, All-map, Mem-All, Option-cases, ℕ, zero, suc, ◌+◌, ◌≤◌, ◌&&◌, ◌==◌, nat_eq, if◌then◌else◌,
  List, [], ◌∷◌, Option, none, some, All, take, length, ◌≡◌, ◌≢◌, refl, arith, inl, inr, Bool-cases,
}
use ride_flow.Models.{Uuid, Float}
use ride_flow.Redis.{Redis, Point, AreNearestFirst, Key, key_eqb, Entry, alive, is_none, bumped}

abbrev Positions : Type 0
Positions = List (Uuid × Float × Float)

abbrev position_in : Positions → Uuid → Option (Float × Float)
position_in [] e = none
position_in ((d, p, q) ∷ g) e = if e == d then some (p, q) else position_in g e

abbrev members : Positions → List Uuid
members [] = []
members ((d, p, q) ∷ g) = d ∷ members g

abbrev without : Uuid → Positions → Positions
without d [] = []
without d ((e, p, q) ∷ g) = if e == d then without d g else (e, p, q) ∷ without d g

pub position-without :
    (d : Uuid) (g : Positions) (e : Uuid)
    → position_in (without d g) e ≡ (if e == d then none else position_in g e)
position-without d [] e = ground arith
position-without d ((c, p, q) ∷ g) e = ground (arith, position-without d g e)

pub position-moved :
    (lng lat : Float) (d : Uuid) (g : Positions) (e : Uuid)
    → position_in ((d, lng, lat) ∷ without d g) e
      ≡ (if e == d then some (lng, lat) else position_in g e)
position-moved lng lat d g e = let rest = position-without d g e in ground arith

still_known :
    (d p q : ℕ) (g : Positions) (es : List Uuid)
    → All (λ e. position_in g e ≢ none) es
    → All (λ e. position_in ((d, p, q) ∷ g) e ≢ none) es
still_known d p q g [] h = tt
still_known d p q g (e ∷ es) h = (known_step, still_known d p q g es h.1)
  where
    known_step : position_in ((d, p, q) ∷ g) e ≢ none
    known_step unknown = elim (Bool-cases (e == d)) [
      | inl same ↦ ground arith
      | inr other ↦ h.0 (rw other at unknown)
    ]

pub members-known : (g : Positions) → All (λ e. position_in g e ≢ none) (members g)
members-known [] = tt
members-known ((d, p, q) ∷ g) =
    (λ unknown. ground arith, still_known d p q g (members g) (members-known g))

pub take-All : (P : Uuid → Type 0) (n : ℕ) (xs : List Uuid) → All P xs → All P (take n xs)
take-All P zero xs h = tt
take-All P (suc n) [] h = tt
take-All P (suc n) (x ∷ xs) h = (h.0, take-All P n xs h.1)

pub length-take : (n : ℕ) (xs : List Uuid) → length (take n xs) ≤ n
length-take zero xs = omega arith
length-take (suc n) [] = omega arith
length-take (suc n) (x ∷ xs) = let rest = length-take n xs in omega arith

pub placed :
    (g : Positions) (ds : List Uuid)
    → All (λ d. position_in g d ≢ none) ds
    → All (λ d. (p : Point) × (position_in g d ≡ some p) × (true ≡ true)) ds
placed g = All-map (λ d known. elim (Option-cases (position_in g d)) [
  | inl off ↦ absurd (known off)
  | inr (p, on) ↦ (p, on, refl)
])

pub all_near : (at : Uuid → Option Point) (ds : List Uuid) → AreNearestFirst at (λ p q. true) ds
all_near at [] = tt
all_near at (d ∷ ds) = (Mem-All ds (λ e _ p q _ _. refl), all_near at ds)

instance abbrev pub map_redis : Redis
map_redis = record {
  Strings = Key → Option Entry;
  Geo = Positions;
  entry = λ s k. s k;
  get = λ now k s. alive now (s k);
  set_nx_ex = λ now k v ttl s. (
    is_none (alive now (s k)),
    λ j. if is_none (alive now (s k)) && key_eqb j k then some (v, some (now + ttl)) else s j,
  );
  delete = λ now k s j. if key_eqb j k then none else s j;
  incr =
      λ now k s. ((bumped now (s k)).0, λ j. if key_eqb j k then some (bumped now (s k)) else s j);
  expire = λ now k ttl s j.
      if key_eqb j k
      then elim (alive now (s k)) [ none ↦ s k | some v ↦ some (v, some (now + ttl)) ]
      else s j;
  get-entry = λ now k s. refl;
  set_nx_ex-done = λ now k v ttl s. refl;
  entry-set_nx_ex = λ now k v ttl s j. refl;
  entry-delete = λ now k s j. refl;
  incr-entry = λ now k s. refl;
  entry-incr = λ now k s j. refl;
  entry-expire = λ now k ttl s j. refl;
  position = position_in;
  geoadd = λ lng lat d g. (d, lng, lat) ∷ without d g;
  zrem = without;
  geosearch = λ lng lat radius count g. take count (members g);
  position-geoadd = position-moved;
  position-zrem = position-without;
  is_within = λ radius p q. true;
  is_nearer = λ c p q. true;
  geosearch-within = λ lng lat radius count g.
      placed g (take count (members g))
        (take-All (λ d. position_in g d ≢ none) count (members g) (members-known g));
  geosearch-nearest = λ lng lat radius count g. all_near (position_in g) (take count (members g));
  geosearch-count = λ lng lat radius count g. length-take count (members g);
}
