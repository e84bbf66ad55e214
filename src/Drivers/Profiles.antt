-- ===== src/Drivers/Profiles.antt =====
-- The rows of the profiles, under their two keys.
use ride_flow.Prelude.{
  true, false, ◌==◌, nat_eq, nat_eqb, nat_eqb_iff, if◌then◌else◌, List, [], ◌∷◌, none, some,
  find_by, IsKeyed, filterb, map_where, any, distinct, ◌≡◌, refl, sym, ap, ◌∙◌, arith, Bool-cases,
  inl, inr, some_inj,
}
use ride_flow.Models.{Uuid, DriverProfile}

abbrev pub id_of : DriverProfile → Uuid
id_of p = p.id

abbrev pub user_of : DriverProfile → Uuid
user_of p = p.user_id

-- `uq` of the user, as the session checks it.
pub distinct_users :
    (xs : List DriverProfile)
    → IsKeyed user_of xs
    → distinct (λ (a b : DriverProfile). a.user_id == b.user_id) xs ≡ true
distinct_users [] k = refl
distinct_users (x ∷ xs) k =
    let rest = distinct_users xs k.1 in let fresh = none_like x.user_id xs k.0 in ground arith
  where
    none_like :
        (u : Uuid) (ys : List DriverProfile)
        → find_by user_of u ys ≡ none
        → any (λ (b : DriverProfile). nat_eqb u b.user_id) ys ≡ false
    none_like u [] h = refl
    none_like u (y ∷ ys) h = ground (arith, none_like u ys)

-- A row that is found has another identifier than one that is not.
other_id :
    (u i : Uuid) (xs : List DriverProfile) (r : DriverProfile)
    → find_by user_of u xs ≡ some r
    → find_by id_of i xs ≡ none
    → nat_eqb r.id i ≡ false
other_id u i [] r found h = cc
other_id u i (x ∷ xs) r found h = ground (arith, other_id u i xs r)

abbrev set_row : DriverProfile → List DriverProfile → List DriverProfile
set_row q = map_where (λ (p : DriverProfile). nat_eqb p.id q.id) (λ _. q)

-- Without the identifier nothing is set.
set_none :
    (q : DriverProfile) (xs : List DriverProfile) → find_by id_of q.id xs ≡ none → set_row q xs ≡ xs
set_none q [] h = refl
set_none q (x ∷ xs) h = ground (arith, set_none q xs)

-- Setting the row of a user's profile.
pub find-set_row :
    (q r : DriverProfile) (j : Uuid) (xs : List DriverProfile)
    → IsKeyed id_of xs
    → find_by user_of q.user_id xs ≡ some r
    → r.id ≡ q.id
    → find_by user_of j (set_row q xs)
      ≡ (if nat_eqb j q.user_id then some q else find_by user_of j xs)
find-set_row q r j [] k found same = cc
find-set_row q r j (x ∷ xs) k found same = elim (Bool-cases (nat_eqb x.user_id q.user_id)) [
  | inl hit ↦
      let here : x ≡ r = some_inj (rw hit at found) in
      let id : x.id ≡ q.id = ap (λ (p : DriverProfile). p.id) here ∙ same in
      let rest = set_none q xs (ap (λ i. find_by id_of i xs) (sym id) ∙ k.0) in
      let at : nat_eqb x.id q.id ≡ true = (nat_eqb_iff x.id q.id).1 id in ground (arith, rest)
  | inr miss ↦
      let there : find_by user_of q.user_id xs ≡ some r = rw miss at found in
      let off = other_id q.user_id x.id xs r there k.0 in
      let rest = find-set_row q r j xs k.1 there same in ground (arith, rest)
]

set_row-id :
    (q : DriverProfile) (i : Uuid) (xs : List DriverProfile)
    → find_by id_of i xs ≡ none
    → find_by id_of i (set_row q xs) ≡ none
set_row-id q i [] h = refl
set_row-id q i (x ∷ xs) h = ground (arith, set_row-id q i xs)

set_row-key : (q x : DriverProfile) → (if nat_eqb x.id q.id then q else x).id ≡ x.id
set_row-key q x = ground arith

pub set_row-ids :
    (q : DriverProfile) (xs : List DriverProfile) → IsKeyed id_of xs → IsKeyed id_of (set_row q xs)
set_row-ids q [] k = tt
set_row-ids q (x ∷ xs) k = rw (set_row-key q x) (set_row-id q x.id xs k.0, set_row-ids q xs k.1)

pub set_row-users :
    (q r : DriverProfile) (xs : List DriverProfile)
    → IsKeyed id_of xs
    → IsKeyed user_of xs
    → find_by user_of q.user_id xs ≡ some r
    → r.id ≡ q.id
    → IsKeyed user_of (set_row q xs)
set_row-users q r [] k u found same = tt
set_row-users q r (x ∷ xs) k u found same = elim (Bool-cases (nat_eqb x.user_id q.user_id)) [
  | inl hit ↦
      let here : x ≡ r = some_inj (rw hit at found) in
      let id : x.id ≡ q.id = ap (λ (p : DriverProfile). p.id) here ∙ same in
      let rest = set_none q xs (ap (λ i. find_by id_of i xs) (sym id) ∙ k.0) in
      let place : nat_eqb x.id q.id ≡ true = (nat_eqb_iff x.id q.id).1 id in
      let user = (nat_eqb_iff x.user_id q.user_id).0 hit in
      rw (place, rest) (ap (λ i. find_by user_of i xs) (sym user) ∙ u.0, u.1)
  | inr miss ↦
      let there : find_by user_of q.user_id xs ≡ some r = rw miss at found in
      let off = other_id q.user_id x.id xs r there k.0 in
      let apart : nat_eqb x.id q.id ≡ false = ground (arith, off, same) in
      let rest = find-set_row q r x.user_id xs k.1 there same in
      rw apart (rest ∙ rw (miss, u.0) refl, set_row-users q r xs k.1 u.1 there same)
]

pub filter-none :
    (u : Uuid) (xs : List DriverProfile)
    → find_by user_of u xs ≡ none
    → filterb (λ (p : DriverProfile). nat_eqb p.user_id u) xs ≡ []
filter-none u [] h = refl
filter-none u (x ∷ xs) h = ground (arith, filter-none u xs)

pub filter-one :
    (u : Uuid) (xs : List DriverProfile) (r : DriverProfile)
    → IsKeyed user_of xs
    → find_by user_of u xs ≡ some r
    → filterb (λ (p : DriverProfile). nat_eqb p.user_id u) xs ≡ r ∷ []
filter-one u [] r k h = cc
filter-one u (x ∷ xs) r k h = elim (Bool-cases (nat_eqb x.user_id u)) [
  | inl hit ↦
      let here : x ≡ r = some_inj (rw hit at h) in
      let user = (nat_eqb_iff x.user_id u).0 hit in
      let rest = filter-none u xs (ap (λ i. find_by user_of i xs) (sym user) ∙ k.0) in
      rw (hit, rest) (ap (λ p. p ∷ []) here)
  | inr miss ↦ rw miss (filter-one u xs r k.1 (rw miss at h))
]
