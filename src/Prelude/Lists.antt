-- ===== src/Prelude/Lists.antt =====
-- Lists as the tables use them: filtering by a Boolean test, first match, counting.
use Prim.Native.Nat.{ℕ, zero, suc, ◌+◌}
use mathlib.Core.Path.{◌≡◌, refl}
use mathlib.Core.Bool.{Bool, true, false, not, ◌&&◌, ◌||◌}
use mathlib.Core.Option.{Option, none, some}
use mathlib.Core.List.{List, [], ◌∷◌, ◌++◌}
use native.Mathlib.Omega.{arith}
use ride_flow.Prelude.Tests.{if◌then◌else◌}

module _ {ℓ} {A : Type ℓ} where
  abbrev pub length : List A → ℕ
  length [] = 0
  length (x ∷ xs) = suc (length xs)

  abbrev pub take : ℕ → List A → List A
  take zero xs = []
  take (suc n) [] = []
  take (suc n) (x ∷ xs) = x ∷ take n xs

  -- The rows that meet a condition.
  abbrev pub filterb : (A → Bool) → List A → List A
  filterb p [] = []
  filterb p (x ∷ xs) = if p x then x ∷ filterb p xs else filterb p xs

  -- The first row that meets a condition.
  abbrev pub find : (A → Bool) → List A → Option A
  find p [] = none
  find p (x ∷ xs) = if p x then some x else find p xs

  -- How many rows meet a condition.
  abbrev pub countb : (A → Bool) → List A → ℕ
  countb p [] = 0
  countb p (x ∷ xs) = if p x then suc (countb p xs) else countb p xs

  abbrev pub any : (A → Bool) → List A → Bool
  any p [] = false
  any p (x ∷ xs) = p x || any p xs

  -- Change the rows that meet a condition.
  abbrev pub map_where : (A → Bool) → (A → A) → List A → List A
  map_where p f [] = []
  map_where p f (x ∷ xs) = (if p x then f x else x) ∷ map_where p f xs

  -- No two rows are in the relation.
  abbrev pub distinct : (A → A → Bool) → List A → Bool
  distinct eq [] = true
  distinct eq (x ∷ xs) = not (any (eq x) xs) && distinct eq xs

  -- A predicate on every row.
  abbrev pub All {κ} : (A → Type κ) → List A → Type κ
  All P [] = Unit
  All P (x ∷ xs) = P x × All P xs

  pub length-append : (xs ys : List A) → length (xs ++ ys) ≡ length xs + length ys
  length-append [] ys = omega arith
  length-append (x ∷ xs) ys = omega (arith, length-append xs ys)

  pub countb-append :
      (p : A → Bool) (xs ys : List A) → countb p (xs ++ ys) ≡ countb p xs + countb p ys
  countb-append p [] ys = omega arith
  countb-append p (x ∷ xs) ys = ground (arith, countb-append p xs ys)

  pub find-append :
      (p : A → Bool) (xs ys : List A) (x : A) → find p xs ≡ some x → find p (xs ++ ys) ≡ some x
  find-append p [] ys x h = cc
  find-append p (y ∷ xs) ys x h = ground (arith, find-append p xs ys x)

  pub find-append_none :
      (p : A → Bool) (xs ys : List A) → find p xs ≡ none → find p (xs ++ ys) ≡ find p ys
  find-append_none p [] ys h = refl
  find-append_none p (y ∷ xs) ys h = ground (arith, find-append_none p xs ys)

  pub filterb-append :
      (p : A → Bool) (xs ys : List A) → filterb p (xs ++ ys) ≡ filterb p xs ++ filterb p ys
  filterb-append p [] ys = refl
  filterb-append p (x ∷ xs) ys = ground (arith, filterb-append p xs ys)

  -- The row that is found meets the condition.
  pub find_meets : (p : A → Bool) (xs : List A) (x : A) → find p xs ≡ some x → p x ≡ true
  find_meets p [] x h = cc
  find_meets p (y ∷ xs) x h = ground (arith, find_meets p xs x)

  -- A statement that meets no row changes nothing.
  pub map_where_none :
      (p : A → Bool) (f : A → A) (xs : List A) → filterb p xs ≡ [] → map_where p f xs ≡ xs
  map_where_none p f [] h = refl
  map_where_none p f (x ∷ xs) h = ground (arith, map_where_none p f xs)

  pub any-append : (p : A → Bool) (xs ys : List A) → any p (xs ++ ys) ≡ (any p xs || any p ys)
  any-append p [] ys = refl
  any-append p (x ∷ xs) ys = ground (arith, any-append p xs ys)

  -- A new row that no row is in the relation to.
  pub distinct-add :
      (eq : A → A → Bool) (xs : List A) (r : A)
      → distinct eq xs ≡ true
      → filterb (λ x. eq x r) xs ≡ []
      → distinct eq (xs ++ (r ∷ [])) ≡ true
  distinct-add eq [] r h fresh = refl
  distinct-add eq (x ∷ xs) r h fresh =
      ground (arith, any-append (eq x) xs (r ∷ []), distinct-add eq xs r)

  -- A change that keeps a condition, under the condition.
  pub filterb-map_where :
      (p q : A → Bool) (f : A → A) (same : (x : A) → p (f x) ≡ p x) (xs : List A)
      → filterb p (map_where q f xs) ≡ map_where q f (filterb p xs)
  filterb-map_where p q f same [] = refl
  filterb-map_where p q f same (x ∷ xs) = ground (arith, same x, filterb-map_where p q f same xs)
