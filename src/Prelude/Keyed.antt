-- ===== src/Prelude/Keyed.antt =====
-- Rows under a primary key: lookup by the key, and how the statements of SQL act on it.
use Prim.Native.Nat.{ℕ}
use mathlib.Core.Path.{◌≡◌, refl}
use mathlib.Core.Bool.{Bool, ◌&&◌}
use mathlib.Core.Option.{Option, none, some}
use mathlib.Core.List.{List, [], ◌∷◌, ◌++◌}
use native.Mathlib.Omega.{arith}
use ride_flow.Prelude.Tests.{nat_eqb, if◌then◌else◌}
use ride_flow.Prelude.Lists.{filterb, find, map_where, find-append_none}

module _ {A : Type 0} (key : A → ℕ) where
  abbrev pub find_by : ℕ → List A → Option A
  find_by i = find (λ r. nat_eqb (key r) i)

  -- No two rows have one key.
  abbrev pub IsKeyed : List A → Type 0
  IsKeyed [] = Unit
  IsKeyed (x ∷ xs) = (find_by (key x) xs ≡ none) × IsKeyed xs

  -- What an update under a key and a further condition does to the row that it finds.
  abbrev pub updated : (A → Bool) → (A → A) → Option A → Option A
  updated p f none = none
  updated p f (some r) = some (if p r then f r else r)

  pub find_by-update :
      (p : A → Bool) (f : A → A) (same : (r : A) → key (f r) ≡ key r) (i j : ℕ) (xs : List A)
      → find_by j (map_where (λ r. nat_eqb (key r) i && p r) f xs)
        ≡ (if nat_eqb j i then updated p f (find_by i xs) else find_by j xs)
  find_by-update p f same i j [] = ground arith
  find_by-update p f same i j (x ∷ xs) = ground (arith, same x, find_by-update p f same i j xs)

  -- An update that keeps the keys brings no key in.
  find_by-update_none :
      (q : A → Bool) (f : A → A) (same : (r : A) → key (f r) ≡ key r) (i : ℕ) (xs : List A)
      → find_by i xs ≡ none
      → find_by i (map_where q f xs) ≡ none
  find_by-update_none q f same i [] h = refl
  find_by-update_none q f same i (x ∷ xs) h =
      ground (arith, same x, find_by-update_none q f same i xs)

  key-update :
      (q : A → Bool) (f : A → A) (same : (r : A) → key (f r) ≡ key r) (x : A)
      → key (if q x then f x else x) ≡ key x
  key-update q f same x = ground (arith, same x)

  pub IsKeyed-update :
      (q : A → Bool) (f : A → A) (same : (r : A) → key (f r) ≡ key r) (xs : List A)
      → IsKeyed xs
      → IsKeyed (map_where q f xs)
  IsKeyed-update q f same [] k = tt
  IsKeyed-update q f same (x ∷ xs) k =
      rw (key-update q f same x)
        (find_by-update_none q f same (key x) xs k.0, IsKeyed-update q f same xs k.1)

  pub IsKeyed-add :
      (x : A) (xs : List A) → IsKeyed xs → find_by (key x) xs ≡ none → IsKeyed (xs ++ (x ∷ []))
  IsKeyed-add x [] k h = (refl, tt)
  IsKeyed-add x (y ∷ xs) k h =
      ground
        (arith, find-append_none (λ r. nat_eqb (key r) (key y)) xs (x ∷ []), IsKeyed-add x xs k.1)

  -- Without a row under the key nothing is matched.
  pub match-none :
      (p : A → Bool) (i : ℕ) (xs : List A)
      → find_by i xs ≡ none
      → filterb (λ r. nat_eqb (key r) i && p r) xs ≡ []
  match-none p i [] h = refl
  match-none p i (x ∷ xs) h = ground (arith, match-none p i xs)

  -- Otherwise that row alone is, if it meets the further condition.
  pub match-one :
      (p : A → Bool) (i : ℕ) (xs : List A) (r : A)
      → IsKeyed xs
      → find_by i xs ≡ some r
      → filterb (λ r. nat_eqb (key r) i && p r) xs ≡ (if p r then r ∷ [] else [])
  match-one p i [] r k h = cc
  match-one p i (x ∷ xs) r k h = ground (arith, match-one p i xs r k.1, match-none p i xs)

  pub find_by-add :
      (x : A) (j : ℕ) (xs : List A)
      → find_by (key x) xs ≡ none
      → find_by j (xs ++ (x ∷ [])) ≡ (if nat_eqb j (key x) then some x else find_by j xs)
  find_by-add x j [] h = ground arith
  find_by-add x j (y ∷ xs) h = ground (arith, find_by-add x j xs)
