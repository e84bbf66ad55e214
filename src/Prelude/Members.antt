-- ===== src/Prelude/Members.antt =====
-- Membership of lists, and predicates on all that is in one.
use Prim.Native.Nat.{ℕ, zero, suc}
use mathlib.Core.List.{
  Mem, Mem-prop, not-mem-nil, eq-or-mem_of_mem-cons, mem-cons_self, mem-cons_of_mem, mem-append,
}
use mathlib.Core.Logic.{inl, inr}
use mathlib.Core.Logic.Or
use mathlib.Core.Path.{sym, subst}
use mathlib.Core.Bool.{Bool}
use mathlib.Core.List.{List, [], ◌∷◌, ◌++◌}
use ride_flow.Prelude.Tests.{if◌then◌else◌, Bool-cases}
use ride_flow.Prelude.Lists.{All, take, filterb, map_where}

pub All-map :
    {A : Type 0} {P Q : A → Type 0} (f : (x : A) → P x → Q x) (xs : List A) → All P xs → All Q xs
All-map f [] h = tt
All-map f (x ∷ xs) h = (f x h.0, All-map f xs h.1)

pub All-map_where :
    {A : Type 0} {P : A → Type 0} (Q : A → Type 0) (q : A → Bool) (g : A → A)
    (f : (x : A) → P x → Q (if q x then g x else x)) (xs : List A)
    → All P xs
    → All Q (map_where q g xs)
All-map_where Q q g f [] h = tt
All-map_where Q q g f (x ∷ xs) h = (f x h.0, All-map_where Q q g f xs h.1)

pub Mem-All : {A : Type 0} {P : A → Type 0} (xs : List A) → ((x : A) → Mem x xs → P x) → All P xs
Mem-All [] h = tt
Mem-All (x ∷ xs) h = (h x mem-cons_self, Mem-All xs (λ y m. h y (mem-cons_of_mem x m)))

pub take-Mem : {A : Type 0} (n : ℕ) (xs : List A) (x : A) → Mem x (take n xs) → Mem x xs
take-Mem zero xs x m = absurd (not-mem-nil m)
take-Mem (suc n) [] x m = absurd (not-mem-nil m)
take-Mem (suc n) (y ∷ xs) x m =
    Or.elim Mem-prop (eq-or-mem_of_mem-cons m)
      (λ e. subst (λ z. Mem z (y ∷ xs)) (sym e) mem-cons_self)
      (λ k. mem-cons_of_mem y (take-Mem n xs x k))

pub filterb-Mem :
    {A : Type 0} (p : A → Bool) (xs : List A) (x : A) → Mem x (filterb p xs) → Mem x xs
filterb-Mem p [] x m = m
filterb-Mem p (y ∷ xs) x m = elim (Bool-cases (p y)) [
  | inl kept ↦
      Or.elim Mem-prop (eq-or-mem_of_mem-cons (rw kept at m))
        (λ e. subst (λ z. Mem z (y ∷ xs)) (sym e) mem-cons_self)
        (λ k. mem-cons_of_mem y (filterb-Mem p xs x k))
  | inr left ↦ mem-cons_of_mem y (filterb-Mem p xs x (rw left at m))
]

pub mem-left : {A : Type 0} {a : A} (s t : List A) → Mem a s → Mem a (s ++ t)
mem-left {A} {a} s t m = (mem-append {a = a} {s = s} {t = t}).1 (Or.inl m)

pub mem-last : {A : Type 0} {a : A} (s : List A) → Mem a (s ++ (a ∷ []))
mem-last {A} {a} s = (mem-append {a = a} {s = s} {t = a ∷ []}).1 (Or.inr mem-cons_self)
