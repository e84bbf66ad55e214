-- ===== src/OutboxWorker/Due.antt =====
-- How many events are due, and that a round that returns leaves fewer.
use mathlib.Core.List.Perm
use mathlib.Core.List.{foldr}
use native.Mathlib.Nat.{ℕ_set}
use ride_flow.Prelude.{
  ℕ, zero, suc, ◌+◌, ◌≤◌, Bool, true, false, not, ◌&&◌, ◌++◌, nat_eqb, if◌then◌else◌, List, [], ◌∷◌,
  Perm, All, ◌-◌, ◌⊎◌, inl, inr, take, any, length, filterb, countb, map_where, ◌≡◌, refl, sym, ap,
  ◌∙◌, subst, arith,
}
use ride_flow.Models.{DateTime, OutboxEvent}
use ride_flow.OutboxWorker.{mark_published}

-- The events that are still due when those of the list are marked.
abbrev pub due_but : List OutboxEvent → OutboxEvent → Bool
due_but es x = not x.published && not (any (λ (e : OutboxEvent). nat_eqb x.id e.id) es)

abbrev pub is_due : OutboxEvent → Bool
is_due x = not x.published

step : {A : Type 0} → (A → Bool) → A → ℕ → ℕ
step p x n = if p x then suc n else n

countb-foldr : {A : Type 0} (p : A → Bool) (xs : List A) → countb p xs ≡ foldr (step p) 0 xs
unfolding step
countb-foldr p [] = refl
countb-foldr p (x ∷ xs) = rw (countb-foldr p xs) refl

step_comm :
    {A : Type 0} (p : A → Bool) (a b : A) (n : ℕ) → step p a (step p b n) ≡ step p b (step p a n)
unfolding step
step_comm p a b n = ground arith

-- The order does not matter to the count.
pub countb-Perm :
    {A : Type 0} (p : A → Bool) {xs ys : List A} → Perm xs ys → countb p xs ≡ countb p ys
countb-Perm p {xs} {ys} same =
    countb-foldr p xs ∙ Perm.foldr-eq ℕ_set (step p) (step_comm p) same 0 ∙ sym (countb-foldr p ys)

pub countb-filterb :
    {A : Type 0} (p q : A → Bool) (xs : List A)
    → countb q (filterb p xs) ≡ countb (λ x. p x && q x) xs
countb-filterb p q [] = refl
countb-filterb p q (x ∷ xs) = ground (arith, countb-filterb p q xs)

pub length-filterb : {A : Type 0} (p : A → Bool) (xs : List A) → length (filterb p xs) ≡ countb p xs
length-filterb p [] = refl
length-filterb p (x ∷ xs) = ground (arith, length-filterb p xs)

-- Marking one event.
pub mark-due :
    (now : DateTime) (e : OutboxEvent) (es xs : List OutboxEvent)
    → countb
        (due_but es)
        (map_where (λ (x : OutboxEvent). nat_eqb x.id e.id) (mark_published now) xs)
      ≡ countb (due_but (e ∷ es)) xs
mark-due now e es [] = refl
mark-due now e es (x ∷ xs) = ground (arith, mark-due now e es xs)

-- No event of the list has this one's identifier.
abbrev pub is_fresh : List OutboxEvent → OutboxEvent → Bool
is_fresh es x = not (any (λ (e : OutboxEvent). nat_eqb x.id e.id) es)

any-here : (e : OutboxEvent) (hs bs : List OutboxEvent) → is_fresh (hs ++ (e ∷ bs)) e ≡ false
any-here e [] bs = ground arith
any-here e (a ∷ hs) bs = ground (arith, any-here e hs bs)

snoc_assoc :
    (hs : List OutboxEvent) (e : OutboxEvent) (bs : List OutboxEvent)
    → (hs ++ (e ∷ [])) ++ bs ≡ hs ++ (e ∷ bs)
snoc_assoc [] e bs = refl
snoc_assoc (a ∷ hs) e bs = ap (λ l. a ∷ l) (snoc_assoc hs e bs)

none_fresh : (hs bs : List OutboxEvent) → All (λ e. is_fresh (hs ++ bs) e ≡ false) bs
none_fresh hs [] = tt
none_fresh hs (e ∷ bs) = (
  any-here e hs bs,
  subst (λ l. All (λ x. is_fresh l x ≡ false) bs) (snoc_assoc hs e bs)
      (none_fresh (hs ++ (e ∷ [])) bs),
)

fresh_rest :
    (es : List OutboxEvent) (n : ℕ) (xs : List OutboxEvent)
    → All (λ e. is_fresh es e ≡ false) (take n xs)
    → countb (is_fresh es) xs + length (take n xs) ≤ length xs
fresh_rest es zero [] h = omega arith
fresh_rest es (suc n) [] h = omega arith
fresh_rest es zero (x ∷ xs) h = let rest = fresh_rest es zero xs tt in ground arith
fresh_rest es (suc n) (x ∷ xs) h =
    let rest = fresh_rest es n xs h.1 in let here = h.0 in ground arith

length-countb : (xs : List OutboxEvent) → length xs ≡ countb (λ _. true) xs
length-countb [] = refl
length-countb (x ∷ xs) = omega (arith, length-countb xs)

length-take_min :
    (n : ℕ) (xs : List OutboxEvent) → (length (take n xs) ≡ n) ⊎ (length (take n xs) ≡ length xs)
length-take_min zero xs = inl refl
length-take_min (suc n) [] = inr refl
length-take_min (suc n) (x ∷ xs) = elim (length-take_min n xs) [
  | inl full ↦ inl (ap suc full)
  | inr all ↦ inr (ap suc all)
]

-- Marking the first `n` of the due events, however they are ordered, leaves the others due.
pub due-take :
    (n : ℕ) (queue xs : List OutboxEvent)
    → Perm queue (filterb is_due xs)
    → countb (due_but (take n queue)) xs ≤ countb is_due xs - n
due-take n queue xs same =
    let es = take n queue in
    let left : countb (due_but es) xs ≡ countb (is_fresh es) queue =
      sym (countb-filterb is_due (is_fresh es) xs) ∙ sym (countb-Perm (is_fresh es) same) in
    let all : length queue ≡ countb is_due xs =
      length-countb queue
      ∙ countb-Perm (λ _. true) same
      ∙ sym (length-countb (filterb is_due xs))
      ∙ length-filterb is_due xs in
    let rest = fresh_rest es n queue (none_fresh [] es) in
    elim (length-take_min n queue) [
      | inl full ↦ omega (arith, left, all, rest, full)
      | inr short ↦ omega (arith, left, all, rest, short)
    ]
