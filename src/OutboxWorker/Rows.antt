-- ===== src/OutboxWorker/Rows.antt =====
-- The rows that a batch is read from: membership, and the one row under a key.
use mathlib.Core.List.{Mem, not-mem-nil, eq-or-mem_of_mem-cons}
use mathlib.Core.Logic.Or
use ride_flow.Prelude.{
  Mem-All, nat_eqb, nat_eqb_iff, List, [], ◌∷◌, none, All, find_by, IsKeyed, ◌≡◌, sym, ap, ◌∙◌, inl,
  inr, Bool-cases,
}
use ride_flow.Models.{Uuid, OutboxEvent}
use ride_flow.Models.Sets.{OutboxEvent-set}
use mathlib.Core.HLevel.{⊥_prop}
use ride_flow.OutboxWorker.{event_of, notification_of}

-- An event that the row is the only one to stand for.
abbrev pub StandsFor : OutboxEvent → OutboxEvent → Type 0
StandsFor e x = x.id ≡ e.id → (event_of x ≡ event_of e) × (notification_of x ≡ notification_of e)

-- A key leads to one row.
pub no_row :
    (i : Uuid) (xs : List OutboxEvent) (x : OutboxEvent)
    → find_by (λ (r : OutboxEvent). r.id) i xs ≡ none
    → Mem x xs
    → x.id ≡ i
    → ⊥
no_row i [] x h m e = not-mem-nil m
no_row i (y ∷ xs) x h m e = elim (Bool-cases (nat_eqb y.id i)) [
  | inl hit ↦ cc (h, hit)
  | inr miss ↦
      Or.elim ⊥_prop (eq-or-mem_of_mem-cons m)
        (λ same. cc (miss, (nat_eqb_iff y.id i).1 (ap (λ (z : OutboxEvent). z.id) (sym same) ∙ e)))
        (λ k. no_row i xs x (rw miss at h) k e)
]

pub one_row :
    (xs : List OutboxEvent) (x e : OutboxEvent)
    → IsKeyed (λ (r : OutboxEvent). r.id) xs
    → Mem x xs
    → Mem e xs
    → x.id ≡ e.id
    → x ≡ e
one_row [] x e k m n same = absurd (not-mem-nil m)
one_row (y ∷ xs) x e k m n same =
    Or.elim (OutboxEvent-set x e) (eq-or-mem_of_mem-cons m)
      (λ here.
        Or.elim (OutboxEvent-set x e) (eq-or-mem_of_mem-cons n) (λ there. here ∙ sym there)
          (λ behind.
            absurd (no_row y.id xs e k.0 behind (sym same ∙ ap (λ (z : OutboxEvent). z.id) here))))
      (λ behind.
        Or.elim (OutboxEvent-set x e) (eq-or-mem_of_mem-cons n)
          (λ there.
            absurd (no_row y.id xs x k.0 behind (same ∙ ap (λ (z : OutboxEvent). z.id) there)))
          (λ later. one_row xs x e k.1 behind later same))

pub stands :
    (xs : List OutboxEvent) (e : OutboxEvent)
    → IsKeyed (λ (r : OutboxEvent). r.id) xs
    → Mem e xs
    → All (StandsFor e) xs
stands xs e k m = Mem-All xs (λ x here same.
    let equal = one_row xs x e k here m same in (ap event_of equal, ap notification_of equal))
