-- ===== src/OutboxWorker/Batch.antt =====
-- The events of a batch: how many, in which order, and how they are marked.
use ride_flow.Prelude.{
  ℕ, zero, suc, ◌≤◌, true, false, not, ◌&&◌, ◌++◌, nat_eqb, List, [], ◌∷◌, take, length, filterb,
  map_where, ◌≡◌, refl, ap, arith,
}
use ride_flow.Models.{Uuid, DateTime, OutboxEvent}
use ride_flow.Database.{ok}
use ride_flow.OutboxWorker.{Message, event_of, notification_of, oldest_first, mark_published}

-- What is to be sent for a batch, event by event.
abbrev pub messages_of : List OutboxEvent → List Message
messages_of [] = []
messages_of (e ∷ es) = event_of e ∷ notification_of e ∷ messages_of es

-- The rows of an event that are not marked.
abbrev pub unmarked : Uuid → List OutboxEvent → List OutboxEvent
unmarked i = filterb (λ (e : OutboxEvent). nat_eqb e.id i && not e.published)

pub marks :
    (now : DateTime) (i : Uuid) (xs : List OutboxEvent)
    → unmarked i (map_where (λ (e : OutboxEvent). nat_eqb e.id i) (mark_published now) xs) ≡ []
marks now i [] = refl
marks now i (x ∷ xs) = ground (arith, marks now i xs)

pub marks_keep :
    (now : DateTime) (i j : Uuid) (xs : List OutboxEvent)
    → unmarked i xs ≡ []
    → unmarked i (map_where (λ (e : OutboxEvent). nat_eqb e.id j) (mark_published now) xs) ≡ []
marks_keep now i j [] h = refl
marks_keep now i j (x ∷ xs) h = ground (arith, marks_keep now i j xs)

pub append-nil : {A : Type 0} (xs : List A) → xs ++ [] ≡ xs
append-nil [] = refl
append-nil (x ∷ xs) = ap (λ l. x ∷ l) (append-nil xs)

pub append_assoc : {A : Type 0} (xs ys zs : List A) → (xs ++ ys) ++ zs ≡ xs ++ (ys ++ zs)
append_assoc [] ys zs = refl
append_assoc (x ∷ xs) ys zs = ap (λ l. x ∷ l) (append_assoc xs ys zs)

pub count_inj : {a b : ℕ} → ok a ≡ ok b → a ≡ b
count_inj h = cc

pub length-take : (n : ℕ) (xs : List OutboxEvent) → length (take n xs) ≤ n
length-take zero xs = omega arith
length-take (suc n) [] = omega arith
length-take (suc n) (x ∷ xs) = let rest = length-take n xs in omega arith

pub oldest_first_total : (x y : OutboxEvent) → oldest_first x y ≡ false → oldest_first y x ≡ true
oldest_first_total x y h = ground arith

pub oldest_first_trans :
    (x y z : OutboxEvent)
    → oldest_first x y ≡ true
    → oldest_first y z ≡ true
    → oldest_first x z ≡ true
oldest_first_trans x y z h k = ground arith
