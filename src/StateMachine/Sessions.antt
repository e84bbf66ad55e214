-- ===== src/StateMachine/Sessions.antt =====
-- Concurrent requests. Each holds rides that it read at some time, and applies transitions to
-- them while the others do the same: an interleaving of committed reads and transitions, with
-- the UPDATE of a row atomic.
use ride_flow.Prelude.{
  ℕ, suc, ◌+◌, ◌≤◌, pos, true, [], ◌∷◌, List, Option, some, ◌≡◌, ◌⊎◌, inl, inr, refl, ap, arith,
  All, nat_eqb, Bool-cases, some_inj, nat_eqb_iff, subst, ◌∙◌, sym,
}
use ride_flow.Models.{RideStatus, Uuid, DateTime, Ride}
use ride_flow.Sql.{Sql}
use ride_flow.Database.{Db}
use ride_flow.StateMachine.{allowed, apply_transition, new_values}
use ride_flow.StateMachine.Update.{ride_of, IsKeyedDb}
use ride_flow.StateMachine.Apply.{apply-cases}
use ride_flow.StateMachine.Graph.{Journey}

-- A ride that some request read and still holds.
pub data Holds (r : Ride) : List Ride → Type 0 where
  newest : {rs : List Ride} → Holds r (r ∷ rs)
  older : {q : Ride} {rs : List Ride} → Holds r rs → Holds r (q ∷ rs)

module _ ⦃sql : Sql⦄ where
  -- The committed database, and every ride that some request read.
  pub record System : Type 0 where
    pub db : Db
    pub seen : List Ride

  -- One step of some request. A transition expects a version that is no newer than the one that
  -- the request read: the version that it read itself, or the one that its client read before.
  pub data Step (s : System) : System → Type 0 where
    read : (r : Ride) → ride_of s.db r.id ≡ some r → Step s (record s { seen = r ∷ s.seen })
    transition :
        (now : DateTime) (event_id : Uuid) (ride : Ride) (target : RideStatus) (expected : ℕ)
        (extra : Option Uuid)
        → Holds ride s.seen
        → expected ≤ ride.version
        → Step s (record s {
          db = (apply_transition now event_id ride target (pos expected) extra s.db).1;
        })

  pub data Steps (s : System) : System → Type 0 where
    here : Steps s s
    next : {t u : System} → Steps s t → Step t u → Steps s u

  -- A ride as it was read at some time, against the row as it is.
  abbrev pub IsPast : Db → Ride → Type 0
  IsPast db r =
      (c : Ride) × (ride_of db r.id ≡ some c)
      × (r.version ≤ c.version)
      × (r.version ≡ c.version → r.status ≡ c.status)

  -- The rides have one row for each identifier, and what was read is what was once stored.
  pub record Inv (s : System) : Type 0 where
    pub keyed : IsKeyedDb s.db
    pub past : All (IsPast s.db) s.seen

  -- What the row of a ride becomes in one step.
  abbrev pub Evolves : Db → Db → Type 0
  Evolves db db' =
      (j : Uuid) (c : Ride)
      → ride_of db j ≡ some c
      → (ride_of db' j ≡ some c)
        ⊎ ((c' : Ride) × (ride_of db' j ≡ some c')
            × (allowed c.status c'.status ≡ true)
            × (c'.version ≡ c.version + 1))

  IsPast-Evolves : (db db' : Db) (r : Ride) → Evolves db db' → IsPast db r → IsPast db' r
  IsPast-Evolves db db' r ev (c, e, le, same) = elim (ev r.id c e) [
    | inl kept ↦ (c, kept, le, same)
    | inr (c', e', legal, up) ↦ (c', e', omega arith, λ h. absurd (omega arith))
  ]

  All-IsPast :
      (db db' : Db) (rs : List Ride) → Evolves db db' → All (IsPast db) rs → All (IsPast db') rs
  All-IsPast db db' [] ev p = tt
  All-IsPast db db' (r ∷ rs) ev p = (IsPast-Evolves db db' r ev p.0, All-IsPast db db' rs ev p.1)

  IsPast-held :
      (db : Db) (r : Ride) (rs : List Ride) → Holds r rs → All (IsPast db) rs → IsPast db r
  IsPast-held db r [] h p = elim h [ ]
  IsPast-held db r (q ∷ rs) newest p = p.0
  IsPast-held db r (q ∷ rs) (older h) p = IsPast-held db r rs h p.1

  -- The ride that was read has the status of the row, if it has its version.
  legal_now :
      (ride c r : Ride) (target : RideStatus) (expected : ℕ)
      → some c ≡ some r
      → ride.version ≤ c.version
      → (ride.version ≡ c.version → ride.status ≡ c.status)
      → expected ≤ ride.version
      → pos expected ≡ pos r.version
      → allowed ride.status target ≡ true
      → allowed r.status target ≡ true
  legal_now ride c r target expected e le same old v legal =
      let version : c.version ≡ r.version = cc in
      let expects : expected ≡ r.version = cc in let status = same (omega arith) in cc

  -- A transition that goes through is legal from the row that it changes.
  transition-Evolves :
      (now : DateTime) (event_id : Uuid) (ride : Ride) (target : RideStatus) (expected : ℕ)
      (extra : Option Uuid) (db : Db)
      → IsKeyedDb db
      → IsPast db ride
      → expected ≤ ride.version
      → let db' = (apply_transition now event_id ride target (pos expected) extra db).1 in
        Evolves db db' × IsKeyedDb db'
  transition-Evolves now event_id ride target expected extra db k (c, e, le, same) old =
      elim (apply-cases now event_id ride target (pos expected) extra db k) [
        | inl (_, _, rides, _, _) ↦ (λ j c' h. inl (rw rides h), rw rides k)
        | inr (r, legal, found, v, _, replaced, keyed, _, _) ↦ (
          λ j c' h. elim (Bool-cases (nat_eqb j ride.id)) [
            | inl at ↦
                let there : some c' ≡ some r =
                  sym h ∙ ap (ride_of db) ((nat_eqb_iff j ride.id).0 at) ∙ found in
                inr (
                  new_values now target extra r,
                  replaced j ∙ rw at,
                  subst (λ q. allowed q.status target ≡ true) (sym (some_inj there))
                      (legal_now ride c r target expected (sym e ∙ found) le same old v legal),
                  ap (λ q. q.version + 1) (sym (some_inj there)),
                )
            | inr off ↦ inl (replaced j ∙ rw off h)
          ],
          keyed,
        )
      ]

  pub Step-Evolves : {s t : System} → Step s t → Inv s → Evolves s.db t.db × Inv t
  Step-Evolves {s} (read r e) v =
      (λ j c h. inl h, record { keyed = v.keyed; past = ((r, e, omega arith, λ _. refl), v.past) })
  Step-Evolves {s} (transition now event_id ride target expected extra held old) v =
      let done =
        transition-Evolves now event_id ride target expected extra s.db v.keyed
          (IsPast-held s.db ride s.seen held v.past) old in
      (
        done.0,
        record {
          keyed = done.1;
          past =
              All-IsPast s.db
                (apply_transition now event_id ride target (pos expected) extra s.db).1 s.seen
                done.0 v.past;
        },
      )

  -- What has become of a ride: the course that it took, with one version for each transition.
  abbrev pub Course : Db → Uuid → Ride → Type 0
  Course db' j c =
      (c' : Ride) × (n : ℕ) × (ride_of db' j ≡ some c')
      × Journey c.status c'.status n
      × (c'.version ≡ c.version + n)

  abbrev pub Traced : Db → Db → Type 0
  Traced db db' = (j : Uuid) (c : Ride) → ride_of db j ≡ some c → Course db' j c

  pub Steps-Traced : {s t : System} → Inv s → Steps s t → Traced s.db t.db × Inv t
  Steps-Traced v here = (λ j c h. (c, 0, h, Journey.here, omega arith), v)
  Steps-Traced {s} v (next {t = t} {u = u} steps step) =
      let (traced, before) = Steps-Traced v steps in
      let (evolves, after) = Step-Evolves step before in
      (
        λ j c h.
            let (c', n, e, course, count) = traced j c h in
            elim (evolves j c' e) [
              | inl same ↦ (c', n, same, course, count)
              | inr (c'', e', legal, up) ↦ (c'', suc n, e', Journey.next course legal, omega arith)
            ],
        after,
      )

  abbrev pub start : Db → System
  start db = record { db = db; seen = [] }

  -- Whatever requests interleave from a database in which `id` is the key of the rides, a ride
  -- that was there still is, has come to its status by a course of allowed transitions, and its
  -- version has gone up by one for each of them, provided that no transition expects a version
  -- newer than that of the ride which its request read.
  pub Steps-Journey :
      (db : Db) (t : System) (j : Uuid) (c : Ride)
      → IsKeyedDb db
      → Steps (start db) t
      → ride_of db j ≡ some c
      → Course t.db j c
  Steps-Journey db t j c k steps e = (Steps-Traced (record { keyed = k; past = tt }) steps).0 j c e
