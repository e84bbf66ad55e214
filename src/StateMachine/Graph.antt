-- ===== src/StateMachine/Graph.antt =====
-- The course of a ride through the graph that `allowed` walks.
use ride_flow.Prelude.{ℕ, suc, ◌+◌, ◌≤◌, ◌<◌, true, ◌≡◌, ◌≢◌, arith, refl, ap}
use ride_flow.Models.{
  RideStatus, requested, matching, accepted, driver_arriving, in_progress, completed, cancelled,
  no_drivers_found, ride_transitions,
}
use ride_flow.StateMachine.{allowed}

-- `n` allowed transitions, one after the other.
pub data Journey (s : RideStatus) : RideStatus → ℕ → Type 0 where
  here : Journey s s 0
  next : {t u : RideStatus} {n : ℕ} → Journey s t n → allowed t u ≡ true → Journey s u (suc n)

-- How far a status is on the way. The search for a driver may go round and round.
abbrev pub stage : RideStatus → ℕ
stage requested = 0
stage matching = 1
stage no_drivers_found = 1
stage accepted = 2
stage driver_arriving = 3
stage in_progress = 4
stage completed = 5
stage cancelled = 5

-- One transition goes one stage up, but for a cancellation and the search.
allowed-stage :
    (s t : RideStatus)
    → allowed s t ≡ true
    → (stage s ≤ stage t)
      × (stage s < 5)
      × (1 < stage t → stage s < stage t)
      × (t ≢ cancelled → stage t ≤ stage s + 1)
      × (s ≢ cancelled)
      × (s ≢ completed)
unfolding allowed ride_transitions
allowed-stage s t h = grind arith

stage-le : (s : RideStatus) → stage s ≤ 5
stage-le s = ground arith

-- Once a driver has accepted, each allowed transition takes the ride at least one stage further,
-- so at most three follow and the ride never goes back to an earlier stage.
pub Journey-accepted :
    {s t : RideStatus} {n : ℕ} → 2 ≤ stage s → Journey s t n → (stage s + n ≤ stage t) × (n ≤ 3)
Journey-accepted h here = (omega arith, omega arith)
Journey-accepted {s} h (next {t = t} {u = u} j legal) =
    let (far, _) = Journey-accepted h j in
    let strict = (allowed-stage t u legal).2 in
    let up = (allowed-stage t u legal).0 in
    let higher = strict (omega arith) in (omega arith, omega (arith, stage-le u))

Journey-climb : {s t : RideStatus} {n : ℕ} → Journey s t n → t ≢ cancelled → stage t ≤ stage s + n
Journey-climb here c = omega arith
Journey-climb (next {t = t} {u = u} j legal) c =
    let up = allowed-stage t u legal in
    let rest = Journey-climb j up.4 in let step = up.3 c in omega arith

-- A ride that has just been requested is completed after five allowed transitions at the least:
-- no course skips the matching, the acceptance, the arrival or the trip.
pub Journey-completed : {n : ℕ} → Journey requested completed n → 5 ≤ n
Journey-completed j = let far = Journey-climb j (λ e. cc) in omega arith

-- A completed or cancelled ride stays as it is: no journey from it has a transition.
pub Journey-ended : {s t : RideStatus} {n : ℕ} → stage s ≡ 5 → Journey s t n → (t ≡ s) × (n ≡ 0)
Journey-ended h here = (refl, refl)
Journey-ended h (next {t = t} {u = u} j legal) =
    let same = ap stage (Journey-ended h j).0 in
    let live = (allowed-stage t u legal).1 in absurd (omega arith)
