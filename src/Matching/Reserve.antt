-- ===== src/Matching/Reserve.antt =====
-- What other commands of the matching service do to a reservation, and time.
use ride_flow.Prelude.{
  ℕ, ◌+◌, ◌≤◌, ◌<◌, true, false, List, [], ◌∷◌, none, some, ◌≡◌, ◌≢◌, inl, inr, ◌∙◌, ap, eqb-ne,
  ◌==◌, option_eq, nat_eq, arith, Option-cases, Bool-cases, All,
}
use ride_flow.Models.{Uuid, DateTime}
use ride_flow.Config.{Settings}
use ride_flow.Redis.{Redis, reservation}
use ride_flow.Matching.{try_reserve_driver, release_driver_reservation}
use ride_flow.Matching.Holders.{holder, reserve-free, reserve-held, release-own, release-other}

-- What the matching service does to the reservations.
pub data Command : Type 0 where
  reserve release : DateTime → Uuid → Uuid → Command

abbrev pub time_of : Command → DateTime
time_of (reserve t d r) = t
time_of (release t d r) = t

-- The command is not the release of driver `d` by ride `r` itself.
abbrev pub IsOther : Uuid → Uuid → Command → Type 0
IsOther d r (reserve t e q) = Unit
IsOther d r (release t e q) = (d ≡ e → r ≢ q)

module _ ⦃redis : Redis⦄ (settings : Settings) where
  pub perform : Command → redis.Strings → redis.Strings
  perform (reserve t d r) s = (try_reserve_driver settings t d r s).1
  perform (release t d r) s = (release_driver_reservation t d r s).1

  pub perform_all : List Command → redis.Strings → redis.Strings
  perform_all [] s = s
  perform_all (c ∷ cs) s = perform_all cs (perform c s)

  -- A reservation that has not lapsed names its holder.
  held_until :
      (s : redis.Strings) (d r lapse t : ℕ)
      → redis.entry s (reservation d) ≡ some (r, some lapse)
      → t < lapse
      → holder s t d ≡ some r
  held_until s d r lapse t h early = rw h (ground arith)

  reserve-keeps :
      (d r lapse t e q : ℕ) (s : redis.Strings)
      → redis.entry s (reservation d) ≡ some (r, some lapse)
      → t < lapse
      → redis.entry (try_reserve_driver settings t e q s).1 (reservation d) ≡ some (r, some lapse)
  reserve-keeps d r lapse t e q s h early =
      let held = held_until s d r lapse t h early in
      elim (Option-cases (holder s t e)) [
        | inl free ↦
            let off = eqb-ne d e (λ same. cc (free, held, ap (holder s t) same)) in
            (reserve-free settings t e q s free).2 (reservation d) off ∙ h
        | inr (x, taken) ↦ (reserve-held settings t e q s taken).1 (reservation d) ∙ h
      ]

  release-keeps :
      (d r lapse t e q : ℕ) (s : redis.Strings)
      → redis.entry s (reservation d) ≡ some (r, some lapse)
      → t < lapse
      → (d ≡ e → r ≢ q)
      → redis.entry (release_driver_reservation t e q s).1 (reservation d) ≡ some (r, some lapse)
  release-keeps d r lapse t e q s h early other =
      let held = held_until s d r lapse t h early in
      elim (Bool-cases (holder s t e == some q)) [
        | inl own ↦
            let owns = (option_eq.decides (holder s t e) (some q)).0 own in
            let off = eqb-ne d e (λ same. other same (cc (held, owns, ap (holder s t) same))) in
            (release-own t e q s owns).1 (reservation d) ∙ rw off h
        | inr no_own ↦
            rw
              (release-other t e q s
                (λ owns. cc (no_own, (option_eq.decides (holder s t e) (some q)).1 owns))).1
              h
      ]

  perform-keeps :
      (d r lapse : ℕ) (c : Command) (s : redis.Strings)
      → redis.entry s (reservation d) ≡ some (r, some lapse)
      → time_of c < lapse
      → IsOther d r c
      → redis.entry (perform c s) (reservation d) ≡ some (r, some lapse)
  unfolding perform
  perform-keeps d r lapse (reserve t e q) s h early other = reserve-keeps d r lapse t e q s h early
  perform-keeps d r lapse (release t e q) s h early other =
      release-keeps d r lapse t e q s h early other

  perform_all-keeps :
      (d r lapse : ℕ) (cs : List Command) (s : redis.Strings)
      → redis.entry s (reservation d) ≡ some (r, some lapse)
      → All (λ c. (time_of c < lapse) × IsOther d r c) cs
      → redis.entry (perform_all cs s) (reservation d) ≡ some (r, some lapse)
  unfolding perform_all
  perform_all-keeps d r lapse [] s h ok = h
  perform_all-keeps d r lapse (c ∷ cs) s h ok =
      perform_all-keeps d r lapse cs (perform c s) (perform-keeps d r lapse c s h ok.0.0 ok.0.1)
        ok.1

  -- A driver that a ride has reserved is its own until the time to live is over: whatever other
  -- reservations are tried and released in that time, the ride still holds the driver and no
  -- further attempt at the driver succeeds. Only a release by the ride itself is left out.
  pub reserve_exclusive :
      (now t : DateTime) (d ride other : Uuid) (cs : List Command) (s : redis.Strings)
      → (try_reserve_driver settings now d ride s).0 ≡ true
      → All (λ c. (time_of c < now + settings.driver_reservation_ttl_seconds) × IsOther d ride c) cs
      → t < now + settings.driver_reservation_ttl_seconds
      → let s' = perform_all cs (try_reserve_driver settings now d ride s).1 in
        (holder s' t d ≡ some ride) × ((try_reserve_driver settings t d other s').0 ≡ false)
  reserve_exclusive now t d ride other cs s won early soon =
      let lapse = now + settings.driver_reservation_ttl_seconds in
      elim (Option-cases (holder s now d)) [
        | inr (x, taken) ↦ cc (won, (reserve-held settings now d ride s taken).0)
        | inl free ↦
            let entered = (reserve-free settings now d ride s free).1 in
            let kept = perform_all-keeps d ride lapse cs _ entered early in
            let held = held_until _ d ride lapse t kept soon in
            (held, (reserve-held settings t d other _ held).0)
      ]

  -- The reservation does end: once the time to live is over and nobody has touched the driver
  -- since, the next ride reserves the same driver, whatever has become of the first ride.
  pub reserve_lapses :
      (now t : DateTime) (d ride other : Uuid) (s : redis.Strings)
      → (try_reserve_driver settings now d ride s).0 ≡ true
      → now + settings.driver_reservation_ttl_seconds ≤ t
      → (try_reserve_driver settings t d other (try_reserve_driver settings now d ride s).1).0
        ≡ true
  reserve_lapses now t d ride other s won late =
      let lapse = now + settings.driver_reservation_ttl_seconds in
      elim (Option-cases (holder s now d)) [
        | inr (x, taken) ↦ cc (won, (reserve-held settings now d ride s taken).0)
        | inl free ↦
            let entered = (reserve-free settings now d ride s free).1 in
            let over : holder (try_reserve_driver settings now d ride s).1 t d ≡ none =
              rw entered (ground arith) in
            (reserve-free settings t d other _ over).0
      ]
