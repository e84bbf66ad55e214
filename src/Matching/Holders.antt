-- ===== src/Matching/Holders.antt =====
-- Who holds a driver, and what one command of the matching service does to that.
use ride_flow.Prelude.{
  ◌+◌, true, false, nat_eq, if◌then◌else◌, Option, none, some, ◌≡◌, ◌≢◌, refl, ◌∙◌, sym, eqb-ne,
  eqb_refl, option_eq,
}
use ride_flow.Models.{Uuid, DateTime}
use ride_flow.Config.{Settings}
use ride_flow.Redis.{Redis, Key, reservation, key_eq, key_eqb, alive}
use ride_flow.Matching.{try_reserve_driver, release_driver_reservation}

module _ ⦃redis : Redis⦄ where
  -- The ride that a driver is reserved for at a time.
  abbrev pub holder : redis.Strings → DateTime → Uuid → Option Uuid
  holder s now d = alive now (redis.entry s (reservation d))

  module _ (settings : Settings) (now : DateTime) (d ride : Uuid) (s : redis.Strings) where
    -- A free driver is reserved for the ride until the time to live is over.
    pub reserve-free :
        holder s now d ≡ none
        → let (done, s') = try_reserve_driver settings now d ride s in
          (done ≡ true)
          × (redis.entry s' (reservation d)
              ≡ some (ride, some (now + settings.driver_reservation_ttl_seconds)))
          × ((k : Key) → key_eqb k (reservation d) ≡ false → redis.entry s' k ≡ redis.entry s k)
    unfolding try_reserve_driver
    reserve-free h =
        let ttl = settings.driver_reservation_ttl_seconds in
        let free = redis.get-entry now (reservation d) s ∙ h in
        (
          redis.set_nx_ex-done now (reservation d) ride ttl s ∙ rw free,
          redis.entry-set_nx_ex now (reservation d) ride ttl s (reservation d)
              ∙ rw (free, eqb_refl {A = Key} (reservation d)),
          λ k off. redis.entry-set_nx_ex now (reservation d) ride ttl s k ∙ rw (free, off),
        )

    -- A driver that is held stays so.
    pub reserve-held :
        {r : Uuid}
        → holder s now d ≡ some r
        → let (done, s') = try_reserve_driver settings now d ride s in
          (done ≡ false) × ((k : Key) → redis.entry s' k ≡ redis.entry s k)
    unfolding try_reserve_driver
    reserve-held h =
        let ttl = settings.driver_reservation_ttl_seconds in
        let held = redis.get-entry now (reservation d) s ∙ h in
        (
          redis.set_nx_ex-done now (reservation d) ride ttl s ∙ rw held,
          λ k. redis.entry-set_nx_ex now (reservation d) ride ttl s k ∙ rw held,
        )

  module _ (now : DateTime) (d ride : Uuid) (s : redis.Strings) where
    -- A reservation is given back by the ride that holds it.
    pub release-own :
        holder s now d ≡ some ride
        → let (done, s') = release_driver_reservation now d ride s in
          (done ≡ true)
          × ((k : Key)
              → redis.entry s' k ≡ (if key_eqb k (reservation d) then none else redis.entry s k))
    unfolding release_driver_reservation
    release-own h =
        let own = redis.get-entry now (reservation d) s ∙ h in
        rw (own, eqb_refl ride) (refl, redis.entry-delete now (reservation d) s)

    -- No other ride gives it back.
    pub release-other :
        holder s now d ≢ some ride
        → let (done, s') = release_driver_reservation now d ride s in (done ≡ false) × (s' ≡ s)
    unfolding release_driver_reservation
    release-other h =
        let other =
          eqb-ne (redis.get now (reservation d) s) (some ride)
            (λ e. h (sym (redis.get-entry now (reservation d) s) ∙ e)) in
        rw other (refl, refl)
