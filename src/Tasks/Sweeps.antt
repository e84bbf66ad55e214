-- ===== src/Tasks/Sweeps.antt =====
-- What the periodic jobs leave behind.
use ride_flow.Prelude.{
  Option, some, ◌&&◌, leb, subst, ap, Option-cases, inl, inr, ℕ, ◌+◌, Bool, false, not, ◌==◌,
  nat_eq, if◌then◌else◌, List, [], ◌∷◌, none, Perm, All, any, length, filterb, ◌≡◌, refl, arith,
}
use ride_flow.Models.{Uuid, DateTime, DriverProfile, IdempotencyRecord}
use ride_flow.Config.{Settings}
use ride_flow.Sql.{Sql}
use ride_flow.Redis.{Redis}
use ride_flow.Database.{Db, World, ok}
use ride_flow.Matching.{remove_driver_from_pool}
use ride_flow.Tasks.{
  is_stale, is_outdated, evict_driver, evict_each, evict_stale_drivers, cleanup_idempotency_records,
}

-- Whose profile is among these.
abbrev pub is_of : Uuid → List DriverProfile → Bool
is_of j ps = any (λ (p : DriverProfile). j == p.user_id) ps

-- There was a heartbeat, and it is longer ago than so many seconds.
abbrev pub lapsed : ℕ → DateTime → Option DateTime → Bool
lapsed seconds now none = false
lapsed seconds now (some t) = not (leb now (t + seconds))

stale_is :
    (settings : Settings) (now : DateTime) (p : DriverProfile)
    → is_stale settings now p
      ≡ (p.is_available && lapsed settings.driver_stale_after_seconds now p.last_heartbeat_at)
stale_is settings now p = elim (Option-cases p.last_heartbeat_at) [
  | inl never ↦ rw never refl
  | inr (t, last) ↦ ground arith
]

module _ ⦃sql : Sql⦄ ⦃redis : Redis⦄ where
  pub evict_each-counts :
      (ps : List DriverProfile) (w : World) → (evict_each ps w).0 ≡ ok (length ps)
  unfolding evict_each evict_driver
  evict_each-counts [] w = refl
  evict_each-counts (p ∷ ps) w =
      let rest = evict_each-counts ps (evict_driver p w).1 in ground arith

  evict_each-pool :
      (ps : List DriverProfile) (w : World) (j : Uuid)
      → redis.position (evict_each ps w).1.geo j
        ≡ (if is_of j ps then none else redis.position w.geo j)
  unfolding evict_each evict_driver remove_driver_from_pool
  evict_each-pool [] w j = refl
  evict_each-pool (p ∷ ps) w j =
      let counts = evict_each-counts ps (evict_driver p w).1 in
      let rest = evict_each-pool ps (evict_driver p w).1 j in
      let first = redis.position-zrem p.user_id w.geo j in ground arith

  -- The sweep over the drivers takes exactly the available drivers whose last heartbeat is too old
  -- out of the pool, leaves every other position as it was, and counts them.
  pub evict_stale_drivers-pool :
      (settings : Settings) (now : DateTime) (w : World)
      → let (result, w') = evict_stale_drivers settings now w in
        (stale : List DriverProfile) × Perm stale (
          filterb
            (λ (p : DriverProfile).
              p.is_available && lapsed settings.driver_stale_after_seconds now p.last_heartbeat_at)
            (sql.rows w.db.driver_profiles))
        × (result ≡ ok (length stale))
        × ((j : Uuid)
            → redis.position w'.geo j ≡ (if is_of j stale then none else redis.position w.geo j))
  unfolding evict_stale_drivers
  evict_stale_drivers-pool settings now w =
      let stale = sql.select (is_stale settings now) w.db.driver_profiles in
      let same =
        ap (λ q. filterb q (sql.rows w.db.driver_profiles)) (λ i p. stale_is settings now p i) in
      let chosen = sql.select-rows (is_stale settings now) w.db.driver_profiles in
      (stale, subst (Perm stale) same chosen, evict_each-counts stale w, evict_each-pool stale w)

kept-All :
    (p : IdempotencyRecord → Bool) (xs : List IdempotencyRecord)
    → All (λ r. p r ≡ false) (filterb (λ r. not (p r)) xs)
kept-All p [] = tt
kept-All p (x ∷ xs) = ground (arith, kept-All p xs)

parts :
    (p : IdempotencyRecord → Bool) (xs : List IdempotencyRecord)
    → length (filterb p xs) + length (filterb (λ r. not (p r)) xs) ≡ length xs
parts p [] = refl
parts p (x ∷ xs) = ground (arith, parts p xs)

module _ ⦃sql : Sql⦄ where
  -- The cleanup deletes the stored responses that are older than seven days and no others, and
  -- counts what it deleted.
  pub cleanup_idempotency_records-keeps :
      (now : DateTime) (db : Db)
      → let (result, db') = cleanup_idempotency_records now db in
        (deleted : ℕ) × (result ≡ ok deleted)
        × (deleted + length (sql.rows db'.idempotency_records)
            ≡ length (sql.rows db.idempotency_records))
        × (sql.rows db'.idempotency_records
            ≡ filterb (λ r. not (is_outdated now r)) (sql.rows db.idempotency_records))
        × All (λ r. is_outdated now r ≡ false) (sql.rows db'.idempotency_records)
  unfolding cleanup_idempotency_records
  cleanup_idempotency_records-keeps now db =
      let t = db.idempotency_records in
      let kept = sql.rows-delete (is_outdated now) t in
      (
        (sql.delete (is_outdated now) t).0,
        refl,
        rw (sql.delete-count (is_outdated now) t, kept) (parts (is_outdated now) (sql.rows t)),
        kept,
        rw kept (kept-All (is_outdated now) (sql.rows t)),
      )
