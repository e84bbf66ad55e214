-- ===== src/Matching/Search.antt =====
-- Which driver `find_and_reserve_driver` takes.
use ride_flow.Prelude.{
  true, ◌+◌, ◌≤◌, List, [], ◌∷◌, ◌++◌, Option, none, some, ◌≡◌, ◌≢◌, ◌⊎◌, inl, inr, refl, ◌∙◌, ap,
  Option-cases, Bool-cases, All, length, if◌then◌else◌,
}
use ride_flow.Models.{Uuid, DateTime, Float}
use ride_flow.Config.{Settings}
use ride_flow.Redis.{Redis, Point, AreNearestFirst, Key, reservation, key_eqb, key_eqb_iff}
use ride_flow.Matching.{
  try_reserve_driver, reserve_first, find_and_reserve_driver, find_nearby_drivers,
}
use ride_flow.Matching.Holders.{holder, reserve-free, reserve-held}

module _ ⦃redis : Redis⦄ (settings : Settings) (now : DateTime) (ride : Uuid) where
  abbrev pub SameEntries : redis.Strings → redis.Strings → Type 0
  SameEntries s s' = (k : Key) → redis.entry s' k ≡ redis.entry s k

  -- All candidates are held: none is taken and nothing changes.
  abbrev pub NoneFree : List Uuid → redis.Strings → Option Uuid × redis.Strings → Type 0
  NoneFree ds s (result, s') =
      (result ≡ none) × All (λ d. holder s now d ≢ none) ds × SameEntries s s'

  -- The first candidate that is free is taken, until the time to live is over.
  abbrev pub FirstFree : List Uuid → redis.Strings → Option Uuid × redis.Strings → Type 0
  FirstFree ds s (result, s') =
      (d : Uuid) × (before : List Uuid) × (after : List Uuid) × (ds ≡ before ++ (d ∷ after))
      × All (λ e. holder s now e ≢ none) before
      × (holder s now d ≡ none)
      × (result ≡ some d)
      × ((k : Key)
          → redis.entry s' k ≡ (
              if key_eqb k (reservation d)
              then some (ride, some (now + settings.driver_reservation_ttl_seconds))
              else redis.entry s k))

  All-same :
      (s s' : redis.Strings) (ds : List Uuid)
      → SameEntries s s'
      → All (λ d. holder s' now d ≢ none) ds
      → All (λ d. holder s now d ≢ none) ds
  All-same s s' [] same h = tt
  All-same s s' (d ∷ ds) same h = (rw (same (reservation d)) at h.0, All-same s s' ds same h.1)

  reserve_first-step :
      (d : Uuid) (ds : List Uuid) (s : redis.Strings) {r : Uuid}
      → holder s now d ≡ some r
      → reserve_first settings now ride (d ∷ ds) s
        ≡ reserve_first settings now ride ds (try_reserve_driver settings now d ride s).1
  unfolding reserve_first
  reserve_first-step d ds s held = rw (reserve-held settings now d ride s held).0

  reserve_first-free :
      (d : Uuid) (ds : List Uuid) (s : redis.Strings)
      → holder s now d ≡ none
      → reserve_first settings now ride (d ∷ ds) s
        ≡ (some d, (try_reserve_driver settings now d ride s).1)
  unfolding reserve_first
  reserve_first-free d ds s free = rw (reserve-free settings now d ride s free).0

  reserved_entries :
      (d : Uuid) (s : redis.Strings)
      → holder s now d ≡ none
      → (k : Key)
      → redis.entry (try_reserve_driver settings now d ride s).1 k ≡ (
          if key_eqb k (reservation d)
          then some (ride, some (now + settings.driver_reservation_ttl_seconds))
          else redis.entry s k)
  reserved_entries d s free k =
      let got = reserve-free settings now d ride s free in
      elim (Bool-cases (key_eqb k (reservation d))) [
        | inl own ↦ rw own (ap (redis.entry _) ((key_eqb_iff k (reservation d)).0 own) ∙ got.1)
        | inr off ↦ rw off (got.2 k off)
      ]

  -- One more candidate in front that is held.
  behind_held :
      (d : Uuid) (ds : List Uuid) (s s' : redis.Strings) (out : Option Uuid × redis.Strings)
      → holder s now d ≢ none
      → SameEntries s s'
      → NoneFree ds s' out ⊎ FirstFree ds s' out
      → NoneFree (d ∷ ds) s out ⊎ FirstFree (d ∷ ds) s out
  behind_held d ds s s' out held same (inl (e, all, kept)) =
      inl (e, (held, All-same s s' ds same all), λ k. kept k ∙ same k)
  behind_held d ds s s' out held same (inr (x, before, after, e, all, free, result, entries)) =
      inr (
        x,
        d ∷ before,
        after,
        ap (◌∷◌ d) e,
        (held, All-same s s' before same all),
        rw (same (reservation x)) at free,
        result,
        λ k. rw (same k) at (entries k),
      )

  pub reserve_first-cases :
      (ds : List Uuid) (s : redis.Strings)
      → NoneFree ds s (reserve_first settings now ride ds s)
        ⊎ FirstFree ds s (reserve_first settings now ride ds s)
  unfolding reserve_first
  reserve_first-cases [] s = inl (refl, tt, λ k. refl)
  reserve_first-cases (d ∷ ds) s =
      let rest = reserve_first-cases ds (try_reserve_driver settings now d ride s).1 in
      elim (Option-cases (holder s now d)) [
        | inl free ↦
            rw (reserve_first-free d ds s free)
              (inr (d, [], ds, refl, tt, free, refl, reserved_entries d s free))
        | inr (r, taken) ↦ rw (reserve_first-step d ds s taken) (
            behind_held d ds s (try_reserve_driver settings now d ride s).1 _ (λ e. cc (e, taken))
              (reserve-held settings now d ride s taken).1 rest)
      ]

  -- The drivers that a search finds are at most ten, each at a position within the radius of the
  -- settings around the pickup, and none stands behind one that is farther from it. The search
  -- takes the first of them that is held by no ride, which holds that driver until the time to live
  -- is over, and changes no other key; if each of them is held it takes none and changes nothing.
  pub find_and_reserve_driver-cases :
      (lat lng : Float) (geo : redis.Geo) (s : redis.Strings)
      → let ds = find_nearby_drivers settings lat lng none 10 geo in
        (length ds ≤ 10)
        × All
            (λ d.
              (p : Point) × (redis.position geo d ≡ some p)
              × (redis.is_within settings.driver_search_radius_km (lng, lat) p ≡ true))
            ds
        × AreNearestFirst (redis.position geo) (redis.is_nearer (lng, lat)) ds
        × (NoneFree ds s (find_and_reserve_driver settings now lat lng ride geo s)
            ⊎ FirstFree ds s (find_and_reserve_driver settings now lat lng ride geo s))
  unfolding find_and_reserve_driver find_nearby_drivers
  find_and_reserve_driver-cases lat lng geo s = (
    redis.geosearch-count _ _ _ _ geo,
    redis.geosearch-within lng lat settings.driver_search_radius_km 10 geo,
    redis.geosearch-nearest lng lat settings.driver_search_radius_km 10 geo,
    reserve_first-cases _ s,
  )
