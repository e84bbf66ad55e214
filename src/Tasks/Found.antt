-- ===== src/Tasks/Found.antt =====
-- The drivers that a search finds, after any sequence of requests of drivers and sweeps.
use ride_flow.Prelude.{
  true, List, Option, none, some, All, All-map, ◌≡◌, ◌≢◌, refl, ap, ◌∙◌, ℕ, Bool-cases,
  Option-cases, inl, inr,
}
use ride_flow.Models.{Uuid, Float, DriverProfile}
use ride_flow.Config.{Settings}
use ride_flow.Sql.{Sql}
use ride_flow.Redis.{Redis}
use ride_flow.Database.{World}
use ride_flow.Matching.{find_nearby_drivers}
use ride_flow.Drivers.Pool.{place_of}
use ride_flow.Drivers.Agreement.{spot, profile_at, Agrees}
use ride_flow.Tasks.Pool.{DriverEvent, AllFresh, serve_drivers, serve_drivers-Agrees}

module _ ⦃sql : Sql⦄ ⦃redis : Redis⦄ where
  -- The driver has a profile that is available, at the position that the pool has.
  abbrev pub IsOffered : World → Uuid → Type 0
  IsOffered w j =
      (p : DriverProfile) × (profile_at w.db j ≡ some p)
      × (p.is_available ≡ true)
      × (redis.position w.geo j ≡ place_of p.last_lat p.last_lng)

  offered : (w : World) (j : Uuid) → Agrees w → redis.position w.geo j ≢ none → IsOffered w j
  offered w j a placed = elim (Option-cases (profile_at w.db j)) [
    | inl missing ↦ absurd (placed (a.placed j ∙ ap spot missing))
    | inr (p, found) ↦
        let says : redis.position w.geo j ≡ spot (some p) = a.placed j ∙ ap spot found in
        elim (Bool-cases p.is_available) [
          | inl on ↦ (p, found, on, says ∙ rw on refl)
          | inr off ↦ absurd (placed (says ∙ rw off refl))
        ]
  ]

  -- Where the pool agrees with the profiles, after any sequence of heartbeats, switches of
  -- availability, looks at a profile and sweeps every driver that a search near a pickup finds has
  -- a profile that says that the driver is available, and has its position in the pool, when the
  -- identifiers given to new profiles are not taken.
  pub find_nearby_drivers-IsOffered :
      (settings : Settings) (lat lng : Float) (radius_km : Option Float) (count : ℕ)
      (es : List DriverEvent) (w : World)
      → Agrees w
      → AllFresh es w
      → let later = serve_drivers es w in
        All (IsOffered later) (find_nearby_drivers settings lat lng radius_km count later.geo)
  unfolding find_nearby_drivers
  find_nearby_drivers-IsOffered settings lat lng radius_km count es w a fresh =
      let later = serve_drivers es w in
      All-map
        (λ j (_, at, _). offered later j (serve_drivers-Agrees es w a fresh) (λ e. cc (at, e)))
        (find_nearby_drivers settings lat lng radius_km count later.geo)
        (redis.geosearch-within _ _ _ _ later.geo)
