-- ===== src/Tests/Reservations.antt =====
-- The theorems on the search and the reservations, on the test data.
use ride_flow.Prelude.{
  ◌≤◌, true, false, List, [], ◌∷◌, none, some, All, length, ◌≡◌, ◌⊎◌, refl, arith,
}
use ride_flow.Config.{default_settings}
use ride_flow.Matching.{
  try_reserve_driver, find_nearby_drivers, find_and_reserve_driver, reserve_first,
}
use ride_flow.Redis.{Point, AreNearestFirst}
use ride_flow.Matching.Holders.{holder}
use ride_flow.Matching.Reserve.{Command, reserve, release, perform_all, reserve_exclusive}
use ride_flow.Matching.Search.{NoneFree, FirstFree, find_and_reserve_driver-cases}
use ride_flow.Tests.Strings.{map_redis}
use ride_flow.Tests.Data.{no_strings, world}

-- Ride 10 takes driver 5 at time 100.
won : (try_reserve_driver default_settings 100 5 10 no_strings).0 ≡ true
unfolding try_reserve_driver
won = refl

abbrev held : map_redis.Strings
held = (try_reserve_driver default_settings 100 5 10 no_strings).1

-- Ride 11 tries the driver too, and gives back what it does not have.
abbrev others : List Command
others = reserve 105 5 11 ∷ release 106 5 11 ∷ []

reserve_exclusive_example :
    (holder (perform_all default_settings others held) 110 5 ≡ some 10)
    × ((try_reserve_driver default_settings 110 5 11 (perform_all default_settings others held)).0
        ≡ false)
reserve_exclusive_example =
    reserve_exclusive default_settings 100 110 5 10 11 others no_strings won
      ((omega arith, tt), ((omega arith, λ same e. ground arith), tt)) (omega arith)

-- The search of ride 11, while ride 10 has driver 5.
find_and_reserve_driver-cases_example :
    let ds = find_nearby_drivers default_settings 0 0 none 10 world.geo in
    (length ds ≤ 10)
    × All
        (λ d.
          (p : Point) × (map_redis.position world.geo d ≡ some p)
          × (map_redis.is_within default_settings.driver_search_radius_km (0, 0) p ≡ true))
        ds
    × AreNearestFirst (map_redis.position world.geo) (map_redis.is_nearer (0, 0)) ds
    × (NoneFree default_settings 105 11 ds held
          (find_and_reserve_driver default_settings 105 0 0 11 world.geo held)
        ⊎ FirstFree default_settings 105 11 ds held
            (find_and_reserve_driver default_settings 105 0 0 11 world.geo held))
find_and_reserve_driver-cases_example =
    find_and_reserve_driver-cases default_settings 105 11 0 0 world.geo held

-- It finds driver 6.
second_driver : (find_and_reserve_driver default_settings 105 0 0 11 world.geo held).0 ≡ some 6
unfolding find_and_reserve_driver find_nearby_drivers reserve_first try_reserve_driver
second_driver = refl
