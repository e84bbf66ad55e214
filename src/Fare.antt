-- ===== src/Fare.antt =====
-- backend/app/routers/rides.py: `_haversine_km` and `_estimate_fare`, over the operations on
-- doubles that the interpreter and the `math` module give.
use ride_flow.Models.{Float}

pub record Floats : Type 0 where
  pub add : Float → Float → Float
  pub sub : Float → Float → Float
  pub mul : Float → Float → Float
  pub div : Float → Float → Float
  -- `x ** 2`
  pub square : Float → Float
  pub radians : Float → Float
  pub sin : Float → Float
  pub cos : Float → Float
  pub asin : Float → Float
  pub sqrt : Float → Float
  -- `round(x, 2)`
  pub round_cents : Float → Float

-- 2.0, 6371.0, 2.5 and 1.35 as doubles.
abbrev two : Float
two = 0x4000000000000000

abbrev earth_radius : Float
earth_radius = 0x40B8E30000000000

abbrev base_fare : Float
base_fare = 0x4004000000000000

abbrev per_km : Float
per_km = 0x3FF599999999999A

module _ ⦃fl : Floats⦄ where
  open fl use {add, sub, mul, div, square, radians, sin, cos, asin, sqrt, round_cents}

  pub haversine_km : Float → Float → Float → Float → Float
  haversine_km lat1 lng1 lat2 lng2 =
      let p1 = radians lat1 in
      let p2 = radians lat2 in
      let dphi = radians (sub lat2 lat1) in
      let dlambda = radians (sub lng2 lng1) in
      let a =
        add (square (sin (div dphi two)))
          (mul (mul (cos p1) (cos p2)) (square (sin (div dlambda two)))) in
      mul (mul two earth_radius) (asin (sqrt a))

  unfoldable pub estimate_fare : Float → Float → Float → Float → Float
  unfolding haversine_km
  estimate_fare pickup_lat pickup_lng dropoff_lat dropoff_lng =
      let distance = haversine_km pickup_lat pickup_lng dropoff_lat dropoff_lng in
      round_cents (add base_fare (mul per_km distance))
