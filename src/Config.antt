-- ===== src/Config.antt =====
-- backend/app/config.py: the settings that the modelled code reads. The environment may override
-- each, so the definitions take them as an argument; `default_settings` has the defaults.
use ride_flow.Prelude.{ℕ}
use ride_flow.Models.{Float}

pub record Settings : Type 0 where
  pub access_token_expire_minutes : ℕ
  pub refresh_token_expire_minutes : ℕ
  pub rate_limit_per_minute : ℕ
  pub driver_search_radius_km : Float
  pub driver_stale_after_seconds : ℕ
  pub driver_reservation_ttl_seconds : ℕ

-- The radius is the double 5.0.
abbrev pub default_settings : Settings
default_settings = record {
  access_token_expire_minutes = 15;
  refresh_token_expire_minutes = 10080;
  rate_limit_per_minute = 60;
  driver_search_radius_km = 0x4014000000000000;
  driver_stale_after_seconds = 30;
  driver_reservation_ttl_seconds = 15;
}
