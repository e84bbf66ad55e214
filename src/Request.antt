-- ===== src/Request.antt =====
-- What a request draws from its surroundings.
use ride_flow.Prelude.{ℕ, String}
use ride_flow.Models.{Uuid, DateTime}

-- What one request draws from outside: the time, the identifiers that `gen_uuid` makes, and
-- random texts.
pub record Env : Type 0 where
  pub now : DateTime
  pub uuid : ℕ → Uuid
  pub random : ℕ → String
