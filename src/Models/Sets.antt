-- ===== src/Models/Sets.antt =====
-- Rows are compared by their columns.
use text.Mathlib.TextEquality.{IsScalar-prop}
use ride_flow.Models.Rows.{IdempotencyRecord, RefreshToken, User, DriverProfile, OutboxEvent}

pub IdempotencyRecord-set : IsSet IdempotencyRecord
IdempotencyRecord-set = hlevel IsScalar-prop

pub RefreshToken-set : IsSet RefreshToken
RefreshToken-set = hlevel IsScalar-prop

pub User-set : IsSet User
User-set = hlevel IsScalar-prop

pub DriverProfile-set : IsSet DriverProfile
DriverProfile-set = hlevel IsScalar-prop

pub OutboxEvent-set : IsSet OutboxEvent
OutboxEvent-set = hlevel IsScalar-prop
