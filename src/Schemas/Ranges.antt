-- ===== src/Schemas/Ranges.antt =====
-- What a body that passed is known to be.
use ride_flow.Prelude.{
  Bool, true, string_eq, Option, none, some, ◌≡◌, refl, inl, inr, Bool-cases, ap, ◌∙◌, subst,
  some_inj,
}
use ride_flow.Models.{Float}
use ride_flow.Schemas.{RegisterRequest, RideCreateRequest}
use ride_flow.Schemas.Validation.{
  Pydantic, RegisterBody, RideCreateBody, checked, is_lat, is_lng, has_length, role_or_default,
  validate_ride_create, validate_register, ◌>>=◌,
}

bind-some :
    {A B : Type 0} (o : Option A) (f : A → Option B) {b : B}
    → o >>= f ≡ some b
    → (a : A) × (o ≡ some a) × (f a ≡ some b)
bind-some none f h = cc
bind-some (some a) f h = (a, refl, h)

checked-some :
    {A : Type 0} (p : A → Bool) (o : Option A) {a : A}
    → checked p o ≡ some a
    → (o ≡ some a) × (p a ≡ true)
checked-some p none {a = a} h = cc
checked-some p (some b) {a = a} h = elim (Bool-cases (p b)) [
  | inl good ↦
      let same : some b ≡ some a = rw good at h in
      (same, subst (λ x. p x ≡ true) (some_inj same) good)
  | inr bad ↦ cc (rw bad at h)
]

module _ ⦃pydantic : Pydantic⦄ where
  -- The pickup and the dropoff are on the globe.
  pub record AreInRange (pickup_lat pickup_lng dropoff_lat dropoff_lng : Float) : Type 0 where
    pub pickup : (is_lat pickup_lat ≡ true) × (is_lng pickup_lng ≡ true)
    pub dropoff : (is_lat dropoff_lat ≡ true) × (is_lng dropoff_lng ≡ true)

  pub validate_ride_create-AreInRange :
      (body : RideCreateBody) {payload : RideCreateRequest}
      → validate_ride_create body ≡ some payload
      → AreInRange payload.pickup_lat payload.pickup_lng payload.dropoff_lat payload.dropoff_lng
  unfolding validate_ride_create
  validate_ride_create-AreInRange body {payload} done =
      let (a, ea, ha) = bind-some (checked is_lat body.pickup_lat) _ done in
      let (b, eb, hb) = bind-some (checked is_lng body.pickup_lng) _ ha in
      let (c, ec, hc) = bind-some (checked is_lat body.dropoff_lat) _ hb in
      let (d, ed, hd) = bind-some (checked is_lng body.dropoff_lng) _ hc in
      let same = some_inj hd in
      record {
        pickup = (
          subst (λ (r : RideCreateRequest). is_lat r.pickup_lat ≡ true) same
              (checked-some is_lat _ ea).1,
          subst (λ (r : RideCreateRequest). is_lng r.pickup_lng ≡ true) same
              (checked-some is_lng _ eb).1,
        );
        dropoff = (
          subst (λ (r : RideCreateRequest). is_lat r.dropoff_lat ≡ true) same
              (checked-some is_lat _ ec).1,
          subst (λ (r : RideCreateRequest). is_lng r.dropoff_lng ≡ true) same
              (checked-some is_lng _ ed).1,
        );
      }

  -- The role of an admitted body is the one that it names, or the default.
  pub validate_register-role :
      (body : RegisterBody) {payload : RegisterRequest}
      → validate_register body ≡ some payload
      → role_or_default body.role ≡ some payload.role
  unfolding validate_register
  validate_register-role body {payload} done =
      let (a, ea, ha) = bind-some (checked pydantic.is_email body.email) _ done in
      let (b, eb, hb) = bind-some (checked (has_length 8 128) body.password) _ ha in
      let (c, ec, hc) = bind-some (checked (has_length 1 255) body.full_name) _ hb in
      let (d, ed, hd) = bind-some (role_or_default body.role) _ hc in
      ed ∙ ap (λ (r : RegisterRequest). some r.role) (some_inj hd)
