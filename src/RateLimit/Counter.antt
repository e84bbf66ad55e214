-- ===== src/RateLimit/Counter.antt =====
-- The counter of a client in one window of a minute.
use ride_flow.Prelude.{
  ℕ, zero, suc, subst, ◌+◌, ◌*◌, ◌≤◌, ◌<◌, true, false, ◌&&◌, ◌==◌, string_eq, nat_eq, nat_eqb, ltb,
  if◌then◌else◌, String, Option, none, some, ◌≡◌, inl, inr, refl, sym, ◌∙◌, ap, arith, Bool-cases,
  eqb_refl,
}
use ride_flow.Models.{DateTime}
use ride_flow.Config.{Settings}
use ride_flow.Redis.{Redis, Key, key_eq, ratelimit, Entry, alive, bumped}
use ride_flow.RateLimit.{passed, limited, count_request}

module _ (ip : String) (window : ℕ) where
  -- The counter after so many requests of the client in the window.
  abbrev pub Counted : ℕ → Option Entry → Type 0
  Counted n none = n ≡ 0
  Counted n (some (v, none)) = ⊥
  Counted n (some (v, some lapse)) = (v ≡ n) × (0 < n) × (60 * window + 60 ≤ lapse)

  Counted-alive :
      (n : ℕ) (e : Option Entry) (now : DateTime)
      → Counted n e
      → now < 60 * window + 60
      → (bumped now e).0 ≡ suc n
  Counted-alive n none now c early = ground arith
  Counted-alive n (some (v, none)) now c early = absurd c
  Counted-alive n (some (v, some lapse)) now c early = ground arith

  Counted-next :
      (n : ℕ) (e : Option Entry) (now : DateTime)
      → Counted (suc n) e
      → now < 60 * window + 60
      → Counted (suc (suc n)) (some (bumped now e))
  Counted-next n none now c early = absurd (omega arith)
  Counted-next n (some (v, none)) now c early = absurd c
  Counted-next n (some (v, some lapse)) now c early =
      let live : ltb now lapse ≡ true = ground arith in
      let count : suc v ≡ suc (suc n) = ap suc c.0 in
      let left : bumped now (some (v, some lapse)) ≡ (suc v, some lapse) = ground arith in
      subst (λ x. Counted (suc (suc n)) (some x)) (sym left) (count, omega arith, c.2)

  Counted-zero : (e : Option Entry) → Counted 0 e → e ≡ none
  Counted-zero none c = refl
  Counted-zero (some (v, none)) c = absurd c
  Counted-zero (some (v, some lapse)) c = absurd (omega arith)

module _ ⦃redis : Redis⦄ (ip : String) (window : ℕ) where
  abbrev pub entry_in : redis.Strings → Option Entry
  entry_in s = redis.entry s (ratelimit ip window)

  -- The entry that INCR leaves.
  incremented :
      (s : redis.Strings) (now : DateTime)
      → entry_in (redis.incr now (ratelimit ip window) s).1 ≡ some (bumped now (entry_in s))
  incremented s now =
      redis.entry-incr now (ratelimit ip window) s (ratelimit ip window)
      ∙ rw (eqb_refl {A = Key} (ratelimit ip window)) refl

  -- The first request gives the counter a minute to live.
  expiring_first :
      (s : redis.Strings) (now : DateTime)
      → entry_in s ≡ none
      → entry_in
          (redis.expire now (ratelimit ip window) 60 (redis.incr now (ratelimit ip window) s).1)
        ≡ some (1, some (now + 60))
  expiring_first s now fresh =
      let k = ratelimit ip window in
      let s' = (redis.incr now k s).1 in
      let there : entry_in s' ≡ some (1, none) = rw fresh at (incremented s now) in
      let read : redis.get now k s' ≡ some 1 = redis.get-entry now k s' ∙ ap (alive now) there in
      redis.entry-expire now k 60 s' k ∙ rw (eqb_refl {A = Key} k, read) refl

  Counted-after :
      (s : redis.Strings) (now : DateTime) (n : ℕ)
      → Counted ip window n (entry_in s)
      → 60 * window ≤ now
      → now < 60 * window + 60
      → let s' = (redis.incr now (ratelimit ip window) s).1 in
        Counted ip window (suc n) (
          entry_in (if nat_eqb (suc n) 1 then redis.expire now (ratelimit ip window) 60 s' else s'))
  Counted-after s now zero c late early =
      subst (Counted ip window 1)
        (sym (expiring_first s now (Counted-zero ip window (entry_in s) c)))
        (refl, omega arith, omega arith)
  Counted-after s now (suc n) c late early =
      let again : nat_eqb (suc (suc n)) 1 ≡ false = ground arith in
      subst
        (λ b. Counted ip window (suc (suc n)) (
          entry_in (
            if b
            then redis.expire now (ratelimit ip window) 60
                (redis.incr now (ratelimit ip window) s).1
            else (redis.incr now (ratelimit ip window) s).1)))
        (sym again)
        (subst (Counted ip window (suc (suc n))) (sym (incremented s now))
          (Counted-next ip window n (entry_in s) now c early))

  module _ (settings : Settings) where
    pub count_request-value :
        (s : redis.Strings) (now : DateTime) (n : ℕ)
        → Counted ip window n (entry_in s)
        → 60 * window ≤ now
        → now < 60 * window + 60
        → let (verdict, s') = count_request settings now ip window s in
          (verdict ≡ (if ltb settings.rate_limit_per_minute (suc n) then limited else passed))
          × Counted ip window (suc n) (entry_in s')
    unfolding count_request
    count_request-value s now n c late early =
        let current =
          redis.incr-entry now (ratelimit ip window) s
          ∙ Counted-alive ip window n (entry_in s) now c early in
        rw current (refl, Counted-after s now n c late early)

    -- Requests of other clients leave the counter alone.
    pub other_client :
        (s : redis.Strings) (now : DateTime) (jp : String) (other : ℕ)
        → (ip == jp) ≡ false
        → entry_in (count_request settings now jp other s).1 ≡ entry_in s
    unfolding count_request
    other_client s now jp other off =
        let k = ratelimit jp other in
        let s' = (redis.incr now k s).1 in
        let bump : entry_in s' ≡ entry_in s =
          redis.entry-incr now k s (ratelimit ip window)
          ∙ ap
              (λ b.
                if b && window == other then some (bumped now (redis.entry s k)) else entry_in s)
              off in
        let expire : entry_in (redis.expire now k 60 s') ≡ entry_in s' =
          redis.entry-expire now k 60 s' (ratelimit ip window)
          ∙ ap
              (λ b.
                if b && window == other
                then elim (redis.get now k s') [
                  | none ↦ redis.entry s' k
                  | some v ↦ some (v, some (now + 60))
                ]
                else entry_in s')
              off in
        elim (Bool-cases (nat_eqb (redis.incr now k s).0 1)) [
          | inl first ↦ rw first (expire ∙ bump)
          | inr again ↦ rw again bump
        ]
