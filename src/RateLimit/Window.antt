-- ===== src/RateLimit/Window.antt =====
-- How many requests of a client pass in one window of a minute.
use Prim.Native.Nat.{◌/◌}
use text.Mathlib.Text.{starts_with}
use ride_flow.Prelude.{
  ℕ, suc, subst, ◌+◌, ◌*◌, ◌≤◌, ◌<◌, Bool, true, false, not, ◌&&◌, ◌==◌, string_eq, nat_eq, ltb,
  leb, if◌then◌else◌, String, none, List, [], ◌∷◌, All, countb, ◌≡◌, ◌⊎◌, inl, inr, refl, sym, ◌∙◌,
  ap, arith, Bool-cases, eqb-ne, eq_iff,
}
use ride_flow.Models.{DateTime}
use ride_flow.Config.{Settings}
use ride_flow.Redis.{Redis, key_eq, ratelimit}
use ride_flow.RateLimit.Counter.{Counted, entry_in, count_request-value, other_client}
use ride_flow.RateLimit.{Verdict, passed, limited, Request, client_ip, count_request, dispatch}

-- A request that counts against a client: one that is no health probe and comes from its address.
abbrev pub counts_for : String → DateTime × Request → Bool
counts_for ip (now, request) =
    not (starts_with request.path "/health") && client_ip request.client == ip

abbrev pub is_passed : Verdict → Bool
is_passed passed = true
is_passed limited = false

abbrev pub InWindow : ℕ → DateTime × Request → Type 0
InWindow window (now, request) = now / 60 ≡ window

abbrev pub at_most : ℕ → ℕ → ℕ
at_most n limit = if leb n limit then n else limit

-- A time of the window is in its minute.
minute :
    (window : ℕ) (now : DateTime)
    → now / 60 ≡ window
    → (60 * window ≤ now) × (now < 60 * window + 60)
minute window now e = (omega arith, omega arith)

module _ ⦃redis : Redis⦄ (settings : Settings) where
  -- The requests one after the other, and how many of the client's own passed.
  unfoldable pub passed_of : String → List (DateTime × Request) → redis.Strings → ℕ
  passed_of ip [] strings = 0
  passed_of ip ((now, request) ∷ rest) strings =
      let (verdict, strings') = dispatch settings now request strings in
      let further = passed_of ip rest strings' in
      if counts_for ip (now, request) && is_passed verdict then suc further else further

  module _ (ip : String) (window : ℕ) where
    -- A request that does not count leaves the counter, and one that does is the next.
    abbrev Outcome : ℕ → DateTime × Request → Verdict × redis.Strings → Type 0
    Outcome n request (verdict, s') =
        ((counts_for ip request ≡ false) × Counted ip window n (entry_in ip window s'))
        ⊎ ((counts_for ip request ≡ true)
            × (verdict ≡ (if ltb settings.rate_limit_per_minute (suc n) then limited else passed))
            × Counted ip window (suc n) (entry_in ip window s'))

    dispatch-probe :
        (now : DateTime) (request : Request) (s : redis.Strings)
        → starts_with request.path "/health" ≡ true
        → dispatch settings now request s ≡ (passed, s)
    unfolding dispatch
    dispatch-probe now request s probe = rw probe refl

    dispatch-counts :
        (now : DateTime) (request : Request) (s : redis.Strings)
        → starts_with request.path "/health" ≡ false
        → dispatch settings now request s
          ≡ count_request settings now (client_ip request.client) (now / 60) s
    unfolding dispatch
    dispatch-counts now request s plain = rw plain refl

    dispatch-Outcome :
        (n : ℕ) (now : DateTime) (request : Request) (s : redis.Strings)
        → Counted ip window n (entry_in ip window s)
        → now / 60 ≡ window
        → Outcome n (now, request) (dispatch settings now request s)
    dispatch-Outcome n now request s c e = elim (Bool-cases (starts_with request.path "/health")) [
      | inl probe ↦
          subst (Outcome n (now, request)) (sym (dispatch-probe now request s probe))
            (inl (ground arith, c))
      | inr plain ↦ elim (Bool-cases (client_ip request.client == ip)) [
        | inl own ↦
            let same = (eq_iff (client_ip request.client) ip).0 own in
            let value =
              count_request-value ip window settings s now n c (minute window now e).0
                (minute window now e).1 in
            let counted =
              dispatch-counts now request s plain
              ∙ ap (λ jp. count_request settings now jp (now / 60) s) same
              ∙ ap (λ v. count_request settings now ip v s) e in
            subst (Outcome n (now, request)) (sym counted) (inr (ground arith, value.0, value.1))
        | inr off ↦
            let foreign =
              eqb-ne ip (client_ip request.client)
                (λ h. cc (off, (eq_iff (client_ip request.client) ip).1 (sym h))) in
            subst (Outcome n (now, request)) (sym (dispatch-counts now request s plain)) (
              inl (
                ground arith,
                subst (Counted ip window n)
                    (sym (
                      other_client ip window settings s now (client_ip request.client) (now / 60)
                        foreign))
                    c,
              ))
      ]
    ]

    passed_of-Counted :
        (n : ℕ) (requests : List (DateTime × Request)) (s : redis.Strings)
        → Counted ip window n (entry_in ip window s)
        → All (InWindow window) requests
        → at_most n settings.rate_limit_per_minute + passed_of ip requests s
          ≡ at_most (n + countb (counts_for ip) requests) settings.rate_limit_per_minute
    unfolding passed_of
    passed_of-Counted n [] s c all = ground arith
    passed_of-Counted n ((now, request) ∷ rest) s c all =
        elim (dispatch-Outcome n now request s c all.0) [
          | inl (off, kept) ↦
              let further =
                passed_of-Counted n rest (dispatch settings now request s).1 kept all.1 in
              ground arith
          | inr (own, verdict, next) ↦
              let further =
                passed_of-Counted (suc n) rest (dispatch settings now request s).1 next all.1 in
              ground arith
        ]

  -- In a window of a minute in which the counter of a client is new, of all the requests that
  -- reach the service exactly as many of the client's own, health probes aside, pass as the limit
  -- allows, or all of them if they are fewer, however they are mixed with health probes and with
  -- requests of other clients.
  pub passed_of-limit :
      (ip : String) (window : ℕ) (requests : List (DateTime × Request)) (s : redis.Strings)
      → redis.entry s (ratelimit ip window) ≡ none
      → All (InWindow window) requests
      → passed_of ip requests s
        ≡ at_most (countb (counts_for ip) requests) settings.rate_limit_per_minute
  passed_of-limit ip window requests s fresh all =
      let c = subst (Counted ip window 0) (sym fresh) refl in
      let sum = passed_of-Counted ip window 0 requests s c all in ground arith
