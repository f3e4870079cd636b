-- ===== src/RequestGuard/Rate.antt =====
-- security/financialRequestGuard.ts: the requests of one subject in a window.

use orbi_pay_gateway_v.Prelude.{
  ℕ, suc, ◌+◌, ◌-◌, ◌≤◌, ◌<◌, ◌≡◌, refl, ◌∙◌, ◌≢◌, Bool, true, false, ◌==◌, String, none, some,
  List, [], ◌∷◌, if◌then◌else◌, length, All, arith, eq_refl, eq-cases, Bool-cases, Option-cases,
  inl, inr, Result, ok, err,
}
use orbi_pay_gateway_v.Prelude.Dict
use orbi_pay_gateway_v.Prelude.Dict.{Dict, get-set_self, get-set_other, length-set-le}
use orbi_pay_gateway_v.RequestGuard.{
  Guard, Error, RateRecord, RateConfig, rate_key, limit_rate, open_window, count_request,
  assert_financial_rate_limit,
}
use orbi_pay_gateway_v.RequestGuard.Cache.{prune, get-prune, length-prune-le, prune_absent}

pub record Call : Type 0 where
  pub now : ℕ
  pub subject : String

-- The window of a key, with the requests counted in it.
abbrev pub CountsFor : Guard → String → ℕ → ℕ → Type 0
CountsFor g key reset count =
    Dict.get key g.buckets ≡ some (record { reset_at = reset; count = count })

abbrev pub passed : Result Error (Unit {0}) → Bool
passed (ok _) = true
passed (err _) = false

abbrev pub bit : Bool → ℕ
bit true = 1
bit false = 0

module _ (now : ℕ) (key : String) (config : RateConfig) (g : Guard) where
  limit_rate-length : length (limit_rate now key config g).0.buckets ≤ length g.buckets + 1
  unfolding limit_rate open_window count_request
  limit_rate-length = elim (Option-cases (Dict.get key g.buckets)) [
    | inl e ↦
        rw (e, limit_rate)
          (length-set-le key (record { reset_at = now + config.window_ms; count = 1 }) g.buckets)
    | inr (r, e) ↦ ground (
      arith,
      length-set-le key (record { reset_at = now + config.window_ms; count = 1 }) g.buckets,
      length-set-le key (record r { count = r.count + 1 }) g.buckets,
    )
  ]

  -- A request of the window's own key is counted, and passes if the count is within the limit.
  limit_rate_counted :
      (reset count : ℕ)
      → CountsFor g key reset count
      → now < reset
      → CountsFor (limit_rate now key config g).0 key reset (count + 1)
        × ((passed (limit_rate now key config g).1 ≡ true) → count + 1 ≤ config.max_requests)
  unfolding limit_rate open_window count_request
  limit_rate_counted reset count h soon =
      let counted : RateRecord = record { reset_at = reset; count = count + 1 } in
      ground (arith, get-set_self key counted g.buckets)

  -- A request of another key leaves the window as it is.
  limit_rate_other :
      (other : String) (reset count : ℕ)
      → key ≢ other
      → CountsFor g other reset count
      → CountsFor (limit_rate now key config g).0 other reset count
  unfolding limit_rate open_window count_request
  limit_rate_other other reset count differ h = elim (Option-cases (Dict.get key g.buckets)) [
    | inl e ↦
        rw (e, limit_rate)
          (get-set_other key other (record { reset_at = now + config.window_ms; count = 1 })
              g.buckets differ
            ∙ h)
    | inr (r, e) ↦ ground (
      arith,
      get-set_other key other (record { reset_at = now + config.window_ms; count = 1 }) g.buckets
          differ,
      get-set_other key other (record r { count = r.count + 1 }) g.buckets differ,
    )
  ]

  -- A request that finds no window passes and opens one.
  limit_rate_opens :
      Dict.get key g.buckets ≡ none
      → (passed (limit_rate now key config g).1 ≡ true)
        × CountsFor (limit_rate now key config g).0 key (now + config.window_ms) 1
  unfolding limit_rate open_window
  limit_rate_opens e = rw (e, limit_rate) (refl, get-set_self key _ g.buckets)

module _ (hash : String → String) (config : RateConfig) (on : 0 < config.max_requests)
    (wide : 0 < config.window_ms) where
  pub call : Call → Guard → Guard × Result Error (Unit {0})
  call c = assert_financial_rate_limit hash c.now c.subject config

  pruned : ℕ → Guard → Guard
  pruned now g = record g { buckets = prune (λ r. r.reset_at) now config.max_subjects g.buckets }

  call_eq :
      (c : Call) (g : Guard)
      → call c g ≡ limit_rate c.now (rate_key hash c.subject) config (pruned c.now g)
  unfolding call assert_financial_rate_limit pruned
  call_eq c g = ground arith

  pruned-CountsFor :
      (now : ℕ) (g : Guard) (key : String) (reset count : ℕ)
      → CountsFor g key reset count
      → now < reset
      → length g.buckets ≤ config.max_subjects
      → CountsFor (pruned now g) key reset count
  unfolding pruned
  pruned-CountsFor now g key reset count h soon small =
      get-prune (λ (r : RateRecord). r.reset_at) now config.max_subjects key g.buckets h soon small

  pruned_absent :
      (now : ℕ) (g : Guard) (key : String)
      → Dict.get key g.buckets ≡ none
      → Dict.get key (pruned now g).buckets ≡ none
  unfolding pruned
  pruned_absent now g key e =
      prune_absent (λ (r : RateRecord). r.reset_at) now config.max_subjects key g.buckets e

  length-call : (c : Call) (g : Guard) → length (call c g).0.buckets ≤ length g.buckets + 1
  unfolding pruned
  length-call c g = rw (call_eq c g) (
      omega (
        arith,
        limit_rate-length c.now (rate_key hash c.subject) config (pruned c.now g),
        length-prune-le (λ (r : RateRecord). r.reset_at) c.now config.max_subjects g.buckets,
      ))

  -- The requests with a key that pass.
  pub accepted : String → List Call → Guard → ℕ
  accepted key [] g = 0
  accepted key (c ∷ cs) g =
      (if rate_key hash c.subject == key then bit (passed (call c g).1) else 0)
      + accepted key cs (call c g).0

  call_counted :
      (c : Call) (g : Guard) (key : String) (reset count : ℕ)
      → rate_key hash c.subject ≡ key
      → CountsFor g key reset count
      → c.now < reset
      → length g.buckets ≤ config.max_subjects
      → CountsFor (call c g).0 key reset (count + 1)
        × ((passed (call c g).1 ≡ true) → count + 1 ≤ config.max_requests)
  call_counted c g key reset count same h soon room =
      rw (call_eq c g, same)
        (limit_rate_counted c.now key config (pruned c.now g) reset count
          (pruned-CountsFor c.now g key reset count h soon room) soon)

  call_other :
      (c : Call) (g : Guard) (key : String) (reset count : ℕ)
      → rate_key hash c.subject ≢ key
      → CountsFor g key reset count
      → c.now < reset
      → length g.buckets ≤ config.max_subjects
      → CountsFor (call c g).0 key reset count
  call_other c g key reset count differ h soon room = rw (call_eq c g) (
      limit_rate_other c.now (rate_key hash c.subject) config (pruned c.now g) key reset count
        differ (pruned-CountsFor c.now g key reset count h soon room))

  accepted-le :
      (key : String) (reset count : ℕ) (calls : List Call) (g : Guard)
      → CountsFor g key reset count
      → All (λ c. c.now < reset) calls
      → length g.buckets + length calls ≤ config.max_subjects
      → accepted key calls g ≤ config.max_requests - count
  unfolding accepted
  accepted-le key reset count [] g h soon room = omega arith
  accepted-le key reset count (c ∷ cs) g h (soon, later) room =
      elim (eq-cases (rate_key hash c.subject) key) [
        | inl (same, t) ↦
            let (next, limit) = call_counted c g key reset count same h soon (omega arith) in
            let rest =
              accepted-le key reset (count + 1) cs (call c g).0 next later
                (omega (arith, length-call c g)) in
            rw t (elim (Bool-cases (passed (call c g).1)) [
              | inl pass ↦ let within = limit pass in rw pass (omega arith)
              | inr stop ↦ rw stop (omega arith)
            ])
        | inr (differ, t) ↦
            let next = call_other c g key reset count differ h soon (omega arith) in
            let rest =
              accepted-le key reset count cs (call c g).0 next later
                (omega (arith, length-call c g)) in
            rw t (omega arith)
      ]

  call_opens :
      (c : Call) (g : Guard)
      → Dict.get (rate_key hash c.subject) g.buckets ≡ none
      → (passed (call c g).1 ≡ true)
        × CountsFor (call c g).0 (rate_key hash c.subject) (c.now + config.window_ms) 1
  call_opens c g absent = rw (call_eq c g) (
      limit_rate_opens c.now (rate_key hash c.subject) config (pruned c.now g)
        (pruned_absent c.now g (rate_key hash c.subject) absent))

  -- Let the configured number of requests and the length of the window be positive. When a request
  -- finds no window of its subject, it passes and opens one that ends after the configured time, with
  -- one request counted. Of this request and those made after it before the window ends, whatever
  -- their subjects, at most `max_requests` pass with the subject's key, as long as the cache has room
  -- for the windows it held before and one for every request that was made.
  pub window_limit :
      (c : Call) (g : Guard) (calls : List Call)
      → Dict.get (rate_key hash c.subject) g.buckets ≡ none
      → All (λ d. d.now < c.now + config.window_ms) calls
      → length g.buckets + suc (length calls) ≤ config.max_subjects
      → (passed (call c g).1 ≡ true)
        × CountsFor (call c g).0 (rate_key hash c.subject) (c.now + config.window_ms) 1
        × (accepted (rate_key hash c.subject) (c ∷ calls) g ≤ config.max_requests)
  unfolding accepted
  window_limit c g calls absent soon room =
      let key = rate_key hash c.subject in
      let (pass, opened) = call_opens c g absent in
      let rest =
        accepted-le key (c.now + config.window_ms) 1 calls (call c g).0 opened soon
          (omega (arith, length-call c g)) in
      (pass, opened, rw (eq_refl key, pass) (omega arith))
