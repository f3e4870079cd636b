-- ===== src/RequestGuard.antt =====
-- security/financialRequestGuard.ts: fresh timestamps, nonces that are used once, and the limit on
-- requests in a window. The two module-level caches are one state; the clock is read once in a call;
-- `hash` is the hexadecimal SHA-256 of Node's crypto. A timestamp header comes as the number that
-- `Number` reads, `none` where that is not finite; fractions and negative numbers are not modelled.
pub mod Cache
pub mod Replay
pub mod Rate
mod Tests
use Prim.Native.String as Str
use orbi_pay_gateway_v.Prelude.{
  ℕ, ◌+◌, ◌-◌, ◌*◌, ◌/◌, Bool, true, false, ◌||◌, String, Option, none, some, Result, ok, err, [],
  if◌then◌else◌, ltb, leb,
}
use orbi_pay_gateway_v.Prelude.Dict
use orbi_pay_gateway_v.Prelude.Dict.{Dict}
use orbi_pay_gateway_v.Prelude.Text.{trim, truthy, is_empty, length16}
use Cache.{prune}

pub record ReplayConfig : Type 0 where
  pub timestamp_tolerance_seconds : ℕ
  pub nonce_ttl_seconds : ℕ
  pub max_nonces : ℕ

pub record RateConfig : Type 0 where
  pub window_ms : ℕ
  pub max_requests : ℕ
  pub max_subjects : ℕ

pub record NonceRecord : Type 0 where
  pub expires_at : ℕ

pub record RateRecord : Type 0 where
  pub reset_at : ℕ
  pub count : ℕ

pub record Guard : Type 0 where
  pub nonces : Dict NonceRecord
  pub buckets : Dict RateRecord

pub data Error : Type 0 where
  signature_timestamp_invalid signature_timestamp_stale signature_nonce_required
        signature_nonce_replayed rate_limited :
      Error

pub assert_fresh_timestamp : ℕ → Option ℕ → ℕ → Result Error (Unit {0})
assert_fresh_timestamp now none tolerance_seconds = err signature_timestamp_invalid
assert_fresh_timestamp now (some timestamp) tolerance_seconds =
    let seconds = now / 1000 in
    if ltb tolerance_seconds ((seconds - timestamp) + (timestamp - seconds))
    then err signature_timestamp_stale
    else ok tt

-- `subject.trim() || 'anonymous'`
abbrev pub subject_or_anonymous : String → String
subject_or_anonymous s = elim (truthy (some (trim s))) [ none ↦ "anonymous" | some t ↦ t ]

pub is_bad_nonce : String → Bool
is_bad_nonce nonce = is_empty nonce || ltb (length16 nonce) 12 || ltb 120 (length16 nonce)

-- The part behind the check of the nonce's length.
pub use_nonce : ℕ → String → ReplayConfig → Guard → Guard × Result Error (Unit {0})
use_nonce now key config g =
    let nonces = prune (λ r. r.expires_at) now config.max_nonces g.nonces in
    if Dict.has key nonces then (record g { nonces = nonces }, err signature_nonce_replayed) else (
      record g {
        nonces =
            Dict.set key (record { expires_at = now + config.nonce_ttl_seconds * 1000 }) nonces;
      },
      ok tt,
    )

pub open_window : ℕ → String → RateConfig → Guard → Guard
open_window now key config g = record g {
  buckets = Dict.set key (record { reset_at = now + config.window_ms; count = 1 }) g.buckets;
}

pub count_request : String → RateRecord → RateConfig → Guard → Guard × Result Error (Unit {0})
count_request key existing config g =
    let counted : Guard = record g {
      buckets = Dict.set key (record existing { count = existing.count + 1 }) g.buckets;
    } in
    if ltb config.max_requests (existing.count + 1)
    then (counted, err rate_limited)
    else (counted, ok tt)

-- The part behind the pruning.
pub limit_rate : ℕ → String → RateConfig → Guard → Guard × Result Error (Unit {0})
limit_rate now key config g = elim (Dict.get key g.buckets) [
  | none ↦ (open_window now key config g, ok tt)
  | some existing ↦
      if leb existing.reset_at now
      then (open_window now key config g, ok tt)
      else count_request key existing config g
]

module _ (hash : String → String) where
  pub nonce_key : String → String → String
  nonce_key subject nonce =
      hash (Str.◌++◌ (subject_or_anonymous subject) (Str.◌++◌ ":" (trim nonce)))

  pub assert_nonce_not_replayed :
      ℕ → String → String → ReplayConfig → Guard → Guard × Result Error (Unit {0})
  assert_nonce_not_replayed now subject nonce config g =
      if is_bad_nonce (trim nonce)
      then (g, err signature_nonce_required)
      else use_nonce now (nonce_key subject nonce) config g

  pub rate_key : String → String
  rate_key subject = hash (subject_or_anonymous subject)

  pub assert_financial_rate_limit :
      ℕ → String → RateConfig → Guard → Guard × Result Error (Unit {0})
  assert_financial_rate_limit now subject config g =
      if leb config.max_requests 0 || leb config.window_ms 0
      then (g, ok tt)
      else limit_rate now (rate_key subject) config
          (record g { buckets = prune (λ r. r.reset_at) now config.max_subjects g.buckets })
