-- ===== src/RequestGuard/Tests.antt =====
-- The guard on concrete requests, with keys that are their own hashes.
use Prim.Native.String as Str
use orbi_pay_gateway_v.Prelude.{ℕ, ◌≡◌, ◌≤◌, refl, true, String, [], ◌∷◌, err, arith, length, ◌⊎◌}
use orbi_pay_gateway_v.Prelude.Dict
use orbi_pay_gateway_v.Prelude.Text.{trim, truthy, length16}
use orbi_pay_gateway_v.RequestGuard.{
  Guard, signature_nonce_replayed, signature_nonce_required, ReplayConfig, RateConfig,
  assert_nonce_not_replayed, use_nonce, nonce_key, is_bad_nonce, rate_key,
}
use orbi_pay_gateway_v.RequestGuard.Cache.{prune, HasKeys}
use orbi_pay_gateway_v.RequestGuard.Replay as Replay
use orbi_pay_gateway_v.RequestGuard.Replay.{nonce_replay_refused, nonces_bounded, IsBadLength}
use orbi_pay_gateway_v.RequestGuard.Rate as Rate
use orbi_pay_gateway_v.RequestGuard.Rate.{window_limit, accepted, passed}

abbrev plain : String → String
plain s = s

abbrev marked : String → String
marked s = Str.◌∷◌ "h" s

abbrev idle : Guard
idle = record { nonces = []; buckets = [] }

abbrev replay_config : ReplayConfig
replay_config = record {
  timestamp_tolerance_seconds = 300;
  nonce_ttl_seconds = 600;
  max_nonces = 10;
}

abbrev seen : Guard
seen = record { nonces = ("shop:abcdefghijkl", record { expires_at = 601000 }) ∷ []; buckets = [] }

abbrev between : Replay.Call
between = record { now = 1500; subject = "shop"; nonce = "mnopqrstuvwx"; config = replay_config }

nonce_replay_refused_example :
    (assert_nonce_not_replayed plain 2000 "shop" "abcdefghijkl" replay_config
      (Replay.run plain (between ∷ []) seen)).1
    ≡ err signature_nonce_replayed
unfolding Replay.InTime Replay.run Replay.call assert_nonce_not_replayed is_bad_nonce use_nonce
    nonce_key prune trim length16 Dict.has Dict.set truthy
nonce_replay_refused_example =
    nonce_replay_refused plain 1000 2000 "shop" "abcdefghijkl" replay_config replay_config idle seen
      (between ∷ []) refl (omega arith, omega arith, tt) (omega arith) (omega arith)

nonces_bounded_example :
    let answer = assert_nonce_not_replayed marked 1000 "shop" "abcdefghijkl" replay_config idle in
    HasKeys answer.0.nonces
    × ((IsBadLength "abcdefghijkl" × (answer.1 ≡ err signature_nonce_required) × (answer.0 ≡ idle))
        ⊎ ((length answer.0.nonces ≤ 11)
            × (answer.1 ≡ err signature_nonce_replayed → length answer.0.nonces ≤ 10)))
unfolding trim
nonces_bounded_example =
    nonces_bounded marked 1000 "shop" "abcdefghijkl" replay_config idle (λ s. refl) tt

abbrev rate_config : RateConfig
rate_config = record { window_ms = 60000; max_requests = 2; max_subjects = 10 }

abbrev request : ℕ → Rate.Call
request now = record { now = now; subject = "shop" }

window_limit_example :
    (passed (Rate.call plain rate_config (omega arith) (omega arith) (request 1000) idle).1 ≡ true)
    × Rate.CountsFor
        (Rate.call plain rate_config (omega arith) (omega arith) (request 1000) idle).0
        "shop"
        61000
        1
    × (accepted plain rate_config
          (omega arith)
          (omega arith)
          "shop"
          (request 1000 ∷ request 2000 ∷ request 3000 ∷ [])
          idle
        ≤ 2)
unfolding Dict.get rate_key trim truthy
window_limit_example =
    window_limit plain rate_config (omega arith) (omega arith) (request 1000) idle
      (request 2000 ∷ request 3000 ∷ []) refl (omega arith, (omega arith, tt)) (omega arith)
