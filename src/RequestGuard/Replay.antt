-- ===== src/RequestGuard/Replay.antt =====
-- security/financialRequestGuard.ts: the nonce cache over a sequence of calls.
use mathlib.Core.Path.{subst}
use orbi_pay_gateway_v.Prelude.{
  ℕ, ◌+◌, ◌*◌, ◌≤◌, ◌<◌, ◌≡◌, refl, ap, true, false, String, some, List, [], ◌∷◌, length, arith,
  eq_iff, Bool-cases, inl, inr, Result, ok, err, ◌⊎◌, ltb, ltb→lt,
}
use orbi_pay_gateway_v.Prelude.Dict
use orbi_pay_gateway_v.Prelude.Dict.{Dict, get-set, get-set_self, length-set-le}
use orbi_pay_gateway_v.Prelude.Text.{trim, is_empty, length16}
use orbi_pay_gateway_v.RequestGuard.{
  Guard, Error, NonceRecord, ReplayConfig, signature_nonce_replayed, signature_nonce_required,
  nonce_key, use_nonce, is_bad_nonce, assert_nonce_not_replayed,
}
use orbi_pay_gateway_v.RequestGuard.Cache.{prune, get-prune, HasKeys, set-HasKeys, prune-HasKeys}

pub record Call : Type 0 where
  pub now : ℕ
  pub subject : String
  pub nonce : String
  pub config : ReplayConfig

-- A key is in the cache, with its expiry.
abbrev pub Holds : Guard → String → ℕ → Type 0
Holds g key expiry = Dict.get key g.nonces ≡ some (record { expires_at = expiry })

-- Of no length that a nonce may have, in UTF-16 units.
abbrev pub IsBadLength : String → Type 0
IsBadLength t = (is_empty t ≡ true) ⊎ ((length16 t < 12) ⊎ (120 < length16 t))

module _ (now : ℕ) (key : String) (config : ReplayConfig) (g : Guard) where
  use_nonce-Holds :
      (other : String) (expiry : ℕ)
      → Holds g other expiry
      → now < expiry
      → length g.nonces ≤ config.max_nonces
      → Holds (use_nonce now key config g).0 other expiry
  unfolding use_nonce Dict.has
  use_nonce-Holds other expiry h fresh small =
      let kept =
        get-prune (λ (r : NonceRecord). r.expires_at) now config.max_nonces other g.nonces h fresh
          small in
      let pruned = prune (λ (r : NonceRecord). r.expires_at) now config.max_nonces g.nonces in
      ground (
        arith,
        kept,
        get-set key other (record { expires_at = now + config.nonce_ttl_seconds * 1000 }) pruned,
        eq_iff key other,
      )

  use_nonce_replayed :
      (expiry : ℕ)
      → Holds g key expiry
      → now < expiry
      → length g.nonces ≤ config.max_nonces
      → (use_nonce now key config g).1 ≡ err signature_nonce_replayed
  unfolding use_nonce Dict.has
  use_nonce_replayed expiry h fresh small =
      let kept =
        get-prune (λ (r : NonceRecord). r.expires_at) now config.max_nonces key g.nonces h fresh
          small in
      ground (arith, kept)

  use_nonce_ok :
      (use_nonce now key config g).1 ≡ ok tt
      → Holds (use_nonce now key config g).0 key (now + config.nonce_ttl_seconds * 1000)
  unfolding use_nonce
  use_nonce_ok e =
      let pruned = prune (λ (r : NonceRecord). r.expires_at) now config.max_nonces g.nonces in
      ground (
        arith,
        get-set_self key (record { expires_at = now + config.nonce_ttl_seconds * 1000 }) pruned,
      )

  use_nonce_bounded :
      is_empty key ≡ false
      → HasKeys g.nonces
      → HasKeys (use_nonce now key config g).0.nonces
        × (length (use_nonce now key config g).0.nonces ≤ config.max_nonces + 1)
        × ((use_nonce now key config g).1 ≡ err signature_nonce_replayed
            → length (use_nonce now key config g).0.nonces ≤ config.max_nonces)
  unfolding use_nonce
  use_nonce_bounded digest keys =
      let pruned = prune (λ (r : NonceRecord). r.expires_at) now config.max_nonces g.nonces in
      let entry : NonceRecord = record { expires_at = now + config.nonce_ttl_seconds * 1000 } in
      let (kept, size) =
        prune-HasKeys (λ (r : NonceRecord). r.expires_at) now config.max_nonces g.nonces keys in
      let after = set-HasKeys key entry pruned digest kept in
      let grown = length-set-le key entry pruned in ground (arith, after, grown, kept, size)

module _ (hash : String → String) where
  unfoldable pub call : Call → Guard → Guard × Result Error (Unit {0})
  call c = assert_nonce_not_replayed hash c.now c.subject c.nonce c.config

  unfoldable pub run : List Call → Guard → Guard
  unfolding call
  run [] g = g
  run (c ∷ cs) g = run cs (call c g).0

  call-Holds :
      (c : Call) (g : Guard) (key : String) (expiry : ℕ)
      → Holds g key expiry
      → c.now < expiry
      → length g.nonces ≤ c.config.max_nonces
      → Holds (call c g).0 key expiry
  unfolding call assert_nonce_not_replayed
  call-Holds c g key expiry h fresh small =
      let used = nonce_key hash c.subject c.nonce in
      ground (arith, use_nonce-Holds c.now used c.config g key expiry h fresh small)

  -- Every call is made before the expiry, and finds no more entries in the cache than its
  -- configuration has room for.
  unfoldable pub InTime : ℕ → List Call → Guard → Type 0
  InTime expiry [] g = Unit
  InTime expiry (c ∷ cs) g =
      (c.now < expiry) × (length g.nonces ≤ c.config.max_nonces) × InTime expiry cs (call c g).0

  run-Holds :
      (cs : List Call) (g : Guard) (key : String) (expiry : ℕ)
      → Holds g key expiry
      → InTime expiry cs g
      → Holds (run cs g) key expiry
  unfolding run InTime
  run-Holds [] g key expiry h t = h
  run-Holds (c ∷ cs) g key expiry h t =
      run-Holds cs (call c g).0 key expiry (call-Holds c g key expiry h t.0 t.1) t.2

  -- A nonce that was accepted is refused as replayed, whatever calls lie between, as long as every
  -- one of these calls and the repetition itself is made before the nonce's time is over and finds
  -- no more entries in the cache than its configuration has room for.
  pub nonce_replay_refused :
      (now later : ℕ) (subject nonce : String) (config config' : ReplayConfig) (g g' : Guard)
      (calls : List Call)
      → assert_nonce_not_replayed hash now subject nonce config g ≡ (g', ok tt)
      → InTime (now + config.nonce_ttl_seconds * 1000) calls g'
      → later < now + config.nonce_ttl_seconds * 1000
      → length (run calls g').nonces ≤ config'.max_nonces
      → (assert_nonce_not_replayed hash later subject nonce config' (run calls g')).1
        ≡ err signature_nonce_replayed
  unfolding assert_nonce_not_replayed
  nonce_replay_refused now later subject nonce config config' g g' calls e between soon room =
      elim (Bool-cases (is_bad_nonce (trim nonce))) [
        | inl bad ↦ absurd (ground arith)
        | inr good ↦
            let first : use_nonce now (nonce_key hash subject nonce) config g ≡ (g', ok tt) =
              rw good at e in
            let held =
              subst
                (λ (x : Guard).
                  Holds x (nonce_key hash subject nonce) (now + config.nonce_ttl_seconds * 1000))
                (ap (λ p. p.0) first)
                (use_nonce_ok now (nonce_key hash subject nonce) config g (ap (λ p. p.1) first)) in
            let kept = run-Holds calls g' _ _ held between in
            rw good (
              use_nonce_replayed later (nonce_key hash subject nonce) config' (run calls g')
                (now + config.nonce_ttl_seconds * 1000) kept soon room)
      ]

  -- A nonce that the check of its length refuses is empty, shorter than 12 or longer than 120 units.
  bad_length : (t : String) → is_bad_nonce t ≡ true → IsBadLength t
  unfolding is_bad_nonce
  bad_length t h = elim (Bool-cases (is_empty t)) [
    | inl e ↦ inl e
    | inr e ↦ elim (Bool-cases (ltb (length16 t) 12)) [
      | inl short ↦ inr (inl (ltb→lt _ _ short))
      | inr long ↦ inr (inr (ltb→lt _ _ (rw (e, long, is_bad_nonce) at h)))
    ]
  ]

  -- When no hash is the empty text and no key of the cache is: a call refuses the nonce, because its
  -- trimmed text is empty, shorter than 12 or longer than 120 UTF-16 units, and leaves the cache as
  -- it was, or it leaves at most one entry more than its configuration's bound, and no more than the
  -- bound if it refuses the nonce as replayed. Afterwards no key of the cache is the empty text.
  pub nonces_bounded :
      (now : ℕ) (subject nonce : String) (config : ReplayConfig) (g : Guard)
      → ((s : String) → is_empty (hash s) ≡ false)
      → HasKeys g.nonces
      → let answer = assert_nonce_not_replayed hash now subject nonce config g in
        HasKeys answer.0.nonces
        × ((IsBadLength (trim nonce) × (answer.1 ≡ err signature_nonce_required) × (answer.0 ≡ g))
            ⊎ ((length answer.0.nonces ≤ config.max_nonces + 1)
                × (answer.1 ≡ err signature_nonce_replayed
                    → length answer.0.nonces ≤ config.max_nonces)))
  unfolding assert_nonce_not_replayed nonce_key
  nonces_bounded now subject nonce config g digest keys =
      elim (Bool-cases (is_bad_nonce (trim nonce))) [
        | inl bad ↦ rw bad (keys, inl (bad_length (trim nonce) bad, refl, refl))
        | inr good ↦
            let (used, size, replayed) =
              use_nonce_bounded now (nonce_key hash subject nonce) config g (digest _) keys in
            rw good (used, inr (size, replayed))
      ]
