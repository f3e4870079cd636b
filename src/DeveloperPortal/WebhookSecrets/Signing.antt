-- ===== src/DeveloperPortal/WebhookSecrets/Signing.antt =====
-- services/developerPortalStore.ts: the secret that signs webhooks.
use mathlib.Core.Path.{subst}
use orbi_pay_gateway_v.Prelude.{
  ℕ, ◌≡◌, refl, ap, ◌∙◌, Bool, true, ltb, String, Option, some, List, [], ◌∷◌, ◌++◌, ok, ok-eq,
  ◌>>=◌, >>-eq-ok, all, filter, arith, sort_descending, insert_by, some-eq,
}
use orbi_pay_gateway_v.Prelude.Json.{Json}
use orbi_pay_gateway_v.Environments.{Environment, env_eq_iff}
use orbi_pay_gateway_v.DeveloperPortal.{Call, get_mutable_service, store_service, add_event}
use orbi_pay_gateway_v.DeveloperPortal.Domains.{assert_live_credential_eligibility}
use orbi_pay_gateway_v.DeveloperPortal.Keys.{cut_over, is_unexpired}
use orbi_pay_gateway_v.DeveloperPortal.Keys.Histories.{all-cut_over}
use orbi_pay_gateway_v.DeveloperPortal.WebhookSecrets.{
  with_secrets, new_secret, is_signing, first, signing_secrets, issue_webhook_secret,
  get_active_webhook_signing_secret,
}
use orbi_pay_gateway_v.DeveloperPortal.Soundness.Effects.{get-store_service}
use orbi_pay_gateway_v.DeveloperPortal.Data.{Credential, Service, IssueRequest, State}

-- The secret was issued before the time.
abbrev pub is_issued_before : ℕ → Credential → Bool
is_issued_before t w = ltb w.issued_at t

first-insert_by :
    (w new : Credential) (ws : List Credential)
    → is_issued_before new.issued_at w ≡ true
    → first ws ≡ some new
    → first (insert_by (λ (c : Credential). c.issued_at) w ws) ≡ some new
unfolding insert_by
first-insert_by w new [] h e = absurd (cc)
first-insert_by w new (v ∷ ws) h e =
    let same = ap (λ (c : Credential). c.issued_at) (some-eq e) in
    rw (ap (λ n. ltb w.issued_at n) same ∙ h) e

first-sort_descending :
    (new : Credential) (ws : List Credential)
    → all (is_issued_before new.issued_at) ws ≡ true
    → first (sort_descending (λ (c : Credential). c.issued_at) (ws ++ new ∷ [])) ≡ some new
unfolding all sort_descending insert_by
first-sort_descending new [] h = refl
first-sort_descending new (w ∷ ws) h =
    first-insert_by w new _ (ground arith) (first-sort_descending new ws (ground arith))

all-filter :
    (p q : Credential → Bool) (ws : List Credential) → all p ws ≡ true → all p (filter q ws) ≡ true
unfolding all filter
all-filter p q [] h = refl
all-filter p q (w ∷ ws) h = ground (arith, all-filter p q ws (ground arith))

filter-append_kept :
    (p : Credential → Bool) (ws : List Credential) (new : Credential)
    → p new ≡ true
    → filter p (ws ++ new ∷ []) ≡ filter p ws ++ new ∷ []
unfolding filter
filter-append_kept p [] new h = rw h refl
filter-append_kept p (w ∷ ws) new h = ground (arith, filter-append_kept p ws new h)

first-signing_secrets :
    (now : ℕ) (asked : Option Environment) (e : Environment) (new : Credential)
    (ws : List Credential)
    → is_signing now asked new ≡ true
    → all (is_issued_before new.issued_at) ws ≡ true
    → first (signing_secrets now asked (cut_over e ws ++ new ∷ [])) ≡ some new
unfolding signing_secrets
first-signing_secrets now asked e new ws signs older =
    rw (filter-append_kept (is_signing now asked) (cut_over e ws) new signs) (
      first-sort_descending new _ (
        all-filter _ (is_signing now asked) (cut_over e ws)
          (all-cut_over _ e ws (λ k. refl) older)))

signs :
    (unseal : Json → Option String) (now : ℕ) (code secret : String) (asked : Option Environment)
    (t : State) (y : Service) (w : Credential) (sealed : Json)
    → get_mutable_service code t ≡ ok y
    → first (signing_secrets now asked y.webhook_secrets) ≡ some w
    → w.encrypted_secret ≡ some sealed
    → unseal sealed ≡ some secret
    → get_active_webhook_signing_secret unseal now code asked t ≡ ok secret
unfolding get_active_webhook_signing_secret
signs unseal now code secret asked t y w sealed found chosen kept opened =
    rw (found, ◌>>=◌, chosen, kept, opened) refl

module _ (hash : String → String) (encrypt : String → Json) (unseal : Json → Option String)
    (hostname_of : String → Option String) where
  -- The webhook secret of a service and environment that was just issued is the one that signs, and it
  -- is what the issuer was shown, as long as it has not run out and every other secret of the service
  -- was issued earlier, if secrets are kept sealed and the vault opens this one.
  pub issue_webhook_secret-get :
      (call : Call) (code : String) (request : IssueRequest) (s : State) (now : ℕ) {x : Service}
      {t : State} {y : Service} {w : Credential} {secret : String}
      → get_mutable_service code s ≡ ok x
      → all (is_issued_before call.now) x.webhook_secrets ≡ true
      → issue_webhook_secret hash (some encrypt) hostname_of call code request s
        ≡ ok (t, y, w, secret)
      → is_unexpired now w ≡ true
      → unseal (encrypt secret) ≡ some secret
      → get_active_webhook_signing_secret unseal now code (some request.environment) t ≡ ok secret
  unfolding issue_webhook_secret get_active_webhook_signing_secret with_secrets new_secret add_event
      store_service
  issue_webhook_secret-get call code request s now {x} {t} {y} {w} {secret} found older e unexpired
        opens =
      let after = rw (found, issue_webhook_secret) at e in
      let (_, rest) =
        >>-eq-ok
          (assert_live_credential_eligibility hostname_of x.service_code request.environment s) _
          after in
      subst
        (λ (p : State × Service × Credential × String).
          is_unexpired now p.2 ≡ true
          → unseal (encrypt p.3) ≡ some p.3
          → get_active_webhook_signing_secret unseal now code (some request.environment) p.0
            ≡ ok p.3)
        (ok-eq rest)
        (λ lasts opened.
          signs unseal now code _ (some request.environment) _ _ _ _
            (get-store_service code s _ x _ found refl refl)
            (first-signing_secrets now (some request.environment) request.environment
              (new_secret hash (some encrypt) hostname_of call request.environment
                request.expires_at)
              x.webhook_secrets (rw (lasts, (env_eq_iff _ request.environment).1 refl) refl) older)
            refl opened)
        unexpired opens
