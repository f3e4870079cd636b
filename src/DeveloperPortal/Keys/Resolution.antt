-- ===== src/DeveloperPortal/Keys/Resolution.antt =====
-- services/developerPortalStore.ts: what `resolveApiKey` finds.
use mathlib.Core.Path.{subst}
use orbi_pay_gateway_v.Prelude.{
  ℕ, ◌≡◌, refl, true, ◌&&◌, ◌==◌, String, some, List, [], ◌∷◌, find, find-some, In, inl, inr,
  Bool-cases, Option-cases, some-eq, arith, eq_iff,
}
use orbi_pay_gateway_v.DeveloperPortal.Keys.{
  ResolvedKey, is_usable, fingerprint, resolve_among, resolve_api_key,
}
use orbi_pay_gateway_v.DeveloperPortal.Data.{is_active, Credential, Service, State}

-- The service and the key behind an answer.
pub record IsHeldBy (now : ℕ) (fp : String) (xs : List Service) (r : ResolvedKey) : Type 0 where
  pub credential : Credential
  pub service_in : In r.service xs
  pub key_in : In credential r.service.keys
  pub key_id : r.key_id ≡ credential.id
  pub environment : r.environment ≡ credential.environment
  pub active : is_active r.service.status ≡ true
  pub usable : is_usable now credential ≡ true
  pub fingerprint : credential.fingerprint ≡ fp

later :
    {now : ℕ} {fp : String} {x : Service} {xs : List Service} {r : ResolvedKey}
    → IsHeldBy now fp xs r
    → IsHeldBy now fp (x ∷ xs) r
later h = record {
  credential = h.credential;
  service_in = inr h.service_in;
  key_in = h.key_in;
  key_id = h.key_id;
  environment = h.environment;
  active = h.active;
  usable = h.usable;
  fingerprint = h.fingerprint;
}

resolved : Service → Credential → ResolvedKey
resolved x k = record {
  service = x;
  key_id = k.id;
  environment = k.environment;
  fingerprint = k.fingerprint;
  issued_at = k.issued_at;
  expires_at = k.expires_at;
}

resolved-IsHeldBy :
    (now : ℕ) (fp : String) (x : Service) (xs : List Service) (k : Credential)
    → is_active x.status ≡ true
    → find (λ j. is_usable now j && j.fingerprint == fp) x.keys ≡ some k
    → IsHeldBy now fp (x ∷ xs) (resolved x k)
unfolding resolved
resolved-IsHeldBy now fp x xs k active found =
    let (fits, there) = find-some _ x.keys found in
    record {
      credential = k;
      service_in = inl refl;
      key_in = there;
      key_id = refl;
      environment = refl;
      active = active;
      usable = ground (arith, fits);
      fingerprint = (eq_iff k.fingerprint fp).0 (ground (arith, fits));
    }

module _ (hash : String → String) where
  resolve_among-IsHeldBy :
      (now : ℕ) (fp : String) (xs : List Service) {r : ResolvedKey}
      → resolve_among hash now fp xs ≡ some r
      → IsHeldBy now fp xs r
  unfolding resolve_among
  resolve_among-IsHeldBy now fp [] e = absurd (cc)
  resolve_among-IsHeldBy now fp (x ∷ xs) e = elim (Bool-cases (is_active x.status)) [
    | inr h ↦ later (resolve_among-IsHeldBy now fp xs (rw h at e))
    | inl h ↦ elim (Option-cases (find (λ k. is_usable now k && k.fingerprint == fp) x.keys)) [
      | inl n ↦ later (resolve_among-IsHeldBy now fp xs (rw (h, n) at e))
      | inr (k, f) ↦
          subst (IsHeldBy now fp (x ∷ xs)) (some-eq (rw (h, f) at e))
            (unfold resolved in resolved-IsHeldBy now fp x xs k h f)
    ]
  ]

  -- A key that is resolved stands in a service of the store that is active. It is active or waits for
  -- its cutover, it has not run out, and its fingerprint is that of the secret.
  pub resolve_api_key-IsHeldBy :
      (now : ℕ) (secret : String) (s : State) {r : ResolvedKey}
      → resolve_api_key hash now secret s ≡ some r
      → IsHeldBy now (fingerprint hash secret) s.services r
  unfolding resolve_api_key
  resolve_api_key-IsHeldBy now secret s e =
      resolve_among-IsHeldBy now (fingerprint hash secret) s.services e
