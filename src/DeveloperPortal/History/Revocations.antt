-- ===== src/DeveloperPortal/History/Revocations.antt =====
-- services/developerPortalStore.ts: API keys after their revocation.
use mathlib.Core.Path.{subst}
use orbi_pay_gateway_v.Prelude.{
  ℕ, ◌≡◌, refl, sym, ap, ◌∙◌, ◌≢◌, true, ◌||◌, ◌&&◌, ◌==◌, replace_first, String, some, List, [],
  ◌∷◌, ok, find, find-some, find-replace_first, find-replace_first_other, some-eq, any-false-In, In,
  inl, inr, Bool-cases, eq_iff, eq_refl,
}
use orbi_pay_gateway_v.DeveloperPortal.{Call, empty_state, has_code}
use orbi_pay_gateway_v.DeveloperPortal.Keys.{
  is_unexpired, ResolvedKey, resolve_api_key, revoke_api_key,
}
use orbi_pay_gateway_v.DeveloperPortal.Keys.Outcomes.{revoke_api_key-IsSpent}
use orbi_pay_gateway_v.DeveloperPortal.Keys.Resolution.{resolve_api_key-IsHeldBy}
use orbi_pay_gateway_v.DeveloperPortal.Soundness.{
  HasDistinctCodes, IsSpent, IsValid, Effect, untouched, created, changed,
}
use orbi_pay_gateway_v.DeveloperPortal.History.{
  Outside, revokes_key, Reach, here, next, Step-Effect, Reach-IsValid, Reach-empty_state-IsValid,
}
use orbi_pay_gateway_v.DeveloperPortal.Data.{
  is_current, is_cutover, Credential, Service, RevokeRequest, State,
}

-- The service with the code has a key with the identifier, and it is revoked.
pub record IsRevoked (code id : String) (s : State) : Type 0 where
  pub service : Service
  pub found : find (has_code code) s.services ≡ some service
  pub spent : IsSpent id service.keys

Effect-IsRevoked :
    (code id : String) {s t : State} → Effect s t → IsRevoked code id s → IsRevoked code id t
unfolding find
Effect-IsRevoked code id (untouched same) v = record {
  service = v.service;
  found = ap (find (has_code code)) same ∙ v.found;
  spent = v.spent;
}
Effect-IsRevoked code id {s} (created x same new sound) v = record {
  service = v.service;
  found =
      ap (find (has_code code)) same
      ∙ elim (Bool-cases (has_code code x)) [ inl h ↦ absurd (clash h) | inr h ↦ rw h v.found ];
  spent = v.spent;
}
  where
    clash : has_code code x ≡ true → ⊥
    clash h =
        let (fits, there) = find-some _ s.services v.found in
        cc (
          fits,
          any-false-In (has_code x.service_code) s.services v.service new there,
          ap (λ c. v.service.service_code == c) ((eq_iff x.service_code code).0 h),
        )
Effect-IsRevoked code id {s} (changed x y found same change) v =
    elim (Bool-cases (has_code code y)) [
      | inl h ↦
          let named = (eq_iff y.service_code code).0 h in
          let it =
            some-eq (sym v.found ∙ ap (λ c. find (has_code c) s.services) (sym named) ∙ found) in
          record {
            service = y;
            found =
                ap (find (has_code code)) same
                ∙ subst
                    (λ c.
                      find (has_code c) (replace_first (has_code y.service_code) y s.services)
                      ≡ some y)
                    named
                    (find-replace_first (has_code y.service_code) y x s.services found
                      (eq_refl y.service_code));
            spent = change.spent id (subst (λ (z : Service). IsSpent id z.keys) it v.spent);
          }
      | inr h ↦ record {
        service = v.service;
        found =
            ap (find (has_code code)) same
            ∙ find-replace_first_other (has_code y.service_code) (has_code code) y x s.services
                found h (ap (λ c. c == code) (sym change.code) ∙ h)
            ∙ v.found;
        spent = v.spent;
      }
    ]

-- A service of a list without double codes is the one that a search for its code finds.
find-distinct :
    (x : Service) (xs : List Service)
    → HasDistinctCodes xs
    → In x xs
    → find (has_code x.service_code) xs ≡ some x
unfolding find
find-distinct x [] v i = absurd i
find-distinct x (y ∷ xs) v (inl e) =
    subst (λ (z : Service). find (has_code z.service_code) (y ∷ xs) ≡ some z) e
      (rw (eq_refl y.service_code) refl)
find-distinct x (y ∷ xs) v (inr i) = elim (Bool-cases (has_code x.service_code y)) [
  | inr h ↦ rw h (find-distinct x xs v.1 i)
  | inl h ↦ absurd (
      cc (
        any-false-In (has_code y.service_code) xs x v.0 i,
        eq_refl x.service_code,
        (eq_iff y.service_code x.service_code).0 h,
      ))
]

module _ (o : Outside) where
  Reach-IsRevoked :
      (code id : String) {s t : State} → Reach o s t → IsRevoked code id s → IsRevoked code id t
  Reach-IsRevoked code id here v = v
  Reach-IsRevoked code id (next r st) v =
      Effect-IsRevoked code id (Step-Effect o st) (Reach-IsRevoked code id r v)

  IsRevoked-unresolved :
      (now : ℕ) (code id secret : String) (s : State) {r : ResolvedKey}
      → IsValid s
      → IsRevoked code id s
      → resolve_api_key o.hash now secret s ≡ some r
      → r.service.service_code ≡ code
      → r.key_id ≢ id
  IsRevoked-unresolved now code id secret s {r} v w e owner named =
      let h = resolve_api_key-IsHeldBy o.hash now secret s e in
      let same = some-eq (
        sym (find-distinct r.service s.services v.codes h.service_in)
        ∙ ap (λ c. find (has_code c) s.services) owner
        ∙ w.found) in
      let stopped =
        w.spent.1 h.credential (subst (λ (z : Service). In h.credential z.keys) same h.key_in)
          ((eq_iff h.credential.id id).1 (sym h.key_id ∙ named)) in
      absurd (
        cc (
          h.usable,
          ap (λ st. (is_current st || is_cutover st) && is_unexpired now h.credential) stopped,
        ))

  -- A revocation is final: after any sequence of calls on the empty store, once a key was revoked, no
  -- secret resolves to this key of this service at any later time, whatever calls follow. In all these
  -- calls the identifiers of new API keys are not in use.
  pub revoke_api_key_final :
      (call : Call) (code id : String) (request : RevokeRequest) (now : ℕ) (secret : String)
      {s t u : State} {x : Service} {k : Credential} {r : ResolvedKey}
      → Reach o empty_state s
      → revoke_api_key call code id request s ≡ ok (t, x, k)
      → Reach o t u
      → resolve_api_key o.hash now secret u ≡ some r
      → r.service.service_code ≡ x.service_code
      → r.key_id ≢ id
  revoke_api_key_final call code id request now secret {s} {t} {u} {x} first e later resolved
        owner =
      let before = Reach-empty_state-IsValid o first in
      let after = Reach-IsValid o (next here (revokes_key call code id request e)) before in
      let (found, spent) = revoke_api_key-IsSpent call code id request s before e in
      IsRevoked-unresolved now x.service_code id secret u (Reach-IsValid o later after)
        (Reach-IsRevoked x.service_code id later
          (record { service = x; found = found; spent = spent }))
        resolved owner
