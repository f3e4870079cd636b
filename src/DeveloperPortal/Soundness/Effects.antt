-- ===== src/DeveloperPortal/Soundness/Effects.antt =====
-- services/developerPortalStore.ts: the invariant of the services, under the effect of one call.
use mathlib.Core.Path.{subst}
use orbi_pay_gateway_v.Prelude.{
  ◌≡◌, refl, sym, ap, eq_iff, ◌==◌, ◌∙◌, String, some, List, [], ◌∷◌, any, find, replace_first, In,
  inl, inr, Bool-cases, Option-cases, ok, ok-eq, In-replace_first, any-replace_first, find-some,
  find-replace_first,
}
use orbi_pay_gateway_v.DeveloperPortal.{has_code, service_slug, get_mutable_service, store_service}
use orbi_pay_gateway_v.DeveloperPortal.Data.{Service, State}
use orbi_pay_gateway_v.DeveloperPortal.Soundness.{
  HasOneActive, HasDistinctIds, IsSpent, HasSeparateScopes, IsSound, HasDistinctCodes, IsValid,
  Change, Effect, untouched, created, changed,
}

replace_first-HasDistinctCodes :
    (x y : Service) (xs : List Service)
    → find (has_code y.service_code) xs ≡ some x
    → y.service_code ≡ x.service_code
    → HasDistinctCodes xs
    → HasDistinctCodes (replace_first (has_code y.service_code) y xs)
unfolding find replace_first
replace_first-HasDistinctCodes x y [] e same v = absurd (cc)
replace_first-HasDistinctCodes x y (z ∷ xs) e same v =
    elim (Bool-cases (has_code y.service_code z)) [
      | inl h ↦ rw h (
        ap (λ c. any (has_code c) xs) (sym ((eq_iff z.service_code y.service_code).0 h)) ∙ v.0,
        v.1,
      )
      | inr h ↦
          let found = rw h at e in
          rw h (
            any-replace_first (has_code y.service_code) (has_code z.service_code) y x xs found
                  (ap (λ c. c == z.service_code) same)
                ∙ v.0,
            replace_first-HasDistinctCodes x y xs found same v.1,
          )
    ]

-- A call keeps the invariant.
pub Effect-IsValid : {s t : State} → Effect s t → IsValid s → IsValid t
Effect-IsValid (untouched same) v = record {
  codes = subst HasDistinctCodes (sym same) v.codes;
  each = λ x i. v.each x (subst (In x) same i);
}
Effect-IsValid (created x same new sound) v = record {
  codes = subst HasDistinctCodes (sym same) (new, v.codes);
  each = λ y i. elim (subst (In y) same i) [ inl e ↦ subst IsSound e sound | inr j ↦ v.each y j ];
}
Effect-IsValid {s} (changed x y found same change) v = record {
  codes =
      subst HasDistinctCodes (sym same)
        (replace_first-HasDistinctCodes x y s.services found change.code v.codes);
  each = λ z i. elim (In-replace_first _ y z s.services (subst (In z) same i)) [
    | inl e ↦ subst IsSound e (change.sound (v.each x (find-some _ s.services found).1))
    | inr j ↦ v.each z j
  ];
}

pub found-find :
    (code : String) (s : State) (x : Service)
    → get_mutable_service code s ≡ ok x
    → find (has_code x.service_code) s.services ≡ some x
unfolding get_mutable_service
found-find code s x e = elim (Option-cases (find (has_code (service_slug code)) s.services)) [
  | inl n ↦ absurd (cc (rw (n, get_mutable_service) at e))
  | inr (y, h) ↦
      let same = ok-eq (rw (h, get_mutable_service) at e) in
      let coded = (eq_iff y.service_code (service_slug code)).0 (find-some _ s.services h).0 in
      ap (λ (z : Service). find (has_code z.service_code) s.services) (sym same)
      ∙ ap (λ c. find (has_code c) s.services) coded
      ∙ h
      ∙ ap some same
]

-- A service that was found and is stored changed.
pub store_service-Effect :
    (code : String) (s : State) {t : State} (x y : Service)
    → get_mutable_service code s ≡ ok x
    → Change x y
    → t.services ≡ (store_service y s).services
    → Effect s t
unfolding store_service
store_service-Effect code s x y found change same =
    changed x y (ap (λ c. find (has_code c) s.services) change.code ∙ found-find code s x found)
      same change

-- A change that leaves the credentials as they are.
pub scopes-Change :
    (x y : Service)
    → y.service_code ≡ x.service_code
    → y.keys ≡ x.keys
    → y.webhook_secrets ≡ x.webhook_secrets
    → (HasSeparateScopes x → HasSeparateScopes y)
    → Change x y
scopes-Change x y code keys secrets scopes = record {
  code = code;
  sound = λ v. record {
    one_key = subst HasOneActive (sym keys) v.one_key;
    one_secret = subst HasOneActive (sym secrets) v.one_secret;
    key_ids = subst HasDistinctIds (sym keys) v.key_ids;
    scopes = scopes v.scopes;
  };
  spent = λ id v. subst (IsSpent id) (sym keys) v;
}

-- A service that was stored changed is found under the code that it was found under.
pub get-store_service :
    (code : String) (s t : State) (x y : Service)
    → get_mutable_service code s ≡ ok x
    → y.service_code ≡ x.service_code
    → t.services ≡ (store_service y s).services
    → get_mutable_service code t ≡ ok y
unfolding get_mutable_service store_service
get-store_service code s t x y e coded same =
    elim (Option-cases (find (has_code (service_slug code)) s.services)) [
      | inl n ↦ absurd (cc (rw (n, get_mutable_service) at e))
      | inr (z, h) ↦
          let it = ok-eq (rw (h, get_mutable_service) at e) in
          let named =
            coded
            ∙ ap (λ (w : Service). w.service_code) (sym it)
            ∙ (eq_iff z.service_code (service_slug code)).0 (find-some _ s.services h).0 in
          let fits = (eq_iff y.service_code (service_slug code)).1 named in
          let stored =
            ap (find (has_code (service_slug code)))
              (same ∙ ap (λ c. replace_first (has_code c) y s.services) named)
            ∙ find-replace_first (has_code (service_slug code)) y z s.services h fits in
          rw (stored, get_mutable_service) refl
    ]
