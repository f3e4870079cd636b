-- ===== src/ServiceConsents/Tests.antt =====
-- The guard on a concrete store.
use orbi_pay_gateway_v.Prelude.Text.{slug}
use orbi_pay_gateway_v.Prelude.{
  ◌≡◌, ◌↔◌, ◌⊎◌, ◌<◌, In, false, none, refl, true, String, Option, some, List, [], ◌∷◌, ok,
  includes,
}
use orbi_pay_gateway_v.Prelude.Text.{is_empty}
use orbi_pay_gateway_v.Environments.{sandbox}
use orbi_pay_gateway_v.Prelude.Dict
use orbi_pay_gateway_v.Consents.Answers.{InEnvironment}
use orbi_pay_gateway_v.Consents.Data.{Receipt, revoked, status_eq}
use orbi_pay_gateway_v.Consents.Tests.{agreed}
use orbi_pay_gateway_v.ServiceConsents.{assert_scoped_consent}
use orbi_pay_gateway_v.ServiceConsents.Guard.{assert_scoped_consent_iff}

abbrev granted : List String
granted = "balance:read" ∷ []

abbrev portal : String → Option (List String)
portal service = some granted

assert_scoped_consent_iff_example :
    (assert_scoped_consent portal 2000 "shop" "balance:read" "asha" (some sandbox) agreed ≡ ok tt)
    ↔ ((portal "shop" ≡ none)
        ⊎ ((scopes : List String) × (portal "shop" ≡ some scopes)
            × (includes "balance:read" scopes ≡ true)
            × (is_empty "asha" ≡ false)
            × (r : Receipt) × In r (Dict.values agreed)
            × (r.service_code ≡ "shop")
            × (r.subject_id ≡ "asha")
            × (r.revoked_at ≡ none)
            × (status_eq r.status revoked ≡ false)
            × (2000 < r.expires_at)
            × InEnvironment (some sandbox) r.environment
            × (includes "balance:read" r.scopes ≡ true)))
unfolding slug
assert_scoped_consent_iff_example =
    assert_scoped_consent_iff portal 2000 "shop" "balance:read" "asha" (some sandbox) agreed refl
