-- ===== src/RefreshTokens/Tests.antt =====
-- Refresh tokens on concrete stores, with texts that are their own hashes.
use orbi_pay_gateway_v.Prelude.{
  ◌≡◌, refl, Bool, true, false, String, none, List, [], ◌∷◌, ◌↔◌, includes,
}
use orbi_pay_gateway_v.Prelude.{add}
use orbi_pay_gateway_v.Prelude.Dict
use orbi_pay_gateway_v.Environments.{sandbox}
use orbi_pay_gateway_v.RefreshTokens.Data.{
  Context, IssueInput, SubjectFilter, rotated, reuse_detected, invalid,
}
use orbi_pay_gateway_v.RefreshTokens.{
  Store, MemoryToken, empty, new_token, family_context, revoke_family, is_unusable, issue, replace,
  rotate_token, rotate, revoke_by_service, revoke_matching, revoke_if,
}
use orbi_pay_gateway_v.RefreshTokens.History
use orbi_pay_gateway_v.RefreshTokens.History.{Reach, here, next, Step}
use orbi_pay_gateway_v.RefreshTokens.Single.{
  is_rotated, is_reuse, IsStanding, rotate_succeeds_iff, rotate_once, reuse_ends_family,
}
use orbi_pay_gateway_v.RefreshTokens.Family.{HasSingleLive, Reach-empty-HasSingleLive}

abbrev plain : String → String
plain s = s

abbrev shop : Context
shop = record {
  family_id = "rtf_f";
  service_code = "shop";
  environment = sandbox;
  subject_id = "asha";
  consent_id = "consent_1";
  scopes = "balance:read" ∷ [];
  identity_issuer = "https://id.example";
}

abbrev input : IssueInput
input = record {
  service_code = "shop";
  environment = sandbox;
  subject_id = "asha";
  consent_id = "consent_1";
  scopes = "balance:read" ∷ [];
  identity_issuer = "https://id.example";
}

abbrev token : Bool → String → MemoryToken
token consumed hash = record {
  context = shop;
  hash = hash;
  expires_at = 61000;
  consumed = consumed;
  revoked = false;
}

abbrev stored : List (String × MemoryToken) → Store
stored tokens = record { tokens = tokens; family_claims = []; revoked_families = [] }

abbrev issued : Store
issued = stored (("orbi_rt_a", token false "orbi_rt_a") ∷ [])

abbrev once : Store
once = stored (("orbi_rt_a", token true "orbi_rt_a") ∷ ("orbi_rt_b", token false "orbi_rt_b") ∷ [])

abbrev ended : Store
ended = record once { revoked_families = "rtf_f" ∷ [] }

abbrev filter_asha : SubjectFilter
filter_asha = record { subject_id = "asha"; service_code = none; environment = none }

rotate_succeeds_iff_example :
    let answer = rotate plain 2000 "b" "orbi_rt_a" "shop" issued in
    ((is_rotated answer.1 ≡ true) ↔ (
      (t : MemoryToken) × IsStanding plain 2000 "orbi_rt_a" "shop" issued t × (t.consumed ≡ false)))
    × ((is_reuse answer.1 ≡ true) ↔ (
        (t : MemoryToken) × IsStanding plain 2000 "orbi_rt_a" "shop" issued t
        × (t.consumed ≡ true)))
    × (is_rotated answer.1 ≡ false → is_reuse answer.1 ≡ false → answer ≡ (issued, invalid))
rotate_succeeds_iff_example = rotate_succeeds_iff plain 2000 "b" "orbi_rt_a" "shop" issued

first_rotation : rotate plain 2000 "b" "orbi_rt_a" "shop" issued ≡ (once, rotated "orbi_rt_b" shop)
unfolding rotate rotate_token is_unusable replace new_token Dict.get Dict.set includes
first_rotation = refl

rotate_once_example : is_rotated (rotate plain 9000 "c" "orbi_rt_a" "shop" ended).1 ≡ false
unfolding Dict.get Dict.values new_token revoke_by_service revoke_matching revoke_if revoke_family
    add includes
rotate_once_example =
    rotate_once plain 2000 9000 "b" "c" "orbi_rt_a" "shop" "shop" issued once ended "orbi_rt_b" shop
      first_rotation refl (next here (Step.revokes_service "shop"))

reuse : rotate plain 3000 "c" "orbi_rt_a" "shop" once ≡ (ended, reuse_detected shop [])
unfolding rotate rotate_token is_unusable revoke_family add Dict.get includes
reuse = refl

reuse_ends_family_example : rotate plain 4000 "d" "orbi_rt_b" "shop" ended ≡ (ended, invalid)
unfolding Dict.get
reuse_ends_family_example =
    reuse_ends_family plain 3000 4000 "c" "d" "orbi_rt_a" "orbi_rt_b" "shop" "shop" once ended ended
      shop [] (token false "orbi_rt_b") reuse here refl refl

IsNewFamily-empty : History.IsNewFamily (family_context "f" input).family_id empty
unfolding empty Dict.get
IsNewFamily-empty h t e = absurd (cc)

Reach-empty-HasSingleLive_example :
    HasSingleLive
      (rotate plain 2000 "b" "orbi_rt_a" "shop" (issue plain 60 1000 "a" "f" input empty).0).0
unfolding rotate rotate_token is_unusable replace new_token Dict.get Dict.set includes empty issue
Reach-empty-HasSingleLive_example = Reach-empty-HasSingleLive plain (
    next (next here (Step.issues 60 1000 "a" "f" input refl IsNewFamily-empty))
      (Step.rotates 2000 "b" "orbi_rt_a" "shop" refl))
