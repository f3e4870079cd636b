-- ===== src/RefreshTables/Tests.antt =====
-- Refresh tokens on concrete tables, with texts that are their own hashes.
use orbi_pay_gateway_v.Prelude.{
  ℕ, ◌≡◌, refl, false, String, Option, none, some, [], ◌∷◌, ok, find, any,
}
use orbi_pay_gateway_v.Environments.{sandbox}
use orbi_pay_gateway_v.Sql.{update_where}
use orbi_pay_gateway_v.RefreshTokens.Data.{Context, rotated}
use orbi_pay_gateway_v.RefreshTables.{
  Tables, Family, TokenRow, Lifetimes, select_token, rotate, rotate_row, replace, insert_token,
  token_row, revoke_by_service,
}
use orbi_pay_gateway_v.RefreshTables.History.{Step, here, next}
use orbi_pay_gateway_v.RefreshTables.Rotation.{is_rotated, rotate_in_tables_once}

abbrev plain : String → String
plain s = s

abbrev lifetimes : Lifetimes
lifetimes = record { ttl_seconds = 60; absolute_ttl_seconds = 600 }

abbrev shop : Context
shop = record {
  family_id = "rtf_f";
  service_code = "shop";
  environment = sandbox;
  subject_id = "asha";
  consent_id = "consent_1";
  scopes = "balance:read" ∷ [];
  identity_issuer = "https://id.example";
}

abbrev family : ℕ → Family
family updated_at = record {
  context = shop;
  access_token_claims = [];
  absolute_expires_at = 601000;
  revoked_at = none;
  revoke_reason = none;
  updated_at = updated_at;
}

abbrev token : String → ℕ → Option ℕ → TokenRow
token h expires_at consumed_at = record {
  token_hash = h;
  family_id = "rtf_f";
  expires_at = expires_at;
  consumed_at = consumed_at;
  revoked_at = none;
}

abbrev issued : Tables
issued = record { families = family 1000 ∷ []; tokens = token "orbi_rt_a" 61000 none ∷ [] }

abbrev once : Tables
once = record {
  families = family 2000 ∷ [];
  tokens = token "orbi_rt_b" 62000 none ∷ token "orbi_rt_a" 61000 (some 2000) ∷ [];
}

first :
    rotate plain lifetimes 2000 "b" "orbi_rt_a" "shop" issued ≡ ok (once, rotated "orbi_rt_b" shop)
unfolding rotate rotate_row replace select_token insert_token token_row find any update_where
first = refl

rotate_in_tables_once_example :
    is_rotated (
      rotate plain lifetimes 9000 "c" "orbi_rt_a" "shop"
        (revoke_by_service 3000 "suspended" "mart" once))
    ≡ false
rotate_in_tables_once_example =
    rotate_in_tables_once plain lifetimes 2000 9000 "b" "c" "orbi_rt_a" "shop" "shop" issued once
      (revoke_by_service 3000 "suspended" "mart" once) "orbi_rt_b" shop first
      (next here (Step.revokes_service 3000 "suspended" "mart"))
