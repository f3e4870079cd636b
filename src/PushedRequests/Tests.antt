-- ===== src/PushedRequests/Tests.antt =====
-- Pushed requests on concrete stores, with addresses that are their own hashes.
use orbi_pay_gateway_v.Prelude.{ℕ, ◌≡◌, refl, String, Option, none, some, [], ◌∷◌, err}
use orbi_pay_gateway_v.Prelude.Dict
use orbi_pay_gateway_v.Prelude.Dict.{Dict}
use orbi_pay_gateway_v.Prelude.Json.{null}
use orbi_pay_gateway_v.Environments.{sandbox}
use orbi_pay_gateway_v.PushedRequests.{
  PushedRequest, Entry, PushInput, request_uri_invalid, new_request, create_in_memory,
  consume_in_memory, consume_in_table,
}
use orbi_pay_gateway_v.PushedRequests.Stores.{
  Step, here, next, table, asked, consume_in_table-consume_in_memory, consume_in_memory_once,
}

abbrev plain : String → String
plain s = s

abbrev uri : String
uri = "urn:ietf:params:oauth:request_uri:orbi:a"

abbrev pushed : PushedRequest
pushed = record {
  request_uri = uri;
  service_code = "shop";
  environment = sandbox;
  payload = null;
  expires_at = 61000;
}

abbrev kept : Option ℕ → Dict Entry
kept consumed_at = (uri, record { request = pushed; consumed_at = consumed_at }) ∷ []

consume_in_table-consume_in_memory_example :
    consume_in_table plain 2000 uri "shop" (table (kept none)) ≡ (
      table (consume_in_memory plain 2000 uri "shop" (kept none)).0,
      asked uri (consume_in_memory plain 2000 uri "shop" (kept none)).1,
    )
unfolding Dict.get
consume_in_table-consume_in_memory_example =
    consume_in_table-consume_in_memory plain 2000 uri "shop" (kept none) (refl, tt)

abbrev input : PushInput
input = record { service_code = "shop"; environment = sandbox; payload = null }

consume_in_memory_once_example :
    consume_in_memory plain 9000 uri "shop"
      (create_in_memory plain 3000 "b" input 60 (kept (some 2000))).0
    ≡ ((create_in_memory plain 3000 "b" input 60 (kept (some 2000))).0, err request_uri_invalid)
unfolding consume_in_memory Dict.get Dict.set new_request
consume_in_memory_once_example =
    consume_in_memory_once plain 2000 9000 uri "shop" "shop" (kept none) (kept (some 2000))
      (create_in_memory plain 3000 "b" input 60 (kept (some 2000))).0 pushed refl
      (next here (Step.creates 3000 "b" input 60 refl))
