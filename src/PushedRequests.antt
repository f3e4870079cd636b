-- ===== src/PushedRequests.antt =====
-- services/pushedAuthorizationRequestStore.ts: pushed authorization requests, kept in memory or in a
-- table. `hash` is the hexadecimal SHA-256, `now` the time of the call in milliseconds for the process
-- and for the database, and `random` the base64url text of 32 random bytes.
pub mod Stores
mod Tests
use Prim.Native.String as Str
use orbi_pay_gateway_v.Prelude.{
  ℕ, ◌+◌, ◌*◌, Bool, true, false, not, ◌||◌, ◌==◌, leb, String, Option, none, some, List, [], ◌∷◌,
  if◌then◌else◌, Result, ok, err, any, find,
}
use orbi_pay_gateway_v.Prelude.Dict
use orbi_pay_gateway_v.Prelude.Dict.{Dict}
use orbi_pay_gateway_v.Prelude.Json.{Json}
use orbi_pay_gateway_v.Environments.{Environment}
use orbi_pay_gateway_v.Sql.{update_where}

pub record PushedRequest : Type 0 where
  pub request_uri : String
  pub service_code : String
  pub environment : Environment
  pub payload : Json
  pub expires_at : ℕ

pub record Entry : Type 0 where
  pub request : PushedRequest
  pub consumed_at : Option ℕ

pub record Row : Type 0 where
  pub request_uri_hash : String
  pub service_code : String
  pub environment : Environment
  pub payload : Json
  pub expires_at : ℕ
  pub consumed_at : Option ℕ

pub record PushInput : Type 0 where
  pub service_code : String
  pub environment : Environment
  pub payload : Json

pub data Error : Type 0 where
  request_uri_invalid unique_violation : Error

pub new_request : ℕ → String → PushInput → ℕ → PushedRequest
new_request now random input ttl_seconds = record {
  request_uri = Str.◌++◌ "urn:ietf:params:oauth:request_uri:orbi:" random;
  service_code = input.service_code;
  environment = input.environment;
  payload = input.payload;
  expires_at = now + ttl_seconds * 1000;
}

abbrev pub is_used : Option ℕ → Bool
is_used none = false
is_used (some _) = true

abbrev pub is_refused : ℕ → String → Option ℕ → String → ℕ → Bool
is_refused now service_code consumed_at owner expires_at =
    is_used consumed_at || not (owner == service_code) || leb expires_at now

abbrev pub row_of : String → Entry → Row
row_of h e = record {
  request_uri_hash = h;
  service_code = e.request.service_code;
  environment = e.request.environment;
  payload = e.request.payload;
  expires_at = e.request.expires_at;
  consumed_at = e.consumed_at;
}

abbrev pub request_of : String → Row → PushedRequest
request_of request_uri row = record {
  request_uri = request_uri;
  service_code = row.service_code;
  environment = row.environment;
  payload = row.payload;
  expires_at = row.expires_at;
}

abbrev pub has_hash : String → Row → Bool
has_hash h row = row.request_uri_hash == h

module _ (hash : String → String) where
  pub create_in_memory : ℕ → String → PushInput → ℕ → Dict Entry → Dict Entry × PushedRequest
  unfolding new_request
  create_in_memory now random input ttl_seconds s =
      let request = new_request now random input ttl_seconds in
      (
        Dict.set (hash request.request_uri) (record { request = request; consumed_at = none }) s,
        request,
      )

  pub create_in_table :
      ℕ → String → PushInput → ℕ → List Row → Result Error (List Row × PushedRequest)
  unfolding new_request
  create_in_table now random input ttl_seconds rows =
      let request = new_request now random input ttl_seconds in
      let h = hash request.request_uri in
      if any (has_hash h) rows
      then err unique_violation
      else ok (row_of h (record { request = request; consumed_at = none }) ∷ rows, request)

  pub consume_in_memory : ℕ → String → String → Dict Entry → Dict Entry × Result Error PushedRequest
  consume_in_memory now request_uri service_code s = elim (Dict.get (hash request_uri) s) [
    | none ↦ (s, err request_uri_invalid)
    | some e ↦
        if is_refused now service_code e.consumed_at e.request.service_code e.request.expires_at
        then (s, err request_uri_invalid)
        else (Dict.set (hash request_uri) (record e { consumed_at = some now }) s, ok e.request)
  ]

  -- A refusal rolls the transaction back.
  pub consume_in_table : ℕ → String → String → List Row → List Row × Result Error PushedRequest
  consume_in_table now request_uri service_code rows =
      elim (find (has_hash (hash request_uri)) rows) [
        | none ↦ (rows, err request_uri_invalid)
        | some row ↦
            if is_refused now service_code row.consumed_at row.service_code row.expires_at
            then (rows, err request_uri_invalid)
            else (
              update_where (has_hash (hash request_uri)) (λ r. record r { consumed_at = some now })
                  rows,
              ok (request_of request_uri row),
            )
      ]
