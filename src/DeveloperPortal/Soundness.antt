-- ===== src/DeveloperPortal/Soundness.antt =====
-- services/developerPortalStore.ts: what holds of a service and its credentials at every time.
pub mod Effects
pub mod Ages
use orbi_pay_gateway_v.Prelude.{
  ℕ, ◌≤◌, ◌≡◌, Bool, true, false, String, some, List, [], ◌∷◌, length, any, find, filter,
  replace_first, includes, In,
}
use orbi_pay_gateway_v.Environments.{Environment}
use orbi_pay_gateway_v.DeveloperPortal.{has_code}
use orbi_pay_gateway_v.DeveloperPortal.Keys.{has_id, is_current_in}
use orbi_pay_gateway_v.DeveloperPortal.Data.{Credential, CredentialStatus, Service, State}

-- In each environment at most one credential has the status active; those that wait for a cutover are
-- not counted.
abbrev pub HasOneActive : List Credential → Type 0
HasOneActive ks = (e : Environment) → length (filter (is_current_in e) ks) ≤ 1

-- No two credentials have one identifier.
abbrev pub HasDistinctIds : List Credential → Type 0
HasDistinctIds [] = Unit
HasDistinctIds (k ∷ ks) = (any (has_id k.id) ks ≡ false) × HasDistinctIds ks

-- There is a credential with the identifier, and such a credential is revoked.
abbrev pub IsSpent : String → List Credential → Type 0
IsSpent id ks =
    (any (has_id id) ks ≡ true)
    × ((k : Credential) → In k ks → has_id id k ≡ true → k.status ≡ CredentialStatus.revoked)

-- No scope is granted and pending.
abbrev pub HasSeparateScopes : Service → Type 0
HasSeparateScopes x =
    (scope : String)
    → includes scope x.scopes_granted ≡ true
    → includes scope x.scopes_pending ≡ false

pub record IsSound (x : Service) : Type 0 where
  pub one_key : HasOneActive x.keys
  pub one_secret : HasOneActive x.webhook_secrets
  pub key_ids : HasDistinctIds x.keys
  pub scopes : HasSeparateScopes x

-- No two services have one code.
abbrev pub HasDistinctCodes : List Service → Type 0
HasDistinctCodes [] = Unit
HasDistinctCodes (x ∷ xs) = (any (has_code x.service_code) xs ≡ false) × HasDistinctCodes xs

pub record IsValid (s : State) : Type 0 where
  pub codes : HasDistinctCodes s.services
  pub each : (x : Service) → In x s.services → IsSound x

-- A service as it was and as a call leaves it.
pub record Change (x y : Service) : Type 0 where
  pub code : y.service_code ≡ x.service_code
  pub sound : IsSound x → IsSound y
  pub spent : (id : String) → IsSpent id x.keys → IsSpent id y.keys

-- What one call does to the services.
pub data Effect (s t : State) : Type 0 where
  untouched : t.services ≡ s.services → Effect s t
  created :
      (x : Service)
      → t.services ≡ x ∷ s.services
      → any (has_code x.service_code) s.services ≡ false
      → IsSound x
      → Effect s t
  changed :
      (x y : Service)
      → find (has_code y.service_code) s.services ≡ some x
      → t.services ≡ replace_first (has_code y.service_code) y s.services
      → Change x y
      → Effect s t
