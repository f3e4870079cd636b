-- ===== src/DeveloperPortal/Domains.antt =====
-- services/developerPortalStore.ts: the domains of a service and the proof of their ownership.
-- `hostname_of` is the host name of a URL that parses, `hmac` the base64url HMAC-SHA256 under the
-- configured secret, and `proves` the method by which a look at the DNS or at the HTTPS file found the
-- token of a challenge.
pub mod Outcomes
pub mod Eligibility
use Prim.Native.String as Str
use orbi_pay_gateway_v.Prelude.{
  ℕ, Bool, true, false, not, ◌==◌, String, Option, none, some, List, [], ◌∷◌, ◌++◌, map,
  if◌then◌else◌, Result, ok, err, ◌>>=◌, ◌>>◌, throw_if, filter, unique, includes,
}
use orbi_pay_gateway_v.Prelude.Dict
use orbi_pay_gateway_v.Prelude.Dict.{Dict}
use orbi_pay_gateway_v.Prelude.Text.{to_lower, trim, truthy}
use orbi_pay_gateway_v.Prelude.Json.{Json, text, to_object, texts}
use orbi_pay_gateway_v.Environments.{Environment, sandbox, live}
use orbi_pay_gateway_v.DeveloperPortal.{
  Error, live_environment_not_enabled, live_domain_verification_required, domain_verification_empty,
  domain_not_on_allowlist, Call, take_chars, list_or_empty, has_env, service_slug,
  get_mutable_service, store_service, public_service, add_event,
}
use orbi_pay_gateway_v.DeveloperPortal.Scopes.{object_or_empty}
use orbi_pay_gateway_v.DeveloperPortal.Data.{
  ChallengeRecord, DomainVerification, Service, State, allowlist_updated,
}

pub record Challenge : Type 0 where
  pub token : String
  pub dns_record_name : String
  pub dns_record_value : String
  pub https_url : String

pub record VerifyInput : Type 0 where
  pub domains : List String
  pub verified_by : String
  pub verification_method : String
  pub reason : String
  pub metadata : Option Json

pub record DomainStatus : Type 0 where
  pub required_domains : List String
  pub verified_domains : List String
  pub missing_domains : List String
  pub ready : Bool
  pub metadata : DomainVerification

pub record Instruction : Type 0 where
  pub domain : String
  pub challenge : Challenge
  pub verified : Bool

abbrev no_verification : DomainVerification
no_verification = record {
  verified_domains = none;
  verified_by = none;
  verified_at = none;
  verification_method = none;
  reason = none;
  challenges = [];
  metadata = none;
}

abbrev pub domain_verification : Service → DomainVerification
domain_verification x = elim x.metadata.domain_verification [ none ↦ no_verification | some v ↦ v ]

abbrev is_nonempty : List String → Bool
is_nonempty [] = false
is_nonempty (_ ∷ _) = true

-- `.map((domain) => domain.trim().toLowerCase()).filter(Boolean)`, without duplicates.
pub normalize_domains : List String → List String
normalize_domains domains =
    unique (filter (λ d. not (d == "")) (map (λ d. to_lower (trim d)) domains))

-- The domains of the service's record with the proofs that were found.
pub with_verification : Call → DomainVerification → Service → Service
with_verification call v x = record x {
  metadata = record x.metadata { domain_verification = some v };
  updated_at = call.now;
}

module _ (hmac : String → String) where
  pub challenge_token : String → String → String
  challenge_token code domain =
      Str.◌++◌ "orbi_domain_"
        (take_chars 43 (hmac (Str.◌++◌ (service_slug code) (Str.◌++◌ ":" (to_lower domain)))))

  pub challenge_for : String → String → Challenge
  unfolding challenge_token
  challenge_for code domain =
      let normalized = to_lower domain in
      let token = challenge_token code normalized in
      record {
        token = token;
        dns_record_name = Str.◌++◌ "_orbi-pay-verify." normalized;
        dns_record_value = Str.◌++◌ "orbi-pay-site-verification=" token;
        https_url =
            Str.◌++◌ "https://"
              (Str.◌++◌ normalized "/.well-known/orbi-pay-domain-verification.txt");
      }

module _ (hostname_of : String → Option String) where
  -- The host names of URLs; one that does not parse is left out.
  unfoldable pub hostnames : List String → List String
  hostnames [] = []
  hostnames (url ∷ urls) = elim (truthy (hostname_of url)) [
    | none ↦ hostnames urls
    | some h ↦ to_lower h ∷ hostnames urls
  ]

  unfoldable pub live_hostnames : Service → List String
  unfolding hostnames
  live_hostnames x = unique (hostnames (x.browser_origins ++ x.redirect_urls ++ x.webhook_urls))

  unfoldable pub domain_status : Service → DomainStatus
  unfolding live_hostnames
  domain_status x =
      let required = live_hostnames x in
      let v = domain_verification x in
      let verified = unique (map to_lower (list_or_empty v.verified_domains)) in
      let missing = filter (λ domain. not (includes domain verified)) required in
      record {
        required_domains = required;
        verified_domains = verified;
        missing_domains = missing;
        ready = not (is_nonempty missing);
        metadata = v;
      }

  unfoldable pub live_domain_verification_status : String → State → Result Error DomainStatus
  live_domain_verification_status code s = do x ← get_mutable_service code s; ok (domain_status x)

  unfoldable pub assert_live_credential_eligibility :
      String → Environment → State → Result Error (Unit {0})
  unfolding live_domain_verification_status
  assert_live_credential_eligibility code sandbox s = ok tt
  assert_live_credential_eligibility code live s = do
    x ← get_mutable_service code s
    throw_if (not (has_env live x.environments)) live_environment_not_enabled
    status ← live_domain_verification_status x.service_code s
    throw_if (not status.ready) live_domain_verification_required
    ok tt

  pub check_domains : List String → Service → Result Error (Unit {0})
  unfolding live_hostnames
  check_domains requested x = do
    throw_if (not (is_nonempty requested)) domain_verification_empty
    throw_if (is_nonempty (filter (λ domain. not (includes domain (live_hostnames x))) requested))
        domain_not_on_allowlist
    ok tt

  pub verify_service_domains : Call → String → VerifyInput → State → Result Error (State × Service)
  unfolding normalize_domains with_verification check_domains
  verify_service_domains call code input s = do
    x ← get_mutable_service code s
    let requested : List String = normalize_domains input.domains
    check_domains requested x
    let v : DomainVerification = domain_verification x
    let changed : Service =
        with_verification call
          (record v {
            verified_domains = some (unique (list_or_empty v.verified_domains ++ requested));
            verified_by = some input.verified_by;
            verified_at = some call.now;
            verification_method = some input.verification_method;
            reason = some input.reason;
            metadata = some (object_or_empty input.metadata);
          })
          x
    ok (
      add_event call allowlist_updated (some x.service_code) (some live)
          (to_object (
            ("action", some (text "domain_verification"))
            ∷ ("verifiedDomains", some (texts requested))
            ∷ ("verifiedBy", some (text input.verified_by))
            ∷ ("verificationMethod", some (text input.verification_method))
            ∷ []))
          (store_service changed s),
      public_service changed,
    )
