-- ===== src/DeveloperPortal/Ownership.antt =====
-- services/developerPortalStore.ts: the instructions for the proof of a domain, and the automatic
-- verification. `proves` stands for the look at the DNS and at the HTTPS file, which gives the method by
-- which it found the token of the challenge.
pub mod Outcomes
use orbi_pay_gateway_v.Prelude.{
  ℕ, Bool, true, false, not, String, Option, none, some, List, [], ◌∷◌, ◌++◌, map, if◌then◌else◌,
  Result, ok, err, ◌>>=◌, ◌>>◌, unique, includes,
}
use orbi_pay_gateway_v.Prelude.Dict
use orbi_pay_gateway_v.Prelude.Dict.{Dict}
use orbi_pay_gateway_v.Prelude.Text.{to_lower}
use orbi_pay_gateway_v.Prelude.Json.{Json, text, to_object, texts}
use orbi_pay_gateway_v.Environments.{live}
use orbi_pay_gateway_v.DeveloperPortal.{
  Error, Call, list_or_empty, get_mutable_service, store_service, public_service, add_event,
}
use orbi_pay_gateway_v.DeveloperPortal.Domains.{
  Challenge, DomainStatus, Instruction, domain_verification, normalize_domains, with_verification,
  challenge_for, live_hostnames, live_domain_verification_status, check_domains,
}
use orbi_pay_gateway_v.DeveloperPortal.Data.{
  ChallengeRecord, DomainVerification, Service, State, allowlist_updated,
}

-- The loop's variables.
pub record Progress : Type 0 where
  pub challenges : Dict ChallengeRecord
  pub verified_now : List String
  pub pending : List (String × Challenge)

pub record AutomaticAnswer : Type 0 where
  pub service : Service
  pub status : DomainStatus
  pub instructions : List Instruction
  pub verified_domains : List String
  pub pending : List (String × Challenge)

abbrev list_or : List String → List String → List String
list_or [] other = other
list_or (x ∷ xs) other = x ∷ xs

abbrev time_or : Option ℕ → Option ℕ → Option ℕ
time_or none other = other
time_or (some t) other = some t

abbrev text_or_other : Option String → Option String → Option String
text_or_other none other = other
text_or_other (some t) other = some t

challenge_record : Challenge → Bool → Option ℕ → Option String → ChallengeRecord
challenge_record c verified at method = record {
  token = c.token;
  dns_record_name = c.dns_record_name;
  dns_record_value = c.dns_record_value;
  https_url = c.https_url;
  verified = verified;
  verified_at = at;
  verification_method = method;
}

-- The record of a domain that was verified before.
known_record : ℕ → DomainVerification → String → Challenge → ChallengeRecord
unfolding challenge_record
known_record now v domain c =
    let old = Dict.get domain v.challenges in
    challenge_record c true
      (time_or (elim old [ none ↦ none | some r ↦ r.verified_at ])
        (time_or v.verified_at (some now)))
      (text_or_other (elim old [ none ↦ none | some r ↦ r.verification_method ])
        v.verification_method)

module _ (hmac : String → String) (hostname_of : String → Option String) where
  pub domain_verification_instructions :
      String → State → Result Error (DomainStatus × List Instruction)
  domain_verification_instructions code s = do
    x ← get_mutable_service code s
    status ← live_domain_verification_status hostname_of x.service_code s
    ok (
      status,
      map
          (λ domain. record {
            domain = domain;
            challenge = challenge_for hmac x.service_code domain;
            verified = includes domain status.verified_domains;
          })
          status.required_domains,
    )

  module _ (proves : Challenge → Option String) where
    pub verify_one : ℕ → DomainVerification → List String → Service → String → Progress → Progress
    unfolding known_record challenge_record
    verify_one now v verified x domain p =
        let c = challenge_for hmac x.service_code domain in
        if includes domain verified
        then (record p { challenges = Dict.set domain (known_record now v domain c) p.challenges })
        else elim (proves c) [
          | none ↦ record p {
            challenges = Dict.set domain (challenge_record c false none none) p.challenges;
            pending = p.pending ++ (domain, c) ∷ [];
          }
          | some method ↦ record p {
            challenges =
                Dict.set domain (challenge_record c true (some now) (some method)) p.challenges;
            verified_now = p.verified_now ++ domain ∷ [];
          }
        ]

    pub verify_all :
        ℕ → DomainVerification → List String → Service → List String → Progress → Progress
    unfolding verify_one
    verify_all now v verified x [] p = p
    verify_all now v verified x (domain ∷ domains) p =
        verify_all now v verified x domains (verify_one now v verified x domain p)

    -- Nothing new: the challenges are kept.
    record_pending : Call → DomainVerification → Progress → Service → State → State × Service
    record_pending call v p x s =
        let changed = with_verification call (record v { challenges = p.challenges }) x in
        (store_service changed s, changed)

    record_verified :
        Call
        → String
        → DomainVerification
        → List String
        → Progress
        → Service
        → State
        → State × Service
    record_verified call requested_by v verified p x s =
        let changed =
          with_verification call
            (record v {
              verified_domains = some (unique (verified ++ p.verified_now));
              verified_by = some requested_by;
              verified_at = some call.now;
              verification_method = some "automatic";
              reason = some "Automatic DNS TXT or HTTPS file ownership proof verified.";
              challenges = p.challenges;
            })
            x in
        (
          add_event call allowlist_updated (some x.service_code) (some live)
              (to_object (
                ("action", some (text "domain_verification"))
                ∷ ("mode", some (text "automatic"))
                ∷ ("verifiedDomains", some (texts p.verified_now))
                ∷ ("requestedBy", some (text requested_by))
                ∷ []))
              (store_service changed s),
          changed,
        )

    pub record_progress :
        Call
        → String
        → DomainVerification
        → List String
        → Progress
        → Service
        → State
        → State × Service
    unfolding record_pending record_verified
    record_progress call requested_by v verified p x s = elim p.verified_now [
      | [] ↦ record_pending call v p x s
      | d ∷ ds ↦ record_verified call requested_by v verified p x s
    ]

    pub verify_service_domains_automatically :
        Call
        → String
        → Option (List String)
        → String
        → State
        → Result Error (State × AutomaticAnswer)
    unfolding domain_verification_instructions verify_all record_progress
    verify_service_domains_automatically call code domains requested_by s = do
      x ← get_mutable_service code s
      let requested : List String =
          normalize_domains (list_or (list_or_empty domains) (live_hostnames hostname_of x))
      check_domains hostname_of requested x
      let v : DomainVerification = domain_verification x
      let verified : List String = unique (map to_lower (list_or_empty v.verified_domains))
      let p : Progress =
          verify_all call.now v verified x requested
            (record { challenges = v.challenges; verified_now = []; pending = [] })
      let stored : State × Service = record_progress call requested_by v verified p x s
      given ← domain_verification_instructions x.service_code stored.0
      ok (
        stored.0,
        record {
          service = public_service stored.1;
          status = given.0;
          instructions = given.1;
          verified_domains = p.verified_now;
          pending = p.pending;
        },
      )
