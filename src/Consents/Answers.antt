-- ===== src/Consents/Answers.antt =====
-- services/consentReceiptStore.ts: the answers of hasActiveConsent and evaluateConsent.
use Prim.Native.String as Str
use orbi_pay_gateway_v.Prelude.{
  ℕ, ◌<◌, ◌≡◌, refl, sym, ap, ◌∙◌, Bool, true, false, ◌&&◌, String, Option, none, some, List, [],
  ◌∷◌, any, all, find, filter, map, includes, unique, includes-unique, In, all-In, any-In,
  includes-In, any-sort_descending, any-filter, any-map, any-eq, any-find, arith, eq_iff, eq_refl,
  ◌↔◌, In-any,
}
use orbi_pay_gateway_v.Prelude.Dict
use orbi_pay_gateway_v.Prelude.Text.{
  truthy, is_empty, slug, trim, trim_start, trim_end, to_lower, map_chars, dash_runs, drop_leading,
  drop_trailing,
}
use orbi_pay_gateway_v.Environments.{Environment, env_eq_iff}
use orbi_pay_gateway_v.Consents.Data.{Receipt, Question, active, revoked, status_eq}
use orbi_pay_gateway_v.Consents.{
  Store, passes, parse_receipt, derive_status, service_filter, is_selected, filters_of,
  filter_receipts, list_receipts, covers, has_status, has_active_consent, candidates,
  evaluate_consent,
}

-- A receipt that answers the question.
abbrev fits : ℕ → Question → Receipt → Bool
fits now q r =
    is_selected (filters_of q (some active)) (parse_receipt now r)
    && covers (unique q.scopes) q.environment (parse_receipt now r)

has_active-any :
    (now : ℕ) (q : Question) (s : Store)
    → has_active_consent now q s ≡ any (fits now q) (Dict.values s)
unfolding has_active_consent list_receipts filter_receipts
has_active-any now q s =
    any-sort_descending _ _
      (filter (is_selected (filters_of q (some active))) (map (parse_receipt now) (Dict.values s)))
    ∙ any-filter _ _ (map (parse_receipt now) (Dict.values s))
    ∙ any-map _ (parse_receipt now) (Dict.values s)

-- Reading a receipt twice at one time is reading it once.
parse_twice :
    (now : ℕ) (r : Receipt) → parse_receipt now (parse_receipt now r) ≡ parse_receipt now r
parse_twice now r = ap (λ status. record r { status = status }) (ground arith)

same_test :
    (now : ℕ) (q : Question) (r : Receipt)
    → (is_selected (filters_of q none) (parse_receipt now r)
        && (covers (unique q.scopes) q.environment (parse_receipt now (parse_receipt now r))
            && has_status active (parse_receipt now (parse_receipt now r))))
      ≡ fits now q r
same_test now q r = rw (parse_twice now r) (ground arith)

candidates-any :
    (now : ℕ) (q : Question) (s : Store)
    → any (has_status active) (candidates now now q s) ≡ any (fits now q) (Dict.values s)
unfolding candidates list_receipts filter_receipts
candidates-any now q s =
    any-sort_descending _ _ _
    ∙ any-filter _ _ _
    ∙ any-map _ _ _
    ∙ any-sort_descending _ _ _
    ∙ any-filter _ _ _
    ∙ any-map _ _ _
    ∙ any-eq _ _ (Dict.values s) (same_test now q)

evaluate-found :
    (now window : ℕ) (q : Question) (s : Store)
    → (evaluate_consent now now window q s).allowed
      ≡ (elim (find (has_status active) (candidates now now q s)) [ none ↦ false | some _ ↦ true ])
unfolding evaluate_consent
evaluate-found now window q s = ground arith

-- The evaluation of a question allows it exactly if there is an active consent for it, when both are
-- asked at one time: the renewal window does not matter.
pub evaluate-has_active_consent :
    (now window : ℕ) (q : Question) (s : Store)
    → (evaluate_consent now now window q s).allowed ≡ has_active_consent now q s
evaluate-has_active_consent now window q s =
    evaluate-found now window q s
    ∙ sym (any-find (has_status active) (candidates now now q s))
    ∙ candidates-any now q s
    ∙ sym (has_active-any now q s)

-- The environment that is asked for, if one is.
abbrev pub InEnvironment : Option Environment → Environment → Type 0
InEnvironment none environment = Unit
InEnvironment (some asked) environment = environment ≡ asked

covers_parts :
    (required : List String) (environment : Option Environment) (r : Receipt)
    → covers required environment r ≡ true
    → (all (λ scope. includes scope r.scopes) required ≡ true)
      × InEnvironment environment r.environment
covers_parts required none r h = (h, tt)
covers_parts required (some environment) r h =
    (ground arith, ground (arith, env_eq_iff r.environment environment))

derive_active :
    (now : ℕ) (r : Receipt)
    → status_eq (derive_status now r) active ≡ true
    → (r.revoked_at ≡ none) × (now < r.expires_at)
derive_active now r h = (ground arith, ground arith)

covered :
    (required scopes : List String) (a : String)
    → all (λ scope. includes scope scopes) (unique required) ≡ true
    → includes a required ≡ true
    → includes a scopes ≡ true
covered required scopes a h i =
    all-In (λ scope. includes scope scopes) (unique required) a h
      (includes-In a (unique required) (includes-unique a required ∙ i))

service_filter-slug : (t : String) → service_filter (some t) ≡ slug t
unfolding truthy slug trim trim_start trim_end to_lower map_chars dash_runs drop_leading
    drop_trailing
service_filter-slug Str.[] = refl
service_filter-slug (Str.◌∷◌ c s) = refl

fits-parts :
    (now : ℕ) (q : Question) (r : Receipt)
    → fits now q r ≡ true
    → is_empty (slug q.service_code) ≡ false
    → is_empty q.subject_id ≡ false
    → (r.service_code ≡ slug q.service_code)
      × (r.subject_id ≡ q.subject_id)
      × (status_eq (derive_status now r) active ≡ true)
      × (covers (unique q.scopes) q.environment (parse_receipt now r) ≡ true)
fits-parts now q r h named someone =
    let e = rw (service_filter-slug q.service_code) at h in
    (
      ground (arith, eq_iff r.service_code (slug q.service_code)),
      ground (arith, eq_iff r.subject_id q.subject_id),
      ground arith,
      ground arith,
    )

-- If a consent is found active for a service code and a subject that name one, a stored receipt of
-- this service, this subject and the environment asked for was not revoked, has not run out, and has
-- every scope asked for.
pub has_active_consent-receipt :
    (now : ℕ) (q : Question) (s : Store)
    → has_active_consent now q s ≡ true
    → is_empty (slug q.service_code) ≡ false
    → is_empty q.subject_id ≡ false
    → (r : Receipt) × In r (Dict.values s)
      × (r.service_code ≡ slug q.service_code)
      × (r.subject_id ≡ q.subject_id)
      × (r.revoked_at ≡ none)
      × (now < r.expires_at)
      × InEnvironment q.environment r.environment
      × ((scope : String) → includes scope q.scopes ≡ true → includes scope r.scopes ≡ true)
has_active_consent-receipt now q s h named someone =
    let (r, i, e) = any-In (fits now q) (Dict.values s) (sym (has_active-any now q s) ∙ h) in
    let (service, subject, standing, rest) = fits-parts now q r e named someone in
    let (scopes, environment) =
      covers_parts (unique q.scopes) q.environment (parse_receipt now r) rest in
    let (kept, fresh) = derive_active now r standing in
    (
      r,
      i,
      service,
      subject,
      kept,
      fresh,
      environment,
      λ scope asked. covered q.scopes r.scopes scope scopes asked,
    )

-- A receipt of the service, the subject and the environment asked for, that was not revoked, has not run
-- out, and has every scope asked for.
abbrev pub Grants : ℕ → Question → Receipt → Type 0
Grants now q r =
    (r.service_code ≡ slug q.service_code)
    × (r.subject_id ≡ q.subject_id)
    × (r.revoked_at ≡ none)
    × (status_eq r.status revoked ≡ false)
    × (now < r.expires_at)
    × InEnvironment q.environment r.environment
    × ((scope : String) → includes scope q.scopes ≡ true → includes scope r.scopes ≡ true)

derive_standing :
    (now : ℕ) (r : Receipt)
    → (status_eq (derive_status now r) active ≡ true)
      ↔ ((r.revoked_at ≡ none) × (status_eq r.status revoked ≡ false) × (now < r.expires_at))
derive_standing now r = (λ h. (ground arith, ground arith, ground arith), λ (a, b, c). ground arith)

all_included :
    (required scopes : List String)
    → ((scope : String) → includes scope required ≡ true → includes scope scopes ≡ true)
    → all (λ scope. includes scope scopes) required ≡ true
unfolding all includes
all_included [] scopes h = refl
all_included (x ∷ xs) scopes h =
    rw (h x (ground (arith, eq_refl x))) (all_included xs scopes (λ b i. h b (ground arith)))

covers_of :
    (required : List String) (environment : Option Environment) (r : Receipt)
    → all (λ scope. includes scope r.scopes) required ≡ true
    → InEnvironment environment r.environment
    → covers required environment r ≡ true
covers_of required none r h e = h
covers_of required (some environment) r h e = ground (arith, env_eq_iff r.environment environment)

passes_eq : (filter value : String) → value ≡ filter → passes filter value ≡ true
passes_eq filter value e = ground (arith, eq_iff value filter)

four : {a b c d : Bool} → a ≡ true → b ≡ true → c ≡ true → d ≡ true → ((a && b && c) && d) ≡ true
four h i j k = ground arith

fits-Grants :
    (now : ℕ) (q : Question) (r : Receipt)
    → is_empty (slug q.service_code) ≡ false
    → is_empty q.subject_id ≡ false
    → (fits now q r ≡ true) ↔ Grants now q r
fits-Grants now q r named someone = (
  λ h.
      let (service, subject, standing, rest) = fits-parts now q r h named someone in
      let (scopes, environment) =
        covers_parts (unique q.scopes) q.environment (parse_receipt now r) rest in
      let (kept, unrevoked, fresh) = (derive_standing now r).0 standing in
      (
        service,
        subject,
        kept,
        unrevoked,
        fresh,
        environment,
        λ scope asked. covered q.scopes r.scopes scope scopes asked,
      ),
  λ (service, subject, kept, unrevoked, fresh, environment, scopes).
      let standing = (derive_standing now r).1 (kept, unrevoked, fresh) in
      let required =
        all_included (unique q.scopes) r.scopes
          (λ scope asked. scopes scope (sym (includes-unique scope q.scopes) ∙ asked)) in
      let enough =
        covers_of (unique q.scopes) q.environment (parse_receipt now r) required environment in
      let in_service = passes_eq (slug q.service_code) r.service_code service in
      let of_subject = passes_eq q.subject_id r.subject_id subject in
      rw (service_filter-slug q.service_code) (four in_service of_subject standing enough),
)

-- An active consent is found for a service code and a subject that name one exactly if such a receipt
-- is stored.
pub has_active_consent_iff :
    (now : ℕ) (q : Question) (s : Store)
    → is_empty (slug q.service_code) ≡ false
    → is_empty q.subject_id ≡ false
    → (has_active_consent now q s ≡ true) ↔ ((r : Receipt) × In r (Dict.values s) × Grants now q r)
has_active_consent_iff now q s named someone = (
  λ h.
      let (r, i, e) = any-In (fits now q) (Dict.values s) (sym (has_active-any now q s) ∙ h) in
      (r, i, (fits-Grants now q r named someone).0 e),
  λ (r, i, g).
      has_active-any now q s
      ∙ In-any (fits now q) (Dict.values s) r i ((fits-Grants now q r named someone).1 g),
)
