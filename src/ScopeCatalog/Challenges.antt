-- ===== src/ScopeCatalog/Challenges.antt =====
-- services/consentScopeCatalog.ts: the challenges that a summary asks for.
use orbi_pay_gateway_v.Prelude.{
  ◌≡◌, refl, ap, ◌∙◌, inl, inr, ◌==◌, Bool, true, false, not, ◌||◌, String, none, some, List, [],
  ◌∷◌, find, find-some, all, All, all-In, map, Option-cases, eq_iff, arith,
}
use orbi_pay_gateway_v.ScopeCatalog.{
  Locale, Risk, high, Entry, Summary, entries, summarize, summary_of, unknown_summary,
  consent_scope_summary,
}

abbrev is_high : Risk → Bool
is_high high = true
is_high _ = false

-- A scope of high risk wants a hosted challenge.
abbrev pub IsChallenged : Summary → Type 0
IsChallenged s = s.risk_level ≡ high → s.requires_hosted_challenge ≡ true

entries_challenged :
    all (λ (e : Entry). not (is_high e.risk_level) || e.requires_hosted_challenge) entries ≡ true
unfolding all entries
entries_challenged = refl

summarize-none :
    (locale : Locale) (scope : String)
    → find (λ e. e.scope == scope) entries ≡ none
    → summarize locale scope ≡ unknown_summary locale scope
unfolding summarize
summarize-none locale scope e = rw (e, summarize)

summarize-some :
    (locale : Locale) (scope : String) {x : Entry}
    → find (λ e. e.scope == scope) entries ≡ some x
    → summarize locale scope ≡ summary_of locale x
unfolding summarize
summarize-some locale scope e = rw (e, summarize)

summarize-scope : (locale : Locale) (scope : String) → (summarize locale scope).scope ≡ scope
summarize-scope locale scope = elim (Option-cases (find (λ e. e.scope == scope) entries)) [
  | inl e ↦ ap (λ (s : Summary). s.scope) (summarize-none locale scope e)
  | inr (x, e) ↦
      ap (λ (s : Summary). s.scope) (summarize-some locale scope e)
      ∙ (eq_iff x.scope scope).0 (find-some (λ e. e.scope == scope) entries e).0
]

high_challenged : (r : Risk) (b : Bool) → (not (is_high r) || b) ≡ true → r ≡ high → b ≡ true
high_challenged r b h e = ground arith

summarize-IsChallenged : (locale : Locale) (scope : String) → IsChallenged (summarize locale scope)
summarize-IsChallenged locale scope = elim (Option-cases (find (λ e. e.scope == scope) entries)) [
  | inl e ↦ rw (summarize-none locale scope e) (λ h. refl)
  | inr (x, e) ↦ rw (summarize-some locale scope e) (
      high_challenged x.risk_level x.requires_hosted_challenge (
        all-In (λ (e : Entry). not (is_high e.risk_level) || e.requires_hosted_challenge) entries x
          entries_challenged (find-some (λ e. e.scope == scope) entries e).1))
]

-- The summary of scopes, known ones and unknown ones, has one line for each, in their order, and every
-- line of high risk wants a hosted challenge.
pub consent_scope_summary-IsChallenged :
    (scopes : List String) (locale : Locale)
    → (map (λ (s : Summary). s.scope) (consent_scope_summary scopes locale) ≡ scopes)
      × All IsChallenged (consent_scope_summary scopes locale)
unfolding consent_scope_summary
consent_scope_summary-IsChallenged [] locale = (refl, tt)
consent_scope_summary-IsChallenged (scope ∷ scopes) locale =
    let (names, challenged) = consent_scope_summary-IsChallenged scopes locale in
    (
      ap (λ z. z ∷ map (λ (s : Summary). s.scope) (consent_scope_summary scopes locale))
            (summarize-scope locale scope)
          ∙ ap (λ z. scope ∷ z) names,
      (summarize-IsChallenged locale scope, challenged),
    )
