-- ===== src/DeveloperPortal/Keys/Histories.antt =====
-- services/developerPortalStore.ts: what the calls on API keys do to a service.
use mathlib.Core.Path.{subst}
use orbi_pay_gateway_v.Prelude.{
  ◌&&◌, some-eq, ℕ, ◌≡◌, refl, sym, ap, ◌∙◌, Bool, true, false, String, some, List, [], ◌∷◌, ◌++◌,
  arith, any, all, find, filter, replace_first, Bool-cases, inl, inr, eq_iff, any-false-In,
}
use orbi_pay_gateway_v.Environments.{Environment, env_eq}
use orbi_pay_gateway_v.DeveloperPortal.{Call}
use orbi_pay_gateway_v.DeveloperPortal.Keys.{
  has_id, is_current_in, cut_over, revoke_current, end_cutover, credentials_after_decision,
  with_keys, revoked_credential,
}
use orbi_pay_gateway_v.DeveloperPortal.Soundness.{HasDistinctIds, IsSpent, Change}
use orbi_pay_gateway_v.DeveloperPortal.Soundness.Ages.{
  Ages, Ages-refl, AllAge, done, more, AllAge-refl, AllAge-HasDistinctIds, AllAge-IsSpent,
  AllAge-HasOneActive, AllAge-any_id, append-HasOneActive, append-HasDistinctIds, append-IsSpent,
}
use orbi_pay_gateway_v.DeveloperPortal.Data.{
  Credential, pending_cutover, is_current, is_cutover, CredentialState, Service, RotationChoice,
  approve, reject, complete,
}

-- A credential that was active and now waits or is revoked.
retired :
    (k : Credential) → is_current k.status ≡ true → Ages k (record k { status = pending_cutover })
retired k h = record {
  id = refl;
  environment = refl;
  current = λ n. absurd (cc);
  revoked = λ e. absurd (cc (h, ap is_current e));
}

ended : (now : ℕ) (k : Credential) → Ages k (revoked_credential now k)
ended now k = record {
  id = refl;
  environment = refl;
  current = λ n. absurd (cc);
  revoked = λ e. refl;
}

pub cut_over-AllAge : (e : Environment) (ks : List Credential) → AllAge ks (cut_over e ks)
unfolding cut_over
cut_over-AllAge e [] = done
cut_over-AllAge e (k ∷ ks) = elim (Bool-cases (is_current_in e k)) [
  | inl h ↦ rw h (more (retired k (ground arith)) (cut_over-AllAge e ks))
  | inr h ↦ rw h (more (Ages-refl k) (cut_over-AllAge e ks))
]

pub cut_over-none :
    (e : Environment) (ks : List Credential) → filter (is_current_in e) (cut_over e ks) ≡ []
unfolding cut_over filter
cut_over-none e [] = refl
cut_over-none e (k ∷ ks) = ground (arith, cut_over-none e ks)

pub all-cut_over :
    (p : Credential → Bool) (e : Environment) (ks : List Credential)
    → ((k : Credential) → p (record k { status = pending_cutover }) ≡ p k)
    → all p ks ≡ true
    → all p (cut_over e ks) ≡ true
unfolding all cut_over
all-cut_over p e [] same h = refl
all-cut_over p e (k ∷ ks) same h =
    let rest = all-cut_over p e ks same (ground arith) in
    elim (Bool-cases (is_current_in e k)) [
      | inl c ↦ rw c (ground (arith, rest, same k))
      | inr c ↦ rw c (ground (arith, rest))
    ]

pub revoke_current-AllAge :
    (now : ℕ) (e : Environment) (ks : List Credential) → AllAge ks (revoke_current now e ks)
unfolding revoke_current
revoke_current-AllAge now e [] = done
revoke_current-AllAge now e (k ∷ ks) = elim (Bool-cases (is_current_in e k)) [
  | inl h ↦ rw h (more (ended now k) (revoke_current-AllAge now e ks))
  | inr h ↦ rw h (more (Ages-refl k) (revoke_current-AllAge now e ks))
]

pub revoke_current-none :
    (now : ℕ) (e : Environment) (ks : List Credential)
    → filter (is_current_in e) (revoke_current now e ks) ≡ []
unfolding revoke_current filter
revoke_current-none now e [] = refl
revoke_current-none now e (k ∷ ks) = ground (arith, revoke_current-none now e ks)

end_cutover-AllAge :
    (now : ℕ) (e : Environment) (ks : List Credential) → AllAge ks (end_cutover now e ks)
unfolding end_cutover
end_cutover-AllAge now e [] = done
end_cutover-AllAge now e (k ∷ ks) =
    elim (Bool-cases (env_eq k.environment e && is_cutover k.status)) [
      | inl h ↦ rw h (more (ended now k) (end_cutover-AllAge now e ks))
      | inr h ↦ rw h (more (Ages-refl k) (end_cutover-AllAge now e ks))
    ]

pub credentials_after_decision-AllAge :
    (now : ℕ) (d : RotationChoice) (e : Environment) (ks : List Credential)
    → AllAge ks (credentials_after_decision now d e ks)
credentials_after_decision-AllAge now complete e ks = end_cutover-AllAge now e ks
credentials_after_decision-AllAge now approve e ks = AllAge-refl ks
credentials_after_decision-AllAge now reject e ks = AllAge-refl ks

pub replace_first-AllAge :
    (id : String) (now : ℕ) (k : Credential) (ks : List Credential)
    → find (has_id id) ks ≡ some k
    → AllAge ks (replace_first (has_id id) (revoked_credential now k) ks)
unfolding find replace_first
replace_first-AllAge id now k [] e = absurd (cc)
replace_first-AllAge id now k (l ∷ ks) e = elim (Bool-cases (has_id id l)) [
  | inl h ↦ rw h (
      more (subst (Ages l) (ap (revoked_credential now) (some-eq (rw h at e))) (ended now l))
        (AllAge-refl ks))
  | inr h ↦ rw h (more (Ages-refl l) (replace_first-AllAge id now k ks (rw h at e)))
]

-- Where identifiers are distinct, a revocation leaves no other credential with the identifier.
pub replace_first-IsSpent :
    (id : String) (now : ℕ) (k : Credential) (ks : List Credential)
    → find (has_id id) ks ≡ some k
    → HasDistinctIds ks
    → IsSpent id (replace_first (has_id id) (revoked_credential now k) ks)
unfolding find replace_first any
replace_first-IsSpent id now k [] e v = absurd (cc)
replace_first-IsSpent id now k (l ∷ ks) e v = elim (Bool-cases (has_id id l)) [
  | inl h ↦
      let same = some-eq (rw h at e) in
      let named = ap (has_id id) (sym same) ∙ h in
      rw h (
        rw (named) refl,
        λ m i q. elim i [
          | inl p ↦ ap (λ (z : Credential). z.status) (sym p)
          | inr j ↦ absurd (
              cc (
                q,
                any-false-In (has_id l.id) ks m v.0 j,
                ap (λ c. has_id c m) ((eq_iff l.id id).0 h),
              ))
        ],
      )
  | inr h ↦
      let rest = replace_first-IsSpent id now k ks (rw h at e) v.1 in
      rw (h, h)
        (
          rest.0,
          λ m i q. elim i [ inl p ↦ absurd (cc (h, q, ap (has_id id) p)) | inr j ↦ rest.1 m j q ],
        )
]

pub keys-Change :
    (call : Call) (state : CredentialState) (ls : List Credential) (x : Service)
    → AllAge x.keys ls
    → Change x (with_keys call state ls x)
unfolding with_keys
keys-Change call state ls x age = record {
  code = refl;
  sound = λ v. record {
    one_key = AllAge-HasOneActive age v.one_key;
    one_secret = v.one_secret;
    key_ids = AllAge-HasDistinctIds age v.key_ids;
    scopes = v.scopes;
  };
  spent = λ id v. AllAge-IsSpent id age v;
}

pub new_key-Change :
    (call : Call) (state : CredentialState) (ls : List Credential) (new : Credential) (x : Service)
    → AllAge x.keys ls
    → filter (is_current_in new.environment) ls ≡ []
    → any (has_id new.id) x.keys ≡ false
    → Change x (with_keys call state (ls ++ new ∷ []) x)
unfolding with_keys
new_key-Change call state ls new x age free fresh =
    let unused = AllAge-any_id new.id age ∙ fresh in
    record {
      code = refl;
      sound = λ v. record {
        one_key = append-HasOneActive new ls free (AllAge-HasOneActive age v.one_key);
        one_secret = v.one_secret;
        key_ids = append-HasDistinctIds new ls unused (AllAge-HasDistinctIds age v.key_ids);
        scopes = v.scopes;
      };
      spent = λ id v. append-IsSpent id new ls unused (AllAge-IsSpent id age v);
    }
