-- ===== src/OAuth/Transitions.antt =====
-- services/oauthAuthorizationStore.ts: the life of a request, from identity to consent and decision.
use mathlib.Core.Path.{subst}
use orbi_pay_gateway_v.Prelude.{
  ℕ, ◌<◌, ◌≡◌, refl, sym, ap, ◌⊎◌, inl, inr, Bool, true, false, String, some, List, [], ◌∷◌, ok, In,
  arith, Bool-cases,
}
use orbi_pay_gateway_v.Sql.{update_where, In-update_where, In-update_where_other}
use orbi_pay_gateway_v.OAuth.Data.{
  Vault, AuthorizationRecord, AuthorizationRow, Status, pending_identity, pending_consent, approved,
  denied, is_status, Decision, status_of,
}
use orbi_pay_gateway_v.OAuth.{
  new_row, create, is_open, awaits_identity, awaits_consent, awaits_subject, complete_identity,
  replace_pending_subject, decide,
}

-- What a call may make of a row.
pub data Moves {vault : Vault} (now : ℕ) (r : AuthorizationRow vault)
    : AuthorizationRow vault → Type 0 where
  kept : Moves now r r
  identifies :
      (subject_id : String)
      → r.status ≡ pending_identity
      → now < r.expires_at
      → Moves now r (record r { subject_id = some subject_id; status = pending_consent })
  replaces_subject :
      (subject_id : String)
      → r.status ≡ pending_consent
      → now < r.expires_at
      → Moves now r (record r { subject_id = some subject_id })
  decides :
      (decision : Decision)
      → r.status ≡ pending_consent
      → now < r.expires_at
      → Moves now r (record r { status = status_of decision })

is_status-eq : (a b : Status) → is_status a b ≡ true → a ≡ b
is_status-eq a b h = ground arith

module _ (vault : Vault) (hash : String → String) where
  abbrev Rows : Type 0
  Rows = List (AuthorizationRow vault)

  is_open_parts :
      (status : Status) (now : ℕ) (r : AuthorizationRow vault)
      → is_open vault hash status now r ≡ true
      → (r.status ≡ status) × (now < r.expires_at)
  unfolding is_open
  is_open_parts status now r h = (is_status-eq r.status status (ground arith), ground arith)

  update-Moves :
      (now : ℕ) (p : AuthorizationRow vault → Bool)
      (f : AuthorizationRow vault → AuthorizationRow vault) (rows : Rows)
      (x : AuthorizationRow vault)
      → ((r : AuthorizationRow vault) → p r ≡ true → Moves now r (f r))
      → In x (update_where p f rows)
      → (r : AuthorizationRow vault) × In r rows × Moves now r x
  update-Moves now p f rows x legal i =
      let (r, j, e) = In-update_where p f rows x i in
      elim (Bool-cases (p r)) [
        | inl h ↦ (r, j, subst (Moves now r) (sym (rw h at e)) (legal r h))
        | inr h ↦ (r, j, subst (Moves now r) (sym (rw h at e)) kept)
      ]

  -- Of the rows after one of the three updates, each is an old row that was kept or moved one step on
  -- before it ran out: a request that waits for an identity gets one and waits for consent, and one
  -- that waits for consent has its subject replaced, or is approved or denied.
  pub updates-Moves :
      (now : ℕ) (upstream_state subject_id request_id approval_token : String) (decision : Decision)
      (rows : Rows) (x : AuthorizationRow vault)
      → (In x (complete_identity vault hash now upstream_state subject_id rows).0
          ⊎ In x (replace_pending_subject vault hash now request_id subject_id rows).0
          ⊎ In x (decide vault hash now request_id approval_token decision rows).0)
      → (r : AuthorizationRow vault) × In r rows × Moves now r x
  unfolding complete_identity replace_pending_subject decide awaits_identity awaits_subject
      awaits_consent
  updates-Moves now upstream_state subject_id request_id approval_token decision rows x (inl i) =
      update-Moves now _ _ rows x
        (λ r h.
          let (s, e) = is_open_parts pending_identity now r (ground arith) in
          identifies subject_id s e)
        i
  updates-Moves now upstream_state subject_id request_id approval_token decision rows x
        (inr (inl i)) =
      update-Moves now _ _ rows x
        (λ r h.
          let (s, e) = is_open_parts pending_consent now r (ground arith) in
          replaces_subject subject_id s e)
        i
  updates-Moves now upstream_state subject_id request_id approval_token decision rows x
        (inr (inr i)) =
      update-Moves now _ _ rows x
        (λ r h.
          let (s, e) = is_open_parts pending_consent now r (ground arith) in decides decision s e)
        i

  -- One call that changes the table.
  pub data Step (rows : Rows) : Rows → Type 0 where
    creates :
        (input : AuthorizationRecord) (rows' : Rows)
        → create vault hash input rows ≡ ok rows'
        → Step rows rows'
    completes :
        (now : ℕ) (upstream_state subject_id : String)
        → Step rows (complete_identity vault hash now upstream_state subject_id rows).0
    replaces :
        (now : ℕ) (request_id subject_id : String)
        → Step rows (replace_pending_subject vault hash now request_id subject_id rows).0
    decides_request :
        (now : ℕ) (request_id approval_token : String) (decision : Decision)
        → Step rows (decide vault hash now request_id approval_token decision rows).0

  pub data Reach (rows : Rows) : Rows → Type 0 where
    here : Reach rows rows
    next : {t u : Rows} → Reach rows t → Step t u → Reach rows u

  create-ok :
      (input : AuthorizationRecord) (rows : Rows) {rows' : Rows}
      → create vault hash input rows ≡ ok rows'
      → rows' ≡ new_row vault hash input ∷ rows
  unfolding create
  create-ok input rows e = ground arith

  -- A request that was approved or denied.
  abbrev pub IsDecided : AuthorizationRow vault → Type 0
  IsDecided r = (r.status ≡ approved) ⊎ (r.status ≡ denied)

  not_open :
      (status : Status) (now : ℕ) (r : AuthorizationRow vault)
      → (status ≡ pending_identity) ⊎ (status ≡ pending_consent)
      → IsDecided r
      → is_open vault hash status now r ≡ false
  unfolding is_open
  not_open status now r s d = ground arith

  Step-IsDecided :
      {s t : Rows} → Step s t → (r : AuthorizationRow vault) → IsDecided r → In r s → In r t
  unfolding complete_identity replace_pending_subject decide awaits_identity awaits_subject
      awaits_consent
  Step-IsDecided {s} (creates input rows' e) r d i =
      subst (In r) (sym (create-ok input s e)) (inr i)
  Step-IsDecided {s} (completes now upstream_state subject_id) r d i =
      In-update_where_other _ _ s r i (ground (arith, not_open pending_identity now r (inl refl) d))
  Step-IsDecided {s} (replaces now request_id subject_id) r d i =
      In-update_where_other _ _ s r i (ground (arith, not_open pending_consent now r (inr refl) d))
  Step-IsDecided {s} (decides_request now request_id approval_token decision) r d i =
      In-update_where_other _ _ s r i (ground (arith, not_open pending_consent now r (inr refl) d))

  -- A decision is final: the row of a request that was approved or denied stays as it is, with its
  -- subject, scopes and status, whatever calls follow.
  pub decision_final :
      {s t : Rows} (r : AuthorizationRow vault) → IsDecided r → In r s → Reach s t → In r t
  decision_final r d i here = i
  decision_final r d i (next reach step) = Step-IsDecided step r d (decision_final r d i reach)

  -- A request that does not wait for an identity has a subject.
  abbrev pub IsIdentified : AuthorizationRow vault → Type 0
  IsIdentified r = (r.status ≡ pending_identity) ⊎ ((s : String) × (r.subject_id ≡ some s))

  Moves-IsIdentified :
      {now : ℕ} {r x : AuthorizationRow vault} → Moves now r x → IsIdentified r → IsIdentified x
  Moves-IsIdentified kept v = v
  Moves-IsIdentified (identifies subject_id s e) v = inr (subject_id, refl)
  Moves-IsIdentified (replaces_subject subject_id s e) v = inr (subject_id, refl)
  Moves-IsIdentified (decides decision s e) (inl w) = absurd (cc)
  Moves-IsIdentified (decides decision s e) (inr w) = inr w

  created-IsIdentified :
      (input : AuthorizationRecord) (s : Rows) (x : AuthorizationRow vault)
      → ((r : AuthorizationRow vault) → In r s → IsIdentified r)
      → In x (new_row vault hash input ∷ s)
      → IsIdentified x
  unfolding new_row
  created-IsIdentified input s x v (inl e) =
      inl (ap (λ (r : AuthorizationRow vault). r.status) (sym e))
  created-IsIdentified input s x v (inr i) = v x i

  Step-IsIdentified :
      {s t : Rows}
      → Step s t
      → ((r : AuthorizationRow vault) → In r s → IsIdentified r)
      → (x : AuthorizationRow vault) → In x t
      → IsIdentified x
  Step-IsIdentified {s} (creates input rows' e) v x i =
      created-IsIdentified input s x v (subst (In x) (create-ok input s e) i)
  Step-IsIdentified {s} (completes now upstream_state subject_id) v x i =
      let (r, j, m) = updates-Moves now upstream_state subject_id "" "" Decision.deny s x (inl i) in
      Moves-IsIdentified m (v r j)
  Step-IsIdentified {s} (replaces now request_id subject_id) v x i =
      let (r, j, m) =
        updates-Moves now "" subject_id request_id "" Decision.deny s x (inr (inl i)) in
      Moves-IsIdentified m (v r j)
  Step-IsIdentified {s} (decides_request now request_id approval_token decision) v x i =
      let (r, j, m) =
        updates-Moves now "" "" request_id approval_token decision s x (inr (inr i)) in
      Moves-IsIdentified m (v r j)

  -- After any sequence of calls on the empty table, every request that waits for consent, or that was
  -- approved or denied, has a subject.
  pub Reach-IsIdentified :
      {t : Rows} → Reach [] t → (x : AuthorizationRow vault) → In x t → IsIdentified x
  Reach-IsIdentified here x i = absurd i
  Reach-IsIdentified (next reach step) x i = Step-IsIdentified step (Reach-IsIdentified reach) x i
