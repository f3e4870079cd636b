-- ===== src/Sql.antt =====
-- The SQL statements that the stores send, on a table that is the list of its rows.
use orbi_pay_gateway_v.Prelude.{
  ◌≡◌, refl, Bool, true, false, some, List, [], ◌∷◌, if◌then◌else◌, Result, ok, err, In, find, inl,
  inr, Bool-cases, arith, sym, ap,
}

module _ {A : Type 0} where
  -- `UPDATE … WHERE …`: the table afterwards.
  unfoldable pub update_where : (A → Bool) → (A → A) → List A → List A
  update_where p f [] = []
  update_where p f (r ∷ rs) = (if p r then f r else r) ∷ update_where p f rs

  -- `RETURNING *`: the rows that were changed.
  unfoldable pub returning : (A → Bool) → (A → A) → List A → List A
  returning p f [] = []
  returning p f (r ∷ rs) = if p r then f r ∷ returning p f rs else returning p f rs

  -- `rowCount !== 1` throws.
  abbrev pub single {ℓ} : {E : Type ℓ} → E → List A → Result E A
  single e [] = err e
  single e (r ∷ []) = ok r
  single e (r ∷ s ∷ rs) = err e

  -- A row after an update is an old row, changed if it fits.
  pub In-update_where :
      (p : A → Bool) (f : A → A) (rs : List A) (x : A)
      → In x (update_where p f rs)
      → (r : A) × In r rs × (x ≡ (if p r then f r else r))
  unfolding update_where
  In-update_where p f [] x i = absurd i
  In-update_where p f (r ∷ rs) x (inl e) = (r, inl refl, sym e)
  In-update_where p f (r ∷ rs) x (inr i) =
      let (s, j, e) = In-update_where p f rs x i in (s, inr j, e)

  pub In-returning :
      (p : A → Bool) (f : A → A) (rs : List A) (x : A)
      → In x (returning p f rs)
      → (r : A) × In r rs × (p r ≡ true) × (x ≡ f r)
  unfolding returning
  In-returning p f [] x i = absurd i
  In-returning p f (r ∷ rs) x i = elim (Bool-cases (p r)) [
    | inl h ↦ here h (In-returning p f rs x) (rw (h, returning) at i)
    | inr h ↦ later (In-returning p f rs x (rw (h, returning) at i))
  ]
    where
      later :
          ((s : A) × In s rs × (p s ≡ true) × (x ≡ f s))
          → (s : A) × In s (r ∷ rs) × (p s ≡ true) × (x ≡ f s)
      later (s, j, h, e) = (s, inr j, h, e)

      here :
          p r ≡ true
          → (In x (returning p f rs) → (s : A) × In s rs × (p s ≡ true) × (x ≡ f s))
          → In x (f r ∷ returning p f rs)
          → (s : A) × In s (r ∷ rs) × (p s ≡ true) × (x ≡ f s)
      here h rest (inl e) = (r, inl refl, h, sym e)
      here h rest (inr j) = later (rest j)

  -- A row that does not fit stays.
  pub In-update_where_other :
      (p : A → Bool) (f : A → A) (rs : List A) (x : A)
      → In x rs
      → p x ≡ false
      → In x (update_where p f rs)
  unfolding update_where
  In-update_where_other p f [] x i h = absurd i
  In-update_where_other p f (r ∷ rs) x (inl e) h = inl (ground (arith, ap p e))
  In-update_where_other p f (r ∷ rs) x (inr i) h = inr (In-update_where_other p f rs x i h)

  pub single-ok : {E : Type 0} (e : E) (rs : List A) {x : A} → single e rs ≡ ok x → rs ≡ x ∷ []
  single-ok e [] h = absurd (cc)
  single-ok e (r ∷ []) h = cc
  single-ok e (r ∷ s ∷ rs) h = absurd (cc)

  -- A search by what an update leaves alone finds the updated row.
  pub find-update_where :
      (q p : A → Bool) (f : A → A) (rs : List A) {r : A}
      → ((x : A) → q (f x) ≡ q x)
      → find q rs ≡ some r
      → find q (update_where p f rs) ≡ some (if p r then f r else r)
  unfolding update_where find
  find-update_where q p f [] same e = absurd (cc)
  find-update_where q p f (x ∷ rs) {r} same e =
      ground (arith, same x, find-update_where q p f rs {r = r} same)
