-- ===== src/DeveloperPortal/Soundness/Ages.antt =====
-- services/developerPortalStore.ts: lists of credentials that grow older.
use orbi_pay_gateway_v.Prelude.{
  ◌+◌, ◌≤◌, ◌≡◌, refl, sym, ap, ◌∙◌, Bool, true, false, String, List, [], ◌∷◌, ◌++◌, length, arith,
  any, filter, length-filter-le, In, inl, inr, Bool-cases, eq_iff, ◌==◌, ◌||◌, ◌⊎◌,
}
use orbi_pay_gateway_v.Environments.{Environment, env_eq, env_eq_iff}
use orbi_pay_gateway_v.DeveloperPortal.Keys.{has_id, is_current_in}
use orbi_pay_gateway_v.DeveloperPortal.Soundness.{HasOneActive, HasDistinctIds, IsSpent}
use orbi_pay_gateway_v.DeveloperPortal.Data.{Credential, CredentialStatus, is_current}

-- A credential keeps its identifier and environment; an active one was active, a revoked one stays so.
pub record Ages (k l : Credential) : Type 0 where
  pub id : l.id ≡ k.id
  pub environment : l.environment ≡ k.environment
  pub current : is_current l.status ≡ true → is_current k.status ≡ true
  pub revoked : k.status ≡ CredentialStatus.revoked → l.status ≡ CredentialStatus.revoked

pub Ages-refl : (k : Credential) → Ages k k
Ages-refl k = record { id = refl; environment = refl; current = λ h. h; revoked = λ h. h }

pub data AllAge : List Credential → List Credential → Type 0 where
  done : AllAge [] []
  more :
      {k l : Credential} {ks ls : List Credential}
      → Ages k l
      → AllAge ks ls
      → AllAge (k ∷ ks) (l ∷ ls)

pub AllAge-refl : (ks : List Credential) → AllAge ks ks
AllAge-refl [] = done
AllAge-refl (k ∷ ks) = more (Ages-refl k) (AllAge-refl ks)

pub AllAge-any_id :
    (id : String) {ks ls : List Credential} → AllAge ks ls → any (has_id id) ls ≡ any (has_id id) ks
unfolding any
AllAge-any_id id done = refl
AllAge-any_id id (more {k} {l} {ks} {ls} a bs) =
    rw (ap (λ i. i == id) (a.id)) (ap (λ b. (k.id == id) || b) (AllAge-any_id id bs))

pub AllAge-HasDistinctIds :
    {ks ls : List Credential} → AllAge ks ls → HasDistinctIds ks → HasDistinctIds ls
AllAge-HasDistinctIds done v = v
AllAge-HasDistinctIds (more {k} {l} {ks} {ls} a bs) v =
    (ap (λ i. any (has_id i) ls) a.id ∙ AllAge-any_id k.id bs ∙ v.0, AllAge-HasDistinctIds bs v.1)

AllAge-revoked :
    (id : String) {ks ls : List Credential}
    → AllAge ks ls
    → ((k : Credential) → In k ks → has_id id k ≡ true → k.status ≡ CredentialStatus.revoked)
    → (l : Credential) → In l ls
    → has_id id l ≡ true
    → l.status ≡ CredentialStatus.revoked
AllAge-revoked id done v l i h = absurd i
AllAge-revoked id (more {k} a bs) v l (inl e) h =
    ap (λ (z : Credential). z.status) (sym e)
    ∙ a.revoked (v k (inl refl) (ap (λ i. i == id) (sym a.id) ∙ ap (has_id id) e ∙ h))
AllAge-revoked id (more a bs) v l (inr j) h = AllAge-revoked id bs (λ k i. v k (inr i)) l j h

pub AllAge-IsSpent :
    (id : String) {ks ls : List Credential} → AllAge ks ls → IsSpent id ks → IsSpent id ls
AllAge-IsSpent id bs v = (AllAge-any_id id bs ∙ v.0, AllAge-revoked id bs v.1)

AllAge-count :
    (e : Environment) {ks ls : List Credential}
    → AllAge ks ls
    → length (filter (is_current_in e) ls) ≤ length (filter (is_current_in e) ks)
unfolding filter
AllAge-count e done = omega arith
AllAge-count e (more {k} {l} {ks} {ls} a bs) =
    let step = AllAge-count e bs in
    rw (ap (λ i. env_eq i e) a.environment) (ground (arith, a.current))

pub AllAge-HasOneActive :
    {ks ls : List Credential} → AllAge ks ls → HasOneActive ks → HasOneActive ls
AllAge-HasOneActive bs v e = let h = AllAge-count e bs in let k = v e in omega arith

-- A new active credential, when no other of its environment is left active.
filter-append :
    {A : Type 0} (p : A → Bool) (xs ys : List A) → filter p (xs ++ ys) ≡ filter p xs ++ filter p ys
unfolding filter
filter-append p [] ys = refl
filter-append p (x ∷ xs) ys = ground (arith, filter-append p xs ys)

length-append : {A : Type 0} (xs ys : List A) → length (xs ++ ys) ≡ length xs + length ys
length-append [] ys = omega arith
length-append (x ∷ xs) ys = ground (arith, length-append xs ys)

pub append-HasOneActive :
    (k : Credential) (ks : List Credential)
    → filter (is_current_in k.environment) ks ≡ []
    → HasOneActive ks
    → HasOneActive (ks ++ k ∷ [])
append-HasOneActive k ks free v e =
    rw (filter-append (is_current_in e) ks (k ∷ []), length-append (filter (is_current_in e) ks))
      (elim (Bool-cases (env_eq k.environment e)) [
        | inl h ↦
            let none_left =
              ap (λ (i : Environment). length (filter (is_current_in i) ks))
                (sym ((env_eq_iff _ e).0 h)) in
            let one = length-filter-le (is_current_in e) (k ∷ []) in
            let zero_left = ap (λ (xs : List Credential). length xs) free in omega arith
        | inr h ↦ let few = v e in unfold filter in rw h (omega arith)
      ])

any-append :
    {A : Type 0} (p : A → Bool) (xs ys : List A) → any p (xs ++ ys) ≡ (any p xs || any p ys)
unfolding any
any-append p [] ys = refl
any-append p (x ∷ xs) ys = ground (arith, any-append p xs ys)

pub append-HasDistinctIds :
    (k : Credential) (ks : List Credential)
    → any (has_id k.id) ks ≡ false
    → HasDistinctIds ks
    → HasDistinctIds (ks ++ k ∷ [])
unfolding any
append-HasDistinctIds k [] free v = (refl, tt)
append-HasDistinctIds k (l ∷ ks) free v = (
  any-append (has_id l.id) ks (k ∷ []) ∙ ground (arith, v.0, eq_iff l.id k.id, eq_iff k.id l.id),
  append-HasDistinctIds k ks (ground arith) v.1,
)

In-append : {A : Type 0} (a : A) (xs ys : List A) → In a (xs ++ ys) → In a xs ⊎ In a ys
In-append a [] ys i = inr i
In-append a (x ∷ xs) ys (inl e) = inl (inl e)
In-append a (x ∷ xs) ys (inr i) = elim (In-append a xs ys i) [ inl j ↦ inl (inr j) | inr j ↦ inr j ]

pub append-IsSpent :
    (id : String) (k : Credential) (ks : List Credential)
    → any (has_id k.id) ks ≡ false
    → IsSpent id ks
    → IsSpent id (ks ++ k ∷ [])
unfolding any
append-IsSpent id k ks free v = (
  any-append (has_id id) ks (k ∷ []) ∙ ground (arith, v.0),
  λ l i h. elim (In-append l ks (k ∷ []) i) [
    | inl j ↦ v.1 l j h
    | inr (inl e) ↦
        let same = ap (λ (z : Credential). z.id) e ∙ (eq_iff l.id id).0 h in
        absurd (cc (free, v.0, ap (λ i. any (has_id i) ks) same))
    | inr (inr n) ↦ absurd n
  ],
)
