-- ===== src/Prelude/Results.antt =====
-- A result or a thrown error, as a value.
use mathlib.Core.Path.{◌≡◌, refl}
use mathlib.Core.Bool.{Bool, true, false}
use mathlib.Core.Logic.{◌⊎◌, inl, inr}

pub data Result {ℓ κ} (Thrown : Type ℓ) (Value : Type κ) : Type (ℓ ⊔ κ) where
  err : Thrown → Result Thrown Value
  ok : Value → Result Thrown Value

infixl 5 ◌>>=◌
infixr 5 ◌>>◌
-- The rest of a function, which runs unless the call before it threw.
abbrev pub ◌>>=◌ {ℓ κ μ} :
    {Thrown : Type ℓ} {Before : Type κ} {After : Type μ}
    → Result Thrown Before
    → (Before → Result Thrown After)
    → Result Thrown After
m >>= rest = elim m [ err thrown ↦ err thrown | ok value ↦ rest value ]

abbrev pub ◌>>◌ {ℓ κ} :
    {Thrown : Type ℓ} {After : Type κ}
    → Result Thrown (Unit {0})
    → Result Thrown After
    → Result Thrown After
m >> rest = m >>= λ done. rest

-- `if (failed) throw e`
abbrev pub throw_if {ℓ} : {E : Type ℓ} → Bool → E → Result E (Unit {0})
throw_if true e = err e
throw_if false e = ok tt

-- What ran to its end did so in both halves.
pub >>=-eq-ok {ℓ κ μ} :
    {Thrown : Type ℓ} {Before : Type κ} {After : Type μ} (m : Result Thrown Before)
    (rest : Before → Result Thrown After) {b : After}
    → (m >>= rest) ≡ ok b
    → (a : Before) × (m ≡ ok a) × (rest a ≡ ok b)
>>=-eq-ok (err thrown) rest h = absurd (cc)
>>=-eq-ok (ok value) rest h = (value, refl, h)

pub >>-eq-ok {ℓ κ} :
    {Thrown : Type ℓ} {After : Type κ} (m : Result Thrown (Unit {0})) (rest : Result Thrown After)
    {b : After}
    → (m >> rest) ≡ ok b
    → (m ≡ ok tt) × (rest ≡ ok b)
>>-eq-ok (err thrown) rest h = absurd (cc)
>>-eq-ok (ok done) rest h = (refl, h)

pub Result-cases {ℓ κ} :
    {E : Type ℓ} {A : Type κ} (m : Result E A) → ((e : E) × (m ≡ err e)) ⊎ ((a : A) × (m ≡ ok a))
Result-cases (ok a) = inr (a, refl)
Result-cases (err e) = inl (e, refl)

pub throw_if-ok {ℓ κ} :
    {E : Type ℓ} {A : Type κ} (b : Bool) (e : E) (k : Result E A) {a : A}
    → (throw_if b e >> k) ≡ ok a
    → (b ≡ false) × (k ≡ ok a)
throw_if-ok true e k h = absurd (cc)
throw_if-ok false e k h = (refl, h)

pub ok-eq {ℓ κ} : {E : Type ℓ} {A : Type κ} {a b : A} → Path (Result E A) (ok a) (ok b) → a ≡ b
ok-eq h = cc
