-- ===== src/Prelude/Dict.antt =====
-- A JavaScript `Map` with text keys: entries in the order of insertion, `set` in place on a key
-- that is there.
use Prim.Native.Nat.{◌+◌, ◌≤◌}
use Prim.Native.String.{String}
use mathlib.Core.Path.{◌≡◌, refl}
use mathlib.Core.Logic.{◌⊎◌, ◌≢◌, inl, inr}
use mathlib.Core.Bool.{Bool, true, false}
use mathlib.Core.Option.{Option, none, some}
use mathlib.Core.List.{List, [], ◌∷◌}
use native.Mathlib.Omega.{arith}
use text.Mathlib.Text.{◌==◌}
use text.Mathlib.TextEquality.{eq_iff}
use text.Mathlib.TextPositions.{eq_refl}
use orbi_pay_gateway_v.Prelude.Tests.{if◌then◌else◌, eq-cases, eq-false}
use orbi_pay_gateway_v.Prelude.Lists.{length, In}

abbrev pub Dict {ℓ} : Type ℓ → Type ℓ
Dict V = List (String × V)

module _ {ℓ} {V : Type ℓ} where
  unfoldable pub get : String → Dict V → Option V
  get k [] = none
  get k ((j, v) ∷ m) = if j == k then some v else get k m

  unfoldable pub set : String → V → Dict V → Dict V
  set k v [] = (k, v) ∷ []
  set k v ((j, w) ∷ m) = if j == k then (j, v) ∷ m else (j, w) ∷ set k v m

  unfoldable pub has : String → Dict V → Bool
  unfolding get
  has k m = elim (get k m) [ none ↦ false | some v ↦ true ]

  unfoldable pub values : Dict V → List V
  values [] = []
  values ((k, v) ∷ m) = v ∷ values m

  pub get-set :
      (k j : String) (v : V) (m : Dict V) → get j (set k v m) ≡ (if k == j then some v else get j m)
  unfolding get set
  get-set k j v [] = refl
  get-set k j v ((i, w) ∷ m) = ground (arith, eq_iff k j, eq_iff i k, eq_iff i j, get-set k j v m)

  pub get-set_self : (k : String) (v : V) (m : Dict V) → get k (set k v m) ≡ some v
  get-set_self k v m = simp (get-set, eq_refl)

  pub get-set_other : (k j : String) (v : V) (m : Dict V) → k ≢ j → get j (set k v m) ≡ get j m
  get-set_other k j v m h = simp (get-set, eq-false k j h)

  pub length-set-le : (k : String) (v : V) (m : Dict V) → length (set k v m) ≤ length m + 1
  unfolding set
  length-set-le k v [] = omega arith
  length-set-le k v ((j, w) ∷ m) = ground (arith, length-set-le k v m)

  -- What is read after a write is the value written, or what stood there before.
  pub get-set_cases :
      (k j : String) (v : V) (m : Dict V) {w : V}
      → get j (set k v m) ≡ some w
      → ((k ≡ j) × (v ≡ w)) ⊎ ((k ≢ j) × (get j m ≡ some w))
  get-set_cases k j v m e = elim (eq-cases k j) [
    | inl (p, t) ↦ inl (p, ground (arith, get-set k j v m))
    | inr (p, t) ↦ inr (p, ground (arith, get-set k j v m))
  ]

module _ {V : Type 0} where
  pub get-In-values : (k : String) (m : Dict V) {v : V} → get k m ≡ some v → In v (values m)
  unfolding get values
  get-In-values k [] e = absurd (cc)
  get-In-values k ((j, w) ∷ m) {v} e = elim (eq-cases j k) [
    | inl (p, t) ↦ inl (ground (arith))
    | inr (p, t) ↦ inr (get-In-values k m (ground arith))
  ]
