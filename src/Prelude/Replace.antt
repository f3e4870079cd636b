-- ===== src/Prelude/Replace.antt =====
-- Changing an object in place: the first element of an array that a search finds.
use mathlib.Core.Path.{◌≡◌, refl, ap, sym, ◌∙◌}
use mathlib.Core.Logic.{◌⊎◌, inl, inr}
use mathlib.Core.Bool.{Bool, true, false, ◌||◌}
use mathlib.Core.Option.{Option, some}
use mathlib.Core.List.{List, [], ◌∷◌}
use native.Mathlib.Omega.{arith}
use orbi_pay_gateway_v.Prelude.Tests.{if◌then◌else◌, Bool-cases}
use orbi_pay_gateway_v.Prelude.Lists.{find, any, In}

pub some-eq {ℓ} : {A : Type ℓ} {a b : A} → Path (Option A) (some a) (some b) → a ≡ b
some-eq h = cc

module _ {A : Type 0} where
  unfoldable pub replace_first : (A → Bool) → A → List A → List A
  replace_first p new [] = []
  replace_first p new (x ∷ xs) = if p x then new ∷ xs else x ∷ replace_first p new xs

  pub In-replace_first :
      (p : A → Bool) (new y : A) (xs : List A) → In y (replace_first p new xs) → (new ≡ y) ⊎ In y xs
  unfolding replace_first
  In-replace_first p new y [] i = absurd i
  In-replace_first p new y (x ∷ xs) i = elim (Bool-cases (p x)) [
    | inl h ↦ elim (rw h at i) [ inl e ↦ inl e | inr e ↦ inr (inr e) ]
    | inr h ↦ elim (rw h at i) [
      | inl e ↦ inr (inl e)
      | inr e ↦ elim (In-replace_first p new y xs e) [ inl z ↦ inl z | inr z ↦ inr (inr z) ]
    ]
  ]

  -- A test that the new element answers like the one found keeps its answer on the list.
  pub any-replace_first :
      (p q : A → Bool) (new old : A) (xs : List A)
      → find p xs ≡ some old
      → q new ≡ q old
      → any q (replace_first p new xs) ≡ any q xs
  unfolding find any replace_first
  any-replace_first p q new old [] e h = absurd (cc)
  any-replace_first p q new old (x ∷ xs) e h = elim (Bool-cases (p x)) [
    | inl k ↦ rw k (ap (λ b. b || any q xs) (h ∙ ap q (sym (some-eq (rw k at e)))))
    | inr k ↦ ground (arith, any-replace_first p q new old xs (ground arith) h)
  ]

  pub find-replace_first :
      (p : A → Bool) (new old : A) (xs : List A)
      → find p xs ≡ some old
      → p new ≡ true
      → find p (replace_first p new xs) ≡ some new
  unfolding find replace_first
  find-replace_first p new old [] e h = absurd (cc)
  find-replace_first p new old (x ∷ xs) e h = elim (Bool-cases (p x)) [
    | inl k ↦ rw (k, h) refl
    | inr k ↦ rw (k, k) (find-replace_first p new old xs (ground arith) h)
  ]

  -- A search for something else finds what it found.
  pub find-replace_first_other :
      (p q : A → Bool) (new old : A) (xs : List A)
      → find p xs ≡ some old
      → q new ≡ false
      → q old ≡ false
      → find q (replace_first p new xs) ≡ find q xs
  unfolding find replace_first
  find-replace_first_other p q new old [] e h k = absurd (cc)
  find-replace_first_other p q new old (x ∷ xs) e h k = elim (Bool-cases (p x)) [
    | inl d ↦ let same = ap q (some-eq (rw d at e)) in rw (d, h, same ∙ k) refl
    | inr d ↦
        let rest = find-replace_first_other p q new old xs (rw d at e) h k in rw (d, rest) refl
  ]
