-- ===== src/Prelude/Lists.antt =====
-- Lists over the native numbers, searches by a test, and JavaScript sets of texts.
use Prim.Native.Nat.{ℕ, suc, ◌≤◌}
use Prim.Native.String.{String}
use mathlib.Core.Path.{◌≡◌, refl, ap}
use mathlib.Core.Logic.{◌⊎◌, inl, inr}
use mathlib.Core.Bool.{Bool, true, false, ◌&&◌, ◌||◌}
use mathlib.Core.Option.{Option, none, some}
use mathlib.Core.List.{List, [], ◌∷◌, ◌++◌, map}
use native.Mathlib.Omega.{arith}
use text.Mathlib.Text.{◌==◌}
use text.Mathlib.TextEquality.{eq_iff}
use orbi_pay_gateway_v.Prelude.Tests.{if◌then◌else◌, Bool-cases, eq-cases, ltb}

module _ {ℓ} {A : Type ℓ} where
  abbrev pub length : List A → ℕ
  length [] = 0
  length (x ∷ xs) = suc (length xs)

  -- `filter`, `find`, `some` and `every` of an array.
  unfoldable pub filter : (A → Bool) → List A → List A
  filter p [] = []
  filter p (x ∷ xs) = if p x then x ∷ filter p xs else filter p xs

  unfoldable pub find : (A → Bool) → List A → Option A
  find p [] = none
  find p (x ∷ xs) = if p x then some x else find p xs

  unfoldable pub any : (A → Bool) → List A → Bool
  any p [] = false
  any p (x ∷ xs) = p x || any p xs

  unfoldable pub all : (A → Bool) → List A → Bool
  all p [] = true
  all p (x ∷ xs) = p x && all p xs

  abbrev pub All {κ} : (A → Type κ) → List A → Type κ
  All P [] = Unit
  All P (x ∷ xs) = P x × All P xs

  pub length-filter-le : (p : A → Bool) (xs : List A) → length (filter p xs) ≤ length xs
  unfolding filter
  length-filter-le p [] = omega arith
  length-filter-le p (x ∷ xs) = ground (arith, length-filter-le p xs)

module _ {A : Type 0} where
  -- Membership as a sum, so that the tactics read it.
  abbrev pub In : A → List A → Type 0
  In a [] = ⊥
  In a (x ∷ xs) = (x ≡ a) ⊎ In a xs

  pub find-some : (p : A → Bool) (xs : List A) {x : A} → find p xs ≡ some x → (p x ≡ true) × In x xs
  unfolding find
  find-some p [] e = absurd (cc)
  find-some p (y ∷ xs) e = elim (Bool-cases (p y)) [
    | inl h ↦ (ground arith, inl (ground arith))
    | inr h ↦ let r = find-some p xs (ground arith) in (r.0, inr r.1)
  ]

-- `xs.includes(a)` and `new Set(xs).has(a)` on texts.
unfoldable pub includes : String → List String → Bool
includes a [] = false
includes a (x ∷ xs) = x == a || includes a xs

-- `Set.add`: an element keeps its first place.
unfoldable pub add : String → List String → List String
unfolding includes
add a xs = if includes a xs then xs else xs ++ a ∷ []

unfoldable pub unique_from : List String → List String → List String
unique_from seen [] = seen
unique_from seen (x ∷ xs) = unique_from (add x seen) xs

-- `[...new Set(xs)]`
unfoldable pub unique : List String → List String
unfolding unique_from add
unique xs = unique_from [] xs

pub includes-append :
    (a : String) (xs ys : List String) → includes a (xs ++ ys) ≡ (includes a xs || includes a ys)
unfolding includes
includes-append a [] ys = refl
includes-append a (x ∷ xs) ys = ground (arith, includes-append a xs ys)

pub includes-add :
    (a b : String) (xs : List String) → includes a (add b xs) ≡ (includes a xs || b == a)
unfolding add
includes-add a b xs = elim (Bool-cases (includes b xs)) [
  | inl h ↦ ground (arith, eq_iff b a)
  | inr h ↦ unfold includes in ground (arith, includes-append a xs (b ∷ []))
]

includes-unique_from :
    (a : String) (seen xs : List String)
    → includes a (unique_from seen xs) ≡ (includes a seen || includes a xs)
unfolding unique_from includes
includes-unique_from a seen [] = ground arith
includes-unique_from a seen (x ∷ xs) =
    ground (arith, includes-unique_from a (add x seen) xs, includes-add a x seen)

-- Removing duplicates keeps the elements.
pub includes-unique : (a : String) (xs : List String) → includes a (unique xs) ≡ includes a xs
unfolding unique includes
includes-unique a xs = includes-unique_from a [] xs

module _ {A : Type 0} where
  unfoldable pub insert_by : (A → ℕ) → A → List A → List A
  insert_by key x [] = x ∷ []
  insert_by key x (y ∷ ys) = if ltb (key x) (key y) then y ∷ insert_by key x ys else x ∷ y ∷ ys

  -- A stable `sort`, the greatest key first.
  unfoldable pub sort_descending : (A → ℕ) → List A → List A
  unfolding insert_by
  sort_descending key [] = []
  sort_descending key (x ∷ xs) = insert_by key x (sort_descending key xs)

  any-insert_by :
      (p : A → Bool) (key : A → ℕ) (x : A) (xs : List A)
      → any p (insert_by key x xs) ≡ (p x || any p xs)
  unfolding insert_by any
  any-insert_by p key x [] = ground arith
  any-insert_by p key x (y ∷ ys) = ground (arith, any-insert_by p key x ys)

  -- Sorting keeps whether a test holds of some element.
  pub any-sort_descending :
      (p : A → Bool) (key : A → ℕ) (xs : List A) → any p (sort_descending key xs) ≡ any p xs
  unfolding sort_descending any
  any-sort_descending p key [] = refl
  any-sort_descending p key (x ∷ xs) =
      ground (arith, any-insert_by p key x (sort_descending key xs), any-sort_descending p key xs)

  pub any-filter : (p q : A → Bool) (xs : List A) → any p (filter q xs) ≡ any (λ x. q x && p x) xs
  unfolding filter any
  any-filter p q [] = refl
  any-filter p q (x ∷ xs) = ground (arith, any-filter p q xs)

  pub any-map :
      {B : Type 0} (p : B → Bool) (f : A → B) (xs : List A)
      → any p (map f xs) ≡ any (λ x. p (f x)) xs
  unfolding any
  any-map p f [] = refl
  any-map p f (x ∷ xs) = ap (λ b. p (f x) || b) (any-map p f xs)

  pub any-eq : (p q : A → Bool) (xs : List A) → ((x : A) → p x ≡ q x) → any p xs ≡ any q xs
  unfolding any
  any-eq p q [] h = refl
  any-eq p q (x ∷ xs) h = ground (arith, h x, any-eq p q xs h)

  -- A search finds an element exactly if there is one that fits.
  pub any-find :
      (p : A → Bool) (xs : List A) → any p xs ≡ (elim (find p xs) [ none ↦ false | some _ ↦ true ])
  unfolding find any
  any-find p [] = refl
  any-find p (x ∷ xs) = ground (arith, any-find p xs)

  pub find-none : (p : A → Bool) (xs : List A) (x : A) → find p xs ≡ none → In x xs → p x ≡ false
  unfolding find
  find-none p [] x e i = absurd i
  find-none p (y ∷ xs) x e (inl h) = ground (arith, ap p h)
  find-none p (y ∷ xs) x e (inr i) =
      find-none p xs x
        (elim (Bool-cases (p y)) [
          | inl h ↦ absurd (cc (rw (h, find) at e))
          | inr h ↦ rw (h, find) at e
        ])
        i

  pub any-In : (p : A → Bool) (xs : List A) → any p xs ≡ true → (x : A) × In x xs × (p x ≡ true)
  unfolding any
  any-In p [] e = absurd (cc)
  any-In p (x ∷ xs) e = elim (Bool-cases (p x)) [
    | inl h ↦ (x, inl refl, h)
    | inr h ↦ let (y, i, k) = any-In p xs (ground arith) in (y, inr i, k)
  ]

  pub In-any : (p : A → Bool) (xs : List A) (x : A) → In x xs → p x ≡ true → any p xs ≡ true
  unfolding any
  In-any p [] x i h = absurd i
  In-any p (y ∷ xs) x (inl e) h = ground (arith, ap p e)
  In-any p (y ∷ xs) x (inr i) h = ground (arith, In-any p xs x i h)

  pub all-In : (p : A → Bool) (xs : List A) (x : A) → all p xs ≡ true → In x xs → p x ≡ true
  unfolding all
  all-In p [] x e i = absurd i
  all-In p (y ∷ xs) x e (inl h) = ground (arith, ap p h)
  all-In p (y ∷ xs) x e (inr i) = all-In p xs x (ground arith) i

pub includes-In : (a : String) (xs : List String) → includes a xs ≡ true → In a xs
unfolding includes
includes-In a [] e = absurd (cc)
includes-In a (x ∷ xs) e = elim (eq-cases x a) [
  | inl (p, t) ↦ inl p
  | inr (p, t) ↦ inr (includes-In a xs (ground arith))
]

module _ {A : Type 0} where
  pub any-false-In : (p : A → Bool) (xs : List A) (x : A) → any p xs ≡ false → In x xs → p x ≡ false
  unfolding any
  any-false-In p [] x e i = absurd i
  any-false-In p (y ∷ xs) x e (inl h) = ground (arith, ap p h)
  any-false-In p (y ∷ xs) x e (inr i) = any-false-In p xs x (ground arith) i
