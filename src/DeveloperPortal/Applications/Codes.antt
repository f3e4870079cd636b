-- ===== src/DeveloperPortal/Applications/Codes.antt =====
-- services/developerPortalStore.ts: the search for a free service code.
use Prim.Native.String as Str
use text.Mathlib.TextLemmas.{append-nil, append_cancel_left, append-eq-nil_iff}
use orbi_pay_gateway_v.Prelude.{
  ℕ, zero, suc, ◌+◌, ◌≤◌, ◌<◌, ◌≡◌, refl, sym, ap, ◌∙◌, ◌≢◌, Bool, true, false, not, String, List,
  [], ◌∷◌, length, arith, Bool-cases, inl, inr, any, filter, eq_iff, length-filter-le, any-filter,
  any-eq,
}
use orbi_pay_gateway_v.Prelude.Json.{decimal}
use orbi_pay_gateway_v.Prelude.Json.Decimals.{decimal-injective}
use orbi_pay_gateway_v.DeveloperPortal.{has_code, service_slug}
use orbi_pay_gateway_v.DeveloperPortal.Applications.{search_code, next_service_code}
use orbi_pay_gateway_v.DeveloperPortal.Data.{Service}

-- The candidate with a number.
abbrev numbered : String → ℕ → String
numbered base n = Str.◌++◌ base (Str.◌++◌ "-" (decimal n))

numbered-injective : (base : String) (m n : ℕ) → numbered base m ≡ numbered base n → m ≡ n
numbered-injective base m n e =
    decimal-injective m n
      (append_cancel_left "-" (decimal m) (decimal n) (append_cancel_left base _ _ e))

numbered-ne : (base : String) (n : ℕ) → base ≢ numbered base n
numbered-ne base n e =
    let tail = append_cancel_left base "" _ (append-nil base ∙ e) in
    absurd (cc ((append-eq-nil_iff.0 (sym tail)).0))

-- Dropping the services with a code that is in use makes the list shorter.
length-filter-lt :
    (p : Service → Bool) (xs : List Service)
    → any p xs ≡ true
    → length (filter (λ x. not (p x)) xs) < length xs
unfolding any filter
length-filter-lt p [] h = absurd (cc)
length-filter-lt p (x ∷ xs) h = elim (Bool-cases (p x)) [
  | inl e ↦ ground (arith, length-filter-le (λ y. not (p y)) xs)
  | inr e ↦ ground (arith, length-filter-lt p xs (ground arith))
]

any-filter_other :
    (c d : String) (xs : List Service)
    → c ≢ d
    → any (has_code d) (filter (λ x. not (has_code c x)) xs) ≡ any (has_code d) xs
any-filter_other c d xs ne =
    any-filter (has_code d) (λ x. not (has_code c x)) xs
    ∙ any-eq _ _ xs (λ x. ground (arith, eq_iff x.service_code c, eq_iff x.service_code d))

-- Dropping services whose codes are no later candidates changes no later step.
search_code-filter :
    (base c : String) (xs : List Service) (fuel index : ℕ) (candidate : String)
    → c ≢ candidate
    → ((n : ℕ) → index ≤ n → c ≢ numbered base n)
    → search_code base (filter (λ x. not (has_code c x)) xs) fuel index candidate
      ≡ search_code base xs fuel index candidate
unfolding search_code
search_code-filter base c xs zero index candidate ne later = refl
search_code-filter base c xs (suc fuel) index candidate ne later =
    rw
      (
        any-filter_other c candidate xs ne,
        search_code-filter base c xs fuel (index + 1) (numbered base index)
            (later index (omega arith)) (λ n h. later n (omega arith)),
      )
      refl

-- The code that is found is the first candidate or a later one.
search_code_ne :
    (c base : String) (xs : List Service) (fuel index : ℕ) (candidate : String)
    → c ≢ candidate
    → ((n : ℕ) → index ≤ n → c ≢ numbered base n)
    → c ≢ search_code base xs fuel index candidate
unfolding search_code
search_code_ne c base xs zero index candidate ne later = ne
search_code_ne c base xs (suc fuel) index candidate ne later =
    elim (Bool-cases (any (has_code candidate) xs)) [
      | inl taken ↦ rw taken (
          search_code_ne c base xs fuel (index + 1) (numbered base index)
            (later index (omega arith)) (λ n h. later n (omega arith)))
      | inr free ↦ rw free ne
    ]

-- A code that is free among the others is free.
free_among_others :
    (fuel : ℕ) (base : String) (xs : List Service) (index : ℕ) (candidate : String)
    → ((n : ℕ) → index ≤ n → candidate ≢ numbered base n)
    → (let others = filter (λ x. not (has_code candidate x)) xs in
        any (has_code (search_code base others fuel (index + 1) (numbered base index))) others
        ≡ false)
    → any (has_code (search_code base xs fuel (index + 1) (numbered base index))) xs ≡ false
free_among_others fuel base xs index candidate later h =
    let next = later index (omega arith) in
    let others : (n : ℕ) → index + 1 ≤ n → candidate ≢ numbered base n =
      λ n le. later n (omega arith) in
    sym (
      any-filter_other candidate _ xs
        (search_code_ne candidate base xs fuel (index + 1) (numbered base index) next others))
    ∙ ap (λ c. any (has_code c) (filter (λ x. not (has_code candidate x)) xs))
        (sym
          (search_code-filter base candidate xs fuel (index + 1) (numbered base index) next others))
    ∙ h

search_code_free :
    (fuel : ℕ) (base : String) (xs : List Service) (index : ℕ) (candidate : String)
    → length xs ≤ fuel
    → ((n : ℕ) → index ≤ n → candidate ≢ numbered base n)
    → any (has_code (search_code base xs fuel index candidate)) xs ≡ false
unfolding search_code
search_code_free zero base [] index candidate h later = unfold any in refl
search_code_free zero base (x ∷ xs) index candidate h later = absurd (omega arith)
search_code_free (suc fuel) base xs index candidate h later =
    elim (Bool-cases (any (has_code candidate) xs)) [
      | inr free ↦ rw free free
      | inl taken ↦ rw taken (
          free_among_others fuel base xs index candidate later (
            search_code_free fuel base (filter (λ x. not (has_code candidate x)) xs) (index + 1)
              (numbered base index)
              (let less = length-filter-lt (has_code candidate) xs taken in omega arith)
              (λ n le e. absurd (let same = numbered-injective base index n e in omega arith))))
    ]

-- The search ends: the code that it gives is in use by no service.
pub next_service_code_free :
    (seed : String) (services : List Service)
    → any (has_code (next_service_code seed services)) services ≡ false
unfolding next_service_code
next_service_code_free seed services =
    search_code_free (length services) (service_slug seed) services 2 (service_slug seed)
      (omega arith) (λ n h. numbered-ne (service_slug seed) n)
