-- ===== src/Tokens/Texts.antt =====
-- Tokens as texts: what is put together is taken apart again.
use Prim.Native.String as Str
use Prim.Native.String.{[], ◌∷◌}
use Prim.Native.Char.{Char, code}
use text.Mathlib.TextLemmas.{nil-append, cons-append}
use text.Mathlib.TextEquality.{codes_equal}
use Prim.Native.Nat.{compare, Ordering}
use orbi_pay_gateway_v.Prelude.{
  ℕ, ◌≡◌, refl, sym, ap, ◌∙◌, Bool, true, false, not, ◌&&◌, ◌||◌, leb, nat_eq, String, none, some,
  arith, Bool-cases, Option-cases, inl, inr, some-eq,
}
use orbi_pay_gateway_v.Prelude.Text.{trim, trim_start, trim_end, is_space, is_empty}
use orbi_pay_gateway_v.Tokens.{strip_prefix, split_last}

-- The characters of base64url.
abbrev pub is_base64url_char : ℕ → Bool
is_base64url_char c =
    (leb 65 c && leb c 90)
    || (leb 97 c && leb c 122)
    || (leb 48 c && leb c 57)
    || nat_eq c 45
    || nat_eq c 95

unfoldable pub is_base64url : String → Bool
is_base64url [] = true
is_base64url (c ∷ s) = is_base64url_char (code c) && is_base64url s

-- A text without white space.
unfoldable pub is_solid : String → Bool
is_solid [] = true
is_solid (c ∷ s) = not (is_space (code c)) && is_solid s

base64url_char-bounds :
    (c : ℕ) → is_base64url_char c ≡ true → (leb 45 c ≡ true) × (leb c 122 ≡ true)
base64url_char-bounds c h = (ground arith, ground arith)

between_no_space : (c : ℕ) → leb 45 c ≡ true → leb c 122 ≡ true → is_space c ≡ false
unfolding is_space
between_no_space c h k = ground arith

base64url_char-space : (c : ℕ) → is_base64url_char c ≡ true → is_space c ≡ false
base64url_char-space c h =
    let (low, high) = base64url_char-bounds c h in between_no_space c low high

pub is_base64url-is_solid : (s : String) → is_base64url s ≡ true → is_solid s ≡ true
unfolding is_base64url is_solid
is_base64url-is_solid [] h = refl
is_base64url-is_solid (c ∷ s) h =
    let here = base64url_char-space (code c) (ground arith) in
    let rest = is_base64url-is_solid s (ground arith) in rw (here) rest

pub solid_dot : is_solid "." ≡ true
unfolding is_solid is_space
solid_dot = refl

pub is_solid-append :
    (s t : String) → is_solid s ≡ true → is_solid t ≡ true → is_solid (Str.◌++◌ s t) ≡ true
unfolding is_solid
is_solid-append [] t h k = ap is_solid (nil-append t) ∙ k
is_solid-append (c ∷ s) t h k =
    ap is_solid (cons-append c s t)
    ∙ (let rest = is_solid-append s t (ground arith) k in ground arith)

and_false : (b : Bool) → (b && false) ≡ false
and_false b = ground arith

solid_parts :
    (c : Char) (s : String)
    → is_solid (c ∷ s) ≡ true
    → (is_space (code c) ≡ false) × (is_solid s ≡ true)
unfolding is_solid
solid_parts c s h = (ground arith, ground arith)

trim_end_solid : (s : String) → is_solid s ≡ true → trim_end s ≡ s
unfolding trim_end
trim_end_solid [] h = refl
trim_end_solid (c ∷ s) h =
    let (here, more) = solid_parts c s h in
    rw (trim_end_solid s more, here, and_false (is_empty s)) refl

pub trim_solid : (s : String) → is_solid s ≡ true → trim s ≡ s
unfolding trim trim_start
trim_solid [] h = refl
trim_solid (c ∷ s) h = rw ((solid_parts c s h).0, trim_start, trim) (trim_end_solid (c ∷ s) h)

nat_eq_refl : (n : ℕ) → nat_eq n n ≡ true
nat_eq_refl n = ground arith

pub strip_prefix-append : (p s : String) → strip_prefix p (Str.◌++◌ p s) ≡ some s
unfolding strip_prefix
strip_prefix-append [] s = ap some (nil-append s)
strip_prefix-append (c ∷ p) s =
    ap (strip_prefix (c ∷ p)) (cons-append c p s)
    ∙ rw (nat_eq_refl (code c), strip_prefix-append p s) refl

dotless : (s : String) → is_base64url s ≡ true → split_last s ≡ none
unfolding split_last is_base64url
dotless [] h = refl
dotless (c ∷ s) h =
    let rest = dotless s (ground arith) in
    let here : nat_eq (code c) 46 ≡ false = ground arith in rw (rest, here) refl

pub split_last-append :
    (a b : String) → is_base64url b ≡ true → split_last (Str.◌++◌ a (Str.◌++◌ "." b)) ≡ some (a, b)
unfolding split_last
split_last-append [] b h =
    ap split_last
      (nil-append (Str.◌++◌ "." b) ∙ cons-append _ [] b ∙ ap (λ t. Str.◌∷◌ "." t) (nil-append b))
    ∙ rw (dotless b h) refl
split_last-append (c ∷ a) b h =
    ap split_last (cons-append c a (Str.◌++◌ "." b)) ∙ rw (split_last-append a b h, split_last) refl

nat_eq-compare : (a b : ℕ) → nat_eq a b ≡ true → compare a b ≡ Ordering.eq
nat_eq-compare a b h = ordered (compare a b) h
  where
    ordered : (o : Ordering) → (elim o [ Ordering.eq ↦ true | _ ↦ false ]) ≡ true → o ≡ Ordering.eq
    ordered Ordering.lt h = absurd (cc)
    ordered Ordering.eq h = refl
    ordered Ordering.gt h = absurd (cc)

same_char : (c d : Char) → nat_eq (code c) (code d) ≡ true → c ≡ d
same_char c d h = codes_equal c d (nat_eq-compare (code c) (code d) h)

pub strip_prefix-some : (p s : String) {r : String} → strip_prefix p s ≡ some r → s ≡ Str.◌++◌ p r
unfolding strip_prefix
strip_prefix-some [] s {r} h = some-eq h ∙ sym (nil-append r)
strip_prefix-some (c ∷ p) [] h = absurd (cc)
strip_prefix-some (c ∷ p) (d ∷ s) {r} h = elim (Bool-cases (nat_eq (code c) (code d))) [
  | inr k ↦ absurd (cc (rw k at h))
  | inl k ↦
      ap (λ e. e ∷ s) (sym (same_char c d k))
      ∙ ap (λ t. c ∷ t) (strip_prefix-some p s (rw k at h))
      ∙ sym (cons-append c p r)
]

pub split_last-some :
    (s : String) {a b : String} → split_last s ≡ some (a, b) → s ≡ Str.◌++◌ a (Str.◌++◌ "." b)
unfolding split_last
split_last-some [] h = absurd (cc)
split_last-some (c ∷ s) {a} {b} h = elim (Option-cases (split_last s)) [
  | inr ((x, y), k) ↦
      let same = some-eq (rw k at h) in
      ap (λ t. c ∷ t) (split_last-some s k)
      ∙ sym (cons-append c x (Str.◌++◌ "." y))
      ∙ ap (λ (q : String × String). Str.◌++◌ q.0 (Str.◌++◌ "." q.1)) same
  | inl k ↦ elim (Bool-cases (nat_eq (code c) 46)) [
    | inr n ↦ absurd (cc (rw (k, n) at h))
    | inl n ↦
        let same = some-eq (rw (k, n) at h) in
        ap (λ e. e ∷ s) (same_char c "." n)
        ∙ sym (cons-append "." [] s ∙ ap (λ t. Str.◌∷◌ "." t) (nil-append s))
        ∙ sym (nil-append (Str.◌++◌ "." s))
        ∙ ap (λ (q : String × String). Str.◌++◌ q.0 (Str.◌++◌ "." q.1)) same
  ]
]
