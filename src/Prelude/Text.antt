-- ===== src/Prelude/Text.antt =====
-- JavaScript's text operations on native texts, by their characters.
use Prim.Native.Nat.{ℕ, ◌+◌}
use Prim.Native.Char.{Char, code}
use Prim.Native.String as Str
use Prim.Native.String.{String, [], ◌∷◌}
use mathlib.Core.Path.{◌≡◌, refl}
use mathlib.Core.Bool.{Bool, true, false, ◌&&◌, ◌||◌}
use mathlib.Core.Option.{Option, none, some}
use orbi_pay_gateway_v.Prelude.Tests.{leb, nat_eq, if◌then◌else◌}

-- The white space and line ends that `trim` removes.
unfoldable pub is_space : ℕ → Bool
is_space c =
    (leb 9 c && leb c 13)
    || nat_eq c 32
    || nat_eq c 160
    || nat_eq c 0x1680
    || (leb 0x2000 c && leb c 0x200a)
    || nat_eq c 0x2028
    || nat_eq c 0x2029
    || nat_eq c 0x202f
    || nat_eq c 0x205f
    || nat_eq c 0x3000
    || nat_eq c 0xfeff

abbrev pub is_empty : String → Bool
is_empty [] = true
is_empty (_ ∷ _) = false

unfoldable pub trim_start : String → String
unfolding is_space
trim_start [] = []
trim_start (c ∷ s) = elim (is_space (code c)) [ true ↦ trim_start s | false ↦ c ∷ s ]

unfoldable pub trim_end : String → String
unfolding is_space
trim_end [] = []
trim_end (c ∷ s) =
    let rest = trim_end s in if is_empty rest && is_space (code c) then [] else c ∷ rest

unfoldable pub trim : String → String
unfolding trim_start trim_end
trim s = trim_end (trim_start s)

-- `s.length`: the UTF-16 code units.
unfoldable pub length16 : String → ℕ
length16 [] = 0
length16 (c ∷ s) = (if leb 0x10000 (code c) then 2 else 1) + length16 s

unfoldable pub translate_char : String → String → Char → Char
translate_char (a ∷ from) (b ∷ to) c =
    if nat_eq (code a) (code c) then b else translate_char from to c
translate_char _ _ c = c

unfoldable pub map_chars : (Char → Char) → String → String
map_chars f [] = []
map_chars f (c ∷ s) = f c ∷ map_chars f s

-- `toUpperCase` and `toLowerCase` on the ASCII letters; other characters stay.
unfoldable pub to_upper : String → String
unfolding map_chars translate_char
to_upper = map_chars (translate_char "abcdefghijklmnopqrstuvwxyz" "ABCDEFGHIJKLMNOPQRSTUVWXYZ")

unfoldable pub to_lower : String → String
unfolding map_chars translate_char
to_lower = map_chars (translate_char "ABCDEFGHIJKLMNOPQRSTUVWXYZ" "abcdefghijklmnopqrstuvwxyz")

-- `s.replace(/-/g, '')` for a character's code.
unfoldable pub remove_char : ℕ → String → String
remove_char x [] = []
remove_char x (c ∷ s) = if nat_eq (code c) x then remove_char x s else c ∷ remove_char x s

-- `s.replace(/\/$/, '')` for a character's code.
unfoldable pub drop_last : ℕ → String → String
drop_last x [] = []
drop_last x (c ∷ s) = if is_empty s && nat_eq (code c) x then [] else c ∷ drop_last x s

-- The text of `value || undefined`: the empty text counts as absent.
unfoldable pub truthy : Option String → Option String
truthy none = none
truthy (some []) = none
truthy (some (c ∷ s)) = some (c ∷ s)

trim_test : trim "  a b\n " ≡ "a b"
unfolding trim
trim_test = refl

to_upper_test : to_upper "tzs" ≡ "TZS"
unfolding to_upper
to_upper_test = refl

-- `value.replace(/[^a-z0-9]+/g, '-')`
unfoldable pub is_alphanumeric : ℕ → Bool
is_alphanumeric c = (leb 97 c && leb c 122) || (leb 48 c && leb c 57)

unfoldable pub starts_with : ℕ → String → Bool
starts_with x [] = false
starts_with x (c ∷ s) = nat_eq (code c) x

-- A character that is not kept joins the run that the rest begins with.
unfoldable pub dash_runs : String → String
unfolding is_alphanumeric starts_with
dash_runs [] = []
dash_runs (c ∷ s) =
    let rest = dash_runs s in
    if is_alphanumeric (code c)
    then c ∷ rest
    else if starts_with 45 rest
    then rest
    else Str.◌++◌ "-" rest

unfoldable pub drop_leading : ℕ → String → String
drop_leading x [] = []
drop_leading x (c ∷ s) = elim (nat_eq (code c) x) [ true ↦ drop_leading x s | false ↦ c ∷ s ]

unfoldable pub drop_trailing : ℕ → String → String
drop_trailing x [] = []
drop_trailing x (c ∷ s) =
    let rest = drop_trailing x s in if is_empty rest && nat_eq (code c) x then [] else c ∷ rest

-- `trim`, `toLowerCase`, then `replace(/[^a-z0-9]+/g, '-').replace(/^-+|-+$/g, '')`: other characters
-- than ASCII letters become dashes.
unfoldable pub slug : String → String
unfolding trim to_lower dash_runs drop_leading drop_trailing
slug s = drop_trailing 45 (drop_leading 45 (dash_runs (to_lower (trim s))))

slug_test : slug " -My  Shop!" ≡ "my-shop"
unfolding slug
slug_test = refl
