-- ===== src/Prelude/Json.antt =====
-- JSON values, which the gateway carries as `unknown` metadata, and `String(value)` on them.
pub mod Decimals
use Prim.Native.Nat.{ℕ, zero, suc, ◌/◌, ◌%◌}
use Prim.Native.String.{String, ◌++◌}
use mathlib.Core.Path.{◌≡◌, refl}
use mathlib.Core.Bool.{Bool, true, false}
use mathlib.Core.Option.{Option, none, some}
use mathlib.Core.List.{List, [], ◌∷◌}
use package.text.Mathlib.Text.{◌==◌}
use orbi_pay_gateway_v.Prelude.Tests.{ltb, if◌then◌else◌}

mutual
  pub data Json : Type 0 where
    null : Json
    flag : Bool → Json
    number : ℕ → Json
    text : String → Json
    array : Items → Json
    object : Fields → Json

  pub data Items : Type 0 where
    nil : Items
    cons : Json → Items → Items

  pub data Fields : Type 0 where
    end : Fields
    field : String → Json → Fields → Fields

abbrev digit : ℕ → String
digit zero = "0"
digit (suc zero) = "1"
digit (suc (suc zero)) = "2"
digit (suc (suc (suc zero))) = "3"
digit (suc (suc (suc (suc zero)))) = "4"
digit (suc (suc (suc (suc (suc zero))))) = "5"
digit (suc (suc (suc (suc (suc (suc zero)))))) = "6"
digit (suc (suc (suc (suc (suc (suc (suc zero))))))) = "7"
digit (suc (suc (suc (suc (suc (suc (suc (suc zero)))))))) = "8"
digit _ = "9"

decimal_from : ℕ → ℕ → String
decimal_from zero n = ""
decimal_from (suc fuel) n =
    let high = decimal_from fuel (n / 10) ++ digit (n % 10) in if ltb n 10 then digit n else high

-- The decimal digits; a number has no more digits than one more than itself.
unfoldable pub decimal : ℕ → String
unfolding decimal_from
decimal n = decimal_from (suc n) n

-- An element of an array: null prints as nothing.
abbrev element : Json → String → String
element null s = ""
element _ s = s

-- `String(value)`.
unfoldable mutual
  unfolding decimal

  pub to_text : Json → String
  to_text null = "null"
  to_text (flag true) = "true"
  to_text (flag false) = "false"
  to_text (number n) = decimal n
  to_text (text s) = s
  to_text (array xs) = join xs
  to_text (object fs) = "[object Object]"

  pub join : Items → String
  join nil = ""
  join (cons x xs) = element x (to_text x) ++ join_more xs

  pub join_more : Items → String
  join_more nil = ""
  join_more (cons x xs) = "," ++ (element x (to_text x) ++ join_more xs)

-- `String(value || '')`: null, false, 0 and the empty text count as absent.
unfoldable pub text_or_empty : Json → String
unfolding to_text
text_or_empty null = ""
text_or_empty (flag false) = ""
text_or_empty (number zero) = ""
text_or_empty v = to_text v

to_text_test : to_text (array (cons (number 120) (cons null (cons (text "a") nil)))) ≡ "120,,a"
unfolding to_text
to_text_test = refl

-- `{ ...fields, [k]: v }`
pub set_field : String → Json → Fields → Fields
set_field k v end = field k v end
set_field k v (field j w fs) = if j == k then field j v fs else field j w (set_field k v fs)

-- The fields of an object, none of anything else.
abbrev pub fields_of : Option Json → Fields
fields_of (some (object fs)) = fs
fields_of _ = end

-- An object of the given fields; one that is undefined is left out.
unfoldable pub fields_from : List (String × Option Json) → Fields
fields_from [] = end
fields_from ((k, none) ∷ rest) = fields_from rest
fields_from ((k, some v) ∷ rest) = field k v (fields_from rest)

abbrev pub to_object : List (String × Option Json) → Json
to_object entries = object (fields_from entries)

unfoldable pub items_from : List String → Items
items_from [] = nil
items_from (t ∷ rest) = cons (text t) (items_from rest)

abbrev pub texts : List String → Json
texts ts = array (items_from ts)

abbrev pub maybe_text : Option String → Option Json
maybe_text none = none
maybe_text (some t) = some (text t)
