-- ===== src/Js/Convert.antt =====
-- `Boolean(v)`, `String(v)`, `Number(v)`, `===` and `toLowerCase`.
use Prim.Native.Char.{Char, code}
use Prim.Native.String.{String, ◌++◌}
use Prim.Native.Nat.{ℕ, suc}
use mathlib.Core.Bool.{Bool, true, false, ◌&&◌, not}
use mathlib.Core.List.{List, [], ◌∷◌}
use text.Mathlib.Text.{◌==◌}
use codex_memory.Prelude.Text.{decimal}
use codex_memory.Prelude.{if◌then◌else◌, ltb, nat_eq}
use codex_memory.Js.Data.{
  Value, undefined, null, bool, num, str, arr, obj, Items, nil, cons, Fields, end, field,
  is_nullish,
}
use codex_memory.Js.Engine.{Runtime}

-- The capital letters of ASCII with their lower case.
abbrev capitals : List (ℕ × String)
capitals =
    (b'A', "a")
    ∷ (b'B', "b")
    ∷ (b'C', "c")
    ∷ (b'D', "d")
    ∷ (b'E', "e")
    ∷ (b'F', "f")
    ∷ (b'G', "g")
    ∷ (b'H', "h")
    ∷ (b'I', "i")
    ∷ (b'J', "j")
    ∷ (b'K', "k")
    ∷ (b'L', "l")
    ∷ (b'M', "m")
    ∷ (b'N', "n")
    ∷ (b'O', "o")
    ∷ (b'P', "p")
    ∷ (b'Q', "q")
    ∷ (b'R', "r")
    ∷ (b'S', "s")
    ∷ (b'T', "t")
    ∷ (b'U', "u")
    ∷ (b'V', "v")
    ∷ (b'W', "w")
    ∷ (b'X', "x")
    ∷ (b'Y', "y")
    ∷ (b'Z', "z")
    ∷ []

lower_in : List (ℕ × String) → Char → String
lower_in [] c = String.◌∷◌ c ""
lower_in ((n, t) ∷ more) c = if nat_eq n (code c) then t else lower_in more c

-- The properties of an array, `"0"`, `"1"`, and on.
index_fields : {N : Type 0} → ℕ → Items N → Fields N
unfolding decimal
index_fields i nil = end
index_fields i (cons v xs) = field (decimal i) v (index_fields (suc i) xs)

-- Those of a text, for one in the Basic Multilingual Plane.
text_fields : {N : Type 0} → ℕ → String → Fields N
unfolding decimal
text_fields i String.[] = end
text_fields i (String.◌∷◌ c s) = field (decimal i) (str (String.◌∷◌ c "")) (text_fields (suc i) s)

-- `value && typeof value === 'object' ? value : {}`
unfoldable pub own : {N : Type 0} → Value N → Fields N
unfolding index_fields
own (obj fs) = fs
own (arr xs) = index_fields 0 xs
own _ = end

-- `{ ...value }`
unfoldable pub copied : {N : Type 0} → Value N → Fields N
unfolding own text_fields
copied (str s) = text_fields 0 s
copied v = own v

module _ ⦃rt : Runtime⦄ where
  open rt use {Number, num_eq, number_of, number_text, lower_beyond}

  -- `text.toLowerCase()`
  unfoldable pub lower : String → String
  unfolding lower_in
  lower String.[] = ""
  lower (String.◌∷◌ c s) =
      (if ltb (code c) 128 then lower_in capitals c else lower_beyond c) ++ lower s

  -- `Boolean(v)`; of the numbers 0, -0 and NaN are false.
  abbrev pub truthy : Value Number → Bool
  truthy undefined = false
  truthy null = false
  truthy (bool b) = b
  truthy (num n) = num_eq n n && not (num_eq n (number_of "0"))
  truthy (str s) = not (s == "")
  truthy (arr xs) = true
  truthy (obj fs) = true

  -- `a || b`
  infixr 27 ◌or◌
  abbrev pub ◌or◌ : Value Number → Value Number → Value Number
  a or b = if truthy a then a else b

  -- `String(v)`: an array joins its elements with commas, and leaves `null` and `undefined` empty.
  unfoldable mutual
    pub to_text : Value Number → String
    to_text undefined = "undefined"
    to_text null = "null"
    to_text (bool b) = if b then "true" else "false"
    to_text (num n) = number_text n
    to_text (str s) = s
    to_text (arr xs) = join_text xs
    to_text (obj fs) = "[object Object]"

    pub join_text : Items Number → String
    join_text nil = ""
    join_text (cons v nil) = if is_nullish v then "" else to_text v
    join_text (cons v (cons w xs)) =
        (if is_nullish v then "" else to_text v) ++ ("," ++ join_text (cons w xs))

  -- `Number(v)`
  unfoldable pub to_number : Value Number → Number
  unfolding to_text
  to_number undefined = number_of "NaN"
  to_number null = number_of "0"
  to_number (bool b) = number_of (if b then "1" else "0")
  to_number (num n) = n
  to_number (str s) = number_of s
  to_number (arr xs) = number_of (to_text (arr xs))
  to_number (obj fs) = number_of "NaN"

  -- `a === b` for values that do not share objects.
  abbrev pub strict_eq : Value Number → Value Number → Bool
  strict_eq undefined undefined = true
  strict_eq null null = true
  strict_eq (bool true) (bool b) = b
  strict_eq (bool false) (bool b) = not b
  strict_eq (num m) (num n) = num_eq m n
  strict_eq (str s) (str t) = s == t
  strict_eq _ _ = false
