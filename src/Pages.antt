-- ===== src/Pages.antt =====
-- What the pages under apps/admin-web/src/views share: errors as they are shown, the reads of a
-- reply, queries of the route, and calls to the admin API in sequence.
pub mod Latest
pub mod Calls
use Prim.Native.Char.{Char, code}
use Prim.Native.String
use codex_memory.Prelude.{
  ℕ, ◌==◌, ◌&&◌, nat_eq, Bool, true, false, String, ◌<>◌, Option, none, some, List, [], ◌∷◌, Result,
  ok, throw, if◌then◌else◌,
}
use codex_memory.Contracts.{Fault, type_error}
use codex_memory.Js.{
  Runtime, Value, undefined, null, num, str, Fields, end, field, get, obj, prop, ◌or◌, to_text,
  to_number, truthy,
}

-- An error as the pages read it: its text, and the status and the id of its request of an
-- `AdminApiError`.
pub record Cause : Type 0 where
  pub message : String
  pub status : Option ℕ
  pub request_id : Option String

-- `new Error(text)`
abbrev pub new_error : String → Cause
new_error text = record { message = text; status = none; request_id = none }

abbrev pub cannot_read : String → String → Cause
cannot_read what key =
    new_error ("Cannot read properties of " <> (what <> (" (reading '" <> (key <> "')"))))

-- An error of the engine, met while a reply is read.
unfoldable pub of_fault : Fault → Cause
of_fault type_error = cannot_read "null" "id"

-- `v.key` for a key that no prototype has: a read on `undefined` or `null` throws.
unfoldable pub member : {N : Type 0} → String → Value N → Result Cause (Value N)
member key undefined = throw (cannot_read "undefined" key)
member key null = throw (cannot_read "null" key)
member key (obj fs) = ok (get key fs)
member key v = ok undefined

-- `delete query[key]`
unfoldable pub without : {N : Type 0} → String → Fields N → Fields N
without key end = end
without key (field k v fs) = let rest = without key fs in if k == key then rest else field k v rest

-- A character before the first piece.
put_first : Char → List String → List String
put_first c [] = String.◌∷◌ c "" ∷ []
put_first c (piece ∷ more) = String.◌∷◌ c piece ∷ more

-- `text.split(':')`
pieces : String → List String
unfolding put_first
pieces String.[] = "" ∷ []
pieces (String.◌∷◌ c s) =
    let rest = pieces s in if nat_eq (code c) b':' then "" ∷ rest else put_first c rest

module _ ⦃rt : Runtime⦄ where
  open rt use {Number, num_le, is_finite, number_of, number_text}

  abbrev pub literal : String → Value Number
  literal text = num (number_of text)

  -- `Math.max(a, b)` and `Math.min(a, b)` for a number `a` and a `b` that is not NaN.
  abbrev pub max_of : Number → Number → Number
  max_of a b = if num_le a b then b else a

  abbrev pub min_of : Number → Number → Number
  min_of a b = if num_le a b then a else b

  -- `String(query[key] || fallback)`
  unfoldable pub text_or : Value Number → String → String
  unfolding to_text
  text_or v fallback = to_text (v or str fallback)

  -- `Math.max(1, Number(v || fallback) || 1)`
  unfoldable pub positive : Value Number → String → Number
  unfolding to_number
  positive v fallback =
      let n = num (to_number (v or literal fallback)) in
      if truthy n then max_of (number_of "1") (to_number (v or literal fallback)) else number_of "1"

  -- `[first, second]` of `text.split(':')`.
  second_of : List String → Value Number
  second_of [] = undefined
  second_of (piece ∷ more) = str piece

  pair_of : List String → Value Number × Value Number
  unfolding second_of
  pair_of [] = (undefined, undefined)
  pair_of (piece ∷ more) = (str piece, second_of more)

  unfoldable pub split_pair : String → Value Number × Value Number
  unfolding pieces pair_of
  split_pair text = pair_of (pieces text)

  -- `Object.fromEntries(Object.entries(params).map(([key, value]) => [key, String(value)]))`
  unfoldable pub query_texts : Fields Number → Fields Number
  unfolding to_text
  query_texts end = end
  query_texts (field key value more) = field key (str (to_text value)) (query_texts more)

  json_number : Number → String
  json_number n = if is_finite n then number_text n else "null"

  same_value : Value Number → Value Number → Bool
  unfolding json_number
  same_value (str s) (str t) = s == t
  same_value (num m) (num n) = json_number m == json_number n
  same_value _ _ = false

  -- `JSON.stringify(a) === JSON.stringify(b)` for objects of texts and numbers.
  unfoldable pub same_params : Fields Number → Fields Number → Bool
  unfolding same_value
  same_params end end = true
  same_params (field j v fs) (field k w gs) = j == k && same_value v w && same_params fs gs
  same_params _ _ = false
