-- ===== src/Js/Data.antt =====
-- What `JSON.parse` can produce, and `undefined`. Objects are lists of fields in property order.
use Prim.Native.String.{String}
use mathlib.Core.Bool.{Bool, true, false, ◌||◌}
use mathlib.Core.List.{List, [], ◌∷◌}
use text.Mathlib.Text.{◌==◌}
use codex_memory.Prelude.{if◌then◌else◌}

mutual
  pub data Value (N : Type 0) : Type 0 where
    undefined null : Value N
    bool : Bool → Value N
    num : N → Value N
    str : String → Value N
    arr : Items N → Value N
    obj : Fields N → Value N

  pub data Items (N : Type 0) : Type 0 where
    nil : Items N
    cons : Value N → Items N → Items N

  pub data Fields (N : Type 0) : Type 0 where
    end : Fields N
    field : String → Value N → Fields N → Fields N

module _ {N : Type 0} where
  abbrev pub items : Items N → List (Value N)
  items nil = []
  items (cons v xs) = v ∷ items xs

  abbrev pub of_items : List (Value N) → Items N
  of_items [] = nil
  of_items (v ∷ xs) = cons v (of_items xs)

  -- `Object.entries` of a plain object.
  abbrev pub entries : Fields N → List (String × Value N)
  entries end = []
  entries (field k v fs) = (k, v) ∷ entries fs

  abbrev pub of_entries : List (String × Value N) → Fields N
  of_entries [] = end
  of_entries ((k, v) ∷ fs) = field k v (of_entries fs)

  -- An own property; `undefined` where there is none.
  unfoldable pub get : String → Fields N → Value N
  get k end = undefined
  get k (field j v fs) = if j == k then v else get k fs

  unfoldable pub has : String → Fields N → Bool
  has k end = false
  has k (field j v fs) = j == k || has k fs

  -- `o[k] = v`: the property keeps its place, or is added behind the others.
  unfoldable pub set : String → Value N → Fields N → Fields N
  set k v end = field k v end
  set k v (field j w fs) = if j == k then field j v fs else field j w (set k v fs)

  -- `{ ...base, ...more }`
  unfoldable pub spread : Fields N → Fields N → Fields N
  spread base end = base
  spread base (field k v more) = spread (set k v base) more

  -- `v?.k` for a key that no prototype has: `undefined` on what is no object.
  abbrev pub prop : String → Value N → Value N
  prop k (obj fs) = get k fs
  prop k _ = undefined

  -- `v !== null && typeof v === 'object'`
  abbrev pub is_object : Value N → Bool
  is_object (arr xs) = true
  is_object (obj fs) = true
  is_object _ = false

  -- `v === undefined || v === null`
  abbrev pub is_nullish : Value N → Bool
  is_nullish undefined = true
  is_nullish null = true
  is_nullish _ = false

  -- `a ?? b`
  infixr 28 ◌otherwise◌
  abbrev pub ◌otherwise◌ : Value N → Value N → Value N
  undefined otherwise b = b
  null otherwise b = b
  a otherwise b = a

  -- `v === true`
  abbrev pub is_true : Value N → Bool
  is_true (bool b) = b
  is_true _ = false

  -- `typeof v === 'boolean'`
  abbrev pub is_boolean : Value N → Bool
  is_boolean (bool b) = true
  is_boolean _ = false

  -- `v === t` for a text `t`
  abbrev pub is_text : String → Value N → Bool
  is_text t (str s) = s == t
  is_text t _ = false
