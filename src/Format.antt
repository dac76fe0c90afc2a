-- ===== src/Format.antt =====
-- apps/admin-web/src/utils/format.js: the labels and titles of values. Values are trees, as
-- `JSON.parse` makes them, so that no value is met inside itself.
pub mod Dates
pub mod Readable
pub mod Depth
pub mod Tables
pub mod Labels
mod Tests
use Prim.Native.Char.{Char, code}
use Prim.Native.String
use codex_memory.Prelude.{
  ◌==◌, ◌<>◌, Bool, true, false, not, ◌&&◌, ◌||◌, String, Option, none, some, List, [], ◌∷◌, Result,
  ok, throw, ◌>>=◌, if◌then◌else◌, nat_eq,
}
use codex_memory.Prelude.Text.{trim}
use codex_memory.Js.{
  Runtime, Value, undefined, null, bool, num, str, arr, obj, Items, nil, cons, Fields, end, field,
  get, prop, is_object, is_nullish, truthy, ◌or◌, ◌otherwise◌, lower, to_text,
}
use codex_memory.Contracts.{Fault}
use codex_memory.Contracts
use codex_memory.Format.Tables.{Meta, status_map, field_labels, role_labels, memory_type_labels}

-- The names that every object has from `Object.prototype`.
unfoldable pub inherited_names : List String
inherited_names =
    "constructor" ∷ "__proto__" ∷ "__defineGetter__" ∷ "__defineSetter__" ∷ "hasOwnProperty"
    ∷ "__lookupGetter__" ∷ "__lookupSetter__" ∷ "isPrototypeOf" ∷ "propertyIsEnumerable"
    ∷ "toString" ∷ "valueOf" ∷ "toLocaleString" ∷ []

-- What `table[key]` reads: an entry, a function or an object of the prototype, or `undefined`.
pub data Entry {ℓ} (A : Type ℓ) : Type ℓ where
  entry : A → Entry A
  inherited missing : Entry A

unfoldable pub is_inherited : List String → String → Bool
is_inherited [] key = false
is_inherited (name ∷ names) key = name == key || is_inherited names key

unfoldable pub lookup {ℓ} : {A : Type ℓ} → List (String × A) → String → Entry A
unfolding is_inherited inherited_names
lookup [] key = if is_inherited inherited_names key then inherited else missing
lookup ((k, a) ∷ table) key = let rest = lookup table key in if k == key then entry a else rest

-- A label: a text, or what `Object.prototype` has under the key.
pub data Label : Type 0 where
  label_text : String → Label
  native : Label

-- `normalized.replaceAll('_', ' ')`
unfoldable pub spaced_name : String → String
spaced_name String.[] = ""
spaced_name (String.◌∷◌ c s) =
    let rest = spaced_name s in if nat_eq (code c) b'_' then " " <> rest else String.◌∷◌ c rest

module _ ⦃rt : Runtime⦄ where
  open rt use {Number}

  -- `value === null || value === undefined || value === ''` is a dash.
  unfoldable pub scalar_text : Value Number → String
  unfolding to_text
  scalar_text undefined = "-"
  scalar_text null = "-"
  scalar_text (bool b) = if b then "是" else "否"
  scalar_text (str s) = if s == "" then "-" else s
  scalar_text v = to_text v

  pub record Status : Type 0 where
    pub status : String
    pub label : Value Number
    pub type : String

  unfoldable pub status_source : Value Number → Value Number
  status_source v =
      if is_object v then prop "status" v otherwise prop "code" v otherwise prop "value" v else v

  unfoldable pub status_key : Value Number → String
  unfolding to_text lower status_source
  status_key v = lower (to_text (status_source v or str "unknown"))

  unfoldable pub status_fallback : Value Number → String → Value Number
  unfolding scalar_text status_source
  status_fallback v fallback_label =
      (str fallback_label or (if is_object v then prop "label" v else str ""))
      or str (scalar_text (status_source v))

  -- An inherited function or object is truthy and cannot be destructured as an array.
  unfoldable pub status_meta : Value Number → String → Result Fault Status
  unfolding lookup status_map
  status_meta v fallback_label = elim (lookup status_map (status_key v)) [
    | entry m ↦ ok (record { status = status_key v; label = str m.label; type = m.type })
    | inherited ↦ throw Contracts.type_error
    | missing ↦ ok (record {
      status = status_key v;
      label = status_fallback v fallback_label or str "未知";
      type = "info";
    })
  ]

  unfoldable pub field_label : Value Number → String → Label
  unfolding lookup field_labels to_text trim spaced_name
  field_label key fallback_label =
      let normalized = trim (to_text (key or str "")) in
      if normalized == ""
      then label_text fallback_label
      else elim (lookup field_labels normalized) [
        | entry label ↦ label_text label
        | inherited ↦ native
        | missing ↦
            label_text (if fallback_label == "" then spaced_name normalized else fallback_label)
      ]

  abbrev label_in : List (String × String) → Value Number → Label
  label_in table v = elim (lookup table (lower (to_text (v or str "")))) [
    | entry label ↦ label_text label
    | inherited ↦ native
    | missing ↦ label_text (scalar_text v)
  ]

  unfoldable pub role_label : Value Number → Label
  unfolding lookup role_labels lower to_text scalar_text
  role_label v = label_in role_labels v

  unfoldable pub memory_type_label : Value Number → Label
  unfolding lookup memory_type_labels lower to_text scalar_text
  memory_type_label v = label_in memory_type_labels v

  -- `TITLE_KEYS`
  abbrev title_keys : List String
  title_keys =
      "title" ∷ "name" ∷ "heading" ∷ "label" ∷ "subject" ∷ "summary" ∷ "text" ∷ "value" ∷ "content"
      ∷ "source_name" ∷ "event_type" ∷ "event_key" ∷ "id" ∷ []

  -- `.find(Boolean) || ''`
  abbrev first_filled : List String → String
  first_filled [] = ""
  first_filled (t ∷ ts) = if t == "" then first_filled ts else t

  abbrev title_under : String → List (String × String) → String
  title_under key [] = ""
  title_under key ((k, t) ∷ titles) = if k == key then t else title_under key titles

  abbrev titles_under : List String → List (String × String) → List String
  titles_under [] titles = []
  titles_under (key ∷ keys) titles = title_under key titles ∷ titles_under keys titles

  abbrev values_of : List (String × String) → List String
  values_of [] = []
  values_of ((k, t) ∷ titles) = t ∷ values_of titles

  -- `text === '-' ? '' : text.trim()`
  abbrev scalar_title : String → String
  scalar_title t = if t == "-" then "" else trim t

  -- The candidates of the properties are computed once: in a tree `seen` never holds the value.
  unfoldable mutual
    pub title_candidate : Value Number → String
    title_candidate (arr xs) = first_filled (titles xs)
    title_candidate (obj fs) =
        let found = first_filled (titles_under title_keys (named_titles fs)) in
        if found == "" then first_filled (values_of (named_titles fs)) else found
    title_candidate v = scalar_title (scalar_text v)

    pub titles : Items Number → List String
    titles nil = []
    titles (cons v vs) = title_candidate v ∷ titles vs

    pub named_titles : Fields Number → List (String × String)
    named_titles end = []
    named_titles (field k v more) = (k, title_candidate v) ∷ named_titles more

  unfoldable pub readable_title : Value Number → String → String
  readable_title v fallback =
      let found = title_candidate v in if found == "" then fallback else found
