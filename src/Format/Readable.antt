-- ===== src/Format/Readable.antt =====
-- apps/admin-web/src/utils/format.js: values as they are shown to a reader. Values are trees, so that
-- none is met inside itself; what limits them is their depth.
use Prim.Native.Char.{Char, code}
use codex_memory.Prelude.{
  ℕ, ◌+◌, ◌-◌, suc, ◌==◌, ◌&&◌, ◌||◌, not, Bool, true, false, String, ◌<>◌, List, [], ◌∷◌,
  if◌then◌else◌, nat_eq, ltb, leb, text_member, Result, ok, ◌>>=◌,
}
use codex_memory.Prelude.Text.{trim, is_space, decimal}
use codex_memory.Js.{
  Runtime, Value, undefined, null, bool, str, arr, obj, Items, nil, cons, Fields, end, field, prop,
  is_object, is_nullish, is_text, truthy, ◌or◌, lower, to_text, to_number,
}
use codex_memory.Markdown.Spans.{replace_char}
use codex_memory.Contracts.{Fault}
use codex_memory.Format.{
  Label, label_text, native, entry, inherited, missing, lookup, field_label, scalar_text,
  status_meta,
}
use codex_memory.Format.Tables.{role_labels, memory_type_labels}

-- What the engine shows: the text of what `Object.prototype` has under a name, the date and time of a
-- text, and `Math.round(n * 100)`.
pub record Display (N : Type 0) : Type 0 where
  pub native_text : String → String
  pub date_time : String → String
  pub percent : N → String

-- `text.endsWith(suffix)`
unfoldable pub ends_with : String → String → Bool
ends_with suffix String.[] = suffix == ""
ends_with suffix (String.◌∷◌ c s) = String.◌∷◌ c s == suffix || ends_with suffix s

after_breaks : String → String
after_breaks String.[] = ""
after_breaks (String.◌∷◌ c s) =
    let rest = after_breaks s in if nat_eq (code c) 10 then "\n  " <> rest else String.◌∷◌ c rest

-- Two spaces before every line.
unfoldable pub indent_markdown : String → String
unfolding after_breaks
indent_markdown source = "  " <> after_breaks source

-- `lines.join('\n')`
abbrev pub join_lines : List String → String
join_lines [] = ""
join_lines (line ∷ []) = line
join_lines (line ∷ next ∷ lines) = line <> ("\n" <> join_lines (next ∷ lines))

-- `lines.length ? lines.join('\n') : '-'`
abbrev pub lines_or_dash : List String → String
lines_or_dash [] = "-"
lines_or_dash (line ∷ lines) = join_lines (line ∷ lines)

-- `text.replaceAll('**', '')`, with whether the character before is a star that still stands alone.
unfoldable pub without_stars : Bool → String → String
without_stars pending String.[] = if pending then "*" else ""
without_stars pending (String.◌∷◌ c s) =
    let star = nat_eq (code c) b'*' in
    let rest = without_stars (star && not pending) s in
    if star then rest else (if pending then "*" else "") <> String.◌∷◌ c rest

-- `text.replace(/\s+/g, ' ')`, with whether the character before is white space.
unfoldable pub one_spaced : Bool → String → String
unfolding is_space
one_spaced after String.[] = ""
one_spaced after (String.◌∷◌ c s) =
    let rest = one_spaced (is_space (code c)) s in
    if is_space (code c) then (if after then rest else " " <> rest) else String.◌∷◌ c rest

unfoldable pub plain_text : String → String
unfolding without_stars one_spaced trim
plain_text text = trim (one_spaced false (replace_char b'`' "" (without_stars false text)))

-- The code units of UTF-16 that a character takes, and `text.length`.
abbrev pub units : Char → ℕ
units c = if ltb (code c) 65536 then 1 else 2

unfoldable pub text_length : String → ℕ
text_length String.[] = 0
text_length (String.◌∷◌ c s) = units c + text_length s

-- `text.slice(0, limit)` as it is shown: half of a surrogate pair is the replacement character.
unfoldable pub first_of : ℕ → String → String
first_of limit String.[] = ""
first_of limit (String.◌∷◌ c s) =
    let rest = first_of (limit - units c) s in
    if nat_eq limit 0 then "" else if ltb limit (units c) then "�" else String.◌∷◌ c rest

-- `/^\?+$/` of a text that is not empty
abbrev marks_only : String → Bool
marks_only String.[] = true
marks_only (String.◌∷◌ c s) = nat_eq (code c) b'?' && marks_only s

module _ ⦃rt : Runtime⦄ (display : Display rt.Number) where
  open rt use {Number, num_le, is_finite, number_of}
  open display use {native_text, date_time, percent}

  abbrev pub label_shown : String → Label → String
  label_shown key (label_text label) = label
  label_shown key native = native_text key

  -- `TABLE[String(value).toLowerCase()] || String(value)`
  abbrev named_in : List (String × String) → Value Number → String
  named_in table v = elim (lookup table (lower (to_text v))) [
    | entry label ↦ label
    | inherited ↦ native_text (lower (to_text v))
    | missing ↦ to_text v
  ]

  abbrev is_unit : Value Number → Bool
  is_unit v =
      is_finite (to_number v)
      && num_le (number_of "0") (to_number v)
      && num_le (to_number v) (number_of "1")

  abbrev is_status_key : String → Bool
  is_status_key key =
      key == "status"
      || ends_with "_status" key
      || text_member key ("database" ∷ "migration_schema" ∷ [])

  -- The rest of `scalarReadableValue`, for a key in lower case.
  date_or_scalar : String → Value Number → String
  unfolding scalar_text ends_with
  date_or_scalar key (str s) = if ends_with "_at" key then date_time s else scalar_text (str s)
  date_or_scalar key v = scalar_text v

  named_scalar : String → Value Number → Result Fault String
  unfolding lookup role_labels memory_type_labels lower to_text to_number status_meta ends_with
      date_or_scalar
  named_scalar key v =
      if key == "role"
      then ok (named_in role_labels v)
      else if key == "memory_type"
      then ok (named_in memory_type_labels v)
      else if is_status_key key
      then (status_meta v "" >>= λ meta. ok (to_text meta.label))
      else if text_member key ("confidence" ∷ "model_confidence" ∷ []) && is_unit v
      then ok (percent (to_number v) <> "%")
      else ok (date_or_scalar key v)

  unfoldable pub scalar_readable_value : String → Value Number → Result Fault String
  unfolding named_scalar lower
  scalar_readable_value key (bool b) =
      if lower key == "degraded"
      then ok (if b then "已降级" else "正常")
      else ok (if b then "是" else "否")
  scalar_readable_value key v =
      if is_nullish v || is_text "" v then ok "-" else named_scalar (lower key) v

  abbrev pub item_line : ℕ → Value Number → String → String
  item_line index v shown =
      if is_object v
      then "- **第 " <> (decimal (suc index) <> (" 项**\n" <> indent_markdown shown))
      else "- " <> shown

  abbrev pub field_line : String → Value Number → String → String
  field_line key v shown =
      let label = label_shown (trim key) (field_label (str key) "") in
      if is_object v
      then "- **" <> (label <> ("**：\n" <> indent_markdown shown))
      else "- **" <> (label <> ("**：" <> shown))

  -- `renderReadableValue(value, key, state)`, with the depth of the state and its greatest one.
  unfoldable mutual
    unfolding scalar_readable_value decimal indent_markdown field_label trim

    pub render_readable_value : ℕ → ℕ → String → Value Number → Result Fault String
    render_readable_value depth max_depth key (arr xs) =
        let lines = render_items (suc depth) max_depth 0 xs in
        if leb max_depth depth
        then ok "…（层级过深，已省略）"
        else lines >>= λ found. ok (lines_or_dash found)
    render_readable_value depth max_depth key (obj fs) =
        let lines = render_fields (suc depth) max_depth fs in
        if leb max_depth depth
        then ok "…（层级过深，已省略）"
        else lines >>= λ found. ok (lines_or_dash found)
    render_readable_value depth max_depth key v = scalar_readable_value key v

    pub render_items : ℕ → ℕ → ℕ → Items Number → Result Fault (List String)
    render_items depth max_depth index nil = ok []
    render_items depth max_depth index (cons v vs) =
        let rest = render_items depth max_depth (suc index) vs in
        render_readable_value depth max_depth "" v >>= λ shown.
        rest >>= λ lines. ok (item_line index v shown ∷ lines)

    pub render_fields : ℕ → ℕ → Fields Number → Result Fault (List String)
    render_fields depth max_depth end = ok []
    render_fields depth max_depth (field key v more) =
        let rest = render_fields depth max_depth more in
        render_readable_value depth max_depth key v >>= λ shown.
        rest >>= λ lines. ok (field_line key v shown ∷ lines)

  unfoldable pub format_readable_value : ℕ → Value Number → Result Fault String
  unfolding render_readable_value
  format_readable_value max_depth v = render_readable_value 0 max_depth "" v

  -- `readableText(value, limit)`, where the greatest depth is 6. A limit counts code units.
  unfoldable pub readable_text : Value Number → ℕ → Result Fault String
  unfolding format_readable_value plain_text first_of text_length
  readable_text v limit = format_readable_value 6 v >>= λ shown.
      let text = plain_text shown in
      ok (if ltb 0 limit && ltb limit (text_length text) then first_of limit text <> "…" else text)

  -- `scopeDisplayName(scope)`
  unfoldable pub scope_display_name : Value Number → Result Fault String
  unfolding readable_text to_text
  scope_display_name scope = readable_text (prop "name" scope) 0 >>= λ name. ok (
      if not (name == "") && not (name == "-") && not (marks_only name)
      then name
      else if truthy (prop "is_default" scope) || is_text "default" (prop "scope_key" scope)
      then "默认 Scope"
      else to_text (prop "scope_key" scope or (prop "id" scope or str "未命名 Scope")))

  -- `serializeRawJson(value)`; a tree can always be serialized, by `JSON.stringify(value, null, 2)`.
  unfoldable pub serialize_raw_json : (Value Number → String) → Value Number → String
  serialize_raw_json stringify undefined = stringify null
  serialize_raw_json stringify v = stringify v
