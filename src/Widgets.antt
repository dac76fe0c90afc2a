-- ===== src/Widgets.antt =====
-- The components under apps/admin-web/src/components that hold a state or a rule of their own: which
-- texts are cut, who sees a part of a page, what a dialog may confirm, and which file is taken.
mod Tests
use codex_memory.Prelude.{
  ℕ, ◌+◌, ◌*◌, ◌/◌, ◌==◌, ◌&&◌, ◌||◌, not, Bool, true, false, String, ◌<>◌, Option, none, some,
  List, [], ◌∷◌, if◌then◌else◌, ltb, length, any, Result, ok, ◌>>=◌,
}
use codex_memory.Prelude.Text.{trim, decimal}
use codex_memory.Js.{
  Runtime, Value, undefined, null, bool, num, str, Items, nil, cons, Fields, end, field, prop,
  is_object, is_nullish, is_text, ◌otherwise◌, to_text,
}
use codex_memory.Contracts.{Fault, array_items}
use codex_memory.Format.{Status, status_meta}
use codex_memory.Format.Readable.{Display, format_readable_value, text_length, first_of}
use codex_memory.Markdown.{render_safe_markdown}
use codex_memory.Import.{is_none_of, round_div}
use codex_memory.Import.Files.{File}

-- `text.length > limit ? text.slice(0, limit) + '…' : text`
unfoldable pub cut : ℕ → String → String
unfolding first_of text_length
cut limit text = if ltb limit (text_length text) then first_of limit text <> "…" else text

-- `choose(file)` of the drop zone: what it emits.
pub data Chosen : Type 0 where
  nothing : Chosen
  refused : String → Chosen
  chosen : File → Chosen

unfoldable pub choose : Bool → ℕ → Option File → Chosen
unfolding decimal
choose disabled max_size none = nothing
choose disabled max_size (some file) =
    if disabled
    then nothing
    else if ltb max_size file.size
    then refused ("文件不能超过 " <> (decimal (round_div max_size 1048576) <> " MB"))
    else chosen file

-- The dialog that confirms an action: its reason, and whether its button is enabled.
unfoldable pub may_confirm : Bool → String → Bool
unfolding trim
may_confirm requires_reason reason = not requires_reason || not (trim reason == "")

unfoldable pub dialog_opened : Bool → String → String → String
dialog_opened is_open given_reason reason = if is_open && given_reason == "" then "" else reason

module _ ⦃rt : Runtime⦄ where
  open rt use {Number}

  abbrev holds : Items Number → String → Bool
  holds nil permission = false
  holds (cons v vs) permission = is_text permission v || holds vs permission

  abbrev holds_all : Items Number → List String → Bool
  holds_all held [] = true
  holds_all held (permission ∷ more) = holds held permission && holds_all held more

  -- `allowed` of the gate. The permissions of a user are a list, or missing.
  unfoldable pub allowed : List String → List String → String → Value Number → Bool
  allowed all_of any_of permission me =
      let held = array_items (prop "permissions" me) in
      if not (is_none_of all_of) && not (holds_all held all_of)
      then false
      else if not (is_none_of any_of)
      then any (holds held) any_of
      else holds held permission

  -- What the bar of pages emits: the changes of the page, of its size, and of both.
  unfoldable pub size_changed : Value Number → Fields Number
  size_changed size = field "page" (num (rt.number_of "1")) (field "pageSize" size end)

  unfoldable pub page_changed : Value Number → Fields Number
  page_changed page = field "page" page end

  -- The status of a tag, where `true` and `false` stand for two of them.
  unfoldable pub tag_meta : Value Number → String → Result Fault Status
  unfolding status_meta
  tag_meta (bool b) label = status_meta (str (if b then "ok" else "error")) label
  tag_meta status label = status_meta status label

  module _ (display : Display Number) where
    -- A readable value as the HTML that the page inserts.
    unfoldable pub readable_html : ℕ → Value Number → Result Fault String
    unfolding format_readable_value render_safe_markdown
    readable_html max_depth value = format_readable_value display max_depth value >>= λ source.
        ok (render_safe_markdown (str source))

    -- A long text: what is shown of it, and the HTML of that.
    unfoldable pub expandable_text : Bool → ℕ → Value Number → Result Fault String
    unfolding cut format_readable_value
    expandable_text expanded limit value = format_readable_value display 6 value >>= λ text.
        ok (if expanded then text else cut limit text)

    unfoldable pub expandable_html : Bool → ℕ → Value Number → Result Fault String
    unfolding expandable_text render_safe_markdown
    expandable_html expanded limit value =
        expandable_text expanded limit value >>= λ shown. ok (render_safe_markdown (str shown))

    -- A text to copy, and what is shown of it.
    unfoldable pub copyable_text : Value Number → Result Fault String
    unfolding format_readable_value to_text
    copyable_text value =
        if is_object value
        then format_readable_value display 6 value
        else ok (to_text (value otherwise str ""))

    unfoldable pub copyable_shown : ℕ → Value Number → Result Fault String
    unfolding copyable_text cut
    copyable_shown truncate value =
        copyable_text value >>= λ text. ok (if ltb 0 truncate then cut truncate text else text)
