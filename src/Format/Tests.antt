-- ===== src/Format/Tests.antt =====
-- Labels at concrete inputs.
use codex_memory.Prelude.{◌+◌, ok, [], ◌∷◌, ◌≡◌, refl, ◌↔◌, true, throw}
use codex_memory.Js.{bool, arr, cons, nil, field, end, obj, of_entries, Value, str}
use codex_memory.Js.Demo.{demo}
use codex_memory.Contracts
use codex_memory.Format.{
  readable_title, title_candidate, scalar_text, inherited_names, is_inherited, status_key,
  status_meta, field_label, native, lookup,
}
use codex_memory.Format.Readable.{Display, format_readable_value, readable_text}
use codex_memory.Format.Depth.{height, within, whole, format_readable_value-within}
use codex_memory.Format.Tables.{field_labels}
use codex_memory.Markdown.Spans.{replace_char}
use codex_memory.Format.Labels.{status_meta-throws_iff}
use codex_memory.Prelude.Text.{trim}

abbrev inherited_status : Value demo.Number
inherited_status = str "Constructor"

inherited_label : field_label (str "constructor") "" ≡ native
unfolding field_label lookup field_labels is_inherited inherited_names trim
inherited_label = refl

status_meta-throws_iff_example :
    (status_meta inherited_status "" ≡ throw Contracts.type_error)
    ↔ (is_inherited inherited_names (status_key inherited_status) ≡ true)
status_meta-throws_iff_example = status_meta-throws_iff inherited_status ""

-- The name outranks the text, and a blank title is passed over.
title :
    readable_title
      (obj (of_entries (("text", str "t") ∷ ("title", str " ") ∷ ("name", str " n ") ∷ [])))
      "无"
    ≡ "n"
unfolding readable_title title_candidate scalar_text trim
title = refl

-- A runtime's texts, as a test shows them.
abbrev plain_display : Display demo.Number
plain_display = record { native_text = λ name. name; date_time = λ text. text; percent = λ n. "1" }

abbrev nested : Value demo.Number
nested = obj (
    field "degraded" (bool true)
      (field "tags" (arr (cons (str "x") (cons (obj (field "role" (str "USER") end)) nil))) end))

nested_shown :
    format_readable_value plain_display 3 nested
    ≡ ok "- **已降级**：已降级\n- **tags**：\n  - x\n  - **第 2 项**\n    - **角色**：用户"
unfolding format_readable_value
nested_shown = refl

nested_cut :
    format_readable_value plain_display 1 nested ≡ ok "- **已降级**：已降级\n- **tags**：\n  …（层级过深，已省略）"
unfolding format_readable_value
nested_cut = refl

short : readable_text plain_display (str "a **b**  `c`") 3 ≡ ok "a b…"
unfolding readable_text replace_char
short = refl

format_readable_value-within_example :
    (format_readable_value plain_display 1 nested ≡ within plain_display 1 "" nested)
    × (format_readable_value plain_display (height nested + 2) nested
        ≡ whole plain_display "" nested)
format_readable_value-within_example = format_readable_value-within plain_display 1 2 nested
