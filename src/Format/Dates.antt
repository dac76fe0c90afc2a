-- ===== src/Format/Dates.antt =====
-- apps/admin-web/src/utils/format.js: dates and times as they are sent and shown, and numbers.
use codex_memory.Prelude.{Bool, String, Option, none, some, if◌then◌else◌}
use codex_memory.Js.{Runtime, Value, to_text, to_number, truthy, ◌or◌}
use codex_memory.Markdown.Spans.{replace_char}
use codex_memory.Pages.{literal}

module _ ⦃rt : Runtime⦄ where
  open rt use {Number, num_le, number_of}

  -- `localDateTimeToIso(value)`. The engine's `new Date(value).toISOString()` depends on the zone of the
  -- browser: it is an argument, `none` where the date is invalid.
  unfoldable pub local_date_time_to_iso : (Value Number → Option String) → Value Number → String
  unfolding to_text
  local_date_time_to_iso iso value = elim (iso value) [
    | some text ↦ if truthy value then text else ""
    | none ↦ if truthy value then to_text value else ""
  ]

  -- `formatDateTime(value, options)`. `Intl.DateTimeFormat` with these options, on `new Date(value)`, is
  -- an argument, `none` where the date is invalid.
  unfoldable pub format_date_time : (Value Number → Option String) → Value Number → String
  unfolding to_text replace_char
  format_date_time intl value = elim (intl value) [
    | some text ↦ if truthy value then replace_char b'/' "-" text else "-"
    | none ↦ if truthy value then to_text value else "-"
  ]

  -- `compactNumber(value)`. `Intl.NumberFormat` is an argument, with whether its notation is compact.
  unfoldable pub compact_number : (Bool → Number → String) → Value Number → String
  unfolding to_number
  compact_number intl value =
      let n = to_number (value or literal "0") in intl (num_le (number_of "10000") n) n
