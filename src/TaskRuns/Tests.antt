-- ===== src/TaskRuns/Tests.antt =====
-- Parameters and replies at concrete inputs.
use codex_memory.Prelude.{◌≡◌, refl}
use codex_memory.Js.{Value, null, str, obj, Fields, end, field, to_text}
use codex_memory.Js.Demo.{demo}
use codex_memory.TaskRuns.{is_given, compact_params}
use codex_memory.Prelude.Text.{trim}

abbrev filters : Fields demo.Number
filters = field "projectKey" (str "alpha") (field "keyword" (str "  ") (field "status" null end))

drops_blank : compact_params filters ≡ field "projectKey" (str "alpha") end
unfolding compact_params is_given trim to_text
drops_blank = refl

abbrev payload : Value demo.Number
payload = obj (field "data" (obj (field "id" (str "r1") (field "events" (str "none") end))) end)
