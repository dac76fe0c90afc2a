-- ===== src/DecisionPolicy/Tests.antt =====
-- Runs of the policy functions, and the theorems at concrete inputs.
use codex_memory.Prelude.{◌≡◌, refl, ◌↔◌, true, false, some, inl}
use codex_memory.Js.{set, Value, bool, num, str, obj, Fields, end, field, get}
use codex_memory.Js.Demo.{demo}
use codex_memory.DecisionPolicy.{
  check_fields, normalize_decision_policy, validate_decision_policy, read_threshold,
  resolve_project_key,
}
use codex_memory.DecisionPolicy.Valid.{IsValid}
use codex_memory.DecisionPolicy.Laws.{validate_iff}

abbrev automatic : Fields demo.Number
automatic = field "enabled" (bool true) (
    field "auto_publish_enabled" (bool true)
      (field "strategy" (str "auto_publish") (field "min_confidence" (str " ") end)))

reads_mode : get "strategy" (normalize_decision_policy (obj automatic)) ≡ str "auto_publish"
unfolding normalize_decision_policy get set
reads_mode = refl

rejects_blank : validate_decision_policy (obj automatic) ≡ "最小可信度阈值必须是 0 到 1 之间的数字。"
unfolding validate_decision_policy check_fields read_threshold get
rejects_blank = refl

project_from_context : resolve_project_key "" " alpha " "*" ≡ "alpha"
unfolding resolve_project_key
project_from_context = refl

abbrev manual : Fields demo.Number
manual = field "enabled" (bool true) (
    field "auto_publish_enabled" (bool false)
      (field "strategy" (str "manual_review") (field "min_confidence" (str "1") end)))

manual-IsValid : IsValid manual
unfolding get read_threshold
manual-IsValid = record {
  on = true;
  auto = false;
  mode = "manual_review";
  limit = some 1000;
  enabled = refl;
  auto_publish_enabled = refl;
  strategy = refl;
  known = inl refl;
  min_confidence = refl;
  auto_needs_on = λ e. refl;
  mode_needs_auto = λ e. cc;
}

validate_iff_example : (validate_decision_policy (obj manual) ≡ "") ↔ IsValid manual
validate_iff_example = validate_iff manual

-- Automatic mode with automatic publishing off.
abbrev stale : Fields demo.Number
stale =
    field "enabled" (bool true)
      (field "strategy" (str "auto_publish") (field "min_confidence" (num (some 500)) end))

abbrev some_flags : Value demo.Number
some_flags = obj (
    field "flags"
      (obj (field "decision_engine_enabled" (bool true) (field "worker" (num (some 1000)) end)))
      end)
