-- ===== src/DecisionPolicy.antt =====
-- apps/admin-web/src/decisionPolicy.js: the decision policy and the feature flags of a project.
pub mod Reads
pub mod Valid
pub mod Laws
pub mod Payload
pub mod Flags
mod Tests
use codex_memory.Prelude.{
  ◌==◌, Bool, true, false, not, ◌&&◌, ◌||◌, String, Option, none, some, List, [], ◌∷◌, map, Result,
  ok, throw, if◌then◌else◌, ℕ, zero, suc, ◌+◌,
}
use codex_memory.Prelude.Text.{trim}
use codex_memory.Js.{
  own, Runtime, Value, undefined, bool, num, str, arr, obj, Items, nil, cons, Fields, end, field,
  get, set, spread, prop, is_object, is_nullish, is_true, is_boolean, is_text, truthy, to_number,
}

is_blank : {N : Type 0} → Value N → Bool
unfolding trim
is_blank (str s) = trim s == ""
is_blank _ = false

pub data Kind : Type 0 where
  switch strategy threshold : Kind

pub record FieldDefinition : Type 0 where
  pub key : String
  pub label : String
  pub kind : Kind

abbrev pub decision_policy_field_definitions : List FieldDefinition
decision_policy_field_definitions =
    record { key = "enabled"; label = "策略启用"; kind = switch }
    ∷ record { key = "auto_publish_enabled"; label = "自动发布启用"; kind = switch }
    ∷ record { key = "strategy"; label = "执行模式"; kind = strategy }
    ∷ record { key = "min_confidence"; label = "最小可信度阈值"; kind = threshold }
    ∷ []

-- Keys and labels.
abbrev pub safe_feature_flag_definitions : List (String × String)
safe_feature_flag_definitions =
    ("memory_v11_enabled", "V1.1 记忆管线")
    ∷ ("lexical_retrieval_enabled", "词法检索")
    ∷ ("dense_retrieval_enabled", "稠密检索")
    ∷ ("embedding_profile_v2_enabled", "嵌入配置 V2")
    ∷ ("candidate_publish_enabled", "候选发布门")
    ∷ ("decision_engine_enabled", "决策引擎")
    ∷ []

-- The messages of `validateDecisionPolicy`.
abbrev pub not_loaded : String
not_loaded = "项目决策策略尚未加载。"

abbrev pub enabled_not_boolean : String
enabled_not_boolean = "策略启用必须是布尔值。"

abbrev pub auto_not_boolean : String
auto_not_boolean = "自动发布启用必须是布尔值。"

abbrev pub unknown_mode : String
unknown_mode = "执行模式不受支持。"

abbrev pub bad_threshold : String
bad_threshold = "最小可信度阈值必须是 0 到 1 之间的数字。"

abbrev pub auto_without_enabled : String
auto_without_enabled = "未启用策略时不能启用自动发布。"

abbrev pub mode_without_auto : String
mode_without_auto = "未启用自动发布时不能选择自动发布模式。"

module _ ⦃rt : Runtime⦄ where
  open rt use {Number, num_le, is_finite, number_of}

  abbrev pub decision_policy_defaults : Fields Number
  decision_policy_defaults = field "enabled" (bool false) (
      field "auto_publish_enabled" (bool false) (
        field "strategy" (str "manual_review") (
          field "allowed_level" (str "L1") (
            field "allowed_scope" (str "project")
              (field "min_confidence" (num (number_of "0.8")) end)))))

  -- `Number.isFinite(number) && number >= 0 && number <= 1`
  abbrev pub in_unit : Number → Bool
  in_unit n = is_finite n && num_le (number_of "0") n && num_le n (number_of "1")

  unfoldable pub read_threshold : Value Number → Option Number
  unfolding is_blank to_number
  read_threshold value =
      if is_nullish value || is_blank value
      then none
      else if in_unit (to_number value)
      then some (to_number value)
      else none

  abbrev threshold_or_default : Option Number → Number
  threshold_or_default none = number_of "0.8"
  threshold_or_default (some n) = n

  unfoldable pub normalize_decision_policy : Value Number → Fields Number
  unfolding own spread
  normalize_decision_policy value =
      let source = own value in
      let enabled = is_true (get "enabled" source) in
      let auto_publish_enabled = enabled && is_true (get "auto_publish_enabled" source) in
      let strategy =
        if auto_publish_enabled && is_text "auto_publish" (get "strategy" source)
        then "auto_publish"
        else "manual_review" in
      let min_confidence = threshold_or_default (read_threshold (get "min_confidence" source)) in
      spread (spread source decision_policy_defaults) (
        field "enabled" (bool enabled) (
          field "auto_publish_enabled" (bool auto_publish_enabled) (
            field "strategy" (str strategy) (
              field "allowed_level" (str "L1") (
                field "allowed_scope" (str "project")
                  (field "min_confidence" (num min_confidence) end))))))

  -- `SAFE_FEATURE_FLAG_DEFINITIONS.forEach(({ key }) => { flags[key] = sourceFlags[key] === true })`
  pub assign_flags : List (String × String) → Fields Number → Fields Number → Fields Number
  assign_flags [] source_flags flags = flags
  assign_flags ((key, label) ∷ more) source_flags flags =
      assign_flags more source_flags (set key (bool (is_true (get key source_flags))) flags)

  unfoldable pub normalize_feature_flags : Value Number → Fields Number
  unfolding own assign_flags
  normalize_feature_flags value =
      let source = own value in
      let source_flags = own (get "flags" source) in
      set "flags" (obj (assign_flags safe_feature_flag_definitions source_flags source_flags))
        source

  -- The empty texts stand for keys that are not given.
  unfoldable pub resolve_project_key : String → String → String → String
  unfolding trim
  resolve_project_key query_key context_key principal_key =
      let principal = if principal_key == "*" then "" else principal_key in
      trim (
        if not (query_key == "")
        then query_key
        else if not (context_key == "")
        then context_key
        else principal)

  -- The assignments to the policy; `none` is a policy that is not loaded.
  pub synchronize : Fields Number → Fields Number
  synchronize policy =
      if not (is_true (get "enabled" policy))
      then set "strategy" (str "manual_review")
          (set "auto_publish_enabled" (bool false) (set "enabled" (bool false) policy))
      else if not (is_true (get "auto_publish_enabled" policy))
      then (let policy' = set "auto_publish_enabled" (bool false) policy in
          if is_text "auto_publish" (get "strategy" policy')
          then set "strategy" (str "manual_review") policy'
          else policy')
      else policy

  unfoldable pub synchronize_decision_policy : Option (Fields Number) → Option (Fields Number)
  unfolding synchronize
  synchronize_decision_policy none = none
  synchronize_decision_policy (some policy) = some (synchronize policy)

  -- The tests on the four properties.
  unfoldable pub check_fields : Value Number → Value Number → Value Number → Option Number → String
  check_fields enabled auto mode limit =
      if not (is_boolean enabled)
      then enabled_not_boolean
      else if not (is_boolean auto)
      then auto_not_boolean
      else if not (is_text "manual_review" mode || is_text "auto_publish" mode)
      then unknown_mode
      else elim limit [
        | none ↦ bad_threshold
        | some n ↦
            if truthy auto && not (truthy enabled)
            then auto_without_enabled
            else if is_text "auto_publish" mode && not (truthy auto)
            then mode_without_auto
            else ""
      ]

  unfoldable pub validate_decision_policy : Value Number → String
  validate_decision_policy policy =
      if not (is_object policy)
      then not_loaded
      else check_fields (prop "enabled" policy) (prop "auto_publish_enabled" policy)
          (prop "strategy" policy) (read_threshold (prop "min_confidence" policy))

  unfoldable pub build_decision_policy_payload : Value Number → Result String (Fields Number)
  unfolding to_number
  build_decision_policy_payload policy =
      let error = validate_decision_policy policy in
      if not (error == "")
      then throw error
      else ok (
          field "min_confidence" (num (to_number (prop "min_confidence" policy))) (
            field "enabled" (prop "enabled" policy) (
              field "auto_publish_enabled" (prop "auto_publish_enabled" policy)
                (field "strategy" (prop "strategy" policy) end))))

  pub flag_fields : List (String × String) → Value Number → Fields Number
  flag_fields [] source = end
  flag_fields ((key, label) ∷ more) source =
      field key (bool (is_true (prop key source))) (flag_fields more source)

  unfoldable pub build_feature_flags_payload : Value Number → Result String (Fields Number)
  unfolding flag_fields
  build_feature_flags_payload value =
      let source = if is_object (prop "flags" value) then prop "flags" value else value in
      if not (is_object source)
      then throw "项目功能开关尚未加载。"
      else ok (flag_fields safe_feature_flag_definitions source)
