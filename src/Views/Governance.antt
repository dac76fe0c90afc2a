-- ===== src/Views/Governance.antt =====
-- apps/admin-web/src/components/ProjectGovernanceForm.vue: the form of the settings of a project; and
-- apps/admin-web/src/components/CodexAuthCard.vue: the card of the login of the Codex CLI.
use codex_memory.Prelude.{◌==◌, String, Option, none, some, if◌then◌else◌, ok, throw}
use codex_memory.Js.{Runtime, Value, null, obj, Fields}
use codex_memory.DecisionPolicy.{
  synchronize_decision_policy, validate_decision_policy, build_decision_policy_payload,
  build_feature_flags_payload,
}

-- The form: its local error, and the props that its parent passes.
pub record GovernanceForm (N : Type 0) : Type 0 where
  pub policy : Option (Fields N)
  pub flags : Option (Fields N)
  pub local_error : String
  pub saving_section : String

-- What the form emits.
pub data Emitted (N : Type 0) : Type 0 where
  nothing : Emitted N
  save_policy save_flags : Fields N → Emitted N

abbrev pub given : {N : Type 0} → Option (Fields N) → Value N
given none = null
given (some fields) = obj fields

-- The message of an error without one, as `getErrorMessage` gives it.
abbrev pub message_of : String → String
message_of message = if message == "" then "请求失败，请稍后重试。" else message

module _ ⦃rt : Runtime⦄ where
  open rt use {Number}

  -- `error` is the text of the parent's error, `none` where it has none.
  unfoldable pub error_message : Option String → GovernanceForm Number → String
  error_message error form =
      if form.local_error == ""
      then elim error [ none ↦ "" | some message ↦ message_of message ]
      else form.local_error

  unfoldable pub policy_validation_error : GovernanceForm Number → String
  unfolding validate_decision_policy
  policy_validation_error form = validate_decision_policy (given form.policy)

  -- The policy of the parent is changed in place.
  unfoldable pub sync_policy : GovernanceForm Number → GovernanceForm Number
  unfolding synchronize_decision_policy
  sync_policy form = record form {
    local_error = "";
    policy = synchronize_decision_policy form.policy;
  }

  unfoldable pub emit_policy : GovernanceForm Number → GovernanceForm Number × Emitted Number
  unfolding build_decision_policy_payload
  emit_policy form = elim (build_decision_policy_payload (given form.policy)) [
    | ok payload ↦ (record form { local_error = "" }, save_policy payload)
    | throw message ↦ (record form { local_error = message_of message }, nothing)
  ]

  unfoldable pub emit_flags : GovernanceForm Number → GovernanceForm Number × Emitted Number
  unfolding build_feature_flags_payload
  emit_flags form = elim (build_feature_flags_payload (given form.flags)) [
    | ok payload ↦ (record form { local_error = "" }, save_flags payload)
    | throw message ↦ (record form { local_error = message_of message }, nothing)
  ]

-- The texts of the card, for a status that no prototype has as a key.
unfoldable pub status_text : String → String
status_text status =
    if status == "ready"
    then "已登录"
    else if status == "not_logged_in"
    then "未登录"
    else if status == "login_in_progress"
    then "登录进行中"
    else "错误"

unfoldable pub tag_status : String → String
tag_status status =
    if status == "ready"
    then "ok"
    else if status == "login_in_progress"
    then "pending"
    else if status == "not_logged_in"
    then "unknown"
    else "error"

unfoldable pub start_label : String → String
start_label status = if status == "ready" then "更换账号" else "开始登录"
