-- ===== src/Views/Status.antt =====
-- apps/admin-web/src/views/SystemStatusView.vue: the state of the system, the login of the Codex CLI,
-- and the settings of a project.
pub mod Checks
use codex_memory.Prelude.{
  ◌==◌, ◌&&◌, ◌||◌, not, Bool, true, false, String, ◌<>◌, Option, none, some, List, [], ◌∷◌,
  if◌then◌else◌, Result, ok, throw,
}
use codex_memory.Prelude.Uri.{encode_uri_component}
use codex_memory.Js.{
  Runtime, Value, null, num, str, obj, Fields, end, field, prop, truthy, is_text, ◌or◌, to_text,
  to_number,
}
use codex_memory.Api.{Request, admin_get, admin_post, admin_put}
use codex_memory.CodexAuth.{get_codex_auth_status_message}
use codex_memory.Format.{Label, label_text, native}
use codex_memory.DecisionPolicy.{normalize_decision_policy, normalize_feature_flags}
use codex_memory.Pages.{literal}

-- An error of the API with what the page reads of it: its text as `getErrorMessage` gives it, its code,
-- the reason in its meta and the id of its request, `undefined` where they are missing.
pub record Failed (N : Type 0) : Type 0 where
  pub message : String
  pub code : Value N
  pub reason : Value N
  pub request_id : Value N

pub record Feedback (N : Type 0) : Type 0 where
  pub is_error : Bool
  pub message : Label
  pub request_id : Value N

pub record StatusPage (N : Type 0) : Type 0 where
  pub loading : Bool
  pub refreshing : Bool
  pub error : Option (Failed N)
  pub body : Value N
  pub request_id : Value N
  pub policy : Option (Fields N)
  pub flags : Option (Fields N)
  pub saving_section : String
  pub config_error : Option (Failed N)
  pub auth_status : Value N
  pub auth_reason : Value N
  pub auth_message : Value N
  pub auth_busy : String
  pub auth_feedback : Option (Feedback N)

abbrev pub is_some : {A : Type 0} → Option A → Bool
is_some none = false
is_some (some a) = true

-- `Object.keys(value).length` is not zero.
abbrev pub has_keys : {N : Type 0} → Value N → Bool
has_keys (obj (field k v fs)) = true
has_keys _ = false

abbrev pub action_label : String → String
action_label action =
    if action == "start"
    then "开始登录"
    else if action == "cancel"
    then "取消登录"
    else if action == "recheck"
    then "重新检查"
    else "操作"

module _ ⦃rt : Runtime⦄ where
  open rt use {Number, num_le, number_of}

  -- `Number(value || 0) > 0`
  abbrev is_positive : Value Number → Bool
  is_positive value =
      let n = to_number (value or literal "0") in
      num_le (number_of "0") n && not (num_le n (number_of "0"))

  unfoldable pub overall_status : StatusPage Number → String
  unfolding to_number
  overall_status s =
      if is_some s.error
        || is_text "error" (prop "database" s.body)
        || is_positive (prop "dead_letters" s.body)
      then "error"
      else if not (is_text "ok" (prop "migration_schema" s.body))
          || is_positive (prop "pending_jobs" s.body)
          || is_positive (prop "server_outbox" s.body)
      then "pending"
      else "ok"

  -- The query of the card of the decision queue, for the page of records.
  abbrev pub decision_query : Fields Number
  decision_query =
      field "kind" (str "jobs")
        (field "status" (str "pending") (field "job_type" (str "decide_candidate") end))

  -- `refresh(manual)` up to its await.
  unfoldable pub begin_refresh : Bool → StatusPage Number → StatusPage Number
  begin_refresh manual s = record s {
    refreshing = if manual then true else s.refreshing;
    loading = if manual then s.loading else (if has_keys s.body then s.loading else true);
    error = none;
    config_error = none;
    auth_feedback = none;
  }

  unfoldable pub status_request : String → String → Request Number
  unfolding admin_get
  status_request token project_key =
      admin_get token "/system/status"
        (if project_key == "" then end else field "project_key" (str project_key) end)

  unfoldable pub auth_request : String → Request Number
  unfolding admin_get
  auth_request token = admin_get token "/codex-auth/status" end

  abbrev project_path : String → String → String
  project_path project_key tail = "/projects/" <> (encode_uri_component project_key <> tail)

  unfoldable pub settings_requests : String → String → Request Number × Request Number
  unfolding encode_uri_component admin_get
  settings_requests token project_key = (
    admin_get token (project_path project_key "/decision-policy") end,
    admin_get token (project_path project_key "/feature-flags") end,
  )

  -- The reply to `/system/status`; payloads are objects.
  unfoldable pub status_shown : Value Number → StatusPage Number → StatusPage Number
  status_shown result s = record s {
    body = prop "data" result or obj end;
    request_id = prop "request_id" result or str "";
  }

  abbrev auth_read : Value Number → StatusPage Number → StatusPage Number
  auth_read result s =
      let body = prop "data" result in
      record s {
        auth_status = prop "status" body or str "error";
        auth_reason = prop "reason" body or str "";
        auth_message = prop "message" body or str "";
      }

  abbrev auth_failed : Value Number → Failed Number → StatusPage Number → StatusPage Number
  auth_failed reason failed s = record s {
    auth_status = str "error";
    auth_reason = reason;
    auth_message = str failed.message;
    auth_feedback = some (record {
      is_error = true;
      message = label_text failed.message;
      request_id = failed.request_id or str "";
    });
  }

  -- `refreshCodexAuth`, when its request has been answered.
  unfoldable pub auth_refreshed :
      Result (Failed Number) (Value Number) → StatusPage Number → StatusPage Number
  auth_refreshed (ok result) s = auth_read result s
  auth_refreshed (throw failed) s =
      auth_failed (failed.code or str "admin_api_unavailable") failed s

  abbrev first_failure :
      {A B : Type 0}
      → Result (Failed Number) A
      → Result (Failed Number) B
      → Option (Failed Number)
      → Option (Failed Number)
  first_failure (throw failed) _ before = some failed
  first_failure (ok a) (throw failed) before = some failed
  first_failure (ok a) (ok b) before = before

  abbrev policy_of : Result (Failed Number) (Value Number) → Option (Fields Number)
  policy_of (throw failed) = none
  policy_of (ok result) = some (normalize_decision_policy (prop "data" result))

  abbrev flags_of : Result (Failed Number) (Value Number) → Option (Fields Number)
  flags_of (throw failed) = none
  flags_of (ok result) = some (normalize_feature_flags (prop "data" result))

  -- What `Promise.allSettled` of the two settings gives.
  unfoldable pub settings_shown :
      Result (Failed Number) (Value Number)
      → Result (Failed Number) (Value Number)
      → StatusPage Number
      → StatusPage Number
  unfolding normalize_decision_policy normalize_feature_flags
  settings_shown policy flags s = record s {
    policy = policy_of policy;
    flags = flags_of flags;
    config_error = first_failure policy flags s.config_error;
  }

  unfoldable pub settings_cleared : StatusPage Number → StatusPage Number
  settings_cleared s = record s { policy = none; flags = none }

  unfoldable pub refresh_failed : Failed Number → StatusPage Number → StatusPage Number
  refresh_failed failed s = record s { error = some failed }

  -- The `finally` of `refresh`.
  unfoldable pub refresh_ended : StatusPage Number → StatusPage Number
  refresh_ended s = record s { loading = false; refreshing = false }

  -- `codexAuthAction(action)` up to its await.
  unfoldable pub begin_auth_action : String → StatusPage Number → StatusPage Number
  begin_auth_action action s =
      if s.auth_busy == "" then record s { auth_busy = action; auth_feedback = none } else s

  unfoldable pub auth_action_request : String → String → StatusPage Number → Option (Request Number)
  unfolding admin_post
  auth_action_request token action s =
      if s.auth_busy == ""
      then some (admin_post token ("/codex-auth/" <> action) (obj end) end)
      else none

  prefixed : String → Label → Label
  prefixed before (label_text message) = label_text (before <> ("：" <> message))
  prefixed before native = native

  -- The reply to the action, with its `finally`. Status, reason and message are texts.
  unfoldable pub auth_action_answered :
      String → Result (Failed Number) (Value Number) → StatusPage Number → StatusPage Number
  unfolding prefixed to_text get_codex_auth_status_message
  auth_action_answered action (throw failed) s =
      record (auth_failed (failed.reason or (failed.code or str "admin_api_unavailable")) failed
        s) { auth_busy = "" }
  auth_action_answered action (ok result) s =
      let read = auth_read result s in
      let message =
        get_codex_auth_status_message (to_text read.auth_status) (to_text read.auth_reason)
          (to_text read.auth_message) in
      record read {
        auth_feedback = some (record {
          is_error = is_text "error" read.auth_status;
          message = prefixed (action_label action) message;
          request_id = prop "request_id" result or str "";
        });
        auth_busy = "";
      }

  -- `savePolicy(payload)` and `saveFlags(payload)` up to their await.
  unfoldable pub begin_save : String → String → Value Number → StatusPage Number → StatusPage Number
  begin_save project_key section payload s =
      if not (truthy payload) || project_key == ""
      then s
      else record s { saving_section = section; config_error = none }

  unfoldable pub save_request : String → String → String → Value Number → Option (Request Number)
  unfolding encode_uri_component admin_put
  save_request token project_key section payload =
      if not (truthy payload) || project_key == ""
      then none
      else some (
          admin_put token
            (project_path project_key
              (if section == "policy" then "/decision-policy" else "/feature-flags"))
            payload end)

  abbrev or_old : Value Number → Option (Fields Number) → Value Number
  or_old v none = v or null
  or_old v (some fields) = v or obj fields

  unfoldable pub policy_saved :
      Result (Failed Number) (Value Number) → StatusPage Number → StatusPage Number
  unfolding normalize_decision_policy
  policy_saved (ok result) s = record s {
    policy = some (normalize_decision_policy (or_old (prop "data" result) s.policy));
    saving_section = "";
  }
  policy_saved (throw failed) s = record s { config_error = some failed; saving_section = "" }

  unfoldable pub flags_saved :
      Result (Failed Number) (Value Number) → StatusPage Number → StatusPage Number
  unfolding normalize_feature_flags
  flags_saved (ok result) s = record s {
    flags = some (normalize_feature_flags (or_old (prop "data" result) s.flags));
    saving_section = "";
  }
  flags_saved (throw failed) s = record s { config_error = some failed; saving_section = "" }
