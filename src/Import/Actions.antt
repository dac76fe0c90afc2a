-- ===== src/Import/Actions.antt =====
-- apps/admin-web/src/views/ImportView.vue: actions on a batch or a candidate, from the dialog that
-- confirms them to their end.
use codex_memory.Prelude.{
  ◌==◌, ◌&&◌, ◌||◌, Bool, true, false, String, ◌<>◌, Option, none, some, List, [], ◌∷◌, ◌++◌,
  if◌then◌else◌, text_member, Result, ok, throw,
}
use codex_memory.Prelude.Text.{trim}
use codex_memory.Js.{Runtime, Value, str, obj, end, field, prop, ◌or◌, to_text}
use codex_memory.Api.{Request, admin_post}
use codex_memory.Pages.{Cause}
use codex_memory.Import.{
  Wizard, Action, ActionKind, approve, reject, candidate_rollback, cancel, retry, rollback,
}
use codex_memory.Import.Batches.{
  begin_load, plain_load, finish_load, has_id, begin_detail, finish_detail,
}

-- The names of the kinds in the source.
abbrev pub kind_name : ActionKind → String
kind_name approve = "approve"
kind_name reject = "reject"
kind_name candidate_rollback = "candidateRollback"
kind_name cancel = "cancel"
kind_name retry = "retry"
kind_name rollback = "rollback"

module _ ⦃rt : Runtime⦄ where
  open rt use {Number}

  abbrev pub target_id : Value Number → String
  target_id target = to_text (prop "id" target)

  unfoldable pub action_key : ActionKind → Value Number → String
  unfolding to_text
  action_key kind target = kind_name kind <> (":" <> target_id target)

  unfoldable pub is_row_loading : ActionKind → Value Number → Wizard Number → Bool
  unfolding action_key
  is_row_loading kind target s = text_member (action_key kind target) s.row_loading

  unfoldable pub definition : ActionKind → Value Number → Action Number
  unfolding to_text
  definition approve target = record {
    kind = approve;
    target = target;
    title = "批准并发布候选";
    confirm_text = "确认批准";
    requires_reason = true;
    reason_label = "审核原因";
    impact = "候选将发布为正式 Memory，并进入后续检索结果。";
  }
  definition reject target = record {
    kind = reject;
    target = target;
    title = "拒绝候选";
    confirm_text = "确认拒绝";
    requires_reason = true;
    reason_label = "拒绝原因";
    impact = "候选将标记为已拒绝，不会进入正式 Memory。";
  }
  definition candidate_rollback target = record {
    kind = candidate_rollback;
    target = target;
    title = "回滚已发布候选";
    confirm_text = "确认回滚";
    requires_reason = true;
    reason_label = "回滚原因";
    impact = "该候选对应的正式 Memory 将被撤回，可能影响后续检索。";
  }
  definition cancel target = record {
    kind = cancel;
    target = target;
    title = "取消导入批次";
    confirm_text = "确认取消";
    requires_reason = false;
    reason_label = "";
    impact = "批次 #" <> (target_id target <> " 的未完成文件和队列任务将停止处理。");
  }
  definition retry target = record {
    kind = retry;
    target = target;
    title = "重试导入批次";
    confirm_text = "确认重试";
    requires_reason = false;
    reason_label = "";
    impact = "批次 #" <> (target_id target <> " 将重新进入处理队列。");
  }
  definition rollback target = record {
    kind = rollback;
    target = target;
    title = "回滚导入批次";
    confirm_text = "确认回滚";
    requires_reason = true;
    reason_label = "回滚原因";
    impact = "批次 #" <> (target_id target <> " 发布的候选与 Memory 将被撤回，此操作会改变检索结果。");
  }

  unfoldable pub open_action : ActionKind → Value Number → Wizard Number → Wizard Number
  unfolding definition
  open_action kind target s = record s {
    action = some (definition kind target);
    action_reason = "";
    action_visible = true;
  }

  abbrev pub candidate_path : Value Number → String → String
  candidate_path target verb = "/reference-candidates/" <> (target_id target <> ("/" <> verb))

  abbrev pub import_path : Value Number → String → String
  import_path target verb = "/import-batches/" <> (target_id target <> ("/" <> verb))

  abbrev review_body : String → Value Number → String → Value Number
  review_body decision reviewer reason = obj (
      field "decision" (str decision)
        (field "reviewer" reviewer (field "reason" (str (trim reason)) end)))

  abbrev rollback_body : String → Value Number
  rollback_body reason =
      obj (field "decision" (str "rollback") (field "reason" (str (trim reason)) end))

  -- `session.displayName || session.me?.display_name || '管理后台'`
  unfoldable pub reviewer_of : Value Number → Value Number → Value Number
  reviewer_of display_name me = display_name or (prop "display_name" me or str "管理后台")

  unfoldable pub action_request :
      String → Value Number → ActionKind → Value Number → String → Request Number
  unfolding to_text trim admin_post
  action_request token reviewer approve target reason =
      admin_post token (candidate_path target "review") (review_body "approve" reviewer reason) end
  action_request token reviewer reject target reason =
      admin_post token (candidate_path target "review") (review_body "reject" reviewer reason) end
  action_request token reviewer candidate_rollback target reason =
      admin_post token (candidate_path target "rollback") (rollback_body reason) end
  action_request token reviewer cancel target reason =
      admin_post token (import_path target "cancel") (obj end) end
  action_request token reviewer retry target reason =
      admin_post token (import_path target "retry") (obj end) end
  action_request token reviewer rollback target reason =
      admin_post token (import_path target "rollback") (rollback_body reason) end

  unfoldable pub action_message : ActionKind → Value Number → String
  unfolding to_text
  action_message approve target = "候选已发布为正式 Memory"
  action_message reject target = "候选已拒绝"
  action_message candidate_rollback target = "候选 #" <> (target_id target <> " 已回滚")
  action_message cancel target = "批次 #" <> (target_id target <> " 已取消")
  action_message retry target = "批次 #" <> (target_id target <> " 已重新排队")
  action_message rollback target = "批次 #" <> (target_id target <> " 已回滚")

  -- The guards of `confirmAction`.
  unfoldable pub permitted : Bool → String → Option (Action Number) → Option (Action Number)
  unfolding trim
  permitted submitting reason none = none
  permitted submitting reason (some action) =
      if submitting || (action.requires_reason && trim reason == "") then none else some action

  -- The action that `confirmAction` sends, `none` where a guard returns.
  unfoldable pub confirmed : Wizard Number → Option (Action Number)
  unfolding permitted
  confirmed s = permitted s.action_submitting s.action_reason s.action

  unfoldable pub begun : Option (Action Number) → Wizard Number → Wizard Number
  unfolding action_key
  begun none s = s
  begun (some action) s = record s {
    action_submitting = true;
    row_loading = s.row_loading ++ action_key action.kind action.target ∷ [];
    error = none;
  }

  -- `confirmAction` up to the reply to its request.
  unfoldable pub confirm_action : Wizard Number → Wizard Number
  unfolding confirmed begun
  confirm_action s = begun (confirmed s) s

  unfoldable pub sent_by_confirm : String → Value Number → Wizard Number → Option (Request Number)
  unfolding confirmed action_request
  sent_by_confirm token reviewer s = elim (confirmed s) [
    | none ↦ none
    | some action ↦ some (action_request token reviewer action.kind action.target s.action_reason)
  ]

  -- The reply: success closes the dialog and begins a load, an error is shown.
  unfoldable pub action_answered :
      ActionKind → Value Number → Result Cause (Value Number) → Wizard Number → Wizard Number
  unfolding action_message begin_load
  action_answered kind target (ok result) s =
      begin_load plain_load
        (record s { message = action_message kind target; action_visible = false })
  action_answered kind target (throw cause) s = record s { error = some cause }

  -- Whether the open batch is loaded again, when the load has ended.
  unfoldable pub reloads_detail : Value Number → Wizard Number → Bool
  unfolding to_text
  reloads_detail target s =
      s.detail_visible && to_text (prop "id" s.batch_detail) == target_id target

  unfoldable pub remove_text : String → List String → List String
  remove_text t [] = []
  remove_text t (s ∷ more) = let rest = remove_text t more in if s == t then rest else s ∷ rest

  -- The `finally` of `confirmAction`.
  unfoldable pub action_finished : ActionKind → Value Number → Wizard Number → Wizard Number
  unfolding remove_text action_key
  action_finished kind target s = record s {
    row_loading = remove_text (action_key kind target) s.row_loading;
    action_submitting = false;
  }

  -- The load of the open batch, where the action was on it.
  unfoldable pub detail_reloaded :
      Value Number
      → Result Cause (Value Number × Value Number × Value Number)
      → Wizard Number
      → Wizard Number
  unfolding reloads_detail has_id begin_detail finish_detail
  detail_reloaded target detail s =
      if reloads_detail target s && has_id target
      then finish_detail false target detail (begin_detail false s)
      else s

  -- The whole of `confirmAction` from its reply on, where nothing else happens before the loads that
  -- follow a success have ended.
  unfoldable pub action_settled :
      ActionKind
      → Value Number
      → Result Cause (Value Number)
      → Result Cause (Value Number × Value Number)
      → Result Cause (Value Number × Value Number × Value Number)
      → Wizard Number
      → Wizard Number
  unfolding action_answered finish_load detail_reloaded action_finished
  action_settled kind target (throw cause) lists detail s =
      action_finished kind target (action_answered kind target (throw cause) s)
  action_settled kind target (ok result) lists detail s =
      let answered = action_answered kind target (ok result) s in
      action_finished kind target (
        detail_reloaded target detail
          (finish_load plain_load answered.load_sequence lists answered))
