-- ===== src/Views/Dashboard/Cards.antt =====
-- The cards of apps/admin-web/src/views/DashboardView.vue: its pulse, and what needs attention, with
-- the pages that they link to.
use codex_memory.Prelude.{Bool, String, ◌<>◌, List, [], ◌∷◌, if◌then◌else◌}
use codex_memory.Js.{
  Runtime, Value, num, str, obj, Fields, end, field, prop, truthy, is_text, ◌or◌, ◌otherwise◌,
  to_text, to_number,
}
use codex_memory.Pages.{literal}
use codex_memory.Views.Status.{is_some}
use codex_memory.Views.Dashboard.{DashboardPage, database_pulse, migration_pulse}

-- A card of the pulse; one without a query keeps the one of the route.
pub record Pulse (N : Type 0) : Type 0 where
  pub label : String
  pub status : Value N
  pub value : Value N
  pub to : String
  pub query : Fields N

pub record Attention (N : Type 0) : Type 0 where
  pub label : String
  pub value : Value N
  pub tone : String
  pub to : String
  pub query : Fields N
  pub hint : String

module _ ⦃rt : Runtime⦄ where
  open rt use {Number}

  abbrev attention : DashboardPage Number → Value Number
  attention s = prop "attention" s.dashboard or obj end

  abbrev decision : DashboardPage Number → Value Number
  decision s = prop "decision" s.dashboard or obj end

  -- `Number(value || 0) ? busy : 'ok'`
  abbrev busy_status : Value Number → String → Value Number
  busy_status value busy =
      str (if truthy (num (to_number (value or literal "0"))) then busy else "ok")

  abbrev counted : Value Number → String → Value Number
  counted value unit = str (to_text (value otherwise literal "0") <> unit)

  abbrev kind_query : String → String → Fields Number
  kind_query kind status = field "kind" (str kind) (field "status" (str status) end)

  abbrev system_page : Bool → String
  system_page may_read = if may_read then "/system-status" else ""

  unfoldable pub pulse : Bool → DashboardPage Number → List (Pulse Number)
  unfolding database_pulse migration_pulse to_text to_number
  pulse may_read s =
      record {
        label = "API";
        status = str (if is_some s.error then "error" else "ok");
        value = str (if is_some s.error then "连接失败" else "响应正常");
        to = system_page may_read;
        query = end;
      }
      ∷ record {
        label = "数据库";
        status = database_pulse may_read s;
        value = str (
            if may_read
            then (if is_text "ok" (prop "database" s.system) then "连接正常" else "需要检查")
            else "权限受限");
        to = system_page may_read;
        query = end;
      }
      ∷ record {
        label = "迁移";
        status = str (migration_pulse may_read s);
        value = if may_read then (prop "latest_migration" s.system or str "等待检查") else str "权限受限";
        to = system_page may_read;
        query = end;
      }
      ∷ record {
        label = "任务队列";
        status = busy_status (prop "pending_jobs" s.system) "pending";
        value = counted (prop "pending_jobs" s.system) " 个待处理";
        to = "/records";
        query = kind_query "jobs" "pending";
      }
      ∷ record {
        label = "Outbox";
        status = busy_status (prop "server_outbox" s.system) "pending";
        value = counted (prop "server_outbox" s.system) " 个待投递";
        to = "/records";
        query = kind_query "outbox-events" "pending";
      }
      ∷ record {
        label = "死信";
        status =
            busy_status (prop "dead_letters" s.system or prop "dead_letters" (attention s)) "error";
        value =
            counted (prop "dead_letters" s.system otherwise prop "dead_letters" (attention s)) " 个";
        to = "/records";
        query = kind_query "outbox-events" "dead";
      }
      ∷ []

  abbrev card : String → Value Number → String → String → Fields Number → String → Attention Number
  card label value tone to query hint = record {
    label = label;
    value = value otherwise literal "0";
    tone = tone;
    to = to;
    query = query;
    hint = hint;
  }

  unfoldable pub attention_cards : DashboardPage Number → List (Attention Number)
  attention_cards s =
      card "待审核候选" (prop "pending_candidates" (attention s)) "warning" "/records"
        (kind_query "candidates" "pending") "确认是否进入正式记忆"
      ∷ card "失败任务" (prop "failed_jobs" (attention s)) "danger" "/records"
          (kind_query "jobs" "failed") "查看错误并决定后续处理"
      ∷ card "死信事件" (prop "dead_letters" (attention s) otherwise prop "dead_letters" s.system)
          "danger" "/records" (kind_query "outbox-events" "dead") "定位无法继续投递的事件"
      ∷ card "活跃导入" (prop "active_imports" (attention s)) "primary" "/imports"
          (field "status" (str "active") end) "跟踪上传与处理进度"
      ∷ card "不确定 TaskRun" (prop "uncertain_task_runs" (attention s)) "warning" "/task-runs"
          (field "uncertain" (str "true") end) "核对归因与验证证据"
      ∷ card "待发布 Revision" (prop "proposed_revisions" (attention s)) "primary" "/contract-services"
          (field "status" (str "proposed") end) "校验通过后再发布"
      ∷ card "候选决策队列" (prop "queued" (decision s)) "primary" "/records"
          (field "kind" (str "jobs")
            (field "status" (str "pending") (field "job_type" (str "decide_candidate") end)))
          "等待模型建议与服务器策略门"
      ∷ card "模型失败" (prop "model_failures" (decision s)) "danger" "/records"
          (field "kind" (str "audit-events") (field "type" (str "candidate_model_failed") end))
          "失败会退避，耗尽后进入人工队列"
      ∷ card "人工决策队列" (prop "human_review_queue" (decision s)) "warning" "/records"
          (kind_query "candidates" "needs_review") "人工只能纠错或创建替代版本"
      ∷ card "卡死任务" (prop "stuck_jobs" (decision s)) "danger" "/records"
          (kind_query "jobs" "running") "租约或心跳超过阈值的任务"
      ∷ []
