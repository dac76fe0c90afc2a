-- ===== src/Views/Status/Checks.antt =====
-- The cards of apps/admin-web/src/views/SystemStatusView.vue.
use codex_memory.Prelude.{String, ◌<>◌, List, [], ◌∷◌, if◌then◌else◌, Result, ok, ◌>>=◌}
use codex_memory.Js.{
  Runtime, Value, num, str, obj, Fields, end, field, prop, truthy, is_text, ◌or◌, ◌otherwise◌,
  to_text, to_number,
}
use codex_memory.Contracts.{Fault}
use codex_memory.Format.Readable.{Display, readable_text}
use codex_memory.Pages.{literal}
use codex_memory.Views.Status.{StatusPage, is_some, decision_query}

-- A card; one without a page has the empty text there.
pub record Check (N : Type 0) : Type 0 where
  pub label : String
  pub status : Value N
  pub value : String
  pub note : Value N
  pub to : String
  pub query : Fields N

module _ ⦃rt : Runtime⦄ where
  open rt use {Number}

  -- `Number(value || 0) ? busy : 'ok'`
  abbrev count_status : Value Number → String → Value Number
  count_status value busy =
      str (if truthy (num (to_number (value or literal "0"))) then busy else "ok")

  abbrev decision : StatusPage Number → Value Number
  decision s = prop "decision" s.body or obj end

  abbrev queue : String → Value Number → String → String → String → Fields Number → Check Number
  queue label value busy unit note query = record {
    label = label;
    status = count_status value busy;
    value = to_text (value otherwise literal "0") <> unit;
    note = str note;
    to = "/records";
    query = query;
  }

  abbrev kind_query : String → String → Fields Number
  kind_query kind status = field "kind" (str kind) (field "status" (str status) end)

  abbrev system_checks : String → StatusPage Number → List (Check Number)
  system_checks dialect s =
      record {
        label = "管理 API";
        status = str (if is_some s.error then "error" else "ok");
        value = if is_some s.error then "请求失败" else "响应正常";
        note = str "当前浏览器已成功访问正式 Admin API";
        to = "";
        query = end;
      }
      ∷ record {
        label = "数据库";
        status = prop "database" s.body or str "unknown";
        value = if is_text "ok" (prop "database" s.body) then "连接正常" else "连接异常";
        note = str ("数据库方言：" <> dialect);
        to = "";
        query = end;
      }
      ∷ record {
        label = "迁移";
        status = str (if is_text "ok" (prop "migration_schema" s.body) then "ok" else "pending");
        value = if is_text "ok" (prop "migration_schema" s.body) then "结构就绪" else "需要检查";
        note = prop "latest_migration" s.body or str "未获取到迁移版本";
        to = "";
        query = end;
      }
      ∷ queue "任务队列" (prop "pending_jobs" s.body) "pending" " 个待处理" "处理任务等待 Worker 消费"
          (kind_query "jobs" "pending")
      ∷ queue "Outbox" (prop "server_outbox" s.body) "pending" " 个待投递" "服务端事件等待可靠投递"
          (kind_query "outbox-events" "pending")
      ∷ queue "死信" (prop "dead_letters" s.body) "error" " 个" "无法继续投递的事件"
          (kind_query "outbox-events" "dead")
      ∷ queue "决策队列" (prop "queued" (decision s)) "pending" " 个" "候选等待决策 Worker 处理" decision_query
      ∷ queue "人工队列" (prop "human_review_queue" (decision s)) "pending" " 个" "低置信度或风险候选待人工处理"
          (kind_query "candidates" "needs_review")
      ∷ []

  unfoldable pub checks : Display Number → StatusPage Number → Result Fault (List (Check Number))
  unfolding readable_text to_text to_number
  checks display s = readable_text display (prop "dialect" s.body or str "未知") 0 >>= λ dialect.
      ok (system_checks dialect s)
