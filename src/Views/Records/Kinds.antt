-- ===== src/Views/Records/Kinds.antt =====
-- apps/admin-web/src/views/RecordsView.vue: the definitions of the kinds of records.
use codex_memory.Prelude.{ℕ, ◌==◌, String, Option, none, some, List, [], ◌∷◌, if◌then◌else◌}

pub data Width : Type 0 where
  fixed at_least : ℕ → Width

-- A column: key, label, width, the length that texts are cut at, type and alignment, empty where the
-- source has none.
pub data Column : Type 0 where
  column : String → String → Width → Option ℕ → String → String → Column

pub record Kind : Type 0 where
  pub label : String
  pub hint : String
  pub type_label : String
  pub secondary_type_label : String
  pub columns : List Column

abbrev pub raw_records : Kind
raw_records = record {
  label = "原始记录";
  hint = "L0";
  type_label = "";
  secondary_type_label = "";
  columns =
      column "id" "ID" (fixed 84) (none) "mono" ""
      ∷ column "event_key" "事件键" (at_least 220) (some 28) "mono" ""
      ∷ column "role" "角色" (fixed 100) (none) "" ""
      ∷ column "content" "内容" (at_least 360) (none) "" ""
      ∷ column "source" "来源" (fixed 120) (none) "" ""
      ∷ column "created_at" "创建时间" (fixed 176) (none) "date" ""
      ∷ [];
}

abbrev pub candidates : Kind
candidates = record {
  label = "候选记忆";
  hint = "候选";
  type_label = "记忆类型";
  secondary_type_label = "";
  columns =
      column "id" "ID" (fixed 84) (none) "mono" ""
      ∷ column "title" "标题" (at_least 220) (none) "" ""
      ∷ column "level" "层级" (fixed 86) (none) "" ""
      ∷ column "memory_type" "记忆类型" (fixed 150) (none) "" ""
      ∷ column "model_confidence" "模型置信度" (fixed 112) (none) "" ""
      ∷ column "status" "状态" (fixed 112) (none) "status" ""
      ∷ column "created_at" "创建时间" (fixed 176) (none) "date" ""
      ∷ [];
}

abbrev pub memories : Kind
memories = record {
  label = "正式记忆";
  hint = "正式";
  type_label = "记忆类型";
  secondary_type_label = "";
  columns =
      column "id" "ID" (fixed 84) (none) "mono" ""
      ∷ column "title" "标题" (at_least 240) (none) "" ""
      ∷ column "level" "层级" (fixed 86) (none) "" ""
      ∷ column "memory_type" "记忆类型" (fixed 150) (none) "" ""
      ∷ column "confidence" "置信度" (fixed 100) (none) "" ""
      ∷ column "status" "状态" (fixed 112) (none) "status" ""
      ∷ column "created_at" "创建时间" (fixed 176) (none) "date" ""
      ∷ [];
}

abbrev pub jobs : Kind
jobs = record {
  label = "处理任务";
  hint = "Worker";
  type_label = "任务类型";
  secondary_type_label = "";
  columns =
      column "id" "ID" (fixed 84) (none) "mono" ""
      ∷ column "job_type" "任务类型" (at_least 165) (none) "" ""
      ∷ column "job_key" "任务键" (at_least 240) (some 32) "mono" ""
      ∷ column "status" "状态" (fixed 112) (none) "status" ""
      ∷ column "attempt_count" "尝试次数" (fixed 100) (none) "" "center"
      ∷ column "last_error_code" "最近错误" (fixed 150) (none) "" ""
      ∷ column "created_at" "创建时间" (fixed 176) (none) "date" ""
      ∷ [];
}

abbrev pub outbox_events : Kind
outbox_events = record {
  label = "Outbox 事件";
  hint = "Outbox";
  type_label = "事件类型";
  secondary_type_label = "";
  columns =
      column "id" "ID" (fixed 84) (none) "mono" ""
      ∷ column "event_type" "事件类型" (at_least 220) (none) "" ""
      ∷ column "status" "状态" (fixed 112) (none) "status" ""
      ∷ column "attempt_count" "尝试次数" (fixed 100) (none) "" "center"
      ∷ column "created_at" "创建时间" (fixed 176) (none) "date" ""
      ∷ [];
}

abbrev pub retrieval_audits : Kind
retrieval_audits = record {
  label = "检索审计";
  hint = "Retrieval";
  type_label = "";
  secondary_type_label = "";
  columns =
      column "id" "ID" (fixed 84) (none) "mono" ""
      ∷ column "retrieval_mode" "检索模式" (fixed 150) (none) "" ""
      ∷ column "degraded" "已降级" (fixed 100) (none) "" ""
      ∷ column "degraded_reason" "降级原因" (at_least 240) (none) "" ""
      ∷ column "latency_ms" "延迟（毫秒）" (fixed 120) (none) "" "right"
      ∷ column "created_at" "创建时间" (fixed 176) (none) "date" ""
      ∷ [];
}

abbrev pub audit_events : Kind
audit_events = record {
  label = "审计事件";
  hint = "Audit";
  type_label = "事件类型";
  secondary_type_label = "主体类型";
  columns =
      column "id" "ID" (fixed 84) (none) "mono" ""
      ∷ column "event_type" "事件类型" (at_least 190) (none) "" ""
      ∷ column "subject_type" "主体类型" (fixed 150) (none) "" ""
      ∷ column "subject_id" "主体 ID" (at_least 190) (some 24) "mono" ""
      ∷ column "created_at" "创建时间" (fixed 176) (none) "date" ""
      ∷ [];
}

abbrev pub definitions : List (String × Kind)
definitions =
    ("raw-records", raw_records)
    ∷ ("candidates", candidates)
    ∷ ("memories", memories)
    ∷ ("jobs", jobs)
    ∷ ("outbox-events", outbox_events)
    ∷ ("retrieval-audits", retrieval_audits)
    ∷ ("audit-events", audit_events)
    ∷ []

-- `definitions[kind] || definitions.candidates` for a text that no prototype has as a key.
find_kind : List (String × Kind) → String → Kind
find_kind [] kind = candidates
find_kind ((k, found) ∷ more) kind = if k == kind then found else find_kind more kind

unfoldable pub definition : String → Kind
unfolding find_kind
definition kind = find_kind definitions kind
