-- ===== src/Format/Tables.antt =====
-- apps/admin-web/src/utils/format.js: the tables of labels.
use codex_memory.Prelude.{String, List, [], ◌∷◌}

-- A label, and the type of its tag.
pub record Meta : Type 0 where
  pub label : String
  pub type : String

abbrev meta : String → String → Meta
meta label type = record { label = label; type = type }

unfoldable pub status_map : List (String × Meta)
status_map =
    ("active", meta "活跃" "success")
    ∷ ("healthy", meta "正常" "success")
    ∷ ("ok", meta "正常" "success")
    ∷ ("ready", meta "就绪" "success")
    ∷ ("queued", meta "排队中" "warning")
    ∷ ("completed", meta "已完成" "success")
    ∷ ("approved", meta "已批准" "success")
    ∷ ("published", meta "已发布" "success")
    ∷ ("passed", meta "已通过" "success")
    ∷ ("generated", meta "已生成" "success")
    ∷ ("running", meta "运行中" "primary")
    ∷ ("in_progress", meta "进行中" "primary")
    ∷ ("processing", meta "处理中" "primary")
    ∷ ("uploading", meta "上传中" "primary")
    ∷ ("proposed", meta "待发布" "warning")
    ∷ ("pending", meta "待处理" "warning")
    ∷ ("pending_review", meta "待审核" "warning")
    ∷ ("awaiting_review", meta "待审核" "warning")
    ∷ ("needs_review", meta "待人工处理" "warning")
    ∷ ("retry_wait", meta "等待重试" "warning")
    ∷ ("dispatched", meta "已投递" "info")
    ∷ ("uncertain", meta "不确定" "warning")
    ∷ ("degraded", meta "已降级" "warning")
    ∷ ("failed", meta "失败" "danger")
    ∷ ("error", meta "异常" "danger")
    ∷ ("dead", meta "死信" "danger")
    ∷ ("rejected", meta "已拒绝" "danger")
    ∷ ("cancelled", meta "已取消" "info")
    ∷ ("deprecated", meta "已废弃" "info")
    ∷ ("quarantined", meta "已隔离" "warning")
    ∷ ("parsed", meta "已解析" "success")
    ∷ ("duplicate", meta "重复" "info")
    ∷ ("inactive", meta "未启用" "info")
    ∷ ("empty", meta "暂无版本" "info")
    ∷ ("superseded", meta "已替代" "info")
    ∷ ("draft", meta "草稿" "info")
    ∷ ("finalized", meta "已封版" "success")
    ∷ ("restricted", meta "受限" "info")
    ∷ ("rolled_back", meta "已回滚" "info")
    ∷ ("unknown", meta "未知" "info")
    ∷ []

unfoldable pub field_labels : List (String × String)
field_labels =
    ("id", "ID")
    ∷ ("project_id", "项目 ID")
    ∷ ("project_key", "项目键")
    ∷ ("scope_id", "Scope ID")
    ∷ ("scope", "Scope")
    ∷ ("scope_key", "Scope 键")
    ∷ ("event_key", "事件键")
    ∷ ("event_type", "事件类型")
    ∷ ("role", "角色")
    ∷ ("source", "来源")
    ∷ ("source_name", "来源名称")
    ∷ ("source_type", "来源类型")
    ∷ ("content", "内容")
    ∷ ("title", "标题")
    ∷ ("name", "名称")
    ∷ ("heading", "标题")
    ∷ ("label", "标签")
    ∷ ("summary", "摘要")
    ∷ ("description", "说明")
    ∷ ("text", "文本")
    ∷ ("value", "值")
    ∷ ("level", "层级")
    ∷ ("memory_type", "记忆类型")
    ∷ ("status", "状态")
    ∷ ("review_status", "审核状态")
    ∷ ("decision_queue_status", "决策队列状态")
    ∷ ("confidence", "置信度")
    ∷ ("model_confidence", "模型置信度")
    ∷ ("model", "模型")
    ∷ ("abstain", "暂缓决策")
    ∷ ("published_memory_id", "已发布记忆 ID")
    ∷ ("metadata", "元数据")
    ∷ ("metadata_json", "元数据")
    ∷ ("evidence", "证据")
    ∷ ("evidence_json", "证据")
    ∷ ("payload", "载荷")
    ∷ ("data", "数据")
    ∷ ("code", "代码")
    ∷ ("error", "错误")
    ∷ ("error_code", "错误代码")
    ∷ ("request_id", "请求 ID")
    ∷ ("subject_type", "主体类型")
    ∷ ("subject_id", "主体 ID")
    ∷ ("content_hash", "内容哈希")
    ∷ ("created_at", "创建时间")
    ∷ ("updated_at", "更新时间")
    ∷ ("started_at", "开始时间")
    ∷ ("ended_at", "结束时间")
    ∷ ("database", "数据库")
    ∷ ("dialect", "数据库方言")
    ∷ ("migration_schema", "迁移状态")
    ∷ ("latest_migration", "最新迁移")
    ∷ ("pending_jobs", "待处理任务")
    ∷ ("server_outbox", "待投递 Outbox")
    ∷ ("dead_letters", "死信事件")
    ∷ ("degraded", "已降级")
    ∷ ("degraded_reason", "降级原因")
    ∷ ("latency_ms", "延迟（毫秒）")
    ∷ ("truncated", "已截断")
    ∷ ("redaction_applied", "已脱敏")
    ∷ []

unfoldable pub role_labels : List (String × String)
role_labels = ("user", "用户") ∷ ("assistant", "助手") ∷ ("system", "系统") ∷ ("tool", "工具") ∷ []

unfoldable pub memory_type_labels : List (String × String)
memory_type_labels =
    ("fact", "事实")
    ∷ ("preference", "偏好")
    ∷ ("rule", "规则")
    ∷ ("summary", "摘要")
    ∷ ("imported_reference", "导入参考")
    ∷ ("reference", "参考资料")
    ∷ []
