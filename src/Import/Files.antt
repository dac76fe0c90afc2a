-- ===== src/Import/Files.antt =====
-- apps/admin-web/src/views/ImportView.vue: the files that can be imported, their sizes as they are
-- shown, the labels, and what is read of a file.
use codex_memory.Prelude.{
  ℕ, not, ◌+◌, ◌*◌, ◌/◌, ◌%◌, ◌==◌, Bool, String, ◌<>◌, Option, List, [], ◌∷◌, if◌then◌else◌, ltb,
  nat_eq,
}
use codex_memory.Prelude.Text.{decimal}
use codex_memory.Prelude.{text_member}
use codex_memory.Js.{Runtime, lower}
use Prim.Native.Char.{code}

abbrev pub chunk_chars : ℕ
chunk_chars = 1048576

abbrev pub max_file_bytes : ℕ
max_file_bytes = 134217728

abbrev pub max_files : ℕ
max_files = 100

abbrev pub binary_extensions : List String
binary_extensions = "pdf" ∷ "docx" ∷ "zip" ∷ []

abbrev pub accepted_extensions : List String
accepted_extensions =
    "md" ∷ "markdown" ∷ "txt" ∷ "json" ∷ "jsonl" ∷ "sql" ∷ "pdf" ∷ "docx" ∷ "zip" ∷ "py" ∷ "js"
    ∷ "ts" ∷ "tsx" ∷ "jsx" ∷ "java" ∷ "go" ∷ "rs" ∷ "yaml" ∷ "yml" ∷ "toml" ∷ "sh" ∷ "ps1" ∷ []

abbrev pub active_batch_statuses : List String
active_batch_statuses =
    "pending" ∷ "queued" ∷ "uploading" ∷ "running" ∷ "processing" ∷ "awaiting_review" ∷ []

-- A `File` of the browser: its size in bytes, its last change in milliseconds, and what reading it
-- gives, `none` where that fails.
pub record File : Type 0 where
  pub name : String
  pub size : ℕ
  pub last_modified : ℕ
  pub bytes : Option (List ℕ)

-- `text.split('.').pop()`
last_piece : String → String → String
last_piece piece String.[] = piece
last_piece piece (String.◌∷◌ c s) =
    last_piece (if nat_eq (code c) b'.' then "" else piece <> String.◌∷◌ c "") s

module _ ⦃rt : Runtime⦄ where
  unfoldable pub file_extension : String → String
  unfolding last_piece lower
  file_extension name = last_piece "" (lower name)

  -- Why a file is refused, or the empty text.
  unfoldable pub validate_file : File → String
  unfolding file_extension
  validate_file file =
      if file.name == ""
      then "无法读取文件名"
      else if not (text_member (file_extension file.name) accepted_extensions)
      then "不支持此文件格式"
      else if nat_eq file.size 0
      then "文件内容为空"
      else if ltb max_file_bytes file.size
      then "单个文件不能超过 128 MiB"
      else ""

  unfoldable pub is_binary_import : File → Bool
  unfolding file_extension
  is_binary_import file = text_member (file_extension file.name) binary_extensions

-- `(n / d).toFixed(1)` for a power of two `d`.
abbrev pub fixed_1 : ℕ → ℕ → String
fixed_1 n d =
    let tenths = (20 * n + d) / (2 * d) in decimal (tenths / 10) <> ("." <> decimal (tenths % 10))

unfoldable pub format_bytes : ℕ → String
unfolding decimal
format_bytes bytes =
    if ltb bytes 1024
    then decimal bytes <> " B"
    else if ltb bytes 1048576
    then fixed_1 bytes 1024 <> " KiB"
    else fixed_1 bytes 1048576 <> " MiB"

abbrev pub import_status_labels : List (String × String)
import_status_labels =
    ("active", "活跃批次")
    ∷ ("pending", "待处理")
    ∷ ("queued", "已排队")
    ∷ ("uploading", "上传中")
    ∷ ("uploaded", "已上传")
    ∷ ("running", "运行中")
    ∷ ("processing", "处理中")
    ∷ ("awaiting_review", "待审核")
    ∷ ("completed", "已完成")
    ∷ ("failed", "失败")
    ∷ ("cancelled", "已取消")
    ∷ ("published", "已发布")
    ∷ ("pending_review", "待审核")
    ∷ ("rejected", "已拒绝")
    ∷ ("rolled_back", "已回滚")
    ∷ []

-- `({ … })[key] || key || fallback` for a text that no prototype has as a key.
unfoldable pub label_or : List (String × String) → String → String → String
label_or [] key fallback = if key == "" then fallback else key
label_or ((k, label) ∷ labels) key fallback =
    if k == key then label else label_or labels key fallback

-- A status that is missing is the empty text.
unfoldable pub import_status_label : String → String
unfolding label_or
import_status_label status = label_or import_status_labels status "未知"

-- A severity that is missing is the empty text.
unfoldable pub severity_label : String → String
severity_label severity =
    if severity == "error"
    then "错误"
    else if severity == "warning"
    then "告警"
    else if severity == ""
    then "告警"
    else severity
