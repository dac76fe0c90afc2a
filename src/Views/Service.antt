-- ===== src/Views/Service.antt =====
-- apps/admin-web/src/views/ContractServiceDetailView.vue: a contract service, and the upload of a
-- revision.
use codex_memory.Prelude.{
  ℕ, ◌==◌, ◌&&◌, not, Bool, true, false, String, Option, none, some, List, [], ◌∷◌, if◌then◌else◌,
  ltb, nat_eq, text_member, Result, ok, throw,
}
use codex_memory.Js.{
  Runtime, Value, null, str, obj, Fields, set, prop, truthy, is_nullish, ◌or◌, ◌otherwise◌, arr,
  nil,
}
use codex_memory.Api.{Request}
use codex_memory.Contracts.{unwrap_data, extract_contract_service, upload_contract_revision}
use codex_memory.Pages.{Cause, text_or, of_fault}
use codex_memory.Import.Files.{File, file_extension}

pub record ServicePage (N : Type 0) : Type 0 where
  pub service : Value N
  pub active_tab : String
  pub loading : Bool
  pub uploading : Bool
  pub upload_percent : ℕ
  pub error : Option Cause
  pub file_error : String
  pub selected_file : Option File
  pub upload_result : Value N
  pub upload_reused : Bool
  pub query : Fields N

abbrev pub tabs : List String
tabs = "overview" ∷ "revisions" ∷ "upload" ∷ []

abbrev pub max_revision_bytes : ℕ
max_revision_bytes = 2097152

abbrev pub is_filled : Option File → Bool
is_filled none = false
is_filled (some file) = true

-- What the browser does: decoding UTF-8, and whether a text is JSON.
pub record Reader : Type 0 where
  pub decode : List ℕ → Option String
  pub is_json : String → Bool

module _ ⦃rt : Runtime⦄ where
  open rt use {Number}

  unfoldable pub revision_number : Value Number → Value Number
  revision_number row = prop "revision_number" row otherwise prop "revision" row

  -- The revision that `openRevision` navigates to.
  unfoldable pub revision_of : Value Number → Option (Value Number)
  unfolding revision_number
  revision_of row = if is_nullish (revision_number row) then none else some (revision_number row)

  unfoldable pub revisions : ServicePage Number → Value Number
  revisions s = prop "revisions" s.service or (prop "revision_summaries" s.service or arr nil)

  text_error : Reader → Bool → Option String → String
  text_error reader is_json none = "文件必须使用 UTF-8 编码"
  text_error reader is_json (some text) =
      if is_json && not (reader.is_json text) then "JSON 语法无效，请修正后重试" else ""

  content_error : Reader → Bool → Option (List ℕ) → String
  unfolding text_error
  content_error reader is_json none = "文件必须使用 UTF-8 编码"
  content_error reader is_json (some bytes) = text_error reader is_json (reader.decode bytes)

  -- What `validateSelectedFile` ends with: why a file is refused, or the empty text. It reads the file and
  -- nothing of the page, so that when it ends is left to those who wait for it.
  unfoldable pub validate_selected_file : Reader → File → String
  unfolding file_extension content_error
  validate_selected_file reader file =
      let extension = file_extension file.name in
      if not (text_member extension ("json" ∷ "yaml" ∷ "yml" ∷ []))
      then "仅支持 JSON 或 YAML 文件"
      else if nat_eq file.size 0
      then "文件内容为空"
      else if ltb max_revision_bytes file.size
      then "文件大小不能超过 2 MiB"
      else content_error reader (extension == "json") file.bytes

  abbrev pub cleared : ServicePage Number → ServicePage Number
  cleared s = record s {
    selected_file = none;
    upload_result = null;
    upload_reused = false;
    file_error = "";
    upload_percent = 0;
  }

  -- `selectFile` up to its await, and the file whose check it then waits for.
  unfoldable pub select_file : Option File → ServicePage Number → ServicePage Number × Option File
  select_file file s = (cleared s, file)

  -- The rest of `selectFile`, when the check of its file has ended.
  unfoldable pub file_checked : Reader → File → ServicePage Number → ServicePage Number
  unfolding validate_selected_file
  file_checked reader file s =
      let refused = validate_selected_file reader file in
      record s {
        file_error = refused;
        selected_file = if refused == "" then some file else s.selected_file;
      }

  unfoldable pub clear_file : ServicePage Number → ServicePage Number
  clear_file s = if s.uploading then s else cleared s

  -- `upload()` up to its await: the percentage is 18 and at once 42.
  unfoldable pub upload : ServicePage Number → ServicePage Number
  upload s =
      if not (is_filled s.selected_file)
      then record s { file_error = "请先选择有效的 JSON 或 YAML 文件" }
      else if s.uploading
      then s
      else record s { uploading = true; upload_percent = 42; error = none; file_error = "" }

  -- A file is known to the request by its name.
  unfoldable pub upload_request :
      String → Value Number → ServicePage Number → Option (Request Number)
  unfolding upload_contract_revision
  upload_request token service_id s = elim s.selected_file [
    | none ↦ none
    | some file ↦
        if s.uploading then none else some (upload_contract_revision token service_id file.name)
  ]

  unfoldable pub begin_load : ServicePage Number → ServicePage Number
  begin_load s = record s { loading = true; error = none }

  -- The rest of `load`, when its request has been answered.
  unfoldable pub finish_load : Result Cause (Value Number) → ServicePage Number → ServicePage Number
  unfolding extract_contract_service of_fault
  finish_load (throw cause) s = record s { service = null; error = some cause; loading = false }
  finish_load (ok payload) s = elim (extract_contract_service payload) [
    | ok service ↦ record s { service = obj service; loading = false }
    | throw fault ↦ record s { service = null; error = some (of_fault fault); loading = false }
  ]

  -- The reply to `upload`: the result is shown and the service begins to load, or the error is shown.
  unfoldable pub upload_answered :
      Result Cause (Value Number) → ServicePage Number → ServicePage Number
  unfolding begin_load
  upload_answered (ok result) s = begin_load (record s {
    upload_percent = 100;
    upload_result = unwrap_data result;
    upload_reused = truthy (prop "reused" (prop "meta" result));
    selected_file = none;
  })
  upload_answered (throw cause) s = record s { upload_percent = 0; error = some cause }

  -- The `finally` of `upload`.
  unfoldable pub upload_ended : ServicePage Number → ServicePage Number
  upload_ended s = record s { uploading = false }

  unfoldable pub sync_tab : ServicePage Number → ServicePage Number
  unfolding set
  sync_tab s = record s { query = set "tab" (str s.active_tab) s.query }

  -- The watcher of the tab in the query.
  unfoldable pub tab_changed : Value Number → ServicePage Number → ServicePage Number
  unfolding text_or
  tab_changed value s =
      let next = text_or value "overview" in
      record s { active_tab = if text_member next tabs then next else s.active_tab }
