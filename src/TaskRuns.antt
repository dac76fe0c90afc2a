-- ===== src/TaskRuns.antt =====
-- apps/admin-web/src/taskRuns.js: the list of task runs, its parameters and what is read from replies.
pub mod Params
mod Tests
use codex_memory.Prelude.{
  ◌==◌, Bool, true, false, not, ◌&&◌, ◌||◌, String, ◌<>◌, List, [], ◌∷◌, if◌then◌else◌,
}
use codex_memory.Prelude.Text.{trim}
use codex_memory.Prelude.Uri.{encode_uri_component}
use codex_memory.Js.{
  Runtime, Value, undefined, null, bool, num, str, arr, obj, Items, nil, Fields, end, field, get,
  set, spread, prop, is_nullish, truthy, ◌or◌, ◌otherwise◌, to_text, to_number, copied,
}
use codex_memory.Api.{Request, admin_get}

abbrev pub task_run_status_labels : List (String × String)
task_run_status_labels =
    ("pending", "待开始")
    ∷ ("running", "运行中")
    ∷ ("completed", "已完成")
    ∷ ("failed", "失败")
    ∷ ("stopped", "已停止")
    ∷ ("open", "进行中")
    ∷ ("closed", "已关闭")
    ∷ []

-- The items of a value that is an array, `[]` of any other.
abbrev pub array_or_empty : {N : Type 0} → Value N → Value N
array_or_empty (arr xs) = arr xs
array_or_empty _ = arr nil

-- `payload?.data ?? {}`
abbrev pub unwrap_data : {N : Type 0} → Value N → Value N
unwrap_data payload = prop "data" payload otherwise obj end

module _ ⦃rt : Runtime⦄ where
  open rt use {Number, number_of}

  -- `value !== undefined && value !== null && String(value).trim() !== ''`
  unfoldable pub is_given : Value Number → Bool
  unfolding trim to_text
  is_given value = not (is_nullish value) && not (trim (to_text value) == "")

  unfoldable pub compact_params : Fields Number → Fields Number
  compact_params end = end
  compact_params (field k v more) =
      if is_given v then field k v (compact_params more) else compact_params more

  -- The object that `buildTaskRunListParams` compacts.
  abbrev pub list_params : Fields Number → Fields Number
  list_params filters = field "project_key" (get "projectKey" filters) (
      field "status" (get "status" filters) (
        field "uncertain" (get "uncertain" filters) (
          field "keyword" (get "keyword" filters) (
            field "started_from" (get "startedFrom" filters) (
              field "started_to" (get "startedTo" filters) (
                field "sort" (get "sort" filters) (
                  field "order" (get "order" filters) (
                    field "page" (get "page" filters or num (number_of "1")) (
                      field "page_size" (get "pageSize" filters or num (number_of "20"))
                        end)))))))))

  unfoldable pub build_task_run_list_params : Fields Number → Fields Number
  build_task_run_list_params filters = compact_params (list_params filters)

  unfoldable pub list_task_runs : String → Fields Number → Request Number
  list_task_runs token params = admin_get token "/task-runs" params

  unfoldable pub get_task_run : String → Value Number → Request Number
  get_task_run token id = admin_get token ("/task-runs/" <> encode_uri_component (to_text id)) end

  unfoldable pub get_task_run_report : String → Value Number → Value Number → Request Number
  get_task_run_report token id revision =
      admin_get token
        ("/task-runs/"
          <> (encode_uri_component (to_text id)
              <> ("/reports/" <> encode_uri_component (to_text revision))))
        end

  unfoldable pub extract_task_runs : Value Number → Value Number
  extract_task_runs payload = array_or_empty (unwrap_data payload)

  pub record Pagination : Type 0 where
    pub page : Number
    pub page_size : Number
    pub total : Number
    pub has_next : Bool

  unfoldable pub extract_pagination : Value Number → Value Number → Value Number → Pagination
  extract_pagination payload page page_size =
      let meta = prop "meta" payload or obj end in
      record {
        page = to_number (prop "page" meta otherwise page);
        page_size = to_number (prop "page_size" meta otherwise page_size);
        total = to_number (prop "total" meta otherwise num (number_of "0"));
        has_next = truthy (prop "has_next" meta);
      }

  unfoldable pub extract_task_run : Value Number → Fields Number
  unfolding copied
  extract_task_run payload =
      let body = unwrap_data payload in
      set "reports" (array_or_empty (prop "reports" body)) (
        set "events" (array_or_empty (prop "events" body))
          (set "git_baseline" (prop "git_baseline" body or obj end) (copied body)))

  unfoldable pub task_run_project_label : Fields Number → Value Number
  unfolding to_text
  task_run_project_label task_run =
      get "project_key" task_run
      or (if not (is_nullish (get "project_id" task_run))
          then str ("项目 #" <> to_text (get "project_id" task_run))
          else str "未标记项目")

  unfoldable pub task_run_prompt : Fields Number → String
  unfolding trim to_text
  task_run_prompt task_run =
      trim (to_text ((get "prompt_excerpt" task_run or get "prompt_summary" task_run) or str ""))
