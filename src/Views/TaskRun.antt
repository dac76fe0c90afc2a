-- ===== src/Views/TaskRun.antt =====
-- apps/admin-web/src/views/TaskRunDetailView.vue: a task run, the report that is selected, and the
-- query that holds the tab and the revision. Navigation by the router takes effect at once.
use Prim.Native.Char.{Char, code}
use codex_memory.Prelude.{
  ◌==◌, ◌&&◌, ◌||◌, Bool, true, false, String, ◌<>◌, Option, none, some, List, [], ◌∷◌,
  if◌then◌else◌, leb, nat_eq, text_member, Result, ok, throw,
}
use codex_memory.Prelude.Text.{trim}
use codex_memory.Js.{
  Runtime, Value, undefined, null, bool, str, arr, obj, Items, nil, cons, Fields, end, field, get,
  set, prop, lower, is_nullish, is_text, truthy, ◌or◌, to_text,
}
use codex_memory.Api.{Request}
use codex_memory.Pages.{Cause, without, text_or}
use codex_memory.TaskRuns.{unwrap_data, extract_task_run, get_task_run, get_task_run_report}

pub record TaskRunPage (N : Type 0) : Type 0 where
  pub task_run : Value N
  pub report : Value N
  pub revision : String
  pub active_tab : String
  pub loading : Bool
  pub report_loading : Bool
  pub error : Option Cause
  pub query : Fields N

abbrev pub tabs : List String
tabs = "overview" ∷ "report" ∷ "files" ∷ "git" ∷ "events" ∷ []

abbrev pub change_type_labels : List (String × String)
change_type_labels =
    ("added", "新增")
    ∷ ("modified", "修改")
    ∷ ("deleted", "删除")
    ∷ ("renamed", "重命名")
    ∷ ("untracked", "未跟踪")
    ∷ []

abbrev pub event_type_labels : List (String × String)
event_type_labels =
    ("user_prompt_submit", "用户提交任务")
    ∷ ("pre_tool_use", "工具执行前")
    ∷ ("post_tool_use", "工具执行后")
    ∷ ("stop", "任务停止")
    ∷ ("session_end", "会话结束")
    ∷ []

-- `({ … })[key] || …` for a text that no prototype has as a key.
abbrev pub labelled : List (String × String) → String → String → String
labelled [] key fallback = fallback
labelled ((k, label) ∷ labels) key fallback =
    if k == key then label else labelled labels key fallback

abbrev pub named_or : String → String → String
named_or name fallback = if name == "" then fallback else name

-- A kind, a type or a value that is missing is the empty text.
unfoldable pub report_kind_label : String → String
report_kind_label kind =
    if kind == "checkpoint"
    then "检查点报告"
    else if kind == "final"
    then "最终报告"
    else named_or kind "未知类型"

unfoldable pub change_type_label : String → String
change_type_label type' = labelled change_type_labels type' (named_or type' "未知")

unfoldable pub change_type_tag : String → String
change_type_tag type' =
    if type' == "added" || type' == "untracked"
    then "success"
    else if type' == "deleted"
    then "danger"
    else if type' == "modified" || type' == "renamed"
    then "warning"
    else "info"

abbrev is_small : Char → Bool
is_small c = leb b'a' (code c) && leb (code c) b'z'

abbrev is_capital : Char → Bool
is_capital c = leb b'A' (code c) && leb (code c) b'Z'

-- `text.replace(/([a-z])([A-Z])/g, '$1_$2').replaceAll('.', '_')`, with whether the character before
-- is a small letter. No match uses a letter of another one, since a letter is small or capital.
unfoldable pub underscored : Bool → String → String
underscored after_small String.[] = ""
underscored after_small (String.◌∷◌ c s) =
    (if after_small && is_capital c then "_" else "")
    <> ((if nat_eq (code c) b'.' then "_" else String.◌∷◌ c "") <> underscored (is_small c) s)

module _ ⦃rt : Runtime⦄ where
  open rt use {Number}

  unfoldable pub event_type_label : String → String
  unfolding underscored lower
  event_type_label type' =
      labelled event_type_labels (lower (underscored false type')) (named_or type' "未知事件")

  abbrev is_blank : Value Number → Bool
  is_blank v = is_nullish v || is_text "" v

  unfoldable pub display_value : Value Number → String
  unfolding to_text
  display_value (bool b) = if b then "是" else "否"
  display_value v = if is_blank v then "-" else to_text v

  -- `JSON.stringify(value, null, 2)` is an argument.
  unfoldable pub display_json : (Value Number → String) → Value Number → String
  display_json stringify (str s) = if s == "" then "-" else s
  display_json stringify v = if is_nullish v then "-" else stringify v

  unfoldable pub report_body : (Value Number → String) → Value Number → String
  report_body stringify report = elim (prop "body" report) [
    | str s ↦ if s == "" then "暂无报告正文" else s
    | v ↦ if is_nullish v then "暂无报告正文" else stringify v
  ]

  tab_or : String → String → String
  tab_or tab fallback = if text_member tab tabs then tab else fallback

  unfoldable pub opened : Fields Number → TaskRunPage Number
  unfolding text_or to_text tab_or
  opened query = record {
    task_run = null;
    report = null;
    revision = text_or (get "revision" query) "";
    active_tab = tab_or (to_text (get "tab" query)) "overview";
    loading = false;
    report_loading = false;
    error = none;
    query = query;
  }

  unfoldable pub sync_detail_query : TaskRunPage Number → TaskRunPage Number
  unfolding set without
  sync_detail_query s =
      let query = set "tab" (str s.active_tab) s.query in
      record s {
        query =
            if s.revision == ""
            then without "revision" query
            else set "revision" (str s.revision) query;
      }

  unfoldable pub selected_revision : Value Number → String
  unfolding trim to_text
  selected_revision next = trim (to_text (next or str ""))

  -- `loadReport(nextRevision)` up to its await.
  unfoldable pub begin_report : Value Number → TaskRunPage Number → TaskRunPage Number
  unfolding selected_revision
  begin_report next s =
      if selected_revision next == ""
      then record s { report = null }
      else record s { revision = selected_revision next; report_loading = true; error = none }

  unfoldable pub report_request : String → Value Number → Value Number → Option (Request Number)
  unfolding selected_revision get_task_run_report
  report_request token id next =
      if selected_revision next == ""
      then none
      else some (get_task_run_report token id (str (selected_revision next)))

  -- The rest of `loadReport`, when its request has been answered; `update_url` is its argument.
  unfoldable pub finish_report :
      Bool → Result Cause (Value Number) → TaskRunPage Number → TaskRunPage Number
  unfolding sync_detail_query
  finish_report update_url (ok payload) s =
      let shown : TaskRunPage Number = record s {
        report = unwrap_data payload;
        report_loading = false;
      } in
      if update_url then sync_detail_query shown else shown
  finish_report update_url (throw cause) s = record s {
    report = null;
    error = some cause;
    report_loading = false;
  }

  last_item : Items Number → Value Number
  last_item nil = undefined
  last_item (cons v nil) = v
  last_item (cons v (cons w xs)) = last_item (cons w xs)

  -- `reports.value.at(-1)?.revision` of a list of reports.
  last_revision : Value Number → Value Number
  unfolding last_item
  last_revision (arr xs) = prop "revision" (last_item xs)
  last_revision v = undefined

  unfoldable pub preferred_revision : TaskRunPage Number → String
  unfolding last_revision to_text
  preferred_revision s =
      if s.revision == ""
      then to_text (
          (prop "current_report_revision" s.task_run or last_revision (prop "reports" s.task_run))
          or str "")
      else s.revision

  -- `load()` up to its await.
  unfoldable pub begin_load : TaskRunPage Number → TaskRunPage Number
  begin_load s = record s { loading = true; error = none }

  unfoldable pub load_request : String → Value Number → Request Number
  unfolding get_task_run
  load_request token id = get_task_run token id

  -- The reply to `load`: the task run is shown and its report begins to load, or the load ends.
  unfoldable pub load_answered :
      Result Cause (Value Number) → TaskRunPage Number → TaskRunPage Number
  unfolding extract_task_run begin_report preferred_revision
  load_answered (ok payload) s =
      let shown : TaskRunPage Number = record s { task_run = obj (extract_task_run payload) } in
      begin_report (str (preferred_revision shown)) shown
  load_answered (throw cause) s = record s {
    task_run = null;
    report = null;
    error = some cause;
    loading = false;
  }

  -- The end of `load`, when its report has been answered or there is none to load.
  unfoldable pub load_ended : TaskRunPage Number → TaskRunPage Number
  unfolding sync_detail_query
  load_ended s = sync_detail_query (record s { loading = false })

  -- The query that `backToList` navigates with.
  unfoldable pub back_query : TaskRunPage Number → Fields Number
  back_query s =
      if truthy (prop "project_key" s.task_run)
      then field "project_key" (prop "project_key" s.task_run) end
      else end

  -- The watchers of the tab and of the revision in the query; the second begins to load a report.
  unfoldable pub tab_changed : Value Number → TaskRunPage Number → TaskRunPage Number
  unfolding text_or tab_or
  tab_changed value s = record s { active_tab = tab_or (text_or value "overview") s.active_tab }

  unfoldable pub revision_changed : Value Number → TaskRunPage Number → TaskRunPage Number
  unfolding text_or begin_report
  revision_changed value s =
      let next = text_or value "" in
      if next == "" || next == s.revision then s else begin_report (str next) s

  -- The watcher of the id of the route.
  unfoldable pub id_changed : TaskRunPage Number → TaskRunPage Number
  unfolding text_or begin_load
  id_changed s = begin_load (record s { revision = text_or (get "revision" s.query) "" })
