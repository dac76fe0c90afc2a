-- ===== src/Views/TaskRuns.antt =====
-- apps/admin-web/src/views/TaskRunsView.vue: the filters of the list of task runs, its query and its
-- loads, of which only the last is shown.
use codex_memory.Prelude.{
  ℕ, suc, Bool, true, false, String, ◌<>◌, Option, none, some, if◌then◌else◌, nat_eq, Result, ok,
  throw,
}
use codex_memory.Prelude.Text.{trim}
use codex_memory.Js.{
  Runtime, Value, bool, num, str, Items, nil, Fields, end, field, get, set, truthy, ◌or◌, to_number,
  prop,
}
use codex_memory.Api.{Request}
use codex_memory.Contracts.{array_items}
use codex_memory.Format.Dates.{local_date_time_to_iso}
use codex_memory.Pages.{Cause, text_or, positive, literal, split_pair, query_texts, same_params}
use codex_memory.TaskRuns.{
  build_task_run_list_params, list_task_runs, extract_task_runs, extract_pagination,
}

pub record TaskRunsPage (N : Type 0) : Type 0 where
  pub project_key : String
  pub status : String
  pub uncertain : String
  pub keyword : String
  pub started_from : String
  pub started_to : String
  pub sort_value : String
  pub rows : Items N
  pub loading : Bool
  pub error : Option Cause
  pub page : N
  pub page_size : N
  pub total : N
  pub load_sequence : ℕ
  pub query : Fields N

module _ ⦃rt : Runtime⦄ where
  open rt use {Number, number_of}

  abbrev query_sort : Fields Number → String
  query_sort query =
      text_or (get "sort" query) "created_at" <> (":" <> text_or (get "order" query) "desc")

  unfoldable pub opened : Fields Number → TaskRunsPage Number
  unfolding text_or positive
  opened query = record {
    project_key = text_or (get "project_key" query) "";
    status = text_or (get "status" query) "";
    uncertain = text_or (get "uncertain" query) "";
    keyword = text_or (get "keyword" query) "";
    started_from = text_or (get "started_from" query) "";
    started_to = text_or (get "started_to" query) "";
    sort_value = query_sort query;
    rows = nil;
    loading = false;
    error = none;
    page = positive (get "page" query) "1";
    page_size = positive (get "page_size" query) "20";
    total = number_of "0";
    load_sequence = 0;
    query = query;
  }

  abbrev filters :
      String → String → String → String → String → String → String → Number → Number → Fields Number
  filters project status uncertain keyword from to sort_value page page_size =
      let (sort, order) = split_pair sort_value in
      field "projectKey" (str project) (
        field "status" (str status) (
          field "uncertain" (str uncertain) (
            field "keyword" (str keyword) (
              field "startedFrom" (str from) (
                field "startedTo" (str to) (
                  field "sort" sort (
                    field "order" order
                      (field "page" (num page) (field "pageSize" (num page_size) end)))))))))

  unfoldable pub current_params : TaskRunsPage Number → Fields Number
  unfolding trim split_pair build_task_run_list_params
  current_params s = build_task_run_list_params (
      filters (trim s.project_key) s.status s.uncertain (trim s.keyword) s.started_from s.started_to
        s.sort_value s.page s.page_size)

  unfoldable pub route_params : Fields Number → Fields Number
  unfolding text_or positive split_pair build_task_run_list_params
  route_params query = build_task_run_list_params (
      filters (text_or (get "project_key" query) "") (text_or (get "status" query) "")
        (text_or (get "uncertain" query) "") (text_or (get "keyword" query) "")
        (text_or (get "started_from" query) "") (text_or (get "started_to" query) "")
        (query_sort query) (positive (get "page" query) "1")
        (positive (get "page_size" query) "20"))

  unfoldable pub apply_route_params : Fields Number → TaskRunsPage Number → TaskRunsPage Number
  unfolding text_or to_number
  apply_route_params params s = record s {
    project_key = text_or (get "project_key" params) "";
    status = text_or (get "status" params) "";
    uncertain = text_or (get "uncertain" params) "";
    keyword = text_or (get "keyword" params) "";
    started_from = text_or (get "started_from" params) "";
    started_to = text_or (get "started_to" params) "";
    sort_value =
        text_or (get "sort" params) "created_at" <> (":" <> text_or (get "order" params) "desc");
    page = to_number (get "page" params or literal "1");
    page_size = to_number (get "page_size" params or literal "20");
  }

  -- `load({ sync })` up to its await, with the query that `syncQuery` navigates to.
  unfoldable pub begin_load : Bool → TaskRunsPage Number → TaskRunsPage Number
  unfolding query_texts current_params
  begin_load sync s = record s {
    load_sequence = suc s.load_sequence;
    loading = true;
    error = none;
    query = if sync then query_texts (current_params s) else s.query;
  }

  unfoldable pub load_request :
      (Value Number → Option String) → String → TaskRunsPage Number → Request Number
  unfolding set current_params local_date_time_to_iso list_task_runs
  load_request iso token s =
      let params = current_params s in
      let dated =
        set "started_from" (str (local_date_time_to_iso iso (get "started_from" params))) params in
      list_task_runs token
        (set "started_to" (str (local_date_time_to_iso iso (get "started_to" params))) dated)

  unfoldable pub loaded : Result Cause (Value Number) → TaskRunsPage Number → TaskRunsPage Number
  unfolding extract_task_runs extract_pagination
  loaded (ok result) s = record s {
    rows = array_items (extract_task_runs result);
    total = (extract_pagination result (num s.page) (num s.page_size)).total;
    loading = false;
  }
  loaded (throw cause) s = record s {
    rows = nil;
    total = number_of "0";
    error = some cause;
    loading = false;
  }

  -- The rest of the load of this number.
  unfoldable pub finish_load :
      ℕ → Result Cause (Value Number) → TaskRunsPage Number → TaskRunsPage Number
  unfolding loaded
  finish_load sequence result s = if nat_eq sequence s.load_sequence then loaded result s else s

  -- The parameters of the route that `openDetail` navigates to, `none` where the row has no id.
  unfoldable pub detail_of : Value Number → Option (Value Number)
  detail_of row = if truthy (prop "id" row) then some (prop "id" row) else none

  unfoldable pub search : TaskRunsPage Number → TaskRunsPage Number
  unfolding begin_load
  search s = begin_load true (record s { page = number_of "1" })

  unfoldable pub reset : TaskRunsPage Number → TaskRunsPage Number
  unfolding begin_load
  reset s = begin_load true (record s {
    project_key = "";
    status = "";
    uncertain = "";
    keyword = "";
    started_from = "";
    started_to = "";
    sort_value = "created_at:desc";
    page = number_of "1";
  })

  unfoldable pub attribution_label : Fields Number → String
  attribution_label row = elim (get "uncertain" row) [
    | bool true ↦ "需要复核"
    | bool false ↦ "归因明确"
    | _ ↦ "暂无报告"
  ]

  unfoldable pub attribution_type : Fields Number → String
  attribution_type row = elim (get "uncertain" row) [
    | bool true ↦ "warning"
    | bool false ↦ "success"
    | _ ↦ "info"
  ]

  -- The callback of `watch(() => route.fullPath)`, for the query that the route has now.
  unfoldable pub route_changed : Fields Number → TaskRunsPage Number → TaskRunsPage Number
  unfolding same_params route_params current_params apply_route_params begin_load
  route_changed query s =
      let incoming = route_params query in
      if same_params incoming (current_params s)
      then s
      else begin_load false (apply_route_params incoming s)
