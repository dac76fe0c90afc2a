-- ===== src/Views/Records.antt =====
-- apps/admin-web/src/views/RecordsView.vue: the kinds of records, the parameters that each kind is
-- listed with, and the changes of the filters.
pub mod Kinds
use codex_memory.Prelude.{
  ◌==◌, ◌&&◌, not, Bool, true, false, String, ◌<>◌, Option, none, some, List, [], ◌∷◌,
  if◌then◌else◌, text_member, Result, ok, throw,
}
use codex_memory.Prelude.Text.{trim}
use codex_memory.Js.{
  Runtime, Value, undefined, null, bool, num, str, arr, obj, Items, nil, cons, Fields, end, field,
  get, set, spread, prop, truthy, ◌or◌, ◌otherwise◌, to_text, to_number, is_text,
}
use codex_memory.Api.{Request, admin_get}
use codex_memory.Contracts.{array_items}
use codex_memory.Format.Dates.{local_date_time_to_iso}
use codex_memory.Pages.{Cause, member, literal}
use codex_memory.RouteQuery.{parse, commit}

pub record ListMeta (N : Type 0) : Type 0 where
  pub page : Value N
  pub page_size : Value N
  pub total : N
  pub has_next : Bool

pub record RecordsPage (N : Type 0) : Type 0 where
  pub rows : Items N
  pub meta : ListMeta N
  pub loading : Bool
  pub error : Option Cause

module _ ⦃rt : Runtime⦄ where
  open rt use {Number, number_of}

  -- The defaults of the filters.
  abbrev pub default_filters : Fields Number
  default_filters = field "kind" (str "candidates") (
      field "project_key" (str "") (
        field "scope_id" (str "") (
          field "status" (str "") (
            field "level" (str "") (
              field "type" (str "") (
                field "secondary_type" (str "") (
                  field "role" (str "") (
                    field "degraded" (str "") (
                      field "retrieval_mode" (str "") (
                        field "keyword" (str "") (
                          field "created_from" (str "") (
                            field "created_to" (str "") (
                              field "sort" (str "created_at") (
                                field "order" (str "desc") (
                                  field "page" (literal "1") (
                                    field "page_size" (literal "20") (
                                      field "detail" (str "")
                                        (field "detail_tab" (str "overview") end))))))))))))))))))

  unfoldable pub filters_of : Fields Number → Fields Number
  unfolding parse
  filters_of query = parse query ("page" ∷ "page_size" ∷ []) default_filters

  -- `filters.kind === kind` for one of the kinds.
  abbrev pub is_kind : List String → Value Number → Bool
  is_kind kinds (str kind) = text_member kind kinds
  is_kind kinds v = false

  -- `if (test) { params[key] = value … }`
  abbrev add_if : Bool → Fields Number → Fields Number → Fields Number
  add_if test more params = if test then spread params more else params

  unfoldable pub build_params : (Value Number → Option String) → Fields Number → Fields Number
  unfolding local_date_time_to_iso spread
  build_params iso filters =
      let kind = get "kind" filters in
      let read : String → Value Number = λ key. get key filters in
      let dated : String → Value Number =
        λ key. str (local_date_time_to_iso iso (get key filters)) in
      let common = field "project_key" (read "project_key") (
        field "scope_id" (read "scope_id") (
          field "created_from" (dated "created_from") (
            field "created_to" (dated "created_to") (
              field "sort" (read "sort") (
                field "order" (read "order")
                  (field "page" (read "page") (field "page_size" (read "page_size") end))))))) in
      let with_status =
        add_if (is_kind ("candidates" ∷ "memories" ∷ "jobs" ∷ "outbox-events" ∷ []) kind)
          (field "status" (read "status") end) common in
      let with_level =
        add_if (is_kind ("candidates" ∷ "memories" ∷ []) kind)
          (field "level" (read "level")
            (field "memory_type" (read "type") (field "keyword" (read "keyword") end)))
          with_status in
      let with_role =
        add_if (is_kind ("raw-records" ∷ []) kind)
          (field "role" (read "role") (field "keyword" (read "keyword") end)) with_level in
      let with_job =
        add_if (is_kind ("jobs" ∷ []) kind)
          (field "job_type" (read "type") (field "keyword" (read "keyword") end)) with_role in
      let with_event =
        add_if (is_kind ("outbox-events" ∷ []) kind) (field "event_type" (read "type") end)
          with_job in
      let with_mode =
        add_if (is_kind ("retrieval-audits" ∷ []) kind)
          (field "degraded" (read "degraded") (field "retrieval_mode" (read "retrieval_mode") end))
          with_event in
      add_if (is_kind ("audit-events" ∷ []) kind)
        (field "event_type" (read "type") (field "subject_type" (read "secondary_type") end))
        with_mode

  unfoldable pub begin_load : RecordsPage Number → RecordsPage Number
  begin_load s = record s { loading = true; error = none }

  unfoldable pub load_request :
      (Value Number → Option String) → String → Fields Number → Request Number
  unfolding to_text build_params admin_get
  load_request iso token filters =
      admin_get token ("/" <> to_text (get "kind" filters)) (build_params iso filters)

  unfoldable pub refused : Fields Number → Cause → RecordsPage Number → RecordsPage Number
  refused filters cause s = record s {
    rows = nil;
    meta = record {
      page = get "page" filters;
      page_size = get "page_size" filters;
      total = number_of "0";
      has_next = false;
    };
    error = some cause;
    loading = false;
  }

  meta_of : Fields Number → Value Number → ListMeta Number
  unfolding to_number
  meta_of filters result =
      let read : String → Value Number = λ key. prop key (prop "meta" result) in
      record {
        page = num (to_number (read "page" or get "page" filters));
        page_size = num (to_number (read "page_size" or get "page_size" filters));
        total = to_number (read "total" or literal "0");
        has_next = truthy (read "has_next");
      }

  -- The rest of `load`, when its request has been answered, for the filters at that time.
  unfoldable pub finish_load :
      Fields Number → Result Cause (Value Number) → RecordsPage Number → RecordsPage Number
  unfolding member meta_of refused
  finish_load filters (throw cause) s = refused filters cause s
  finish_load filters (ok result) s = elim (member "data" result) [
    | throw cause ↦ refused filters cause s
    | ok body ↦ record s { rows = array_items body; meta = meta_of filters result; loading = false }
  ]

  -- `rows.value.find((item) => String(item.id) === String(filters.detail)) || null`
  unfoldable pub current_row : Items Number → Value Number → Value Number
  unfolding to_text
  current_row nil detail = null
  current_row (cons item more) detail =
      if to_text (prop "id" item) == to_text detail then item else current_row more detail

  unfoldable pub date_range : Fields Number → List (Value Number)
  date_range filters =
      if truthy (get "created_from" filters) && truthy (get "created_to" filters)
      then get "created_from" filters ∷ get "created_to" filters ∷ []
      else []

  unfoldable pub shows_content_notice : Value Number → Bool
  shows_content_notice kind = is_kind ("raw-records" ∷ "candidates" ∷ "memories" ∷ []) kind

  -- The filters that are cleared by another kind and by a reset.
  abbrev cleared : Fields Number → Fields Number
  cleared more = field "status" (str "") (
      field "level" (str "") (
        field "type" (str "") (
          field "secondary_type" (str "") (
            field "role" (str "") (
              field "degraded" (str "")
                (field "retrieval_mode" (str "") (field "keyword" (str "") more)))))))

  -- Each change gives the filters and the query that `commit` navigates to.
  unfoldable pub change_kind :
      Fields Number → Fields Number → String → Fields Number × Fields Number
  unfolding commit
  change_kind query filters kind = commit query filters (
      field "kind" (str kind) (
        cleared (
          field "page" (literal "1")
            (field "detail" (str "") (field "detail_tab" (str "overview") end)))))

  unfoldable pub apply_filters : Fields Number → Fields Number → Fields Number × Fields Number
  unfolding commit trim to_text set
  apply_filters query filters = commit query filters (
      set "page" (literal "1")
        (set "keyword" (str (trim (to_text (get "keyword" filters)))) filters))

  unfoldable pub reset_filters : Fields Number → Fields Number → Fields Number × Fields Number
  unfolding commit
  reset_filters query filters = commit query filters (
      cleared (
        field "created_from" (str "") (
          field "created_to" (str "") (
            field "sort" (str "created_at")
              (field "order" (str "desc") (field "page" (literal "1") end))))))

  unfoldable pub open_detail :
      Fields Number → Fields Number → Value Number → Fields Number × Fields Number
  unfolding commit
  open_detail query filters row =
      commit query filters
        (field "detail" (prop "id" row) (field "detail_tab" (str "overview") end))

  unfoldable pub change_pagination :
      Fields Number → Fields Number → Fields Number → Fields Number × Fields Number
  unfolding commit
  change_pagination query filters value = commit query filters (
      field "page" (get "page" value otherwise get "page" filters)
        (field "page_size" (get "pageSize" value otherwise get "page_size" filters) end))

  -- `changeProject` when the context store has taken the project, and the close of the drawer.
  unfoldable pub project_changed : Fields Number → Fields Number
  unfolding set
  project_changed filters = set "scope_id" (str "") filters

  unfoldable pub close_detail : Fields Number → Fields Number → Fields Number × Fields Number
  unfolding commit
  close_detail query filters =
      commit query filters (field "detail" (str "") (field "detail_tab" (str "overview") end))
