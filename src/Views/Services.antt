-- ===== src/Views/Services.antt =====
-- apps/admin-web/src/views/ContractServicesView.vue: the filters of the list of contract services, its
-- loads, of which only the last is shown, and the form that creates a service.
use codex_memory.Prelude.{
  ℕ, zero, suc, ◌==◌, ◌&&◌, ◌||◌, not, Bool, true, false, String, ◌<>◌, Option, none, some, List,
  [], ◌∷◌, if◌then◌else◌, nat_eq, length, Result, ok, throw,
}
use codex_memory.Prelude.Text.{trim}
use codex_memory.Js.{
  Runtime, Value, num, str, arr, obj, Items, nil, items, Fields, end, field, get, truthy, ◌or◌,
  ◌otherwise◌, is_nullish, to_text, to_number, prop,
}
use codex_memory.Api.{Request}
use codex_memory.Contracts.{
  build_contract_service_list_params, list_contract_services, create_contract_service,
  extract_contract_services, extract_contract_projects, extract_pagination, is_stable_service_key,
  resolve_contract_project_key,
}
use codex_memory.Format.Readable.{text_length}
use codex_memory.Pages.{
  Cause, new_error, text_or, positive, literal, query_texts, same_params, of_fault,
}

pub record Form : Type 0 where
  pub project_key : String
  pub service_key : String
  pub name : String
  pub description : String

pub record ServicesPage (N : Type 0) : Type 0 where
  pub project_key : String
  pub status : String
  pub keyword : String
  pub projects : List (Value N)
  pub rows : Items N
  pub loading : Bool
  pub error : Option Cause
  pub page : N
  pub page_size : N
  pub total : N
  pub dialog_visible : Bool
  pub saving : Bool
  pub form_error : Option Cause
  pub form : Form
  pub load_sequence : ℕ
  pub query : Fields N

abbrev pub empty_form : Form
empty_form = record { project_key = ""; service_key = ""; name = ""; description = "" }

module _ ⦃rt : Runtime⦄ where
  open rt use {Number, number_of}

  unfoldable pub opened : Fields Number → ServicesPage Number
  unfolding text_or positive
  opened query = record {
    project_key = text_or (get "project_key" query) "";
    status = text_or (get "status" query) "";
    keyword = text_or (get "keyword" query) "";
    projects = [];
    rows = nil;
    loading = false;
    error = none;
    page = positive (get "page" query) "1";
    page_size = positive (get "page_size" query) "20";
    total = number_of "0";
    dialog_visible = false;
    saving = false;
    form_error = none;
    form = empty_form;
    load_sequence = 0;
    query = query;
  }

  unfoldable pub service_id : Value Number → Value Number
  service_id row = prop "id" row otherwise prop "service_id" row

  -- `row?.revisions?.length`
  length_of : Value Number → Value Number
  length_of (arr xs) = literal (codex_memory.Prelude.Text.decimal (length (items xs)))
  length_of (str s) = literal (codex_memory.Prelude.Text.decimal (text_length s))
  length_of v = prop "length" v

  unfoldable pub revision_count : Value Number → Value Number
  unfolding length_of
  revision_count row =
      prop "revision_count" row otherwise (length_of (prop "revisions" row) otherwise literal "0")

  -- The service that `openDetail` navigates to.
  unfoldable pub detail_of : Value Number → Option (Value Number)
  unfolding service_id
  detail_of row = if is_nullish (service_id row) then none else some (service_id row)

  unfoldable pub open_create : ServicesPage Number → ServicesPage Number
  unfolding trim
  open_create s = record s {
    form = record empty_form { project_key = trim s.project_key };
    form_error = none;
    dialog_visible = true;
  }

  -- The form as it is sent.
  abbrev pub trimmed : Form → Form
  trimmed form = record {
    project_key = trim form.project_key;
    service_key = trim form.service_key;
    name = trim form.name;
    description = trim form.description;
  }

  abbrev pub form_body : Form → Value Number
  form_body form = obj (
      field "project_key" (str form.project_key) (
        field "service_key" (str form.service_key)
          (field "name" (str form.name) (field "description" (str form.description) end))))

  -- What is wrong with the form, as `saveService` tests it.
  unfoldable pub form_fault : Form → Option String
  unfolding is_stable_service_key
  form_fault form =
      if form.project_key == "" || form.service_key == "" || form.name == ""
      then some "请填写项目、稳定服务标识和服务名称"
      else if not (is_stable_service_key (str form.service_key))
      then some "服务标识需使用 2–80 位小写字母、数字、点、短横线或下划线，并以字母或数字开头"
      else none

  begun : Option String → ServicesPage Number → ServicesPage Number
  begun (some text) s = record s { form_error = some (new_error text) }
  begun none s = if s.saving then s else record s { saving = true; form_error = none }

  -- `saveService` up to its request.
  unfoldable pub save_service : ServicesPage Number → ServicesPage Number
  unfolding begun form_fault trim
  save_service s = begun (form_fault (trimmed s.form)) s

  unfoldable pub save_request : String → ServicesPage Number → Option (Request Number)
  unfolding form_fault create_contract_service trim
  save_request token s = elim (form_fault (trimmed s.form)) [
    | some text ↦ none
    | none ↦
        if s.saving then none else some (create_contract_service token (form_body (trimmed s.form)))
  ]

  unfoldable pub current_params : ServicesPage Number → Fields Number
  unfolding trim build_contract_service_list_params
  current_params s = build_contract_service_list_params (
      field "projectKey" (str (trim s.project_key)) (
        field "status" (str s.status) (
          field "keyword" (str (trim s.keyword))
            (field "page" (num s.page) (field "pageSize" (num s.page_size) end)))))

  unfoldable pub route_params : Fields Number → Fields Number
  unfolding text_or positive build_contract_service_list_params
  route_params query = build_contract_service_list_params (
      field "projectKey" (str (text_or (get "project_key" query) "")) (
        field "status" (str (text_or (get "status" query) "")) (
          field "keyword" (str (text_or (get "keyword" query) "")) (
            field "page" (num (positive (get "page" query) "1"))
              (field "pageSize" (num (positive (get "page_size" query) "20")) end)))))

  unfoldable pub apply_route_params : Fields Number → ServicesPage Number → ServicesPage Number
  unfolding text_or to_number
  apply_route_params params s = record s {
    project_key = text_or (get "project_key" params) "";
    status = text_or (get "status" params) "";
    keyword = text_or (get "keyword" params) "";
    page = to_number (get "page" params or literal "1");
    page_size = to_number (get "page_size" params or literal "20");
  }

  -- `load({ sync })` up to its await, with the query that `syncQuery` navigates to.
  unfoldable pub begin_load : Bool → ServicesPage Number → ServicesPage Number
  unfolding query_texts current_params
  begin_load sync s = record s {
    load_sequence = suc s.load_sequence;
    loading = true;
    error = none;
    query = if sync then query_texts (current_params s) else s.query;
  }

  unfoldable pub load_request : String → ServicesPage Number → Request Number
  unfolding current_params list_contract_services
  load_request token s = list_contract_services token (current_params s)

  unfoldable pub refused : Cause → ServicesPage Number → ServicesPage Number
  refused cause s = record s {
    rows = nil;
    total = number_of "0";
    error = some cause;
    loading = false;
  }

  unfoldable pub loaded : Result Cause (Value Number) → ServicesPage Number → ServicesPage Number
  unfolding extract_contract_services extract_pagination refused of_fault
  loaded (ok result) s = elim (extract_contract_services result) [
    | ok found ↦ record s {
      rows = found;
      total = (extract_pagination result (num s.page) (num s.page_size)).total;
      loading = false;
    }
    | throw fault ↦ refused (of_fault fault) s
  ]
  loaded (throw cause) s = refused cause s

  -- The rest of the load of this number.
  unfoldable pub finish_load :
      ℕ → Result Cause (Value Number) → ServicesPage Number → ServicesPage Number
  unfolding loaded
  finish_load sequence result s = if nat_eq sequence s.load_sequence then loaded result s else s

  -- The reply to a created service: the dialog closes and the list is loaded.
  unfoldable pub save_answered :
      Result Cause (Value Number) → ServicesPage Number → ServicesPage Number
  unfolding begin_load
  save_answered (ok result) s = begin_load true (record s { dialog_visible = false })
  save_answered (throw cause) s = record s { form_error = some cause }

  -- The service that is opened when the load has ended.
  unfoldable pub created_detail : Value Number → Option (Value Number)
  unfolding detail_of
  created_detail result =
      let created = prop "data" result or obj end in
      if truthy (prop "id" created) || truthy (prop "service_id" created)
      then detail_of created
      else none

  -- The `finally` of `saveService`.
  unfoldable pub save_finished : ServicesPage Number → ServicesPage Number
  save_finished s = record s { saving = false }

  unfoldable pub search : ServicesPage Number → ServicesPage Number
  unfolding begin_load
  search s = begin_load true (record s { page = number_of "1" })

  unfoldable pub reset : ServicesPage Number → ServicesPage Number
  unfolding begin_load
  reset s =
      begin_load true
        (record s { project_key = ""; status = ""; keyword = ""; page = number_of "1" })

  -- `loadProjects`; `me` is the user of the session.
  unfoldable pub projects_loaded :
      Value Number → Result Cause (Value Number) → ServicesPage Number → ServicesPage Number
  unfolding extract_contract_projects resolve_contract_project_key to_text
  projects_loaded me (ok result) s =
      let found = extract_contract_projects result in
      record s {
        projects = found;
        project_key =
            if s.project_key == ""
            then to_text (resolve_contract_project_key found (prop "project_key" me))
            else s.project_key;
      }
  projects_loaded me (throw cause) s = record s { projects = []; error = some cause }

  -- The callback of `watch(() => route.fullPath)`, for the query that the route has now.
  unfoldable pub route_changed : Fields Number → ServicesPage Number → ServicesPage Number
  unfolding same_params route_params current_params apply_route_params begin_load
  route_changed query s =
      let incoming = route_params query in
      if same_params incoming (current_params s)
      then s
      else begin_load false (apply_route_params incoming s)
