-- ===== src/Import/Batches.antt =====
-- apps/admin-web/src/views/ImportView.vue: the lists of batches and candidates, the drawer of one
-- batch, and the changes of the route. Items of a reply are objects.
use codex_memory.Prelude.{
  ℕ, suc, ◌==◌, ◌&&◌, ◌||◌, not, Bool, true, false, String, ◌<>◌, none, some, if◌then◌else◌, nat_eq,
  text_member, Result, ok, throw,
}
use codex_memory.Prelude.Text.{trim}
use codex_memory.Js.{
  Runtime, Value, undefined, null, str, obj, Items, nil, cons, Fields, end, field, get, prop,
  truthy, ◌or◌, to_text,
}
use codex_memory.Api.{Request, admin_get}
use codex_memory.Contracts.{array_items}
use codex_memory.Pages.{Cause, member, without, literal}
use codex_memory.Import.Files.{active_batch_statuses}
use codex_memory.Import.{
  Wizard, sync_wizard_query, reset_context_work, query_project, query_scope, query_status,
  query_step, query_tab,
}

pub record LoadOptions : Type 0 where
  pub silent : Bool
  pub sync_query : Bool

abbrev pub plain_load : LoadOptions
plain_load = record { silent = false; sync_query = true }

module _ ⦃rt : Runtime⦄ where
  open rt use {Number, num_eq}

  abbrev first_page : Fields Number
  first_page = field "page" (literal "1") (field "page_size" (literal "100") end)

  -- `loadProjects`: its request, and its end.
  unfoldable pub projects_request : String → Request Number
  unfolding admin_get
  projects_request token = admin_get token "/projects" first_page

  unfoldable pub projects_loaded : Result Cause (Value Number) → Wizard Number → Wizard Number
  unfolding member
  projects_loaded (throw cause) s = record s { projects = nil; error = some cause }
  projects_loaded (ok result) s = elim (member "data" result) [
    | ok body ↦ record s { projects = array_items body }
    | throw cause ↦ record s { projects = nil; error = some cause }
  ]

  -- `load(options)` up to its await: the number of the load is the new one of the state.
  unfoldable pub begin_load : LoadOptions → Wizard Number → Wizard Number
  begin_load options s = record s {
    load_sequence = suc s.load_sequence;
    loading = if options.silent then s.loading else true;
    error = none;
  }

  abbrev load_params : String → Value Number → Wizard Number → Fields Number
  load_params key value s =
      field "project_key" (str (trim s.project_key))
        (field "page" (literal "1") (field "page_size" (literal "100") (field key value end)))

  unfoldable pub batches_request : String → Wizard Number → Request Number
  unfolding trim admin_get
  batches_request token s =
      admin_get token "/import-batches" (load_params "status" (str s.status_filter) s)

  unfoldable pub candidates_request : String → Wizard Number → Request Number
  unfolding trim admin_get
  candidates_request token s =
      admin_get token "/reference-candidates" (load_params "scope_id" (str (trim s.scope_key)) s)

  unfoldable pub candidates_shown :
      LoadOptions → Result Cause (Value Number) → Wizard Number → Wizard Number
  unfolding sync_wizard_query
  candidates_shown options (throw cause) s = record s { error = some cause }
  candidates_shown options (ok body) s =
      let shown : Wizard Number = record s { candidates = array_items body } in
      if not options.silent && options.sync_query then sync_wizard_query end shown else shown

  unfoldable pub batches_shown :
      LoadOptions → Value Number → Result Cause (Value Number) → Wizard Number → Wizard Number
  unfolding member candidates_shown
  batches_shown options candidate_result (throw cause) s = record s { error = some cause }
  batches_shown options candidate_result (ok body) s =
      candidates_shown options (member "data" candidate_result)
        (record s { batches = array_items body })

  -- The `try` and the `catch` of the last load.
  unfoldable pub load_shown :
      LoadOptions → Result Cause (Value Number × Value Number) → Wizard Number → Wizard Number
  unfolding member batches_shown
  load_shown options (throw cause) s = record s { error = some cause }
  load_shown options (ok (batch_result, candidate_result)) s =
      batches_shown options candidate_result (member "data" batch_result) s

  abbrev pub load_ended : Wizard Number → Wizard Number
  load_ended s = record s { loading = false }

  -- The rest of the load of this number, when its two requests have been answered.
  unfoldable pub finish_load :
      LoadOptions → ℕ → Result Cause (Value Number × Value Number) → Wizard Number → Wizard Number
  unfolding load_shown
  finish_load options sequence result s =
      if nat_eq sequence s.load_sequence then load_ended (load_shown options result s) else s

  unfoldable pub batch_requests :
      String → Value Number → Request Number × Request Number × Request Number
  unfolding to_text admin_get
  batch_requests token batch =
      let path = "/import-batches/" <> to_text (prop "id" batch) in
      (
        admin_get token path end,
        admin_get token (path <> "/files") end,
        admin_get token (path <> "/issues") end,
      )

  -- `loadBatchDetail` returns at once where the batch has no id.
  unfoldable pub has_id : Value Number → Bool
  has_id batch = truthy (prop "id" batch)

  unfoldable pub begin_detail : Bool → Wizard Number → Wizard Number
  begin_detail silent s = record s { detail_loading = if silent then s.detail_loading else true }

  unfoldable pub issues_shown : Result Cause (Value Number) → Wizard Number → Wizard Number
  issues_shown (throw cause) s = record s { error = some cause }
  issues_shown (ok body) s = record s { batch_issues = array_items body }

  unfoldable pub files_shown :
      Result Cause (Value Number) → Result Cause (Value Number) → Wizard Number → Wizard Number
  unfolding issues_shown
  files_shown (throw cause) issues s = record s { error = some cause }
  files_shown (ok body) issues s = issues_shown issues (record s { batch_files = array_items body })

  unfoldable pub body_shown :
      Value Number
      → Result Cause (Value Number)
      → Result Cause (Value Number)
      → Result Cause (Value Number)
      → Wizard Number
      → Wizard Number
  unfolding files_shown
  body_shown batch (throw cause) files issues s = record s { error = some cause }
  body_shown batch (ok body) files issues s =
      files_shown files issues (record s { batch_detail = body or batch })

  unfoldable pub detail_shown :
      Value Number
      → Result Cause (Value Number × Value Number × Value Number)
      → Wizard Number
      → Wizard Number
  unfolding member body_shown
  detail_shown batch (throw cause) s = record s { error = some cause }
  detail_shown batch (ok (detail, files, issues)) s =
      body_shown batch (member "data" detail) (member "data" files) (member "data" issues) s

  unfoldable pub detail_ended : Bool → Wizard Number → Wizard Number
  detail_ended silent s = record s { detail_loading = if silent then s.detail_loading else false }

  -- The rest of `loadBatchDetail(batch, { silent })`, when its three requests have been answered.
  unfoldable pub finish_detail :
      Bool
      → Value Number
      → Result Cause (Value Number × Value Number × Value Number)
      → Wizard Number
      → Wizard Number
  unfolding detail_shown detail_ended
  finish_detail silent batch result s = detail_ended silent (detail_shown batch result s)

  -- `openBatch` up to the detail that it loads.
  unfoldable pub open_batch : Value Number → Wizard Number → Wizard Number
  unfolding query_tab sync_wizard_query to_text
  open_batch batch s =
      let tab = query_tab s.query in
      sync_wizard_query
        (field "batch_id" (str (to_text (prop "id" batch))) (field "detail_tab" (str tab) end))
        (record s { detail_visible = true; detail_tab = tab; batch_detail = batch })

  unfoldable pub close_batch : Wizard Number → Wizard Number
  unfolding without
  close_batch s = record s { query = without "detail_tab" (without "batch_id" s.query) }

  -- `batches.value.find((item) => String(item.id) === id) || { id }`
  unfoldable pub find_batch : Items Number → Value Number → Value Number
  unfolding to_text
  find_batch nil id = obj (field "id" id end)
  find_batch (cons item more) id =
      if to_text (prop "id" item) == to_text id then item else find_batch more id

  abbrev pub is_active : Value Number → Bool
  is_active (str status) = text_member status active_batch_statuses
  is_active _ = false

  unfoldable pub has_active_batches : Items Number → Bool
  has_active_batches nil = false
  has_active_batches (cons item more) = is_active (prop "status" item) || has_active_batches more

  -- `refreshActiveWork`: whether it loads, and whether it then loads the open batch.
  unfoldable pub refreshes : Bool → Wizard Number → Bool
  unfolding has_active_batches
  refreshes visible s = visible && has_active_batches s.batches

  unfoldable pub refreshes_detail : Wizard Number → Bool
  refreshes_detail s =
      s.detail_visible && truthy s.batch_detail && is_active (prop "status" s.batch_detail)

  -- What follows a change of the route: a load or none, and then a batch to open, by its id, or the
  -- drawer to close.
  pub data After : Type 0 where
    nothing close : After
    opens : String → After

  pub record Reaction : Type 0 where
    pub state : Wizard Number
    pub loads : Bool
    pub after : After

  unfoldable pub query_batch : Fields Number → String
  unfolding to_text
  query_batch query = to_text (get "batch_id" query or str "")

  unfoldable pub current_batch : Wizard Number → String
  unfolding to_text
  current_batch s = if s.detail_visible then to_text (prop "id" s.batch_detail or str "") else ""

  -- The drawer of a batch that the route no longer names.
  unfoldable pub close_drawer : Wizard Number → Wizard Number
  close_drawer s = record s {
    detail_visible = false;
    batch_detail = null;
    batch_files = nil;
    batch_issues = nil;
  }

  abbrev adopted : Value Number → Fields Number → Wizard Number → Wizard Number
  adopted me query s = record s {
    project_key = query_project me query;
    scope_key = query_scope query;
    status_filter = query_status query;
    current_step = query_step query;
    detail_tab = query_tab query;
  }

  unfoldable pub context_changed : Value Number → Fields Number → Wizard Number → Bool
  context_changed me query s =
      not (query_project me query == s.project_key) || not (query_scope query == s.scope_key)

  unfoldable pub list_changed : Value Number → Fields Number → Wizard Number → Bool
  unfolding context_changed
  list_changed me query s =
      context_changed me query s || not (query_status query == s.status_filter)

  abbrev after_load : String → Bool → After
  after_load batch drawer_changed =
      if batch == "" then (if drawer_changed then close else nothing) else opens batch

  -- The callback of `watch(() => route.fullPath)`, for the query that the route has now, up to its
  -- load. A load that follows does not write the query, and the drawer changes when it has ended.
  unfoldable pub route_changed : Value Number → Fields Number → Wizard Number → Reaction
  unfolding list_changed context_changed reset_context_work query_batch current_batch
  route_changed me query s =
      let batch = query_batch query in
      let drawer_changed = not (batch == current_batch s) in
      if not (list_changed me query s)
        && num_eq (query_step query) s.current_step
        && query_tab query == s.detail_tab
        && not drawer_changed
      then record { state = s; loads = false; after = nothing }
      else record {
        state = adopted me query (if context_changed me query s then reset_context_work s else s);
        loads = list_changed me query s;
        after = after_load batch drawer_changed;
      }

  -- The end of the callback, before the detail of an opened batch is loaded.
  unfoldable pub after_changed : After → Wizard Number → Wizard Number
  unfolding find_batch close_drawer
  after_changed nothing s = s
  after_changed close s = close_drawer s
  after_changed (opens id) s = record s {
    detail_visible = true;
    batch_detail = find_batch s.batches (str id);
  }

  abbrev quiet_load : LoadOptions
  quiet_load = record { silent = false; sync_query = false }

  -- `changeImportContext` and `clearStatusFilter` up to the await of their load. A field that is
  -- `undefined` leaves the URL.
  unfoldable pub change_import_context : Wizard Number → Wizard Number
  unfolding reset_context_work sync_wizard_query begin_load
  change_import_context s =
      begin_load quiet_load
        (sync_wizard_query (field "batch_id" undefined end) (reset_context_work s))

  unfoldable pub clear_status_filter : Wizard Number → Wizard Number
  unfolding sync_wizard_query begin_load
  clear_status_filter s =
      begin_load quiet_load (sync_wizard_query end (record s { status_filter = "" }))
