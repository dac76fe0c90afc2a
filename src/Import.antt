-- ===== src/Import.antt =====
-- apps/admin-web/src/views/ImportView.vue: the wizard that imports files. Its state, the selection of
-- files, and the query of the route that holds a part of the state. Navigation by the router takes
-- effect at once.
pub mod Files
pub mod Upload
pub mod Batches
pub mod Actions
pub mod Submit
pub mod Parts
pub mod Selection
pub mod Loads
pub mod Query
pub mod Sending
pub mod Filling
pub mod Uploading
pub mod Confirming
mod Tests
use codex_memory.Prelude.{
  ℕ, zero, suc, ◌+◌, ◌-◌, ◌*◌, ◌/◌, ◌==◌, ◌&&◌, ◌||◌, not, Bool, true, false, String, ◌<>◌, Option,
  none, some, List, [], ◌∷◌, ◌++◌, map, if◌then◌else◌, any, ltb, length, take, text_member,
}
use codex_memory.Prelude.Text.{trim, decimal}
use codex_memory.Js.{
  Runtime, Value, undefined, null, str, arr, Items, nil, Fields, end, field, get, set, spread, prop,
  truthy, ◌or◌, is_text, to_text, to_number,
}
use codex_memory.Pages.{Cause, new_error, without, max_of, min_of, literal, text_or}
use codex_memory.Import.Files.{File, validate_file, max_files, active_batch_statuses}

pub data EntryStatus : Type 0 where
  invalid ready reading uploading completed failed : EntryStatus

-- A file of the selection.
pub record Entry : Type 0 where
  pub key : String
  pub file : File
  pub name : String
  pub size : ℕ
  pub status : EntryStatus
  pub progress : ℕ
  pub error : String

pub data ActionKind : Type 0 where
  approve reject candidate_rollback cancel retry rollback : ActionKind

pub record Action (N : Type 0) : Type 0 where
  pub kind : ActionKind
  pub target : Value N
  pub title : String
  pub confirm_text : String
  pub requires_reason : Bool
  pub reason_label : String
  pub impact : String

-- The refs of the component, and the query of the route.
pub record Wizard (N : Type 0) : Type 0 where
  pub project_key : String
  pub scope_key : String
  pub status_filter : String
  pub projects : Items N
  pub current_step : N
  pub selected_files : List Entry
  pub batches : Items N
  pub candidates : Items N
  pub loading : Bool
  pub submitting : Bool
  pub message : String
  pub error : Option Cause
  pub active_batch_id : Value N
  pub detail_visible : Bool
  pub detail_loading : Bool
  pub detail_tab : String
  pub batch_detail : Value N
  pub batch_files : Items N
  pub batch_issues : Items N
  pub action_visible : Bool
  pub action_reason : String
  pub action_submitting : Bool
  pub action : Option (Action N)
  pub row_loading : List String
  pub load_sequence : ℕ
  pub query : Fields N

abbrev pub is_invalid : Entry → Bool
is_invalid entry = elim entry.status [ invalid ↦ true | _ ↦ false ]

unfoldable pub valid_files : List Entry → List Entry
valid_files [] = []
valid_files (entry ∷ entries) =
    let rest = valid_files entries in if is_invalid entry then rest else entry ∷ rest

abbrev pub has_invalid_files : List Entry → Bool
has_invalid_files entries = any is_invalid entries

abbrev pub is_none_of : {A : Type 0} → List A → Bool
is_none_of [] = true
is_none_of _ = false

abbrev pub progress_sum : List Entry → ℕ
progress_sum [] = 0
progress_sum (entry ∷ entries) = entry.progress + progress_sum entries

-- `Math.round(a / b)` of natural numbers.
abbrev pub round_div : ℕ → ℕ → ℕ
round_div a b = (2 * a + b) / (2 * b)

unfoldable pub overall_progress : List Entry → ℕ
overall_progress [] = 0
overall_progress (entry ∷ entries) =
    round_div (progress_sum (entry ∷ entries)) (length (entry ∷ entries))

abbrev pub file_key : File → String
file_key file = file.name <> (":" <> (decimal file.size <> (":" <> decimal file.last_modified)))

-- `splice(index, 1)`
unfoldable pub remove_at {ℓ} : {A : Type ℓ} → ℕ → List A → List A
remove_at n [] = []
remove_at zero (x ∷ xs) = xs
remove_at (suc n) (x ∷ xs) = x ∷ remove_at n xs

abbrev pub detail_tabs : List String
detail_tabs = "overview" ∷ "files" ∷ "issues" ∷ []

module _ ⦃rt : Runtime⦄ where
  open rt use {Number, is_finite, number_of, number_text}

  abbrev new_entry : File → String → Entry
  new_entry file refused = record {
    key = file_key file;
    file = file;
    name = file.name;
    size = file.size;
    status = if refused == "" then ready else invalid;
    progress = 0;
    error = refused;
  }

  -- The entries of the files whose key is not among the keys, each of which joins them.
  unfoldable pub pick : List String → List File → List Entry
  unfolding validate_file decimal
  pick keys [] = []
  pick keys (file ∷ files) =
      let seen = text_member (file_key file) keys in
      let rest = pick (if seen then keys else file_key file ∷ keys) files in
      if seen then rest else new_entry file (validate_file file) ∷ rest

  -- `if (value) query[key] = value; else delete query[key]`
  unfoldable pub optional : String → String → Fields Number → Fields Number
  unfolding set without
  optional key value query = if value == "" then without key query else set key (str value) query

  -- The query that `syncWizardQuery(extra)` navigates to.
  unfoldable pub wizard_query : Fields Number → Wizard Number → Fields Number
  unfolding trim set spread without optional
  wizard_query extra s =
      let base = set "step" (str (number_text s.current_step)) (spread s.query extra) in
      let project = optional "project_key" (trim s.project_key) base in
      let scope = without "scope_key" (optional "scope_id" (trim s.scope_key) project) in
      let status = optional "status" s.status_filter scope in
      if s.detail_visible
      then set "detail_tab" (str s.detail_tab) status
      else without "detail_tab" status

  unfoldable pub sync_wizard_query : Fields Number → Wizard Number → Wizard Number
  unfolding wizard_query
  sync_wizard_query extra s = record s { query = wizard_query extra s }

  abbrev pub at_step : String → Wizard Number → Wizard Number
  at_step step s = record s { current_step = number_of step }

  unfoldable pub add_files : List File → Wizard Number → Wizard Number
  unfolding pick sync_wizard_query
  add_files incoming s =
      let remaining = max_files - length s.selected_files in
      let files =
        s.selected_files
        ++ pick (map (λ (entry : Entry). entry.key) s.selected_files) (take remaining incoming) in
      sync_wizard_query end (record s {
        selected_files = files;
        error =
            if ltb remaining (length incoming)
            then some (new_error ("单个批次最多选择 " <> (decimal max_files <> " 个文件")))
            else s.error;
        current_step = if is_none_of files then s.current_step else number_of "1";
      })

  unfoldable pub remove_file : ℕ → Wizard Number → Wizard Number
  unfolding remove_at
  remove_file index s =
      let files = remove_at index s.selected_files in
      if s.submitting then s else record s {
        selected_files = files;
        current_step = if is_none_of files then number_of "0" else s.current_step;
      }

  unfoldable pub reset_wizard : Wizard Number → Wizard Number
  unfolding sync_wizard_query
  reset_wizard s = sync_wizard_query end (record s {
    selected_files = [];
    active_batch_id = null;
    current_step = number_of "0";
    message = "";
    error = none;
  })

  unfoldable pub reset_context_work : Wizard Number → Wizard Number
  reset_context_work s = if s.submitting then s else record s {
    selected_files = [];
    active_batch_id = null;
    current_step = number_of "0";
    detail_visible = false;
    batch_detail = null;
    batch_files = nil;
    batch_issues = nil;
  }

  -- What the query of the route says of the state: project, scope, status, step and tab. `me` is the
  -- user of the session.
  unfoldable pub query_project : Value Number → Fields Number → String
  unfolding text_or to_text
  query_project me query =
      let own_project = prop "project_key" me in
      to_text (
        get "project_key" query
        or (if is_text "*" own_project then str "" else (own_project or str "")))

  unfoldable pub query_scope : Fields Number → String
  unfolding to_text
  query_scope query = to_text (get "scope_id" query or (get "scope_key" query or str "project"))

  unfoldable pub query_status : Fields Number → String
  unfolding text_or
  query_status query = text_or (get "status" query) ""

  unfoldable pub query_step : Fields Number → Number
  unfolding to_number
  query_step query =
      let step = to_number (get "step" query or literal "0") in
      if is_finite step then min_of (number_of "3") (max_of (number_of "0") step) else number_of "0"

  unfoldable pub query_tab : Fields Number → String
  unfolding to_text
  query_tab query =
      let tab = to_text (get "detail_tab" query) in
      if text_member tab detail_tabs then tab else "overview"

  -- The state of a page that is opened.
  unfoldable pub initial : Value Number → Fields Number → Wizard Number
  unfolding query_project query_scope query_status query_step query_tab
  initial me query = record {
    project_key = query_project me query;
    scope_key = query_scope query;
    status_filter = query_status query;
    projects = nil;
    current_step = query_step query;
    selected_files = [];
    batches = nil;
    candidates = nil;
    loading = false;
    submitting = false;
    message = "";
    error = none;
    active_batch_id = null;
    detail_visible = false;
    detail_loading = false;
    detail_tab = query_tab query;
    batch_detail = null;
    batch_files = nil;
    batch_issues = nil;
    action_visible = false;
    action_reason = "";
    action_submitting = false;
    action = none;
    row_loading = [];
    load_sequence = 0;
    query = query;
  }
