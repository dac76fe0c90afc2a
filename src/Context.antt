-- ===== src/Context.antt =====
-- apps/admin-web/src/stores/context.js: the store of projects and scopes. Awaits are explicit: a
-- request is in flight until its answer is handled, and answers come in any order.
pub mod Loading
pub mod Selection
mod Tests
use codex_memory.Prelude.{
  ℕ, ◌+◌, ◌==◌, ◌<>◌, Bool, true, false, not, ◌&&◌, ◌||◌, String, Option, none, some, List, [], ◌∷◌,
  ◌++◌, Result, ok, throw, ◌>>=◌, if◌then◌else◌, nat_eq,
}
use codex_memory.Prelude.Uri.{encode_uri_component}
use codex_memory.Js.{
  Runtime, Value, Fields, end, field, Items, nil, cons, str, num, arr, items, prop, is_nullish,
  ◌or◌, to_text, is_text,
}
use codex_memory.Contracts.{Fault, array_items}
use codex_memory.Contracts
use codex_memory.Session.{Failure, without_status, Reply, replied, failed}

-- What a request in flight is for.
pub data Purpose : Type 0 where
  for_projects for_scopes : Purpose

pub record Pending (N : Type 0) : Type 0 where
  pub id : ℕ
  pub purpose : Purpose
  pub path : String
  pub params : Fields N

-- The store, and the requests that it waits for.
pub record Context (N : Type 0) : Type 0 where
  pub projects : Items N
  pub scopes : Items N
  pub project_key : String
  pub scope_id : String
  pub loading_projects : Bool
  pub loading_scopes : Bool
  pub error : Option Failure
  pub calls : List (Pending N)
  pub next_id : ℕ

abbrev pub is_filled : {N : Type 0} → Items N → Bool
is_filled nil = false
is_filled (cons v vs) = true

unfoldable pub initial : {N : Type 0} → Context N
initial = record {
  projects = nil;
  scopes = nil;
  project_key = "";
  scope_id = "";
  loading_projects = false;
  loading_scopes = false;
  error = none;
  calls = [];
  next_id = 0;
}

-- The request with a number, and the others.
unfoldable pub take_call :
    {N : Type 0} → ℕ → List (Pending N) → Option (Pending N × List (Pending N))
take_call id [] = none
take_call id (c ∷ calls) =
    if nat_eq c.id id
    then some (c, calls)
    else elim (take_call id calls) [ none ↦ none | some (found, rest) ↦ some (found, c ∷ rest) ]

unfoldable pub send : {N : Type 0} → Purpose → String → Fields N → Context N → Context N
send purpose path params s = record s {
  calls =
      s.calls ++ record { id = s.next_id; purpose = purpose; path = path; params = params } ∷ [];
  next_id = s.next_id + 1;
}

unfoldable pub reset : {N : Type 0} → Context N → Context N
reset s = record s { projects = nil; scopes = nil; project_key = ""; scope_id = ""; error = none }

-- `result.data` if it is an array and no items otherwise; a `result` of `null` is a TypeError.
unfoldable pub data_items : {N : Type 0} → Value N → Option (Items N)
data_items payload = if is_nullish payload then none else some (array_items (prop "data" payload))

-- The answer to a request: the items are stored or the error is, and the flag falls.
unfoldable pub finish : {N : Type 0} → Purpose → Reply N → Context N → Context N
finish for_projects (replied payload) s = elim (data_items payload) [
  | none ↦ record s { error = some without_status; loading_projects = false }
  | some found ↦ record s { projects = found; loading_projects = false }
]
finish for_projects (failed failure) s = record s { error = some failure; loading_projects = false }
finish for_scopes (replied payload) s = elim (data_items payload) [
  | none ↦ record s { error = some without_status; loading_scopes = false }
  | some found ↦ record s { scopes = found; loading_scopes = false }
]
finish for_scopes (failed failure) s = record s { error = some failure; loading_scopes = false }

module _ ⦃rt : Runtime⦄ where
  open rt use {Number, number_of}

  abbrev page_params : Fields Number → Fields Number
  page_params more =
      field "page" (num (number_of "1")) (field "page_size" (num (number_of "200")) more)

  unfoldable pub load_projects : Bool → Context Number → Context Number
  load_projects force s =
      if is_filled s.projects && not force
      then s
      else send for_projects "/projects"
          (page_params (field "sort" (str "project_key") (field "order" (str "asc") end)))
          (record s { loading_projects = true; error = none })

  abbrev pub scopes_path : String → String
  scopes_path key = "/projects/" <> encode_uri_component key <> "/scopes"

  -- `selectProject` once its argument is a text.
  unfoldable pub select_key : String → Bool → Context Number → Context Number
  select_key next force s =
      if not force && next == s.project_key && (is_filled s.scopes || next == "")
      then s
      else if next == ""
      then record s { project_key = next; scope_id = ""; scopes = nil }
      else send for_scopes (scopes_path next) (page_params end)
          (record s { project_key = next; scope_id = ""; scopes = nil; loading_scopes = true })

  unfoldable pub select_project : Value Number → Bool → Context Number → Context Number
  unfolding to_text
  select_project value force s = select_key (to_text (value or str "")) force s

  unfoldable pub select_scope : Value Number → Context Number → Context Number
  unfolding to_text
  select_scope value s = record s { scope_id = to_text (value or str "") }

  pub data Event : Type 0 where
    projects_loaded : Bool → Event
    project_selected : Value Number → Bool → Event
    scope_selected : Value Number → Event
    was_reset : Event
    answered : ℕ → Reply Number → Event

  -- An answer to no request changes nothing.
  unfoldable pub step : Context Number → Event → Context Number
  step s (projects_loaded force) = load_projects force s
  step s (project_selected value force) = select_project value force s
  step s (scope_selected value) = select_scope value s
  step s was_reset = reset s
  step s (answered id reply) = elim (take_call id s.calls) [
    | none ↦ s
    | some (c, rest) ↦ finish c.purpose reply (record s { calls = rest })
  ]

  -- `projects.find((item) => item.project_key === projectKey) || null`
  unfoldable pub current_project : String → List (Value Number) → Result Fault (Value Number)
  current_project key [] = ok Value.null
  current_project key (v ∷ vs) =
      if is_nullish v
      then throw Contracts.type_error
      else let rest = current_project key vs in
        if is_text key (prop "project_key" v) then ok v else rest

  unfoldable pub current_scope : String → List (Value Number) → Result Fault (Value Number)
  unfolding to_text
  current_scope id [] = ok Value.null
  current_scope id (v ∷ vs) =
      if is_nullish v
      then throw Contracts.type_error
      else let rest = current_scope id vs in
        if to_text (prop "scope_key" v or prop "id" v) == id then ok v else rest
