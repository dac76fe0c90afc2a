-- ===== src/Views/Shell.antt =====
-- apps/admin-web/src/App.vue: the frame of the application. Navigation by permission, the side bar, and
-- the project and the scope that the route and the context store share.
use codex_memory.Prelude.{
  ℕ, ◌==◌, ◌&&◌, ◌||◌, not, Bool, true, false, String, Option, none, some, List, [], ◌∷◌,
  if◌then◌else◌, ltb, Result, ok, ◌>>=◌,
}
use codex_memory.Js.{
  Runtime, Value, undefined, str, Fields, end, field, get, set, prop, truthy, ◌or◌, is_text,
  to_text,
}
use codex_memory.Contracts.{Fault}
use codex_memory.Session.{Session, has_permission, logout}
use codex_memory.Context.{Context, load_projects, select_project, select_scope, reset}
use codex_memory.Router.{Meta}
use codex_memory.Pages.{Cause}

-- An entry of the navigation; its icon is left out.
pub record Item : Type 0 where
  pub to : String
  pub label : String
  pub permissions : Option (List String)

pub record Group : Type 0 where
  pub label : String
  pub items : List Item

abbrev open_item : String → String → Item
open_item to label = record { to = to; label = label; permissions = none }

abbrev pub nav_groups : List Group
nav_groups =
    record { label = "总览"; items = open_item "/dashboard" "运行概览" ∷ [] }
    ∷ record {
      label = "记忆数据";
      items = open_item "/projects" "项目与 Scope" ∷ open_item "/records" "记忆账本" ∷ [];
    }
    ∷ record {
      label = "运行监控";
      items =
          open_item "/task-runs" "任务报告"
          ∷ record {
            to = "/system-status";
            label = "系统状态";
            permissions = some ("admin" ∷ "operations_read" ∷ []);
          }
          ∷ [];
    }
    ∷ record { label = "数据治理"; items = open_item "/imports" "历史知识导入" ∷ [] }
    ∷ record { label = "接口治理"; items = open_item "/contract-services" "接口契约" ∷ [] }
    ∷ []

pub record Shell (N : Type 0) : Type 0 where
  pub session : Session N
  pub context : Context N
  pub session_error : Option Cause
  pub collapsed : Bool
  pub stored_collapsed : Option String
  pub mobile_open : Bool
  pub is_mobile : Bool

-- Where `router.replace` goes: the login page with a query, or a query of the same path.
pub data Move (N : Type 0) : Type 0 where
  stay : Move N
  to_login : List (String × String) → Move N
  to_query : Fields N → Move N

abbrev pub is_login : Option String → Bool
is_login none = false
is_login (some name) = name == "login"

abbrev pub text_of : Option String → String → String
text_of none fallback = fallback
text_of (some text) fallback = if text == "" then fallback else text

unfoldable pub title : Meta → String
title meta = text_of meta.label "Codex Memory 管理后台"

unfoldable pub section : Meta → String
section meta = text_of meta.section "管理控制台"

unfoldable pub active_menu : Meta → String → String
active_menu meta path = text_of meta.active_menu path

unfoldable pub bare_page : Option String → String → Bool
bare_page none token = false
bare_page (some name) token = name == "login" || (name == "not-found" && token == "")

module _ ⦃rt : Runtime⦄ where
  open rt use {Number}

  -- `permissions.some(session.hasPermission)`
  unfoldable pub some_permitted : Value Number → List String → Result Fault Bool
  unfolding has_permission
  some_permitted me [] = ok false
  some_permitted me (permission ∷ more) =
      let rest = some_permitted me more in
      has_permission me permission >>= λ found. if found then ok true else rest

  unfoldable pub is_visible : Value Number → Item → Result Fault Bool
  unfolding some_permitted
  is_visible me item = elim item.permissions [
    | none ↦ ok true
    | some permissions ↦ some_permitted me permissions
  ]

  unfoldable pub visible_items : Value Number → List Item → Result Fault (List Item)
  unfolding is_visible
  visible_items me [] = ok []
  visible_items me (item ∷ items) =
      let rest = visible_items me items in
      is_visible me item >>= λ visible.
      rest >>= λ found. ok (if visible then item ∷ found else found)

  keep_group : Group → List Item → List Group → List Group
  keep_group group [] groups = groups
  keep_group group (item ∷ items) groups = record group { items = item ∷ items } ∷ groups

  unfoldable pub visible_groups : Value Number → List Group → Result Fault (List Group)
  unfolding visible_items keep_group
  visible_groups me [] = ok []
  visible_groups me (group ∷ groups) =
      let rest = visible_groups me groups in
      visible_items me group.items >>= λ items. rest >>= λ found. ok (keep_group group items found)

  unfoldable pub context_query : Context Number → Fields Number
  context_query context =
      let scope =
        if context.scope_id == "" then end else field "scope_id" (str context.scope_id) end in
      if context.project_key == ""
      then scope
      else field "project_key" (str context.project_key) scope

  unfoldable pub update_viewport : ℕ → Shell Number → Shell Number
  update_viewport width s = record s {
    is_mobile = ltb width 768;
    mobile_open = if ltb width 768 then s.mobile_open else false;
  }

  unfoldable pub toggle_sidebar : Shell Number → Shell Number
  toggle_sidebar s =
      if s.is_mobile then record s { mobile_open = not s.mobile_open } else record s {
        collapsed = not s.collapsed;
        stored_collapsed = some (if s.collapsed then "0" else "1");
      }

  -- `collapsed` when the page is loaded.
  unfoldable pub restored_collapsed : Option String → Bool
  restored_collapsed none = false
  restored_collapsed (some stored) = stored == "1"

  unfoldable pub close_mobile_navigation : Shell Number → Shell Number
  close_mobile_navigation s = if s.mobile_open then record s { mobile_open = false } else s

  unfoldable pub handle_keydown : String → Shell Number → Shell Number
  unfolding close_mobile_navigation
  handle_keydown key s = if key == "Escape" && s.mobile_open then close_mobile_navigation s else s

  -- The project of the user, and of the route where it has one.
  unfoldable pub principal_project : Value Number → Value Number
  principal_project me =
      let key = prop "project_key" me in if truthy key && not (is_text "*" key) then key else str ""

  unfoldable pub route_project : Fields Number → Value Number → String
  unfolding principal_project to_text
  route_project query me = to_text (get "project_key" query or (principal_project me or str ""))

  -- `hydrateContext`: the projects begin to load; when they are there the project is selected, and
  -- when that has ended the scope.
  unfoldable pub begin_hydrate : Shell Number → Shell Number
  unfolding load_projects
  begin_hydrate s =
      if truthy s.session.me then record s { context = load_projects false s.context } else s

  unfoldable pub hydrate_project : Fields Number → Shell Number → Shell Number
  unfolding route_project select_project
  hydrate_project query s =
      let key = route_project query s.session.me in
      if key == "" then s else record s { context = select_project (str key) false s.context }

  unfoldable pub hydrate_scope : Fields Number → Shell Number → Shell Number
  unfolding select_scope
  hydrate_scope query s =
      if truthy (get "scope_id" query)
      then record s { context = select_scope (get "scope_id" query) s.context }
      else s

  -- `syncContextFromRoute`: the project, and when its selection has ended the scope.
  unfoldable pub sync_project : Fields Number → Shell Number → Shell Number
  unfolding route_project select_project
  sync_project query s =
      let key = route_project query s.session.me in
      if key == s.context.project_key
      then s
      else record s { context = select_project (str key) false s.context }

  unfoldable pub sync_scope : Fields Number → Shell Number → Shell Number
  unfolding select_scope to_text
  sync_scope query s =
      let scope = to_text (get "scope_id" query or str "") in
      if scope == s.context.scope_id
      then s
      else record s { context = select_scope (str scope) s.context }

  -- The whole of it, when nothing else happens before the selection has ended.
  unfoldable pub sync_context_from_route : Fields Number → Shell Number → Shell Number
  unfolding sync_project sync_scope
  sync_context_from_route query s =
      if truthy s.session.me then sync_scope query (sync_project query s) else s

  -- The query of `changeProject` and `changeScope`; what is `undefined` leaves the URL.
  unfoldable pub project_query : Value Number → Fields Number → Fields Number
  unfolding set
  project_query value query = set "detail" undefined (
      set "page" undefined
        (set "scope_id" undefined (set "project_key" (value or undefined) query)))

  unfoldable pub change_project :
      Fields Number → Value Number → Shell Number → Shell Number × Move Number
  unfolding project_query select_project
  change_project query value s = (
    record s { context = select_project value false s.context },
    to_query (project_query value query),
  )

  unfoldable pub scope_query : Value Number → Fields Number → Fields Number
  unfolding set
  scope_query value query =
      set "detail" undefined (set "page" undefined (set "scope_id" (value or undefined) query))

  unfoldable pub change_scope :
      Fields Number → Value Number → Shell Number → Shell Number × Move Number
  unfolding scope_query select_scope
  change_scope query value s =
      (record s { context = select_scope value s.context }, to_query (scope_query value query))

  abbrev signed_out : Shell Number → Shell Number
  signed_out s = record s { session = logout s.session; context = reset s.context }

  unfoldable pub log_out : String → Shell Number → Shell Number × Move Number
  unfolding logout reset
  log_out full_path s = (signed_out s, to_login (("redirect", full_path) ∷ []))

  -- The event `admin:unauthorized`, on the page of this name.
  unfoldable pub handle_unauthorized :
      Option String → String → Cause → Shell Number → Shell Number × Move Number
  unfolding logout reset
  handle_unauthorized name full_path detail s = if is_login name then (s, stay) else (
    signed_out (record s { session_error = some detail }),
    to_login (("redirect", full_path) ∷ ("reason", "session_expired") ∷ []),
  )

  unfoldable pub handle_user_command : String → String → Shell Number → Shell Number × Move Number
  unfolding log_out
  handle_user_command command full_path s =
      if command == "logout" then log_out full_path s else (s, stay)

  -- The watcher of the path.
  unfoldable pub path_changed : Shell Number → Shell Number
  path_changed s = record s { mobile_open = false }
