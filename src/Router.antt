-- ===== src/Router.antt =====
-- apps/admin-web/src/router.js: the table of routes and the guard that runs before each navigation.
-- How vue-router finds a target's route is not modelled: a target is what the guard reads of it.
pub mod Permissions
pub mod Guard
mod Tests
use codex_memory.Prelude.{
  ◌==◌, Bool, true, false, not, ◌&&◌, String, Option, none, some, List, [], ◌∷◌, Result, ok, throw,
  ◌>>=◌, if◌then◌else◌,
}
use codex_memory.Js.{Runtime, Value, str, ◌or◌, to_text}
use codex_memory.Contracts.{Fault}
use codex_memory.Session.{Session, Failure, is_401, has_permission}

-- A route's `meta`. A key that the route does not have reads as false, or as `none`.
pub record Meta : Type 0 where
  pub public : Bool
  pub requires_auth : Bool
  pub permission : Option String
  pub any_permissions : Option (List String)
  pub active_menu : Option String
  pub section : Option String
  pub label : Option String

-- `to_records` keeps the query.
pub data Redirect : Type 0 where
  to_dashboard to_records : Redirect

pub record Route : Type 0 where
  pub path : String
  pub name : Option String
  pub component : Option String
  pub redirect : Option Redirect
  pub meta : Meta

abbrev no_meta : Meta
no_meta = record {
  public = false;
  requires_auth = false;
  permission = none;
  any_permissions = none;
  active_menu = none;
  section = none;
  label = none;
}

abbrev open_meta : String → Meta
open_meta label = record no_meta { public = true; label = some label }

abbrev reader_meta : String → String → Meta
reader_meta section label = record no_meta {
  requires_auth = true;
  permission = some "read";
  section = some section;
  label = some label;
}

abbrev child_meta : String → String → String → Meta
child_meta menu section label = record (reader_meta section label) { active_menu = some menu }

abbrev page : String → String → String → Meta → Route
page path name component meta = record {
  path = path;
  name = some name;
  component = some component;
  redirect = none;
  meta = meta;
}

abbrev moved : String → Redirect → Meta → Route
moved path redirect meta = record {
  path = path;
  name = none;
  component = none;
  redirect = some redirect;
  meta = meta;
}

unfoldable pub routes : List Route
routes =
    page "/login" "login" "LoginView" (open_meta "登录")
    ∷ moved "/" to_dashboard no_meta
    ∷ page "/dashboard" "dashboard" "DashboardView" (reader_meta "总览" "运行概览")
    ∷ page "/projects" "projects" "ProjectsView" (reader_meta "记忆数据" "项目与 Scope")
    ∷ moved "/record" to_records (record no_meta { requires_auth = true })
    ∷ page "/system-status" "system-status" "SystemStatusView" (record no_meta {
      requires_auth = true;
      any_permissions = some ("admin" ∷ "operations_read" ∷ []);
      section = some "运行监控";
      label = some "系统状态";
    })
    ∷ page "/records" "records" "RecordsView" (reader_meta "记忆数据" "记忆账本")
    ∷ page "/imports" "imports" "ImportView" (reader_meta "数据治理" "历史知识导入")
    ∷ page "/task-runs" "task-runs" "TaskRunsView" (reader_meta "运行监控" "任务报告")
    ∷ page "/task-runs/:id" "task-run-detail" "TaskRunDetailView"
        (child_meta "/task-runs" "运行监控" "任务运行详情")
    ∷ page "/contract-services" "contract-services" "ContractServicesView"
        (reader_meta "接口治理" "接口契约")
    ∷ page "/contract-services/:serviceId" "contract-service-detail" "ContractServiceDetailView"
        (child_meta "/contract-services" "接口治理" "契约服务详情")
    ∷ page "/contract-services/:serviceId/revisions/:revisionNumber" "contract-revision-detail"
        "ContractRevisionDetailView" (child_meta "/contract-services" "接口治理" "接口契约 Revision 详情")
    ∷ page "/forbidden" "forbidden" "ForbiddenView"
        (record no_meta { requires_auth = true; label = some "无权访问" })
    ∷ page "/:pathMatch(.*)*" "not-found" "NotFoundView" (open_meta "页面不存在")
    ∷ []

-- What the guard returns: `true`, a path, or the name of a route with its query.
pub data Verdict : Type 0 where
  allow : Verdict
  to_path : String → Verdict
  to_route : String → List (String × String) → Verdict

-- What the guard reads of its target: the name, the full path, `query.redirect` and the `meta`.
pub record Target (N : Type 0) : Type 0 where
  pub name : Option String
  pub full_path : String
  pub query_redirect : Value N
  pub meta : Meta

abbrev pub is_named : String → Option String → Bool
is_named name none = false
is_named name (some other) = other == name

-- Whether `meta.permission` is truthy.
abbrev pub required : Option String → Option String
required none = none
required (some permission) = if permission == "" then none else some permission

abbrev pub to_login : {N : Type 0} → Target N → List (String × String) → Verdict
to_login to more = to_route "login" (("redirect", to.full_path) ∷ more)

abbrev pub to_forbidden : {N : Type 0} → Target N → Verdict
to_forbidden to = to_route "forbidden" (("from", to.full_path) ∷ [])

module _ ⦃rt : Runtime⦄ where
  open rt use {Number}

  -- `anyPermissions.some((item) => session.hasPermission(item))`
  unfoldable pub has_any : Value Number → List String → Result Fault Bool
  has_any me [] = ok false
  has_any me (permission ∷ permissions) = do
    granted ← has_permission me permission
    if granted then ok true else has_any me permissions

  unfoldable pub check_permission : Value Number → Option String → Result Fault Bool
  check_permission me none = ok true
  check_permission me (some permission) = has_permission me permission

  unfoldable pub check_any : Value Number → Option (List String) → Result Fault Bool
  check_any me none = ok true
  check_any me (some permissions) = has_any me permissions

  -- The guard's two last tests, once the session is ensured.
  unfoldable pub permits : Value Number → Meta → Result Fault Bool
  permits me meta = do
    permitted ← check_permission me (required meta.permission)
    if permitted then check_any me meta.any_permissions else ok false

  unfoldable pub authorize : Value Number → Target Number → Result Fault Verdict
  authorize me to = do
    permitted ← permits me to.meta
    ok (if permitted then allow else to_forbidden to)

  -- What follows `await session.ensureSession()` on a target that requires a user.
  unfoldable pub resume : Option Failure → Value Number → Target Number → Result Fault Verdict
  resume none me to = authorize me to
  resume (some error) me to =
      if is_401 error then ok (to_login to (("reason", "session_expired") ∷ [])) else ok allow

  -- The guard that runs before each navigation. `await session.ensureSession()` ends with an error or
  -- without one, and leaves the session as `after`.
  unfoldable pub before_each :
      Session Number → Option Failure → Session Number → Target Number → Result Fault Verdict
  unfolding to_text
  before_each s failure after to =
      if is_named "login" to.name
      then if s.token == "" then ok allow else elim failure [
        | none ↦ ok (to_path (to_text (to.query_redirect or str "/dashboard")))
        | some error ↦ ok allow
      ]
      else if not to.meta.requires_auth
      then ok allow
      else if s.token == ""
      then ok (to_login to [])
      else resume failure after.me to
