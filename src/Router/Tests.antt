-- ===== src/Router/Tests.antt =====
-- Navigations at concrete inputs.

use codex_memory.Prelude.{◌≡◌, refl, ◌≢◌, ◌↔◌, ◌⊎◌, true, false, Option, none, some, [], ◌∷◌, ok}
use codex_memory.Js.{Value, undefined, str, obj, arr, nil, cons, of_entries, get}
use codex_memory.Js.Demo.{demo}
use codex_memory.Session.{Session, Failure, is_401, load}
use codex_memory.Router.{Meta, Route, allow, Target, before_each}
use codex_memory.Router.Permissions.{HasArray, Permitted}
use codex_memory.Router.Guard.{before_each-allow_iff}

abbrev reader : Value demo.Number
reader = obj (of_entries (("permissions", arr (cons (str "read") nil)) ∷ []))

abbrev visitor : Session demo.Number
visitor = load none none

abbrev user : Session demo.Number
user = load (some "t1") (some reader)

abbrev records_meta : Meta
records_meta = record {
  public = false;
  requires_auth = true;
  permission = some "read";
  any_permissions = none;
  active_menu = none;
  section = some "记忆数据";
  label = some "记忆账本";
}

abbrev records : Target demo.Number
records = record {
  name = some "records";
  full_path = "/records?page=2";
  query_redirect = undefined;
  meta = records_meta;
}

abbrev login : Target demo.Number
login = record records { name = some "login"; query_redirect = str "/records?page=2" }

abbrev no_failure : Option Failure
no_failure = none

array : HasArray user.me (str "read" ∷ [])
unfolding HasArray load get
array = (cons (str "read") nil, refl, refl)

before_each-allow_iff_example : (before_each user no_failure user records ≡ ok allow) ↔ (
    (user.token ≢ "")
    × (((error : Failure) × (no_failure ≡ some error) × (is_401 error ≡ false))
        ⊎ ((no_failure ≡ none) × Permitted (str "read" ∷ []) records_meta)))
before_each-allow_iff_example =
    before_each-allow_iff user none user records (str "read" ∷ []) refl refl array

abbrev dashboard : Route
dashboard = record {
  path = "/dashboard";
  name = some "dashboard";
  component = some "DashboardView";
  redirect = none;
  meta = record {
    public = false;
    requires_auth = true;
    permission = some "read";
    any_permissions = none;
    active_menu = none;
    section = some "总览";
    label = some "运行概览";
  };
}

abbrev to_dashboard_page : Target demo.Number
to_dashboard_page = record {
  name = some "dashboard";
  full_path = "/dashboard";
  query_redirect = undefined;
  meta = dashboard.meta;
}
