-- ===== src/Views/Dashboard.antt =====
-- apps/admin-web/src/views/DashboardView.vue: the loads of the dashboard, of which only the last is
-- shown, and the steps of its pipeline.
pub mod Cards
use codex_memory.Prelude.{
  ℕ, suc, ◌==◌, Bool, true, false, String, Option, none, some, List, [], ◌∷◌, if◌then◌else◌, nat_eq,
  Result, ok, throw, ◌>>=◌,
}
use codex_memory.Js.{
  Runtime, Value, str, obj, Items, Fields, end, field, get, spread, prop, truthy, is_text, ◌or◌,
  ◌otherwise◌,
}
use codex_memory.Api.{Request, admin_get}
use codex_memory.Contracts.{Fault, array_items}
use codex_memory.Session.{is_admin, has_permission}
use codex_memory.Pages.{Cause, member, literal}
use codex_memory.Views.Status.{has_keys}

pub record DashboardPage (N : Type 0) : Type 0 where
  pub loading : Bool
  pub refreshing : Bool
  pub error : Option Cause
  pub system_error : Option Cause
  pub dashboard : Value N
  pub system : Value N
  pub audits : Items N
  pub load_sequence : ℕ

-- How `load` ends: it leaves a state, or rejects after it has changed some of it.
pub data Ended (N : Type 0) : Type 0 where
  ended : DashboardPage N → Ended N
  rejected : DashboardPage N → Cause → Ended N

module _ ⦃rt : Runtime⦄ where
  open rt use {Number, number_of}

  unfoldable pub can_read_system : Value Number → Result Fault Bool
  unfolding is_admin has_permission
  can_read_system me =
      is_admin me >>= λ admin. if admin then ok true else has_permission me "operations_read"

  unfoldable pub query_context : Fields Number → Fields Number
  query_context query =
      if truthy (get "project_key" query)
      then field "project_key" (get "project_key" query) end
      else end

  unfoldable pub begin_load : Bool → DashboardPage Number → DashboardPage Number
  begin_load manual s = record s {
    load_sequence = suc s.load_sequence;
    refreshing = if manual then true else s.refreshing;
    loading = if manual then s.loading else (if has_keys s.dashboard then s.loading else true);
    error = none;
    system_error = none;
  }

  -- The requests of `load`; without the permission the state of the system is not asked for.
  unfoldable pub load_requests : String → Bool → Fields Number → List (Request Number)
  unfolding query_context spread admin_get
  load_requests token may_read query =
      let context = query_context query in
      admin_get token "/dashboard" context
      ∷ admin_get token "/audit-events" (
          spread context (
            field "page" (literal "1") (
              field "page_size" (literal "6")
                (field "sort" (str "created_at") (field "order" (str "desc") end)))))
      ∷ (if may_read then admin_get token "/system/status" context ∷ [] else [])

  abbrev idle : DashboardPage Number → DashboardPage Number
  idle s = record s { loading = false; refreshing = false }

  system_shown : Result Cause (Value Number) → DashboardPage Number → Ended Number
  unfolding member
  system_shown (throw cause) s = ended (idle (record s { system_error = some cause }))
  system_shown (ok result) s = elim (member "data" result) [
    | ok body ↦ ended (idle (record s { system = body or obj end }))
    | throw cause ↦ rejected s cause
  ]

  audits_shown :
      Result Cause (Value Number)
      → Result Cause (Value Number)
      → DashboardPage Number
      → Ended Number
  unfolding member system_shown
  audits_shown (throw cause) system s = system_shown system s
  audits_shown (ok result) system s = elim (member "data" result) [
    | ok body ↦ system_shown system (record s { audits = array_items body })
    | throw cause ↦ rejected s cause
  ]

  unfoldable pub all_shown :
      Result Cause (Value Number)
      → Result Cause (Value Number)
      → Result Cause (Value Number)
      → DashboardPage Number
      → Ended Number
  unfolding member audits_shown
  all_shown (throw cause) audits system s =
      audits_shown audits system (record s { error = some cause })
  all_shown (ok result) audits system s = elim (member "data" result) [
    | ok body ↦ audits_shown audits system (record s { dashboard = body or obj end })
    | throw cause ↦ rejected s cause
  ]

  -- The rest of the load of this number, when its three requests are settled.
  unfoldable pub finish_load :
      ℕ
      → Result Cause (Value Number)
      → Result Cause (Value Number)
      → Result Cause (Value Number)
      → DashboardPage Number
      → Ended Number
  unfolding all_shown
  finish_load sequence dashboard audits system s =
      if nat_eq sequence s.load_sequence then all_shown dashboard audits system s else ended s

  -- The query that `open(target, extra)` navigates with, `none` where there is no target.
  unfoldable pub open_query : String → Fields Number → Fields Number → Option (Fields Number)
  unfolding query_context spread
  open_query target query extra =
      if target == "" then none else some (spread (query_context query) extra)

  -- The status of the pulse of the database and of the migration; restricted without the permission.
  unfoldable pub database_pulse : Bool → DashboardPage Number → Value Number
  database_pulse may_read s =
      if may_read then (prop "database" s.system or str "unknown") else str "restricted"

  unfoldable pub migration_pulse : Bool → DashboardPage Number → String
  migration_pulse may_read s =
      if may_read
      then (if is_text "ok" (prop "migration_schema" s.system) then "ok" else "pending")
      else "restricted"

  abbrev pipeline : DashboardPage Number → Value Number
  pipeline s = prop "pipeline" s.dashboard or obj end

  abbrev level_counts : DashboardPage Number → Value Number
  level_counts s = prop "memories_by_level" (pipeline s) or (prop "levels" (pipeline s) or obj end)

  abbrev level_value : String → String → DashboardPage Number → Value Number
  level_value small capital s =
      prop small (pipeline s)
      otherwise (prop capital (level_counts s)
          otherwise (prop small (level_counts s) otherwise literal "0"))

  -- The numbers of the steps of the pipeline.
  unfoldable pub pipeline_values : DashboardPage Number → List (Value Number)
  pipeline_values s =
      (prop "raw_records" (pipeline s)
        otherwise (prop "raw_records" s.dashboard otherwise literal "0"))
      ∷ (prop "candidates" (pipeline s)
          otherwise (prop "candidates" s.dashboard otherwise literal "0"))
      ∷ level_value "l1" "L1" s
      ∷ level_value "l2" "L2" s
      ∷ level_value "l3" "L3" s
      ∷ []
