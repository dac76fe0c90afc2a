-- ===== src/Views/Projects.antt =====
-- apps/admin-web/src/views/ProjectsView.vue: the list of projects, filtered and cut into pages in the
-- browser, and the drawer of one project. The number of a page is a natural number here.
use text.Mathlib.Text.{find?}
use codex_memory.Prelude.{
  ℕ, ◌+◌, ◌-◌, ◌*◌, ◌/◌, ◌==◌, ◌&&◌, ◌||◌, Bool, true, false, String, ◌<>◌, Option, none, some,
  List, [], ◌∷◌, if◌then◌else◌, ltb, length, take, drop, any, Result, ok, throw,
}
use codex_memory.Prelude.Text.{trim, decimal}
use codex_memory.Prelude.Uri.{encode_uri_component}
use codex_memory.Js.{
  Runtime, Value, null, str, Items, nil, items, Fields, end, field, spread, prop, lower, is_text,
  ◌or◌, ◌otherwise◌, to_text,
}
use codex_memory.Api.{Request, admin_get}
use codex_memory.Contracts.{array_items}
use codex_memory.Pages.{Cause, member, literal}

pub record ProjectsPage (N : Type 0) : Type 0 where
  pub keyword : String
  pub status : String
  pub page : ℕ
  pub page_size : ℕ
  pub all_rows : List (Value N)
  pub loading : Bool
  pub error : Option Cause
  pub detail_loading : Bool
  pub detail_error : Option Cause
  pub detail : Value N
  pub scopes : Items N

-- How `loadDetail` ends: it leaves a state, or rejects after it has changed some of it.
pub data Ended (N : Type 0) : Type 0 where
  ended : ProjectsPage N → Ended N
  rejected : ProjectsPage N → Cause → Ended N

-- `text.includes(part)`
abbrev includes_text : String → String → Bool
includes_text part text = elim (find? part text) [ none ↦ false | some at ↦ true ]

-- `Math.max(1, Math.ceil(n / size))` for a positive size.
abbrev pub max_page : ℕ → ℕ → ℕ
max_page n size = let pages = (n + (size - 1)) / size in if ltb pages 1 then 1 else pages

module _ ⦃rt : Runtime⦄ where
  open rt use {Number}

  abbrev has_keyword : String → Value Number → Value Number → Bool
  has_keyword keyword row value = includes_text keyword (lower (to_text (value or str "")))

  -- The test of `filteredRows`. Rows are objects.
  unfoldable pub matches : String → String → Value Number → Bool
  unfolding lower to_text
  matches keyword status row =
      (keyword == ""
        || any (has_keyword keyword row) (
            prop "name" row
            ∷ prop "project_key" row
            ∷ prop "repository" row
            ∷ prop "description" row
            ∷ []))
      && (status == "" || is_text status (prop "status" row))

  abbrev filter_rows : (Value Number → Bool) → List (Value Number) → List (Value Number)
  filter_rows p [] = []
  filter_rows p (row ∷ rows) = let rest = filter_rows p rows in if p row then row ∷ rest else rest

  unfoldable pub filtered_rows : ProjectsPage Number → List (Value Number)
  unfolding trim lower matches
  filtered_rows s = filter_rows (matches (lower (trim s.keyword)) s.status) s.all_rows

  -- `slice((page - 1) * size, page * size)`
  unfoldable pub page_rows : ℕ → ℕ → List (Value Number) → List (Value Number)
  page_rows page size rows = take (page * size - (page - 1) * size) (drop ((page - 1) * size) rows)

  unfoldable pub rows : ProjectsPage Number → List (Value Number)
  unfolding filtered_rows page_rows
  rows s = page_rows s.page s.page_size (filtered_rows s)

  unfoldable pub begin_load : ProjectsPage Number → ProjectsPage Number
  begin_load s = record s { loading = true; error = none }

  unfoldable pub load_request : String → Request Number
  unfolding admin_get
  load_request token = admin_get token "/projects" (
      field "page" (literal "1") (
        field "page_size" (literal "200")
          (field "sort" (str "project_key") (field "order" (str "asc") end))))

  abbrev pub in_range : ProjectsPage Number → ProjectsPage Number
  in_range s =
      let last = max_page (length (filtered_rows s)) s.page_size in
      record s { page = if ltb last s.page then last else s.page }

  -- The rest of `load`: a page behind the last one becomes the last one.
  unfoldable pub finish_load :
      Result Cause (Value Number) → ProjectsPage Number → ProjectsPage Number
  unfolding member filtered_rows
  finish_load (throw cause) s = record s { all_rows = []; error = some cause; loading = false }
  finish_load (ok result) s = elim (member "data" result) [
    | throw cause ↦ record s { all_rows = []; error = some cause; loading = false }
    | ok body ↦ in_range (record s { all_rows = items (array_items body); loading = false })
  ]

  -- `loadDetail(projectKey)` up to its await.
  unfoldable pub begin_detail : String → ProjectsPage Number → ProjectsPage Number
  begin_detail key s =
      if key == ""
      then record s { detail = null; scopes = nil }
      else record s { detail_loading = true; detail_error = none }

  unfoldable pub detail_requests : String → String → Request Number × Request Number
  unfolding encode_uri_component admin_get
  detail_requests token key =
      let path = "/projects/" <> encode_uri_component key in
      (
        admin_get token path end,
        admin_get token (path <> "/scopes")
            (field "page" (literal "1") (field "page_size" (literal "200") end)),
      )

  scopes_shown : Result Cause (Value Number) → ProjectsPage Number → Ended Number
  unfolding member
  scopes_shown (throw cause) s = ended (record s { detail_loading = false })
  scopes_shown (ok result) s = elim (member "data" result) [
    | ok body ↦ ended (record s { scopes = array_items body; detail_loading = false })
    | throw cause ↦ rejected s cause
  ]

  -- The rest of `loadDetail`, when its two requests are settled.
  unfoldable pub finish_detail :
      Result Cause (Value Number) → Result Cause (Value Number) → ProjectsPage Number → Ended Number
  unfolding member scopes_shown
  finish_detail (throw cause) scopes s =
      scopes_shown scopes (record s { detail_error = some cause })
  finish_detail (ok result) scopes s = elim (member "data" result) [
    | ok body ↦ scopes_shown scopes (record s { detail = body or null })
    | throw cause ↦ rejected s cause
  ]

  -- `applyFilters`, `resetFilters`, `openDetail` and `changePagination`: what they commit to the query.
  unfoldable pub filters_applied : ProjectsPage Number → Fields Number
  unfolding trim
  filters_applied s =
      field "keyword" (str (trim s.keyword))
        (field "status" (str s.status) (field "page" (literal "1") end))

  abbrev pub filters_reset : Fields Number
  filters_reset =
      field "keyword" (str "") (field "status" (str "") (field "page" (literal "1") end))

  unfoldable pub detail_opened : Value Number → Fields Number
  detail_opened row = field "detail" (prop "project_key" row) end

  unfoldable pub pagination_changed : Value Number → ProjectsPage Number → Fields Number
  unfolding decimal
  pagination_changed value s =
      field "page" (prop "page" value otherwise literal (decimal s.page))
        (field "page_size" (prop "pageSize" value otherwise literal (decimal s.page_size)) end)

  -- The query of `openProject(path, extra)`, for the project whose detail is open.
  unfoldable pub project_query : String → Fields Number → Fields Number
  unfolding spread
  project_query detail extra = spread (field "project_key" (str detail) end) extra
