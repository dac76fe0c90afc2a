-- ===== src/Contracts.antt =====
-- apps/admin-web/src/contractServices.js: contract services, their revisions and the calls about them.
pub mod Paths
pub mod Services
pub mod Publishing
pub mod Projects
pub mod Pages
mod Tests
use codex_memory.Prelude.{
  ℕ, zero, suc, ◌==◌, Bool, true, false, not, ◌&&◌, ◌||◌, String, ◌<>◌, List, [], ◌∷◌, map, Result,
  ok, throw, ◌>>=◌, if◌then◌else◌, leb, nat_eq, any, length,
}
use codex_memory.Prelude.Text.{codes, trim}
use codex_memory.Prelude.Uri.{encode_uri_component}
use codex_memory.Js.{
  Runtime, Value, undefined, null, bool, num, str, arr, obj, Items, nil, cons, Fields, end, field,
  get, has, set, prop, items, of_items, is_nullish, is_object, is_text, truthy, ◌or◌, ◌otherwise◌,
  to_text, to_number, copied, strict_eq,
}
use codex_memory.Api.{Request, admin_get, admin_post, admin_upload}
use codex_memory.TaskRuns.{compact_params, Pagination, array_or_empty}

abbrev pub contract_status_options : List (String × String)
contract_status_options = ("proposed", "待发布") ∷ ("published", "已发布") ∷ ("superseded", "已被替代") ∷ []

-- The engine's error for a property read on `null` and for a call of what is no function.
pub data Fault : Type 0 where
  type_error : Fault

-- `payload && Object.prototype.hasOwnProperty.call(payload, 'data') ? payload.data : {}`
abbrev pub unwrap_data : {N : Type 0} → Value N → Value N
unwrap_data (obj fs) = if has "data" fs then get "data" fs else obj end
unwrap_data _ = obj end

abbrev pub array_items : {N : Type 0} → Value N → Items N
array_items (arr xs) = xs
array_items _ = nil

abbrev pub is_array : {N : Type 0} → Value N → Bool
is_array (arr xs) = true
is_array _ = false

-- The characters of `[a-z0-9]` and of `[a-z0-9._-]`.
abbrev pub key_start : ℕ → Bool
key_start c = (leb b'a' c && leb c b'z') || (leb b'0' c && leb c b'9')

abbrev pub key_char : ℕ → Bool
key_char c = key_start c || nat_eq c b'.' || nat_eq c b'_' || nat_eq c b'-'

-- `[a-z0-9._-]{0,most}$`
key_run : ℕ → List ℕ → Bool
key_run most [] = true
key_run zero (c ∷ rest) = false
key_run (suc most) (c ∷ rest) = key_char c && key_run most rest

-- `/^[a-z0-9][a-z0-9._-]{1,79}$/`
unfoldable pub matches_service_key : List ℕ → Bool
unfolding key_run
matches_service_key (a ∷ b ∷ rest) = key_start a && key_char b && key_run 78 rest
matches_service_key _ = false

module _ ⦃rt : Runtime⦄ where
  open rt use {Number, number_of}

  abbrev pub list_params : Fields Number → Fields Number
  list_params filters = field "project_key" (get "projectKey" filters) (
      field "status" (get "status" filters) (
        field "keyword" (get "keyword" filters) (
          field "page" (get "page" filters or num (number_of "1"))
            (field "page_size" (get "pageSize" filters or num (number_of "20")) end))))

  -- `compactContractParams` has the text of `compactParams` of the task runs.
  unfoldable pub build_contract_service_list_params : Fields Number → Fields Number
  build_contract_service_list_params filters = compact_params (list_params filters)

  unfoldable pub service_path : Value Number → String
  service_path service_id = "/contract-services/" <> encode_uri_component (to_text service_id)

  unfoldable pub revision_path : Value Number → Value Number → String
  unfolding service_path
  revision_path service_id revision_number =
      service_path service_id <> ("/revisions/" <> encode_uri_component (to_text revision_number))

  -- `revisions.find((item) => item.id === id)`
  pub find_revision : Value Number → Items Number → Result Fault (Value Number)
  find_revision id nil = ok undefined
  find_revision id (cons item more) =
      if is_nullish item
      then throw type_error
      else if strict_eq (prop "id" item) id
      then ok item
      else find_revision id more

  -- The object that a service is read from.
  unfoldable pub service_source : Value Number → Fields Number
  unfolding copied
  service_source value =
      if is_object (prop "service" value)
      then set "revisions" (prop "revisions" value or arr nil) (copied (prop "service" value))
      else copied (value or obj end)

  abbrev pub derived_status : Fields Number → Items Number → Value Number
  derived_status source nil =
      if not (is_nullish (get "current_published_revision_id" source))
      then str "published"
      else str "empty"
  derived_status source (cons item more) =
      if not (is_nullish (get "current_published_revision_id" source))
      then str "published"
      else str "proposed"

  unfoldable pub normalize_source : Fields Number → Result Fault (Fields Number)
  unfolding find_revision
  normalize_source source = do
    let revisions = array_items (get "revisions" source)
    current ← find_revision (get "current_published_revision_id" source) revisions
    ok (
        set "published_revision_number"
          (get "published_revision_number" source
            otherwise (prop "revision_number" current otherwise null))
          (set "status" (get "status" source or derived_status source revisions)
            (set "revisions" (arr revisions) source)))

  unfoldable pub normalize_contract_service : Value Number → Result Fault (Fields Number)
  normalize_contract_service value = normalize_source (service_source value)

  normalize_all : Items Number → Result Fault (Items Number)
  normalize_all nil = ok nil
  normalize_all (cons v more) = do
    service ← normalize_contract_service v
    services ← normalize_all more
    ok (cons (obj service) services)

  -- `services.map(…)`, which only an array has.
  map_services : Value Number → Result Fault (Items Number)
  unfolding normalize_all
  map_services (arr xs) = normalize_all xs
  map_services _ = throw type_error

  unfoldable pub extract_contract_services : Value Number → Result Fault (Items Number)
  unfolding map_services
  extract_contract_services payload =
      let found = unwrap_data payload in
      if is_array found
      then map_services found
      else map_services ((prop "items" found or prop "services" found) or arr nil)

  unfoldable pub extract_contract_service : Value Number → Result Fault (Fields Number)
  extract_contract_service payload = normalize_contract_service (unwrap_data payload)

  -- `typeof item?.project_key === 'string' && item.project_key.trim()`
  unfoldable pub has_project_key : Value Number → Bool
  unfolding trim
  has_project_key item = elim (prop "project_key" item) [ str s ↦ not (trim s == "") | _ ↦ false ]

  pub projects_in : List (Value Number) → List (Value Number)
  projects_in [] = []
  projects_in (item ∷ more) =
      if has_project_key item then item ∷ projects_in more else projects_in more

  unfoldable pub extract_contract_projects : Value Number → List (Value Number)
  unfolding projects_in
  extract_contract_projects payload = projects_in (items (array_items (unwrap_data payload)))

  abbrev pub only_key : List (Value Number) → Value Number
  only_key (key ∷ []) = key
  only_key _ = str ""

  abbrev pub choose : String → List (Value Number) → Value Number
  choose principal keys =
      if not (principal == "") && not (principal == "*") && any (is_text principal) keys
      then str principal
      else only_key keys

  -- The projects are what `extractContractProjects` gives.
  unfoldable pub resolve_contract_project_key : List (Value Number) → Value Number → Value Number
  resolve_contract_project_key projects principal_project_key =
      choose (trim (to_text (principal_project_key or str ""))) (map (prop "project_key") projects)

  unfoldable pub get_contract_revision_markdown : Value Number → Value Number
  get_contract_revision_markdown revision =
      (prop "markdown_document" revision otherwise prop "markdown" revision) otherwise str ""

  -- The validation record that a revision is judged by.
  abbrev pub validation_of : Fields Number → Value Number
  validation_of revision =
      ((get "validation" revision or get "validation_result" revision)
        or get "validation_summary" revision)
      or obj end

  -- The first of the two that is an array, or no items.
  abbrev pub first_array : Value Number → Value Number → Items Number
  first_array (arr xs) fallback = xs
  first_array _ fallback = array_items fallback

  abbrev pub validation_errors : Fields Number → Items Number
  validation_errors revision =
      first_array (prop "errors" (validation_of revision)) (get "validation_errors" revision)

  abbrev pub validation_warnings : Fields Number → Items Number
  validation_warnings revision =
      first_array (prop "warnings" (validation_of revision)) (get "warnings" revision)

  abbrev pub is_empty : Items Number → Bool
  is_empty nil = true
  is_empty _ = false

  unfoldable pub can_publish_contract_revision : Fields Number → Bool
  can_publish_contract_revision revision =
      is_text "proposed" (get "status" revision)
      && truthy (get "content_hash" revision)
      && is_empty (validation_errors revision)

  unfoldable pub is_stable_service_key : Value Number → Bool
  unfolding trim to_text matches_service_key
  is_stable_service_key value = matches_service_key (codes (trim (to_text (value or str ""))))

  unfoldable pub extract_pagination : Value Number → Value Number → Value Number → Pagination
  extract_pagination payload fallback_page fallback_page_size =
      let meta = prop "meta" payload or obj end in
      let pagination = prop "pagination" meta or meta in
      record {
        page = to_number (prop "page" pagination or fallback_page);
        page_size =
            to_number
              ((prop "page_size" pagination or prop "pageSize" pagination) or fallback_page_size);
        total = to_number (prop "total" pagination or num (number_of "0"));
        has_next =
            truthy (
              (prop "has_next" pagination otherwise prop "hasNext" pagination)
              otherwise bool false);
      }

  unfoldable pub list_contract_services : String → Fields Number → Request Number
  list_contract_services token params = admin_get token "/contract-services" params

  unfoldable pub list_contract_projects : String → Request Number
  list_contract_projects token =
      admin_get token "/projects"
        (field "page" (num (number_of "1")) (field "page_size" (num (number_of "100")) end))

  unfoldable pub create_contract_service : String → Value Number → Request Number
  create_contract_service token body = admin_post token "/contract-services" body end

  unfoldable pub get_contract_service : String → Value Number → Request Number
  get_contract_service token service_id = admin_get token (service_path service_id) end

  unfoldable pub upload_contract_revision : String → Value Number → String → Request Number
  upload_contract_revision token service_id file =
      admin_upload token (service_path service_id <> "/revisions") file end

  unfoldable pub get_contract_revision : String → Value Number → Value Number → Request Number
  get_contract_revision token service_id revision_number =
      admin_get token (revision_path service_id revision_number) end

  unfoldable pub publish_contract_revision :
      String → Value Number → Value Number → Value Number → Request Number
  publish_contract_revision token service_id revision_number expected_content_hash =
      admin_post token (revision_path service_id revision_number <> "/publish")
        (obj (field "expected_content_hash" expected_content_hash end)) end
