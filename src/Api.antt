-- ===== src/Api.antt =====
-- apps/admin-web/src/api.js: the query, the headers and the outcome of a request to the admin API.
pub mod Query
pub mod Outcome
mod Tests
use codex_memory.Prelude.{
  ℕ, ◌==◌, Bool, true, false, not, ◌&&◌, ◌||◌, String, ◌<>◌, Option, none, some, List, [], ◌∷◌,
  ◌++◌, if◌then◌else◌, leb, nat_eq, any,
}
use codex_memory.Prelude.Text.{decimal}
use codex_memory.Js.{
  Runtime, Value, undefined, null, bool, num, str, arr, obj, Items, nil, cons, Fields, end, field,
  get, prop, items, is_nullish, truthy, ◌or◌, to_text,
}

-- The pairs of a query string.
abbrev pub SearchParams : Type 0
SearchParams = List (String × String)

unfoldable pub remove_key : String → SearchParams → SearchParams
remove_key key [] = []
remove_key key ((k, v) ∷ pairs) =
    if k == key then remove_key key pairs else (k, v) ∷ remove_key key pairs

-- `URLSearchParams.set`: the first pair of the key is replaced and its others are removed.
unfoldable pub set_param : String → String → SearchParams → SearchParams
unfolding remove_key
set_param key value [] = (key, value) ∷ []
set_param key value ((k, v) ∷ pairs) =
    if k == key then (key, value) ∷ remove_key key pairs else (k, v) ∷ set_param key value pairs

-- `URLSearchParams.append`
abbrev pub append_param : String → String → SearchParams → SearchParams
append_param key value pairs = pairs ++ (key, value) ∷ []

abbrev pub status_messages : List (ℕ × String)
status_messages =
    (400, "请求内容有误，请检查后重试。")
    ∷ (401, "登录状态已失效，请重新登录。")
    ∷ (403, "当前账号没有执行此操作的权限。")
    ∷ (404, "未找到请求的数据，内容可能已被移除。")
    ∷ (409, "数据已发生变化，请刷新后重试。")
    ∷ (413, "文件过大，请压缩或拆分后重试。")
    ∷ (422, "部分输入不符合要求，请检查表单。")
    ∷ (429, "请求过于频繁，请稍后重试。")
    ∷ (500, "服务暂时不可用，请稍后重试。")
    ∷ (502, "上游服务暂时不可用，请稍后重试。")
    ∷ (503, "服务正在维护，请稍后重试。")
    ∷ []

unfoldable pub status_message : List (ℕ × String) → ℕ → Option String
status_message [] status = none
status_message ((s, message) ∷ more) status =
    if nat_eq s status then some message else status_message more status

-- What a request sends: nothing, the JSON text of a value, or a form with one file.
pub data Body (N : Type 0) : Type 0 where
  no_body : Body N
  json : Value N → Body N
  form : String → Body N

pub record Options (N : Type 0) : Type 0 where
  pub method : String
  pub body : Body N
  pub skip_unauthorized : Bool
  pub headers : List (String × String)

-- A request as it is handed to `fetch`.
pub record Request (N : Type 0) : Type 0 where
  pub method : String
  pub path : String
  pub search : SearchParams
  pub headers : List (String × String)
  pub body : Body N

-- What `fetch` gives back: an abort, a failure to connect, or a response with its JSON payload,
-- `none` where the body is no JSON, and the header `x-request-id`.
pub data Fetched (N : Type 0) : Type 0 where
  aborted unreachable : Fetched N
  response : ℕ → Option (Value N) → Option String → Fetched N

pub record AdminApiError (N : Type 0) : Type 0 where
  pub message : String
  pub status : ℕ
  pub code : Value N
  pub meta : Value N
  pub request_id : Value N
  pub payload : Value N

-- How `request` ends. `type_error` is the engine's, from a property read on `null`.
pub data Settled (N : Type 0) : Type 0 where
  fulfilled : Value N → Settled N
  abort_error type_error : Settled N
  api_error : AdminApiError N → Settled N

abbrev pub of_option : {N : Type 0} → Option String → Value N
of_option none = null
of_option (some s) = str s

-- `{ ...headers, [key]: value }`
abbrev pub set_header : String → String → List (String × String) → List (String × String)
set_header key value headers = set_param key value headers

set_headers : List (String × String) → List (String × String) → List (String × String)
set_headers headers [] = headers
set_headers headers ((k, v) ∷ more) = set_headers (set_header k v headers) more

-- `options.body && !isFormData`; the JSON text of a value is never empty.
abbrev pub sends_json : {N : Type 0} → Body N → Bool
sends_json no_body = false
sends_json (json undefined) = false
sends_json (json v) = true
sends_json (form file) = false

unfoldable pub request_headers : {N : Type 0} → String → Options N → List (String × String)
unfolding set_headers set_param
request_headers token options =
    let accept = ("Accept", "application/json") ∷ [] in
    let typed =
      if sends_json options.body
      then set_header "Content-Type" "application/json" accept
      else accept in
    let authorized =
      if not (token == "") then set_header "Authorization" ("Bearer " <> token) typed else typed in
    set_headers authorized options.headers

module _ ⦃rt : Runtime⦄ where
  open rt use {Number}

  append_items : String → List (Value Number) → SearchParams → SearchParams
  append_items key [] pairs = pairs
  append_items key (item ∷ more) pairs =
      append_items key more (append_param key (to_text item) pairs)

  -- One round of `appendQuery`.
  unfoldable pub append_entry : String → Value Number → SearchParams → SearchParams
  unfolding append_items
  append_entry key undefined pairs = pairs
  append_entry key null pairs = pairs
  append_entry key (arr xs) pairs = append_items key (items xs) pairs
  append_entry key (str s) pairs = if s == "" then pairs else set_param key s pairs
  append_entry key value pairs = set_param key (to_text value) pairs

  unfoldable pub append_query : SearchParams → Fields Number → SearchParams
  unfolding append_entry
  append_query pairs end = pairs
  append_query pairs (field key value more) = append_query (append_entry key value pairs) more

  -- The request of a call; the token is what the local storage holds, or empty.
  unfoldable pub build_request : String → String → Options Number → Fields Number → Request Number
  unfolding request_headers append_query
  build_request token path options params = record {
    method = options.method;
    path = path;
    search = append_query [] params;
    headers = request_headers token options;
    body = options.body;
  }

  -- `payload.error?.message || STATUS_MESSAGES[status] || …`, as `Error` turns it into a text.
  unfoldable pub error_message : ℕ → Value Number → String
  unfolding status_message decimal
  error_message status payload =
      let message = prop "message" (prop "error" payload) in
      if truthy message then to_text message else elim (status_message status_messages status) [
        | some known ↦ known
        | none ↦ "请求失败（HTTP " <> (decimal status <> "）。")
      ]

  -- The error of a response that is not ok.
  unfoldable pub response_error : ℕ → Value Number → Option String → AdminApiError Number
  unfolding error_message
  response_error status payload header = record {
    message = error_message status payload;
    status = status;
    code = prop "code" (prop "error" payload) or str "request_failed";
    meta = (prop "meta" (prop "error" payload) or prop "meta" payload) or obj end;
    request_id = (prop "request_id" payload or of_option header) or str "";
    payload = payload or null;
  }

  abbrev pub network_error : AdminApiError Number
  network_error = record {
    message = "无法连接管理 API，请检查服务状态后重试。";
    status = 0;
    code = str "network_error";
    meta = obj end;
    request_id = str "";
    payload = null;
  }

  -- `response.ok`
  abbrev pub is_ok : ℕ → Bool
  is_ok status = leb 200 status && leb status 299

  -- A body that is no JSON reads as `{}`.
  abbrev pub payload_of : Option (Value Number) → Value Number
  payload_of none = obj end
  payload_of (some payload) = payload

  -- How the call ends, and the errors for which `admin:unauthorized` is dispatched.
  settle_error :
      ℕ → Value Number → Option String → Bool → Settled Number × List (AdminApiError Number)
  settle_error status payload header skip =
      let error = response_error status payload header in
      if is_nullish payload
      then (type_error, [])
      else (api_error error, if nat_eq status 401 && not skip then error ∷ [] else [])

  unfoldable pub settle : Bool → Fetched Number → Settled Number × List (AdminApiError Number)
  unfolding settle_error
  settle skip aborted = (abort_error, [])
  settle skip unreachable = (api_error network_error, [])
  settle skip (response status body header) =
      if is_ok status
      then (fulfilled (payload_of body), [])
      else settle_error status (payload_of body) header skip

  abbrev pub plain : Options Number
  plain = record { method = "GET"; body = no_body; skip_unauthorized = false; headers = [] }

  unfoldable pub admin_get : String → String → Fields Number → Request Number
  unfolding build_request
  admin_get token path params = build_request token path plain params

  unfoldable pub admin_post : String → String → Value Number → Fields Number → Request Number
  unfolding build_request
  admin_post token path body params =
      build_request token path (record plain { method = "POST"; body = json body }) params

  unfoldable pub admin_put : String → String → Value Number → Fields Number → Request Number
  unfolding build_request
  admin_put token path body params =
      build_request token path (record plain { method = "PUT"; body = json body }) params

  unfoldable pub admin_upload : String → String → String → Fields Number → Request Number
  unfolding build_request
  admin_upload token path file params =
      build_request token path (record plain { method = "POST"; body = form file }) params

  abbrev pub login_options : String → String → Options Number
  login_options username password = record {
    method = "POST";
    body = json (obj (field "username" (str username) (field "password" (str password) end)));
    skip_unauthorized = true;
    headers = [];
  }

  unfoldable pub admin_login : String → String → String → Request Number
  unfolding build_request
  admin_login token username password =
      build_request token "/login" (login_options username password) end
