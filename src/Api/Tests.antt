-- ===== src/Api/Tests.antt =====
-- Requests and outcomes at concrete inputs, over the runtime `demo`.
use codex_memory.Prelude.{ℕ, ◌≤◌, String, Option, ◌≡◌, refl, ◌↔◌, ◌≢◌, false, none, some, [], ◌∷◌}
use codex_memory.Js.{
  Value, undefined, has, get, to_text, str, arr, nil, cons, num, obj, Fields, end, field,
}
use codex_memory.Js.Demo.{demo, demo_text}
use codex_memory.Api.{
  fulfilled, payload_of, append_items, set_param, settle_error, append_query, api_error,
  AdminApiError, response, Fetched, settle, response_error,
}
use codex_memory.Api.Query.{query_of, append_query-eq-append}
use codex_memory.Api.Outcome.{settle-dispatch_iff, settle-fulfilled_iff, Expired}

abbrev params : Fields demo.Number
params = field "page" (num (some 1000)) (
    field "keyword" (str "")
      (field "tag" (arr (cons (str "a") (cons (str "b") nil))) (field "status" undefined end)))

query : append_query [] params ≡ ("page", "1") ∷ ("tag", "a") ∷ ("tag", "b") ∷ []
unfolding append_query append_items set_param to_text demo_text
query = refl

append_query-eq-append_example : append_query [] params ≡ query_of params
unfolding has
append_query-eq-append_example =
    append_query-eq-append [] params (refl, (refl, (refl, (refl, tt)))) (λ j h. refl)

abbrev expired : Fetched demo.Number
expired = response 401 none (some "r1")

abbrev expiry : AdminApiError demo.Number
expiry = record {
  message = "登录状态已失效，请重新登录。";
  status = 401;
  code = str "request_failed";
  meta = obj end;
  request_id = str "r1";
  payload = obj end;
}

settle-dispatch_iff_example :
    (((settle false expired).1 ≡ expiry ∷ []) ↔ Expired false expired expiry)
    × ((settle false expired).1 ≡ expiry ∷ [] → (settle false expired).0 ≡ api_error expiry)
    × ((settle false expired).1 ≢ []
        → (e : AdminApiError demo.Number) × ((settle false expired).1 ≡ e ∷ []))
settle-dispatch_iff_example = settle-dispatch_iff false expired expiry

dispatches : settle false expired ≡ (api_error expiry, expiry ∷ [])
unfolding settle settle_error response_error get
dispatches = refl

settle-fulfilled_iff_example :
    ((settle false (response 204 none none)).0 ≡ fulfilled (payload_of none)) ↔ (
      (status : ℕ) × (body : Option (Value demo.Number)) × (header : Option String) × (response 204
          none none
        ≡ response status body header)
      × (200 ≤ status)
      × (status ≤ 299)
      × (payload_of body ≡ payload_of none))
settle-fulfilled_iff_example = settle-fulfilled_iff false (response 204 none none) (payload_of none)
