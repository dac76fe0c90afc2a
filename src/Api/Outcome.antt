-- ===== src/Api/Outcome.antt =====
-- How a request ends, and when the application is told that its session is over.
use codex_memory.Prelude.{
  ℕ, ◌≡◌, refl, ◌≢◌, ◌↔◌, ◌==◌, Bool, false, ◌<>◌, String, Option, none, some, List, [], ◌∷◌, arith,
  if◌then◌else◌, ◌≤◌, ap,
}
use codex_memory.Js.{Runtime, Value, is_nullish}
use codex_memory.Api.{
  Fetched, aborted, unreachable, response, fulfilled, api_error, AdminApiError, payload_of,
  response_error, settle_error, settle, Options, request_headers, sends_json,
}

module _ ⦃rt : Runtime⦄ where
  open rt use {Number}

  -- A call is fulfilled exactly by a response with a status from 200 to 299, and with its payload.
  pub settle-fulfilled_iff :
      (skip : Bool) (fetched : Fetched Number) (value : Value Number)
      → ((settle skip fetched).0 ≡ fulfilled value) ↔ (
          (status : ℕ) × (body : Option (Value Number)) × (header : Option String) × (fetched
            ≡ response status body header)
          × (200 ≤ status)
          × (status ≤ 299)
          × (payload_of body ≡ value))
  unfolding settle settle_error
  settle-fulfilled_iff skip aborted value = (λ e. cc, λ (s, b, h, e, low, high, same). cc)
  settle-fulfilled_iff skip unreachable value = (λ e. cc, λ (s, b, h, e, low, high, same). cc)
  settle-fulfilled_iff skip (response status body header) value = (
    λ e. (status, body, header, refl, ground arith, ground arith, ground arith),
    λ (s, b, h, e, low, high, same). ground arith,
  )

  -- A 401 response with this error, to a call that does not skip the dispatch.
  abbrev pub Expired : Bool → Fetched Number → AdminApiError Number → Type 0
  Expired skip fetched error =
      (body : Option (Value Number)) × (header : Option String) × (fetched
        ≡ response 401 body header)
      × (skip ≡ false)
      × (is_nullish (payload_of body) ≡ false)
      × (error ≡ response_error 401 (payload_of body) header)

  dispatch_sound :
      (skip : Bool) (fetched : Fetched Number) (error : AdminApiError Number)
      → (settle skip fetched).1 ≡ error ∷ []
      → Expired skip fetched error
  unfolding settle settle_error
  dispatch_sound skip aborted error e = absurd (ground arith)
  dispatch_sound skip unreachable error e = absurd (ground arith)
  dispatch_sound skip (response status body header) error e =
      let expired : status ≡ 401 = ground arith in
      (body, header, ground arith, ground arith, ground arith, ground arith)

  dispatch_complete :
      (skip : Bool) (fetched : Fetched Number) (error : AdminApiError Number)
      → Expired skip fetched error
      → settle skip fetched ≡ (api_error error, error ∷ [])
  unfolding settle settle_error
  dispatch_complete skip fetched error (body, header, p, q, r, e) = rw (p, q, e, r)

  at_most_one :
      (skip : Bool) (fetched : Fetched Number)
      → (settle skip fetched).1 ≢ []
      → (error : AdminApiError Number) × ((settle skip fetched).1 ≡ error ∷ [])
  unfolding settle settle_error
  at_most_one skip aborted ne = absurd (ne refl)
  at_most_one skip unreachable ne = absurd (ne refl)
  at_most_one skip (response status body header) ne =
      (response_error status (payload_of body) header, ground arith)

  -- The call dispatches `admin:unauthorized` exactly for a 401 response to a call that does not
  -- skip it, unless the payload is `null`; it does so once, with the error that it rejects with.
  pub settle-dispatch_iff :
      (skip : Bool) (fetched : Fetched Number) (error : AdminApiError Number)
      → (((settle skip fetched).1 ≡ error ∷ []) ↔ Expired skip fetched error)
        × ((settle skip fetched).1 ≡ error ∷ [] → (settle skip fetched).0 ≡ api_error error)
        × ((settle skip fetched).1 ≢ []
            → (e : AdminApiError Number) × ((settle skip fetched).1 ≡ e ∷ []))
  settle-dispatch_iff skip fetched error =
      let complete = dispatch_complete skip fetched error in
      (
        (dispatch_sound skip fetched error, λ x. ap (λ r. r.1) (complete x)),
        λ e. ap (λ r. r.0) (complete (dispatch_sound skip fetched error e)),
        at_most_one skip fetched,
      )

-- The value of a header.
abbrev pub header : String → List (String × String) → Option String
header name [] = none
header name ((k, v) ∷ more) = if k == name then some v else header name more

module _ ⦃rt : Runtime⦄ where
  open rt use {Number}

  -- A call with no headers of its own asks for JSON, declares JSON exactly if it sends JSON, and
  -- carries the token as a bearer exactly if there is one.
  pub request_headers_lem :
      (token : String) (options : Options Number)
      → options.headers ≡ []
      → (header "Accept" (request_headers token options) ≡ some "application/json")
        × (header "Content-Type" (request_headers token options)
            ≡ (if sends_json options.body then some "application/json" else none))
        × (header "Authorization" (request_headers token options)
            ≡ (if token == "" then none else some ("Bearer " <> token)))
  unfolding request_headers
  request_headers_lem token options h = rw h (ground arith, ground arith, ground arith)
