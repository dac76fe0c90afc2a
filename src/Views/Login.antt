-- ===== src/Views/Login.antt =====
-- apps/admin-web/src/views/LoginView.vue: the login and the page that it goes back to.

use Prim.Native.Char.{code}
use codex_memory.Prelude.{
  ◌≡◌, refl, arith, Bool-cases, inl, inr, ◌==◌, ◌&&◌, ◌||◌, not, Bool, true, false, String, Option,
  none, some, if◌then◌else◌, nat_eq, Result, ok, throw,
}
use codex_memory.Prelude.Text.{trim}
use codex_memory.Js.{Runtime, Value, Fields, get}
use codex_memory.Api.{Request, admin_login}
use codex_memory.Session.{Session, set_token, logout, ensure_session}
use codex_memory.Pages.{Cause, new_error, member, text_or}

pub record LoginPage (N : Type 0) : Type 0 where
  pub username : String
  pub password : String
  pub loading : Bool
  pub error : Option Cause
  pub session : Session N

-- `text.startsWith('/')`, and `text.startsWith('//')`
abbrev pub starts_slash : String → Bool
starts_slash String.[] = false
starts_slash (String.◌∷◌ c s) = nat_eq (code c) b'/'

abbrev pub starts_slashes : String → Bool
starts_slashes String.[] = false
starts_slashes (String.◌∷◌ c s) = nat_eq (code c) b'/' && starts_slash s

module _ ⦃rt : Runtime⦄ where
  open rt use {Number}

  unfoldable pub safe_redirect : Fields Number → String
  unfolding text_or
  safe_redirect query =
      let value = text_or (get "redirect" query) "/dashboard" in
      if starts_slash value && not (starts_slashes value) then value else "/dashboard"

  abbrev is_incomplete : LoginPage Number → Bool
  is_incomplete s = trim s.username == "" || s.password == ""

  -- `submit()` up to its await.
  unfoldable pub submit : LoginPage Number → LoginPage Number
  unfolding trim
  submit s =
      if s.loading
      then s
      else if is_incomplete s
      then record s { error = some (new_error "请输入用户名和密码。") }
      else record s { loading = true; error = none }

  unfoldable pub submit_request : LoginPage Number → Option (Request Number)
  unfolding trim admin_login
  submit_request s =
      if s.loading || is_incomplete s
      then none
      else some (admin_login s.session.token (trim s.username) s.password)

  -- An error ends the session that the login may have begun.
  unfoldable pub login_failed : Cause → LoginPage Number → LoginPage Number
  unfolding logout
  login_failed cause s = record s {
    session = logout s.session;
    error = some cause;
    loading = false;
  }

  -- The reply to the login: its token is stored and the session is restored with it.
  unfoldable pub login_answered : Result Cause (Value Number) → LoginPage Number → LoginPage Number
  unfolding member set_token ensure_session login_failed
  login_answered (throw cause) s = login_failed cause s
  login_answered (ok result) s = elim (member "access_token" result) [
    | throw cause ↦ login_failed cause s
    | ok token ↦ record s { session = (ensure_session true (set_token token s.session)).0 }
  ]

  -- The end of the login, when the session has been restored and the page has changed.
  unfoldable pub login_ended : LoginPage Number → LoginPage Number
  login_ended s = record s { loading = false }

  -- A login goes back to a path of the application: the redirect begins with a slash, and not with two,
  -- whatever the query holds.
  pub safe_redirect-IsPath :
      (query : Fields Number)
      → (starts_slash (safe_redirect query) ≡ true) × (starts_slashes (safe_redirect query) ≡ false)
  unfolding safe_redirect
  safe_redirect-IsPath query = checked (text_or (get "redirect" query) "/dashboard")
    where
      checked :
          (value : String)
          → let path =
              if starts_slash value && not (starts_slashes value) then value else "/dashboard" in
            (starts_slash path ≡ true) × (starts_slashes path ≡ false)
      checked value = elim (Bool-cases (starts_slash value && not (starts_slashes value))) [
        | inl e ↦ rw e (ground arith, ground arith)
        | inr e ↦ rw e (refl, refl)
      ]
