-- ===== src/Router/Guard.antt =====
-- What the guard of the router lets through.
use mathlib.Core.List.{Memᴰ}
use codex_memory.Prelude.{
  ◌≡◌, refl, ap, ◌∙◌, some-injective, ◌≢◌, ◌↔◌, ◌⊎◌, inl, inr, ◌==◌, Bool, true, false, not, ◌&&◌,
  ◌||◌, all, all_member, eq_refl, String, Option, none, some, List, [], ◌∷◌, Result, ok,
  if◌then◌else◌, Bool-cases, arith, eq_iff,
}
use codex_memory.Js.{Runtime, Value, str, to_text}
use codex_memory.Session.{Session, Failure, is_401}
use codex_memory.Contracts.{Fault}
use codex_memory.Router.{
  Meta, Route, routes, Verdict, allow, to_path, to_route, Target, is_named, to_login, to_forbidden,
  permits, authorize, resume, before_each,
}
use codex_memory.Router.Permissions.{HasArray, Permitted, permits_iff}

module _ ⦃rt : Runtime⦄ where
  open rt use {Number}

  false_ne : false ≢ true
  false_ne e = cc

  forbidden_ne :
      (to : Target Number) → (◌≡◌ {A = Result Fault Verdict} (ok (to_forbidden to)) (ok allow)) → ⊥
  forbidden_ne to e = cc

  login_ne :
      (to : Target Number) (more : List (String × String))
      → (◌≡◌ {A = Result Fault Verdict} (ok (to_login to more)) (ok allow))
      → ⊥
  login_ne to more e = cc

  authorize_iff :
      (me : Value Number) (granted : List (Value Number)) (to : Target Number)
      → HasArray me granted
      → (authorize me to ≡ ok allow) ↔ Permitted granted to.meta
  unfolding authorize
  authorize_iff me granted to h = go (permits_iff me granted to.meta h)
    where
      go :
          ((b : Bool) × (permits me to.meta ≡ ok b) × ((b ≡ true) ↔ Permitted granted to.meta))
          → (authorize me to ≡ ok allow) ↔ Permitted granted to.meta
      go (true, e, (there, back)) = (λ verdict. there refl, λ p. rw e refl)
      go (false, e, (there, back)) =
          (λ verdict. absurd (forbidden_ne to (rw e at verdict)), λ p. absurd (false_ne (back p)))

  Ended : Option Failure → List (Value Number) → Meta → Type 0
  Ended failure granted meta =
      ((error : Failure) × (failure ≡ some error) × (is_401 error ≡ false))
      ⊎ ((failure ≡ none) × Permitted granted meta)

  resume_iff :
      (failure : Option Failure) (me : Value Number) (granted : List (Value Number))
      (to : Target Number)
      → HasArray me granted
      → (resume failure me to ≡ ok allow) ↔ Ended failure granted to.meta
  unfolding resume Ended
  resume_iff none me granted to h = (λ e. inr (refl, (authorize_iff me granted to h).0 e), back)
    where
      back : Ended none granted to.meta → resume none me to ≡ ok allow
      back (inl (error, e, kept)) = cc
      back (inr (e, p)) = (authorize_iff me granted to h).1 p
  resume_iff (some error) me granted to h = (there, back)
    where
      there : resume (some error) me to ≡ ok allow → Ended (some error) granted to.meta
      there verdict = elim (Bool-cases (is_401 error)) [
        | inl gone ↦ absurd (login_ne to _ (rw gone at verdict))
        | inr kept ↦ inl (error, refl, kept)
      ]

      back : Ended (some error) granted to.meta → resume (some error) me to ≡ ok allow
      back (inl (other, e, kept)) = rw (ap is_401 (some-injective _ _ e) ∙ kept) refl
      back (inr (e, p)) = cc

  -- On a target that requires a user and is not the login page, with the permissions of the ensured
  -- session in an array, the guard allows the navigation exactly when there is a token and either
  -- the session could not be ensured for a reason other than a 401, or it was, and the user is
  -- granted what the route asks for.
  pub before_each-allow_iff :
      (s : Session Number) (failure : Option Failure) (after : Session Number) (to : Target Number)
      (granted : List (Value Number))
      → is_named "login" to.name ≡ false
      → to.meta.requires_auth ≡ true
      → HasArray after.me granted
      → (before_each s failure after to ≡ ok allow) ↔ (
          (s.token ≢ "")
          × (((error : Failure) × (failure ≡ some error) × (is_401 error ≡ false))
              ⊎ ((failure ≡ none) × Permitted granted to.meta)))
  unfolding before_each Ended
  before_each-allow_iff s failure after to granted name auth h = elim (Bool-cases (s.token == "")) [
    | inl empty ↦
        simp (name, auth, empty)
          (
            λ e. absurd (login_ne to [] e),
            λ (full, rest). absurd (full (ground (arith, eq_iff s.token ""))),
          )
    | inr full ↦
        let (there, back) = resume_iff failure after.me granted to h in
        simp (name, auth, full)
          (λ e. (ground (arith, eq_iff s.token ""), there e), λ (full, rest). back rest)
  ]

  -- A user without a token who goes to a target that requires one is sent to the login page with the
  -- target's full path, whatever is in flight; and with that path in its query and a token in the
  -- store, the login page sends the user back to the full path when the session is ensured, and
  -- stays open when it is not. A full path is not empty.
  pub before_each-back :
      (s : Session Number) (failure : Option Failure) (after : Session Number) (to : Target Number)
      (t : Session Number) (later : Session Number) (login : Target Number)
      → is_named "login" to.name ≡ false
      → to.meta.requires_auth ≡ true
      → to.full_path ≢ ""
      → s.token ≡ ""
      → t.token ≢ ""
      → is_named "login" login.name ≡ true
      → login.query_redirect ≡ str to.full_path
      → (before_each s failure after to ≡ ok (to_route "login" (("redirect", to.full_path) ∷ [])))
        × (before_each t none later login ≡ ok (to_path to.full_path))
        × ((error : Failure) → before_each t (some error) later login ≡ ok allow)
  unfolding before_each to_text
  before_each-back s failure after to t later login name auth path empty full named query =
      simp (name, auth, empty, named, query, filled, eq_refl) (refl, simp (given), λ error. refl)
    where
      filled : t.token == "" ≡ false
      filled = ground (arith, eq_iff t.token "")

      given : to.full_path == "" ≡ false
      given = ground (arith, eq_iff to.full_path "")

  is_redirect : Route → Bool
  is_redirect r = elim r.redirect [ none ↦ false | some redirect ↦ true ]

  -- A page is public and requires no user, or the other way round.
  is_guarded : Route → Bool
  unfolding is_redirect
  is_guarded r =
      is_redirect r
      || (if r.meta.public
          then not r.meta.requires_auth
          else r.meta.requires_auth && not (is_named "login" r.name))

  routes-guarded : all is_guarded routes ≡ true
  unfolding is_guarded routes
  routes-guarded = refl

  guarded_page :
      (r : Route)
      → r.redirect ≡ none
      → is_guarded r ≡ true
      → (if r.meta.public
          then not r.meta.requires_auth
          else r.meta.requires_auth && not (is_named "login" r.name))
        ≡ true
  unfolding is_guarded is_redirect
  guarded_page r page e = rw page at e

  -- Of the pages in the table of routes, a user without a token reaches those that are marked as
  -- public, and is sent to the login page by every other.
  pub routes-before_each :
      (r : Route) (s : Session Number) (failure : Option Failure) (after : Session Number)
      (to : Target Number)
      → Memᴰ r routes
      → r.redirect ≡ none
      → to.name ≡ r.name
      → to.meta ≡ r.meta
      → s.token ≡ ""
      → before_each s failure after to ≡ ok (if r.meta.public then allow else to_login to [])
  unfolding before_each is_guarded is_redirect
  routes-before_each r s failure after to m page name meta empty =
      simp (empty, name, meta, eq_refl)
        (go (is_named "login" r.name) r.meta.public r.meta.requires_auth
          (guarded_page r page (all_member is_guarded routes routes-guarded m)))
    where
      go :
          (named public requires : Bool)
          → (if public then not requires else requires && not named) ≡ true
          → if◌then◌else◌ {A = Result Fault Verdict} named
              (ok allow)
              (if not requires then ok allow else ok (to_login to []))
            ≡ ok (if public then allow else to_login to [])
      go true true requires e = refl
      go true false true e = cc
      go true false false e = cc
      go false true true e = cc
      go false true false e = refl
      go false false true e = refl
      go false false false e = cc
