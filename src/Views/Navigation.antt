-- ===== src/Views/Navigation.antt =====
-- The entries of the navigation against the routes and the guard of the router.
use codex_memory.Prelude.{
  ◌≡◌, ◌≢◌, refl, ◌==◌, eq_iff, Bool, true, false, String, Option, none, some, List, [], ◌∷◌, ◌++◌,
  All, if◌then◌else◌, Result, ok, Bool-cases, inl, inr,
}
use codex_memory.Js.{Runtime, Value, str, get, ◌or◌, to_text, truthy}
use codex_memory.Contracts.{Fault}
use codex_memory.Session.{has_permission}
use codex_memory.Router.{Route, routes, permits, has_any, check_permission, check_any}
use codex_memory.Import.Query.{given, to_text-given, to_text-given_or_empty}
use codex_memory.Context.{Context}
use codex_memory.Views.Shell.{
  Item, Group, Shell, nav_groups, is_visible, some_permitted, context_query,
  sync_context_from_route, sync_project, sync_scope, route_project,
}

abbrev pub nav_items : List Group → List Item
nav_items [] = []
nav_items (group ∷ groups) = group.items ++ nav_items groups

abbrev pub find_route : String → List Route → Option Route
find_route path [] = none
find_route path (route ∷ more) = if route.path == path then some route else find_route path more

module _ ⦃rt : Runtime⦄ where
  open rt use {Number}

  -- Whether the guard lets a user see the page of this path; no page, no.
  abbrev pub permits_path : Value Number → String → Result Fault Bool
  permits_path me path = elim (find_route path routes) [
    | none ↦ ok false
    | some route ↦ permits me route.meta
  ]

  some_permitted-has_any :
      (me : Value Number) (permissions : List String)
      → some_permitted me permissions ≡ has_any me permissions
  unfolding some_permitted has_any
  some_permitted-has_any me [] = refl
  some_permitted-has_any me (permission ∷ more) = rw (some_permitted-has_any me more) refl

  -- An entry of the navigation is visible exactly when the guard of the router allows its page, for every
  -- user who may read: each entry leads to a page that there is.
  pub nav_items-permitted :
      (me : Value Number)
      → has_permission me "read" ≡ ok true
      → All (λ (item : Item). is_visible me item ≡ permits_path me item.to) (nav_items nav_groups)
  unfolding is_visible routes permits check_permission check_any
  nav_items-permitted me reads = (
    rw reads refl,
    (
      rw reads refl,
      (
        rw reads refl,
        (
          rw reads refl,
          (
            some_permitted-has_any me ("admin" ∷ "operations_read" ∷ []),
            (rw reads refl, (rw reads refl, tt)),
          ),
        ),
      ),
    ),
  )

  get-context_query :
      (context : Context Number)
      → (get "project_key" (context_query context) ≡ given context.project_key)
        × (get "scope_id" (context_query context) ≡ given context.scope_id)
  unfolding context_query get
  get-context_query context = elim (Bool-cases (context.project_key == "")) [
    | inl no_project ↦ elim (Bool-cases (context.scope_id == "")) [
      | inl no_scope ↦ simp (no_project, no_scope) (refl, refl)
      | inr scope ↦ simp (no_project, scope) (refl, refl)
    ]
    | inr project ↦ elim (Bool-cases (context.scope_id == "")) [
      | inl no_scope ↦ simp (project, no_scope) (refl, refl)
      | inr scope ↦ simp (project, scope) (refl, refl)
    ]
  ]

  shown_project :
      (context : Context Number) (me : Value Number)
      → context.project_key ≢ ""
      → route_project (context_query context) me ≡ context.project_key
  unfolding route_project
  shown_project context me filled =
      rw (get-context_query context).0 (to_text-given context.project_key _ filled)

  shown_scope :
      (context : Context Number)
      → to_text (get "scope_id" (context_query context) or str "") ≡ context.scope_id
  shown_scope context = rw (get-context_query context).1 (to_text-given_or_empty context.scope_id)

  -- Where a project is selected, a page that is opened with the query of the context, as the entries of
  -- the navigation open theirs, leaves the frame as it is: the project and the scope stay selected, and
  -- nothing is loaded for them.
  pub sync-context_query :
      (s : Shell Number)
      → s.context.project_key ≢ ""
      → sync_context_from_route (context_query s.context) s ≡ s
  unfolding sync_context_from_route sync_project sync_scope
  sync-context_query s filled =
      let project : (route_project (context_query s.context) s.session.me == s.context.project_key)
          ≡ true =
        (eq_iff _ _).1 (shown_project s.context s.session.me filled) in
      let scope : (to_text (get "scope_id" (context_query s.context) or str "")
            == s.context.scope_id)
          ≡ true =
        (eq_iff _ _).1 (shown_scope s.context) in
      elim (Bool-cases (truthy s.session.me)) [
        | inl user ↦ simp (user, project, scope) refl
        | inr nobody ↦ simp nobody refl
      ]
