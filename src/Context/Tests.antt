-- ===== src/Context/Tests.antt =====
-- Runs of the context store.
use codex_memory.Prelude.{String, arith, eq_iff, ◌≡◌, refl, ◌≢◌, false, [], ◌∷◌, none}
use codex_memory.Js.{Value, Items, nil, cons, str, obj, arr, of_entries, get}
use codex_memory.Js.Demo.{demo}
use codex_memory.Session.{replied}
use codex_memory.Context.{
  Context, initial, project_selected, projects_loaded, answered, step, load_projects, send,
  take_call, finish, data_items,
}
use codex_memory.Context.Loading.{here, next, loading-ends}
use codex_memory.Context.Selection.{select_project-overtaken}

abbrev scope : Value demo.Number
scope = obj (of_entries (("scope_key", str "s1") ∷ []))

abbrev scopes : Items demo.Number
scopes = cons scope nil

abbrev payload : Value demo.Number
payload = obj (of_entries (("data", arr scopes) ∷ []))

abbrev other_payload : Value demo.Number
other_payload = obj (of_entries (("data", arr nil) ∷ []))

abbrev start : Context demo.Number
start = initial

a_ne : ◌≢◌ {A = String} "a" ""
a_ne e = cc

b_ne : ◌≢◌ {A = String} "b" ""
b_ne e = cc

b_ne_a : ◌≢◌ {A = String} "b" "a"
b_ne_a e = ground (arith, eq_iff "b" "a")

abbrev answered_once : Context demo.Number
answered_once = step (step start (projects_loaded false)) (answered 0 (replied payload))

loading-ends_example :
    (answered_once.loading_projects ≡ false) × (answered_once.loading_scopes ≡ false)
unfolding step initial load_projects send take_call finish data_items
loading-ends_example =
    loading-ends (next (next here (projects_loaded false)) (answered 0 (replied payload))) refl

select_project-overtaken_example :
    let two =
      step (step start (project_selected (str "a") false)) (project_selected (str "b") false) in
    let t = step (step two (answered 1 (replied other_payload))) (answered 0 (replied payload)) in
    (t.project_key ≡ "b")
    × (t.scopes ≡ scopes)
    × (t.error ≡ none)
    × (t.loading_scopes ≡ false)
    × (t.calls ≡ [])
unfolding initial get
select_project-overtaken_example =
    select_project-overtaken "a" "b" start other_payload payload nil scopes a_ne b_ne a_ne b_ne_a
      refl refl refl refl refl
