-- ===== src/Import/Query.antt =====
-- The state that the query of the route holds is read back from it.
use codex_memory.Prelude.{
  ◌≡◌, ◌≢◌, refl, ◌∙◌, sym, ◌==◌, eq_iff, true, false, String, if◌then◌else◌, arith, Bool-cases,
  inl, inr,
}
use codex_memory.Prelude.Text.{trim}
use codex_memory.Js.{
  Runtime, Value, undefined, str, Fields, end, field, get, set, spread, ◌or◌, to_text, to_number,
}
use codex_memory.Js.Reads.{get-set}
use codex_memory.Pages.{without, max_of, min_of, text_or}
use codex_memory.Import.{
  Wizard, wizard_query, sync_wizard_query, optional, query_project, query_scope, query_status,
  query_step,
}

module _ ⦃rt : Runtime⦄ where
  open rt use {Number, is_finite, number_of, number_text}

  get-without :
      (k j : String) (fs : Fields Number)
      → get j (without k fs) ≡ (if k == j then undefined else get j fs)
  unfolding get without
  get-without k j end = ground arith
  get-without k j (field i v fs) =
      ground (arith, eq_iff k j, eq_iff i k, eq_iff i j, get-without k j fs)

  get-optional :
      (k j value : String) (fs : Fields Number)
      → get j (optional k value fs)
        ≡ (if k == j then (if value == "" then undefined else str value) else get j fs)
  unfolding optional
  get-optional k j value fs = elim (Bool-cases (value == "")) [
    | inl e ↦ rw e (get-without k j fs)
    | inr e ↦ rw e (get-set k j (str value) fs)
  ]

  -- A text that is left out where it is empty.
  abbrev pub given : String → Value Number
  given value = if value == "" then undefined else str value

  with_step : Wizard Number → Fields Number
  with_step s = set "step" (str (number_text s.current_step)) s.query

  with_project : Wizard Number → Fields Number
  with_project s = optional "project_key" (trim s.project_key) (with_step s)

  with_scope : Wizard Number → Fields Number
  with_scope s = without "scope_key" (optional "scope_id" (trim s.scope_key) (with_project s))

  below_tab : Wizard Number → Fields Number
  below_tab s = optional "status" s.status_filter (with_scope s)

  behind_tab :
      (j : String) (s : Wizard Number)
      → ("detail_tab" == j) ≡ false
      → get j (wizard_query end s) ≡ get j (below_tab s)
  unfolding wizard_query spread below_tab with_scope with_project with_step
  behind_tab j s other = elim (Bool-cases s.detail_visible) [
    | inl e ↦ rw e (get-set "detail_tab" j (str s.detail_tab) (below_tab s) ∙ rw other refl)
    | inr e ↦ rw e (get-without "detail_tab" j (below_tab s) ∙ rw other refl)
  ]

  -- What the query holds at a key that is not the tab of the drawer.
  get-wizard_query :
      (j : String) (s : Wizard Number)
      → ("detail_tab" == j) ≡ false
      → get j (wizard_query end s) ≡ (
          if "status" == j
          then given s.status_filter
          else if "scope_key" == j
          then undefined
          else if "scope_id" == j
          then given (trim s.scope_key)
          else if "project_key" == j
          then given (trim s.project_key)
          else if "step" == j
          then str (number_text s.current_step)
          else get j s.query)
  unfolding below_tab with_scope with_project with_step
  get-wizard_query j s other =
      behind_tab j s other
      ∙ get-optional "status" j s.status_filter (with_scope s)
      ∙ rw
          (
            get-without "scope_key" j (optional "scope_id" (trim s.scope_key) (with_project s)),
            get-optional "scope_id" j (trim s.scope_key) (with_project s),
            get-optional "project_key" j (trim s.project_key) (with_step s),
            get-set "step" j (str (number_text s.current_step)) s.query,
          )
          refl

  -- A step that the engine writes as a text and reads back as itself, and that lies between 0 and 3.
  pub record IsStep (n : Number) : Type 0 where
    pub shown : number_text n ≢ ""
    pub back : number_of (number_text n) ≡ n
    pub finite : is_finite n ≡ true
    pub within : min_of (number_of "3") (max_of (number_of "0") n) ≡ n

  pub to_text-given :
      (value : String) (other : Value Number) → value ≢ "" → to_text (given value or other) ≡ value
  unfolding to_text
  to_text-given value other filled = elim (Bool-cases (value == "")) [
    | inl empty ↦ absurd (filled ((eq_iff value "").0 empty))
    | inr full ↦ simp full refl
  ]

  pub to_text-given_or_empty : (value : String) → to_text (given value or str "") ≡ value
  unfolding to_text
  to_text-given_or_empty value = elim (Bool-cases (value == "")) [
    | inl empty ↦ simp empty (sym ((eq_iff value "").0 empty))
    | inr full ↦ simp full refl
  ]

  step_back :
      (n : Number) (query : Fields Number)
      → IsStep n
      → get "step" query ≡ str (number_text n)
      → query_step query ≡ n
  unfolding query_step to_number
  step_back n query v e = elim (Bool-cases (number_text n == "")) [
    | inl empty ↦ absurd (v.shown ((eq_iff (number_text n) "").0 empty))
    | inr full ↦ simp (e, full, v.back, v.finite) v.within
  ]

  -- The project, the scope, the status and the step of the wizard are what the query of the route says
  -- after `syncWizardQuery`, where the trimmed project and scope are not empty and the engine writes and
  -- reads the step faithfully.
  pub query-reads :
      (me : Value Number) (s : Wizard Number)
      → trim s.project_key ≢ ""
      → trim s.scope_key ≢ ""
      → IsStep s.current_step
      → (query_project me (sync_wizard_query end s).query ≡ trim s.project_key)
        × (query_scope (sync_wizard_query end s).query ≡ trim s.scope_key)
        × (query_status (sync_wizard_query end s).query ≡ s.status_filter)
        × (query_step (sync_wizard_query end s).query ≡ s.current_step)
  unfolding sync_wizard_query query_project query_scope query_status text_or
  query-reads me s project scope step = (
    rw (get-wizard_query "project_key" s refl) (to_text-given (trim s.project_key) _ project),
    rw (get-wizard_query "scope_id" s refl) (to_text-given (trim s.scope_key) _ scope),
    rw (get-wizard_query "status" s refl) (to_text-given_or_empty s.status_filter),
    step_back s.current_step (wizard_query end s) step (get-wizard_query "step" s refl),
  )
