-- ===== src/TaskRuns/Params.antt =====
-- Which parameters are sent, and what the readers of replies always give.
use codex_memory.Prelude.{
  ◌≡◌, refl, sym, ap, ◌≢◌, true, false, String, List, [], ◌∷◌, arith, eq_iff, if◌then◌else◌, All,
  Bool-cases, inl, inr,
}
use codex_memory.Js.{
  Runtime, Value, undefined, num, Fields, end, field, get, has, prop, truthy, ◌or◌, copied, entries,
}
use codex_memory.Js.Reads.{get-set}
use codex_memory.Api.Query.{Unique}
use codex_memory.TaskRuns.{
  is_given, compact_params, build_task_run_list_params, unwrap_data, extract_task_run, list_params,
  array_or_empty,
}

module _ ⦃rt : Runtime⦄ where
  open rt use {Number, number_of}

  abbrev pub given_or_undefined : Value Number → Value Number
  given_or_undefined value = if is_given value then value else undefined

  get-of_not_has : (k : String) (fs : Fields Number) → has k fs ≡ false → get k fs ≡ undefined
  unfolding get has
  get-of_not_has k end h = refl
  get-of_not_has k (field j v fs) h = ground (arith, get-of_not_has k fs)

  has-compact :
      (k : String) (fs : Fields Number) → has k fs ≡ false → has k (compact_params fs) ≡ false
  unfolding has compact_params
  has-compact k end h = refl
  has-compact k (field j v fs) h = ground (arith, has-compact k fs)

  given_or_undefined-undefined : given_or_undefined undefined ≡ undefined
  unfolding is_given
  given_or_undefined-undefined = refl

  get-compact_params :
      (k : String) (params : Fields Number)
      → Unique params
      → get k (compact_params params) ≡ given_or_undefined (get k params)
  unfolding get compact_params
  get-compact_params k end u = sym given_or_undefined-undefined
  get-compact_params k (field j v fs) (once, u) = elim (Bool-cases (is_given v)) [
    | inl given ↦ rw given (ground (arith, given, get-compact_params k fs u))
    | inr blank ↦ rw blank (
        ground (
          arith,
          blank,
          eq_iff j k,
          get-compact_params k fs u,
          get-of_not_has k (compact_params fs),
          has-compact k fs,
        ))
  ]

  compact_params_lem :
      (params : Fields Number) → All (λ p. is_given p.1 ≡ true) (entries (compact_params params))
  unfolding compact_params
  compact_params_lem end = tt
  compact_params_lem (field k v more) = ground (arith, compact_params_lem more)

  compact_params_idem :
      (params : Fields Number) → compact_params (compact_params params) ≡ compact_params params
  unfolding compact_params
  compact_params_idem end = refl
  compact_params_idem (field k v more) = elim (Bool-cases (is_given v)) [
    | inl given ↦ rw given (rw given (ap (field k v) (compact_params_idem more)))
    | inr blank ↦ rw blank (compact_params_idem more)
  ]

  -- For an object, `compactParams` reads as the parameter where it is given (neither `undefined`
  -- nor `null` nor blank as a text) and as `undefined` elsewhere; all that it keeps is given; and
  -- compacting again changes nothing.
  pub compact_params_reads :
      (params : Fields Number)
      → Unique params
      → ((k : String) → get k (compact_params params) ≡ given_or_undefined (get k params))
        × All (λ p. is_given p.1 ≡ true) (entries (compact_params params))
        × (compact_params (compact_params params) ≡ compact_params params)
  compact_params_reads params u =
      (λ k. get-compact_params k params u, compact_params_lem params, compact_params_idem params)

  list_params-Unique : (filters : Fields Number) → Unique (list_params filters)
  unfolding has
  list_params-Unique filters =
      (refl, (refl, (refl, (refl, (refl, (refl, (refl, (refl, (refl, (refl, tt))))))))))

  -- The parameters of a list request and the filters that they come from.
  abbrev pub sources : List (String × String)
  sources =
      ("project_key", "projectKey")
      ∷ ("status", "status")
      ∷ ("uncertain", "uncertain")
      ∷ ("keyword", "keyword")
      ∷ ("started_from", "startedFrom")
      ∷ ("started_to", "startedTo")
      ∷ ("sort", "sort")
      ∷ ("order", "order")
      ∷ []

  -- A list request sends each of the eight filters under the API's name exactly where it is given,
  -- and the page and page size, which are 1 and 20 where the filter has none.
  pub build_task_run_list_params_reads :
      (filters : Fields Number)
      → All
          (λ p. get p.0 (build_task_run_list_params filters) ≡ given_or_undefined (get p.1 filters))
          sources
        × (get "page" (build_task_run_list_params filters)
            ≡ given_or_undefined (get "page" filters or num (number_of "1")))
        × (get "page_size" (build_task_run_list_params filters)
            ≡ given_or_undefined (get "pageSize" filters or num (number_of "20")))
  unfolding build_task_run_list_params get
  build_task_run_list_params_reads filters =
      let reads =
        λ (k : String). get-compact_params k (list_params filters) (list_params-Unique filters) in
      (
        (
          reads "project_key",
          (
            reads "status",
            (
              reads "uncertain",
              (
                reads "keyword",
                (reads "started_from", (reads "started_to", (reads "sort", (reads "order", tt)))),
              ),
            ),
          ),
        ),
        reads "page",
        reads "page_size",
      )

  -- Events and reports of a task run are arrays, the ones of the reply where those are arrays, and the
  -- Git baseline is never falsy; every other property is the reply's.
  pub extract_task_run_reads :
      (payload : Value Number) (k : String)
      → k ≢ "events"
      → k ≢ "reports"
      → k ≢ "git_baseline"
      → (get "events" (extract_task_run payload)
          ≡ array_or_empty (prop "events" (unwrap_data payload)))
        × (get "reports" (extract_task_run payload)
            ≡ array_or_empty (prop "reports" (unwrap_data payload)))
        × (truthy (get "git_baseline" (extract_task_run payload)) ≡ true)
        × (get k (extract_task_run payload) ≡ get k (copied (unwrap_data payload)))
  unfolding extract_task_run
  extract_task_run_reads payload k p q r =
      let body = unwrap_data payload in
      (
        simp get-set refl,
        simp get-set refl,
        simp get-set (ground arith),
        simp get-set
            (ground (arith, eq_iff "events" k, eq_iff "reports" k, eq_iff "git_baseline" k)),
      )
