-- ===== src/Views/Races.antt =====
-- What the pages show that do not number their loads, and a key of the query that none reads.
use codex_memory.Prelude.{
  ◌≡◌, ◌≢◌, refl, ap, ◌==◌, eq_iff, Bool, true, false, String, Option, none, List, [], ◌∷◌, ok,
  arith, Bool-cases, inl, inr,
}
use codex_memory.Prelude.Text.{trim}
use codex_memory.Js.{Runtime, Value, str, Fields, end, field, has, set, to_text}
use codex_memory.Js.Reads.{get-set}
use codex_memory.RouteQuery.{parse}
use codex_memory.TaskRuns.{unwrap_data}
use codex_memory.Views.TaskRun.{
  TaskRunPage, begin_report, finish_report, selected_revision, sync_detail_query,
}
use codex_memory.Views.Records.{filters_of, build_params, default_filters}

module _ ⦃rt : Runtime⦄ where
  open rt use {Number}

  selected_revision-str :
      (revision : String)
      → revision ≢ ""
      → trim revision ≡ revision
      → selected_revision (str revision) ≡ revision
  unfolding selected_revision to_text
  selected_revision-str revision filled trimmed = elim (Bool-cases (revision == "")) [
    | inl empty ↦ absurd (filled ((eq_iff revision "").0 empty))
    | inr full ↦ simp full trimmed
  ]

  selected :
      (revision : String) (s : TaskRunPage Number)
      → revision ≢ ""
      → trim revision ≡ revision
      → begin_report (str revision) s
        ≡ record s { revision = revision; report_loading = true; error = none }
  unfolding begin_report
  selected revision s filled trimmed = elim (Bool-cases (revision == "")) [
    | inl empty ↦ absurd (filled ((eq_iff revision "").0 empty))
    | inr full ↦ rw (selected_revision-str revision filled trimmed) (simp full refl)
  ]

  -- Two revisions are selected one after the other, on the page or by its route (each load then writes the
  -- query or does not), and the reply to the second arrives before the reply to the first: the page names
  -- the second revision and shows the report of the first, without a load or an error, for revisions
  -- without outer spaces.
  pub report-overtaken :
      (write_first write_second : Bool) (first second : String) (one two : Value Number)
      (s : TaskRunPage Number)
      → first ≢ ""
      → second ≢ ""
      → trim first ≡ first
      → trim second ≡ second
      → let after = finish_report write_first (ok one) (
          finish_report write_second
            (ok two)
            (begin_report (str second) (begin_report (str first) s))) in
        (after.revision ≡ second)
        × (after.report ≡ unwrap_data one)
        × (after.report_loading ≡ false)
        × (after.error ≡ none)
  unfolding finish_report sync_detail_query
  report-overtaken write_first write_second first second one two s f g trim_first trim_second =
      rw (selected first s f trim_first)
        (rw (selected second _ g trim_second) (ended write_first write_second s))
    where
      ended :
          (u v : Bool) (t : TaskRunPage Number)
          → let after = finish_report u (ok one) (
              finish_report v
                (ok two)
                (record t { revision = second; report_loading = true; error = none })) in
            (after.revision ≡ second)
            × (after.report ≡ unwrap_data one)
            × (after.report_loading ≡ false)
            × (after.error ≡ none)
      ended true true t = (refl, refl, refl, refl)
      ended true false t = (refl, refl, refl, refl)
      ended false true t = (refl, refl, refl, refl)
      ended false false t = (refl, refl, refl, refl)

  -- The filters of a page do not depend on a key of the query that is none of theirs.
  parse-set_other :
      (key : String) (v : Value Number) (query : Fields Number) (numeric : List String)
      (defaults : Fields Number)
      → has key defaults ≡ false
      → parse (set key v query) numeric defaults ≡ parse query numeric defaults
  unfolding parse has
  parse-set_other key v query numeric end other = refl
  parse-set_other key v query numeric (field k fallback defaults) other =
      let apart : (key == k) ≡ false = ground (arith, eq_iff key k, eq_iff k key) in
      let rest : has key defaults ≡ false = ground arith in
      rw (get-set key k v query)
        (rw apart (rw (parse-set_other key v query numeric defaults rest) refl))

  -- A query lists the same records whatever it says at the key `job_type`, by which the cards of the
  -- dashboard and of the system status ask for the jobs of one type.
  pub job_type-ignored :
      (iso : Value Number → Option String) (v : Value Number) (query : Fields Number)
      → build_params iso (filters_of (set "job_type" v query)) ≡ build_params iso (filters_of query)
  unfolding filters_of has
  job_type-ignored iso v query =
      ap (build_params iso)
        (parse-set_other "job_type" v query ("page" ∷ "page_size" ∷ []) default_filters refl)
