-- ===== src/Views/Latest.antt =====
-- Overlapping loads of the lists of task runs and of contract services.
use codex_memory.Prelude.{
  ℕ, ◌≡◌, refl, ◌∙◌, Bool, true, false, List, ◌∷◌, ◌++◌, nat_eq, Result, ok, throw, arith,
  Bool-cases, Result-cases, inl, inr,
}
use codex_memory.Js.{Runtime, Value}
use codex_memory.Pages.{Cause}
use codex_memory.Pages.Latest.{Event, replies, AreTo, run, begun, IsNumbered, replies-latest}
use codex_memory.Contracts.{extract_contract_services}
use codex_memory.Views.TaskRuns
use codex_memory.Views.TaskRuns.{TaskRunsPage}
use codex_memory.Views.Services
use codex_memory.Views.Services.{ServicesPage}

module _ ⦃rt : Runtime⦄ where
  open rt use {Number}

  abbrev pub Reply : Type 0
  Reply = Result Cause (Value Number)

  task_runs_loaded :
      (r : Reply) (s : TaskRunsPage Number)
      → ((TaskRuns.loaded r s).load_sequence ≡ s.load_sequence)
        × ((TaskRuns.loaded r s).loading ≡ false)
  unfolding TaskRuns.loaded
  task_runs_loaded (ok result) s = (refl, refl)
  task_runs_loaded (throw cause) s = (refl, refl)

  task_runs-IsNumbered :
      IsNumbered TaskRuns.begin_load TaskRuns.finish_load
        (λ (s : TaskRunsPage Number). s.load_sequence)
  unfolding TaskRuns.begin_load TaskRuns.finish_load
  task_runs-IsNumbered = record {
    counts = λ options s. refl;
    keeps = λ n r s. elim (Bool-cases (nat_eq n s.load_sequence)) [
      | inl e ↦ simp e (task_runs_loaded r s).0
      | inr e ↦ simp e refl
    ];
    drops = λ n r s old.
        let different : nat_eq n s.load_sequence ≡ false = ground arith in simp different refl;
  }

  task_runs-shown :
      (r : Reply) (s : TaskRunsPage Number)
      → TaskRuns.finish_load s.load_sequence r s ≡ TaskRuns.loaded r s
  unfolding TaskRuns.finish_load
  task_runs-shown r s =
      let same : nat_eq s.load_sequence s.load_sequence ≡ true = ground arith in simp same refl

  -- Loads of the list of task runs begin and are answered in any order, and then a last load begins. When
  -- it is answered, the page shows what its reply gives and no load as running, whatever replies to the
  -- loads that began before it arrive before and after its own.
  pub task_runs-latest :
      (earlier : List (Event Bool Reply)) (sync : Bool) (r : Reply)
      (before after : List (ℕ × Reply)) (s : TaskRunsPage Number)
      → AreTo
          (begun TaskRuns.begin_load TaskRuns.finish_load
            (λ (p : TaskRunsPage Number). p.load_sequence)
            earlier
            s)
          before
      → AreTo
          (begun TaskRuns.begin_load TaskRuns.finish_load
            (λ (p : TaskRunsPage Number). p.load_sequence)
            earlier
            s)
          after
      → let last = TaskRuns.begin_load sync (
          run TaskRuns.begin_load TaskRuns.finish_load
            (λ (p : TaskRunsPage Number). p.load_sequence)
            earlier
            s) in
        (replies TaskRuns.finish_load (before ++ (last.load_sequence, r) ∷ after) last
          ≡ TaskRuns.loaded r last)
        × ((replies TaskRuns.finish_load (before ++ (last.load_sequence, r) ∷ after) last).loading
            ≡ false)
  task_runs-latest earlier sync r before after s to_before to_after =
      let last = TaskRuns.begin_load sync (
        run TaskRuns.begin_load TaskRuns.finish_load (λ (p : TaskRunsPage Number). p.load_sequence)
          earlier s) in
      let e =
        replies-latest TaskRuns.begin_load TaskRuns.finish_load
          (λ (p : TaskRunsPage Number). p.load_sequence) task_runs-IsNumbered earlier sync before
          after r s to_before to_after
        ∙ task_runs-shown r last in
      (e, rw e (task_runs_loaded r last).1)

  services_loaded :
      (r : Reply) (s : ServicesPage Number)
      → ((Services.loaded r s).load_sequence ≡ s.load_sequence)
        × ((Services.loaded r s).loading ≡ false)
  unfolding Services.loaded Services.refused
  services_loaded (throw cause) s = (refl, refl)
  services_loaded (ok result) s = elim (Result-cases (extract_contract_services result)) [
    | inl (found, e) ↦ rw (e, Services.loaded) (refl, refl)
    | inr (fault, e) ↦ rw (e, Services.loaded) (refl, refl)
  ]

  services-IsNumbered :
      IsNumbered Services.begin_load Services.finish_load
        (λ (s : ServicesPage Number). s.load_sequence)
  unfolding Services.begin_load Services.finish_load
  services-IsNumbered = record {
    counts = λ options s. refl;
    keeps = λ n r s. elim (Bool-cases (nat_eq n s.load_sequence)) [
      | inl e ↦ simp e (services_loaded r s).0
      | inr e ↦ simp e refl
    ];
    drops = λ n r s old.
        let different : nat_eq n s.load_sequence ≡ false = ground arith in simp different refl;
  }

  services-shown :
      (r : Reply) (s : ServicesPage Number)
      → Services.finish_load s.load_sequence r s ≡ Services.loaded r s
  unfolding Services.finish_load
  services-shown r s =
      let same : nat_eq s.load_sequence s.load_sequence ≡ true = ground arith in simp same refl

  -- Loads of the list of contract services begin and are answered in any order, and then a last load begins. When
  -- it is answered, the page shows what its reply gives and no load as running, whatever replies to the
  -- loads that began before it arrive before and after its own.
  pub services-latest :
      (earlier : List (Event Bool Reply)) (sync : Bool) (r : Reply)
      (before after : List (ℕ × Reply)) (s : ServicesPage Number)
      → AreTo
          (begun Services.begin_load Services.finish_load
            (λ (p : ServicesPage Number). p.load_sequence)
            earlier
            s)
          before
      → AreTo
          (begun Services.begin_load Services.finish_load
            (λ (p : ServicesPage Number). p.load_sequence)
            earlier
            s)
          after
      → let last = Services.begin_load sync (
          run Services.begin_load Services.finish_load
            (λ (p : ServicesPage Number). p.load_sequence)
            earlier
            s) in
        (replies Services.finish_load (before ++ (last.load_sequence, r) ∷ after) last
          ≡ Services.loaded r last)
        × ((replies Services.finish_load (before ++ (last.load_sequence, r) ∷ after) last).loading
            ≡ false)
  services-latest earlier sync r before after s to_before to_after =
      let last = Services.begin_load sync (
        run Services.begin_load Services.finish_load (λ (p : ServicesPage Number). p.load_sequence)
          earlier s) in
      let e =
        replies-latest Services.begin_load Services.finish_load
          (λ (p : ServicesPage Number). p.load_sequence) services-IsNumbered earlier sync before
          after r s to_before to_after
        ∙ services-shown r last in
      (e, rw e (services_loaded r last).1)
