-- ===== src/Import/Loads.antt =====
-- Loads of the lists of batches and candidates that overlap.
use codex_memory.Prelude.{
  ℕ, ◌≡◌, refl, ◌∙◌, true, false, not, ◌&&◌, List, ◌∷◌, ◌++◌, nat_eq, Result, ok, throw, arith,
  Bool-cases, inl, inr,
}
use codex_memory.Js.{Runtime, Value}
use codex_memory.Contracts.{array_items}
use codex_memory.Pages.{Cause, member}
use codex_memory.Pages.Latest.{Event, replies, AreTo, run, begun, IsNumbered, replies-latest}
use codex_memory.Import.{Wizard, sync_wizard_query}
use codex_memory.Import.Batches.{
  LoadOptions, begin_load, load_ended, load_shown, batches_shown, candidates_shown, finish_load,
}

module _ ⦃rt : Runtime⦄ where
  open rt use {Number}

  -- The reply to a load, with the options of the load.
  abbrev pub Answer : Type 0
  Answer = LoadOptions × Result Cause (Value Number × Value Number)

  abbrev pub answer : ℕ → Answer → Wizard Number → Wizard Number
  answer sequence (options, result) s = finish_load options sequence result s

  -- What the answer to a load leaves as it is: the number of loads, and the rows with an action.
  pub record Keeps (s after : Wizard Number) : Type 0 where
    pub sequence : after.load_sequence ≡ s.load_sequence
    pub rows : after.row_loading ≡ s.row_loading

  candidates_shown-Keeps :
      (options : LoadOptions) (r : Result Cause (Value Number)) (s : Wizard Number)
      → Keeps s (candidates_shown options r s)
  unfolding candidates_shown sync_wizard_query
  candidates_shown-Keeps options (throw cause) s = record { sequence = refl; rows = refl }
  candidates_shown-Keeps options (ok body) s =
      elim (Bool-cases (not options.silent && options.sync_query)) [
        | inl e ↦ simp e (record { sequence = refl; rows = refl })
        | inr e ↦ simp e (record { sequence = refl; rows = refl })
      ]

  batches_shown-Keeps :
      (options : LoadOptions) (v : Value Number) (r : Result Cause (Value Number))
      (s : Wizard Number)
      → Keeps s (batches_shown options v r s)
  unfolding batches_shown
  batches_shown-Keeps options v (throw cause) s = record { sequence = refl; rows = refl }
  batches_shown-Keeps options v (ok body) s =
      let kept =
        candidates_shown-Keeps options (member "data" v)
          (record s { batches = array_items body }) in
      record { sequence = kept.sequence; rows = kept.rows }

  load_shown-Keeps :
      (options : LoadOptions) (r : Result Cause (Value Number × Value Number)) (s : Wizard Number)
      → Keeps s (load_shown options r s)
  unfolding load_shown
  load_shown-Keeps options (throw cause) s = record { sequence = refl; rows = refl }
  load_shown-Keeps options (ok (batches, candidates)) s =
      batches_shown-Keeps options candidates (member "data" batches) s

  pub finish_load-Keeps :
      (options : LoadOptions) (n : ℕ) (r : Result Cause (Value Number × Value Number))
      (s : Wizard Number)
      → Keeps s (finish_load options n r s)
  unfolding finish_load
  finish_load-Keeps options n r s =
      let kept = load_shown-Keeps options r s in
      elim (Bool-cases (nat_eq n s.load_sequence)) [
        | inl e ↦ simp e (record { sequence = kept.sequence; rows = kept.rows })
        | inr e ↦ simp e (record { sequence = refl; rows = refl })
      ]

  loads-IsNumbered : IsNumbered begin_load answer (λ (s : Wizard Number). s.load_sequence)
  unfolding begin_load finish_load
  loads-IsNumbered = record {
    counts = λ options s. refl;
    keeps = λ n (options, result) s. (finish_load-Keeps options n result s).sequence;
    drops = λ n (options, result) s old.
        let different : nat_eq n s.load_sequence ≡ false = ground arith in simp different refl;
  }

  answer-ends : (r : Answer) (s : Wizard Number) → (answer s.load_sequence r s).loading ≡ false
  unfolding finish_load
  answer-ends (options, result) s =
      let same : nat_eq s.load_sequence s.load_sequence ≡ true = ground arith in simp same refl

  answer-shown :
      (r : Answer) (s : Wizard Number)
      → answer s.load_sequence r s ≡ load_ended (load_shown r.0 r.1 s)
  unfolding finish_load
  answer-shown (options, result) s =
      let same : nat_eq s.load_sequence s.load_sequence ≡ true = ground arith in simp same refl

  -- Loads begin and are answered in any order, and then a last load begins. When it is answered, the state
  -- is the one that its reply gives and no load is shown as running, whatever replies to the loads that
  -- began before it arrive before and after its own.
  pub load-latest :
      (earlier : List (Event LoadOptions Answer)) (options : LoadOptions)
      (result : Result Cause (Value Number × Value Number)) (before after : List (ℕ × Answer))
      (s : Wizard Number)
      → AreTo (begun begin_load answer (λ (w : Wizard Number). w.load_sequence) earlier s) before
      → AreTo (begun begin_load answer (λ (w : Wizard Number). w.load_sequence) earlier s) after
      → let last =
          begin_load options
            (run begin_load answer (λ (w : Wizard Number). w.load_sequence) earlier s) in
        (replies answer (before ++ (last.load_sequence, (options, result)) ∷ after) last
          ≡ load_ended (load_shown options result last))
        × ((replies answer (before ++ (last.load_sequence, (options, result)) ∷ after) last).loading
            ≡ false)
  load-latest earlier options result before after s to_before to_after =
      let last =
        begin_load options
          (run begin_load answer (λ (w : Wizard Number). w.load_sequence) earlier s) in
      let e =
        replies-latest begin_load answer (λ (w : Wizard Number). w.load_sequence) loads-IsNumbered
          earlier options before after (options, result) s to_before to_after in
      (e ∙ answer-shown (options, result) last, rw e (answer-ends (options, result) last))
