-- ===== src/Import/Filling.antt =====
-- What becomes of a batch whose files are uploaded: it is started exactly when every upload went well.
use codex_memory.Prelude.{
  ◌≡◌, refl, ap, ◌∙◌, ◌⊎◌, Bool, true, false, ◌||◌, ◌<>◌, String, List, [], ◌∷◌, ◌++◌, Result, ok,
  throw, inl, inr, Bool-cases, arith,
}
use codex_memory.Js.{Runtime, Value, obj, end, to_text}
use codex_memory.Api.{Request, admin_post}
use codex_memory.Pages.{Cause, new_error}
use codex_memory.Pages.Calls.{
  Server, Run, Calls, update, gets, send, pure, step_ok, then_ok, ◌>>=◌, ◌>>◌,
}
use codex_memory.Pages.Calls.Grows.{
  Extends, Grows, Extends-send, Grows-update, Grows-gets, Grows-bind, Grows-then,
}
use codex_memory.Import.{Wizard, Entry, valid_files, at_step}
use codex_memory.Import.Upload.{Platform, upload_file_by_chunks, batch_path}
use codex_memory.Import.Batches.{find_batch}
use codex_memory.Import.Submit.{
  entry_written, fill_batch, upload_entry, upload_entries, load_now, open_now, raise_if,
}
use codex_memory.Import.Sending.{load_now-Grows, open_now-Grows}

module _ (platform : Platform) ⦃rt : Runtime⦄ (server : Server rt.Number) (token : String) where
  open rt use {Number}

  -- One upload from this run on: how it ends, and the run after it.
  abbrev attempt :
      Value Number → Entry → Run Number (Wizard Number) → Result Cause (Unit {0}) × Run Number Entry
  attempt batch entry run =
      upload_file_by_chunks platform server token batch entry
        (record { sent = run.sent; state = entry })

  abbrev is_failure : Result Cause (Unit {0}) → Bool
  is_failure (ok done) = false
  is_failure (throw cause) = true

  -- The run after one upload: its requests are sent and its entry is written back, as failed or not.
  abbrev attempted : Value Number → Entry → Run Number (Wizard Number) → Run Number (Wizard Number)
  attempted batch entry run =
      (entry_written (attempt batch entry run).0 (attempt batch entry run).1 run.state).1

  -- The run after an upload of each file, whatever becomes of the others.
  abbrev pub all_attempted :
      Value Number → List Entry → Run Number (Wizard Number) → Run Number (Wizard Number)
  all_attempted batch [] run = run
  all_attempted batch (entry ∷ entries) run =
      all_attempted batch entries (attempted batch entry run)

  -- Some upload among them fails.
  abbrev pub some_fails : Value Number → List Entry → Run Number (Wizard Number) → Bool
  some_fails batch [] run = false
  some_fails batch (entry ∷ entries) run =
      is_failure (attempt batch entry run).0 || some_fails batch entries (attempted batch entry run)

  upload_entry-attempted :
      (batch : Value Number) (entry : Entry) (run : Run Number (Wizard Number))
      → upload_entry platform server token batch entry run
        ≡ (ok (is_failure (attempt batch entry run).0), attempted batch entry run)
  unfolding upload_entry
  upload_entry-attempted batch entry run =
      written (attempt batch entry run).0 (attempt batch entry run).1
    where
      written :
          (r : Result Cause (Unit {0})) (after : Run Number Entry)
          → entry_written r after run.state
            ≡ (ok (is_failure r), (entry_written r after run.state).1)
      written (ok done) after = refl
      written (throw cause) after = refl

  upload_entries-attempted :
      (batch : Value Number) (before : Bool) (entries : List Entry)
      (run : Run Number (Wizard Number))
      → upload_entries platform server token batch before entries run
        ≡ (ok (before || some_fails batch entries run), all_attempted batch entries run)
  unfolding upload_entries pure
  upload_entries-attempted batch before [] run =
      let same : (before || false) ≡ before = ground arith in rw same refl
  upload_entries-attempted batch before (entry ∷ entries) run =
      step_ok _ _ run _ _ (upload_entry-attempted batch entry run)
      ∙ upload_entries-attempted batch (before || is_failure (attempt batch entry run).0) entries
          (attempted batch entry run)
      ∙ ap (λ b. (ok b, all_attempted batch entries (attempted batch entry run)))
          (or_assoc before (is_failure (attempt batch entry run).0)
            (some_fails batch entries (attempted batch entry run)))
    where
      or_assoc : (a b c : Bool) → ((a || b) || c) ≡ (a || (b || c))
      or_assoc a b c = ground arith

  -- The run when the files begin to be uploaded.
  abbrev pub opened : Value Number → Run Number (Wizard Number) → Run Number (Wizard Number)
  opened batch run = record run { state = record run.state { active_batch_id = batch } }

  abbrev pub start_request : Value Number → Request Number
  start_request batch = admin_post token (batch_path batch <> "/start") (obj end) end

  abbrev pub partly_failed : Value Number → Cause
  partly_failed batch = new_error ("批次 " <> (to_text batch <> " 已创建，但部分文件上传失败；请根据文件列表定位后重试"))

  -- What follows the start of a batch.
  abbrev shown : Value Number → Calls Number (Wizard Number) (Unit {0})
  shown batch = do
    update (λ (s : Wizard Number). record (at_step "3" s) {
      message = "批次 " <> (to_text batch <> " 已进入处理队列，可在批次详情跟踪进度");
    })
    load_now platform server token
    batches ← gets (λ (s : Wizard Number). s.batches)
    open_now platform server token (find_batch batches batch)

  shown-Grows : (batch : Value Number) → Grows (shown batch)
  shown-Grows batch = Grows-then _ _ (Grows-update _) (
      Grows-then _ _ (load_now-Grows platform server token)
        (Grows-bind _ _ (Grows-gets _) (λ batches. open_now-Grows platform server token _)))

  fill_batch-attempted :
      (batch : Value Number) (run : Run Number (Wizard Number))
      → let files = valid_files run.state.selected_files in
        fill_batch platform server token batch run
        ≡ (raise_if (some_fails batch files (opened batch run)) (partly_failed batch)
              >> (send server (start_request batch) >> shown batch))
            (all_attempted batch files (opened batch run))
  unfolding fill_batch update gets
  fill_batch-attempted batch run =
      then_ok _ _ run _ _ refl
      ∙ step_ok _ _ (opened batch run) _ _ refl
      ∙ step_ok _ _ (opened batch run) _ _ (
          upload_entries-attempted batch false (valid_files run.state.selected_files)
            (opened batch run))

  -- Every valid file is uploaded in turn, whatever becomes of the others. When one of them fails, nothing
  -- is sent after them: the batch is not started, and the run stops with an error that names it.
  -- Otherwise the request that starts the batch is sent next.
  pub fill_batch-all_attempted :
      (batch : Value Number) (run : Run Number (Wizard Number))
      → let files = valid_files run.state.selected_files in
        let after = all_attempted batch files (opened batch run) in
        ((some_fails batch files (opened batch run) ≡ true)
          × (fill_batch platform server token batch run ≡ (throw (partly_failed batch), after)))
        ⊎ ((some_fails batch files (opened batch run) ≡ false)
            × Extends
                (record after { sent = after.sent ++ start_request batch ∷ [] })
                (fill_batch platform server token batch run).1)
  unfolding raise_if ◌>>=◌ ◌>>◌
  fill_batch-all_attempted batch run =
      let files = valid_files run.state.selected_files in
      let after = all_attempted batch files (opened batch run) in
      elim (Bool-cases (some_fails batch files (opened batch run))) [
        | inl e ↦ inl (e, fill_batch-attempted batch run ∙ rw e refl)
        | inr e ↦ inr (
          e,
          rw (fill_batch-attempted batch run) (
              rw e (
                Extends-send server (start_request batch) (shown batch) after (shown-Grows batch))),
        )
      ]
