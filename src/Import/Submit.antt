-- ===== src/Import/Submit.antt =====
-- apps/admin-web/src/views/ImportView.vue: `importFiles`, from its guards to the batch that it opens.
-- The run is one of calls in sequence, without other events between them.
use codex_memory.Prelude.{
  ◌==◌, ◌||◌, not, Bool, true, false, String, ◌<>◌, Option, none, some, List, [], ◌∷◌,
  if◌then◌else◌, Result, ok, throw,
}
use codex_memory.Prelude.Text.{trim}
use codex_memory.Js.{Runtime, Value, str, obj, end, field, ◌otherwise◌, to_text}
use codex_memory.Api.{admin_post}
use codex_memory.Pages.{Cause, new_error, member}
use codex_memory.Pages.Calls.{
  Server, Calls, Run, pure, lift, update, gets, send, send_two, send_three, catch, ◌>>=◌, ◌>>◌,
}
use codex_memory.Import.{
  Wizard, Entry, failed, valid_files, has_invalid_files, is_none_of, sync_wizard_query, at_step,
}
use codex_memory.Import.Upload.{Platform, upload_file_by_chunks, batch_path}
use codex_memory.Import.Batches.{
  plain_load, begin_load, batches_request, candidates_request, finish_load, find_batch, open_batch,
  begin_detail, has_id, batch_requests, finish_detail,
}

-- What the first guard that fails shows, and the step that it goes back to.
pub data Refusal : Type 0 where
  unready : Refusal
  back_to : String → String → Refusal

abbrev pub write_entry : Entry → List Entry → List Entry
write_entry e [] = []
write_entry e (entry ∷ entries) = (if entry.key == e.key then e else entry) ∷ write_entry e entries

module _ ⦃rt : Runtime⦄ where
  open rt use {Number}

  -- The guards of `importFiles`, in their order.
  unfoldable pub refusal : Bool → Wizard Number → Option Refusal
  unfolding trim valid_files
  refusal is_admin s =
      if not is_admin || s.submitting
      then some unready
      else if trim s.project_key == ""
      then some (back_to "请先选择项目" "0")
      else if trim s.scope_key == ""
      then some (back_to "请填写 Scope" "0")
      else if is_none_of (valid_files s.selected_files) || has_invalid_files s.selected_files
      then some (
          back_to (if has_invalid_files s.selected_files then "请移除校验失败的文件后再上传" else "请至少选择一个有效文件")
            "1")
      else none

  abbrev pub refused : Refusal → Wizard Number → Wizard Number
  refused unready s = s
  refused (back_to text step) s = at_step step (record s { error = some (new_error text) })

  abbrev pub submitting : Wizard Number → Wizard Number
  submitting s =
      sync_wizard_query end
        (at_step "2" (record s { submitting = true; error = none; message = "" }))

  abbrev with_entry : Entry → Wizard Number → Wizard Number
  with_entry e s = record s { selected_files = write_entry e s.selected_files }

  -- `entry.error = cause.message || '上传失败'`
  abbrev upload_failed : Cause → Entry → Entry
  upload_failed cause e = record e {
    status = failed;
    error = if cause.message == "" then "上传失败" else cause.message;
  }

  -- The entry is written back, and whether its upload failed.
  abbrev pub entry_written :
      Result Cause (Unit {0})
      → Run Number Entry
      → Wizard Number
      → Result Cause Bool × Run Number (Wizard Number)
  entry_written (ok done) run s =
      (ok false, record { sent = run.sent; state = with_entry run.state s })
  entry_written (throw cause) run s =
      (ok true, record { sent = run.sent; state = with_entry (upload_failed cause run.state) s })

  unfoldable pub batch_body : Wizard Number → Value Number
  unfolding trim
  batch_body s = obj (
      field "project_key" (str (trim s.project_key))
        (field "scope_key" (str (trim s.scope_key)) end))

  unfoldable pub raise_if : Bool → Cause → Calls Number (Wizard Number) (Unit {0})
  raise_if test cause run = (if test then throw cause else ok tt, run)

  abbrev pub import_failed : Cause → Wizard Number → Wizard Number
  import_failed cause s = record s { error = some cause }

  abbrev pub import_ended : Wizard Number → Wizard Number
  import_ended s = record s { submitting = false }

  module _ (platform : Platform) (server : Server Number) (token : String) where
    -- One round of the loop over the valid files: whether the upload failed.
    unfoldable pub upload_entry : Value Number → Entry → Calls Number (Wizard Number) Bool
    unfolding upload_file_by_chunks
    upload_entry batch_id entry run =
        let (r, run') =
          upload_file_by_chunks platform server token batch_id entry
            (record { sent = run.sent; state = entry }) in
        entry_written r run' run.state

    unfoldable pub upload_entries :
        Value Number → Bool → List Entry → Calls Number (Wizard Number) Bool
    unfolding upload_entry
    upload_entries batch_id any_failed [] = pure any_failed
    upload_entries batch_id any_failed (entry ∷ entries) = do
      now ← upload_entry batch_id entry
      upload_entries batch_id (any_failed || now) entries

    -- `load()`, which never rejects.
    unfoldable pub load_now : Calls Number (Wizard Number) (Unit {0})
    unfolding begin_load batches_request candidates_request finish_load
    load_now = do
      update (begin_load plain_load)
      s ← gets (λ (s : Wizard Number). s)
      result ← send_two server (batches_request token s) (candidates_request token s)
      update (finish_load plain_load s.load_sequence result)

    -- `loadBatchDetail(batch)` for a batch with an id, and `openBatch(batch)`.
    unfoldable pub detail_now : Value Number → Calls Number (Wizard Number) (Unit {0})
    unfolding begin_detail batch_requests finish_detail
    detail_now batch = do
      update (begin_detail false)
      let (first, second, third) = batch_requests token batch
      result ← send_three server first second third
      update (finish_detail false batch result)

    unfoldable pub open_now : Value Number → Calls Number (Wizard Number) (Unit {0})
    unfolding open_batch has_id detail_now
    open_now batch = do
      update (open_batch batch)
      if has_id batch then detail_now batch else pure tt

    -- The rest of the `try` block, for the batch that was created.
    unfoldable pub fill_batch : Value Number → Calls Number (Wizard Number) (Unit {0})
    unfolding raise_if upload_entries load_now open_now to_text admin_post find_batch valid_files
    fill_batch batch = do
      update (λ (s : Wizard Number). record s { active_batch_id = batch })
      files ← gets (λ (s : Wizard Number). valid_files s.selected_files)
      any_failed ← upload_entries batch false files
      raise_if any_failed (new_error ("批次 " <> (to_text batch <> " 已创建，但部分文件上传失败；请根据文件列表定位后重试")))
      send server (admin_post token (batch_path batch <> "/start") (obj end) end)
      update (λ (s : Wizard Number). record (at_step "3" s) {
        message = "批次 " <> (to_text batch <> " 已进入处理队列，可在批次详情跟踪进度");
      })
      load_now
      batches ← gets (λ (s : Wizard Number). s.batches)
      open_now (find_batch batches batch)

    -- The `try` block.
    unfoldable pub submit : Calls Number (Wizard Number) (Unit {0})
    unfolding batch_body fill_batch member admin_post
    submit = do
      s ← gets (λ (s : Wizard Number). s)
      created ← send server (admin_post token "/import-batches" (batch_body s) end)
      body ← lift (member "data" created)
      batch_id ← lift (member "batch_id" body)
      id ← lift (member "id" body)
      fill_batch (batch_id otherwise id)

    unfoldable pub import_files : Bool → Calls Number (Wizard Number) (Unit {0})
    unfolding submit refusal sync_wizard_query
    import_files is_admin run = elim (refusal is_admin run.state) [
      | some why ↦ update (refused why) run
      | none ↦
          (do
            update submitting
            catch submit (λ cause. update (import_failed cause))
            update import_ended)
            run
    ]
