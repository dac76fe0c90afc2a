-- ===== src/Import/Sending.antt =====
-- What an import sends, and how it ends, whatever the server answers.
use codex_memory.Prelude.{
  ℕ, suc, ◌≡◌, ◌≢◌, refl, ap, sym, ◌∙◌, Bool, true, false, ◌||◌, eq_iff, String, none, some, List,
  [], ◌∷◌, ◌++◌, Result, ok, throw, arith, Option-cases, ◌↔◌, inl, inr, length, length-append,
}
use codex_memory.Prelude.Text.{trim}
use codex_memory.Js.{Runtime, Value, end, ◌otherwise◌}
use codex_memory.Api.{Request, admin_post}
use codex_memory.Pages.{Cause, member}
use codex_memory.Pages.Calls.{Server, Run, Calls, lift, update, gets, send, catch, ◌>>=◌, ◌>>◌}
use codex_memory.Pages.Calls.Grows.{
  Extends, Grows, same_sent, Grows-update, Grows-send, Grows-send_two, Grows-send_three, Grows-lift,
  Grows-pure, Grows-if, Grows-gets, Grows-bind, Grows-then,
}
use codex_memory.Import.{Wizard, Entry, valid_files, has_invalid_files, is_none_of}
use codex_memory.Import.Upload.{Platform, Content, content_parts, upload_file_by_chunks, put_parts}
use codex_memory.Import.Files.{chunk_chars}
use codex_memory.Import.Batches.{has_id}
use codex_memory.Import.Submit.{
  Refusal, unready, back_to, refusal, refused, entry_written, fill_batch, upload_entry,
  upload_entries, load_now, detail_now, open_now, submit, import_files, submitting, import_failed,
  import_ended, batch_body, raise_if,
}

module _ (platform : Platform) ⦃rt : Runtime⦄ (server : Server rt.Number) (token : String) where
  open rt use {Number}

  put_parts-Grows :
      (batch_id upload_id source_type : Value Number) (entry : Entry) (binary : Bool)
      (total index : ℕ) (parts : List (List ℕ))
      → Grows (
          put_parts platform server token batch_id upload_id source_type entry binary total index
            parts)
  unfolding put_parts
  put_parts-Grows batch_id upload_id source_type entry binary total index [] = Grows-pure tt
  put_parts-Grows batch_id upload_id source_type entry binary total index (part ∷ parts) =
      Grows-then _ _ (Grows-send server _) (
        Grows-then _ _ (Grows-update _)
          (put_parts-Grows batch_id upload_id source_type entry binary total (suc index) parts))

  upload-Grows :
      (batch_id : Value Number) (entry : Entry)
      → Grows (upload_file_by_chunks platform server token batch_id entry)
  unfolding upload_file_by_chunks
  upload-Grows batch_id entry = Grows-then _ _ (Grows-update _) (
      Grows-bind _ _ (Grows-lift _) (λ (content : Content).
        Grows-bind _ _ (Grows-send server _) (λ started. Grows-bind _ _ (Grows-lift _) (λ body.
          Grows-bind _ _ (Grows-lift _) (λ upload_id. Grows-bind _ _ (Grows-lift _) (λ source_type.
            Grows-then _ _ (Grows-update _) (
              Grows-then _ _
                (put_parts-Grows batch_id upload_id source_type entry content.binary
                  (length (content_parts chunk_chars content.units)) 0
                  (content_parts chunk_chars content.units))
                (Grows-then _ _ (Grows-send server _) (Grows-update _)))))))))

  upload_entry-Grows :
      (batch_id : Value Number) (entry : Entry)
      → Grows (upload_entry platform server token batch_id entry)
  unfolding upload_entry
  upload_entry-Grows batch_id entry = record {
    grows = λ run.
        written run
          (upload_file_by_chunks platform server token batch_id entry
            (record { sent = run.sent; state = entry })).0
          (upload_file_by_chunks platform server token batch_id entry
            (record { sent = run.sent; state = entry })).1
          ((upload-Grows batch_id entry).grows (record { sent = run.sent; state = entry }));
  }
    where
      written :
          (run : Run Number (Wizard Number)) (r : Result Cause (Unit {0})) (run' : Run Number Entry)
          → Extends (record { sent = run.sent; state = entry }) run'
          → Extends run (entry_written r run' run.state).1
      written run (ok done) run' e = e
      written run (throw cause) run' e = e

  upload_entries-Grows :
      (batch_id : Value Number) (any_failed : Bool) (entries : List Entry)
      → Grows (upload_entries platform server token batch_id any_failed entries)
  unfolding upload_entries
  upload_entries-Grows batch_id any_failed [] = Grows-pure any_failed
  upload_entries-Grows batch_id any_failed (entry ∷ entries) =
      Grows-bind _ _ (upload_entry-Grows batch_id entry)
        (λ now. upload_entries-Grows batch_id (any_failed || now) entries)

  pub load_now-Grows : Grows (load_now platform server token)
  unfolding load_now
  load_now-Grows = Grows-then _ _ (Grows-update _) (
      Grows-bind _ _ (Grows-gets _)
        (λ s. Grows-bind _ _ (Grows-send_two server _ _) (λ result. Grows-update _)))

  detail_now-Grows : (batch : Value Number) → Grows (detail_now platform server token batch)
  unfolding detail_now
  detail_now-Grows batch =
      Grows-then _ _ (Grows-update _)
        (Grows-bind _ _ (Grows-send_three server _ _ _) (λ result. Grows-update _))

  pub open_now-Grows : (batch : Value Number) → Grows (open_now platform server token batch)
  unfolding open_now
  open_now-Grows batch =
      Grows-then _ _ (Grows-update _)
        (Grows-if (has_id batch) (detail_now-Grows batch) (Grows-pure tt))

  raise_if-Grows : (test : Bool) (cause : Cause) → Grows (raise_if test cause)
  unfolding raise_if
  raise_if-Grows test cause = record { grows = λ run. same_sent run run refl }

  fill_batch-Grows : (batch : Value Number) → Grows (fill_batch platform server token batch)
  unfolding fill_batch
  fill_batch-Grows batch = Grows-then _ _ (Grows-update _) (
      Grows-bind _ _ (Grows-gets _) (λ files.
        Grows-bind _ _ (upload_entries-Grows batch false files) (λ any_failed.
          Grows-then _ _ (raise_if-Grows any_failed _) (
            Grows-then _ _ (Grows-send server _) (
              Grows-then _ _ (Grows-update _) (
                Grows-then _ _ load_now-Grows
                  (Grows-bind _ _ (Grows-gets _) (λ batches. open_now-Grows _))))))))

  -- The request that creates the batch, and what the run has sent after it.
  abbrev pub creation : Wizard Number → Request Number
  creation s = admin_post token "/import-batches" (batch_body s) end

  abbrev begun : Run Number (Wizard Number) → Run Number (Wizard Number)
  begun run = record run { sent = run.sent ++ creation run.state ∷ [] }

  -- What follows the creation of the batch.
  with_reply : Value Number → Calls Number (Wizard Number) (Unit {0})
  with_reply created = do
    body ← lift (member "data" created)
    batch_id ← lift (member "batch_id" body)
    id ← lift (member "id" body)
    fill_batch platform server token (batch_id otherwise id)

  with_reply-Grows : (created : Value Number) → Grows (with_reply created)
  unfolding with_reply
  with_reply-Grows created = Grows-bind _ _ (Grows-lift _) (λ body.
      Grows-bind _ _ (Grows-lift _) (λ batch_id.
        Grows-bind _ _ (Grows-lift _) (λ id. fill_batch-Grows (batch_id otherwise id))))

  submit-sent :
      (run : Run Number (Wizard Number)) → Extends (begun run) (submit platform server token run).1
  unfolding submit with_reply ◌>>=◌ gets send
  submit-sent run = go (server (run.sent ++ creation run.state ∷ []))
    where
      go :
          (r : Result Cause (Value Number))
          → Extends
              (begun run)
              (elim r as (λ x. Result Cause (Unit {0}) × Run Number (Wizard Number)) [
                | ok created ↦ with_reply created (begun run)
                | throw cause ↦ (throw cause, begun run)
              ]).1
      go (ok created) = (with_reply-Grows created).grows (begun run)
      go (throw cause) = same_sent (begun run) (begun run) refl

  -- The `catch` and the `finally` of an import.
  finished :
      Result Cause (Unit {0}) × Run Number (Wizard Number)
      → Result Cause (Unit {0}) × Run Number (Wizard Number)
  finished (ok done, run) = (ok tt, record run { state = import_ended run.state })
  finished (throw cause, run) =
      (ok tt, record run { state = import_ended (import_failed cause run.state) })

  catch-finished :
      (p : Result Cause (Unit {0}) × Run Number (Wizard Number)) (run : Run Number (Wizard Number))
      → (catch (λ run. p) (λ cause. update (import_failed cause)) >> update import_ended) run
        ≡ finished p
  unfolding catch ◌>>=◌ ◌>>◌ update finished
  catch-finished (ok done, after) run = refl
  catch-finished (throw cause, after) run = refl

  abbrev started : Run Number (Wizard Number) → Run Number (Wizard Number)
  started run = record run { state = submitting run.state }

  import_files-finished :
      (is_admin : Bool) (run : Run Number (Wizard Number))
      → refusal is_admin run.state ≡ none
      → import_files platform server token is_admin run
        ≡ finished (submit platform server token (started run))
  unfolding import_files ◌>>=◌ ◌>>◌ update catch
  import_files-finished is_admin run ready =
      rw (ready, import_files)
        (catch-finished (submit platform server token (started run)) (started run))

  import_files-refused :
      (is_admin : Bool) (why : Refusal) (run : Run Number (Wizard Number))
      → refusal is_admin run.state ≡ some why
      → import_files platform server token is_admin run
        ≡ (ok tt, record run { state = refused why run.state })
  unfolding import_files update
  import_files-refused is_admin why run e = rw (e, import_files) refl

  finished-idle :
      (p : Result Cause (Unit {0}) × Run Number (Wizard Number))
      → ((finished p).0 ≡ ok tt)
        × ((finished p).1.state.submitting ≡ false)
        × ((finished p).1.sent ≡ p.1.sent)
  unfolding finished
  finished-idle (ok done, run) = (refl, refl, refl)
  finished-idle (throw cause, run) = (refl, refl, refl)

  refused-idle : (why : Refusal) (s : Wizard Number) → (refused why s).submitting ≡ s.submitting
  refused-idle unready s = refl
  refused-idle (back_to text step) s = refl

  -- Whatever the server answers, to requests in any state of the wizard, an import that begins while none
  -- is running ends: it throws nothing, and the wizard is ready to submit again.
  pub import_files-ends :
      (is_admin : Bool) (run : Run Number (Wizard Number))
      → run.state.submitting ≡ false
      → ((import_files platform server token is_admin run).0 ≡ ok tt)
        × ((import_files platform server token is_admin run).1.state.submitting ≡ false)
  import_files-ends is_admin run idle = elim (Option-cases (refusal is_admin run.state)) [
    | inl ready ↦
        let ends = finished-idle (submit platform server token (started run)) in
        rw (import_files-finished is_admin run ready) (ends.0, ends.1)
    | inr (why, e) ↦
        rw (import_files-refused is_admin why run e) (refl, refused-idle why run.state ∙ idle)
  ]

  -- What the page needs before it submits.
  pub record IsReady (is_admin : Bool) (s : Wizard Number) : Type 0 where
    pub admin : is_admin ≡ true
    pub idle : s.submitting ≡ false
    pub project : trim s.project_key ≢ ""
    pub scope : trim s.scope_key ≢ ""
    pub some_valid : is_none_of (valid_files s.selected_files) ≡ false
    pub none_invalid : has_invalid_files s.selected_files ≡ false

  refusal_iff :
      (is_admin : Bool) (s : Wizard Number) → (refusal is_admin s ≡ none) ↔ IsReady is_admin s
  unfolding refusal
  refusal_iff is_admin s = (
    λ ready. record {
      admin = ground arith;
      idle = ground arith;
      project = ground (arith, eq_iff (trim s.project_key) "");
      scope = ground (arith, eq_iff (trim s.scope_key) "");
      some_valid = ground arith;
      none_invalid = ground arith;
    },
    λ v. ground (
      arith,
      v.admin,
      v.idle,
      v.project,
      v.scope,
      v.some_valid,
      v.none_invalid,
      eq_iff (trim s.project_key) "",
      eq_iff (trim s.scope_key) "",
    ),
  )

  not_extended :
      (sent : List (Request Number)) (r : Request Number) (more : List (Request Number))
      → (sent ++ r ∷ []) ++ more ≢ sent
  not_extended sent r more e = absurd (
      omega (
        arith,
        ap (λ xs. length xs) e,
        length-append (sent ++ r ∷ []) more,
        length-append sent (r ∷ []),
      ))

  -- An import sends something exactly when the user is an administrator, no import is running, project
  -- and scope are not blank, and there are files, all of them valid.
  pub import_files-sends_iff :
      (is_admin : Bool) (run : Run Number (Wizard Number))
      → ((import_files platform server token is_admin run).1.sent ≢ run.sent)
        ↔ IsReady is_admin run.state
  import_files-sends_iff is_admin run = (
    λ sends. elim (Option-cases (refusal is_admin run.state)) [
      | inl ready ↦ (refusal_iff is_admin run.state).0 ready
      | inr (why, e) ↦ absurd (sends (rw (import_files-refused is_admin why run e) refl))
    ],
    λ v same.
        let ready = (refusal_iff is_admin run.state).1 v in
        let (more, e) = submit-sent (started run) in
        not_extended run.sent (creation (submitting run.state)) more (
          sym e
          ∙ sym (finished-idle (submit platform server token (started run))).2
          ∙ sym (ap (λ p. p.1.sent) (import_files-finished is_admin run ready))
          ∙ same),
  )
