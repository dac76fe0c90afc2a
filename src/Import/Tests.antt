-- ===== src/Import/Tests.antt =====
-- Runs of the import wizard.
use codex_memory.Prelude.{
  ℕ, ◌+◌, ◌-◌, ◌≡◌, ◌≢◌, ◌≤◌, ◌⊎◌, ◌↔◌, refl, sym, subst, ◌∙◌, arith, true, false, not, ◌&&◌, ◌==◌,
  String, none, some, List, [], ◌∷◌, ◌++◌, All, length, Result, ok, throw,
}
use codex_memory.Prelude.Text.{trim, decimal}
use codex_memory.Js.{Value, null, str, obj, arr, nil, Fields, end, field, num, get}
use codex_memory.Js.Demo.{demo, demo_text}
use codex_memory.Api.{Request}
use codex_memory.Pages.{Cause, new_error}
use codex_memory.Pages.Calls.{Run}
use mathlib.Core.List.{Memᴰ}
use codex_memory.Pages.Calls.Grows.{Extends}
use codex_memory.Pages.Latest.{Event, begins, replies, begun}
use codex_memory.Import.{
  Wizard, Entry, initial, add_files, sync_wizard_query, query_project, query_scope, query_status,
  query_step, valid_files, ready, approve, cancel,
}
use codex_memory.Import.Files.{File, format_bytes, file_extension, import_status_label}
use codex_memory.Import.Upload.{
  Platform, Content, joined, slices, content_parts, part_progress, read_import_content,
}
use codex_memory.Import.Parts.{Fits, content_parts-joined, slices-ends, part_progress-bounds}
use codex_memory.Import.Selection.{added, step, IsPicked, selection-IsPicked}
use codex_memory.Import.Batches.{LoadOptions, plain_load, begin_load, load_shown, load_ended}
use codex_memory.Import.Filling.{
  all_attempted, some_fails, opened, partly_failed, start_request, fill_batch-all_attempted,
}
use codex_memory.Import.Loads.{Answer, answer, load-latest}
use codex_memory.Import.Query.{IsStep, query-reads}
use codex_memory.Import.Actions.{
  definition, open_action, confirmed, sent_by_confirm, confirm_action, action_request,
  action_settled, is_row_loading, action_key,
}
use codex_memory.Import.Confirming.{IsConfirmable, confirm_action-sends_iff, action-ends}
use codex_memory.Import.Submit.{import_files, fill_batch}
use codex_memory.Import.Sending.{IsReady, import_files-ends, import_files-sends_iff}
use codex_memory.Import.Uploading.{Accepted, accepting, upload_complete}

abbrev bytes : List ℕ
bytes = 104 ∷ 105 ∷ []

abbrev note : File
note = record { name = "Notes.MD"; size = 2; last_modified = 7; bytes = some bytes }

abbrev picture : File
picture = record { name = "a.png"; size = 2; last_modified = 7; bytes = some bytes }

extension_of_note : file_extension "Notes.tar.MD" ≡ "md"
unfolding file_extension
extension_of_note = refl

three_halves : format_bytes 1536 ≡ "1.5 KiB"
unfolding format_bytes
three_halves = refl

queued : import_status_label "queued" ≡ "已排队"
unfolding import_status_label
queued = refl

other_status : import_status_label "odd" ≡ "odd"
unfolding import_status_label
other_status = refl

abbrev three : List ℕ
three = 1 ∷ 2 ∷ 3 ∷ []

content_parts-joined_example :
    (joined (content_parts 2 three) ≡ three)
    × (1 ≤ length (content_parts 2 three))
    × (All (Fits 2) (content_parts 2 three) ⊎ ((three ≡ []) × (content_parts 2 three ≡ [] ∷ [])))
content_parts-joined_example = content_parts-joined 2 three (omega arith)

slices-ends_example :
    (slices (length three + 5) 2 0 three ≡ slices (length three) 2 0 three)
    × (joined (slices (length three) 2 0 three) ≡ three)
slices-ends_example = slices-ends 2 5 three (omega arith)

two_parts : content_parts 2 three ≡ (1 ∷ 2 ∷ []) ∷ (3 ∷ []) ∷ []
unfolding content_parts
two_parts = refl

part_progress-bounds_example :
    (5 ≤ part_progress 1 3)
    × (part_progress 1 3 ≤ 92)
    × (part_progress (1 - 1) 3 ≤ part_progress 1 3)
part_progress-bounds_example = part_progress-bounds 1 3 (omega arith)

abbrev start : Wizard demo.Number
start = initial null (field "project_key" (str "p") end)

none-IsPicked : IsPicked start.selected_files
unfolding initial get
none-IsPicked = record { few = omega arith; distinct = tt; checked = tt }

selection-IsPicked_example :
    IsPicked (step (added (note ∷ note ∷ picture ∷ [])) start).selected_files
selection-IsPicked_example =
    selection-IsPicked (added (note ∷ note ∷ picture ∷ [])) start none-IsPicked

two_picked : length (add_files (note ∷ note ∷ picture ∷ []) start).selected_files ≡ 2
unfolding add_files initial
two_picked = refl

abbrev batch_reply : Value demo.Number
batch_reply = obj (field "data" (arr nil) end)

abbrev reply : Answer
reply = (plain_load, ok (batch_reply, batch_reply))

-- One load has begun before the last one.
abbrev one_begun : List (Event LoadOptions Answer)
one_begun = begins plain_load ∷ []

abbrev last_load : Wizard demo.Number
last_load = begin_load plain_load (begin_load plain_load start)

one_is_old :
    Memᴰ 1 (begun begin_load answer (λ (w : Wizard demo.Number). w.load_sequence) one_begun start)
unfolding begin_load initial
one_is_old = Memᴰ.head refl

load-latest_example :
    (replies answer ((1, reply) ∷ (last_load.load_sequence, reply) ∷ (1, reply) ∷ []) last_load
      ≡ load_ended (load_shown reply.0 reply.1 last_load))
    × ((replies answer
          ((1, reply) ∷ (last_load.load_sequence, reply) ∷ (1, reply) ∷ [])
          last_load).loading
        ≡ false)
load-latest_example =
    load-latest one_begun plain_load (ok (batch_reply, batch_reply)) ((1, reply) ∷ [])
      ((1, reply) ∷ []) start (one_is_old, tt) (one_is_old, tt)

abbrev platform : Platform
platform = record {
  decode_utf8 = λ bytes. some bytes;
  btoa = λ bytes. bytes;
  unit_text = λ units. decimal (length units);
}

abbrev upload_body : Fields demo.Number
upload_body = field "upload_id" (num (some 1000)) (
    field "source_type" (str "markdown")
      (field "batch_id" (num (some 7000)) (field "id" (num (some 7000)) end)))

abbrev upload_reply : Fields demo.Number
upload_reply = field "data" (obj upload_body) end

abbrev answers : List (Request demo.Number) → Value demo.Number
answers log = obj upload_reply

abbrev entry : Entry
entry = record {
  key = "Notes.MD:2:7";
  file = note;
  name = "Notes.MD";
  size = 2;
  status = ready;
  progress = 0;
  error = "";
}

abbrev note_content : Content
note_content = record { binary = false; units = bytes }

note_readable : read_import_content platform note ≡ ok note_content
unfolding read_import_content
note_readable = refl

abbrev entry_run : Run demo.Number Entry
entry_run = record { sent = []; state = entry }

upload_complete_example :
    Accepted platform "t" answers (num (some 7000)) entry note_content upload_body entry_run
unfolding get
upload_complete_example =
    upload_complete platform "t" answers (num (some 7000)) entry note_content upload_reply
      upload_body entry_run note_readable refl refl

abbrev picked : Wizard demo.Number
picked = add_files (note ∷ []) start

abbrev run : Run demo.Number (Wizard demo.Number)
run = record { sent = []; state = picked }

not_submitting : picked.submitting ≡ false
unfolding add_files initial
not_submitting = refl

import_files-ends_example :
    ((import_files platform (accepting platform answers) "t" true run).0 ≡ ok tt)
    × ((import_files platform (accepting platform answers) "t" true run).1.state.submitting ≡ false)
import_files-ends_example =
    import_files-ends platform (accepting platform answers) "t" true run not_submitting

import_files-sends_iff_example :
    ((import_files platform (accepting platform answers) "t" true run).1.sent ≢ [])
    ↔ IsReady platform (accepting platform answers) "t" true picked
import_files-sends_iff_example =
    import_files-sends_iff platform (accepting platform answers) "t" true run

-- A server that has no room.
abbrev refusing : List (Request demo.Number) → Result Cause (Value demo.Number)
refusing log = throw (new_error "no room")

fill_batch-all_attempted_example :
    let files = valid_files run.state.selected_files in
    let after =
      all_attempted platform refusing "t"
        (num (some 7000))
        files
        (opened platform refusing "t" (num (some 7000)) run) in
    ((some_fails platform refusing "t"
          (num (some 7000))
          files
          (opened platform refusing "t" (num (some 7000)) run)
        ≡ true)
      × (fill_batch platform refusing "t" (num (some 7000)) run
          ≡ (throw (partly_failed platform refusing "t" (num (some 7000))), after)))
    ⊎ ((some_fails platform refusing "t"
            (num (some 7000))
            files
            (opened platform refusing "t" (num (some 7000)) run)
          ≡ false)
        × Extends
            (record after {
              sent = after.sent ++ start_request platform refusing "t" (num (some 7000)) ∷ [];
            })
            (fill_batch platform refusing "t" (num (some 7000)) run).1)
fill_batch-all_attempted_example =
    fill_batch-all_attempted platform refusing "t" (num (some 7000)) run

project_p : trim start.project_key ≡ "p"
unfolding initial trim get
project_p = refl

scope_project : trim start.scope_key ≡ "project"
unfolding initial trim get
scope_project = refl

step_zero : start.current_step ≡ some 0
unfolding initial get
step_zero = refl

p_ne : ◌≢◌ {A = String} "p" ""
p_ne e = cc

project_ne : ◌≢◌ {A = String} "project" ""
project_ne e = cc

zero_ne : ◌≢◌ {A = String} "0" ""
zero_ne e = cc

zero_text : demo.number_text (some 0) ≡ "0"
unfolding demo_text
zero_text = refl

zero_IsStep : IsStep (some 0)
unfolding demo_text
zero_IsStep = record { shown = λ e. zero_ne e; back = refl; finite = refl; within = refl }

query-reads_example :
    (query_project null (sync_wizard_query end start).query ≡ trim start.project_key)
    × (query_scope (sync_wizard_query end start).query ≡ trim start.scope_key)
    × (query_status (sync_wizard_query end start).query ≡ start.status_filter)
    × (query_step (sync_wizard_query end start).query ≡ start.current_step)
query-reads_example =
    query-reads null start (λ e. p_ne (sym project_p ∙ e)) (λ e. project_ne (sym scope_project ∙ e))
      (subst IsStep (sym step_zero) zero_IsStep)

abbrev target : Value demo.Number
target = obj (field "id" (num (some 7000)) end)

abbrev asked : Wizard demo.Number
asked = open_action cancel target start

asked_action : asked.action ≡ some (definition cancel target)
unfolding open_action
asked_action = refl

confirm_action-sends_iff_example :
    (¬ IsConfirmable (definition cancel target) asked × (sent_by_confirm "t" null asked ≡ none))
    ⊎ (IsConfirmable (definition cancel target) asked
        × (sent_by_confirm "t" null asked
            ≡ some (
                action_request "t" null
                  (definition cancel target).kind
                  (definition cancel target).target
                  asked.action_reason))
        × ((confirm_action asked).action_submitting ≡ true))
confirm_action-sends_iff_example =
    confirm_action-sends_iff "t" null (definition cancel target) asked asked_action

asked-confirmed : confirmed asked ≡ some (definition cancel target)
unfolding confirmed open_action initial definition
asked-confirmed = refl

action-ends_example :
    let after =
      action_settled
        (definition cancel target).kind
        (definition cancel target).target
        (ok null)
        (throw (new_error "no room"))
        (throw (new_error "no room"))
        (confirm_action asked) in
    (after.action_submitting ≡ false)
    × (is_row_loading approve target after ≡ (
        not (
          action_key (definition cancel target).kind (definition cancel target).target
          == action_key approve target)
        && is_row_loading approve target asked))
action-ends_example =
    action-ends (definition cancel target) (ok null) (throw (new_error "no room"))
      (throw (new_error "no room")) asked approve target asked-confirmed
