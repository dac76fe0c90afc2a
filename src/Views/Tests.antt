-- ===== src/Views/Tests.antt =====
-- Runs of the pages.
use codex_memory.Prelude.{
  ◌≡◌, ◌≢◌, ◌≤◌, ◌<◌, ◌⊎◌, refl, arith, Bool, true, false, List, String, Option, none, some, [],
  ◌∷◌, All, length, Result, ok, throw,
}
use codex_memory.Js.{Value, null, str, obj, arr, nil, cons, Fields, end, field, get, prop, set}
use codex_memory.Js.Demo.{demo}
use mathlib.Core.List.{Memᴰ}
use codex_memory.Contracts.{publish_contract_revision, upload_contract_revision}
use codex_memory.Prelude.Text.{trim}
use codex_memory.Session.{has_permission, includes, load}
use codex_memory.Context.{initial}
use codex_memory.Pages.{Cause}
use codex_memory.Pages.Latest.{Event as LoadEvent, begins, replies, begun}
use codex_memory.Import.Files.{File}
use codex_memory.TaskRuns.{unwrap_data}
use codex_memory.Views.TaskRuns
use codex_memory.Views.TaskRuns.{TaskRunsPage}
use codex_memory.Views.Latest.{task_runs-latest}
use codex_memory.Views.Revision.{RevisionPage, publish_request, publish, publish_settled, conflict}
use codex_memory.Views.Publishing.{IsReady, loaded_revision, publish-sends_iff, publish-refused}
use codex_memory.Views.Service.{ServicePage, Reader, validate_selected_file, upload_request}
use codex_memory.Views.Choosing.{
  Event, file_selected, check_ended, run, IsChecked, choosing-IsChecked,
}
use codex_memory.Views.Shell.{
  Item, Shell, nav_groups, is_visible, context_query, sync_context_from_route,
}
use codex_memory.Views.Navigation.{nav_items, permits_path, nav_items-permitted, sync-context_query}
use codex_memory.Views.Projects
use codex_memory.Views.Projects.{ProjectsPage, max_page, filtered_rows, rows}
use codex_memory.Views.Paging.{pages, all_pages-rows, finish_load-shows}
use codex_memory.Views.Records.{filters_of, build_params}
use codex_memory.Views.TaskRun
use codex_memory.Views.TaskRun.{TaskRunPage, begin_report, finish_report, event_type_label}
use codex_memory.Views.Races.{report-overtaken, job_type-ignored}
use codex_memory.Views.Login.{safe_redirect, starts_slash, starts_slashes, safe_redirect-IsPath}

submitted : event_type_label "UserPromptSubmit" ≡ "用户提交任务"
unfolding event_type_label
submitted = refl

abbrev task_runs : TaskRunsPage demo.Number
task_runs = TaskRuns.opened (field "page" (str "2") end)

abbrev answer : Result Cause (Value demo.Number)
answer = ok (obj (field "data" (arr (cons (obj end) nil)) end))

-- One load has begun before the last one.
abbrev one_begun : List (LoadEvent Bool (Result Cause (Value demo.Number)))
one_begun = begins true ∷ []

abbrev last_load : TaskRunsPage demo.Number
last_load = TaskRuns.begin_load true (TaskRuns.begin_load true task_runs)

one_is_old : Memᴰ 1 (
    begun TaskRuns.begin_load TaskRuns.finish_load
      (λ (p : TaskRunsPage demo.Number). p.load_sequence)
      one_begun
      task_runs)
unfolding TaskRuns.begin_load TaskRuns.opened
one_is_old = Memᴰ.head refl

task_runs-latest_example :
    (replies TaskRuns.finish_load
        ((1, answer) ∷ (last_load.load_sequence, answer) ∷ (1, answer) ∷ [])
        last_load
      ≡ TaskRuns.loaded answer last_load)
    × ((replies TaskRuns.finish_load
          ((1, answer) ∷ (last_load.load_sequence, answer) ∷ (1, answer) ∷ [])
          last_load).loading
        ≡ false)
task_runs-latest_example =
    task_runs-latest one_begun true answer ((1, answer) ∷ []) ((1, answer) ∷ []) task_runs
      (one_is_old, tt) (one_is_old, tt)

abbrev revision : Value demo.Number
revision = obj (field "status" (str "proposed") (field "content_hash" (str "h") end))

abbrev revision_page : RevisionPage demo.Number
revision_page = record {
  service = null;
  revision = revision;
  active_tab = "validation";
  loading = false;
  publishing = false;
  publish_visible = true;
  error = none;
  success = "";
  query = end;
}

publish-sends_iff_example :
    (IsReady true revision_page
      × (publish_request true "t" (str "s") (str "1") revision_page
          ≡ some (
              publish_contract_revision "t"
                (str "s")
                (str "1")
                (prop "content_hash" revision_page.revision)))
      × ((publish true revision_page).publishing ≡ true))
    ⊎ (¬ IsReady true revision_page
        × (publish_request true "t" (str "s") (str "1") revision_page ≡ none)
        × (publish true revision_page ≡ revision_page))
publish-sends_iff_example = publish-sends_iff true "t" (str "s") (str "1") revision_page

abbrev moved_on : Cause
moved_on = record { message = "moved on"; status = some 409; request_id = some "r-1" }

publish-refused_example :
    let after = publish_settled (str "1") (throw moved_on) (throw moved_on) revision_page in
    (after.publishing ≡ false)
    × (((moved_on.status ≡ some 409)
          × (after.error ≡ some (conflict moved_on))
          × (after.publish_visible ≡ false)
          × (after.revision ≡ loaded_revision (throw moved_on)))
        ⊎ ((moved_on.status ≢ some 409)
            × (after.error ≡ some moved_on)
            × (after.publish_visible ≡ revision_page.publish_visible)
            × (after.revision ≡ revision_page.revision)))
publish-refused_example = publish-refused (str "1") moved_on (throw moved_on) revision_page

abbrev reader : Reader
reader = record { decode = λ bytes. some "{}"; is_json = λ text. true }

abbrev spec : File
spec = record { name = "api.json"; size = 2; last_modified = 0; bytes = some (123 ∷ 125 ∷ []) }

abbrev empty_file : File
empty_file = record { name = "empty.yml"; size = 0; last_modified = 0; bytes = some [] }

abbrev service_page : ServicePage demo.Number
service_page = record {
  service = null;
  active_tab = "upload";
  loading = false;
  uploading = false;
  upload_percent = 0;
  error = none;
  file_error = "";
  selected_file = none;
  upload_result = null;
  upload_reused = false;
  query = end;
}

none_chosen : IsChecked reader service_page
none_chosen = record { valid = λ file e. cc }

abbrev choices : List (Event reader)
choices =
    file_selected (some spec)
    ∷ file_selected (some empty_file)
    ∷ check_ended spec
    ∷ check_ended empty_file
    ∷ []

choosing-IsChecked_example :
    IsChecked reader (run reader choices service_page)
    × ((upload_request "t" (str "s") (run reader choices service_page) ≡ none)
        ⊎ ((file : File) × (validate_selected_file reader file ≡ "")
            × (upload_request "t" (str "s") (run reader choices service_page)
                ≡ some (upload_contract_revision "t" (str "s") file.name))))
choosing-IsChecked_example =
    choosing-IsChecked reader choices "t" (str "s") service_page none_chosen

abbrev me : Value demo.Number
me = obj (field "permissions" (arr (cons (str "read") nil)) end)

me_reads : has_permission me "read" ≡ ok true
unfolding has_permission includes get
me_reads = refl

nav_items-permitted_example :
    All (λ (item : Item). is_visible me item ≡ permits_path me item.to) (nav_items nav_groups)
nav_items-permitted_example = nav_items-permitted me me_reads

abbrev shell : Shell demo.Number
shell = record {
  session = load none none;
  context = record initial { project_key = "p"; scope_id = "s" };
  session_error = none;
  collapsed = false;
  stored_collapsed = none;
  mobile_open = false;
  is_mobile = false;
}

p_ne : ◌≢◌ {A = String} "p" ""
p_ne e = cc

sync-context_query_example : sync_context_from_route (context_query shell.context) shell ≡ shell
sync-context_query_example = sync-context_query shell p_ne

abbrev project : Value demo.Number
project = obj (field "project_key" (str "alpha") end)

abbrev projects : ProjectsPage demo.Number
projects = record {
  keyword = "";
  status = "";
  page = 9;
  page_size = 2;
  all_rows = project ∷ project ∷ project ∷ [];
  loading = false;
  error = none;
  detail_loading = false;
  detail_error = none;
  detail = null;
  scopes = nil;
}

all_pages-rows_example :
    pages (max_page (length (filtered_rows projects)) 2) 1 2 (filtered_rows projects)
    ≡ filtered_rows projects
all_pages-rows_example = all_pages-rows projects (omega arith)

abbrev projects_body : Fields demo.Number
projects_body = field "data" (arr (cons project (cons project (cons project nil)))) end

finish_load-shows_example :
    let after = Projects.finish_load (ok (obj projects_body)) projects in
    (1 ≤ after.page)
    × (after.page ≤ max_page (length (filtered_rows after)) after.page_size)
    × ((length (filtered_rows after) ≡ 0) ⊎ (0 < length (rows after)))
finish_load-shows_example = finish_load-shows projects_body projects (omega arith) (omega arith)

abbrev task_run : TaskRunPage demo.Number
task_run = TaskRun.opened end

one_ne : ◌≢◌ {A = String} "1" ""
one_ne e = cc

two_ne : ◌≢◌ {A = String} "2" ""
two_ne e = cc

report-overtaken_example :
    let after = finish_report true (ok (str "first")) (
      finish_report false
        (ok (str "second"))
        (begin_report (str "2") (begin_report (str "1") task_run))) in
    (after.revision ≡ "2")
    × (after.report ≡ unwrap_data (str "first"))
    × (after.report_loading ≡ false)
    × (after.error ≡ none)
unfolding trim
report-overtaken_example =
    report-overtaken true false "1" "2" (str "first") (str "second") task_run one_ne two_ne refl
      refl

abbrev undated : Value demo.Number → Option String
undated v = none

abbrev card : Fields demo.Number
card = field "kind" (str "jobs") (field "status" (str "pending") end)

job_type-ignored_example :
    build_params undated (filters_of (set "job_type" (str "decide_candidate") card))
    ≡ build_params undated (filters_of card)
job_type-ignored_example = job_type-ignored undated (str "decide_candidate") card

safe_redirect-IsPath_example :
    (starts_slash (safe_redirect (field "redirect" (str "//evil.example") end)) ≡ true)
    × (starts_slashes (safe_redirect (field "redirect" (str "//evil.example") end)) ≡ false)
safe_redirect-IsPath_example = safe_redirect-IsPath (field "redirect" (str "//evil.example") end)
