-- ===== src/Lib.antt =====
-- A model of the CodexMemory admin application (apps/admin-web/src, JavaScript) and proofs about it.
--
-- The application is a single page over the HTTP API of the memory service. `api.js` builds requests
-- and turns what `fetch` gives into a payload or an error; the stores keep the session and the
-- selected project between pages; the router's guard asks the session store before each
-- navigation; the modules of the domain build request bodies and read replies for the pages; the
-- helpers render text. Each page's script keeps the state of what it shows, begins loads, and takes
-- their answers; the import wizard also sends files in parts.
--
--   Prelude          shared names, lists, results that may throw, text and URI encoding
--   Js               values of the language as JSON trees, their conversions, property reads
--   Api              api.js: appendQuery, request, AdminApiError, adminGet and its kin
--   TaskRuns         taskRuns.js
--   Contracts        contractServices.js
--   DecisionPolicy   decisionPolicy.js
--   Session          stores/session.js: the store, ensureSession and the promise that it shares
--   Router           router.js: the routes and the guard beforeEach
--   Context          stores/context.js: projects and scopes
--   Markdown         utils/markdown.js
--   Format           utils/format.js: tables, statuses, labels, titles; Readable has readable
--                    values and texts, Dates dates and numbers
--   CodexAuth        codexAuthStatus.js
--   Refresh          composables/useVisibilityRefresh.js
--   RouteQuery       composables/useRouteQuery.js
--   Pages            what the scripts of the pages share: errors as they are shown, reads of a reply,
--                    queries of the route; Pages/Calls has calls in sequence
--   Import           views/ImportView.vue: the wizard's state, the selection of files and its query
--     Files          validateFile, fileExtension, formatBytes and the labels
--     Upload         readImportContent, uploadFileByChunks
--     Batches        loadProjects, load, loadBatchDetail, openBatch, the timer, the route's watcher
--     Actions        openAction, confirmAction
--     Submit         importFiles
--   Views            the other pages, a file each
--     TaskRuns, TaskRun               views/TaskRunsView.vue, views/TaskRunDetailView.vue
--     Services, Service, Revision     views/ContractServicesView.vue, ContractServiceDetailView.vue,
--                                     ContractRevisionDetailView.vue
--     Records, Projects, Dashboard    views/RecordsView.vue, ProjectsView.vue, DashboardView.vue
--     Status, Governance              views/SystemStatusView.vue, components/ProjectGovernanceForm.vue
--                                     and CodexAuthCard.vue; Status/Checks and Dashboard/Cards
--                                     have the cards
--     Shell, Login                    App.vue, views/LoginView.vue
--   Widgets          components: ExpandableText, FileDropzone, ConfirmActionDialog, PermissionGate,
--                    PaginationBar, StatusTag, ReadableValue, CopyableText
--
-- A function keeps its name in snake case: `normalizeDecisionPolicy` is `normalize_decision_policy`,
-- `selectProject` is `select_project`. A module's parent file has the code; its children have the
-- proofs, named for what they prove, and `Tests` evaluates definitions and applies each theorem to
-- concrete values.
--
-- Values. `Js.Value` is the type of JSON trees with `undefined`: objects are lists of fields, and no
-- object is shared or contains itself. Numbers are abstract: the record `Js.Runtime` holds the
-- engine's `Number`, comparison, conversions from and to text, and the lower case of characters
-- beyond ASCII, and every theorem is about any such record. `Js.Demo` is one to evaluate with. A
-- text is a sequence of code points; the delimiters that the code looks for are all ASCII, and the
-- limits that cut a text count code units (`Format.Readable.text_length`).
--
-- State and time. The stores are records, and what happens to them is a data type of events with a
-- function `step`. A request in flight is an entry of the state; its answer is an event of its own,
-- so that answers come in any order and between any other events. `Session` separates a reply from
-- the `finally` that follows it. An error is a value: `Result` for code that throws, `Settled` for a
-- call that rejects.
--
-- Pages. An asynchronous function of a page is split at its await: `begin_load` is what `load` does
-- before it, with the request as a function of its own, and `finish_load` what it does with the
-- answer, so that other events come between. `importFiles` alone is one run of calls, in the monad
-- `Pages.Calls.Calls`: its state is the wizard with the requests sent so far, and the server is any
-- function of them that replies or rejects. Navigation takes effect at once: the query of the route
-- is a field of the page, or an argument. A check of a picked file ends as an event of its own
-- (`Views.Service.file_checked`). `publish_settled` and `action_settled` compose the steps of a
-- function from its first reply to its end, where nothing else happens between them; the loads of
-- the lists and the choice of a file are proved for events in any order.
--
-- Bounds and fuel. `Prelude.Text.decimal` has one unit of fuel more than the number, and a number has
-- no more digits than that. `Import.Upload.slices` takes the length of the content as fuel: each
-- slice passes over at least one unit, since its size is positive. All other recursion is
-- structural: a global replacement counts down the characters that a match has consumed.
--
-- Not modelled: the templates of the Vue files, the focus of elements and the registration of
-- listeners and timers, the clipboard, `main.js`, the build, and everything beside
-- `apps/admin-web`. vue-router, pinia, `fetch`, `URL` and the DOM are parameters: a target of
-- navigation, the outcome of a request and the list of running intervals. So are `TextDecoder` and `btoa` (`Import.Upload.Platform`,
-- `Views.Service.Reader`), `JSON.stringify`, `Intl` (`Format.Readable.Display`) and the conversion of
-- a local date. Progress and sizes are computed exactly on natural numbers.
pub mod Prelude
pub mod Js
pub mod Api
pub mod TaskRuns
pub mod Contracts
pub mod Session
pub mod DecisionPolicy
pub mod Router
pub mod Context
pub mod Markdown
pub mod Format
pub mod Refresh
pub mod RouteQuery
pub mod CodexAuth
pub mod Pages
pub mod Import
pub mod Views
pub mod Widgets
