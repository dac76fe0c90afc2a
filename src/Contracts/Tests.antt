-- ===== src/Contracts/Tests.antt =====
-- Services, revisions and paginations at concrete inputs.

use codex_memory.Prelude.{◌≡◌, refl, ◌↔◌, true, [], ◌∷◌, ok, some}
use codex_memory.Prelude.Text.{codes}
use codex_memory.Js.{
  Value, bool, str, num, arr, nil, cons, obj, Fields, of_entries, get, set, copied,
}
use codex_memory.Js.Demo.{demo}
use codex_memory.Contracts.{
  matches_service_key, normalize_contract_service, normalize_source, find_revision, service_source,
  can_publish_contract_revision,
}
use codex_memory.Contracts.Paths.{IsServiceKey, matches_service_key_iff}
use codex_memory.Contracts.Publishing.{IsPublishable, can_publish_iff}

matches_service_key_iff_example :
    (matches_service_key (codes "user-api") ≡ true) ↔ IsServiceKey (codes "user-api")
matches_service_key_iff_example = matches_service_key_iff (codes "user-api")

abbrev revision : Fields demo.Number
revision = of_entries (
    ("id", str "r1")
    ∷ ("revision_number", num (some 3000))
    ∷ ("status", str "proposed")
    ∷ ("content_hash", str "h")
    ∷ [])

abbrev service : Fields demo.Number
service = of_entries (
    ("name", str "users")
    ∷ ("current_published_revision_id", str "r1")
    ∷ ("revisions", arr (cons (obj revision) nil))
    ∷ [])

-- The service that is read.
abbrev normalized : Fields demo.Number
normalized = of_entries (
    ("name", str "users")
    ∷ ("current_published_revision_id", str "r1")
    ∷ ("revisions", arr (cons (obj revision) nil))
    ∷ ("status", str "published")
    ∷ ("published_revision_number", num (some 3000))
    ∷ [])

reads_service : normalize_contract_service (obj service) ≡ ok normalized
unfolding normalize_contract_service normalize_source find_revision service_source copied get set
reads_service = refl

can_publish_iff_example : (can_publish_contract_revision revision ≡ true) ↔ IsPublishable revision
can_publish_iff_example = can_publish_iff revision

abbrev project : Value demo.Number
project = obj (of_entries (("project_key", str "alpha") ∷ []))

abbrev meta : Fields demo.Number
meta = of_entries (
    ("page", num (some 2000))
    ∷ ("page_size", num (some 20000))
    ∷ ("total", num (some 0))
    ∷ ("has_next", bool true)
    ∷ [])

abbrev payload : Value demo.Number
payload = obj (of_entries (("meta", obj meta) ∷ []))
