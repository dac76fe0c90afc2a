-- ===== src/Views/Revision.antt =====
-- apps/admin-web/src/views/ContractRevisionDetailView.vue: a revision of a contract and its publication.
-- Navigation by the router takes effect at once.
use codex_memory.Prelude.{
  ℕ, ◌==◌, ◌&&◌, not, Bool, true, false, String, ◌<>◌, Option, none, some, List, [], ◌∷◌,
  if◌then◌else◌, nat_eq, text_member, Result, ok, throw,
}
use codex_memory.Js.{
  Runtime, Value, null, str, obj, own, Items, Fields, end, set, prop, truthy, ◌or◌, ◌otherwise◌,
  to_text,
}
use codex_memory.Api.{Request}
use codex_memory.Contracts.{
  unwrap_data, array_items, can_publish_contract_revision, extract_contract_service,
  get_contract_revision, get_contract_service, publish_contract_revision,
}
use codex_memory.Pages.{Cause, text_or, of_fault}
use codex_memory.Import.Files.{format_bytes}

pub record RevisionPage (N : Type 0) : Type 0 where
  pub service : Value N
  pub revision : Value N
  pub active_tab : String
  pub loading : Bool
  pub publishing : Bool
  pub publish_visible : Bool
  pub error : Option Cause
  pub success : String
  pub query : Fields N

abbrev pub tabs : List String
tabs = "validation" ∷ "operations" ∷ "specification" ∷ "markdown" ∷ []

-- Sizes of revisions and of files of a service; no size is shown as a dash.
unfoldable pub format_size : ℕ → String
unfolding format_bytes
format_size bytes = if nat_eq bytes 0 then "-" else format_bytes bytes

-- The type of a tag for a method in capitals.
unfoldable pub method_type : String → String
method_type value =
    if value == "GET"
    then "success"
    else if value == "DELETE"
    then "danger"
    else if text_member value ("POST" ∷ "PUT" ∷ "PATCH" ∷ [])
    then "warning"
    else "info"

module _ ⦃rt : Runtime⦄ where
  open rt use {Number}

  -- `JSON.stringify(item)` is an argument.
  unfoldable pub validation_message : (Value Number → String) → Value Number → String
  unfolding to_text
  validation_message stringify (str s) = s
  validation_message stringify item =
      let message = prop "message" item in
      let code = prop "code" item in
      if truthy message
      then (if truthy code
          then to_text message <> ("（" <> (to_text code <> "）"))
          else to_text message)
      else stringify item

  unfoldable pub operations : RevisionPage Number → Items Number
  operations s = array_items (prop "operations" s.revision)

  unfoldable pub normalized_document : RevisionPage Number → Value Number
  normalized_document s =
      prop "normalized_document" s.revision
      or (prop "normalized_spec" s.revision or (prop "document" s.revision or obj end))

  unfoldable pub publish_allowed : Bool → RevisionPage Number → Bool
  unfolding own can_publish_contract_revision
  publish_allowed is_admin s =
      is_admin && can_publish_contract_revision (own (s.revision or obj end))

  unfoldable pub revision_value : Value Number → Value Number → Value Number
  revision_value route_number value =
      prop "revision_number" value otherwise (prop "revision" value otherwise route_number)

  unfoldable pub sync_tab : RevisionPage Number → RevisionPage Number
  unfolding set
  sync_tab s = record s { query = set "tab" (str s.active_tab) s.query }

  -- `load({ keepFeedback })` up to its await.
  unfoldable pub begin_load : Bool → RevisionPage Number → RevisionPage Number
  begin_load keep_feedback s = record s {
    loading = true;
    error = if keep_feedback then s.error else none;
    success = if keep_feedback then s.success else "";
  }

  unfoldable pub load_requests :
      String → Value Number → Value Number → Request Number × Request Number
  unfolding get_contract_revision get_contract_service
  load_requests token service_id revision_number = (
    get_contract_revision token service_id revision_number,
    get_contract_service token service_id,
  )

  unfoldable pub refused : Cause → RevisionPage Number → RevisionPage Number
  refused cause s = record s { revision = null; error = some cause; loading = false }

  -- The rest of `load`, when its two requests have been answered.
  unfoldable pub finish_load :
      Result Cause (Value Number × Value Number) → RevisionPage Number → RevisionPage Number
  unfolding extract_contract_service sync_tab refused of_fault
  finish_load (throw cause) s = refused cause s
  finish_load (ok (revision_result, service_result)) s =
      elim (extract_contract_service service_result) [
        | throw fault ↦ refused (of_fault fault) s
        | ok service ↦ sync_tab (record s {
          revision = unwrap_data revision_result;
          service = obj service;
          loading = false;
        })
      ]

  unfoldable pub open_publish : Bool → RevisionPage Number → RevisionPage Number
  unfolding publish_allowed
  open_publish is_admin s =
      if publish_allowed is_admin s then record s { publish_visible = true } else s

  abbrev pub may_publish : Bool → RevisionPage Number → Bool
  may_publish is_admin s = publish_allowed is_admin s && not s.publishing

  -- `publish()` up to its await.
  unfoldable pub publish : Bool → RevisionPage Number → RevisionPage Number
  unfolding publish_allowed
  publish is_admin s =
      if may_publish is_admin s
      then record s { publishing = true; error = none; success = "" }
      else s

  unfoldable pub publish_request :
      Bool → String → Value Number → Value Number → RevisionPage Number → Option (Request Number)
  unfolding publish_allowed publish_contract_revision
  publish_request is_admin token service_id revision_number s =
      if may_publish is_admin s
      then some (
          publish_contract_revision token service_id revision_number
            (prop "content_hash" s.revision))
      else none

  abbrev pub is_conflict : Cause → Bool
  is_conflict cause = elim cause.status [ none ↦ false | some status ↦ nat_eq status 409 ]

  -- The reply to `publish`: success and a conflict begin a load, another error is shown and ends it.
  unfoldable pub publish_answered :
      Value Number → Result Cause (Value Number) → RevisionPage Number → RevisionPage Number
  unfolding begin_load revision_value to_text
  publish_answered route_number (ok payload) s =
      let revision = unwrap_data payload in
      begin_load true (record s {
        revision = revision;
        publish_visible = false;
        success = "Revision v" <> (to_text (revision_value route_number revision) <> " 已发布");
      })
  publish_answered route_number (throw cause) s =
      if is_conflict cause
      then begin_load true s
      else record s { error = some cause; publishing = false }

  -- The error that a conflict is shown as, with the id of the request that met it.
  abbrev pub conflict : Cause → Cause
  conflict cause = record {
    message = "Revision 内容或状态已变化，页面已刷新；请核对最新哈希和状态后再操作。";
    status = some 409;
    request_id = cause.request_id;
  }

  -- The end of `publish`, when the load that followed its reply has ended.
  unfoldable pub publish_ended :
      Result Cause (Value Number) → RevisionPage Number → RevisionPage Number
  publish_ended (ok payload) s = record s { publishing = false }
  publish_ended (throw cause) s =
      if is_conflict cause
      then record s { error = some (conflict cause); publish_visible = false; publishing = false }
      else s

  -- The whole of `publish` from its reply on, where nothing else happens before the load that follows a
  -- success or a conflict has ended.
  unfoldable pub publish_settled :
      Value Number
      → Result Cause (Value Number)
      → Result Cause (Value Number × Value Number)
      → RevisionPage Number
      → RevisionPage Number
  unfolding publish_answered finish_load publish_ended
  publish_settled number (ok payload) reloaded s =
      publish_ended (ok payload) (finish_load reloaded (publish_answered number (ok payload) s))
  publish_settled number (throw cause) reloaded s =
      let answered = publish_answered number (throw cause) s in
      publish_ended (throw cause)
        (if is_conflict cause then finish_load reloaded answered else answered)

  -- The watcher of the tab in the query.
  unfoldable pub tab_changed : Value Number → RevisionPage Number → RevisionPage Number
  unfolding text_or
  tab_changed value s =
      let next = text_or value "validation" in
      record s { active_tab = if text_member next tabs then next else s.active_tab }
