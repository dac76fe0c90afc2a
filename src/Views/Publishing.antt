-- ===== src/Views/Publishing.antt =====
-- When a revision is published from its page, and how a publication ends.
use codex_memory.Prelude.{
  ◌≡◌, ◌≢◌, nat_eq, Result-cases, refl, ◌↔◌, ◌⊎◌, Bool, true, false, String, none, some, Result, ok,
  throw, arith, Bool-cases, inl, inr,
}
use codex_memory.Js.{Runtime, Value, null, obj, end, own, prop, ◌or◌}
use codex_memory.Contracts.{publish_contract_revision, extract_contract_service, unwrap_data}
use codex_memory.Contracts.Publishing.{IsPublishable, can_publish_iff}
use codex_memory.Pages.{Cause}
use codex_memory.Views.Revision.{
  RevisionPage, publish_allowed, may_publish, publish, publish_request, publish_answered,
  publish_ended, publish_settled, finish_load, is_conflict, conflict, refused, sync_tab,
}

module _ ⦃rt : Runtime⦄ where
  open rt use {Number}

  -- What a publication needs: an administrator, no publication under way, and a shown revision that is
  -- proposed, has a content hash and no errors.
  pub record IsReady (is_admin : Bool) (s : RevisionPage Number) : Type 0 where
    pub admin : is_admin ≡ true
    pub idle : s.publishing ≡ false
    pub publishable : IsPublishable (own (s.revision or obj end))

  may_publish_iff :
      (is_admin : Bool) (s : RevisionPage Number)
      → (may_publish is_admin s ≡ true) ↔ IsReady is_admin s
  unfolding publish_allowed
  may_publish_iff is_admin s = (
    λ e. record {
      admin = ground arith;
      idle = ground arith;
      publishable = (can_publish_iff (own (s.revision or obj end))).0 (ground arith);
    },
    λ v.
        ground
          (arith, v.admin, v.idle, (can_publish_iff (own (s.revision or obj end))).1 v.publishable),
  )

  -- A publication is sent exactly by an administrator, while none is under way, for a shown revision that
  -- is proposed, has a content hash and no errors; it carries the content hash that is shown, and the flag
  -- that keeps a second one from being sent is set. Otherwise nothing is sent and the page stays as it is.
  pub publish-sends_iff :
      (is_admin : Bool) (token : String) (service_id revision_number : Value Number)
      (s : RevisionPage Number)
      → (IsReady is_admin s
          × (publish_request is_admin token service_id revision_number s
              ≡ some (
                  publish_contract_revision token service_id revision_number
                    (prop "content_hash" s.revision)))
          × ((publish is_admin s).publishing ≡ true))
        ⊎ (¬ IsReady is_admin s
            × (publish_request is_admin token service_id revision_number s ≡ none)
            × (publish is_admin s ≡ s))
  unfolding publish publish_request
  publish-sends_iff is_admin token service_id revision_number s =
      elim (Bool-cases (may_publish is_admin s)) [
        | inl e ↦ inl ((may_publish_iff is_admin s).0 e, simp e refl, simp e refl)
        | inr e ↦
            inr (λ v. true_not_false ((may_publish_iff is_admin s).1 v) e, simp e refl, simp e refl)
      ]
    where
      true_not_false : may_publish is_admin s ≡ true → ¬ (may_publish is_admin s ≡ false)
      true_not_false e f = ground arith

  is_conflict_iff : (cause : Cause) → (is_conflict cause ≡ true) ↔ (cause.status ≡ some 409)
  is_conflict_iff cause =
      elim cause.status
        as (λ x.
          (elim x as (λ y. Bool) [ none ↦ false | some status ↦ nat_eq status 409 ] ≡ true)
          ↔ (x ≡ some 409)) [
            | none ↦ (λ e. cc, λ e. cc)
            | some status ↦ (λ e. ground arith, λ e. ground arith)
          ]

  -- The revision that a load shows: the one of its first reply, where the second one holds a service.
  unfoldable pub loaded_revision : Result Cause (Value Number × Value Number) → Value Number
  loaded_revision (throw cause) = null
  loaded_revision (ok (revision_result, service_result)) =
      elim (extract_contract_service service_result) [
        | ok service ↦ unwrap_data revision_result
        | throw fault ↦ null
      ]

  finish_load-revision :
      (reloaded : Result Cause (Value Number × Value Number)) (s : RevisionPage Number)
      → (finish_load reloaded s).revision ≡ loaded_revision reloaded
  unfolding finish_load refused sync_tab loaded_revision
  finish_load-revision (throw cause) s = refl
  finish_load-revision (ok (revision_result, service_result)) s =
      elim (Result-cases (extract_contract_service service_result)) [
        | inl (service, e) ↦ rw (e, finish_load, loaded_revision) refl
        | inr (fault, e) ↦ rw (e, finish_load, loaded_revision) refl
      ]

  -- An error of a publication with the status 409 ends with its own message and the id of the failed
  -- request, whatever the load that follows it gives, with the dialog closed and the revision that this
  -- load gives, or none where it fails. Any other error is shown as it is, with the dialog and the
  -- revision as they were. In both cases no publication is under way.
  pub publish-refused :
      (number : Value Number) (cause : Cause)
      (reloaded : Result Cause (Value Number × Value Number)) (s : RevisionPage Number)
      → let after = publish_settled number (throw cause) reloaded s in
        (after.publishing ≡ false)
        × (((cause.status ≡ some 409)
              × (after.error ≡ some (conflict cause))
              × (after.publish_visible ≡ false)
              × (after.revision ≡ loaded_revision reloaded))
            ⊎ ((cause.status ≢ some 409)
                × (after.error ≡ some cause)
                × (after.publish_visible ≡ s.publish_visible)
                × (after.revision ≡ s.revision)))
  unfolding publish_settled publish_ended publish_answered
  publish-refused number cause reloaded s = elim (Bool-cases (is_conflict cause)) [
    | inl e ↦
        simp e
          (refl, inl ((is_conflict_iff cause).0 e, refl, refl, finish_load-revision reloaded _))
    | inr e ↦
        simp e (refl, inr (λ same. not_both ((is_conflict_iff cause).1 same) e, refl, refl, refl))
  ]
    where
      not_both : is_conflict cause ≡ true → ¬ (is_conflict cause ≡ false)
      not_both e f = ground arith
