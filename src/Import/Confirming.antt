-- ===== src/Import/Confirming.antt =====
-- Actions on batches and candidates: when one is sent, and that each one ends.
use codex_memory.Prelude.{
  ◌≡◌, ◌≢◌, refl, subst, sym, ◌∙◌, ◌↔◌, ◌⊎◌, ◌==◌, eq_iff, Bool, true, false, not, ◌&&◌, ◌||◌,
  String, Option, none, some, some-injective, List, [], ◌∷◌, ◌++◌, text_member, Result, ok, throw,
  arith, Bool-cases, Option-cases, inl, inr,
}
use codex_memory.Prelude.Text.{trim}
use codex_memory.Js.{Runtime, Value}
use codex_memory.Pages.{Cause, member}
use codex_memory.Import.{Wizard, Action, ActionKind}
use codex_memory.Import.Batches.{
  plain_load, begin_load, finish_load, has_id, begin_detail, issues_shown, files_shown, body_shown,
  detail_shown, detail_ended, finish_detail,
}
use codex_memory.Import.Loads.{finish_load-Keeps}
use codex_memory.Import.Actions.{
  action_key, is_row_loading, permitted, confirmed, begun, confirm_action, sent_by_confirm,
  action_request, action_answered, action_finished, remove_text, reloads_detail, detail_reloaded,
  action_settled,
}

module _ ⦃rt : Runtime⦄ where
  open rt use {Number}

  -- What `confirmAction` needs: an open action, none that is being submitted, and a reason where the
  -- action wants one.
  pub record IsConfirmable (action : Action Number) (s : Wizard Number) : Type 0 where
    pub chosen : s.action ≡ some action
    pub idle : s.action_submitting ≡ false
    pub reasoned : action.requires_reason ≡ true → trim s.action_reason ≢ ""

  permitted_iff :
      (submitting : Bool) (reason : String) (chosen : Option (Action Number))
      (action : Action Number)
      → (permitted submitting reason chosen ≡ some action) ↔ (
          (chosen ≡ some action)
          × (submitting ≡ false)
          × (action.requires_reason ≡ true → trim reason ≢ ""))
  unfolding permitted
  permitted_iff submitting reason none action = (λ e. cc, λ (e, idle, reasoned). cc)
  permitted_iff true reason (some a) action = (λ e. cc, λ (e, idle, reasoned). cc)
  permitted_iff false reason (some a) action =
      elim (Bool-cases (a.requires_reason && trim reason == "")) [
        | inl missing ↦ rw missing (
          λ e. cc,
          λ (e, idle, reasoned). absurd (lacking action missing (some-injective _ _ e) reasoned),
        )
        | inr complete ↦ rw complete (
          λ e. (e, refl, supplied action complete (some-injective _ _ e)),
          λ (e, idle, reasoned). e,
        )
      ]
    where
      lacking :
          (b : Action Number)
          → (a.requires_reason && trim reason == "") ≡ true
          → a ≡ b
          → ¬ (b.requires_reason ≡ true → trim reason ≢ "")
      lacking b missing same reasoned =
          reasoned (subst (λ (x : Action Number). x.requires_reason ≡ true) same (ground arith))
            ((eq_iff (trim reason) "").0 (ground arith))

      supplied :
          (b : Action Number)
          → (a.requires_reason && trim reason == "") ≡ false
          → a ≡ b
          → b.requires_reason ≡ true
          → trim reason ≢ ""
      supplied b complete same needs empty =
          let needed : a.requires_reason ≡ true =
            subst (λ (x : Action Number). x.requires_reason ≡ true) (sym same) needs in
          let blank : (trim reason == "") ≡ true = (eq_iff (trim reason) "").1 empty in ground arith

  remove_text-member :
      (t u : String) (texts : List String)
      → text_member u (remove_text t texts) ≡ (not (t == u) && text_member u texts)
  unfolding remove_text
  remove_text-member t u [] = ground arith
  remove_text-member t u (s ∷ texts) =
      ground (arith, remove_text-member t u texts, eq_iff s t, eq_iff s u, eq_iff t u)

  confirmed_iff :
      (action : Action Number) (s : Wizard Number)
      → (confirmed s ≡ some action) ↔ IsConfirmable action s
  unfolding confirmed
  confirmed_iff action s =
      let same = permitted_iff s.action_submitting s.action_reason s.action action in
      (
        λ e. record { chosen = (same.0 e).0; idle = (same.0 e).1; reasoned = (same.0 e).2 },
        λ v. same.1 (v.chosen, v.idle, v.reasoned),
      )

  sent_confirmed :
      (token : String) (reviewer : Value Number) (action : Action Number) (s : Wizard Number)
      → confirmed s ≡ some action
      → sent_by_confirm token reviewer s
        ≡ some (action_request token reviewer action.kind action.target s.action_reason)
  unfolding sent_by_confirm
  sent_confirmed token reviewer action s e = rw (e, sent_by_confirm) refl

  sent_unconfirmed :
      (token : String) (reviewer : Value Number) (s : Wizard Number)
      → confirmed s ≡ none
      → sent_by_confirm token reviewer s ≡ none
  unfolding sent_by_confirm
  sent_unconfirmed token reviewer s e = rw (e, sent_by_confirm) refl

  begun_submits :
      (action : Action Number) (s : Wizard Number)
      → confirmed s ≡ some action
      → (confirm_action s).action_submitting ≡ true
  unfolding confirm_action begun
  begun_submits action s e = rw (e, confirm_action) refl

  -- Of the action that is open, `confirmAction` sends the request exactly while no action is being
  -- submitted, and with a reason that is not blank where the action requires one; otherwise it sends
  -- nothing. When it sends, the flag that keeps a second request from being sent is set.
  pub confirm_action-sends_iff :
      (token : String) (reviewer : Value Number) (action : Action Number) (s : Wizard Number)
      → s.action ≡ some action
      → (¬ IsConfirmable action s × (sent_by_confirm token reviewer s ≡ none))
        ⊎ (IsConfirmable action s
            × (sent_by_confirm token reviewer s
                ≡ some (action_request token reviewer action.kind action.target s.action_reason))
            × ((confirm_action s).action_submitting ≡ true))
  confirm_action-sends_iff token reviewer action s chosen = elim (Option-cases (confirmed s)) [
    | inl e ↦ inl (
      λ v. none_not_some (sym e ∙ (confirmed_iff action s).1 v),
      sent_unconfirmed token reviewer s e,
    )
    | inr (a, e) ↦
        let same : a ≡ action =
          some-injective _ _ (sym ((confirmed_iff a s).0 e).chosen ∙ chosen) in
        let ready = subst (λ (x : Action Number). confirmed s ≡ some x) same e in
        inr (
          (confirmed_iff action s).0 ready,
          sent_confirmed token reviewer action s ready,
          begun_submits action s ready,
        )
  ]
    where
      none_not_some : ¬ (none ≡ some action)
      none_not_some e = cc

  answered-rows :
      (kind : ActionKind) (target : Value Number) (reply : Result Cause (Value Number))
      (s : Wizard Number)
      → (action_answered kind target reply s).row_loading ≡ s.row_loading
  unfolding action_answered begin_load
  answered-rows kind target (ok result) s = refl
  answered-rows kind target (throw cause) s = refl

  text_member-last :
      (t u : String) (texts : List String)
      → text_member t (texts ++ u ∷ []) ≡ (u == t || text_member t texts)
  text_member-last t u [] = refl
  text_member-last t u (s ∷ texts) = ground (arith, text_member-last t u texts)

  begun-rows :
      (action : Action Number) (s : Wizard Number)
      → confirmed s ≡ some action
      → (confirm_action s).row_loading ≡ s.row_loading ++ action_key action.kind action.target ∷ []
  unfolding confirm_action begun
  begun-rows action s e = rw (e, confirm_action) refl

  removed_again : (b c : Bool) → (not b && (b || c)) ≡ (not b && c)
  removed_again true c = refl
  removed_again false c = refl

  issues_shown-rows :
      (issues : Result Cause (Value Number)) (s : Wizard Number)
      → (issues_shown issues s).row_loading ≡ s.row_loading
  unfolding issues_shown
  issues_shown-rows (throw cause) s = refl
  issues_shown-rows (ok body) s = refl

  files_shown-rows :
      (files issues : Result Cause (Value Number)) (s : Wizard Number)
      → (files_shown files issues s).row_loading ≡ s.row_loading
  unfolding files_shown
  files_shown-rows (throw cause) issues s = refl
  files_shown-rows (ok body) issues s = issues_shown-rows issues _

  body_shown-rows :
      (batch : Value Number) (body files issues : Result Cause (Value Number)) (s : Wizard Number)
      → (body_shown batch body files issues s).row_loading ≡ s.row_loading
  unfolding body_shown
  body_shown-rows batch (throw cause) files issues s = refl
  body_shown-rows batch (ok body) files issues s = files_shown-rows files issues _

  detail_shown-rows :
      (batch : Value Number) (detail : Result Cause (Value Number × Value Number × Value Number))
      (s : Wizard Number)
      → (detail_shown batch detail s).row_loading ≡ s.row_loading
  unfolding detail_shown
  detail_shown-rows batch (throw cause) s = refl
  detail_shown-rows batch (ok (body, files, issues)) s =
      body_shown-rows batch (member "data" body) (member "data" files) (member "data" issues) s

  detail_reloaded-rows :
      (target : Value Number) (detail : Result Cause (Value Number × Value Number × Value Number))
      (s : Wizard Number)
      → (detail_reloaded target detail s).row_loading ≡ s.row_loading
  unfolding detail_reloaded finish_detail detail_ended begin_detail
  detail_reloaded-rows target detail s =
      elim (Bool-cases (reloads_detail target s && has_id target)) [
        | inl e ↦ simp e (detail_shown-rows target detail (begin_detail false s))
        | inr e ↦ simp e refl
      ]

  -- The state before the `finally` of an action has the rows of the state before its reply.
  settled-rows :
      (kind : ActionKind) (target : Value Number) (reply : Result Cause (Value Number))
      (lists : Result Cause (Value Number × Value Number))
      (detail : Result Cause (Value Number × Value Number × Value Number)) (s : Wizard Number)
      → (action_settled kind target reply lists detail s).row_loading
        ≡ remove_text (action_key kind target) s.row_loading
  unfolding action_settled action_finished
  settled-rows kind target (throw cause) lists detail s =
      rw (answered-rows kind target (throw cause) s) refl
  settled-rows kind target (ok result) lists detail s =
      let answered = action_answered kind target (ok result) s in
      rw
        (
          detail_reloaded-rows target detail
              (finish_load plain_load answered.load_sequence lists answered),
          (finish_load-Keeps plain_load answered.load_sequence lists answered).rows,
          answered-rows kind target (ok result) s,
        )
        refl

  settled-idle :
      (kind : ActionKind) (target : Value Number) (reply : Result Cause (Value Number))
      (lists : Result Cause (Value Number × Value Number))
      (detail : Result Cause (Value Number × Value Number × Value Number)) (s : Wizard Number)
      → (action_settled kind target reply lists detail s).action_submitting ≡ false
  unfolding action_settled action_finished
  settled-idle kind target (throw cause) lists detail s = refl
  settled-idle kind target (ok result) lists detail s = refl

  -- Whatever the server answers to the request of an action, and to the loads of the lists and of the open
  -- batch that follow a success, at its end no action is being submitted, the row of the action is not
  -- marked as loading, and every other row is marked as it was before.
  pub action-ends :
      (action : Action Number) (reply : Result Cause (Value Number))
      (lists : Result Cause (Value Number × Value Number))
      (detail : Result Cause (Value Number × Value Number × Value Number)) (s : Wizard Number)
      (kind : ActionKind) (target : Value Number)
      → confirmed s ≡ some action
      → let after =
          action_settled action.kind action.target reply lists detail (confirm_action s) in
        (after.action_submitting ≡ false)
        × (is_row_loading kind target after ≡ (
            not (action_key action.kind action.target == action_key kind target)
            && is_row_loading kind target s))
  unfolding is_row_loading
  action-ends action reply lists detail s kind target e =
      let t = action_key action.kind action.target in
      let u = action_key kind target in
      (
        settled-idle action.kind action.target reply lists detail (confirm_action s),
        rw
            (
              settled-rows action.kind action.target reply lists detail (confirm_action s),
              remove_text-member t u (confirm_action s).row_loading,
              begun-rows action s e,
              text_member-last u t s.row_loading,
            )
            (removed_again (t == u) (text_member u s.row_loading)),
      )
