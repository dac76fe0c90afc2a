-- ===== src/Views/Choosing.antt =====
-- The file that is chosen for a revision is one that passed the checks.
use codex_memory.Prelude.{
  ◌≡◌, ◌≢◌, subst, refl, sym, ◌∙◌, ◌==◌, eq_iff, ◌⊎◌, String, List, [], ◌∷◌, Option-cases,
  Result-cases, Option, none, some, some-injective, Result, ok, throw, Bool-cases, inl, inr,
}
use codex_memory.Js.{Runtime, Value}
use codex_memory.Contracts.{extract_contract_service, upload_contract_revision}
use codex_memory.Pages.{Cause}
use codex_memory.Import.Files.{File}
use codex_memory.Views.Service.{
  ServicePage, Reader, validate_selected_file, select_file, file_checked, clear_file, upload,
  upload_request, upload_answered, upload_ended, begin_load, finish_load, is_filled,
}

module _ (reader : Reader) ⦃rt : Runtime⦄ where
  open rt use {Number}

  -- The events of the page that concern the upload. The check of a file ends as an event of its own.
  pub data Event : Type 0 where
    file_selected : Option File → Event
    check_ended : File → Event
    file_cleared upload_begun upload_finished : Event
    uploaded loaded : Result Cause (Value Number) → Event

  abbrev pub step : Event → ServicePage Number → ServicePage Number
  step (file_selected file) s = (select_file file s).0
  step (check_ended file) s = file_checked reader file s
  step file_cleared s = clear_file s
  step upload_begun s = upload s
  step (uploaded reply) s = upload_answered reply s
  step (loaded reply) s = finish_load reply s
  step upload_finished s = upload_ended s

  abbrev pub run : List Event → ServicePage Number → ServicePage Number
  run [] s = s
  run (event ∷ events) s = run events (step event s)

  -- A file that is chosen passes the checks.
  pub record IsChecked (s : ServicePage Number) : Type 0 where
    pub valid :
        (file : File) → s.selected_file ≡ some file → validate_selected_file reader file ≡ ""

  none_not_some : (file : File) → none ≢ some file
  none_not_some file e = cc

  kept-IsChecked :
      (s after : ServicePage Number)
      → after.selected_file ≡ s.selected_file
      → IsChecked s
      → IsChecked after
  kept-IsChecked s after same v = record { valid = λ file e. v.valid file (sym same ∙ e) }

  empty-IsChecked : (s : ServicePage Number) → s.selected_file ≡ none → IsChecked s
  empty-IsChecked s empty = record { valid = λ file e. absurd (none_not_some file (sym empty ∙ e)) }

  file_checked-IsChecked :
      (file : File) (s : ServicePage Number) → IsChecked s → IsChecked (file_checked reader file s)
  unfolding file_checked
  file_checked-IsChecked file s v = elim (Bool-cases (validate_selected_file reader file == "")) [
    | inl passes ↦ simp passes (record {
      valid = λ f e.
          subst (λ f. validate_selected_file reader f ≡ "") (some-injective _ _ e)
            ((eq_iff (validate_selected_file reader file) "").0 passes);
    })
    | inr refused ↦ simp refused (kept-IsChecked s _ refl v)
  ]

  step-IsChecked : (event : Event) (s : ServicePage Number) → IsChecked s → IsChecked (step event s)
  unfolding select_file clear_file upload upload_answered upload_ended begin_load finish_load
  step-IsChecked (file_selected file) s v = empty-IsChecked _ refl
  step-IsChecked (check_ended file) s v = file_checked-IsChecked file s v
  step-IsChecked file_cleared s v = elim (Bool-cases s.uploading) [
    | inl busy ↦ simp busy v
    | inr idle ↦ simp idle (empty-IsChecked _ refl)
  ]
  step-IsChecked upload_begun s v = elim (Bool-cases (is_filled s.selected_file)) [
    | inr empty ↦ simp empty (kept-IsChecked s _ refl v)
    | inl filled ↦ simp filled (elim (Bool-cases s.uploading) [
      | inl busy ↦ simp busy v
      | inr idle ↦ simp idle (kept-IsChecked s _ refl v)
    ])
  ]
  step-IsChecked (uploaded (ok result)) s v = empty-IsChecked _ refl
  step-IsChecked (uploaded (throw cause)) s v = kept-IsChecked s _ refl v
  step-IsChecked (loaded (throw cause)) s v = kept-IsChecked s _ refl v
  step-IsChecked (loaded (ok payload)) s v =
      elim (Result-cases (extract_contract_service payload)) [
        | inl (service, e) ↦ rw (e, finish_load) (kept-IsChecked s _ refl v)
        | inr (fault, e) ↦ rw (e, finish_load) (kept-IsChecked s _ refl v)
      ]
  step-IsChecked upload_finished s v = kept-IsChecked s _ refl v

  run-IsChecked :
      (events : List Event) (s : ServicePage Number) → IsChecked s → IsChecked (run events s)
  run-IsChecked [] s v = v
  run-IsChecked (event ∷ events) s v =
      run-IsChecked events (step event s) (step-IsChecked event s v)

  request-IsChecked :
      (token : String) (id : Value Number) (s : ServicePage Number)
      → IsChecked s
      → (upload_request token id s ≡ none)
        ⊎ ((file : File) × (validate_selected_file reader file ≡ "")
            × (upload_request token id s ≡ some (upload_contract_revision token id file.name)))
  unfolding upload_request
  request-IsChecked token id s v = elim (Option-cases s.selected_file) [
    | inl empty ↦ inl (rw (empty, upload_request) refl)
    | inr (file, e) ↦ elim (Bool-cases s.uploading) [
      | inl busy ↦ inl (rw (e, upload_request) (simp busy refl))
      | inr idle ↦ inr (file, v.valid file e, rw (e, upload_request) (simp idle refl))
    ]
  ]

  -- Files are selected and cleared, the checks of selected files end, uploads begin and end and the
  -- service is loaded, in any order: a chosen file stays one that `validateSelectedFile` accepts, and an
  -- upload that is then sent carries such a file.
  pub choosing-IsChecked :
      (events : List Event) (token : String) (id : Value Number) (s : ServicePage Number)
      → IsChecked s
      → IsChecked (run events s)
        × ((upload_request token id (run events s) ≡ none)
            ⊎ ((file : File) × (validate_selected_file reader file ≡ "")
                × (upload_request token id (run events s)
                    ≡ some (upload_contract_revision token id file.name))))
  choosing-IsChecked events token id s v =
      let kept = run-IsChecked events s v in (kept, request-IsChecked token id (run events s) kept)
