-- ===== src/Import/Selection.antt =====
-- The selection of files: at most a hundred, each once, and valid or marked as invalid.
use codex_memory.Prelude.{
  ℕ, zero, suc, ◌-◌, ◌≤◌, ◌≡◌, refl, ap, ◌∙◌, ◌==◌, ◌||◌, not, eq_iff, eq_refl, or-true, Bool, true,
  false, String, List, [], ◌∷◌, ◌++◌, map, length, take, All, All-append, text_member, arith,
  Bool-cases, inl, inr, length-append, length-take_le,
}
use codex_memory.Js.{Runtime}
use codex_memory.Import.Files.{File, validate_file, max_files}
use codex_memory.Import.{
  Entry, Wizard, is_invalid, file_key, pick, remove_at, new_entry, add_files, remove_file,
  reset_wizard, reset_context_work,
}

-- The changes of the selection.
pub data Edit : Type 0 where
  added : List File → Edit
  removed : ℕ → Edit
  was_reset context_was_reset : Edit

abbrev keys : List Entry → List String
keys entries = map (λ (entry : Entry). entry.key) entries

-- No text twice.
abbrev pub IsDistinct : List String → Type 0
IsDistinct [] = Unit
IsDistinct (t ∷ more) = (text_member t more ≡ false) × IsDistinct more

text_member-append :
    (t : String) (xs ys : List String)
    → text_member t (xs ++ ys) ≡ (text_member t xs || text_member t ys)
text_member-append t [] ys = refl
text_member-append t (s ∷ xs) ys = rw (text_member-append t xs ys) (grouped (s == t))
  where
    grouped :
        (b : Bool)
        → b || (text_member t xs || text_member t ys) ≡ (b || text_member t xs) || text_member t ys
    grouped true = refl
    grouped false = refl

map-append : (xs ys : List Entry) → keys (xs ++ ys) ≡ keys xs ++ keys ys
map-append [] ys = refl
map-append (x ∷ xs) ys = ap (λ rest. x.key ∷ rest) (map-append xs ys)

-- What follows after a distinct list, none of whose texts is in it.
abbrev IsApart : List String → List String → Type 0
IsApart xs [] = Unit
IsApart xs (y ∷ ys) = (text_member y xs ≡ false) × IsApart xs ys

module _ ⦃rt : Runtime⦄ where
  open rt use {Number}

  abbrev pub IsChecked : Entry → Type 0
  IsChecked entry =
      (is_invalid entry ≡ not (validate_file entry.file == "")) × (entry.key ≡ file_key entry.file)

  pub record IsPicked (entries : List Entry) : Type 0 where
    pub few : length entries ≤ max_files
    pub distinct : IsDistinct (keys entries)
    pub checked : All IsChecked entries

  abbrev pub step : Edit → Wizard Number → Wizard Number
  step (added files) s = add_files files s
  step (removed index) s = remove_file index s
  step was_reset s = reset_wizard s
  step context_was_reset s = reset_context_work s

  new_entry-IsChecked : (file : File) → IsChecked (new_entry file (validate_file file))
  new_entry-IsChecked file = marked (validate_file file)
    where
      marked :
          (refused : String)
          → (is_invalid (new_entry file refused) ≡ not (refused == ""))
            × ((new_entry file refused).key ≡ file_key file)
      marked refused = elim (Bool-cases (refused == "")) [
        | inl e ↦ rw e (refl, refl)
        | inr e ↦ rw e (refl, refl)
      ]

  pick-IsChecked : (known : List String) (files : List File) → All IsChecked (pick known files)
  unfolding pick
  pick-IsChecked known [] = tt
  pick-IsChecked known (file ∷ files) = elim (Bool-cases (text_member (file_key file) known)) [
    | inl seen ↦ rw seen (pick-IsChecked known files)
    | inr fresh ↦ rw fresh (new_entry-IsChecked file, pick-IsChecked (file_key file ∷ known) files)
  ]

  other_key :
      (t k : String) (known : List String)
      → text_member t known ≡ true
      → text_member k known ≡ false
      → (k == t) ≡ false
  other_key t k known inside outside = elim (Bool-cases (k == t)) [
    | inl same ↦ absurd (ground (arith, (eq_iff k t).0 same))
    | inr apart ↦ apart
  ]

  -- No entry is made for a key that is known.
  pick-fresh :
      (t : String) (known : List String) (files : List File)
      → text_member t known ≡ true
      → text_member t (keys (pick known files)) ≡ false
  unfolding pick
  pick-fresh t known [] inside = refl
  pick-fresh t known (file ∷ files) inside = elim (Bool-cases (text_member (file_key file) known)) [
    | inl seen ↦ rw seen (pick-fresh t known files inside)
    | inr fresh ↦
        rw (fresh, other_key t (file_key file) known inside fresh)
          (pick-fresh t (file_key file ∷ known) files (rw inside (or-true (file_key file == t))))
  ]

  pick-IsDistinct : (known : List String) (files : List File) → IsDistinct (keys (pick known files))
  unfolding pick
  pick-IsDistinct known [] = tt
  pick-IsDistinct known (file ∷ files) = elim (Bool-cases (text_member (file_key file) known)) [
    | inl seen ↦ rw seen (pick-IsDistinct known files)
    | inr fresh ↦ rw fresh (
      pick-fresh (file_key file) (file_key file ∷ known) files (rw (eq_refl (file_key file)) refl),
      pick-IsDistinct (file_key file ∷ known) files,
    )
  ]

  IsDistinct-append :
      (xs ys : List String)
      → IsDistinct xs
      → IsDistinct ys
      → ((t : String) → text_member t xs ≡ true → text_member t ys ≡ false)
      → IsDistinct (xs ++ ys)
  IsDistinct-append [] ys dx dy apart = dy
  IsDistinct-append (x ∷ xs) ys (new, dx) dy apart = (
    text_member-append x xs ys ∙ rw (new, apart x (rw (eq_refl x) refl)) refl,
    IsDistinct-append xs ys dx dy (λ t inside. apart t (rw inside (or-true (x == t)))),
  )

  length-pick : (known : List String) (files : List File) → length (pick known files) ≤ length files
  unfolding pick
  length-pick known [] = omega arith
  length-pick known (file ∷ files) = elim (Bool-cases (text_member (file_key file) known)) [
    | inl seen ↦ rw seen (omega (arith, length-pick known files))
    | inr fresh ↦ rw fresh (omega (arith, length-pick (file_key file ∷ known) files))
  ]

  -- Entries that are picked join a selection that has room for the files.
  IsPicked-append :
      (entries : List Entry) (files : List File)
      → length files ≤ max_files - length entries
      → IsPicked entries
      → IsPicked (entries ++ pick (keys entries) files)
  IsPicked-append entries files room v = record {
    few = omega (
      arith,
      length-append entries (pick (keys entries) files),
      length-pick (keys entries) files,
      v.few,
    );
    distinct = rw (map-append entries (pick (keys entries) files)) (
        IsDistinct-append (keys entries) (keys (pick (keys entries) files)) v.distinct
          (pick-IsDistinct (keys entries) files)
          (λ t inside. pick-fresh t (keys entries) files inside));
    checked =
        All-append IsChecked entries (pick (keys entries) files) v.checked
          (pick-IsChecked (keys entries) files);
  }

  empty-IsPicked : IsPicked []
  empty-IsPicked = record { few = omega arith; distinct = tt; checked = tt }

  remove_at-absent :
      (t : String) (index : ℕ) (entries : List Entry)
      → text_member t (keys entries) ≡ false
      → text_member t (keys (remove_at index entries)) ≡ false
  unfolding remove_at
  remove_at-absent t index [] e = e
  remove_at-absent t zero (x ∷ entries) e = or_right (x.key == t) e
    where
      or_right :
          (b : Bool)
          → b || text_member t (keys entries) ≡ false
          → text_member t (keys entries) ≡ false
      or_right true e = cc
      or_right false e = e
  remove_at-absent t (suc index) (x ∷ entries) e =
      both (x.key == t) (text_member t (keys entries)) e (remove_at-absent t index entries)
    where
      both :
          (b c : Bool)
          → b || c ≡ false
          → (c ≡ false → text_member t (keys (remove_at index entries)) ≡ false)
          → b || text_member t (keys (remove_at index entries)) ≡ false
      both true c e rest = cc
      both false c e rest = rest e

  remove_at-IsPicked :
      (index : ℕ) (entries : List Entry) → IsPicked entries → IsPicked (remove_at index entries)
  unfolding remove_at
  remove_at-IsPicked index entries v = record {
    few = omega (arith, length-remove_at index entries, v.few);
    distinct = distinct index entries v.distinct;
    checked = checked index entries v.checked;
  }
    where
      length-remove_at :
          (index : ℕ) (entries : List Entry) → length (remove_at index entries) ≤ length entries
      length-remove_at index [] = omega arith
      length-remove_at zero (x ∷ xs) = omega arith
      length-remove_at (suc index) (x ∷ xs) = omega (arith, length-remove_at index xs)

      distinct :
          (index : ℕ) (entries : List Entry)
          → IsDistinct (keys entries)
          → IsDistinct (keys (remove_at index entries))
      distinct index [] d = d
      distinct zero (x ∷ xs) (new, d) = d
      distinct (suc index) (x ∷ xs) (new, d) =
          (remove_at-absent x.key index xs new, distinct index xs d)

      checked :
          (index : ℕ) (entries : List Entry)
          → All IsChecked entries
          → All IsChecked (remove_at index entries)
      checked index [] c = c
      checked zero (x ∷ xs) (c, cs) = cs
      checked (suc index) (x ∷ xs) (c, cs) = (c, checked index xs cs)

  -- Adding files, removing one, starting over and changing the project keep a selection of at most 100
  -- files with different keys, each marked as invalid exactly when `validateFile` refuses its file.
  pub selection-IsPicked :
      (edit : Edit) (s : Wizard Number)
      → IsPicked s.selected_files
      → IsPicked (step edit s).selected_files
  unfolding add_files remove_file reset_wizard reset_context_work
  selection-IsPicked (added files) s v =
      IsPicked-append s.selected_files (take (max_files - length s.selected_files) files)
        (length-take_le (max_files - length s.selected_files) files) v
  selection-IsPicked (removed index) s v = elim (Bool-cases s.submitting) [
    | inl busy ↦ simp busy v
    | inr idle ↦ simp idle (remove_at-IsPicked index s.selected_files v)
  ]
  selection-IsPicked was_reset s v = empty-IsPicked
  selection-IsPicked context_was_reset s v = elim (Bool-cases s.submitting) [
    | inl busy ↦ simp busy v
    | inr idle ↦ simp idle empty-IsPicked
  ]
