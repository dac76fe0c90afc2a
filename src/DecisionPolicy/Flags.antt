-- ===== src/DecisionPolicy/Flags.antt =====
-- The feature flags that a project may set.
use codex_memory.Prelude.{
  ◌≡◌, refl, ◌∙◌, ◌==◌, Bool, String, ok, arith, eq_iff, if◌then◌else◌, List, [], ◌∷◌, any,
  Bool-cases, inl, inr,
}
use codex_memory.Js.{own, Runtime, Value, undefined, bool, obj, Fields, get, set, prop, is_true}
use codex_memory.Js.Reads.{get-set}
use codex_memory.DecisionPolicy.{
  safe_feature_flag_definitions, assign_flags, normalize_feature_flags, flag_fields,
  build_feature_flags_payload,
}

abbrev pub names : List (String × String) → String → Bool
names definitions k = any (λ d. d.0 == k) definitions

module _ ⦃rt : Runtime⦄ where
  open rt use {Number}

  get-assign_flags :
      (k : String) (definitions : List (String × String)) (source flags : Fields Number)
      → get k (assign_flags definitions source flags)
        ≡ (if names definitions k then bool (is_true (get k source)) else get k flags)
  unfolding assign_flags
  get-assign_flags k [] source flags = refl
  get-assign_flags k ((key, label) ∷ more) source flags =
      let rest = get-assign_flags k more source (set key (bool (is_true (get key source))) flags) in
      ground (arith, rest, get-set key k (bool (is_true (get key source))) flags, eq_iff key k)

  get-flag_fields :
      (k : String) (definitions : List (String × String)) (source : Value Number)
      → get k (flag_fields definitions source)
        ≡ (if names definitions k then bool (is_true (prop k source)) else undefined)
  unfolding flag_fields get
  get-flag_fields k [] source = refl
  get-flag_fields k ((key, label) ∷ more) source =
      ground (arith, get-flag_fields k more source, eq_iff key k)

  kept :
      (k : String) (definitions : List (String × String)) (source : Fields Number)
      → if◌then◌else◌ {A = Value Number}
          (names definitions k)
          (bool (is_true (get k (assign_flags definitions source source))))
          undefined
        ≡ (if names definitions k then bool (is_true (get k source)) else undefined)
  kept k definitions source = elim (Bool-cases (names definitions k)) [
    | inl safe ↦ rw (get-assign_flags k definitions source source, safe)
    | inr other ↦ rw other
  ]

  -- The flags object of a value, as the code reads it.
  abbrev pub flags_of : Value Number → Fields Number
  flags_of value = own (get "flags" (own value))

  -- In the normalised flags the six safe ones are booleans, true only where the source says `true`;
  -- every other flag, and every property beside the flags, is as in the source.
  pub normalize_feature_flags_reads :
      (value : Value Number) (k : String)
      → (get "flags" (normalize_feature_flags value)
          ≡ obj (assign_flags safe_feature_flag_definitions (flags_of value) (flags_of value)))
        × (get k (assign_flags safe_feature_flag_definitions (flags_of value) (flags_of value)) ≡ (
            if names safe_feature_flag_definitions k
            then bool (is_true (get k (flags_of value)))
            else get k (flags_of value)))
        × (get k (normalize_feature_flags value) ≡ (
            if "flags" == k
            then obj (assign_flags safe_feature_flag_definitions (flags_of value) (flags_of value))
            else get k (own value)))
  unfolding normalize_feature_flags
  normalize_feature_flags_reads value k = (
    get-set "flags" "flags" _ (own value),
    get-assign_flags k safe_feature_flag_definitions _ _,
    get-set "flags" k _ (own value),
  )

  -- Normalising any value and building the payload never throws; the payload has the six safe flags
  -- alone, each `true` exactly where the value's own flags say `true`.
  pub build-normalize_flags :
      (value : Value Number)
      → (payload : Fields Number) × (build_feature_flags_payload
            (obj (normalize_feature_flags value))
          ≡ ok payload)
        × ((k : String)
            → get k payload ≡ (
                if names safe_feature_flag_definitions k
                then bool (is_true (get k (flags_of value)))
                else undefined))
  unfolding build_feature_flags_payload
  build-normalize_flags value =
      let flags = assign_flags safe_feature_flag_definitions (flags_of value) (flags_of value) in
      (
        flag_fields safe_feature_flag_definitions (obj flags),
        rw (normalize_feature_flags_reads value "flags").0 refl,
        λ k.
            get-flag_fields k safe_feature_flag_definitions (obj flags)
            ∙ kept k safe_feature_flag_definitions (flags_of value),
      )
