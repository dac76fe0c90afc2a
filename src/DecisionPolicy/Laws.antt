-- ===== src/DecisionPolicy/Laws.antt =====
-- What the policy functions promise together.
use codex_memory.Prelude.{
  ◌≡◌, refl, ◌↔◌, ◌==◌, Bool, true, false, not, ◌&&◌, ◌||◌, String, some, if◌then◌else◌, arith,
  Bool-cases, inl, inr, eq_iff,
}
use codex_memory.Js.{own, Runtime, Value, bool, str, obj, Fields, get, is_true, is_text}
use codex_memory.Js.Reads.{get-set}
use codex_memory.DecisionPolicy.{
  read_threshold, normalize_decision_policy, in_unit, synchronize, validate_decision_policy,
}
use codex_memory.DecisionPolicy.Reads.{
  confidence_in, get-normalize, enabled_in, auto_in, strategy_in,
}
use codex_memory.DecisionPolicy.Valid.{
  IsValid, IsMode, normalize-IsValid, validate_of_IsValid, IsValid-of_validate, read_threshold-num,
  confidence-in_unit,
}

abbrev mode_of_tests : Bool → String
mode_of_tests publish = if publish then "auto_publish" else "manual_review"

strategy_settles :
    (on auto publish : Bool)
    → mode_of_tests (on && (on && auto) && mode_of_tests (on && auto && publish) == "auto_publish")
      ≡ mode_of_tests (on && auto && publish)
strategy_settles true true true = refl
strategy_settles true true false = refl
strategy_settles true false publish = refl
strategy_settles false auto publish = refl

module _ ⦃rt : Runtime⦄ where
  open rt use {Number, number_of}

  -- Validation accepts an object exactly when both switches are booleans, the mode is known, the
  -- threshold reads as a number in [0, 1], automatic publishing is on only together with the
  -- policy, and the automatic mode only together with automatic publishing.
  pub validate_iff :
      (policy : Fields Number) → (validate_decision_policy (obj policy) ≡ "") ↔ IsValid policy
  validate_iff policy = (IsValid-of_validate policy, validate_of_IsValid policy)

  -- Where the default threshold lies in [0, 1], every value whatever, malformed ones included,
  -- normalises to a policy that validation accepts.
  pub validate-normalize :
      in_unit (number_of "0.8") ≡ true
      → (value : Value Number)
      → validate_decision_policy (obj (normalize_decision_policy value)) ≡ ""
  validate-normalize default value = validate_of_IsValid _ (normalize-IsValid default value)

  -- Where the default threshold lies in [0, 1], normalising a normalised policy changes no property.
  pub normalize-normalize :
      in_unit (number_of "0.8") ≡ true
      → (value : Value Number) (k : String)
      → get k (normalize_decision_policy (obj (normalize_decision_policy value)))
        ≡ get k (normalize_decision_policy value)
  unfolding own
  normalize-normalize default value k =
      let once = normalize_decision_policy value in
      let threshold : confidence_in once ≡ confidence_in (own value) = rw (
        get-normalize "min_confidence" value,
        read_threshold-num _ (confidence-in_unit default (own value)),
      ) in
      let strategy : strategy_in once ≡ strategy_in (own value) =
        rw
          (
            get-normalize "enabled" value,
            get-normalize "auto_publish_enabled" value,
            get-normalize "strategy" value,
          )
          (strategy_settles (enabled_in (own value))
            (is_true (get "auto_publish_enabled" (own value)))
            (is_text "auto_publish" (get "strategy" (own value)))) in
      rw (get-normalize k (obj once)) (
        ground (
          arith,
          eq_iff "min_confidence" k,
          eq_iff "allowed_scope" k,
          eq_iff "allowed_level" k,
          eq_iff "strategy" k,
          eq_iff "auto_publish_enabled" k,
          eq_iff "enabled" k,
          get-normalize "min_confidence" value,
          get-normalize "allowed_scope" value,
          get-normalize "allowed_level" value,
          get-normalize "strategy" value,
          get-normalize "auto_publish_enabled" value,
          get-normalize "enabled" value,
        ))

  true_of : (v : Value Number) → is_true v ≡ true → v ≡ bool true
  true_of (bool b) h = cc
  true_of v h = cc

  abbrev pub kept_mode : Bool → Value Number → Value Number
  kept_mode false mode = str "manual_review"
  kept_mode true mode = mode

  abbrev pub synchronized_mode : Bool → Bool → Value Number → Value Number
  synchronized_mode false auto mode = str "manual_review"
  synchronized_mode true auto mode = kept_mode (auto || not (is_text "auto_publish" mode)) mode

  get-synchronize :
      (k : String) (policy : Fields Number)
      → get k (synchronize policy) ≡ (
          if "strategy" == k
          then synchronized_mode
              (is_true (get "enabled" policy))
              (is_true (get "auto_publish_enabled" policy))
              (get "strategy" policy)
          else if "auto_publish_enabled" == k
          then bool (auto_in policy)
          else if "enabled" == k
          then bool (enabled_in policy)
          else get k policy)
  unfolding synchronize
  get-synchronize k policy = elim (Bool-cases (is_true (get "enabled" policy))) [
    | inr off ↦ rw off (simp get-set)
    | inl on ↦ elim (Bool-cases (is_true (get "auto_publish_enabled" policy))) [
      | inr off ↦ elim (Bool-cases (is_text "auto_publish" (get "strategy" policy))) [
        | inl publish ↦
            rw (on, off)
              (simp (get-set, publish, on, off)
                (ground (
                  arith,
                  eq_iff "auto_publish_enabled" k,
                  eq_iff "enabled" k,
                  eq_iff "strategy" k,
                  true_of (get "enabled" policy) on,
                )))
        | inr manual ↦
            rw
              (
                on,
                off,
                get-set "auto_publish_enabled" "strategy" (bool false) policy,
                manual,
                get-set "auto_publish_enabled" k (bool false) policy,
              )
              (ground (
                arith,
                eq_iff "auto_publish_enabled" k,
                eq_iff "strategy" k,
                eq_iff "enabled" k,
                eq_iff "auto_publish_enabled" "strategy",
                true_of (get "enabled" policy) on,
              ))
      ]
      | inl auto ↦
          rw (on, auto)
            (ground (
              arith,
              eq_iff "strategy" k,
              eq_iff "auto_publish_enabled" k,
              eq_iff "enabled" k,
              true_of (get "enabled" policy) on,
              true_of (get "auto_publish_enabled" policy) auto,
            ))
    ]
  ]

  synchronized_text :
      (on auto : Bool) (mode : String)
      → IsMode mode
      → (m : String) × (synchronized_mode on auto (str mode) ≡ str m)
        × IsMode m
        × (m ≡ "auto_publish" → (on && auto) ≡ true)
  synchronized_text false auto mode known = ("manual_review", refl, inl refl, λ e. cc)
  synchronized_text true true mode known = (mode, refl, known, λ e. refl)
  synchronized_text true false mode (inl manual) = (mode, rw manual, inl manual, λ e. cc)
  synchronized_text true false mode (inr publish) = ("manual_review", rw publish, inl refl, λ e. cc)

  -- Whatever the switches, and even where the mode does not fit them: after `synchronize` a policy
  -- with a known mode and a threshold in [0, 1] passes validation.
  pub validate-synchronize :
      (policy : Fields Number) (mode : String) (limit : Number)
      → get "strategy" policy ≡ str mode
      → IsMode mode
      → read_threshold (get "min_confidence" policy) ≡ some limit
      → validate_decision_policy (obj (synchronize policy)) ≡ ""
  validate-synchronize policy mode limit p known q =
      let (m, same, known', needs) =
        synchronized_text (is_true (get "enabled" policy))
          (is_true (get "auto_publish_enabled" policy)) mode known in
      validate_of_IsValid _ record {
        on = enabled_in policy;
        auto = auto_in policy;
        mode = m;
        limit = limit;
        enabled = get-synchronize "enabled" policy;
        auto_publish_enabled = get-synchronize "auto_publish_enabled" policy;
        strategy = rw (get-synchronize "strategy" policy, p) same;
        known = known';
        min_confidence = rw (get-synchronize "min_confidence" policy) q;
        auto_needs_on = ground arith;
        mode_needs_auto = needs;
      }

  mode_settles :
      (on auto : Bool) (mode : Value Number)
      → synchronized_mode on (on && auto) (synchronized_mode on auto mode)
        ≡ synchronized_mode on auto mode
  mode_settles false auto mode = refl
  mode_settles true true mode = refl
  mode_settles true false mode = ground arith

  -- Synchronising twice is synchronising once, at every property.
  pub synchronize-synchronize :
      (policy : Fields Number) (k : String)
      → get k (synchronize (synchronize policy)) ≡ get k (synchronize policy)
  synchronize-synchronize policy k =
      let once = synchronize policy in
      let on : enabled_in once ≡ enabled_in policy = rw (get-synchronize "enabled" policy) in
      let auto : is_true (get "auto_publish_enabled" once) ≡ auto_in policy =
        rw (get-synchronize "auto_publish_enabled" policy) in
      let mode = get-synchronize "strategy" policy in
      rw (get-synchronize k once, on, auto, mode)
        (ground (
          arith,
          mode_settles (enabled_in policy) (is_true (get "auto_publish_enabled" policy))
              (get "strategy" policy),
          eq_iff "strategy" k,
          eq_iff "auto_publish_enabled" k,
          eq_iff "enabled" k,
          get-synchronize "enabled" policy,
          get-synchronize "auto_publish_enabled" policy,
          mode,
        ))
