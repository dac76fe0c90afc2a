-- ===== src/DecisionPolicy/Valid.antt =====
-- When a policy passes validation, and what is sent then.
use codex_memory.Prelude.{
  ◌≡◌, refl, ◌≢◌, ◌⊎◌, Bool, true, ◌||◌, String, Option, none, some, arith, Option-cases, inl, inr,
  eq_iff,
}
use codex_memory.Js.{own, Runtime, Value, bool, num, str, obj, Fields, get, is_text, is_boolean}
use codex_memory.DecisionPolicy.{
  read_threshold, normalize_decision_policy, in_unit, validate_decision_policy, check_fields,
  not_loaded, enabled_not_boolean, auto_not_boolean, unknown_mode, bad_threshold,
  auto_without_enabled, mode_without_auto,
}
use codex_memory.DecisionPolicy.Reads.{
  confidence_in, get-normalize, enabled_in, auto_in, strategy_in,
}

-- No message is empty.
abbrev Speaks : Type 0
Speaks =
    (not_loaded ≢ "")
    × (enabled_not_boolean ≢ "")
    × (auto_not_boolean ≢ "")
    × (unknown_mode ≢ "")
    × (bad_threshold ≢ "")
    × (auto_without_enabled ≢ "")
    × (mode_without_auto ≢ "")

speaks : Speaks
speaks = ((λ e. cc), (λ e. cc), (λ e. cc), (λ e. cc), (λ e. cc), (λ e. cc), (λ e. cc))

abbrev pub IsMode : String → Type 0
IsMode mode = (mode ≡ "manual_review") ⊎ (mode ≡ "auto_publish")

module _ {N : Type 0} where
  boolean_of : (v : Value N) → is_boolean v ≡ true → (b : Bool) × (v ≡ bool b)
  boolean_of (bool b) h = (b, refl)
  boolean_of v h = cc

  IsMode-of :
      (v : Value N)
      → (is_text "manual_review" v || is_text "auto_publish" v) ≡ true
      → (mode : String) × (v ≡ str mode) × IsMode mode
  IsMode-of (str s) h = (s, refl, ground (arith, eq_iff s "manual_review", eq_iff s "auto_publish"))
  IsMode-of v h = cc

module _ ⦃rt : Runtime⦄ where
  open rt use {Number, number_of}

  module _ (e a s : Value Number) (t : Option Number) (h : check_fields e a s t ≡ "") where
    enabled-is_boolean : is_boolean e ≡ true
    unfolding check_fields
    enabled-is_boolean = ground (arith, speaks)

    auto-is_boolean : is_boolean a ≡ true
    unfolding check_fields
    auto-is_boolean = ground (arith, speaks)

    strategy-is_text : (is_text "manual_review" s || is_text "auto_publish" s) ≡ true
    unfolding check_fields
    strategy-is_text = ground (arith, speaks)

    threshold-ne-none : t ≢ none
    unfolding check_fields
    threshold-ne-none = ground (arith, speaks)

  -- The last two tests, once the others have passed.
  rules_of_check :
      (on auto : Bool) (mode : String) (limit : Number)
      → check_fields (bool on) (bool auto) (str mode) (some limit) ≡ ""
      → (auto ≡ true → on ≡ true) × (mode ≡ "auto_publish" → auto ≡ true)
  unfolding check_fields
  rules_of_check on auto mode limit h = ground (arith, speaks, eq_iff mode "auto_publish")

  -- Switches, mode and threshold of a policy, and the two rules that tie them.
  pub record IsValid (policy : Fields Number) : Type 0 where
    pub on : Bool
    pub auto : Bool
    pub mode : String
    pub limit : Number
    pub enabled : get "enabled" policy ≡ bool on
    pub auto_publish_enabled : get "auto_publish_enabled" policy ≡ bool auto
    pub strategy : get "strategy" policy ≡ str mode
    pub known : IsMode mode
    pub min_confidence : read_threshold (get "min_confidence" policy) ≡ some limit
    pub auto_needs_on : auto ≡ true → on ≡ true
    pub mode_needs_auto : mode ≡ "auto_publish" → auto ≡ true

  check_of_rules :
      (on auto : Bool) (mode : String) (limit : Number)
      → IsMode mode
      → (auto ≡ true → on ≡ true)
      → (mode ≡ "auto_publish" → auto ≡ true)
      → check_fields (bool on) (bool auto) (str mode) (some limit) ≡ ""
  unfolding check_fields
  check_of_rules on auto mode limit known p q =
      ground (arith, eq_iff mode "manual_review", eq_iff mode "auto_publish")

  pub validate_of_IsValid :
      (policy : Fields Number) → IsValid policy → validate_decision_policy (obj policy) ≡ ""
  unfolding validate_decision_policy
  validate_of_IsValid policy v =
      rw (v.enabled, v.auto_publish_enabled, v.strategy, v.min_confidence)
        (check_of_rules v.on v.auto v.mode v.limit v.known v.auto_needs_on v.mode_needs_auto)

  IsValid-of_check :
      (policy : Fields Number)
      → check_fields
          (get "enabled" policy)
          (get "auto_publish_enabled" policy)
          (get "strategy" policy)
          (read_threshold (get "min_confidence" policy))
        ≡ ""
      → IsValid policy
  IsValid-of_check policy h =
      let (on, enabled) = boolean_of _ (enabled-is_boolean _ _ _ _ h) in
      let (auto, auto_publish_enabled) = boolean_of _ (auto-is_boolean _ _ _ _ h) in
      let (mode, strategy, known) = IsMode-of _ (strategy-is_text _ _ _ _ h) in
      elim (Option-cases (read_threshold (get "min_confidence" policy))) [
        | inl missing ↦ absurd (threshold-ne-none _ _ _ _ h missing)
        | inr (limit, min_confidence) ↦
            let rules =
              rules_of_check on auto mode limit
                (rw (enabled, auto_publish_enabled, strategy, min_confidence) at h) in
            record {
              on = on;
              auto = auto;
              mode = mode;
              limit = limit;
              enabled = enabled;
              auto_publish_enabled = auto_publish_enabled;
              strategy = strategy;
              known = known;
              min_confidence = min_confidence;
              auto_needs_on = rules.0;
              mode_needs_auto = rules.1;
            }
      ]

  pub IsValid-of_validate :
      (policy : Fields Number) → validate_decision_policy (obj policy) ≡ "" → IsValid policy
  unfolding validate_decision_policy
  IsValid-of_validate policy h = IsValid-of_check policy h

  pub read_threshold-num : (n : Number) → in_unit n ≡ true → read_threshold (num n) ≡ some n
  unfolding read_threshold
  read_threshold-num n h = ground arith

  pub read_threshold-in_unit :
      (v : Value Number) {n : Number} → read_threshold v ≡ some n → in_unit n ≡ true
  unfolding read_threshold
  read_threshold-in_unit v h = ground arith

  pub confidence-in_unit :
      in_unit (number_of "0.8") ≡ true
      → (source : Fields Number) → in_unit (confidence_in source) ≡ true
  confidence-in_unit default source =
      elim (Option-cases (read_threshold (get "min_confidence" source))) [
        | inl missing ↦ rw missing default
        | inr (n, found) ↦ rw found (read_threshold-in_unit _ found)
      ]

  pub normalize-IsValid :
      in_unit (number_of "0.8") ≡ true
      → (value : Value Number) → IsValid (normalize_decision_policy value)
  normalize-IsValid default value = record {
    on = enabled_in (own value);
    auto = auto_in (own value);
    mode = strategy_in (own value);
    limit = confidence_in (own value);
    enabled = get-normalize "enabled" value;
    auto_publish_enabled = get-normalize "auto_publish_enabled" value;
    strategy = get-normalize "strategy" value;
    known = ground arith;
    min_confidence =
        rw (get-normalize "min_confidence" value)
          (read_threshold-num _ (confidence-in_unit default (own value)));
    auto_needs_on = ground arith;
    mode_needs_auto = ground (arith, eq_iff "manual_review" "auto_publish");
  }
