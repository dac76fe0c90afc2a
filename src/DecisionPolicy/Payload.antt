-- ===== src/DecisionPolicy/Payload.antt =====
-- `buildDecisionPolicyPayload`: what is sent, and when it throws.
use codex_memory.Prelude.{◌≡◌, refl, ◌≢◌, some, ok, throw, arith, eq_iff}
use codex_memory.Js.{Runtime, Value, bool, num, str, obj, Fields, end, field, get, to_number}
use codex_memory.DecisionPolicy.{
  read_threshold, validate_decision_policy, build_decision_policy_payload,
}
use codex_memory.DecisionPolicy.Valid.{
  IsValid, validate_of_IsValid, read_threshold-num, read_threshold-in_unit,
}

module _ ⦃rt : Runtime⦄ where
  open rt use {Number}

  to_number_of_threshold :
      (v : Value Number) {n : Number} → read_threshold v ≡ some n → to_number v ≡ n
  unfolding read_threshold
  to_number_of_threshold v h = ground arith

  abbrev pub payload : {policy : Fields Number} → IsValid policy → Fields Number
  payload v = field "min_confidence" (num v.limit) (
      field "enabled" (bool v.on)
        (field "auto_publish_enabled" (bool v.auto) (field "strategy" (str v.mode) end)))

  build_of_IsValid :
      {policy : Fields Number} (v : IsValid policy)
      → build_decision_policy_payload (obj policy) ≡ ok (payload v)
  unfolding build_decision_policy_payload
  build_of_IsValid {policy} v =
      rw
        (
          validate_of_IsValid policy v,
          to_number_of_threshold _ v.min_confidence,
          v.enabled,
          v.auto_publish_enabled,
          v.strategy,
        )
        refl

  payload-IsValid : {policy : Fields Number} (v : IsValid policy) → IsValid (payload v)
  unfolding get
  payload-IsValid v = record {
    on = v.on;
    auto = v.auto;
    mode = v.mode;
    limit = v.limit;
    enabled = refl;
    auto_publish_enabled = refl;
    strategy = refl;
    known = v.known;
    min_confidence = read_threshold-num v.limit (read_threshold-in_unit _ v.min_confidence);
    auto_needs_on = v.auto_needs_on;
    mode_needs_auto = v.mode_needs_auto;
  }

  -- From a valid policy the payload holds its two switches, its mode and its threshold as a number,
  -- and the payload is itself a policy that validation accepts.
  pub build-payload :
      {policy : Fields Number} (v : IsValid policy)
      → (build_decision_policy_payload (obj policy) ≡ ok (payload v))
        × (validate_decision_policy (obj (payload v)) ≡ "")
  build-payload v = (build_of_IsValid v, validate_of_IsValid _ (payload-IsValid v))

  -- Where validation has a message, building throws that message.
  pub build-throws :
      (value : Value Number)
      → validate_decision_policy value ≢ ""
      → build_decision_policy_payload value ≡ throw (validate_decision_policy value)
  unfolding build_decision_policy_payload
  build-throws value h = ground (arith, eq_iff (validate_decision_policy value) "")
