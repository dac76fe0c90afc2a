-- ===== src/DecisionPolicy/Reads.antt =====
-- What a normalised policy reads at every property.
use codex_memory.Prelude.{◌≡◌, ◌==◌, Bool, ◌&&◌, String, if◌then◌else◌, arith}
use codex_memory.Js.{own, Runtime, Value, bool, num, str, Fields, get, is_true, is_text}
use codex_memory.Js.Reads.{get-set}
use codex_memory.DecisionPolicy.{read_threshold, threshold_or_default, normalize_decision_policy}

module _ ⦃rt : Runtime⦄ where
  open rt use {Number, number_of}

  -- The four values that normalising chooses.
  abbrev pub enabled_in : Fields Number → Bool
  enabled_in source = is_true (get "enabled" source)

  abbrev pub auto_in : Fields Number → Bool
  auto_in source = enabled_in source && is_true (get "auto_publish_enabled" source)

  abbrev pub strategy_in : Fields Number → String
  strategy_in source =
      if auto_in source && is_text "auto_publish" (get "strategy" source)
      then "auto_publish"
      else "manual_review"

  abbrev pub confidence_in : Fields Number → Number
  confidence_in source = threshold_or_default (read_threshold (get "min_confidence" source))

  -- The six properties are fixed, and every other one is the source's.
  pub get-normalize :
      (k : String) (value : Value Number)
      → get k (normalize_decision_policy value) ≡ (
          if "min_confidence" == k
          then num (confidence_in (own value))
          else if "allowed_scope" == k
          then str "project"
          else if "allowed_level" == k
          then str "L1"
          else if "strategy" == k
          then str (strategy_in (own value))
          else if "auto_publish_enabled" == k
          then bool (auto_in (own value))
          else if "enabled" == k
          then bool (enabled_in (own value))
          else get k (own value))
  unfolding normalize_decision_policy
  get-normalize k value = simp get-set (ground arith)
