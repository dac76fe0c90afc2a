-- ===== src/RouteQuery.antt =====
-- apps/admin-web/src/composables/useRouteQuery.js: the filters of a list that stand in its URL.
pub mod Commit
mod Tests
use codex_memory.Prelude.{
  ◌==◌, ◌&&◌, ◌||◌, not, Bool, true, false, String, List, [], ◌∷◌, if◌then◌else◌,
}
use codex_memory.Js.{
  Runtime, Value, undefined, null, str, num, Fields, end, field, get, spread, is_nullish, is_text,
  ◌or◌, to_text, to_number,
}

abbrev pub is_member : List String → String → Bool
is_member [] key = false
is_member (k ∷ keys) key = k == key || is_member keys key

-- `value !== '' && value !== undefined && value !== null`
abbrev pub is_filled : {N : Type 0} → Value N → Bool
is_filled v = not (is_text "" v) && not (is_nullish v)

unfoldable pub clean : {N : Type 0} → Fields N → Fields N
clean end = end
clean (field k v more) = let rest = clean more in if is_filled v then field k v rest else rest

module _ ⦃rt : Runtime⦄ where
  open rt use {Number}

  abbrev read_value : List String → String → Value Number → Value Number → Value Number
  read_value numeric_keys key undefined fallback = fallback
  read_value numeric_keys key v fallback =
      if is_member numeric_keys key then num (to_number v) or fallback else str (to_text v)

  -- The state that the query of the route gives: a key for each default.
  unfoldable pub parse : Fields Number → List String → Fields Number → Fields Number
  unfolding to_text to_number get
  parse query numeric_keys end = end
  parse query numeric_keys (field key fallback defaults) =
      field key (read_value numeric_keys key (get key query) fallback)
        (parse query numeric_keys defaults)

  -- The state after `commit(patch)`, and the query that it navigates to.
  unfoldable pub commit :
      Fields Number → Fields Number → Fields Number → Fields Number × Fields Number
  unfolding spread clean
  commit query state patch =
      let state' = spread state patch in (state', clean (spread query state'))
