-- ===== src/Refresh.antt =====
-- apps/admin-web/src/composables/useVisibilityRefresh.js: the timer that refreshes a visible page.
-- The browser's part is the list of intervals that are running; the ids it gives are positive.
pub mod Timer
mod Tests
use codex_memory.Prelude.{
  ℕ, ◌+◌, Bool, true, false, Option, none, some, List, [], ◌∷◌, if◌then◌else◌, nat_eq,
}

pub record Refresh : Type 0 where
  pub timer : Option ℕ
  pub intervals : List ℕ
  pub last_id : ℕ
  pub hidden : Bool
  pub listening : Bool
  pub runs : ℕ

unfoldable pub initial : Bool → Refresh
initial hidden = record {
  timer = none;
  intervals = [];
  last_id = 0;
  hidden = hidden;
  listening = false;
  runs = 0;
}

-- `clearInterval`
unfoldable pub clear_interval : ℕ → List ℕ → List ℕ
clear_interval id [] = []
clear_interval id (i ∷ ids) =
    let rest = clear_interval id ids in if nat_eq i id then rest else i ∷ rest

-- The call of the callback that `run` begins.
abbrev pub run : Refresh → Refresh
run r = record r { runs = r.runs + 1 }

-- `if (timer) clearInterval(timer)`
unfoldable pub cleared : Option ℕ → List ℕ → List ℕ
unfolding clear_interval
cleared none ids = ids
cleared (some id) ids = clear_interval id ids

unfoldable pub stop : Refresh → Refresh
unfolding cleared
stop r = record r { timer = none; intervals = cleared r.timer r.intervals }

-- `setInterval`
unfoldable pub set_interval : Refresh → Refresh
set_interval r = record r {
  timer = some (r.last_id + 1);
  intervals = (r.last_id + 1) ∷ r.intervals;
  last_id = r.last_id + 1;
}

unfoldable pub start : Refresh → Refresh
start r = let r' = stop r in if r'.hidden then r' else set_interval r'

unfoldable pub handle_visibility : Refresh → Refresh
handle_visibility r = if r.hidden then stop r else start (run r)

unfoldable pub mount : Refresh → Refresh
mount r = record (start r) { listening = true }

unfoldable pub unmount : Refresh → Refresh
unmount r = record (stop r) { listening = false }

-- `visibility_changed` tells whether the page is hidden from then on; a `tick` is of an interval.
pub data Event : Type 0 where
  mounted unmounted started stopped refreshed : Event
  visibility_changed : Bool → Event
  tick : ℕ → Event

abbrev pub is_running : ℕ → List ℕ → Bool
is_running id [] = false
is_running id (i ∷ ids) = if nat_eq i id then true else is_running id ids

unfoldable pub step : Refresh → Event → Refresh
step r mounted = mount r
step r unmounted = unmount r
step r started = start r
step r stopped = stop r
step r refreshed = run r
step r (visibility_changed hidden) =
    let r' = record r { hidden = hidden } in if r.listening then handle_visibility r' else r'
step r (tick id) = if is_running id r.intervals then run r else r
