-- ===== src/Refresh/Tests.antt =====
-- A page that is shown, hidden and shown again.
use codex_memory.Prelude.{◌≡◌, refl, true, false, [], ◌∷◌}
use codex_memory.Refresh.{
  initial, step, mounted, unmounted, visibility_changed, mount, start, stop, cleared,
  clear_interval, handle_visibility, set_interval,
}
use codex_memory.Refresh.Timer.{steps, IsExact, timer-IsExact}

runs_once :
    (steps (initial false) (mounted ∷ visibility_changed true ∷ visibility_changed false ∷ [])).runs
    ≡ 1
unfolding steps step initial mount start stop cleared clear_interval handle_visibility set_interval
runs_once = refl

timer-IsExact_example :
    let r = steps (initial false) (mounted ∷ []) in IsExact r × ((step r unmounted).intervals ≡ [])
timer-IsExact_example = timer-IsExact false (mounted ∷ [])
