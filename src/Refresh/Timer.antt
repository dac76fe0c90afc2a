-- ===== src/Refresh/Timer.antt =====
-- The intervals that run, whatever happens to the page.
use codex_memory.Prelude.{
  ℕ, ◌+◌, ◌≡◌, refl, ap, ◌∙◌, Bool, true, false, Option, none, some, List, [], ◌∷◌, if◌then◌else◌,
  nat_eq, arith, length,
}
use codex_memory.Refresh.{
  Refresh, initial, clear_interval, cleared, stop, set_interval, start, handle_visibility, mount,
  unmount, Event, mounted, unmounted, started, stopped, refreshed, visibility_changed, tick, step,
  is_running, run,
}

abbrev pub ids_of : Option ℕ → List ℕ
ids_of none = []
ids_of (some id) = id ∷ []

-- The running intervals are the timer's.
abbrev pub IsExact : Refresh → Type 0
IsExact r = r.intervals ≡ ids_of r.timer

nat_eq_refl : (n : ℕ) → nat_eq n n ≡ true
nat_eq_refl n = ground arith

cleared_lem : (timer : Option ℕ) (ids : List ℕ) → ids ≡ ids_of timer → cleared timer ids ≡ []
unfolding cleared clear_interval
cleared_lem none ids e = e
cleared_lem (some id) ids e = rw (e, nat_eq_refl id) refl

start-intervals :
    (r : Refresh)
    → IsExact r
    → (start r).intervals ≡ (if r.hidden then [] else (r.last_id + 1) ∷ [])
unfolding start set_interval stop
start-intervals r v = go r.hidden
  where
    go :
        (hidden : Bool)
        → (if hidden then stop r else set_interval (stop r)).intervals
          ≡ (if hidden then [] else (r.last_id + 1) ∷ [])
    go true = cleared_lem r.timer r.intervals v
    go false = ap ((r.last_id + 1) ∷◌) (cleared_lem r.timer r.intervals v)

start-IsExact : (r : Refresh) → IsExact r → IsExact (start r)
unfolding start set_interval stop
start-IsExact r v = go r.hidden
  where
    go : (hidden : Bool) → IsExact (if hidden then stop r else set_interval (stop r))
    go true = cleared_lem r.timer r.intervals v
    go false = ap ((r.last_id + 1) ∷◌) (cleared_lem r.timer r.intervals v)

heard-IsExact :
    (listens : Bool) (r : Refresh)
    → IsExact r
    → IsExact (if listens then handle_visibility r else r)
unfolding handle_visibility stop
heard-IsExact false r v = v
heard-IsExact true r v = go r.hidden
  where
    go : (hidden : Bool) → IsExact (if hidden then stop r else start (run r))
    go true = cleared_lem r.timer r.intervals v
    go false = start-IsExact (run r) v

step-IsExact : (e : Event) (r : Refresh) → IsExact r → IsExact (step r e)
unfolding step mount unmount stop
step-IsExact mounted r v = start-IsExact r v
step-IsExact unmounted r v = cleared_lem r.timer r.intervals v
step-IsExact started r v = start-IsExact r v
step-IsExact stopped r v = cleared_lem r.timer r.intervals v
step-IsExact refreshed r v = v
step-IsExact (visibility_changed hidden) r v =
    heard-IsExact r.listening (record r { hidden = hidden }) v
step-IsExact (tick id) r v = go (is_running id r.intervals)
  where
    go : (ours : Bool) → IsExact (if ours then run r else r)
    go true = v
    go false = v

unfoldable pub steps : Refresh → List Event → Refresh
steps r [] = r
steps r (e ∷ es) = steps (step r e) es

steps-IsExact : (es : List Event) (r : Refresh) → IsExact r → IsExact (steps r es)
unfolding steps
steps-IsExact [] r v = v
steps-IsExact (e ∷ es) r v = steps-IsExact es (step r e) (step-IsExact e r v)

hides :
    (listens : Bool) (r : Refresh)
    → IsExact r
    → r.hidden ≡ true
    → listens ≡ true
    → (if listens then handle_visibility r else r).intervals ≡ []
unfolding handle_visibility stop
hides true r v away e = rw away (cleared_lem r.timer r.intervals v)
hides false r v away e = cc

shows :
    (listens : Bool) (r : Refresh)
    → IsExact r
    → r.hidden ≡ false
    → listens ≡ true
    → length (if listens then handle_visibility r else r).intervals ≡ 1
unfolding handle_visibility
shows true r v here e = go r.hidden here
  where
    one : length (if r.hidden then [] else (r.last_id + 1) ∷ []) ≡ 1
    one = rw here refl

    go :
        (hidden : Bool)
        → hidden ≡ false
        → length (if hidden then stop r else start (run r)).intervals ≡ 1
    go true e = cc
    go false e = ap length (start-intervals (run r) v) ∙ one
shows false r v here e = cc

-- Whatever happens to a page, in any order: the browser runs the interval of the timer and no other,
-- so one at most, and none runs when the page's component is unmounted.
pub timer-IsExact :
    (hidden : Bool) (es : List Event)
    → let r = steps (initial hidden) es in IsExact r × ((step r unmounted).intervals ≡ [])
unfolding step unmount stop initial
timer-IsExact hidden es =
    let v = steps-IsExact es (initial hidden) refl in
    (v, cleared_lem (steps (initial hidden) es).timer (steps (initial hidden) es).intervals v)

-- While the page's component listens, whatever happened before: no interval runs right after the page
-- was hidden, and one does right after it was shown.
pub visibility-intervals :
    (hidden : Bool) (es : List Event)
    → (steps (initial hidden) es).listening ≡ true
    → let r = steps (initial hidden) es in
      ((step r (visibility_changed true)).intervals ≡ [])
      × (length (step r (visibility_changed false)).intervals ≡ 1)
unfolding step initial
visibility-intervals hidden es listens =
    let r = steps (initial hidden) es in
    let v = steps-IsExact es (initial hidden) refl in
    (
      hides r.listening (record r { hidden = true }) v refl listens,
      shows r.listening (record r { hidden = false }) v refl listens,
    )
