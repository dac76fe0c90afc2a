-- ===== src/Session/Tests.antt =====
-- Runs of the session store.
use codex_memory.Prelude.{◌≤◌, ◌≡◌, refl, true, false, String, none, some, [], ◌∷◌, length, ◌≢◌}
use codex_memory.Js.{Value, str, obj, arr, of_entries, nil, truthy, get}
use codex_memory.Js.Demo.{demo}
use codex_memory.Session.{
  Session, load, set_me, ensure_session, start, handle, replied, logged_out, ensured, answered,
  finished, step, is_in, close, drop_call,
}
use codex_memory.Session.Invariant.{IsSound, here, next, session-IsSound}
use codex_memory.Session.Flight.{begin, then_event, Currents, single_flight}
use codex_memory.Session.Stale.{logout-answered}

abbrev user : Value demo.Number
user = obj (of_entries (("username", str "li") ∷ ("permissions", arr nil) ∷ []))

abbrev payload : Value demo.Number
payload = obj (of_entries (("data", user) ∷ []))

abbrev loaded : Session demo.Number
loaded = load (some "t1") none

-- Ensured twice, one request is sent; its reply restores the session.
abbrev asked : Session demo.Number
asked = step (step loaded (ensured false)) (ensured true)

answer : (step (step asked (answered 0 (replied payload))) (finished 0)).me ≡ user
unfolding step ensure_session start load is_in handle set_me close drop_call get
answer = refl

stored_token_lem : (token : String) → some "t1" ≡ some token → token ≢ ""
stored_token_lem token e = λ gone. cc

stored_me_lem : (me : Value demo.Number) → none ≡ some me → truthy me ≡ true
stored_me_lem me e = cc

session-IsSound_example : IsSound asked
session-IsSound_example =
    session-IsSound (some "t1") none stored_token_lem stored_me_lem
      (next (next here (ensured false)) (ensured true))

single_flight_example : (length asked.calls ≤ 1) × Currents asked asked.calls
single_flight_example =
    single_flight (some "t1") none
      (then_event (then_event begin (ensured false) tt) (ensured true) tt)

logout-answered_example :
    let t = step (step asked logged_out) (answered 0 (replied payload)) in
    (t.token ≡ "") × (t.me ≡ user) × (t.restored ≡ true) × (t.stored_me ≡ some user)
unfolding step ensure_session start load is_in get
logout-answered_example = logout-answered asked 0 payload refl refl refl
