-- ===== src/Session/Flight.antt =====
-- Calls in flight, when the token changes and the user logs out only between calls.
use codex_memory.Prelude.{
  ℕ, ◌≤◌, ◌≡◌, ◌++◌, refl, ◌≢◌, ◌⊎◌, ◌==◌, Bool, true, false, not, ◌&&◌, ◌||◌, String, Option, none,
  some, List, [], ◌∷◌, arith, eq_iff, Bool-cases, Option-cases, inl, inr, length, nat_eq,
}
use codex_memory.Js.{Runtime, Value, is_nullish, truthy}
use codex_memory.Session.{
  Session, Stage, waiting, closing, Call, load, logout, set_token, set_me, ensure_session, start,
  fail, handle, Reply, replied, failed, Event, token_set, me_set, logged_out, ensured, answered,
  finished, step, is_401, is_in, close, drop_call,
}

-- The one call: while it waits its promise is shared and the token is the one it was sent with; while
-- it closes its promise is shared still, or the session is over.
abbrev OneCall : Option ℕ → String → Stage → Call → Type 0
OneCall promise token waiting c = (promise ≡ some c.id) × (c.token ≡ token)
OneCall promise token closing c = (promise ≡ some c.id) ⊎ ((promise ≡ none) × (token ≡ ""))

abbrev OrderlyAt : Option ℕ → String → List Call → Type 0
OrderlyAt promise token [] = promise ≡ none
OrderlyAt promise token (c ∷ []) = OneCall promise token c.stage c
OrderlyAt promise token (c ∷ d ∷ calls) = ⊥

module _ ⦃rt : Runtime⦄ where
  open rt use {Number}

  abbrev IsOrderly : Session Number → Type 0
  IsOrderly s = OrderlyAt s.restore_promise s.token s.calls

  -- What a reply does to the promise and the token: nothing, or it ends the session.
  handle_effect :
      (reply : Reply Number) (s : Session Number)
      → ((handle reply s).calls ≡ s.calls)
        × ((((handle reply s).restore_promise ≡ s.restore_promise)
              × ((handle reply s).token ≡ s.token))
            ⊎ (((handle reply s).restore_promise ≡ none) × ((handle reply s).token ≡ "")))
  unfolding handle fail logout set_me
  handle_effect (replied payload) s = elim (Bool-cases (is_nullish payload)) [
    | inl empty ↦ rw empty (refl, inl (refl, refl))
    | inr full ↦ rw full (refl, inl (refl, refl))
  ]
  handle_effect (failed failure) s = elim (Bool-cases (is_401 failure)) [
    | inl gone ↦ rw gone (refl, inr (refl, refl))
    | inr kept ↦ rw kept (refl, inl (refl, refl))
  ]

  busy :
      (promise : Option ℕ) (token : String) (stage : Stage) (c : Call)
      → token ≢ ""
      → promise ≡ none
      → ¬ OneCall promise token stage c
  busy promise token waiting c full free (shared, same) = cc
  busy promise token closing c full free (inl shared) = cc
  busy promise token closing c full free (inr (gone, empty)) = full empty

  start-IsOrderly :
      (s : Session Number) (calls : List Call)
      → s.calls ≡ calls
      → s.token ≢ ""
      → s.restore_promise ≡ none
      → OrderlyAt s.restore_promise s.token calls
      → OrderlyAt
          (some s.next_id)
          s.token
          (calls ++ record { id = s.next_id; token = s.token; stage = waiting } ∷ [])
  start-IsOrderly s [] e full free o = (refl, refl)
  start-IsOrderly s (c ∷ []) e full free o =
      absurd (busy s.restore_promise s.token c.stage c full free o)
  start-IsOrderly s (c ∷ d ∷ calls) e full free o = absurd o

  -- `ensureSession` changes nothing, or it sends a request with a token when no promise is shared.
  ensure_session-cases :
      (force : Bool) (s : Session Number)
      → ((ensure_session force s).0 ≡ s)
        ⊎ ((s.token ≢ "") × (s.restore_promise ≡ none) × ((ensure_session force s).0 ≡ start s))
  unfolding ensure_session
  ensure_session-cases force s = elim (Bool-cases (s.token == "")) [
    | inl empty ↦ inl (simp empty)
    | inr full ↦ elim (Bool-cases (s.restored && truthy s.me && not force)) [
      | inl settled ↦ inl (simp (full, settled))
      | inr fresh ↦ elim (Option-cases s.restore_promise) [
        | inl free ↦ inr (ground (arith, eq_iff s.token ""), free, simp (full, fresh, free))
        | inr (id, shared) ↦ inl (simp (full, fresh, shared))
      ]
    ]
  ]

  moved :
      {promise promise' : Option ℕ} {token token' : String} {calls calls' : List Call}
      → promise ≡ promise'
      → token ≡ token'
      → calls ≡ calls'
      → OrderlyAt promise' token' calls'
      → OrderlyAt promise token calls
  moved e f g o = rw (e, f, g) o

  waits :
      (id : ℕ) (c : Call)
      → is_in waiting id (c ∷ []) ≡ true
      → (nat_eq c.id id ≡ true) × (c.stage ≡ waiting)
  unfolding is_in
  waits id c here = go (nat_eq c.id id) c.stage here
    where
      go :
          (b : Bool) (stage : Stage)
          → ((b && elim stage [ waiting ↦ true | closing ↦ false ]) || false) ≡ true
          → (b ≡ true) × (stage ≡ waiting)
      go true waiting e = (refl, refl)
      go true closing e = cc
      go false stage e = cc

  closes : (id : ℕ) (c : Call) → is_in closing id (c ∷ []) ≡ true → nat_eq c.id id ≡ true
  unfolding is_in
  closes id c here = go (nat_eq c.id id) c.stage here
    where
      go :
          (b : Bool) (stage : Stage)
          → ((b && elim stage [ waiting ↦ false | closing ↦ true ]) || false) ≡ true
          → b ≡ true
      go true stage e = refl
      go false stage e = cc

  waiting_call :
      (promise : Option ℕ) (token : String) (stage : Stage) (c : Call)
      → stage ≡ waiting
      → OneCall promise token stage c
      → promise ≡ some c.id
  waiting_call promise token waiting c e (shared, same) = shared
  waiting_call promise token closing c e o = cc

  close-OrderlyAt :
      (promise : Option ℕ) (token : String) (id : ℕ) (calls : List Call)
      → OrderlyAt promise token calls
      → is_in waiting id calls ≡ true
      → OrderlyAt promise token (close id calls) × OrderlyAt none "" (close id calls)
  unfolding close
  close-OrderlyAt promise token id [] o here = (o, refl)
  close-OrderlyAt promise token id (c ∷ []) o here =
      let (this, state) = waits id c here in
      simp this (inl (waiting_call promise token c.stage c state o), inr (refl, refl))
  close-OrderlyAt promise token id (c ∷ d ∷ calls) o here = absurd o

  drop_call-OrderlyAt :
      (promise : Option ℕ) (token : String) (id : ℕ) (calls : List Call)
      → OrderlyAt promise token calls
      → is_in closing id calls ≡ true
      → OrderlyAt none token (drop_call id calls)
  unfolding drop_call
  drop_call-OrderlyAt promise token id [] o here = refl
  drop_call-OrderlyAt promise token id (c ∷ []) o here = simp (closes id c here) refl
  drop_call-OrderlyAt promise token id (c ∷ d ∷ calls) o here = absurd o

  start_state :
      (s : Session Number)
      → OrderlyAt
          (some s.next_id)
          s.token
          (s.calls ++ record { id = s.next_id; token = s.token; stage = waiting } ∷ [])
      → IsOrderly (start s)
  unfolding start
  start_state s o = o

  -- The token changes and the user logs out only while no call is in flight.
  abbrev Quiet : Session Number → Event → Type 0
  Quiet s (token_set value) = s.calls ≡ []
  Quiet s logged_out = s.calls ≡ []
  Quiet s _ = Unit

  free_of :
      (promise : Option ℕ) (token : String) (calls : List Call)
      → calls ≡ []
      → OrderlyAt promise token calls
      → promise ≡ none
  free_of promise token [] e o = o
  free_of promise token (c ∷ calls) e o = cc

  answer-IsOrderly :
      (id : ℕ) (reply : Reply Number) (s : Session Number)
      → IsOrderly s
      → is_in waiting id s.calls ≡ true
      → IsOrderly (handle reply (record s { calls = close id s.calls }))
  answer-IsOrderly id reply s o here =
      let (kept, ended) = close-OrderlyAt s.restore_promise s.token id s.calls o here in
      let (same, effect) = handle_effect reply (record s { calls = close id s.calls }) in
      elim effect [
        | inl (promise, token) ↦ moved promise token same kept
        | inr (promise, token) ↦ moved promise token same ended
      ]

  step-IsOrderly : (e : Event) (s : Session Number) → Quiet s e → IsOrderly s → IsOrderly (step s e)
  unfolding step set_token set_me logout
  step-IsOrderly (token_set value) s quiet o =
      rw quiet (free_of s.restore_promise s.token s.calls quiet o)
  step-IsOrderly (me_set value) s quiet o = o
  step-IsOrderly logged_out s quiet o = rw quiet refl
  step-IsOrderly (ensured force) s quiet o = elim (ensure_session-cases force s) [
    | inl same ↦ simp same o
    | inr (full, free, started) ↦
        simp started (start_state s (start-IsOrderly s s.calls refl full free o))
  ]
  step-IsOrderly (answered id reply) s quiet o = elim (Bool-cases (is_in waiting id s.calls)) [
    | inl here ↦ simp here (answer-IsOrderly id reply s o here)
    | inr gone ↦ simp gone o
  ]
  step-IsOrderly (finished id) s quiet o = elim (Bool-cases (is_in closing id s.calls)) [
    | inl here ↦ simp here (drop_call-OrderlyAt s.restore_promise s.token id s.calls o here)
    | inr gone ↦ simp gone o
  ]

  -- The states that events lead to when each is quiet where it happens.
  pub data Run (s : Session Number) : Session Number → Type 0 where
    begin : Run s s
    then_event : {t : Session Number} → Run s t → (e : Event) → Quiet t e → Run s (step t e)

  Run-IsOrderly : {s t : Session Number} → IsOrderly s → Run s t → IsOrderly t
  Run-IsOrderly o begin = o
  Run-IsOrderly o (then_event {t} r e quiet) = step-IsOrderly e t quiet (Run-IsOrderly o r)

  -- The token of each waiting call is the given one, and the promise shared is that of the call.
  abbrev IsCurrent : Session Number → Call → Type 0
  IsCurrent s c = (s.restore_promise ≡ some c.id) × (c.token ≡ s.token)

  unfoldable pub Currents : Session Number → List Call → Type 0
  Currents s [] = Unit
  Currents s (c ∷ calls) = (c.stage ≡ waiting → IsCurrent s c) × Currents s calls

  current :
      (promise : Option ℕ) (token : String) (stage : Stage) (c : Call)
      → OneCall promise token stage c
      → stage ≡ waiting
      → (promise ≡ some c.id) × (c.token ≡ token)
  current promise token waiting c o e = o
  current promise token closing c o e = cc

  orderly_calls :
      (s : Session Number) (calls : List Call)
      → OrderlyAt s.restore_promise s.token calls
      → (length calls ≤ 1) × Currents s calls
  unfolding Currents
  orderly_calls s [] o = (omega arith, tt)
  orderly_calls s (c ∷ []) o = (omega arith, (current s.restore_promise s.token c.stage c o, tt))
  orderly_calls s (c ∷ d ∷ calls) o = absurd o

  -- While the token changes and the user logs out only when no call is in flight, at most one request of
  -- `/me` is ever in flight, however often and in whatever order the session is ensured (by force
  -- or not) and replies arrive; while it waits, its promise is the shared one and it was sent with
  -- the store's token.
  pub single_flight :
      (stored_token : Option String) (stored_me : Option (Value Number)) {s : Session Number}
      → Run (load stored_token stored_me) s
      → (length s.calls ≤ 1) × Currents s s.calls
  unfolding load
  single_flight stored_token stored_me {s} r = orderly_calls s s.calls (Run-IsOrderly refl r)
