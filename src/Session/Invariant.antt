-- ===== src/Session/Invariant.antt =====
-- What holds of the store in every state.
use codex_memory.Prelude.{
  ◌≡◌, refl, ◌≢◌, ◌==◌, Bool, true, false, not, ◌&&◌, String, Option, none, some, List, arith,
  eq_iff, if◌then◌else◌, Bool-cases, Option-cases, inl, inr,
}
use codex_memory.Js.{Runtime, Value, is_nullish, truthy}
use codex_memory.Session.{
  Session, Failure, load, written, logout, set_token, set_me, ensure_session, start, fail, handle,
  Reply, replied, failed, Event, token_set, me_set, logged_out, ensured, answered, finished, step,
  is_401, without_status, Call, is_in, waiting, closing, close, token_or_empty, me_or_null,
}

abbrev is_some {ℓ} : {A : Type ℓ} → Option A → Bool
is_some none = false
is_some (some a) = true

module _ ⦃rt : Runtime⦄ where
  open rt use {Number}

  -- The flag `restoring` tells whether a promise is shared, the two storage items hold what the
  -- store holds, and a restored session has a user.
  pub record IsSound (s : Session Number) : Type 0 where
    pub shared : s.restoring ≡ is_some s.restore_promise
    pub token_stored : s.stored_token ≡ written s.token
    pub me_stored : s.stored_me ≡ (if truthy s.me then some s.me else none)
    pub restored_me : s.restored ≡ true → truthy s.me ≡ true

  logout-IsSound : (s : Session Number) → IsSound (logout s)
  unfolding logout
  logout-IsSound s = record {
    shared = refl;
    token_stored = refl;
    me_stored = refl;
    restored_me = λ e. cc;
  }

  set_me-IsSound :
      (value : Value Number) {s : Session Number} → IsSound s → IsSound (set_me value s)
  unfolding set_me
  set_me-IsSound value v = record {
    shared = v.shared;
    token_stored = v.token_stored;
    me_stored = refl;
    restored_me = λ e. e;
  }

  fail-IsSound : (failure : Failure) {s : Session Number} → IsSound s → IsSound (fail failure s)
  unfolding fail
  fail-IsSound failure {s} v = elim (Bool-cases (is_401 failure)) [
    | inl gone ↦ rw gone (logout-IsSound (record s { restore_error = some failure }))
    | inr kept ↦ rw kept (record {
      shared = v.shared;
      token_stored = v.token_stored;
      me_stored = v.me_stored;
      restored_me = v.restored_me;
    })
  ]

  handle-IsSound :
      (reply : Reply Number) {s : Session Number} → IsSound s → IsSound (handle reply s)
  unfolding handle
  handle-IsSound (replied payload) {s} v = elim (Bool-cases (is_nullish payload)) [
    | inl empty ↦ rw empty (fail-IsSound without_status v)
    | inr full ↦ rw full (set_me-IsSound _ v)
  ]
  handle-IsSound (failed failure) v = fail-IsSound failure v

  set_token-IsSound :
      (value : Value Number) {s : Session Number} → IsSound s → IsSound (set_token value s)
  unfolding set_token
  set_token-IsSound value v = record {
    shared = v.shared;
    token_stored = refl;
    me_stored = v.me_stored;
    restored_me = v.restored_me;
  }

  calls-IsSound :
      (calls : List Call) {s : Session Number} → IsSound s → IsSound (record s { calls = calls })
  calls-IsSound calls v = record {
    shared = v.shared;
    token_stored = v.token_stored;
    me_stored = v.me_stored;
    restored_me = v.restored_me;
  }

  start-IsSound : {s : Session Number} → IsSound s → IsSound (start s)
  unfolding start
  start-IsSound v = record {
    shared = refl;
    token_stored = v.token_stored;
    me_stored = v.me_stored;
    restored_me = v.restored_me;
  }

  ensure_session-IsSound :
      (force : Bool) {s : Session Number} → IsSound s → IsSound (ensure_session force s).0
  unfolding ensure_session
  ensure_session-IsSound force {s} v = elim (Bool-cases (s.token == "")) [
    | inl empty ↦ rw empty v
    | inr full ↦ elim (Bool-cases (s.restored && truthy s.me && not force)) [
      | inl settled ↦ rw (full, settled) v
      | inr fresh ↦ elim (Option-cases s.restore_promise) [
        | inl free ↦ rw (full, fresh, free) (start-IsSound v)
        | inr (id, shared) ↦ rw (full, fresh, shared) v
      ]
    ]
  ]

  written_again :
      (stored : Option String)
      → ((token : String) → stored ≡ some token → token ≢ "")
      → stored ≡ written (token_or_empty stored)
  written_again none p = refl
  written_again (some token) p = ground (arith, eq_iff token "", p token refl)

  me_again :
      (stored : Option (Value Number))
      → ((me : Value Number) → stored ≡ some me → truthy me ≡ true)
      → stored ≡ (if truthy (me_or_null stored) then some (me_or_null stored) else none)
  me_again none q = refl
  me_again (some me) q = rw (q me refl) refl

  step-IsSound : (e : Event) {s : Session Number} → IsSound s → IsSound (step s e)
  unfolding step
  step-IsSound (token_set value) v = set_token-IsSound value v
  step-IsSound (me_set value) v = set_me-IsSound value v
  step-IsSound logged_out {s} v = logout-IsSound s
  step-IsSound (ensured force) v = ensure_session-IsSound force v
  step-IsSound (answered id reply) {s} v = elim (Bool-cases (is_in waiting id s.calls)) [
    | inl here ↦ rw here (handle-IsSound reply (calls-IsSound (close id s.calls) v))
    | inr gone ↦ rw gone v
  ]
  step-IsSound (finished id) {s} v = elim (Bool-cases (is_in closing id s.calls)) [
    | inl here ↦ rw here (record {
      shared = refl;
      token_stored = v.token_stored;
      me_stored = v.me_stored;
      restored_me = v.restored_me;
    })
    | inr gone ↦ rw gone v
  ]

  -- A page load finds storage that `writeStorage` has written: no empty token, no falsy user.
  load-IsSound :
      (stored_token : Option String) (stored_me : Option (Value Number))
      → ((token : String) → stored_token ≡ some token → token ≢ "")
      → ((me : Value Number) → stored_me ≡ some me → truthy me ≡ true)
      → IsSound (load stored_token stored_me)
  unfolding load
  load-IsSound stored_token stored_me p q = record {
    shared = refl;
    token_stored = written_again stored_token p;
    me_stored = me_again stored_me q;
    restored_me = λ e. cc;
  }

  -- The states that events lead to.
  pub data Reach (s : Session Number) : Session Number → Type 0 where
    here : Reach s s
    next : {t : Session Number} → Reach s t → (e : Event) → Reach s (step t e)

  Reach-IsSound : {s t : Session Number} → IsSound s → Reach s t → IsSound t
  Reach-IsSound v here = v
  Reach-IsSound v (next r e) = step-IsSound e (Reach-IsSound v r)

  -- Whatever happens after a page load, in any order, with any number of calls in flight: the flag
  -- `restoring` is set exactly while a promise is shared, the storage holds the token and the user of
  -- the store, and a restored session has a user. The storage that the page finds must hold no empty
  -- token and no falsy user.
  pub session-IsSound :
      (stored_token : Option String) (stored_me : Option (Value Number)) {s : Session Number}
      → ((token : String) → stored_token ≡ some token → token ≢ "")
      → ((me : Value Number) → stored_me ≡ some me → truthy me ≡ true)
      → Reach (load stored_token stored_me) s
      → IsSound s
  session-IsSound stored_token stored_me p q r =
      Reach-IsSound (load-IsSound stored_token stored_me p q) r
