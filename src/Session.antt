-- ===== src/Session.antt =====
-- apps/admin-web/src/stores/session.js: the session store, its storage and the shared request that
-- restores it. Awaits are explicit: a call is in flight until its reply is handled, and closing
-- until its `finally` callback has run.
pub mod Invariant
pub mod Flight
pub mod Stale
mod Tests
use text.Mathlib.Text.{find?}
use codex_memory.Prelude.{
  ℕ, ◌+◌, ◌==◌, Bool, true, false, not, ◌&&◌, ◌||◌, String, Option, none, some, List, [], ◌∷◌, ◌++◌,
  Result, ok, throw, ◌>>=◌, if◌then◌else◌, nat_eq, any,
}
use codex_memory.Prelude.Text.{trim}
use codex_memory.Js.{
  Runtime, Value, undefined, null, str, arr, get, prop, items, is_nullish, is_text, truthy, ◌or◌,
  to_text,
}
use codex_memory.Api.{Settled, fulfilled, abort_error, type_error, api_error}
use codex_memory.Contracts.{Fault}
use codex_memory.Contracts

-- An error as the store reads it: by its status, if it has one.
pub data Failure : Type 0 where
  with_status : ℕ → Failure
  without_status : Failure

pub data Stage : Type 0 where
  waiting closing : Stage

-- A request of `/me` that has not ended: its number, the token that it was sent with, its stage.
pub record Call : Type 0 where
  pub id : ℕ
  pub token : String
  pub stage : Stage

-- The store, the variable `restorePromise`, the two storage items and the calls that have not ended.
-- A stored `me` is the JSON text of a value, and is represented by it.
pub record Session (N : Type 0) : Type 0 where
  pub token : String
  pub me : Value N
  pub restored : Bool
  pub restoring : Bool
  pub restore_error : Option Failure
  pub restore_promise : Option ℕ
  pub stored_token : Option String
  pub stored_me : Option (Value N)
  pub calls : List Call
  pub next_id : ℕ

abbrev token_or_empty : Option String → String
token_or_empty none = ""
token_or_empty (some token) = token

abbrev me_or_null : {N : Type 0} → Option (Value N) → Value N
me_or_null none = null
me_or_null (some me) = me

-- The store when the page is loaded.
unfoldable pub load : {N : Type 0} → Option String → Option (Value N) → Session N
load stored_token stored_me = record {
  token = token_or_empty stored_token;
  me = me_or_null stored_me;
  restored = false;
  restoring = false;
  restore_error = none;
  restore_promise = none;
  stored_token = stored_token;
  stored_me = stored_me;
  calls = [];
  next_id = 0;
}

-- What `writeStorage` leaves under the token's key.
abbrev pub written : String → Option String
written token = if token == "" then none else some token

unfoldable pub logout : {N : Type 0} → Session N → Session N
logout s = record s {
  token = "";
  me = null;
  restored = false;
  restoring = false;
  restore_error = none;
  restore_promise = none;
  stored_token = none;
  stored_me = none;
}

-- The first stage of a call ends, or the call.
unfoldable pub is_in : Stage → ℕ → List Call → Bool
is_in stage id [] = false
is_in waiting id (c ∷ calls) =
    (nat_eq c.id id && elim c.stage [ waiting ↦ true | closing ↦ false ]) || is_in waiting id calls
is_in closing id (c ∷ calls) =
    (nat_eq c.id id && elim c.stage [ waiting ↦ false | closing ↦ true ]) || is_in closing id calls

unfoldable pub close : ℕ → List Call → List Call
close id [] = []
close id (c ∷ calls) = (if nat_eq c.id id then record c { stage = closing } else c) ∷ close id calls

unfoldable pub drop_call : ℕ → List Call → List Call
drop_call id [] = []
drop_call id (c ∷ calls) = if nat_eq c.id id then drop_call id calls else c ∷ drop_call id calls

-- What `ensureSession` returns: `null`, the known user, or the shared promise.
pub data Ensured (N : Type 0) : Type 0 where
  no_session : Ensured N
  known : Value N → Ensured N
  awaiting : ℕ → Ensured N

-- How the request of `/me` ends for the store.
pub data Reply (N : Type 0) : Type 0 where
  replied : Value N → Reply N
  failed : Failure → Reply N

abbrev pub reply_of : {N : Type 0} → Settled N → Reply N
reply_of (fulfilled payload) = replied payload
reply_of abort_error = failed without_status
reply_of type_error = failed without_status
reply_of (api_error e) = failed (with_status e.status)

-- `error.status === 401`
abbrev pub is_401 : Failure → Bool
is_401 (with_status status) = nat_eq status 401
is_401 without_status = false

-- A request is sent, and the promise of its end is shared.
unfoldable pub start : {N : Type 0} → Session N → Session N
start s = record s {
  restoring = true;
  restore_error = none;
  restore_promise = some s.next_id;
  calls = s.calls ++ record { id = s.next_id; token = s.token; stage = waiting } ∷ [];
  next_id = s.next_id + 1;
}

module _ ⦃rt : Runtime⦄ where
  open rt use {Number}

  unfoldable pub set_token : Value Number → Session Number → Session Number
  unfolding trim to_text
  set_token value s =
      let token = trim (to_text (value or str "")) in
      record s { token = token; stored_token = written token }

  unfoldable pub set_me : Value Number → Session Number → Session Number
  set_me value s = record s {
    me = value;
    restored = truthy value;
    stored_me = if truthy value then some value else none;
  }

  unfoldable pub ensure_session : Bool → Session Number → Session Number × Ensured Number
  ensure_session force s =
      if s.token == ""
      then (s, no_session)
      else if s.restored && truthy s.me && not force
      then (s, known s.me)
      else elim s.restore_promise [
        | some id ↦ (s, awaiting id)
        | none ↦ (start s, awaiting s.next_id)
      ]

  -- The callback of `catch`.
  unfoldable pub fail : Failure → Session Number → Session Number
  fail failure s =
      let s' = record s { restore_error = some failure } in if is_401 failure then logout s' else s'

  -- The callbacks of `then` and `catch`; `result.data` of `null` is a TypeError.
  unfoldable pub handle : Reply Number → Session Number → Session Number
  handle (replied payload) s =
      if is_nullish payload then fail without_status s else set_me (prop "data" payload or null) s
  handle (failed failure) s = fail failure s

  -- What happens to the store. A reply or an end of a call that is not there changes nothing.
  pub data Event : Type 0 where
    token_set me_set : Value Number → Event
    logged_out : Event
    ensured : Bool → Event
    answered : ℕ → Reply Number → Event
    finished : ℕ → Event

  unfoldable pub step : Session Number → Event → Session Number
  step s (token_set value) = set_token value s
  step s (me_set value) = set_me value s
  step s logged_out = logout s
  step s (ensured force) = (ensure_session force s).0
  step s (answered id reply) =
      if is_in waiting id s.calls then handle reply (record s { calls = close id s.calls }) else s
  step s (finished id) =
      if is_in closing id s.calls
      then record s { restoring = false; restore_promise = none; calls = drop_call id s.calls }
      else s

  -- `permissions?.includes(permission)`; a text is searched for the permission's text.
  unfoldable pub includes : Value Number → String → Result Fault Bool
  includes undefined permission = ok false
  includes null permission = ok false
  includes (arr xs) permission = ok (any (is_text permission) (items xs))
  includes (str s) permission = elim (find? s permission) [ none ↦ ok false | some i ↦ ok true ]
  includes _ permission = throw Contracts.type_error

  unfoldable pub has_permission : Value Number → String → Result Fault Bool
  has_permission me permission = do
    admin ← includes (prop "permissions" me) "admin"
    if admin then ok true else includes (prop "permissions" me) permission

  abbrev pub is_authenticated : Session Number → Bool
  is_authenticated s = not (s.token == "")

  unfoldable pub is_admin : Value Number → Result Fault Bool
  is_admin me = includes (prop "permissions" me) "admin"

  -- `Boolean(me && !me.permissions?.includes('admin'))`
  unfoldable pub is_read_only : Value Number → Result Fault Bool
  unfolding is_admin
  is_read_only me = if truthy me then (do admin ← is_admin me; ok (not admin)) else ok false

  unfoldable pub display_name : Value Number → Value Number
  display_name me = (prop "display_name" me or prop "username" me) or str "管理员"
