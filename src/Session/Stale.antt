-- ===== src/Session/Stale.antt =====
-- Calls in flight when the session ends under them.
use codex_memory.Prelude.{ℕ, ◌≡◌, refl, true, false, some}
use codex_memory.Js.{Runtime, Value, prop, is_nullish, truthy}
use codex_memory.Session.{
  Session, logout, set_me, handle, replied, logged_out, answered, step, is_in, waiting,
}

module _ ⦃rt : Runtime⦄ where
  open rt use {Number}

  -- A user who logs out while a request of `/me` waits is put back into the store, and into the
  -- storage, by a reply that holds a user: the token is gone, the user is not, and the session
  -- counts as restored.
  pub logout-answered :
      (s : Session Number) (id : ℕ) (payload : Value Number)
      → is_in waiting id s.calls ≡ true
      → is_nullish payload ≡ false
      → truthy (prop "data" payload) ≡ true
      → let t = step (step s logged_out) (answered id (replied payload)) in
        (t.token ≡ "")
        × (t.me ≡ prop "data" payload)
        × (t.restored ≡ true)
        × (t.stored_me ≡ some (prop "data" payload))
  unfolding step logout handle set_me
  logout-answered s id payload waits full user = simp (waits, full, user) (refl, refl, refl, refl)
