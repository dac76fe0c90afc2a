-- ===== src/Router/Permissions.antt =====
-- The guard's tests of a user's permissions.
use mathlib.Core.List.{Memᴰ}
use mathlib.Core.List.Memᴰ
use codex_memory.Prelude.{
  any_iff, or-true, ◌≡◌, refl, ap, subst, some-injective, ◌↔◌, ◌⊎◌, inl, inr, Bool, true, false,
  ◌&&◌, ◌||◌, String, Option, none, some, List, [], ◌∷◌, Result, ok, if◌then◌else◌, Bool-cases, any,
  arith, eq_iff,
}
use codex_memory.Js.{
  Runtime, Value, undefined, null, bool, num, str, arr, obj, items, is_text, prop,
}
use codex_memory.Session.{has_permission, includes}
use codex_memory.Contracts.{Fault}
use codex_memory.Router.{Meta, required, has_any, check_permission, check_any, permits}

module _ ⦃rt : Runtime⦄ where
  open rt use {Number}

  -- The user's permissions are the items of an array, as the server sends them.
  unfoldable pub HasArray : Value Number → List (Value Number) → Type 0
  HasArray me granted = (xs : _) × (prop "permissions" me ≡ arr xs) × (items xs ≡ granted)

  -- The user has the permission, or is an administrator.
  abbrev pub Grants : List (Value Number) → String → Type 0
  Grants granted permission = Memᴰ (str "admin") granted ⊎ Memᴰ (str permission) granted

  text_in : Value Number → String
  text_in (str s) = s
  text_in _ = ""

  is_text_iff :
      (permission : String) (v : Value Number)
      → (is_text permission v ≡ true) ↔ (str permission ≡ v)
  unfolding text_in
  is_text_iff permission undefined = (λ e. cc, λ e. cc)
  is_text_iff permission null = (λ e. cc, λ e. cc)
  is_text_iff permission (bool b) = (λ e. cc, λ e. cc)
  is_text_iff permission (num n) = (λ e. cc, λ e. cc)
  is_text_iff permission (str s) = (
    λ e. ap str (ground (arith, eq_iff s permission)),
    λ e. ground (arith, eq_iff s permission, ap text_in e),
  )
  is_text_iff permission (arr xs) = (λ e. cc, λ e. cc)
  is_text_iff permission (obj o) = (λ e. cc, λ e. cc)

  texts_iff :
      (permission : String) (granted : List (Value Number))
      → (any (is_text permission) granted ≡ true) ↔ Memᴰ (str permission) granted
  texts_iff permission granted =
      let parts =
        any_iff (is_text permission) (λ v. str permission ≡ v) granted (is_text_iff permission) in
      (λ e. found (parts.0 e), λ m. parts.1 (str permission, m, refl))
    where
      found :
          ((v : Value Number) × Memᴰ v granted × (str permission ≡ v))
          → Memᴰ (str permission) granted
      found (v, m, e) = Memᴰ.cast e m

  -- The test that the guard makes of a user's permissions.
  grants : List (Value Number) → String → Bool
  grants granted permission = any (is_text "admin") granted || any (is_text permission) granted

  grants_iff :
      (granted : List (Value Number)) (permission : String)
      → (grants granted permission ≡ true) ↔ Grants granted permission
  unfolding grants
  grants_iff granted permission = (there, back)
    where
      there : grants granted permission ≡ true → Grants granted permission
      there e = elim (Bool-cases (any (is_text "admin") granted)) [
        | inl holds ↦ inl ((texts_iff "admin" granted).0 holds)
        | inr fails ↦ inr ((texts_iff permission granted).0 (rw fails at e))
      ]

      back : Grants granted permission → grants granted permission ≡ true
      back (inl m) = rw ((texts_iff "admin" granted).1 m) refl
      back (inr m) =
          rw ((texts_iff permission granted).1 m) (or-true (any (is_text "admin") granted))

  if_or : (a b : Bool) → if◌then◌else◌ {A = Result Fault Bool} a (ok true) (ok b) ≡ ok (a || b)
  if_or true b = refl
  if_or false b = refl

  has_permission-grants :
      (me : Value Number) (granted : List (Value Number)) (permission : String)
      → HasArray me granted
      → has_permission me permission ≡ ok (grants granted permission)
  unfolding HasArray has_permission includes grants
  has_permission-grants me granted permission (xs, array, same) =
      rw (array, same) (if_or (any (is_text "admin") granted) (any (is_text permission) granted))

  has_any-grants :
      (me : Value Number) (granted : List (Value Number)) (permissions : List String)
      → HasArray me granted
      → has_any me permissions ≡ ok (any (grants granted) permissions)
  unfolding has_any
  has_any-grants me granted [] h = refl
  has_any-grants me granted (permission ∷ permissions) h =
      rw (has_permission-grants me granted permission h, has_any-grants me granted permissions h)
        (if_or (grants granted permission) (any (grants granted) permissions))

  -- The route asks for no permission or the user is granted it, and the route lists no permissions
  -- or the user is granted one of them.
  pub record Permitted (granted : List (Value Number)) (meta : Meta) : Type 0 where
    pub one : (p : String) → required meta.permission ≡ some p → Grants granted p
    pub some_of :
        (ps : List String)
        → meta.any_permissions ≡ some ps
        → (p : String) × Memᴰ p ps × Grants granted p

  check_permission_iff :
      (me : Value Number) (granted : List (Value Number)) (permission : Option String)
      → HasArray me granted
      → (b : Bool) × (check_permission me permission ≡ ok b)
        × ((b ≡ true) ↔ ((p : String) → permission ≡ some p → Grants granted p))
  unfolding check_permission
  check_permission_iff me granted none h = (true, refl, (λ e p q. cc, λ k. refl))
  check_permission_iff me granted (some permission) h =
      let (there, back) = grants_iff granted permission in
      (
        grants granted permission,
        has_permission-grants me granted permission h,
        (
          λ e p q. subst (Grants granted) (some-injective _ _ q) (there e),
          λ k. back (k permission refl),
        ),
      )

  check_any_iff :
      (me : Value Number) (granted : List (Value Number)) (permissions : Option (List String))
      → HasArray me granted
      → (b : Bool) × (check_any me permissions ≡ ok b)
        × ((b ≡ true) ↔ (
            (ps : List String)
            → permissions ≡ some ps
            → (p : String) × Memᴰ p ps × Grants granted p))
  unfolding check_any
  check_any_iff me granted none h = (true, refl, (λ e p q. cc, λ k. refl))
  check_any_iff me granted (some permissions) h =
      let (there, back) =
        any_iff (grants granted) (Grants granted) permissions (grants_iff granted) in
      (
        any (grants granted) permissions,
        has_any-grants me granted permissions h,
        (
          λ e ps q.
              subst (λ ps. (p : String) × Memᴰ p ps × Grants granted p) (some-injective _ _ q)
                (there e),
          λ k. back (k permissions refl),
        ),
      )

  both :
      {granted : List (Value Number)} {meta : Meta} (b c : Bool)
      → (b ≡ true → (p : String) → required meta.permission ≡ some p → Grants granted p)
      → (c ≡ true
          → (ps : List String) → meta.any_permissions ≡ some ps
          → (p : String) × Memᴰ p ps × Grants granted p)
      → b && c ≡ true
      → Permitted granted meta
  both true true f g e = record { one = f refl; some_of = g refl }
  both true false f g e = cc
  both false c f g e = cc

  pub permits_iff :
      (me : Value Number) (granted : List (Value Number)) (meta : Meta)
      → HasArray me granted
      → (b : Bool) × (permits me meta ≡ ok b) × ((b ≡ true) ↔ Permitted granted meta)
  unfolding permits
  permits_iff me granted meta h =
      let (b, first, first_iff) = check_permission_iff me granted (required meta.permission) h in
      let (c, second, second_iff) = check_any_iff me granted meta.any_permissions h in
      (
        b && c,
        simp (first, second) (if_and b c),
        (
          λ e. both b c first_iff.0 second_iff.0 e,
          λ p. back b c (first_iff.1 p.one) (second_iff.1 p.some_of),
        ),
      )
    where
      if_and :
          (b c : Bool) → if◌then◌else◌ {A = Result Fault Bool} b (ok c) (ok false) ≡ ok (b && c)
      if_and true c = refl
      if_and false c = refl

      back : (b c : Bool) → b ≡ true → c ≡ true → b && c ≡ true
      back b c e f = rw (e, f) refl
