-- ===== src/Prelude/Lists.antt =====
-- Lists measured by native numbers, and predicates on lists by recursion.
use Prim.Native.Nat.{ℕ, zero, suc, ◌+◌, ◌-◌, ◌≤◌, ◌<◌}
use Prim.Native.String.{String}
use text.Mathlib.Text.{◌==◌}
use mathlib.Core.Path.{subst, ◌≡◌, refl, ap}
use mathlib.Core.Bool.{◌||◌, or-true, Bool, true, false, ◌&&◌, ◌||◌}
use mathlib.Core.List.{List, [], ◌∷◌, ◌++◌}
use native.Mathlib.Omega.{arith}
use mathlib.Core.List.{Memᴰ}
use mathlib.Core.List.Memᴰ
use mathlib.Core.Logic.{◌≢◌, ◌↔◌, inl, inr}
use codex_memory.Prelude.Tests.{Bool-cases}

module _ {ℓ} {A : Type ℓ} where
  abbrev pub length : List A → ℕ
  length [] = 0
  length (x ∷ xs) = suc (length xs)

  abbrev pub any : (A → Bool) → List A → Bool
  any p [] = false
  any p (x ∷ xs) = p x || any p xs

  abbrev pub all : (A → Bool) → List A → Bool
  all p [] = true
  all p (x ∷ xs) = p x && all p xs

  pub any-append : (p : A → Bool) (xs : List A) (y : A) → any p (xs ++ y ∷ []) ≡ (any p xs || p y)
  any-append p [] y = or_false (p y)
    where
      or_false : (b : Bool) → b || false ≡ b
      or_false true = refl
      or_false false = refl
  any-append p (x ∷ xs) y = rw (any-append p xs y) (or_again (p x) (any p xs) (p y))
    where
      or_again : (a b c : Bool) → a || (b || c) ≡ (a || b) || c
      or_again true b c = refl
      or_again false b c = refl

  pub length-append : (xs ys : List A) → length (xs ++ ys) ≡ length xs + length ys
  length-append [] ys = omega arith
  length-append (x ∷ xs) ys = omega (arith, length-append xs ys)

module _ {ℓ κ} {A : Type ℓ} (P : A → Type κ) where
  abbrev pub All : List A → Type κ
  All [] = Unit
  All (x ∷ xs) = P x × All xs

  pub All-append : (xs ys : List A) → All xs → All ys → All (xs ++ ys)
  All-append [] ys _ hy = hy
  All-append (x ∷ xs) ys (px, hx) hy = (px, All-append xs ys hx hy)

pub any_iff {ℓ κ} :
    {A : Type ℓ} (f : A → Bool) (P : A → Type κ) (xs : List A)
    → ((x : A) → (f x ≡ true) ↔ P x)
    → (any f xs ≡ true) ↔ ((x : A) × Memᴰ x xs × P x)
any_iff f P [] f_iff = (λ e. cc, λ (x, m, p). absurd (Memᴰ.not-nil m))
any_iff {A} f P (x ∷ xs) f_iff =
    (found (any_iff f P xs f_iff).0, not_missed (any_iff f P xs f_iff).1)
  where
    InTail : Type (ℓ ⊔ κ)
    InTail = (y : A) × Memᴰ y xs × P y

    later : InTail → (y : A) × Memᴰ y (x ∷ xs) × P y
    later (y, m, p) = (y, Memᴰ.tail m, p)

    found : (any f xs ≡ true → InTail) → any f (x ∷ xs) ≡ true → (y : A) × Memᴰ y (x ∷ xs) × P y
    found rest e = elim (Bool-cases (f x)) [
      | inl holds ↦ (x, Memᴰ.head refl, (f_iff x).0 holds)
      | inr fails ↦ later (rest (rw fails at e))
    ]

    not_missed :
        (InTail → any f xs ≡ true) → ((y : A) × Memᴰ y (x ∷ xs) × P y) → any f (x ∷ xs) ≡ true
    not_missed rest (y, Memᴰ.head e, p) = rw ((f_iff x).1 (subst P e p)) refl
    not_missed rest (y, Memᴰ.tail m, p) = rw (rest (y, m, p)) (or-true (f x))

-- What a test that passes on all elements says of a member.
pub all_member {ℓ} :
    {A : Type ℓ} (f : A → Bool) {x : A} (xs : List A) → all f xs ≡ true → Memᴰ x xs → f x ≡ true
all_member f [] e m = absurd (Memᴰ.not-nil m)
all_member f {x} (y ∷ xs) e m = elim (Bool-cases (f y)) [
  | inl passes ↦ member (rw passes at e) passes m (all_member f xs)
  | inr fails ↦ absurd (false_ne (rw fails at e))
]
  where
    false_ne : false ≢ true
    false_ne e = cc

    member :
        all f xs ≡ true
        → f y ≡ true
        → Memᴰ x (y ∷ xs)
        → (all f xs ≡ true → Memᴰ x xs → f x ≡ true)
        → f x ≡ true
    member rest passes (Memᴰ.head same) again = rw same passes
    member rest passes (Memᴰ.tail m) again = again rest m

abbrev pub text_member : String → List String → Bool
text_member t [] = false
text_member t (s ∷ more) = s == t || text_member t more

module _ {ℓ} {A : Type ℓ} where
  -- `slice(0, n)` and `slice(n)`
  abbrev pub take : ℕ → List A → List A
  take zero xs = []
  take (suc n) [] = []
  take (suc n) (x ∷ xs) = x ∷ take n xs

  abbrev pub drop : ℕ → List A → List A
  drop zero xs = xs
  drop (suc n) [] = []
  drop (suc n) (x ∷ xs) = drop n xs

  pub take-append-drop : (n : ℕ) (xs : List A) → take n xs ++ drop n xs ≡ xs
  take-append-drop zero xs = refl
  take-append-drop (suc n) [] = refl
  take-append-drop (suc n) (x ∷ xs) = ap (λ ys. x ∷ ys) (take-append-drop n xs)

  pub length-take_le : (n : ℕ) (xs : List A) → length (take n xs) ≤ n
  length-take_le zero xs = omega arith
  length-take_le (suc n) [] = omega arith
  length-take_le (suc n) (x ∷ xs) = omega (arith, length-take_le n xs)

  pub length-drop : (n : ℕ) (xs : List A) → length (drop n xs) ≡ length xs - n
  length-drop zero xs = omega arith
  length-drop (suc n) [] = omega arith
  length-drop (suc n) (x ∷ xs) = omega (arith, length-drop n xs)

  pub length-take_pos : (n : ℕ) (xs : List A) → 0 < n → 0 < length xs → 1 ≤ length (take n xs)
  length-take_pos (suc n) (x ∷ xs) p h = omega arith
  length-take_pos (suc n) [] p h = absurd (omega arith)
  length-take_pos zero xs p h = absurd (omega arith)
