-- ===== src/Pages/Calls.antt =====
-- Calls to the admin API one after the other. The server is any function of the requests so far, the
-- one that it answers being the last; a program also reads and writes a state of its own.
pub mod Grows
use codex_memory.Prelude.{◌≡◌, ap, List, [], ◌∷◌, ◌++◌, Result, ok, throw}
use codex_memory.Js.{Value}
use codex_memory.Api.{Request}
use codex_memory.Pages.{Cause}

abbrev pub Server : Type 0 → Type 0
Server N = List (Request N) → Result Cause (Value N)

-- The requests that were sent, in their order, and the program's own state.
pub record Run (N : Type 0) (S : Type 0) : Type 0 where
  pub sent : List (Request N)
  pub state : S

abbrev pub Calls : Type 0 → Type 0 → Type 0 → Type 0
Calls N S A = Run N S → Result Cause A × Run N S

abbrev pair : {A B : Type 0} → Result Cause A → Result Cause B → Result Cause (A × B)
pair (ok a) (ok b) = ok (a, b)
pair (throw e) _ = throw e
pair (ok a) (throw e) = throw e

abbrev triple :
    {A B C : Type 0} → Result Cause A → Result Cause B → Result Cause C → Result Cause (A × B × C)
triple (ok a) (ok b) (ok c) = ok (a, b, c)
triple (throw e) _ _ = throw e
triple (ok a) (throw e) _ = throw e
triple (ok a) (ok b) (throw e) = throw e

module _ {N : Type 0} {S : Type 0} where
  unfoldable pub gets : {A : Type 0} → (S → A) → Calls N S A
  gets f run = (ok (f run.state), run)

  unfoldable pub pure : {A : Type 0} → A → Calls N S A
  pure a run = (ok a, run)

  unfoldable pub raise : {A : Type 0} → Cause → Calls N S A
  raise cause run = (throw cause, run)

  -- What a value that may be an error gives.
  unfoldable pub lift : {A : Type 0} → Result Cause A → Calls N S A
  lift r run = (r, run)

  unfoldable pub update : (S → S) → Calls N S (Unit {0})
  update f run = (ok tt, record run { state = f run.state })

  unfoldable pub send : Server N → Request N → Calls N S (Value N)
  send server request run =
      let sent = run.sent ++ request ∷ [] in (server sent, record run { sent = sent })

  -- `Promise.all` of two or three requests: all are sent, and the first error counts.
  unfoldable pub send_two :
      Server N → Request N → Request N → Calls N S (Result Cause (Value N × Value N))
  send_two server first second run =
      let one = run.sent ++ first ∷ [] in
      let two = one ++ second ∷ [] in
      (ok (pair (server one) (server two)), record run { sent = two })

  unfoldable pub send_three :
      Server N
      → Request N
      → Request N
      → Request N
      → Calls N S (Result Cause (Value N × Value N × Value N))
  send_three server first second third run =
      let one = run.sent ++ first ∷ [] in
      let two = one ++ second ∷ [] in
      let three = two ++ third ∷ [] in
      (ok (triple (server one) (server two) (server three)), record run { sent = three })

infixl 5 ◌>>=◌ ◌>>◌
unfoldable pub ◌>>=◌ : {N S A B : Type 0} → Calls N S A → (A → Calls N S B) → Calls N S B
◌>>=◌ m f run = let (r, run') = m run in elim r [ ok a ↦ f a run' | throw e ↦ (throw e, run') ]

unfoldable pub ◌>>◌ : {N S A B : Type 0} → Calls N S A → Calls N S B → Calls N S B
m >> k = m >>= λ _. k

-- `try { … } catch (cause) { … }`, where what was sent and written stays.
unfoldable pub catch : {N S A : Type 0} → Calls N S A → (Cause → Calls N S A) → Calls N S A
catch m handler run =
    let (r, run') = m run in elim r [ ok a ↦ (ok a, run') | throw e ↦ handler e run' ]

-- One step of a program that went well.
pub step_ok :
    {N S A B : Type 0} (m : Calls N S A) (f : A → Calls N S B) (run : Run N S) (a : A)
    (run' : Run N S)
    → m run ≡ (ok a, run')
    → (m >>= f) run ≡ f a run'
unfolding ◌>>=◌
step_ok {N} {S} {A} {B} m f run a run' e =
    ap
      (λ (p : Result Cause A × Run N S). elim p.0 as (λ x. Result Cause B × Run N S) [
        | ok a ↦ f a p.1
        | throw cause ↦ (throw cause, p.1)
      ])
      e

pub then_ok :
    {N S A B : Type 0} (m : Calls N S A) (k : Calls N S B) (run : Run N S) (a : A) (run' : Run N S)
    → m run ≡ (ok a, run')
    → (m >> k) run ≡ k run'
unfolding ◌>>◌
then_ok m k run a run' e = step_ok m (λ a. k) run a run' e

pub lift_ok :
    {N S A : Type 0} (r : Result Cause A) (a : A) (run : Run N S)
    → r ≡ ok a
    → lift r run ≡ (ok a, run)
unfolding lift
lift_ok r a run e = ap (λ r. (r, run)) e

pub send_ok :
    {N S : Type 0} (server : Server N) (request : Request N) (v : Value N) (run : Run N S)
    → server (run.sent ++ request ∷ []) ≡ ok v
    → send server request run ≡ (ok v, record run { sent = run.sent ++ request ∷ [] })
unfolding send
send_ok server request v run e = ap (λ r. (r, record run { sent = run.sent ++ request ∷ [] })) e
