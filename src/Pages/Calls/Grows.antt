-- ===== src/Pages/Calls/Grows.antt =====
-- Requests that were sent stay sent: a program only adds to them.
use codex_memory.Prelude.{
  ◌≡◌, refl, ap, sym, ◌∙◌, List, [], ◌∷◌, ◌++◌, append_assoc, append-nil, Result, ok, throw, Bool,
  true, false, if◌then◌else◌,
}
use codex_memory.Js.{Value}
use codex_memory.Api.{Request}
use codex_memory.Pages.{Cause}
use codex_memory.Pages.Calls.{
  Server, Run, Calls, pure, lift, update, gets, send, send_two, send_three, ◌>>=◌, ◌>>◌,
}

module _ {N : Type 0} {S : Type 0} where
  -- The second run has the requests of the first and perhaps more.
  abbrev pub Extends : Run N S → Run N S → Type 0
  Extends run run' = (more : List (Request N)) × (run'.sent ≡ run.sent ++ more)

  pub record Grows {A : Type 0} (m : Calls N S A) : Type 0 where
    pub grows : (run : Run N S) → Extends run (m run).1

  pub same_sent : (run run' : Run N S) → run'.sent ≡ run.sent → Extends run run'
  same_sent run run' e = ([], e ∙ sym (append-nil run.sent))

  pub Extends-trans : (a b c : Run N S) → Extends a b → Extends b c → Extends a c
  Extends-trans a b c (more, e) (later, f) =
      (more ++ later, f ∙ ap (λ sent. sent ++ later) e ∙ append_assoc a.sent more later)

  pub Grows-update : (f : S → S) → Grows (update f)
  unfolding update
  Grows-update f = record { grows = λ run. same_sent run (record run { state = f run.state }) refl }

  pub Grows-send : (server : Server N) (request : Request N) → Grows (send server request)
  unfolding send
  Grows-send server request = record { grows = λ run. (request ∷ [], refl) }

  pub Grows-send_two :
      (server : Server N) (first second : Request N) → Grows (send_two server first second)
  unfolding send_two
  Grows-send_two server first second = record {
    grows = λ run. (first ∷ second ∷ [], append_assoc run.sent (first ∷ []) (second ∷ []));
  }

  pub Grows-send_three :
      (server : Server N) (first second third : Request N)
      → Grows (send_three server first second third)
  unfolding send_three
  Grows-send_three server first second third = record {
    grows = λ run. (
      first ∷ second ∷ third ∷ [],
      ap (λ sent. sent ++ third ∷ []) (append_assoc run.sent (first ∷ []) (second ∷ []))
          ∙ append_assoc run.sent (first ∷ second ∷ []) (third ∷ []),
    );
  }

  pub Grows-lift : {A : Type 0} (r : Result Cause A) → Grows (lift r)
  unfolding lift
  Grows-lift r = record { grows = λ run. same_sent run run refl }

  pub Grows-pure : {A : Type 0} (a : A) → Grows (pure a)
  unfolding pure
  Grows-pure a = record { grows = λ run. same_sent run run refl }

  pub Grows-gets : {A : Type 0} (f : S → A) → Grows (gets f)
  unfolding gets
  Grows-gets f = record { grows = λ run. same_sent run run refl }

  pub Grows-if :
      {A : Type 0} (test : Bool) {m k : Calls N S A}
      → Grows m
      → Grows k
      → Grows (if test then m else k)
  Grows-if true ends other = ends
  Grows-if false ends other = other

  pub Grows-bind :
      {A B : Type 0} (m : Calls N S A) (f : A → Calls N S B)
      → Grows m
      → ((a : A) → Grows (f a))
      → Grows (m >>= f)
  unfolding ◌>>=◌
  Grows-bind {A} {B} m f ends later = record {
    grows = λ run. go run (m run).0 (m run).1 (ends.grows run);
  }
    where
      go :
          (run : Run N S) (r : Result Cause A) (run' : Run N S)
          → Extends run run'
          → Extends run
              (elim r as (λ x. Result Cause B × Run N S) [
                | ok a ↦ f a run'
                | throw e ↦ (throw e, run')
              ]).1
      go run (ok a) run' e = Extends-trans run run' (f a run').1 e ((later a).grows run')
      go run (throw cause) run' e = e

  pub Grows-then :
      {A B : Type 0} (m : Calls N S A) (k : Calls N S B) → Grows m → Grows k → Grows (m >> k)
  unfolding ◌>>◌
  Grows-then m k ends later = Grows-bind m (λ a. k) ends (λ a. later)

  -- A request, and a program that goes on after it.
  pub Extends-send :
      {A : Type 0} (server : Server N) (request : Request N) (k : Calls N S A) (run : Run N S)
      → Grows k
      → Extends (record run { sent = run.sent ++ request ∷ [] }) ((send server request >> k) run).1
  unfolding ◌>>◌ ◌>>=◌ send
  Extends-send {A} server request k run later = go (server (run.sent ++ request ∷ []))
    where
      asked : Run N S
      asked = record run { sent = run.sent ++ request ∷ [] }

      go :
          (r : Result Cause (Value N))
          → Extends asked
              (elim r as (λ x. Result Cause A × Run N S) [
                | ok reply ↦ k asked
                | throw cause ↦ (throw cause, asked)
              ]).1
      go (ok reply) = later.grows asked
      go (throw cause) = same_sent asked asked refl
