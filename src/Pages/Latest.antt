-- ===== src/Pages/Latest.antt =====
-- Calls that are numbered: a page counts its loads, and drops a reply whose number is no longer the
-- last one.
use mathlib.Core.List.{Memᴰ}
use mathlib.Core.List.Memᴰ
use codex_memory.Prelude.{ℕ, suc, ◌≤◌, ◌≡◌, ◌≢◌, refl, List, [], ◌∷◌, ◌++◌, ◌∙◌, arith}

-- What happens to a page with loads: one begins, with its options, or the one of a number is answered.
pub data Event {ℓ κ} (O : Type ℓ) (R : Type κ) : Type (ℓ ⊔ κ) where
  begins : O → Event O R
  answers : ℕ → R → Event O R

-- The state after a list of replies, each with the number of its call.
abbrev pub replies {ℓ κ} : {S : Type ℓ} {R : Type κ} → (ℕ → R → S → S) → List (ℕ × R) → S → S
replies answer [] s = s
replies answer ((n, r) ∷ more) s = replies answer more (answer n r s)

-- Each reply is to a call with one of the numbers.
abbrev pub AreTo {κ} : {R : Type κ} → List ℕ → List (ℕ × R) → Type 0
AreTo numbers [] = Unit
AreTo numbers ((n, r) ∷ more) = Memᴰ n numbers × AreTo numbers more

module _ {ℓ κ μ} {S : Type ℓ} {R : Type κ} {O : Type μ} (begin : O → S → S) (answer : ℕ → R → S → S)
    (sequence : S → ℕ) where
  -- The state after the events, and the numbers of the loads that they begin.
  abbrev pub run : List (Event O R) → S → S
  run [] s = s
  run (begins options ∷ events) s = run events (begin options s)
  run (answers n r ∷ events) s = run events (answer n r s)

  abbrev pub begun : List (Event O R) → S → List ℕ
  begun [] s = []
  begun (begins options ∷ events) s = sequence (begin options s) ∷ begun events (begin options s)
  begun (answers n r ∷ events) s = begun events (answer n r s)

  -- What a numbered load keeps to: each one takes the next number, an answer leaves it, and an answer to
  -- another number than the last changes nothing.
  pub record IsNumbered : Type (ℓ ⊔ κ ⊔ μ) where
    pub counts : (options : O) (s : S) → sequence (begin options s) ≡ suc (sequence s)
    pub keeps : (n : ℕ) (r : R) (s : S) → sequence (answer n r s) ≡ sequence s
    pub drops : (n : ℕ) (r : R) (s : S) → n ≢ sequence s → answer n r s ≡ s

  module _ (numbered : IsNumbered) where
    open numbered use {counts, keeps, drops}

    run-grows : (events : List (Event O R)) (s : S) → sequence s ≤ sequence (run events s)
    run-grows [] s = omega arith
    run-grows (begins options ∷ events) s =
        omega (arith, counts options s, run-grows events (begin options s))
    run-grows (answers n r ∷ events) s = omega (arith, keeps n r s, run-grows events (answer n r s))

    begun-le :
        (events : List (Event O R)) (s : S) (n : ℕ)
        → Memᴰ n (begun events s)
        → n ≤ sequence (run events s)
    begun-le [] s n m = absurd (Memᴰ.not-nil m)
    begun-le (begins options ∷ events) s n (Memᴰ.head e) =
        omega (arith, e, run-grows events (begin options s))
    begun-le (begins options ∷ events) s n (Memᴰ.tail m) = begun-le events (begin options s) n m
    begun-le (answers k r ∷ events) s n m = begun-le events (answer k r s) n m

    -- Replies to numbers below the last one change nothing.
    replies-old :
        (numbers : List ℕ) (old : List (ℕ × R)) (s : S)
        → ((n : ℕ) → Memᴰ n numbers → n ≢ sequence s)
        → AreTo numbers old
        → replies answer old s ≡ s
    replies-old numbers [] s other to = refl
    replies-old numbers ((n, r) ∷ old) s other (m, more) =
        rw (drops n r s (other n m)) (replies-old numbers old s other more)

    replies-append :
        (first later : List (ℕ × R)) (s : S)
        → replies answer (first ++ later) s ≡ replies answer later (replies answer first s)
    replies-append [] later s = refl
    replies-append ((n, r) ∷ first) later s = replies-append first later (answer n r s)

    -- The reply to the last load decides, whatever replies to loads that began before it come.
    pub replies-latest :
        (earlier : List (Event O R)) (options : O) (before after : List (ℕ × R)) (r : R) (s : S)
        → AreTo (begun earlier s) before
        → AreTo (begun earlier s) after
        → let last = begin options (run earlier s) in
          replies answer (before ++ (sequence last, r) ∷ after) last ≡ answer (sequence last) r last
    replies-latest earlier options before after r s to_before to_after =
        let last = begin options (run earlier s) in
        let other : (n : ℕ) → Memᴰ n (begun earlier s) → n ≢ sequence last = λ n m e.
          absurd (omega (arith, e, counts options (run earlier s), begun-le earlier s n m)) in
        replies-append before ((sequence last, r) ∷ after) last
        ∙ rw (replies-old (begun earlier s) before last other to_before) (
            replies-old (begun earlier s) after (answer (sequence last) r last)
              (λ n m. rw (keeps (sequence last) r last) (other n m)) to_after)
