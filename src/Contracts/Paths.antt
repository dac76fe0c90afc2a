-- ===== src/Contracts/Paths.antt =====
-- Path components and service keys.

use Prim.Native.Nat.{◌+◌}
use codex_memory.Prelude.{
  ℕ, zero, suc, ◌≡◌, refl, ◌≢◌, ◌↔◌, ◌≤◌, true, String, ◌<>◌, List, [], ◌∷◌, ◌++◌, arith,
  if◌then◌else◌, nat_eq, All, length,
}
use codex_memory.Prelude.Text.{codes}
use codex_memory.Prelude.Uri.{encode_uri_component, is_unreserved}
use codex_memory.Prelude.Uri.Plain.{codes-append, encode-ArePlain, encode_of_unreserved}
use codex_memory.Js.{Runtime, Value, str, to_text}
use codex_memory.Contracts.{
  key_start, key_char, key_run, matches_service_key, service_path, revision_path,
}

-- The service key that the expression describes: 2 to 80 characters, the first a letter or digit.
abbrev pub IsServiceKey : List ℕ → Type 0
IsServiceKey [] = ⊥
IsServiceKey (c ∷ rest) =
    (key_start c ≡ true)
    × All (λ d. key_char d ≡ true) rest
    × (1 ≤ length rest)
    × (length rest ≤ 79)

key_run_sound :
    (most : ℕ) (s : List ℕ)
    → key_run most s ≡ true
    → All (λ d. key_char d ≡ true) s × (length s ≤ most)
unfolding key_run
key_run_sound most [] h = (tt, omega arith)
key_run_sound zero (c ∷ s) h = cc
key_run_sound (suc most) (c ∷ s) h = ground (arith, key_run_sound most s)

key_run_complete :
    (most : ℕ) (s : List ℕ)
    → All (λ d. key_char d ≡ true) s
    → length s ≤ most
    → key_run most s ≡ true
unfolding key_run
key_run_complete most [] h l = refl
key_run_complete zero (c ∷ s) h l = absurd (omega arith)
key_run_complete (suc most) (c ∷ s) (h, hs) l =
    rw (h, key_run_complete most s hs (omega arith)) refl

-- The expression accepts exactly the texts of 2 to 80 characters of `[a-z0-9._-]` that begin with a
-- letter or a digit.
pub matches_service_key_iff : (s : List ℕ) → (matches_service_key s ≡ true) ↔ IsServiceKey s
unfolding matches_service_key
matches_service_key_iff [] = (λ e. cc, λ h. absurd h)
matches_service_key_iff (a ∷ []) = (λ e. cc, λ (h, k, l, m). absurd (omega arith))
matches_service_key_iff (a ∷ b ∷ rest) = (
  λ e. ground (arith, key_run_sound 78 rest),
  λ (h, (k, ks), l, m). rw (h, k, key_run_complete 78 rest ks (omega arith)) refl,
)

All-map {ℓ κ μ} :
    {A : Type ℓ} {P : A → Type κ} {Q : A → Type μ} (f : (x : A) → P x → Q x) (xs : List A)
    → All P xs
    → All Q xs
All-map f [] h = tt
All-map f (x ∷ xs) (h, hs) = (f x h, All-map f xs hs)

key_char-is_unreserved : (c : ℕ) → key_char c ≡ true → is_unreserved c ≡ true
unfolding is_unreserved
key_char-is_unreserved c h = ground arith

unreserved_of_key : (s : List ℕ) → IsServiceKey s → All (λ c. is_unreserved c ≡ true) s
unreserved_of_key [] h = absurd h
unreserved_of_key (c ∷ s) (h, hs, l, m) =
    (key_char-is_unreserved c (rw h refl), All-map key_char-is_unreserved s hs)

-- How often a code point occurs in a text.
abbrev pub count : ℕ → List ℕ → ℕ
count c [] = 0
count c (d ∷ s) = if nat_eq c d then suc (count c s) else count c s

count-append : (c : ℕ) (s t : List ℕ) → count c (s ++ t) ≡ count c s + count c t
count-append c [] t = omega arith
count-append c (d ∷ s) t = ground (arith, count-append c s t)

count_of_plain : (c : ℕ) (s : List ℕ) → All (λ d. d ≢ c) s → count c s ≡ 0
count_of_plain c [] h = refl
count_of_plain c (d ∷ s) (h, hs) = ground (arith, count_of_plain c s hs)

-- The delimiters of an encoded component.
count-encode :
    (s : String)
    → (count b'/' (codes (encode_uri_component s)) ≡ 0)
      × (count b'?' (codes (encode_uri_component s)) ≡ 0)
      × (count b'#' (codes (encode_uri_component s)) ≡ 0)
count-encode s =
    let plain = encode-ArePlain s in
    (
      count_of_plain b'/' _ (All-map (λ c h. h.0) (codes (encode_uri_component s)) plain),
      count_of_plain b'?' _ (All-map (λ c h. h.1) (codes (encode_uri_component s)) plain),
      count_of_plain b'#' _ (All-map (λ c h. h.2) (codes (encode_uri_component s)) plain),
    )

module _ ⦃rt : Runtime⦄ where
  open rt use {Number}

  -- Whatever the identifiers, the path of a revision has four segments, and no query or fragment.
  pub revision_path_segments :
      (service_id revision_number : Value Number)
      → (count b'/' (codes (revision_path service_id revision_number)) ≡ 4)
        × (count b'?' (codes (revision_path service_id revision_number)) ≡ 0)
        × (count b'#' (codes (revision_path service_id revision_number)) ≡ 0)
  unfolding revision_path
  revision_path_segments service_id revision_number =
      let (a, b, c) = count-encode (to_text service_id) in
      let (d, e, f) = count-encode (to_text revision_number) in
      simp (codes-append, count-append, a, b, c, d, e, f) (refl, refl, refl)

  -- A text that is a stable service key, with no space around it, is its own path component.
  pub service_path_of_key :
      (key : String)
      → matches_service_key (codes key) ≡ true
      → service_path (str key) ≡ "/contract-services/" <> key
  unfolding service_path to_text
  service_path_of_key key h =
      rw
        (encode_of_unreserved key
          (unreserved_of_key (codes key) ((matches_service_key_iff (codes key)).0 h)))
        refl
