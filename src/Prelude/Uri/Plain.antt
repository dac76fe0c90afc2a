-- ===== src/Prelude/Uri/Plain.antt =====
-- An encoded component holds no delimiter of a path, and unreserved text is its own encoding.
use Prim.Native.Char.{code}
use Prim.Native.String.{String, ◌++◌}
use Prim.Native.Nat.{ℕ, zero, suc, ◌+◌, ◌-◌, ◌/◌, ◌%◌}
use mathlib.Core.Path.{◌≡◌, refl, ap}
use mathlib.Core.Logic.{◌≢◌, inl, inr}
use mathlib.Core.Bool.{true}
use mathlib.Core.List.{List, [], ◌∷◌}
use mathlib.Core.List
use native.Mathlib.Omega.{arith}
use text.Mathlib.TextLemmas.{cons-append, nil-append}
use codex_memory.Prelude.Tests.{ltb, Bool-cases}
use codex_memory.Prelude.Lists.{All, All-append}
use codex_memory.Prelude.Text.{codes, digit}
use codex_memory.Prelude.Uri.{
  encode_uri_component, is_unreserved, escape_code, hex_digit, hex_letter, percent,
}

pub codes-append : (s t : String) → codes (s ++ t) ≡ List.◌++◌ (codes s) (codes t)
codes-append String.[] t = rw nil-append
codes-append (String.◌∷◌ c s) t = rw cons-append (ap (code c ∷◌) (codes-append s t))

-- Neither `/` nor `?` nor `#`.
abbrev pub IsPlain : ℕ → Type 0
IsPlain c = (c ≢ b'/') × (c ≢ b'?') × (c ≢ b'#')

abbrev pub ArePlain : String → Type 0
ArePlain s = All IsPlain (codes s)

ArePlain-append : (s t : String) → ArePlain s → ArePlain t → ArePlain (s ++ t)
ArePlain-append s t p q = rw (codes-append s t) (All-append IsPlain (codes s) (codes t) p q)

hex_letter-ArePlain : (n : ℕ) → ArePlain (hex_letter n)
hex_letter-ArePlain zero = omega arith
hex_letter-ArePlain (suc zero) = omega arith
hex_letter-ArePlain (suc (suc zero)) = omega arith
hex_letter-ArePlain (suc (suc (suc zero))) = omega arith
hex_letter-ArePlain (suc (suc (suc (suc zero)))) = omega arith
hex_letter-ArePlain _ = omega arith

digit-ArePlain : (n : ℕ) → ArePlain (digit n)
digit-ArePlain zero = omega arith
digit-ArePlain (suc zero) = omega arith
digit-ArePlain (suc (suc zero)) = omega arith
digit-ArePlain (suc (suc (suc zero))) = omega arith
digit-ArePlain (suc (suc (suc (suc zero)))) = omega arith
digit-ArePlain (suc (suc (suc (suc (suc zero))))) = omega arith
digit-ArePlain (suc (suc (suc (suc (suc (suc zero)))))) = omega arith
digit-ArePlain (suc (suc (suc (suc (suc (suc (suc zero))))))) = omega arith
digit-ArePlain (suc (suc (suc (suc (suc (suc (suc (suc zero)))))))) = omega arith
digit-ArePlain _ = omega arith

hex_digit-ArePlain : (n : ℕ) → ArePlain (hex_digit n)
hex_digit-ArePlain n = elim (Bool-cases (ltb n 10)) [
  | inl small ↦ rw small (digit-ArePlain n)
  | inr large ↦ rw large (hex_letter-ArePlain (n - 10))
]

percent-ArePlain : (b : ℕ) → ArePlain (percent b)
percent-ArePlain b = ArePlain-append "%" _ (omega arith) (
    ArePlain-append (hex_digit (b / 16)) (hex_digit (b % 16)) (hex_digit-ArePlain (b / 16))
      (hex_digit-ArePlain (b % 16)))

join-ArePlain : (b : ℕ) (s : String) → ArePlain s → ArePlain (percent b ++ s)
join-ArePlain b s p = ArePlain-append (percent b) s (percent-ArePlain b) p

two-ArePlain : (a b : ℕ) → ArePlain (percent a ++ percent b)
two-ArePlain a b = join-ArePlain a (percent b) (percent-ArePlain b)

three-ArePlain : (a b c : ℕ) → ArePlain (percent a ++ (percent b ++ percent c))
three-ArePlain a b c = join-ArePlain a (percent b ++ percent c) (two-ArePlain b c)

four-ArePlain : (a b c d : ℕ) → ArePlain (percent a ++ (percent b ++ (percent c ++ percent d)))
four-ArePlain a b c d =
    join-ArePlain a (percent b ++ (percent c ++ percent d)) (three-ArePlain b c d)

escape_code-ArePlain : (c : ℕ) → ArePlain (escape_code c)
unfolding escape_code
escape_code-ArePlain c = elim (Bool-cases (ltb c 0x80)) [
  | inl one ↦ rw one (percent-ArePlain c)
  | inr more ↦ elim (Bool-cases (ltb c 0x800)) [
    | inl two ↦ rw (more, two) (two-ArePlain (0xc0 + c / 64) (0x80 + c % 64))
    | inr more' ↦ elim (Bool-cases (ltb c 0x10000)) [
      | inl three ↦
          rw (more, more', three)
            (three-ArePlain (0xe0 + c / 4096) (0x80 + c / 64 % 64) (0x80 + c % 64))
      | inr four ↦
          rw (more, more', four)
            (four-ArePlain (0xf0 + c / 262144) (0x80 + c / 4096 % 64) (0x80 + c / 64 % 64)
              (0x80 + c % 64))
    ]
  ]
]

is_unreserved-IsPlain : (c : ℕ) → is_unreserved c ≡ true → IsPlain c
unfolding is_unreserved
is_unreserved-IsPlain c h = ground arith

pub encode-ArePlain : (s : String) → ArePlain (encode_uri_component s)
unfolding encode_uri_component
encode-ArePlain String.[] = tt
encode-ArePlain (String.◌∷◌ c s) = elim (Bool-cases (is_unreserved (code c))) [
  | inl kept ↦ rw kept (is_unreserved-IsPlain (code c) kept, encode-ArePlain s)
  | inr escaped ↦
      rw escaped (ArePlain-append _ _ (escape_code-ArePlain (code c)) (encode-ArePlain s))
]

-- What `encodeURIComponent` does to unreserved text: nothing.
pub encode_of_unreserved :
    (s : String) → All (λ c. is_unreserved c ≡ true) (codes s) → encode_uri_component s ≡ s
unfolding encode_uri_component
encode_of_unreserved String.[] h = refl
encode_of_unreserved (String.◌∷◌ c s) (h, hs) = rw (h, encode_of_unreserved s hs) refl
