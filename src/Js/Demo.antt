-- ===== src/Js/Demo.antt =====
-- A runtime to evaluate the definitions with: numbers are thousandths, and every text that is no
-- run of digits, nor a decimal below, reads as NaN.
use Prim.Native.Char.{code}
use codex_memory.Prelude.{
  ℕ, ◌+◌, ◌-◌, ◌*◌, ◌/◌, ◌==◌, Bool, true, false, ◌&&◌, String, Option, none, some, if◌then◌else◌,
  leb, nat_eq,
}
use codex_memory.Prelude.Text.{decimal}
use codex_memory.Js.Engine.{Runtime}

abbrev pub digits_of : ℕ → String → Option ℕ
digits_of n String.[] = some n
digits_of n (String.◌∷◌ c s) =
    let more = digits_of (n * 10 + (code c - b'0')) s in
    if leb b'0' (code c) && leb (code c) b'9' then more else none

abbrev pub thousandths : Option ℕ → Option ℕ
thousandths none = none
thousandths (some n) = some (n * 1000)

abbrev pub demo_eq : Option ℕ → Option ℕ → Bool
demo_eq (some m) (some n) = nat_eq m n
demo_eq _ _ = false

abbrev pub demo_le : Option ℕ → Option ℕ → Bool
demo_le (some m) (some n) = leb m n
demo_le _ _ = false

abbrev pub demo_finite : Option ℕ → Bool
demo_finite (some m) = true
demo_finite none = false

unfoldable pub demo_text : Option ℕ → String
unfolding decimal
demo_text (some m) = decimal (m / 1000)
demo_text none = "NaN"

instance abbrev pub demo : Runtime
demo = record {
  Number = Option ℕ;
  num_eq = demo_eq;
  num_le = demo_le;
  is_finite = demo_finite;
  number_of = λ s. if s == "0.8" then some 800 else thousandths (digits_of 0 s);
  number_text = demo_text;
  lower_beyond = λ c. String.◌∷◌ c "";
}
