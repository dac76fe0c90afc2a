-- ===== src/Markdown/Escape.antt =====
-- The five passes that escape a text are one pass over its characters.
use Prim.Native.Char.{Char, code}
use Prim.Native.String.{◌++◌}
use text.Mathlib.TextLemmas.{append_assoc, cons-append, nil-append}
use codex_memory.Prelude.{
  ℕ, ◌≡◌, refl, sym, ap, ◌∙◌, ◌≢◌, false, String, All, All-append, arith, if◌then◌else◌, Bool-cases,
  inl, inr, nat_eq,
}
use codex_memory.Prelude.Text.{codes}
use codex_memory.Prelude.Uri.Plain.{codes-append}
use codex_memory.Markdown.Spans.{replace_char, escape_html}

-- What a character of code `c` becomes.
pub escaped : Char → String
escaped c =
    if nat_eq (code c) b'&'
    then "&amp;"
    else if nat_eq (code c) b'<'
    then "&lt;"
    else if nat_eq (code c) b'>'
    then "&gt;"
    else if nat_eq (code c) 34
    then "&quot;"
    else if nat_eq (code c) 39
    then "&#039;"
    else String.◌∷◌ c ""

pub escaped_text : String → String
escaped_text String.[] = ""
escaped_text (String.◌∷◌ c s) = escaped c ++ escaped_text s

replace_char-append :
    (k : ℕ) (by s t : String)
    → replace_char k by (s ++ t) ≡ replace_char k by s ++ replace_char k by t
unfolding replace_char
replace_char-append k by String.[] t = rw (nil-append) (sym (nil-append (replace_char k by t)))
replace_char-append k by (String.◌∷◌ c s) t = elim (Bool-cases (nat_eq (code c) k)) [
  | inl same ↦ rw (cons-append c s t) (
      simp same (
        ap (by ++◌) (replace_char-append k by s t)
        ∙ sym (append_assoc by (replace_char k by s) (replace_char k by t))))
  | inr other ↦ rw (cons-append c s t) (
      simp other (
        ap (String.◌∷◌ c) (replace_char-append k by s t)
        ∙ sym (cons-append c (replace_char k by s) (replace_char k by t))))
]

escape_html-append : (s t : String) → escape_html (s ++ t) ≡ escape_html s ++ escape_html t
unfolding escape_html
escape_html-append s t = simp replace_char-append

-- One character; each test but the first knows that those before it have failed.
escape_html-character : (c : Char) → escape_html (String.◌∷◌ c "") ≡ escaped c
unfolding escape_html replace_char escaped
escape_html-character c = elim (Bool-cases (nat_eq (code c) b'&')) [
  | inl and ↦ simp and
  | inr no_and ↦ elim (Bool-cases (nat_eq (code c) b'<')) [
    | inl less ↦ simp (no_and, less)
    | inr no_less ↦ elim (Bool-cases (nat_eq (code c) b'>')) [
      | inl greater ↦ simp (no_and, no_less, greater)
      | inr no_greater ↦ elim (Bool-cases (nat_eq (code c) 34)) [
        | inl quote ↦ simp (no_and, no_less, no_greater, quote)
        | inr no_quote ↦ elim (Bool-cases (nat_eq (code c) 39)) [
          | inl tick ↦ simp (no_and, no_less, no_greater, no_quote, tick)
          | inr no_tick ↦ simp (no_and, no_less, no_greater, no_quote, no_tick)
        ]
      ]
    ]
  ]
]

escape_html-escaped : (s : String) → escape_html s ≡ escaped_text s
unfolding escaped_text escape_html replace_char
escape_html-escaped String.[] = refl
escape_html-escaped (String.◌∷◌ c s) =
    ap escape_html (sym (cons-append c "" s ∙ ap (String.◌∷◌ c) (nil-append s)))
    ∙ escape_html-append (String.◌∷◌ c "") s
    ∙ ap (λ t. t ++ escape_html s) (escape_html-character c)
    ∙ ap (escaped c ++◌) (escape_html-escaped s)

-- A character that cannot end a text in HTML, nor start a tag in it.
abbrev pub IsInert : ℕ → Type 0
IsInert c = (c ≢ b'<') × (c ≢ b'>') × (c ≢ 34) × (c ≢ 39)

nat_ne : {m n : ℕ} → nat_eq m n ≡ false → m ≢ n
nat_ne e = ground arith

escaped-IsInert : (c : Char) → All IsInert (codes (escaped c))
unfolding escaped
escaped-IsInert c = elim (Bool-cases (nat_eq (code c) b'&')) [
  | inl and ↦ simp and (omega arith)
  | inr no_and ↦ elim (Bool-cases (nat_eq (code c) b'<')) [
    | inl less ↦ simp (no_and, less) (omega arith)
    | inr no_less ↦ elim (Bool-cases (nat_eq (code c) b'>')) [
      | inl greater ↦ simp (no_and, no_less, greater) (omega arith)
      | inr no_greater ↦ elim (Bool-cases (nat_eq (code c) 34)) [
        | inl quote ↦ simp (no_and, no_less, no_greater, quote) (omega arith)
        | inr no_quote ↦ elim (Bool-cases (nat_eq (code c) 39)) [
          | inl tick ↦ simp (no_and, no_less, no_greater, no_quote, tick) (omega arith)
          | inr no_tick ↦
              simp (no_and, no_less, no_greater, no_quote, no_tick)
                ((nat_ne no_less, nat_ne no_greater, nat_ne no_quote, nat_ne no_tick), tt)
        ]
      ]
    ]
  ]
]

escaped_text-IsInert : (s : String) → All IsInert (codes (escaped_text s))
unfolding escaped_text
escaped_text-IsInert String.[] = tt
escaped_text-IsInert (String.◌∷◌ c s) = rw (codes-append (escaped c) (escaped_text s)) (
    All-append IsInert (codes (escaped c)) (codes (escaped_text s)) (escaped-IsInert c)
      (escaped_text-IsInert s))

-- The five passes of `escapeHtml` do what one pass over the characters does, so that no pass escapes
-- what another has written; and the result holds none of `<`, `>`, `"` and `'`.
pub escape_html_lem :
    (s : String) → (escape_html s ≡ escaped_text s) × All IsInert (codes (escape_html s))
escape_html_lem s = (escape_html-escaped s, rw (escape_html-escaped s) (escaped_text-IsInert s))
