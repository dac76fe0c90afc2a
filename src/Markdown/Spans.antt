-- ===== src/Markdown/Spans.antt =====
-- apps/admin-web/src/utils/markdown.js: what happens inside a line. Each regular expression is the
-- function that tells what it matches at a place; texts are read by code points.
use Prim.Native.Char.{Char, code}
use codex_memory.Prelude.{
  ℕ, ◌+◌, ◌-◌, ◌==◌, ◌<>◌, Bool, not, ◌||◌, String, Option, none, some, if◌then◌else◌, nat_eq,
}
use codex_memory.Prelude.Text.{is_space}

-- `replaceAll` of one character.
unfoldable pub replace_char : ℕ → String → String → String
replace_char k by String.[] = ""
replace_char k by (String.◌∷◌ c s) =
    let rest = replace_char k by s in if nat_eq (code c) k then by <> rest else String.◌∷◌ c rest

unfoldable pub escape_html : String → String
escape_html s = replace_char 39 "&#039;" (
    replace_char 34 "&quot;"
      (replace_char b'>' "&gt;" (replace_char b'<' "&lt;" (replace_char b'&' "&amp;" s))))

-- The text without a prefix that it starts with.
unfoldable pub after : String → String → Option String
after String.[] s = some s
after (String.◌∷◌ p prefix) String.[] = none
after (String.◌∷◌ p prefix) (String.◌∷◌ c s) =
    let rest = after prefix s in if nat_eq (code p) (code c) then rest else none

-- The longest start of a text whose characters pass a test, and what follows.
unfoldable pub run : (ℕ → Bool) → String → String × String
run p String.[] = ("", "")
run p (String.◌∷◌ c s) =
    let rest = run p s in if p (code c) then (String.◌∷◌ c rest.0, rest.1) else ("", String.◌∷◌ c s)

unfoldable pub size : String → ℕ
size String.[] = 0
size (String.◌∷◌ c s) = size s + 1

-- What replaces a match at the start of a text, and the match's size.
abbrev pub Matched : Type 0
Matched = Option (String × ℕ)

-- One step of a global replacement: the output, and how many characters to skip.
abbrev pub replace_step : Matched → Char → String × ℕ
replace_step none c = (String.◌∷◌ c "", 0)
replace_step (some (out, n)) c = (out, n - 1)

-- `replace` with a global regular expression that never matches the empty text.
unfoldable pub replace_all : (String → Matched) → ℕ → String → String
replace_all found skip String.[] = ""
replace_all found (ℕ.suc skip) (String.◌∷◌ c s) = replace_all found skip s
replace_all found ℕ.zero (String.◌∷◌ c s) =
    let (out, skip) = replace_step (found (String.◌∷◌ c s)) c in out <> replace_all found skip s

-- A run between two delimiters, neither empty nor cut short.
unfoldable pub between : String → (ℕ → Bool) → String → String → Option (String × String)
unfolding after run
between left p right s = elim (after left s) [
  | none ↦ none
  | some rest ↦
      let (found, tail) = run p rest in
      if found == ""
      then none
      else elim (after right tail) [ none ↦ none | some tail ↦ some (found, tail) ]
]

abbrev pub wrapped : String → String → ℕ → Option (String × String) → Matched
wrapped left right delimiters none = none
wrapped left right delimiters (some (found, tail)) =
    some (left <> found <> right, size found + delimiters)

-- /`([^`]+)`/
unfoldable pub match_code : String → Matched
unfolding between size
match_code s = wrapped "<code>" "</code>" 2 (between "`" (λ c. not (nat_eq c b'`')) "`" s)

-- /\*\*([^*]+)\*\*/
unfoldable pub match_strong : String → Matched
unfolding between size
match_strong s = wrapped "<strong>" "</strong>" 4 (between "**" (λ c. not (nat_eq c b'*')) "**" s)

abbrev pub scheme : String → Option (String × String)
scheme s = elim (after "https://" s) [
  | some rest ↦ some ("https://", rest)
  | none ↦ elim (after "http://" s) [ none ↦ none | some rest ↦ some ("http://", rest) ]
]

-- /\[([^\]]+)\]\((https?:\/\/[^\s)]+)\)/
unfoldable pub match_link : String → Matched
unfolding between size after run is_space
match_link s = elim (between "[" (λ c. not (nat_eq c b']')) "](" s) [
  | none ↦ none
  | some (label, tail) ↦ elim (scheme tail) [
    | none ↦ none
    | some (start, tail) ↦
        let (rest, tail) = run (λ c. not (is_space c || nat_eq c b')')) tail in
        if rest == "" then none else elim (after ")" tail) [
          | none ↦ none
          | some tail ↦ some (
            "<a href=\"" <> start <> rest <> "\" target=\"_blank\" rel=\"noopener noreferrer\">"
                <> label <> "</a>",
            size label + size start + size rest + 4,
          )
        ]
  ]
]

unfoldable pub inline : String → String
unfolding escape_html replace_all match_code match_strong match_link
inline s =
    replace_all match_link 0 (replace_all match_strong 0 (replace_all match_code 0 (escape_html s)))
