-- ===== src/Markdown.antt =====
-- apps/admin-web/src/utils/markdown.js: the renderer of Markdown, line by line.
pub mod Spans
pub mod Escape
pub mod Document
pub mod Balance
pub mod Refines
mod Tests
use Prim.Native.Char.{Char, code}
use Prim.Native.String
use codex_memory.Prelude.{
  ℕ, ◌+◌, ◌-◌, ◌==◌, ◌<>◌, Bool, true, false, not, ◌&&◌, ◌||◌, String, Option, none, some, List, [],
  ◌∷◌, ◌++◌, if◌then◌else◌, nat_eq, leb, ltb,
}
use codex_memory.Prelude.Text.{is_space, trim, decimal}
use codex_memory.Markdown.Spans.{escape_html, after, run, size, inline}
use codex_memory.Js.{Runtime, Value, str, ◌or◌, to_text}

-- /\s+(.+)$/ from a place on: white space, then the rest of the line. When white space is all that
-- is left, its last character is the rest. A `.` matches no line terminator.
abbrev pub is_terminator : ℕ → Bool
is_terminator c = nat_eq c 10 || nat_eq c 13 || nat_eq c 0x2028 || nat_eq c 0x2029

unfoldable pub has_terminator : String → Bool
has_terminator String.[] = false
has_terminator (String.◌∷◌ c s) = is_terminator (code c) || has_terminator s

unfoldable pub last_character : String → String
last_character String.[] = ""
last_character (String.◌∷◌ c s) =
    let last = last_character s in if s == "" then String.◌∷◌ c "" else last

unfoldable pub spaced : String → Option String
unfolding run is_space size has_terminator last_character
spaced s =
    let (spaces, rest) = run is_space s in
    if spaces == ""
    then none
    else if rest == ""
    then (if leb 2 (size spaces) && not (has_terminator (last_character spaces))
        then some (last_character spaces)
        else none)
    else if has_terminator rest
    then none
    else some rest

-- /^(#{1,4})\s+(.+)$/: the number of `#`, and the text.
unfoldable pub match_heading : String → Option (ℕ × String)
unfolding run size spaced
match_heading line =
    let (hashes, rest) = run (λ c. nat_eq c b'#') line in
    if leb 1 (size hashes) && leb (size hashes) 4
    then elim (spaced rest) [ none ↦ none | some t ↦ some (size hashes, t) ]
    else none

-- /^\s*[-*]\s+(.+)$/
abbrev pub after_bullet : String → Option String
after_bullet String.[] = none
after_bullet (String.◌∷◌ c s) =
    if nat_eq (code c) b'-' || nat_eq (code c) b'*' then some s else none

unfoldable pub match_item : String → Option String
unfolding run spaced is_space
match_item line = elim (after_bullet (run is_space line).1) [
  | none ↦ none
  | some rest ↦ spaced rest
]

abbrev pub is_fence : String → Bool
is_fence line = elim (after "```" line) [ none ↦ false | some rest ↦ true ]

-- `output`, last piece first, and the two flags.
pub record Rendering : Type 0 where
  pub output : List String
  pub in_code : Bool
  pub in_list : Bool

unfoldable pub push : String → Rendering → Rendering
push piece r = record r { output = piece ∷ r.output }

-- `if (inList) { output.push('</ul>'); inList = false }`
unfoldable pub close_list : Rendering → Rendering
unfolding push
close_list r = if r.in_list then record (push "</ul>" r) { in_list = false } else r

unfoldable pub open_list : Rendering → Rendering
unfolding push
open_list r = if r.in_list then r else record (push "<ul>" r) { in_list = true }

abbrev pub heading_html : ℕ → String → String
heading_html hashes t =
    let level = decimal (hashes + 1) in "<h" <> level <> ">" <> inline t <> "</h" <> level <> ">"

abbrev pub item_html : String → String
item_html t = "<li>" <> inline t <> "</li>"

abbrev pub paragraph_html : String → String
paragraph_html line = if trim line == "" then "" else "<p>" <> inline line <> "</p>"

-- The loop's body after the test of the heading.
unfoldable pub render_text : String → Rendering → Rendering
render_text line r = elim (match_item line) [
  | some t ↦ push (item_html t) (open_list r)
  | none ↦ push (paragraph_html line) (close_list r)
]

-- The loop's body.
unfoldable pub render_line : String → Rendering → Rendering
render_line line r =
    if is_fence line
    then (let r' = close_list r in
        record (push (if r.in_code then "</code></pre>" else "<pre><code>") r') {
          in_code = not r.in_code;
        })
    else if r.in_code
    then push (escape_html line <> "\n") r
    else elim (match_heading line) [
      | some (hashes, t) ↦ push (heading_html hashes t) (close_list r)
      | none ↦ render_text line r
    ]

unfoldable pub render_lines : List String → Rendering → Rendering
render_lines [] r = r
render_lines (line ∷ lines) r = render_lines lines (render_line line r)

-- The two pushes after the loop.
unfoldable pub finish : Rendering → Rendering
unfolding push close_list
finish r = let r' = close_list r in if r'.in_code then push "</code></pre>" r' else r'

-- `output.join('')`
unfoldable pub joined : List String → String
joined [] = ""
joined (piece ∷ output) = joined output <> piece

-- `replaceAll('\r\n', '\n')`
abbrev pub starts_line : String → Bool
starts_line String.[] = false
starts_line (String.◌∷◌ c s) = nat_eq (code c) 10

unfoldable pub unix_lines : String → String
unix_lines String.[] = ""
unix_lines (String.◌∷◌ c s) =
    let rest = unix_lines s in
    if nat_eq (code c) 13 && starts_line s then rest else String.◌∷◌ c rest

-- `split('\n')`: there is always a first line.
abbrev pub into_first : Char → List String → List String
into_first c [] = String.◌∷◌ c "" ∷ []
into_first c (line ∷ lines) = String.◌∷◌ c line ∷ lines

unfoldable pub split_lines : String → List String
split_lines String.[] = "" ∷ []
split_lines (String.◌∷◌ c s) =
    let rest = split_lines s in if nat_eq (code c) 10 then "" ∷ rest else into_first c rest

abbrev pub blank : Rendering
blank = record { output = []; in_code = false; in_list = false }

unfoldable pub render_markdown : String → String
render_markdown source =
    joined (finish (render_lines (split_lines (unix_lines source)) blank)).output

module _ ⦃rt : Runtime⦄ where
  open rt use {Number}

  unfoldable pub render_safe_markdown : Value Number → String
  unfolding to_text
  render_safe_markdown source = render_markdown (to_text (source or str ""))
