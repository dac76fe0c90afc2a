-- ===== src/Markdown/Refines.antt =====
-- The renderer prints the list of blocks that its source reads as, so that its block tags are
-- always closed and never cross.
use text.Mathlib.TextLemmas.{append-nil}
use codex_memory.Prelude.{
  ◌≡◌, refl, sym, ◌∙◌, true, false, String, none, some, List, [], ◌∷◌, ◌++◌, if◌then◌else◌,
  Bool-cases, Option-cases, inl, inr,
}
use codex_memory.Markdown.{
  Rendering, push, close_list, heading_html, match_heading, match_item, is_fence, render_text,
  render_line, render_lines, finish, joined, unix_lines, split_lines, blank, render_markdown,
}
use codex_memory.Markdown.Document.{
  Block, heading, paragraph, code_lines, Tail, closed, in_bullets, in_code_lines, Tree, block_html,
  document_html, ended, add_block, add_item, read_line, read_lines, blocks_of,
}
use codex_memory.Markdown.Balance.{
  Shows, tail_html, is_code, close_list-Shows, block-Shows, item-Shows, fence_opens, fence_closes,
  code_line-Shows,
}

-- A line outside code that is no fence nor a heading, and one that is no fence.
outside_text : String → Tree → Tree
outside_text line (bs, tail) = elim (match_item line) [
  | some t ↦ add_item t (bs, tail)
  | none ↦ add_block (paragraph line) (bs, tail)
]

outside : String → Tree → Tree
unfolding outside_text
outside line (bs, tail) = elim (match_heading line) [
  | some (hashes, t) ↦ add_block (heading hashes t) (bs, tail)
  | none ↦ outside_text line (bs, tail)
]

abbrev outside_step : String → Rendering → Rendering
outside_step line r = elim (match_heading line) [
  | some (hashes, t) ↦ push (heading_html hashes t) (close_list r)
  | none ↦ render_text line r
]

text-Shows :
    (line : String) (r : Rendering) (bs : List Block) (tail : Tail)
    → Shows r (bs, tail)
    → is_code tail ≡ false
    → Shows (render_text line r) (outside_text line (bs, tail))
unfolding outside_text render_text block_html
text-Shows line r bs tail v e = elim (Option-cases (match_item line)) [
  | inr (t, found) ↦ rw (found, outside_text, render_text) (item-Shows r bs tail t v e)
  | inl plain ↦ rw (plain, outside_text, render_text) (block-Shows r bs tail (paragraph line) v e)
]

outside-Shows :
    (line : String) (r : Rendering) (bs : List Block) (tail : Tail)
    → Shows r (bs, tail)
    → is_code tail ≡ false
    → Shows (outside_step line r) (outside line (bs, tail))
unfolding outside block_html
outside-Shows line r bs tail v e = elim (Option-cases (match_heading line)) [
  | inr ((hashes, t), found) ↦
      rw (found, outside, outside_step) (block-Shows r bs tail (heading hashes t) v e)
  | inl plain ↦ rw (plain, outside, outside_step) (text-Shows line r bs tail v e)
]

open_line-Shows :
    (line : String) (r : Rendering) (bs : List Block) (tail : Tail)
    → Shows r (bs, tail)
    → is_code tail ≡ false
    → r.in_code ≡ false
    → Shows
        (render_line line r)
        (if is_fence line then (bs ++ ended tail, in_code_lines []) else outside line (bs, tail))
unfolding render_line
open_line-Shows line r bs tail v e plain = elim (Bool-cases (is_fence line)) [
  | inl fence ↦ rw fence (simp plain (fence_opens r bs tail v e))
  | inr other ↦ rw other (simp plain (outside-Shows line r bs tail v e))
]

fenced :
    (line : String) (r : Rendering) (bs : List Block) (lines : List String)
    → Shows r (bs, in_code_lines lines)
    → is_fence line ≡ true
    → Shows (render_line line r) (bs ++ code_lines lines ∷ [], closed)
unfolding render_line
fenced line r bs lines v fence = rw fence (simp v.code_flag (fence_closes r bs lines v))

unfenced :
    (line : String) (r : Rendering) (bs : List Block) (lines : List String)
    → Shows r (bs, in_code_lines lines)
    → is_fence line ≡ false
    → Shows (render_line line r) (bs, in_code_lines (lines ++ line ∷ []))
unfolding render_line
unfenced line r bs lines v other = rw other (simp v.code_flag (code_line-Shows r bs lines line v))

render_line-Shows :
    (line : String) (r : Rendering) (bs : List Block) (tail : Tail)
    → Shows r (bs, tail)
    → Shows (render_line line r) (read_line line (bs, tail))
unfolding read_line outside
render_line-Shows line r bs closed v = open_line-Shows line r bs closed v refl v.code_flag
render_line-Shows line r bs (in_bullets ts) v =
    open_line-Shows line r bs (in_bullets ts) v refl v.code_flag
render_line-Shows line r bs (in_code_lines lines) v = elim (Bool-cases (is_fence line)) [
  | inl fence ↦ rw fence (fenced line r bs lines v fence)
  | inr other ↦ rw other (unfenced line r bs lines v other)
]

render_lines-Shows :
    (lines : List String) (r : Rendering) (t : Tree)
    → Shows r t
    → Shows (render_lines lines r) (read_lines lines t)
unfolding render_lines read_lines
render_lines-Shows [] r t v = v
render_lines-Shows (line ∷ lines) r (bs, tail) v =
    render_lines-Shows lines (render_line line r) (read_line line (bs, tail))
      (render_line-Shows line r bs tail v)

finish_open :
    (r : Rendering) (bs : List Block) (tail : Tail)
    → Shows r (bs, tail)
    → is_code tail ≡ false
    → joined (finish r).output ≡ document_html (bs ++ ended tail)
unfolding finish tail_html
finish_open r bs tail v e =
    let v' = close_list-Shows r bs tail v e in
    simp v'.code_flag (v'.printed ∙ append-nil (document_html (bs ++ ended tail)))

finish-Shows :
    (r : Rendering) (t : Tree) → Shows r t → joined (finish r).output ≡ document_html (blocks_of t)
unfolding finish tail_html blocks_of ended close_list push joined
finish-Shows r (bs, closed) v = finish_open r bs closed v refl
finish-Shows r (bs, in_bullets ts) v = finish_open r bs (in_bullets ts) v refl
finish-Shows r (bs, in_code_lines lines) v =
    simp (v.list_flag, v.code_flag)
      (rw v.list_flag at (fence_closes r bs lines v).printed
        ∙ append-nil (document_html (bs ++ code_lines lines ∷ [])))

-- The renderer prints the list of blocks that the lines of its source read as: a heading, a
-- paragraph, a list with its items between one `<ul>` and its `</ul>`, or lines of code between one
-- `<pre><code>` and its `</code></pre>`; a fence or a list that the source leaves open is closed in
-- the output.
pub render_markdown-document :
    (source : String)
    → render_markdown source
      ≡ document_html (blocks_of (read_lines (split_lines (unix_lines source)) ([], closed)))
unfolding render_markdown document_html tail_html joined
render_markdown-document source =
    finish-Shows _ _ (render_lines-Shows (split_lines (unix_lines source)) blank ([], closed) begin)
  where
    begin : Shows blank ([], closed)
    begin = record { printed = sym (append-nil ""); code_flag = refl; list_flag = refl }
