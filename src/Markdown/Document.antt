-- ===== src/Markdown/Document.antt =====
-- Documents as lists of blocks, their print, and a reader of lines that builds them.
use text.Mathlib.TextLemmas.{append_assoc, append-nil, nil-append}
use codex_memory.Prelude.{
  ℕ, ◌≡◌, sym, ap, ◌∙◌, String, ◌<>◌, none, some, List, [], ◌∷◌, ◌++◌, if◌then◌else◌,
}
use codex_memory.Markdown.Spans.{escape_html}
use codex_memory.Markdown.{
  heading_html, item_html, paragraph_html, match_heading, match_item, is_fence,
}

pub data Block : Type 0 where
  heading : ℕ → String → Block
  paragraph : String → Block
  bullets : List String → Block
  code_lines : List String → Block

unfoldable pub items_html : List String → String
items_html [] = ""
items_html (t ∷ ts) = item_html t <> items_html ts

unfoldable pub lines_html : List String → String
lines_html [] = ""
lines_html (line ∷ lines) = (escape_html line <> "\n") <> lines_html lines

-- A block that is whole, or that waits for its end.
pub data Tail : Type 0 where
  closed : Tail
  in_bullets in_code_lines : List String → Tail

unfoldable pub block_html : Block → String
unfolding items_html lines_html
block_html (heading hashes t) = heading_html hashes t
block_html (paragraph line) = paragraph_html line
block_html (bullets ts) = "<ul>" <> items_html ts <> "</ul>"
block_html (code_lines lines) = "<pre><code>" <> lines_html lines <> "</code></pre>"

unfoldable pub document_html : List Block → String
unfolding block_html
document_html [] = ""
document_html (b ∷ bs) = block_html b <> document_html bs

unfoldable pub ended : Tail → List Block
ended closed = []
ended (in_bullets ts) = bullets ts ∷ []
ended (in_code_lines lines) = code_lines lines ∷ []

-- The blocks of a document: its lines are read one by one, and a block ends where another begins.
abbrev pub Tree : Type 0
Tree = List Block × Tail

unfoldable pub add_block : Block → Tree → Tree
unfolding ended
add_block b (bs, tail) = ((bs ++ ended tail) ++ b ∷ [], closed)

unfoldable pub add_item : String → Tree → Tree
unfolding ended
add_item t (bs, closed) = (bs, in_bullets (t ∷ []))
add_item t (bs, in_bullets ts) = (bs, in_bullets (ts ++ t ∷ []))
add_item t (bs, in_code_lines lines) = (bs ++ code_lines lines ∷ [], in_bullets (t ∷ []))

unfoldable pub read_line : String → Tree → Tree
read_line line (bs, in_code_lines lines) =
    if is_fence line
    then (bs ++ code_lines lines ∷ [], closed)
    else (bs, in_code_lines (lines ++ line ∷ []))
read_line line (bs, tail) =
    if is_fence line then (bs ++ ended tail, in_code_lines []) else elim (match_heading line) [
      | some (hashes, t) ↦ add_block (heading hashes t) (bs, tail)
      | none ↦ elim (match_item line) [
        | some t ↦ add_item t (bs, tail)
        | none ↦ add_block (paragraph line) (bs, tail)
      ]
    ]

unfoldable pub read_lines : List String → Tree → Tree
unfolding read_line
read_lines [] t = t
read_lines (line ∷ lines) t = read_lines lines (read_line line t)

unfoldable pub blocks_of : Tree → List Block
unfolding ended
blocks_of (bs, tail) = bs ++ ended tail

pub document-append :
    (bs cs : List Block) → document_html (bs ++ cs) ≡ document_html bs <> document_html cs
unfolding document_html
document-append [] cs = sym (nil-append (document_html cs))
document-append (b ∷ bs) cs =
    ap (λ t. block_html b <> t) (document-append bs cs)
    ∙ sym (append_assoc (block_html b) (document_html bs) (document_html cs))

pub document-snoc :
    (bs : List Block) (b : Block) → document_html (bs ++ b ∷ []) ≡ document_html bs <> block_html b
unfolding document_html
document-snoc bs b =
    document-append bs (b ∷ []) ∙ ap (λ t. document_html bs <> t) (append-nil (block_html b))

pub items-snoc :
    (ts : List String) (t : String) → items_html (ts ++ t ∷ []) ≡ items_html ts <> item_html t
unfolding items_html
items-snoc [] t = append-nil (item_html t) ∙ sym (nil-append (item_html t))
items-snoc (s ∷ ts) t =
    ap (λ u. item_html s <> u) (items-snoc ts t)
    ∙ sym (append_assoc (item_html s) (items_html ts) (item_html t))

pub lines-snoc :
    (ls : List String) (l : String)
    → lines_html (ls ++ l ∷ []) ≡ lines_html ls <> (escape_html l <> "\n")
unfolding lines_html
lines-snoc [] l = append-nil (escape_html l <> "\n") ∙ sym (nil-append (escape_html l <> "\n"))
lines-snoc (m ∷ ls) l =
    ap (λ u. (escape_html m <> "\n") <> u) (lines-snoc ls l)
    ∙ sym (append_assoc (escape_html m <> "\n") (lines_html ls) (escape_html l <> "\n"))
