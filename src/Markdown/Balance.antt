-- ===== src/Markdown/Balance.antt =====
-- Each step of the renderer adds to the print of a list of blocks.
use text.Mathlib.TextLemmas.{append_assoc, append-nil, nil-append}
use codex_memory.Prelude.{
  ◌≡◌, refl, sym, ap, ◌∙◌, Bool, true, false, not, String, ◌<>◌, Option, none, some, List, [], ◌∷◌,
  ◌++◌, if◌then◌else◌, Bool-cases, Option-cases, inl, inr,
}
use codex_memory.Prelude
use codex_memory.Markdown.Spans.{escape_html}
use codex_memory.Markdown.{Rendering, push, close_list, open_list, item_html, joined}
use codex_memory.Markdown.Document.{
  Block, bullets, code_lines, Tail, closed, in_bullets, in_code_lines, Tree, items_html, lines_html,
  block_html, document_html, ended, add_block, add_item, document-snoc, items-snoc, lines-snoc,
}

-- What the pieces make of a tail.
unfoldable pub tail_html : Tail → String
tail_html closed = ""
tail_html (in_bullets ts) = "<ul>" <> items_html ts
tail_html (in_code_lines lines) = "<pre><code>" <> lines_html lines

abbrev pub is_code : Tail → Bool
is_code (in_code_lines lines) = true
is_code _ = false

abbrev pub is_list : Tail → Bool
is_list (in_bullets ts) = true
is_list _ = false

-- The pieces are the print of the tree so far, and the flags tell its tail.
pub record Shows (r : Rendering) (t : Tree) : Type 0 where
  pub printed : joined r.output ≡ document_html t.0 <> tail_html t.1
  pub code_flag : r.in_code ≡ is_code t.1
  pub list_flag : r.in_list ≡ is_list t.1

close_print :
    (out : String) (bs : List Block) (b : Block) (start body end : String)
    → out ≡ document_html bs <> (start <> body)
    → block_html b ≡ start <> (body <> end)
    → out <> end ≡ document_html (bs ++ b ∷ []) <> ""
close_print out bs b start body end e whole =
    ap (λ o. o <> end) e
    ∙ append_assoc (document_html bs) (start <> body) end
    ∙ ap (λ o. document_html bs <> o) (append_assoc start body end ∙ sym whole)
    ∙ sym (document-snoc bs b)
    ∙ sym (append-nil (document_html (bs ++ b ∷ [])))

push_print :
    (out piece : String) (bs : List Block)
    → out ≡ document_html bs <> ""
    → out <> piece ≡ document_html bs <> piece
push_print out piece bs e = ap (λ o. o <> piece) (e ∙ append-nil (document_html bs))

inside_print :
    (out start body piece : String) (bs : List Block)
    → out ≡ document_html bs <> (start <> body)
    → out <> piece ≡ document_html bs <> (start <> (body <> piece))
inside_print out start body piece bs e =
    ap (λ o. o <> piece) e
    ∙ append_assoc (document_html bs) (start <> body) piece
    ∙ ap (λ o. document_html bs <> o) (append_assoc start body piece)

pub close_list-Shows :
    (r : Rendering) (bs : List Block) (tail : Tail)
    → Shows r (bs, tail)
    → is_code tail ≡ false
    → Shows (close_list r) (bs ++ ended tail, closed)
unfolding close_list push tail_html ended joined block_html
close_list-Shows r bs closed v e = simp v.list_flag (record {
  printed = v.printed ∙ ap (λ ds. document_html ds <> "") (sym (Prelude.append-nil bs));
  code_flag = v.code_flag;
  list_flag = v.list_flag;
})
close_list-Shows r bs (in_bullets ts) v e = simp v.list_flag (record {
  printed =
      close_print (joined r.output) bs (bullets ts) "<ul>" (items_html ts) "</ul>" v.printed refl;
  code_flag = v.code_flag;
  list_flag = refl;
})
close_list-Shows r bs (in_code_lines lines) v e = cc

-- A whole block is pushed.
push-Shows :
    (r : Rendering) (bs : List Block) (b : Block)
    → Shows r (bs, closed)
    → Shows (push (block_html b) r) (bs ++ b ∷ [], closed)
unfolding push tail_html joined
push-Shows r bs b v = record {
  printed =
      push_print (joined r.output) (block_html b) bs v.printed
      ∙ sym (document-snoc bs b)
      ∙ sym (append-nil (document_html (bs ++ b ∷ [])));
  code_flag = v.code_flag;
  list_flag = v.list_flag;
}

pub block-Shows :
    (r : Rendering) (bs : List Block) (tail : Tail) (b : Block)
    → Shows r (bs, tail)
    → is_code tail ≡ false
    → Shows (push (block_html b) (close_list r)) (add_block b (bs, tail))
unfolding add_block
block-Shows r bs tail b v e =
    push-Shows (close_list r) (bs ++ ended tail) b (close_list-Shows r bs tail v e)

pub item-Shows :
    (r : Rendering) (bs : List Block) (tail : Tail) (t : String)
    → Shows r (bs, tail)
    → is_code tail ≡ false
    → Shows (push (item_html t) (open_list r)) (add_item t (bs, tail))
unfolding add_item open_list push tail_html joined items_html
item-Shows r bs closed t v e = simp v.list_flag (record {
  printed =
      inside_print (joined r.output <> "<ul>") "<ul>" "" (item_html t) bs (
        push_print (joined r.output) "<ul>" bs v.printed
        ∙ ap (λ o. document_html bs <> o) (sym (append-nil "<ul>")))
      ∙ ap (λ o. document_html bs <> ("<ul>" <> o))
          (nil-append (item_html t) ∙ sym (append-nil (item_html t)));
  code_flag = v.code_flag;
  list_flag = refl;
})
item-Shows r bs (in_bullets ts) t v e = simp v.list_flag (record {
  printed =
      inside_print (joined r.output) "<ul>" (items_html ts) (item_html t) bs v.printed
      ∙ ap (λ o. document_html bs <> ("<ul>" <> o)) (sym (items-snoc ts t));
  code_flag = v.code_flag;
  list_flag = refl;
})
item-Shows r bs (in_code_lines lines) t v e = cc

-- A fence outside code, and one inside.
pub fence_opens :
    (r : Rendering) (bs : List Block) (tail : Tail)
    → Shows r (bs, tail)
    → is_code tail ≡ false
    → Shows
        (record (push "<pre><code>" (close_list r)) { in_code = true })
        (bs ++ ended tail, in_code_lines [])
unfolding push tail_html joined lines_html
fence_opens r bs tail v e =
    let v' = close_list-Shows r bs tail v e in
    record {
      printed =
          push_print (joined (close_list r).output) "<pre><code>" (bs ++ ended tail) v'.printed
          ∙ ap (λ o. document_html (bs ++ ended tail) <> o) (sym (append-nil "<pre><code>"));
      code_flag = refl;
      list_flag = v'.list_flag;
    }

pub fence_closes :
    (r : Rendering) (bs : List Block) (lines : List String)
    → Shows r (bs, in_code_lines lines)
    → Shows
        (record (push "</code></pre>" (close_list r)) { in_code = false })
        (bs ++ code_lines lines ∷ [], closed)
unfolding push tail_html joined close_list block_html
fence_closes r bs lines v = simp v.list_flag (record {
  printed =
      close_print (joined r.output) bs (code_lines lines) "<pre><code>" (lines_html lines)
        "</code></pre>" v.printed refl;
  code_flag = refl;
  list_flag = refl;
})

pub code_line-Shows :
    (r : Rendering) (bs : List Block) (lines : List String) (line : String)
    → Shows r (bs, in_code_lines lines)
    → Shows (push (escape_html line <> "\n") r) (bs, in_code_lines (lines ++ line ∷ []))
unfolding push tail_html joined
code_line-Shows r bs lines line v = record {
  printed =
      inside_print (joined r.output) "<pre><code>" (lines_html lines) (escape_html line <> "\n") bs
        v.printed
      ∙ ap (λ o. document_html bs <> ("<pre><code>" <> o)) (sym (lines-snoc lines line));
  code_flag = v.code_flag;
  list_flag = v.list_flag;
}
