-- ===== src/Markdown/Tests.antt =====
-- Texts that are rendered.
use codex_memory.Prelude.{◌≡◌, refl, [], All}
use codex_memory.Prelude.Text.{codes, decimal, trim}
use codex_memory.Markdown.Spans.{replace_char, inline, escape_html}
use codex_memory.Markdown.Escape.{escaped_text, IsInert, escape_html_lem}
use codex_memory.Markdown.Document.{document_html, blocks_of, read_lines, closed}
use codex_memory.Markdown.Refines.{render_markdown-document}
use codex_memory.Markdown.{
  match_heading, match_item, open_list, render_text, render_line, render_lines, finish, joined,
  unix_lines, split_lines, render_markdown,
}

inline_html :
    inline "a `b<` **c** [d](https://e.f/?g&h) *"
    ≡ "a <code>b&lt;</code> <strong>c</strong> <a href=\"https://e.f/?g&amp;h\" target=\"_blank\" rel=\"noopener noreferrer\">d</a> *"
unfolding inline replace_char
inline_html = refl

document :
    render_markdown "# A\r\n- b\n* c\n\nd\n```\ne<\n"
    ≡ "<h2>A</h2><ul><li>b</li><li>c</li></ul><p>d</p><pre><code>e&lt;\n\n</code></pre>"
unfolding render_markdown inline replace_char joined finish render_lines split_lines unix_lines
    render_line match_heading render_text match_item open_list decimal trim
document = refl

escape_html_lem_example :
    (escape_html "a<b" ≡ escaped_text "a<b") × All IsInert (codes (escape_html "a<b"))
escape_html_lem_example = escape_html_lem "a<b"

render_markdown-document_example :
    render_markdown "- a\n```\nb"
    ≡ document_html (blocks_of (read_lines (split_lines (unix_lines "- a\n```\nb")) ([], closed)))
render_markdown-document_example = render_markdown-document "- a\n```\nb"
