-- ===== src/Widgets/Tests.antt =====
-- The shared components at concrete inputs.
use codex_memory.Prelude.{true, false, ◌≡◌, refl, none, some, [], ◌∷◌}
use codex_memory.Js.{get, Value, str, arr, cons, nil, obj, field, end}
use codex_memory.Js.Demo.{demo}
use codex_memory.Import.Files.{File}
use codex_memory.Widgets.{refused, cut, choose, may_confirm, allowed}

abbrev reader : Value demo.Number
reader = obj (field "permissions" (arr (cons (str "read") (cons (str "audit") nil))) end)

reader_sees : allowed ("read" ∷ "audit" ∷ []) ("admin" ∷ "audit" ∷ []) "admin" reader ≡ true
unfolding allowed get
reader_sees = refl

reader_is_no_admin : allowed [] [] "admin" reader ≡ false
unfolding allowed get
reader_is_no_admin = refl

shortened : cut 2 "记忆账本" ≡ "记忆…"
unfolding cut
shortened = refl

abbrev large_file : File
large_file = record { name = "a.zip"; size = 20971521; last_modified = 0; bytes = none }

large_file_is_refused : choose false 20971520 (some large_file) ≡ refused "文件不能超过 20 MB"
unfolding choose
large_file_is_refused = refl

blank_reason : may_confirm true "  " ≡ false
unfolding may_confirm
blank_reason = refl

-- A character beyond the basic plane counts twice, and is shown broken where it is cut in two.
cut_in_a_pair : cut 2 "a𠀀b" ≡ "a�…"
unfolding cut
cut_in_a_pair = refl
