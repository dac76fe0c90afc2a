-- ===== src/RouteQuery/Tests.antt =====
-- A filter that is patched.
use codex_memory.Prelude.{◌≡◌, refl}
use codex_memory.Js.{str, Fields, end, field, set, spread}
use codex_memory.Js.Demo.{demo}
use codex_memory.RouteQuery.{commit, clean}

abbrev query : Fields demo.Number
query = field "tab" (str "all") (field "keyword" (str "a") end)

abbrev state : Fields demo.Number
state = field "keyword" (str "a") (field "status" (str "ready") end)

abbrev patch : Fields demo.Number
patch = field "keyword" (str "") end

navigates :
    (commit query state patch).1 ≡ field "tab" (str "all") (field "status" (str "ready") end)
unfolding commit clean spread set
navigates = refl
