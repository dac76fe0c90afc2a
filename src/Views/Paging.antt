-- ===== src/Views/Paging.antt =====
-- The pages of the list of projects: together they are the filtered rows, and the page that is shown
-- after a load is one of them.
use codex_memory.Prelude.{
  ℕ, zero, suc, ◌+◌, ◌-◌, ◌*◌, ◌/◌, ◌≤◌, ◌<◌, ◌≡◌, ap, sym, ◌∙◌, false, List, [], ◌++◌,
  if◌then◌else◌, ◌⊎◌, inl, inr, ltb, length, drop, ok, arith, take-append-drop, length-drop,
  length-take_pos,
}
use native.Mathlib.Decide.{dec_lt}
use native.Mathlib.Nat.{div-mul-le_self, lt-div-mul-add, suc-mul, mul-le-mul_right}
use codex_memory.Js.{Runtime, Value, obj, Fields, get}
use codex_memory.Contracts.{array_items}
use codex_memory.Js.{items}
use codex_memory.Pages.{member}
use codex_memory.Import.Parts.{drop-drop, drop_all}
use codex_memory.Views.Projects.{
  ProjectsPage, max_page, page_rows, rows, filtered_rows, finish_load, in_range,
}

max_page-covers : (n size : ℕ) → 0 < size → n ≤ max_page n size * size
max_page-covers n size p =
    covered ((n + (size - 1)) / size) (lt-div-mul-add {a = n + (size - 1)} {b = size} p)
  where
    covered : (q : ℕ) → n + (size - 1) < q * size + size → n ≤ (if ltb q 1 then 1 else q) * size
    covered zero h = omega arith
    covered (suc k) h = let many : ltb (suc k) 1 ≡ false = ground arith in rw many (omega arith)

max_page-tight : (n size : ℕ) → 0 < size → 0 < n → (max_page n size - 1) * size < n
max_page-tight n size p h = tight ((n + (size - 1)) / size) (div-mul-le_self (n + (size - 1)) size)
  where
    tight : (q : ℕ) → q * size ≤ n + (size - 1) → ((if ltb q 1 then 1 else q) - 1) * size < n
    tight zero e = omega arith
    tight (suc k) e =
        let many : ltb (suc k) 1 ≡ false = ground arith in
        let same : suc k - 1 ≡ k = omega arith in
        let next : suc k * size ≡ k * size + size = suc-mul k size in rw (many, same) (omega arith)

max_page-positive : (n size : ℕ) → 1 ≤ max_page n size
max_page-positive n size = positive ((n + (size - 1)) / size)
  where
    positive : (q : ℕ) → 1 ≤ (if ltb q 1 then 1 else q)
    positive q = ground arith

module _ ⦃rt : Runtime⦄ where
  open rt use {Number}

  -- The rows of the pages from this one on, so many pages.
  abbrev pub pages : ℕ → ℕ → ℕ → List (Value Number) → List (Value Number)
  pages zero page size rows = []
  pages (suc more) page size rows = page_rows page size rows ++ pages more (suc page) size rows

  page_rows-append :
      (k size : ℕ) (rows : List (Value Number))
      → page_rows (suc k) size rows ++ drop (suc k * size) rows ≡ drop (k * size) rows
  unfolding page_rows
  page_rows-append k size rows =
      let same : suc k - 1 ≡ k = omega arith in
      let next : suc k * size ≡ k * size + size = suc-mul k size in
      let width : k * size + size - k * size ≡ size = omega arith in
      rw (same, next, width, ← drop-drop (k * size) size rows)
        (take-append-drop size (drop (k * size) rows))

  pages-rows :
      (more k size : ℕ) (rows : List (Value Number))
      → length rows ≤ (k + more) * size
      → pages more (suc k) size rows ≡ drop (k * size) rows
  pages-rows zero k size rows h =
      let same : k + 0 ≡ k = omega arith in sym (drop_all (k * size) rows (rw same at h))
  pages-rows (suc more) k size rows h =
      let same : k + suc more ≡ suc k + more = omega arith in
      ap (λ rest. page_rows (suc k) size rows ++ rest)
        (pages-rows more (suc k) size rows (rw same at h))
      ∙ page_rows-append k size rows

  -- The pages of a list of projects, from the first to the last one that there is, are together the rows
  -- that the filters leave, each once and in their order, for every positive size of a page.
  pub all_pages-rows :
      (s : ProjectsPage Number)
      → 0 < s.page_size
      → pages (max_page (length (filtered_rows s)) s.page_size) 1 s.page_size (filtered_rows s)
        ≡ filtered_rows s
  all_pages-rows s p =
      let none : 0 * s.page_size ≡ 0 = omega arith in
      let from_start : 0 + max_page (length (filtered_rows s)) s.page_size
          ≡ max_page (length (filtered_rows s)) s.page_size =
        omega arith in
      pages-rows (max_page (length (filtered_rows s)) s.page_size) 0 s.page_size (filtered_rows s)
        (rw from_start (max_page-covers (length (filtered_rows s)) s.page_size p))
      ∙ ap (λ n. drop n (filtered_rows s)) none

  page_rows-shows :
      (page size : ℕ) (rows : List (Value Number))
      → 0 < size
      → 1 ≤ page
      → (page - 1) * size < length rows
      → 0 < length (page_rows page size rows)
  unfolding page_rows
  page_rows-shows (suc k) size rows p q h =
      let same : suc k - 1 ≡ k = omega arith in
      let next : suc k * size ≡ k * size + size = suc-mul k size in
      let width : k * size + size - k * size ≡ size = omega arith in
      let left : k * size < length rows = rw same at h in
      rw (same, next, width)
        (length-take_pos size (drop (k * size) rows) p
          (omega (arith, length-drop (k * size) rows, left)))
  page_rows-shows zero size rows p q h = absurd (omega arith)

  in_range-shows :
      (s : ProjectsPage Number)
      → 0 < s.page_size
      → 1 ≤ s.page
      → (1 ≤ (in_range s).page)
        × ((in_range s).page ≤ max_page (length (filtered_rows s)) s.page_size)
        × ((length (filtered_rows s) ≡ 0)
            ⊎ (0 < length (page_rows (in_range s).page s.page_size (filtered_rows s))))
  in_range-shows s p q =
      let last = max_page (length (filtered_rows s)) s.page_size in
      let first : 1 ≤ last = max_page-positive (length (filtered_rows s)) s.page_size in
      let low : 1 ≤ (if ltb last s.page then last else s.page) = ground arith in
      let high : (if ltb last s.page then last else s.page) ≤ last = ground arith in
      let inside =
        mul-le-mul_right s.page_size
          (sub_le (if ltb last s.page then last else s.page) last high) in
      (
        low,
        high,
        elim (dec_lt 0 (length (filtered_rows s))) [
          | yes h ↦
              let tight = max_page-tight (length (filtered_rows s)) s.page_size p h in
              inr (page_rows-shows _ s.page_size (filtered_rows s) p low (omega arith))
          | no none ↦ inl (omega arith)
        ],
      )
    where
      sub_le : (a b : ℕ) → a ≤ b → a - 1 ≤ b - 1
      sub_le a b h = omega arith

  -- After a load that an object answers, from a page that is at least 1, the page lies between the first
  -- and the last one that there is, and it has rows unless the filters leave none; the page size is
  -- positive.
  pub finish_load-shows :
      (body : Fields Number) (s : ProjectsPage Number)
      → 0 < s.page_size
      → 1 ≤ s.page
      → let after = finish_load (ok (obj body)) s in
        (1 ≤ after.page)
        × (after.page ≤ max_page (length (filtered_rows after)) after.page_size)
        × ((length (filtered_rows after) ≡ 0) ⊎ (0 < length (rows after)))
  unfolding rows finish_load filtered_rows member
  finish_load-shows body s p q =
      in_range-shows
        (record s { all_rows = items (array_items (get "data" body)); loading = false }) p q
