-- ===== src/Format/Depth.antt =====
-- How deep a value is, against the depth to which it is shown.
use codex_memory.Prelude.{
  ℕ, zero, suc, ◌+◌, ◌≤◌, ◌≡◌, refl, ◌∙◌, true, false, List, [], ◌∷◌, Result, ok, ◌>>=◌, String,
  if◌then◌else◌, ltb, leb, arith,
}
use codex_memory.Js.{
  Runtime, Value, undefined, null, bool, num, str, arr, obj, Items, nil, cons, Fields, end, field,
}
use codex_memory.Contracts.{Fault}
use codex_memory.Format.Readable.{
  Display, lines_or_dash, item_line, field_line, scalar_readable_value, render_readable_value,
  render_items, render_fields, format_readable_value,
}

abbrev pub larger : ℕ → ℕ → ℕ
larger m n = if ltb m n then n else m

-- The number of lists and objects around the deepest part.
unfoldable mutual
  pub height : {N : Type 0} → Value N → ℕ
  height (arr xs) = suc (items_height xs)
  height (obj fs) = suc (fields_height fs)
  height _ = 0

  pub items_height : {N : Type 0} → Items N → ℕ
  items_height nil = 0
  items_height (cons v vs) = larger (height v) (items_height vs)

  pub fields_height : {N : Type 0} → Fields N → ℕ
  fields_height end = 0
  fields_height (field key v more) = larger (height v) (fields_height more)

larger-le : (m n k : ℕ) → larger m n ≤ k → (m ≤ k) × (n ≤ k)
larger-le m n k h = (ground arith, ground arith)

module _ ⦃rt : Runtime⦄ (display : Display rt.Number) where
  open rt use {Number}

  -- A value with all that is in it, however deep.
  unfoldable mutual
    pub whole : String → Value Number → Result Fault String
    whole key (arr xs) = whole_items 0 xs >>= λ lines. ok (lines_or_dash lines)
    whole key (obj fs) = whole_fields fs >>= λ lines. ok (lines_or_dash lines)
    whole key v = scalar_readable_value display key v

    pub whole_items : ℕ → Items Number → Result Fault (List String)
    whole_items index nil = ok []
    whole_items index (cons v vs) =
        let rest = whole_items (suc index) vs in
        whole "" v >>= λ shown. rest >>= λ lines. ok (item_line display index v shown ∷ lines)

    pub whole_fields : Fields Number → Result Fault (List String)
    whole_fields end = ok []
    whole_fields (field key v more) =
        let rest = whole_fields more in
        whole key v >>= λ shown. rest >>= λ lines. ok (field_line display key v shown ∷ lines)

  -- A value with so many lists and objects around each shown part; the mark of an omission stands for
  -- every list and object that has none left.
  unfoldable mutual
    pub within : ℕ → String → Value Number → Result Fault String
    within zero key (arr xs) = ok "…（层级过深，已省略）"
    within zero key (obj fs) = ok "…（层级过深，已省略）"
    within (suc left) key (arr xs) = within_items left 0 xs >>= λ lines. ok (lines_or_dash lines)
    within (suc left) key (obj fs) = within_fields left fs >>= λ lines. ok (lines_or_dash lines)
    within left key v = scalar_readable_value display key v

    pub within_items : ℕ → ℕ → Items Number → Result Fault (List String)
    within_items left index nil = ok []
    within_items left index (cons v vs) =
        let rest = within_items left (suc index) vs in
        within left "" v >>= λ shown. rest >>= λ lines. ok (item_line display index v shown ∷ lines)

    pub within_fields : ℕ → Fields Number → Result Fault (List String)
    within_fields left end = ok []
    within_fields left (field key v more) =
        let rest = within_fields left more in
        within left key v >>= λ shown. rest >>= λ lines. ok (field_line display key v shown ∷ lines)

  -- The state of the renderer counts up to its limit what `within` counts down.
  mutual
    unfolding within render_readable_value

    counted :
        (d left : ℕ) (key : String) (v : Value Number)
        → render_readable_value display d (d + left) key v ≡ within left key v
    counted d zero key (arr xs) = let full : leb (d + 0) d ≡ true = ground arith in rw full refl
    counted d zero key (obj fs) = let full : leb (d + 0) d ≡ true = ground arith in rw full refl
    counted d (suc left) key (arr xs) =
        let free : leb (d + suc left) d ≡ false = ground arith in
        let same : d + suc left ≡ suc d + left = omega arith in
        rw free (rw same (rw (counted_items (suc d) left 0 xs) refl))
    counted d (suc left) key (obj fs) =
        let free : leb (d + suc left) d ≡ false = ground arith in
        let same : d + suc left ≡ suc d + left = omega arith in
        rw free (rw same (rw (counted_fields (suc d) left fs) refl))
    counted d zero key undefined = refl
    counted d zero key null = refl
    counted d zero key (bool b) = refl
    counted d zero key (num a) = refl
    counted d zero key (str s) = refl
    counted d (suc left) key undefined = refl
    counted d (suc left) key null = refl
    counted d (suc left) key (bool b) = refl
    counted d (suc left) key (num a) = refl
    counted d (suc left) key (str s) = refl

    counted_items :
        (d left index : ℕ) (xs : Items Number)
        → render_items display d (d + left) index xs ≡ within_items left index xs
    counted_items d left index nil = refl
    counted_items d left index (cons v vs) =
        rw (counted d left "" v, counted_items d left (suc index) vs) refl

    counted_fields :
        (d left : ℕ) (fs : Fields Number)
        → render_fields display d (d + left) fs ≡ within_fields left fs
    counted_fields d left end = refl
    counted_fields d left (field key v more) =
        rw (counted d left key v, counted_fields d left more) refl

  -- Where the height of the value is left, nothing is omitted.
  mutual
    unfolding height within whole

    complete :
        (left : ℕ) (key : String) (v : Value Number)
        → height v ≤ left
        → within left key v ≡ whole key v
    complete zero key (arr xs) h = absurd (omega arith)
    complete zero key (obj fs) h = absurd (omega arith)
    complete (suc left) key (arr xs) h = rw (complete_items left 0 xs (omega arith)) refl
    complete (suc left) key (obj fs) h = rw (complete_fields left fs (omega arith)) refl
    complete zero key undefined h = refl
    complete zero key null h = refl
    complete zero key (bool b) h = refl
    complete zero key (num a) h = refl
    complete zero key (str s) h = refl
    complete (suc left) key undefined h = refl
    complete (suc left) key null h = refl
    complete (suc left) key (bool b) h = refl
    complete (suc left) key (num a) h = refl
    complete (suc left) key (str s) h = refl

    complete_items :
        (left index : ℕ) (xs : Items Number)
        → items_height xs ≤ left
        → within_items left index xs ≡ whole_items index xs
    complete_items left index nil h = refl
    complete_items left index (cons v vs) h =
        let both = larger-le (height v) (items_height vs) left h in
        rw (complete left "" v both.0, complete_items left (suc index) vs both.1) refl

    complete_fields :
        (left : ℕ) (fs : Fields Number)
        → fields_height fs ≤ left
        → within_fields left fs ≡ whole_fields fs
    complete_fields left end h = refl
    complete_fields left (field key v more) h =
        let both = larger-le (height v) (fields_height more) left h in
        rw (complete left key v both.0, complete_fields left more both.1) refl

  -- A readable value shows the parts that have at most as many lists and objects around them as the limit
  -- says, and the mark of an omission for each list or object with as many around it; with a limit of at
  -- least the height of the value it shows all of it.
  pub format_readable_value-within :
      (limit more : ℕ) (v : Value Number)
      → (format_readable_value display limit v ≡ within limit "" v)
        × (format_readable_value display (height v + more) v ≡ whole "" v)
  unfolding format_readable_value
  format_readable_value-within limit more v =
      (shown limit, shown (height v + more) ∙ complete (height v + more) "" v (omega arith))
    where
      shown : (n : ℕ) → render_readable_value display 0 n "" v ≡ within n "" v
      shown n = let same : 0 + n ≡ n = omega arith in rw same at (counted 0 n "" v)
