-- ===== src/Import/Parts.antt =====
-- The parts of a file: they are the content, none is too long, and the loop ends.
use codex_memory.Prelude.{
  ℕ, zero, suc, ◌+◌, ◌-◌, ◌*◌, ◌≤◌, ◌<◌, ◌≡◌, refl, ap, sym, ◌∙◌, List, [], ◌∷◌, ◌++◌,
  if◌then◌else◌, ltb, length, drop, All, arith, inl, inr, ◌⊎◌, take-append-drop, length-take_le,
  length-drop, length-take_pos,
}
use native.Mathlib.Decide.{dec_lt}
use native.Mathlib.Nat.{div-lt_iff_lt-mul, le-div_iff_mul-le, div-mul-le_self}
use codex_memory.Import.{round_div}
use codex_memory.Import.Upload.{slice, slices, joined, content_parts, part_progress, binary_string}

module _ {ℓ} {A : Type ℓ} where
  drop_nil : (n : ℕ) → drop {A = A} n [] ≡ []
  drop_nil zero = refl
  drop_nil (suc n) = refl

  pub drop-drop : (m n : ℕ) (xs : List A) → drop n (drop m xs) ≡ drop (m + n) xs
  drop-drop zero n xs = let same : 0 + n ≡ n = omega arith in rw same refl
  drop-drop (suc m) n [] = drop_nil n ∙ sym (drop_nil (suc m + n))
  drop-drop (suc m) n (x ∷ xs) =
      let same : suc m + n ≡ suc (m + n) = omega arith in rw same (drop-drop m n xs)

  pub drop_all : (n : ℕ) (xs : List A) → length xs ≤ n → drop n xs ≡ []
  drop_all zero [] h = refl
  drop_all (suc n) [] h = refl
  drop_all zero (x ∷ xs) h = absurd (omega arith)
  drop_all (suc n) (x ∷ xs) h = drop_all n xs (omega arith)

  slices_more :
      (fuel size index : ℕ) (content : List A)
      → index < length content
      → slices (suc fuel) size index content
        ≡ slice index (index + size) content ∷ slices fuel size (index + size) content
  unfolding slices
  slices_more fuel size index content h = ground arith

  slices_done :
      (fuel size index : ℕ) (content : List A)
      → length content ≤ index
      → slices fuel size index content ≡ []
  unfolding slices
  slices_done zero size index content h = refl
  slices_done (suc fuel) size index content h = ground arith

  slices_zero : (size index : ℕ) (content : List A) → slices 0 size index content ≡ []
  unfolding slices
  slices_zero size index content = refl

  -- A slice and what is behind it.
  slice-append_drop :
      (index size : ℕ) (content : List A)
      → slice index (index + size) content ++ drop (index + size) content ≡ drop index content
  slice-append_drop index size content =
      let same : index + size - index ≡ size = omega arith in
      rw (same, ← drop-drop index size content) (take-append-drop size (drop index content))

  -- With enough fuel the slices from an index on are the rest of the content.
  slices-joined :
      (fuel size index : ℕ) (content : List A)
      → 0 < size
      → length content ≤ index + fuel
      → joined (slices fuel size index content) ≡ drop index content
  slices-joined zero size index content p h =
      rw (slices_done zero size index content (omega arith))
        (sym (drop_all index content (omega arith)))
  slices-joined (suc fuel) size index content p h = elim (dec_lt index (length content)) [
    | yes more ↦ rw (slices_more fuel size index content more) (
        ap (λ rest. slice index (index + size) content ++ rest)
          (slices-joined fuel size (index + size) content p (omega arith))
        ∙ slice-append_drop index size content)
    | no done ↦
        rw (slices_done (suc fuel) size index content (omega arith))
          (sym (drop_all index content (omega arith)))
  ]

  -- More fuel than the length of the content changes nothing.
  slices_fuel :
      (fuel more size index : ℕ) (content : List A)
      → 0 < size
      → length content ≤ index + fuel
      → slices (fuel + more) size index content ≡ slices fuel size index content
  slices_fuel zero more size index content p h =
      slices_done (zero + more) size index content (omega arith)
      ∙ sym (slices_done zero size index content (omega arith))
  slices_fuel (suc fuel) more size index content p h = elim (dec_lt index (length content)) [
    | yes left ↦
        let shifted : suc fuel + more ≡ suc (fuel + more) = omega arith in
        rw shifted (slices_more (fuel + more) size index content left)
        ∙ ap (λ rest. slice index (index + size) content ∷ rest)
            (slices_fuel fuel more size (index + size) content p (omega arith))
        ∙ sym (slices_more fuel size index content left)
    | no done ↦
        slices_done (suc fuel + more) size index content (omega arith)
        ∙ sym (slices_done (suc fuel) size index content (omega arith))
  ]

  -- A part fits, and is not empty.
  abbrev pub Fits : ℕ → List A → Type 0
  Fits size part = (1 ≤ length part) × (length part ≤ size)

  length-slice :
      (index size : ℕ) (content : List A)
      → 0 < size
      → index < length content
      → Fits size (slice index (index + size) content)
  length-slice index size content p h =
      let same : index + size - index ≡ size = omega arith in
      rw same (
        length-take_pos size (drop index content) p (omega (arith, length-drop index content)),
        length-take_le size (drop index content),
      )

  slices-Fits :
      (fuel size index : ℕ) (content : List A)
      → 0 < size
      → All (Fits size) (slices fuel size index content)
  slices-Fits zero size index content p = rw (slices_zero size index content) tt
  slices-Fits (suc fuel) size index content p = elim (dec_lt index (length content)) [
    | yes more ↦
        rw (slices_more fuel size index content more)
          (length-slice index size content p more, slices-Fits fuel size (index + size) content p)
    | no done ↦ rw (slices_done (suc fuel) size index content (omega arith)) tt
  ]

-- The parts that are sent are the content, joined in their order, for every positive size of a part; there
-- is at least one, and each has at least one code unit and at most as many as that size, except that an
-- empty content is one empty part.
pub content_parts-joined :
    (size : ℕ) (content : List ℕ)
    → 0 < size
    → (joined (content_parts size content) ≡ content)
      × (1 ≤ length (content_parts size content))
      × (All (Fits size) (content_parts size content)
          ⊎ ((content ≡ []) × (content_parts size content ≡ [] ∷ [])))
unfolding content_parts
content_parts-joined size content p =
    at_least_one (slices (length content) size 0 content)
      (slices-joined (length content) size 0 content p (omega arith))
      (slices-Fits (length content) size 0 content p)
  where
    at_least_one :
        (parts : List (List ℕ))
        → joined parts ≡ content
        → All (Fits size) parts
        → (joined (elim parts [ [] ↦ [] ∷ [] | part ∷ more ↦ part ∷ more ]) ≡ content)
          × (1 ≤ length (elim parts [ [] ↦ [] ∷ [] | part ∷ more ↦ part ∷ more ]))
          × (All (Fits size) (elim parts [ [] ↦ [] ∷ [] | part ∷ more ↦ part ∷ more ])
              ⊎ ((content ≡ [])
                  × (elim parts [ [] ↦ [] ∷ [] | part ∷ more ↦ part ∷ more ] ≡ [] ∷ [])))
    at_least_one [] e fits = (e, omega arith, inr (sym e, refl))
    at_least_one (part ∷ more) e fits = (e, omega arith, inl fits)

-- The loop over the slices ends after at most as many rounds as the content is long, for every positive
-- size: more fuel gives the same slices, which are the whole content.
pub slices-ends :
    (size more : ℕ) (content : List ℕ)
    → 0 < size
    → (slices (length content + more) size 0 content ≡ slices (length content) size 0 content)
      × (joined (slices (length content) size 0 content) ≡ content)
slices-ends size more content p = (
  slices_fuel (length content) more size 0 content p (omega arith),
  slices-joined (length content) size 0 content p (omega arith),
)

-- The binary string that is encoded holds the bytes of the file, in their order.
pub binary_string_lem : (bytes : List ℕ) → binary_string bytes ≡ bytes
unfolding binary_string
binary_string_lem bytes = slices-joined (length bytes) 32768 0 bytes (omega arith) (omega arith)

round_div-le : (a b total : ℕ) → 0 < total → a ≤ b → round_div a total ≤ round_div b total
round_div-le a b total p h =
    (le-div_iff_mul-le {k = 2 * total} (omega arith)).1
      (omega (arith, div-mul-le_self (2 * a + total) (2 * total)))

round_div_bound : (a total : ℕ) → 0 < total → a ≤ total * 92 → round_div a total ≤ 92
round_div_bound a total p h =
    let below : round_div a total < 93 =
      (div-lt_iff_lt-mul {k = 2 * total} (omega arith)).1 (omega arith) in
    omega arith

-- The progress after each part is at least 5 and at most 92 percent, and never less than after the part
-- before it.
pub part_progress-bounds :
    (index total : ℕ)
    → suc index ≤ total
    → (5 ≤ part_progress index total)
      × (part_progress index total ≤ 92)
      × (part_progress (index - 1) total ≤ part_progress index total)
unfolding part_progress
part_progress-bounds index total h =
    capped (round_div (suc index * 92) total) (round_div (suc (index - 1) * 92) total)
      (round_div_bound (suc index * 92) total (omega arith) (omega arith))
      (round_div-le (suc (index - 1) * 92) (suc index * 92) total (omega arith) (omega arith))
  where
    capped :
        (done before : ℕ)
        → done ≤ 92
        → before ≤ done
        → (5 ≤ (if ltb done 5 then 5 else done))
          × ((if ltb done 5 then 5 else done) ≤ 92)
          × ((if ltb before 5 then 5 else before) ≤ (if ltb done 5 then 5 else done))
    capped done before h g = (ground arith, ground arith, ground arith)
