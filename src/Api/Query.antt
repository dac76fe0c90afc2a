-- ===== src/Api/Query.antt =====
-- `appendQuery`: which pairs a request's parameters become.
use codex_memory.Prelude.{
  ◌≡◌, refl, sym, ◌==◌, Bool, true, false, ◌||◌, String, List, [], ◌∷◌, ◌++◌, map, append_assoc,
  append-nil, arith, eq_iff, eq_refl, if◌then◌else◌, any, Bool-cases, inl, inr, ◌≡⟨◌⟩◌, ◌∎, ap,
}
use codex_memory.Js.{
  Runtime, Value, undefined, null, str, arr, Fields, end, field, has, items, to_text,
}
use codex_memory.Api.{SearchParams, set_param, append_items, append_entry, append_query}

-- An object has each key once.
abbrev pub Unique : {N : Type 0} → Fields N → Type 0
Unique end = Unit
Unique (field k v fs) = (has k fs ≡ false) × Unique fs

abbrev pub has_key : String → SearchParams → Bool
has_key k pairs = any (λ p. p.0 == k) pairs

has_key-append :
    (k : String) (xs ys : SearchParams) → has_key k (xs ++ ys) ≡ (has_key k xs || has_key k ys)
has_key-append k [] ys = refl
has_key-append k ((j, v) ∷ xs) ys = ground (arith, has_key-append k xs ys)

set_param_fresh :
    (k v : String) (pairs : SearchParams)
    → has_key k pairs ≡ false
    → set_param k v pairs ≡ pairs ++ (k, v) ∷ []
unfolding set_param
set_param_fresh k v [] h = refl
set_param_fresh k v ((j, w) ∷ pairs) h = ground (arith, set_param_fresh k v pairs)

module _ ⦃rt : Runtime⦄ where
  open rt use {Number}

  -- The pairs of one parameter: none for an absent or empty one, one for each item of an array.
  abbrev pub pairs_of : String → Value Number → SearchParams
  pairs_of k undefined = []
  pairs_of k null = []
  pairs_of k (arr xs) = map (λ item. (k, to_text item)) (items xs)
  pairs_of k (str s) = if s == "" then [] else (k, s) ∷ []
  pairs_of k v = (k, to_text v) ∷ []

  abbrev pub query_of : Fields Number → SearchParams
  query_of end = []
  query_of (field k v fs) = pairs_of k v ++ query_of fs

  append_items_lem :
      (k : String) (xs : List (Value Number)) (pairs : SearchParams)
      → append_items k xs pairs ≡ pairs ++ map (λ item. (k, to_text item)) xs
  unfolding append_items
  append_items_lem k [] pairs = sym (append-nil pairs)
  append_items_lem k (x ∷ xs) pairs = simp (append_items_lem k xs, append_assoc)

  append_entry_fresh :
      (k : String) (v : Value Number) (pairs : SearchParams)
      → has_key k pairs ≡ false
      → append_entry k v pairs ≡ pairs ++ pairs_of k v
  unfolding append_entry
  append_entry_fresh k undefined pairs h = sym (append-nil pairs)
  append_entry_fresh k null pairs h = sym (append-nil pairs)
  append_entry_fresh k (arr xs) pairs h = append_items_lem k (items xs) pairs
  append_entry_fresh k (str s) pairs h = elim (Bool-cases (s == "")) [
    | inl empty ↦ rw empty (sym (append-nil pairs))
    | inr full ↦ rw full (set_param_fresh k s pairs h)
  ]
  append_entry_fresh k v pairs h = set_param_fresh k _ pairs h

  has_key-map :
      (j k : String) (xs : List (Value Number))
      → (k == j) ≡ false
      → has_key j (map (λ item. (k, to_text item)) xs) ≡ false
  has_key-map j k [] h = refl
  has_key-map j k (x ∷ xs) h = ground (arith, has_key-map j k xs)

  has_key-pairs_of :
      (j k : String) (v : Value Number) → (k == j) ≡ false → has_key j (pairs_of k v) ≡ false
  has_key-pairs_of j k undefined h = refl
  has_key-pairs_of j k null h = refl
  has_key-pairs_of j k (arr xs) h = has_key-map j k (items xs) h
  has_key-pairs_of j k (str s) h = ground arith
  has_key-pairs_of j k v h = ground arith

  -- No parameter of the object is in the query yet.
  abbrev pub IsFresh : SearchParams → Fields Number → Type 0
  IsFresh pairs params = (j : String) → has j params ≡ true → has_key j pairs ≡ false

  IsFresh-append :
      (pairs : SearchParams) (k : String) (v : Value Number) (params : Fields Number)
      → has k params ≡ false
      → IsFresh pairs (field k v params)
      → IsFresh (pairs ++ pairs_of k v) params
  unfolding has
  IsFresh-append pairs k v params once fresh j h = elim (Bool-cases (k == j)) [
    | inl same ↦ absurd (ground (arith, eq_iff k j))
    | inr other ↦
        rw (has_key-append j pairs (pairs_of k v), has_key-pairs_of j k v other)
          (ground (arith, fresh j))
  ]

  -- For an object of parameters whose keys are not in the query yet, `appendQuery` adds exactly
  -- the pairs of each parameter, in their order: none for `undefined`, `null` and the empty text,
  -- one for each item of an array, one for anything else.
  pub append_query-eq-append :
      (pairs : SearchParams) (params : Fields Number)
      → Unique params
      → IsFresh pairs params
      → append_query pairs params ≡ pairs ++ query_of params
  unfolding append_query has
  append_query-eq-append pairs end u fresh = sym (append-nil pairs)
  append_query-eq-append pairs (field k v more) (once, u) fresh =
      append_query (append_entry k v pairs) more
      ≡⟨ ap (λ ps. append_query ps more) (append_entry_fresh k v pairs (fresh k (rw (eq_refl k)))) ⟩
        append_query (pairs ++ pairs_of k v) more
      ≡⟨ append_query-eq-append (pairs ++ pairs_of k v) more u
          (IsFresh-append pairs k v more once fresh) ⟩
        (pairs ++ pairs_of k v) ++ query_of more
      ≡⟨ append_assoc pairs (pairs_of k v) (query_of more) ⟩ pairs ++ query_of (field k v more) ∎
