-- ===== src/Format/Labels.antt =====
-- What the tables of labels answer.

use codex_memory.Prelude.{
  ◌≡◌, refl, ◌≢◌, ◌↔◌, inl, inr, ◌==◌, Bool, true, false, not, ◌&&◌, String, List, [], ◌∷◌, Result,
  ok, throw, Bool-cases, eq_iff, all, any,
}
use codex_memory.Js.{Runtime, Value, str, truthy, ◌or◌}
use codex_memory.Contracts.{Fault}
use codex_memory.Contracts
use codex_memory.Format.Tables.{Meta, status_map}
use codex_memory.Format.{
  Entry, entry, inherited, missing, inherited_names, is_inherited, lookup, status_key, status_meta,
  status_fallback, Status,
}

-- The entry that a table has itself, tested.
entry_passes {ℓ} : {A : Type ℓ} → (A → Bool) → Entry A → Bool
entry_passes p (entry a) = p a
entry_passes p inherited = true
entry_passes p missing = true

and_parts : (a b : Bool) → a && b ≡ true → (a ≡ true) × (b ≡ true)
and_parts true b e = (refl, e)
and_parts false b e = cc

lookup_passes {ℓ} :
    {A : Type ℓ} (p : A → Bool) (table : List (String × A)) (key : String)
    → all (λ t. p t.1) table ≡ true
    → entry_passes p (lookup table key) ≡ true
unfolding lookup entry_passes
lookup_passes p [] key e = elim (Bool-cases (is_inherited inherited_names key)) [
  | inl own ↦ rw own refl
  | inr other ↦ rw other refl
]
lookup_passes p ((k, a) ∷ table) key e = elim (Bool-cases (k == key)) [
  | inl here ↦ rw here (and_parts (p a) _ e).0
  | inr later ↦ rw later (lookup_passes p table key (and_parts (p a) _ e).1)
]

-- The status table has no key of `Object.prototype`.
abbrev is_own : {A : Type 0} → String × A → Bool
is_own t = not (is_inherited inherited_names t.0)

status_keys_own : all is_own status_map ≡ true
unfolding status_map is_inherited inherited_names
status_keys_own = refl

entry_ne : {A : Type 0} (a : A) → entry a ≢ inherited
entry_ne a e = cc

missing_ne : {A : Type 0} → ◌≢◌ {A = Entry A} missing inherited
missing_ne e = cc

lookup_inherited :
    {A : Type 0} (table : List (String × A)) (key : String)
    → all is_own table ≡ true
    → (lookup table key ≡ inherited) ↔ (is_inherited inherited_names key ≡ true)
unfolding lookup
lookup_inherited [] key e = elim (Bool-cases (is_inherited inherited_names key)) [
  | inl own ↦ rw own (λ x. refl, λ x. refl)
  | inr other ↦ rw other (λ x. absurd (missing_ne x), λ x. cc)
]
lookup_inherited ((k, a) ∷ table) key e = elim (Bool-cases (k == key)) [
  | inl here ↦ rw here (
    λ x. absurd (entry_ne a x),
    λ x.
        absurd
          (not_own x (and_parts (is_own (k, a)) (all is_own table) e).0 ((eq_iff k key).0 here)),
  )
  | inr later ↦ rw later (lookup_inherited table key (and_parts (is_own (k, a)) _ e).1)
]
  where
    not_own :
        is_inherited inherited_names key ≡ true
        → not (is_inherited inherited_names k) ≡ true
        → k ≡ key
        → ⊥
    not_own x y same = falsity (is_inherited inherited_names key) x (rw same at y)
      where
        falsity : (b : Bool) → b ≡ true → not b ≡ true → ⊥
        falsity true x y = cc
        falsity false x y = cc

-- The types of Element Plus's tags.
tag_types : List String
tag_types = "success" ∷ "primary" ∷ "warning" ∷ "danger" ∷ "info" ∷ []

pub is_tag : String → Bool
unfolding tag_types
is_tag t = any (λ u. u == t) tag_types

module _ ⦃rt : Runtime⦄ where
  open rt use {Number}

  throws_at : (en : Entry Meta) (v : Value Number) (fallback_label : String) → Result Fault Status
  throws_at en v fallback_label = elim en [
    | entry m ↦ ok (record { status = status_key v; label = str m.label; type = m.type })
    | inherited ↦ throw Contracts.type_error
    | missing ↦ ok (record {
      status = status_key v;
      label = status_fallback v fallback_label or str "未知";
      type = "info";
    })
  ]

  throws_at_iff :
      (en : Entry Meta) (v : Value Number) (fallback_label : String)
      → (throws_at en v fallback_label ≡ throw Contracts.type_error) ↔ (en ≡ inherited)
  unfolding throws_at
  throws_at_iff (entry m) v fallback_label = (λ e. cc, λ e. cc)
  throws_at_iff inherited v fallback_label = (λ e. refl, λ e. refl)
  throws_at_iff missing v fallback_label = (λ e. cc, λ e. cc)

  -- `statusMeta` fails exactly on a status whose lower case is a name that every object inherits,
  -- such as `constructor`.
  pub status_meta-throws_iff :
      (v : Value Number) (fallback_label : String)
      → (status_meta v fallback_label ≡ throw Contracts.type_error)
        ↔ (is_inherited inherited_names (status_key v) ≡ true)
  unfolding status_meta throws_at
  status_meta-throws_iff v fallback_label =
      let (there, back) = throws_at_iff (lookup status_map (status_key v)) v fallback_label in
      let (named, own) = lookup_inherited status_map (status_key v) status_keys_own in
      (λ e. named (there e), λ e. back (own e))

  is_complete : Meta → Bool
  unfolding is_tag
  is_complete m = not (m.label == "") && is_tag m.type

  statuses_complete : all (λ t. is_complete t.1) status_map ≡ true
  unfolding status_map is_complete is_tag tag_types
  statuses_complete = refl

  -- On a status whose lower case is no name that every object inherits, `statusMeta` gives the status
  -- in lower case, a label that is not empty, and one of the five types of a tag.
  pub status_meta_complete :
      (v : Value Number) (fallback_label : String)
      → is_inherited inherited_names (status_key v) ≡ false
      → (s : Status) × (status_meta v fallback_label ≡ ok s)
        × (s.status ≡ status_key v)
        × (truthy s.label ≡ true)
        × (is_tag s.type ≡ true)
  unfolding status_meta entry_passes is_complete is_tag tag_types
  status_meta_complete v fallback_label other =
      go (lookup status_map (status_key v)) refl
        (lookup_passes is_complete status_map (status_key v) statuses_complete)
    where
      labelled : (w : Value Number) → truthy (w or str "未知") ≡ true
      labelled w = elim (Bool-cases (truthy w)) [
        | inl full ↦ rw full full
        | inr empty ↦ rw empty refl
      ]

      go :
          (en : Entry Meta)
          → lookup status_map (status_key v) ≡ en
          → entry_passes is_complete en ≡ true
          → (s : Status) × (status_meta v fallback_label ≡ ok s)
            × (s.status ≡ status_key v)
            × (truthy s.label ≡ true)
            × (is_tag s.type ≡ true)
      go (entry m) e complete =
          let (full, tag) = and_parts (not (m.label == "")) (is_tag m.type) complete in
          (
            record { status = status_key v; label = str m.label; type = m.type },
            rw (e, status_meta) refl,
            refl,
            full,
            tag,
          )
      go inherited e complete =
          absurd (clash ((lookup_inherited status_map (status_key v) status_keys_own).0 e))
        where
          clash : is_inherited inherited_names (status_key v) ≢ true
          clash x = cc
      go missing e complete = (
        record {
          status = status_key v;
          label = status_fallback v fallback_label or str "未知";
          type = "info";
        },
        rw (e, status_meta) refl,
        refl,
        labelled (status_fallback v fallback_label),
        refl,
      )
