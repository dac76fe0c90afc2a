-- ===== src/Contracts/Publishing.antt =====
-- When a revision may be published.
use codex_memory.Prelude.{◌≡◌, refl, ◌↔◌, true, false, String, arith, eq_iff, ap}
use codex_memory.Js.{Runtime, Value, str, arr, Items, nil, cons, Fields, get, prop, is_text, truthy}
use codex_memory.Contracts.{
  validation_of, first_array, array_items, is_array, is_empty, can_publish_contract_revision,
}

module _ ⦃rt : Runtime⦄ where
  open rt use {Number}

  -- A proposed revision with a content hash, without an error in the list that counts: the one of
  -- its validation, or the revision's own where that is no array.
  pub record IsPublishable (revision : Fields Number) : Type 0 where
    pub proposed : get "status" revision ≡ str "proposed"
    pub hashed : truthy (get "content_hash" revision) ≡ true
    pub clean : (xs : Items Number) → prop "errors" (validation_of revision) ≡ arr xs → xs ≡ nil
    pub own_clean :
        is_array (prop "errors" (validation_of revision)) ≡ false
        → (xs : Items Number) → get "validation_errors" revision ≡ arr xs
        → xs ≡ nil

  pub is_text-str : (t : String) (v : Value Number) → is_text t v ≡ true → v ≡ str t
  is_text-str t (str s) h = ap str ((eq_iff s t).0 h)
  is_text-str t v h = cc

  is_empty_iff : (xs : Items Number) → is_empty xs ≡ true → xs ≡ nil
  is_empty_iff nil h = refl
  is_empty_iff (cons x xs) h = cc

  first_array-empty :
      (a b : Value Number)
      → is_empty (first_array a b) ≡ true
      → ((xs : Items Number) → a ≡ arr xs → xs ≡ nil)
        × (is_array a ≡ false → (xs : Items Number) → b ≡ arr xs → xs ≡ nil)
  first_array-empty (arr xs) b h = (λ ys e. ground (arith, is_empty_iff xs h), λ e. cc)
  first_array-empty a (arr ys) h =
      (λ xs e. absurd (cc), λ e zs p. ground (arith, is_empty_iff ys h))
  first_array-empty a b h = (λ xs e. absurd (cc), λ e zs p. absurd (cc))

  array_items-empty :
      (b : Value Number)
      → ((xs : Items Number) → b ≡ arr xs → xs ≡ nil)
      → is_empty (array_items b) ≡ true
  array_items-empty (arr xs) p = rw (p xs refl) refl
  array_items-empty b p = refl

  empty-first_array :
      (a b : Value Number)
      → ((xs : Items Number) → a ≡ arr xs → xs ≡ nil)
      → (is_array a ≡ false → (xs : Items Number) → b ≡ arr xs → xs ≡ nil)
      → is_empty (first_array a b) ≡ true
  empty-first_array (arr xs) b p q = rw (p xs refl) refl
  empty-first_array a b p q = array_items-empty b (q refl)

  -- `canPublishContractRevision` holds exactly for a proposed revision with a content hash and without
  -- an error in the list that counts: the one of its validation, or the revision's own where the
  -- validation has no array of errors.
  pub can_publish_iff :
      (revision : Fields Number)
      → (can_publish_contract_revision revision ≡ true) ↔ IsPublishable revision
  unfolding can_publish_contract_revision
  can_publish_iff revision = (
    λ h.
        let clean =
          first_array-empty (prop "errors" (validation_of revision))
            (get "validation_errors" revision) (ground arith) in
        record {
          proposed = is_text-str "proposed" (get "status" revision) (ground arith);
          hashed = ground arith;
          clean = clean.0;
          own_clean = clean.1;
        },
    λ v.
        rw (v.proposed, v.hashed)
          (empty-first_array (prop "errors" (validation_of revision))
            (get "validation_errors" revision) v.clean v.own_clean),
  )
