-- ===== src/Contracts/Pages.antt =====
-- The two readers of paginations agree on the replies of the API.
use codex_memory.Prelude.{◌≡◌, refl, ◌⊎◌, true, false, arith, inl, inr, ◌||◌}
use codex_memory.Js.{
  Runtime, Value, undefined, null, num, bool, obj, Fields, get, prop, is_nullish, truthy, ◌or◌,
  ◌otherwise◌,
}
use codex_memory.TaskRuns
use codex_memory.TaskRuns.{Pagination}
use codex_memory.Contracts

module _ ⦃rt : Runtime⦄ where
  open rt use {Number, number_of}

  -- Neither `0`, `NaN`, `false` nor an empty text.
  abbrev pub IsPlainly : Value Number → Type 0
  IsPlainly v = (truthy v || is_nullish v) ≡ true

  or-otherwise : (a b : Value Number) → IsPlainly a → (a or b) ≡ (a otherwise b)
  or-otherwise undefined b h = refl
  or-otherwise null b h = refl
  or-otherwise a b h = ground arith

  or-otherwise_zero :
      (a : Value Number) (zero : Number)
      → IsPlainly a ⊎ (a ≡ num zero)
      → (a or num zero) ≡ (a otherwise num zero)
  or-otherwise_zero a zero (inl h) = or-otherwise a (num zero) h
  or-otherwise_zero a zero (inr h) = rw h (ground arith)

  or_falsy :
      (a b : Value Number) → truthy b ≡ false → (c : Value Number) → ((a or b) or c) ≡ (a or c)
  or_falsy a b h c = ground arith

  has_next_same :
      (a b : Value Number)
      → is_nullish b ≡ true
      → truthy ((a otherwise b) otherwise bool false) ≡ truthy a
  has_next_same undefined b h = ground arith
  has_next_same null b h = ground arith
  has_next_same a b h = refl

  -- On a reply whose meta data hold no pagination of their own and no camel-case names, and where
  -- page, page size and total are neither falsy nor absent in part, both readers give one result.
  pub extract_pagination_agree :
      (meta : Fields Number) (page page_size : Value Number) (payload : Value Number)
      → prop "meta" payload ≡ obj meta
      → truthy (get "pagination" meta) ≡ false
      → truthy (get "pageSize" meta) ≡ false
      → is_nullish (get "hasNext" meta) ≡ true
      → IsPlainly (get "page" meta)
      → IsPlainly (get "page_size" meta)
      → (IsPlainly (get "total" meta)) ⊎ (get "total" meta ≡ num (number_of "0"))
      → Contracts.extract_pagination payload page page_size
        ≡ TaskRuns.extract_pagination payload page page_size
  unfolding Contracts.extract_pagination TaskRuns.extract_pagination
  extract_pagination_agree meta page page_size payload m p q r s t u =
      rw
        (
          m,
          p,
          or_falsy (get "page_size" meta) (get "pageSize" meta) q page_size,
          or-otherwise (get "page" meta) page s,
          or-otherwise (get "page_size" meta) page_size t,
          or-otherwise_zero (get "total" meta) (number_of "0") u,
          has_next_same (get "has_next" meta) (get "hasNext" meta) r,
        )
        refl
