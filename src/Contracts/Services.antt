-- ===== src/Contracts/Services.antt =====
-- What a normalised contract service reads.
use codex_memory.Prelude.{
  ◌≡◌, refl, ◌⊎◌, sym, ◌∙◌, ap, ◌≢◌, ◌==◌, true, false, String, Result, ok, throw, ◌>>=◌, ◌↔◌,
  arith, eq_iff, if◌then◌else◌, Bool-cases, inl, inr,
}
use codex_memory.Js.{
  Runtime, Value, null, str, arr, obj, Items, nil, cons, Fields, get, set, prop, is_nullish,
  is_object, truthy, ◌or◌, ◌otherwise◌, copied,
}
use codex_memory.Js.Reads.{get-set}
use codex_memory.Contracts.{
  Fault, array_items, find_revision, service_source, derived_status, normalize_source,
  normalize_contract_service,
}

module _ ⦃rt : Runtime⦄ where
  open rt use {Number}

  -- The revision that the code takes for the published one.
  abbrev pub search_of : Fields Number → Result Fault (Value Number)
  search_of source =
      find_revision (get "current_published_revision_id" source)
        (array_items (get "revisions" source))

  abbrev status_in : Fields Number → Value Number
  status_in source =
      get "status" source or derived_status source (array_items (get "revisions" source))

  abbrev number_in : Fields Number → Value Number → Value Number
  number_in source current =
      get "published_revision_number" source
      otherwise (prop "revision_number" current otherwise null)

  -- The source with its three properties replaced.
  abbrev settled : Fields Number → Value Number → Fields Number
  settled source current = set "published_revision_number" (number_in source current) (
      set "status" (status_in source)
        (set "revisions" (arr (array_items (get "revisions" source))) source))

  normalize_source_ok :
      (source : Fields Number) (current : Value Number)
      → search_of source ≡ ok current
      → normalize_source source ≡ ok (settled source current)
  unfolding normalize_source
  normalize_source_ok source current h = rw h refl

  derived_status-truthy :
      (source : Fields Number) (xs : Items Number) → truthy (derived_status source xs) ≡ true
  derived_status-truthy source nil = ground arith
  derived_status-truthy source (cons x xs) = ground arith

  or-truthy : (a b : Value Number) → truthy b ≡ true → truthy (a or b) ≡ true
  or-truthy a b h = ground arith

  module _ (source : Fields Number) (current : Value Number) where
    get-settled :
        (k : String)
        → get k (settled source current) ≡ (
            if "published_revision_number" == k
            then number_in source current
            else if "status" == k
            then status_in source
            else if "revisions" == k
            then arr (array_items (get "revisions" source))
            else get k source)
    get-settled k = simp get-set

    -- Reading the settled source once more changes nothing.
    search-settled : search_of (settled source current) ≡ search_of source
    search-settled = rw (get-settled "current_published_revision_id", get-settled "revisions") refl

    status-settled : status_in (settled source current) ≡ status_in source
    status-settled =
        rw
          (
            get-settled "status",
            or-truthy (get "status" source)
                (derived_status source (array_items (get "revisions" source)))
                (derived_status-truthy source (array_items (get "revisions" source))),
          )
          refl

    otherwise-null :
        (a b : Value Number)
        → ((a otherwise (b otherwise null)) otherwise (b otherwise null))
          ≡ (a otherwise (b otherwise null))
    otherwise-null a b = ground arith

    number-settled : number_in (settled source current) current ≡ number_in source current
    number-settled = rw (get-settled "published_revision_number") (otherwise-null _ _)

  normalize_source_inv :
      (source service : Fields Number)
      → normalize_source source ≡ ok service
      → (current : Value Number) × (search_of source ≡ ok current)
        × (service ≡ settled source current)
  unfolding normalize_source
  normalize_source_inv source service h = go (search_of source) refl h
    where
      go :
          (found : Result Fault (Value Number))
          → search_of source ≡ found
          → (found >>= λ current. ok (settled source current)) ≡ ok service
          → (current : Value Number) × (search_of source ≡ ok current)
            × (service ≡ settled source current)
      go (ok current) e h = (current, e, cc)
      go (throw f) e h = absurd (cc)

  settled_again :
      (source : Fields Number) (current : Value Number)
      → search_of source ≡ ok current
      → (again : Fields Number) × (normalize_source (settled source current) ≡ ok again)
        × ((k : String) → get k again ≡ get k (settled source current))
  settled_again source current h = (
    settled (settled source current) current,
    normalize_source_ok (settled source current) current (search-settled source current ∙ h),
    λ k.
        get-settled (settled source current) current k
        ∙ rw
            (
              status-settled source current,
              number-settled source current,
              get-settled source current "revisions",
            )
            (ground (
              arith,
              get-settled source current k,
              eq_iff "published_revision_number" k,
              eq_iff "status" k,
              eq_iff "revisions" k,
            )),
  )

  service_source_bare :
      (service : Fields Number)
      → is_object (get "service" service) ≡ false
      → service_source (obj service) ≡ service
  unfolding service_source copied
  service_source_bare service h = rw h refl

  -- A service that was read from a reply, where it does not itself wrap a service, is read again
  -- without an error and with the same value at every property.
  pub normalize_service_again :
      (value : Value Number) (service : Fields Number)
      → normalize_contract_service value ≡ ok service
      → is_object (get "service" service) ≡ false
      → (again : Fields Number) × (normalize_contract_service (obj service) ≡ ok again)
        × ((k : String) → get k again ≡ get k service)
  unfolding normalize_contract_service
  normalize_service_again value service h bare =
      let (current, found, same) = normalize_source_inv (service_source value) service h in
      let (again, ran, reads) = settled_again (service_source value) current found in
      (again, rw (service_source_bare service bare, same) ran, λ k. reads k ∙ ap (get k) (sym same))

  status_in-truthy : (source : Fields Number) → truthy (status_in source) ≡ true
  status_in-truthy source =
      or-truthy (get "status" source) (derived_status source (array_items (get "revisions" source)))
        (derived_status-truthy source (array_items (get "revisions" source)))

  derived-published_iff :
      (source : Fields Number) (xs : Items Number)
      → (derived_status source xs ≡ str "published")
        ↔ (is_nullish (get "current_published_revision_id" source) ≡ false)
  derived-published_iff source nil = ground (arith, eq_iff "empty" "published")
  derived-published_iff source (cons x xs) = ground (arith, eq_iff "proposed" "published")

  -- In a service that was read, the revisions are an array, the status is never falsy, and all
  -- other properties but the published revision number are those of the reply. The status is the
  -- reply's where it has one, and else "published" exactly if there is a published revision's id.
  pub normalize_reads :
      (value : Value Number) (service : Fields Number) (k : String)
      → normalize_contract_service value ≡ ok service
      → k ≢ "published_revision_number"
      → k ≢ "status"
      → k ≢ "revisions"
      → (get "revisions" service ≡ arr (array_items (get "revisions" (service_source value))))
        × (truthy (get "status" service) ≡ true)
        × (((truthy (get "status" (service_source value)) ≡ true)
              × (get "status" service ≡ get "status" (service_source value)))
            ⊎ ((truthy (get "status" (service_source value)) ≡ false)
                × ((get "status" service ≡ str "published") ↔ (
                    is_nullish (get "current_published_revision_id" (service_source value))
                    ≡ false))))
        × (get k service ≡ get k (service_source value))
  unfolding normalize_contract_service
  normalize_reads value service k h p q r =
      let (current, found, same) = normalize_source_inv (service_source value) service h in
      let source = service_source value in
      let reads = get-settled source current in
      rw same (
        reads "revisions",
        rw (reads "status") (status_in-truthy source),
        elim (Bool-cases (truthy (get "status" source))) [
          | inl own_status ↦ inl (own_status, rw (reads "status") (rw own_status refl))
          | inr no_status ↦
              inr (no_status, rw (reads "status") (rw no_status (derived-published_iff source _)))
        ],
        rw (reads k) (
            ground (
              arith,
              eq_iff "published_revision_number" k,
              eq_iff "status" k,
              eq_iff "revisions" k,
            )),
      )
