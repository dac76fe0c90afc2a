-- ===== src/Context/Selection.antt =====
-- The selected project and the scopes shown with it.
use codex_memory.Prelude.{
  ℕ, ◌≡◌, refl, ◌≢◌, ◌⊎◌, inl, inr, ◌+◌, Bool, true, false, not, ◌&&◌, ◌||◌, ◌==◌, String, some,
  List, [], ◌∷◌, ◌++◌, arith, nat_eq, eq_iff,
}
use codex_memory.Js.{Runtime, Value, Items, nil, end, str, arr, prop, to_text, is_nullish}
use codex_memory.Session.{replied}
use codex_memory.Context.{
  for_scopes, Pending, Context, take_call, send, data_items, finish, select_project, select_key,
  project_selected, answered, step, is_filled, scopes_path, page_params,
}

module _ ⦃rt : Runtime⦄ where
  open rt use {Number}

  abbrev request : String → Context Number → Pending Number
  request key s = record {
    id = s.next_id;
    purpose = for_scopes;
    path = scopes_path key;
    params = page_params end;
  }

  -- The store after a selection that is not skipped.
  selecting : String → Context Number → Context Number
  selecting key s =
      send for_scopes (scopes_path key) (page_params end)
        (record s { project_key = key; scope_id = ""; scopes = nil; loading_scopes = true })

  guard_fails :
      (force same settled : Bool)
      → (force ≡ true) ⊎ (same ≡ false)
      → not force && same && settled ≡ false
  guard_fails true same settled h = refl
  guard_fails false true settled (inl e) = cc
  guard_fails false true settled (inr e) = cc
  guard_fails false false settled h = refl

  differs : (key other : String) → key ≢ other → key == other ≡ false
  differs key other ne = ground (arith, eq_iff key other)

  select_key-sends :
      (key : String) (force : Bool) (s : Context Number)
      → key ≢ ""
      → (force ≡ true) ⊎ (key ≢ s.project_key)
      → select_key key force s ≡ selecting key s
  unfolding select_key selecting
  select_key-sends key force s full fresh =
      rw (guard_fails force (key == s.project_key) (is_filled s.scopes || key == "") (either fresh))
        (simp (differs key "" full))
    where
      either :
          (force ≡ true) ⊎ (key ≢ s.project_key) → (force ≡ true) ⊎ (key == s.project_key ≡ false)
      either (inl e) = inl e
      either (inr ne) = inr (differs key s.project_key ne)

  select_project-sends :
      (key : String) (force : Bool) (s : Context Number)
      → key ≢ ""
      → (force ≡ true) ⊎ (key ≢ s.project_key)
      → select_project (str key) force s ≡ selecting key s
  unfolding select_project to_text
  select_project-sends key force s full fresh =
      simp (differs key "" full) (select_key-sends key force s full fresh)

  data_items-arr :
      (payload : Value Number) (found : Items Number)
      → is_nullish payload ≡ false
      → prop "data" payload ≡ arr found
      → data_items payload ≡ some found
  unfolding data_items
  data_items-arr payload found full data_found = rw (full, data_found) refl

  answer_step :
      (s : Context Number) (id : ℕ) (payload : Value Number) (found : Items Number)
      (c : Pending Number) (rest : List (Pending Number))
      → take_call id s.calls ≡ some (c, rest)
      → c.purpose ≡ for_scopes
      → data_items payload ≡ some found
      → step s (answered id (replied payload))
        ≡ record s { scopes = found; loading_scopes = false; calls = rest }
  unfolding step finish
  answer_step s id payload found c rest e purpose data_found =
      rw (e, step) (rw (purpose, finish) (rw data_found refl))

  nat_eq_refl : (n : ℕ) → nat_eq n n ≡ true
  nat_eq_refl n = ground arith

  nat_eq_suc : (n : ℕ) → nat_eq n (n + 1) ≡ false
  nat_eq_suc n = ground arith

  take_last :
      (calls : List (Pending Number)) (c : Pending Number)
      → calls ≡ []
      → take_call c.id (calls ++ c ∷ []) ≡ some (c, [])
  unfolding take_call
  take_last calls c e = rw (e, nat_eq_refl c.id) refl

  -- A project that is selected while no request is in flight, by force or because it is another one,
  -- and whose request is answered with an array of scopes before anything else happens: the store
  -- then has that project, its scopes, no scope selected and nothing in flight.
  pub select_project-answered :
      (key : String) (force : Bool) (s : Context Number) (payload : Value Number)
      (found : Items Number)
      → key ≢ ""
      → (force ≡ true) ⊎ (key ≢ s.project_key)
      → s.calls ≡ []
      → is_nullish payload ≡ false
      → prop "data" payload ≡ arr found
      → let t =
          step (step s (project_selected (str key) force)) (answered s.next_id (replied payload)) in
        (t.project_key ≡ key)
        × (t.scopes ≡ found)
        × (t.scope_id ≡ "")
        × (t.loading_scopes ≡ false)
        × (t.calls ≡ [])
  unfolding step selecting send
  select_project-answered key force s payload found full fresh idle present data_found =
      simp (select_project-sends key force s full fresh) (
        ends (
          answer_step (selecting key s) s.next_id payload found (request key s) []
            (take_last s.calls (request key s) idle) refl
            (data_items-arr payload found present data_found)))
    where
      ends :
          {t : Context Number}
          → t ≡ record (selecting key s) { scopes = found; loading_scopes = false; calls = [] }
          → (t.project_key ≡ key)
            × (t.scopes ≡ found)
            × (t.scope_id ≡ "")
            × (t.loading_scopes ≡ false)
            × (t.calls ≡ [])
      ends e = simp e (refl, refl, refl, refl, refl)

  take_second :
      (calls : List (Pending Number)) (c d : Pending Number)
      → calls ≡ []
      → nat_eq c.id d.id ≡ false
      → take_call d.id ((calls ++ c ∷ []) ++ d ∷ []) ≡ some (d, c ∷ [])
  unfolding take_call
  take_second calls c d e ne = rw (e, ne, nat_eq_refl d.id) refl

  -- A project that is selected while the scopes of another are on their way, the answers arriving in
  -- the opposite order of the requests: the store ends with the second project and the first
  -- project's scopes, and neither an error nor a request in flight tells so.
  pub select_project-overtaken :
      (key other : String) (s : Context Number) (payload late : Value Number)
      (found stale : Items Number)
      → key ≢ ""
      → other ≢ ""
      → key ≢ s.project_key
      → other ≢ key
      → s.calls ≡ []
      → is_nullish payload ≡ false
      → prop "data" payload ≡ arr found
      → is_nullish late ≡ false
      → prop "data" late ≡ arr stale
      → let two =
          step (step s (project_selected (str key) false)) (project_selected (str other) false) in
        let t =
          step
            (step two (answered (s.next_id + 1) (replied payload)))
            (answered s.next_id (replied late)) in
        (t.project_key ≡ other)
        × (t.scopes ≡ stale)
        × (t.error ≡ s.error)
        × (t.loading_scopes ≡ false)
        × (t.calls ≡ [])
  unfolding step selecting send
  select_project-overtaken key other s payload late found stale full full' fresh fresh' idle p pd l
        ld =
      simp
        (
          select_project-sends key false s full (inr fresh),
          select_project-sends other false (selecting key s) full' (inr fresh'),
        )
        (simp second (ends third))
    where
      two : Context Number
      two = selecting other (selecting key s)

      second :
          step two (answered (s.next_id + 1) (replied payload))
          ≡ record two { scopes = found; loading_scopes = false; calls = request key s ∷ [] }
      second =
          answer_step two (s.next_id + 1) payload found (request other (selecting key s))
            (request key s ∷ [])
            (take_second s.calls (request key s) (request other (selecting key s)) idle
              (nat_eq_suc s.next_id))
            refl (data_items-arr payload found p pd)

      third :
          step
            (record two { scopes = found; loading_scopes = false; calls = request key s ∷ [] })
            (answered s.next_id (replied late))
          ≡ record two { scopes = stale; loading_scopes = false; calls = [] }
      third =
          answer_step
            (record two { scopes = found; loading_scopes = false; calls = request key s ∷ [] })
            s.next_id late stale (request key s) [] (take_last [] (request key s) refl) refl
            (data_items-arr late stale l ld)

      ends :
          {t : Context Number}
          → t ≡ record two { scopes = stale; loading_scopes = false; calls = [] }
          → (t.project_key ≡ other)
            × (t.scopes ≡ stale)
            × (t.error ≡ s.error)
            × (t.loading_scopes ≡ false)
            × (t.calls ≡ [])
      ends e = simp e (refl, refl, refl, refl, refl)
