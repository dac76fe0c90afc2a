-- ===== src/Context/Loading.antt =====
-- The flags of the context store, while requests are answered in any order.
use codex_memory.Prelude.{
  ℕ, ◌≡◌, refl, ◌≢◌, Bool, true, false, not, ◌&&◌, ◌||◌, or-true, ◌==◌, String, Option, none, some,
  some-injective, List, [], ◌∷◌, ◌++◌, if◌then◌else◌, Bool-cases, Option-cases, inl, inr, any,
  any-append, sym, ap, ◌∙◌, nat_eq,
}
use codex_memory.Js.{Runtime, str, ◌or◌, to_text}
use codex_memory.Session.{Reply, replied, failed}
use codex_memory.Context.{
  Purpose, for_projects, for_scopes, Pending, Context, initial, take_call, send, reset, data_items,
  finish, load_projects, select_project, select_key, select_scope, Event, projects_loaded,
  project_selected, scope_selected, was_reset, answered, step, is_filled,
}

abbrev is_for : {N : Type 0} → Purpose → Pending N → Bool
is_for for_projects c = elim c.purpose [ for_projects ↦ true | for_scopes ↦ false ]
is_for for_scopes c = elim c.purpose [ for_projects ↦ false | for_scopes ↦ true ]

abbrev awaited : {N : Type 0} → Purpose → List (Pending N) → Bool
awaited purpose calls = any (is_for purpose) calls

-- Taking a request out leaves the others.
any-take_call :
    {N : Type 0} (p : Pending N → Bool) (id : ℕ) (calls : List (Pending N)) (c : Pending N)
    (rest : List (Pending N))
    → take_call id calls ≡ some (c, rest)
    → any p calls ≡ (p c || any p rest)
unfolding take_call
any-take_call p id [] c rest e = cc
any-take_call {N} p id (d ∷ calls) c rest e =
    go (nat_eq d.id id) (take_call id calls) (any-take_call p id calls) e
  where
    found_later :
        (f : Pending N) (r : List (Pending N)) → p d || (p f || any p r) ≡ p f || (p d || any p r)
    found_later f r = swapped (p d) (p f) (any p r)
      where
        swapped : (a b c : Bool) → a || (b || c) ≡ b || (a || c)
        swapped true true c = refl
        swapped true false c = refl
        swapped false b c = refl

    go :
        (b : Bool) (o : Option (Pending N × List (Pending N)))
        → ((f : Pending N) (r : List (Pending N))
            → o ≡ some (f, r)
            → any p calls ≡ (p f || any p r))
        → if◌then◌else◌ {A = Option (Pending N × List (Pending N))} b
            (some (d, calls))
            (elim o [ none ↦ none | some (f, r) ↦ some (f, d ∷ r) ])
          ≡ some (c, rest)
        → p d || any p calls ≡ p c || any p rest
    go true o later e = ap (λ t. p t.0 || any p t.1) (some-injective _ _ e)
    go false none later e = cc
    go false (some (f, r)) later e =
        ap (λ b. p d || b) (later f r refl)
        ∙ found_later f r
        ∙ ap (λ t. p t.0 || any p t.1) (some-injective _ _ e)

-- A flag that is set has a request.
abbrev Held : Bool → Bool → Type 0
Held loading waited = loading ≡ true → waited ≡ true

module _ ⦃rt : Runtime⦄ where
  open rt use {Number}

  pub record IsHeld (s : Context Number) : Type 0 where
    pub projects_held : Held s.loading_projects (awaited for_projects s.calls)
    pub scopes_held : Held s.loading_scopes (awaited for_scopes s.calls)

  -- A request that is sent raises the flag of its purpose.
  raised :
      (calls : List (Pending Number)) (c : Pending Number) (purpose : Purpose) (loading : Bool)
      → Held loading (awaited purpose calls)
      → Held loading (awaited purpose (calls ++ c ∷ []))
  raised calls c purpose loading held e =
      rw (any-append (is_for purpose) calls c) (rw (held e) refl)

  load_projects-IsHeld :
      (force : Bool) (s : Context Number) → IsHeld s → IsHeld (load_projects force s)
  unfolding load_projects send
  load_projects-IsHeld force s v = elim (Bool-cases (is_filled s.projects && not force)) [
    | inl filled ↦ simp filled v
    | inr needed ↦ simp needed (record {
      projects_held =
          λ e. any-append (is_for for_projects) s.calls _ ∙ or-true (awaited for_projects s.calls);
      scopes_held = raised s.calls _ for_scopes s.loading_scopes v.scopes_held;
    })
  ]

  select_key-IsHeld :
      (next : String) (force : Bool) (s : Context Number)
      → IsHeld s
      → IsHeld (select_key next force s)
  unfolding select_key send
  select_key-IsHeld next force s v =
      elim (Bool-cases (not force && next == s.project_key && (is_filled s.scopes || next == ""))) [
        | inl kept ↦ simp kept v
        | inr changed ↦ elim (Bool-cases (next == "")) [
          | inl empty ↦
              simp changed (
                simp empty
                  (record { projects_held = v.projects_held; scopes_held = v.scopes_held }))
          | inr filled ↦ simp changed (
              simp filled (record {
                projects_held = raised s.calls _ for_projects s.loading_projects v.projects_held;
                scopes_held = λ e.
                    any-append (is_for for_scopes) s.calls _ ∙ or-true (awaited for_scopes s.calls);
              }))
        ]
      ]

  finish-IsHeld :
      (purpose : Purpose) (reply : Reply Number) (s : Context Number)
      → (purpose ≡ for_scopes → Held s.loading_projects (awaited for_projects s.calls))
      → (purpose ≡ for_projects → Held s.loading_scopes (awaited for_scopes s.calls))
      → IsHeld (finish purpose reply s)
  unfolding finish
  finish-IsHeld for_projects (replied payload) s p q = elim (Option-cases (data_items payload)) [
    | inl empty ↦ rw (empty, finish) (record { projects_held = λ e. cc; scopes_held = q refl })
    | inr (found, e) ↦ rw (e, finish) (record { projects_held = λ e. cc; scopes_held = q refl })
  ]
  finish-IsHeld for_projects (failed failure) s p q = record {
    projects_held = λ e. cc;
    scopes_held = q refl;
  }
  finish-IsHeld for_scopes (replied payload) s p q = elim (Option-cases (data_items payload)) [
    | inl empty ↦ rw (empty, finish) (record { projects_held = p refl; scopes_held = λ e. cc })
    | inr (found, e) ↦ rw (e, finish) (record { projects_held = p refl; scopes_held = λ e. cc })
  ]
  finish-IsHeld for_scopes (failed failure) s p q = record {
    projects_held = p refl;
    scopes_held = λ e. cc;
  }

  not_for :
      (purpose other : Purpose) (c : Pending Number)
      → c.purpose ≡ purpose
      → purpose ≢ other
      → is_for other c ≡ false
  not_for for_projects for_projects c e ne = absurd (ne refl)
  not_for for_projects for_scopes c e ne = rw e refl
  not_for for_scopes for_projects c e ne = rw e refl
  not_for for_scopes for_scopes c e ne = absurd (ne refl)

  answer-IsHeld :
      (id : ℕ) (reply : Reply Number) (s : Context Number) (c : Pending Number)
      (rest : List (Pending Number))
      → take_call id s.calls ≡ some (c, rest)
      → IsHeld s
      → IsHeld (finish c.purpose reply (record s { calls = rest }))
  answer-IsHeld id reply s c rest e v =
      finish-IsHeld c.purpose reply (record s { calls = rest })
        (λ p held.
          others for_projects (not_for for_scopes for_projects c p (λ e. cc))
            (v.projects_held held))
        (λ p held.
          others for_scopes (not_for for_projects for_scopes c p (λ e. cc)) (v.scopes_held held))
    where
      others :
          (other : Purpose)
          → is_for other c ≡ false
          → awaited other s.calls ≡ true
          → awaited other rest ≡ true
      others other no_match waited =
          rw no_match at (sym (any-take_call (is_for other) id s.calls c rest e) ∙ waited)

  step-IsHeld : (e : Event) (s : Context Number) → IsHeld s → IsHeld (step s e)
  unfolding step reset select_scope select_project
  step-IsHeld (projects_loaded force) s v = load_projects-IsHeld force s v
  step-IsHeld (project_selected value force) s v =
      select_key-IsHeld (to_text (value or str "")) force s v
  step-IsHeld (scope_selected value) s v = record {
    projects_held = v.projects_held;
    scopes_held = v.scopes_held;
  }
  step-IsHeld was_reset s v = record {
    projects_held = v.projects_held;
    scopes_held = v.scopes_held;
  }
  step-IsHeld (answered id reply) s v = elim (Option-cases (take_call id s.calls)) [
    | inl missing ↦ rw (missing, step) v
    | inr ((c, rest), e) ↦ rw (e, step) (answer-IsHeld id reply s c rest e v)
  ]

  -- The states that events lead to from a start.
  pub data Reach (s : Context Number) : Context Number → Type 0 where
    here : Reach s s
    next : {t : Context Number} → Reach s t → (e : Event) → Reach s (step t e)

  Reach-IsHeld : {s t : Context Number} → IsHeld s → Reach s t → IsHeld t
  Reach-IsHeld v here = v
  Reach-IsHeld v (next {t} r e) = step-IsHeld e t (Reach-IsHeld v r)

  -- However projects are loaded and selected from the initial store, and in whatever order the requests
  -- are answered: once all requests are answered, with or without an error, neither flag is set.
  pub loading-ends :
      {s : Context Number}
      → Reach initial s
      → s.calls ≡ []
      → (s.loading_projects ≡ false) × (s.loading_scopes ≡ false)
  unfolding initial
  loading-ends {s} r done =
      let v = Reach-IsHeld (record { projects_held = λ e. cc; scopes_held = λ e. cc }) r in
      (
        ended s.loading_projects for_projects v.projects_held,
        ended s.loading_scopes for_scopes v.scopes_held,
      )
    where
      ended :
          (loading : Bool) (purpose : Purpose)
          → Held loading (awaited purpose s.calls)
          → loading ≡ false
      ended true purpose held = absurd (none_left (held refl))
        where
          none_left : awaited purpose s.calls ≢ true
          none_left = rw done (λ e. cc)
      ended false purpose held = refl
