-- ===== src/RouteQuery/Commit.antt =====
-- What the query of a committed state reads as.
use codex_memory.Prelude.{
  ◌≡◌, refl, ap, ◌∙◌, ◌==◌, ◌||◌, false, String, if◌then◌else◌, Bool-cases, inl, inr, arith, eq_iff,
}
use codex_memory.Js.{Runtime, Value, undefined, Fields, end, field, get, has, set, spread}
use codex_memory.Js.Reads.{get-set, has-set}
use codex_memory.Api.Query.{Unique}
use codex_memory.RouteQuery.{is_filled, clean, commit}

abbrev pub filled_or_undefined : {N : Type 0} → Value N → Value N
filled_or_undefined v = if is_filled v then v else undefined

get-of_not_has : {N : Type 0} (k : String) (fs : Fields N) → has k fs ≡ false → get k fs ≡ undefined
unfolding get has
get-of_not_has k end h = refl
get-of_not_has k (field j v fs) h = ground (arith, get-of_not_has k fs)

has-clean : {N : Type 0} (k : String) (fs : Fields N) → has k fs ≡ false → has k (clean fs) ≡ false
unfolding has clean
has-clean k end h = refl
has-clean k (field j v fs) h = ground (arith, has-clean k fs)

get-clean :
    {N : Type 0} (k : String) (fs : Fields N)
    → Unique fs
    → get k (clean fs) ≡ filled_or_undefined (get k fs)
unfolding get clean
get-clean k end u = refl
get-clean k (field j v fs) (once, u) = elim (Bool-cases (is_filled v)) [
  | inl filled ↦ rw filled (ground (arith, filled, get-clean k fs u))
  | inr blank ↦ rw blank (
      ground
        (arith, blank, eq_iff j k, get-clean k fs u, get-of_not_has k (clean fs), has-clean k fs))
]

Unique-set :
    {N : Type 0} (k : String) (v : Value N) (fs : Fields N) → Unique fs → Unique (set k v fs)
unfolding set has
Unique-set k v end u = (refl, tt)
Unique-set k v (field j w fs) (once, u) = elim (Bool-cases (j == k)) [
  | inl same ↦ rw same (once, u)
  | inr other ↦
      rw other (ground (arith, has-set k j v fs, once, eq_iff k j, eq_iff j k), Unique-set k v fs u)
]

Unique-spread : {N : Type 0} (base more : Fields N) → Unique base → Unique (spread base more)
unfolding spread
Unique-spread base end u = u
Unique-spread base (field k v more) u = Unique-spread (set k v base) more (Unique-set k v base u)

get-spread :
    {N : Type 0} (j : String) (base more : Fields N)
    → Unique more
    → get j (spread base more) ≡ (if has j more then get j more else get j base)
unfolding spread has get
get-spread j base end u = refl
get-spread j base (field k v more) (once, u) =
    ground (arith, get-spread j (set k v base) more u, get-set k j v base, eq_iff k j, once)

has-spread :
    {N : Type 0} (j : String) (base more : Fields N)
    → has j (spread base more) ≡ (has j more || has j base)
unfolding spread has
has-spread j base end = refl
has-spread j base (field k v more) =
    ground (arith, has-spread j (set k v base) more, has-set k j v base)

-- The value that a key has after a patch, or in the query where the state has no such key.
abbrev pub latest : {N : Type 0} → String → Fields N → Fields N → Fields N → Value N
latest k query state patch =
    if has k patch then get k patch else if has k state then get k state else get k query

reads :
    {N : Type 0} (k : String) (query state patch : Fields N)
    → Unique state
    → Unique patch
    → get k (spread query (spread state patch)) ≡ latest k query state patch
reads k query state patch v w = ground (
  arith,
  get-spread k query (spread state patch) (Unique-spread state patch v),
  has-spread k state patch,
  get-spread k state patch w,
)

-- With keys that are once in each object: the query that `commit` navigates to holds, under each key,
-- the patch's value, else the state's, else the route's, and nothing where that value is empty
-- text, `null` or `undefined`; and a patched state reads as the patch, else as before.
pub commit_reads :
    ⦃rt : Runtime⦄ (k : String) (query state patch : Fields rt.Number)
    → Unique query
    → Unique state
    → Unique patch
    → (get k (commit query state patch).0 ≡ (if has k patch then get k patch else get k state))
      × (get k (commit query state patch).1 ≡ filled_or_undefined (latest k query state patch))
unfolding commit
commit_reads k query state patch u v w = (
  get-spread k state patch w,
  get-clean k (spread query (spread state patch)) (Unique-spread query (spread state patch) u)
      ∙ ap filled_or_undefined (reads k query state patch v w),
)
