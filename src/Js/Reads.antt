-- ===== src/Js/Reads.antt =====
-- Laws of property reads and writes.
use mathlib.Core.Bool.{false}
use codex_memory.Prelude.{◌≡◌, refl, String, arith, if◌then◌else◌, ◌==◌, ◌||◌, eq_iff}
use codex_memory.Js.Data.{Value, Fields, end, field, get, has, set, spread}

module _ {N : Type 0} where
  pub get-set :
      (k j : String) (v : Value N) (fs : Fields N)
      → get j (set k v fs) ≡ (if k == j then v else get j fs)
  unfolding get set
  get-set k j v end = refl
  get-set k j v (field i w fs) =
      ground (arith, eq_iff k j, eq_iff i k, eq_iff i j, get-set k j v fs)

  pub has-set :
      (k j : String) (v : Value N) (fs : Fields N) → has j (set k v fs) ≡ (k == j || has j fs)
  unfolding has set
  has-set k j v end = refl
  has-set k j v (field i w fs) =
      ground (arith, eq_iff k j, eq_iff i k, eq_iff i j, has-set k j v fs)

  -- The fields of the second object win; the last of two equal keys counts.
  pub get-spread_of_not_has :
      (j : String) (base more : Fields N)
      → has j more ≡ false
      → get j (spread base more) ≡ get j base
  unfolding spread has
  get-spread_of_not_has j base end h = refl
  get-spread_of_not_has j base (field k v more) h =
      ground (arith, get-spread_of_not_has j (set k v base) more, get-set k j v base)
