-- ===== src/Contracts/Projects.antt =====
-- The project that the contract pages start from.
use mathlib.Core.List.{Memᴰ}
use codex_memory.Prelude.{
  ◌≡◌, refl, ◌⊎◌, ◌==◌, true, not, ◌&&◌, String, List, [], ◌∷◌, map, arith, any, Bool-cases, inl,
  inr,
}
use codex_memory.Prelude.Text.{trim}
use codex_memory.Js.{Runtime, Value, str, prop, is_text, to_text, ◌or◌}
use codex_memory.Contracts.Publishing.{is_text-str}
use codex_memory.Contracts.{resolve_contract_project_key, choose, only_key}

module _ ⦃rt : Runtime⦄ where
  open rt use {Number}

  -- A project of the list with this key.
  abbrev pub HasKey : List (Value Number) → Value Number → Type 0
  HasKey projects key = (item : Value Number) × Memᴰ item projects × (prop "project_key" item ≡ key)

  HasKey-of_any :
      (k : String) (projects : List (Value Number))
      → any (is_text k) (map (prop "project_key") projects) ≡ true
      → HasKey projects (str k)
  HasKey-of_any k [] h = cc
  HasKey-of_any k (p ∷ ps) h = elim (Bool-cases (is_text k (prop "project_key" p))) [
    | inl found ↦ (p, Memᴰ.head refl, is_text-str k (prop "project_key" p) found)
    | inr other ↦
        let (item, listed, key) = HasKey-of_any k ps (rw other at h) in
        (item, Memᴰ.tail listed, key)
  ]

  HasKey-only_key :
      (projects : List (Value Number))
      → (only_key (map (prop "project_key") projects) ≡ str "")
        ⊎ HasKey projects (only_key (map (prop "project_key") projects))
  HasKey-only_key [] = inl refl
  HasKey-only_key (p ∷ []) = inr (p, Memᴰ.head refl, refl)
  HasKey-only_key (p ∷ q ∷ ps) = inl refl

  choose-HasKey :
      (principal : String) (projects : List (Value Number))
      → (choose principal (map (prop "project_key") projects) ≡ str "")
        ⊎ HasKey projects (choose principal (map (prop "project_key") projects))
  choose-HasKey principal projects =
      elim (Bool-cases (
        not (principal == "")
        && not (principal == "*")
        && any (is_text principal) (map (prop "project_key") projects))) [
          | inl found ↦ rw found (inr (HasKey-of_any principal projects (ground arith)))
          | inr other ↦ rw other (HasKey-only_key projects)
        ]

  choose_single : (principal : String) (key : Value Number) → choose principal (key ∷ []) ≡ key
  choose_single principal key = elim (Bool-cases (is_text principal key)) [
    | inl found ↦ rw (is_text-str principal key found) (ground arith)
    | inr other ↦ ground arith
  ]

  -- The key that is chosen is empty or the key of a listed project; where a single project is
  -- listed it is that project's, whatever the principal.
  pub resolve_lem :
      (projects : List (Value Number)) (principal item : Value Number)
      → ((resolve_contract_project_key projects principal ≡ str "")
          ⊎ HasKey projects (resolve_contract_project_key projects principal))
        × (resolve_contract_project_key (item ∷ []) principal ≡ prop "project_key" item)
  unfolding resolve_contract_project_key
  resolve_lem projects principal item = (
    choose-HasKey (trim (to_text (principal or str ""))) projects,
    choose_single (trim (to_text (principal or str ""))) (prop "project_key" item),
  )
