-- ===== src/Prelude/Dict.antt =====
-- Go maps as association lists, over keys with a Boolean equality.
use actions_runner_scaleset.Prelude.{
  ◌≡◌, refl, ◌↔◌, inl, inr, Bool, true, Option, none, some, List, [], ◌∷◌, arith, Bool-cases,
  if◌then◌else◌,
}

module _ {ℓ κ} {K : Type ℓ} {V : Type κ} (eqb : K → K → Bool) where
  -- `v, ok := m[k]`
  unfoldable pub lookup : K → List (K × V) → Option V
  lookup k [] = none
  lookup k ((j, v) ∷ m) = if eqb j k then some v else lookup k m

  -- `delete(m, k)`
  unfoldable pub erase : K → List (K × V) → List (K × V)
  erase k [] = []
  erase k ((j, v) ∷ m) = let rest = erase k m in if eqb j k then rest else (j, v) ∷ rest

  -- `m[k] = v`
  unfoldable pub insert : K → V → List (K × V) → List (K × V)
  unfolding erase
  insert k v m = (k, v) ∷ erase k m

  module _ (law : (a b : K) → (eqb a b ≡ true) ↔ (a ≡ b)) where
    pub lookup-erase :
        (k j : K) (m : List (K × V)) → lookup j (erase k m) ≡ (if eqb k j then none else lookup j m)
    unfolding lookup erase
    lookup-erase k j [] = elim (Bool-cases (eqb k j)) [ inl e ↦ rw e refl | inr e ↦ rw e refl ]
    lookup-erase k j ((i, v) ∷ m) = ground (arith, lookup-erase k j m, law i k, law i j, law k j)

    pub lookup-insert :
        (k j : K) (v : V) (m : List (K × V))
        → lookup j (insert k v m) ≡ (if eqb k j then some v else lookup j m)
    unfolding lookup insert
    lookup-insert k j v m = ground (arith, lookup-erase k j m)
