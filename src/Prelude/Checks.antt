-- ===== src/Prelude/Checks.antt =====
-- Chains of checks in Go's style: a check yields an error or none, and the first error is the result.
use actions_runner_scaleset.Prelude.{
  ◌∙◌, ap, In, All-In, All-of-In, Bool-cases, map, inl, inr, ◌≢◌, ◌≡◌, ◌↔◌, ◌⊎◌, refl, Bool, true,
  false, Option, none, some, List, [], ◌∷◌, All, if◌then◌else◌,
}

module _ {E : Type 0} where
  infixr 30 ◌before◌
  -- `if failed { return e }`
  unfoldable pub reject : Bool → E → Option E
  reject failed e = if failed then some e else none

  -- A check and those after it.
  unfoldable pub ◌before◌ : Option E → Option E → Option E
  none before b = b
  some e before b = some e

  unfoldable pub for_each : {A : Type 0} → (A → Option E) → List A → Option E
  unfolding ◌before◌
  for_each check [] = none
  for_each check (x ∷ xs) = check x before for_each check xs

  pub reject_iff : (b : Bool) (e : E) → (reject b e ≡ none) ↔ (b ≡ false)
  unfolding reject
  reject_iff true e = (λ h. cc, λ h. cc)
  reject_iff false e = (λ h. refl, λ h. refl)

  pub before_iff : (a b : Option E) → ((a before b) ≡ none) ↔ ((a ≡ none) × (b ≡ none))
  unfolding ◌before◌
  before_iff none b = (λ h. (refl, h), λ h. h.1)
  before_iff (some e) b = (λ h. cc, λ h. cc)

  -- What it means that a chain of checks passes, from what each of them means.
  pub chain :
      {P Q : Type 0} {a b : Option E}
      → (a ≡ none) ↔ P
      → (b ≡ none) ↔ Q
      → ((a before b) ≡ none) ↔ (P × Q)
  chain f g = (
    λ h. (let (x, y) = (before_iff _ _).0 h in (f.0 x, g.0 y)),
    λ (p, q). (before_iff _ _).1 (f.1 p, g.1 q),
  )

  pub rejects : {P : Type 0} {b : Bool} (e : E) → (b ≡ false) ↔ P → (reject b e ≡ none) ↔ P
  rejects {b = b} e f = (λ h. f.0 ((reject_iff b e).0 h), λ p. (reject_iff b e).1 (f.1 p))

  -- `if skipped { return nil }`
  pub skip_iff :
      {S P : Type 0} {a : Option E} (b : Bool)
      → (b ≡ true) ↔ S
      → (a ≡ none) ↔ P
      → ((if b then none else a) ≡ none) ↔ (S ⊎ P)
  skip_iff true f g = (λ h. inl (f.0 refl), λ h. refl)
  skip_iff false f g = (λ h. inr (g.0 h), λ h. elim h [ inl s ↦ cc (f.1 s) | inr p ↦ g.1 p ])

  pub for_each_iff :
      {A : Type 0} {P : A → Type 0} (check : A → Option E)
      → ((x : A) → (check x ≡ none) ↔ P x)
      → (xs : List A) → (for_each check xs ≡ none) ↔ All P xs
  unfolding for_each
  for_each_iff check f [] = (λ h. tt, λ h. refl)
  for_each_iff check f (x ∷ xs) = chain (f x) (for_each_iff check f xs)

module _ {ℓ κ} {A : Type ℓ} where
  -- The relation holds from each element to each later one.
  abbrev pub Pairwise : (A → A → Type κ) → List A → Type (ℓ ⊔ κ)
  Pairwise R [] = Unit
  Pairwise R (x ∷ xs) = All (R x) xs × Pairwise R xs

module _ {ℓ κ μ ν} {A : Type ℓ} {P : A → Type κ} {Q : A → Type μ} {R : A → Type ν} where
  pub All-zip : (xs : List A) → ((x : A) → P x → Q x → R x) → All P xs → All Q xs → All R xs
  All-zip [] f h k = tt
  All-zip (x ∷ xs) f h k = (f x h.0 k.0, All-zip xs f h.1 k.1)

module _ {A B : Type 0} (f : A → B) where
  pub In-map : (k : B) (xs : List A) → In k (map f xs) ↔ ((x : A) × In x xs × (f x ≡ k))
  In-map k [] = (λ m. absurd m, λ (x, i, e). absurd i)
  In-map k (x ∷ xs) = (
    λ m. elim m [
      | inl e ↦ (x, inl refl, e)
      | inr n ↦ (let (y, i, e) = (In-map k xs).0 n in (y, inr i, e))
    ],
    λ (y, i, e). elim i [ inl d ↦ inl (ap f d ∙ e) | inr j ↦ inr ((In-map k xs).1 (y, j, e)) ],
  )

-- A search that fails: no element is there under the key.
module _ {A B : Type 0} (has : B → List B → Bool)
    (has_iff : (k : B) (xs : List B) → (has k xs ≡ true) ↔ In k xs) (f : A → B) where
  pub absent_iff : (k : B) (xs : List A) → (has k (map f xs) ≡ false) ↔ All (λ x. f x ≢ k) xs
  absent_iff k xs = (
    λ h.
        All-of-In (λ x. f x ≢ k) xs
          (λ x i e. cc (h, (has_iff k (map f xs)).1 ((In-map f k xs).1 (x, i, e)))),
    λ h. elim (Bool-cases (has k (map f xs))) [
      | inl e ↦
          (let (x, i, d) = (In-map f k xs).0 ((has_iff k (map f xs)).0 e) in
            absurd (All-In (λ x. f x ≢ k) xs x h i d))
      | inr e ↦ e
    ],
  )
