-- ===== src/Prelude/Choice.antt =====
-- The loop that keeps the first best of the accepted elements of a list.
use actions_runner_scaleset.Prelude.{
  ◌≡◌, refl, ap, inl, inr, ◌⊎◌, Bool, true, false, ◌&&◌, Option, none, some, List, [], ◌∷◌, ◌++◌,
  arith, All, Bool-cases, if◌then◌else◌,
}

module _ {A : Type 0} (accept : A → Bool) (better : A → A → Bool) where
  unfoldable pub select_from : Option A → List A → Option A
  select_from best [] = best
  select_from none (x ∷ xs) = select_from (if accept x then some x else none) xs
  select_from (some b) (x ∷ xs) = select_from (if accept x && better x b then some x else some b) xs

  unfoldable pub select : List A → Option A
  unfolding select_from
  select xs = select_from none xs

  -- `w` beats each accepted element before it, and no accepted element after it beats `w`.
  pub record IsFirstBest (w : A) (before after : List A) : Type 0 where
    pub accepted : accept w ≡ true
    pub beats : All (λ x. accept x ≡ true → better w x ≡ true) before
    pub unbeaten : All (λ x. accept x ≡ true → better x w ≡ false) after

  push :
      (x : A) {w : A} {before after : List A}
      → IsFirstBest w before after
      → (accept x ≡ true → better w x ≡ true)
      → IsFirstBest w (x ∷ before) after
  push x best h = record {
    accepted = best.accepted;
    beats = (h, best.beats);
    unbeaten = best.unbeaten;
  }

  module _ (trans : (a b c : A) → better a b ≡ true → better b c ≡ true → better a c ≡ true)
      (beyond : (w x b : A) → better w b ≡ true → better x b ≡ false → better w x ≡ true) where
    abbrev Replaced : A → List A → Option A → Type 0
    Replaced b xs o =
        (w : A) × (before : List A) × (after : List A) × (o ≡ some w)
        × (xs ≡ before ++ w ∷ after)
        × (better w b ≡ true)
        × IsFirstBest w before after

    abbrev Stays : A → List A → Option A → Type 0
    Stays b xs o = (o ≡ some b) × All (λ x. accept x ≡ true → better x b ≡ false) xs

    replace_later :
        (b x : A) (xs : List A) (o : Option A)
        → (accept x ≡ true → better x b ≡ false)
        → Replaced b xs o
        → Replaced b (x ∷ xs) o
    replace_later b x xs o worse (w, before, after, e, split, wins, best) = (
      w,
      x ∷ before,
      after,
      e,
      ap (◌∷◌ x) split,
      wins,
      push x best (λ a. beyond w x b wins (worse a)),
    )

    select_some :
        (b : A) (xs : List A)
        → Stays b xs (select_from (some b) xs) ⊎ Replaced b xs (select_from (some b) xs)
    unfolding select_from
    select_some b [] = inl (refl, tt)
    select_some b (x ∷ xs) = elim (Bool-cases (accept x && better x b)) [
      | inr n ↦
          rw (select_from, n)
            (elim (select_some b xs) [
              | inl (e, all) ↦ inl (e, (λ a. ground (arith, n, a), all))
              | inr r ↦ inr (replace_later b x xs _ (λ a. ground (arith, n, a)) r)
            ])
      | inl y ↦
          rw (select_from, y)
            (inr (elim (select_some x xs) [
              | inl (e, all) ↦ (
                x,
                [],
                xs,
                e,
                refl,
                ground (arith, y),
                record { accepted = ground (arith, y); beats = tt; unbeaten = all },
              )
              | inr (w, before, after, e, split, wins, best) ↦ (
                w,
                x ∷ before,
                after,
                e,
                ap (◌∷◌ x) split,
                trans w x b wins (ground (arith, y)),
                push x best (λ a. wins),
              )
            ]))
    ]

    -- Nothing is selected exactly when nothing is accepted; otherwise the first of the best.
    pub select_cases :
        (xs : List A)
        → ((select xs ≡ none) × All (λ x. accept x ≡ false) xs)
          ⊎ ((w : A) × (before : List A) × (after : List A) × (select xs ≡ some w)
              × (xs ≡ before ++ w ∷ after)
              × IsFirstBest w before after)
    unfolding select select_from
    select_cases [] = inl (refl, tt)
    select_cases (x ∷ xs) = elim (Bool-cases (accept x)) [
      | inr n ↦
          rw (select_from, n)
            (elim (select_cases xs) [
              | inl (e, all) ↦ inl (e, (refl, all))
              | inr (w, before, after, e, split, best) ↦
                  inr (w, x ∷ before, after, e, ap (◌∷◌ x) split, push x best (λ a. cc (a, n)))
            ])
      | inl y ↦
          rw (select_from, y)
            (inr (elim (select_some x xs) [
              | inl (e, all) ↦
                  (x, [], xs, e, refl, record { accepted = y; beats = tt; unbeaten = all })
              | inr (w, before, after, e, split, wins, best) ↦
                  (w, x ∷ before, after, e, ap (◌∷◌ x) split, push x best (λ a. wins))
            ]))
    ]
