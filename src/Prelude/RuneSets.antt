-- ===== src/Prelude/RuneSets.antt =====
-- Sets of texts listed in ascending order: a Go map's keys after `sort.Strings`.
use actions_runner_scaleset.Prelude.{
  ◌≡◌, ◌↔◌, ◌⊎◌, refl, inl, inr, true, false, List, [], ◌∷◌, arith, Bool-cases, All, All-map, In,
  if◌then◌else◌,
}
use actions_runner_scaleset.Prelude.Runes.{Runes, runes_eq, runes_eq_iff, runes_lt}

unfoldable pub insert_rune : Runes → List Runes → List Runes
unfolding runes_eq runes_lt
insert_rune x [] = x ∷ []
insert_rune x (y ∷ ys) =
    let rest = insert_rune x ys in
    if runes_eq x y then y ∷ ys else if runes_lt x y then x ∷ y ∷ ys else y ∷ rest

unfoldable pub sorted_set : List Runes → List Runes
unfolding insert_rune
sorted_set [] = []
sorted_set (x ∷ xs) = insert_rune x (sorted_set xs)

runes_lt_trans : (s t u : Runes) → runes_lt s t ≡ true → runes_lt t u ≡ true → runes_lt s u ≡ true
unfolding runes_lt
runes_lt_trans s t [] h k = cc
runes_lt_trans s [] (e ∷ u) h k = cc
runes_lt_trans [] (d ∷ t) (e ∷ u) h k = refl
runes_lt_trans (c ∷ s) (d ∷ t) (e ∷ u) h k = ground (arith, runes_lt_trans s t u)

runes_lt_total : (s t : Runes) → runes_eq s t ≡ false → runes_lt s t ≡ false → runes_lt t s ≡ true
unfolding runes_lt runes_eq
runes_lt_total [] [] h k = cc
runes_lt_total [] (d ∷ t) h k = cc
runes_lt_total (c ∷ s) [] h k = refl
runes_lt_total (c ∷ s) (d ∷ t) h k = ground (arith, runes_lt_total s t)

-- Strictly ascending.
abbrev pub IsAscending : List Runes → Type 0
IsAscending [] = Unit {0}
IsAscending (x ∷ xs) = All (λ y. runes_lt x y ≡ true) xs × IsAscending xs

insert_rune-All {κ} :
    (P : Runes → Type κ) (x : Runes) (ys : List Runes) → P x → All P ys → All P (insert_rune x ys)
unfolding insert_rune
insert_rune-All P x [] p h = (p, tt)
insert_rune-All P x (y ∷ ys) p h = elim (Bool-cases (runes_eq x y)) [
  | inl e ↦ rw (insert_rune, e) h
  | inr e ↦ elim (Bool-cases (runes_lt x y)) [
    | inl l ↦ rw (insert_rune, e, l) (p, h)
    | inr l ↦ rw (insert_rune, e, l) (h.0, insert_rune-All P x ys p h.1)
  ]
]

insert_rune-IsAscending :
    (x : Runes) (ys : List Runes) → IsAscending ys → IsAscending (insert_rune x ys)
unfolding insert_rune
insert_rune-IsAscending x [] h = (tt, tt)
insert_rune-IsAscending x (y ∷ ys) h = elim (Bool-cases (runes_eq x y)) [
  | inl e ↦ rw (insert_rune, e) h
  | inr e ↦ elim (Bool-cases (runes_lt x y)) [
    | inl l ↦ rw (insert_rune, e, l) ((l, All-map ys (λ z k. runes_lt_trans x y z l k) h.0), h)
    | inr l ↦
        rw (insert_rune, e, l)
          (
            insert_rune-All (λ z. runes_lt y z ≡ true) x ys (runes_lt_total x y e l) h.0,
            insert_rune-IsAscending x ys h.1,
          )
  ]
]

pub sorted_set-IsAscending : (xs : List Runes) → IsAscending (sorted_set xs)
unfolding sorted_set
sorted_set-IsAscending [] = tt
sorted_set-IsAscending (x ∷ xs) =
    insert_rune-IsAscending x (sorted_set xs) (sorted_set-IsAscending xs)

pub sorted_set-All {κ} : (P : Runes → Type κ) (xs : List Runes) → All P xs → All P (sorted_set xs)
unfolding sorted_set
sorted_set-All P [] h = tt
sorted_set-All P (x ∷ xs) h = insert_rune-All P x (sorted_set xs) h.0 (sorted_set-All P xs h.1)

In-insert_rune : (a x : Runes) (ys : List Runes) → In a (insert_rune x ys) ↔ ((x ≡ a) ⊎ In a ys)
unfolding insert_rune
In-insert_rune a x [] = (λ m. m, λ m. m)
In-insert_rune a x (y ∷ ys) = elim (Bool-cases (runes_eq x y)) [
  | inl e ↦ rw (insert_rune, e) (ground (arith, runes_eq_iff x y))
  | inr e ↦ elim (Bool-cases (runes_lt x y)) [
    | inl l ↦ rw (insert_rune, e, l) (λ m. m, λ m. m)
    | inr l ↦ rw (insert_rune, e, l) (ground (arith, In-insert_rune a x ys))
  ]
]

pub In-sorted_set : (a : Runes) (xs : List Runes) → In a (sorted_set xs) ↔ In a xs
unfolding sorted_set
In-sorted_set a [] = (λ m. m, λ m. m)
In-sorted_set a (x ∷ xs) = ground (arith, In-insert_rune a x (sorted_set xs), In-sorted_set a xs)
