-- ===== src/Schedule/Ties.antt =====
-- Entries of internal/schedule/schedule.go that fire at the same time.
use actions_runner_scaleset.Prelude.{
  ℕ, ◌≡◌, ◌≤◌, refl, inl, inr, Option, none, some, List, [], ◌∷◌, ◌++◌, arith, ltb, All, Bool-cases,
  if◌then◌else◌,
}
use actions_runner_scaleset.Schedule.Windows.{Armed, soonest, next_fire_after}

module _ (now : ℕ) where
  -- An entry that is no sooner than the one found is passed over, wherever it stands.
  soonest_passes :
      (w f : Armed) (mid post : List Armed)
      → w.next now ≤ f.next now
      → soonest now (some w) (mid ++ (f ∷ post)) ≡ soonest now (some w) (mid ++ post)
  unfolding soonest
  soonest_passes w f [] post h = elim (Bool-cases (ltb (f.next now) (w.next now))) [
    | inl e ↦ absurd (ground arith)
    | inr e ↦ rw (soonest, e) refl
  ]
  soonest_passes w f (x ∷ mid) post h = elim (Bool-cases (ltb (x.next now) (w.next now))) [
    | inl e ↦ rw (soonest, e) (soonest_passes x f mid post (ground arith))
    | inr e ↦ rw (soonest, e) (soonest_passes w f mid post h)
  ]

  behind :
      (which : Option Armed) (pre : List Armed) (e f : Armed) (mid post : List Armed)
      → e.next now ≡ f.next now
      → soonest now which (pre ++ (e ∷ (mid ++ (f ∷ post))))
        ≡ soonest now which (pre ++ (e ∷ (mid ++ post)))
  unfolding soonest
  behind none [] e f mid post h = soonest_passes e f mid post (omega (arith, h))
  behind (some w) [] e f mid post h = elim (Bool-cases (ltb (e.next now) (w.next now))) [
    | inl g ↦ rw (soonest, g) (soonest_passes e f mid post (omega (arith, h)))
    | inr g ↦ rw (soonest, g) (soonest_passes w f mid post (ground arith))
  ]
  behind none (x ∷ pre) e f mid post h = behind (some x) pre e f mid post h
  behind (some w) (x ∷ pre) e f mid post h =
      behind (some (if ltb (x.next now) (w.next now) then x else w)) pre e f mid post h

  soonest_least :
      (w : Armed) (es : List Armed)
      → (v : Armed) × (soonest now (some w) es ≡ some v)
        × (v.next now ≤ w.next now)
        × All (λ e. v.next now ≤ e.next now) es
  unfolding soonest
  soonest_least w [] = (w, refl, omega arith, tt)
  soonest_least w (x ∷ es) = elim (Bool-cases (ltb (x.next now) (w.next now))) [
    | inl e ↦ (let (v, s, le, all) = soonest_least x es in (v, rw e s, ground arith, (le, all)))
    | inr e ↦ (let (v, s, le, all) = soonest_least w es in (v, rw e s, le, (ground arith, all)))
  ]

-- nextFireAfter finds an entry that is due no later than any other; but an entry that stands after one
-- with the same cron schedule has no part in it: nextFireAfter finds the same without it, so that it
-- never fires.
pub next_fire_after_shadows :
    (now : ℕ) (pre mid post : List Armed) (e f : Armed)
    → e.next now ≡ f.next now
    → let es = pre ++ (e ∷ (mid ++ (f ∷ post))) in
      (next_fire_after now es ≡ next_fire_after now (pre ++ (e ∷ (mid ++ post))))
      × ((v : Armed) × (next_fire_after now es ≡ some v) × All (λ x. v.next now ≤ x.next now) es)
unfolding next_fire_after soonest
next_fire_after_shadows now pre mid post e f h = (behind now none pre e f mid post h, found pre)
  where
    found :
        (pre : List Armed)
        → (v : Armed) × (soonest now none (pre ++ (e ∷ (mid ++ (f ∷ post)))) ≡ some v)
          × All (λ x. v.next now ≤ x.next now) (pre ++ (e ∷ (mid ++ (f ∷ post))))
    found [] = (let (v, s, le, all) = soonest_least now e (mid ++ (f ∷ post)) in (v, s, (le, all)))
    found (x ∷ pre) =
        (let (v, s, le, all) = soonest_least now x (pre ++ (e ∷ (mid ++ (f ∷ post)))) in
          (v, s, (le, all)))
