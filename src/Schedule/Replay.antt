-- ===== src/Schedule/Replay.antt =====
-- The loop over past fires at the start of internal/schedule/schedule.go.
use actions_runner_scaleset.Prelude.{
  ℕ, zero, suc, ◌+◌, ◌*◌, ◌-◌, ◌≡◌, ◌≤◌, ◌<◌, ◌⊎◌, refl, inl, inr, none, some, arith, ltb,
  Bool-cases,
}
use actions_runner_scaleset.Schedule.Windows.{Armed, last_fire, fired_before}

-- The time itself, its next fire, the next fire after that one, and so on.
abbrev pub nth_fire : (ℕ → ℕ) → ℕ → ℕ → ℕ
nth_fire next t zero = t
nth_fire next t (suc n) = nth_fire next (next t) n

-- One of the fires after `start`.
abbrev pub IsFire : (ℕ → ℕ) → ℕ → ℕ → Type 0
IsFire next start r = (n : ℕ) × (r ≡ nth_fire next start (suc n))

-- The fire after `start` and up to `now` whose next one is past `now`.
abbrev pub IsRecent : (ℕ → ℕ) → ℕ → ℕ → ℕ → Type 0
IsRecent next start now r = IsFire next start r × (start < r) × (r ≤ now) × (now < next r)

-- The most recent fire up to `now` and after `start`, or 0 if there is none.
abbrev pub IsLastFire : (ℕ → ℕ) → ℕ → ℕ → ℕ → Type 0
IsLastFire next start now r = ((r ≡ 0) × (now < next start)) ⊎ IsRecent next start now r

module _ (next : ℕ → ℕ) (now : ℕ) (later : (t : ℕ) → t < next t) where
  -- One fire further.
  step :
      (start r : ℕ)
      → next start ≤ now
      → ((r ≡ next start) × (now < next (next start))) ⊎ IsRecent next (next start) now r
      → IsRecent next start now r
  step start r e (inl (q, k)) = ((0, q), rw q (later start), rw q e, rw q k)
  step start r e (inr ((n, f), a, b, c)) = ((suc n, f), omega (arith, later start, a), b, c)

  last_fire_ends :
      (fuel start last : ℕ)
      → start ≤ now
      → now < start + fuel
      → (r : ℕ) × (last_fire fuel next now (next start) last ≡ some r)
        × (((r ≡ last) × (now < next start)) ⊎ IsRecent next start now r)
  unfolding last_fire
  last_fire_ends zero start last le h = absurd (omega (arith, le, h))
  last_fire_ends (suc fuel) start last le h = elim (Bool-cases (ltb now (next start))) [
    | inl e ↦ (last, rw e refl, inl (refl, ground arith))
    | inr e ↦
        let on : next start ≤ now = ground arith in
        let (r, f, w) =
          last_fire_ends fuel (next start) (next start) on (omega (arith, h, later start)) in
        (r, rw e f, inr (step start r on w))
  ]

-- With a cron schedule whose fires are each later than the time asked for, the loop over the past fires of
-- an entry ends, and finds the most recent fire in the two durations before the restart, if there is one: a
-- fire of the schedule whose next fire is past the restart.
pub fired_before-IsLastFire :
    (e : Armed) (now : ℕ)
    → ((t : ℕ) → t < e.next t)
    → (r : ℕ) × (fired_before e now ≡ some r) × IsLastFire e.next (now - 2 * e.entry.duration) now r
unfolding fired_before
fired_before-IsLastFire e now later =
    last_fire_ends e.next now later (suc (now - (now - 2 * e.entry.duration)))
      (now - 2 * e.entry.duration) 0 (omega arith) (omega arith)

-- A schedule that never fires, for which Next is the zero time, keeps the loop going for ever.
never_ends : (fuel now t last : ℕ) → t ≤ now → last_fire fuel (λ u. 0) now t last ≡ none
unfolding last_fire
never_ends zero now t last h = refl
never_ends (suc fuel) now t last h = elim (Bool-cases (ltb now t)) [
  | inl e ↦ absurd (ground arith)
  | inr e ↦ rw e (never_ends fuel now 0 t (omega arith))
]
