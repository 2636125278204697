-- ===== src/Config/Defaults/Complete.antt =====
-- What normalizeScalesets of internal/config/config.go leaves.
use actions_runner_scaleset.Prelude.{
  ℕ, ◌==◌, ◌≡◌, ◌≢◌, refl, ap, inl, inr, true, not, ◌||◌, Option, none, some, List, [], ◌∷◌, map,
  is_some, length, All, arith, Bool-cases,
}
use actions_runner_scaleset.Config.{ProfileConfig, ScaleSetEntry, PoolConfig, is_set}
use actions_runner_scaleset.Config.Defaults.{
  Legacy, Normalized, entry_of, fold_legacy, or_set, or_age, synthesized, inherit, inherit_all,
  normalize_entry, project, normalize_scalesets,
}

or_set_twice : (x : Option ℕ) (d e : ℕ) → or_set (or_set x d) e ≡ or_set x d
or_set_twice none d e = refl
or_set_twice (some n) d e = refl

or_age_twice : (x d : Option ℕ) → or_age (or_age x d) d ≡ or_age x d
or_age_twice none none = refl
or_age_twice none (some n) = refl
or_age_twice (some n) d = refl

inherit_twice :
    (pool : PoolConfig) (s t : ScaleSetEntry) (p : ProfileConfig)
    → inherit pool t (inherit pool s p) ≡ inherit pool s p
unfolding inherit
inherit_twice pool s t p =
    rw
      (
        or_set_twice p.hot_size pool.hot_size pool.hot_size,
        or_set_twice p.warm_size pool.warm_size pool.warm_size,
        or_set_twice p.max_concurrent_runners s.max_concurrent_runners t.max_concurrent_runners,
        or_set_twice p.boot_max_attempts pool.boot_max_attempts pool.boot_max_attempts,
        or_age_twice p.vm_max_age pool.vm_max_age,
      )
      refl

inherit_rest :
    (pool : PoolConfig) (s t : ScaleSetEntry) (ps : List ProfileConfig)
    → map (inherit pool t) (map (inherit pool s) ps) ≡ map (inherit pool s) ps
inherit_rest pool s t [] = refl
inherit_rest pool s t (p ∷ ps) = rw (inherit_twice pool s t p, inherit_rest pool s t ps) refl

inherit-synthesized :
    (pool : PoolConfig) (s t : ScaleSetEntry)
    → inherit pool t (synthesized pool s) ≡ synthesized pool s
unfolding inherit synthesized
inherit-synthesized pool s t = rw (or_age_twice none pool.vm_max_age) refl

normalize_twice :
    (pool : PoolConfig) (s : ScaleSetEntry)
    → normalize_entry pool (normalize_entry pool s) ≡ normalize_entry pool s
unfolding normalize_entry
normalize_twice pool s = ap (λ ps. record s { profiles = ps }) (again s.profiles)
  where
    again :
        (ps : List ProfileConfig)
        → inherit_all pool (normalize_entry pool s) (inherit_all pool s ps) ≡ inherit_all pool s ps
    again [] = ap (λ p. p ∷ []) (inherit-synthesized pool s (normalize_entry pool s))
    again (p ∷ ps) = inherit_rest pool s (normalize_entry pool s) (p ∷ ps)

normalize_all :
    (pool : PoolConfig) (l : List ScaleSetEntry)
    → map (normalize_entry pool) (map (normalize_entry pool) l) ≡ map (normalize_entry pool) l
normalize_all pool [] = refl
normalize_all pool (s ∷ rest) = rw (normalize_twice pool s, normalize_all pool rest) refl

fold_cons :
    (l : Legacy) (s : ScaleSetEntry) (rest : List ScaleSetEntry)
    → fold_legacy l (s ∷ rest) ≡ s ∷ rest
unfolding fold_legacy
fold_cons l s rest = ground arith

-- After the projection there is nothing to fold.
fold_done :
    (pool : PoolConfig) (l : Legacy) (scalesets : List ScaleSetEntry)
    → let done = map (normalize_entry pool) (fold_legacy l scalesets) in
      fold_legacy (project l done) done ≡ done
unfolding fold_legacy project
fold_done pool l (s ∷ rest) = rw (fold_cons l s rest) (
    fold_cons (project l (map (normalize_entry pool) (s ∷ rest))) (normalize_entry pool s)
      (map (normalize_entry pool) rest))
fold_done pool l [] = elim (Bool-cases (is_set l.name || not (l.max_concurrent_runners == 0))) [
  | inl e ↦
      rw (fold_legacy, e)
        (fold_cons (project l (normalize_entry pool (entry_of l) ∷ []))
          (normalize_entry pool (entry_of l)) [])
  | inr e ↦ rw (fold_legacy, e) (rw (fold_legacy, e) refl)
]

project_twice : (l : Legacy) (xs : List ScaleSetEntry) → project (project l xs) xs ≡ project l xs
unfolding project
project_twice l [] = refl
project_twice l (s ∷ []) = refl
project_twice l (s ∷ t ∷ rest) = refl

-- Every size and the boot attempts of the profile are set.
abbrev pub IsComplete : ProfileConfig → Type 0
IsComplete p =
    (is_some p.hot_size ≡ true)
    × (is_some p.warm_size ≡ true)
    × (is_some p.max_concurrent_runners ≡ true)
    × (is_some p.boot_max_attempts ≡ true)

is_some-or_set : (x : Option ℕ) (d : ℕ) → is_some (or_set x d) ≡ true
is_some-or_set none d = refl
is_some-or_set (some n) d = refl

inherit-IsComplete :
    (pool : PoolConfig) (s : ScaleSetEntry) (ps : List ProfileConfig)
    → All IsComplete (map (inherit pool s) ps)
unfolding inherit
inherit-IsComplete pool s [] = tt
inherit-IsComplete pool s (p ∷ ps) = (
  (
    is_some-or_set p.hot_size pool.hot_size,
    is_some-or_set p.warm_size pool.warm_size,
    is_some-or_set p.max_concurrent_runners s.max_concurrent_runners,
    is_some-or_set p.boot_max_attempts pool.boot_max_attempts,
  ),
  inherit-IsComplete pool s ps,
)

complete :
    (pool : PoolConfig) (l : List ScaleSetEntry)
    → All
        (λ (s : ScaleSetEntry). All IsComplete s.profiles × (length s.profiles ≢ 0))
        (map (normalize_entry pool) l)
unfolding normalize_entry inherit_all synthesized
complete pool [] = tt
complete pool (s ∷ rest) = (filled s.profiles, complete pool rest)
  where
    filled :
        (ps : List ProfileConfig)
        → All IsComplete (inherit_all pool s ps) × (length (inherit_all pool s ps) ≢ 0)
    filled [] = (((refl, refl, refl, refl), tt), λ e. omega (arith, e))
    filled (p ∷ ps) = (inherit-IsComplete pool s (p ∷ ps), λ e. omega (arith, e))

-- A second normalisation changes nothing; after the first, every scale set has a profile, and every
-- profile has its sizes, its cap and its boot attempts set.
pub normalize_scalesets_idempotent :
    (pool : PoolConfig) (c : Normalized)
    → let done = normalize_scalesets pool c in
      (normalize_scalesets pool done ≡ done)
      × All
          (λ (s : ScaleSetEntry). All IsComplete s.profiles × (length s.profiles ≢ 0))
          done.scalesets
unfolding normalize_scalesets
normalize_scalesets_idempotent pool c =
    let done = map (normalize_entry pool) (fold_legacy c.legacy c.scalesets) in
    (
      rw
          (
            fold_done pool c.legacy c.scalesets,
            normalize_all pool (fold_legacy c.legacy c.scalesets),
            project_twice c.legacy done,
          )
          refl,
      complete pool (fold_legacy c.legacy c.scalesets),
    )
