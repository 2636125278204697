-- ===== src/Config/Apart.antt =====
-- validateScalesets of internal/config/config.go: the scale sets that it accepts are kept apart.
use actions_runner_scaleset.Prelude.{
  ◌+◌, ◌≡◌, ◌≢◌, ◌↔◌, ◌⊎◌, ◌≤◌, ◌<◌, refl, inl, inr, Bool, true, false, not, Option, none, some,
  List, [], ◌∷◌, ◌++◌, map, contains, contains_iff, ltb, length, All, All-map, arith, Bool-cases,
}
use actions_runner_scaleset.Prelude.Runes.{Runes, codes, contains_runes, contains_runes_iff}
use actions_runner_scaleset.Prelude.Checks.{
  reject, before_iff, chain, rejects, for_each_iff, absent_iff, All-zip, Pairwise,
}
use actions_runner_scaleset.Tags.{owner_tag, is_scale_set_name, owner_prefix, sanitize}
use actions_runner_scaleset.Config.{
  Scope, Range, ScaleSetEntry, PoolConfig, ConfigError, bad_scaleset_name, scope_key, is_set,
  check_scope, check_cap, check_scalesets, check_entry, check_range, declared, check_overlaps,
  validate_scaleset_vmid_ranges, validate_scalesets, duplicate_scaleset, owner_tag_collision,
  shared_scope, cap_required, sizes_over_cap, range_required, range_min, range_max, ranges_overlap,
  no_scalesets,
}

abbrev pub tag_of : ScaleSetEntry → Runes
tag_of s = owner_prefix ++ sanitize (codes s.name)

-- Two scale sets share no name, no owner tag and no scope.
abbrev pub Differ : ScaleSetEntry → ScaleSetEntry → Type 0
Differ a b = (a.name ≢ b.name) × (tag_of a ≢ tag_of b) × (scope_key a.scope ≢ scope_key b.scope)

-- A legal name, exactly one of organisation and repository, and a cap that is there unless capacity
-- admission is on, and that is not below the spare sizes.
abbrev pub Sound : PoolConfig → ScaleSetEntry → Type 0
Sound pool s =
    (is_scale_set_name (codes s.name) ≡ true)
    × (is_set s.scope.org ≡ not (is_set s.scope.repo))
    × ((0 < s.max_concurrent_runners) ⊎ (pool.capacity_enabled ≡ true))
    × ((s.max_concurrent_runners ≡ 0) ⊎ (pool.hot_size + pool.warm_size ≤ s.max_concurrent_runners))

check_scope_iff : (s : Scope) → (check_scope s ≡ none) ↔ (is_set s.org ≡ not (is_set s.repo))
unfolding check_scope
check_scope_iff s = ground arith

check_cap_iff :
    (pool : PoolConfig) (s : ScaleSetEntry)
    → (check_cap pool s ≡ none) ↔ (
        ((0 < s.max_concurrent_runners) ⊎ (pool.capacity_enabled ≡ true))
        × ((s.max_concurrent_runners ≡ 0)
            ⊎ (pool.hot_size + pool.warm_size ≤ s.max_concurrent_runners)))
unfolding check_cap
check_cap_iff pool s =
    chain (rejects cap_required (ground arith)) (rejects sizes_over_cap (ground arith))

module _ (pool : PoolConfig) where
  -- The scale set differs from all of these.
  abbrev Fresh : List ScaleSetEntry → ScaleSetEntry → Type 0
  Fresh seen s =
      All (λ p. p.name ≢ s.name) seen
      × All (λ p. tag_of p ≢ tag_of s) seen
      × All (λ p. scope_key p.scope ≢ scope_key s.scope) seen

  head_iff :
      (seen : List ScaleSetEntry) (s : ScaleSetEntry) (rest : Runes → Option ConfigError)
      (Q : Type 0)
      → (rest (tag_of s) ≡ none) ↔ Q
      → (check_entry pool
            (map (λ (p : ScaleSetEntry). p.name) seen)
            (map tag_of seen)
            (map (λ (p : ScaleSetEntry). scope_key p.scope) seen)
            s
            rest
          ≡ none)
        ↔ ((Sound pool s × Fresh seen s) × Q)
  unfolding check_entry owner_tag
  head_iff seen s rest Q f = elim (Bool-cases (is_scale_set_name (codes s.name))) [
    | inl v ↦
        let c =
          chain
            (rejects duplicate_scaleset
              (absent_iff contains contains_iff (λ (p : ScaleSetEntry). p.name) s.name seen))
            (chain
              (rejects owner_tag_collision
                (absent_iff contains_runes contains_runes_iff tag_of (tag_of s) seen))
              (chain (check_scope_iff s.scope) (
                chain
                  (rejects shared_scope (
                    absent_iff contains_runes contains_runes_iff
                      (λ (p : ScaleSetEntry). scope_key p.scope) (scope_key s.scope) seen))
                  (chain (check_cap_iff pool s) f)))) in
        rw (owner_tag, check_entry, v)
          (
            λ h. (let (a, (b, (d, (e, ((g, k), q))))) = c.0 h in (((refl, d, g, k), (a, b, e)), q)),
            λ (((w, d, g, k), (a, b, e)), q). c.1 (a, (b, (d, (e, ((g, k), q))))),
          )
    | inr v ↦
        rw (owner_tag, check_entry, v)
          (
            λ h. absurd (
                some_none
                  ((before_iff
                      (reject (contains s.name (map (λ (p : ScaleSetEntry). p.name) seen))
                        duplicate_scaleset)
                      (some bad_scaleset_name)).0
                    h).1),
            λ (((w, x, z, u), y), q). cc w,
          )
  ]
    where
      some_none : {e : ConfigError} → some e ≡ none → ⊥
      some_none h = cc

  check_scalesets_iff :
      (seen rest : List ScaleSetEntry)
      → (check_scalesets pool
            (map (λ (p : ScaleSetEntry). p.name) seen)
            (map tag_of seen)
            (map (λ (p : ScaleSetEntry). scope_key p.scope) seen)
            rest
          ≡ none)
        ↔ (All (λ s. Sound pool s × Fresh seen s) rest × Pairwise Differ rest)
  unfolding check_scalesets
  check_scalesets_iff seen [] = (λ h. (tt, tt), λ h. refl)
  check_scalesets_iff seen (s ∷ rest) =
      let h =
        head_iff seen s
          (λ tag.
            check_scalesets pool (s.name ∷ map (λ (p : ScaleSetEntry). p.name) seen)
              (tag ∷ map tag_of seen)
              (scope_key s.scope ∷ map (λ (p : ScaleSetEntry). scope_key p.scope) seen) rest)
          _ (check_scalesets_iff (s ∷ seen) rest) in
      (
        λ e.
            (let (here, (later, d)) = h.0 e in
              (
                (
                  here,
                  All-map rest (λ x (ok, ((n, ns), (t, ts), (k, ks))). (ok, (ns, ts, ks))) later,
                ),
                (All-map rest (λ x (ok, ((n, ns), (t, ts), (k, ks))). (n, t, k)) later, d),
              )),
        λ ((here, later), (differ, d)). h.1 (
          here,
          (
            All-zip rest (λ x (ok, (ns, ts, ks)) (n, t, k). (ok, ((n, ns), (t, ts), (k, ks)))) later
                differ,
            d,
          ),
        ),
      )

-- Two ranges share no VMID.
abbrev pub Disjoint : Range → Range → Type 0
Disjoint a b = (a.max < b.min) ⊎ (b.max < a.min)

-- A range that is there if it must be, above 0 and with more than one VMID.
abbrev pub RangeSound : Bool → Option Range → Type 0
RangeSound many none = many ≡ false
RangeSound many (some r) = (0 < r.min) × (r.min < r.max)

check_range_iff : (many : Bool) (r : Option Range) → (check_range many r ≡ none) ↔ RangeSound many r
unfolding check_range
check_range_iff many none = rejects range_required (λ h. h, λ h. h)
check_range_iff many (some r) =
    chain (rejects range_min (ground arith)) (rejects range_max (ground arith))

check_overlaps_iff : (rs : List Range) → (check_overlaps rs ≡ none) ↔ Pairwise Disjoint rs
unfolding check_overlaps
check_overlaps_iff [] = (λ h. tt, λ h. refl)
check_overlaps_iff (a ∷ rest) =
    chain (for_each_iff _ (λ b. rejects ranges_overlap (ground arith)) rest)
      (check_overlaps_iff rest)

-- What validateScalesets asks for.
abbrev pub Accepted : PoolConfig → List ScaleSetEntry → Type 0
Accepted pool scalesets =
    (0 < length scalesets)
    × ((All (Sound pool) scalesets × Pairwise Differ scalesets)
        × (All (λ s. RangeSound (ltb 1 (length scalesets)) s.vmid_range) scalesets
            × Pairwise Disjoint (declared scalesets)))

-- validateScalesets accepts exactly the lists of at least one scale set in which every scale set has a
-- legal name, one of organisation and repository, and a cap that is given unless capacity admission is
-- on and that the spare sizes keep; no two share a name, an owner tag or a scope; and the declared
-- VMID ranges are sound and disjoint, one for each scale set when there are several.
pub validate_scalesets_iff :
    (pool : PoolConfig) (scalesets : List ScaleSetEntry)
    → (validate_scalesets pool scalesets ≡ none) ↔ Accepted pool scalesets
unfolding validate_scalesets validate_scaleset_vmid_ranges
validate_scalesets_iff pool scalesets = chain (rejects no_scalesets (ground arith)) (
    chain all_iff (
      chain
        (for_each_iff _ (λ s. check_range_iff (ltb 1 (length scalesets)) s.vmid_range) scalesets)
        (check_overlaps_iff (declared scalesets))))
  where
    all_iff :
        (check_scalesets pool [] [] [] scalesets ≡ none)
        ↔ (All (Sound pool) scalesets × Pairwise Differ scalesets)
    all_iff =
        let f = check_scalesets_iff pool [] scalesets in
        (
          λ e. (let (a, d) = f.0 e in (All-map scalesets (λ s (ok, n). ok) a, d)),
          λ (a, d). f.1 (All-map scalesets (λ s ok. (ok, (tt, tt, tt))) a, d),
        )
