-- ===== src/Pool/Eviction/Closing.antt =====
-- The loop of planEviction of internal/pool/capacity.go.
use mathlib.Core.List.{append_assoc}
use actions_runner_scaleset.Prelude.{
  ℕ, ◌∙◌, ◌+◌, ◌%◌, ◌^◌, ◌≡◌, ◌<◌, refl, inl, inr, ◌⊎◌, ap, Bool, true, false, ◌&&◌, List, [], ◌∷◌,
  ◌++◌, leb, arith, Bool-cases,
}
use actions_runner_scaleset.Pool.Eviction.{EvictionCandidate, EvictionPlan, close_gap}

-- What a list of candidates frees.
unfoldable pub mem_of : List EvictionCandidate → ℕ
mem_of [] = 0
mem_of (c ∷ cs) = c.mem_bytes + mem_of cs

unfoldable pub vcpus_of : List EvictionCandidate → ℕ
vcpus_of [] = 0
vcpus_of (c ∷ cs) = c.vcpus + vcpus_of cs

module _ (mem_gap vcpu_gap : ℕ) where
  abbrev pub enough : ℕ → ℕ → Bool
  enough m v = leb mem_gap m && leb vcpu_gap v

  -- Either all candidates are not enough and the plan is empty, or it takes them in order up to the
  -- first that is enough.
  abbrev pub Closed :
      List EvictionCandidate → ℕ → ℕ → List EvictionCandidate → EvictionPlan → Type 0
  Closed chosen m v cs p =
      ((p.victims ≡ []) × (enough (m + mem_of cs) (v + vcpus_of cs) ≡ false))
      ⊎ ((more : List EvictionCandidate) × (last : EvictionCandidate) × (rest : List
            EvictionCandidate)
          × (cs ≡ more ++ last ∷ rest)
          × (p.victims ≡ chosen ++ (more ++ last ∷ []))
          × (p.freed_mem ≡ m + mem_of more + last.mem_bytes)
          × (p.freed_vcpu ≡ v + vcpus_of more + last.vcpus)
          × (enough (m + mem_of more) (v + vcpus_of more) ≡ false)
          × (enough p.freed_mem p.freed_vcpu ≡ true))

  pub close_gap-Closed :
      (chosen : List EvictionCandidate) (m v : ℕ) (cs : List EvictionCandidate)
      → m + mem_of cs < 2 ^ 64
      → enough m v ≡ false
      → Closed chosen m v cs (close_gap mem_gap vcpu_gap chosen m v cs)
  unfolding close_gap mem_of vcpus_of
  close_gap-Closed chosen m v [] b n = inl (refl, ground (arith, n))
  close_gap-Closed chosen m v (c ∷ cs) b n =
      let whole : (m + c.mem_bytes) % 2 ^ 64 ≡ m + c.mem_bytes = omega (arith, b) in
      elim (Bool-cases (enough (m + c.mem_bytes) (v + c.vcpus))) [
        | inl e ↦
            rw (close_gap, whole, e)
              (inr ([], c, cs, refl, refl, omega arith, omega arith, ground (arith, n), e))
        | inr e ↦
            rw (close_gap, whole, e)
              (elim (close_gap-Closed (chosen ++ c ∷ []) (m + c.mem_bytes) (v + c.vcpus) cs
                (omega (arith, b)) e) [
                  | inl (q, r) ↦ inl (q, ground (arith, r))
                  | inr (more, last, rest, split, vs, fm, fv, less, done) ↦ inr (
                    c ∷ more,
                    last,
                    rest,
                    ap (◌∷◌ c) split,
                    vs ∙ append_assoc chosen (c ∷ []) (more ++ last ∷ []),
                    omega (arith, fm),
                    omega (arith, fv),
                    ground (arith, less),
                    done,
                  )
                ])
      ]
