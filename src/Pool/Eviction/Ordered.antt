-- ===== src/Pool/Eviction/Ordered.antt =====
-- The order in which planEviction of internal/pool/capacity.go takes the candidates.
use actions_runner_scaleset.Prelude.{
  ℕ, ◌+◌, ◌≡◌, refl, inl, inr, ◌∙◌, ap, true, false, List, [], ◌∷◌, ◌++◌, arith, All, All-map,
  Bool-cases,
}
use actions_runner_scaleset.Pool.Eviction.{
  EvictionCandidate, goes_first, insert_candidate, order_candidates,
}
use actions_runner_scaleset.Pool.Eviction.Closing.{mem_of, vcpus_of}

-- No candidate of the list goes before an earlier one.
abbrev pub IsOrdered : List EvictionCandidate → Type 0
IsOrdered [] = Unit {0}
IsOrdered (c ∷ cs) = All (λ d. goes_first d c ≡ false) cs × IsOrdered cs

goes_first_asym : (a b : EvictionCandidate) → goes_first a b ≡ true → goes_first b a ≡ false
unfolding goes_first
goes_first_asym a b h = elim (Bool-cases a.preferred) [
  | inl p ↦ elim (Bool-cases b.preferred) [
    | inl q ↦ ground (arith, h, p, q)
    | inr q ↦ ground (arith, h, p, q)
  ]
  | inr p ↦ elim (Bool-cases b.preferred) [
    | inl q ↦ ground (arith, h, p, q)
    | inr q ↦ ground (arith, h, p, q)
  ]
]

-- Not going first is transitive.
goes_first_negtrans :
    (a b c : EvictionCandidate)
    → goes_first a b ≡ false
    → goes_first b c ≡ false
    → goes_first a c ≡ false
unfolding goes_first
goes_first_negtrans a b c h k = elim (Bool-cases a.preferred) [
  | inl p ↦ elim (Bool-cases b.preferred) [
    | inl q ↦ ground (arith, h, k, p, q, Bool-cases c.preferred)
    | inr q ↦ ground (arith, h, k, p, q, Bool-cases c.preferred)
  ]
  | inr p ↦ elim (Bool-cases b.preferred) [
    | inl q ↦ ground (arith, h, k, p, q, Bool-cases c.preferred)
    | inr q ↦ ground (arith, h, k, p, q, Bool-cases c.preferred)
  ]
]

insert_candidate-All {κ} :
    (P : EvictionCandidate → Type κ) (c : EvictionCandidate) (ds : List EvictionCandidate)
    → P c
    → All P ds
    → All P (insert_candidate c ds)
unfolding insert_candidate
insert_candidate-All P c [] p h = (p, tt)
insert_candidate-All P c (d ∷ ds) p h = elim (Bool-cases (goes_first d c)) [
  | inl e ↦ rw (insert_candidate, e) (h.0, insert_candidate-All P c ds p h.1)
  | inr e ↦ rw (insert_candidate, e) (p, h)
]

insert_candidate-IsOrdered :
    (c : EvictionCandidate) (ds : List EvictionCandidate)
    → IsOrdered ds
    → IsOrdered (insert_candidate c ds)
unfolding insert_candidate
insert_candidate-IsOrdered c [] o = (tt, tt)
insert_candidate-IsOrdered c (d ∷ ds) o = elim (Bool-cases (goes_first d c)) [
  | inl e ↦
      rw (insert_candidate, e)
        (
          insert_candidate-All (λ x. goes_first x d ≡ false) c ds (goes_first_asym d c e) o.0,
          insert_candidate-IsOrdered c ds o.1,
        )
  | inr e ↦ rw (insert_candidate, e) ((e, All-map ds (λ x n. goes_first_negtrans x d c n e) o.0), o)
]

pub order_candidates-IsOrdered : (cs : List EvictionCandidate) → IsOrdered (order_candidates cs)
unfolding order_candidates
order_candidates-IsOrdered [] = tt
order_candidates-IsOrdered (c ∷ cs) =
    insert_candidate-IsOrdered c (order_candidates cs) (order_candidates-IsOrdered cs)

-- The order only rearranges: the totals stay.
insert_totals :
    (c : EvictionCandidate) (ds : List EvictionCandidate)
    → (mem_of (insert_candidate c ds) ≡ c.mem_bytes + mem_of ds)
      × (vcpus_of (insert_candidate c ds) ≡ c.vcpus + vcpus_of ds)
unfolding insert_candidate mem_of vcpus_of
insert_totals c [] = (refl, refl)
insert_totals c (d ∷ ds) = elim (Bool-cases (goes_first d c)) [
  | inl e ↦
      let (m, v) = insert_totals c ds in
      rw (insert_candidate, e) (omega (arith, m), omega (arith, v))
  | inr e ↦ rw (insert_candidate, e) (refl, refl)
]

pub order_totals :
    (cs : List EvictionCandidate)
    → (mem_of (order_candidates cs) ≡ mem_of cs) × (vcpus_of (order_candidates cs) ≡ vcpus_of cs)
unfolding order_candidates mem_of vcpus_of
order_totals [] = (refl, refl)
order_totals (c ∷ cs) =
    let (m, v) = order_totals cs in
    let (n, w) = insert_totals c (order_candidates cs) in
    (n ∙ ap (λ (x : ℕ). c.mem_bytes + x) m, w ∙ ap (λ (x : ℕ). c.vcpus + x) v)

All-drop {κ} :
    (P : EvictionCandidate → Type κ) (xs ys : List EvictionCandidate) → All P (xs ++ ys) → All P ys
All-drop P [] ys h = h
All-drop P (x ∷ xs) ys h = All-drop P xs ys h.1

-- A later candidate does not go before an earlier one.
pub ordered_split :
    (before after : List EvictionCandidate)
    → IsOrdered (before ++ after)
    → All (λ v. All (λ r. goes_first r v ≡ false) after) before
ordered_split [] after o = tt
ordered_split (c ∷ before) after o =
    (All-drop (λ d. goes_first d c ≡ false) before after o.0, ordered_split before after o.1)
