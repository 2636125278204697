-- ===== src/Pool/Eviction/Plans.antt =====
-- What planEviction of internal/pool/capacity.go chooses.
use mathlib.Core.List.{append_assoc}
use actions_runner_scaleset.Prelude.{
  ℕ, ◌+◌, ◌^◌, ◌≡◌, ◌<◌, sym, inl, inr, ◌⊎◌, ◌∙◌, ap, subst, true, false, List, [], ◌∷◌, ◌++◌,
  arith, All, Bool-cases,
}
use actions_runner_scaleset.Nodecap.{Shape, NodeState}
use actions_runner_scaleset.Pool.Eviction.{
  EvictionCandidate, EvictionPlan, fits_node, goes_first, order_candidates, mem_gap_of, vcpu_gap_of,
  plan_eviction,
}
use actions_runner_scaleset.Pool.Eviction.Closing.{mem_of, vcpus_of, enough, close_gap-Closed}
use actions_runner_scaleset.Pool.Eviction.Ordered.{
  IsOrdered, order_candidates-IsOrdered, order_totals, ordered_split,
}

-- The node after VMs of so much memory and so many vCPUs are gone.
abbrev pub freed_by : NodeState → ℕ → ℕ → NodeState
freed_by st m v = record st {
  available_bytes = st.available_bytes + m;
  available_vcpu = st.available_vcpu + v;
}

enough_iff_fits :
    (shape : Shape) (st : NodeState) (m v : ℕ)
    → enough (mem_gap_of shape st) (vcpu_gap_of shape st) m v ≡ fits_node (freed_by st m v) shape
unfolding fits_node
enough_iff_fits shape st m v = elim (Bool-cases st.cpu_gated) [
  | inl e ↦ rw e (ground arith)
  | inr e ↦ rw e (ground arith)
]

nothing_freed :
    (shape : Shape) (st : NodeState) → fits_node (freed_by st 0 0) shape ≡ fits_node st shape
unfolding fits_node
nothing_freed shape st = ground arith

append_totals :
    (cs : List EvictionCandidate) (c : EvictionCandidate)
    → (mem_of (cs ++ c ∷ []) ≡ mem_of cs + c.mem_bytes)
      × (vcpus_of (cs ++ c ∷ []) ≡ vcpus_of cs + c.vcpus)
unfolding mem_of vcpus_of
append_totals [] c = (omega arith, omega arith)
append_totals (d ∷ cs) c = let (m, v) = append_totals cs c in (omega (arith, m), omega (arith, v))

-- The two ways in which a plan can answer a shortage.
abbrev pub Chosen : List EvictionCandidate → Shape → NodeState → EvictionPlan → Type 0
Chosen candidates shape st p =
    ((p.victims ≡ [])
      × (fits_node (freed_by st (mem_of candidates) (vcpus_of candidates)) shape ≡ false))
    ⊎ ((more : List EvictionCandidate) × (last : EvictionCandidate) × (spared : List
          EvictionCandidate)
        × (p.victims ≡ more ++ last ∷ [])
        × (order_candidates candidates ≡ p.victims ++ spared)
        × (p.freed_mem ≡ mem_of p.victims)
        × (p.freed_vcpu ≡ vcpus_of p.victims)
        × (fits_node (freed_by st p.freed_mem p.freed_vcpu) shape ≡ true)
        × (fits_node (freed_by st (mem_of more) (vcpus_of more)) shape ≡ false)
        × All (λ v. All (λ r. goes_first r v ≡ false) spared) p.victims)

-- planEviction on a node on which the clone does not fit, for candidates whose memory adds up to less
-- than 2^64 bytes. Either the clone would not fit even without all the candidates, and there are no
-- victims; or the victims are the first candidates in the eviction order, the clone fits once they
-- are gone and would not fit without the last of them, the freed totals are theirs, and no spared
-- candidate goes before a victim: with a spared warm one every victim is warm, and of one kind the
-- victims are the older.
pub plan_eviction-Chosen :
    (candidates : List EvictionCandidate) (shape : Shape) (st : NodeState)
    → mem_of candidates < 2 ^ 64
    → fits_node st shape ≡ false
    → Chosen candidates shape st (plan_eviction candidates shape st)
unfolding plan_eviction
plan_eviction-Chosen candidates shape st b n =
    let (m, v) = order_totals candidates in
    let mg = mem_gap_of shape st in
    let vg = vcpu_gap_of shape st in
    rw (plan_eviction, n)
      (elim (close_gap-Closed mg vg [] 0 0 (order_candidates candidates) (omega (arith, m, b))
        (enough_iff_fits shape st 0 0 ∙ nothing_freed shape st ∙ n)) [
          | inl (q, r) ↦ inl (
            q,
            sym (enough_iff_fits shape st (mem_of candidates) (vcpus_of candidates))
                ∙ ground (arith, r, m, v),
          )
          | inr (more, last, rest, split, vs, fm, fv, less, done) ↦
              let o =
                split ∙ sym (append_assoc more (last ∷ []) rest) ∙ ap (λ xs. xs ++ rest) (sym vs) in
              let (mem, vcpu) = append_totals more last in
              inr (
                more,
                last,
                rest,
                vs,
                o,
                omega (arith, fm, ap mem_of vs, mem),
                omega (arith, fv, ap vcpus_of vs, vcpu),
                sym (enough_iff_fits shape st _ _) ∙ done,
                sym (enough_iff_fits shape st (mem_of more) (vcpus_of more)) ∙ ground (arith, less),
                ordered_split _ rest (subst IsOrdered o (order_candidates-IsOrdered candidates)),
              )
        ])
