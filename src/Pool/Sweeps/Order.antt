-- ===== src/Pool/Sweeps/Order.antt =====
-- The rows that the sweeps of internal/pool/manager.go list: each VMID once, in the order of their age.
use actions_runner_scaleset.Prelude.{
  ℕ, suc, ◌==◌, ◌≡◌, ◌≢◌, ◌≤◌, refl, inl, inr, ◌∙◌, ap, sym, subst, Option, Bool, false, none, some,
  List, [], ◌∷◌, arith, Option-cases, All, All-map, length, count, filter, leb, Bool-cases,
}
use actions_runner_scaleset.Store.{Vm}
use actions_runner_scaleset.Store.Table.{Memdb, by_id, hit}
use actions_runner_scaleset.Store.Bursts.{DistinctVms}
use actions_runner_scaleset.Pool.Sweeps.{insert_by_age, sort_by_age}

count_zero : (p : Vm → Bool) (vs : List Vm) → All (λ v. p v ≡ false) vs → count p vs ≡ 0
unfolding count
count_zero p [] h = refl
count_zero p (v ∷ vs) h = rw (h.0) (omega (arith, count_zero p vs h.1))

zero_count : (p : Vm → Bool) (vs : List Vm) → count p vs ≡ 0 → All (λ v. p v ≡ false) vs
unfolding count
zero_count p [] h = tt
zero_count p (v ∷ vs) h = (ground (arith, h), zero_count p vs (omega (arith, h)))

count-filter : (p q : Vm → Bool) (vs : List Vm) → count p (filter q vs) ≤ count p vs
unfolding count filter
count-filter p q [] = omega arith
count-filter p q (v ∷ vs) = ground (arith, count-filter p q vs)

hit_le : (p : Vm → Bool) (o : Option Vm) → hit p o ≤ 1
hit_le p none = omega arith
hit_le p (some v) = ground arith

distinct_of_count :
    (db : Memdb) (vs : List Vm) → ((k : ℕ) → count (λ v. v.vmid == k) vs ≤ 1) → DistinctVms db vs
unfolding count
distinct_of_count db [] h = tt
distinct_of_count db (v ∷ vs) h = (
  All-map vs (λ w e. ground (arith, e))
      (zero_count (λ w. w.vmid == v.vmid) vs (ground (arith, h v.vmid))),
  distinct_of_count db vs (λ k. omega (arith, h k)),
)

insert_by_age-All {κ} :
    (P : Vm → Type κ) (v : Vm) (ws : List Vm) → P v → All P ws → All P (insert_by_age v ws)
unfolding insert_by_age
insert_by_age-All P v [] p h = (p, tt)
insert_by_age-All P v (w ∷ ws) p h = elim (Bool-cases (leb v.created_at w.created_at)) [
  | inl e ↦ rw (insert_by_age, e) (p, h)
  | inr e ↦ rw (insert_by_age, e) (h.0, insert_by_age-All P v ws p h.1)
]

pub sort_by_age-All {κ} : (P : Vm → Type κ) (vs : List Vm) → All P vs → All P (sort_by_age vs)
unfolding sort_by_age
sort_by_age-All P [] h = tt
sort_by_age-All P (v ∷ vs) h = insert_by_age-All P v (sort_by_age vs) h.0 (sort_by_age-All P vs h.1)

length-insert_by_age : (v : Vm) (ws : List Vm) → length (insert_by_age v ws) ≡ suc (length ws)
unfolding insert_by_age
length-insert_by_age v [] = refl
length-insert_by_age v (w ∷ ws) = elim (Bool-cases (leb v.created_at w.created_at)) [
  | inl e ↦ rw (insert_by_age, e) refl
  | inr e ↦ rw (insert_by_age, e) (ap suc (length-insert_by_age v ws))
]

pub length-sort_by_age : (vs : List Vm) → length (sort_by_age vs) ≡ length vs
unfolding sort_by_age
length-sort_by_age [] = refl
length-sort_by_age (v ∷ vs) =
    length-insert_by_age v (sort_by_age vs) ∙ ap suc (length-sort_by_age vs)

insert_by_age-DistinctVms :
    (db : Memdb) (v : Vm) (ws : List Vm)
    → All (λ w. w.vmid ≢ v.vmid) ws
    → DistinctVms db ws
    → DistinctVms db (insert_by_age v ws)
unfolding insert_by_age
insert_by_age-DistinctVms db v [] n d = (tt, tt)
insert_by_age-DistinctVms db v (w ∷ ws) n d = elim (Bool-cases (leb v.created_at w.created_at)) [
  | inl e ↦ rw (insert_by_age, e) (n, d)
  | inr e ↦
      rw (insert_by_age, e)
        (
          insert_by_age-All (λ x. x.vmid ≢ w.vmid) v ws (λ q. n.0 (sym q)) d.0,
          insert_by_age-DistinctVms db v ws n.1 d.1,
        )
]

pub sort_by_age-DistinctVms :
    (db : Memdb) (vs : List Vm) → DistinctVms db vs → DistinctVms db (sort_by_age vs)
unfolding sort_by_age
sort_by_age-DistinctVms db [] d = tt
sort_by_age-DistinctVms db (v ∷ vs) d =
    insert_by_age-DistinctVms db v (sort_by_age vs) (sort_by_age-All (λ w. w.vmid ≢ v.vmid) vs d.0)
      (sort_by_age-DistinctVms db vs d.1)

module _ (db : Memdb) where
  open db use {Table, first, get, first-vmid, first-get, remove, first-remove, count-remove}

  absent : (t : Table) (k : ℕ) → first t k ≡ none → count (λ v. v.vmid == k) (get t by_id) ≡ 0
  absent t k e =
      count_zero (λ v. v.vmid == k) (get t by_id)
        (All-map (get t by_id) (λ v f. other v f) (first-get t))
    where
      other : (v : Vm) → first t v.vmid ≡ some v → (v.vmid == k) ≡ false
      other v f = elim (Bool-cases (v.vmid == k)) [
        | inl p ↦
            let same : v.vmid ≡ k = ground arith in
            absurd (cc (e, subst (λ (j : ℕ). first t j ≡ some v) same f))
        | inr p ↦ p
      ]

  -- A VMID stands in the table at most once.
  vmid_once : (t : Table) (k : ℕ) → count (λ v. v.vmid == k) (get t by_id) ≤ 1
  vmid_once t k = elim (Option-cases (first t k)) [
    | inl e ↦ omega (arith, absent t k e)
    | inr (v, e) ↦
        let at = first-vmid t k v e in
        let gone : first (remove t v) k ≡ none = ground (arith, first-remove t v k, at) in
        omega (
          arith,
          absent (remove t v) k gone,
          count-remove t v (λ w. w.vmid == k),
          hit_le (λ w. w.vmid == k) (first t v.vmid),
        )
  ]

  pub listed_distinct : (t : Table) (p : Vm → Bool) → DistinctVms db (filter p (get t by_id))
  listed_distinct t p =
      distinct_of_count db (filter p (get t by_id))
        (λ k. omega (arith, vmid_once t k, count-filter (λ v. v.vmid == k) p (get t by_id)))
