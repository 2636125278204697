-- ===== src/Pool/Parked/Claims.antt =====
-- claimParked of internal/pool/capacity.go neither loses nor doubles a reservation.
use actions_runner_scaleset.Prelude.{
  ℕ, ◌+◌, ◌≡◌, ◌≤◌, ◌<◌, refl, inl, inr, ◌⊎◌, Bool, true, false, Option, none, some, List, [], ◌∷◌,
  ◌++◌, String, ltb, arith, subst, All, All-append, All-map, Bool-cases, count, bit,
}
use actions_runner_scaleset.Pool.Parked.{Parked, drain_evicted, sort_parked, claim_parked}

module _ {Reservation : Type 0} where
  abbrev pub taken : (Parked Reservation → Bool) → Option (Parked Reservation) → ℕ
  taken q none = 0
  taken q (some p) = bit (q p)

  count-append :
      (q : Parked Reservation → Bool) (xs ys : List (Parked Reservation))
      → count q (xs ++ ys) ≡ count q xs + count q ys
  unfolding count
  count-append q [] ys = omega arith
  count-append q (x ∷ xs) ys = omega (arith, count-append q xs ys)

  drain_counts :
      (now : ℕ) (ps : List (Parked Reservation)) (q : Parked Reservation → Bool)
      → let (out, released) = drain_evicted Reservation now ps in
        count q out + count q released ≡ count q ps
  unfolding drain_evicted count
  drain_counts now [] q = refl
  drain_counts now (p ∷ ps) q = elim (Bool-cases (ltb p.expires now)) [
    | inl e ↦ rw (drain_evicted, e) (omega (arith, drain_counts now ps q))
    | inr e ↦ rw (drain_evicted, e) (omega (arith, drain_counts now ps q))
  ]

  drain_fresh :
      (now : ℕ) (ps : List (Parked Reservation))
      → All (λ p. now ≤ p.expires) (drain_evicted Reservation now ps).0
        × All (λ p. p.expires < now) (drain_evicted Reservation now ps).1
  unfolding drain_evicted
  drain_fresh now [] = (tt, tt)
  drain_fresh now (p ∷ ps) = elim (Bool-cases (ltb p.expires now)) [
    | inl e ↦
        let lt : p.expires < now = ground arith in
        rw (drain_evicted, e) ((drain_fresh now ps).0, (lt, (drain_fresh now ps).1))
    | inr e ↦
        let le : now ≤ p.expires = ground arith in
        rw (drain_evicted, e) ((le, (drain_fresh now ps).0), (drain_fresh now ps).1)
  ]

  module _ (eligible known : String → Bool) where
    sort_counts :
        (chosen : Option (Parked Reservation)) (ps : List (Parked Reservation))
        (q : Parked Reservation → Bool)
        → let s = sort_parked Reservation eligible known chosen ps in
          taken q s.chosen + count q s.keep + count q s.released ≡ taken q chosen + count q ps
    unfolding sort_parked count
    sort_counts none [] q = refl
    sort_counts (some c) [] q = omega arith
    sort_counts (some c) (p ∷ ps) q = omega (arith, sort_counts (some c) ps q)
    sort_counts none (p ∷ ps) q = elim (Bool-cases (eligible p.node)) [
      | inl e ↦ rw (sort_parked, e) (omega (arith, sort_counts (some p) ps q))
      | inr e ↦ elim (Bool-cases (known p.node)) [
        | inl f ↦ rw (sort_parked, e, f) (omega (arith, sort_counts none ps q))
        | inr f ↦ rw (sort_parked, e, f) (omega (arith, sort_counts none ps q))
      ]
    ]

    abbrev pub Refused : Parked Reservation → Type 0
    Refused p = (eligible p.node ≡ false) × (known p.node ≡ true)

    chosen_stays :
        (c : Parked Reservation) (ps : List (Parked Reservation))
        → let s = sort_parked Reservation eligible known (some c) ps in
          (s.chosen ≡ some c) × (s.released ≡ [])
    unfolding sort_parked
    chosen_stays c [] = (refl, refl)
    chosen_stays c (p ∷ ps) = chosen_stays c ps

    sort_refuses :
        (ps : List (Parked Reservation))
        → All Refused (sort_parked Reservation eligible known none ps).released
    unfolding sort_parked
    sort_refuses [] = tt
    sort_refuses (p ∷ ps) = elim (Bool-cases (eligible p.node)) [
      | inl e ↦ rw (sort_parked, e, (chosen_stays p ps).1) tt
      | inr e ↦ elim (Bool-cases (known p.node)) [
        | inl f ↦ rw (sort_parked, e, f) ((e, f), sort_refuses ps)
        | inr f ↦ rw (sort_parked, e, f) (sort_refuses ps)
      ]
    ]

    -- None is chosen only if none is eligible; the chosen one is eligible and of the list.
    abbrev Picked :
        (Parked Reservation → Type 0)
        → List (Parked Reservation)
        → Option (Parked Reservation)
        → Type 0
    Picked P ps none = All (λ p. eligible p.node ≡ false) ps
    Picked P ps (some c) = (eligible c.node ≡ true) × P c

    sort_picks :
        (P : Parked Reservation → Type 0) (ps : List (Parked Reservation))
        → All P ps
        → ((s : Option (Parked Reservation)) × (s
              ≡ (sort_parked Reservation eligible known none ps).chosen)
            × Picked P ps s)
    unfolding sort_parked
    sort_picks P [] h = (none, refl, tt)
    sort_picks P (p ∷ ps) h = elim (Bool-cases (eligible p.node)) [
      | inl e ↦ rw (sort_parked, e, (chosen_stays p ps).0) (some p, refl, (e, h.0))
      | inr e ↦ elim (Bool-cases (known p.node)) [
        | inl f ↦ rw (sort_parked, e, f) (later p ps e (sort_picks P ps h.1))
        | inr f ↦ rw (sort_parked, e, f) (later p ps e (sort_picks P ps h.1))
      ]
    ]
      where
        later :
            (p : Parked Reservation) (ps : List (Parked Reservation))
            → eligible p.node ≡ false
            → {o : Option (Parked Reservation)}
            → ((s : Option (Parked Reservation)) × (s ≡ o) × Picked P ps s)
            → ((s : Option (Parked Reservation)) × (s ≡ o) × Picked P (p ∷ ps) s)
        later p ps e (none, q, h) = (none, q, (e, h))
        later p ps e (some c, q, h) = (some c, q, h)

    -- Why a claim takes a reservation, or none.
    abbrev pub Fair : ℕ → List (Parked Reservation) → Option (Parked Reservation) → Type 0
    Fair now evicted none = All (λ p. (p.expires < now) ⊎ (eligible p.node ≡ false)) evicted
    Fair now evicted (some c) = (eligible c.node ≡ true) × (now ≤ c.expires)

    drained-All :
        (now : ℕ) (ps : List (Parked Reservation))
        → All (λ p. eligible p.node ≡ false) (drain_evicted Reservation now ps).0
        → All (λ p. (p.expires < now) ⊎ (eligible p.node ≡ false)) ps
    unfolding drain_evicted
    drained-All now [] h = tt
    drained-All now (p ∷ ps) h = elim (Bool-cases (ltb p.expires now)) [
      | inl e ↦
          let lt : p.expires < now = ground arith in
          (inl lt, drained-All now ps (rw (drain_evicted, e) at h))
      | inr e ↦ let k = rw (drain_evicted, e) at h in (inr k.0, drained-All now ps k.1)
    ]

    fair :
        (now : ℕ) (evicted : List (Parked Reservation)) (o : Option (Parked Reservation))
        → Picked (λ p. now ≤ p.expires) (drain_evicted Reservation now evicted).0 o
        → Fair now evicted o
    fair now evicted none h = drained-All now evicted h
    fair now evicted (some c) h = h

    -- claimParked accounts for each reservation exactly once: of the parked ones and of those that
    -- arrive meanwhile, as many of any kind as there are end up taken, still parked or released. It
    -- releases only reservations that are expired, or whose node is known not to be eligible. The one
    -- it takes is not expired and its node is eligible; it takes none only if each parked one is
    -- expired or not on an eligible node.
    pub claim_parked-Fair :
        (now : ℕ) (evicted arrived : List (Parked Reservation)) (kind : Parked Reservation → Bool)
        → let s = claim_parked Reservation eligible known now evicted arrived in
          (taken kind s.chosen + count kind s.keep + count kind s.released
            ≡ count kind evicted + count kind arrived)
          × All (λ p. (p.expires < now) ⊎ Refused p) s.released
          × Fair now evicted s.chosen
    unfolding claim_parked
    claim_parked-Fair now evicted arrived kind =
        let (out, expired) = drain_evicted Reservation now evicted in
        let s = sort_parked Reservation eligible known none out in
        let (o, same, picked) = sort_picks (λ p. now ≤ p.expires) out (drain_fresh now evicted).0 in
        (
          omega (
            arith,
            drain_counts now evicted kind,
            sort_counts none out kind,
            count-append kind arrived s.keep,
            count-append kind expired s.released,
          ),
          All-append (λ p. (p.expires < now) ⊎ Refused p) expired s.released
              (All-map expired (λ p h. inl h) (drain_fresh now evicted).1)
              (All-map s.released (λ p h. inr h) (sort_refuses out)),
          subst (Fair now evicted) same (fair now evicted o picked),
        )
