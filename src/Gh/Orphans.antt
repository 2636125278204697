-- ===== src/Gh/Orphans.antt =====
-- The clocks of sweepProxmoxOrphans in internal/gh/reconciler.go.
use actions_runner_scaleset.Prelude.{
  ℕ, ◌+◌, ◌==◌, ◌≡◌, ◌≤◌, ◌<◌, refl, inl, inr, ◌⊎◌, ◌∙◌, Bool, false, Option, some, List, [], ◌∷◌,
  arith, ltb, ==_iff, any, All, Bool-cases, Option-cases,
}
use actions_runner_scaleset.Prelude.Dict.{lookup, erase, insert, lookup-erase, lookup-insert}
use actions_runner_scaleset.Gh.{is_known, prune_known, sweep_vms, sweep_proxmox_orphans}

abbrev pub clock_of : ℕ → List (ℕ × ℕ) → Option ℕ
clock_of k clocks = lookup (λ a b. a == b) k clocks

module _ (k : ℕ) where
  erase_other :
      (j : ℕ) (clocks : List (ℕ × ℕ))
      → (j == k) ≡ false
      → clock_of k (erase (λ a b. a == b) j clocks) ≡ clock_of k clocks
  erase_other j clocks n = ground (arith, lookup-erase (λ a b. a == b) ==_iff j k clocks)

  prune_known-keeps :
      (known : List ℕ) (clocks : List (ℕ × ℕ))
      → is_known k known ≡ false
      → clock_of k (prune_known known clocks) ≡ clock_of k clocks
  unfolding prune_known is_known any
  prune_known-keeps [] clocks n = refl
  prune_known-keeps (j ∷ known) clocks n =
      prune_known-keeps known (erase (λ a b. a == b) j clocks) (ground arith)
      ∙ erase_other j clocks (ground arith)

  module _ (grace now : ℕ) (known : List ℕ) (gone : ℕ → Bool) where
    sweep_vms-keeps :
        (vmids : List ℕ) (clocks : List (ℕ × ℕ))
        → is_known k vmids ≡ false
        → clock_of k (sweep_vms grace now known gone vmids clocks).0 ≡ clock_of k clocks
    unfolding sweep_vms any
    sweep_vms-keeps [] clocks n = refl
    sweep_vms-keeps (j ∷ vmids) clocks n = elim (Bool-cases (is_known j known)) [
      | inl e ↦ rw (sweep_vms, e) (sweep_vms-keeps vmids clocks (ground arith))
      | inr e ↦ elim (Option-cases (lookup (λ a b. a == b) j clocks)) [
        | inl f ↦
            rw (sweep_vms, e, f)
              (sweep_vms-keeps vmids (insert (λ a b. a == b) j now clocks) (ground arith)
                ∙ ground (arith, n, lookup-insert (λ a b. a == b) ==_iff j k now clocks))
        | inr (first, f) ↦ elim (Bool-cases (ltb now (first + grace))) [
          | inl g ↦ rw (sweep_vms, e, f, g) (sweep_vms-keeps vmids clocks (ground arith))
          | inr g ↦
              rw (sweep_vms, e, f, g)
                (elim (Bool-cases (gone j)) [
                  | inl d ↦ rw d (
                      sweep_vms-keeps vmids (erase (λ a b. a == b) j clocks) (ground arith)
                      ∙ erase_other j clocks (ground arith))
                  | inr d ↦ rw d (sweep_vms-keeps vmids clocks (ground arith))
                ])
        ]
      ]
    ]

-- A VM is tracked as an orphan (while its row drains, say), and then it is gone from Proxmox and from
-- the table for a tick. When its VMID comes back in a later tick, as a new VM whose row was not yet in
-- the listing of that tick, the new VM is destroyed at once if the grace has passed since the old VM
-- was first seen: the clock of the old VM is not dropped when it disappears.
pub stale_clock_destroys :
    (grace first now later k : ℕ) (known known_later : List ℕ) (gone : ℕ → Bool) (vmids : List ℕ)
    (clocks : List (ℕ × ℕ))
    → clock_of k clocks ≡ some first
    → is_known k known ≡ false
    → is_known k vmids ≡ false
    → is_known k known_later ≡ false
    → first + grace ≤ later
    → (sweep_proxmox_orphans grace later known_later gone
        (k ∷ [])
        (sweep_proxmox_orphans grace now known gone vmids clocks).0).1
      ≡ k ∷ []
unfolding sweep_proxmox_orphans sweep_vms
stale_clock_destroys grace first now later k known known_later gone vmids clocks c n m n' le =
    let kept =
      sweep_vms-keeps k grace now known gone vmids (prune_known known clocks) m
      ∙ prune_known-keeps k known clocks n
      ∙ c in
    let still =
      prune_known-keeps k known_later
        (sweep_vms grace now known gone vmids (prune_known known clocks)).0 n'
      ∙ kept in
    let late : ltb later (first + grace) ≡ false = ground arith in
    rw (sweep_vms, n', still, late) refl

-- The VM has no row, and its clock has run for the grace.
abbrev pub IsExpired : ℕ → ℕ → List ℕ → List (ℕ × ℕ) → ℕ → Type 0
IsExpired grace now known start k =
    (is_known k known ≡ false)
    × ((first : ℕ) × (clock_of k start ≡ some first) × (first + grace ≤ now))

module _ (grace now : ℕ) (known : List ℕ) (gone : ℕ → Bool) (start : List (ℕ × ℕ))
    (pos : 0 < grace) where
  -- Each clock is one of the start, or has just been set.
  abbrev IsFrom : List (ℕ × ℕ) → Type 0
  IsFrom clocks =
      (k first : ℕ)
      → clock_of k clocks ≡ some first
      → (clock_of k start ≡ some first) ⊎ (first ≡ now)

  insert-IsFrom :
      (j : ℕ) (clocks : List (ℕ × ℕ)) → IsFrom clocks → IsFrom (insert (λ a b. a == b) j now clocks)
  insert-IsFrom j clocks h k first e = elim (Bool-cases (j == k)) [
    | inl p ↦ inr (ground (arith, lookup-insert (λ a b. a == b) ==_iff j k now clocks))
    | inr p ↦ h k first (ground (arith, lookup-insert (λ a b. a == b) ==_iff j k now clocks))
  ]

  erase-IsFrom :
      (j : ℕ) (clocks : List (ℕ × ℕ)) → IsFrom clocks → IsFrom (erase (λ a b. a == b) j clocks)
  erase-IsFrom j clocks h k first e =
      h k first (ground (arith, lookup-erase (λ a b. a == b) ==_iff j k clocks))

  sweep_vms-IsExpired :
      (vmids : List ℕ) (clocks : List (ℕ × ℕ))
      → IsFrom clocks
      → All (IsExpired grace now known start) (sweep_vms grace now known gone vmids clocks).1
  unfolding sweep_vms
  sweep_vms-IsExpired [] clocks h = tt
  sweep_vms-IsExpired (j ∷ vmids) clocks h = elim (Bool-cases (is_known j known)) [
    | inl e ↦ rw (sweep_vms, e) (sweep_vms-IsExpired vmids clocks h)
    | inr e ↦ elim (Option-cases (lookup (λ a b. a == b) j clocks)) [
      | inl f ↦
          rw (sweep_vms, e, f)
            (sweep_vms-IsExpired vmids (insert (λ a b. a == b) j now clocks)
              (insert-IsFrom j clocks h))
      | inr (first, f) ↦ elim (Bool-cases (ltb now (first + grace))) [
        | inl g ↦ rw (sweep_vms, e, f, g) (sweep_vms-IsExpired vmids clocks h)
        | inr g ↦
            rw (sweep_vms, e, f, g)
              (
                expired j first e (h j first f) g,
                elim (Bool-cases (gone j)) [
                  | inl d ↦ rw d (
                      sweep_vms-IsExpired vmids (erase (λ a b. a == b) j clocks)
                        (erase-IsFrom j clocks h))
                  | inr d ↦ rw d (sweep_vms-IsExpired vmids clocks h)
                ],
              )
      ]
    ]
  ]
    where
      expired :
          (j first : ℕ)
          → is_known j known ≡ false
          → (clock_of j start ≡ some first) ⊎ (first ≡ now)
          → ltb now (first + grace) ≡ false
          → IsExpired grace now known start j
      expired j first e (inl c) g = (e, (first, c, ground arith))
      expired j first e (inr c) g = absurd (ground arith)

prune_known-some :
    (known : List ℕ) (clocks : List (ℕ × ℕ)) (k first : ℕ)
    → clock_of k (prune_known known clocks) ≡ some first
    → clock_of k clocks ≡ some first
unfolding prune_known
prune_known-some [] clocks k first e = e
prune_known-some (j ∷ known) clocks k first e =
    let rest = prune_known-some known (erase (λ a b. a == b) j clocks) k first e in
    ground (arith, rest, lookup-erase (λ a b. a == b) ==_iff j k clocks)

-- Every VM that sweepProxmoxOrphans destroys, with a grace above 0, has no row in the listing and was
-- first seen as an orphan in an earlier tick, at least the grace ago.
pub orphans_wait :
    (grace now : ℕ) (known : List ℕ) (gone : ℕ → Bool) (vmids : List ℕ) (clocks : List (ℕ × ℕ))
    → 0 < grace
    → All
        (IsExpired grace now known clocks)
        (sweep_proxmox_orphans grace now known gone vmids clocks).1
unfolding sweep_proxmox_orphans
orphans_wait grace now known gone vmids clocks pos =
    sweep_vms-IsExpired grace now known gone clocks pos vmids (prune_known known clocks)
      (λ k first e. inl (prune_known-some known clocks k first e))
