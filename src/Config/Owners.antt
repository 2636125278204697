-- ===== src/Config/Owners.antt =====
-- What an accepted configuration (internal/config) means for the owner tags (internal/tags) and the
-- VMID allocators of its scale sets.
use actions_runner_scaleset.Prelude.{
  ℕ, ◌≡◌, ◌≢◌, ◌≤◌, ◌<◌, ◌⊎◌, inl, inr, ap, sym, false, none, some, List, [], ◌∷◌, ◌++◌, All, arith,
  Bool-cases, Option-cases, All-map, All-drop, All-of-In, ◌∙◌, subst,
}
use actions_runner_scaleset.Prelude.Runes.{Runes, codes, runes_eq, runes_eq_iff}
use actions_runner_scaleset.Prelude.Checks.{Pairwise}
use actions_runner_scaleset.Tags.{owner_prefix, sanitize, initial, encode, is_owned_by}
use actions_runner_scaleset.Tags.Initials.{initial_reads}
use actions_runner_scaleset.Config.{ScaleSetEntry, Range, PoolConfig, declared, validate_scalesets}
use actions_runner_scaleset.Config.Apart.{tag_of, Differ, Disjoint, Sound, validate_scalesets_iff}

module _ {A : Type 0} where
  Pairwise-at :
      (R : A → A → Type 0) (xs : List A) (a : A) (ys : List A) (b : A) (zs : List A)
      → Pairwise R (xs ++ (a ∷ (ys ++ (b ∷ zs))))
      → R a b
  Pairwise-at R [] a ys b zs h = (All-drop (R a) ys (b ∷ zs) h.0).0
  Pairwise-at R (x ∷ xs) a ys b zs h = Pairwise-at R xs a ys b zs h.1

none-some : {A : Type 0} {x : A} → none ≡ some x → ⊥
none-some h = cc

some_inj : {A : Type 0} {x y : A} → some x ≡ some y → x ≡ y
some_inj h = cc

-- The declared ranges of two scale sets share no VMID.
abbrev RangesApart : ScaleSetEntry → ScaleSetEntry → Type 0
RangesApart a b = (r q : Range) → a.vmid_range ≡ some r → b.vmid_range ≡ some q → Disjoint r q

declared_later :
    (r : Range) (l : List ScaleSetEntry)
    → All (Disjoint r) (declared l)
    → All (λ b. (q : Range) → b.vmid_range ≡ some q → Disjoint r q) l
declared_later r [] h = tt
declared_later r (s ∷ rest) h = elim (Option-cases s.vmid_range) [
  | inl e ↦ (λ q f. absurd (none-some (sym e ∙ f)), declared_later r rest (rw e at h))
  | inr (p, e) ↦
      (let (here, later) = (rw e at h) in
        (λ q f. subst (Disjoint r) (some_inj (sym e ∙ f)) here, declared_later r rest later))
]

declared-RangesApart :
    (l : List ScaleSetEntry) → Pairwise Disjoint (declared l) → Pairwise RangesApart l
declared-RangesApart [] h = tt
declared-RangesApart (s ∷ rest) h = elim (Option-cases s.vmid_range) [
  | inl e ↦ (
    All-of-In (RangesApart s) rest (λ b m r q d. absurd (none-some (sym e ∙ d))),
    declared-RangesApart rest (rw e at h),
  )
  | inr (p, e) ↦
      (let (here, later) = (rw e at h) in
        (
          All-map rest (λ b f r q d g. subst (λ t. Disjoint t q) (some_inj (sym e ∙ d)) (f q g))
              (declared_later p rest here),
          declared-RangesApart rest later,
        ))
]

unlike_tags :
    (a b : ScaleSetEntry)
    → tag_of a ≢ tag_of b
    → runes_eq (sanitize (codes a.name)) (sanitize (codes b.name)) ≡ false
unlike_tags a b d =
    elim (Bool-cases (runes_eq (sanitize (codes a.name)) (sanitize (codes b.name)))) [
      | inl e ↦ absurd (
          d (
            ap (λ t. owner_prefix ++ t)
              ((runes_eq_iff (sanitize (codes a.name)) (sanitize (codes b.name))).0 e)))
      | inr e ↦ e
    ]

-- In a configuration that validateScalesets accepts, a VM that is tagged for one scale set is not owned
-- by a later one, nor the other way around, and no VMID is in the declared ranges of both.
pub owners_exclusive :
    (pool : PoolConfig) (before between after : List ScaleSetEntry) (a b : ScaleSetEntry)
    (profile class : Runes) (tags_a tags_b : List Runes) (r q : Range) (vmid : ℕ)
    → validate_scalesets pool (before ++ (a ∷ (between ++ (b ∷ after)))) ≡ none
    → initial (codes a.name) profile class ≡ some tags_a
    → initial (codes b.name) profile class ≡ some tags_b
    → a.vmid_range ≡ some r
    → b.vmid_range ≡ some q
    → r.min ≤ vmid
    → vmid ≤ r.max
    → (is_owned_by (encode tags_a) (codes b.name) ≡ false)
      × (is_owned_by (encode tags_b) (codes a.name) ≡ false)
      × ((vmid < q.min) ⊎ (q.max < vmid))
owners_exclusive pool before between after a b profile class tags_a tags_b r q vmid h ta tb ra rb lo
      hi =
    let (some_set, ((sound, differ), (ranges, apart))) = (validate_scalesets_iff pool _).0 h in
    let here = All-drop (Sound pool) before _ sound in
    let legal_a = here.0.0 in
    let legal_b = (All-drop (Sound pool) between _ here.1).0.0 in
    let distinct = (Pairwise-at Differ before a between b after differ).1 in
    let unlike = unlike_tags a b distinct in
    let separate =
      Pairwise-at RangesApart before a between b after (declared-RangesApart _ apart) r q ra rb in
    (
      (initial_reads (codes a.name) profile class (codes b.name) tags_a ta legal_b).2 ∙ unlike,
      (initial_reads (codes b.name) profile class (codes a.name) tags_b tb legal_a).2
          ∙ unlike_tags b a (λ e. distinct (sym e)),
      omega (arith, separate),
    )
