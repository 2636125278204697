-- ===== src/Ipam/Leases.antt =====
-- The leases of the static allocator of internal/ipam/ipam.go under every sequence of calls.
use actions_runner_scaleset.Prelude.{
  ℕ, ◌==◌, ◌≡◌, ◌∙◌, subst, sym, refl, inl, inr, ◌⊎◌, true, Option, none, some, List, [], ◌∷◌,
  String, str_eq, arith, eq_iff, ==_iff, In, All, is_some, Bool-cases, Option-cases, if◌then◌else◌,
}
use actions_runner_scaleset.Prelude.Dict.{lookup, insert, lookup-insert, lookup-erase}
use actions_runner_scaleset.Ipam.{
  Static, first_free, allocate, release, has_duplicate, new_static, created,
}

abbrev pub lease : Static → ℕ → Option String
lease s vmid = lookup (λ a b. a == b) vmid s.leases

abbrev pub holder : Static → String → Option ℕ
holder s ip = lookup str_eq ip s.used

-- The reverse index is the inverse of the leases, and every lease is of the pool.
pub record IsConsistent (s : Static) : Type 0 where
  pub forward : (vmid : ℕ) (ip : String) → lease s vmid ≡ some ip → holder s ip ≡ some vmid
  pub backward : (vmid : ℕ) (ip : String) → holder s ip ≡ some vmid → lease s vmid ≡ some ip
  pub pooled : (vmid : ℕ) (ip : String) → lease s vmid ≡ some ip → In ip s.pool

pub first_free_cases :
    (used : List (String × ℕ)) (pool : List String)
    → ((ip : String) × (first_free used pool ≡ some ip)
        × In ip pool
        × (lookup str_eq ip used ≡ none))
      ⊎ ((first_free used pool ≡ none) × All (λ ip. is_some (lookup str_eq ip used) ≡ true) pool)
unfolding first_free
first_free_cases used [] = inr (refl, tt)
first_free_cases used (ip ∷ ips) = elim (Option-cases (lookup str_eq ip used)) [
  | inl e ↦ inl (ip, rw (first_free, e) refl, inl refl, e)
  | inr (v, e) ↦
      rw (first_free, e)
        (elim (first_free_cases used ips) [
          | inl (x, f, m, n) ↦ inl (x, f, inr m, n)
          | inr (f, all) ↦ inr (f, (refl, all))
        ])
]

enter_IsConsistent :
    (s : Static) (vmid : ℕ) (ip : String)
    → IsConsistent s
    → lease s vmid ≡ none
    → holder s ip ≡ none
    → In ip s.pool
    → IsConsistent (record s {
      leases = insert (λ a b. a == b) vmid ip s.leases;
      used = insert str_eq ip vmid s.used;
    })
enter_IsConsistent s vmid ip h n m p = record {
  forward = λ k a e. ground (
    arith,
    lookup-insert (λ a b. a == b) ==_iff vmid k ip s.leases,
    lookup-insert str_eq eq_iff ip a vmid s.used,
    h.forward k a,
    eq_iff ip a,
  );
  backward = λ k a e. ground (
    arith,
    lookup-insert (λ a b. a == b) ==_iff vmid k ip s.leases,
    lookup-insert str_eq eq_iff ip a vmid s.used,
    h.backward k a,
    eq_iff ip a,
  );
  pooled = λ k a e. elim (Bool-cases (vmid == k)) [
    | inl q ↦
        let got : ip ≡ a =
          ground (arith, lookup-insert (λ a b. a == b) ==_iff vmid k ip s.leases) in
        subst (λ (x : String). In x s.pool) got p
    | inr q ↦ h.pooled k a (ground (arith, lookup-insert (λ a b. a == b) ==_iff vmid k ip s.leases))
  ];
}

release-IsConsistent : (s : Static) (vmid : ℕ) → IsConsistent s → IsConsistent (release s vmid)
unfolding release
release-IsConsistent s vmid h = elim (Option-cases (lease s vmid)) [
  | inl e ↦ rw (e, release) h
  | inr (ip, e) ↦
      rw (e, release)
        (record {
          forward = λ k a f. ground (
            arith,
            lookup-erase (λ a b. a == b) ==_iff vmid k s.leases,
            lookup-erase str_eq eq_iff ip a s.used,
            h.forward k a,
            h.forward vmid ip e,
            eq_iff ip a,
          );
          backward = λ k a f. ground (
            arith,
            lookup-erase (λ a b. a == b) ==_iff vmid k s.leases,
            lookup-erase str_eq eq_iff ip a s.used,
            h.backward k a,
            e,
            eq_iff ip a,
          );
          pooled = λ k a f.
              h.pooled k a (ground (arith, lookup-erase (λ a b. a == b) ==_iff vmid k s.leases));
        })
]

-- Allocate on consistent leases: a VMID that holds an address is given it again and nothing changes;
-- another one is given an address of the pool that no VMID holds, and only its own lease is added; it
-- is given none, and nothing changes, exactly when every address of the pool is held.
pub allocate-exact :
    (s : Static) (vmid : ℕ)
    → IsConsistent s
    → let (u, r) = allocate s vmid in
      IsConsistent u
      × (u.pool ≡ s.pool)
      × (((ip : String) × (lease s vmid ≡ some ip) × (r ≡ some ip) × (u ≡ s))
          ⊎ ((ip : String) × (lease s vmid ≡ none)
              × (r ≡ some ip)
              × In ip s.pool
              × (holder s ip ≡ none)
              × ((k : ℕ) → lease u k ≡ (if vmid == k then some ip else lease s k)))
          ⊎ ((lease s vmid ≡ none)
              × (r ≡ none)
              × (u ≡ s)
              × All (λ ip. is_some (holder s ip) ≡ true) s.pool))
unfolding allocate
allocate-exact s vmid h = elim (Option-cases (lease s vmid)) [
  | inr (ip, e) ↦ rw (e, allocate) (h, refl, inl (ip, refl, refl, refl))
  | inl e ↦ elim (first_free_cases s.used s.pool) [
    | inl (ip, f, m, n) ↦
        rw (e, allocate, f)
          (
            enter_IsConsistent s vmid ip h e n m,
            refl,
            inr (
                inl (
                  ip,
                  refl,
                  refl,
                  m,
                  n,
                  λ k. lookup-insert (λ a b. a == b) ==_iff vmid k ip s.leases,
                )),
          )
    | inr (f, all) ↦ rw (e, allocate, f) (h, refl, inr (inr (refl, refl, refl, all)))
  ]
]

pub data Call : Type 0 where
  allocates releases : ℕ → Call

unfoldable pub calls : Static → List Call → Static
calls s [] = s
calls s (allocates vmid ∷ cs) = calls (allocate s vmid).0 cs
calls s (releases vmid ∷ cs) = calls (release s vmid) cs

release-pool : (s : Static) (vmid : ℕ) → (release s vmid).pool ≡ s.pool
unfolding release
release-pool s vmid = elim (Option-cases (lease s vmid)) [
  | inl e ↦ rw (e, release) refl
  | inr (ip, e) ↦ rw (e, release) refl
]

calls-IsConsistent :
    (s : Static) (cs : List Call)
    → IsConsistent s
    → IsConsistent (calls s cs) × ((calls s cs).pool ≡ s.pool)
unfolding calls
calls-IsConsistent s [] h = (h, refl)
calls-IsConsistent s (allocates vmid ∷ cs) h =
    let (h', same, r) = allocate-exact s vmid h in
    let (g, p) = calls-IsConsistent (allocate s vmid).0 cs h' in (g, p ∙ same)
calls-IsConsistent s (releases vmid ∷ cs) h =
    let (g, p) = calls-IsConsistent (release s vmid) cs (release-IsConsistent s vmid h) in
    (g, p ∙ release-pool s vmid)

pub new_static-IsConsistent :
    (pool : List String) (s : Static)
    → new_static pool ≡ created s
    → IsConsistent s × (s.pool ≡ pool)
unfolding new_static lookup
new_static-IsConsistent [] s e = cc
new_static-IsConsistent (ip ∷ ips) s e = elim (Bool-cases (has_duplicate [] (ip ∷ ips))) [
  | inl d ↦ absurd (cc (rw (d, new_static) at e))
  | inr d ↦
      let at : s ≡ record { pool = ip ∷ ips; leases = []; used = [] } =
        ground (arith, rw (d, new_static) at e) in
      rw at (
        record { forward = λ k a f. cc; backward = λ k a f. cc; pooled = λ k a f. absurd (cc) },
        refl,
      )
]

-- Whatever calls of Allocate and Release follow a NewStatic that succeeds, no address is held by two VMIDs, and every address held is of the pool.
pub leases_unique :
    (pool : List String) (s : Static) (cs : List Call) (j k : ℕ) (ip : String)
    → new_static pool ≡ created s
    → lease (calls s cs) j ≡ some ip
    → lease (calls s cs) k ≡ some ip
    → (j ≡ k) × In ip pool
leases_unique pool s cs j k ip e f g =
    let (start, at) = new_static-IsConsistent pool s e in
    let (h, same) = calls-IsConsistent s cs start in
    (
      some_injective (sym (h.forward j ip f) ∙ h.forward k ip g),
      subst (λ (ips : List String). In ip ips) (same ∙ at) (h.pooled j ip f),
    )
  where
    some_injective : {a b : ℕ} → some a ≡ some b → a ≡ b
    some_injective {a} {b} e = cc
