-- ===== src/Nodeselector/Placed.antt =====
-- Where the selectors of internal/nodeselector/nodeselector.go place a VM.
use actions_runner_scaleset.Prelude.{
  ℕ, zero, suc, ◌+◌, ◌%◌, ◌==◌, ◌≡◌, ◌⊎◌, ◌∙◌, refl, ap, inl, inr, Bool, true, false, not, ◌&&◌,
  Option, none, some, List, [], ◌∷◌, ◌++◌, String, contains, contains_iff, filter, length, In,
  In-filter, In-append, arith, Bool-cases, Option-cases, if◌then◌else◌,
}
use actions_runner_scaleset.Nodecap.{Shape}
use actions_runner_scaleset.Config.Fields.{AffinityRule}
use actions_runner_scaleset.Nodeselector.{
  Hint, chosen, Selector, Honours, nth, rotate, round_robin, matching_rule, excluded_by,
  eligible_from, among, affinity, affinity_select, has_room, capacity_select,
}

absent : (n : String) (xs : List String) → contains n xs ≡ false → In n xs → ⊥
absent n xs h m = cc (h, (contains_iff n xs).1 m)

absent_before :
    (n : String) (xs ys : List String) → contains n (xs ++ ys) ≡ false → contains n xs ≡ false
absent_before n xs ys h = elim (Bool-cases (contains n xs)) [
  | inl e ↦ absurd (absent n (xs ++ ys) h ((In-append n xs ys).1 (inl ((contains_iff n xs).0 e))))
  | inr e ↦ e
]

-- A node that is not among those that fail a test passes it.
passes :
    (p : String → Bool) (n : String) (xs ys : List String)
    → contains n (xs ++ filter (λ m. not (p m)) ys) ≡ false
    → In n ys
    → p n ≡ true
passes p n xs ys h m = elim (Bool-cases (p n)) [
  | inl e ↦ e
  | inr e ↦ absurd (
      absent n _ h (
        (In-append n xs (filter (λ m. not (p m)) ys)).1
          (inr ((In-filter (λ m. not (p m)) ys n).1 (m, ap not e)))))
]

-- A node where the rule lets the VM be: with no VM that it keeps apart from, and preferred if it must.
abbrev pub Allowed : AffinityRule → Hint → String → Type 0
Allowed r h n =
    (contains n (excluded_by r.anti_affinity_with h.existing_vms) ≡ false)
    × ((r.require ≡ false) ⊎ (r.prefer_nodes ≡ []) ⊎ In n r.prefer_nodes)

List-cases : (xs : List String) → (xs ≡ []) ⊎ ((n : String) × (ns : List String) × (xs ≡ n ∷ ns))
List-cases [] = inl refl
List-cases (n ∷ ns) = inr (n, ns, refl)

module _ (s : Selector) (rules : List AffinityRule) (all_nodes : List String)
    (law : Honours all_nodes s) where
  open law use {known, avoids}

  -- The choice among eligible nodes.
  chosen_eligible :
      (t : s.Memory) (h : Hint) (es : List String) (n : String)
      → (s.select t (record h { avoid = among all_nodes es h })).1 ≡ chosen n
      → In n all_nodes × (contains n h.avoid ≡ false) × In n es
  unfolding among
  chosen_eligible t h es n e =
      let hint = record h { avoid = among all_nodes es h } in
      let clear = avoids t hint n e in
      let m = known t hint n e in
      (
        m,
        absent_before n h.avoid _ clear,
        (contains_iff n es).0 (passes (λ k. contains k es) n h.avoid all_nodes clear m),
      )

  eligible :
      (candidates excluded avoid : List String) (n : String)
      → In n (eligible_from candidates excluded avoid)
      → In n candidates × (contains n excluded ≡ false)
  unfolding eligible_from
  eligible candidates excluded avoid n m =
      let (i, p) =
        (In-filter (λ n. not (contains n excluded) && not (contains n avoid)) candidates n).0 m in
      (i, ground arith)

  -- The preferred nodes, or all.
  preferred :
      (r : AffinityRule) (n : String)
      → In n (if length r.prefer_nodes == 0 then all_nodes else r.prefer_nodes)
      → (r.prefer_nodes ≡ []) ⊎ In n r.prefer_nodes
  preferred r n m = elim (List-cases r.prefer_nodes) [
    | inl e ↦ inl e
    | inr (x, xs, e) ↦ inr (rw e (ground (arith, rw e at m)))
  ]

  affinity-Allowed :
      (t : s.Memory) (h : Hint) (r : AffinityRule) (n : String)
      → matching_rule rules h.profile ≡ some r
      → (affinity_select s rules all_nodes t h).1 ≡ chosen n
      → In n all_nodes × (contains n h.avoid ≡ false) × Allowed r h n
  unfolding affinity_select
  affinity-Allowed t h r n m e =
      let excluded = excluded_by r.anti_affinity_with h.existing_vms in
      let candidates = if length r.prefer_nodes == 0 then all_nodes else r.prefer_nodes in
      elim (List-cases (eligible_from candidates excluded h.avoid)) [
        | inr (x, xs, f) ↦
            let (k, c, i) = chosen_eligible t h (x ∷ xs) n (rw (affinity_select, m, f) at e) in
            let (j, z) = eligible candidates excluded h.avoid n (rw f i) in
            (k, c, (z, inr (preferred r n j)))
        | inl f ↦ elim (Bool-cases r.require) [
          | inl q ↦ absurd (cc (rw (affinity_select, m, f, q) at e))
          | inr q ↦ elim (List-cases (eligible_from all_nodes excluded h.avoid)) [
            | inl g ↦ absurd (cc (rw (affinity_select, m, f, q, g) at e))
            | inr (x, xs, g) ↦
                let (k, c, i) =
                  chosen_eligible t h (x ∷ xs) n (rw (affinity_select, m, f, q, g) at e) in
                let (j, z) = eligible all_nodes excluded h.avoid n (rw g i) in (k, c, (z, inl q))
          ]
        ]
      ]

  affinity-Honours : Honours all_nodes (affinity s rules all_nodes)
  unfolding affinity_select
  affinity-Honours = record {
    known = λ t h n e. (both t h n e).0;
    avoids = λ t h n e. (both t h n e).1;
  }
    where
      both :
          (t : s.Memory) (h : Hint) (n : String)
          → (affinity_select s rules all_nodes t h).1 ≡ chosen n
          → In n all_nodes × (contains n h.avoid ≡ false)
      both t h n e = elim (Option-cases (matching_rule rules h.profile)) [
        | inl f ↦ (let g = (rw (affinity_select, f) at e) in (known t h n g, avoids t h n g))
        | inr (r, f) ↦ (let (k, c, z) = affinity-Allowed t h r n f e in (k, c))
      ]

-- A node that the capacity check let pass, of those that a call may use.
abbrev pub HasRoom : Option (List (String × Bool)) → String → Type 0
HasRoom none n = ⊥
HasRoom (some answer) n = has_room answer n ≡ true

module _ (s : Selector) (fits : Shape → List String → Option (List (String × Bool)))
    (all_nodes : List String) (law : Honours all_nodes s) where
  open law use {known, avoids}

  -- The hint that the wrapper passes on: it differs in the nodes to avoid, and those of the call are among them.
  capacity_passes :
      (t : s.Memory) (h : Hint) (n : String)
      → (h.shape.memory_bytes == 0 && h.shape.vcpus == 0) ≡ false
      → (capacity_select s fits all_nodes t h).1 ≡ chosen n
      → (contains n h.avoid ≡ false)
        × HasRoom (fits h.shape (filter (λ n. not (contains n h.avoid)) all_nodes)) n
        × ((more : List String) × ((s.select t (record h { avoid = more })).1 ≡ chosen n))
  unfolding capacity_select
  capacity_passes t h n z e =
      let candidates = filter (λ n. not (contains n h.avoid)) all_nodes in
      elim (Bool-cases (length candidates == 0)) [
        | inl f ↦
            let g = (rw (capacity_select, z, f) at e) in
            let clear = avoids t h n g in
            absurd (
              none_left candidates n f (
                (In-filter (λ n. not (contains n h.avoid)) all_nodes n).1
                  (known t h n g, ap not clear)))
        | inr f ↦ elim (Option-cases (fits h.shape candidates)) [
          | inl q ↦ absurd (cc (rw (capacity_select, z, f, q) at e))
          | inr (answer, q) ↦
              elim (Bool-cases (length (filter (has_room answer) candidates) == 0)) [
                | inl r ↦ absurd (cc (rw (capacity_select, z, f, q, r) at e))
                | inr r ↦
                    let more = h.avoid ++ filter (λ n. not (has_room answer n)) candidates in
                    let g = (rw (capacity_select, z, f, q, r) at e) in
                    let clear = avoids t (record h { avoid = more }) n g in
                    let open_to = absent_before n h.avoid _ clear in
                    let candidate =
                      (In-filter (λ n. not (contains n h.avoid)) all_nodes n).1
                        (known t (record h { avoid = more }) n g, ap not open_to) in
                    rw q (
                      open_to,
                      passes (has_room answer) n h.avoid candidates clear candidate,
                      (more, g),
                    )
              ]
        ]
      ]
    where
      none_left : (xs : List String) (n : String) → (length xs == 0) ≡ true → In n xs → ⊥
      none_left [] n e m = m
      none_left (x ∷ xs) n e m = absurd (ground arith)

-- A node that the capacity wrapper chooses over the affinity wrapper, whatever honest selector is under
-- them, for a shape that is not empty, is one of the nodes and not to be avoided; the capacity ledger has
-- room for the shape there; and the first rule that matches the profile of the VM allows it: no VM that
-- the rule keeps apart from is on it, and it is preferred if the rule requires so.
pub placed-Allowed :
    (s : Selector) (rules : List AffinityRule)
    (fits : Shape → List String → Option (List (String × Bool))) (all_nodes : List String)
    (t : s.Memory) (h : Hint) (r : AffinityRule) (n : String)
    → Honours all_nodes s
    → (h.shape.memory_bytes == 0 && h.shape.vcpus == 0) ≡ false
    → matching_rule rules h.profile ≡ some r
    → (capacity_select (affinity s rules all_nodes) fits all_nodes t h).1 ≡ chosen n
    → (contains n h.avoid ≡ false)
      × In n all_nodes
      × HasRoom (fits h.shape (filter (λ n. not (contains n h.avoid)) all_nodes)) n
      × Allowed r h n
placed-Allowed s rules fits all_nodes t h r n law z m e =
    let (clear, room, (more, g)) =
      capacity_passes (affinity s rules all_nodes) fits all_nodes
        (affinity-Honours s rules all_nodes law) t h n z e in
    let (k, c, allowed) =
      affinity-Allowed s rules all_nodes law t (record h { avoid = more }) r n m g in
    (clear, k, room, allowed)

In-nth : (ns : List String) (i : ℕ) (n : String) → nth ns i ≡ some n → In n ns
In-nth [] i n e = absurd (cc e)
In-nth (x ∷ ns) zero n e = inl (cc e)
In-nth (x ∷ ns) (suc i) n e = inr (In-nth ns i n e)

rotate-chosen :
    (nodes : List String) (h : Hint) (turns next : ℕ) (n : String)
    → (rotate nodes h turns next).1 ≡ chosen n
    → In n nodes × (contains n h.avoid ≡ false)
unfolding rotate
rotate-chosen nodes h zero next n e = absurd (cc e)
rotate-chosen nodes h (suc turns) next n e = elim (Option-cases (nth nodes next)) [
  | inl f ↦ absurd (cc (rw (rotate, f) at e))
  | inr (x, f) ↦ elim (Bool-cases (contains x h.avoid)) [
    | inl g ↦ rotate-chosen nodes h turns ((next + 1) % length nodes) n (rw (rotate, f, g) at e)
    | inr g ↦
        let same : x ≡ n = cc (rw (rotate, f, g) at e) in
        (In-nth nodes next n (f ∙ ap (λ y. some y) same), rw (← same) g)
  ]
]

pub round_robin-Honours : (nodes : List String) → Honours nodes (round_robin nodes)
round_robin-Honours nodes = record {
  known = λ t h n e. (rotate-chosen nodes h (length nodes) t n e).0;
  avoids = λ t h n e. (rotate-chosen nodes h (length nodes) t n e).1;
}
