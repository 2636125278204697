-- ===== src/Nodecap/Owned.antt =====
-- Which guests the snapshot of internal/nodecap/nodecap.go counts.
use actions_runner_scaleset.Prelude.{
  ℕ, ◌+◌, ◌^◌, ◌<◌, ◌≡◌, ◌∙◌, refl, ap, inl, inr, true, false, ◌&&◌, Option, some, List, [], ◌∷◌,
  String, str_eq, eq_iff, eq_refl, arith, In, Bool-cases, if◌then◌else◌, is_some,
}
use actions_runner_scaleset.Prelude.Dict.{lookup, erase, lookup-erase}
use actions_runner_scaleset.Prelude.Runes.{Runes, runes_eq_iff}
use actions_runner_scaleset.Tags.{initial, encode, is_owned_by, is_scale_set_name, sanitize}
use actions_runner_scaleset.Tags.Initials.{initial_reads}
use actions_runner_scaleset.Nodecap.{Options, Totals, totals_of, totals_or_none}
use actions_runner_scaleset.Nodecap.Fetch.{
  Resource, Gathered, owned_by_any, owns, holds_memory, counts_guest, counts_node, with_guest,
  gather_one, gather, fold_guests, fetch,
}

owned_by_In :
    (tags name : Runes) (names : List Runes)
    → In name names
    → is_owned_by tags name ≡ true
    → owned_by_any tags names ≡ true
owned_by_In tags name [] m h = absurd m
owned_by_In tags name (n ∷ names) (inl e) h = rw (e, h) refl
owned_by_In tags name (n ∷ names) (inr m) h = ground (arith, owned_by_In tags name names m h)

-- A VM with the tags that Initial gives for one of the orchestrator's scale sets holds memory in the
-- accounts whatever its power state and its VMID: the stopped warm VMs count.
pub new_vm_holds_memory :
    (opts : Options) (name profile class : Runes) (tags : List Runes) (status : String) (vmid : ℕ)
    → initial name profile class ≡ some tags
    → is_scale_set_name name ≡ true
    → In name opts.owner_scale_sets
    → holds_memory opts status (encode tags) vmid ≡ true
unfolding holds_memory owns
new_vm_holds_memory opts name profile class tags status vmid e v m =
    let own =
      (initial_reads name profile class name tags e v).2
      ∙ (runes_eq_iff (sanitize name) (sanitize name)).1 refl in
    let any = owned_by_In (encode tags) name opts.owner_scale_sets m own in ground (arith, any)

-- The memory that the guests of a node hold, by the rows.
unfoldable pub guest_bytes : Options → String → List Resource → ℕ
guest_bytes opts node [] = 0
guest_bytes opts node (r ∷ rs) =
    (if counts_guest opts r && str_eq r.node node then r.max_mem else 0) + guest_bytes opts node rs

abbrev sum_of : List (String × Totals) → String → ℕ
sum_of sums node = (totals_or_none (lookup str_eq node sums)).guest_mem

guest_not_node :
    (opts : Options) (r : Resource) → counts_node opts r ≡ true → counts_guest opts r ≡ false
unfolding counts_node counts_guest
guest_not_node opts r h =
    let kind : r.kind ≡ "node" = ground (arith, h, eq_iff r.kind "node") in rw kind refl

sum_put :
    (node : String) (t : Totals) (rest : List (String × Totals))
    → sum_of ((node, t) ∷ rest) node ≡ t.guest_mem
unfolding lookup
sum_put node t rest = rw (sum_of, lookup, eq_refl node) refl

sum_other :
    (i node : String) (t : Totals) (sums : List (String × Totals))
    → str_eq i node ≡ false
    → sum_of ((i, t) ∷ erase str_eq i sums) node ≡ sum_of sums node
unfolding lookup
sum_other i node t sums e =
    rw (sum_of, lookup, e)
      (ap (λ (o : Option Totals). (totals_or_none o).guest_mem) {y = lookup str_eq node sums}
        (lookup-erase str_eq eq_iff i node sums ∙ rw e refl))

gather_one-sum :
    (opts : Options) (g : Gathered) (r : Resource) (node : String)
    → sum_of g.sums node + (if counts_guest opts r && str_eq r.node node then r.max_mem else 0)
      < 2 ^ 64
    → sum_of (gather_one opts g r).sums node
      ≡ sum_of g.sums node + (if counts_guest opts r && str_eq r.node node then r.max_mem else 0)
unfolding gather_one with_guest
gather_one-sum opts g r node h = elim (Bool-cases (counts_node opts r)) [
  | inl n ↦ let no = guest_not_node opts r n in rw (gather_one, n, no) (omega arith)
  | inr n ↦ elim (Bool-cases (counts_guest opts r)) [
    | inl c ↦ elim (Bool-cases (str_eq r.node node)) [
      | inl e ↦
          let same : r.node ≡ node = (eq_iff r.node node).0 e in
          let h' : sum_of g.sums node + r.max_mem < 2 ^ 64 = rw (c, e) at h in
          rw (gather_one, n, c, e) (rw same (sum_put node _ _ ∙ omega (arith, h')))
      | inr e ↦ rw (gather_one, n, c, e) (sum_other r.node node _ g.sums e ∙ omega arith)
    ]
    | inr c ↦ rw (gather_one, n, c) (omega arith)
  ]
]

gather-sum :
    (opts : Options) (g : Gathered) (rs : List Resource) (node : String)
    → sum_of g.sums node + guest_bytes opts node rs < 2 ^ 64
    → sum_of (gather opts g rs).sums node ≡ sum_of g.sums node + guest_bytes opts node rs
unfolding gather guest_bytes
gather-sum opts g [] node h = omega arith
gather-sum opts g (r ∷ rs) node h =
    let one = gather_one-sum opts g r node (omega (arith, h)) in
    gather-sum opts (gather_one opts g r) rs node (omega (arith, one, h)) ∙ omega (arith, one)

folded :
    (sums nodes : List (String × Totals)) (node : String)
    → is_some (lookup str_eq node (fold_guests sums nodes)) ≡ true
    → (totals_or_none (lookup str_eq node (fold_guests sums nodes))).guest_mem ≡ sum_of sums node
unfolding fold_guests lookup
folded sums [] node h = cc
folded sums ((n, t) ∷ rest) node h = elim (Bool-cases (str_eq n node)) [
  | inl e ↦ let same : n ≡ node = (eq_iff n node).0 e in rw e (rw same refl)
  | inr e ↦ rw e (folded sums rest node (rw e at h))
]

-- In the snapshot that fetch makes of the rows, in whatever order they come, the allocation of a node
-- that it lists is the sum of the memory of the guest rows that count: those on the node that are no
-- templates and are powered on or ours. For sums below 2^64.
pub fetch-sums :
    (opts : Options) (rs : List Resource) (node : String)
    → guest_bytes opts node rs < 2 ^ 64
    → is_some (lookup str_eq node (fetch opts rs).nodes) ≡ true
    → (totals_of (fetch opts rs) node).guest_mem ≡ guest_bytes opts node rs
unfolding fetch totals_of lookup
fetch-sums opts rs node h known =
    let g : Gathered = record { nodes = []; guest_mem = []; guest_vcpu = []; sums = [] } in
    folded (gather opts g rs).sums (gather opts g rs).nodes node known
    ∙ gather-sum opts g rs node (omega (arith, h))
    ∙ omega arith
