-- ===== src/Nodecap/Fetch.antt =====
-- The snapshot that internal/nodecap/nodecap.go makes of /cluster/resources, and which guests count.
use actions_runner_scaleset.Prelude.{
  ℕ, ◌+◌, ◌%◌, ◌^◌, ◌==◌, Bool, true, false, ◌&&◌, ◌||◌, List, [], ◌∷◌, String, str_eq, contains,
  leb, if◌then◌else◌,
}
use actions_runner_scaleset.Prelude.Dict.{lookup, insert}
use actions_runner_scaleset.Prelude.Runes.{Runes}
use actions_runner_scaleset.Tags.{is_owned_by}
use actions_runner_scaleset.Nodecap.{
  VmidRange, Options, Totals, Snapshot, no_totals, totals_or_none,
}

-- A row of the answer: the fields of the client's ClusterResource that are read.
pub record Resource : Type 0 where
  pub kind : String
  pub node : String
  pub status : String
  pub template : ℕ
  pub vmid : ℕ
  pub tags : Runes
  pub max_mem : ℕ
  pub max_cpu : ℕ

abbrev pub owned_by_any : Runes → List Runes → Bool
owned_by_any tags [] = false
owned_by_any tags (name ∷ names) = is_owned_by tags name || owned_by_any tags names

abbrev pub in_any_range : ℕ → List VmidRange → Bool
in_any_range vmid [] = false
in_any_range vmid (r ∷ rs) = (leb r.min vmid && leb vmid r.max) || in_any_range vmid rs

-- owns
unfoldable pub owns : Options → Runes → ℕ → Bool
owns opts tags vmid = owned_by_any tags opts.owner_scale_sets || in_any_range vmid opts.owned_vmids

-- holdsMemory
unfoldable pub holds_memory : Options → String → Runes → ℕ → Bool
unfolding owns
holds_memory opts status tags vmid = if str_eq status "stopped" then owns opts tags vmid else true

unfoldable pub wants : Options → String → Bool
unfolding contains
wants opts name = elim opts.nodes [ [] ↦ true | ◌∷◌ n ns ↦ contains name (n ∷ ns) ]

-- The maps that the loop of fetch fills.
pub record Gathered : Type 0 where
  pub nodes : List (String × Totals)
  pub guest_mem : List (ℕ × ℕ)
  pub guest_vcpu : List (ℕ × ℕ)
  pub sums : List (String × Totals)

abbrev pub is_guest : Resource → Bool
is_guest r = str_eq r.kind "qemu" || str_eq r.kind "lxc"

-- Whether a row of a guest counts.
unfoldable pub counts_guest : Options → Resource → Bool
unfolding wants holds_memory
counts_guest opts r =
    is_guest r
    && (wants opts r.node && (r.template == 0 && holds_memory opts r.status r.tags r.vmid))

unfoldable pub counts_node : Options → Resource → Bool
unfolding wants
counts_node opts r =
    str_eq r.kind "node" && (wants opts r.node && (str_eq r.status "" || str_eq r.status "online"))

unfoldable pub with_guest : Resource → Totals → Totals
with_guest r sum = record sum {
  guest_mem = (sum.guest_mem + r.max_mem) % 2 ^ 64;
  guest_vcpu = sum.guest_vcpu + r.max_cpu;
}

unfoldable pub gather_one : Options → Gathered → Resource → Gathered
unfolding counts_guest counts_node with_guest lookup insert
gather_one opts g r =
    if counts_node opts r
    then record g {
      nodes =
          insert str_eq r.node (record no_totals { mem_bytes = r.max_mem; vcpus = r.max_cpu })
            g.nodes;
    }
    else if counts_guest opts r
    then record g {
      guest_mem = insert ◌==◌ r.vmid r.max_mem g.guest_mem;
      guest_vcpu = insert ◌==◌ r.vmid r.max_cpu g.guest_vcpu;
      sums =
          insert str_eq r.node (with_guest r (totals_or_none (lookup str_eq r.node g.sums))) g.sums;
    }
    else g

unfoldable pub gather : Options → Gathered → List Resource → Gathered
unfolding gather_one
gather opts g [] = g
gather opts g (r ∷ rs) = gather opts (gather_one opts g r) rs

-- The last loop of fetch.
unfoldable pub fold_guests :
    List (String × Totals) → List (String × Totals) → List (String × Totals)
unfolding lookup
fold_guests sums [] = []
fold_guests sums ((node, totals) ∷ rest) =
    let sum = totals_or_none (lookup str_eq node sums) in
    (node, record totals { guest_mem = sum.guest_mem; guest_vcpu = sum.guest_vcpu })
    ∷ fold_guests sums rest

-- fetch, of the rows of the answer
unfoldable pub fetch : Options → List Resource → Snapshot
unfolding gather fold_guests
fetch opts rs =
    let g = gather opts (record { nodes = []; guest_mem = []; guest_vcpu = []; sums = [] }) rs in
    record {
      nodes = fold_guests g.sums g.nodes;
      guest_mem = g.guest_mem;
      guest_vcpu = g.guest_vcpu;
    }
