-- ===== src/Store/Sample.antt =====
-- A table with the documented behaviour of go-memdb: a list of rows with distinct VMIDs. It shows
-- that the laws of `Memdb` can hold, and the examples run on it.
use actions_runner_scaleset.Prelude.{
  ℕ, ◌+◌, ◌==◌, ◌≡◌, refl, subst, inl, inr, Bool, true, Option, none, some, List, [], ◌∷◌, arith,
  Bool-cases, if◌then◌else◌, bit, count, filter, All, All-In, All-of-In, In, ap,
}
use actions_runner_scaleset.Store.{Vm, hot, assigned, hot_kind, State}
use actions_runner_scaleset.Store.Table.{Memdb, Index, selects, by_id, hit, lacks_index}
use actions_runner_scaleset.Store.Validity.{IsProper, IsValid}

abbrev pub find : ℕ → List Vm → Option Vm
find k [] = none
find k (v ∷ vs) = if v.vmid == k then some v else find k vs

abbrev pub without : ℕ → List Vm → List Vm
without k [] = []
without k (v ∷ vs) = let rest = without k vs in if v.vmid == k then rest else v ∷ rest

abbrev pub DistinctKeys : List Vm → Type 0
DistinctKeys [] = Unit {0}
DistinctKeys (v ∷ vs) = (find v.vmid vs ≡ none) × DistinctKeys vs

pub find-without :
    (k j : ℕ) (vs : List Vm) → find j (without k vs) ≡ (if k == j then none else find j vs)
find-without k j [] = ground arith
find-without k j (v ∷ vs) = ground (arith, find-without k j vs)

pub without-DistinctKeys : (k : ℕ) (vs : List Vm) → DistinctKeys vs → DistinctKeys (without k vs)
without-DistinctKeys k [] d = tt
without-DistinctKeys k (v ∷ vs) d =
    ground (arith, find-without k v.vmid vs, without-DistinctKeys k vs d.1)

pub find-vmid : (k : ℕ) (vs : List Vm) (v : Vm) → find k vs ≡ some v → v.vmid ≡ k
find-vmid k [] v e = cc
find-vmid k (x ∷ xs) v e = ground (arith, find-vmid k xs v)

In-find : (k : ℕ) (vs : List Vm) (v : Vm) → find k vs ≡ some v → In v vs
In-find k [] v e = cc
In-find k (x ∷ xs) v e = ground (arith, In-find k xs v)

find-In : (vs : List Vm) (v : Vm) → DistinctKeys vs → In v vs → find v.vmid vs ≡ some v
find-In [] v d m = absurd m
find-In (x ∷ xs) v d (inl e) = rw (ap (λ (y : Vm). y.vmid) e) (ground arith)
find-In (x ∷ xs) v d (inr m) = elim (Bool-cases (x.vmid == v.vmid)) [
  | inl p ↦
      let same : x.vmid ≡ v.vmid = ground arith in
      absurd (cc (find-In xs v d.1 m, subst (λ (j : ℕ). find j xs ≡ none) same d.0))
  | inr p ↦ rw p (find-In xs v d.1 m)
]

count-without :
    (k : ℕ) (vs : List Vm) (p : Vm → Bool)
    → DistinctKeys vs
    → count p (without k vs) + hit p (find k vs) ≡ count p vs
unfolding count
count-without k [] p d = refl
count-without k (v ∷ vs) p d = elim (Bool-cases (v.vmid == k)) [
  | inl e ↦
      let same : v.vmid ≡ k = ground arith in
      let gone = subst (λ (j : ℕ). find j vs ≡ none) same d.0 in
      rw e (omega (arith, count-without k vs p d.1, ap (hit p) gone))
  | inr e ↦ rw e (omega (arith, count-without k vs p d.1))
]

abbrev pub Rows : Type 0
Rows = (rows : List Vm) × DistinctKeys rows

pub absent : (k : ℕ) (rows : List Vm) → find k (without k rows) ≡ none
absent k rows = ground (arith, find-without k k rows)

abbrev pub put_row : Rows → Vm → Rows
put_row (rows, d) v =
    (v ∷ without v.vmid rows, (absent v.vmid rows, without-DistinctKeys v.vmid rows d))

filter-by_id : (rows : List Vm) → filter (selects by_id) rows ≡ rows
unfolding filter selects
filter-by_id [] = refl
filter-by_id (v ∷ vs) = ap (◌∷◌ v) (filter-by_id vs)

pub get-filter_lem :
    (t : Rows) (i : Index)
    → filter (selects i) t.0 ≡ filter (selects i) (filter (selects by_id) t.0)
get-filter_lem t i = rw (filter-by_id t.0) refl

pub first-get_lem : (t : Rows) → All (λ v. find v.vmid t.0 ≡ some v) (filter (selects by_id) t.0)
first-get_lem t = rw (filter-by_id t.0) (All-of-In _ t.0 (λ v m. find-In t.0 v t.1 m))

pub get-first_lem :
    (t : Rows) (k : ℕ) (v : Vm) → find k t.0 ≡ some v → In v (filter (selects by_id) t.0)
get-first_lem t k v e = rw (filter-by_id t.0) (In-find k t.0 v e)

pub first-put_lem :
    (t : Rows) (v : Vm) (k : ℕ)
    → find k (put_row t v).0 ≡ (if v.vmid == k then some v else find k t.0)
first-put_lem t v k = ground (arith, find-without v.vmid k t.0)

pub count-put_lem :
    (t : Rows) (v : Vm) (p : Vm → Bool)
    → count p (filter (selects by_id) (put_row t v).0) + hit p (find v.vmid t.0)
      ≡ count p (filter (selects by_id) t.0) + bit (p v)
unfolding count
count-put_lem t v p =
    rw (filter-by_id (put_row t v).0, filter-by_id t.0)
      (omega (arith, count-without v.vmid t.0 p t.1))

pub count-remove_lem :
    (t : Rows) (v : Vm) (p : Vm → Bool)
    → count p (filter (selects by_id) (without v.vmid t.0)) + hit p (find v.vmid t.0)
      ≡ count p (filter (selects by_id) t.0)
count-remove_lem t v p =
    rw (filter-by_id (without v.vmid t.0), filter-by_id t.0) (count-without v.vmid t.0 p t.1)

pub get-empty_lem : filter (selects by_id) [] ≡ []
unfolding filter
get-empty_lem = refl

abbrev pub list_db : Memdb
list_db = record {
  Table = Rows;
  empty = ([], tt);
  first = λ t k. find k t.0;
  get = λ t i. filter (selects i) t.0;
  put = put_row;
  remove = λ t v. (without v.vmid t.0, without-DistinctKeys v.vmid t.0 t.1);
  get-empty = get-empty_lem;
  get-filter = get-filter_lem;
  first-vmid = λ t k v e. find-vmid k t.0 v e;
  first-get = first-get_lem;
  get-first = get-first_lem;
  first-put = first-put_lem;
  first-remove = λ t v k. find-without v.vmid k t.0;
  count-put = count-put_lem;
  count-remove = count-remove_lem;
}

abbrev pub sample_vm : ℕ → State → ℕ → Vm
sample_vm vmid state created_at = record {
  vmid = vmid;
  node = "pve1";
  name = "gh-runner";
  profile = "default";
  org = "";
  repo = "";
  priority_class = "";
  template = "stable";
  pool_kind = hot_kind;
  state = state;
  job_id = 0;
  runner_id = 0;
  boot_attempts = 0;
  recycle_count = 0;
  has_recycle_snapshot = true;
  created_at = created_at;
  updated_at = created_at;
  state_since = created_at;
}

-- Two hot rows, the second the older, and a row that serves a job.
abbrev pub fleet : Rows
fleet = (
  sample_vm 3 hot 20 ∷ sample_vm 5 hot 10 ∷ sample_vm 7 assigned 5 ∷ [],
  (refl, (refl, (refl, tt))),
)

pub rows-IsValid : (t : Rows) → All IsProper t.0 → IsValid list_db t
rows-IsValid t h = record { proper = λ k v e. All-In IsProper t.0 v h (In-find k t.0 v e) }

pub fleet-IsValid : IsValid list_db fleet
unfolding lacks_index
fleet-IsValid =
    rows-IsValid fleet ((omega arith, refl), ((omega arith, refl), ((omega arith, refl), tt)))
