-- ===== src/Config/Routing.antt =====
-- routerForScaleset of internal/app/app.go: the router (internal/router) of a scale set of an accepted
-- configuration.
use actions_runner_scaleset.Prelude.{
  ◌≡◌, ◌≢◌, ◌<◌, ◌↔◌, ◌∙◌, refl, inl, inr, ap, sym, subst, true, false, none, some, List, [], ◌∷◌,
  ◌++◌, map, String, str_eq, eq_iff, contains, contains_iff, Distinct, All, All-map, All-drop,
  All-In, All-of-In, In, arith, Bool-cases, if◌then◌else◌,
}
use actions_runner_scaleset.Prelude.Runes.{codes}
use actions_runner_scaleset.Prelude.Checks.{All-zip, Pairwise, absent_iff}
use actions_runner_scaleset.Prelude.Subsets.{length-subset}
use actions_runner_scaleset.Router.{
  Profile, check_profiles, normalise, label_set, contains_all, extra, route,
}
use actions_runner_scaleset.Router.Tightest.{Serves, contains_all_iff, route-tightest}
use actions_runner_scaleset.Config.{ProfileConfig, ScaleSetEntry, PoolConfig}
use actions_runner_scaleset.Config.Profiles.{validate_profiles, is_profile_name}
use actions_runner_scaleset.Config.Caps.{SameLabels, ScaleSetSound, validate_profiles_iff}

-- routerForScaleset
unfoldable pub router_profiles : List ProfileConfig → List Profile
router_profiles [] = []
router_profiles (p ∷ ps) = record { name = p.name; labels = p.labels } ∷ router_profiles ps

label_set_iff : (l : String) (ls : List String) → In l (label_set ls) ↔ In l ls
unfolding label_set
label_set_iff l [] = (λ m. m, λ m. m)
label_set_iff l (k ∷ ls) = ground (arith, label_set_iff l ls, contains_iff k (label_set ls))

label_set-Distinct : (ls : List String) → Distinct (label_set ls)
unfolding label_set
label_set-Distinct [] = tt
label_set-Distinct (k ∷ ls) = ground (arith, label_set-Distinct ls)

-- A profile of the router carries the labels of the scale set, each once.
abbrev Alike : List String → Profile → Type 0
Alike labels p = Distinct p.labels × ((l : String) → In l p.labels ↔ In l labels)

normalise-Alike :
    (s : ScaleSetEntry) (ps : List ProfileConfig)
    → All (SameLabels s) ps
    → All (Alike s.labels) (normalise (router_profiles ps))
unfolding normalise router_profiles
normalise-Alike s [] h = tt
normalise-Alike s (p ∷ ps) ((to, fro), h) = (
  (
    label_set-Distinct p.labels,
    λ l. (
      λ m. All-In (λ l. In l s.labels) p.labels l to ((label_set_iff l p.labels).0 m),
      λ m. (label_set_iff l p.labels).1 (All-In (λ l. In l p.labels) s.labels l fro m),
    ),
  ),
  normalise-Alike s ps h,
)

-- Profiles with the same labels have the same number of them.
extra_same :
    (labels job : List String) (p q : Profile)
    → Alike labels p
    → Alike labels q
    → extra job p ≡ extra job q
extra_same labels job p q (d, f) (e, g) =
    let there =
      length-subset p.labels q.labels d (All-of-In _ p.labels (λ l m. (g l).1 ((f l).0 m))) in
    let back =
      length-subset q.labels p.labels e (All-of-In _ q.labels (λ l m. (f l).1 ((g l).0 m))) in
    omega (arith, there, back)

Serves-Alike :
    (labels job : List String) (p : Profile)
    → Alike labels p
    → All (λ l. In l labels) job
    → Serves job p
Serves-Alike labels job p (d, f) h = All-map job (λ l m. (f l).1 m) h

-- The first profile that serves with the fewest extra labels is the first of all.
first_wins :
    (labels job : List String) (n p : Profile) (ns before after : List Profile)
    → n ∷ ns ≡ before ++ (p ∷ after)
    → All (Alike labels) (n ∷ ns)
    → Serves job p
    → All (λ q. Serves job q → extra job p < extra job q) before
    → n ≡ p
first_wins labels job n p ns [] after split alike serves beats = cc
first_wins labels job n p ns (b ∷ before) after split alike serves beats =
    let all = subst (All (Alike labels)) split alike in
    let alike_p = (All-drop (Alike labels) before (p ∷ after) all.1).0 in
    let below =
      beats.0 (Serves-Alike labels job b all.0 (All-map job (λ l m. (alike_p.1 l).0 m) serves)) in
    absurd (omega (arith, below, extra_same labels job p b alike_p all.0))

-- Every name is that of a profile.
named : (p : ProfileConfig) → is_profile_name (codes p.name) ≡ true → str_eq p.name "" ≡ false
unfolding is_profile_name
named p h = elim (Bool-cases (str_eq p.name "")) [
  | inl e ↦
      (let bad = subst (λ n. is_profile_name (codes n) ≡ true) ((eq_iff p.name "").0 e) h in cc bad)
  | inr e ↦ e
]

router_accepts :
    (seen ps : List ProfileConfig)
    → All (λ (p : ProfileConfig). is_profile_name (codes p.name) ≡ true) ps
    → All (λ (p : ProfileConfig). All (λ (q : ProfileConfig). q.name ≢ p.name) seen) ps
    → Pairwise (λ (p : ProfileConfig) (q : ProfileConfig). p.name ≢ q.name) ps
    → check_profiles (map (λ (q : ProfileConfig). q.name) seen) (router_profiles ps) ≡ none
unfolding check_profiles router_profiles
router_accepts seen [] legal fresh differ = refl
router_accepts seen (p ∷ ps) (l, legal) (f, fresh) (d, differ) =
    rw
      (
        named p l,
        (absent_iff contains contains_iff (λ (q : ProfileConfig). q.name) p.name seen).1 f,
      )
      (router_accepts (p ∷ seen) ps legal (All-zip ps (λ q n ns. (n, ns)) d fresh) differ)

-- The router of a scale set can be built.
pub router_built :
    (pool : PoolConfig) (s : ScaleSetEntry)
    → ScaleSetSound pool s
    → check_profiles [] (router_profiles s.profiles) ≡ none
router_built pool s (some_profile, (sound, differ)) =
    router_accepts [] s.profiles (All-map s.profiles (λ q ok. ok.0) sound)
      (All-map s.profiles (λ q ok. tt) sound) differ

routed :
    (labels job : List String) (n : Profile) (ns : List Profile)
    → All (Alike labels) (n ∷ ns)
    → route (n ∷ ns) job ≡ (if contains_all labels job then some n.name else none)
routed labels job n ns alike = elim (route-tightest (n ∷ ns) job) [
  | inl (e, unserved) ↦ elim (Bool-cases (contains_all labels job)) [
    | inl c ↦
        absurd (unserved.0 (Serves-Alike labels job n alike.0 ((contains_all_iff labels job).0 c)))
    | inr c ↦ rw c e
  ]
  | inr (p, before, after, e, split, serves, beats, rest) ↦
      let same = first_wins labels job n p ns before after split alike serves beats in
      let c =
        (contains_all_iff labels job).1
          (All-map job (λ l m. (alike.0.1 l).0 m) (subst (Serves job) (sym same) serves)) in
      rw c (e ∙ ap (λ (q : Profile). some q.name) (sym same))
]

-- In a configuration that validateProfiles accepts, the router of each scale set can be built, and it
-- sends every job whose labels the scale set advertises to the first profile, and no other job to any.
pub routes_to_first :
    (pool : PoolConfig) (scalesets : List ScaleSetEntry) (s : ScaleSetEntry) (p : ProfileConfig)
    (ps : List ProfileConfig) (job : List String)
    → validate_profiles pool scalesets ≡ none
    → In s scalesets
    → s.profiles ≡ p ∷ ps
    → let profiles = router_profiles s.profiles in
      (check_profiles [] profiles ≡ none)
      × (route (normalise profiles) job ≡ (if contains_all s.labels job then some p.name else none))
unfolding router_profiles normalise
routes_to_first pool scalesets s p ps job h m e =
    let sound =
      All-In (ScaleSetSound pool) scalesets s ((validate_profiles_iff pool scalesets).0 h).0 m in
    (
      router_built pool s sound,
      rw e (
          routed s.labels job _ _
            (normalise-Alike s (p ∷ ps) (All-map (p ∷ ps) (λ q ok. ok.1) (rw e at sound.1.0)))),
    )
