-- ===== src/Gh/Listing/Bounded.antt =====
-- The listing of internal/gh/reconciler.go ends within its budget of requests.
use text.Mathlib.Text.{starts_with}
use actions_runner_scaleset.Prelude.{
  ℕ, zero, suc, ◌+◌, ◌*◌, ◌==◌, ◌≡◌, ◌≤◌, refl, inl, inr, ◌⊎◌, true, Option, List, [], ◌∷◌, String,
  str_eq, arith, All, Bool-cases,
}
use actions_runner_scaleset.Prelude.Dict.{insert, erase}
use actions_runner_scaleset.Pool.Config.{RunnerInfo}
use actions_runner_scaleset.Gh.Listing.{
  Listed, PageAnswer, answered, failed, is_transient_list_error, Page, got, gave_up,
  list_page_with_retry, list_page_max_tries, max_list_pages, add_matching, Listing, list_failed,
  complete, truncated, list_pages, list_runners_by_prefix,
}

-- Every listed name has the prefix.
abbrev pub Named : String → List (String × RunnerInfo) → Type 0
Named prefix out = All (λ (e : String × RunnerInfo). starts_with e.0 prefix ≡ true) out

abbrev pub AllNamed : String → Listing → Type 0
AllNamed prefix list_failed = Unit {0}
AllNamed prefix (complete out) = Named prefix out
AllNamed prefix (truncated out) = Named prefix out

erase-Named :
    (prefix name : String) (out : List (String × RunnerInfo))
    → Named prefix out
    → Named prefix (erase str_eq name out)
unfolding erase
erase-Named prefix name [] h = tt
erase-Named prefix name ((n, r) ∷ out) h = elim (Bool-cases (str_eq n name)) [
  | inl e ↦ rw e (erase-Named prefix name out h.1)
  | inr e ↦ rw e (h.0, erase-Named prefix name out h.1)
]

add_matching-Named :
    (prefix : String) (rs : List Listed) (out : List (String × RunnerInfo))
    → Named prefix out
    → Named prefix (add_matching prefix rs out)
unfolding add_matching insert
add_matching-Named prefix [] out h = h
add_matching-Named prefix (r ∷ rs) out h = elim (Bool-cases (starts_with r.name prefix)) [
  | inl e ↦
      rw (add_matching, e) (add_matching-Named prefix rs _ (e, erase-Named prefix r.name out h))
  | inr e ↦ rw (add_matching, e) (add_matching-Named prefix rs out h)
]

PageAnswer-cases :
    (a : PageAnswer)
    → ((rs : List Listed) × (n : ℕ) × (a ≡ answered rs n)) ⊎ ((s : Option ℕ) × (a ≡ failed s))
PageAnswer-cases (answered rs n) = inl (rs, n, refl)
PageAnswer-cases (failed s) = inr (s, refl)

Page-cases : (p : Page) → ((rs : List Listed) × (n : ℕ) × (p ≡ got rs n)) ⊎ (p ≡ gave_up)
Page-cases (got rs n) = inl (rs, n, refl)
Page-cases gave_up = inr refl

module _ (ask : ℕ → ℕ → PageAnswer) where
  retry_bound :
      (page tries calls : ℕ) → (list_page_with_retry ask page tries calls).1 ≤ calls + tries
  unfolding list_page_with_retry
  retry_bound page zero calls = omega arith
  retry_bound page (suc tries) calls = elim (PageAnswer-cases (ask calls page)) [
    | inl (rs, n, e) ↦ rw (list_page_with_retry, e) (omega arith)
    | inr (s, e) ↦ elim (Bool-cases (is_transient_list_error s)) [
      | inl t ↦ rw (list_page_with_retry, e, t) (omega (arith, retry_bound page tries (calls + 1)))
      | inr t ↦ rw (list_page_with_retry, e, t) (omega arith)
    ]
  ]

  pages_bound :
      (prefix : String) (pages page : ℕ) (out : List (String × RunnerInfo)) (calls : ℕ)
      → Named prefix out
      → let (l, made) = list_pages ask prefix pages page out calls in
        (made ≤ calls + 3 * pages) × AllNamed prefix l
  unfolding list_pages
  pages_bound prefix zero page out calls h = (omega arith, h)
  pages_bound prefix (suc pages) page out calls h =
      let used = retry_bound page list_page_max_tries calls in
      let made = (list_page_with_retry ask page list_page_max_tries calls).1 in
      elim (Page-cases (list_page_with_retry ask page list_page_max_tries calls).0) [
        | inr e ↦ rw (list_pages, e) (omega (arith, used), tt)
        | inl (rs, n, e) ↦
            let named = add_matching-Named prefix rs out h in
            elim (Bool-cases (n == 0)) [
              | inl z ↦ rw (list_pages, e, z) (omega (arith, used), named)
              | inr z ↦
                  let rest = pages_bound prefix pages n (add_matching prefix rs out) made named in
                  rw (list_pages, e, z) (omega (arith, used, rest.0), rest.1)
            ]
      ]

-- However GitHub answers, the listing ends after at most 150 requests, and every runner in it, whether
-- it is complete or truncated, has a name with the prefix.
pub listing_bounded :
    (ask : ℕ → ℕ → PageAnswer) (prefix : String)
    → let (listing, requests) = list_runners_by_prefix ask prefix in
      (requests ≤ 150) × AllNamed prefix listing
unfolding list_runners_by_prefix
listing_bounded ask prefix =
    let b = pages_bound ask prefix max_list_pages 0 [] 0 tt in (omega (arith, b.0), b.1)
