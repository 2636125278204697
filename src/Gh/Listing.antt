-- ===== src/Gh/Listing.antt =====
-- The listing of the runners in internal/gh/reconciler.go. `ask i page` is the answer of GitHub to the
-- i-th request, for that page. The retries are those of the backoff library: again after an error
-- that is not permanent, up to the number of tries.
pub mod Bounded
use text.Mathlib.Text.{starts_with}
use actions_runner_scaleset.Prelude.{
  ℕ, zero, suc, ◌+◌, ◌==◌, Bool, true, false, ◌&&◌, ◌||◌, Option, none, some, List, [], ◌∷◌, String,
  str_eq, leb, if◌then◌else◌,
}
use actions_runner_scaleset.Prelude.Dict.{insert}
use actions_runner_scaleset.Pool.Config.{RunnerInfo}

pub record Listed : Type 0 where
  pub name : String
  pub info : RunnerInfo

-- A page with the number of the next one, 0 at the end; or a failure, with the status of the response
-- if there is one.
pub data PageAnswer : Type 0 where
  answered : List Listed → ℕ → PageAnswer
  failed : Option ℕ → PageAnswer

-- isTransientListError
unfoldable pub is_transient_list_error : Option ℕ → Bool
is_transient_list_error none = true
is_transient_list_error (some status) = status == 429 || (leb 500 status && leb status 599)

abbrev pub list_page_max_tries : ℕ
list_page_max_tries = 3

abbrev pub max_list_pages : ℕ
max_list_pages = 50

pub data Page : Type 0 where
  got : List Listed → ℕ → Page
  gave_up : Page

-- listRunnersPageWithRetry: the page, and the number of requests made by then
unfoldable pub list_page_with_retry : (ℕ → ℕ → PageAnswer) → ℕ → ℕ → ℕ → Page × ℕ
unfolding is_transient_list_error
list_page_with_retry ask page zero calls = (gave_up, calls)
list_page_with_retry ask page (suc tries) calls = elim (ask calls page) [
  | answered runners next ↦ (got runners next, calls + 1)
  | failed status ↦ elim (is_transient_list_error status) [
    | true ↦ list_page_with_retry ask page tries (calls + 1)
    | false ↦ (gave_up, calls + 1)
  ]
]

-- The loop over the runners of a page.
unfoldable pub add_matching :
    String → List Listed → List (String × RunnerInfo) → List (String × RunnerInfo)
unfolding insert
add_matching prefix [] out = out
add_matching prefix (r ∷ rs) out =
    add_matching prefix rs
      (if starts_with r.name prefix then insert str_eq r.name r.info out else out)

pub data Listing : Type 0 where
  list_failed : Listing
  complete : List (String × RunnerInfo) → Listing
  truncated : List (String × RunnerInfo) → Listing

-- listRunnersByPrefix, with the pages left
unfoldable pub list_pages :
    (ℕ → ℕ → PageAnswer) → String → ℕ → ℕ → List (String × RunnerInfo) → ℕ → Listing × ℕ
list_pages ask prefix zero page out calls = (truncated out, calls)
list_pages ask prefix (suc pages) page out calls =
    let (p, made) = list_page_with_retry ask page list_page_max_tries calls in
    elim p [
      | gave_up ↦ (list_failed, made)
      | got runners next ↦ elim (next == 0) [
        | true ↦ (complete (add_matching prefix runners out), made)
        | false ↦ list_pages ask prefix pages next (add_matching prefix runners out) made
      ]
    ]

-- listRunnersByPrefix, and the number of requests
unfoldable pub list_runners_by_prefix : (ℕ → ℕ → PageAnswer) → String → Listing × ℕ
unfolding list_pages
list_runners_by_prefix ask prefix = list_pages ask prefix max_list_pages 0 [] 0
