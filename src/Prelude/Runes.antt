-- ===== src/Prelude/Runes.antt =====
-- Texts as lists of code points, with the functions of Go's `strings` package that the program walks
-- them by.
use Prim.Native.Char.{code}
use actions_runner_scaleset.Prelude.{
  ℕ, ◌≡◌, ◌↔◌, ◌∙◌, refl, ap, inl, inr, Bool, true, false, ◌&&◌, ◌||◌, Option, none, some, List, [],
  ◌∷◌, ◌++◌, String, arith, ltb, leb, ◌==◌, ==_self, Bool-cases, All, In, if◌then◌else◌,
}

abbrev pub Runes : Type 0
Runes = List ℕ

abbrev pub codes : String → Runes
codes String.[] = []
codes (String.◌∷◌ c s) = code c ∷ codes s

unfoldable pub runes_eq : Runes → Runes → Bool
runes_eq [] [] = true
runes_eq [] (d ∷ ds) = false
runes_eq (c ∷ cs) [] = false
runes_eq (c ∷ cs) (d ∷ ds) = c == d && runes_eq cs ds

pub runes_eq_iff : (s t : Runes) → (runes_eq s t ≡ true) ↔ (s ≡ t)
unfolding runes_eq
runes_eq_iff [] [] = (λ e. refl, λ e. refl)
runes_eq_iff [] (d ∷ ds) = (λ e. cc, λ e. cc)
runes_eq_iff (c ∷ cs) [] = (λ e. cc, λ e. cc)
runes_eq_iff (c ∷ cs) (d ∷ ds) = ground (arith, runes_eq_iff cs ds)

-- The order of `sort.Strings`.
unfoldable pub runes_lt : Runes → Runes → Bool
runes_lt s [] = false
runes_lt [] (d ∷ ds) = true
runes_lt (c ∷ cs) (d ∷ ds) = ltb c d || (c == d && runes_lt cs ds)

-- `strings.Trim`, for the characters that pass a test.
unfoldable pub trim_left : (ℕ → Bool) → Runes → Runes
trim_left p [] = []
trim_left p (c ∷ cs) = let rest = trim_left p cs in if p c then rest else c ∷ cs

abbrev pub keep_right : (ℕ → Bool) → ℕ → Runes → Runes
keep_right p c [] = if p c then [] else c ∷ []
keep_right p c (d ∷ ds) = c ∷ d ∷ ds

unfoldable pub trim_right : (ℕ → Bool) → Runes → Runes
trim_right p [] = []
trim_right p (c ∷ cs) = keep_right p c (trim_right p cs)

unfoldable pub trim : (ℕ → Bool) → Runes → Runes
unfolding trim_left trim_right
trim p s = trim_right p (trim_left p s)

-- The characters that `strings.TrimSpace` removes.
unfoldable pub is_space : ℕ → Bool
is_space c =
    (leb 9 c && leb c 13)
    || c == 32
    || c == 0x85
    || c == 0xa0
    || c == 0x1680
    || (leb 0x2000 c && leb c 0x200a)
    || c == 0x2028
    || c == 0x2029
    || c == 0x202f
    || c == 0x205f
    || c == 0x3000

-- `strings.Split` at one character.
abbrev pub split_at : Bool → ℕ → List Runes → List Runes
split_at true c parts = [] ∷ parts
split_at false c [] = (c ∷ []) ∷ []
split_at false c (part ∷ parts) = (c ∷ part) ∷ parts

unfoldable pub split : ℕ → Runes → List Runes
split sep [] = [] ∷ []
split sep (c ∷ cs) = split_at (c == sep) c (split sep cs)

-- `strings.Join`
unfoldable pub join : ℕ → List Runes → Runes
join sep [] = []
join sep (x ∷ []) = x
join sep (x ∷ y ∷ rest) = x ++ sep ∷ join sep (y ∷ rest)

-- `strings.CutPrefix`
unfoldable pub cut_prefix : Runes → Runes → Option Runes
cut_prefix [] s = some s
cut_prefix (p ∷ ps) [] = none
cut_prefix (p ∷ ps) (c ∷ cs) = let rest = cut_prefix ps cs in if p == c then rest else none

unfoldable pub contains_runes : Runes → List Runes → Bool
unfolding runes_eq
contains_runes t [] = false
contains_runes t (x ∷ xs) = runes_eq x t || contains_runes t xs

pub contains_runes_iff : (t : Runes) (xs : List Runes) → (contains_runes t xs ≡ true) ↔ In t xs
unfolding contains_runes
contains_runes_iff t [] = (λ h. cc, λ m. absurd m)
contains_runes_iff t (x ∷ xs) = ground (arith, runes_eq_iff x t, contains_runes_iff t xs)

-- No separator in the text.
abbrev pub Lacks : ℕ → Runes → Type 0
Lacks sep s = All (λ c. (c == sep) ≡ false) s

split_one : (sep : ℕ) (s : Runes) → Lacks sep s → split sep s ≡ s ∷ []
unfolding split
split_one sep [] h = refl
split_one sep (c ∷ cs) h = rw (h.0, split_one sep cs h.1) refl

split-append :
    (sep : ℕ) (s rest : Runes) → Lacks sep s → split sep (s ++ sep ∷ rest) ≡ s ∷ split sep rest
unfolding split
split-append sep [] rest h = rw (==_self sep) refl
split-append sep (c ∷ cs) rest h = rw (h.0, split-append sep cs rest h.1) refl

pub split-join :
    (sep : ℕ) (x : Runes) (xs : List Runes)
    → All (Lacks sep) (x ∷ xs)
    → split sep (join sep (x ∷ xs)) ≡ x ∷ xs
unfolding join
split-join sep x [] h = split_one sep x h.0
split-join sep x (y ∷ rest) h =
    split-append sep x (join sep (y ∷ rest)) h.0 ∙ ap (◌∷◌ x) (split-join sep y rest h.1)

module _ (p : ℕ → Bool) where
  trim_left-All {κ} : (P : ℕ → Type κ) (s : Runes) → All P s → All P (trim_left p s)
  unfolding trim_left
  trim_left-All P [] h = tt
  trim_left-All P (c ∷ cs) h = elim (Bool-cases (p c)) [
    | inl e ↦ rw (trim_left, e) (trim_left-All P cs h.1)
    | inr e ↦ rw (trim_left, e) h
  ]

  keep_right-All {κ} :
      (P : ℕ → Type κ) (c : ℕ) (s : Runes) → P c → All P s → All P (keep_right p c s)
  keep_right-All P c [] h t = elim (Bool-cases (p c)) [ inl e ↦ rw e tt | inr e ↦ rw e (h, tt) ]
  keep_right-All P c (d ∷ ds) h t = (h, t)

  trim_right-All {κ} : (P : ℕ → Type κ) (s : Runes) → All P s → All P (trim_right p s)
  unfolding trim_right
  trim_right-All P [] h = tt
  trim_right-All P (c ∷ cs) h = keep_right-All P c (trim_right p cs) h.0 (trim_right-All P cs h.1)

  pub trim-All {κ} : (P : ℕ → Type κ) (s : Runes) → All P s → All P (trim p s)
  unfolding trim
  trim-All P s h = trim_right-All P (trim_left p s) (trim_left-All P s h)

  -- A text with nothing to trim.
  pub trim_kept : (s : Runes) → All (λ c. p c ≡ false) s → trim p s ≡ s
  unfolding trim trim_left trim_right
  trim_kept [] h = refl
  trim_kept (c ∷ cs) h = rw h.0 (right_kept (c ∷ cs) h)
    where
      right_kept : (t : Runes) → All (λ d. p d ≡ false) t → trim_right p t ≡ t
      right_kept [] k = refl
      right_kept (d ∷ []) k = rw k.0 refl
      right_kept (d ∷ e ∷ es) k = rw (right_kept (e ∷ es) k.1) refl

  keep_right_keep :
      (c : ℕ) (s : Runes) → trim_right p s ≡ s → trim_right p (keep_right p c s) ≡ keep_right p c s
  unfolding trim_right
  keep_right_keep c [] h = elim (Bool-cases (p c)) [ inl e ↦ rw e refl | inr e ↦ rw e (rw e refl) ]
  keep_right_keep c (d ∷ ds) h = ap (keep_right p c) h

  trim_right_idem : (s : Runes) → trim_right p (trim_right p s) ≡ trim_right p s
  unfolding trim_right
  trim_right_idem [] = refl
  trim_right_idem (c ∷ cs) = keep_right_keep c (trim_right p cs) (trim_right_idem cs)

  -- A text that starts with a character to keep still does once it is trimmed.
  left_of_right :
      (c : ℕ) (s : Runes) → p c ≡ false → trim_left p (keep_right p c s) ≡ keep_right p c s
  unfolding trim_left
  left_of_right c [] h = rw h (rw h refl)
  left_of_right c (d ∷ ds) h = rw h refl

  left_right :
      (s : Runes) → trim_left p (trim_right p (trim_left p s)) ≡ trim_right p (trim_left p s)
  unfolding trim_left trim_right
  left_right [] = refl
  left_right (c ∷ cs) = elim (Bool-cases (p c)) [
    | inl e ↦ rw (trim_left, e) (left_right cs)
    | inr e ↦ rw (trim_left, e) (left_of_right c (trim_right p cs) e)
  ]

  pub trim_idem : (s : Runes) → trim p (trim p s) ≡ trim p s
  unfolding trim
  trim_idem s = ap (trim_right p) (left_right s) ∙ trim_right_idem (trim_left p s)
