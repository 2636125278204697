-- ===== src/Tags/Names.antt =====
-- The names in the tags of internal/tags/tags.go.
use actions_runner_scaleset.Prelude.{
  ℕ, ◌≡◌, refl, inl, inr, ◌⊎◌, Bool, true, false, not, ◌&&◌, none, some, List, [], ◌∷◌, ◌++◌, map,
  arith, ◌==◌, ==_self, All, All-map, In,
}
use actions_runner_scaleset.Prelude.Runes.{Runes, trim-All, trim_kept, is_space, cut_prefix}
use actions_runner_scaleset.Tags.{fold_rune, sanitize, first_with, or_default, is_not_empty}
use actions_runner_scaleset.Tags.Wire.{IsClean}

abbrev pub IsTagRune : ℕ → Type 0
IsTagRune c = (is_space c ≡ false) × ((c == b';') ≡ false)

unfoldable pub are_tag_runes : Runes → Bool
are_tag_runes [] = true
are_tag_runes (c ∷ cs) = not (is_space c) && not (c == b';') && are_tag_runes cs

pub are_tag_runes-All : (s : Runes) → are_tag_runes s ≡ true → All IsTagRune s
unfolding are_tag_runes
are_tag_runes-All [] h = tt
are_tag_runes-All (c ∷ cs) h = (ground (arith, h), are_tag_runes-All cs (ground (arith, h)))

fold_rune-IsTagRune : (c : ℕ) → IsTagRune (fold_rune c)
unfolding fold_rune is_space
fold_rune-IsTagRune c = ground arith

map-fold_rune-All : (s : Runes) → All IsTagRune (map fold_rune s)
map-fold_rune-All [] = tt
map-fold_rune-All (c ∷ cs) = (fold_rune-IsTagRune c, map-fold_rune-All cs)

pub sanitize-All : (s : Runes) → All IsTagRune (sanitize s)
unfolding sanitize
sanitize-All s = trim-All (λ c. c == b'-') IsTagRune (map fold_rune s) (map-fold_rune-All s)

pub clean : (t : Runes) → is_not_empty t ≡ true → All IsTagRune t → IsClean t
clean t n h = (trim_kept is_space t (All-map t (λ c k. k.0) h), n, All-map t (λ c k. k.1) h)

pub cut_prefix-append : (p s : Runes) → cut_prefix p (p ++ s) ≡ some s
unfolding cut_prefix
cut_prefix-append [] s = refl
cut_prefix-append (c ∷ cs) s = rw (==_self c) (cut_prefix-append cs s)

-- In a list where each tag with the prefix has the same rest, the place of the tag does not matter.
pub first_with_found :
    (prefix missing r t : Runes) (xs : List Runes)
    → All (λ x. (cut_prefix prefix x ≡ none) ⊎ (cut_prefix prefix x ≡ some r)) xs
    → In t xs
    → cut_prefix prefix t ≡ some r
    → first_with prefix missing xs ≡ or_default r missing
unfolding first_with
first_with_found prefix missing r t [] h m e = absurd m
first_with_found prefix missing r t (x ∷ xs) (inr q, h) m e = rw (q, first_with) refl
first_with_found prefix missing r t (x ∷ xs) (inl q, h) (inl same) e = cc
first_with_found prefix missing r t (x ∷ xs) (inl q, h) (inr m) e =
    rw (q, first_with) (first_with_found prefix missing r t xs h m e)
