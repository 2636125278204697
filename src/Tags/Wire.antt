-- ===== src/Tags/Wire.antt =====
-- The wire format of internal/tags/tags.go: Decode reads back what Encode writes.
use actions_runner_scaleset.Prelude.{
  ◌≡◌, ◌≢◌, ◌↔◌, refl, inl, inr, ◌∙◌, ap, true, List, [], ◌∷◌, map, Bool-cases, filter, All,
  All-map, In, In-filter,
}
use actions_runner_scaleset.Prelude.Runes.{
  Runes, Lacks, trim, trim-All, trim_idem, is_space, split, join, split-join,
}
use actions_runner_scaleset.Prelude.RuneSets.{
  sorted_set, sorted_set-All, sorted_set-IsAscending, IsAscending, In-sorted_set,
}
use actions_runner_scaleset.Tags.{encode, decode, trimmed, is_not_empty}

-- A tag with no space round it, not empty and without a semicolon.
abbrev pub IsClean : Runes → Type 0
IsClean t = (trim is_space t ≡ t) × (is_not_empty t ≡ true) × Lacks b';' t

trimmed-IsClean : (ts : List Runes) → All (Lacks b';') ts → All IsClean (trimmed ts)
unfolding trimmed filter
trimmed-IsClean [] h = tt
trimmed-IsClean (t ∷ ts) h = elim (Bool-cases (is_not_empty (trim is_space t))) [
  | inl e ↦ rw e ((trim_idem is_space t, e, trim-All is_space _ t h.0), trimmed-IsClean ts h.1)
  | inr e ↦ rw e (trimmed-IsClean ts h.1)
]

pub trimmed_clean : (ts : List Runes) → All IsClean ts → trimmed ts ≡ ts
unfolding trimmed filter
trimmed_clean [] h = refl
trimmed_clean (t ∷ ts) h = rw (h.0.0, h.0.1) (ap (◌∷◌ t) (trimmed_clean ts h.1))

decode_cons : (s : Runes) → is_not_empty s ≡ true → decode s ≡ trimmed (split b';' s)
unfolding decode
decode_cons [] h = cc
decode_cons (c ∷ cs) h = refl

join_cons :
    (x : Runes) (xs : List Runes) → is_not_empty x ≡ true → is_not_empty (join b';' (x ∷ xs)) ≡ true
unfolding join
join_cons x [] h = h
join_cons [] (y ∷ ys) h = cc
join_cons (c ∷ cs) (y ∷ ys) h = refl

decode-join : (xs : List Runes) → All IsClean xs → decode (join b';' xs) ≡ xs
unfolding decode join
decode-join [] h = refl
decode-join (x ∷ xs) h =
    decode_cons (join b';' (x ∷ xs)) (join_cons x xs h.0.1)
    ∙ ap trimmed (split-join b';' x xs (h.0.2, All-map xs (λ t c. c.2) h.1))
    ∙ trimmed_clean (x ∷ xs) h

pub decode-encode_set :
    (ts : List Runes) → All (Lacks b';') ts → decode (encode ts) ≡ sorted_set (trimmed ts)
unfolding encode
decode-encode_set ts h =
    decode-join (sorted_set (trimmed ts))
      (sorted_set-All IsClean (trimmed ts) (trimmed-IsClean ts h))

not_empty_iff : (t : Runes) → (is_not_empty t ≡ true) ↔ (t ≢ [])
not_empty_iff [] = (λ h. cc, λ n. absurd (n refl))
not_empty_iff (c ∷ cs) = (λ h e. cc e, λ n. refl)

-- For tags without a semicolon Decode reads from the encoded text exactly the tags that Encode was
-- given, without surrounding space and without the empty ones, each once and in ascending order.
pub decode-encode :
    (ts : List Runes) (t : Runes)
    → All (Lacks b';') ts
    → IsAscending (decode (encode ts))
      × (In t (decode (encode ts)) ↔ (In t (map (trim is_space) ts) × (t ≢ [])))
unfolding trimmed
decode-encode ts t h = rw (decode-encode_set ts h) (
  sorted_set-IsAscending (trimmed ts),
  (
    λ i.
        let x =
          (In-filter is_not_empty (map (trim is_space) ts) t).0
            ((In-sorted_set t (trimmed ts)).0 i) in
        (x.0, (not_empty_iff t).0 x.1),
    λ i.
        (In-sorted_set t (trimmed ts)).1
          ((In-filter is_not_empty (map (trim is_space) ts) t).1 (i.0, (not_empty_iff t).1 i.1)),
  ),
)
