-- ===== src/Tags/Initials.antt =====
-- What is read back from the tags that Initial of internal/tags/tags.go gives a new VM.
use actions_runner_scaleset.Prelude.{
  ◌≡◌, ◌↔◌, ◌∙◌, refl, ap, inl, inr, ◌⊎◌, true, none, some, List, [], ◌∷◌, ◌++◌, arith, Bool-cases,
  All, All-append, All-map, In,
}
use actions_runner_scaleset.Prelude.Runes.{
  Runes, Lacks, runes_eq, runes_eq_iff, is_space, cut_prefix, contains_runes, contains_runes_iff,
}
use actions_runner_scaleset.Prelude.RuneSets.{sorted_set, sorted_set-All, In-sorted_set}
use actions_runner_scaleset.Tags.{
  marker, owner_prefix, profile_prefix, template_prefix, default_profile, template_stable, sanitize,
  owner_tag, is_scale_set_name, profile_tag, template_tag, initial, or_default, encode, decode,
  first_with, profile_of, template_of, is_owned_by,
}
use actions_runner_scaleset.Tags.Wire.{IsClean, decode-encode_set, trimmed_clean}
use actions_runner_scaleset.Tags.Names.{
  IsTagRune, are_tag_runes, are_tag_runes-All, sanitize-All, clean, first_with_found,
}

or_default_twice : (s d : Runes) → or_default (or_default s d) d ≡ or_default s d
or_default_twice [] [] = refl
or_default_twice [] (c ∷ cs) = refl
or_default_twice (c ∷ cs) d = refl

none-some : {A : Type 0} (s : A) → none ≡ some s → ⊥
none-some s e = cc

some_inj : {A : Type 0} {s t : A} → some s ≡ some t → s ≡ t
some_inj e = cc

module _ (name profile class : Runes) where
  abbrev owner : Runes
  owner = owner_prefix ++ sanitize name

  abbrev tags : List Runes
  tags =
      marker
      ∷ owner
      ∷ (profile_prefix ++ sanitize profile)
      ∷ (template_prefix ++ sanitize class)
      ∷ []

  prefixed-All : (prefix s : Runes) → All IsTagRune prefix → All IsTagRune (prefix ++ sanitize s)
  prefixed-All prefix s h = All-append IsTagRune prefix (sanitize s) h (sanitize-All s)

  tags-IsClean : All IsClean tags
  unfolding are_tag_runes is_space
  tags-IsClean = (
    clean marker refl (are_tag_runes-All marker refl),
    (
      clean owner refl (prefixed-All owner_prefix name (are_tag_runes-All owner_prefix refl)),
      (
        clean (profile_prefix ++ sanitize profile) refl
            (prefixed-All profile_prefix profile (are_tag_runes-All profile_prefix refl)),
        (
          clean (template_prefix ++ sanitize class) refl
              (prefixed-All template_prefix class (are_tag_runes-All template_prefix refl)),
          tt,
        ),
      ),
    ),
  )

  decoded : decode (encode tags) ≡ sorted_set tags
  decoded =
      decode-encode_set tags (All-map {P = IsClean} {Q = Lacks b';'} tags (λ t c. c.2) tags-IsClean)
      ∙ ap sorted_set (trimmed_clean tags tags-IsClean)

  read_with :
      (prefix missing t r : Runes)
      → All (λ x. (cut_prefix prefix x ≡ none) ⊎ (cut_prefix prefix x ≡ some r)) tags
      → In t tags
      → cut_prefix prefix t ≡ some r
      → first_with prefix missing (decode (encode tags)) ≡ or_default r missing
  read_with prefix missing t r h m e = rw decoded (
      first_with_found prefix missing r t (sorted_set tags)
        (sorted_set-All (λ x. (cut_prefix prefix x ≡ none) ⊎ (cut_prefix prefix x ≡ some r)) tags h)
        ((In-sorted_set t tags).1 m) e)

  reads_profile : profile_of (encode tags) ≡ or_default (sanitize profile) default_profile
  unfolding profile_of cut_prefix
  reads_profile =
      let r = sanitize profile in
      read_with profile_prefix default_profile (profile_prefix ++ sanitize profile) r
        (inl refl, (inl refl, (inr refl, (inl refl, tt)))) (inr (inr (inl refl))) refl

  reads_template : template_of (encode tags) ≡ or_default (sanitize class) template_stable
  unfolding template_of cut_prefix
  reads_template =
      let r = sanitize class in
      read_with template_prefix template_stable (template_prefix ++ sanitize class) r
        (inl refl, (inl refl, (inl refl, (inr refl, tt)))) (inr (inr (inr (inl refl)))) refl

  owner_only : (z : Runes) → In (owner_prefix ++ z) tags → sanitize name ≡ z
  unfolding cut_prefix
  owner_only z (inl e) = absurd (none-some _ (ap (cut_prefix owner_prefix) e))
  owner_only z (inr (inl e)) = some_inj (ap (cut_prefix owner_prefix) e)
  owner_only z (inr (inr (inl e))) = absurd (none-some _ (ap (cut_prefix owner_prefix) e))
  owner_only z (inr (inr (inr (inl e)))) = absurd (none-some _ (ap (cut_prefix owner_prefix) e))
  owner_only z (inr (inr (inr (inr m)))) = absurd m

  owned_iff :
      (other : Runes)
      → (contains_runes (owner_prefix ++ sanitize other) (decode (encode tags)) ≡ true)
        ↔ (sanitize name ≡ sanitize other)
  owned_iff other =
      let read : decode (encode tags) ≡ sorted_set tags = decoded in
      rw read (
        λ c. owner_only (sanitize other) (
            (In-sorted_set (owner_prefix ++ sanitize other) tags).0
              ((contains_runes_iff (owner_prefix ++ sanitize other) (sorted_set tags)).0 c)),
        λ e. (contains_runes_iff (owner_prefix ++ sanitize other) (sorted_set tags)).1 (
            (In-sorted_set (owner_prefix ++ sanitize other) tags).1
              (inr (inl (ap (λ s. owner_prefix ++ s) e)))),
      )

  marked : contains_runes marker (decode (encode tags)) ≡ true
  marked =
      rw decoded
        ((contains_runes_iff marker (sorted_set tags)).1 ((In-sorted_set marker tags).1 (inl refl)))

  reads_owner :
      (other : Runes)
      → is_scale_set_name other ≡ true
      → is_owned_by (encode tags) other ≡ runes_eq (sanitize name) (sanitize other)
  unfolding is_owned_by owner_tag
  reads_owner other v =
      rw (v, owner_tag, is_owned_by, marked)
        (elim (Bool-cases (runes_eq (sanitize name) (sanitize other))) [
          | inl e ↦ rw e ((owned_iff other).1 ((runes_eq_iff (sanitize name) (sanitize other)).0 e))
          | inr e ↦
              rw e (ground (arith, owned_iff other, runes_eq_iff (sanitize name) (sanitize other)))
        ])

initial_tags :
    (name profile class : Runes) (ts : List Runes)
    → initial name profile class ≡ some ts
    → tags name
        (or_default profile default_profile)
        (or_default (or_default class template_stable) template_stable)
      ≡ ts
unfolding initial owner_tag profile_tag template_tag
initial_tags name profile class ts e = elim (Bool-cases (is_scale_set_name name)) [
  | inl v ↦ some_inj (rw (v, owner_tag, initial) at e)
  | inr v ↦ absurd (none-some ts (rw (v, owner_tag, initial) at e))
]

-- The tags of a new VM, written to the wire and read back: the profile and the template class are the
-- ones it was given, sanitized, or the defaults where that is empty; and of the valid scale set names
-- exactly those own the VM that sanitize to the same text as the name it was given.
pub initial_reads :
    (name profile class other : Runes) (tags : List Runes)
    → initial name profile class ≡ some tags
    → is_scale_set_name other ≡ true
    → let wire = encode tags in
      (profile_of wire ≡ or_default (sanitize (or_default profile default_profile)) default_profile)
      × (template_of wire
          ≡ or_default (sanitize (or_default class template_stable)) template_stable)
      × (is_owned_by wire other ≡ runes_eq (sanitize name) (sanitize other))
unfolding initial owner_tag
initial_reads name profile class other ts e v =
    let carried = or_default profile default_profile in
    let stated = or_default (or_default class template_stable) template_stable in
    let written = initial_tags name profile class ts e in
    rw (← written) (
      reads_profile name carried stated,
      reads_template name carried stated
          ∙ ap (λ s. or_default (sanitize s) template_stable)
              (or_default_twice class template_stable),
      reads_owner name carried stated other v,
    )
