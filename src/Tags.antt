-- ===== src/Tags.antt =====
-- internal/tags/tags.go: the Proxmox tags by which the orchestrator knows its VMs. Texts are lists of
-- code points; `none` stands for the error of OwnerTag and Initial.
pub mod Wire
pub mod Names
pub mod Initials
mod Examples
use actions_runner_scaleset.Prelude.{
  ℕ, ◌+◌, Bool, true, false, not, ◌&&◌, ◌||◌, Option, none, some, List, [], ◌∷◌, ◌++◌, map, leb,
  ◌==◌, filter, length, if◌then◌else◌,
}
use actions_runner_scaleset.Prelude.Runes.{
  Runes, codes, runes_eq, trim, is_space, split, join, cut_prefix, contains_runes,
}
use actions_runner_scaleset.Prelude.RuneSets.{sorted_set}

abbrev pub marker : Runes
marker = codes "gh-scaleset"

abbrev pub owner_prefix : Runes
owner_prefix = codes "gh-scaleset-owner-"

abbrev pub profile_prefix : Runes
profile_prefix = codes "gh-scaleset-profile-"

abbrev pub default_profile : Runes
default_profile = codes "default"

abbrev pub template_prefix : Runes
template_prefix = codes "gh-scaleset-template-"

abbrev pub template_stable : Runes
template_stable = codes "stable"

abbrev pub is_lower : ℕ → Bool
is_lower c = leb b'a' c && leb c b'z'

abbrev pub is_digit : ℕ → Bool
is_digit c = leb b'0' c && leb c b'9'

abbrev pub is_upper : ℕ → Bool
is_upper c = leb b'A' c && leb c b'Z'

-- The runes that `strings.ToLower` takes to a letter a-z: A-Z, the Kelvin sign and the dotted I.
-- Every other rune beyond ASCII stays beyond ASCII.
unfoldable pub to_lower : ℕ → ℕ
to_lower c =
    if is_upper c then c + 32 else if c == 0x212a then b'k' else if c == 0x130 then b'i' else c

unfoldable pub fold_rune : ℕ → ℕ
unfolding to_lower
fold_rune c = let r = to_lower c in if is_lower r || is_digit r then r else b'-'

-- sanitize
unfoldable pub sanitize : Runes → Runes
unfolding fold_rune trim
sanitize s = trim (λ c. c == b'-') (map fold_rune s)

-- scaleSetNameRE, `^[a-zA-Z0-9][a-zA-Z0-9_.-]{0,62}$`
abbrev pub is_alnum : ℕ → Bool
is_alnum c = is_lower c || is_upper c || is_digit c

abbrev pub is_name_rune : ℕ → Bool
is_name_rune c = is_alnum c || c == b'_' || c == b'.' || c == b'-'

abbrev pub all_name_runes : Runes → Bool
all_name_runes [] = true
all_name_runes (c ∷ cs) = is_name_rune c && all_name_runes cs

unfoldable pub is_scale_set_name : Runes → Bool
is_scale_set_name [] = false
is_scale_set_name (c ∷ cs) = is_alnum c && all_name_runes cs && leb (length cs) 62

-- OwnerTag
unfoldable pub owner_tag : Runes → Option Runes
unfolding is_scale_set_name sanitize
owner_tag name = if is_scale_set_name name then some (owner_prefix ++ sanitize name) else none

abbrev pub or_default : Runes → Runes → Runes
or_default [] d = d
or_default (c ∷ cs) d = c ∷ cs

-- ProfileTag
unfoldable pub profile_tag : Runes → Runes
unfolding sanitize
profile_tag name = profile_prefix ++ sanitize (or_default name default_profile)

-- TemplateTag
unfoldable pub template_tag : Runes → Runes
unfolding sanitize
template_tag class = template_prefix ++ sanitize (or_default class template_stable)

-- Initial
unfoldable pub initial : Runes → Runes → Runes → Option (List Runes)
unfolding owner_tag profile_tag template_tag
initial scale_set profile class = elim (owner_tag scale_set) [
  | none ↦ none
  | some owner ↦
      some (
        marker ∷ owner ∷ profile_tag profile ∷ template_tag (or_default class template_stable) ∷ [])
]

abbrev pub is_not_empty : Runes → Bool
is_not_empty [] = false
is_not_empty (c ∷ cs) = true

-- The tags without surrounding space, the empty ones dropped.
unfoldable pub trimmed : List Runes → List Runes
unfolding trim is_space filter
trimmed tags = filter is_not_empty (map (trim is_space) tags)

-- Encode
unfoldable pub encode : List Runes → Runes
unfolding trimmed sorted_set join
encode tags = join b';' (sorted_set (trimmed tags))

-- Decode
unfoldable pub decode : Runes → List Runes
unfolding trimmed split
decode [] = []
decode (c ∷ cs) = trimmed (split b';' (c ∷ cs))

-- The loop of ProfileOf and TemplateOf.
unfoldable pub first_with : Runes → Runes → List Runes → Runes
unfolding cut_prefix
first_with prefix missing [] = missing
first_with prefix missing (t ∷ ts) = elim (cut_prefix prefix t) [
  | none ↦ first_with prefix missing ts
  | some rest ↦ or_default rest missing
]

-- ProfileOf
unfoldable pub profile_of : Runes → Runes
unfolding first_with decode
profile_of wire = first_with profile_prefix default_profile (decode wire)

-- TemplateOf
unfoldable pub template_of : Runes → Runes
unfolding first_with decode
template_of wire = first_with template_prefix template_stable (decode wire)

-- IsOwnedBy
unfoldable pub is_owned_by : Runes → Runes → Bool
unfolding owner_tag decode contains_runes
is_owned_by wire scale_set = elim (owner_tag scale_set) [
  | none ↦ false
  | some owner ↦ contains_runes marker (decode wire) && contains_runes owner (decode wire)
]
