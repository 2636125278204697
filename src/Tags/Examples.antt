-- ===== src/Tags/Examples.antt =====
-- Instances of the theorems on internal/tags/tags.go, and tests.
use actions_runner_scaleset.Prelude.{some, ◌≡◌, ◌≢◌, ◌↔◌, refl, List, [], ◌∷◌, map, In}
use actions_runner_scaleset.Prelude.Runes.{Runes, codes, runes_eq, trim, is_space}
use actions_runner_scaleset.Prelude.RuneSets.{IsAscending}
use actions_runner_scaleset.Tags.{
  sanitize, is_scale_set_name, owner_tag, profile_tag, template_tag, initial, encode, decode,
}
use actions_runner_scaleset.Tags.Wire.{decode-encode}

abbrev two_tags : List Runes
two_tags = codes "zone-b" ∷ codes " gh-scaleset" ∷ codes " " ∷ codes "zone-b" ∷ []

encode_two : encode two_tags ≡ codes "gh-scaleset;zone-b"
unfolding encode is_space runes_eq
encode_two = refl

sanitize_name : sanitize (codes "Foo.Bar_") ≡ codes "foo-bar"
unfolding sanitize
sanitize_name = refl

decode-encode_example :
    IsAscending (decode (encode two_tags))
    × (In (codes "zone-b") (decode (encode two_tags))
        ↔ (In (codes "zone-b") (map (trim is_space) two_tags) × (codes "zone-b" ≢ [])))
decode-encode_example = decode-encode two_tags (codes "zone-b") (
  (refl, (refl, (refl, (refl, (refl, (refl, tt)))))),
  (
    (
      refl,
      (refl, (refl, (refl, (refl, (refl, (refl, (refl, (refl, (refl, (refl, (refl, tt))))))))))),
    ),
    ((refl, tt), ((refl, (refl, (refl, (refl, (refl, (refl, tt)))))), tt)),
  ),
)

abbrev new_tags : List Runes
new_tags =
    codes "gh-scaleset"
    ∷ codes "gh-scaleset-owner-prod-x64"
    ∷ codes "gh-scaleset-profile-large"
    ∷ codes "gh-scaleset-template-stable"
    ∷ []

new_tags_run : initial (codes "prod.x64") (codes "large") [] ≡ some new_tags
unfolding initial owner_tag profile_tag template_tag sanitize is_scale_set_name
new_tags_run = refl
