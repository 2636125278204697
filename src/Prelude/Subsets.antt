-- ===== src/Prelude/Subsets.antt =====
-- Lists of texts without repetition, by what they hold.
use actions_runner_scaleset.Prelude.{
  suc, ◌≡◌, ◌≢◌, ◌≤◌, inl, inr, sym, ◌∙◌, List, [], ◌∷◌, String, str_eq, eq_iff, contains_iff,
  Distinct, length, All, All-In, All-of-In, In, arith, Bool-cases, if◌then◌else◌,
}

remove_one : String → List String → List String
remove_one x [] = []
remove_one x (y ∷ ys) = let rest = remove_one x ys in if str_eq y x then ys else y ∷ rest

length-remove_one :
    (x : String) (ys : List String) → In x ys → length ys ≡ suc (length (remove_one x ys))
unfolding remove_one
length-remove_one x [] m = absurd m
length-remove_one x (y ∷ ys) m = ground (arith, eq_iff y x, length-remove_one x ys)

In-remove_one : (x z : String) (ys : List String) → x ≢ z → In z ys → In z (remove_one x ys)
unfolding remove_one
In-remove_one x z [] d m = absurd m
In-remove_one x z (y ∷ ys) d m = elim (Bool-cases (str_eq y x)) [
  | inl e ↦
      rw (remove_one, e) (elim m [ inl f ↦ absurd (d (sym ((eq_iff y x).0 e) ∙ f)) | inr n ↦ n ])
  | inr e ↦ rw (remove_one, e) (elim m [ inl f ↦ inl f | inr n ↦ inr (In-remove_one x z ys d n) ])
]

-- A list without repetition is no longer than one that holds all its elements.
pub length-subset :
    (xs ys : List String) → Distinct xs → All (λ x. In x ys) xs → length xs ≤ length ys
length-subset [] ys d h = omega arith
length-subset (x ∷ xs) ys d h =
    let apart : (z : String) → In z xs → x ≢ z = λ z m e. cc (d.0, e, (contains_iff z xs).1 m) in
    let rest = length-subset xs (remove_one x ys) d.1 (
      All-of-In (λ z. In z (remove_one x ys)) xs
        (λ z m. In-remove_one x z ys (apart z m) (All-In (λ z. In z ys) xs z h.1 m))) in
    omega (arith, rest, length-remove_one x ys h.0)
