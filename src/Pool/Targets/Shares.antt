-- ===== src/Pool/Targets/Shares.antt =====
-- The shares of SetDesiredCount and the clamps of SetTargetSizes in internal/pool/manager.go.
use Prim.Native.Nat.{min}
use native.Mathlib.Nat.{div-add-mod, mod-lt}
use actions_runner_scaleset.Prelude.{
  ℕ, suc, ◌+◌, ◌-◌, ◌*◌, ◌/◌, ◌%◌, ◌^◌, ◌≡◌, ◌≤◌, ◌<◌, refl, inl, inr, ◌⊎◌, ◌∙◌, ap, List, [], ◌∷◌,
  String, length, bit, ltb, arith, All, Bool-cases,
}
use actions_runner_scaleset.Prelude.Int.{ℤ, pos, ◌+ℤ◌, ◌≤ℤ◌, int_laws}
use actions_runner_scaleset.Pool.Targets.{
  to_int32, floor_zero, share_out, shares, store_shares, set_desired_count, clamp_sizes,
  set_target_sizes,
}

abbrev pub sum : List (String × ℤ) → ℤ
sum [] = pos 0
sum ((name, got) ∷ rest) = got +ℤ sum rest

abbrev pub sum_ℕ : List (String × ℕ) → ℕ
sum_ℕ [] = 0
sum_ℕ ((name, got) ∷ rest) = got + sum_ℕ rest

to_int32_small : (n : ℕ) → n < 2 ^ 31 → to_int32 n ≡ pos n
unfolding to_int32
to_int32_small n h = ground arith

sum_share_out :
    (q r i : ℕ) (names : List String)
    → sum_ℕ (share_out q r i names) ≡ length names * q + (min r (i + length names) - min r i)
unfolding share_out
sum_share_out q r i [] = ground arith
sum_share_out q r i (name ∷ names) = ground (arith, sum_share_out q r (suc i) names)

sum-store_shares : (s : List (String × ℕ)) → sum_ℕ s < 2 ^ 31 → sum (store_shares s) ≡ pos (sum_ℕ s)
unfolding store_shares
sum-store_shares [] h = refl
sum-store_shares ((name, got) ∷ rest) h =
    rw (to_int32_small got (omega arith), sum-store_shares rest (omega arith)) (omega int_laws)

-- The share of each profile, and its distance from an even split.
abbrev pub IsEven : ℕ → String × ℤ → Type 0
IsEven q (name, got) = (got ≡ pos q) ⊎ (got ≡ pos (q + 1))

share_out-IsEven :
    (q r i : ℕ) (names : List String)
    → sum_ℕ (share_out q r i names) < 2 ^ 31
    → All (IsEven q) (store_shares (share_out q r i names))
unfolding share_out store_shares
share_out-IsEven q r i [] h = tt
share_out-IsEven q r i (name ∷ names) h = (
  rw (to_int32_small (q + bit (ltb i r)) (omega arith)) (elim (Bool-cases (ltb i r)) [
    | inl e ↦ rw e (inr refl)
    | inr e ↦ rw e (inl (ap pos (omega arith)))
  ]),
  share_out-IsEven q r (suc i) names (omega arith),
)

-- SetDesiredCount for a count below 2^31, with at least one profile: the stored shares add up to
-- exactly the count, and each is the count divided by the number of profiles, rounded down or up.
pub desired_shares_sum :
    (n : ℕ) (name : String) (names : List String)
    → n < 2 ^ 31
    → (sum (set_desired_count (pos n) (name ∷ names)) ≡ pos n)
      × All (IsEven (n / suc (length names))) (set_desired_count (pos n) (name ∷ names))
unfolding set_desired_count shares
desired_shares_sum n name names h =
    let k = suc (length names) in
    let total : sum_ℕ (share_out (n / k) (n % k) 0 (name ∷ names)) ≡ n = omega (
      arith,
      sum_share_out (n / k) (n % k) 0 (name ∷ names),
      div-add-mod n k,
      mod-lt n {m = k} (omega arith),
    ) in
    (
      sum-store_shares (share_out (n / k) (n % k) 0 (name ∷ names)) (omega (arith, total))
          ∙ ap pos total,
      share_out-IsEven (n / k) (n % k) 0 (name ∷ names) (omega (arith, total)),
    )

-- SetTargetSizes under a cap below 2^31: the stored sizes are the sizes asked for, floored at 0, the
-- hot one cut to the cap and the warm one cut to what the hot one leaves of it, so that together they
-- fit under the cap.
pub target_sizes_fit :
    (limit : ℕ) (hot warm : ℤ)
    → limit < 2 ^ 31
    → let (h, w) = set_target_sizes limit hot warm in
      (h ≡ pos (min (floor_zero hot) limit))
      × (w ≡ pos (min (floor_zero warm) (limit - floor_zero hot)))
      × (h +ℤ w ≤ℤ pos limit)
unfolding set_target_sizes clamp_sizes
target_sizes_fit limit hot warm le =
    let h = floor_zero hot in
    let w = floor_zero warm in
    elim (Bool-cases (ltb limit (h + w))) [
      | inl over ↦ elim (Bool-cases (ltb limit h)) [
        | inl e ↦
            rw (clamp_sizes, over, e, to_int32_small limit le, to_int32_small 0 (omega arith))
              (fits h w limit limit 0 (ground arith) (ground arith) (omega arith))
        | inr e ↦
            rw
              (
                clamp_sizes,
                over,
                e,
                to_int32_small h (ground arith),
                to_int32_small (limit - h) (omega arith),
              )
              (fits h w limit h (limit - h) (ground arith) (ground arith) (ground arith))
      ]
      | inr e ↦
          rw (clamp_sizes, e, to_int32_small h (ground arith), to_int32_small w (ground arith))
            (fits h w limit h w (ground arith) (ground arith) (ground arith))
    ]
  where
    fits :
        (h w limit h' w' : ℕ)
        → h' ≡ min h limit
        → w' ≡ min w (limit - h)
        → h' + w' ≤ limit
        → (pos h' ≡ pos (min h limit))
          × (pos w' ≡ pos (min w (limit - h)))
          × (pos h' +ℤ pos w' ≤ℤ pos limit)
    fits h w limit h' w' a b c = (ap pos a, ap pos b, omega int_laws)
