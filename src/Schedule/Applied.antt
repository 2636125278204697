-- ===== src/Schedule/Applied.antt =====
-- The sizes that the runner of internal/schedule/schedule.go has set last.
use actions_runner_scaleset.Prelude.{
  ℕ, ◌+◌, ◌==◌, ◌≡◌, ◌∙◌, refl, sym, ap, inl, inr, true, false, not, ◌||◌, none, some, List, [],
  ◌∷◌, String, str_eq, eq_iff, arith, ltb, leb, ◌&&◌, All, Bool-cases, Option-cases, if◌then◌else◌,
}
use actions_runner_scaleset.Prelude.Dict.{lookup, erase, insert, lookup-insert, lookup-erase}
use actions_runner_scaleset.Schedule.{Entry}
use actions_runner_scaleset.Schedule.Windows.{
  Activation, Windows, Apply, handle_fire, handle_expire,
}

-- What the pool has been told: the hot and warm sizes of each profile.
abbrev pub Sizes : Type 0
Sizes = List (String × (ℕ × ℕ))

abbrev pub told : List Apply → Sizes → Sizes
told [] sizes = sizes
told (a ∷ rest) sizes = told rest (insert str_eq a.profile (a.hot, a.warm) sizes)

-- An event of the loop of Run, with the time that it is handled at.
pub data Event : Type 0 where
  fires : Entry → ℕ → Event
  expires : String → ℕ → Event

unfoldable pub handle : Event → Windows × Sizes → Windows × Sizes
unfolding handle_fire handle_expire insert
handle (fires e now) (active, sizes) =
    (let (after, set) = handle_fire e now active in (after, told set sizes))
handle (expires profile now) (active, sizes) =
    (let (after, set) = handle_expire profile now active in (after, told set sizes))

unfoldable pub handle_all : List Event → Windows × Sizes → Windows × Sizes
unfolding handle
handle_all [] s = s
handle_all (e ∷ es) s = handle_all es (handle e s)

-- What the events say of a profile, read without the runner: it was never fired, it is at its baseline,
-- or the window of an entry is open since a fire.
pub data Reading : Type 0 where
  unset : Reading
  at_baseline : Reading
  in_window : Entry → ℕ → Reading

-- A fire of the profile opens the window of its entry, in place of any other one; an expiry of the
-- profile closes the window if its duration is over.
abbrev pub read_event : String → Event → Reading → Reading
read_event p (fires e now) r = if str_eq e.profile p then in_window e now else r
read_event p (expires q now) unset = unset
read_event p (expires q now) at_baseline = at_baseline
read_event p (expires q now) (in_window e at) =
    if str_eq q p && leb (at + e.duration) now then at_baseline else in_window e at

abbrev pub read_events : String → List Event → Reading → Reading
read_events p [] r = r
read_events p (e ∷ es) r = read_events p es (read_event p e r)

abbrev opened : Entry → ℕ → Activation
opened e now = record { entry = e; fired_at = now; active_until = now + e.duration }

fire_window :
    (e : Entry) (now : ℕ) (active : Windows) (sizes : Sizes) (p : String)
    → lookup str_eq p (handle (fires e now) (active, sizes)).0
      ≡ (if str_eq e.profile p then some (opened e now) else lookup str_eq p active)
unfolding handle handle_fire
fire_window e now active sizes p =
    let window = lookup-insert str_eq eq_iff e.profile p (opened e now) active in
    elim (Option-cases (lookup str_eq e.profile active)) [
      | inl n ↦ rw (handle, handle_fire, n) window
      | inr (cur, c) ↦
          elim (Bool-cases
            (not (cur.entry.hot_size == e.hot_size) || not (cur.entry.warm_size == e.warm_size))) [
              | inl d ↦ rw (handle, handle_fire, c, d) window
              | inr d ↦ rw (handle, handle_fire, c, d) window
            ]
    ]

-- If the pool has the sizes of the window of the profile so far, it has those of the fire after it.
fire_sizes :
    (e : Entry) (now : ℕ) (active : Windows) (sizes : Sizes) (p : String)
    → (str_eq e.profile p ≡ true
        → (cur : Activation) → lookup str_eq e.profile active ≡ some cur
        → lookup str_eq e.profile sizes ≡ some (cur.entry.hot_size, cur.entry.warm_size))
    → lookup str_eq p (handle (fires e now) (active, sizes)).1
      ≡ (if str_eq e.profile p then some (e.hot_size, e.warm_size) else lookup str_eq p sizes)
unfolding handle handle_fire
fire_sizes e now active sizes p agree =
    let told_now = lookup-insert str_eq eq_iff e.profile p (e.hot_size, e.warm_size) sizes in
    elim (Option-cases (lookup str_eq e.profile active)) [
      | inl n ↦ rw (handle, handle_fire, n) told_now
      | inr (cur, c) ↦
          elim (Bool-cases
            (not (cur.entry.hot_size == e.hot_size) || not (cur.entry.warm_size == e.warm_size))) [
              | inl d ↦ rw (handle, handle_fire, c, d) told_now
              | inr d ↦
                  let hot : cur.entry.hot_size ≡ e.hot_size = ground arith in
                  let warm : cur.entry.warm_size ≡ e.warm_size = ground arith in
                  rw (handle, handle_fire, c, d)
                    (told_already (e.hot_size, e.warm_size)
                      (λ q. agree q cur c ∙ rw (hot, warm) refl))
            ]
    ]
  where
    told_already :
        (x : ℕ × ℕ)
        → (str_eq e.profile p ≡ true → lookup str_eq e.profile sizes ≡ some x)
        → lookup str_eq p sizes ≡ (if str_eq e.profile p then some x else lookup str_eq p sizes)
    told_already x h = elim (Bool-cases (str_eq e.profile p)) [
      | inl q ↦ rw q (ap (λ r. lookup str_eq r sizes) (sym ((eq_iff e.profile p).0 q)) ∙ h q)
      | inr q ↦ rw q refl
    ]

module _ (base : String → ℕ × ℕ) where
  -- The window map and the sizes of a profile are those that the reading of the events says.
  abbrev pub InForce : String → Reading → Windows × Sizes → Type 0
  InForce p unset (active, sizes) = (lookup str_eq p sizes ≡ none) × (lookup str_eq p active ≡ none)
  InForce p at_baseline (active, sizes) =
      (lookup str_eq p sizes ≡ some (base p)) × (lookup str_eq p active ≡ none)
  InForce p (in_window e at) (active, sizes) =
      (lookup str_eq p sizes ≡ some (e.hot_size, e.warm_size))
      × (lookup str_eq p active
          ≡ some (record { entry = e; fired_at = at; active_until = at + e.duration }))
      × ((e.baseline_hot, e.baseline_warm) ≡ base p)

  -- The baseline of an entry is that of its profile.
  abbrev pub HasBaseline : Event → Type 0
  HasBaseline (fires e now) = (e.baseline_hot, e.baseline_warm) ≡ base e.profile
  HasBaseline (expires profile now) = Unit {0}

  -- A change that leaves one profile alone.
  same-InForce :
      (p : String) (r : Reading) (active after : Windows) (sizes set : Sizes)
      → lookup str_eq p after ≡ lookup str_eq p active
      → lookup str_eq p set ≡ lookup str_eq p sizes
      → InForce p r (active, sizes)
      → InForce p r (after, set)
  same-InForce p unset active after sizes set w z (h, g) = (z ∙ h, w ∙ g)
  same-InForce p at_baseline active after sizes set w z (h, g) = (z ∙ h, w ∙ g)
  same-InForce p (in_window e at) active after sizes set w z (h, g, b) = (z ∙ h, w ∙ g, b)

  -- The pool has the sizes of an open window.
  window_sizes :
      (p : String) (r : Reading) (active : Windows) (sizes : Sizes)
      → InForce p r (active, sizes)
      → (cur : Activation) → lookup str_eq p active ≡ some cur
      → (lookup str_eq p sizes ≡ some (cur.entry.hot_size, cur.entry.warm_size))
        × ((cur.entry.baseline_hot, cur.entry.baseline_warm) ≡ base p)
  window_sizes p unset active sizes (h, g) cur c = absurd (cc (c, g))
  window_sizes p at_baseline active sizes (h, g) cur c = absurd (cc (c, g))
  window_sizes p (in_window e at) active sizes (h, g, b) cur c =
      let one : opened e at ≡ cur = ground (arith, c, g) in
      let sized : e ≡ cur.entry = ap (λ (a : Activation). a.entry) one in
      (rw (← sized) h, rw (← sized) b)

  fire-InForce :
      (p : String) (r : Reading) (e : Entry) (now : ℕ) (active : Windows) (sizes : Sizes)
      → HasBaseline (fires e now)
      → InForce p r (active, sizes)
      → InForce p (read_event p (fires e now) r) (handle (fires e now) (active, sizes))
  fire-InForce p r e now active sizes b h = elim (Bool-cases (str_eq e.profile p)) [
    | inl q ↦
        let same : e.profile ≡ p = (eq_iff e.profile p).0 q in
        let agree : (cur : Activation)
            → lookup str_eq e.profile active ≡ some cur
            → lookup str_eq e.profile sizes ≡ some (cur.entry.hot_size, cur.entry.warm_size) =
          λ cur c. rw same (window_sizes p r active sizes h cur (rw same at c)).0 in
        rw q (
          fire_sizes e now active sizes p (λ _. agree) ∙ rw q refl,
          fire_window e now active sizes p ∙ rw q refl,
          b ∙ ap base same,
        )
    | inr q ↦ rw q (
        same-InForce p r active _ sizes _ (fire_window e now active sizes p ∙ rw q refl)
          (fire_sizes e now active sizes p (λ t. absurd (cc (t, q))) ∙ rw q refl) h)
  ]

  -- An expiry of the profile itself.
  expire_own :
      (p : String) (r : Reading) (now : ℕ) (active : Windows) (sizes : Sizes)
      → InForce p r (active, sizes)
      → InForce p (read_event p (expires p now) r) (handle (expires p now) (active, sizes))
  unfolding handle handle_expire
  expire_own p unset now active sizes (h, g) = rw (handle, handle_expire, g) (h, g)
  expire_own p at_baseline now active sizes (h, g) = rw (handle, handle_expire, g) (h, g)
  expire_own p (in_window e at) now active sizes (h, g, b) =
      let own : str_eq p p ≡ true = (eq_iff p p).1 refl in
      elim (Bool-cases (ltb now (at + e.duration))) [
        | inl d ↦
            let on : leb (at + e.duration) now ≡ false = ground arith in
            rw (handle, handle_expire, g, d, own, on) (h, g, b)
        | inr d ↦
            let over : leb (at + e.duration) now ≡ true = ground arith in
            rw (handle, handle_expire, g, d, own, over)
              (
                lookup-insert str_eq eq_iff p p (e.baseline_hot, e.baseline_warm) sizes
                    ∙ rw own (ap some b),
                lookup-erase str_eq eq_iff p p active ∙ rw own refl,
              )
      ]

  read_event_other :
      (p : String) (r : Reading) (q : String) (now : ℕ)
      → str_eq q p ≡ false
      → read_event p (expires q now) r ≡ r
  read_event_other p unset q now n = refl
  read_event_other p at_baseline q now n = refl
  read_event_other p (in_window e at) q now n = rw n refl

  expire_other :
      (p : String) (r : Reading) (q : String) (now : ℕ) (active : Windows) (sizes : Sizes)
      → str_eq q p ≡ false
      → InForce p r (active, sizes)
      → InForce p r (handle (expires q now) (active, sizes))
  unfolding handle handle_expire
  expire_other p r q now active sizes n h = elim (Option-cases (lookup str_eq q active)) [
    | inl c ↦ rw (handle, handle_expire, c) h
    | inr (cur, c) ↦ elim (Bool-cases (ltb now cur.active_until)) [
      | inl d ↦ rw (handle, handle_expire, c, d) h
      | inr d ↦
          rw (handle, handle_expire, c, d)
            (same-InForce p r active (erase str_eq q active) sizes
              (insert str_eq q (cur.entry.baseline_hot, cur.entry.baseline_warm) sizes)
              (lookup-erase str_eq eq_iff q p active ∙ rw n refl)
              (lookup-insert str_eq eq_iff q p (cur.entry.baseline_hot, cur.entry.baseline_warm)
                  sizes
                ∙ rw n refl)
              h)
    ]
  ]

  expire-InForce :
      (p : String) (r : Reading) (q : String) (now : ℕ) (active : Windows) (sizes : Sizes)
      → InForce p r (active, sizes)
      → InForce p (read_event p (expires q now) r) (handle (expires q now) (active, sizes))
  expire-InForce p r q now active sizes h = elim (Bool-cases (str_eq q p)) [
    | inl own ↦ rw ((eq_iff q p).0 own) (expire_own p r now active sizes h)
    | inr n ↦ rw (read_event_other p r q now n) (expire_other p r q now active sizes n h)
  ]

  -- However fires and expiries follow each other, with entries that carry the baseline of their profile,
  -- from windows and sizes that agree with a reading of the profile (at first none, or a window that was
  -- replayed and applied): they agree with what the events say from there. A profile is at the sizes of
  -- the entry that fired last, until an expiry at or after the end of its window; then it is at its
  -- baseline, even if the window of an earlier fire has not ended yet; and a profile without a fire stays
  -- as it was but for the expiry of its window. handleFire leaves the call of apply out only where it
  -- would change nothing.
  pub handle_all-InForce :
      (p : String) (events : List Event) (r : Reading) (active : Windows) (sizes : Sizes)
      → All HasBaseline events
      → InForce p r (active, sizes)
      → InForce p (read_events p events r) (handle_all events (active, sizes))
  unfolding handle_all
  handle_all-InForce p [] r active sizes b h = h
  handle_all-InForce p (fires e now ∷ es) r active sizes b h =
      let s = handle (fires e now) (active, sizes) in
      handle_all-InForce p es (read_event p (fires e now) r) s.0 s.1 b.1
        (fire-InForce p r e now active sizes b.0 h)
  handle_all-InForce p (expires q now ∷ es) r active sizes b h =
      let s = handle (expires q now) (active, sizes) in
      handle_all-InForce p es (read_event p (expires q now) r) s.0 s.1 b.1
        (expire-InForce p r q now active sizes h)
