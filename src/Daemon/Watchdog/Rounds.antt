-- ===== src/Daemon/Watchdog/Rounds.antt =====
-- What the watchdog does over many rounds.
use gonesis.Prelude.{
  ℕ, zero, suc, ◌+◌, ◌<◌, ◌/◌, ◌%◌, Text, text_eq_refl, text_eq_ne, Option, none, some, List, [],
  ◌∷◌, ◌++◌, All, ◌≡◌, ◌≢◌, refl, sym, ap, ◌∙◌, arith, inl, inr, Bool-cases, leb, if◌then◌else◌,
}
use gonesis.Dict.{insert}
use gonesis.Dict.Laws.{lookup-insert}
use gonesis.Daemon.Watchdog.{
  HealthCheck, Failures, count_of, after_restart, after_check, run_checks, run_rounds,
}

count_of-insert : (name : Text) (n : ℕ) (f : Failures) → count_of name (insert name n f) ≡ n
unfolding count_of
count_of-insert name n f = rw (lookup-insert name name n f, text_eq_refl name, count_of) refl

count_of-insert_other :
    (name other : Text) (n : ℕ) (f : Failures)
    → other ≢ name
    → count_of other (insert name n f) ≡ count_of other f
unfolding count_of
count_of-insert_other name other n f ne =
    rw (lookup-insert name other n f, text_eq_ne name other (λ e. ne (sym e)), count_of) refl

module _ {W : Type 0} where
  after_check-other :
      (c : HealthCheck W) (name : Text) (f : Failures) (r : Option Text × W)
      → name ≢ c.name
      → count_of name (after_check c f r).0 ≡ count_of name f
  unfolding after_check after_restart
  after_check-other c name f (none, w) ne = count_of-insert_other c.name name 0 f ne
  after_check-other c name f (some e, w) ne = elim (Bool-cases (leb 3 (count_of c.name f + 1))) [
    | inl third ↦ rw (third, after_check) (restart_kept (c.restart w))
    | inr early ↦ rw (early, after_check) (count_of-insert_other c.name name _ f ne)
  ]
    where
      restart_kept :
          (r : Option Text × W)
          → count_of name (after_restart c.name (insert c.name (count_of c.name f + 1) f) r).0
            ≡ count_of name f
      restart_kept (none, w') =
          count_of-insert_other c.name name 0 _ ne ∙ count_of-insert_other c.name name _ f ne
      restart_kept (some msg, w') = count_of-insert_other c.name name _ f ne

  -- The count of a component moves only by its own check.
  run_checks-others :
      (name : Text) (checks : List (HealthCheck W)) (f : Failures) (w : W)
      → All (λ (c : HealthCheck W). name ≢ c.name) checks
      → count_of name (run_checks checks f w).0 ≡ count_of name f
  unfolding run_checks
  run_checks-others name [] f w others = refl
  run_checks-others name (c ∷ checks) f w (first, others) =
      run_checks-others name checks _ _ others ∙ after_check-other c name f (c.check w) first

  after_check-passed :
      (c : HealthCheck W) (f : Failures) (r : Option Text × W)
      → r.0 ≡ none
      → count_of c.name (after_check c f r).0 ≡ 0
  unfolding after_check
  after_check-passed c f (none, w) e = count_of-insert c.name 0 f
  after_check-passed c f (some msg, w) e = cc

  -- A component whose check passes has a count of zero after the round, whatever the others did,
  -- if no check behind it has its name.
  pub run_checks-passed :
      (before : List (HealthCheck W)) (c : HealthCheck W) (behind : List (HealthCheck W))
      (f : Failures) (w : W)
      → ((v : W) → (c.check v).0 ≡ none)
      → All (λ (d : HealthCheck W). c.name ≢ d.name) behind
      → count_of c.name (run_checks (before ++ c ∷ behind) f w).0 ≡ 0
  unfolding run_checks
  run_checks-passed [] c behind f w passes others =
      run_checks-others c.name behind _ _ others ∙ after_check-passed c f (c.check w) (passes w)
  run_checks-passed (b ∷ before) c behind f w passes others =
      run_checks-passed before c behind _ _ passes others

-- A component `c` among others: its check never passes, and each restart of it succeeds. `seen` counts
-- its restarts in the world, in which nothing else moves that count.
module _ {W : Type 0} (c : HealthCheck W) (seen : W → ℕ)
    (fails : (w : W) → (e : Text) × ((c.check w).0 ≡ some e))
    (restarts : (w : W) → (c.restart w).0 ≡ none)
    (seen-check : (w : W) → seen ((c.check w).1) ≡ seen w)
    (seen-restart : (w : W) → seen ((c.restart w).1) ≡ suc (seen w)) where
  -- A component of another name, whose check and restart are no restart of `c`
  abbrev pub IsOther : HealthCheck W → Type 0
  IsOther d =
      (c.name ≢ d.name)
      × ((w : W) → seen ((d.check w).1) ≡ seen w)
      × ((w : W) → seen ((d.restart w).1) ≡ seen w)

  after_restart-seen :
      (name : Text) (f : Failures) (r : Option Text × W)
      → seen (after_restart name f r).1 ≡ seen (r.1)
  unfolding after_restart
  after_restart-seen name f (none, w) = refl
  after_restart-seen name f (some e, w) = refl

  after_check-seen :
      (d : HealthCheck W) (f : Failures) (r : Option Text × W)
      → IsOther d
      → seen (after_check d f r).1 ≡ seen (r.1)
  unfolding after_check
  after_check-seen d f (none, w) o = refl
  after_check-seen d f (some e, w) o = elim (Bool-cases (leb 3 (count_of d.name f + 1))) [
    | inl third ↦ rw (third, after_check) (after_restart-seen d.name _ (d.restart w) ∙ o.2 w)
    | inr early ↦ rw (early, after_check) refl
  ]

  other_check :
      (d : HealthCheck W) (f : Failures) (w : W)
      → IsOther d
      → let (f', w') = after_check d f (d.check w) in
        (count_of c.name f' ≡ count_of c.name f) × (seen w' ≡ seen w)
  other_check d f w o =
      (after_check-other d c.name f (d.check w) o.0, after_check-seen d f (d.check w) o ∙ o.1 w)

  other_checks :
      (checks : List (HealthCheck W)) (f : Failures) (w : W)
      → All IsOther checks
      → let (f', w') = run_checks checks f w in
        (count_of c.name f' ≡ count_of c.name f) × (seen w' ≡ seen w)
  unfolding run_checks
  other_checks [] f w others = (refl, refl)
  other_checks (d ∷ checks) f w (o, others) =
      let (f', w') = after_check d f (d.check w) in
      let (count, world) = other_check d f w o in
      let (count', world') = other_checks checks f' w' others in (count' ∙ count, world' ∙ world)

  -- From a count of `k`, the third failure restarts the component and clears the count.
  abbrev Moved : ℕ → W → Failures × W → Type 0
  Moved k w r =
      (count_of c.name (r.0) ≡ (if leb 3 (k + 1) then 0 else k + 1))
      × (seen (r.1) ≡ (if leb 3 (k + 1) then suc (seen w) else seen w))

  own_failure :
      (f : Failures) (w : W) (k : ℕ) (r : Option Text × W) (e : Text)
      → count_of c.name f ≡ k
      → r.0 ≡ some e
      → seen (r.1) ≡ seen w
      → Moved k w (after_check c f r)
  unfolding after_check after_restart
  own_failure f w k (none, w') e counted failed same = cc
  own_failure f w k (some m, w') e counted failed same = elim (Bool-cases (leb 3 (k + 1))) [
    | inl third ↦
        rw (counted, third, restarts w', after_check, after_restart)
          (count_of-insert c.name 0 _, seen-restart w' ∙ ap suc same)
    | inr early ↦ rw (counted, early, after_check) (count_of-insert c.name (k + 1) f, same)
  ]

  one_round :
      (before behind : List (HealthCheck W)) (f : Failures) (w : W) (k : ℕ)
      → All IsOther before
      → All IsOther behind
      → count_of c.name f ≡ k
      → Moved k w (run_checks (before ++ c ∷ behind) f w)
  unfolding run_checks
  one_round [] behind f w k others others' counted =
      let (e, failed) = fails w in
      let (f', w') = after_check c f (c.check w) in
      let (count, world) = own_failure f w k (c.check w) e counted failed (seen-check w) in
      let (count', world') = other_checks behind f' w' others' in (count' ∙ count, world' ∙ world)
  one_round (d ∷ before) behind f w k (o, others) others' counted =
      let (f', w') = after_check d f (d.check w) in
      let (count, world) = other_check d f w o in
      let (count', world') = one_round before behind f' w' k others others' (count ∙ counted) in
      (count', world' ∙ ap (λ s. if leb 3 (k + 1) then suc s else s) world)

  next_count : (n : ℕ) → (if leb 3 (n % 3 + 1) then 0 else n % 3 + 1) ≡ suc n % 3
  next_count n = ground arith

  next_seen : (n s : ℕ) → (if leb 3 (n % 3 + 1) then suc (s + n / 3) else s + n / 3) ≡ s + suc n / 3
  next_seen n s = ground arith

  -- A component that fails each check, and whose restarts succeed, is restarted in each round that
  -- brings its count to three, and in no other, wherever it stands among components of other names
  -- that fail or pass as they like: after `n` rounds from a count of `k` below three, it was restarted
  -- `(k + n) / 3` times, and its count is what is left.
  pub run_rounds-restarts :
      (before behind : List (HealthCheck W)) (n k : ℕ) (f : Failures) (w : W)
      → All IsOther before
      → All IsOther behind
      → k < 3
      → count_of c.name f ≡ k
      → let (f', w') = run_rounds n (before ++ c ∷ behind) f w in
        (count_of c.name f' ≡ (k + n) % 3) × (seen w' ≡ seen w + (k + n) / 3)
  unfolding run_rounds
  run_rounds-restarts before behind zero k f w others others' small counted =
      (counted ∙ ground arith, ground arith)
  run_rounds-restarts before behind (suc n) k f w others others' small counted =
      let (f', w') = run_rounds n (before ++ c ∷ behind) f w in
      let step : k + suc n ≡ suc (k + n) = omega arith in
      let (count, world) = run_rounds-restarts before behind n k f w others others' small counted in
      let (count', world') = one_round before behind f' w' ((k + n) % 3) others others' count in
      (
        count' ∙ next_count (k + n) ∙ ap (λ m. m % 3) (sym step),
        world'
            ∙ ap (λ s. if leb 3 ((k + n) % 3 + 1) then suc s else s) world
            ∙ next_seen (k + n) (seen w)
            ∙ ap (λ m. seen w + m / 3) (sym step),
      )
