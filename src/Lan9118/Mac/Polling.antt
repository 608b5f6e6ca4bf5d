-- ===== src/Lan9118/Mac/Polling.antt =====
-- How the polling loops of lan9118_eth_drv.c end.
use ohos_l0_adapter.Base.{
  ℕ, zero, suc, ◌<◌, ◌≡◌, Bool, true, false, go, ◌>>=◌, ◌⊎◌, inl, inr, Bool-cases, arith,
}
use ohos_l0_adapter.Lan9118.Device.{Driver, M}
use ohos_l0_adapter.Lan9118.Mac.{poll}

-- A loop whose body takes the state along `f`, and whose test answers `shows` and takes it along `g`.
module _ (f g : Driver → Driver) (shows : Driver → Bool) where
  -- The state after k rounds, each a body and a test.
  abbrev pub after : ℕ → Driver → Driver
  after zero s = s
  after (suc k) s = after k (g (f s))

  -- The test answers `true` in each of the first m rounds.
  abbrev pub Busy : ℕ → Driver → Type 0
  Busy m s = (j : ℕ) → j < m → shows (f (after j s)) ≡ true

  Busy-rest : (m : ℕ) (s : Driver) → Busy (suc m) s → Busy m (g (f s))
  Busy-rest m s h j lt = h (suc j) (omega arith)

  Busy-more : (m : ℕ) (s : Driver) → shows (f s) ≡ true → Busy m (g (f s)) → Busy (suc m) s
  Busy-more m s now h zero lt = now
  Busy-more m s now h (suc j) lt = h j (omega arith)

  -- In m rounds there is a first one after which the test answers `false`, or it answers `true` in all.
  pub Busy-cases :
      (m : ℕ) (s : Driver)
      → ((k : ℕ) × (k < m) × Busy k s × (shows (f (after k s)) ≡ false)) ⊎ Busy m s
  Busy-cases zero s = inr (λ j lt. absurd (omega arith))
  Busy-cases (suc m) s = elim (Bool-cases (shows (f s))) [
    | inl busy ↦ elim (Busy-cases m (g (f s))) [
      | inl (k, lt, before, e) ↦ inl (suc k, omega arith, Busy-more k s busy before, e)
      | inr all ↦ inr (Busy-more m s busy all)
    ]
    | inr clear ↦ inl (0, omega arith, (λ j lt. absurd (omega arith)), clear)
  ]

  module _ {R : Type 0} (body : M R (Unit {0})) (test : M R Bool)
      (body-goes : (s : Driver) → body s ≡ (go tt, f s))
      (test-goes : (s : Driver) → test s ≡ (go (shows s), g s)) where
    -- The loop ends in the round in which the test answers `false`, with a count that is left.
    pub poll-clear :
        (n k : ℕ) (s : Driver)
        → suc k < n
        → Busy k s
        → shows (f (after k s)) ≡ false
        → (left : ℕ) × (poll body test n s ≡ (go (suc left), after (suc k) s))
    unfolding poll ◌>>=◌
    poll-clear zero k s lt h e = absurd (omega arith)
    poll-clear (suc zero) k s lt h e = absurd (omega arith)
    poll-clear (suc (suc n)) zero s lt h e = (n, simp (body-goes, test-goes, e))
    poll-clear (suc (suc n)) (suc k) s lt h e =
        let (left, ends) = poll-clear (suc n) k (g (f s)) (omega arith) (Busy-rest k s h) e in
        (left, simp (body-goes, test-goes, h 0 (omega arith)) ends)

    -- Or it ends with the count 0 when the body has been run as often as the count says.
    pub poll-expires :
        (m : ℕ) (s : Driver) → Busy m s → poll body test (suc m) s ≡ (go 0, f (after m s))
    unfolding poll ◌>>=◌
    poll-expires zero s h = simp body-goes
    poll-expires (suc m) s h =
        simp (body-goes, test-goes, h 0 (omega arith)) (poll-expires m (g (f s)) (Busy-rest m s h))
