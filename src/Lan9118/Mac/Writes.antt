-- ===== src/Lan9118/Mac/Writes.antt =====
-- How lan9118_mac_regwrite ends, whatever the chip shows, and when it does not wait.
use Prim.Native.Nat.{bit_and}
use ohos_l0_adapter.Base.{
  ℕ, suc, ◌%◌, ◌<◌, ◌≡◌, refl, Bool, true, false, not, ◌&&◌, ◌==◌, go, returned, ◌>>=◌, ◌⊎◌, inl,
  inr, if◌then◌else◌, Bool-cases, arith,
}
use ohos_l0_adapter.Lan9118.Words.{set_bit, clr_bit, get_bit_field}
use ohos_l0_adapter.Lan9118.Words.Digits.{bit_and-ones}
use ohos_l0_adapter.Lan9118.Device.{
  Platform, Driver, mac_csr_cmd, mac_csr_data, look, put, LanError, no_error, timeout, busy,
}
use ohos_l0_adapter.Lan9118.Mac.{mac_round, write_busy, mac_regwrite}
use ohos_l0_adapter.Lan9118.Mac.Polling.{after, Busy, Busy-cases, poll-clear, poll-expires}
use ohos_l0_adapter.Lan9118.Mac.Registers.{
  shown, looked, written, round, csr_busy, suc_nonzero, mac_busy-goes, mac_round-goes,
}

module _ (env : Platform) where
  abbrev pub looked_twice : Driver → Driver
  looked_twice s = looked env mac_csr_cmd (looked env mac_csr_cmd s)

  -- What the test of the loop depends on: bit 0 of the first word read, and the busy bit of the second.
  abbrev pub odd_busy : Driver → Bool
  odd_busy s = (shown env mac_csr_cmd s % 2 == 1) && csr_busy env (looked env mac_csr_cmd s)

  and_bit : (w : ℕ) (b : Bool) → not (bit_and w (if b then 1 else 0) == 0) ≡ ((w % 2 == 1) && b)
  and_bit w true = rw (bit_and-ones 1 w) (ground arith)
  and_bit w false = rw (bit_and-ones 0 w) (ground arith)

  write_busy-goes :
      {R : Type 0} (s : Driver) → write_busy env {R = R} s ≡ (go (odd_busy s), looked_twice s)
  unfolding write_busy look ◌>>=◌
  write_busy-goes s =
      simp (and_bit (shown env mac_csr_cmd s) (csr_busy env (looked env mac_csr_cmd s)))

  -- The state in which a write to MAC register `offset` begins to wait.
  abbrev pub write_begun : ℕ → ℕ → Driver → Driver
  write_begun offset value s =
      written env mac_csr_cmd (set_bit (clr_bit (get_bit_field offset 0x0F 0) 30) 31)
        (written env mac_csr_data value (looked env mac_csr_cmd s))

  -- The state after k rounds of the wait for a write.
  abbrev pub write_waited : ℕ → Driver → Driver
  write_waited k s = after (round env) looked_twice odd_busy k s

  abbrev pub StaysOdd : ℕ → Driver → Type 0
  StaysOdd m s = Busy (round env) looked_twice odd_busy m s

  -- lan9118_mac_regwrite returns in one of three ways. It refuses while the chip is busy. It reports
  -- success in the first of 49 rounds after which it reads a command word whose bit 0 is clear, or then one whose busy bit is. Or neither happens in 49 rounds,
  -- and it times out after round 50.
  pub mac_regwrite_lem :
      (offset value : ℕ) (s : Driver)
      → ((csr_busy env s ≡ true)
          × (mac_regwrite env offset value s ≡ (returned busy, looked env mac_csr_cmd s)))
        ⊎ (((k : ℕ) × (k < 49)
              × StaysOdd k (write_begun offset value s)
              × (odd_busy (round env (write_waited k (write_begun offset value s))) ≡ false)
              × (mac_regwrite env offset value s
                  ≡ (returned no_error, write_waited (suc k) (write_begun offset value s))))
            ⊎ (StaysOdd 49 (write_begun offset value s)
                × (mac_regwrite env offset value s ≡ (
                  returned timeout,
                  round env (write_waited 49 (write_begun offset value s)),
                ))))
  unfolding mac_regwrite look put ◌>>=◌
  mac_regwrite_lem offset value s =
      let t = write_begun offset value s in
      elim (Bool-cases (csr_busy env s)) [
        | inl pending ↦ inl (pending, simp (mac_busy-goes, pending))
        | inr free ↦ elim (Busy-cases (round env) looked_twice odd_busy 49 t) [
          | inl (k, lt, before, clear) ↦
              let (left, ends) =
                poll-clear (round env) looked_twice odd_busy {R = LanError} (mac_round env)
                  (write_busy env) (mac_round-goes env) write_busy-goes 50 k t (omega arith) before
                  clear in
              inr (inl (k, lt, before, clear, simp (mac_busy-goes, free, ends, suc_nonzero)))
          | inr all ↦
              let ends =
                poll-expires (round env) looked_twice odd_busy {R = LanError} (mac_round env)
                  (write_busy env) (mac_round-goes env) write_busy-goes 49 t all in
              inr (inr (all, simp (mac_busy-goes, free, ends)))
        ]
      ]

  -- Where the chip is not busy at first and every command word that it shows has a clear bit 0, as the words of the registers with an even offset have, a write reports
  -- success after one round, whatever the busy bit is then.
  pub mac_regwrite-early :
      (offset value : ℕ) (s : Driver)
      → csr_busy env s ≡ false
      → ((t : Driver) → shown env mac_csr_cmd t % 2 ≡ 0)
      → mac_regwrite env offset value s
        ≡ (returned no_error, write_waited 1 (write_begun offset value s))
  unfolding mac_regwrite look put ◌>>=◌
  mac_regwrite-early offset value s free even =
      let t = write_begun offset value s in
      let clear : odd_busy (round env t) ≡ false = simp (even (round env t)) refl in
      let (left, ends) =
        poll-clear (round env) looked_twice odd_busy {R = LanError} (mac_round env) (write_busy env)
          (mac_round-goes env) write_busy-goes 50 0 t (omega arith) (λ j lt. absurd (omega arith))
          clear in
      simp (mac_busy-goes, free, ends, suc_nonzero)
