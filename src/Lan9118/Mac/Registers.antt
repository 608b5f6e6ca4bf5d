-- ===== src/Lan9118/Mac/Registers.antt =====
-- How lan9118_mac_regread and lan9118_mac_regwrite end, whatever the chip shows.
use ohos_l0_adapter.Base.{
  ℕ, suc, ◌^◌, ◌%◌, ◌<◌, ◌∷◌, ◌≡◌, refl, Bool, true, false, ◌==◌, go, returned, ◌>>=◌, ◌⊎◌, inl,
  inr, Bool-cases, arith,
}
use ohos_l0_adapter.Lan9118.Words.{get_bit, set_bit, get_bit_field}
use ohos_l0_adapter.Lan9118.Device.{
  Platform, Driver, Reg, read, write, usleep, byte_test, mac_csr_cmd, mac_csr_data, access, look,
  put, delay_ms, wait, LanError, no_error, timeout, busy,
}
use ohos_l0_adapter.Lan9118.Mac.{poll, mac_round, mac_busy, mac_regread}
use ohos_l0_adapter.Lan9118.Mac.Polling.{after, Busy, Busy-cases, poll-clear, poll-expires}

module _ (env : Platform) where
  -- The word that a register shows, and the state after a look at it.
  abbrev pub shown : Reg → Driver → ℕ
  shown r s = env.reply s.history (read r) % 2 ^ 32

  abbrev pub looked : Reg → Driver → Driver
  looked r s = record s { history = (read r, shown r s) ∷ s.history }

  abbrev pub written : Reg → ℕ → Driver → Driver
  written r v s = record s { history = (write r v, 0) ∷ s.history }

  abbrev pub slept : Bool → Driver → Driver
  slept true s = record s { history = (usleep 1000, env.reply s.history (usleep 1000)) ∷ s.history }
  slept false s = s

  -- The state after one round of a wait for the MAC.
  abbrev pub round : Driver → Driver
  round s = slept s.wait_ms (looked byte_test s)

  -- The busy bit of the command register.
  abbrev pub csr_busy : Driver → Bool
  csr_busy s = get_bit (shown mac_csr_cmd s) 31

  pub mac_round-goes : {R : Type 0} (s : Driver) → mac_round env {R = R} s ≡ (go tt, round s)
  unfolding mac_round look wait delay_ms access ◌>>=◌
  mac_round-goes s = elim (Bool-cases s.wait_ms) [ inl h ↦ simp h | inr h ↦ simp h ]

  pub mac_busy-goes :
      {R : Type 0} (s : Driver) → mac_busy env {R = R} s ≡ (go (csr_busy s), looked mac_csr_cmd s)
  unfolding mac_busy look ◌>>=◌
  mac_busy-goes s = refl

  -- The state in which a read of MAC register `offset` begins to wait.
  abbrev pub begun : ℕ → Driver → Driver
  begun offset s =
      written mac_csr_cmd (set_bit (set_bit (get_bit_field offset 0x0F 0) 30) 31)
        (looked mac_csr_cmd s)

  -- The state after k rounds of the wait for a read.
  abbrev pub waited : ℕ → Driver → Driver
  waited k s = after round (looked mac_csr_cmd) csr_busy k s

  -- The busy bit is set after each of the first m rounds.
  abbrev pub StaysBusy : ℕ → Driver → Type 0
  StaysBusy m s = Busy round (looked mac_csr_cmd) csr_busy m s

  pub suc_nonzero : (n : ℕ) → (suc n == 0) ≡ false
  suc_nonzero n = ground arith

  mac_poll-clear :
      (R : Type 0) (k : ℕ) (s : Driver)
      → suc k < 50
      → StaysBusy k s
      → csr_busy (round (waited k s)) ≡ false
      → (left : ℕ) × (poll {R = R} (mac_round env) (mac_busy env) 50 s
          ≡ (go (suc left), waited (suc k) s))
  mac_poll-clear R k s =
      poll-clear round (looked mac_csr_cmd) csr_busy (mac_round env) (mac_busy env) mac_round-goes
        mac_busy-goes 50 k s

  mac_poll-expires :
      (R : Type 0) (s : Driver)
      → StaysBusy 49 s
      → poll {R = R} (mac_round env) (mac_busy env) 50 s ≡ (go 0, round (waited 49 s))
  mac_poll-expires R s =
      poll-expires round (looked mac_csr_cmd) csr_busy (mac_round env) (mac_busy env) mac_round-goes
        mac_busy-goes 49 s

  -- lan9118_mac_regread returns in one of three ways. It refuses while the chip is busy. It returns the
  -- data register in the first of 49 rounds after which the busy bit is clear. Or the bit is set after
  -- each of the 49 rounds, and it times out after round 50, when it does not look at the bit again.
  pub mac_regread_lem :
      (offset held : ℕ) (s : Driver)
      → ((csr_busy s ≡ true)
          × (mac_regread env offset held s ≡ (returned (busy, held), looked mac_csr_cmd s)))
        ⊎ (((k : ℕ) × (k < 49)
              × StaysBusy k (begun offset s)
              × (csr_busy (round (waited k (begun offset s))) ≡ false)
              × (let t = waited (suc k) (begun offset s) in
                  mac_regread env offset held s
                  ≡ (returned (no_error, shown mac_csr_data t), looked mac_csr_data t)))
            ⊎ (StaysBusy 49 (begun offset s)
                × (mac_regread env offset held s
                    ≡ (returned (timeout, held), round (waited 49 (begun offset s))))))
  unfolding mac_regread look put ◌>>=◌
  mac_regread_lem offset held s = elim (Bool-cases (csr_busy s)) [
    | inl pending ↦ inl (pending, simp (mac_busy-goes, pending))
    | inr free ↦ elim (Busy-cases round (looked mac_csr_cmd) csr_busy 49 (begun offset s)) [
      | inl (k, lt, before, clear) ↦
          let (left, ends) =
            mac_poll-clear (LanError × ℕ) k (begun offset s) (omega arith) before clear in
          inr (inl (k, lt, before, clear, simp (mac_busy-goes, free, ends, suc_nonzero)))
      | inr all ↦
          let ends = mac_poll-expires (LanError × ℕ) (begun offset s) all in
          inr (inr (all, simp (mac_busy-goes, free, ends)))
    ]
  ]
