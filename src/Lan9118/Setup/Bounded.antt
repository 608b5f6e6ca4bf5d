-- ===== src/Lan9118/Setup/Bounded.antt =====
-- Bounds on the accesses that the functions of lan9118_eth_drv.c make, whatever the chip shows.
use ohos_l0_adapter.Base.{ℕ, zero, suc, ◌*◌, refl, Bool, arith}
use ohos_l0_adapter.Lan9118.Device.{Platform, Fn, Reg, set_field_of, LanError}
use ohos_l0_adapter.Lan9118.Costs.{
  Costs, ◌▹◌, Costs-more, Costs-pure, Costs-ret, Costs-modify, Costs-when, Costs-branch,
  Costs-invoke, Costs-poll, Costs-look, Costs-put, Costs-set_bit_of, Costs-wait, Costs-mac_busy,
  Costs-write_busy, Costs-mac_round,
}
use ohos_l0_adapter.Lan9118.Mac.{mac_regread, mac_regwrite, phy_poll, phy_regread, phy_regwrite}
use ohos_l0_adapter.Lan9118.Setup.{
  read_id, check_id, soft_reset, set_txfifo, wait_eeprom, init_irqs, disable_all_interrupts,
  clear_all_interrupts, check_phy, reset_phy, advertise_cap, establish_link, enable_xmit,
  enable_mac_xmit, enable_mac_recv, or_return, lan9118_init,
}

module _ (env : Platform) where
  Costs-mac_regread : (offset held : ℕ) → Costs (mac_regread env offset held) 153
  unfolding mac_regread
  Costs-mac_regread offset held = Costs-mac_busy env ▹ λ b. Costs-when b _ (Costs-ret _) ▹ λ _.
      Costs-put env _ _ ▹ λ _. Costs-poll _ _ 50 (Costs-mac_round env) (Costs-mac_busy env) ▹ λ n.
      Costs-when _ _ (Costs-ret _) ▹ λ _. Costs-look env _ ▹ λ w. Costs-ret _

  Costs-mac_regwrite : (offset value : ℕ) → Costs (mac_regwrite env offset value) 203
  unfolding mac_regwrite
  Costs-mac_regwrite offset value = Costs-mac_busy env ▹ λ b. Costs-when b _ (Costs-ret _) ▹ λ _.
      Costs-put env _ _ ▹ λ _. Costs-put env _ _ ▹ λ _.
      Costs-poll _ _ 50 (Costs-mac_round env) (Costs-write_busy env) ▹ λ n.
      Costs-when _ _ (Costs-ret _) ▹ λ _. Costs-ret _

  Costs-phy_poll :
      {A : Type 0} (failed : A) (val n : ℕ) → Costs (phy_poll env failed val n) (n * 154)
  unfolding phy_poll
  Costs-phy_poll failed val zero = Costs-pure _
  Costs-phy_poll failed val (suc n) = Costs-more _ (omega arith) (
      Costs-wait env 1 ▹ λ _. Costs-invoke _ (Costs-mac_regread _ _) ▹ λ r.
      Costs-when _ _ (Costs-ret _) ▹ λ _.
      Costs-branch _ _ _ (Costs-phy_poll failed r.1 n) (Costs-pure _))

  Costs-phy_regread : (offset held : ℕ) → Costs (phy_regread env offset held) 8209
  unfolding phy_regread
  Costs-phy_regread offset held = Costs-invoke _ (Costs-mac_regread _ _) ▹ λ r.
      Costs-when _ _ (Costs-ret _) ▹ λ _. Costs-when _ _ (Costs-ret _) ▹ λ _.
      Costs-invoke _ (Costs-mac_regwrite _ _) ▹ λ e. Costs-when _ _ (Costs-ret _) ▹ λ _.
      Costs-phy_poll _ _ 50 ▹ λ n. Costs-when _ _ (Costs-ret _) ▹ λ _.
      Costs-invoke _ (Costs-mac_regread _ _) ▹ λ r. Costs-when _ _ (Costs-ret _) ▹ λ _. Costs-ret _

  Costs-phy_regwrite : (offset value : ℕ) → Costs (phy_regwrite env offset value) 8259
  unfolding phy_regwrite
  Costs-phy_regwrite offset value = Costs-invoke _ (Costs-mac_regread _ _) ▹ λ r.
      Costs-when _ _ (Costs-ret _) ▹ λ _. Costs-when _ _ (Costs-ret _) ▹ λ _.
      Costs-invoke _ (Costs-mac_regwrite _ _) ▹ λ e. Costs-when _ _ (Costs-ret _) ▹ λ _.
      Costs-invoke _ (Costs-mac_regwrite _ _) ▹ λ e. Costs-when _ _ (Costs-ret _) ▹ λ _.
      Costs-phy_poll _ _ 50 ▹ λ n. Costs-when _ _ (Costs-ret _) ▹ λ _. Costs-ret _

  Costs-soft_reset : Costs (soft_reset env) 22
  unfolding soft_reset
  Costs-soft_reset = Costs-set_bit_of env _ _ ▹ λ _.
      Costs-poll _ _ 10 (Costs-wait env 1) (Costs-look env _ ▹ λ w. Costs-pure _) ▹ λ n.
      Costs-when _ _ (Costs-ret _) ▹ λ _. Costs-ret _

  Costs-wait_eeprom : Costs (wait_eeprom env) 100
  unfolding wait_eeprom
  Costs-wait_eeprom =
      Costs-poll _ _ 50 (Costs-wait env 1) (Costs-look env _ ▹ λ w. Costs-pure _) ▹ λ n.
      Costs-when _ _ (Costs-ret _) ▹ λ _. Costs-ret _

  Costs-check_phy : Costs (check_phy env) 16418
  unfolding check_phy
  Costs-check_phy = Costs-invoke _ (Costs-phy_regread _ _) ▹ λ r.
      Costs-when _ _ (Costs-ret _) ▹ λ _. Costs-invoke _ (Costs-phy_regread _ _) ▹ λ r.
      Costs-when _ _ (Costs-ret _) ▹ λ _. Costs-when _ _ (Costs-ret _) ▹ λ _. Costs-ret _

  Costs-reset_phy : Costs (reset_phy env) 16468
  unfolding reset_phy
  Costs-reset_phy = Costs-invoke _ (Costs-phy_regread _ _) ▹ λ r.
      Costs-when _ _ (Costs-ret _) ▹ λ _.
      Costs-invoke _ (Costs-phy_regwrite _ _) ▹ λ r. Costs-when _ _ (Costs-ret _) ▹ λ _. Costs-ret _

module _ (env : Platform) {R : Type 0} where
  Costs-set_field_of :
      (r : Reg) (mask offset value : ℕ) → Costs {R = R} (set_field_of env r mask offset value) 2
  unfolding set_field_of
  Costs-set_field_of r mask offset value = Costs-look env r ▹ λ w. Costs-put env r _

  Costs-check_id : Costs {R = R} (check_id env) 1
  unfolding check_id read_id
  Costs-check_id = Costs-look env _ ▹ λ w. Costs-pure _

  Costs-set_txfifo : (n : ℕ) → Costs {R = R} (set_txfifo env n) 1
  unfolding set_txfifo
  Costs-set_txfifo n = Costs-when _ _ (Costs-put env _ _)

  Costs-init_irqs : Costs {R = R} (init_irqs env) 6
  unfolding init_irqs disable_all_interrupts clear_all_interrupts
  Costs-init_irqs = Costs-put env _ _ ▹ λ _.
      Costs-put env _ _ ▹ λ _. Costs-set_field_of _ _ _ _ ▹ λ _. Costs-set_bit_of env _ _

  Costs-advertise_cap : Costs {R = R} (advertise_cap env) 16468
  unfolding advertise_cap
  Costs-advertise_cap = Costs-invoke _ (Costs-phy_regread env _ _) ▹ λ r.
      Costs-invoke _ (Costs-phy_regwrite env _ _) ▹ λ e. Costs-pure _

  Costs-establish_link : Costs {R = R} (establish_link env) 16470
  unfolding establish_link
  Costs-establish_link = Costs-invoke _ (Costs-phy_regread env _ _) ▹ λ r.
      Costs-invoke _ (Costs-phy_regwrite env _ _) ▹ λ e. Costs-set_bit_of env _ _

  Costs-enable_xmit : Costs {R = R} (enable_xmit env) 2
  unfolding enable_xmit
  Costs-enable_xmit = Costs-set_bit_of env _ _

  Costs-enable_mac_xmit : Costs {R = R} (enable_mac_xmit env) 356
  unfolding enable_mac_xmit
  Costs-enable_mac_xmit = Costs-invoke _ (Costs-mac_regread env _ _) ▹ λ r.
      Costs-invoke _ (Costs-mac_regwrite env _ _) ▹ λ e. Costs-pure _

  Costs-enable_mac_recv : Costs {R = R} (enable_mac_recv env) 356
  unfolding enable_mac_recv
  Costs-enable_mac_recv = Costs-invoke _ (Costs-mac_regread env _ _) ▹ λ r.
      Costs-invoke _ (Costs-mac_regwrite env _ _) ▹ λ e. Costs-pure _

module _ (env : Platform) where
  Costs-or_return : {n : ℕ} (step : Fn LanError) → Costs step n → Costs (or_return env step) n
  unfolding or_return
  Costs-or_return {n = n} step h =
      Costs-more _ (omega arith) (Costs-invoke step h ▹ λ e. Costs-when _ _ (Costs-ret _))

  pub Costs-lan9118_init : (given? : Bool) → Costs (lan9118_init env given?) 80000
  unfolding lan9118_init
  Costs-lan9118_init given? = Costs-more _ (omega arith) (
      Costs-when _ _ (Costs-ret _) ▹ λ _. Costs-modify _ (λ s. refl) ▹ λ _.
      Costs-check_id env ▹ λ b. Costs-when _ _ (Costs-ret _) ▹ λ _.
      Costs-or_return _ (Costs-soft_reset env) ▹ λ _. Costs-set_txfifo env 5 ▹ λ _.
      Costs-set_field_of env _ _ _ _ ▹ λ _. Costs-set_field_of env _ _ _ _ ▹ λ _.
      Costs-set_field_of env _ _ _ _ ▹ λ _. Costs-or_return _ (Costs-wait_eeprom env) ▹ λ _.
      Costs-init_irqs env ▹ λ _. Costs-or_return _ (Costs-check_phy env) ▹ λ _.
      Costs-or_return _ (Costs-reset_phy env) ▹ λ _. Costs-wait env 100 ▹ λ _.
      Costs-invoke _ (Costs-phy_regread env _ _) ▹ λ r. Costs-when _ _ (Costs-ret _) ▹ λ _.
      Costs-when _ _ (Costs-ret _) ▹ λ _. Costs-advertise_cap env ▹ λ _.
      Costs-establish_link env ▹ λ _. Costs-enable_mac_xmit env ▹ λ _. Costs-enable_xmit env ▹ λ _.
      Costs-enable_mac_recv env ▹ λ _.
      Costs-wait env 2000 ▹ λ _. Costs-modify _ (λ s. refl) ▹ λ _. Costs-ret _)
