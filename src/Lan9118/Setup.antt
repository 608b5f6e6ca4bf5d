-- ===== src/Lan9118/Setup.antt =====
-- Identification, reset, interrupts and initialisation of the controller, in lan9118_eth_drv.c.
pub mod Bounded
pub mod Ends
pub mod Irqs
pub mod States
use ohos_l0_adapter.Base.{
  ℕ, ◌*◌, ◌-◌, ◌/◌, ◌^◌, ◌%◌, List, [], ◌∷◌, Option, none, some, Bool, true, not, ◌&&◌, ◌||◌, ◌==◌,
  ltb, leb, if◌then◌else◌, pure, ret, gets, modify, when, invoke, ◌>>=◌, ◌>>◌,
}
use ohos_l0_adapter.Lan9118.Words.{get_bit, set_bit, get_bit_field, byte_of}
use ohos_l0_adapter.Lan9118.Device.{
  Platform, M, Fn, id_revision, irq_cfg, irq_status, irq_enable, fifo_level_irq, tx_cfg, hw_cfg,
  afc_cfg, eeprom_cmd, look, put, set_bit_of, clr_bit_of, set_field_of, clr_field_of, wait,
  LanError, no_error, timeout, param, internal, is_error,
}
use ohos_l0_adapter.Lan9118.Mac.{
  poll, reg_write_time_out, mac_cr, mac_addrh, mac_addrl, mac_regread, mac_regwrite, phy_regread,
  phy_regwrite,
}

-- `enum phy_reg_offsets_t`, the offsets that the driver uses.
abbrev pub phy_bctrl : ℕ
phy_bctrl = 0

abbrev pub phy_id1 : ℕ
phy_id1 = 2

abbrev pub phy_id2 : ℕ
phy_id2 = 3

abbrev pub phy_aneg_adv : ℕ
phy_aneg_adv = 4

-- CHIP_ID
abbrev pub chip_id : ℕ
chip_id = 0x1180001

module _ (env : Platform) where
  -- `lan9118_read_id`
  unfoldable pub read_id : {R : Type 0} → M R ℕ
  read_id = look env id_revision

  -- `lan9118_check_id`; `true` is the code 0.
  unfoldable pub check_id : {R : Type 0} → M R Bool
  check_id = do id ← read_id; pure (id == chip_id)

  -- `lan9118_soft_reset`, which waits at most 10 rounds.
  unfoldable pub soft_reset : Fn LanError
  soft_reset = do
    set_bit_of env hw_cfg 0
    left ← poll (wait env 1) (do w ← look env hw_cfg; pure (get_bit w 1)) 10
    when (left == 0) (ret timeout)
    ret no_error

  -- `lan9118_set_txfifo`
  unfoldable pub set_txfifo : {R : Type 0} → ℕ → M R (Unit {0})
  set_txfifo val = when (leb 2 val && leb val 14) (put env hw_cfg ((val * 2 ^ 16) % 2 ^ 32))

  -- `lan9118_set_fifo_level_irq`; a level is not negative.
  unfoldable pub set_fifo_level_irq : ℕ → ℕ → Fn LanError
  set_fifo_level_irq pos level = do
    when (ltb 0xFF level) (ret param)
    clr_field_of env fifo_level_irq 0xFF pos 0xFF
    set_field_of env fifo_level_irq 0xFF pos level
    ret no_error

  -- `lan9118_wait_eeprom`
  unfoldable pub wait_eeprom : Fn LanError
  wait_eeprom = do
    left ← poll (wait env 1) (do w ← look env eeprom_cmd; pure (get_bit w 31)) reg_write_time_out
    when (left == 0) (ret timeout)
    ret no_error

  -- `lan9118_enable_interrupt` and `lan9118_disable_interrupt`
  unfoldable pub enable_interrupt : {R : Type 0} → ℕ → M R (Unit {0})
  enable_interrupt source = set_bit_of env irq_enable source

  unfoldable pub disable_interrupt : {R : Type 0} → ℕ → M R (Unit {0})
  disable_interrupt source = clr_bit_of env irq_enable source

  -- `lan9118_disable_all_interrupts` and `lan9118_clear_all_interrupts`
  unfoldable pub disable_all_interrupts : {R : Type 0} → M R (Unit {0})
  disable_all_interrupts = put env irq_enable 0

  unfoldable pub clear_all_interrupts : {R : Type 0} → M R (Unit {0})
  clear_all_interrupts = put env irq_status (2 ^ 32 - 1)

  -- `lan9118_clear_interrupt` and `lan9118_get_interrupt`
  unfoldable pub clear_interrupt : {R : Type 0} → ℕ → M R (Unit {0})
  clear_interrupt source = set_bit_of env irq_status source

  unfoldable pub get_interrupt : {R : Type 0} → ℕ → M R Bool
  get_interrupt source = do w ← look env irq_status; pure (get_bit w source)

  -- `lan9118_init_irqs`
  unfoldable pub init_irqs : {R : Type 0} → M R (Unit {0})
  init_irqs = do
    disable_all_interrupts
    clear_all_interrupts
    set_field_of env irq_cfg 0xFFFFFFFF 0 0x11
    set_bit_of env irq_cfg 8

  -- `lan9118_check_phy`
  unfoldable pub check_phy : Fn LanError
  check_phy = do
    (error, phyid1) ← invoke (phy_regread env phy_id1 0)
    when (is_error error) (ret internal)
    (error, phyid2) ← invoke (phy_regread env phy_id2 0)
    when (is_error error) (ret internal)
    when ((phyid1 == 0xFFFF && phyid2 == 0xFFFF) || (phyid1 == 0 && phyid2 == 0)) (ret internal)
    ret no_error

  -- `lan9118_reset_phy`
  unfoldable pub reset_phy : Fn LanError
  reset_phy = do
    (error, read) ← invoke (phy_regread env phy_bctrl 0)
    when (is_error error) (ret internal)
    error ← invoke (phy_regwrite env phy_bctrl (set_bit read 15))
    when (is_error error) (ret internal)
    ret no_error

  -- `lan9118_advertise_cap`; the errors are not looked at.
  unfoldable pub advertise_cap : {R : Type 0} → M R (Unit {0})
  advertise_cap = do
    (error, aneg_adv) ← invoke (phy_regread env phy_aneg_adv 0)
    invoke (
        phy_regwrite env phy_aneg_adv
          (set_bit (set_bit (set_bit (set_bit (set_bit (set_bit aneg_adv 5) 6) 7) 8) 10) 11))
    pure tt

  -- `lan9118_establish_link`
  unfoldable pub establish_link : {R : Type 0} → M R (Unit {0})
  establish_link = do
    (error, bcr) ← invoke (phy_regread env phy_bctrl 0)
    invoke (phy_regwrite env phy_bctrl (set_bit (set_bit bcr 12) 9))
    set_bit_of env hw_cfg 20

  -- `lan9118_enable_xmit`
  unfoldable pub enable_xmit : {R : Type 0} → M R (Unit {0})
  enable_xmit = set_bit_of env tx_cfg 1

  -- `lan9118_enable_mac_xmit` and `lan9118_enable_mac_recv`
  unfoldable pub enable_mac_xmit : {R : Type 0} → M R (Unit {0})
  enable_mac_xmit = do
    (error, cr) ← invoke (mac_regread env mac_cr 0)
    invoke (mac_regwrite env mac_cr (set_bit cr 3))
    pure tt

  unfoldable pub enable_mac_recv : {R : Type 0} → M R (Unit {0})
  enable_mac_recv = do
    (error, cr) ← invoke (mac_regread env mac_cr 0)
    invoke (mac_regwrite env mac_cr (set_bit cr 2))
    pure tt

  -- `lan9118_read_mac_address`; `mac?` is whether `mac` is not NULL. The bytes stored, where it succeeds.
  unfoldable pub read_mac_address : Bool → Fn (LanError × Option (List ℕ))
  read_mac_address mac? = do
    when (not mac?) (ret (param, none))
    (error, mac_high) ← invoke (mac_regread env mac_addrh 0)
    when (is_error error) (ret (internal, none))
    (error, mac_low) ← invoke (mac_regread env mac_addrl 0)
    when (is_error error) (ret (internal, none))
    ret (
      no_error,
      some (
          byte_of mac_low 0
          ∷ byte_of mac_low 1
          ∷ byte_of mac_low 2
          ∷ byte_of mac_low 3
          ∷ byte_of mac_high 0
          ∷ byte_of mac_high 1
          ∷ []),
    )

  -- A step of lan9118_init: its error ends the function.
  unfoldable pub or_return : Fn LanError → M LanError (Unit {0})
  or_return step = do error ← invoke step; when (is_error error) (ret error)

  -- `lan9118_init`; `given?` is whether a function to wait with is given.
  unfoldable pub lan9118_init : Bool → Fn LanError
  lan9118_init given? = do
    when (not given?) (ret param)
    modify (λ s. record s { wait_ms = true })
    same ← check_id
    when (not same) (ret timeout)
    or_return soft_reset
    set_txfifo 5
    set_field_of env afc_cfg 0x0F 4 4
    set_field_of env afc_cfg 0xFF 8 55
    set_field_of env afc_cfg 0xFF 16 110
    or_return wait_eeprom
    init_irqs
    or_return check_phy
    or_return reset_phy
    wait env 100
    (error, phyreset) ← invoke (phy_regread env phy_bctrl 0)
    when (is_error error) (ret error)
    when (get_bit phyreset 15) (ret internal)
    advertise_cap
    establish_link
    enable_mac_xmit
    enable_xmit
    enable_mac_recv
    wait env 2000
    modify (λ s. record s { state = 1 })
    ret no_error
