-- ===== src/Lan9118/Mac.antt =====
-- The registers behind the MAC's and the PHY's access registers, in lan9118_eth_drv.c: each access
-- starts an operation of the chip and polls its busy bit a bounded number of times.
pub mod Polling
pub mod Registers
pub mod Writes
use Prim.Native.Nat.{bit_and}
use ohos_l0_adapter.Base.{
  ℕ, zero, suc, ◌+◌, ◌%◌, ◌^◌, Bool, false, not, ◌&&◌, Proc, ◌==◌, if◌then◌else◌, pure, ret, gets,
  when, branch, invoke, ◌>>=◌, ◌>>◌,
}
use ohos_l0_adapter.Lan9118.Words.{get_bit, set_bit, clr_bit, set_bit_field, get_bit_field}
use ohos_l0_adapter.Lan9118.Device.{
  Platform, Driver, M, Fn, Reg, byte_test, mac_csr_cmd, mac_csr_data, look, put, wait, LanError,
  no_error, timeout, busy, internal, is_error,
}

-- `do { body; time_out--; } while (time_out && test);` from a count that is not 0: the count in the
-- end. The test is not made at 0.
unfoldable pub poll : {R : Type 0} → M R (Unit {0}) → M R Bool → ℕ → M R ℕ
poll body test zero = pure 0
poll body test (suc zero) = do body; pure 0
poll body test (suc (suc n)) = do
  body
  again ← test
  branch again (poll body test (suc n)) (pure (suc n))

-- REG_WRITE_TIME_OUT_MS
abbrev pub reg_write_time_out : ℕ
reg_write_time_out = 50

-- `enum lan9118_mac_reg_offsets_t`, the offsets that the driver uses.
abbrev pub mac_cr : ℕ
mac_cr = 1

abbrev pub mac_addrh : ℕ
mac_addrh = 2

abbrev pub mac_addrl : ℕ
mac_addrl = 3

abbrev pub mac_mii_acc : ℕ
mac_mii_acc = 6

abbrev pub mac_mii_data : ℕ
mac_mii_data = 7

module _ (env : Platform) where
  -- One round of the loops that wait for the MAC.
  unfoldable pub mac_round : {R : Type 0} → M R (Unit {0})
  mac_round = do look env byte_test; wait env 1

  unfoldable pub mac_busy : {R : Type 0} → M R Bool
  mac_busy = do cmd ← look env mac_csr_cmd; pure (get_bit cmd 31)

  -- The test of the loop of `lan9118_mac_regwrite`, which reads the command register twice: the bit,
  -- as 0 or 1, is and-ed with the whole word.
  unfoldable pub write_busy : {R : Type 0} → M R Bool
  write_busy = do
    word ← look env mac_csr_cmd
    cmd ← look env mac_csr_cmd
    pure (not (bit_and word (if get_bit cmd 31 then 1 else 0) == 0))

  -- `lan9118_mac_regread`: the error, and the caller's variable, `held` before.
  unfoldable pub mac_regread : ℕ → ℕ → Fn (LanError × ℕ)
  mac_regread offset held = do
    pending ← mac_busy
    when pending (ret (busy, held))
    put env mac_csr_cmd (set_bit (set_bit (get_bit_field offset 0x0F 0) 30) 31)
    left ← poll mac_round mac_busy reg_write_time_out
    when (left == 0) (ret (timeout, held))
    word ← look env mac_csr_data
    ret (no_error, word)

  -- `lan9118_mac_regwrite`
  unfoldable pub mac_regwrite : ℕ → ℕ → Fn LanError
  mac_regwrite offset value = do
    pending ← mac_busy
    when pending (ret busy)
    put env mac_csr_data value
    put env mac_csr_cmd (set_bit (clr_bit (get_bit_field offset 0x0F 0) 30) 31)
    left ← poll mac_round write_busy reg_write_time_out
    when (left == 0) (ret timeout)
    ret no_error

  -- One round and the test of the loops that wait for the PHY; the round returns what the caller gets
  -- when the access register cannot be read.
  unfoldable pub phy_poll : {A : Type 0} → A → ℕ → ℕ → M A (ℕ × ℕ)
  phy_poll failed val zero = pure (0, val)
  phy_poll failed val (suc n) = do
    wait env 1
    (error, val) ← invoke (mac_regread mac_mii_acc val)
    when (is_error error) (ret failed)
    branch (not (n == 0) && get_bit val 0) (phy_poll failed val n) (pure (n, val))

  -- `lan9118_phy_regread`: the error, and the caller's variable, `held` before.
  unfoldable pub phy_regread : ℕ → ℕ → Fn (LanError × ℕ)
  phy_regread offset held = do
    (error, val) ← invoke (mac_regread mac_mii_acc 0)
    when (is_error error) (ret (internal, held))
    when (get_bit val 0) (ret (busy, held))
    error ← invoke (
        mac_regwrite mac_mii_acc
          (set_bit (clr_bit (set_bit_field (set_bit 0 11) 0x1F 6 offset) 1) 0))
    when (is_error error) (ret (internal, held))
    (left, val) ← phy_poll (internal, held) 0 reg_write_time_out
    when (left == 0) (ret (timeout, held))
    (error, word) ← invoke (mac_regread mac_mii_data held)
    when (is_error error) (ret (internal, word))
    ret (no_error, word)

  -- `lan9118_phy_regwrite`
  unfoldable pub phy_regwrite : ℕ → ℕ → Fn LanError
  phy_regwrite offset value = do
    (error, val) ← invoke (mac_regread mac_mii_acc 0)
    when (is_error error) (ret internal)
    when (get_bit val 0) (ret busy)
    error ← invoke (mac_regwrite mac_mii_data (bit_and value 0xFFFF))
    when (is_error error) (ret internal)
    error ← invoke (
        mac_regwrite mac_mii_acc
          (set_bit (set_bit (set_bit_field (set_bit 0 11) 0x1F 6 offset) 1) 0))
    when (is_error error) (ret internal)
    (left, val) ← phy_poll internal 0 reg_write_time_out
    when (left == 0) (ret timeout)
    ret no_error
