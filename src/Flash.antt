-- ===== src/Flash.antt =====
-- The flash of hal_iot_flash.c, over the chip's library.
pub mod Writing
use ohos_l0_adapter.Base.{
  ℕ, ◌∷◌, ◌^◌, ◌%◌, List, not, Proc, go, ◌>>=◌, ◌>>◌, ret, when, pure, is_zero, ◌==◌, if◌then◌else◌,
}

-- A call into the chip's library: the offset, the bytes of the caller, and the size that it names.
pub data FlashCall : Type 0 where
  flash_init : FlashCall
  flash_erase : ℕ → ℕ → FlashCall
  flash_write : ℕ → List ℕ → ℕ → FlashCall
  flash_read : ℕ → ℕ → FlashCall

abbrev pub History : Type 0
History = List (FlashCall × ℕ)

-- The library, with IOT_SUCCESS and IOT_FAILURE. A Boolean answer is 1 where it is true.
pub record Chip : Type 0 where
  pub reply : History → FlashCall → ℕ
  pub iot_success : ℕ
  pub iot_failure : ℕ

abbrev pub M : Type 0 → Type 0 → Type 0
M R A = Proc History R A

abbrev pub Fn : Type 0 → Type 0
Fn A = Proc History A A

module _ (chip : Chip) where
  unfoldable pub flash_call : {R : Type 0} → FlashCall → M R ℕ
  flash_call c h = let code = chip.reply h c in (go code, (c, code) ∷ h)

  -- `IoTFlashRead`
  unfoldable pub iot_flash_read : ℕ → ℕ → Fn ℕ
  iot_flash_read offset size = do code ← flash_call (flash_read offset size); ret (code % 2 ^ 32)

  -- `if (hal_flash_erase(flashOffset, size) != true) { return IOT_FAILURE; }`
  unfoldable pub erase_or_return : ℕ → ℕ → M ℕ (Unit {0})
  erase_or_return offset size = do
    code ← flash_call (flash_erase offset size)
    when (not (code == 1)) (ret chip.iot_failure)

  -- `IoTFlashWrite`
  unfoldable pub iot_flash_write : ℕ → ℕ → List ℕ → ℕ → Fn ℕ
  iot_flash_write offset size bytes do_erase = do
    when (not (do_erase == 0)) (erase_or_return offset size)
    code ← flash_call (flash_write offset bytes size)
    ret (code % 2 ^ 32)

  -- `IoTFlashErase`
  unfoldable pub iot_flash_erase : ℕ → ℕ → Fn ℕ
  iot_flash_erase offset size = do
    code ← flash_call (flash_erase offset size)
    ret (if code == 1 then chip.iot_success else chip.iot_failure)

  -- `IoTFlashInit`
  unfoldable pub iot_flash_init : Fn ℕ
  iot_flash_init = do
    code ← flash_call flash_init
    ret (if code == 1 then chip.iot_success else chip.iot_failure)

  -- `IoTFlashDeinit`
  unfoldable pub iot_flash_deinit : Fn ℕ
  iot_flash_deinit = ret chip.iot_success
