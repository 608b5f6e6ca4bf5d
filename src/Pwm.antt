-- ===== src/Pwm.antt =====
-- The PWM ports of hal_iot_pwm.c: the test of the port's number, and the calls of the chip's library.
pub mod Ports
use ohos_l0_adapter.Base.{
  ℕ, ◌∷◌, ◌^◌, ◌%◌, List, not, Proc, go, ◌>>=◌, ◌>>◌, ret, when, pure, ltb, ◌==◌,
}

-- The fields of an `app_pwm_channel_init_t` that IoTPwmStart sets; the polarity is positive.
pub record Channel : Type 0 where
  pub duty : ℕ

-- A call into the chip's library. The parameters of `app_pwm_init` are constants but for `id`, and the
-- channel of `app_pwm_config_channel` is APP_PWM_ACTIVE_CHANNEL_ALL.
pub data PwmCall : Type 0 where
  pwm_init pwm_deinit pwm_start pwm_stop : ℕ → PwmCall
  pwm_update_freq : ℕ → ℕ → PwmCall
  pwm_config_channel : ℕ → Channel → PwmCall

-- The calls made and what they returned, the latest first.
abbrev pub History : Type 0
History = List (PwmCall × ℕ)

-- The library, with APP_PWM_ID_MAX and APP_DRV_SUCCESS. A result that is an int is taken by its bits.
pub record Chip : Type 0 where
  pub reply : History → PwmCall → ℕ
  pub id_max : ℕ
  pub drv_success : ℕ

-- IOT_SUCCESS and IOT_FAILURE
pub data IotCode : Type 0 where
  success failure : IotCode

abbrev pub M : Type 0 → Type 0 → Type 0
M R A = Proc History R A

abbrev pub Fn : Type 0 → Type 0
Fn A = Proc History A A

module _ (chip : Chip) where
  unfoldable pub pwm_call : {R : Type 0} → PwmCall → M R ℕ
  pwm_call c h = let code = chip.reply h c in (go code, (c, code) ∷ h)

  -- `if (port > APP_PWM_ID_MAX) { return IOT_FAILURE; }`
  unfoldable pub check_port : ℕ → M IotCode (Unit {0})
  check_port port = when (ltb chip.id_max port) (ret failure)

  -- `IoTPwmInit`, whose `ret` has 16 bits.
  unfoldable pub iot_pwm_init : ℕ → Fn IotCode
  iot_pwm_init port = do
    check_port port
    code ← pwm_call (pwm_init port)
    when (not (code % 2 ^ 16 == chip.drv_success)) (ret failure)
    ret success

  -- `IoTPwmDeinit`
  unfoldable pub iot_pwm_deinit : ℕ → Fn IotCode
  iot_pwm_deinit port = do
    check_port port
    pwm_call (pwm_stop port)
    code ← pwm_call (pwm_deinit port)
    when (not (code % 2 ^ 32 == 0)) (ret failure)
    ret success

  -- `IoTPwmStart`, whose duty has 16 bits.
  unfoldable pub iot_pwm_start : ℕ → ℕ → ℕ → Fn IotCode
  iot_pwm_start port duty freq = do
    check_port port
    pwm_call (pwm_update_freq port freq)
    pwm_call (pwm_config_channel port (record { duty = duty }))
    pwm_call (pwm_start port)
    ret success

  -- `IoTPwmStop`
  unfoldable pub iot_pwm_stop : ℕ → Fn IotCode
  iot_pwm_stop port = do check_port port; pwm_call (pwm_stop port); ret success
