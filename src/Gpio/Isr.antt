-- ===== src/Gpio/Isr.antt =====
-- The interrupt functions of hal_iot_gpio.c.
use ohos_l0_adapter.Base.{
  ℕ, Option, none, some, true, false, ◌>>=◌, ◌>>◌, ret, gets, modify, when, branch, pure, undefined,
  set, ltb, ◌==◌, if◌then◌else◌,
}
use ohos_l0_adapter.Gpio.{
  IoType, normal, aon, msio, Mode, it_low, it_high, it_falling, it_rising, IsrInfo, GpioteParam,
  gpiote_init, gpiote_config, isr, M, Fn, IotCode, success, failure, Enums, io_call, mapped, at,
  get_pin_index,
}

-- `isr_cfg_info[id] = info`, after a read of it.
unfoldable pub store_isr : {R : Type 0} → ℕ → IsrInfo → M R (Unit {0})
store_isr id info = modify (λ s. record s { isr_cfg = set s.isr_cfg id info })

-- `IoTGpioSetIsrMask`
unfoldable pub iot_gpio_set_isr_mask : ℕ → ℕ → Fn IotCode
iot_gpio_set_isr_mask id mask = do when (ltb 40 id) (ret failure); ret success

-- The end of the functions that configure an interrupt.
unfoldable pub configure : ℕ → IsrInfo → GpioteParam → Fn IotCode
configure id info param = do
  branch info.initialized (do io_call (gpiote_config param))
      (do store_isr id (record info { initialized = true }); io_call (gpiote_init param))
  ret success

-- The index that `app_io_callback` computes; 32 rounds are enough for a `uint32_t`.
unfoldable pub event_index : IoType → ℕ → Option ℕ
event_index normal pin = get_pin_index 32 pin 0
event_index aon pin = get_pin_index 32 pin 32
event_index msio pin = some 0

-- The call of a function, unless it is NULL.
unfoldable pub call_isr : Option ℕ → ℕ → Fn (Unit {0})
call_isr none arg = pure tt
call_isr (some f) arg = io_call (isr f arg)

-- `app_io_callback`, where its loop ends; `none` is a loop without end.
unfoldable pub app_io_callback : IoType → Option ℕ → Fn (Unit {0})
app_io_callback io_type none = undefined
app_io_callback io_type (some index) = do
  info ← at (← gets (λ s. s.isr_cfg)) index
  call_isr info.func info.arg

-- `IoTGpioUnregisterIsrFunc`
unfoldable pub iot_gpio_unregister_isr_func : ℕ → Fn IotCode
iot_gpio_unregister_isr_func id = do
  when (ltb 40 id) (ret failure)
  info ← at (← gets (λ s. s.isr_cfg)) id
  store_isr id (record info { func = none; arg = 0 })
  io ← mapped id
  configure id (record info { func = none; arg = 0 })
      (record { io_type = io.0; pin = io.1; mode = info.mode; callback = false })

module _ (e : Enums) where
  -- The mode for an interrupt type and polarity; `old` where neither test holds.
  unfoldable pub interrupt_mode : ℕ → ℕ → Mode → Mode
  interrupt_mode int_type polarity old =
      if int_type == e.type_level
      then (if polarity == e.fall_low
          then it_low
          else if polarity == e.rise_high
          then it_high
          else old)
      else if int_type == e.type_edge
      then (if polarity == e.fall_low
          then it_falling
          else if polarity == e.rise_high
          then it_rising
          else old)
      else old

  -- `IoTGpioRegisterIsrFunc`; a `func` of `none` is NULL.
  unfoldable pub iot_gpio_register_isr_func : ℕ → ℕ → ℕ → Option ℕ → ℕ → Fn IotCode
  iot_gpio_register_isr_func id int_type polarity func arg = do
    when (ltb 40 id) (ret failure)
    io ← mapped id
    old ← at (← gets (λ s. s.isr_cfg)) id
    let info = record old {
      mode = interrupt_mode int_type polarity old.mode;
      func = func;
      arg = arg;
    }
    store_isr id info
    configure id info (record { io_type = io.0; pin = io.1; mode = info.mode; callback = true })

  -- `IoTGpioSetIsrMode`
  unfoldable pub iot_gpio_set_isr_mode : ℕ → ℕ → ℕ → Fn IotCode
  iot_gpio_set_isr_mode id int_type polarity = do
    when (ltb 40 id) (ret failure)
    io ← mapped id
    old ← at (← gets (λ s. s.isr_cfg)) id
    let info = record old { mode = interrupt_mode int_type polarity old.mode }
    store_isr id info
    configure id info (record { io_type = io.0; pin = io.1; mode = info.mode; callback = true })
