-- ===== src/Gpio.antt =====
-- The pins of hal_iot_gpio.c: their numbers, directions and outputs, over the GPIO library of
-- the chip. An enumerator is its number.
pub mod Numbering
pub mod Ports
pub mod Interrupts
pub mod Isr
use ohos_l0_adapter.Base.{
  ℕ, zero, suc, ◌+◌, ◌-◌, ◌/◌, ◌%◌, ◌^◌, List, ◌∷◌, Option, none, some, Bool, true, false, not,
  Proc, ◌>>=◌, ◌>>◌, ret, gets, modify, when, branch, invoke, pure, undefined, get_elem?, set, leb,
  ltb, ◌==◌, if◌then◌else◌, returned, go, fault, Flow,
}

-- `app_io_type_t`
pub data IoType : Type 0 where
  normal aon msio : IoType

-- `app_io_mode_t`; `initial` is the value of a static that was not set.
pub data Mode : Type 0 where
  initial input out_put it_low it_high it_falling it_rising : Mode

-- A function pointer with its argument; NULL is none.
pub record IsrInfo : Type 0 where
  pub mode : Mode
  pub initialized : Bool
  pub func : Option ℕ
  pub arg : ℕ

-- `app_gpiote_param_t`, the fields that vary; `callback` is whether `io_evt_cb` is `app_io_callback`.
pub record GpioteParam : Type 0 where
  pub io_type : IoType
  pub pin : ℕ
  pub mode : Mode
  pub callback : Bool

-- A call into the chip's library, or of a registered function. A mode that was never assigned is
-- `none`.
pub data IoCall : Type 0 where
  io_init : IoType → ℕ → Option Mode → IoCall
  io_deinit : IoType → ℕ → IoCall
  write_pin : IoType → ℕ → Bool → IoCall
  read_pin : IoType → ℕ → IoCall
  gpiote_init gpiote_config : GpioteParam → IoCall
  isr : ℕ → ℕ → IoCall

-- `g_gpio_dir`, `g_gpio_out`, `isr_cfg_info`, and the calls made, the latest first.
pub record Pins : Type 0 where
  pub dir : List ℕ
  pub out : List ℕ
  pub isr_cfg : List IsrInfo
  pub calls : List IoCall

abbrev pub M : Type 0 → Type 0 → Type 0
M R A = Proc Pins R A

abbrev pub Fn : Type 0 → Type 0
Fn A = Proc Pins A A

-- IOT_SUCCESS and IOT_FAILURE
pub data IotCode : Type 0 where
  success failure : IotCode

-- Enumerators of iot_gpio.h.
pub record Enums : Type 0 where
  pub dir_in : ℕ
  pub dir_out : ℕ
  pub value0 : ℕ
  pub value1 : ℕ
  pub type_level : ℕ
  pub type_edge : ℕ
  pub fall_low : ℕ
  pub rise_high : ℕ
  -- What a read of a pin returns after given calls.
  pub read : List IoCall → ℕ

unfoldable pub io_call : {R : Type 0} → IoCall → M R (Unit {0})
io_call c = modify (λ s. record s { calls = c ∷ s.calls })

-- `pin_map`; beyond 44 it returns no value.
unfoldable pub pin_map : ℕ → Option (IoType × ℕ)
pin_map id =
    if leb id 31
    then some (normal, 2 ^ id)
    else if leb id 39
    then some (aon, 2 ^ (id - 32))
    else if leb id 44
    then some (msio, 2 ^ (id - 40))
    else none

-- A value that may be missing, where its use is undefined behaviour.
unfoldable pub known : {R A : Type 0} → Option A → M R A
known none = undefined
known (some x) = pure x

-- A use of what `pin_map` returned.
unfoldable pub mapped : {R : Type 0} → ℕ → M R (IoType × ℕ)
mapped id = known (pin_map id)

-- The loop of `get_pin_index` at `index`, for `fuel` rounds; a `pin` of 0 never ends it.
unfoldable pub get_pin_index : ℕ → ℕ → ℕ → Option ℕ
get_pin_index zero pin index = none
get_pin_index (suc fuel) pin index =
    let rest = get_pin_index fuel (pin / 2) (index + 1) in if pin % 2 == 1 then some index else rest

-- An access to an array: outside it the behaviour is undefined.
unfoldable pub at : {R A : Type 0} → List A → ℕ → M R A
at xs i = known (get_elem? xs i)

-- `IoTGpioInit`
unfoldable pub iot_gpio_init : ℕ → Fn IotCode
iot_gpio_init id = do when (ltb 45 id) (ret failure); ret success

-- `g_gpio_dir[id] = v` and `g_gpio_out[id] = v`, whose elements are a `uint8_t`.
unfoldable pub store_dir : {R : Type 0} → ℕ → ℕ → M R (Unit {0})
store_dir id v = do
  at (← gets (λ s. s.dir)) id
  modify (λ s. record s { dir = set s.dir id (v % 256) })

unfoldable pub store_out : {R : Type 0} → ℕ → ℕ → M R (Unit {0})
store_out id v = do
  at (← gets (λ s. s.out)) id
  modify (λ s. record s { out = set s.out id (v % 256) })

-- `IoTGpioGetDir`: the code, and what goes to `*dir`.
unfoldable pub iot_gpio_get_dir : ℕ → Fn (IotCode × Option ℕ)
iot_gpio_get_dir id = do
  when (ltb 45 id) (ret (failure, none))
  v ← at (← gets (λ s. s.dir)) id
  ret (success, some v)

-- `IoTGpioGetOutputVal`: the code, and what goes to `*val`.
unfoldable pub iot_gpio_get_output_val : ℕ → Fn (IotCode × Option ℕ)
iot_gpio_get_output_val id = do
  when (ltb 45 id) (ret (failure, none))
  v ← at (← gets (λ s. s.out)) id
  ret (success, some v)

-- `IoTGpioDeinit`
unfoldable pub iot_gpio_deinit : ℕ → Fn IotCode
iot_gpio_deinit id = do
  when (ltb 45 id) (ret failure)
  io ← mapped id
  io_call (io_deinit io.0 io.1)
  store_dir id 0
  store_out id 0
  ret success

module _ (e : Enums) where
  -- `IoTGpioSetDir`
  unfoldable pub iot_gpio_set_dir : ℕ → ℕ → Fn IotCode
  iot_gpio_set_dir id dir = do
    when (ltb 45 id) (ret failure)
    io ← mapped id
    store_dir id dir
    io_call (
        io_init io.0 io.1
          (if dir == e.dir_in then some input else if dir == e.dir_out then some out_put else none))
    ret success

  -- `IoTGpioSetOutputVal`
  unfoldable pub iot_gpio_set_output_val : ℕ → ℕ → Fn IotCode
  iot_gpio_set_output_val id val = do
    when (ltb 45 id) (ret failure)
    io ← mapped id
    branch (val == e.value0) (io_call (write_pin io.0 io.1 false))
        (when (val == e.value1) (io_call (write_pin io.0 io.1 true)))
    store_out id val
    ret success

  -- `IoTGpioGetInputVal`
  unfoldable pub iot_gpio_get_input_val : ℕ → Fn (IotCode × Option ℕ)
  iot_gpio_get_input_val id = do
    when (ltb 45 id) (ret (failure, none))
    io ← mapped id
    io_call (read_pin io.0 io.1)
    val ← gets (λ s. e.read s.calls)
    ret (success, some val)
