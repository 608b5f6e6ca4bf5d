-- ===== src/I2c.antt =====
-- The I2C buses of hal_iot_i2c.c: two mutexes for each bus around the chip's library.
pub mod Transfers
use ohos_l0_adapter.Base.{
  ℕ, ◌∷◌, List, Option, none, some, Bool, not, ℤ, is_zero, Proc, go, ◌>>=◌, ◌>>◌, ret, gets, modify,
  when, pure, undefined, get_elem?, set, ltb, ◌==◌, if◌then◌else◌,
}

-- `I2C_SPEED_…`
pub data Speed : Type 0 where
  speed_100k speed_400k speed_1000k speed_2000k : Speed

-- A call into the chip's library or the kernel. A mutex is a number.
pub data BusCall : Type 0 where
  mux_pend mux_post sem_delete : ℕ → BusCall
  mux_create : BusCall
  transmit_sync : ℕ → ℕ → List ℕ → ℕ → BusCall
  receive_sync : ℕ → ℕ → ℕ → BusCall
  bus_init : ℕ → Speed → BusCall
  bus_deinit : ℕ → BusCall

abbrev pub History : Type 0
History = List (BusCall × ℤ)

-- The library and the kernel, and APP_I2C_ID_MAX.
pub record Chip : Type 0 where
  pub reply : History → BusCall → ℤ
  -- The number that `LOS_MuxCreate` stores.
  pub new_mutex : History → ℕ
  pub id_max : ℕ

-- `i2c_tx_mutex` and `i2c_rx_mutex`, and the calls made, the latest first.
pub record Buses : Type 0 where
  pub tx_mutex : List ℕ
  pub rx_mutex : List ℕ
  pub history : History

abbrev pub M : Type 0 → Type 0 → Type 0
M R A = Proc Buses R A

abbrev pub Fn : Type 0 → Type 0
Fn A = Proc Buses A A

-- IOT_SUCCESS and IOT_FAILURE
pub data IotCode : Type 0 where
  success failure : IotCode

-- An element of an array; outside it the behaviour is undefined.
unfoldable pub element : {R : Type 0} → Option ℕ → M R ℕ
element none = undefined
element (some x) = pure x

-- The speed for a rate in kHz, where there is one.
unfoldable pub speed_of : ℕ → Option Speed
speed_of rate =
    if rate == 100
    then some speed_100k
    else if rate == 400
    then some speed_400k
    else if rate == 1000
    then some speed_1000k
    else if rate == 2000
    then some speed_2000k
    else none

module _ (chip : Chip) where
  unfoldable pub bus_call : {R : Type 0} → BusCall → M R ℤ
  bus_call c s =
      let code = chip.reply s.history c in (go code, record s { history = (c, code) ∷ s.history })

  -- `IoTI2cWrite`; the codes of the mutex calls are not read.
  unfoldable pub iot_i2c_write : ℕ → ℕ → List ℕ → ℕ → Fn IotCode
  iot_i2c_write id addr bytes len = do
    when (ltb chip.id_max id) (ret failure)
    mutex ← element (← gets (λ s. get_elem? s.tx_mutex id))
    bus_call (mux_pend mutex)
    code ← bus_call (transmit_sync id addr bytes len)
    when (not (is_zero code)) (do bus_call (mux_post mutex); ret failure)
    bus_call (mux_post mutex)
    ret success

  -- `IoTI2cRead`; what the library stores is not modelled. The number of the bus is not tested.
  unfoldable pub iot_i2c_read : ℕ → ℕ → ℕ → Fn IotCode
  iot_i2c_read id addr len = do
    mutex ← element (← gets (λ s. get_elem? s.rx_mutex id))
    bus_call (mux_pend mutex)
    code ← bus_call (receive_sync id addr len)
    when (not (is_zero code)) (do bus_call (mux_post mutex); ret failure)
    bus_call (mux_post mutex)
    ret success

  -- `IoTI2cInit` at a speed.
  unfoldable pub init_at : ℕ → Option Speed → Fn IotCode
  init_at id none = ret failure
  init_at id (some speed) = do
    code ← bus_call (bus_init id speed)
    when (not (is_zero code)) (ret failure)
    code ← bus_call mux_create
    modify (λ s. record s { tx_mutex = set s.tx_mutex id (chip.new_mutex s.history) })
    when (not (is_zero code)) (ret failure)
    code ← bus_call mux_create
    modify (λ s. record s { rx_mutex = set s.rx_mutex id (chip.new_mutex s.history) })
    when (not (is_zero code)) (do
      mutex ← element (← gets (λ s. get_elem? s.tx_mutex id))
      bus_call (sem_delete mutex)
      ret failure)
    ret success

  -- `IoTI2cInit`; the configuration of bus `id` is copied before the rate is looked at.
  unfoldable pub iot_i2c_init : ℕ → ℕ → Fn IotCode
  iot_i2c_init id rate = do
    when (ltb chip.id_max id) (ret failure)
    element (← gets (λ s. get_elem? s.tx_mutex id))
    init_at id (speed_of rate)

  -- `IoTI2cDeinit`
  unfoldable pub iot_i2c_deinit : ℕ → Fn IotCode
  iot_i2c_deinit id = do
    when (ltb chip.id_max id) (ret failure)
    bus_call (bus_deinit id)
    tx ← element (← gets (λ s. get_elem? s.tx_mutex id))
    bus_call (sem_delete tx)
    rx ← element (← gets (λ s. get_elem? s.rx_mutex id))
    bus_call (sem_delete rx)
    ret success

  -- `IoTI2cSetBaudrate` at a speed.
  unfoldable pub set_speed : ℕ → Option Speed → Fn IotCode
  set_speed id none = ret failure
  set_speed id (some speed) = do
    bus_call (bus_deinit id)
    code ← bus_call (bus_init id speed)
    when (not (is_zero code)) (ret failure)
    ret success

  -- `IoTI2cSetBaudrate`
  unfoldable pub iot_i2c_set_baudrate : ℕ → ℕ → Fn IotCode
  iot_i2c_set_baudrate id rate = do
    when (ltb chip.id_max id) (ret failure)
    element (← gets (λ s. get_elem? s.tx_mutex id))
    set_speed id (speed_of rate)
