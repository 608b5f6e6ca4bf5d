-- ===== src/UartHal.antt =====
-- The serial ports of hal_iot_uart.c: their configuration, and transfers with the semaphores and
-- mutexes around the chip's library. The driver's enumerators are spelled as the HAL's.
pub mod Receiving
use ohos_l0_adapter.Base.{
  ℕ, List, [], ◌∷◌, Option, none, some, Bool, not, ℤ, is_zero, Proc, go, ◌>>=◌, ◌>>◌, ret, gets,
  modify, when, branch, invoke, pure, undefined, get_elem?, set, leb, ltb, pos, negsuc, ◌-◌, ◌^◌,
  ◌%◌, if◌then◌else◌,
}

pub data DataBits : Type 0 where
  bits_5 bits_6 bits_7 bits_8 other : DataBits

pub data StopBits : Type 0 where
  one two other : StopBits

pub data Parity : Type 0 where
  no_parity odd even other : Parity

pub data FlowCtrl : Type 0 where
  no_flow rts_cts rts_only cts_only other : FlowCtrl

-- `IotUartAttribute`
pub record Attribute : Type 0 where
  pub baud_rate : ℕ
  pub data_bits : DataBits
  pub stop_bits : StopBits
  pub parity : Parity

-- The fields of an `app_uart_params_t` that change.
pub record Params : Type 0 where
  pub id : ℕ
  pub baud_rate : ℕ
  pub data_bits : DataBits
  pub stop_bits : StopBits
  pub parity : Parity
  pub flow : FlowCtrl

-- `app_uart_evt_t`: received bytes by their number, an error, or another event.
pub data RxEvent : Type 0 where
  rx_data : ℕ → RxEvent
  error other : RxEvent

-- A call into the chip's library or the kernel. Semaphores and mutexes are numbers; `sem_delete_at`
-- has the address of a number where the number is meant.
pub data PortCall : Type 0 where
  mux_pend mux_post sem_post sem_poll sem_wait sem_delete sem_delete_at : ℕ → PortCall
  sem_create mux_create : PortCall
  uart_init : Params → PortCall
  uart_deinit : ℕ → PortCall
  receive_async : ℕ → ℕ → PortCall
  transmit_sync : ℕ → List ℕ → ℕ → PortCall

abbrev pub History : Type 0
History = List (PortCall × ℤ)

-- The library and the kernel.
pub record Chip : Type 0 where
  pub reply : History → PortCall → ℤ
  -- The number that a create call stores.
  pub new_handle : History → ℕ
  -- The events of a port that its interrupt delivers while a reader waits for its semaphore.
  pub arrivals : History → List RxEvent
  pub id_max : ℕ

-- `uart_param`, `uart_rx_sem`, `uart_tx_mutex`, `uart_rx_mutex` and `g_rx_num`, and the calls made,
-- the latest first.
pub record Ports : Type 0 where
  pub params : List Params
  pub rx_sem : List ℕ
  pub tx_mutex : List ℕ
  pub rx_mutex : List ℕ
  pub rx_num : List ℕ
  pub history : History

abbrev pub M : Type 0 → Type 0 → Type 0
M R A = Proc Ports R A

abbrev pub Fn : Type 0 → Type 0
Fn A = Proc Ports A A

-- A uint32_t as an int.
abbrev pub to_int : ℕ → ℤ
to_int n = if ltb n (2 ^ 31) then pos n else negsuc (2 ^ 32 - 1 - n)

-- IOT_SUCCESS, IOT_FAILURE, and the number of bytes that a read returns.
pub data IotCode : Type 0 where
  success failure : IotCode
  bytes : ℤ → IotCode

-- An element of an array; outside it the behaviour is undefined.
unfoldable pub element : {R A : Type 0} → Option A → M R A
element none = undefined
element (some x) = pure x

-- The switches of `uart_cfg`: an enumerator outside the cases leaves the old value.
unfoldable pub data_bits_or : DataBits → DataBits → DataBits
data_bits_or old DataBits.other = old
data_bits_or old bits = bits

unfoldable pub stop_bits_or : StopBits → StopBits → StopBits
stop_bits_or old StopBits.other = old
stop_bits_or old bits = bits

unfoldable pub parity_or : Parity → Parity → Parity
parity_or old Parity.other = old
parity_or old parity = parity

-- `uart_cfg`: the parameters of port `id` after it.
unfoldable pub uart_cfg : {R : Type 0} → ℕ → Attribute → M R Params
uart_cfg id param = do
  old ← element (← gets (λ s. get_elem? s.params id))
  let new = record old {
    baud_rate = param.baud_rate;
    data_bits = data_bits_or old.data_bits param.data_bits;
    stop_bits = stop_bits_or old.stop_bits param.stop_bits;
    parity = parity_or old.parity param.parity;
  }
  modify (λ s. record s { params = set s.params id new })
  pure new

module _ (chip : Chip) where
  unfoldable pub port_call : {R : Type 0} → PortCall → M R ℤ
  port_call c s =
      let code = chip.reply s.history c in (go code, record s { history = (c, code) ∷ s.history })

  -- `app_uart0_callback` and `app_uart1_callback`, for their port.
  unfoldable pub app_uart_callback : {R : Type 0} → ℕ → RxEvent → M R (Unit {0})
  app_uart_callback id (rx_data size) = do
    modify (λ s. record s { rx_num = set s.rx_num id (size % 2 ^ 32) })
    sem ← element (← gets (λ s. get_elem? s.rx_sem id))
    port_call (sem_post sem)
    pure tt
  app_uart_callback id RxEvent.error = do
    sem ← element (← gets (λ s. get_elem? s.rx_sem id))
    port_call (sem_post sem)
    pure tt
  app_uart_callback id RxEvent.other = pure tt

  -- The callbacks of a port's events, in order.
  unfoldable pub deliver : {R : Type 0} → ℕ → List RxEvent → M R (Unit {0})
  deliver id [] = pure tt
  deliver id (e ∷ es) = app_uart_callback id e >> deliver id es

  -- `IoTUartInit`; `none` is NULL.
  unfoldable pub iot_uart_init : ℕ → Option Attribute → Fn IotCode
  iot_uart_init id none = ret failure
  iot_uart_init id (some param) = do
    when (leb chip.id_max id) (ret failure)
    params ← uart_cfg id param
    code ← port_call (uart_init params)
    when (not (is_zero code)) (ret failure)
    code ← port_call sem_create
    modify (λ s. record s { rx_sem = set s.rx_sem id (chip.new_handle s.history) })
    when (not (is_zero code)) (ret failure)
    code ← port_call mux_create
    modify (λ s. record s { tx_mutex = set s.tx_mutex id (chip.new_handle s.history) })
    when (not (is_zero code)) (do port_call (sem_delete_at id); ret failure)
    code ← port_call mux_create
    modify (λ s. record s { rx_mutex = set s.rx_mutex id (chip.new_handle s.history) })
    when (not (is_zero code)) (do
      sem ← element (← gets (λ s. get_elem? s.rx_sem id))
      port_call (sem_delete sem)
      mutex ← element (← gets (λ s. get_elem? s.tx_mutex id))
      port_call (sem_delete mutex)
      ret failure)
    ret success

  -- `IoTUartRead`; what the library stores is not modelled. Events arrive while the reader waits, and
  -- the number of the port is not tested.
  unfoldable pub iot_uart_read : ℕ → ℕ → Fn IotCode
  iot_uart_read id len = do
    mutex ← element (← gets (λ s. get_elem? s.rx_mutex id))
    port_call (mux_pend mutex)
    element (← gets (λ s. get_elem? s.rx_num id))
    modify (λ s. record s { rx_num = set s.rx_num id 0 })
    sem ← element (← gets (λ s. get_elem? s.rx_sem id))
    port_call (sem_poll sem)
    code ← port_call (receive_async id len)
    when (not (is_zero code)) (do port_call (mux_post mutex); ret failure)
    events ← gets (λ s. chip.arrivals s.history)
    deliver id events
    code ← port_call (sem_wait sem)
    when (not (is_zero code)) (do port_call (mux_post mutex); ret failure)
    port_call (mux_post mutex)
    size ← element (← gets (λ s. get_elem? s.rx_num id))
    ret (bytes (to_int size))

  -- `IoTUartWrite`; the number of the port is not tested.
  unfoldable pub iot_uart_write : ℕ → List ℕ → ℕ → Fn IotCode
  iot_uart_write id out len = do
    mutex ← element (← gets (λ s. get_elem? s.tx_mutex id))
    port_call (mux_pend mutex)
    code ← port_call (transmit_sync id out len)
    when (not (is_zero code)) (do port_call (mux_post mutex); ret failure)
    port_call (mux_post mutex)
    ret success

  -- `IoTUartDeinit`; the number of the port is not tested.
  unfoldable pub iot_uart_deinit : ℕ → Fn IotCode
  iot_uart_deinit id = do
    port_call (uart_deinit id)
    sem ← element (← gets (λ s. get_elem? s.rx_sem id))
    port_call (sem_delete sem)
    tx ← element (← gets (λ s. get_elem? s.tx_mutex id))
    port_call (sem_delete tx)
    rx ← element (← gets (λ s. get_elem? s.rx_mutex id))
    port_call (sem_delete rx)
    ret success

  -- The switch of `IoTUartSetFlowCtrl`.
  unfoldable pub flow_or_return : FlowCtrl → FlowCtrl → M IotCode FlowCtrl
  flow_or_return old no_flow = pure no_flow
  flow_or_return old rts_cts = pure rts_cts
  flow_or_return old rts_only = ret failure
  flow_or_return old cts_only = ret failure
  flow_or_return old FlowCtrl.other = pure old

  -- `IoTUartSetFlowCtrl`
  unfoldable pub iot_uart_set_flow_ctrl : ℕ → FlowCtrl → Fn IotCode
  iot_uart_set_flow_ctrl id flow = do
    when (leb chip.id_max id) (ret failure)
    old ← element (← gets (λ s. get_elem? s.params id))
    new ← flow_or_return old.flow flow
    modify (λ s. record s { params = set s.params id (record old { flow = new }) })
    port_call (uart_deinit old.id)
    code ← port_call (uart_init (record old { flow = new }))
    when (not (is_zero code)) (ret failure)
    ret success
