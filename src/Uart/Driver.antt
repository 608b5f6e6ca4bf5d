-- ===== src/Uart/Driver.antt =====
-- The operations of arm_uart_drv.c. `state` has one bit, ARM_UART_INITIALIZED; the bits of `ctrl`
-- are TX_EN (0), RX_EN (1), TX_INTR_EN (2) and RX_INTR_EN (3).
pub mod Rates
pub mod Irqs
use ohos_l0_adapter.Base.{
  ℕ, zero, suc, ◌+◌, ◌/◌, ◌%◌, ◌∷◌, Bool, true, false, not, Proc, ◌>>=◌, ◌>>◌, ret, gets, modify,
  when, branch, pure, undefined, ltb, ◌==◌, if◌then◌else◌,
}
use ohos_l0_adapter.Uart.Device.{
  Error, invalid_arg, invalid_baud, not_init, not_ready, Irq, rx, tx, combined, Hardware, Device,
  has_bit, set_bit, clear_bit, Fn, look,
}

-- `dev->data->state & ARM_UART_INITIALIZED`
abbrev pub is_initialized : Device → Bool
is_initialized d = has_bit d.state 0

-- A division of `unsigned`s; by 0 it is undefined behaviour.
unfoldable pub divide : {R : Type 0} → ℕ → ℕ → Proc Device R ℕ
divide a zero = undefined
divide a (suc b) = pure (a / suc b)

-- `arm_uart_init`; TX_EN and RX_EN make 3.
unfoldable pub arm_uart_init : ℕ → Fn Error
arm_uart_init clk = do
  when (clk == 0) (ret invalid_arg)
  modify (λ d. record d { system_clk = clk; baudrate = d.default_baudrate })
  rate ← gets (λ d. d.default_baudrate)
  div ← divide clk rate
  modify (λ d. record d { bauddiv = div; ctrl = 3; state = 1 })
  ret Error.none

-- `arm_uart_set_baudrate`
unfoldable pub arm_uart_set_baudrate : ℕ → Fn Error
arm_uart_set_baudrate rate = do
  when (rate == 0) (ret invalid_baud)
  when (not (← gets is_initialized)) (ret not_init)
  clk ← gets (λ d. d.system_clk)
  div ← divide clk rate
  modify (λ d. record d { baudrate = rate })
  when (ltb div 16) (ret invalid_baud)
  modify (λ d. record d { bauddiv = div })
  ret Error.none

-- `arm_uart_get_baudrate`
unfoldable pub arm_uart_get_baudrate : Fn ℕ
arm_uart_get_baudrate = do ret (← gets (λ d. d.baudrate))

-- `arm_uart_set_clock`
unfoldable pub arm_uart_set_clock : ℕ → Fn Error
arm_uart_set_clock clk = do
  when (clk == 0) (ret invalid_arg)
  when (not (← gets is_initialized)) (ret not_init)
  modify (λ d. record d { system_clk = clk })
  rate ← gets (λ d. d.baudrate)
  div ← divide clk rate
  modify (λ d. record d { bauddiv = div })
  ret Error.none

-- `arm_uart_irq_tx_enable`
unfoldable pub arm_uart_irq_tx_enable : Fn Error
arm_uart_irq_tx_enable = do
  when (not (← gets is_initialized)) (ret not_init)
  modify (λ d. record d { ctrl = set_bit d.ctrl 2 })
  ret Error.none

-- `arm_uart_irq_tx_disable`
unfoldable pub arm_uart_irq_tx_disable : Fn (Unit {0})
arm_uart_irq_tx_disable = do
  when (← gets is_initialized) (modify (λ d. record d { ctrl = clear_bit d.ctrl 2 }))

-- `arm_uart_irq_rx_enable`
unfoldable pub arm_uart_irq_rx_enable : Fn Error
arm_uart_irq_rx_enable = do
  when (not (← gets is_initialized)) (ret not_init)
  modify (λ d. record d { ctrl = set_bit d.ctrl 3 })
  ret Error.none

-- `arm_uart_irq_rx_disable`
unfoldable pub arm_uart_irq_rx_disable : Fn (Unit {0})
arm_uart_irq_rx_disable = do
  when (← gets is_initialized) (modify (λ d. record d { ctrl = clear_bit d.ctrl 3 }))

-- The value that `arm_uart_clear_interrupt` writes.
unfoldable pub clear_word : Irq → Fn (Unit {0})
clear_word rx = modify (λ d. record d { cleared = 2 ∷ d.cleared })
clear_word tx = modify (λ d. record d { cleared = 1 ∷ d.cleared })
clear_word combined = modify (λ d. record d { cleared = 3 ∷ d.cleared })
clear_word Irq.none = pure tt

-- `arm_uart_clear_interrupt`
unfoldable pub arm_uart_clear_interrupt : Irq → Fn (Unit {0})
arm_uart_clear_interrupt irq = do when (← gets is_initialized) (clear_word irq)

-- The switch of `arm_uart_get_interrupt_status`.
unfoldable pub status_irq : ℕ → Irq
status_irq n = if n == 1 then tx else if n == 2 then rx else if n == 3 then combined else Irq.none

module _ (hw : Hardware) where
  -- `arm_uart_read`: what goes to `*byte`, or the error beside it.
  unfoldable pub arm_uart_read : Fn (Error × ℕ)
  arm_uart_read = do
    state ← look hw.state
    when (not (has_bit state 1)) (ret (not_ready, 0))
    word ← look hw.data_in
    ret (Error.none, word % 256)

  -- `arm_uart_write`; `byte` is a `uint8_t`.
  unfoldable pub arm_uart_write : ℕ → Fn Error
  arm_uart_write byte = do
    state ← look hw.state
    when (has_bit state 0) (ret not_ready)
    modify (λ d. record d { sent = byte ∷ d.sent })
    ret Error.none

  -- `arm_uart_tx_ready`
  unfoldable pub arm_uart_tx_ready : Fn Bool
  arm_uart_tx_ready = do
    when (not (← gets is_initialized)) (ret false)
    state ← look hw.state
    ret (not (has_bit state 0))

  -- `arm_uart_rx_ready`
  unfoldable pub arm_uart_rx_ready : Fn Bool
  arm_uart_rx_ready = do
    when (not (← gets is_initialized)) (ret false)
    state ← look hw.state
    ret (has_bit state 1)

  -- `arm_uart_get_interrupt_status`
  unfoldable pub arm_uart_get_interrupt_status : Fn Irq
  arm_uart_get_interrupt_status = do
    branch (← gets is_initialized) (do status ← look hw.intrstatus; ret (status_irq status))
        (ret Irq.none)
