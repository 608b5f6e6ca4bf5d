-- ===== src/Uart/Driver/Irqs.antt =====
-- The interrupt bits of the control register.
use ohos_l0_adapter.Base.{ℕ, ◌≡◌, true, false, ◌>>=◌, arith}
use ohos_l0_adapter.Uart.Device.{Device, has_bit, set_bit, clear_bit}
use ohos_l0_adapter.Uart.Driver.{
  is_initialized, arm_uart_irq_tx_enable, arm_uart_irq_tx_disable, arm_uart_irq_rx_enable,
  arm_uart_irq_rx_disable,
}

set_bit-3 :
    (n : ℕ)
    → (has_bit (set_bit n 3) 3 ≡ true)
      × (has_bit (set_bit n 3) 0 ≡ has_bit n 0)
      × (has_bit (set_bit n 3) 1 ≡ has_bit n 1)
      × (has_bit (set_bit n 3) 2 ≡ has_bit n 2)
set_bit-3 n = ground arith

clear-set_3 : (n : ℕ) → has_bit n 3 ≡ false → clear_bit (set_bit n 3) 3 ≡ n
clear-set_3 n h = ground arith

set_bit-2 :
    (n : ℕ)
    → (has_bit (set_bit n 2) 2 ≡ true)
      × (has_bit (set_bit n 2) 0 ≡ has_bit n 0)
      × (has_bit (set_bit n 2) 1 ≡ has_bit n 1)
      × (has_bit (set_bit n 2) 3 ≡ has_bit n 3)
set_bit-2 n = ground arith

clear-set_2 : (n : ℕ) → has_bit n 2 ≡ false → clear_bit (set_bit n 2) 2 ≡ n
clear-set_2 n h = ground arith

module _ (d : Device) (ready : is_initialized d ≡ true) where
  -- On an initialised port, enabling the receive interrupt sets its bit of the control register and
  -- keeps the transmitter's, the receiver's and the transmit interrupt's; enabling the transmit
  -- interrupt sets its own and keeps the other three.
  pub irq_enable_lem :
      let t = (arm_uart_irq_rx_enable d).1.ctrl in
      let u = (arm_uart_irq_tx_enable d).1.ctrl in
      ((has_bit t 3 ≡ true)
        × (has_bit t 0 ≡ has_bit d.ctrl 0)
        × (has_bit t 1 ≡ has_bit d.ctrl 1)
        × (has_bit t 2 ≡ has_bit d.ctrl 2))
      × ((has_bit u 2 ≡ true)
          × (has_bit u 0 ≡ has_bit d.ctrl 0)
          × (has_bit u 1 ≡ has_bit d.ctrl 1)
          × (has_bit u 3 ≡ has_bit d.ctrl 3))
  unfolding arm_uart_irq_rx_enable arm_uart_irq_tx_enable ◌>>=◌
  irq_enable_lem = simp ready (set_bit-3 d.ctrl, set_bit-2 d.ctrl)

  -- Enabling an interrupt that was disabled and disabling it again gives the device back.
  pub irq_disable-enable :
      has_bit d.ctrl 3 ≡ false
      → has_bit d.ctrl 2 ≡ false
      → ((arm_uart_irq_rx_disable (arm_uart_irq_rx_enable d).1).1 ≡ d)
        × ((arm_uart_irq_tx_disable (arm_uart_irq_tx_enable d).1).1 ≡ d)
  unfolding arm_uart_irq_rx_enable arm_uart_irq_rx_disable arm_uart_irq_tx_enable
      arm_uart_irq_tx_disable ◌>>=◌
  irq_disable-enable rx_off tx_off =
      (simp (ready, clear-set_3 d.ctrl rx_off), simp (ready, clear-set_2 d.ctrl tx_off))
