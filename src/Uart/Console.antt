-- ===== src/Uart/Console.antt =====
-- The console on the port: uart.c, and the output of dprintf.c.
pub mod Output
use ohos_l0_adapter.Base.{
  ℕ, ℤ, zero, suc, ◌%◌, List, [], ◌∷◌, Bool, true, false, ◌>>=◌, ◌>>◌, ret, gets, modify, when,
  branch, invoke, pure, leb_ℤ, pos,
}
use ohos_l0_adapter.Uart.Device.{
  Error, not_ready, Irq, rx, Hardware, Device, Fn, KernelCall, int_lock, int_restore, shell_input,
  hwi_create,
}
use ohos_l0_adapter.Uart.Driver.{
  arm_uart_init, arm_uart_read, arm_uart_write, arm_uart_get_interrupt_status,
  arm_uart_clear_interrupt, arm_uart_irq_rx_enable,
}

abbrev pub is_not_ready : Error → Bool
is_not_ready not_ready = true
is_not_ready _ = false

abbrev pub is_rx : Irq → Bool
is_rx rx = true
is_rx _ = false

-- A call of the kernel.
unfoldable pub kernel_call : KernelCall → Fn (Unit {0})
kernel_call k = modify (λ d. record d { kernel = k ∷ d.kernel })

-- "printf error!\n"
abbrev pub printf_error : List ℕ
printf_error =
    b'p' ∷ b'r' ∷ b'i' ∷ b'n' ∷ b't' ∷ b'f' ∷ b' ' ∷ b'e' ∷ b'r' ∷ b'r' ∷ b'o' ∷ b'r' ∷ b'!' ∷ 10
    ∷ []

module _ (hw : Hardware) where
  -- `UartGetc`
  unfoldable pub uart_getc : Fn ℕ
  uart_getc = do
    answer ← invoke (arm_uart_read hw)
    when (is_not_ready answer.0) (ret 0)
    ret answer.1

  -- `UartPutc`; the conversion to UINT8 is `% 256`.
  unfoldable pub uart_putc : ℕ → Fn Error
  uart_putc c = do code ← invoke (arm_uart_write hw (c % 256)); ret code

  -- `UartReciveHandler`
  unfoldable pub uart_recive_handler : Fn (Unit {0})
  uart_recive_handler = do
    irq ← invoke (arm_uart_get_interrupt_status hw)
    when (is_rx irq) (do invoke (kernel_call shell_input); invoke (arm_uart_clear_interrupt rx))

  -- `UartInit` for the clock UART0_CLK_FREQ.
  unfoldable pub uart_init : ℕ → Fn (Unit {0})
  uart_init clk = do invoke (arm_uart_init clk); ret tt

  -- `Uart0RxIrqRegister`
  unfoldable pub uart0_rx_irq_register : Fn (Unit {0})
  uart0_rx_irq_register = do invoke arm_uart_irq_rx_enable; invoke (kernel_call hwi_create); ret tt

  -- The loop of `dputs`, which a NUL ends; a list stands for the string without its last NUL.
  unfoldable pub put_all : List ℕ → Fn (Unit {0})
  put_all [] = pure tt
  put_all (zero ∷ s) = pure tt
  put_all (suc c ∷ s) = do invoke (uart_putc (suc c)); put_all s

  -- `dputs` with `UartPutc`
  unfoldable pub dputs : List ℕ → Fn (Unit {0})
  dputs s = do invoke (kernel_call int_lock); put_all s; invoke (kernel_call int_restore)

  -- `printf`, given the length and the text that `vsnprintf_s` returned.
  unfoldable pub printf : ℤ → List ℕ → Fn ℤ
  printf len buf = do
    branch (leb_ℤ len (pos 0)) (invoke (dputs printf_error)) (invoke (dputs buf))
    ret len
