-- ===== src/Uart/Device.antt =====
-- The registers and the data of one port, as arm_uart_drv.h and arm_uart_drv.c lay them out.
use ohos_l0_adapter.Base.{ℕ, ◌+◌, ◌-◌, ◌^◌, ◌/◌, ◌%◌, List, Bool, Proc, ◌==◌, if◌then◌else◌, go}

-- `enum arm_uart_error_t`
pub data Error : Type 0 where
  none invalid_arg invalid_baud not_init not_ready : Error

-- `enum arm_uart_irq_t`
pub data Irq : Type 0 where
  rx tx combined none : Irq

-- What the port shows at its n-th read of a volatile register: status, data and interrupt status.
pub record Hardware : Type 0 where
  pub state : ℕ → ℕ
  pub data_in : ℕ → ℕ
  pub intrstatus : ℕ → ℕ

-- A call of uart.c or dprintf.c into the kernel.
pub data KernelCall : Type 0 where
  int_lock int_restore shell_input hwi_create : KernelCall

-- `struct arm_uart_dev_t`, with the registers that the driver writes: `sent` and `cleared` hold the
-- writes to the data and the interrupt-clear register, the latest first. `reads` counts the reads of
-- volatile registers.
pub record Device : Type 0 where
  pub default_baudrate : ℕ
  pub system_clk : ℕ
  pub baudrate : ℕ
  pub state : ℕ
  pub ctrl : ℕ
  pub bauddiv : ℕ
  pub sent : List ℕ
  pub cleared : List ℕ
  pub reads : ℕ
  pub kernel : List KernelCall

-- `n & (1ul << k)`, as a test; `n | (1ul << k)`; `n & ~(1ul << k)`.
abbrev pub has_bit : ℕ → ℕ → Bool
has_bit n k = (n / 2 ^ k) % 2 == 1

abbrev pub set_bit : ℕ → ℕ → ℕ
set_bit n k = if has_bit n k then n else n + 2 ^ k

abbrev pub clear_bit : ℕ → ℕ → ℕ
clear_bit n k = if has_bit n k then n - 2 ^ k else n

-- A function of the driver that returns an `A`.
abbrev pub Fn : Type 0 → Type 0
Fn A = Proc Device A A

-- A read of a volatile register that shows `f`.
unfoldable pub look : {R : Type 0} → (ℕ → ℕ) → Proc Device R ℕ
look f d = (go (f d.reads), record d { reads = d.reads + 1 })
