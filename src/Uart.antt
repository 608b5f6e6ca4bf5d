-- ===== src/Uart.antt =====
-- The serial port: the driver of arm_uart_drv.c, and the console of uart.c and dprintf.c.
pub mod Device
pub mod Driver
pub mod Console
