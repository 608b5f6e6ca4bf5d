-- ===== src/Lan9118.antt =====
-- The driver of the LAN9118 Ethernet controller, lan9118_eth_drv.c.
pub mod Words
pub mod Device
pub mod Costs
pub mod Mac
pub mod Setup
pub mod Fifo
pub mod Buffers
pub mod Interface
