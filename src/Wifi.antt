-- ===== src/Wifi.antt =====
-- The Wi-Fi service of code/ohos/device/qemu/L0_xts_demo/driver/hals/communication/wifi_lite.
pub mod Types
pub mod Service
pub mod Convert
pub mod Dispatch
pub mod Station
pub mod Configs
pub mod Connect
pub mod Registry
pub mod Hotspot
pub mod Reports
pub mod Requests
