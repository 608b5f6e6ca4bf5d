-- ===== src/Lib.antt =====
-- The Wi-Fi service and the board drivers of the L0_xts_demo device, as executable definitions with
-- their properties.
--
-- Paths below start at code/ohos/device/qemu/L0_xts_demo.
--
-- Wi-Fi. driver/hals/communication/wifi_lite/wifiservice/source holds the service: wifi_device.c (the
-- station, the stored networks, the listeners, the event path), wifi_hotspot.c (the access point) and
-- wifi_device_util.c (the two mutexes and conversions). Clients call its functions; the driver calls
-- HiWifiWpaEventCb; the service calls the driver, lwIP, the kernel's mutexes, the file HAL and the
-- registered callbacks.
--   Wifi/Types      enums and structs, and every call that leaves the service (Call)
--   Wifi/Service    the static variables as one record (Service), what lies below as a parameter
--                   (Platform), the mutex wrappers; Balance counts how often a mutex is held, and
--                   the releases that failed
--   Wifi/Convert    HiSecToHoSec, HoSecToHiSec, ChannelToFrequency, FrequencyToChannel, ScanTypeSwitch
--   Wifi/Dispatch   HiWifiWpaEventCb down to the callbacks and StaSetWifiNetConfig
--   Wifi/Station    EnableWifi, DisableWifi, IsWifiActive, Scan, AdvanceScan, Disconnect
--   Wifi/Configs    AddDeviceConfig, GetDeviceConfigs, RemoveDevice and the file of one network
--   Wifi/Connect    ConnectTo and StaConnect
--   Wifi/Registry   RegisterWifiEvent and UnRegisterWifiEvent
--   Wifi/Reports    GetScanInfoList, GetLinkedInfo, GetDeviceMacAddress
--   Wifi/Hotspot    all of wifi_hotspot.c
--   Wifi/Requests   one request for each function of a client or the driver, and sequences of them
--
-- Pins. driver/hals/iot_hardware/wifiiot_lite/hal_iot_gpio.c is Gpio: its three arrays are one record
-- (Pins), the chip's library is a log of calls. The interrupt functions are Gpio/Isr;
-- Gpio/Numbering, Gpio/Ports and Gpio/Interrupts hold
-- what is proved of pin numbers, of directions and outputs, and of interrupt callbacks.
--
-- Buses. hal_iot_i2c.c beside it is I2c: the mutexes of the buses, and the chip's library and the kernel
-- as a log of calls with their codes.
-- Pwm is hal_iot_pwm.c and Flash is hal_iot_flash.c, each over the calls of the chip's library.
-- UartHal is hal_iot_uart.c; the interrupt's events are delivered while a reader waits for its
-- semaphore.
--
-- Ethernet. liteos_m/board/driver/net/lan9118_eth_drv.c and its header are Lan9118. The registers, memory
-- and calls into the kernel and lwIP are accesses in one history, by which a parameter (Platform) answers:
-- a read of a register may show anything.
--   Lan9118/Words      the macros on bits and fields, as words of 32 bits; laws of and and or (Digits),
--                      of masks (Masks) and of bytes (Bytes)
--   Lan9118/Device     registers, device data, accesses
--   Lan9118/Mac        lan9118_mac_regread to lan9118_phy_regwrite; Polling has the laws of their loops
--   Lan9118/Setup      lan9118_read_id to lan9118_init, and the interrupt registers
--   Lan9118/Fifo       fill_tx_fifo, empty_rx_fifo, lan9118_send_by_chunks, lan9118_receive_by_chunks
--   Lan9118/Buffers    SetTotalLen, AlignMemory, AllocHeap and the other functions on lwIP's buffers
--   Lan9118/Interface  LowLevelInput to NetInit: packets, the interrupt handler, the start
--   Lan9118/Costs      a count of the accesses that a body makes at most
--
-- LittleFS. liteos_m/board/fs/littlefs/src is LittleFs: the block device of littlefs.c, and fs_init.c,
-- which configures and mounts the file systems.
--
-- Files. driver/hals/utils/file/hal_file.c is HalFile, over a C library that is a parameter (Libc).
--
-- Serial port. liteos_m/board/driver/arm_uart_drv.c is Uart/Driver over Uart/Device; uart.c beside it
-- and liteos_m/board/libc/dprintf.c are Uart/Console.
--
-- Base holds what the parts share: Boolean tests, lists with native indices, C's int (Int), function
-- bodies with early returns and undefined behaviour (Body) and a program logic for them (Reason).
-- Tests runs the models on concrete platforms.
--
-- A body is a function from the state to how it ends and the state after it. `fault` stands for
-- undefined behaviour: a NULL dereference, an access outside an array, a division by zero. What a call
-- outside returns may depend on the whole history of calls. `memcpy_s` and `memset_s` return a code
-- from the two sizes; a struct whose copy failed holds what the platform says. NULL is `none`, or 0
-- where a pointer is a number.
--
-- Bounds and fuel. get_pin_index runs for 32 rounds, which end the loop for every 32-bit mask that is
-- not 0. Channels and frequencies wrap at 2 ^ 32. The polling loops of the Ethernet driver run down their
-- own counters, the loops over a FIFO run for the number of words. The wait for the link has 101 rounds
-- as fuel, since `overtime` ends it above 100 (Lan9118/Interface/Start, wait_for_link-ends). All other
-- loops run over lists or for a number of elements.
--
-- Assumed: requests to the Wi-Fi service are taken one at a time, callbacks do not call back into it,
-- and other threads do not write its variables while a request runs, so that interleavings of requests
-- are not modelled. Formatted logging is left out, and so are the results of calls that are only
-- logged. Integer arithmetic on descriptors and file offsets is unbounded.
--
-- Of the Ethernet driver, memory barriers and lwIP's multicast filter are left out, and an interrupt is taken between other functions only.
--
-- Not modelled: the tokens and system parameters under vendor; stubs such as hal_update.c; the board's start-up; the copies of FreeRTOS, CMSIS and mbedtls.
pub mod Base
pub mod Flash
pub mod Gpio
pub mod HalFile
pub mod I2c
pub mod Lan9118
pub mod LittleFs
pub mod Pwm
pub mod Tests
pub mod Uart
pub mod UartHal
pub mod Wifi
