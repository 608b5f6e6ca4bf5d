-- ===== src/Wifi/Convert.antt =====
-- The conversions of wifi_device_util.c: channels and frequencies (`unsigned int`, 32 bits wide),
-- and the security types of the two sides.
pub mod RoundTrip
use ohos_l0_adapter.Base.{ℕ, ◌+◌, ◌-◌, ◌*◌, ◌/◌, ◌%◌, ◌^◌, leb, ltb, ◌==◌, if◌then◌else◌}
use ohos_l0_adapter.Wifi.Types.{HiAuthMode, WifiSecurityType, HiScanType, WifiScanType}

-- `ChannelToFrequency`
unfoldable pub channel_to_frequency : ℕ → ℕ
channel_to_frequency channel =
    if leb channel 0 then 0 else if channel == 14 then 2484 else ((channel - 1) * 5 + 2412) % 2 ^ 32

-- `FrequencyToChannel`
unfoldable pub frequency_to_channel : ℕ → ℕ
frequency_to_channel frequency =
    if frequency == 2484 then 14 else if ltb frequency 2412 then 0 else (frequency - 2412) / 5 + 1

-- `HiSecToHoSec`
unfoldable pub hi_sec_to_ho_sec : HiAuthMode → WifiSecurityType
hi_sec_to_ho_sec HiAuthMode.open_system = WifiSecurityType.open_system
hi_sec_to_ho_sec HiAuthMode.wep = WifiSecurityType.wep
hi_sec_to_ho_sec HiAuthMode.wpapsk_wpa2psk_mix = WifiSecurityType.psk
hi_sec_to_ho_sec HiAuthMode.wpa3_wpa2_psk_mix = WifiSecurityType.sae
hi_sec_to_ho_sec _ = WifiSecurityType.invalid

-- `HoSecToHiSec`
unfoldable pub ho_sec_to_hi_sec : WifiSecurityType → HiAuthMode
ho_sec_to_hi_sec WifiSecurityType.open_system = HiAuthMode.open_system
ho_sec_to_hi_sec WifiSecurityType.wep = HiAuthMode.wep
ho_sec_to_hi_sec WifiSecurityType.psk = HiAuthMode.wpapsk_wpa2psk_mix
ho_sec_to_hi_sec WifiSecurityType.sae = HiAuthMode.wpa3_wpa2_psk_mix
ho_sec_to_hi_sec _ = HiAuthMode.unknown

-- `ScanTypeSwitch` of wifi_device.c
unfoldable pub scan_type_switch : WifiScanType → HiScanType
scan_type_switch WifiScanType.freq = HiScanType.channel
scan_type_switch WifiScanType.ssid = HiScanType.ssid
scan_type_switch WifiScanType.bssid = HiScanType.bssid
scan_type_switch WifiScanType.other = HiScanType.basic
