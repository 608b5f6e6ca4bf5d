-- ===== src/Wifi/Convert/RoundTrip.antt =====
-- Channels and frequencies of wifi_device_util.c are inverse where they should be, and so are the
-- security types.
use ohos_l0_adapter.Base.{ℕ, ◌+◌, ◌*◌, ◌^◌, ◌≤◌, ◌<◌, ◌≡◌, refl, ◌≢◌, ◌⊎◌, inl, inr, arith}
use ohos_l0_adapter.Wifi.Types.{HiAuthMode, WifiSecurityType}
use ohos_l0_adapter.Wifi.Convert.{
  channel_to_frequency, frequency_to_channel, hi_sec_to_ho_sec, ho_sec_to_hi_sec,
}

-- A channel from 1 on whose frequency fits an `unsigned int` comes back from its frequency.
pub frequency_channel_roundtrip :
    (c : ℕ) → 1 ≤ c → c * 5 + 2407 < 2 ^ 32 → frequency_to_channel (channel_to_frequency c) ≡ c
unfolding channel_to_frequency frequency_to_channel
frequency_channel_roundtrip c h k = ground arith

-- The frequency of the channel found for a frequency from 2412 on, below 2 ^ 32, is that frequency
-- or up to 4 MHz below it, where the channel is not 14.
pub frequency-channel-le :
    (f : ℕ)
    → 2412 ≤ f
    → f < 2 ^ 32
    → frequency_to_channel f ≢ 14
    → (channel_to_frequency (frequency_to_channel f) ≤ f)
      × (f ≤ channel_to_frequency (frequency_to_channel f) + 4)
unfolding channel_to_frequency frequency_to_channel
frequency-channel-le f h k n = ground arith

-- Below 2484 a higher frequency never has a lower channel.
pub channel_mono : (f g : ℕ) → f ≤ g → g < 2484 → frequency_to_channel f ≤ frequency_to_channel g
unfolding frequency_to_channel
channel_mono f g h k = ground arith

-- A security type comes back from its auth mode, unless the code does not name it: then it becomes
-- the invalid one.
pub security_roundtrip :
    (t : WifiSecurityType)
    → (hi_sec_to_ho_sec (ho_sec_to_hi_sec t) ≡ t)
      ⊎ ((t ≡ WifiSecurityType.other)
          × (hi_sec_to_ho_sec (ho_sec_to_hi_sec t) ≡ WifiSecurityType.invalid))
unfolding hi_sec_to_ho_sec ho_sec_to_hi_sec
security_roundtrip WifiSecurityType.invalid = inl refl
security_roundtrip WifiSecurityType.open_system = inl refl
security_roundtrip WifiSecurityType.wep = inl refl
security_roundtrip WifiSecurityType.psk = inl refl
security_roundtrip WifiSecurityType.sae = inl refl
security_roundtrip WifiSecurityType.other = inr (refl, refl)

-- An auth mode whose security type is valid comes back from it.
pub auth_mode_lossy :
    (m : HiAuthMode)
    → hi_sec_to_ho_sec m ≢ WifiSecurityType.invalid
    → ho_sec_to_hi_sec (hi_sec_to_ho_sec m) ≡ m
unfolding hi_sec_to_ho_sec ho_sec_to_hi_sec
auth_mode_lossy HiAuthMode.open_system h = refl
auth_mode_lossy m h = ground arith
