-- ===== src/Wifi/Hotspot/Signal.antt =====
-- GetSignalLevel of wifi_hotspot.c.
use ohos_l0_adapter.Base.{
  ℕ, ℤ, pos, negsuc, ◌≤◌, ◌≡◌, Option, none, some, true, leb_ℤ, eq_ℤ, arith, Bool-cases, inl, inr,
}
use ohos_l0_adapter.Wifi.Service.{Platform}
use ohos_l0_adapter.Wifi.Hotspot.{get_signal_level}

-- The level, an unusable signal having level 0.
abbrev pub level : Option ℕ → ℕ
level none = 0
level (some n) = n

-- Within a band a stronger signal never has a lower level.
pub get_signal_level_mono :
    (p : Platform) (band r t : ℤ)
    → leb_ℤ r t ≡ true
    → level (get_signal_level p r band) ≤ level (get_signal_level p t band)
unfolding get_signal_level
get_signal_level_mono p band (pos r) (pos t) h = ground arith
get_signal_level_mono p band (pos r) (negsuc t) h = cc
get_signal_level_mono p band (negsuc r) (pos t) h = elim (Bool-cases (eq_ℤ band p.band_2g)) [
  | inl e ↦ rw e (ground arith)
  | inr e ↦ rw e (ground arith)
]
get_signal_level_mono p band (negsuc r) (negsuc t) h = elim (Bool-cases (eq_ℤ band p.band_2g)) [
  | inl e ↦ rw e (ground arith)
  | inr e ↦ rw e (ground arith)
]
