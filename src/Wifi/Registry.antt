-- ===== src/Wifi/Registry.antt =====
-- The table of listeners of wifi_device.c: RegisterWifiEvent and UnRegisterWifiEvent.
pub mod Slots
pub mod Table
use ohos_l0_adapter.Base.{
  ℕ, zero, suc, ◌+◌, List, [], ◌∷◌, Option, none, some, Bool, true, false, go, ◌>>=◌, ◌>>◌, pure,
  ret, gets, modify, set, ◌==◌, if◌then◌else◌,
}
use ohos_l0_adapter.Wifi.Types.{
  WifiErrorCode, success, unknown, invalid_args, busy, event, register_event_callback,
  config_callback,
}
use ohos_l0_adapter.Wifi.Service.{Platform, M, Fn, call, lock_or_return, unlock_or_return}

-- How the search of `RegisterWifiEvent` ends: at the struct itself, at a NULL slot, or past the end.
pub data Found : Type 0 where
  registered : Found
  empty_slot : ℕ → Found
  full : Found

-- The loop of `RegisterWifiEvent` from slot `i` on.
unfoldable pub find_slot : ℕ → ℕ → List (Option ℕ) → Found
find_slot e i [] = full
find_slot e i (none ∷ slots) = empty_slot i
find_slot e i (some h ∷ slots) = if h == e then registered else find_slot e (i + 1) slots

-- The loop of `UnRegisterWifiEvent` from slot `i` on.
unfoldable pub find_registered : ℕ → ℕ → List (Option ℕ) → Option ℕ
find_registered e i [] = none
find_registered e i (none ∷ slots) = find_registered e (i + 1) slots
find_registered e i (some h ∷ slots) = if h == e then some i else find_registered e (i + 1) slots

module _ (p : Platform) where
  -- `RegisterHisiCallback`; failures are only logged.
  unfoldable pub register_hisi_callback : {R : Type 0} → M R (Unit {0})
  register_hisi_callback = do call p register_event_callback; call p config_callback; pure tt

  -- `RegisterWifiEvent` after its loop.
  unfoldable pub register_at : ℕ → Found → Fn WifiErrorCode
  register_at e registered = do unlock_or_return p event unknown; ret invalid_args
  register_at e full = do unlock_or_return p event unknown; ret busy
  register_at e (empty_slot i) = do
    modify (λ s. record s { events = set s.events i (some e) })
    unlock_or_return p event unknown
    register_hisi_callback
    ret success

  -- `RegisterWifiEvent`; `none` is NULL.
  unfoldable pub register_wifi_event : Option ℕ → Fn WifiErrorCode
  register_wifi_event none = ret invalid_args
  register_wifi_event (some e) = do
    lock_or_return p event unknown
    found ← gets (λ s. find_slot e 0 s.events)
    register_at e found

  -- `UnRegisterWifiEvent` after its loop.
  unfoldable pub unregister_at : Option ℕ → Fn WifiErrorCode
  unregister_at none = do unlock_or_return p event unknown; ret unknown
  unregister_at (some i) = do
    modify (λ s. record s { events = set s.events i none })
    unlock_or_return p event unknown
    ret success

  -- `UnRegisterWifiEvent`
  unfoldable pub unregister_wifi_event : Option ℕ → Fn WifiErrorCode
  unregister_wifi_event none = ret invalid_args
  unregister_wifi_event (some e) = do
    lock_or_return p event unknown
    found ← gets (λ s. find_registered e 0 s.events)
    unregister_at found
