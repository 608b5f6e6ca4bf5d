-- ===== src/Wifi/Station/Transitions.antt =====
-- The switch of the station as an abstract machine, which EnableWifi and DisableWifi of
-- wifi_device.c implement over a driver that answers in any way.
use ohos_l0_adapter.Base.{
  ◌≡◌, refl, List, [], ◌∷◌, Bool, true, false, is_zero, returned, ◌>>=◌, if◌then◌else◌, Bool-cases,
  inl, inr,
}
use ohos_l0_adapter.Wifi.Types.{
  WifiErrorCode, success, unknown, busy, not_started, global, sta_start, sta_stop,
  set_reconnect_policy, acquire,
}
use ohos_l0_adapter.Wifi.Service.{
  Platform, Service, History, call, lock, unlock, lock_or_return, unlock_or_return,
}
use ohos_l0_adapter.Wifi.Service.Working.{LocksWork}
use ohos_l0_adapter.Wifi.Station.{enable_wifi, disable_wifi}

-- The radio as the driver has it, by the calls so far.
abbrev pub radio_on : History → Bool
radio_on [] = false
radio_on ((sta_start, code) ∷ h) = let on = radio_on h in if is_zero code then true else on
radio_on ((sta_stop, code) ∷ h) = let on = radio_on h in if is_zero code then false else on
radio_on (e ∷ h) = radio_on h

-- The status shown to clients and the radio: the abstract state.
abbrev pub Switch : Type 0
Switch = Bool × Bool

abbrev pub switch : Service → Switch
switch s = (s.sta_active, radio_on s.history)

-- The steps of EnableWifi, each with its return code.
pub data EnableStep : Switch → WifiErrorCode → Switch → Type 0 where
  already : {on : Bool} → EnableStep (true, on) busy (true, on)
  not_begun : {on : Bool} → EnableStep (false, on) not_started (false, on)
  -- The driver has started and the reconnect policy failed: the radio stays on.
  half_begun : {on : Bool} → EnableStep (false, on) unknown (false, true)
  begun : {on : Bool} → EnableStep (false, on) success (true, true)

-- The steps of DisableWifi.
pub data DisableStep : Switch → WifiErrorCode → Switch → Type 0 where
  already : {on : Bool} → DisableStep (false, on) not_started (false, on)
  refused : {on : Bool} → DisableStep (true, on) not_started (true, on)
  ended : {on : Bool} → DisableStep (true, on) success (false, false)

module _ (p : Platform) (w : LocksWork p) (s : Service)
    (ready : is_zero s.global_lock ≡ false) where
  taken : History
  taken = (acquire global, p.reply s.history (acquire global)) ∷ s.history

  -- Where the global mutex works, and whatever the driver answers, EnableWifi returns, takes a step of the abstract machine, and leaves
  -- the mutex's handle.
  pub enable_wifi_lem :
      let (x, t) = enable_wifi p s in
      (r : WifiErrorCode) × (x ≡ returned r)
      × EnableStep (switch s) r (switch t)
      × (t.global_lock ≡ s.global_lock)
  unfolding taken enable_wifi lock_or_return lock unlock_or_return unlock call ◌>>=◌
  enable_wifi_lem = elim (Bool-cases s.sta_active) [
    | inl on ↦ simp (ready, on, w.acquires, w.releases) (busy, refl, EnableStep.already, refl)
    | inr off ↦ elim (Bool-cases (is_zero (p.reply taken sta_start))) [
      | inl runs ↦
          let started : History = (sta_start, p.reply taken sta_start) ∷ taken in
          elim (Bool-cases (is_zero (p.reply started (set_reconnect_policy 1 0xFFFF 100 100)))) [
            | inl set_up ↦
                simp (ready, off, runs, set_up, w.acquires, w.releases) (success, refl, begun, refl)
            | inr fails ↦
                simp (ready, off, runs, fails, w.acquires, w.releases)
                  (unknown, refl, half_begun, refl)
          ]
      | inr fails ↦
          simp (ready, off, fails, w.acquires, w.releases) (not_started, refl, not_begun, refl)
    ]
  ]

  -- Where the global mutex works, and whatever the driver answers, DisableWifi returns, takes a step of
  -- the abstract machine, and leaves the mutex's handle.
  pub disable_wifi_lem :
      let (x, t) = disable_wifi p s in
      (r : WifiErrorCode) × (x ≡ returned r)
      × DisableStep (switch s) r (switch t)
      × (t.global_lock ≡ s.global_lock)
  unfolding taken disable_wifi lock_or_return lock unlock_or_return unlock call ◌>>=◌
  disable_wifi_lem = elim (Bool-cases s.sta_active) [
    | inr off ↦
        simp (ready, off, w.acquires, w.releases) (not_started, refl, DisableStep.already, refl)
    | inl on ↦ elim (Bool-cases (is_zero (p.reply taken sta_stop))) [
      | inl stops ↦ simp (ready, on, stops, w.acquires, w.releases) (success, refl, ended, refl)
      | inr fails ↦
          simp (ready, on, fails, w.acquires, w.releases) (not_started, refl, refused, refl)
    ]
  ]

-- The states that the two steps reach from a station that is off.
pub data Reachable : Switch → Type 0 where
  begin : Reachable (false, false)
  enable : {a b : Switch} {r : WifiErrorCode} → Reachable a → EnableStep a r b → Reachable b
  disable : {a b : Switch} {r : WifiErrorCode} → Reachable a → DisableStep a r b → Reachable b

Reachable-active : (a : Switch) → Reachable a → a.0 ≡ true → a.1 ≡ true
Reachable-active _ begin e = cc
Reachable-active _ (enable r EnableStep.already) e = Reachable-active _ r refl
Reachable-active _ (enable r not_begun) e = cc
Reachable-active _ (enable r half_begun) e = cc
Reachable-active _ (enable r begun) e = refl
Reachable-active _ (disable r DisableStep.already) e = cc
Reachable-active _ (disable r refused) e = Reachable-active _ r refl
Reachable-active _ (disable r ended) e = cc

-- A call of EnableWifi (`true`) or of DisableWifi, and a sequence of calls.
abbrev pub toggle : Platform → Bool → Service → Service
toggle p true s = (enable_wifi p s).1
toggle p false s = (disable_wifi p s).1

abbrev pub toggle_all : Platform → List Bool → Service → Service
toggle_all p [] s = s
toggle_all p (b ∷ bs) s = toggle_all p bs (toggle p b s)

-- Where the mutexes work: after any calls of EnableWifi and DisableWifi, from a state that such calls
-- reach from a station that is off, and whatever the driver
-- answers, the status is ACTIVE only while the radio is on.
pub toggle_all-active :
    (p : Platform)
    → LocksWork p
    → (bs : List Bool) (s : Service) → is_zero s.global_lock ≡ false
    → Reachable (switch s)
    → (toggle_all p bs s).sta_active ≡ true
    → radio_on (toggle_all p bs s).history ≡ true
toggle_all-active p w [] s ready r e = Reachable-active (switch s) r e
toggle_all-active p w (true ∷ bs) s ready r e =
    let (x, ends, step, kept) = enable_wifi_lem p w s ready in
    toggle_all-active p w bs (toggle p true s) (rw kept ready) (enable r step) e
toggle_all-active p w (false ∷ bs) s ready r e =
    let (x, ends, step, kept) = disable_wifi_lem p w s ready in
    toggle_all-active p w bs (toggle p false s) (rw kept ready) (disable r step) e
