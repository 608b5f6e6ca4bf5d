-- ===== src/Wifi/Dispatch/Fanout.antt =====
-- Who is told of a scan (DispatchScanStateChangeEvent of wifi_device.c).
use ohos_l0_adapter.Base.{
  ℕ, List, [], ◌∷◌, ◌++◌, ◌≡◌, refl, Bool, true, false, Option, none, some, ◌>>=◌, returned, go,
  if◌then◌else◌, Bool-cases, inl, inr, sym, ◌∙◌, Goes,
}
use mathlib.Core.List.{append_assoc, append-nil}
use ohos_l0_adapter.Wifi.Types.{EventState, Call, not_available, scan_state_changed}
use ohos_l0_adapter.Wifi.Station.{announce}
use ohos_l0_adapter.Wifi.Service.{Platform, Service, call, History}
use ohos_l0_adapter.Wifi.Dispatch.{dispatch_scan_state_change_event, for_each_handler, deref}

-- The state after a callback.
abbrev pub told : Platform → ℕ → EventState → ℕ → Service → Service
told p h state size s = record s {
  history =
      (scan_state_changed h state size, p.reply s.history (scan_state_changed h state size))
      ∷ s.history;
}

-- With no result to tell of, the event pointer is not read: a listener is told with size 0, and a
-- struct without the callback is passed over.
pub dispatch_scan_state_change_event-unavailable :
    (p : Platform) (h : ℕ) (s : Service)
    → dispatch_scan_state_change_event p none h not_available s ≡ (
      returned tt,
      (if (p.handlers h).on_scan_state_changed then told p h not_available 0 s else s),
    )
unfolding dispatch_scan_state_change_event deref call ◌>>=◌
dispatch_scan_state_change_event-unavailable p h s =
    elim (Bool-cases (p.handlers h).on_scan_state_changed) [ inl e ↦ rw e refl | inr e ↦ rw e refl ]

-- So a point that the callback keeps is kept.
pub Goes-unavailable :
    {I : Type 0} {P : I → Service → Type 0} {F : Type 0} {k : I} (p : Platform) (h : ℕ)
    → Goes {R = Unit {0}} P F k k (call p (scan_state_changed h not_available 0)) k
    → Goes P F k k (dispatch_scan_state_change_event p none h not_available) k
unfolding call
Goes-unavailable {P = P} {F = F} {k = k} p h hc = record {
  at = λ s hs.
      rw (dispatch_scan_state_change_event-unavailable p h s)
        (either (p.handlers h).on_scan_state_changed s (hc.at s hs) hs);
}
  where
    either :
        (b : Bool) (s : Service)
        → P k (told p h not_available 0 s)
        → P k s
        → P k (if b then told p h not_available 0 s else s)
    either true s x y = x
    either false s x y = y

-- The calls that tell the listeners of `slots`, in slot order.
abbrev pub tellings : Platform → List (Option ℕ) → List Call
tellings p [] = []
tellings p (none ∷ slots) = tellings p slots
tellings p (some h ∷ slots) =
    let rest = tellings p slots in
    if (p.handlers h).on_scan_state_changed
    then scan_state_changed h not_available 0 ∷ rest
    else rest

-- The calls of a history, the first one first.
abbrev pub calls : History → List Call
calls [] = []
calls (e ∷ h) = calls h ++ (e.0 ∷ [])

-- The loop of Scan and AdvanceScan tells every listener that has the callback, once per slot and in slot
-- order, that no result is available; it calls nothing else, and changes nothing else.
pub announce-tells :
    {R : Type 0} (p : Platform) (slots : List (Option ℕ)) (s : Service)
    → let (r, t) = for_each_handler {R = R} (announce p) slots s in
      (r ≡ go tt)
      × (calls t.history ≡ calls s.history ++ tellings p slots)
      × (t ≡ record s { history = t.history })
unfolding for_each_handler announce ◌>>=◌
announce-tells p [] s = (refl, sym (append-nil (calls s.history)), refl)
announce-tells p (none ∷ slots) s = announce-tells p slots s
announce-tells {R = R} p (some h ∷ slots) s =
    elim (Bool-cases (p.handlers h).on_scan_state_changed) [
      | inl hears ↦
          (let (ends, tells, same) = announce-tells {R = R} p slots (told p h not_available 0 s) in
            simp (dispatch_scan_state_change_event-unavailable p h s, hears)
              (
                ends,
                tells
                    ∙ append_assoc (calls s.history) (scan_state_changed h not_available 0 ∷ [])
                        (tellings p slots),
                same,
              ))
      | inr deaf ↦
          simp (dispatch_scan_state_change_event-unavailable p h s, deaf) (announce-tells p slots s)
    ]
