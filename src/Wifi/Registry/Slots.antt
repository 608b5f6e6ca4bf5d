-- ===== src/Wifi/Registry/Slots.antt =====
-- What registering and unregistering do to the table of listeners (wifi_device.c).
use ohos_l0_adapter.Base.{
  ℕ, suc, ◌<◌, ◌≡◌, refl, sym, ◌∙◌, List, ◌∷◌, ◌++◌, Option, none, some, false, get_elem?, set,
  take, returned, Flow, is_zero, ◌⊎◌, arith, ◌>>=◌, inl, inr,
}
use ohos_l0_adapter.Wifi.Types.{WifiErrorCode, success, unknown, invalid_args, busy}
use ohos_l0_adapter.Wifi.Service.{
  Platform, Service, call, lock, unlock, lock_or_return, unlock_or_return,
}
use ohos_l0_adapter.Wifi.Service.Working.{LocksWork}
use ohos_l0_adapter.Wifi.Registry.{
  Found, registered, empty_slot, full, find_slot, find_registered, register_at,
  register_hisi_callback, register_wifi_event, unregister_at, unregister_wifi_event,
}
use ohos_l0_adapter.Wifi.Registry.Table.{
  count, IsCompact, Others, EndsAt, find_slot-EndsAt, verdict, placed, find_slot-empty,
  find_slot-registered, find_slot-hole, count-set, count-append, find_registered-set, set-set_none,
}

-- How a registration of `e` ends: in the first NULL slot, in front of which other structs stand; refused because
-- it meets the struct itself; or refused because all slots hold others.
abbrev pub Registers :
    ℕ → Flow WifiErrorCode WifiErrorCode → List (Option ℕ) → List (Option ℕ) → Type 0
Registers e r before after =
    ((r ≡ returned success)
      × ((k : ℕ) × Others e (take k before)
          × (get_elem? before k ≡ some none)
          × (after ≡ set before k (some e))))
    ⊎ ((r ≡ returned invalid_args)
        × (after ≡ before)
        × ((k : ℕ) × Others e (take k before) × (get_elem? before k ≡ some (some e))))
    ⊎ ((r ≡ returned busy) × (after ≡ before) × Others e before)

placed-Registers :
    (e : ℕ) (found : Found) (slots : List (Option ℕ))
    → EndsAt e found slots
    → Registers e (returned (verdict found)) slots (placed e found slots)
placed-Registers e registered slots h = inr (inl (refl, refl, h))
placed-Registers e full slots h = inr (inr (refl, refl, h))
placed-Registers e (empty_slot k) slots (others, here) = inl (refl, (k, others, here, refl))

abbrev pub removal : Option ℕ → WifiErrorCode
removal none = unknown
removal (some i) = success

abbrev pub cleared : Option ℕ → List (Option ℕ) → List (Option ℕ)
cleared none slots = slots
cleared (some i) slots = set slots i none

module _ (p : Platform) (w : LocksWork p) where
  unregister_at_lem :
      (found : Option ℕ) (s : Service)
      → is_zero s.event_lock ≡ false
      → ((unregister_at p found s).0 ≡ returned (removal found))
        × ((unregister_at p found s).1.events ≡ cleared found s.events)
  unfolding unregister_at unlock_or_return unlock call ◌>>=◌
  unregister_at_lem none s h = (simp (h, w.releases), simp (h, w.releases))
  unregister_at_lem (some i) s h = (simp (h, w.releases), simp (h, w.releases))

  register_at_lem :
      (e : ℕ) (found : Found) (s : Service)
      → is_zero s.event_lock ≡ false
      → ((register_at p e found s).0 ≡ returned (verdict found))
        × ((register_at p e found s).1.events ≡ placed e found s.events)
        × ((register_at p e found s).1.event_lock ≡ s.event_lock)
  unfolding register_at register_hisi_callback unlock_or_return unlock call ◌>>=◌
  register_at_lem e registered s h =
      (simp (h, w.releases), simp (h, w.releases), simp (h, w.releases))
  register_at_lem e full s h = (simp (h, w.releases), simp (h, w.releases), simp (h, w.releases))
  register_at_lem e (empty_slot i) s h =
      (simp (h, w.releases), simp (h, w.releases), simp (h, w.releases))

  module _ (s : Service) (ready : is_zero s.event_lock ≡ false) where
    pub register_wifi_event_lem :
        (e : ℕ)
        → ((register_wifi_event p (some e) s).0 ≡ returned (verdict (find_slot e 0 s.events)))
          × ((register_wifi_event p (some e) s).1.events
              ≡ placed e (find_slot e 0 s.events) s.events)
          × ((register_wifi_event p (some e) s).1.event_lock ≡ s.event_lock)
    unfolding register_wifi_event lock_or_return lock call ◌>>=◌
    register_wifi_event_lem e =
        simp (ready, w.acquires) (register_at_lem e (find_slot e 0 s.events) _ ready)

    pub unregister_wifi_event_lem :
        (e : ℕ)
        → ((unregister_wifi_event p (some e) s).0
            ≡ returned (removal (find_registered e 0 s.events)))
          × ((unregister_wifi_event p (some e) s).1.events
              ≡ cleared (find_registered e 0 s.events) s.events)
    unfolding unregister_wifi_event lock_or_return lock call ◌>>=◌
    unregister_wifi_event_lem e =
        simp (ready, w.acquires) (unregister_at_lem (find_registered e 0 s.events) _ ready)

    -- Where the event mutex is created and works, RegisterWifiEvent succeeds exactly by filling the first NULL slot,
    -- with other structs in all slots in front of it and no other slot changed. It returns
    -- ERROR_WIFI_INVALID_ARGS where it meets the struct before a NULL slot, and ERROR_WIFI_BUSY where every slot
    -- holds another struct, and then changes nothing.
    pub register_wifi_event-Registers :
        (e : ℕ) → let (r, t) = register_wifi_event p (some e) s in Registers e r s.events t.events
    register_wifi_event-Registers e =
        let (code, slots, handle) = register_wifi_event_lem e in
        rw (code, slots)
          (placed-Registers e (find_slot e 0 s.events) s.events (find_slot-EndsAt e s.events))

    -- Where the event mutex works, in a table without gaps a struct that is registered is refused, and nothing changes.
    pub register_refuses_registered :
        (e : ℕ)
        → IsCompact s.events
        → 0 < count e s.events
        → ((register_wifi_event p (some e) s).0 ≡ returned invalid_args)
          × ((register_wifi_event p (some e) s).1.events ≡ s.events)
    register_refuses_registered e c h =
        let found = find_slot-registered e s.events c h in ground (arith, register_wifi_event_lem e)

    -- Where the event mutex works, in a table with a gap in front of a registered struct the same struct is registered again.
    pub register_duplicates :
        (e : ℕ) (before after : List (Option ℕ))
        → s.events ≡ before ++ (none ∷ after)
        → count e before ≡ 0
        → ((register_wifi_event p (some e) s).0 ≡ returned success)
          × (count e (register_wifi_event p (some e) s).1.events ≡ suc (count e after))
    register_duplicates e before after split new =
        let (k, found) = find_slot-hole e before after new in
        let here : find_slot e 0 s.events ≡ empty_slot k = rw split found in
        ground (
          arith,
          register_wifi_event_lem e,
          count-set e e k s.events (find_slot-empty e s.events k here),
          count-append e before (none ∷ after),
        )

placed-slot :
    (e : ℕ) (found : Found)
    → ◌≡◌ {A = Flow WifiErrorCode WifiErrorCode} (returned (verdict found)) (returned success)
    → (k : ℕ) × (found ≡ empty_slot k)
placed-slot e registered h = cc
placed-slot e full h = cc
placed-slot e (empty_slot k) h = (k, refl)

-- Where the event mutex is created and works, a struct that is not in the table and whose registration succeeds
-- can be unregistered with success, and the table is then as it was before the two calls, gaps included.
pub unregister-register :
    (p : Platform)
    → LocksWork p
    → (s : Service) → is_zero s.event_lock ≡ false
    → (e : ℕ) → count e s.events ≡ 0
    → (register_wifi_event p (some e) s).0 ≡ returned success
    → let t = (register_wifi_event p (some e) s).1 in
      ((unregister_wifi_event p (some e) t).0 ≡ returned success)
      × ((unregister_wifi_event p (some e) t).1.events ≡ s.events)
unregister-register p w s ready e new done =
    let (code, slots, lock_kept) = register_wifi_event_lem p w s ready e in
    let (k, here) = placed-slot e (find_slot e 0 s.events) (sym code ∙ done) in
    let hole = find_slot-empty e s.events k here in
    let t = (register_wifi_event p (some e) s).1 in
    ground (
      arith,
      unregister_wifi_event_lem p w t (rw lock_kept ready) e,
      find_registered-set e 0 k s.events hole new,
      set-set_none e k s.events hole,
    )
