-- ===== src/Wifi/Reports/Results.antt =====
-- GetScanInfoList of wifi_device.c: what the client gets, and the buffer that holds the driver's
-- results.
use ohos_l0_adapter.Base.{
  ℕ, zero, suc, ◌+◌, ◌≤◌, List, [], ◌∷◌, ◌++◌, map, ◌≡◌, refl, ◌∙◌, sym, ap, true, false, is_zero,
  length, ltb, if◌then◌else◌, ◌⊎◌, go, returned, ◌>>=◌, arith, Bool-cases, inl, inr,
}
use mathlib.Core.List.{append_assoc, append-nil}
use ohos_l0_adapter.Wifi.Types.{
  success, unknown, ApInfo, ScanInfo, malloc_results, free_results, sta_scan_results,
}
use ohos_l0_adapter.Wifi.Service.{Platform, Service, History, call}
use ohos_l0_adapter.Wifi.Reports.{scan_info, copy_results, get_scan_info_list}

-- How many buffers were allocated, and how many freed.
abbrev pub allocated : History → ℕ
allocated [] = 0
allocated ((malloc_results, code) ∷ h) = let n = allocated h in if is_zero code then n else suc n
allocated (e ∷ h) = allocated h

abbrev pub freed : History → ℕ
freed [] = 0
freed ((free_results, code) ∷ h) = suc (freed h)
freed (e ∷ h) = freed h

-- The state after the buffer is freed.
abbrev released : Platform → Service → Service
released p s = record s { history = (free_results, p.reply s.history free_results) ∷ s.history }

copy_results-ends :
    (p : Platform) (aps : List ApInfo) (out : List ScanInfo) (s : Service)
    → let m = copy_results p aps out s in
      (m ≡ (go (out ++ map scan_info aps), s))
      ⊎ ((o : List ScanInfo) × (m ≡ (returned (unknown, o), released p s)))
unfolding copy_results call ◌>>=◌
copy_results-ends p [] out s = inl (rw (append-nil out) refl)
copy_results-ends p (ap_info ∷ aps) out s = elim (Bool-cases (is_zero (p.memcpy_s p.ssid_len 33))) [
  | inr short ↦ inr (out, simp short)
  | inl name ↦ elim (Bool-cases (is_zero (p.memcpy_s p.mac_len 6))) [
    | inr short ↦ inr (out, simp (name, short))
    | inl mac ↦
        (let rest = copy_results-ends p aps (out ++ (scan_info ap_info ∷ [])) s in
          simp (name, mac)
            (rw (sym (append_assoc out (scan_info ap_info ∷ []) (map scan_info aps))) rest))
  ]
]

copy_results-go :
    (p : Platform)
    → is_zero (p.memcpy_s p.ssid_len 33) ≡ true
    → is_zero (p.memcpy_s p.mac_len 6) ≡ true
    → (aps : List ApInfo) (out : List ScanInfo) (s : Service)
    → copy_results p aps out s ≡ (go (out ++ map scan_info aps), s)
unfolding copy_results ◌>>=◌
copy_results-go p name mac [] out s = rw (append-nil out) refl
copy_results-go p name mac (a ∷ aps) out s =
    simp (name, mac)
      (copy_results-go p name mac aps (out ++ (scan_info a ∷ [])) s
        ∙ ap (λ o. (go o, s)) (append_assoc out (scan_info a ∷ []) (map scan_info aps)))

-- On every path, errors included, GetScanInfoList frees the buffer that it allocated, once: frees and
-- allocations grow by the same number.
pub get_scan_info_list-frees :
    (p : Platform) (size : ℕ) (s : Service)
    → let (r, t) = get_scan_info_list p size s in
      freed t.history + allocated s.history ≡ freed s.history + allocated t.history
unfolding get_scan_info_list call ◌>>=◌
get_scan_info_list-frees p zero s = refl
get_scan_info_list-frees p (suc size) s =
    let h = (malloc_results, p.reply s.history malloc_results) ∷ s.history in
    let g = (sta_scan_results, p.reply h sta_scan_results) ∷ h in
    elim (Bool-cases (is_zero (p.reply s.history malloc_results))) [
      | inl none_left ↦ simp none_left
      | inr buffer ↦ elim (Bool-cases (is_zero (p.reply h sta_scan_results))) [
        | inr fails ↦ simp (buffer, fails) (omega arith)
        | inl works ↦ elim (Bool-cases (ltb (suc size) (length (p.scan_results g)))) [
          | inl too_many ↦ simp (buffer, works, too_many) (omega arith)
          | inr fits ↦ elim (copy_results-ends p (p.scan_results g) [] (record s { history = g })) [
            | inl all ↦ simp (buffer, works, fits, all) (omega arith)
            | inr (o, some_failed) ↦ simp (buffer, works, fits, some_failed) (omega arith)
          ]
        ]
      ]
    ]

-- Where allocation, driver and copies work and the client's array is large enough, GetScanInfoList
-- returns all the driver's results in order, converted.
pub get_scan_info_list_lem :
    (p : Platform)
    → is_zero (p.memcpy_s p.ssid_len 33) ≡ true
    → is_zero (p.memcpy_s p.mac_len 6) ≡ true
    → ((h : History) → is_zero (p.reply h malloc_results) ≡ false)
    → ((h : History) → is_zero (p.reply h sta_scan_results) ≡ true)
    → (aps : List ApInfo) (size : ℕ) → ((h : History) → p.scan_results h ≡ aps)
    → length aps ≤ suc size
    → (s : Service) → (get_scan_info_list p (suc size) s).0 ≡ returned (success, map scan_info aps)
unfolding get_scan_info_list call ◌>>=◌
get_scan_info_list_lem p name mac allocates works aps size found fits s =
    let small : ltb (suc size) (length aps) ≡ false = ground arith in
    simp (allocates, works, found, small, copied)
  where
    copied : (t : Service) → copy_results p aps [] t ≡ (go (map scan_info aps), t)
    copied t = copy_results-go p name mac aps [] t
