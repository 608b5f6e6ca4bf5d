-- ===== src/Wifi/Configs/Slots.antt =====
-- Which slots of g_wifiConfigs are in use, and how AddDeviceConfig and GetDeviceConfigs of
-- wifi_device.c use them.
use ohos_l0_adapter.Base.{
  ℕ, zero, pos, suc, ◌+◌, ◌≤◌, ◌<◌, ◌≡◌, refl, ap, sym, ◌∙◌, List, [], ◌∷◌, ◌++◌, none, some, true,
  false, ◌==◌, eq_ℤ, eq_ℤ_iff, ltb, if◌then◌else◌, get_elem?, length, take, go, returned, is_zero,
  arith, ◌>>=◌, Bool-cases, inl, inr, length-append, length-take, take_one_more,
}
use mathlib.Core.Option.{some-injective}
use mathlib.Core.List.{append_assoc, append-nil}
use ohos_l0_adapter.Wifi.Types.{DeviceConfig, success, invalid_args, not_available}
use ohos_l0_adapter.Wifi.Service.{
  Platform, Service, call, lock, unlock, lock_or_return, unlock_or_return,
}
use ohos_l0_adapter.Wifi.Service.Working.{LocksWork}
use ohos_l0_adapter.Wifi.Configs.{first_unused, copy_configs, get_device_configs}

-- Slot `i` is in use by the mark that the code leaves there.
abbrev pub IsUsed : ℕ → DeviceConfig → Type 0
IsUsed i c = c.net_id ≡ pos i

-- Every slot of `cs`, the first of which has index `i`, is in use.
abbrev pub AllUsed : ℕ → List DeviceConfig → Type 0
AllUsed i [] = Unit
AllUsed i (c ∷ cs) = IsUsed i c × AllUsed (i + 1) cs

-- The networks in the used slots, in order.
abbrev pub used : ℕ → List DeviceConfig → List DeviceConfig
used i [] = []
used i (c ∷ cs) = let rest = used (i + 1) cs in if eq_ℤ c.net_id (pos i) then c ∷ rest else rest

-- The slot found is the lowest that is not in use.
pub first_unused-least :
    (i j : ℕ) (cs : List DeviceConfig)
    → first_unused i cs ≡ some j
    → (k : ℕ) × (c : DeviceConfig) × (j ≡ i + k)
      × (get_elem? cs k ≡ some c)
      × (¬ (IsUsed j c))
      × AllUsed i (take k cs)
unfolding first_unused
first_unused-least i j [] h = cc
first_unused-least i j (c ∷ cs) h = elim (Bool-cases (eq_ℤ c.net_id (pos i))) [
  | inl same ↦
      (let (k, d, at, here, free, before) = first_unused-least (i + 1) j cs (rw same at h) in
        (suc k, d, omega arith, here, free, ((eq_ℤ_iff c.net_id (pos i)).0 same, before)))
  | inr differs ↦
      (let at : i ≡ j = some-injective i j (rw differs at h) in
        (0, c, omega arith, refl, (λ u. cc (differs, (eq_ℤ_iff c.net_id (pos i)).1 (rw at u))), tt))
]

-- And where the slots before one are in use and it is not, it is the slot that is found.
pub first_unused-found :
    (i k : ℕ) (cs : List DeviceConfig) (c : DeviceConfig)
    → get_elem? cs k ≡ some c
    → ¬ (IsUsed (i + k) c)
    → AllUsed i (take k cs)
    → first_unused i cs ≡ some (i + k)
unfolding first_unused
first_unused-found i k [] c here free before = cc
first_unused-found i zero (d ∷ cs) c here free before = elim (Bool-cases (eq_ℤ d.net_id (pos i))) [
  | inl same ↦
      (let at : d ≡ c = some-injective d c here in
        let here_0 : i + 0 ≡ i = omega arith in
        absurd (
          free (
            ap (λ (x : DeviceConfig). x.net_id) (sym at)
            ∙ (eq_ℤ_iff d.net_id (pos i)).0 same
            ∙ ap pos (sym here_0))))
  | inr differs ↦ rw differs (ap some (omega arith))
]
first_unused-found i (suc k) (d ∷ cs) c here free (first, before) =
    let same = (eq_ℤ_iff d.net_id (pos i)).1 first in
    let next : i + 1 + k ≡ i + suc k = omega arith in
    rw same
      (first_unused-found (i + 1) k cs c here (λ u. free (rw (sym next) u)) before ∙ ap some next)

-- Where all are in use, none is found.
pub first_unused-AllUsed :
    (i : ℕ) (cs : List DeviceConfig) → AllUsed i cs → first_unused i cs ≡ none
unfolding first_unused
first_unused-AllUsed i [] h = refl
first_unused-AllUsed i (c ∷ cs) (first, rest) =
    let same = (eq_ℤ_iff c.net_id (pos i)).1 first in rw same (first_unused-AllUsed (i + 1) cs rest)

module _ (p : Platform) (w : LocksWork p)
    (copies : is_zero (p.memcpy_s p.config_size p.config_size) ≡ true) where
  pub copy_configs-fits :
      (size i : ℕ) (cs out : List DeviceConfig) (s : Service)
      → length out + length (used i cs) ≤ size
      → copy_configs p size i cs out s ≡ (go (out ++ used i cs), s)
  unfolding copy_configs ◌>>=◌
  copy_configs-fits size i [] out s h = rw (append-nil out)
  copy_configs-fits size i (c ∷ cs) out s h = elim (Bool-cases (eq_ℤ c.net_id (pos i))) [
    | inl same ↦
        (let room : length out + suc (length (used (i + 1) cs)) ≤ size = rw same at h in
          let small : ltb size (length out + 1) ≡ false = ground arith in
          let rest =
            copy_configs-fits size (i + 1) cs (out ++ (c ∷ [])) s
              (rw (length-append out (c ∷ [])) (omega arith)) in
          simp (same, copies, small)
            (rest ∙ ap (λ t. (go t, s)) (append_assoc out (c ∷ []) (used (i + 1) cs))))
    | inr differs ↦
        (let rest = copy_configs-fits size (i + 1) cs out s (rw differs at h) in simp differs rest)
  ]

  -- With too small a buffer one network more than it holds is written before the test ends the loop.
  copy_configs-overflows :
      (size i : ℕ) (cs out : List DeviceConfig) (s : Service)
      → is_zero s.global_lock ≡ false
      → length out ≤ size
      → size < length out + length (used i cs)
      → (copy_configs p size i cs out s).0
        ≡ returned (invalid_args, take (suc size) (out ++ used i cs))
  unfolding copy_configs unlock_or_return unlock call ◌>>=◌
  copy_configs-overflows size i [] out s ready fits h = absurd (omega arith)
  copy_configs-overflows size i (c ∷ cs) out s ready fits h =
      elim (Bool-cases (eq_ℤ c.net_id (pos i))) [
        | inl same ↦ elim (Bool-cases (ltb size (length out + 1))) [
          | inl last ↦
              simp (same, copies, last, ready, w.releases)
                (ap (λ t. returned (invalid_args, t))
                  (sym (take_one_more out c (used (i + 1) cs) size (ground arith))))
          | inr small ↦
              (let more : size < length out + suc (length (used (i + 1) cs)) = rw same at h in
                let rest =
                  copy_configs-overflows size (i + 1) cs (out ++ (c ∷ [])) s ready
                    (rw (length-append out (c ∷ [])) (ground arith))
                    (rw (length-append out (c ∷ [])) (omega arith)) in
                simp (same, copies, small)
                  (rest
                    ∙ ap (λ t. returned (invalid_args, take (suc size) t))
                        (append_assoc out (c ∷ []) (used (i + 1) cs))))
        ]
        | inr differs ↦
            (let rest = copy_configs-overflows size (i + 1) cs out s ready fits (rw differs at h) in
              simp differs rest)
      ]

  module _ (s : Service) (ready : is_zero s.global_lock ≡ false)
      (loaded : s.config_read ≡ true) where
    -- Where mutexes and struct copies work, and once the file has been read, a buffer that is large enough gets exactly the networks of the used
    -- slots, in order; where there is none, the code says so.
    pub get_device_configs-fits :
        (size : ℕ)
        → length (used 0 s.configs) ≤ size
        → (get_device_configs p (some size) s).0
          ≡ returned (
              if length (used 0 s.configs) == 0
              then (not_available, [])
              else (success, used 0 s.configs))
    unfolding get_device_configs lock_or_return lock unlock_or_return unlock call ◌>>=◌
    get_device_configs-fits size h =
        let copied = λ (t : Service). copy_configs-fits size 0 s.configs [] t (omega arith) in
        elim (Bool-cases (length (used 0 s.configs) == 0)) [
          | inl nobody ↦ simp (ready, loaded, nobody, copied, w.acquires, w.releases)
          | inr somebody ↦ simp (ready, loaded, somebody, copied, w.acquires, w.releases)
        ]

    -- Where mutexes and struct copies work and the file has been read, with a buffer that is too small the
    -- call fails with ERROR_WIFI_INVALID_ARGS, and it has written one
    -- network more than the buffer holds.
    pub get_device_configs-overflows :
        (size : ℕ)
        → size < length (used 0 s.configs)
        → (out : List DeviceConfig) × ((get_device_configs p (some size) s).0
            ≡ returned (invalid_args, out))
          × (length out ≡ size + 1)
    unfolding get_device_configs lock_or_return lock call ◌>>=◌
    get_device_configs-overflows size h =
        let cut = λ (t : Service) (r : is_zero t.global_lock ≡ false).
          copy_configs-overflows size 0 s.configs [] t r (omega arith) (omega arith) in
        (
          take (suc size) (used 0 s.configs),
          simp (ready, loaded, w.acquires, cut),
          length-take (suc size) (used 0 s.configs) h ∙ omega arith,
        )
