-- ===== src/Pwm/Ports.antt =====
-- Which calls the functions of hal_iot_pwm.c make.
use ohos_l0_adapter.Base.{
  ℕ, ◌∷◌, [], ◌++◌, List, ◌≤◌, ◌<◌, ◌≡◌, refl, map, ◌%◌, ◌^◌, ◌>>=◌, ltb, ◌==◌, arith, Bool-cases,
  inl, inr, ◌⊎◌, if◌then◌else◌, returned, true, false,
}
use ohos_l0_adapter.Pwm.{
  Chip, PwmCall, History, Fn, IotCode, success, failure, pwm_init, pwm_deinit, pwm_start, pwm_stop,
  pwm_update_freq, pwm_config_channel, pwm_call, check_port, iot_pwm_init, iot_pwm_deinit,
  iot_pwm_start, iot_pwm_stop,
}

pub data Request : Type 0 where
  init deinit stop : ℕ → Request
  start : ℕ → ℕ → ℕ → Request

abbrev pub port_of : Request → ℕ
port_of (init p) = p
port_of (deinit p) = p
port_of (stop p) = p
port_of (start p d f) = p

-- The calls of a request that passes the test, the latest first.
abbrev pub calls : Request → List PwmCall
calls (init p) = pwm_init p ∷ []
calls (deinit p) = pwm_deinit p ∷ pwm_stop p ∷ []
calls (stop p) = pwm_stop p ∷ []
calls (start p d f) =
    pwm_start p ∷ pwm_config_channel p (record { duty = d }) ∷ pwm_update_freq p f ∷ []

abbrev pub calls_of : History → List PwmCall
calls_of h = map (λ e. e.0) h

module _ (chip : Chip) where
  abbrev pub serve : Request → Fn IotCode
  serve (init p) = iot_pwm_init chip p
  serve (deinit p) = iot_pwm_deinit chip p
  serve (stop p) = iot_pwm_stop chip p
  serve (start p d f) = iot_pwm_start chip p d f

  -- What the result of the last call makes of a request.
  abbrev pub verdict : Request → ℕ → IotCode
  verdict (init p) code = if code % 2 ^ 16 == chip.drv_success then success else failure
  verdict (deinit p) code = if code % 2 ^ 32 == 0 then success else failure
  verdict (stop p) code = success
  verdict (start p d f) code = success

  abbrev pub latest : History → ℕ
  latest [] = 0
  latest (e ∷ h) = e.1

  serve-outside :
      (q : Request) (h : History)
      → ltb chip.id_max (port_of q) ≡ true
      → serve q h ≡ (returned failure, h)
  unfolding check_port iot_pwm_init iot_pwm_deinit iot_pwm_start iot_pwm_stop ◌>>=◌
  serve-outside (init p) h far = simp far refl
  serve-outside (deinit p) h far = simp far refl
  serve-outside (stop p) h far = simp far refl
  serve-outside (start p d f) h far = simp far refl

  serve-inside :
      (q : Request) (h : History)
      → ltb chip.id_max (port_of q) ≡ false
      → let (r, t) = serve q h in
        (calls_of t ≡ calls q ++ calls_of h) × (r ≡ returned (verdict q (latest t)))
  unfolding check_port iot_pwm_init iot_pwm_deinit iot_pwm_start iot_pwm_stop pwm_call ◌>>=◌
  serve-inside (init p) h near =
      let done = chip.reply h (pwm_init p) % 2 ^ 16 == chip.drv_success in
      elim (Bool-cases done) [
        | inl good ↦ simp (near, good) (refl, refl)
        | inr bad ↦ simp (near, bad) (refl, refl)
      ]
  serve-inside (deinit p) h near =
      let stopped = (pwm_stop p, chip.reply h (pwm_stop p)) ∷ h in
      let done = chip.reply stopped (pwm_deinit p) % 2 ^ 32 == 0 in
      elim (Bool-cases done) [
        | inl good ↦ simp (near, good) (refl, refl)
        | inr bad ↦ simp (near, bad) (refl, refl)
      ]
  serve-inside (stop p) h near = simp near (refl, refl)
  serve-inside (start p d f) h near = simp near (refl, refl)

  -- A request for a port above APP_PWM_ID_MAX fails and reaches no library, and every other one makes its calls
  -- in their order and reports failure only where the result of `app_pwm_init` or `app_pwm_deinit` says so:
  -- starting and stopping always succeed.
  pub serve_lem :
      (q : Request) (h : History)
      → let (r, t) = serve q h in
        ((chip.id_max < port_of q) × (r ≡ returned failure) × (t ≡ h))
        ⊎ ((port_of q ≤ chip.id_max)
            × (calls_of t ≡ calls q ++ calls_of h)
            × (r ≡ returned (verdict q (latest t))))
  serve_lem q h = elim (Bool-cases (ltb chip.id_max (port_of q))) [
    | inl far ↦ rw (serve-outside q h far) (inl (ground arith, refl, refl))
    | inr near ↦ let (made, says) = serve-inside q h near in inr (ground arith, made, says)
  ]
