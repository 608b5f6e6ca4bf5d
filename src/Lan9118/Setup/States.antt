-- ===== src/Lan9118/Setup/States.antt =====
-- What lan9118_init makes of the driver's state, `dev->data->state`.
use ohos_l0_adapter.Base.{
  ℕ, zero, suc, ◌≡◌, refl, ◌⊎◌, inl, inr, Bool, true, false, not, Flow, go, returned, fault, ret,
  modify, when, continue, caught, ◌>>=◌, ◌>>◌, Goes, Ends, goes_rules, Goes-modify, Goes-seq,
  Goes-when, Goes-branch, Goes-pure, Goes-ret, Goes-invoke,
}
use ohos_l0_adapter.Lan9118.Device.{
  Platform, Driver, M, Fn, Reg, Access, access, look, put, set_bit_of, set_field_of, delay_ms, wait,
  LanError, no_error, param, timeout, internal, is_error,
}
use ohos_l0_adapter.Lan9118.Mac.{
  poll, mac_round, mac_busy, write_busy, mac_regread, mac_regwrite, phy_poll, phy_regread,
  phy_regwrite,
}
use ohos_l0_adapter.Lan9118.Setup.{
  read_id, check_id, soft_reset, set_txfifo, wait_eeprom, init_irqs, disable_all_interrupts,
  clear_all_interrupts, check_phy, reset_phy, advertise_cap, establish_link, enable_xmit,
  enable_mac_xmit, enable_mac_recv, or_return, lan9118_init,
}

-- The points of a body: where the state is still the one it began with, and where it never comes.
data Point : Type 0 where
  same never : Point

module _ (n : ℕ) where
  abbrev At : Point → Driver → Type 0
  At same s = s.state ≡ n
  At never s = ⊥

  -- From the first state, `m` goes on in it, and it returns where `end` says.
  abbrev Still : Point → {R A : Type 0} → M R A → Type 0
  Still end m = Goes At ⊥ end same m same

module _ (n : ℕ) (end : Point) (env : Platform) {R : Type 0} where
  Still-access : (c : Access) → Still n end (access env {R = R} c)
  unfolding access
  Still-access c = record { at = λ s h. h }

  Still-look : (r : Reg) → Still n end (look env {R = R} r)
  unfolding look
  Still-look r = record { at = λ s h. h }

  Still-put : (r : Reg) (v : ℕ) → Still n end (put env {R = R} r v)
  unfolding put
  Still-put r v = record { at = λ s h. h }

  Still-set_bit_of : (r : Reg) (k : ℕ) → Still n end (set_bit_of env {R = R} r k)
  unfolding set_bit_of
  Still-set_bit_of r k = search (goes_rules, Still-look, Still-put) depth 8

  Still-set_field_of :
      (r : Reg) (mask offset v : ℕ) → Still n end (set_field_of env {R = R} r mask offset v)
  unfolding set_field_of
  Still-set_field_of r mask offset v = search (goes_rules, Still-look, Still-put) depth 8

  Still-wait : (ms : ℕ) → Still n end (wait env {R = R} ms)
  unfolding wait delay_ms
  Still-wait ms = search (goes_rules, Still-access) depth 8

  Still-mac_round : Still n end (mac_round env {R = R})
  unfolding mac_round
  Still-mac_round = search (goes_rules, Still-look, Still-wait) depth 8

  Still-mac_busy : Still n end (mac_busy env {R = R})
  unfolding mac_busy
  Still-mac_busy = search (goes_rules, Still-look) depth 8

  Still-write_busy : Still n end (write_busy env {R = R})
  unfolding write_busy
  Still-write_busy = search (goes_rules, Still-look) depth 8

Still-poll :
    (n : ℕ) (end : Point) {R : Type 0} (body : M R (Unit {0})) (test : M R Bool) (left : ℕ)
    → Still n end body
    → Still n end test
    → Still n end (poll body test left)
unfolding poll
Still-poll n end body test zero hb ht = Goes-pure 0
Still-poll n end body test (suc zero) hb ht = Goes-seq _ _ hb (λ _. Goes-pure 0)
Still-poll n end body test (suc (suc left)) hb ht =
    let again = Still-poll n end body test (suc left) hb ht in
    Goes-seq _ _ hb (λ _. Goes-seq _ _ ht (λ c. Goes-branch c _ _ again (Goes-pure _)))

module _ (n : ℕ) (env : Platform) where
  Still-mac_regread : (offset held : ℕ) → Still n same (mac_regread env offset held)
  unfolding mac_regread
  Still-mac_regread offset held =
      search (goes_rules, Still-look, Still-put, Still-poll, Still-mac_round, Still-mac_busy) depth
        20

  Still-mac_regwrite : (offset v : ℕ) → Still n same (mac_regwrite env offset v)
  unfolding mac_regwrite
  Still-mac_regwrite offset v =
      search (goes_rules, Still-put, Still-poll, Still-mac_round, Still-mac_busy, Still-write_busy)
        depth 20

  Still-phy_poll :
      {A : Type 0} (failed : A) (val left : ℕ) → Still n same (phy_poll env failed val left)
  unfolding phy_poll
  Still-phy_poll failed val zero = Goes-pure _
  Still-phy_poll failed val (suc left) = Goes-seq _ _ (Still-wait n same env 1) (λ _.
      Goes-seq _ _ (Goes-invoke _ (Still-mac_regread _ _)) (λ r.
        Goes-seq _ _ (Goes-when _ _ (Goes-ret _))
          (λ _. Goes-branch _ _ _ (Still-phy_poll failed r.1 left) (Goes-pure _))))

  Still-phy_regread : (offset held : ℕ) → Still n same (phy_regread env offset held)
  unfolding phy_regread
  Still-phy_regread offset held =
      search (goes_rules, Still-mac_regread, Still-mac_regwrite, Still-phy_poll) depth 24

  Still-phy_regwrite : (offset v : ℕ) → Still n same (phy_regwrite env offset v)
  unfolding phy_regwrite
  Still-phy_regwrite offset v =
      search (goes_rules, Still-mac_regread, Still-mac_regwrite, Still-phy_poll) depth 24

  Still-soft_reset : Still n same (soft_reset env)
  unfolding soft_reset
  Still-soft_reset =
      search (goes_rules, Still-set_bit_of, Still-poll, Still-wait, Still-look) depth 20

  Still-wait_eeprom : Still n same (wait_eeprom env)
  unfolding wait_eeprom
  Still-wait_eeprom = search (goes_rules, Still-poll, Still-wait, Still-look) depth 20

  Still-check_phy : Still n same (check_phy env)
  unfolding check_phy
  Still-check_phy = search (goes_rules, Still-phy_regread) depth 20

  Still-reset_phy : Still n same (reset_phy env)
  unfolding reset_phy
  Still-reset_phy = search (goes_rules, Still-phy_regread, Still-phy_regwrite) depth 20

module _ (n : ℕ) (env : Platform) {R : Type 0} where
  Still-check_id : Still n never (check_id env {R = R})
  unfolding check_id read_id
  Still-check_id = search (goes_rules, Still-look) depth 8

  Still-set_txfifo : (v : ℕ) → Still n never (set_txfifo env {R = R} v)
  unfolding set_txfifo
  Still-set_txfifo v = search (goes_rules, Still-put) depth 8

  Still-init_irqs : Still n never (init_irqs env {R = R})
  unfolding init_irqs disable_all_interrupts clear_all_interrupts
  Still-init_irqs = search (goes_rules, Still-put, Still-set_field_of, Still-set_bit_of) depth 12

  Still-advertise_cap : Still n never (advertise_cap env {R = R})
  unfolding advertise_cap
  Still-advertise_cap = search (goes_rules, Still-phy_regread, Still-phy_regwrite) depth 12

  Still-establish_link : Still n never (establish_link env {R = R})
  unfolding establish_link
  Still-establish_link =
      search (goes_rules, Still-phy_regread, Still-phy_regwrite, Still-set_bit_of) depth 12

  Still-enable_xmit : Still n never (enable_xmit env {R = R})
  unfolding enable_xmit
  Still-enable_xmit = Still-set_bit_of n never env _ _

  Still-enable_mac_xmit : Still n never (enable_mac_xmit env {R = R})
  unfolding enable_mac_xmit
  Still-enable_mac_xmit = search (goes_rules, Still-mac_regread, Still-mac_regwrite) depth 12

  Still-enable_mac_recv : Still n never (enable_mac_recv env {R = R})
  unfolding enable_mac_recv
  Still-enable_mac_recv = search (goes_rules, Still-mac_regread, Still-mac_regwrite) depth 12

-- How lan9118_init ends: with an error in the first state, or with none in state 1.
abbrev pub InitEnd : {A : Type 0} → ℕ → Flow LanError A × Driver → Type 0
InitEnd n (go a, t) = ⊥
InitEnd n (returned e, t) = ((is_error e ≡ true) × (t.state ≡ n)) ⊎ ((e ≡ no_error) × (t.state ≡ 1))
InitEnd n (fault, t) = ⊥

record Sets (n : ℕ) {A : Type 0} (m : M LanError A) : Type 0 where
  at : (s : Driver) → s.state ≡ n → InitEnd n (m s)

module _ (n : ℕ) {A : Type 0} where
  InitEnd-continue :
      {B : Type 0} (f : B → M LanError A) (x : Flow LanError B) (t : Driver)
      → Ends (At n) ⊥ never same (x, t)
      → ((b : B) → Sets n (f b))
      → InitEnd n (continue x f t)
  InitEnd-continue f (go b) t h hf = (hf b).at t h
  InitEnd-continue f (returned e) t h hf = absurd h
  InitEnd-continue f fault t h hf = absurd h

  Sets-Still :
      {B : Type 0} (m : M LanError B) (f : B → M LanError A)
      → Still n never m
      → ((b : B) → Sets n (f b))
      → Sets n (m >>= f)
  unfolding ◌>>=◌
  Sets-Still m f h hf = record {
    at = λ s e. let (x, t) = m s in InitEnd-continue f x t (h.at s e) hf;
  }

  -- A test whose early return is an error.
  Sets-when :
      (b : Bool) (e : LanError) (f : Unit {0} → M LanError A)
      → (b ≡ true → is_error e ≡ true)
      → ((u : Unit {0}) → Sets n (f u))
      → Sets n (when b (ret e) >>= f)
  unfolding ◌>>=◌
  Sets-when true e f he hf = record { at = λ s h. inl (he refl, h) }
  Sets-when false e f he hf = record { at = λ s h. (hf tt).at s h }

  Sets-end : Sets n {A = A} (do modify (λ s. record s { state = 1 }); ret no_error)
  unfolding ◌>>=◌
  Sets-end = record { at = λ s h. inr (refl, refl) }

  InitEnd-error :
      (f : Unit {0} → M LanError A) (e : LanError) (t : Driver)
      → t.state ≡ n
      → ((u : Unit {0}) → Sets n (f u))
      → InitEnd n ((when (is_error e) (ret e) >>= f) t)
  InitEnd-error f e t h hf = (Sets-when (is_error e) e f (λ is. is) hf).at t h

  InitEnd-caught :
      (f : Unit {0} → M LanError A) (x : Flow LanError LanError) (t : Driver)
      → Ends (At n) ⊥ same same (x, t)
      → ((u : Unit {0}) → Sets n (f u))
      → let (y, u) = continue {R = LanError} (caught x) (λ e. when (is_error e) (ret e)) t in
        InitEnd n (continue y f u)
  unfolding ◌>>=◌
  InitEnd-caught f (go e) t h hf = InitEnd-error f e t h hf
  InitEnd-caught f (returned e) t h hf = InitEnd-error f e t h hf
  InitEnd-caught f fault t h hf = absurd h

  Sets-or_return :
      (env : Platform) (step : Fn LanError) (f : Unit {0} → M LanError A)
      → Still n same step
      → ((u : Unit {0}) → Sets n (f u))
      → Sets n (or_return env step >>= f)
  unfolding or_return ◌>>=◌
  Sets-or_return env step f h hf = record {
    at = λ s e. let (x, t) = step s in InitEnd-caught f x t (h.at s e) hf;
  }

Sets-init : (n : ℕ) (env : Platform) (given? : Bool) → Sets n (lan9118_init env given?)
unfolding lan9118_init
Sets-init n env given? =
    Sets-when n (not given?) param _ (λ e. refl)
      (λ _. Sets-Still n _ _ (Goes-modify _ (λ s h. h)) (λ _.
        Sets-Still n _ _ (Still-check_id n env) (λ ok.
          Sets-when n _ timeout _ (λ e. refl)
            (λ _. Sets-or_return n env _ _ (Still-soft_reset n env) (λ _.
              Sets-Still n _ _ (Still-set_txfifo n env 5) (λ _.
                Sets-Still n _ _ (Still-set_field_of n never env _ _ _ _) (λ _.
                  Sets-Still n _ _ (Still-set_field_of n never env _ _ _ _) (λ _.
                    Sets-Still n _ _ (Still-set_field_of n never env _ _ _ _) (λ _.
                      Sets-or_return n env _ _ (Still-wait_eeprom n env) (λ _.
                        Sets-Still n _ _ (Still-init_irqs n env) (λ _.
                          Sets-or_return n env _ _ (Still-check_phy n env) (λ _.
                            Sets-or_return n env _ _ (Still-reset_phy n env) (λ _.
                              Sets-Still n _ _ (Still-wait n never env 100) (λ _.
                                Sets-Still n _ _ (Goes-invoke _ (Still-phy_regread n env _ _)) (λ r.
                                  Sets-when n _ _ _ (λ e. e)
                                    (λ _.
                                      Sets-when n _ internal _ (λ e. refl)
                                        (λ _. Sets-Still n _ _ (Still-advertise_cap n env) (λ _.
                                          Sets-Still n _ _ (Still-establish_link n env) (λ _.
                                            Sets-Still n _ _ (Still-enable_mac_xmit n env) (λ _.
                                              Sets-Still n _ _ (Still-enable_xmit n env) (λ _.
                                                Sets-Still n _ _ (Still-enable_mac_recv n env) (λ _.
                                                  Sets-Still n _ _ (Still-wait n never env 2000)
                                                    (λ _. Sets-end n)))))))))))))))))))))))

-- An error of lan9118_init leaves the driver's state as it was, and a success sets it to 1; one of the two is the
-- result.
pub lan9118_init-InitEnd :
    (env : Platform) (given? : Bool) (s : Driver) → InitEnd s.state (lan9118_init env given? s)
lan9118_init-InitEnd env given? s = (Sets-init s.state env given?).at s refl
