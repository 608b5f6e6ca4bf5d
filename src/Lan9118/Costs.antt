-- ===== src/Lan9118/Costs.antt =====
-- A count of the accesses that a function of lan9118_eth_drv.c makes at most, added up along its body.
use ohos_l0_adapter.Base.{
  ℕ, zero, suc, ◌+◌, ◌*◌, ◌≤◌, ◌≡◌, Bool, true, false, Flow, go, returned, fault, pure, ret, gets,
  modify, when, branch, invoke, continue, caught, ◌>>=◌, length, arith,
}
use ohos_l0_adapter.Lan9118.Device.{
  Platform, Driver, M, Fn, Reg, Access, access, look, put, set_bit_of, delay_ms, wait,
}
use ohos_l0_adapter.Lan9118.Mac.{poll, mac_round, mac_busy, write_busy}

-- The accesses made so far.
abbrev pub made : Driver → ℕ
made s = length s.history

abbrev pub Within : {R A : Type 0} → ℕ → Flow R A × Driver → Type 0
Within n (fault, t) = ⊥
Within n (x, t) = made t ≤ n

-- From any state `m` makes at most n accesses, and it does not meet undefined behaviour.
pub record Costs {R A : Type 0} (m : M R A) (n : ℕ) : Type 0 where
  pub at : (s : Driver) → Within (made s + n) (m s)

Within-more :
    {R A : Type 0} (m n : ℕ) (x : Flow R A) (t : Driver) → m ≤ n → Within m (x, t) → Within n (x, t)
Within-more m n (go a) t le h = omega (arith, h)
Within-more m n (returned a) t le h = omega (arith, h)
Within-more m n fault t le h = h

Within-continue :
    {R A B : Type 0} (a b k : ℕ) (f : A → M R B)
    → ((x : A) → Costs (f x) b)
    → (x : Flow R A) (t : Driver) → Within (k + a) (x, t)
    → Within (k + (a + b)) (continue x f t)
Within-continue a b k f hf (go x) t h =
    Within-more (made t + b) (k + (a + b)) (f x t).0 (f x t).1 (omega (arith, h)) ((hf x).at t)
Within-continue a b k f hf (returned x) t h = omega (arith, h)
Within-continue a b k f hf fault t h = h

Within-caught :
    (R : Type 0) {A : Type 0} (n : ℕ) (x : Flow A A) (t : Driver)
    → Within n (x, t)
    → Within {R = R} n (caught x, t)
Within-caught R n (go a) t h = h
Within-caught R n (returned a) t h = h
Within-caught R n fault t h = h

module _ {R : Type 0} where
  pub Costs-more : {A : Type 0} {a b : ℕ} (m : M R A) → a ≤ b → Costs m a → Costs m b
  Costs-more {a = a} {b = b} m le h = record {
    at = λ s. Within-more (made s + a) (made s + b) (m s).0 (m s).1 (omega (arith, le)) (h.at s);
  }

  infixr 5 ◌▹◌
  pub ◌▹◌ :
      {A B : Type 0} {a b : ℕ} {m : M R A} {f : A → M R B}
      → Costs m a
      → ((x : A) → Costs (f x) b)
      → Costs (m >>= f) (a + b)
  unfolding ◌>>=◌
  ◌▹◌ {a = a} {b = b} {m = m} {f = f} hm hf = record {
    at = λ s. let (x, t) = m s in Within-continue a b (made s) f hf x t (hm.at s);
  }

  pub Costs-pure : {A : Type 0} (x : A) → Costs {R = R} (pure x) 0
  unfolding pure
  Costs-pure x = record { at = λ s. omega arith }

  pub Costs-ret : {A : Type 0} (x : R) → Costs {A = A} (ret x) 0
  unfolding ret
  Costs-ret x = record { at = λ s. omega arith }

  pub Costs-gets : {A : Type 0} (f : Driver → A) → Costs {R = R} (gets f) 0
  unfolding gets
  Costs-gets f = record { at = λ s. omega arith }

  pub Costs-modify :
      (f : Driver → Driver) → ((s : Driver) → made (f s) ≡ made s) → Costs {R = R} (modify f) 0
  unfolding modify
  Costs-modify f h = record { at = λ s. omega (arith, h s) }

  pub Costs-when : {a : ℕ} (b : Bool) (m : M R (Unit {0})) → Costs m a → Costs (when b m) a
  unfolding when
  Costs-when true m h = record { at = h.at }
  Costs-when false m h = record { at = λ s. omega arith }

  pub Costs-branch :
      {A : Type 0} {a b : ℕ} (c : Bool) (m n : M R A)
      → Costs m a
      → Costs n b
      → Costs (branch c m n) (a + b)
  unfolding branch
  Costs-branch {a = a} {b = b} true m n hm hn = record {
    at = λ s. Within-more (made s + a) (made s + (a + b)) (m s).0 (m s).1 (omega arith) (hm.at s);
  }
  Costs-branch {a = a} {b = b} false m n hm hn = record {
    at = λ s. Within-more (made s + b) (made s + (a + b)) (n s).0 (n s).1 (omega arith) (hn.at s);
  }

  pub Costs-invoke : {A : Type 0} {a : ℕ} (m : Fn A) → Costs m a → Costs {R = R} (invoke m) a
  unfolding invoke
  Costs-invoke {a = a} m h = record {
    at = λ s. Within-caught R (made s + a) (m s).0 (m s).1 (h.at s);
  }

  pub Costs-poll :
      {a b : ℕ} (body : M R (Unit {0})) (test : M R Bool) (n : ℕ)
      → Costs body a
      → Costs test b
      → Costs (poll body test n) (n * (a + b))
  unfolding poll
  Costs-poll {a = a} {b = b} body test zero hb ht =
      Costs-more (poll body test 0) (omega arith) (Costs-pure 0)
  Costs-poll {a = a} {b = b} body test (suc zero) hb ht =
      Costs-more (poll body test 1) (omega arith) (hb ▹ λ _. Costs-pure 0)
  Costs-poll {a = a} {b = b} body test (suc (suc n)) hb ht =
      let again = hb ▹ λ _. ht ▹ λ c.
      Costs-branch c (poll body test (suc n)) (pure (suc n)) (Costs-poll body test (suc n) hb ht)
        (Costs-pure (suc n)) in
      Costs-more (poll body test (suc (suc n))) (omega arith) again

module _ (env : Platform) {R : Type 0} where
  pub Costs-access : (c : Access) → Costs {R = R} (access env c) 1
  unfolding access
  Costs-access c = record { at = λ s. omega arith }

  pub Costs-look : (r : Reg) → Costs {R = R} (look env r) 1
  unfolding look
  Costs-look r = record { at = λ s. omega arith }

  pub Costs-put : (r : Reg) (v : ℕ) → Costs {R = R} (put env r v) 1
  unfolding put
  Costs-put r v = record { at = λ s. omega arith }

module _ (env : Platform) {R : Type 0} where
  pub Costs-set_bit_of : (r : Reg) (k : ℕ) → Costs {R = R} (set_bit_of env r k) 2
  unfolding set_bit_of
  Costs-set_bit_of r k = Costs-look env r ▹ λ w. Costs-put env r _

  pub Costs-wait : (n : ℕ) → Costs {R = R} (wait env n) 1
  unfolding wait delay_ms
  Costs-wait n = Costs-gets _ ▹ λ b. Costs-when b _ (Costs-access env _ ▹ λ x. Costs-gets _)

  pub Costs-mac_busy : Costs {R = R} (mac_busy env) 1
  unfolding mac_busy
  Costs-mac_busy = Costs-look env _ ▹ λ w. Costs-pure _

  pub Costs-write_busy : Costs {R = R} (write_busy env) 2
  unfolding write_busy
  Costs-write_busy = Costs-look env _ ▹ λ w. Costs-look env _ ▹ λ w. Costs-pure _

  pub Costs-mac_round : Costs {R = R} (mac_round env) 2
  unfolding mac_round
  Costs-mac_round = Costs-look env _ ▹ λ w. Costs-wait 1
