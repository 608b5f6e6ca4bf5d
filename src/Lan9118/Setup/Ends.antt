-- ===== src/Lan9118/Setup/Ends.antt =====
-- The initialisation of lan9118_eth_drv.c ends, whatever the chip shows.
use ohos_l0_adapter.Base.{
  ℕ, ◌+◌, ◌≤◌, ◌≡◌, refl, Bool, Flow, go, returned, fault, ret, continue, ◌>>=◌, length,
}
use ohos_l0_adapter.Lan9118.Device.{Platform, Driver, M, LanError}
use ohos_l0_adapter.Lan9118.Costs.{Within}
use ohos_l0_adapter.Lan9118.Setup.{lan9118_init}
use ohos_l0_adapter.Lan9118.Setup.Bounded.{Costs-lan9118_init}

abbrev IsOver : {R A : Type 0} → Flow R A → Type 0
IsOver (go a) = ⊥
IsOver x = Unit {0}

-- A body that does not go on past its end.
record Over {R A : Type 0} (m : M R A) : Type 0 where
  at : (s : Driver) → IsOver (m s).0

module _ {R : Type 0} where
  Over-ret : {A : Type 0} (x : R) → Over {A = A} (ret x)
  unfolding ret
  Over-ret x = record { at = λ s. tt }

  IsOver-continue :
      {A B : Type 0} (f : A → M R B) (x : Flow R A) (s : Driver)
      → ((a : A) → Over (f a))
      → IsOver (continue x f s).0
  IsOver-continue f (go a) s h = (h a).at s
  IsOver-continue f (returned a) s h = tt
  IsOver-continue f fault s h = tt

  Over-bind : {A B : Type 0} (m : M R A) (f : A → M R B) → ((a : A) → Over (f a)) → Over (m >>= f)
  unfolding ◌>>=◌
  Over-bind m f h = record { at = λ s. let (x, t) = m s in IsOver-continue f x t h }

lan9118_init-Over : (env : Platform) (given? : Bool) → Over (lan9118_init env given?)
unfolding lan9118_init
lan9118_init-Over env given? = search (Over-bind, Over-ret) depth 40

over_within :
    (n : ℕ) (x : Flow LanError LanError) (t : Driver)
    → IsOver x
    → Within n (x, t)
    → (e : LanError) × (x ≡ returned e) × (length t.history ≤ n)
over_within n (go e) t h w = absurd h
over_within n (returned e) t h w = (e, refl, w)
over_within n fault t h w = absurd w

-- Whatever the chip shows, lan9118_init returns an error code or success, after at most 80000 accesses to
-- registers and calls.
pub lan9118_init-ends :
    (env : Platform) (given? : Bool) (s : Driver)
    → let (x, t) = lan9118_init env given? s in
      (e : LanError) × (x ≡ returned e) × (length t.history ≤ length s.history + 80000)
lan9118_init-ends env given? s =
    let (x, t) = lan9118_init env given? s in
    over_within (length s.history + 80000) x t ((lan9118_init-Over env given?).at s)
      ((Costs-lan9118_init env given?).at s)
