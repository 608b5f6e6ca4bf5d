-- ===== src/Wifi/Dispatch/Rules.antt =====
-- Rules for the parts of the event path of wifi_device.c, over any points `P`.
use ohos_l0_adapter.Base.{
  ℕ, ℤ, pos, negsuc, List, [], ◌∷◌, Option, none, some, undefined, Goes, Goes-pure, Goes-seq,
  Goes-gets, Goes-invoke,
}
use ohos_l0_adapter.Wifi.Service.{Service, Fn}
use ohos_l0_adapter.Wifi.Dispatch.{for_each_handler, deref, config_at}

-- A loop over the listeners keeps what each listener's turn keeps.
pub Goes-for_each_handler :
    {I R : Type 0} {P : I → Service → Type 0} {F : Type 0} {r k : I} (f : ℕ → Fn (Unit {0}))
    (slots : List (Option ℕ))
    → ((h : ℕ) → Goes P F k k (f h) k)
    → Goes {R = R} P F r k (for_each_handler f slots) k
unfolding for_each_handler
Goes-for_each_handler f [] hf = Goes-pure tt
Goes-for_each_handler f (none ∷ slots) hf = Goes-for_each_handler f slots hf
Goes-for_each_handler f (some h ∷ slots) hf =
    Goes-seq _ _ (Goes-invoke (f h) (hf h)) (λ _. Goes-for_each_handler f slots hf)

Goes-undefined :
    {I R A : Type 0} {P : I → Service → Type 0} {r i k : I}
    → Goes {R = R} {A = A} P (Unit {0}) r i undefined k
unfolding undefined
Goes-undefined = record { at = λ s h. tt }

-- A pointer that may be NULL, where a fault is allowed.
pub Goes-deref :
    {I R A : Type 0} {P : I → Service → Type 0} {r i : I} (o : Option A)
    → Goes {R = R} P (Unit {0}) r i (deref o) i
unfolding deref
Goes-deref none = Goes-undefined
Goes-deref (some a) = Goes-pure a

-- A read of the array of networks, where a fault is allowed.
pub Goes-config_at :
    {I R : Type 0} {P : I → Service → Type 0} {r k : I} (i : ℤ)
    → Goes {R = R} P (Unit {0}) r k (config_at i) k
unfolding config_at
Goes-config_at (pos i) = Goes-seq _ _ (Goes-gets _) (λ c. Goes-deref c)
Goes-config_at (negsuc i) = Goes-undefined
