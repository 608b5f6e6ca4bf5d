-- ===== src/Base/Reason.antt =====
-- A program logic for function bodies. A family `P` of state predicates names the points of a body:
-- `Goes P F r i m k` says that `m`, begun where `P i` holds, goes on where `P k` holds or returns
-- where `P r` holds; `F` is what a fault must imply, ⊥ where there is to be none.
use mathlib.Core.Path.{◌≡◌, refl, sym, ap, subst}
use mathlib.Core.Bool.{Bool, true, false}
use ohos_l0_adapter.Base.Body.{
  Flow, go, returned, fault, Proc, pure, ret, gets, modify, when, branch, invoke, caught, continue,
  ◌>>=◌,
}

module _ {S I : Type 0} where
  abbrev pub Ends : {R A : Type 0} → (I → S → Type 0) → Type 0 → I → I → Flow R A × S → Type 0
  Ends P F r k (go a, s) = P k s
  Ends P F r k (returned x, s) = P r s
  Ends P F r k (fault, s) = F

  pub record Goes {R A : Type 0} (P : I → S → Type 0) (F : Type 0) (r i : I) (m : Proc S R A)
      (k : I) : Type 0 where
    pub at : (s : S) → P i s → Ends P F r k (m s)

returned_or : {R A : Type 0} → R → Flow R A → R
returned_or d (returned x) = x
returned_or d _ = d

returned-injective : {R A : Type 0} {x y : R} → ◌≡◌ {A = Flow R A} (returned x) (returned y) → x ≡ y
unfolding returned_or
returned-injective {x = x} e = ap (returned_or x) e

Ends-caught :
    {S I : Type 0} (R : Type 0) (P : I → S → Type 0) (F : Type 0) (r : I) {A : Type 0} (k : I)
    (x : Flow A A) (s : S)
    → Ends P F k k (x, s)
    → Ends {R = R} P F r k (caught x, s)
Ends-caught R P F r k (go a) s e = e
Ends-caught R P F r k (returned a) s e = e
Ends-caught R P F r k fault s e = e

Ends-continue :
    {S I R A B : Type 0} {j : I} (P : I → S → Type 0) (F : Type 0) (r k : I) (f : A → Proc S R B)
    → ((a : A) → Goes P F r j (f a) k)
    → (x : Flow R A) (s : S) → Ends P F r j (x, s)
    → Ends P F r k (continue x f s)
Ends-continue P F r k f hf (go a) s e = (hf a).at s e
Ends-continue P F r k f hf (returned y) s e = e
Ends-continue P F r k f hf fault s e = e

Ends-value :
    {S I R A B : Type 0} {v : A} (P : I → S → Type 0) (F : Type 0) (r k j : I) (f : A → Proc S R B)
    → Goes P F r j (f v) k
    → (x : Flow A A) (s : S) → x ≡ returned v
    → Ends P F j j (x, s)
    → Ends P F r k (continue (caught x) f s)
Ends-value P F r k j f hf (go a) s e h = cc
Ends-value P F r k j f hf (returned a) s e h =
    subst (λ b. Ends P F r k (f b s)) (sym (returned-injective e)) (hf.at s h)
Ends-value P F r k j f hf fault s e h = cc

module _ {S I R : Type 0} {P : I → S → Type 0} {F : Type 0} {r : I} where
  pub Goes-pure : {A : Type 0} {i : I} (a : A) → Goes {R = R} P F r i (pure a) i
  unfolding pure
  Goes-pure a = record { at = λ s h. h }

  pub Goes-ret : {A : Type 0} {k : I} (x : R) → Goes {A = A} P F r r (ret x) k
  unfolding ret
  Goes-ret x = record { at = λ s h. h }

  pub Goes-gets : {A : Type 0} {i : I} (f : S → A) → Goes {R = R} P F r i (gets f) i
  unfolding gets
  Goes-gets f = record { at = λ s h. h }

  pub Goes-modify :
      {i k : I} (f : S → S) → ((s : S) → P i s → P k (f s)) → Goes {R = R} P F r i (modify f) k
  unfolding modify
  Goes-modify f h = record { at = h }

  pub Goes-when :
      {i : I} (b : Bool) (m : Proc S R (Unit {0})) → Goes P F r i m i → Goes P F r i (when b m) i
  unfolding when
  Goes-when true m h = record { at = h.at }
  Goes-when false m h = record { at = λ s h. h }

  -- A test that is known to fail.
  pub Goes-skip :
      {i : I} (b : Bool) (m : Proc S R (Unit {0})) → b ≡ false → Goes P F r i (when b m) i
  unfolding when
  Goes-skip true m e = cc
  Goes-skip false m e = record { at = λ s h. h }

  pub Goes-branch :
      {A : Type 0} {i k : I} (b : Bool) (m n : Proc S R A)
      → Goes P F r i m k
      → Goes P F r i n k
      → Goes P F r i (branch b m n) k
  unfolding branch
  Goes-branch true m n hm hn = record { at = hm.at }
  Goes-branch false m n hm hn = record { at = hn.at }

  pub Goes-invoke :
      {A : Type 0} {i k : I} (f : Proc S A A) → Goes P F k i f k → Goes {R = R} P F r i (invoke f) k
  unfolding invoke
  Goes-invoke {k = k} f h = record {
    at = λ s hs. let (x, s') = f s in Ends-caught R P F r k x s' (h.at s hs);
  }

  pub Goes-bind :
      {A B : Type 0} {i j k : I} (m : Proc S R A) (f : A → Proc S R B)
      → Goes P F r i m j
      → ((a : A) → Goes P F r j (f a) k)
      → Goes P F r i (m >>= f) k
  unfolding ◌>>=◌
  Goes-bind {k = k} m f hm hf = record {
    at = λ s hs. let (x, s') = m s in Ends-continue P F r k f hf x s' (hm.at s hs);
  }

  -- The same where the point does not change, for `search`.
  pub Goes-seq :
      {A B : Type 0} {i k : I} (m : Proc S R A) (f : A → Proc S R B)
      → Goes P F r i m i
      → ((a : A) → Goes P F r i (f a) k)
      → Goes P F r i (m >>= f) k
  Goes-seq m f hm hf = Goes-bind m f hm hf

  -- A called function that always returns `v`: the rest is needed at `v` alone.
  pub Goes-invoke_value :
      {A B : Type 0} {i j k : I} (m : Proc S A A) (v : A) (f : A → Proc S R B)
      → ((s : S) → P i s → (m s).0 ≡ returned v)
      → Goes P F j i m j
      → Goes P F r j (f v) k
      → Goes P F r i (invoke m >>= f) k
  unfolding ◌>>=◌
  Goes-invoke_value {j = j} {k = k} m v f e hm hf = record {
    at = λ s hs. let (x, s') = m s in Ends-value P F r k j f hf x s' (e s hs) (hm.at s hs);
  }

  -- A test that ends the function or establishes what the rest needs.
  pub Goes-guard :
      {i k : I} (b : Bool) (m : Proc S R (Unit {0}))
      → Goes P F r i m k
      → ((s : S) → b ≡ false → P i s → P k s)
      → Goes P F r i (when b m) k
  unfolding when
  Goes-guard true m h e = record { at = h.at }
  Goes-guard false m h e = record { at = λ s. e s refl }

pub ruleset goes_rules =
    (Goes-seq, Goes-ret, Goes-pure, Goes-gets, Goes-when, Goes-branch, Goes-invoke)
