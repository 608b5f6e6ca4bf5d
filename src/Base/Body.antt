-- ===== src/Base/Body.antt =====
-- A C function body over a state: it goes on with a value, returns early, or meets undefined
-- behaviour (a NULL dereference or an access outside an array).
use mathlib.Core.Bool.{Bool, true, false}

pub data Flow (R A : Type 0) : Type 0 where
  go : A → Flow R A
  returned : R → Flow R A
  fault : Flow R A

abbrev pub Proc : Type 0 → Type 0 → Type 0 → Type 0
Proc S R A = S → Flow R A × S

-- How the end of a called function's body looks to its caller.
abbrev pub caught : {R A : Type 0} → Flow A A → Flow R A
caught (go a) = go a
caught (returned a) = go a
caught fault = fault

module _ {S R : Type 0} where
  unfoldable pub pure : {A : Type 0} → A → Proc S R A
  pure a s = (go a, s)

  -- `return r;`
  unfoldable pub ret : {A : Type 0} → R → Proc S R A
  ret r s = (returned r, s)

  unfoldable pub undefined : {A : Type 0} → Proc S R A
  undefined s = (fault, s)

  unfoldable pub gets : {A : Type 0} → (S → A) → Proc S R A
  gets f s = (go (f s), s)

  unfoldable pub modify : (S → S) → Proc S R (Unit {0})
  modify f s = (go tt, f s)

  -- `if (c) { body }`
  unfoldable pub when : Bool → Proc S R (Unit {0}) → Proc S R (Unit {0})
  when true p s = p s
  when false p s = (go tt, s)

  -- `if (c) { p } else { q }`
  unfoldable pub branch : {A : Type 0} → Bool → Proc S R A → Proc S R A → Proc S R A
  branch true p q s = p s
  branch false p q s = q s

  -- A call of another function: its `return` ends it and not the caller.
  unfoldable pub invoke : {A : Type 0} → Proc S A A → Proc S R A
  invoke f s = let (r, s') = f s in (caught r, s')

  abbrev pub continue : {A B : Type 0} → Flow R A → (A → Proc S R B) → Proc S R B
  continue (go a) f s = f a s
  continue (returned x) f s = (returned x, s)
  continue fault f s = (fault, s)

  infixl 5 ◌>>=◌ ◌>>◌
  -- Opening this opens the other parts of a body too.
  unfoldable pub ◌>>=◌ : {A B : Type 0} → Proc S R A → (A → Proc S R B) → Proc S R B
  unfolding pure ret undefined gets modify when branch invoke
  ◌>>=◌ m f s = let (r, s') = m s in continue r f s'

  abbrev pub ◌>>◌ : {A B : Type 0} → Proc S R A → Proc S R B → Proc S R B
  m >> k = m >>= λ _. k
