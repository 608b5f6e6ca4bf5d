-- ===== src/Wifi/Service/Balance.antt =====
-- How often the service holds its mutexes, counted from the history of its calls, and one rule for
-- each way to build a function body.
use ohos_l0_adapter.Base.{
  ℕ, ℤ, suc, ◌+◌, ◌-◌, [], ◌∷◌, Bool, true, false, not, ◌&&◌, ◌≤◌, ◌≡◌, refl, is_zero,
  if◌then◌else◌, modify, ◌>>=◌, arith, Goes, Goes-bind, Goes-modify, goes_rules,
}
use ohos_l0_adapter.Wifi.Types.{Lock, Call, global, event, acquire, release}
use ohos_l0_adapter.Wifi.Service.{
  History, Service, Platform, M, call, lock, unlock, lock_or_return, unlock_or_return,
}

abbrev pub same_lock : Lock → Lock → Bool
same_lock global global = true
same_lock event event = true
same_lock _ _ = false

-- How often the mutex is held: the acquisitions that succeeded less the releases that did. A release that
-- fails leaves the mutex held.
abbrev pub depth : Lock → History → ℕ
depth l [] = 0
depth l ((acquire k, code) ∷ h) =
    let d = depth l h in if same_lock l k && is_zero code then suc d else d
depth l ((release k, code) ∷ h) =
    let d = depth l h in if same_lock l k && is_zero code then d - 1 else d
depth l (e ∷ h) = depth l h

-- The releases that failed.
abbrev pub failed : Lock → History → ℕ
failed l [] = 0
failed l ((release k, code) ∷ h) =
    let n = failed l h in if same_lock l k && not (is_zero code) then suc n else n
failed l (e ∷ h) = failed l h

abbrev pub is_lock_call : Call → Bool
is_lock_call (acquire l) = true
is_lock_call (release l) = true
is_lock_call _ = false

-- Both mutexes were created.
pub record IsReady (s : Service) : Type 0 where
  pub global_created : is_zero s.global_lock ≡ false
  pub event_created : is_zero s.event_lock ≡ false

-- Which mutex the body holds at a point, beyond what its caller holds.
pub data Holding : Type 0 where
  nothing holds_global holds_event : Holding

abbrev pub extra : Holding → Lock → ℕ
extra holds_global global = 1
extra holds_event event = 1
extra _ _ = 0

-- Behind the history `before`, the mutex is held once more for each release that has failed since, and
-- `n` times more.
pub record Since (before : History) (l : Lock) (n : ℕ) (h : History) : Type 0 where
  pub more : depth l h + failed l before ≡ n + (depth l before + failed l h)
  pub grows : failed l before ≤ failed l h

-- The caller's own count is that of `base`.
pub record Held (base : History) (k : Holding) (s : Service) : Type 0 where
  pub ready : IsReady s
  pub at_global : Since base global (extra k global) s.history
  pub at_event : Since base event (extra k event) s.history

Since-cons :
    (base : History) (l : Lock) (n : ℕ) (c : Call) (code : ℤ) (h : History)
    → is_lock_call c ≡ false
    → Since base l n h
    → Since base l n ((c, code) ∷ h)
Since-cons base l n (acquire k) code h e same = cc
Since-cons base l n (release k) code h e same = cc
Since-cons base l n c code h e same = record { more = same.more; grows = same.grows }

-- A body that holds what its caller holds when it ends, wherever it ends; `F` is what a fault
-- implies.
abbrev pub Balanced : {R A : Type 0} → Type 0 → M R A → Type 0
Balanced F m = (base : History) → Goes (Held base) F nothing nothing m nothing

module _ {base : History} {F : Type 0} where
  -- A call that is no mutex call leaves the counts alone.
  pub Held-call :
      {R : Type 0} {r i : Holding} (p : Platform) (c : Call)
      → is_lock_call c ≡ false
      → Goes {R = R} (Held base) F r i (call p c) i
  unfolding call
  Held-call p c e = record {
    at = λ s h. record {
      ready = record {
        global_created = h.ready.global_created;
        event_created = h.ready.event_created;
      };
      at_global = Since-cons base global _ c (p.reply s.history c) s.history e h.at_global;
      at_event = Since-cons base event _ c (p.reply s.history c) s.history e h.at_event;
    };
  }

  -- An assignment to a variable that is neither a lock nor the history.
  pub Held-modify :
      {R : Type 0} {r i : Holding} (f : Service → Service)
      → ((s : Service) → (f s).history ≡ s.history)
      → ((s : Service) → (f s).global_lock ≡ s.global_lock)
      → ((s : Service) → (f s).event_lock ≡ s.event_lock)
      → Goes {R = R} (Held base) F r i (modify f) i
  Held-modify f eh eg ee = Goes-modify f λ s h. record {
    ready = record {
      global_created = rw (eg s) h.ready.global_created;
      event_created = rw (ee s) h.ready.event_created;
    };
    at_global = rw (eh s) h.at_global;
    at_event = rw (eh s) h.at_event;
  }

  module _ {R : Type 0} (p : Platform) (x : R) where
    pub Held-lock_global :
        Goes {R = R} (Held base) F nothing nothing (lock_or_return p global x) holds_global
    unfolding lock_or_return lock call ◌>>=◌
    Held-lock_global = record { at = λ s h. ground arith }

    pub Held-lock_event :
        Goes {R = R} (Held base) F nothing nothing (lock_or_return p event x) holds_event
    unfolding lock_or_return lock call ◌>>=◌
    Held-lock_event = record { at = λ s h. ground arith }

    pub Held-unlock_global :
        Goes {R = R} (Held base) F nothing holds_global (unlock_or_return p global x) nothing
    unfolding unlock_or_return unlock call ◌>>=◌
    Held-unlock_global = record { at = λ s h. ground arith }

    pub Held-unlock_event :
        Goes {R = R} (Held base) F nothing holds_event (unlock_or_return p event x) nothing
    unfolding unlock_or_return unlock call ◌>>=◌
    Held-unlock_event = record { at = λ s h. ground arith }

  module _ {A : Type 0} {k : Holding} {R : Type 0} (p : Platform) (x : R)
      (f : Unit {0} → M R A) where
    pub Held-lock_global_seq :
        ((a : Unit {0}) → Goes (Held base) F nothing holds_global (f a) k)
        → Goes (Held base) F nothing nothing (lock_or_return p global x >>= f) k
    Held-lock_global_seq h = Goes-bind _ f (Held-lock_global p x) h

    pub Held-lock_event_seq :
        ((a : Unit {0}) → Goes (Held base) F nothing holds_event (f a) k)
        → Goes (Held base) F nothing nothing (lock_or_return p event x >>= f) k
    Held-lock_event_seq h = Goes-bind _ f (Held-lock_event p x) h

    pub Held-unlock_global_seq :
        ((a : Unit {0}) → Goes (Held base) F nothing nothing (f a) k)
        → Goes (Held base) F nothing holds_global (unlock_or_return p global x >>= f) k
    Held-unlock_global_seq h = Goes-bind _ f (Held-unlock_global p x) h

    pub Held-unlock_event_seq :
        ((a : Unit {0}) → Goes (Held base) F nothing nothing (f a) k)
        → Goes (Held base) F nothing holds_event (unlock_or_return p event x >>= f) k
    Held-unlock_event_seq h = Goes-bind _ f (Held-unlock_event p x) h

-- The rules that are applied by the form of a body.
pub ruleset balance_rules = (
  Held-lock_global_seq, Held-lock_event_seq, Held-unlock_global_seq, Held-unlock_event_seq,
  Held-call, Held-modify, Held-lock_global, Held-lock_event, Held-unlock_global, Held-unlock_event,
  goes_rules,
)
