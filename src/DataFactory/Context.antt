-- ===== src/DataFactory/Context.antt =====
-- Runs in the monad that acquire and release the context of sysrepo a known number of times.
use onm_cli.Base.{ℕ, ◌+◌, ◌≡◌, Bool, true, false, Option, none, some, arith, if◌then◌else◌}
use onm_cli.State.{State, M, pure, ◌>>=◌}

module _ {W A : Type 0} where
  -- A run from `s` that has a result acquires the context `a` times and releases it `r` times.
  abbrev pub Gives : ℕ → ℕ → State W → Option (A × State W) → Type 0
  Gives a r s none = Unit
  Gives a r s (some (x, s')) = (s'.acquired ≡ s.acquired + a) × (s'.released ≡ s.released + r)

  abbrev pub Adds : ℕ → ℕ → M W A → Type 0
  Adds a r m = (s : State W) → Gives a r s (m s)

  pub Gives-more :
      (a r b q : ℕ) (s t : State W) (o : Option (A × State W))
      → t.acquired ≡ s.acquired + a
      → t.released ≡ s.released + r
      → Gives b q t o
      → Gives (a + b) (r + q) s o
  Gives-more a r b q s t none e f g = tt
  Gives-more a r b q s t (some (x, u)) e f (g, h) = (omega arith, omega arith)

  pub Adds-if :
      (a r : ℕ) (b : Bool) (m k : M W A) → Adds a r m → Adds a r k → Adds a r (if b then m else k)
  Adds-if a r true m k h i = h
  Adds-if a r false m k h i = i

  pub Adds-pure : (x : A) → Adds 0 0 (pure x)
  Adds-pure x s = (omega arith, omega arith)

module _ {W A B : Type 0} where
  pub Adds-bind :
      (a r b q : ℕ) (m : M W A) (f : A → M W B)
      → Adds a r m
      → ((x : A) → Adds b q (f x))
      → Adds (a + b) (r + q) (m >>= f)
  Adds-bind a r b q m f h k s = from (m s) (h s)
    where
      from :
          (o : Option (A × State W))
          → Gives a r s o
          → Gives (a + b) (r + q) s (elim o [ none ↦ none | some (x, t) ↦ f x t ])
      from none g = tt
      from (some (x, t)) (e, g) = Gives-more a r b q s t (f x t) e g (k x t)
