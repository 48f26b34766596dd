-- ===== src/Threads/Turns.antt =====
-- Threads that yield to each other, with any registers at each call.
use mathlib.Core.List.{append_assoc}
use tinykvm.Prelude.{
  ℕ, ◌+◌, ◌≡◌, ◌≢◌, refl, ◌∙◌, List, [], ◌∷◌, ◌++◌, some, done, ◌>>=◌, arith, length,
}
use tinykvm.Threads.{Regs, Thread, MultiThreading, Result, find_thread, suspend_and_yield}
use tinykvm.Threads.Balance.{count-append, IsValid}
use tinykvm.Threads.Yield.{suspend_and_yield-Yielded}

module _ {G : Type 0} where
  -- Each thread that runs works until its registers are the given ones, and yields.
  pub turns : MultiThreading G → List Regs → Result G (Unit {0})
  turns m [] = done tt m
  turns m (r ∷ rs) = suspend_and_yield (record m { registers = r }) 0 >>= λ (_, m'). turns m' rs

  pub record Runs (t : ℕ) (y : Thread) (m' : MultiThreading G) : Type 0 where
    pub valid : IsValid m'
    pub current : m'.current ≡ t
    pub registers : m'.registers ≡ y.stored_regs
    pub tls_base : m'.tls_base ≡ y.fsbase

  worked-IsValid :
      (m : MultiThreading G) (r : Regs) → IsValid m → IsValid (record m { registers = r })
  worked-IsValid m r v = record {
    balanced = v.balanced;
    single = v.single;
    main = v.main;
    fresh = v.fresh;
  }

  -- The queue is fair: a suspended thread with n threads before it runs after n + 1 yields, whatever
  -- registers the threads that ran had when they yielded, with the registers and the TLS base that
  -- it was suspended with. None of these calls throws, and every thread is still current or queued.
  pub turns-Runs :
      (m : MultiThreading G) (before after : List ℕ) (t : ℕ) (y : Thread) (rs : List Regs)
      → IsValid m
      → m.suspended ≡ before ++ (t ∷ after)
      → find_thread m.threads t ≡ some y
      → length rs ≡ length before + 1
      → (m' : MultiThreading G) × (turns m rs ≡ done tt m') × Runs t y m'
  unfolding turns
  turns-Runs m before after t y [] v queue found long = absurd (omega (arith, long))
  turns-Runs m [] after t y (r ∷ q ∷ rs) v queue found long = absurd (omega (arith, long))
  turns-Runs m [] after t y (r ∷ []) v queue found long =
      let (m', run, o) =
        suspend_and_yield-Yielded (record m { registers = r }) 0 t after (worked-IsValid m r v)
          queue in
      let restored = o.restored y found in
      (
        m',
        rw run refl,
        record { valid = o.valid; current = o.runs; registers = restored.0; tls_base = restored.1 },
      )
  turns-Runs m (b ∷ before) after t y (r ∷ rs) v queue found long =
      let (m₁, run, o) =
        suspend_and_yield-Yielded (record m { registers = r }) 0 b (before ++ (t ∷ after))
          (worked-IsValid m r v) queue in
      let ne : t ≢ m.current = λ e.
        ground (arith, v.balanced t, v.single t, queue, e, count-append t before (t ∷ after)) in
      let (m', run', there) =
        turns-Runs m₁ before (after ++ (m.current ∷ [])) t y rs o.valid
          (o.queue ∙ append_assoc before (t ∷ after) (m.current ∷ [])) (o.others t ne ∙ found)
          (omega (arith, long)) in
      (m', rw run run', there)
