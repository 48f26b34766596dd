-- ===== src/Threads/Run.antt =====
-- Histories of the system calls on threads.
use tinykvm.Prelude.{
  ℕ, ◌-◌, ◌%◌, ◌^◌, ◌≤◌, ◌≡◌, refl, ◌∙◌, ◌⊎◌, Bool, true, false, ◌||◌, List, [], ◌∷◌, Option, done,
  throws, ◌>>=◌, ◌==◌, if◌then◌else◌, arith, inl, inr, Bool-cases, Option-cases,
}
use tinykvm.Threads.{
  Regs, Thread, MultiThreading, Result, memory_fault, read, write, suspend_and_yield, exit_call,
  gettid, set_tid_address, futex_wait, futex_wake, futex, clone_thread, set_to_and_suspend_others,
}
use tinykvm.Threads.Balance.{count_threads, count_threads-assign, count-other_tids, IsValid}
use tinykvm.Threads.Yield.{current_lem, get_thread_lem}
use tinykvm.Threads.Steps.{
  fault, futex_op, Keeps, same-IsValid, suspend_and_yield-Keeps, exit-Keeps, write_cases,
}
use tinykvm.Threads.Clone.{clone_thread-Keeps}

-- What the running thread does: it works, on registers and memory, or makes a call.
pub data Call (G : Type 0) : Type 0 where
  works : Regs → G → Call G
  clones : (flags stack ptid ctid tls : ℕ) → Call G
  yields exits asks_tid uses_futex sets_tid_address : Call G

module _ {G : Type 0} (copy_to_guest : G → ℕ → ℕ → Option G) (copy_from_guest : G → ℕ → Option ℕ)
    (uninitialised : Thread) where
  pub set_tid_address-Keeps :
      (m : MultiThreading G)
      → IsValid m
      → Keeps (set_tid_address copy_to_guest copy_from_guest uninitialised m)
  unfolding set_tid_address
  set_tid_address-Keeps m v =
      let (x, found, same) = current_lem m v in
      rw (get_thread_lem m m.current x found, set_tid_address)
        (record {
          balanced = λ t. count_threads-assign t m.threads _ ∙ v.balanced t;
          single = λ t. omega (
            arith,
            v.single t,
            count_threads-assign t m.threads (record x { clear_tid = m.registers.rdi }),
          );
          main = count_threads-assign 1 m.threads _ ∙ v.main;
          fresh = λ t l. count_threads-assign t m.threads _ ∙ v.fresh t l;
        })

  pub gettid-Keeps :
      (m : MultiThreading G)
      → IsValid m
      → Keeps (gettid copy_to_guest copy_from_guest uninitialised m)
  unfolding gettid
  gettid-Keeps m v =
      let (x, found, same) = current_lem m v in
      rw (get_thread_lem m m.current x found, gettid) (same-IsValid m _ refl refl refl refl v)

  pub exit_call-Keeps :
      (m : MultiThreading G)
      → IsValid m
      → Keeps (exit_call copy_to_guest copy_from_guest uninitialised m)
  unfolding exit_call
  exit_call-Keeps m v =
      let (x, found, same) = current_lem m v in
      rw (get_thread_lem m m.current x found, exit_call)
        (elim (Bool-cases (x.tid == 1)) [
          | inl e ↦ rw e v
          | inr e ↦ rw e (
              rw same (
                go _ (
                  exit-Keeps copy_to_guest copy_from_guest uninitialised m v
                    (ground (arith, same, e)))))
        ])
    where
      go : (o : Result G (Unit {0})) → Keeps o → Keeps (o >>= λ (_, m'). done false m')
      go (done a m') k = k
      go (throws e m') k = k

  pub futex_wake-Keeps :
      (m : MultiThreading G)
      → IsValid m
      → Keeps (futex_wake copy_to_guest copy_from_guest uninitialised m)
  unfolding futex_wake
  futex_wake-Keeps m v = go _ (suspend_and_yield-Keeps m 0 v)
    where
      go :
          (o : Result G Bool)
          → Keeps o
          → Keeps (
              o >>= λ (yielded, m₁).
              (if yielded
                then done (tt {0}) m₁
                else done tt (record m₁ { registers = record m₁.registers { rax = 0 } })))
      go (done true m') k = k
      go (done false m') k = same-IsValid m' _ refl refl refl refl k
      go (throws e m') k = k

  unlocked-Keeps :
      (m : MultiThreading G)
      → IsValid m
      → Keeps (
          write copy_to_guest copy_from_guest uninitialised m m.registers.rdi 0 >>= λ (_, m₂).
          done (tt {0}) (record m₂ { registers = record m₂.registers { rax = 0 } }))
  unlocked-Keeps m v =
      elim (write_cases copy_to_guest copy_from_guest uninitialised m true m.registers.rdi 0) [
        | inl (g, e) ↦ rw e (same-IsValid m _ refl refl refl refl v)
        | inr e ↦ rw e fault
      ]

  read_cases :
      (m : MultiThreading G) (addr : ℕ)
      → ((value : ℕ) × (read copy_to_guest copy_from_guest uninitialised m addr ≡ done value m))
        ⊎ (read copy_to_guest copy_from_guest uninitialised m addr ≡ throws memory_fault m)
  unfolding read
  read_cases m addr = elim (Option-cases (copy_from_guest m.guest addr)) [
    | inr (value, e) ↦ inl (value, rw (e, read) refl)
    | inl e ↦ inr (rw (e, read) refl)
  ]

  pub futex_wait-Keeps :
      (m : MultiThreading G)
      → IsValid m
      → Keeps (futex_wait copy_to_guest copy_from_guest uninitialised m)
  unfolding futex_wait
  futex_wait-Keeps m v = elim (read_cases m m.registers.rdi) [
    | inr e ↦ rw (e, futex_wait) fault
    | inl (value, e) ↦ elim (Bool-cases (value == m.registers.rdx % 2 ^ 32)) [
      | inr b ↦ rw (e, futex_wait) (rw b (same-IsValid m _ refl refl refl refl v))
      | inl b ↦ rw (e, futex_wait) (rw b (go _ (suspend_and_yield-Keeps m (2 ^ 64 - 11) v)))
    ]
  ]
    where
      go :
          (o : Result G Bool)
          → Keeps o
          → Keeps (
              o >>= λ (yielded, m₁).
              (if yielded
                then done (tt {0}) m₁
                else (write copy_to_guest copy_from_guest uninitialised m₁ m₁.registers.rdi 0
                    >>= λ (_, m₂).
                        done tt (record m₂ { registers = record m₂.registers { rax = 0 } }))))
      go (done true m') k = k
      go (done false m') k = unlocked-Keeps m' k
      go (throws e m') k = k

  pub futex-Keeps :
      (m : MultiThreading G)
      → IsValid m
      → Keeps (futex copy_to_guest copy_from_guest uninitialised m)
  unfolding futex
  futex-Keeps m v =
      let op : ℕ = m.registers.rsi % 16 in
      elim (Bool-cases ((op == 0) || (op == 9))) [
        | inl e ↦ rw (e, futex) (futex_wait-Keeps m v)
        | inr e ↦ elim (Bool-cases ((op == 1) || (op == 10))) [
          | inl e' ↦ rw (e, futex) (rw e' (futex_wake-Keeps m v))
          | inr e' ↦ rw (e, futex) (rw e' (futex_op op))
        ]
      ]

  -- Whether the machine stops.
  pub step : MultiThreading G → Call G → Result G Bool
  step m (works regs g) = done false (record m { registers = regs; guest = g })
  step m (clones flags stack ptid ctid tls) =
      clone_thread copy_to_guest copy_from_guest uninitialised m flags stack ptid ctid tls
      >>= λ (_, m'). done false m'
  step m yields = suspend_and_yield m 0 >>= λ (_, m'). done false m'
  step m exits = exit_call copy_to_guest copy_from_guest uninitialised m
  step m asks_tid =
      gettid copy_to_guest copy_from_guest uninitialised m >>= λ (_, m'). done false m'
  step m uses_futex =
      futex copy_to_guest copy_from_guest uninitialised m >>= λ (_, m'). done false m'
  step m sets_tid_address =
      set_tid_address copy_to_guest copy_from_guest uninitialised m >>= λ (_, m'). done false m'

  continue-Keeps : {A : Type 0} (o : Result G A) → Keeps o → Keeps (o >>= λ (_, m'). done false m')
  continue-Keeps (done a m') k = k
  continue-Keeps (throws e m') k = k

  step-Keeps : (m : MultiThreading G) (c : Call G) → IsValid m → Keeps (step m c)
  unfolding step
  step-Keeps m (works regs g) v = same-IsValid m _ refl refl refl refl v
  step-Keeps m (clones flags stack ptid ctid tls) v =
      continue-Keeps _ (
        clone_thread-Keeps copy_to_guest copy_from_guest uninitialised m flags stack ptid ctid tls
          v)
  step-Keeps m yields v = continue-Keeps _ (suspend_and_yield-Keeps m 0 v)
  step-Keeps m exits v = exit_call-Keeps m v
  step-Keeps m asks_tid v = continue-Keeps _ (gettid-Keeps m v)
  step-Keeps m uses_futex v = continue-Keeps _ (futex-Keeps m v)
  step-Keeps m sets_tid_address v = continue-Keeps _ (set_tid_address-Keeps m v)

  -- Calls, until the machine stops or one throws.
  pub run : MultiThreading G → List (Call G) → Result G Bool
  run m [] = done false m
  run m (c ∷ cs) =
      step m c >>= λ (stopped, m'). let rest = run m' cs in if stopped then done true m' else rest

  -- Whatever the threads do, with calls in any order, every thread is at any time either the
  -- current one or in the queue, once, and thread 1 is among them; a call that throws does so for a
  -- fault of guest memory or an unknown futex operation, and never for a pointer to a thread that is
  -- gone, a failed assertion, or nobody left to run.
  pub run_threads-IsValid :
      (m : MultiThreading G) (cs : List (Call G)) → IsValid m → Keeps (run m cs)
  unfolding run
  run_threads-IsValid m [] v = v
  run_threads-IsValid m (c ∷ cs) v =
      go (step m c) (step-Keeps m c v) (λ m' v'. run_threads-IsValid m' cs v')
    where
      go :
          (o : Result G Bool)
          → Keeps o
          → ((m' : MultiThreading G) → IsValid m' → Keeps (run m' cs))
          → Keeps (o >>= λ (stopped, m'). if stopped then done true m' else run m' cs)
      go (done true m') k rest = k
      go (done false m') k rest = rest m' k
      go (throws e m') k rest = k

-- A thread of the map goes on and all others are queued, in the order of their tids: every thread
-- is again either current or queued, once.
pub set_to_and_suspend_others-IsValid :
    {G : Type 0} (m : MultiThreading G) (t : ℕ)
    → IsValid m
    → 1 ≤ count_threads t m.threads
    → IsValid (set_to_and_suspend_others m t)
unfolding set_to_and_suspend_others
set_to_and_suspend_others-IsValid m t v there = record {
  balanced = λ u. ground (arith, v.single u, there, count-other_tids u t m.threads);
  single = v.single;
  main = v.main;
  fresh = v.fresh;
}
