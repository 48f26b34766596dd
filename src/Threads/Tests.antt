-- ===== src/Threads/Tests.antt =====
-- Three threads, and the theorems at concrete inputs.
use tinykvm.Prelude.{
  ℕ, ◌+◌, ◌≡◌, refl, Bool, List, [], ◌∷◌, Option, some, arith, done, throws, ◌==◌, if◌then◌else◌,
}
use tinykvm.Prelude.Outcome.{Outcome}
use tinykvm.Threads.{
  Regs, Thread, MultiThreading, ThreadError, suspend_and_yield, suspend, get_thread, wakeup_next,
  resume, find_thread, assign, set_to_and_suspend_others,
}
use tinykvm.Threads.Balance.{IsValid}
use tinykvm.Threads.Turns.{Runs, turns, turns-Runs}
use tinykvm.Threads.Steps.{Keeps}
use tinykvm.Threads.Run.{
  Call, works, clones, yields, exits, asks_tid, uses_futex, sets_tid_address, run,
  run_threads-IsValid, set_to_and_suspend_others-IsValid,
}

-- Registers with a number in them.
abbrev regs : ℕ → Regs
regs n = record {
  rax = n;
  rbx = 0;
  rcx = 0;
  rdx = 0;
  rsi = 0;
  rdi = 0;
  rsp = n + 0x1000;
  rbp = 0;
  r8 = 0;
  r9 = 0;
  r10 = 0;
  r11 = 0;
  r12 = 0;
  r13 = 0;
  r14 = 0;
  r15 = 0;
  rip = 0;
  rflags = 0;
}

abbrev thread : ℕ → Thread
thread t = record { tid = t; stored_regs = regs t; fsbase = t; clear_tid = 0 }

-- Memory by words, which never faults.
abbrev Words : Type 0
Words = ℕ → ℕ

abbrev put : Words → ℕ → ℕ → Option Words
put w addr value = some (λ a. if a == addr then value else w a)

abbrev at : Words → ℕ → Option ℕ
at w addr = some (w addr)

abbrev three : MultiThreading Words
three = record {
  threads = thread 1 ∷ thread 2 ∷ thread 3 ∷ [];
  suspended = 3 ∷ 1 ∷ [];
  current = 2;
  thread_counter = 3;
  registers = regs 20;
  tls_base = 2;
  guest = λ a. 0;
}

three-IsValid : IsValid three
three-IsValid = record {
  balanced = λ t. ground arith;
  single = λ t. ground arith;
  main = refl;
  fresh = λ t l. ground arith;
}

abbrev current_after : Outcome ThreadError (MultiThreading Words) Bool → ℕ
current_after (done b m) = m.current
current_after (throws e m) = 0

third_runs : current_after (suspend_and_yield three 0) ≡ 3
unfolding suspend_and_yield suspend get_thread wakeup_next resume find_thread assign
third_runs = refl

abbrev history : List (Call Words)
history =
    clones 0x300000 0x5000 0x100 0x200 7
    ∷ works (regs 4) (λ a. a)
    ∷ uses_futex
    ∷ asks_tid
    ∷ yields
    ∷ sets_tid_address
    ∷ exits
    ∷ []

run_threads-IsValid_example : Keeps (run put at (thread 0) three history)
run_threads-IsValid_example = run_threads-IsValid put at (thread 0) three history three-IsValid

first_found : find_thread three.threads 1 ≡ some (thread 1)
unfolding find_thread
first_found = refl

turns-Runs_example :
    (m : MultiThreading Words) × (turns three (regs 5 ∷ regs 6 ∷ []) ≡ done tt m)
    × Runs 1 (thread 1) m
turns-Runs_example =
    turns-Runs three (3 ∷ []) [] 1 (thread 1) (regs 5 ∷ regs 6 ∷ []) three-IsValid refl first_found
      refl

set_to_and_suspend_others-IsValid_example : IsValid (set_to_and_suspend_others three 3)
set_to_and_suspend_others-IsValid_example =
    set_to_and_suspend_others-IsValid three 3 three-IsValid (omega arith)
