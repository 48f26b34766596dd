-- ===== src/Threads.antt =====
-- The guest's threads: MultiThreading and Thread of lib/tinykvm/linux/threads.cpp and threads.hpp.
-- A pointer to a thread is its tid, and dangles where the map of threads has no such tid. Guest
-- memory is a parameter, with the reads and writes of 32-bit words that may fault; so is what the
-- constructor of a thread leaves uninitialised. A tid is an int that does not overflow.
use tinykvm.Prelude.{
  ℕ, ◌+◌, ◌-◌, ◌*◌, ◌/◌, ◌%◌, ◌^◌, Bool, true, false, not, ◌&&◌, ◌||◌, List, [], ◌∷◌, ◌++◌, Option,
  none, some, done, throws, ◌>>=◌, ltb, ◌==◌, if◌then◌else◌,
}
use tinykvm.Prelude.Outcome.{Outcome}
pub mod Balance
pub mod Yield
pub mod Turns
pub mod Steps
pub mod Clone
pub mod Run
mod Tests

-- tinykvm_x86regs.
pub record Regs : Type 0 where
  pub rax : ℕ
  pub rbx : ℕ
  pub rcx : ℕ
  pub rdx : ℕ
  pub rsi : ℕ
  pub rdi : ℕ
  pub rsp : ℕ
  pub rbp : ℕ
  pub r8 : ℕ
  pub r9 : ℕ
  pub r10 : ℕ
  pub r11 : ℕ
  pub r12 : ℕ
  pub r13 : ℕ
  pub r14 : ℕ
  pub r15 : ℕ
  pub rip : ℕ
  pub rflags : ℕ

pub record Thread : Type 0 where
  pub tid : ℕ
  pub stored_regs : Regs
  pub fsbase : ℕ
  pub clear_tid : ℕ

-- MultiThreading, with the registers, FS base and memory of the machine that it acts on.
pub record MultiThreading (G : Type 0) : Type 0 where
  pub threads : List Thread
  pub suspended : List ℕ
  pub current : ℕ
  pub thread_counter : ℕ
  pub registers : Regs
  pub tls_base : ℕ
  pub guest : G

pub data ThreadError : Type 0 where
  dangling_thread assertion memory_fault : ThreadError
  unimplemented_futex_op : ℕ → ThreadError

abbrev pub Result : Type 0 → Type 0 → Type 0
Result G A = Outcome ThreadError (MultiThreading G) A

-- std::map<int, Thread>, in the order of the tids.
unfoldable pub find_thread : List Thread → ℕ → Option Thread
find_thread [] t = none
find_thread (x ∷ xs) t = if x.tid == t then some x else find_thread xs t

unfoldable pub emplace : List Thread → Thread → List Thread
emplace [] t = t ∷ []
emplace (x ∷ xs) t =
    let rest = emplace xs t in
    if ltb t.tid x.tid then t ∷ x ∷ xs else if t.tid == x.tid then x ∷ xs else x ∷ rest

unfoldable pub assign : List Thread → Thread → List Thread
assign [] t = []
assign (x ∷ xs) t = (if x.tid == t.tid then t else x) ∷ assign xs t

unfoldable pub erase : List Thread → ℕ → List Thread
erase [] t = []
erase (x ∷ xs) t = if x.tid == t then xs else x ∷ erase xs t

-- The tids but one, in order.
unfoldable pub other_tids : List Thread → ℕ → List ℕ
other_tids [] t = []
other_tids (x ∷ xs) t = if x.tid == t then other_tids xs t else x.tid ∷ other_tids xs t

module _ {G : Type 0} where
  unfoldable pub get_thread : MultiThreading G → ℕ → Result G Thread
  get_thread m t = elim (find_thread m.threads t) [
    | some x ↦ done x m
    | none ↦ throws dangling_thread m
  ]

  unfoldable pub suspend : MultiThreading G → ℕ → ℕ → Result G (Unit {0})
  suspend m t return_value = do
    (x, m) ← get_thread m t
    let x' = record x {
      stored_regs = record m.registers { rax = return_value };
      fsbase = m.tls_base;
    }
    done tt (record m { threads = assign m.threads x'; suspended = m.suspended ++ (t ∷ []) })

  -- Thread::activate: the registers to go on with.
  unfoldable pub activate : MultiThreading G → ℕ → Result G Regs
  activate m t = do
    (x, m) ← get_thread m t
    done (record m.registers { rsp = x.stored_regs.rsp })
        (record m { current = t; tls_base = x.fsbase })

  unfoldable pub resume : MultiThreading G → ℕ → Result G (Unit {0})
  resume m t = do
    (x, m) ← get_thread m t
    done tt (record m { current = t; registers = x.stored_regs; tls_base = x.fsbase })

  unfoldable pub wakeup_next : MultiThreading G → Result G (Unit {0})
  wakeup_next m = elim m.suspended [
    | [] ↦ throws assertion m
    | next ∷ rest ↦ resume (record m { suspended = rest }) next
  ]

  unfoldable pub suspend_and_yield : MultiThreading G → ℕ → Result G Bool
  suspend_and_yield m result = do
    (x, m) ← get_thread m m.current
    elim m.suspended [
      | [] ↦ done false m
      | _ ∷ _ ↦ (do (_, m₁) ← suspend m x.tid result; (_, m₂) ← wakeup_next m₁; done true m₂)
    ]

  unfoldable pub erase_thread : MultiThreading G → ℕ → Result G (Unit {0})
  erase_thread m t = elim (find_thread m.threads t) [
    | some _ ↦ done tt (record m { threads = erase m.threads t })
    | none ↦ throws assertion m
  ]

  unfoldable pub reset_to : MultiThreading G → MultiThreading G → MultiThreading G
  reset_to m other =
      let tls = if other.current == m.current then m.tls_base else other.tls_base in
      record m {
        threads = other.threads;
        suspended = other.suspended;
        current = other.current;
        thread_counter = other.thread_counter;
        tls_base = tls;
      }

  unfoldable pub set_to_and_suspend_others : MultiThreading G → ℕ → MultiThreading G
  set_to_and_suspend_others m t = record m { suspended = other_tids m.threads t; current = t }

  module _ (copy_to_guest : G → ℕ → ℕ → Option G) (copy_from_guest : G → ℕ → Option ℕ)
      (uninitialised : Thread) where
    unfoldable pub write : MultiThreading G → ℕ → ℕ → Result G (Unit {0})
    write m addr value = elim (copy_to_guest m.guest addr value) [
      | some g ↦ done tt (record m { guest = g })
      | none ↦ throws memory_fault m
    ]

    unfoldable pub read : MultiThreading G → ℕ → Result G ℕ
    read m addr = elim (copy_from_guest m.guest addr) [
      | some value ↦ done value m
      | none ↦ throws memory_fault m
    ]

    unfoldable pub exit : MultiThreading G → ℕ → Result G (Unit {0})
    exit m t = do
      (me, m) ← get_thread m m.current
      (x, m) ← get_thread m t
      (_, m₁) ← (if not (x.clear_tid == 0) then write m x.clear_tid 0 else done tt m)
      (_, m₂) ← erase_thread m₁ t
      (if me.tid == t then wakeup_next m₂ else done tt m₂)

    -- create(flags, ctid, ptid, stack, tls), for the flags CLONE_CHILD_SETTID,
    -- CLONE_PARENT_SETTID and CLONE_CHILD_CLEARTID.
    unfoldable pub create : MultiThreading G → ℕ → ℕ → ℕ → ℕ → ℕ → Result G ℕ
    create m flags ctid ptid stack tls = do
      let t = m.thread_counter + 1
      let x = record uninitialised {
        tid = t;
        fsbase = tls;
        stored_regs = record uninitialised.stored_regs { rsp = stack };
      }
      let m₁ = record m { thread_counter = t; threads = emplace m.threads x }
      (_, m₂) ← (if flags / 2 ^ 24 % 2 == 1 then write m₁ ctid t else done tt m₁)
      (_, m₃) ← (if flags / 2 ^ 20 % 2 == 1 then write m₂ ptid t else done tt m₂)
      (x', m₃) ← get_thread m₃ t
      (if flags / 2 ^ 21 % 2 == 1
          then done t (record m₃ { threads = assign m₃.threads (record x' { clear_tid = ctid }) })
          else done t m₃)

    -- The system call clone, once stack and TLS are known. (clone3 does the same, and sets clear_tid
    -- from its set_tid_array, if it has one, before the parent is suspended.)
    unfoldable pub clone_thread : MultiThreading G → ℕ → ℕ → ℕ → ℕ → ℕ → Result G (Unit {0})
    clone_thread m flags stack ptid ctid tls = do
      (parent, m) ← get_thread m m.current
      (child, m₁) ← create m flags ctid ptid stack tls
      (_, m₂) ← suspend m₁ parent.tid child
      (regs, m₃) ← activate m₂ child
      done tt (record m₃ { registers = record regs { rax = 0 } })

    -- exit and exit_group: whether the machine stops.
    unfoldable pub exit_call : MultiThreading G → Result G Bool
    exit_call m = do
      (x, m) ← get_thread m m.current
      (if x.tid == 1 then done true m else (exit m x.tid >>= λ (_, m'). done false m'))

    unfoldable pub gettid : MultiThreading G → Result G (Unit {0})
    gettid m = do
      (x, m) ← get_thread m m.current
      done tt (record m { registers = record m.registers { rax = x.tid } })

    unfoldable pub set_tid_address : MultiThreading G → Result G (Unit {0})
    set_tid_address m = do
      (x, m) ← get_thread m m.current
      let x' = record x { clear_tid = m.registers.rdi }
      let m₁ = record m { threads = assign m.threads x' }
      done tt (record m₁ { registers = record m₁.registers { rax = x.tid } })

    abbrev pub minus_eagain : ℕ
    minus_eagain = 2 ^ 64 - 11

    abbrev pub return_zero : MultiThreading G → MultiThreading G
    return_zero m = record m { registers = record m.registers { rax = 0 } }

    -- FUTEX_WAIT and FUTEX_WAIT_BITSET.
    unfoldable pub futex_wait : MultiThreading G → Result G (Unit {0})
    futex_wait m = do
      (value, m) ← read m m.registers.rdi
      (if value == m.registers.rdx % 2 ^ 32
          then (do
            (yielded, m₁) ← suspend_and_yield m minus_eagain
            (if yielded
                then done tt m₁
                else (write m₁ m₁.registers.rdi 0 >>= λ (_, m₂). done tt (return_zero m₂))))
          else done tt (return_zero m))

    -- FUTEX_WAKE and FUTEX_WAKE_BITSET.
    unfoldable pub futex_wake : MultiThreading G → Result G (Unit {0})
    futex_wake m = do
      (yielded, m₁) ← suspend_and_yield m 0
      (if yielded then done tt m₁ else done tt (return_zero m₁))

    unfoldable pub futex : MultiThreading G → Result G (Unit {0})
    futex m =
        let op = m.registers.rsi % 16 in
        if (op == 0) || (op == 9)
        then futex_wait m
        else if (op == 1) || (op == 10)
        then futex_wake m
        else throws (unimplemented_futex_op op) m
