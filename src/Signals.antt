-- ===== src/Signals.antt =====
-- The signals of a machine: lib/tinykvm/linux/signals.cpp and signals.hpp, and the handlers of
-- rt_sigaction and sigaltstack in lib/tinykvm/linux/system_calls.cpp. Guest memory is a parameter,
-- with the reads and writes of the structures, which may fault. A signal number is not negative.
use tinykvm.Prelude.{
  ℕ, ◌+◌, ◌-◌, ◌%◌, ◌^◌, ◌/◌, Bool, true, false, not, ◌&&◌, List, [], ◌∷◌, Option, none, some, done,
  throws, ◌>>=◌, ltb, ◌==◌, if◌then◌else◌, get_elem?, set, u32, add64,
}
use tinykvm.Prelude.Outcome.{Outcome}
pub mod Actions
mod Tests

pub record SignalAction : Type 0 where
  pub handler : ℕ
  pub altstack : Bool
  pub mask : ℕ
  pub restorer : ℕ

pub record SignalStack : Type 0 where
  pub ss_sp : ℕ
  pub ss_flags : ℕ
  pub ss_size : ℕ

-- kernel_sigaction, as it lies in guest memory.
pub record KernelAction : Type 0 where
  pub sa_handler : ℕ
  pub sa_flags : ℕ
  pub sa_restorer : ℕ
  pub sa_mask : ℕ

-- The signals, the alternate stack of each thread (empty before it is set), and the memory, current
-- thread, stack pointer and rcx of the machine.
pub record Signals (G : Type 0) : Type 0 where
  pub actions : List SignalAction
  pub stacks : ℕ → SignalStack
  pub memory : G
  pub tid : ℕ
  pub rsp : ℕ
  pub rcx : ℕ

pub data SignalError : Type 0 where
  signal_zero : SignalError
  out_of_range : SignalError
  memory_fault : SignalError

abbrev pub Result : Type 0 → Type 0 → Type 0
Result G A = Outcome SignalError (Signals G) A

abbrev pub sa_onstack : ℕ
sa_onstack = 0x08000000

abbrev pub is_onstack : ℕ → Bool
is_onstack flags = flags / sa_onstack % 2 == 1

-- What rt_sigaction reports of an action; the lowest four bits of the handler are cleared.
unfoldable pub reported : SignalAction → KernelAction
reported a = record {
  sa_handler = a.handler - a.handler % 16;
  sa_flags = if a.altstack then sa_onstack else 0;
  sa_restorer = a.restorer;
  sa_mask = a.mask;
}

-- What it installs; the mask has 32 bits.
unfoldable pub installed : KernelAction → SignalAction
installed sa = record {
  handler = sa.sa_handler;
  altstack = is_onstack sa.sa_flags;
  mask = u32 sa.sa_mask;
  restorer = sa.sa_restorer;
}

module _ {G : Type 0} where
  -- std::array::at.
  unfoldable pub action_at : ℕ → Signals G → Result G SignalAction
  action_at i s = elim (get_elem? s.actions i) [ some a ↦ done a s | none ↦ throws out_of_range s ]

  unfoldable pub get : ℕ → Signals G → Result G SignalAction
  get sig s = if ltb 0 sig then action_at (sig - 1) s else throws signal_zero s

  unfoldable pub enter : ℕ → Signals G → Result G (Unit {0})
  enter sig s =
      if sig == 0
      then done tt s
      else (action_at sig s >>= λ (a, s). done tt (
          if a.altstack && not ((s.stacks s.tid).ss_sp == 0)
          then record s {
            rsp = add64 (s.stacks s.tid).ss_sp (s.stacks s.tid).ss_size;
            rcx = a.handler;
          }
          else record s { rcx = a.handler }))

  module _ (store : G → ℕ → KernelAction → Option G) (load : G → ℕ → Option KernelAction)
      (load_stack : G → ℕ → Option SignalStack) where
    unfoldable pub report_old : ℕ → SignalAction → Signals G → Result G (Unit {0})
    report_old g_oldact a s =
        if g_oldact == 0 then done tt s else elim (store s.memory g_oldact (reported a)) [
          | none ↦ throws memory_fault s
          | some memory ↦ done tt (record s { memory = memory })
        ]

    unfoldable pub install_new : ℕ → ℕ → Signals G → Result G (Unit {0})
    install_new sig g_act s = if g_act == 0 then done tt s else elim (load s.memory g_act) [
      | none ↦ throws memory_fault s
      | some sa ↦ done tt (record s { actions = set s.actions (sig - 1) (installed sa) })
    ]

    unfoldable pub rt_sigaction : (sig g_act g_oldact : ℕ) → Signals G → Result G ℕ
    rt_sigaction sig g_act g_oldact s =
        if sig == 0
        then done 0 s
        else (get sig s >>= λ (a, s₁).
            (report_old g_oldact a s₁ >>= λ (_, s₂).
            (install_new sig g_act s₂ >>= λ (_, s₃). done 0 s₃)))

    unfoldable pub sigaltstack : (ss : ℕ) → Signals G → Result G ℕ
    sigaltstack ss s = if ss == 0 then done 0 s else elim (load_stack s.memory ss) [
      | none ↦ throws memory_fault s
      | some stack ↦ done 0 (record s { stacks = λ t. if t == s.tid then stack else s.stacks t })
    ]
