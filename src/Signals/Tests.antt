-- ===== src/Signals/Tests.antt =====
-- A table with two actions, and the theorems at it.
use tinykvm.Prelude.{
  ℕ, ◌*◌, ◌/◌, ◌%◌, ◌^◌, ◌≡◌, refl, false, [], ◌∷◌, Option, some, done, arith, get_elem?, state_of,
}
use tinykvm.Signals.{Signals, SignalAction, KernelAction, SignalStack, get, enter, rt_sigaction}
use tinykvm.Signals.Actions.{enter-get, rt_sigaction-RoundTrip}

abbrev action : ℕ → SignalAction
action handler = record { handler = handler; altstack = false; mask = 0; restorer = 0 }

abbrev on_stack : KernelAction
on_stack = record {
  sa_handler = 0x40100f;
  sa_flags = 0x08000004;
  sa_restorer = 0x402000;
  sa_mask = 0x100000002;
}

abbrev no_stack : SignalStack
no_stack = record { ss_sp = 0; ss_flags = 0; ss_size = 0 }

-- Memory that holds one action, at every address.
abbrev put : KernelAction → ℕ → KernelAction → Option KernelAction
put memory addr sa = some sa

abbrev take : KernelAction → ℕ → Option KernelAction
take memory addr = some memory

abbrev take_stack : KernelAction → ℕ → Option SignalStack
take_stack memory addr = some no_stack

abbrev two_signals : Signals KernelAction
two_signals = record {
  actions = action 0x1000 ∷ action 0x2000 ∷ [];
  stacks = λ t. no_stack;
  memory = on_stack;
  tid = 1;
  rsp = 0x7000;
  rcx = 0;
}

rt_sigaction-RoundTrip_example :
    (s' s'' : Signals KernelAction) × (act : KernelAction) × (rt_sigaction put take take_stack 2
        0x5000 0 two_signals
      ≡ done 0 s')
    × (get_elem? s'.actions 0 ≡ get_elem? two_signals.actions 0)
    × (rt_sigaction put take take_stack 2 0 0x6000 s' ≡ done 0 s'')
    × (s''.actions ≡ s'.actions)
    × (take s''.memory 0x6000 ≡ some act)
    × (act.sa_handler ≡ 0x40100f / 16 * 16)
    × (act.sa_flags ≡ 0x08000004 / 0x08000000 % 2 * 0x08000000)
    × (act.sa_restorer ≡ 0x402000)
    × (act.sa_mask ≡ 0x100000002 % 2 ^ 32)
rt_sigaction-RoundTrip_example =
    rt_sigaction-RoundTrip put take take_stack 1 0x5000 0x6000 0 on_stack two_signals
      (action 0x2000) (λ e. absurd (omega (arith, e))) (λ e. absurd (omega (arith, e)))
      (λ e. absurd (omega (arith, e))) refl refl (λ act. (act, refl, refl))

enter-get_example :
    (get 2 two_signals ≡ done (action 0x2000) two_signals)
    × ((state_of (enter 1 two_signals)).rcx ≡ 0x2000)
enter-get_example = enter-get 1 (action 0x2000) two_signals (λ e. absurd (omega (arith, e))) refl
