-- ===== src/Signals/Actions.antt =====
-- What rt_sigaction installs, reports and leaves alone, and which handler enter takes.
use tinykvm.Prelude.{
  ℕ, suc, ◌-◌, ◌*◌, ◌/◌, ◌%◌, ◌^◌, ◌≡◌, refl, ◌≢◌, true, false, not, ◌&&◌, Option, some, done, ltb,
  ◌==◌, get_elem?, set, arith, get_elem?-set_self, get_elem?-set_ne, get_elem?-lt, state_of,
  Bool-cases, inl, inr,
}
use tinykvm.Signals.{
  Signals, SignalAction, KernelAction, SignalStack, reported, installed, action_at, get, enter,
  report_old, install_new, rt_sigaction,
}

module _ {G : Type 0} where
  pub action_at_lem :
      (i : ℕ) (a : SignalAction) (s : Signals G)
      → get_elem? s.actions i ≡ some a
      → action_at i s ≡ done a s
  unfolding action_at
  action_at_lem i a s found = rw (found, action_at) refl

  pub get_lem :
      (sig : ℕ) (a : SignalAction) (s : Signals G)
      → get_elem? s.actions sig ≡ some a
      → get (suc sig) s ≡ done a s
  unfolding get
  get_lem sig a s found =
      let positive : ltb 0 (suc sig) ≡ true = ground arith in
      let index : suc sig - 1 ≡ sig = omega arith in
      rw (positive, get, index) (action_at_lem sig a s found)

  -- enter looks a signal up one place further than get does: for a signal other than 0, it goes on at
  -- the handler that get finds for the next signal.
  pub enter-get :
      (sig : ℕ) (a : SignalAction) (s : Signals G)
      → sig ≢ 0
      → get_elem? s.actions sig ≡ some a
      → (get (suc sig) s ≡ done a s) × ((state_of (enter sig s)).rcx ≡ a.handler)
  unfolding enter
  enter-get sig a s real found =
      let not_zero : (sig == 0) ≡ false = ground (arith, real) in
      (
        get_lem sig a s found,
        elim (Bool-cases (a.altstack && not ((s.stacks s.tid).ss_sp == 0))) [
          | inl switches ↦ rw (not_zero, enter, action_at_lem sig a s found, switches) refl
          | inr stays ↦ rw (not_zero, enter, action_at_lem sig a s found, stays) refl
        ],
      )

  module _ (store : G → ℕ → KernelAction → Option G) (load : G → ℕ → Option KernelAction)
      (load_stack : G → ℕ → Option SignalStack) where
    abbrev pub with_action : ℕ → KernelAction → Signals G → Signals G
    with_action sig sa s = record s { actions = set s.actions sig (installed sa) }

    pub rt_sigaction_set :
        (sig g_act : ℕ) (sa : KernelAction) (old : SignalAction) (s : Signals G)
        → g_act ≢ 0
        → get_elem? s.actions sig ≡ some old
        → load s.memory g_act ≡ some sa
        → rt_sigaction store load load_stack (suc sig) g_act 0 s ≡ done 0 (with_action sig sa s)
    unfolding rt_sigaction report_old install_new
    rt_sigaction_set sig g_act sa old s given found loaded =
        let not_zero : (suc sig == 0) ≡ false = ground arith in
        let act : (g_act == 0) ≡ false = ground (arith, given) in
        let index : suc sig - 1 ≡ sig = omega arith in
        rw (not_zero, rt_sigaction, get_lem sig old s found, act, loaded, index) refl

    pub rt_sigaction_old :
        (sig g_oldact : ℕ) (a : SignalAction) (s : Signals G) (memory : G)
        → g_oldact ≢ 0
        → get_elem? s.actions sig ≡ some a
        → store s.memory g_oldact (reported a) ≡ some memory
        → rt_sigaction store load load_stack (suc sig) 0 g_oldact s
          ≡ done 0 (record s { memory = memory })
    unfolding rt_sigaction report_old install_new
    rt_sigaction_old sig g_oldact a s memory given found stored =
        let not_zero : (suc sig == 0) ≡ false = ground arith in
        let old : (g_oldact == 0) ≡ false = ground (arith, given) in
        rw (not_zero, rt_sigaction, get_lem sig a s found, old, stored) refl

    -- rt_sigaction of a signal that the table has installs the action that lies in guest memory and
    -- changes no other signal; where the guest's memory then takes what is stored at g_oldact and
    -- gives it back, asking for the old action leaves there an action with the handler that was
    -- installed, its lowest four bits cleared, of its flags SA_ONSTACK alone, its restorer, and the
    -- low 32 bits of its mask.
    pub rt_sigaction-RoundTrip :
        (sig g_act g_oldact other : ℕ) (sa : KernelAction) (s : Signals G) (old : SignalAction)
        → g_act ≢ 0
        → g_oldact ≢ 0
        → sig ≢ other
        → get_elem? s.actions sig ≡ some old
        → load s.memory g_act ≡ some sa
        → ((act : KernelAction)
            → (memory : G) × (store s.memory g_oldact act ≡ some memory)
              × (load memory g_oldact ≡ some act))
        → (s' s'' : Signals G) × (act : KernelAction) × (rt_sigaction store load load_stack
              (suc sig)
              g_act
              0
              s
            ≡ done 0 s')
          × (get_elem? s'.actions other ≡ get_elem? s.actions other)
          × (rt_sigaction store load load_stack (suc sig) 0 g_oldact s' ≡ done 0 s'')
          × (s''.actions ≡ s'.actions)
          × (load s''.memory g_oldact ≡ some act)
          × (act.sa_handler ≡ sa.sa_handler / 16 * 16)
          × (act.sa_flags ≡ sa.sa_flags / 0x08000000 % 2 * 0x08000000)
          × (act.sa_restorer ≡ sa.sa_restorer)
          × (act.sa_mask ≡ sa.sa_mask % 2 ^ 32)
    unfolding reported installed
    rt_sigaction-RoundTrip sig g_act g_oldact other sa s old act oldact apart found loaded takes =
        let new : SignalAction = installed sa in
        let now : get_elem? (set s.actions sig new) sig ≡ some new =
          get_elem?-set_self s.actions sig new (get_elem?-lt s.actions sig found) in
        let (memory, stored, read) = takes (reported new) in
        let s' : Signals G = with_action sig sa s in
        (
          s',
          record s' { memory = memory },
          reported new,
          rt_sigaction_set sig g_act sa old s act found loaded,
          get_elem?-set_ne s.actions sig other new apart,
          rt_sigaction_old sig g_oldact new s' memory oldact now stored,
          refl,
          read,
          omega arith,
          ground arith,
          refl,
          refl,
        )
