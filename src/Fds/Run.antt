-- ===== src/Fds/Run.antt =====
-- Histories of the system calls on descriptors.
use tinykvm.Prelude.{ℕ, ◌≡◌, true, List, [], ◌∷◌, Option, none, state_of, All}
use tinykvm.Fds.Host.{Host, Entry, FileDescriptors}
use tinykvm.Fds.Translate.{translate_fd, translate_writable_vfd}
use tinykvm.Fds.Reset.{destroy, reset_to}
use tinykvm.Fds.Calls.{
  close_call, pipe2_call, socketpair_call, eventfd2_call, epoll_create1_call, dup_call,
  fcntl_dupfd_call, epoll_ctl_call,
}
use tinykvm.Fds.Owners.{IsLawful, IsGood, Foreign, Isolates, Spares-refl, Spares-trans}
use tinykvm.Fds.Translated.{translate_fd-Isolates, translate_writable_vfd-Isolates}
use tinykvm.Fds.Isolated.{
  close_call-Isolates, pipe2_call-Isolates, socketpair_call-Isolates, eventfd2_call-Isolates,
  epoll_create1_call-Isolates,
}
use tinykvm.Fds.Controlled.{dup_call-Isolates, fcntl_dupfd_call-Isolates, epoll_ctl_call-Isolates}
use tinykvm.Fds.Restored.{AreRecorded, destroy-Spares, reset_to-Isolates}

-- A call of the guest, or a reset to another machine.
pub data Call (H Event : Type 0) : Type 0 where
  closes dups dupfds uses writes : (vfd : ℕ) → Call H Event
  makes_pipe makes_socketpair : (addr : ℕ) → Call H Event
  makes_eventfd makes_epoll : Call H Event
  controls_epoll : (epfd op vfd g_event : ℕ) → Call H Event
  resets : FileDescriptors H Event → Call H Event

module _ {H Event : Type 0} where
  -- A reset is to a machine without pairs of type LISTEN.
  unfoldable pub IsAllowed : Call H Event → Type 0
  IsAllowed (resets other) = AreRecorded other.sockets
  IsAllowed _ = Unit

  module _ (host : Host H Event) (find_master : ℕ → Option Entry) where
    -- The state that a call leaves, returned or thrown.
    unfoldable pub after_call : Call H Event → FileDescriptors H Event → FileDescriptors H Event
    after_call (closes vfd) s = state_of (close_call host none vfd s)
    after_call (dups vfd) s = state_of (dup_call host find_master vfd s)
    after_call (dupfds vfd) s = state_of (fcntl_dupfd_call host find_master vfd s)
    after_call (uses vfd) s = state_of (translate_fd host find_master vfd s)
    after_call (writes vfd) s = state_of (translate_writable_vfd host find_master vfd s)
    after_call (makes_pipe addr) s = state_of (pipe2_call host addr s)
    after_call (makes_socketpair addr) s = state_of (socketpair_call host addr s)
    after_call makes_eventfd s = state_of (eventfd2_call host s)
    after_call makes_epoll s = state_of (epoll_create1_call host s)
    after_call (controls_epoll epfd op vfd g_event) s =
        state_of (epoll_ctl_call host find_master epfd op vfd g_event s)
    after_call (resets other) s = state_of (reset_to host other s)

    unfoldable pub run : List (Call H Event) → FileDescriptors H Event → FileDescriptors H Event
    run [] s = s
    run (c ∷ cs) s = run cs (after_call c s)

    module _ (lawful : IsLawful host) where
      pub after_call-Isolates :
          (c : Call H Event)
          → IsAllowed c
          → (s : FileDescriptors H Event) → IsGood host s.host s.fds
          → Isolates host s (after_call c s)
      unfolding after_call IsAllowed
      after_call-Isolates (closes vfd) a s g = close_call-Isolates host lawful vfd s g
      after_call-Isolates (dups vfd) a s g = dup_call-Isolates host lawful find_master vfd s g
      after_call-Isolates (dupfds vfd) a s g =
          fcntl_dupfd_call-Isolates host lawful find_master vfd s g
      after_call-Isolates (uses vfd) a s g = translate_fd-Isolates host lawful find_master vfd s g
      after_call-Isolates (writes vfd) a s g =
          translate_writable_vfd-Isolates host lawful find_master vfd s g
      after_call-Isolates (makes_pipe addr) a s g = pipe2_call-Isolates host lawful addr s g
      after_call-Isolates (makes_socketpair addr) a s g =
          socketpair_call-Isolates host lawful addr s g
      after_call-Isolates makes_eventfd a s g = eventfd2_call-Isolates host lawful s g
      after_call-Isolates makes_epoll a s g = epoll_create1_call-Isolates host lawful s g
      after_call-Isolates (controls_epoll epfd op vfd g_event) a s g =
          epoll_ctl_call-Isolates host lawful find_master epfd op vfd g_event s g
      after_call-Isolates (resets other) a s g = reset_to-Isolates host lawful other a s

      pub run-Isolates :
          (cs : List (Call H Event))
          → All IsAllowed cs
          → (s : FileDescriptors H Event) → IsGood host s.host s.fds
          → Isolates host s (run cs s)
      unfolding run
      run-Isolates [] a s g = Spares-refl host _ _ _ g
      run-Isolates (c ∷ cs) a s g =
          let i = after_call-Isolates c a.0 s g in
          Spares-trans host i (run-Isolates cs a.1 (after_call c s) i.good)

      -- A machine whose own descriptors are open and owned by one entry each runs any history of
      -- close, dup, fcntl(F_DUPFD_CLOEXEC), pipe2, socketpair, eventfd2, epoll_create1, epoll_ctl,
      -- lookups of a descriptor and resets to machines without LISTEN pairs, on a host that opens
      -- only new descriptors and closes only the one given, without a callback on free: whatever a
      -- call returns or throws, the machine's own descriptors stay open and owned once, and every
      -- open descriptor that it did not own, such as one of the master or of another fork, stays
      -- open and not owned, also when the machine is destroyed.
      pub run_fds-Isolates :
          (cs : List (Call H Event))
          → All IsAllowed cs
          → (s : FileDescriptors H Event) → IsGood host s.host s.fds
          → Isolates host s (run cs s)
            × ((f : ℕ)
                → Foreign host s.host s.fds f
                → host.is_open (destroy host (run cs s)) f ≡ true)
      run_fds-Isolates cs a s g =
          let i = run-Isolates cs a s g in
          (i, λ f foreign. destroy-Spares host lawful (run cs s) f (i.spared f tt foreign))
