-- ===== src/Fds/Calls.antt =====
-- The handlers of lib/tinykvm/linux/system_calls.cpp that open, duplicate and close descriptors:
-- close, pipe2, dup, dup2, socketpair, fcntl with F_DUPFD_CLOEXEC, eventfd2, epoll_create1 and
-- epoll_ctl. A handler gives the value of rax; a guest's descriptor is not negative.
use tinykvm.Prelude.{
  ℕ, Bool, true, false, ◌||◌, Option, none, some, done, throws, ◌>>=◌, ltb, ◌==◌, if◌then◌else◌,
  set, sub64,
}
use tinykvm.Fds.Map.{insert_or_assign, erase}
use tinykvm.Fds.Host.{
  gives, fails, Host, Entry, SocketPair, pipe2_pair, socket_pair, event_fd, invalid_fd, guest_fault,
  FileDescriptors, Result, entry_at, catch,
}
use tinykvm.Fds.Manage.{
  close_fd, manage, manage_as, entry_for_vfd, add_socket_pair, get_epoll_entry_for_vfd, free,
  manage_duplicate,
}
use tinykvm.Fds.Translate.{translate_fd}

-- -errno, as rax.
abbrev pub negative : ℕ → ℕ
negative errno = sub64 0 errno

abbrev pub ebadf : ℕ
ebadf = 9

abbrev pub einval : ℕ
einval = 22

module _ {H Event : Type 0} where
  unfoldable pub record_event :
      (op vfd : ℕ) → Event → ℕ → FileDescriptors H Event → FileDescriptors H Event
  record_event op vfd event p s =
      let e = entry_at s.epoll_entries p in
      if op == 1 || op == 3
      then record s {
        epoll_entries =
            set s.epoll_entries p (record e { epoll_fds = insert_or_assign e.epoll_fds vfd event });
      }
      else if op == 2
      then record s {
        epoll_entries = set s.epoll_entries p (record e { epoll_fds = erase e.epoll_fds vfd });
      }
      else s

  unfoldable pub recorded :
      (op vfd : ℕ) → Event → ℕ → FileDescriptors H Event → FileDescriptors H Event
  recorded op vfd event epfd s =
      let (p, s') = get_epoll_entry_for_vfd epfd s in record_event op vfd event p s'

module _ {H Event : Type 0} (host : Host H Event) where
  -- `none` where the callback of free has reset the machine, and rax with it.
  unfoldable pub close_call :
      Option (ℕ → Entry → FileDescriptors H Event → Bool × FileDescriptors H Event)
      → ℕ
      → FileDescriptors H Event
      → Result H Event (Option ℕ)
  close_call callback vfd s = if ltb vfd 3 then done (some 0) s else elim (entry_for_vfd vfd s) [
    | none ↦ done (some (negative ebadf)) s
    | some entry ↦
        if entry.is_forked
        then done (some 0) s
        else (free callback vfd s >>= λ (was_reset, s).
            if was_reset
            then done none s
            else (let (failed, h) = host.close s.host entry.real_fd in
                elim failed [
                  | some errno ↦ done (some (negative errno)) (record s { host = h })
                  | none ↦ done (some 0) (record s { host = h })
                ]))
  ]

  -- Of pipe2 and socketpair: the guest learns the descriptors, and the pair is recorded.
  unfoldable pub tell :
      SocketPair → (addr vfd1 vfd2 : ℕ) → FileDescriptors H Event → Result H Event ℕ
  tell pair addr vfd1 vfd2 s = elim (host.store_fds s.host addr vfd1 vfd2) [
    | none ↦ throws guest_fault s
    | some h ↦ add_socket_pair pair (record s { host = h }) >>= λ (_, s'). done 0 s'
  ]

  unfoldable pub manage_two :
      (ℕ → ℕ → SocketPair) → (addr a b : ℕ) → FileDescriptors H Event → Result H Event ℕ
  manage_two make addr a b s = do
    (vfd1, s₁) ← manage host (some a) true s
    (vfd2, s₂) ← manage host (some b) true s₁
    tell (make vfd1 vfd2) addr vfd1 vfd2 s₂

  unfoldable pub pipe2_call : ℕ → FileDescriptors H Event → Result H Event ℕ
  pipe2_call g_pipefd s = elim (host.pipe2 s.host) [
    | fails errno ↦ done (negative errno) s
    | gives (a, b) h ↦ manage_two pipe2_pair g_pipefd a b (record s { host = h })
  ]

  unfoldable pub socketpair_call : ℕ → FileDescriptors H Event → Result H Event ℕ
  socketpair_call g_sv s = elim (host.socketpair s.host) [
    | fails errno ↦ done (negative errno) s
    | gives (a, b) h ↦ manage_two socket_pair g_sv a b (record s { host = h })
  ]

  -- A failed eventfd() gives -1, which manage refuses.
  unfoldable pub eventfd2_call : FileDescriptors H Event → Result H Event ℕ
  eventfd2_call s = elim (host.eventfd s.host) [
    | fails errno ↦ manage host none true s
    | gives fd h ↦ (do
      (vfd, s₁) ← manage host (some fd) true (record s { host = h })
      (_, s₂) ← add_socket_pair (event_fd vfd) s₁
      done vfd s₂)
  ]

  unfoldable pub epoll_create1_call : FileDescriptors H Event → Result H Event ℕ
  epoll_create1_call s = elim (host.epoll_create1 s.host) [
    | fails errno ↦ done (negative errno) s
    | gives fd h ↦ manage host (some fd) false (record s { host = h })
  ]

  unfoldable pub control_epoll :
      (epfd epollfd op vfd fd : ℕ) → Event → FileDescriptors H Event → Result H Event ℕ
  control_epoll epfd epollfd op vfd fd event s = elim (host.epoll_ctl s.host epollfd op fd event) [
    | fails errno ↦ done (negative errno) s
    | gives _ h ↦ done 0 (recorded op vfd event epfd (record s { host = h }))
  ]

  -- The checks of epoll_ctl, on the translated descriptors.
  unfoldable pub checked_control :
      (epfd op vfd g_event : ℕ)
      → (epoll_fd member : Option ℕ) → FileDescriptors H Event
      → Result H Event ℕ
  checked_control epfd op vfd g_event none member s = done (negative ebadf) s
  checked_control epfd op vfd g_event (some epollfd) none s = done (negative ebadf) s
  checked_control epfd op vfd g_event (some epollfd) (some fd) s =
      if epollfd == 0 || epollfd == fd
      then done (negative einval) s
      else if g_event == 0
      then control_epoll epfd epollfd op vfd fd host.no_event s
      else elim (host.load_event s.host g_event) [
        | none ↦ throws guest_fault s
        | some event ↦ control_epoll epfd epollfd op vfd fd event s
      ]

  -- dup(-1) fails with EBADF.
  unfoldable pub dup_manage : Option ℕ → FileDescriptors H Event → Result H Event ℕ
  dup_manage none s = done (negative ebadf) s
  dup_manage (some fd) s = elim (host.dup s.host fd) [
    | fails errno ↦ done (negative errno) s
    | gives new_fd h ↦ manage host (some new_fd) false (record s { host = h })
  ]

  -- A failed dup() gives -1, which manage_duplicate refuses.
  unfoldable pub dup_managed : ℕ → ℕ → Bool → FileDescriptors H Event → Result H Event ℕ
  dup_managed vfd fd is_writable s = elim (host.dup s.host fd) [
    | fails errno ↦ manage_duplicate host vfd none is_writable s
    | gives new_fd h ↦ manage_duplicate host vfd (some new_fd) is_writable (record s { host = h })
  ]

  unfoldable pub dup_inheriting : ℕ → Option ℕ → FileDescriptors H Event → Result H Event ℕ
  dup_inheriting vfd none s = done (negative ebadf) s
  dup_inheriting vfd (some fd) s =
      if ltb 2 fd
      then elim (entry_for_vfd vfd s) [
        | none ↦ done (negative ebadf) s
        | some entry ↦ dup_managed vfd fd entry.is_writable s
      ]
      else dup_managed vfd fd true s

  module _ (find_master : ℕ → Option Entry) where
    unfoldable pub try_dup : ℕ → FileDescriptors H Event → Result H Event ℕ
    try_dup vfd s = do (fd, s₁) ← translate_fd host find_master vfd s; dup_manage fd s₁

    unfoldable pub dup_call : ℕ → FileDescriptors H Event → Result H Event ℕ
    dup_call vfd s = catch (try_dup vfd s) (negative ebadf)

    unfoldable pub try_dupfd : ℕ → FileDescriptors H Event → Result H Event ℕ
    try_dupfd vfd s = do (fd, s₁) ← translate_fd host find_master vfd s; dup_inheriting vfd fd s₁

    unfoldable pub fcntl_dupfd_call : ℕ → FileDescriptors H Event → Result H Event ℕ
    fcntl_dupfd_call vfd s = catch (try_dupfd vfd s) (negative ebadf)

    unfoldable pub close_old :
        Option (ℕ → Entry → FileDescriptors H Event → Bool × FileDescriptors H Event)
        → ℕ
        → Option ℕ
        → FileDescriptors H Event
        → Result H Event (Unit {0})
    close_old callback new_vfd none s = done tt s
    close_old callback new_vfd (some new_fd) s =
        if ltb 2 new_fd
        then (free callback new_vfd (close_fd host new_fd s) >>= λ (_, s'). done tt s')
        else done tt s

    -- The descriptor that is managed is the old one of new_vfd, as in the source.
    unfoldable pub dup_over :
        (new_vfd fd : ℕ) → Option ℕ → FileDescriptors H Event → Result H Event ℕ
    dup_over new_vfd fd new_fd s = elim (host.dup s.host fd) [
      | fails errno ↦ done (negative errno) s
      | gives result h ↦ elim new_fd [
        | none ↦ throws invalid_fd (record s { host = h })
        | some old_fd ↦ manage_as host new_vfd old_fd false (record s { host = h }) >>= λ (_, s').
            done new_vfd s'
      ]
    ]

    unfoldable pub try_dup2 :
        Option (ℕ → Entry → FileDescriptors H Event → Bool × FileDescriptors H Event)
        → (vfd new_vfd : ℕ) → FileDescriptors H Event
        → Result H Event ℕ
    try_dup2 callback vfd new_vfd s = do
      (fd, s₁) ← translate_fd host find_master vfd s
      (new_fd, s₂) ← translate_fd host find_master new_vfd s₁
      (_, s₃) ← close_old callback new_vfd new_fd s₂
      elim fd [
        | none ↦ done (negative ebadf) s₃
        | some real_fd ↦ dup_over new_vfd real_fd new_fd s₃
      ]

    unfoldable pub dup2_call :
        Option (ℕ → Entry → FileDescriptors H Event → Bool × FileDescriptors H Event)
        → (vfd new_vfd : ℕ) → FileDescriptors H Event
        → Result H Event ℕ
    dup2_call callback vfd new_vfd s =
        if vfd == new_vfd
        then done new_vfd s
        else catch (try_dup2 callback vfd new_vfd s) (negative ebadf)

    unfoldable pub epoll_ctl_call :
        (epfd op vfd g_event : ℕ) → FileDescriptors H Event → Result H Event ℕ
    epoll_ctl_call epfd op vfd g_event s = do
      (epoll_fd, s₁) ← translate_fd host find_master epfd s
      (member, s₂) ← translate_fd host find_master vfd s₁
      checked_control epfd op vfd g_event epoll_fd member s₂
