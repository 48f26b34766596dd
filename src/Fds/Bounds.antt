-- ===== src/Fds/Bounds.antt =====
-- The limits over histories of calls of a machine without a master.
use tinykvm.Prelude.{
  ℕ, zero, suc, ◌+◌, Bool, true, false, ◌||◌, List, [], ◌∷◌, Option, none, some, ltb, ◌==◌,
  state_of, inl, inr, Bool-cases, Option-cases, length, All,
}
use tinykvm.Fds.Map.{find}
use tinykvm.Fds.Host.{Host, Entry, FileDescriptors}
use tinykvm.Fds.Manage.{manage_duplicate, entry_for_vfd, get_epoll_entry_for_vfd}
use tinykvm.Fds.Translate.{translate, translate_fd, translate_writable_vfd}
use tinykvm.Fds.Calls.{
  dup_manage, dup_inheriting, negative, ebadf, checked_control, recorded, try_dup, dup_call,
  dup_managed, try_dupfd, fcntl_dupfd_call, record_event, control_epoll, epoll_ctl_call,
}
use tinykvm.Fds.Translated.{Answer-cases}
use tinykvm.Fds.Limits.{
  IsBounded, KeepsBounds, catch-Bounded, bind-Bounded, manage-Bounded, manage_duplicate-Bounded,
  close_call-Bounded, pipe2_call-Bounded, socketpair_call-Bounded, eventfd2_call-Bounded,
  epoll_create1_call-Bounded,
}
use tinykvm.Fds.Run.{
  Call, closes, dups, dupfds, uses, writes, makes_pipe, makes_socketpair, makes_eventfd,
  makes_epoll, controls_epoll, resets, after_call, run,
}

-- No master: the callback finds nothing.
abbrev pub no_master : ℕ → Option Entry
no_master vfd = none

module _ {H Event : Type 0} (host : Host H Event) {origin : ℕ} where
  pub translate-Bounded : (n vfd : ℕ) → KeepsBounds origin (translate host no_master n vfd)
  unfolding translate
  translate-Bounded zero vfd s b = b
  translate-Bounded (suc n) vfd s b = elim (Option-cases (find s.fds vfd)) [
    | inr (entry, here) ↦ rw (here, state_of) b
    | inl away ↦ rw (away, state_of) b
  ]

  pub translate_fd-Bounded : (vfd : ℕ) → KeepsBounds origin (translate_fd host no_master vfd)
  unfolding translate_fd
  translate_fd-Bounded vfd s b = translate-Bounded (length s.epoll_fds + 1) vfd s b

  pub translate_writable_vfd-Bounded :
      (vfd : ℕ) → KeepsBounds origin (translate_writable_vfd host no_master vfd)
  unfolding translate_writable_vfd
  translate_writable_vfd-Bounded vfd s b = elim (Option-cases (find s.fds vfd)) [
    | inr (entry, here) ↦ elim (Bool-cases entry.is_writable) [
      | inl w ↦ rw (here, state_of, w) b
      | inr w ↦ rw (here, state_of, w) b
    ]
    | inl away ↦ rw (away, state_of) b
  ]

  pub dup_manage-Bounded : (fd : Option ℕ) → KeepsBounds origin (dup_manage host fd)
  unfolding dup_manage
  dup_manage-Bounded none s b = b
  dup_manage-Bounded (some fd) s b = elim (Answer-cases (host.dup s.host fd)) [
    | inr (errno, e) ↦ rw (e, state_of) b
    | inl (n, h, e) ↦ rw (e, state_of) (manage-Bounded host n false (record s { host = h }) b)
  ]

  pub dup_managed-Bounded : (vfd fd : ℕ) (w : Bool) → KeepsBounds origin (dup_managed host vfd fd w)
  unfolding dup_managed manage_duplicate
  dup_managed-Bounded vfd fd w s b = elim (Answer-cases (host.dup s.host fd)) [
    | inr (errno, e) ↦ rw (e, state_of) b
    | inl (n, h, e) ↦
        rw (e, state_of) (manage_duplicate-Bounded host vfd n w (record s { host = h }) b)
  ]

  pub dup_inheriting-Bounded :
      (vfd : ℕ) (fd : Option ℕ) → KeepsBounds origin (dup_inheriting host vfd fd)
  unfolding dup_inheriting entry_for_vfd
  dup_inheriting-Bounded vfd none s b = b
  dup_inheriting-Bounded vfd (some fd) s b = elim (Bool-cases (ltb 2 fd)) [
    | inr low ↦ rw (low, state_of) (dup_managed-Bounded vfd fd true s b)
    | inl high ↦ elim (Option-cases (find s.fds vfd)) [
      | inl gone ↦ rw (high, gone, state_of) b
      | inr (entry, found) ↦
          rw (high, found, state_of) (dup_managed-Bounded vfd fd entry.is_writable s b)
    ]
  ]

  pub dup_call-Bounded : (vfd : ℕ) → KeepsBounds origin (dup_call host no_master vfd)
  unfolding dup_call try_dup
  dup_call-Bounded vfd s b = catch-Bounded (try_dup host no_master vfd s) (negative ebadf) (
      bind-Bounded (translate_fd host no_master vfd s) _ (translate_fd-Bounded vfd s b)
        (λ fd t i. dup_manage-Bounded fd t i))

  pub fcntl_dupfd_call-Bounded :
      (vfd : ℕ) → KeepsBounds origin (fcntl_dupfd_call host no_master vfd)
  unfolding fcntl_dupfd_call try_dupfd
  fcntl_dupfd_call-Bounded vfd s b =
      catch-Bounded (try_dupfd host no_master vfd s) (negative ebadf) (
        bind-Bounded (translate_fd host no_master vfd s) _ (translate_fd-Bounded vfd s b)
          (λ fd t i. dup_inheriting-Bounded vfd fd t i))

  pub get_epoll_entry_for_vfd-Bounded :
      (vfd : ℕ) (s : FileDescriptors H Event)
      → IsBounded origin s
      → IsBounded origin (get_epoll_entry_for_vfd vfd s).1
  unfolding get_epoll_entry_for_vfd
  get_epoll_entry_for_vfd-Bounded vfd s b = elim (Option-cases (find s.epoll_fds vfd)) [
    | inl new ↦ rw (new, get_epoll_entry_for_vfd) b
    | inr (p, known) ↦ rw (known, get_epoll_entry_for_vfd) b
  ]

  pub record_event-Bounded :
      (op vfd : ℕ) (event : Event) (p : ℕ) (s : FileDescriptors H Event)
      → IsBounded origin s
      → IsBounded origin (record_event op vfd event p s)
  unfolding record_event
  record_event-Bounded op vfd event p s b = elim (Bool-cases (op == 1 || op == 3)) [
    | inl adds ↦ rw (adds, record_event) b
    | inr other ↦ elim (Bool-cases (op == 2)) [
      | inl removes ↦ rw (other, removes, record_event) b
      | inr neither ↦ rw (other, neither, record_event) b
    ]
  ]

  pub recorded-Bounded :
      (op vfd : ℕ) (event : Event) (epfd : ℕ) (s : FileDescriptors H Event)
      → IsBounded origin s
      → IsBounded origin (recorded op vfd event epfd s)
  unfolding recorded
  recorded-Bounded op vfd event epfd s b =
      let (p, t) = get_epoll_entry_for_vfd epfd s in
      record_event-Bounded op vfd event p t (get_epoll_entry_for_vfd-Bounded epfd s b)

  pub control_epoll-Bounded :
      (epfd epollfd op vfd fd : ℕ) (event : Event)
      → KeepsBounds origin (control_epoll host epfd epollfd op vfd fd event)
  unfolding control_epoll
  control_epoll-Bounded epfd epollfd op vfd fd event s b =
      elim (Answer-cases (host.epoll_ctl s.host epollfd op fd event)) [
        | inr (errno, e) ↦ rw (e, state_of) b
        | inl (_, h, e) ↦
            rw (e, state_of) (recorded-Bounded op vfd event epfd (record s { host = h }) b)
      ]

  pub checked_control-Bounded :
      (epfd op vfd g_event : ℕ) (epoll_fd member : Option ℕ)
      → KeepsBounds origin (checked_control host epfd op vfd g_event epoll_fd member)
  unfolding checked_control
  checked_control-Bounded epfd op vfd g_event none member s b = b
  checked_control-Bounded epfd op vfd g_event (some epollfd) none s b = b
  checked_control-Bounded epfd op vfd g_event (some epollfd) (some fd) s b =
      elim (Bool-cases (epollfd == 0 || epollfd == fd)) [
        | inl bad ↦ rw (bad, state_of) b
        | inr fine ↦ elim (Bool-cases (g_event == 0)) [
          | inl null ↦
              rw (fine, null, state_of)
                (control_epoll-Bounded epfd epollfd op vfd fd host.no_event s b)
          | inr given ↦ elim (Option-cases (host.load_event s.host g_event)) [
            | inl fault ↦ rw (fine, given, fault, state_of) b
            | inr (event, loaded) ↦
                rw (fine, given, loaded, state_of)
                  (control_epoll-Bounded epfd epollfd op vfd fd event s b)
          ]
        ]
      ]

  pub epoll_ctl_call-Bounded :
      (epfd op vfd g_event : ℕ)
      → KeepsBounds origin (epoll_ctl_call host no_master epfd op vfd g_event)
  unfolding epoll_ctl_call
  epoll_ctl_call-Bounded epfd op vfd g_event s b =
      bind-Bounded (translate_fd host no_master epfd s) _ (translate_fd-Bounded epfd s b)
        (λ epoll_fd t i.
          bind-Bounded (translate_fd host no_master vfd t) _ (translate_fd-Bounded vfd t i)
            (λ member u j. checked_control-Bounded epfd op vfd g_event epoll_fd member u j))

module _ {H Event : Type 0} where
  unfoldable pub IsNoReset : Call H Event → Type 0
  IsNoReset (resets other) = ⊥
  IsNoReset _ = Unit

  module _ (host : Host H Event) (origin : ℕ) where
    pub after_call-Bounded :
        (c : Call H Event)
        → IsNoReset c
        → (s : FileDescriptors H Event) → IsBounded origin s
        → IsBounded origin (after_call host no_master c s)
    unfolding after_call IsNoReset
    after_call-Bounded (closes vfd) l s b = close_call-Bounded host vfd s b
    after_call-Bounded (dups vfd) l s b = dup_call-Bounded host vfd s b
    after_call-Bounded (dupfds vfd) l s b = fcntl_dupfd_call-Bounded host vfd s b
    after_call-Bounded (uses vfd) l s b = translate_fd-Bounded host vfd s b
    after_call-Bounded (writes vfd) l s b = translate_writable_vfd-Bounded host vfd s b
    after_call-Bounded (makes_pipe addr) l s b = pipe2_call-Bounded host addr s b
    after_call-Bounded (makes_socketpair addr) l s b = socketpair_call-Bounded host addr s b
    after_call-Bounded makes_eventfd l s b = eventfd2_call-Bounded host s b
    after_call-Bounded makes_epoll l s b = epoll_create1_call-Bounded host s b
    after_call-Bounded (controls_epoll epfd op vfd g_event) l s b =
        epoll_ctl_call-Bounded host epfd op vfd g_event s b
    after_call-Bounded (resets other) l s b = absurd l

    pub run_fds-IsBounded :
        (cs : List (Call H Event))
        → All IsNoReset cs
        → (s : FileDescriptors H Event) → IsBounded origin s
        → IsBounded origin (run host no_master cs s)
    unfolding run
    run_fds-IsBounded [] l s b = b
    run_fds-IsBounded (c ∷ cs) l s b =
        run_fds-IsBounded cs l.1 (after_call host no_master c s) (after_call-Bounded c l.0 s b)
