-- ===== src/Fds/Controlled.antt =====
-- What dup, fcntl(F_DUPFD_CLOEXEC) and epoll_ctl do to the descriptors of others.
use tinykvm.Prelude.{
  ℕ, ◌≡◌, refl, ◌∙◌, Bool, true, false, ◌||◌, Option, none, some, ltb, ◌==◌, state_of, inl, inr,
  Bool-cases, Option-cases,
}
use tinykvm.Fds.Map.{find}
use tinykvm.Fds.Host.{Host, Entry, FileDescriptors}
use tinykvm.Fds.Manage.{manage, entry_for_vfd, get_epoll_entry_for_vfd, manage_duplicate}
use tinykvm.Fds.Translate.{translate_fd}
use tinykvm.Fds.Calls.{
  dup_manage, dup_inheriting, negative, ebadf, checked_control, recorded, try_dup, dup_call,
  dup_managed, try_dupfd, fcntl_dupfd_call, record_event, control_epoll, epoll_ctl_call,
}
use tinykvm.Fds.Owners.{IsLawful, Isolates, Spares-refl, Spares-trans, Spares-host, state_of-bind}
use tinykvm.Fds.Managed.{manage-Adopts, opened-Isolates}
use tinykvm.Fds.Translated.{Answer-cases, KeepsOthers, translate_fd-Isolates}
use tinykvm.Fds.Isolated.{catch-Isolates, manage_duplicate-Adopts}

module _ {H Event : Type 0} (host : Host H Event) (lawful : IsLawful host) where
  pub dup_managed-Isolates :
      (vfd fd : ℕ) (w : Bool) → KeepsOthers host lawful (dup_managed host vfd fd w)
  unfolding dup_managed manage_duplicate
  dup_managed-Isolates vfd fd w s g = elim (Answer-cases (host.dup s.host fd)) [
    | inr (errno, e) ↦ rw (e, state_of) (Spares-refl host _ _ _ g)
    | inl (n, h, e) ↦
        rw (e, state_of)
          (opened-Isolates host lawful (manage_duplicate host vfd (some n) w) s n h g
            (lawful.dup-Opens s.host fd n h e)
            (λ t good given. manage_duplicate-Adopts host lawful vfd n w t good given))
  ]

  pub dup_inheriting-Isolates :
      (vfd : ℕ) (fd : Option ℕ) → KeepsOthers host lawful (dup_inheriting host vfd fd)
  unfolding dup_inheriting entry_for_vfd
  dup_inheriting-Isolates vfd none s g = Spares-refl host _ _ _ g
  dup_inheriting-Isolates vfd (some fd) s g = elim (Bool-cases (ltb 2 fd)) [
    | inr low ↦ rw (low, state_of) (dup_managed-Isolates vfd fd true s g)
    | inl high ↦ elim (Option-cases (find s.fds vfd)) [
      | inl gone ↦ rw (high, gone, state_of) (Spares-refl host _ _ _ g)
      | inr (entry, found) ↦
          rw (high, found, state_of) (dup_managed-Isolates vfd fd entry.is_writable s g)
    ]
  ]

  -- To record an event touches no descriptor.
  pub get_epoll_entry_for_vfd_same :
      (vfd : ℕ) (t : FileDescriptors H Event)
      → ((get_epoll_entry_for_vfd vfd t).1.host ≡ t.host)
        × ((get_epoll_entry_for_vfd vfd t).1.fds ≡ t.fds)
  unfolding get_epoll_entry_for_vfd
  get_epoll_entry_for_vfd_same vfd t = elim (Option-cases (find t.epoll_fds vfd)) [
    | inl new ↦ (rw (new, get_epoll_entry_for_vfd) refl, rw (new, get_epoll_entry_for_vfd) refl)
    | inr (p, known) ↦
        (rw (known, get_epoll_entry_for_vfd) refl, rw (known, get_epoll_entry_for_vfd) refl)
  ]

  pub record_event_same :
      (op vfd : ℕ) (event : Event) (p : ℕ) (t : FileDescriptors H Event)
      → ((record_event op vfd event p t).host ≡ t.host)
        × ((record_event op vfd event p t).fds ≡ t.fds)
  unfolding record_event
  record_event_same op vfd event p t = elim (Bool-cases (op == 1 || op == 3)) [
    | inl adds ↦ (rw adds refl, rw adds refl)
    | inr other ↦ elim (Bool-cases (op == 2)) [
      | inl removes ↦ (rw (other, removes) refl, rw (other, removes) refl)
      | inr neither ↦ (rw (other, neither) refl, rw (other, neither) refl)
    ]
  ]

  pub recorded_same :
      (op vfd : ℕ) (event : Event) (epfd : ℕ) (t : FileDescriptors H Event)
      → ((recorded op vfd event epfd t).host ≡ t.host)
        × ((recorded op vfd event epfd t).fds ≡ t.fds)
  unfolding recorded
  recorded_same op vfd event epfd t =
      let (p, t') = get_epoll_entry_for_vfd epfd t in
      (
        (record_event_same op vfd event p t').0 ∙ (get_epoll_entry_for_vfd_same epfd t).0,
        (record_event_same op vfd event p t').1 ∙ (get_epoll_entry_for_vfd_same epfd t).1,
      )

  pub dup_manage-Isolates : (fd : Option ℕ) → KeepsOthers host lawful (dup_manage host fd)
  unfolding dup_manage
  dup_manage-Isolates none s g = Spares-refl host _ _ _ g
  dup_manage-Isolates (some fd) s g = elim (Answer-cases (host.dup s.host fd)) [
    | inr (errno, e) ↦ rw (e, state_of) (Spares-refl host _ _ _ g)
    | inl (n, h, e) ↦
        rw (e, state_of)
          (opened-Isolates host lawful (manage host (some n) false) s n h g
            (lawful.dup-Opens s.host fd n h e)
            (λ t good given. manage-Adopts host lawful n false t good given))
  ]

  pub control_epoll-Isolates :
      (epfd epollfd op vfd fd : ℕ) (event : Event)
      → KeepsOthers host lawful (control_epoll host epfd epollfd op vfd fd event)
  unfolding control_epoll
  control_epoll-Isolates epfd epollfd op vfd fd event s g =
      elim (Answer-cases (host.epoll_ctl s.host epollfd op fd event)) [
        | inr (errno, e) ↦ rw (e, state_of) (Spares-refl host _ _ _ g)
        | inl (_, h, e) ↦
            rw (e, state_of)
              (rw
                (
                  (recorded_same op vfd event epfd (record s { host = h })).0,
                  (recorded_same op vfd event epfd (record s { host = h })).1,
                )
                (Spares-host host _ s.host h s.fds g
                  (lawful.epoll_ctl_open s.host epollfd op fd event h e)))
      ]

  pub checked_control-Isolates :
      (epfd op vfd g_event : ℕ) (epoll_fd member : Option ℕ)
      → KeepsOthers host lawful (checked_control host epfd op vfd g_event epoll_fd member)
  unfolding checked_control
  checked_control-Isolates epfd op vfd g_event none member s g = Spares-refl host _ _ _ g
  checked_control-Isolates epfd op vfd g_event (some epollfd) none s g = Spares-refl host _ _ _ g
  checked_control-Isolates epfd op vfd g_event (some epollfd) (some fd) s g =
      elim (Bool-cases (epollfd == 0 || epollfd == fd)) [
        | inl bad ↦ rw (bad, state_of) (Spares-refl host _ _ _ g)
        | inr fine ↦ elim (Bool-cases (g_event == 0)) [
          | inl null ↦
              rw (fine, null, state_of)
                (control_epoll-Isolates epfd epollfd op vfd fd host.no_event s g)
          | inr given ↦ elim (Option-cases (host.load_event s.host g_event)) [
            | inl fault ↦ rw (fine, given, fault, state_of) (Spares-refl host _ _ _ g)
            | inr (event, loaded) ↦
                rw (fine, given, loaded, state_of)
                  (control_epoll-Isolates epfd epollfd op vfd fd event s g)
          ]
        ]
      ]

  module _ (find_master : ℕ → Option Entry) where
    pub dup_call-Isolates : (vfd : ℕ) → KeepsOthers host lawful (dup_call host find_master vfd)
    unfolding dup_call try_dup
    dup_call-Isolates vfd s g =
        catch-Isolates host lawful s (try_dup host find_master vfd s) (negative ebadf) (
          state_of-bind host (Isolates host s) (translate_fd host find_master vfd s) _
            (translate_fd-Isolates host lawful find_master vfd s g)
            (λ fd t i. Spares-trans host i (dup_manage-Isolates fd t i.good)))

    pub fcntl_dupfd_call-Isolates :
        (vfd : ℕ) → KeepsOthers host lawful (fcntl_dupfd_call host find_master vfd)
    unfolding fcntl_dupfd_call try_dupfd
    fcntl_dupfd_call-Isolates vfd s g =
        catch-Isolates host lawful s (try_dupfd host find_master vfd s) (negative ebadf) (
          state_of-bind host (Isolates host s) (translate_fd host find_master vfd s) _
            (translate_fd-Isolates host lawful find_master vfd s g)
            (λ fd t i. Spares-trans host i (dup_inheriting-Isolates vfd fd t i.good)))

    pub epoll_ctl_call-Isolates :
        (epfd op vfd g_event : ℕ)
        → KeepsOthers host lawful (epoll_ctl_call host find_master epfd op vfd g_event)
    unfolding epoll_ctl_call
    epoll_ctl_call-Isolates epfd op vfd g_event s g =
        state_of-bind host (Isolates host s) (translate_fd host find_master epfd s) _
          (translate_fd-Isolates host lawful find_master epfd s g)
          (λ epoll_fd t i.
            state_of-bind host (Isolates host s) (translate_fd host find_master vfd t) _
              (Spares-trans host i (translate_fd-Isolates host lawful find_master vfd t i.good))
              (λ member u j.
                Spares-trans host j
                  (checked_control-Isolates epfd op vfd g_event epoll_fd member u j.good)))
