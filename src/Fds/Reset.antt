-- ===== src/Fds/Reset.antt =====
-- FileDescriptors::FileDescriptors, ~FileDescriptors, reset_to and create_socket_pairs_from of
-- lib/tinykvm/linux/fds.cpp.
use tinykvm.Prelude.{
  ℕ, Bool, true, false, not, ◌&&◌, List, [], ◌∷◌, ◌++◌, Option, none, some, done, throws, ◌>>=◌,
  ltb, if◌then◌else◌, length,
}
use tinykvm.Prelude.Outcome.{Outcome}
use tinykvm.Fds.Map.{find, insert_or_assign}
use tinykvm.Fds.Host.{
  Answer, gives, fails, Host, Entry, EpollEntry, SocketPair, invalid_pair, pipe2_pair, socket_pair,
  event_fd, dup_fd, listen_fd, FdError, host_failed, FileDescriptors, Result, entry_at,
}
use tinykvm.Fds.Manage.{manage_as}

-- The first pointer that one of the shared vfds has already.
unfoldable pub find_pointer : List (ℕ × ℕ) → List ℕ → Option ℕ
find_pointer epoll_fds [] = none
find_pointer epoll_fds (shared_vfd ∷ rest) = elim (find epoll_fds shared_vfd) [
  | some p ↦ some p
  | none ↦ find_pointer epoll_fds rest
]

module _ {H Event : Type 0} (host : Host H Event) where
  unfoldable pub close_all : List (ℕ × Entry) → H → H
  close_all [] h = h
  close_all ((vfd, entry) ∷ rest) h =
      if ltb 2 entry.real_fd && not entry.is_forked
      then close_all rest (host.close h entry.real_fd).1
      else close_all rest h

  unfoldable pub destroy : FileDescriptors H Event → H
  destroy s = close_all s.fds s.host

  -- The host after a call.
  unfoldable pub after_answer : {A : Type 0} → Answer H A → H → H
  after_answer (gives _ h') h = h'
  after_answer (fails _) h = h

  unfoldable pub redirects :
      Bool
      → (stdin_fd stdout_fd stderr_fd : Answer H ℕ) → H
      → Outcome FdError H (FileDescriptors H Event)
  redirects is_forked (gives stdin_fd _) (gives stdout_fd _) (gives stderr_fd _) h =
      done
        (record {
          host = h;
          machine_is_forked = is_forked;
          fds =
              (0, record { real_fd = stdin_fd; is_writable = false; is_forked = false })
              ∷ (1, record { real_fd = stdout_fd; is_writable = true; is_forked = false })
              ∷ (2, record { real_fd = stderr_fd; is_writable = true; is_forked = false })
              ∷ [];
          next_fd = 0x1000;
          max_files = 256;
          total_fds_opened = 0;
          max_total_fds_opened = 0;
          epoll_fds = [];
          epoll_entries = [];
          sockets = [];
        })
        h
  redirects is_forked _ _ _ h = throws host_failed h

  -- The constructor, for a machine that is a fork or not. All three are duplicated before any is
  -- tested.
  unfoldable pub new_fds : Bool → H → Outcome FdError H (FileDescriptors H Event)
  new_fds is_forked h =
      let stdin_fd = host.dup h 0 in
      let h₁ = after_answer stdin_fd h in
      let stdout_fd = host.dup h₁ 1 in
      let h₂ = after_answer stdout_fd h₁ in
      let stderr_fd = host.dup h₂ 2 in
      redirects is_forked stdin_fd stdout_fd stderr_fd (after_answer stderr_fd h₂)

  -- The copy of the master's epoll entries, which keeps what they share.
  unfoldable pub copy_epoll_fds :
      List (EpollEntry Event) → List (ℕ × ℕ) → FileDescriptors H Event → FileDescriptors H Event
  copy_epoll_fds entries [] s = s
  copy_epoll_fds entries ((vfd, p) ∷ rest) s =
      elim (find_pointer s.epoll_fds (entry_at entries p).shared_epoll_fds) [
        | some q ↦
            copy_epoll_fds entries rest
              (record s { epoll_fds = insert_or_assign s.epoll_fds vfd q })
        | none ↦ copy_epoll_fds entries rest (record s {
          epoll_fds = insert_or_assign s.epoll_fds vfd (length s.epoll_entries);
          epoll_entries = s.epoll_entries ++ (entry_at entries p ∷ []);
        })
      ]

  unfoldable pub create_socket_pairs_from :
      SocketPair → FileDescriptors H Event → Result H Event (Unit {0})
  create_socket_pairs_from (pipe2_pair vfd1 vfd2) s = elim (host.pipe2 s.host) [
    | fails errno ↦ throws host_failed s
    | gives (a, b) h ↦ manage_as host vfd1 a true (record s { host = h }) >>= λ (_, s).
        manage_as host vfd2 b true s
  ]
  create_socket_pairs_from (socket_pair vfd1 vfd2) s = elim (host.socketpair s.host) [
    | fails errno ↦ throws host_failed s
    | gives (a, b) h ↦ manage_as host vfd1 a true (record s { host = h }) >>= λ (_, s).
        manage_as host vfd2 b true s
  ]
  create_socket_pairs_from (event_fd vfd1) s = elim (host.eventfd s.host) [
    | fails errno ↦ throws host_failed s
    | gives fd h ↦ manage_as host vfd1 fd true (record s { host = h })
  ]
  create_socket_pairs_from (dup_fd vfd1 vfd2) s = elim (host.dup s.host vfd1) [
    | fails errno ↦ throws host_failed s
    | gives fd h ↦ manage_as host vfd2 fd true (record s { host = h })
  ]
  create_socket_pairs_from (listen_fd vfd1 vfd2) s = manage_as host vfd1 vfd2 true s >>= λ (_, s).
      let entry : Entry = record { real_fd = vfd2; is_writable = true; is_forked = true } in
      done tt (record s { fds = insert_or_assign s.fds vfd1 entry })
  create_socket_pairs_from (invalid_pair vfd1 vfd2) s = done tt s

  unfoldable pub create_all : List SocketPair → FileDescriptors H Event → Result H Event (Unit {0})
  create_all [] s = done tt s
  create_all (sp ∷ rest) s = create_socket_pairs_from sp s >>= λ (_, s). create_all rest s

  -- What reset_to does before it creates the socket pairs.
  unfoldable pub clear_to :
      FileDescriptors H Event → FileDescriptors H Event → FileDescriptors H Event
  clear_to other s = record s {
    host = close_all s.fds s.host;
    fds = [];
    next_fd = other.next_fd;
    max_files = other.max_files;
    total_fds_opened = other.total_fds_opened;
    max_total_fds_opened = other.max_total_fds_opened;
    epoll_fds = [];
    epoll_entries = [];
  }

  unfoldable pub reset_to :
      FileDescriptors H Event → FileDescriptors H Event → Result H Event (Unit {0})
  reset_to other s =
      create_all other.sockets
        (copy_epoll_fds other.epoll_entries other.epoll_fds (clear_to other s))
