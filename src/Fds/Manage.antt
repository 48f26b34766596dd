-- ===== src/Fds/Manage.antt =====
-- FileDescriptors::manage, manage_duplicate, manage_as, free, entry_for_vfd, add_socket_pair and
-- get_epoll_entry_for_vfd of lib/tinykvm/linux/fds.cpp. `is_socket`, which they ignore, is left out.
use tinykvm.Prelude.{
  ℕ, ◌+◌, Bool, true, false, not, ◌&&◌, ◌||◌, List, [], ◌∷◌, ◌++◌, Option, none, some, done, throws,
  ◌>>=◌, leb, ◌==◌, if◌then◌else◌, length, set, max, u16,
}
use tinykvm.Fds.Map.{find, insert_or_assign, erase, insert}
use tinykvm.Fds.Host.{
  Host, Entry, SocketPair, invalid_pair, pipe2_pair, socket_pair, event_fd, dup_fd, listen_fd,
  invalid_fd, too_many_in_total, too_many_files, too_many_sockets, out_of_range, FileDescriptors,
  Result, entry_at,
}

unfoldable pub mentions : SocketPair → ℕ → Bool
mentions (invalid_pair a b) vfd = a == vfd || b == vfd
mentions (pipe2_pair a b) vfd = a == vfd || b == vfd
mentions (socket_pair a b) vfd = a == vfd || b == vfd
mentions (event_fd a) vfd = a == vfd
mentions (dup_fd a b) vfd = a == vfd || b == vfd
mentions (listen_fd a b) vfd = a == vfd || b == vfd

unfoldable pub remove_mentions : List SocketPair → ℕ → List SocketPair
remove_mentions [] vfd = []
remove_mentions (sp ∷ sps) vfd =
    let rest = remove_mentions sps vfd in if mentions sp vfd then rest else sp ∷ rest

module _ {H Event : Type 0} (host : Host H Event) where
  unfoldable pub close_fd : ℕ → FileDescriptors H Event → FileDescriptors H Event
  close_fd fd s = record s { host = (host.close s.host fd).1 }

  -- The guards of manage and manage_as, and the count.
  unfoldable pub admit : ℕ → FileDescriptors H Event → Result H Event (Unit {0})
  admit fd s =
      if leb fd 2
      then throws invalid_fd s
      else if not (s.max_total_fds_opened == 0) && leb s.max_total_fds_opened s.total_fds_opened
      then throws too_many_in_total (close_fd fd s)
      else if leb s.max_files (length s.fds)
      then throws too_many_files (close_fd fd s)
      else done tt (record s { total_fds_opened = u16 (s.total_fds_opened + 1) })

  unfoldable pub manage : Option ℕ → Bool → FileDescriptors H Event → Result H Event ℕ
  manage none is_writable s = throws invalid_fd s
  manage (some fd) is_writable s = do
    (_, s) ← admit fd s
    let entry : Entry = record { real_fd = fd; is_writable = is_writable; is_forked = false }
    done s.next_fd
        (record s { fds = insert_or_assign s.fds s.next_fd entry; next_fd = s.next_fd + 1 })

  unfoldable pub manage_as : ℕ → ℕ → Bool → FileDescriptors H Event → Result H Event (Unit {0})
  manage_as vfd fd is_writable s = do
    (_, s) ← admit fd s
    let entry : Entry = record { real_fd = fd; is_writable = is_writable; is_forked = false }
    done tt (record s { fds = insert_or_assign s.fds vfd entry; next_fd = max s.next_fd (vfd + 1) })

module _ {H Event : Type 0} where
  unfoldable pub entry_for_vfd : ℕ → FileDescriptors H Event → Option Entry
  entry_for_vfd vfd s = find s.fds vfd

  unfoldable pub add_socket_pair : SocketPair → FileDescriptors H Event → Result H Event (Unit {0})
  add_socket_pair pair s =
      if s.machine_is_forked
      then done tt s
      else if leb 64 (length s.sockets)
      then throws too_many_sockets s
      else done tt (record s { sockets = s.sockets ++ (pair ∷ []) })

  unfoldable pub get_epoll_entry_for_vfd : ℕ → FileDescriptors H Event → ℕ × FileDescriptors H Event
  get_epoll_entry_for_vfd vfd s = elim (find s.epoll_fds vfd) [
    | some p ↦ (p, s)
    | none ↦ (
      length s.epoll_entries,
      record s {
        epoll_fds = insert_or_assign s.epoll_fds vfd (length s.epoll_entries);
        epoll_entries = s.epoll_entries ++ (record { epoll_fds = []; shared_epoll_fds = [] } ∷ []);
      },
    )
  ]

  unfoldable pub share_epoll_entry : ℕ → ℕ → ℕ → FileDescriptors H Event → FileDescriptors H Event
  share_epoll_entry p original_vfd ret s =
      let e = entry_at s.epoll_entries p in
      let shared = insert (insert e.shared_epoll_fds original_vfd) ret in
      record s {
        epoll_fds = insert_or_assign s.epoll_fds ret p;
        epoll_entries = set s.epoll_entries p (record e { shared_epoll_fds = shared });
      }

  unfoldable pub drop_vfd : ℕ → FileDescriptors H Event → FileDescriptors H Event
  drop_vfd vfd s = record s {
    fds = erase s.fds vfd;
    epoll_fds = erase s.epoll_fds vfd;
    sockets = remove_mentions s.sockets vfd;
  }

  -- The callback, which may reset the machine and then returns true, is a parameter.
  unfoldable pub free :
      Option (ℕ → Entry → FileDescriptors H Event → Bool × FileDescriptors H Event)
      → ℕ
      → FileDescriptors H Event
      → Result H Event Bool
  free none vfd s = done false (drop_vfd vfd s)
  free (some callback) vfd s = elim (find s.fds vfd) [
    | none ↦ throws out_of_range s
    | some entry ↦
        (let (was_reset, s') = callback vfd entry s in
          if was_reset then done true s' else done false (drop_vfd vfd s'))
  ]

module _ {H Event : Type 0} (host : Host H Event) where
  unfoldable pub manage_duplicate : ℕ → Option ℕ → Bool → FileDescriptors H Event → Result H Event ℕ
  manage_duplicate original_vfd none is_writable s = throws invalid_fd s
  manage_duplicate original_vfd (some fd) is_writable s = do
    (ret, s) ← manage host (some fd) is_writable s
    elim (find s.epoll_fds original_vfd) [
      | some p ↦ done ret (share_epoll_entry p original_vfd ret s)
      | none ↦ (do (_, s') ← add_socket_pair (dup_fd fd ret) s; done ret s')
    ]
