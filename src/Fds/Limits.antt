-- ===== src/Fds/Limits.antt =====
-- The limits on open descriptors, of a machine without a master.
use tinykvm.Prelude.{
  ℕ, ◌+◌, ◌^◌, ◌≤◌, ◌<◌, ◌≡◌, ◌⊎◌, Bool, true, false, List, none, some, ltb, leb, ◌>>=◌, done,
  throws, state_of, arith, inl, inr, Bool-cases, Option-cases, length, u16,
}
use tinykvm.Fds.Map.{find, insert_or_assign, erase, length-insert_or_assign, length-erase}
use tinykvm.Fds.Host.{
  Host, Entry, SocketPair, pipe2_pair, socket_pair, event_fd, FileDescriptors, Result, catch,
}
use tinykvm.Fds.Manage.{
  close_fd, manage, entry_for_vfd, add_socket_pair, share_epoll_entry, drop_vfd, free,
  manage_duplicate,
}
use tinykvm.Fds.Calls.{
  close_call, tell, manage_two, pipe2_call, socketpair_call, eventfd2_call, epoll_create1_call,
}
use tinykvm.Fds.Managed.{invalid, refused, admitted, admit-Admission}
use tinykvm.Fds.Translated.{Answer-cases}

-- max_total_fds_opened is a 16-bit number; where it is not 0, it bounds the counter, and the counter
-- has moved on as far as the next virtual descriptor, from `origin` on. The descriptors managed at a
-- time are bounded by max_files.
pub record Bounded (origin : ℕ) (fds : List (ℕ × Entry)) (max_files opened max_total next_fd : ℕ)
    : Type 0 where
  pub word : max_total < 2 ^ 16
  pub total : (max_total ≡ 0) ⊎ ((opened ≤ max_total) × (next_fd ≡ origin + opened))
  pub files : length fds ≤ max_files

module _ {H Event : Type 0} where
  abbrev pub IsBounded : ℕ → FileDescriptors H Event → Type 0
  IsBounded origin s =
      Bounded origin s.fds s.max_files s.total_fds_opened s.max_total_fds_opened s.next_fd

  abbrev pub KeepsBounds : {A : Type 0} → ℕ → (FileDescriptors H Event → Result H Event A) → Type 0
  KeepsBounds origin op =
      (s : FileDescriptors H Event) → IsBounded origin s → IsBounded origin (state_of (op s))

module _ {H Event : Type 0} {origin : ℕ} where
  pub catch-Bounded :
      {A : Type 0} (o : Result H Event A) (a : A)
      → IsBounded origin (state_of o)
      → IsBounded origin (state_of (catch o a))
  unfolding catch
  catch-Bounded (done b t) a i = i
  catch-Bounded (throws e t) a i = i

  pub bind-Bounded :
      {A B : Type 0} (o : Result H Event A) (k : A × FileDescriptors H Event → Result H Event B)
      → IsBounded origin (state_of o)
      → ((a : A) (s : FileDescriptors H Event)
          → IsBounded origin s
          → IsBounded origin (state_of (k (a, s))))
      → IsBounded origin (state_of (o >>= k))
  bind-Bounded (done a s) k b rest = rest a s b
  bind-Bounded (throws e s) k b rest = b

  pub insert-Bounded :
      (e : Entry) (s : FileDescriptors H Event)
      → IsBounded origin s
      → ((s.max_total_fds_opened ≡ 0) ⊎ (s.total_fds_opened < s.max_total_fds_opened))
      → length s.fds < s.max_files
      → Bounded origin
          (insert_or_assign s.fds s.next_fd e)
          s.max_files
          (u16 (s.total_fds_opened + 1))
          s.max_total_fds_opened
          (s.next_fd + 1)
  insert-Bounded e s b total room = record {
    word = b.word;
    total = ground (arith, total, b.word, b.total);
    files = omega (arith, room, length-insert_or_assign s.fds s.next_fd e);
  }

  pub add_socket_pair-Bounded :
      (pair : SocketPair) → KeepsBounds {H = H} {Event = Event} origin (add_socket_pair pair)
  unfolding add_socket_pair
  add_socket_pair-Bounded pair s b = elim (Bool-cases s.machine_is_forked) [
    | inl forked ↦ rw (forked, state_of) b
    | inr master ↦ elim (Bool-cases (leb 64 (length s.sockets))) [
      | inl full ↦ rw (master, full, state_of) b
      | inr room ↦ rw (master, room, state_of) b
    ]
  ]

module _ {H Event : Type 0} (host : Host H Event) {origin : ℕ} where
  pub manage-Bounded : (fd : ℕ) (w : Bool) → KeepsBounds origin (manage host (some fd) w)
  unfolding manage close_fd
  manage-Bounded fd w s b = elim (admit-Admission host fd s) [
    | invalid e ↦ rw e b
    | refused _ e ↦ rw e b
    | admitted e _ total room ↦ rw e (insert-Bounded _ s b total room)
  ]

  pub manage_duplicate-Bounded :
      (vfd fd : ℕ) (w : Bool) → KeepsBounds origin (manage_duplicate host vfd (some fd) w)
  unfolding manage_duplicate share_epoll_entry
  manage_duplicate-Bounded vfd fd w s b =
      bind-Bounded (manage host (some fd) w s) _ (manage-Bounded fd w s b) (λ ret t i.
        elim (Option-cases (find t.epoll_fds vfd)) [
          | inr (p, shared) ↦ rw (shared, state_of) i
          | inl plain ↦
              rw plain
                (bind-Bounded (add_socket_pair _ t) _ (add_socket_pair-Bounded _ t i) (λ _ _ j. j))
        ])

  pub close_call-Bounded : (vfd : ℕ) → KeepsBounds origin (close_call host none vfd)
  unfolding close_call entry_for_vfd free drop_vfd
  close_call-Bounded vfd s b = elim (Bool-cases (ltb vfd 3)) [
    | inl std ↦ rw (std, state_of) b
    | inr other ↦ elim (Option-cases (find s.fds vfd)) [
      | inl unknown ↦ rw (other, unknown, state_of) b
      | inr (entry, found) ↦ elim (Bool-cases entry.is_forked) [
        | inl forked ↦ rw (other, found, forked, state_of) b
        | inr owned ↦ elim (Option-cases (host.close s.host entry.real_fd).0) [
          | inl ok ↦ rw (other, found, owned, ok, state_of) erased
          | inr (errno, bad) ↦ rw (other, found, owned, bad, state_of) erased
        ]
      ]
    ]
  ]
    where
      erased :
          Bounded origin
            (erase s.fds vfd)
            s.max_files
            s.total_fds_opened
            s.max_total_fds_opened
            s.next_fd
      erased = record {
        word = b.word;
        total = b.total;
        files = omega (arith, b.files, length-erase s.fds vfd);
      }

  pub tell-Bounded :
      (pair : SocketPair) (addr vfd1 vfd2 : ℕ) → KeepsBounds origin (tell host pair addr vfd1 vfd2)
  unfolding tell
  tell-Bounded pair addr vfd1 vfd2 s b =
      elim (Option-cases (host.store_fds s.host addr vfd1 vfd2)) [
        | inl fault ↦ rw (fault, state_of) b
        | inr (h, e) ↦
            rw (e, state_of)
              (bind-Bounded (add_socket_pair pair (record s { host = h })) _
                (add_socket_pair-Bounded pair (record s { host = h }) b) (λ _ _ j. j))
      ]

  pub manage_two-Bounded :
      (make : ℕ → ℕ → SocketPair) (addr a b : ℕ)
      → KeepsBounds origin (manage_two host make addr a b)
  unfolding manage_two
  manage_two-Bounded make addr a b s i =
      bind-Bounded (manage host (some a) true s) _ (manage-Bounded a true s i) (λ vfd1 t j.
        bind-Bounded (manage host (some b) true t) _ (manage-Bounded b true t j)
          (λ vfd2 u k. tell-Bounded (make vfd1 vfd2) addr vfd1 vfd2 u k))

  pub pipe2_call-Bounded : (addr : ℕ) → KeepsBounds origin (pipe2_call host addr)
  unfolding pipe2_call
  pipe2_call-Bounded addr s i = elim (Answer-cases (host.pipe2 s.host)) [
    | inr (errno, e) ↦ rw (e, state_of) i
    | inl ((a, b), h, e) ↦
        rw (e, state_of) (manage_two-Bounded pipe2_pair addr a b (record s { host = h }) i)
  ]

  pub socketpair_call-Bounded : (addr : ℕ) → KeepsBounds origin (socketpair_call host addr)
  unfolding socketpair_call
  socketpair_call-Bounded addr s i = elim (Answer-cases (host.socketpair s.host)) [
    | inr (errno, e) ↦ rw (e, state_of) i
    | inl ((a, b), h, e) ↦
        rw (e, state_of) (manage_two-Bounded socket_pair addr a b (record s { host = h }) i)
  ]

  pub eventfd2_call-Bounded : KeepsBounds origin (eventfd2_call host)
  unfolding eventfd2_call manage
  eventfd2_call-Bounded s i = elim (Answer-cases (host.eventfd s.host)) [
    | inr (errno, e) ↦ rw (e, state_of) i
    | inl (n, h, e) ↦
        rw (e, state_of)
          (bind-Bounded (manage host (some n) true (record s { host = h })) _
            (manage-Bounded n true (record s { host = h }) i)
            (λ vfd u j.
              bind-Bounded (add_socket_pair (event_fd vfd) u) _
                (add_socket_pair-Bounded (event_fd vfd) u j) (λ _ _ k. k)))
  ]

  pub epoll_create1_call-Bounded : KeepsBounds origin (epoll_create1_call host)
  unfolding epoll_create1_call
  epoll_create1_call-Bounded s i = elim (Answer-cases (host.epoll_create1 s.host)) [
    | inr (errno, e) ↦ rw (e, state_of) i
    | inl (n, h, e) ↦ rw (e, state_of) (manage-Bounded n false (record s { host = h }) i)
  ]
