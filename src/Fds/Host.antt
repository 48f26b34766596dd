-- ===== src/Fds/Host.antt =====
-- The state of lib/tinykvm/linux/fds.hpp, and the system calls of the host that it makes. A virtual
-- or real file descriptor is a number, and -1 is `none`; m_next_fd does not overflow. The entries of
-- m_epoll_fds are shared: a pointer to one is its place in `epoll_entries`.
use tinykvm.Prelude.{ℕ, Bool, List, [], Option, none, some, done, throws, get_elem?}
use tinykvm.Prelude.Outcome.{Outcome}

-- What a system call of the host gives: a value, or an errno.
pub data Answer (H A : Type 0) : Type 0 where
  gives : A → H → Answer H A
  fails : ℕ → Answer H A

-- The host, whose state H includes the guest's memory. `store_fds` and `load_event` are
-- copy_to_guest of a pair of descriptors and copy_from_guest of an epoll_event, which may fault.
pub record Host (H Event : Type 0) : Type 0 where
  pub is_open : H → ℕ → Bool
  pub close : H → ℕ → Option ℕ × H
  pub dup : H → ℕ → Answer H ℕ
  pub eventfd : H → Answer H ℕ
  pub epoll_create1 : H → Answer H ℕ
  pub epoll_ctl : H → (epfd op fd : ℕ) → Event → Answer H (Unit {0})
  pub pipe2 : H → Answer H (ℕ × ℕ)
  pub socketpair : H → Answer H (ℕ × ℕ)
  pub store_fds : H → (addr vfd1 vfd2 : ℕ) → Option H
  pub load_event : H → ℕ → Option Event
  pub no_event : Event

-- FileDescriptors::Entry.
pub record Entry : Type 0 where
  pub real_fd : ℕ
  pub is_writable : Bool
  pub is_forked : Bool

pub record EpollEntry (Event : Type 0) : Type 0 where
  pub epoll_fds : List (ℕ × Event)
  pub shared_epoll_fds : List ℕ

-- SocketPair, with the fields that each SocketType uses: vfd1 and vfd2, but for an EVENTFD, whose
-- vfd2 is -1.
pub data SocketPair : Type 0 where
  invalid_pair : (vfd1 vfd2 : ℕ) → SocketPair
  pipe2_pair : (vfd1 vfd2 : ℕ) → SocketPair
  socket_pair : (vfd1 vfd2 : ℕ) → SocketPair
  event_fd : (vfd1 : ℕ) → SocketPair
  dup_fd : (vfd1 vfd2 : ℕ) → SocketPair
  listen_fd : (vfd1 vfd2 : ℕ) → SocketPair

pub data FdError : Type 0 where
  invalid_fd : FdError
  too_many_in_total : FdError
  too_many_files : FdError
  too_many_sockets : FdError
  not_writable : FdError
  out_of_range : FdError
  host_failed : FdError
  untranslatable : FdError
  guest_fault : FdError
  out_of_fuel : FdError

pub record FileDescriptors (H Event : Type 0) : Type 0 where
  pub host : H
  pub machine_is_forked : Bool
  pub fds : List (ℕ × Entry)
  pub next_fd : ℕ
  pub max_files : ℕ
  pub total_fds_opened : ℕ
  pub max_total_fds_opened : ℕ
  pub epoll_fds : List (ℕ × ℕ)
  pub epoll_entries : List (EpollEntry Event)
  pub sockets : List SocketPair

abbrev pub Result : Type 0 → Type 0 → Type 0 → Type 0
Result H Event A = Outcome FdError (FileDescriptors H Event) A

-- `*ptr` of an entry of m_epoll_fds; the pointers are never out of the list.
unfoldable pub entry_at : {Event : Type 0} → List (EpollEntry Event) → ℕ → EpollEntry Event
entry_at entries p = elim (get_elem? entries p) [
  | some entry ↦ entry
  | none ↦ record { epoll_fds = []; shared_epoll_fds = [] }
]

-- try { ... } catch (...) { rax = x; }
unfoldable pub catch : {H Event A : Type 0} → Result H Event A → A → Result H Event A
catch (done a s) x = done a s
catch (throws e s) x = done x s
