-- ===== src/Fds/Tests.antt =====
-- A host, a master and a fork, and the theorems at concrete inputs.
use tinykvm.Prelude.{
  ℕ, ◌+◌, ◌≡◌, refl, ◌≢◌, Bool, true, false, ◌&&◌, ◌||◌, inr, List, [], ◌∷◌, Option, none, some,
  ltb, ◌==◌, if◌then◌else◌, state_of, arith, done,
}
use tinykvm.Fds.Host.{Answer, gives, fails, Host, Entry, FileDescriptors, catch}
use tinykvm.Fds.Owners.{owns, owners, Opens, OpensTwo, IsLawful, IsGood, Foreign, Isolates}
use tinykvm.Fds.Map.{find, erase, insert_or_assign}
use tinykvm.Fds.Manage.{manage, manage_duplicate, manage_as, admit, drop_vfd, close_fd, free}
use tinykvm.Fds.Translate.{translate, translate_fd, put_entry}
use tinykvm.Fds.Calls.{close_call, recorded, try_dup2, dup2_call, close_old, dup_over}
use tinykvm.Fds.Settled.{Settles, translate_fd-Settles}
use tinykvm.Fds.RoundTrip.{manage-close_call}
use tinykvm.Fds.Epolls.{member_of, controlled, manage_duplicate-Shares}
use tinykvm.Fds.Limits.{IsBounded}
use tinykvm.Fds.Bounds.{no_master, IsNoReset, run_fds-IsBounded}
use tinykvm.Fds.Reset.{destroy}
use tinykvm.Fds.Restored.{AreRecorded}
use tinykvm.Fds.Run.{
  Call, closes, dups, uses, makes_pipe, makes_epoll, resets, dupfds, IsAllowed, run,
  run_fds-Isolates,
}

-- A host that gives its descriptors in order.
pub record Table : Type 0 where
  pub next : ℕ
  pub in_use : ℕ → Bool

unfoldable pub opened_in : Table → ℕ → Bool
opened_in h fd = ltb fd h.next && h.in_use fd

unfoldable pub open_next : Table → Table
open_next h = record { next = h.next + 1; in_use = λ fd. fd == h.next || h.in_use fd }

unfoldable pub close_in : Table → ℕ → Option ℕ × Table
close_in h fd = (
  if opened_in h fd then none else some 9,
  record h { in_use = λ g. if g == fd then false else h.in_use g },
)

unfoldable pub dup_in : Table → ℕ → Answer Table ℕ
dup_in h fd = if opened_in h fd then gives h.next (open_next h) else fails 9

unfoldable pub open_two : Table → Answer Table (ℕ × ℕ)
open_two h = gives (h.next, h.next + 1) (open_next (open_next h))

abbrev table_host : Host Table ℕ
table_host = record {
  is_open = opened_in;
  close = close_in;
  dup = dup_in;
  eventfd = λ h. gives h.next (open_next h);
  epoll_create1 = λ h. gives h.next (open_next h);
  epoll_ctl = λ h epfd op fd event. gives tt h;
  pipe2 = open_two;
  socketpair = open_two;
  store_fds = λ h addr a b. some h;
  load_event = λ h addr. some 1;
  no_event = 0;
}

dup_in-Opens :
    (h : Table) (fd n : ℕ) (h' : Table) → dup_in h fd ≡ gives n h' → Opens table_host h n h'
unfolding dup_in opened_in open_next
dup_in-Opens h fd n h' e = record {
  new = ground (arith, e);
  opened = ground (arith, e);
  others = λ f o. ground (arith, e, o);
}

eventfd_in-Opens :
    (h : Table) (n : ℕ) (h' : Table)
    → gives h.next (open_next h) ≡ gives n h'
    → Opens table_host h n h'
unfolding opened_in open_next
eventfd_in-Opens h n h' e = record {
  new = ground (arith, e);
  opened = ground (arith, e);
  others = λ f o. ground (arith, e, o);
}

pipe2_in-Opens :
    (h : Table) (a b : ℕ) (h' : Table) → open_two h ≡ gives (a, b) h' → OpensTwo table_host h a b h'
unfolding opened_in open_next open_two
pipe2_in-Opens h a b h' e = record {
  different = ground (arith, e);
  first = record {
    new = ground (arith, e);
    opened = ground (arith, e);
    others = λ f o. ground (arith, e, o);
  };
  second = record {
    new = ground (arith, e);
    opened = ground (arith, e);
    others = λ f o. ground (arith, e, o);
  };
}

close_in_other :
    (h : Table) (fd f : ℕ) → f ≢ fd → opened_in h f ≡ true → opened_in (close_in h fd).1 f ≡ true
unfolding opened_in close_in
close_in_other h fd f other o = ground (arith, other, o)

table_host-IsLawful : IsLawful table_host
table_host-IsLawful = record {
  close_other = close_in_other;
  dup-Opens = dup_in-Opens;
  eventfd-Opens = eventfd_in-Opens;
  epoll_create1-Opens = eventfd_in-Opens;
  pipe2-Opens = pipe2_in-Opens;
  socketpair-Opens = pipe2_in-Opens;
  epoll_ctl_open = λ h epfd op fd event h' e f o. ground (arith, e, o);
  store_fds_open = λ h addr a b h' e f o. ground (arith, e, o);
}

abbrev entry : ℕ → Bool → Bool → Entry
entry fd w forked = record { real_fd = fd; is_writable = w; is_forked = forked }

-- A fork that owns the descriptors 3, 4 and 5 of the ten that are open.
abbrev fork : FileDescriptors Table ℕ
fork = record {
  host = record { next = 10; in_use = λ fd. true };
  machine_is_forked = true;
  fds = (0, entry 3 false false) ∷ (1, entry 4 true false) ∷ (2, entry 5 true false) ∷ [];
  next_fd = 0x1001;
  max_files = 256;
  total_fds_opened = 0;
  max_total_fds_opened = 8;
  epoll_fds = [];
  epoll_entries = [];
  sockets = [];
}

-- The master has its descriptor 6 as 0x1000.
abbrev master : ℕ → Option Entry
master vfd = if vfd == 0x1000 then some (entry 6 true false) else none

fork-IsGood : IsGood table_host fork.host fork.fds
unfolding owners owns opened_in
fork-IsGood = record { single = λ f. ground arith; held = λ f o. ground (arith, o) }

abbrev calls : List (Call Table ℕ)
calls = uses 0x1000 ∷ closes 0x1000 ∷ dups 0x1000 ∷ makes_pipe 8 ∷ closes 0x1001 ∷ resets fork ∷ []

run_fds-Isolates_example :
    Isolates table_host fork (run table_host master calls fork)
    × ((f : ℕ)
        → Foreign table_host fork.host fork.fds f
        → opened_in (destroy table_host (run table_host master calls fork)) f ≡ true)
unfolding IsAllowed AreRecorded
run_fds-Isolates_example =
    run_fds-Isolates table_host master table_host-IsLawful calls
      (tt, (tt, (tt, (tt, (tt, (tt, tt)))))) fork fork-IsGood

-- A master without a master, within its limits, whose epolls 7 and 8 are members of each other.
abbrev alone : FileDescriptors Table ℕ
alone = record fork {
  machine_is_forked = false;
  epoll_fds = (7, 0) ∷ (8, 1) ∷ [];
  epoll_entries =
      record { epoll_fds = (8, 1) ∷ []; shared_epoll_fds = [] }
      ∷ record { epoll_fds = (7, 1) ∷ []; shared_epoll_fds = [] }
      ∷ [];
}

alone-IsBounded : IsBounded 0x1001 alone
alone-IsBounded = record {
  word = omega arith;
  total = inr (omega arith, omega arith);
  files = omega arith;
}

abbrev more_calls : List (Call Table ℕ)
more_calls = makes_epoll ∷ dupfds 0x1001 ∷ makes_pipe 8 ∷ closes 0x1001 ∷ []

run_fds-IsBounded_example : IsBounded 0x1001 (run table_host no_master more_calls alone)
unfolding IsNoReset
run_fds-IsBounded_example =
    run_fds-IsBounded table_host 0x1001 more_calls (tt, (tt, (tt, (tt, tt)))) alone alone-IsBounded

-- Both epolls are the master's.
abbrev epoll_master : ℕ → Option Entry
epoll_master vfd = some (entry 6 true false)

translate_fd-Settles_example : Settles alone (translate_fd table_host epoll_master 7 alone)
translate_fd-Settles_example = translate_fd-Settles table_host epoll_master 7 alone

manage-close_call_example :
    (s' : FileDescriptors Table ℕ) × (manage table_host (some 9) true fork ≡ done 0x1001 s')
    × (translate_fd table_host master 0x1001 s' ≡ done (some 9) s')
    × ((v : ℕ) → v ≢ 0x1001 → find s'.fds v ≡ find fork.fds v)
    × ((v : ℕ) → find (state_of (close_call table_host none 0x1001 s')).fds v ≡ find fork.fds v)
    × ((state_of (close_call table_host none 0x1001 s')).host ≡ (close_in fork.host 9).1)
unfolding find
manage-close_call_example =
    manage-close_call table_host master 9 true fork (omega arith) (inr (omega arith)) (omega arith)
      (omega arith) refl

manage_duplicate-Shares_example :
    (s' : FileDescriptors Table ℕ) × (manage_duplicate table_host 7 (some 9) true alone
      ≡ done 0x1001 s')
    × ((op member : ℕ) (event : ℕ) (k : ℕ)
        → (member_of (recorded op member event 0x1001 s') 7 k
            ≡ controlled op member event (member_of alone 7 k) k)
          × (member_of (recorded op member event 7 s') 0x1001 k
              ≡ controlled op member event (member_of alone 7 k) k))
unfolding find
manage_duplicate-Shares_example =
    manage_duplicate-Shares table_host 7 0 9 true alone (omega arith) (inr (omega arith))
      (omega arith) refl (omega arith) (λ e. absurd (omega (arith, e)))

-- dup2 over the vfd of the master's descriptor 6 closes it.
dup2_closes_the_masters :
    opened_in (state_of (dup2_call table_host master none 1 0x1000 fork)).host 6 ≡ false
unfolding dup2_call try_dup2 translate_fd translate find opened_in catch close_old free dup_over
    dup_in drop_vfd close_fd close_in put_entry manage_as admit erase insert_or_assign open_next
dup2_closes_the_masters = refl
