-- ===== src/Fds/Translate.antt =====
-- FileDescriptors::translate and its kin, and create_epoll_entry_from, of lib/tinykvm/linux/fds.cpp.
-- translate calls itself for the members of an epoll, so it takes fuel. The callback that finds an
-- entry of the master machine is `find_master`, which finds nothing where it is not set.
use tinykvm.Prelude.{
  ℕ, zero, suc, ◌+◌, Bool, true, false, not, ◌&&◌, List, [], ◌∷◌, Option, none, some, done, throws,
  ◌>>=◌, ◌==◌, if◌then◌else◌, length,
}
use tinykvm.Fds.Map.{find, insert_or_assign}
use tinykvm.Fds.Host.{
  gives, fails, Host, Entry, EpollEntry, not_writable, host_failed, untranslatable, out_of_fuel,
  FileDescriptors, Result, entry_at,
}
use tinykvm.Fds.Manage.{manage_as}

abbrev pub eexist : ℕ
eexist = 17

abbrev pub epoll_ctl_add : ℕ
epoll_ctl_add = 1

-- The first other vfd that shares the epoll entry and is managed here.
unfoldable pub find_shared : List (ℕ × Entry) → ℕ → List ℕ → Option Entry
find_shared fds vfd [] = none
find_shared fds vfd (shared_vfd ∷ rest) =
    if shared_vfd == vfd
    then find_shared fds vfd rest
    else elim (find fds shared_vfd) [ some entry ↦ some entry | none ↦ find_shared fds vfd rest ]

module _ {H Event : Type 0} (host : Host H Event) where
  unfoldable pub put_entry :
      ℕ
      → (real_fd : ℕ) → (is_writable is_forked : Bool) → FileDescriptors H Event
      → FileDescriptors H Event
  put_entry vfd real_fd is_writable is_forked s =
      let entry : Entry = record {
        real_fd = real_fd;
        is_writable = is_writable;
        is_forked = is_forked;
      } in
      record s { fds = insert_or_assign s.fds vfd entry }

  -- One member of the epoll, and the rest of the loop.
  unfoldable pub add_member :
      (FileDescriptors H Event → Result H Event (Unit {0}))
      → ℕ
      → Event
      → Option ℕ
      → FileDescriptors H Event
      → Result H Event (Unit {0})
  add_member go_on new_fd event none s = throws untranslatable s
  add_member go_on new_fd event (some fd) s =
      elim (host.epoll_ctl s.host new_fd epoll_ctl_add fd event) [
        | gives _ h ↦ go_on (record s { host = h })
        | fails errno ↦ if errno == eexist then go_on s else throws host_failed s
      ]

  -- The loop over the members of the epoll; `translated` is the call of translate.
  unfoldable pub add_members :
      (ℕ → FileDescriptors H Event → Result H Event (Option ℕ))
      → ℕ
      → List (ℕ × Event)
      → FileDescriptors H Event
      → Result H Event (Unit {0})
  add_members translated new_fd [] s = done tt s
  add_members translated new_fd ((entry_vfd, event) ∷ rest) s =
      translated entry_vfd s >>= λ (real_fd, s).
      add_member (add_members translated new_fd rest) new_fd event real_fd s

  unfoldable pub new_epoll :
      (ℕ → FileDescriptors H Event → Result H Event (Option ℕ))
      → ℕ
      → EpollEntry Event
      → FileDescriptors H Event
      → Result H Event (Option ℕ)
  new_epoll translated vfd epoll_entry s = elim (host.epoll_create1 s.host) [
    | fails errno ↦ throws host_failed s
    | gives new_fd h ↦
        add_members translated new_fd epoll_entry.epoll_fds
          (put_entry vfd new_fd true false (record s { host = h }))
        >>= λ (_, s). done (some new_fd) s
  ]

  -- The same in create_epoll_entry_from, which passes over what has no descriptor here.
  unfoldable pub add_if_possible :
      (FileDescriptors H Event → Result H Event (Unit {0}))
      → ℕ
      → Event
      → Option ℕ
      → FileDescriptors H Event
      → Result H Event (Unit {0})
  add_if_possible go_on real_fd event none s = go_on s
  add_if_possible go_on real_fd event (some fd) s =
      elim (host.epoll_ctl s.host real_fd epoll_ctl_add fd event) [
        | gives _ h ↦ go_on (record s { host = h })
        | fails errno ↦ throws host_failed s
      ]

  module _ (find_master : ℕ → Option Entry) where
    unfoldable pub translate : ℕ → ℕ → FileDescriptors H Event → Result H Event (Option ℕ)
    translate zero vfd s = throws out_of_fuel s
    translate (suc fuel) vfd s = elim (find s.fds vfd) [
      | some entry ↦ done (some entry.real_fd) s
      | none ↦ elim (find_master vfd) [
        | none ↦ done none s
        | some entry ↦ elim (find s.epoll_fds vfd) [
          | none ↦ done (some entry.real_fd) (put_entry vfd entry.real_fd entry.is_writable true s)
          | some p ↦ elim (find_shared s.fds vfd (entry_at s.epoll_entries p).shared_epoll_fds) [
            | some shared ↦
                done (some shared.real_fd) (put_entry vfd shared.real_fd shared.is_writable true s)
            | none ↦ new_epoll (translate fuel) vfd (entry_at s.epoll_entries p) s
          ]
        ]
      ]
    ]

    -- Every call that goes deeper registers an epoll vfd that was not managed.
    unfoldable pub translate_fd : ℕ → FileDescriptors H Event → Result H Event (Option ℕ)
    translate_fd vfd s = translate (length s.epoll_fds + 1) vfd s

    unfoldable pub translate_writable_vfd : ℕ → FileDescriptors H Event → Result H Event (Option ℕ)
    translate_writable_vfd vfd s = elim (find s.fds vfd) [
      | some entry ↦
          if not entry.is_writable then throws not_writable s else done (some entry.real_fd) s
      | none ↦ elim (find_master vfd) [
        | none ↦ done none s
        | some entry ↦
            if not entry.is_writable
            then throws not_writable s
            else done (some entry.real_fd) (put_entry vfd entry.real_fd entry.is_writable true s)
      ]
    ]

    -- `func` is a call of the host, which duplicates the descriptor of an entry; here it does not fail.
    unfoldable pub translate_unless_forked_then :
        ℕ → (Entry → H → ℕ × H) → Bool → FileDescriptors H Event → Result H Event (Option ℕ)
    translate_unless_forked_then vfd func must_be_writable s = elim (find s.fds vfd) [
      | some entry ↦
          if not entry.is_writable && must_be_writable
          then throws not_writable s
          else if entry.is_forked
          then (let (fd, h) = func entry s.host in done (some fd) (record s { host = h }))
          else done (some entry.real_fd) s
      | none ↦ elim (find_master vfd) [
        | none ↦ done none s
        | some entry ↦
            if not entry.is_writable && must_be_writable
            then throws not_writable s
            else (let (new_fd, h) = func entry s.host in
                done (some new_fd)
                  (put_entry vfd new_fd entry.is_writable false (record s { host = h })))
      ]
    ]

    unfoldable pub add_translated :
        ℕ → List (ℕ × Event) → FileDescriptors H Event → Result H Event (Unit {0})
    add_translated real_fd [] s = done tt s
    add_translated real_fd ((efd_vfd, event) ∷ rest) s =
        translate_fd efd_vfd s >>= λ (efd_real_fd, s).
        add_if_possible (add_translated real_fd rest) real_fd event efd_real_fd s

    unfoldable pub create_epoll_entry_from :
        ℕ → EpollEntry Event → FileDescriptors H Event → Result H Event (Unit {0})
    create_epoll_entry_from vfd entry s = elim (host.epoll_create1 s.host) [
      | fails errno ↦ throws host_failed s
      | gives real_fd h ↦ manage_as host vfd real_fd true (record s { host = h }) >>= λ (_, s).
          add_translated real_fd entry.epoll_fds s
    ]

module _ {H Event : Type 0} where
  unfoldable pub translate_unless_forked : ℕ → FileDescriptors H Event → Option ℕ
  translate_unless_forked vfd s = elim (find s.fds vfd) [
    | some entry ↦ if entry.is_forked then none else some entry.real_fd
    | none ↦ none
  ]
