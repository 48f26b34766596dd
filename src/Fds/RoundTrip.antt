-- ===== src/Fds/RoundTrip.antt =====
-- What manage registers, translate finds and close takes away.
use tinykvm.Prelude.{
  ℕ, suc, ◌+◌, ◌<◌, ◌≡◌, refl, ap, sym, ◌∙◌, ◌≢◌, ◌⊎◌, Bool, false, Option, none, some, ltb, ◌==◌,
  if◌then◌else◌, done, state_of, u16, arith, inl, inr, Bool-cases, Option-cases, length,
}
use tinykvm.Fds.Map.{find, insert_or_assign, erase, find-insert_or_assign, find-erase}
use tinykvm.Fds.Host.{Host, Entry, FileDescriptors}
use tinykvm.Fds.Manage.{admit, manage, entry_for_vfd, free, drop_vfd}
use tinykvm.Fds.Translate.{translate, translate_fd}
use tinykvm.Fds.Calls.{close_call}

module _ {H Event : Type 0} (host : Host H Event) where
  pub admit_lem :
      (fd : ℕ) (s : FileDescriptors H Event)
      → 2 < fd
      → ((s.max_total_fds_opened ≡ 0) ⊎ (s.total_fds_opened < s.max_total_fds_opened))
      → length s.fds < s.max_files
      → admit host fd s ≡ done tt (record s { total_fds_opened = u16 (s.total_fds_opened + 1) })
  unfolding admit
  admit_lem fd s big (inl unlimited) room = ground (arith, big, unlimited, room)
  admit_lem fd s big (inr total) room = ground (arith, big, total, room)

  abbrev pub owned_entry : ℕ → Bool → Entry
  owned_entry fd w = record { real_fd = fd; is_writable = w; is_forked = false }

  abbrev pub managed_state : ℕ → Bool → FileDescriptors H Event → FileDescriptors H Event
  managed_state fd w s = record s {
    total_fds_opened = u16 (s.total_fds_opened + 1);
    fds = insert_or_assign s.fds s.next_fd (owned_entry fd w);
    next_fd = s.next_fd + 1;
  }

  pub manage_lem :
      (fd : ℕ) (w : Bool) (s : FileDescriptors H Event)
      → 2 < fd
      → ((s.max_total_fds_opened ≡ 0) ⊎ (s.total_fds_opened < s.max_total_fds_opened))
      → length s.fds < s.max_files
      → manage host (some fd) w s ≡ done s.next_fd (managed_state fd w s)
  unfolding manage
  manage_lem fd w s big total room = rw (admit_lem fd s big total room, manage) refl

  pub translate_lem :
      (find_master : ℕ → Option Entry) (fuel vfd : ℕ) (entry : Entry) (s : FileDescriptors H Event)
      → find s.fds vfd ≡ some entry
      → translate host find_master (suc fuel) vfd s ≡ done (some entry.real_fd) s
  unfolding translate
  translate_lem find_master fuel vfd entry s here = rw (here, translate) refl

  pub translate_fd_lem :
      (find_master : ℕ → Option Entry) (vfd : ℕ) (entry : Entry) (s : FileDescriptors H Event)
      → find s.fds vfd ≡ some entry
      → translate_fd host find_master vfd s ≡ done (some entry.real_fd) s
  unfolding translate_fd
  translate_fd_lem find_master vfd entry s here =
      let one_more : length s.epoll_fds + 1 ≡ suc (length s.epoll_fds) = omega arith in
      rw one_more (translate_lem find_master (length s.epoll_fds) vfd entry s here)

  pub close_call_lem :
      (vfd : ℕ) (entry : Entry) (s : FileDescriptors H Event)
      → 2 < vfd
      → find s.fds vfd ≡ some entry
      → entry.is_forked ≡ false
      → ((state_of (close_call host none vfd s)).fds ≡ erase s.fds vfd)
        × ((state_of (close_call host none vfd s)).host ≡ (host.close s.host entry.real_fd).1)
  unfolding close_call entry_for_vfd free drop_vfd
  close_call_lem vfd entry s high found owned =
      let other : ltb vfd 3 ≡ false = ground (arith, high) in
      elim (Option-cases (host.close s.host entry.real_fd).0) [
        | inl ok ↦ (
          rw (other, found, owned, ok, close_call, state_of) refl,
          rw (other, found, owned, ok, close_call, state_of) refl,
        )
        | inr (errno, bad) ↦ (
          rw (other, found, owned, bad, close_call, state_of) refl,
          rw (other, found, owned, bad, close_call, state_of) refl,
        )
      ]

  -- Within the limits, a real descriptor above 2 that is managed gets the next virtual descriptor,
  -- which translates to it, with every other entry as it was; and when that virtual descriptor is
  -- free and is closed again, without a callback on free, the machine has exactly the entries that
  -- it had, and the real descriptor is closed.
  pub manage-close_call :
      (find_master : ℕ → Option Entry) (fd : ℕ) (w : Bool) (s : FileDescriptors H Event)
      → 2 < fd
      → ((s.max_total_fds_opened ≡ 0) ⊎ (s.total_fds_opened < s.max_total_fds_opened))
      → length s.fds < s.max_files
      → 2 < s.next_fd
      → find s.fds s.next_fd ≡ none
      → (s' : FileDescriptors H Event) × (manage host (some fd) w s ≡ done s.next_fd s')
        × (translate_fd host find_master s.next_fd s' ≡ done (some fd) s')
        × ((v : ℕ) → v ≢ s.next_fd → find s'.fds v ≡ find s.fds v)
        × ((v : ℕ) → find (state_of (close_call host none s.next_fd s')).fds v ≡ find s.fds v)
        × ((state_of (close_call host none s.next_fd s')).host ≡ (host.close s.host fd).1)
  manage-close_call find_master fd w s big total room high new =
      let s' = managed_state fd w s in
      let here : find s'.fds s.next_fd ≡ some (owned_entry fd w) =
        find-insert_or_assign s.fds s.next_fd s.next_fd (owned_entry fd w) ∙ ground arith in
      let (erased, closed) = close_call_lem s.next_fd (owned_entry fd w) s' high here refl in
      (
        s',
        manage_lem fd w s big total room,
        translate_fd_lem find_master s.next_fd (owned_entry fd w) s' here,
        λ v other.
            find-insert_or_assign s.fds s.next_fd v (owned_entry fd w) ∙ ground (arith, other),
        λ v.
            ap (λ xs. find xs v) erased
            ∙ find-erase s'.fds s.next_fd v
            ∙ restored v (find-insert_or_assign s.fds s.next_fd v (owned_entry fd w)),
        closed,
      )
    where
      restored :
          (v : ℕ)
          → find (insert_or_assign s.fds s.next_fd (owned_entry fd w)) v
            ≡ (if s.next_fd == v then some (owned_entry fd w) else find s.fds v)
          → (if s.next_fd == v
              then none
              else find (insert_or_assign s.fds s.next_fd (owned_entry fd w)) v)
            ≡ find s.fds v
      restored v e = elim (Bool-cases (s.next_fd == v)) [
        | inl same ↦ let is_next : s.next_fd ≡ v = ground arith in rw (same, ← is_next) (sym new)
        | inr other ↦ rw other (rw e (rw other refl))
      ]
