-- ===== src/Fds/Epolls.antt =====
-- What epoll_ctl records, and who sees it: duplicates of an epoll share one entry.
use tinykvm.Prelude.{
  ℕ, ◌<◌, ◌≡◌, refl, ap, ◌∙◌, ◌≢◌, ◌⊎◌, Bool, ◌||◌, List, Option, none, some, ◌==◌, if◌then◌else◌,
  ◌>>=◌, done, arith, inl, inr, Bool-cases, length, set, get_elem?-set_self, get_elem?-set_ne,
  length-set,
}
use tinykvm.Fds.Map.{find, insert, find-insert_or_assign, find-erase}
use tinykvm.Fds.Host.{Host, EpollEntry, FileDescriptors, entry_at}
use tinykvm.Fds.Manage.{manage_duplicate, share_epoll_entry, get_epoll_entry_for_vfd}
use tinykvm.Fds.Calls.{record_event, recorded}
use tinykvm.Fds.RoundTrip.{managed_state, manage_lem}

module _ {Event : Type 0} where
  -- What EPOLL_CTL_ADD and EPOLL_CTL_MOD, EPOLL_CTL_DEL and other operations make of that.
  unfoldable pub controlled : (op vfd : ℕ) → Event → Option Event → ℕ → Option Event
  controlled op vfd event before k =
      if op == 1 || op == 3
      then (if vfd == k then some event else before)
      else if op == 2
      then (if vfd == k then none else before)
      else before

  pub entry_at-set_self :
      (entries : List (EpollEntry Event)) (p : ℕ) (e : EpollEntry Event)
      → p < length entries
      → entry_at (set entries p e) p ≡ e
  unfolding entry_at
  entry_at-set_self entries p e inside = rw (get_elem?-set_self entries p e inside, entry_at) refl

  pub entry_at-set_ne :
      (entries : List (EpollEntry Event)) (p q : ℕ) (e : EpollEntry Event)
      → p ≢ q
      → entry_at (set entries p e) q ≡ entry_at entries q
  unfolding entry_at
  entry_at-set_ne entries p q e other = rw (get_elem?-set_ne entries p q e other, entry_at) refl

module _ {H Event : Type 0} where
  -- The event that the epoll `vfd` has for a member.
  unfoldable pub member_of : FileDescriptors H Event → (vfd member : ℕ) → Option Event
  member_of s vfd member = elim (find s.epoll_fds vfd) [
    | none ↦ none
    | some p ↦ find (entry_at s.epoll_entries p).epoll_fds member
  ]

  pub record_event-controlled :
      (op vfd : ℕ) (event : Event) (p : ℕ) (s : FileDescriptors H Event) (k : ℕ)
      → p < length s.epoll_entries
      → find (entry_at (record_event op vfd event p s).epoll_entries p).epoll_fds k
        ≡ controlled op vfd event (find (entry_at s.epoll_entries p).epoll_fds k) k
  unfolding record_event controlled
  record_event-controlled op vfd event p s k inside = elim (Bool-cases (op == 1 || op == 3)) [
    | inl adds ↦
        rw (adds, record_event, controlled)
          (rw (entry_at-set_self s.epoll_entries p _ inside)
            (find-insert_or_assign (entry_at s.epoll_entries p).epoll_fds vfd k event))
    | inr other ↦ elim (Bool-cases (op == 2)) [
      | inl removes ↦
          rw (other, removes, record_event, controlled)
            (rw (entry_at-set_self s.epoll_entries p _ inside)
              (find-erase (entry_at s.epoll_entries p).epoll_fds vfd k))
      | inr neither ↦ rw (other, neither, record_event, controlled) refl
    ]
  ]

  pub record_event-epoll_fds :
      (op vfd : ℕ) (event : Event) (p : ℕ) (s : FileDescriptors H Event)
      → (record_event op vfd event p s).epoll_fds ≡ s.epoll_fds
  unfolding record_event
  record_event-epoll_fds op vfd event p s = elim (Bool-cases (op == 1 || op == 3)) [
    | inl adds ↦ rw (adds, record_event) refl
    | inr other ↦ elim (Bool-cases (op == 2)) [
      | inl removes ↦ rw (other, removes, record_event) refl
      | inr neither ↦ rw (other, neither, record_event) refl
    ]
  ]

  pub member_of_lem :
      (s : FileDescriptors H Event) (v p k : ℕ)
      → find s.epoll_fds v ≡ some p
      → member_of s v k ≡ find (entry_at s.epoll_entries p).epoll_fds k
  unfolding member_of
  member_of_lem s v p k known = rw (known, member_of) refl

  pub recorded_lem :
      (op vfd : ℕ) (event : Event) (v p : ℕ) (s : FileDescriptors H Event)
      → find s.epoll_fds v ≡ some p
      → recorded op vfd event v s ≡ record_event op vfd event p s
  unfolding recorded get_epoll_entry_for_vfd
  recorded_lem op vfd event v p s known = rw (known, recorded, get_epoll_entry_for_vfd) refl

  -- What is recorded for one vfd shows for every vfd with the same entry.
  pub recorded-Shares :
      (op member : ℕ) (event : Event) (v w p : ℕ) (s : FileDescriptors H Event)
      → find s.epoll_fds v ≡ some p
      → find s.epoll_fds w ≡ some p
      → p < length s.epoll_entries
      → (k : ℕ)
      → member_of (recorded op member event v s) w k
        ≡ controlled op member event (find (entry_at s.epoll_entries p).epoll_fds k) k
  recorded-Shares op member event v w p s known shared inside k =
      let still : find (record_event op member event p s).epoll_fds w ≡ some p =
        ap (λ xs. find xs w) (record_event-epoll_fds op member event p s) ∙ shared in
      rw (recorded_lem op member event v p s known) (
        member_of_lem (record_event op member event p s) w p k still
        ∙ record_event-controlled op member event p s k inside)

module _ {H Event : Type 0} (host : Host H Event) where
  -- A duplicate, as of fcntl(F_DUPFD_CLOEXEC), of a descriptor that is an epoll shares its entry:
  -- within the limits, and where the next virtual descriptor is another one, an operation of
  -- epoll_ctl that is recorded for the duplicate or for the original shows in both, as added or
  -- changed, as removed, or not at all, and leaves the other members as they were.
  pub manage_duplicate-Shares :
      (v p fd : ℕ) (w : Bool) (s : FileDescriptors H Event)
      → 2 < fd
      → ((s.max_total_fds_opened ≡ 0) ⊎ (s.total_fds_opened < s.max_total_fds_opened))
      → length s.fds < s.max_files
      → find s.epoll_fds v ≡ some p
      → p < length s.epoll_entries
      → v ≢ s.next_fd
      → (s' : FileDescriptors H Event) × (manage_duplicate host v (some fd) w s ≡ done s.next_fd s')
        × ((op member : ℕ) (event : Event) (k : ℕ)
            → (member_of (recorded op member event s.next_fd s') v k
                ≡ controlled op member event (member_of s v k) k)
              × (member_of (recorded op member event v s') s.next_fd k
                  ≡ controlled op member event (member_of s v k) k))
  unfolding manage_duplicate share_epoll_entry
  manage_duplicate-Shares v p fd w s big total room known inside other =
      let t = managed_state host fd w s in
      let s' = share_epoll_entry p v s.next_fd t in
      let new : find s'.epoll_fds s.next_fd ≡ some p =
        find-insert_or_assign s.epoll_fds s.next_fd s.next_fd p ∙ ground arith in
      let old : find s'.epoll_fds v ≡ some p =
        find-insert_or_assign s.epoll_fds s.next_fd v p ∙ ground (arith, other, known) in
      let still : p < length s'.epoll_entries =
        omega (arith, inside, length-set s.epoll_entries p) in
      (
        s',
        rw (manage_lem host fd w s big total room, ◌>>=◌, known) refl,
        λ op member event k. (
          recorded-Shares op member event s.next_fd v p s' new old still k
              ∙ before op member event k,
          recorded-Shares op member event v s.next_fd p s' old new still k
              ∙ before op member event k,
        ),
      )
    where
      before :
          (op member : ℕ) (event : Event) (k : ℕ)
          → controlled op member event
              (find
                (entry_at
                  (share_epoll_entry p v s.next_fd (managed_state host fd w s)).epoll_entries
                  p).epoll_fds
                k)
              k
            ≡ controlled op member event (member_of s v k) k
      before op member event k =
          rw
            (
              entry_at-set_self s.epoll_entries p
                  (record (entry_at s.epoll_entries p) {
                    shared_epoll_fds =
                        insert (insert (entry_at s.epoll_entries p).shared_epoll_fds v) s.next_fd;
                  })
                  inside,
              member_of_lem s v p k known,
            )
            refl
