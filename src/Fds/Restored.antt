-- ===== src/Fds/Restored.antt =====
-- What the constructor, the destructor and reset_to do to the descriptors of others.
use tinykvm.Prelude.{
  ℕ, ◌≡◌, refl, ap, Bool, true, false, not, ◌&&◌, List, [], ◌∷◌, ltb, ◌>>=◌, state_of, arith, inl,
  inr, Bool-cases, Option-cases,
}
use tinykvm.Fds.Host.{
  Host, Entry, EpollEntry, SocketPair, invalid_pair, pipe2_pair, socket_pair, event_fd, dup_fd,
  listen_fd, FileDescriptors, entry_at,
}
use tinykvm.Fds.Manage.{manage_as}
use tinykvm.Fds.Reset.{
  close_all, destroy, create_socket_pairs_from, create_all, copy_epoll_fds, find_pointer, clear_to,
  reset_to,
}
use tinykvm.Fds.Owners.{
  owns, owners, owns_self, IsLawful, Opens, OpensTwo, IsGood, Foreign, Isolates, Spares-refl,
  Spares-trans, state_of-bind,
}
use tinykvm.Fds.Managed.{manage_as-Adopts, opened-Isolates, opened_two-Isolates}
use tinykvm.Fds.Translated.{Answer-cases, KeepsOthers}

-- The pairs that a machine records by itself: the source makes no LISTEN pair.
unfoldable pub is_listener : SocketPair → Bool
is_listener (listen_fd vfd1 vfd2) = true
is_listener _ = false

abbrev pub IsRecorded : SocketPair → Type 0
IsRecorded sp = is_listener sp ≡ false

unfoldable pub AreRecorded : List SocketPair → Type 0
AreRecorded [] = Unit
AreRecorded (sp ∷ rest) = IsRecorded sp × AreRecorded rest

module _ {H Event : Type 0} (host : Host H Event) (lawful : IsLawful host) where
  -- Closing what a list of entries owns leaves everything else open.
  pub close_all_open :
      (fds : List (ℕ × Entry)) (h : H) (f : ℕ)
      → owners fds f ≡ 0
      → host.is_open h f ≡ true
      → host.is_open (close_all host fds h) f ≡ true
  unfolding close_all owners
  close_all_open [] h f none_owned o = o
  close_all_open ((vfd, entry) ∷ rest) h f none_owned o =
      elim (Bool-cases (ltb 2 entry.real_fd && not entry.is_forked)) [
        | inr kept ↦ rw (kept, close_all) (close_all_open rest h f (omega (arith, none_owned)) o)
        | inl closed ↦
            rw (closed, close_all)
              (close_all_open rest (host.close h entry.real_fd).1 f (omega (arith, none_owned)) (
                lawful.close_other h entry.real_fd f
                  (λ e. omega (
                    arith,
                    none_owned,
                    ap (owns entry) e,
                    owns_self entry (ground (arith, closed)),
                  ))
                  o))
      ]

  -- A machine that is destroyed closes no descriptor of others.
  pub destroy-Spares :
      (s : FileDescriptors H Event) (f : ℕ)
      → Foreign host s.host s.fds f
      → host.is_open (destroy host s) f ≡ true
  unfolding destroy
  destroy-Spares s f foreign = close_all_open s.fds s.host f foreign.1 foreign.0

  pub clear_to-Isolates :
      (other s : FileDescriptors H Event) → Isolates host s (clear_to host other s)
  unfolding clear_to owners
  clear_to-Isolates other s = record {
    good = record { single = λ f. omega arith; held = λ f o. absurd (omega (arith, o)) };
    spared = λ f _ foreign. (close_all_open s.fds s.host f foreign.1 foreign.0, refl);
  }

  pub copy_epoll_fds_same :
      (entries : List (EpollEntry Event)) (epolls : List (ℕ × ℕ)) (s : FileDescriptors H Event)
      → ((copy_epoll_fds host entries epolls s).host ≡ s.host)
        × ((copy_epoll_fds host entries epolls s).fds ≡ s.fds)
  unfolding copy_epoll_fds
  copy_epoll_fds_same entries [] s = (refl, refl)
  copy_epoll_fds_same entries ((vfd, p) ∷ rest) s =
      elim (Option-cases (find_pointer s.epoll_fds (entry_at entries p).shared_epoll_fds)) [
        | inr (q, shared) ↦ (
          rw (shared, copy_epoll_fds) (copy_epoll_fds_same entries rest _).0,
          rw (shared, copy_epoll_fds) (copy_epoll_fds_same entries rest _).1,
        )
        | inl alone ↦ (
          rw (alone, copy_epoll_fds) (copy_epoll_fds_same entries rest _).0,
          rw (alone, copy_epoll_fds) (copy_epoll_fds_same entries rest _).1,
        )
      ]

  pub create_two-Isolates :
      (vfd1 vfd2 a b : ℕ) (s : FileDescriptors H Event) (h : H)
      → IsGood host s.host s.fds
      → OpensTwo host s.host a b h
      → Isolates host s (
          state_of (
            manage_as host vfd1 a true (record s { host = h }) >>= λ (_, s).
            manage_as host vfd2 b true s))
  create_two-Isolates vfd1 vfd2 a b s h g two =
      opened_two-Isolates host lawful (manage_as host vfd1 a true) _ s a b h g two
        (λ t good given. manage_as-Adopts host lawful vfd1 a true t good given)
        (λ _ t good given. manage_as-Adopts host lawful vfd2 b true t good given)

  pub create_one-Isolates :
      (vfd n : ℕ) (s : FileDescriptors H Event) (h : H)
      → IsGood host s.host s.fds
      → Opens host s.host n h
      → Isolates host s (state_of (manage_as host vfd n true (record s { host = h })))
  create_one-Isolates vfd n s h g opens =
      opened-Isolates host lawful (manage_as host vfd n true) s n h g opens
        (λ t good given. manage_as-Adopts host lawful vfd n true t good given)

  pub create_socket_pairs_from-Isolates :
      (sp : SocketPair) → IsRecorded sp → KeepsOthers host lawful (create_socket_pairs_from host sp)
  unfolding create_socket_pairs_from is_listener
  create_socket_pairs_from-Isolates (invalid_pair a b) r s g = Spares-refl host _ _ _ g
  create_socket_pairs_from-Isolates (listen_fd a b) r s g = absurd (ground (arith, r))
  create_socket_pairs_from-Isolates (pipe2_pair a b) r s g =
      elim (Answer-cases (host.pipe2 s.host)) [
        | inr (errno, e) ↦ rw (e, state_of) (Spares-refl host _ _ _ g)
        | inl ((m, n), h, e) ↦
            rw (e, state_of) (create_two-Isolates a b m n s h g (lawful.pipe2-Opens s.host m n h e))
      ]
  create_socket_pairs_from-Isolates (socket_pair a b) r s g =
      elim (Answer-cases (host.socketpair s.host)) [
        | inr (errno, e) ↦ rw (e, state_of) (Spares-refl host _ _ _ g)
        | inl ((m, n), h, e) ↦
            rw (e, state_of)
              (create_two-Isolates a b m n s h g (lawful.socketpair-Opens s.host m n h e))
      ]
  create_socket_pairs_from-Isolates (event_fd a) r s g = elim (Answer-cases (host.eventfd s.host)) [
    | inr (errno, e) ↦ rw (e, state_of) (Spares-refl host _ _ _ g)
    | inl (n, h, e) ↦
        rw (e, state_of) (create_one-Isolates a n s h g (lawful.eventfd-Opens s.host n h e))
  ]
  create_socket_pairs_from-Isolates (dup_fd a b) r s g = elim (Answer-cases (host.dup s.host a)) [
    | inr (errno, e) ↦ rw (e, state_of) (Spares-refl host _ _ _ g)
    | inl (n, h, e) ↦
        rw (e, state_of) (create_one-Isolates b n s h g (lawful.dup-Opens s.host a n h e))
  ]

  pub create_all-Isolates :
      (sps : List SocketPair) → AreRecorded sps → KeepsOthers host lawful (create_all host sps)
  unfolding create_all AreRecorded
  create_all-Isolates [] r s g = Spares-refl host _ _ _ g
  create_all-Isolates (sp ∷ rest) r s g =
      state_of-bind host (Isolates host s) (create_socket_pairs_from host sp s) _
        (create_socket_pairs_from-Isolates sp r.0 s g)
        (λ _ t i. Spares-trans host i (create_all-Isolates rest r.1 t i.good))

  pub reset_to-Isolates :
      (other : FileDescriptors H Event)
      → AreRecorded other.sockets
      → (s : FileDescriptors H Event) → Isolates host s (state_of (reset_to host other s))
  unfolding reset_to
  reset_to-Isolates other r s =
      let cleared = clear_to host other s in
      let (same_host, same_fds) = copy_epoll_fds_same other.epoll_entries other.epoll_fds cleared in
      let i : Isolates host s (copy_epoll_fds host other.epoll_entries other.epoll_fds cleared) =
        rw (same_host, same_fds) (clear_to-Isolates other s) in
      Spares-trans host i (create_all-Isolates other.sockets r _ i.good)
