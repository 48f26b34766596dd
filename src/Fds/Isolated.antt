-- ===== src/Fds/Isolated.antt =====
-- What the handlers that open, duplicate and close descriptors do to those of others.
use tinykvm.Prelude.{
  ℕ, ◌≡◌, ap, Bool, true, false, List, none, some, ltb, leb, ◌>>=◌, done, throws, state_of, arith,
  inl, inr, Bool-cases, Option-cases, length,
}
use tinykvm.Fds.Map.{find, erase}
use tinykvm.Fds.Host.{
  Host, Entry, SocketPair, pipe2_pair, socket_pair, event_fd, FileDescriptors, Result, catch,
}
use tinykvm.Fds.Manage.{
  manage, entry_for_vfd, add_socket_pair, share_epoll_entry, drop_vfd, free, manage_duplicate,
}
use tinykvm.Fds.Calls.{
  close_call, tell, manage_two, pipe2_call, socketpair_call, eventfd2_call, epoll_create1_call,
}
use tinykvm.Fds.Owners.{
  owners, owners-erase, owners-erase_le, owns_self, IsLawful, OpensTwo, IsGood, Foreign, Spares,
  Adopts, Isolates, Spares-refl, Spares-trans, Spares-host, state_of-bind,
}
use tinykvm.Fds.Managed.{manage-Adopts, opened-Isolates, opened_two-Isolates}
use tinykvm.Fds.Translated.{Answer-cases, KeepsOthers}

module _ {H Event : Type 0} (host : Host H Event) (lawful : IsLawful host) where
  pub catch-Isolates :
      {A : Type 0} (s : FileDescriptors H Event) (o : Result H Event A) (a : A)
      → Isolates host s (state_of o)
      → Isolates host s (state_of (catch o a))
  unfolding catch
  catch-Isolates s (done b t) a i = i
  catch-Isolates s (throws e t) a i = i

  -- To record a pair of sockets touches no descriptor.
  pub add_socket_pair-Spares :
      (P : ℕ → Type 0) (h : H) (fds : List (ℕ × Entry)) (pair : SocketPair)
      (s : FileDescriptors H Event)
      → Spares host P h fds s.host s.fds
      → Spares host P h fds
          (state_of (add_socket_pair pair s)).host
          (state_of (add_socket_pair pair s)).fds
  unfolding add_socket_pair
  add_socket_pair-Spares P h fds pair s i = elim (Bool-cases s.machine_is_forked) [
    | inl forked ↦ rw (forked, state_of) i
    | inr master ↦ elim (Bool-cases (leb 64 (length s.sockets))) [
      | inl full ↦ rw (master, full, state_of) i
      | inr room ↦ rw (master, room, state_of) i
    ]
  ]

  pub manage_duplicate-Adopts :
      (vfd fd : ℕ) (w : Bool) (s : FileDescriptors H Event)
      → IsGood host s.host s.fds
      → Foreign host s.host s.fds fd
      → Adopts host fd s (state_of (manage_duplicate host vfd (some fd) w s))
  unfolding manage_duplicate share_epoll_entry
  manage_duplicate-Adopts vfd fd w s g given =
      state_of-bind host (Adopts host fd s) (manage host (some fd) w s) _
        (manage-Adopts host lawful fd w s g given)
        (λ ret t i. elim (Option-cases (find t.epoll_fds vfd)) [
          | inr (p, shared) ↦ rw (shared, state_of) i
          | inl plain ↦ rw plain (
              state_of-bind host (Adopts host fd s) (add_socket_pair _ t) _
                (add_socket_pair-Spares _ s.host s.fds _ t i) (λ _ _ j. j))
        ])

  -- An owned entry goes, and its descriptor is closed.
  pub drop-Spares :
      (h : H) (fds : List (ℕ × Entry)) (vfd : ℕ) (entry : Entry)
      → IsGood host h fds
      → find fds vfd ≡ some entry
      → entry.is_forked ≡ false
      → Spares host (λ _. Unit) h fds (host.close h entry.real_fd).1 (erase fds vfd)
  drop-Spares h fds vfd entry g found owned = record {
    good = record {
      single = λ f. omega (arith, owners-erase_le fds vfd f, g.single f);
      held = λ f o.
          lawful.close_other h entry.real_fd f
            (λ e. omega (
              arith,
              o,
              ap (owners (erase fds vfd)) e,
              owners-erase fds vfd entry.real_fd entry found,
              owns_self entry owned,
              g.single entry.real_fd,
            ))
            (g.held f (omega (arith, owners-erase_le fds vfd f, o)));
    };
    spared = λ f _ foreign. (
      lawful.close_other h entry.real_fd f
          (λ e. omega (
            arith,
            ap (owners fds) e,
            foreign.1,
            owners-erase fds vfd entry.real_fd entry found,
            owns_self entry owned,
          ))
          foreign.0,
      omega (arith, owners-erase_le fds vfd f, foreign.1),
    );
  }

  pub close_call-Isolates : (vfd : ℕ) → KeepsOthers host lawful (close_call host none vfd)
  unfolding close_call entry_for_vfd free drop_vfd
  close_call-Isolates vfd s g = elim (Bool-cases (ltb vfd 3)) [
    | inl std ↦ rw (std, state_of) (Spares-refl host _ _ _ g)
    | inr other ↦ elim (Option-cases (find s.fds vfd)) [
      | inl unknown ↦ rw (other, unknown, state_of) (Spares-refl host _ _ _ g)
      | inr (entry, found) ↦ elim (Bool-cases entry.is_forked) [
        | inl forked ↦ rw (other, found, forked, state_of) (Spares-refl host _ _ _ g)
        | inr owned ↦ elim (Option-cases (host.close s.host entry.real_fd).0) [
          | inl ok ↦
              rw (other, found, owned, ok, state_of)
                (drop-Spares s.host s.fds vfd entry g found owned)
          | inr (errno, bad) ↦
              rw (other, found, owned, bad, state_of)
                (drop-Spares s.host s.fds vfd entry g found owned)
        ]
      ]
    ]
  ]

  -- The end of pipe2 and socketpair: the guest learns the descriptors, and the pair is recorded.
  pub tell-Adopts :
      (b : ℕ) (pair : SocketPair) (addr vfd1 vfd2 : ℕ) (t₀ t : FileDescriptors H Event)
      → Adopts host b t₀ t
      → Adopts host b t₀ (state_of (tell host pair addr vfd1 vfd2 t))
  unfolding tell
  tell-Adopts b pair addr vfd1 vfd2 t₀ t i =
      elim (Option-cases (host.store_fds t.host addr vfd1 vfd2)) [
        | inl fault ↦ rw (fault, state_of) i
        | inr (h, e) ↦
            rw (e, state_of)
              (let now : Adopts host b t₀ (record t { host = h }) = Spares-trans host i (
                  Spares-host host _ t.host h t.fds i.good
                    (lawful.store_fds_open t.host addr vfd1 vfd2 h e)) in
                state_of-bind host (Adopts host b t₀) (add_socket_pair pair (record t { host = h }))
                  _ (add_socket_pair-Spares _ t₀.host t₀.fds pair (record t { host = h }) now)
                  (λ _ _ j. j))
      ]

  pub manage_two-Isolates :
      (make : ℕ → ℕ → SocketPair) (addr a b : ℕ) (s : FileDescriptors H Event) (h : H)
      → IsGood host s.host s.fds
      → OpensTwo host s.host a b h
      → Isolates host s (state_of (manage_two host make addr a b (record s { host = h })))
  unfolding manage_two
  manage_two-Isolates make addr a b s h g two =
      opened_two-Isolates host lawful (manage host (some a) true) _ s a b h g two
        (λ t good given. manage-Adopts host lawful a true t good given)
        (λ vfd1 t good given.
          state_of-bind host (Adopts host b t) (manage host (some b) true t) _
            (manage-Adopts host lawful b true t good given)
            (λ vfd2 u i. tell-Adopts b (make vfd1 vfd2) addr vfd1 vfd2 t u i))

  pub pipe2_call-Isolates : (addr : ℕ) → KeepsOthers host lawful (pipe2_call host addr)
  unfolding pipe2_call
  pipe2_call-Isolates addr s g = elim (Answer-cases (host.pipe2 s.host)) [
    | inr (errno, e) ↦ rw (e, state_of) (Spares-refl host _ _ _ g)
    | inl ((a, b), h, e) ↦
        rw (e, state_of)
          (manage_two-Isolates pipe2_pair addr a b s h g (lawful.pipe2-Opens s.host a b h e))
  ]

  pub socketpair_call-Isolates : (addr : ℕ) → KeepsOthers host lawful (socketpair_call host addr)
  unfolding socketpair_call
  socketpair_call-Isolates addr s g = elim (Answer-cases (host.socketpair s.host)) [
    | inr (errno, e) ↦ rw (e, state_of) (Spares-refl host _ _ _ g)
    | inl ((a, b), h, e) ↦
        rw (e, state_of)
          (manage_two-Isolates socket_pair addr a b s h g (lawful.socketpair-Opens s.host a b h e))
  ]

  pub eventfd2_call-Isolates : KeepsOthers host lawful (eventfd2_call host)
  unfolding eventfd2_call manage
  eventfd2_call-Isolates s g = elim (Answer-cases (host.eventfd s.host)) [
    | inr (errno, e) ↦ rw (e, state_of) (Spares-refl host _ _ _ g)
    | inl (n, h, e) ↦
        rw (e, state_of)
          (opened-Isolates host lawful
            (λ t. manage host (some n) true t >>= λ (vfd, u).
              (add_socket_pair (event_fd vfd) u >>= λ (_, v). done vfd v))
            s n h g (lawful.eventfd-Opens s.host n h e)
            (λ t good given.
              state_of-bind host (Adopts host n t) (manage host (some n) true t) _
                (manage-Adopts host lawful n true t good given)
                (λ vfd u i.
                  state_of-bind host (Adopts host n t) (add_socket_pair (event_fd vfd) u) _
                    (add_socket_pair-Spares _ t.host t.fds (event_fd vfd) u i) (λ _ _ j. j))))
  ]

  pub epoll_create1_call-Isolates : KeepsOthers host lawful (epoll_create1_call host)
  unfolding epoll_create1_call
  epoll_create1_call-Isolates s g = elim (Answer-cases (host.epoll_create1 s.host)) [
    | inr (errno, e) ↦ rw (e, state_of) (Spares-refl host _ _ _ g)
    | inl (n, h, e) ↦
        rw (e, state_of)
          (opened-Isolates host lawful (manage host (some n) false) s n h g
            (lawful.epoll_create1-Opens s.host n h e)
            (λ t good given. manage-Adopts host lawful n false t good given))
  ]
