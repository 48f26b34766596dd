-- ===== src/Fds/Translated.antt =====
-- What translate and its kin do to the descriptors of others.
use tinykvm.Prelude.{
  ℕ, zero, suc, ◌+◌, ◌≡◌, refl, ◌⊎◌, Bool, true, false, List, [], ◌∷◌, Option, none, some, ◌==◌,
  ◌>>=◌, done, state_of, inl, inr, Bool-cases, Option-cases, length,
}
use tinykvm.Fds.Map.{find}
use tinykvm.Fds.Host.{
  Answer, gives, fails, Host, Entry, EpollEntry, FileDescriptors, Result, entry_at,
}
use tinykvm.Fds.Translate.{
  eexist, epoll_ctl_add, find_shared, put_entry, add_member, add_members, new_epoll, translate,
  translate_fd, translate_writable_vfd,
}
use tinykvm.Fds.Owners.{
  IsLawful, IsGood, Spares, Adopts, Isolates, Spares-refl, Spares-trans, Spares-host, Spares-insert,
  state_of-bind,
}
use tinykvm.Fds.Managed.{insert-Adopts, opened-Isolates}

pub Answer-cases :
    {H A : Type 0} (o : Answer H A)
    → ((a : A) × (h : H) × (o ≡ gives a h)) ⊎ ((errno : ℕ) × (o ≡ fails errno))
Answer-cases (gives a h) = inl (a, h, refl)
Answer-cases (fails errno) = inr (errno, refl)

module _ {H Event : Type 0} (host : Host H Event) (lawful : IsLawful host) where
  -- A call that isolates from every good state.
  abbrev pub KeepsOthers : {A : Type 0} → (FileDescriptors H Event → Result H Event A) → Type 0
  KeepsOthers op =
      (s : FileDescriptors H Event) → IsGood host s.host s.fds → Isolates host s (state_of (op s))

  pub weaken :
      {P : ℕ → Type 0} {h h' : H} {fds fds' : List (ℕ × Entry)}
      → Spares host (λ _. Unit) h fds h' fds'
      → Spares host P h fds h' fds'
  weaken i = record { good = i.good; spared = λ fd _ f. i.spared fd tt f }

  pub put_forked-Isolates :
      (vfd fd : ℕ) (w : Bool) (s : FileDescriptors H Event)
      → IsGood host s.host s.fds
      → Isolates host s (put_entry host vfd fd w true s)
  unfolding put_entry
  put_forked-Isolates vfd fd w s g = Spares-insert host _ s.host s.fds vfd _ refl g

  pub after_host :
      (s : FileDescriptors H Event) (h : H)
      (go_on : FileDescriptors H Event → Result H Event (Unit {0}))
      → KeepsOthers go_on
      → IsGood host s.host s.fds
      → ((f : ℕ) → host.is_open s.host f ≡ true → host.is_open h f ≡ true)
      → Isolates host s (state_of (go_on (record s { host = h })))
  after_host s h go_on keeps g same =
      let now : Spares host (λ _. Unit) s.host s.fds h s.fds =
        Spares-host host _ s.host h s.fds g same in
      Spares-trans host now (keeps (record s { host = h }) now.good)

  pub add_member-Isolates :
      (go_on : FileDescriptors H Event → Result H Event (Unit {0}))
      → KeepsOthers go_on
      → (new_fd : ℕ) (event : Event) (real_fd : Option ℕ)
      → KeepsOthers (add_member host go_on new_fd event real_fd)
  unfolding add_member
  add_member-Isolates go_on keeps new_fd event none s g = Spares-refl host _ _ _ g
  add_member-Isolates go_on keeps new_fd event (some fd) s g =
      elim (Answer-cases (host.epoll_ctl s.host new_fd epoll_ctl_add fd event)) [
        | inl (_, h, e) ↦
            rw (e, state_of)
              (after_host s h go_on keeps g
                (lawful.epoll_ctl_open s.host new_fd epoll_ctl_add fd event h e))
        | inr (errno, e) ↦ elim (Bool-cases (errno == eexist)) [
          | inl same ↦ rw (e, state_of, same) (keeps s g)
          | inr other ↦ rw (e, state_of, other) (Spares-refl host _ _ _ g)
        ]
      ]

  pub add_members-Isolates :
      (translated : ℕ → FileDescriptors H Event → Result H Event (Option ℕ))
      → ((vfd : ℕ) → KeepsOthers (translated vfd))
      → (new_fd : ℕ) (events : List (ℕ × Event))
      → KeepsOthers (add_members host translated new_fd events)
  unfolding add_members
  add_members-Isolates translated keeps new_fd [] s g = Spares-refl host _ _ _ g
  add_members-Isolates translated keeps new_fd ((vfd, event) ∷ rest) s g =
      state_of-bind host (Isolates host s) (translated vfd s) _ (keeps vfd s g) (λ real_fd s' i.
        Spares-trans host i (
          add_member-Isolates (add_members host translated new_fd rest)
            (add_members-Isolates translated keeps new_fd rest) new_fd event real_fd s' i.good))

  pub new_epoll-Isolates :
      (translated : ℕ → FileDescriptors H Event → Result H Event (Option ℕ))
      → ((vfd : ℕ) → KeepsOthers (translated vfd))
      → (vfd : ℕ) (epoll_entry : EpollEntry Event)
      → KeepsOthers (new_epoll host translated vfd epoll_entry)
  unfolding new_epoll put_entry
  new_epoll-Isolates translated keeps vfd epoll_entry s g =
      elim (Answer-cases (host.epoll_create1 s.host)) [
        | inr (errno, e) ↦ rw (e, state_of) (Spares-refl host _ _ _ g)
        | inl (n, h, e) ↦
            rw (e, state_of)
              (opened-Isolates host lawful
                (λ t.
                  add_members host translated n epoll_entry.epoll_fds
                    (put_entry host vfd n true false t)
                  >>= λ (_, s). done (some n) s)
                s n h g (lawful.epoll_create1-Opens s.host n h e)
                (λ t good given.
                  let put : Adopts host n t (put_entry host vfd n true false t) =
                    insert-Adopts host lawful vfd
                      (record { real_fd = n; is_writable = true; is_forked = false }) t.host t.fds
                      refl good given in
                  state_of-bind host (Adopts host n t)
                    (add_members host translated n epoll_entry.epoll_fds
                      (put_entry host vfd n true false t))
                    _
                    (Spares-trans host put (
                      weaken (
                        add_members-Isolates translated keeps n epoll_entry.epoll_fds
                          (put_entry host vfd n true false t) put.good)))
                    (λ _ _ i. i)))
      ]

  module _ (find_master : ℕ → Option Entry) where
    pub translate-Isolates : (fuel vfd : ℕ) → KeepsOthers (translate host find_master fuel vfd)
    unfolding translate
    translate-Isolates zero vfd s g = Spares-refl host _ _ _ g
    translate-Isolates (suc fuel) vfd s g = elim (Option-cases (find s.fds vfd)) [
      | inr (entry, here) ↦ rw (here, state_of) (Spares-refl host _ _ _ g)
      | inl away ↦ elim (Option-cases (find_master vfd)) [
        | inl unknown ↦ rw (away, unknown, state_of) (Spares-refl host _ _ _ g)
        | inr (entry, known) ↦ elim (Option-cases (find s.epoll_fds vfd)) [
          | inl plain ↦
              rw (away, known, plain, state_of)
                (put_forked-Isolates vfd entry.real_fd entry.is_writable s g)
          | inr (p, epoll) ↦
              elim (Option-cases
                (find_shared s.fds vfd (entry_at s.epoll_entries p).shared_epoll_fds)) [
                  | inr (shared, found) ↦
                      rw (away, known, epoll, found, state_of)
                        (put_forked-Isolates vfd shared.real_fd shared.is_writable s g)
                  | inl alone ↦
                      rw (away, known, epoll, alone, state_of)
                        (new_epoll-Isolates (translate host find_master fuel)
                          (translate-Isolates fuel) vfd (entry_at s.epoll_entries p) s g)
                ]
        ]
      ]
    ]

    pub translate_fd-Isolates : (vfd : ℕ) → KeepsOthers (translate_fd host find_master vfd)
    unfolding translate_fd
    translate_fd-Isolates vfd s g = translate-Isolates (length s.epoll_fds + 1) vfd s g

    pub translate_writable_vfd-Isolates :
        (vfd : ℕ) → KeepsOthers (translate_writable_vfd host find_master vfd)
    unfolding translate_writable_vfd
    translate_writable_vfd-Isolates vfd s g = elim (Option-cases (find s.fds vfd)) [
      | inr (entry, here) ↦ elim (Bool-cases entry.is_writable) [
        | inl w ↦ rw (here, state_of, w) (Spares-refl host _ _ _ g)
        | inr w ↦ rw (here, state_of, w) (Spares-refl host _ _ _ g)
      ]
      | inl away ↦ elim (Option-cases (find_master vfd)) [
        | inl unknown ↦ rw (away, unknown, state_of) (Spares-refl host _ _ _ g)
        | inr (entry, known) ↦ elim (Bool-cases entry.is_writable) [
          | inr w ↦ rw (away, known, state_of, w) (Spares-refl host _ _ _ g)
          | inl w ↦ rw (away, known, state_of, w) (put_forked-Isolates vfd entry.real_fd true s g)
        ]
      ]
    ]
