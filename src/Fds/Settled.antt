-- ===== src/Fds/Settled.antt =====
-- translate ends: every call that goes deeper registers an epoll that was not managed before.
use tinykvm.Prelude.{
  ℕ, zero, suc, ◌+◌, ◌≤◌, ◌<◌, ◌≡◌, refl, ap, sym, ◌∙◌, ◌≢◌, Bool, true, false, ◌||◌, List, [], ◌∷◌,
  Option, none, some, ◌==◌, if◌then◌else◌, ◌>>=◌, done, throws, state_of, arith, inl, inr,
  Bool-cases, Option-cases, length,
}
use tinykvm.Fds.Map.{find, insert_or_assign, find-insert_or_assign}
use tinykvm.Fds.Host.{
  Host, Entry, EpollEntry, FdError, out_of_fuel, host_failed, untranslatable, FileDescriptors,
  Result, entry_at,
}
use tinykvm.Fds.Translate.{
  eexist, epoll_ctl_add, find_shared, put_entry, add_member, add_members, new_epoll, translate,
  translate_fd,
}
use tinykvm.Fds.Translated.{Answer-cases}

unfoldable pub is_managed : List (ℕ × Entry) → ℕ → Bool
is_managed fds k = elim (find fds k) [ none ↦ false | some _ ↦ true ]

pub is_managed-insert :
    (fds : List (ℕ × Entry)) (k j : ℕ) (e : Entry)
    → is_managed (insert_or_assign fds k e) j ≡ (k == j || is_managed fds j)
unfolding is_managed
is_managed-insert fds k j e = rw (find-insert_or_assign fds k j e, is_managed) (ground arith)

-- The epolls that are not managed yet.
unfoldable pub unmanaged : List (ℕ × ℕ) → List (ℕ × Entry) → ℕ
unmanaged [] fds = 0
unmanaged ((vfd, p) ∷ rest) fds = (if is_managed fds vfd then 0 else 1) + unmanaged rest fds

abbrev pub Grows : List (ℕ × Entry) → List (ℕ × Entry) → Type 0
Grows fds fds' = (k : ℕ) → is_managed fds k ≡ true → is_managed fds' k ≡ true

pub unmanaged-Grows :
    (epolls : List (ℕ × ℕ)) (fds fds' : List (ℕ × Entry))
    → Grows fds fds'
    → unmanaged epolls fds' ≤ unmanaged epolls fds
unfolding unmanaged
unmanaged-Grows [] fds fds' g = omega arith
unmanaged-Grows ((vfd, p) ∷ rest) fds fds' g =
    ground (arith, unmanaged-Grows rest fds fds' g, g vfd)

pub insert-Grows :
    (fds : List (ℕ × Entry)) (k : ℕ) (e : Entry) → Grows fds (insert_or_assign fds k e)
insert-Grows fds k e j m = is_managed-insert fds k j e ∙ ground (arith, m)

pub insert-keeps :
    (fds : List (ℕ × Entry)) (k : ℕ) (e : Entry)
    → find fds k ≡ none
    → (j : ℕ) (x : Entry) → find fds j ≡ some x
    → find (insert_or_assign fds k e) j ≡ some x
insert-keeps fds k e away j x m = elim (Bool-cases (k == j)) [
  | inl same ↦
      let here : k ≡ j = ground (arith, same) in
      absurd (ground (arith, sym (ap (find fds) here ∙ m) ∙ away))
  | inr other ↦ find-insert_or_assign fds k j e ∙ rw other m
]

pub unmanaged-insert :
    (epolls : List (ℕ × ℕ)) (fds : List (ℕ × Entry)) (vfd p : ℕ) (e : Entry)
    → find epolls vfd ≡ some p
    → is_managed fds vfd ≡ false
    → unmanaged epolls (insert_or_assign fds vfd e) < unmanaged epolls fds
unfolding unmanaged find
unmanaged-insert [] fds vfd p e found new = absurd (ground (arith, found))
unmanaged-insert ((k, q) ∷ rest) fds vfd p e found new = elim (Bool-cases (k == vfd)) [
  | inl same ↦
      let here : k ≡ vfd = ground arith in
      let inserted : is_managed (insert_or_assign fds vfd e) vfd ≡ true =
        is_managed-insert fds vfd vfd e ∙ ground arith in
      rw (here, inserted, new)
        (omega
          (arith, unmanaged-Grows rest fds (insert_or_assign fds vfd e) (insert-Grows fds vfd e)))
  | inr other ↦
      let there : find rest vfd ≡ some p = ground (arith, other, found) in
      ground (
        arith,
        unmanaged-insert rest fds vfd p e there new,
        is_managed-insert fds vfd k e,
        insert-Grows fds vfd e k,
      )
]

pub unmanaged-length :
    (epolls : List (ℕ × ℕ)) (fds : List (ℕ × Entry)) → unmanaged epolls fds ≤ length epolls
unfolding unmanaged
unmanaged-length [] fds = omega arith
unmanaged-length ((vfd, p) ∷ rest) fds = ground (arith, unmanaged-length rest fds)

module _ {H Event : Type 0} where
  -- A call that ends, keeps every entry as it is and changes no epoll.
  pub record Settles {A : Type 0} (s : FileDescriptors H Event) (o : Result H Event A)
      : Type 0 where
    pub ends : (t : FileDescriptors H Event) → o ≢ throws out_of_fuel t
    pub same : (state_of o).epoll_fds ≡ s.epoll_fds
    pub same_entries : (state_of o).epoll_entries ≡ s.epoll_entries
    pub keeps : (k : ℕ) (e : Entry) → find s.fds k ≡ some e → find (state_of o).fds k ≡ some e
    pub grows : Grows s.fds (state_of o).fds

  abbrev pub left : FileDescriptors H Event → ℕ
  left s = unmanaged s.epoll_fds s.fds

  abbrev pub SettlesBelow : {A : Type 0} → ℕ → (FileDescriptors H Event → Result H Event A) → Type 0
  SettlesBelow n op = (s : FileDescriptors H Event) → left s < n → Settles s (op s)

  pub done-Settles : {A : Type 0} (a : A) (s : FileDescriptors H Event) → Settles s (done a s)
  done-Settles a s = record {
    ends = λ t e. absurd (ground (arith, e));
    same = refl;
    same_entries = refl;
    keeps = λ k x m. m;
    grows = λ k m. m;
  }

  pub throws-Settles :
      {A : Type 0} (error : FdError) (s : FileDescriptors H Event)
      → error ≢ out_of_fuel
      → Settles {A = A} s (throws error s)
  throws-Settles error s other = record {
    ends = λ t e. absurd (ground (arith, e, other));
    same = refl;
    same_entries = refl;
    keeps = λ k x m. m;
    grows = λ k m. m;
  }

  pub bind-Settles :
      {A B : Type 0} (n : ℕ) (s : FileDescriptors H Event) (o : Result H Event A)
      (k : A × FileDescriptors H Event → Result H Event B)
      → left s < n
      → Settles s o
      → ((a : A) → SettlesBelow n (λ t. k (a, t)))
      → Settles s (o >>= k)
  bind-Settles n s (throws e t) k less settled rest = record {
    ends = λ u eq. settled.ends u (ground (arith, eq));
    same = settled.same;
    same_entries = settled.same_entries;
    keeps = settled.keeps;
    grows = settled.grows;
  }
  bind-Settles n s (done a t) k less settled rest =
      let still : left t < n =
        rw settled.same
          (omega (arith, unmanaged-Grows s.epoll_fds s.fds t.fds settled.grows, less)) in
      let after = rest a t still in
      record {
        ends = after.ends;
        same = after.same ∙ settled.same;
        same_entries = after.same_entries ∙ settled.same_entries;
        keeps = λ j x m. after.keeps j x (settled.keeps j x m);
        grows = λ j m. after.grows j (settled.grows j m);
      }

module _ {H Event : Type 0} (host : Host H Event) where
  pub add_member-Settles :
      (n : ℕ) (go_on : FileDescriptors H Event → Result H Event (Unit {0}))
      → SettlesBelow n go_on
      → (new_fd : ℕ) (event : Event) (real_fd : Option ℕ)
      → SettlesBelow n (add_member host go_on new_fd event real_fd)
  unfolding add_member
  add_member-Settles n go_on rest new_fd event none s less =
      throws-Settles untranslatable s (λ e. absurd (ground (arith, e)))
  add_member-Settles n go_on rest new_fd event (some fd) s less =
      elim (Answer-cases (host.epoll_ctl s.host new_fd epoll_ctl_add fd event)) [
        | inl (_, h, e) ↦
            let after : Settles s (go_on (record s { host = h })) =
              wrapped (rest (record s { host = h }) less) in
            rw (e, add_member) after
        | inr (errno, e) ↦ elim (Bool-cases (errno == eexist)) [
          | inl exists ↦ rw (e, add_member, exists) (rest s less)
          | inr other ↦
              rw (e, add_member, other)
                (throws-Settles host_failed s (λ e. absurd (ground (arith, e))))
        ]
      ]
    where
      wrapped :
          {h : H}
          → Settles (record s { host = h }) (go_on (record s { host = h }))
          → Settles s (go_on (record s { host = h }))
      wrapped i = record {
        ends = i.ends;
        same = i.same;
        same_entries = i.same_entries;
        keeps = i.keeps;
        grows = i.grows;
      }

  pub add_members-Settles :
      (n : ℕ) (translated : ℕ → FileDescriptors H Event → Result H Event (Option ℕ))
      → ((vfd : ℕ) → SettlesBelow n (translated vfd))
      → (new_fd : ℕ) (events : List (ℕ × Event))
      → SettlesBelow n (add_members host translated new_fd events)
  unfolding add_members
  add_members-Settles n translated settled new_fd [] s less = done-Settles tt s
  add_members-Settles n translated settled new_fd ((vfd, event) ∷ rest) s less =
      bind-Settles n s (translated vfd s) _ less (settled vfd s less) (λ real_fd t below.
        add_member-Settles n (add_members host translated new_fd rest)
          (add_members-Settles n translated settled new_fd rest) new_fd event real_fd t below)

  -- The new epoll is managed before its members are translated.
  pub new_epoll-Settles :
      (n : ℕ) (translated : ℕ → FileDescriptors H Event → Result H Event (Option ℕ))
      → ((vfd : ℕ) → SettlesBelow n (translated vfd))
      → (vfd p : ℕ) (epoll_entry : EpollEntry Event) (s : FileDescriptors H Event)
      → find s.epoll_fds vfd ≡ some p
      → find s.fds vfd ≡ none
      → left s < n + 1
      → Settles s (new_epoll host translated vfd epoll_entry s)
  unfolding new_epoll put_entry is_managed
  new_epoll-Settles n translated settled vfd p epoll_entry s found away less =
      elim (Answer-cases (host.epoll_create1 s.host)) [
        | inr (errno, e) ↦
            rw (e, new_epoll) (throws-Settles host_failed s (λ e. absurd (ground (arith, e))))
        | inl (new_fd, h, e) ↦
            let entry : Entry = record {
              real_fd = new_fd;
              is_writable = true;
              is_forked = false;
            } in
            let put = put_entry host vfd new_fd true false (record s { host = h }) in
            let below : left put < n = omega (
              arith,
              unmanaged-insert s.epoll_fds s.fds vfd p entry found (rw (away, is_managed) refl),
              less,
            ) in
            let i =
              bind-Settles n put (add_members host translated new_fd epoll_entry.epoll_fds put)
                (λ (_, t). done (some new_fd) t) below
                (add_members-Settles n translated settled new_fd epoll_entry.epoll_fds put below)
                (λ _ t _. done-Settles (some new_fd) t) in
            rw (e, new_epoll)
              (record {
                ends = i.ends;
                same = i.same;
                same_entries = i.same_entries;
                keeps = λ k x m. i.keeps k x (insert-keeps s.fds vfd entry away k x m);
                grows = λ k m. i.grows k (insert-Grows s.fds vfd entry k m);
              })
      ]

  pub put_entry-Settles :
      (a : Option ℕ) (vfd fd : ℕ) (w forked : Bool) (s : FileDescriptors H Event)
      → find s.fds vfd ≡ none
      → Settles s (done a (put_entry host vfd fd w forked s))
  unfolding put_entry
  put_entry-Settles a vfd fd w forked s away = record {
    ends = λ t e. absurd (ground (arith, e));
    same = refl;
    same_entries = refl;
    keeps = insert-keeps s.fds vfd _ away;
    grows = insert-Grows s.fds vfd _;
  }

  module _ (find_master : ℕ → Option Entry) where
    pub translate-Settles : (fuel vfd : ℕ) → SettlesBelow fuel (translate host find_master fuel vfd)
    unfolding translate is_managed
    translate-Settles zero vfd s less = absurd (omega (arith, less))
    translate-Settles (suc fuel) vfd s less = elim (Option-cases (find s.fds vfd)) [
      | inr (entry, here) ↦ rw (here, translate) (done-Settles (some entry.real_fd) s)
      | inl away ↦ elim (Option-cases (find_master vfd)) [
        | inl unknown ↦ rw (away, unknown, translate) (done-Settles none s)
        | inr (entry, known) ↦ elim (Option-cases (find s.epoll_fds vfd)) [
          | inl plain ↦
              rw (away, known, plain, translate)
                (put_entry-Settles (some entry.real_fd) vfd entry.real_fd entry.is_writable true s
                  away)
          | inr (p, epoll) ↦
              elim (Option-cases
                (find_shared s.fds vfd (entry_at s.epoll_entries p).shared_epoll_fds)) [
                  | inr (shared, found) ↦
                      rw (away, known, epoll, found, translate)
                        (put_entry-Settles (some shared.real_fd) vfd shared.real_fd
                          shared.is_writable true s away)
                  | inl alone ↦
                      rw (away, known, epoll, alone, translate)
                        (new_epoll-Settles fuel (translate host find_master fuel)
                          (translate-Settles fuel) vfd p (entry_at s.epoll_entries p) s epoll away
                          (omega (arith, less)))
                ]
        ]
      ]
    ]

    -- The recursion of translate through the members of epolls that a fork takes over from its
    -- master ends, also where epolls hold each other: with as much fuel as the machine has epolls,
    -- and one more, it does not run out of fuel, every entry of the machine stays as it
    -- was, and no epoll of the machine changes, in what it holds or in its vfds.
    pub translate_fd-Settles :
        (vfd : ℕ) (s : FileDescriptors H Event) → Settles s (translate_fd host find_master vfd s)
    unfolding translate_fd
    translate_fd-Settles vfd s =
        translate-Settles (length s.epoll_fds + 1) vfd s
          (omega (arith, unmanaged-length s.epoll_fds s.fds))
