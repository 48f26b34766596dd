-- ===== src/Fds/Managed.antt =====
-- The descriptors that manage and manage_as take over.
use tinykvm.Prelude.{
  ℕ, ◌+◌, ◌≤◌, ◌<◌, ◌≡◌, refl, ◌≢◌, ◌⊎◌, Bool, true, false, not, ◌&&◌, List, some, leb, ◌==◌, ◌>>=◌,
  done, throws, state_of, arith, inl, inr, Bool-cases, length, u16,
}
use tinykvm.Fds.Map.{insert_or_assign}
use tinykvm.Fds.Host.{
  Host, Entry, FdError, invalid_fd, too_many_in_total, too_many_files, FileDescriptors, Result,
}
use tinykvm.Fds.Manage.{close_fd, admit, manage, manage_as}
use tinykvm.Fds.Owners.{
  owners, owners-insert_or_assign, owns_other, owns_self, IsLawful, Opens, IsGood, Foreign, Spares,
  Adopts, Isolates, Spares-refl, state_of-bind_then, OpensTwo,
}

module _ {H Event : Type 0} (host : Host H Event) where
  -- How a descriptor is admitted.
  pub data Admission (fd : ℕ) (s : FileDescriptors H Event) (o : Result H Event (Unit {0}))
      : Type 0 where
    invalid : o ≡ throws invalid_fd s → Admission fd s o
    refused : (e : FdError) → o ≡ throws e (close_fd host fd s) → Admission fd s o
    admitted :
        o ≡ done tt (record s { total_fds_opened = u16 (s.total_fds_opened + 1) })
        → 2 < fd
        → ((s.max_total_fds_opened ≡ 0) ⊎ (s.total_fds_opened < s.max_total_fds_opened))
        → length s.fds < s.max_files
        → Admission fd s o

  pub admit-Admission : (fd : ℕ) (s : FileDescriptors H Event) → Admission fd s (admit host fd s)
  unfolding admit
  admit-Admission fd s = elim (Bool-cases (leb fd 2)) [
    | inl small ↦ invalid (rw small refl)
    | inr big ↦
        elim (Bool-cases
          (not (s.max_total_fds_opened == 0) && leb s.max_total_fds_opened s.total_fds_opened)) [
            | inl over ↦ refused too_many_in_total (ground (arith, big, over))
            | inr under ↦ elim (Bool-cases (leb s.max_files (length s.fds))) [
              | inl full ↦ refused too_many_files (ground (arith, big, under, full))
              | inr room ↦
                  admitted (ground (arith, big, under, room)) (ground arith) (ground arith)
                    (ground arith)
            ]
          ]
  ]

  module _ (lawful : IsLawful host) where
    pub close-Adopts :
        (fd : ℕ) (s : FileDescriptors H Event)
        → IsGood host s.host s.fds
        → owners s.fds fd ≡ 0
        → Adopts host fd s (close_fd host fd s)
    unfolding close_fd
    close-Adopts fd s g unowned = record {
      good = record {
        single = g.single;
        held = λ f o. lawful.close_other s.host fd f (λ e. omega (arith, o, at f e)) (g.held f o);
      };
      spared = λ f other foreign. (lawful.close_other s.host fd f other foreign.0, foreign.1);
    }
      where
        at : (f : ℕ) → f ≡ fd → owners s.fds f ≡ 0
        at f e = rw e unowned

    -- An owned entry for a descriptor that the host has open and nobody owns here.
    pub insert-Adopts :
        (vfd : ℕ) (e : Entry) (h : H) (fds : List (ℕ × Entry))
        → e.is_forked ≡ false
        → IsGood host h fds
        → Foreign host h fds e.real_fd
        → Spares host (λ f. f ≢ e.real_fd) h fds h (insert_or_assign fds vfd e)
    insert-Adopts vfd e h fds owned g given = record {
      good = record { single = single; held = held };
      spared = λ f other foreign. (
        foreign.0,
        omega (arith, owners-insert_or_assign fds vfd f e, owns_other e f other, foreign.1),
      );
    }
      where
        single : (f : ℕ) → owners (insert_or_assign fds vfd e) f ≤ 1
        single f = elim (Bool-cases (f == e.real_fd)) [
          | inl same ↦
              let here : f ≡ e.real_fd = ground arith in
              rw here (
                omega
                  (arith, owners-insert_or_assign fds vfd e.real_fd e, owns_self e owned, given.1))
          | inr differ ↦ omega (
            arith,
            owners-insert_or_assign fds vfd f e,
            owns_other e f (ground arith),
            g.single f,
          )
        ]

        held : (f : ℕ) → 1 ≤ owners (insert_or_assign fds vfd e) f → host.is_open h f ≡ true
        held f o = elim (Bool-cases (f == e.real_fd)) [
          | inl same ↦ let here : f ≡ e.real_fd = ground arith in rw here given.0
          | inr differ ↦
              g.held f (
                omega
                  (arith, owners-insert_or_assign fds vfd f e, owns_other e f (ground arith), o))
        ]

    pub manage-Adopts :
        (fd : ℕ) (w : Bool) (s : FileDescriptors H Event)
        → IsGood host s.host s.fds
        → Foreign host s.host s.fds fd
        → Adopts host fd s (state_of (manage host (some fd) w s))
    unfolding manage
    manage-Adopts fd w s g given = elim (admit-Admission fd s) [
      | invalid e ↦ rw e (Spares-refl host _ _ _ g)
      | refused _ e ↦ rw e (close-Adopts fd s g given.1)
      | admitted e _ _ _ ↦ rw e (
          insert-Adopts s.next_fd (record { real_fd = fd; is_writable = w; is_forked = false })
            s.host s.fds refl g given)
    ]

    pub manage_as-Adopts :
        (vfd fd : ℕ) (w : Bool) (s : FileDescriptors H Event)
        → IsGood host s.host s.fds
        → Foreign host s.host s.fds fd
        → Adopts host fd s (state_of (manage_as host vfd fd w s))
    unfolding manage_as
    manage_as-Adopts vfd fd w s g given = elim (admit-Admission fd s) [
      | invalid e ↦ rw e (Spares-refl host _ _ _ g)
      | refused _ e ↦ rw e (close-Adopts fd s g given.1)
      | admitted e _ _ _ ↦ rw e (
          insert-Adopts vfd (record { real_fd = fd; is_writable = w; is_forked = false }) s.host
            s.fds refl g given)
    ]

    -- A descriptor that the host has just opened is foreign, and no foreign one was it.
    pub Opens-Foreign :
        (h h' : H) (n : ℕ) (fds : List (ℕ × Entry))
        → IsGood host h fds
        → Opens host h n h'
        → Foreign host h' fds n
    Opens-Foreign h h' n fds g o = (
      o.opened,
      elim (Bool-cases (owners fds n == 0)) [
        | inl e ↦ ground arith
        | inr e ↦ absurd (ground (arith, g.held n (ground arith), o.new))
      ],
    )

    pub Opens-IsGood :
        (h h' : H) (n : ℕ) (fds : List (ℕ × Entry))
        → IsGood host h fds
        → Opens host h n h'
        → IsGood host h' fds
    Opens-IsGood h h' n fds g o = record {
      single = g.single;
      held = λ f l. o.others f (g.held f l);
    }

    pub Opens-Spares :
        {fds' : List (ℕ × Entry)} {h'' : H} (h h' : H) (n : ℕ) (fds : List (ℕ × Entry))
        → Opens host h n h'
        → Spares host (λ f. f ≢ n) h' fds h'' fds'
        → Spares host (λ _. Unit) h fds h'' fds'
    Opens-Spares h h' n fds o kept = record {
      good = kept.good;
      spared = λ f _ foreign.
          kept.spared f (λ e. ground (arith, o.new, foreign.0, e))
            (o.others f foreign.0, foreign.1);
    }

    -- A descriptor that is opened and handed over at once.
    pub opened-Isolates :
        {A : Type 0} (op : FileDescriptors H Event → Result H Event A) (s : FileDescriptors H Event)
        (n : ℕ) (h' : H)
        → IsGood host s.host s.fds
        → Opens host s.host n h'
        → ((t : FileDescriptors H Event)
            → IsGood host t.host t.fds
            → Foreign host t.host t.fds n
            → Adopts host n t (state_of (op t)))
        → Isolates host s (state_of (op (record s { host = h' })))
    opened-Isolates op s n h' g o adopts = Opens-Spares s.host h' n s.fds o (
        adopts (record s { host = h' }) (Opens-IsGood s.host h' n s.fds g o)
          (Opens-Foreign s.host h' n s.fds g o))

    -- Two descriptors that are opened at once, and handed over one after the other.
    pub opened_two-Isolates :
        {A B : Type 0} (op : FileDescriptors H Event → Result H Event A)
        (rest : A × FileDescriptors H Event → Result H Event B) (s : FileDescriptors H Event)
        (a b : ℕ) (h' : H)
        → IsGood host s.host s.fds
        → OpensTwo host s.host a b h'
        → ((t : FileDescriptors H Event)
            → IsGood host t.host t.fds
            → Foreign host t.host t.fds a
            → Adopts host a t (state_of (op t)))
        → ((x : A) (t : FileDescriptors H Event)
            → IsGood host t.host t.fds
            → Foreign host t.host t.fds b
            → Adopts host b t (state_of (rest (x, t))))
        → Isolates host s (state_of (op (record s { host = h' }) >>= rest))
    opened_two-Isolates op rest s a b h' g two adopts then_adopts =
        state_of-bind_then host (λ t. Adopts host a (record s { host = h' }) t)
          (λ t. Isolates host s t) (op (record s { host = h' })) rest
          (adopts (record s { host = h' }) (Opens-IsGood s.host h' a s.fds g two.first)
            (Opens-Foreign s.host h' a s.fds g two.first))
          (λ t i. Opens-Spares s.host h' a s.fds two.first i)
          (λ x t i.
            let j : Adopts host b t (state_of (rest (x, t))) =
              then_adopts x t i.good
                (i.spared b two.different (Opens-Foreign s.host h' b s.fds g two.second)) in
            record {
              good = j.good;
              spared = λ f _ foreign.
                  let t_foreign : Foreign host t.host t.fds f =
                    i.spared f (λ e. ground (arith, two.first.new, foreign.0, e))
                      (two.first.others f foreign.0, foreign.1) in
                  j.spared f (λ e. ground (arith, two.second.new, foreign.0, e)) t_foreign;
            })
