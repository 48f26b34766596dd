-- ===== src/Threads/Steps.antt =====
-- Yield and exit of lib/tinykvm/linux/threads.cpp, against the balance of the threads.
use tinykvm.Prelude.{
  ℕ, ◌+◌, ◌≡◌, ◌≢◌, refl, ◌⊎◌, Bool, true, false, not, List, [], ◌∷◌, Option, some, done, throws,
  ◌==◌, if◌then◌else◌, arith, inl, inr, Option-cases,
}
use tinykvm.Threads.{
  Regs, Thread, MultiThreading, ThreadError, Result, memory_fault, unimplemented_futex_op,
  find_thread, erase, wakeup_next, suspend_and_yield, erase_thread, exit, write,
}
use tinykvm.Threads.Balance.{one, count_threads, find_thread_lem, count_threads-erase, IsValid}
use tinykvm.Threads.Yield.{current_lem, get_thread_lem, resume_lem, suspend_and_yield-Yielded}

-- An error of the guest: an address that faults, or a futex operation that is not implemented. A
-- pointer that dangles, or an assertion that fails, is none.
pub data IsGuestError : ThreadError → Type 0 where
  fault : IsGuestError memory_fault
  futex_op : (op : ℕ) → IsGuestError (unimplemented_futex_op op)

module _ {G : Type 0} where
  abbrev pub Keeps : {A : Type 0} → Result G A → Type 0
  Keeps (done a m) = IsValid m
  Keeps (throws e m) = IsGuestError e

  -- The registers and the guest's memory have no part in the balance.
  pub same-IsValid :
      (m m' : MultiThreading G)
      → m'.threads ≡ m.threads
      → m'.suspended ≡ m.suspended
      → m'.current ≡ m.current
      → m'.thread_counter ≡ m.thread_counter
      → IsValid m
      → IsValid m'
  same-IsValid m m' a b c d v = record {
    balanced = λ t. rw a (rw b (rw c (v.balanced t)));
    single = λ t. rw a (v.single t);
    main = rw a v.main;
    fresh = λ t l. rw a (v.fresh t (omega (arith, d, l)));
  }

  alone_lem :
      (m : MultiThreading G) (result : ℕ)
      → IsValid m
      → m.suspended ≡ []
      → suspend_and_yield m result ≡ done false m
  unfolding suspend_and_yield
  alone_lem m result v e =
      let (x, found, same) = current_lem m v in
      rw (get_thread_lem m m.current x found, suspend_and_yield) (simp e refl)

  pub suspend_and_yield-Keeps :
      (m : MultiThreading G) (result : ℕ) → IsValid m → Keeps (suspend_and_yield m result)
  suspend_and_yield-Keeps m result v = go m.suspended refl
    where
      go : (q : List ℕ) → m.suspended ≡ q → Keeps (suspend_and_yield m result)
      go (next ∷ rest) e =
          let (m', run, o) = suspend_and_yield-Yielded m result next rest v e in rw run o.valid
      go [] e = rw (alone_lem m result v e) v

  -- The current thread, not the first, leaves, and the next one runs.
  pub left-IsValid :
      (m : MultiThreading G) (next : ℕ) (rest : List ℕ) (regs : Regs) (tls : ℕ)
      → IsValid m
      → m.current ≢ 1
      → m.suspended ≡ next ∷ rest
      → IsValid (record m {
        threads = erase m.threads m.current;
        suspended = rest;
        current = next;
        registers = regs;
        tls_base = tls;
      })
  left-IsValid m next rest regs tls v other e =
      let gone : (t : ℕ)
          → count_threads t (erase m.threads m.current) + one m.current t
            ≡ count_threads t m.threads =
        λ t. count_threads-erase t m.current m.threads (ground (arith, v.balanced m.current)) in
      record {
        balanced = λ t. ground (arith, v.balanced t, gone t, e);
        single = λ t. omega (arith, v.single t, gone t);
        main = ground (arith, v.main, gone 1, other);
        fresh = λ t l. omega (arith, v.fresh t l, gone t);
      }

  module _ (copy_to_guest : G → ℕ → ℕ → Option G) (copy_from_guest : G → ℕ → Option ℕ)
      (uninitialised : Thread) where
    pub write_cases :
        (m : MultiThreading G) (needed : Bool) (addr value : ℕ)
        → ((g : G) × ((if needed
                then write copy_to_guest copy_from_guest uninitialised m addr value
                else done tt m)
              ≡ done tt (record m { guest = g })))
          ⊎ ((if needed
                then write copy_to_guest copy_from_guest uninitialised m addr value
                else done tt m)
              ≡ throws memory_fault m)
    unfolding write
    write_cases m false addr value = inl (m.guest, refl)
    write_cases m true addr value = elim (Option-cases (copy_to_guest m.guest addr value)) [
      | inr (g, e) ↦ inl (g, rw (e, write) refl)
      | inl e ↦ inr (rw (e, write) refl)
    ]

    -- Of the threads in `exit`, the first is current, and the second is the one that exits.
    exit_lem :
        (m : MultiThreading G) (x y : Thread) (g : G) (next : ℕ) (rest : List ℕ)
        → find_thread m.threads m.current ≡ some x
        → x.tid ≡ m.current
        → m.suspended ≡ next ∷ rest
        → find_thread (erase m.threads m.current) next ≡ some y
        → (if not (x.clear_tid == 0)
            then write copy_to_guest copy_from_guest uninitialised m x.clear_tid 0
            else done tt m)
          ≡ done tt (record m { guest = g })
        → exit copy_to_guest copy_from_guest uninitialised m m.current
          ≡ done tt (record m {
            threads = erase m.threads m.current;
            suspended = rest;
            current = next;
            registers = y.stored_regs;
            tls_base = y.fsbase;
            guest = g;
          })
    unfolding exit erase_thread wakeup_next
    exit_lem m x y g next rest found same e next_found written =
        let m₁ : MultiThreading G = record m {
          guest = g;
          threads = erase m.threads m.current;
          suspended = rest;
        } in
        let me : (x.tid == m.current) ≡ true = ground (arith, same) in
        let wake = resume_lem m₁ next y next_found in
        let got = get_thread_lem m m.current x found in
        rw (got, exit)
          (rw (got, written)
            (rw (found, erase_thread) (rw (me, wakeup_next) (simp e (rw wake refl)))))

    fault_lem :
        (m : MultiThreading G) (x : Thread)
        → find_thread m.threads m.current ≡ some x
        → (if not (x.clear_tid == 0)
            then write copy_to_guest copy_from_guest uninitialised m x.clear_tid 0
            else done tt m)
          ≡ throws memory_fault m
        → exit copy_to_guest copy_from_guest uninitialised m m.current ≡ throws memory_fault m
    unfolding exit
    fault_lem m x found e =
        let got = get_thread_lem m m.current x found in rw (got, exit) (rw (got, e) refl)

    pub exit-Keeps :
        (m : MultiThreading G)
        → IsValid m
        → m.current ≢ 1
        → Keeps (exit copy_to_guest copy_from_guest uninitialised m m.current)
    exit-Keeps m v other =
        let (x, found, same) = current_lem m v in
        elim (write_cases m (not (x.clear_tid == 0)) x.clear_tid 0) [
          | inr e ↦ rw (fault_lem m x found e) fault
          | inl (g, e) ↦ go m.suspended refl x found same g e
        ]
      where
        go :
            (q : List ℕ)
            → m.suspended ≡ q
            → (x : Thread) → find_thread m.threads m.current ≡ some x
            → x.tid ≡ m.current
            → (g : G)
            → (if not (x.clear_tid == 0)
                then write copy_to_guest copy_from_guest uninitialised m x.clear_tid 0
                else done tt m)
              ≡ done tt (record m { guest = g })
            → Keeps (exit copy_to_guest copy_from_guest uninitialised m m.current)
        go [] e x found same g written = absurd (ground (arith, v.main, v.balanced 1, e, other))
        go (next ∷ rest) e x found same g written =
            let gone =
              count_threads-erase next m.current m.threads (ground (arith, v.balanced m.current)) in
            let (y, next_found, _) =
              find_thread_lem next (erase m.threads m.current)
                (ground (arith, v.balanced next, v.single next, gone, e)) in
            let left = left-IsValid m next rest y.stored_regs y.fsbase v other e in
            rw (exit_lem m x y g next rest found same e next_found written)
              (same-IsValid _ _ refl refl refl refl left)
