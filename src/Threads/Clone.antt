-- ===== src/Threads/Clone.antt =====
-- The system call clone: create, suspend and activate of lib/tinykvm/linux/threads.cpp.
use mathlib.Core.Path.{ap}
use tinykvm.Prelude.{
  ℕ, ◌+◌, ◌/◌, ◌%◌, ◌^◌, ◌≡◌, refl, ◌∙◌, [], ◌∷◌, ◌++◌, Option, some, done, throws, ◌>>=◌, ◌==◌,
  arith, inl, inr, Bool-cases,
}
use tinykvm.Threads.{
  Thread, MultiThreading, Result, find_thread, assign, emplace, suspend, activate, create,
  clone_thread,
}
use tinykvm.Threads.Balance.{
  one, count, count_threads, count-append, find_thread_lem, count_threads-assign,
  count_threads-emplace, IsValid,
}
use tinykvm.Threads.Yield.{current_lem, get_thread_lem, suspend_lem, saved_thread}
use tinykvm.Threads.Steps.{IsGuestError, fault, Keeps, write_cases}

-- One thread more, which is neither current nor suspended yet.
record Created {G : Type 0} (m m' : MultiThreading G) : Type 0 where
  threads :
      (t : ℕ)
      → count_threads t m'.threads ≡ count_threads t m.threads + one (m.thread_counter + 1) t
  suspended : m'.suspended ≡ m.suspended
  current : m'.current ≡ m.current
  thread_counter : m'.thread_counter ≡ m.thread_counter + 1

abbrev Creates : {G : Type 0} → MultiThreading G → Result G ℕ → Type 0
Creates m (done t m') = (t ≡ m.thread_counter + 1) × Created m m'
Creates m (throws e m') = IsGuestError e

module _ {G : Type 0} (copy_to_guest : G → ℕ → ℕ → Option G) (copy_from_guest : G → ℕ → Option ℕ)
    (uninitialised : Thread) where
  abbrev new_thread : ℕ → ℕ → ℕ → Thread
  new_thread t stack tls = record uninitialised {
    tid = t;
    fsbase = tls;
    stored_regs = record uninitialised.stored_regs { rsp = stack };
  }

  create-Creates :
      (m : MultiThreading G) (flags ctid ptid stack tls : ℕ)
      → IsValid m
      → Creates m (create copy_to_guest copy_from_guest uninitialised m flags ctid ptid stack tls)
  unfolding create
  create-Creates m flags ctid ptid stack tls v =
      let t : ℕ = m.thread_counter + 1 in
      let x : Thread = new_thread t stack tls in
      let m₁ : MultiThreading G = record m { thread_counter = t; threads = emplace m.threads x } in
      let more : (u : ℕ)
          → count_threads u (emplace m.threads x) ≡ count_threads u m.threads + one t u =
        λ u. count_threads-emplace u m.threads x (v.fresh t (omega arith)) in
      let (y, found, _) = find_thread_lem t (emplace m.threads x) (ground (arith, more t)) in
      elim (write_cases copy_to_guest copy_from_guest uninitialised m₁ (flags / 2 ^ 24 % 2 == 1)
        ctid t) [
          | inr e ↦ rw (e, create) fault
          | inl (g, e) ↦
              elim (write_cases copy_to_guest copy_from_guest uninitialised
                (record m₁ { guest = g }) (flags / 2 ^ 20 % 2 == 1) ptid t) [
                  | inr e' ↦ rw (e, create) (rw e' fault)
                  | inl (g', e') ↦ elim (Bool-cases (flags / 2 ^ 21 % 2 == 1)) [
                    | inl b ↦
                        rw (e, create)
                          (rw e' (
                            rw (get_thread_lem (record m₁ { guest = g' }) t y found) (
                              rw b (
                                refl,
                                record {
                                  threads = λ u.
                                      count_threads-assign u (emplace m.threads x)
                                        (record y { clear_tid = ctid })
                                      ∙ more u;
                                  suspended = refl;
                                  current = refl;
                                  thread_counter = refl;
                                },
                              ))))
                    | inr b ↦
                        rw (e, create)
                          (rw e' (
                            rw (get_thread_lem (record m₁ { guest = g' }) t y found) (
                              rw b (
                                refl,
                                record {
                                  threads = more;
                                  suspended = refl;
                                  current = refl;
                                  thread_counter = refl;
                                },
                              ))))
                  ]
                ]
        ]

  activate_lem :
      (m : MultiThreading G) (t : ℕ) (y : Thread)
      → find_thread m.threads t ≡ some y
      → activate m t
        ≡ done
            (record m.registers { rsp = y.stored_regs.rsp })
            (record m { current = t; tls_base = y.fsbase })
  unfolding activate
  activate_lem m t y e = rw (get_thread_lem m t y e, activate) refl

  -- The parent is suspended and the child goes on.
  cloned-IsValid :
      (m m₁ m' : MultiThreading G) (p : Thread)
      → IsValid m
      → Created m m₁
      → m'.threads ≡ assign m₁.threads p
      → m'.suspended ≡ m₁.suspended ++ (m.current ∷ [])
      → m'.current ≡ m.thread_counter + 1
      → m'.thread_counter ≡ m₁.thread_counter
      → IsValid m'
  cloned-IsValid m m₁ m' p v c threads suspended current counter =
      let total : (t : ℕ)
          → count_threads t m'.threads ≡ count_threads t m.threads + one (m.thread_counter + 1) t =
        λ t. ap (count_threads t) threads ∙ count_threads-assign t m₁.threads p ∙ c.threads t in
      let queue : (t : ℕ) → count t m'.suspended ≡ count t m.suspended + one m.current t =
        λ t. ground (arith, suspended, c.suspended, count-append t m₁.suspended (m.current ∷ [])) in
      record {
        balanced = λ t. ground (arith, total t, queue t, v.balanced t, current);
        single = λ t. ground (arith, total t, v.single t, v.fresh t);
        main = ground (arith, total 1, v.main, v.fresh 1);
        fresh = λ t l. ground (arith, total t, v.fresh t, counter, c.thread_counter, l);
      }

  pub clone_thread-Keeps :
      (m : MultiThreading G) (flags stack ptid ctid tls : ℕ)
      → IsValid m
      → Keeps (clone_thread copy_to_guest copy_from_guest uninitialised m flags stack ptid ctid tls)
  unfolding clone_thread
  clone_thread-Keeps m flags stack ptid ctid tls v =
      let (x, found, same) = current_lem m v in
      rw (get_thread_lem m m.current x found, clone_thread)
        (go x same _ (create-Creates m flags ctid ptid stack tls v))
    where
      go :
          (x : Thread)
          → x.tid ≡ m.current
          → (o : Result G ℕ) → Creates m o
          → Keeps (
              o >>= λ (child, m₁). suspend m₁ x.tid child >>= λ (_, m₂).
              activate m₂ child >>= λ (regs, m₃).
              done (tt {0}) (record m₃ { registers = record regs { rax = 0 } }))
      go x same (throws e m₁) c = c
      go x same (done child m₁) (at, c) =
          let (p, parent_found, _) =
            find_thread_lem x.tid m₁.threads
              (ground (arith, c.threads x.tid, v.balanced m.current, same)) in
          let p' : Thread = saved_thread m₁ p child in
          let (q, child_found, _) =
            find_thread_lem child (assign m₁.threads p')
              (ground (arith, at, c.threads child, count_threads-assign child m₁.threads p')) in
          let m₂ : MultiThreading G = record m₁ {
            threads = assign m₁.threads p';
            suspended = m₁.suspended ++ (x.tid ∷ []);
          } in
          rw (suspend_lem m₁ x.tid child p parent_found) (
            rw (activate_lem m₂ child q child_found)
              (cloned-IsValid m m₁ _ p' v c refl (ap (λ t. m₁.suspended ++ (t ∷ [])) same) at refl))
