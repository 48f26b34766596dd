-- ===== src/Threads/Yield.antt =====
-- suspend_and_yield and wakeup_next of lib/tinykvm/linux/threads.cpp.
use mathlib.Core.Path.{ap}
use mathlib.Core.Option.{some-injective}
use tinykvm.Prelude.{
  ℕ, ◌≤◌, ◌≡◌, ◌≢◌, refl, sym, ◌∙◌, true, false, List, [], ◌∷◌, ◌++◌, some, done, ◌==◌,
  if◌then◌else◌, arith, inl, inr, Bool-cases,
}
use tinykvm.Threads.{
  Thread, MultiThreading, find_thread, assign, get_thread, suspend, resume, wakeup_next,
  suspend_and_yield,
}
use tinykvm.Threads.Balance.{
  count_threads, count-append, find_thread_lem, count_threads-assign, IsValid,
}

pub find_thread-assign_ne :
    (xs : List Thread) (y : Thread) (t : ℕ)
    → t ≢ y.tid
    → find_thread (assign xs y) t ≡ find_thread xs t
unfolding find_thread assign
find_thread-assign_ne [] y t ne = refl
find_thread-assign_ne (x ∷ xs) y t ne = elim (Bool-cases (x.tid == y.tid)) [
  | inl e ↦
      let yt : (y.tid == t) ≡ false = ground (arith, ne) in
      let xt : (x.tid == t) ≡ false = ground (arith, ne, e) in
      rw e (rw yt (rw xt (find_thread-assign_ne xs y t ne)))
  | inr e ↦ rw e (ap (λ r. if x.tid == t then some x else r) (find_thread-assign_ne xs y t ne))
]

pub find_thread-assign_self :
    (xs : List Thread) (y : Thread)
    → 1 ≤ count_threads y.tid xs
    → find_thread (assign xs y) y.tid ≡ some y
unfolding find_thread assign
find_thread-assign_self [] y l = absurd (omega (arith, l))
find_thread-assign_self (x ∷ xs) y l = elim (Bool-cases (x.tid == y.tid)) [
  | inl e ↦ let yy : (y.tid == y.tid) ≡ true = ground arith in rw e (rw yy refl)
  | inr e ↦ let rest = find_thread-assign_self xs y (ground (arith, l, e)) in rw e (rw e rest)
]

module _ {G : Type 0} where
  pub current_lem :
      (m : MultiThreading G)
      → IsValid m
      → (x : Thread) × (find_thread m.threads m.current ≡ some x) × (x.tid ≡ m.current)
  current_lem m v = find_thread_lem m.current m.threads (ground (arith, v.balanced m.current))

  -- The current thread stands at the end of the queue, with its registers; the first runs.
  pub record Yielded (m : MultiThreading G) (result next : ℕ) (rest : List ℕ)
      (m' : MultiThreading G) : Type 0 where
    pub valid : IsValid m'
    pub runs : m'.current ≡ next
    pub queue : m'.suspended ≡ rest ++ (m.current ∷ [])
    pub saved :
        (x : Thread) × (find_thread m'.threads m.current ≡ some x)
        × (x.stored_regs ≡ record m.registers { rax = result })
        × (x.fsbase ≡ m.tls_base)
    pub others : (t : ℕ) → t ≢ m.current → find_thread m'.threads t ≡ find_thread m.threads t
    pub restored :
        (y : Thread)
        → find_thread m.threads next ≡ some y
        → (m'.registers ≡ y.stored_regs) × (m'.tls_base ≡ y.fsbase)

  pub get_thread_lem :
      (m : MultiThreading G) (t : ℕ) (x : Thread)
      → find_thread m.threads t ≡ some x
      → get_thread m t ≡ done x m
  unfolding get_thread
  get_thread_lem m t x e = rw (e, get_thread) refl

  -- The thread `x` when it is suspended.
  abbrev pub saved_thread : MultiThreading G → Thread → ℕ → Thread
  saved_thread m x result = record x {
    stored_regs = record m.registers { rax = result };
    fsbase = m.tls_base;
  }

  pub suspend_lem :
      (m : MultiThreading G) (t result : ℕ) (x : Thread)
      → find_thread m.threads t ≡ some x
      → suspend m t result
        ≡ done tt (record m {
          threads = assign m.threads (saved_thread m x result);
          suspended = m.suspended ++ (t ∷ []);
        })
  unfolding suspend
  suspend_lem m t result x e = rw (get_thread_lem m t x e, suspend) refl

  pub resume_lem :
      (m : MultiThreading G) (t : ℕ) (y : Thread)
      → find_thread m.threads t ≡ some y
      → resume m t
        ≡ done tt (record m { current = t; registers = y.stored_regs; tls_base = y.fsbase })
  unfolding resume
  resume_lem m t y e = rw (get_thread_lem m t y e, resume) refl

  yield_lem :
      (m : MultiThreading G) (result next : ℕ) (rest : List ℕ) (x y : Thread)
      → find_thread m.threads m.current ≡ some x
      → x.tid ≡ m.current
      → m.suspended ≡ next ∷ rest
      → find_thread (assign m.threads (saved_thread m x result)) next ≡ some y
      → suspend_and_yield m result
        ≡ done true (record m {
          threads = assign m.threads (saved_thread m x result);
          suspended = rest ++ (m.current ∷ []);
          current = next;
          registers = y.stored_regs;
          tls_base = y.fsbase;
        })
  unfolding suspend_and_yield wakeup_next
  yield_lem m result next rest x y found same e next_found =
      let m₁ : MultiThreading G = record m {
        threads = assign m.threads (saved_thread m x result);
        suspended = rest ++ (m.current ∷ []);
      } in
      let queue : m.suspended ++ (x.tid ∷ []) ≡ next ∷ (rest ++ (m.current ∷ [])) =
        simp (e, same) refl in
      let first =
        suspend_lem m x.tid result x (ap (find_thread m.threads) same ∙ found)
        ∙ ap (λ q. done tt (record m₁ { suspended = q })) queue in
      let wake = resume_lem m₁ next y next_found in
      rw (get_thread_lem m m.current x found, suspend_and_yield) (simp e (rw first (rw wake refl)))

  yielded :
      (m : MultiThreading G) (result next : ℕ) (rest : List ℕ) (x y : Thread)
      → IsValid m
      → find_thread m.threads m.current ≡ some x
      → x.tid ≡ m.current
      → m.suspended ≡ next ∷ rest
      → find_thread m.threads next ≡ some y
      → (m' : MultiThreading G) × (suspend_and_yield m result ≡ done true m')
        × Yielded m result next rest m'
  yielded m result next rest x y v found same e next_found =
      let x' : Thread = saved_thread m x result in
      let ne : next ≢ x.tid = λ q. ground (arith, v.balanced next, v.single next, e, q, same) in
      let next_found' : find_thread (assign m.threads x') next ≡ some y =
        find_thread-assign_ne m.threads x' next ne ∙ next_found in
      let self = find_thread-assign_self m.threads x' (ground (arith, v.balanced x.tid, same)) in
      (
        record m {
          threads = assign m.threads x';
          suspended = rest ++ (m.current ∷ []);
          current = next;
          registers = y.stored_regs;
          tls_base = y.fsbase;
        },
        yield_lem m result next rest x y found same e next_found',
        record {
          valid = record {
            balanced = λ t. ground (
              arith,
              v.balanced t,
              e,
              count_threads-assign t m.threads x',
              count-append t rest (m.current ∷ []),
            );
            single = λ t. omega (arith, v.single t, count_threads-assign t m.threads x');
            main = omega (arith, v.main, count_threads-assign 1 m.threads x');
            fresh = λ t l. omega (arith, v.fresh t l, count_threads-assign t m.threads x');
          };
          runs = refl;
          queue = refl;
          saved = (x', ap (find_thread (assign m.threads x')) (sym same) ∙ self, refl, refl);
          others = λ t ne'. find_thread-assign_ne m.threads x' t (λ q. ne' (q ∙ same));
          restored = λ z q.
              let at : y ≡ z = some-injective _ _ (sym next_found ∙ q) in
              (ap (λ w. w.stored_regs) at, ap (λ w. w.fsbase) at);
        },
      )

  pub suspend_and_yield-Yielded :
      (m : MultiThreading G) (result next : ℕ) (rest : List ℕ)
      → IsValid m
      → m.suspended ≡ next ∷ rest
      → (m' : MultiThreading G) × (suspend_and_yield m result ≡ done true m')
        × Yielded m result next rest m'
  suspend_and_yield-Yielded m result next rest v e =
      let (x, found, same) = current_lem m v in
      let there : 1 ≤ count_threads next m.threads = ground (arith, v.balanced next, e) in
      let (y, next_found, next_same) = find_thread_lem next m.threads there in
      yielded m result next rest x y v found same e next_found
