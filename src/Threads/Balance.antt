-- ===== src/Threads/Balance.antt =====
-- Counting tids in the map of threads and in the queue of suspended threads.
use tinykvm.Prelude.{
  ℕ, ◌+◌, ◌≤◌, ◌<◌, ◌≡◌, refl, List, [], ◌∷◌, ◌++◌, some, ◌==◌, if◌then◌else◌, arith, inl, inr,
  Bool-cases,
}
use tinykvm.Threads.{Thread, MultiThreading, find_thread, emplace, assign, erase, other_tids}

abbrev pub one : ℕ → ℕ → ℕ
one a t = if a == t then 1 else 0

abbrev pub count : ℕ → List ℕ → ℕ
count t [] = 0
count t (x ∷ xs) = one x t + count t xs

abbrev pub count_threads : ℕ → List Thread → ℕ
count_threads t [] = 0
count_threads t (x ∷ xs) = one x.tid t + count_threads t xs

pub count-append : (t : ℕ) (xs ys : List ℕ) → count t (xs ++ ys) ≡ count t xs + count t ys
count-append t [] ys = omega arith
count-append t (x ∷ xs) ys = omega (arith, count-append t xs ys)

pub find_thread_lem :
    (t : ℕ) (xs : List Thread)
    → 1 ≤ count_threads t xs
    → (x : Thread) × (find_thread xs t ≡ some x) × (x.tid ≡ t)
unfolding find_thread
find_thread_lem t [] l = absurd (omega (arith, l))
find_thread_lem t (x ∷ xs) l = elim (Bool-cases (x.tid == t)) [
  | inl e ↦ (x, rw e refl, ground (arith, e))
  | inr e ↦
      let (y, found, same) = find_thread_lem t xs (ground (arith, e, l)) in (y, rw e found, same)
]

pub count_threads-assign :
    (t : ℕ) (xs : List Thread) (y : Thread) → count_threads t (assign xs y) ≡ count_threads t xs
unfolding assign
count_threads-assign t [] y = refl
count_threads-assign t (x ∷ xs) y = ground (arith, count_threads-assign t xs y)

pub count_threads-erase :
    (t u : ℕ) (xs : List Thread)
    → 1 ≤ count_threads u xs
    → count_threads t (erase xs u) + one u t ≡ count_threads t xs
unfolding erase
count_threads-erase t u [] l = absurd (omega (arith, l))
count_threads-erase t u (x ∷ xs) l = elim (Bool-cases (x.tid == u)) [
  | inl e ↦ rw e (ground (arith, e))
  | inr e ↦ rw e (ground (arith, count_threads-erase t u xs (ground (arith, e, l))))
]

pub count_threads-emplace :
    (t : ℕ) (xs : List Thread) (y : Thread)
    → count_threads y.tid xs ≡ 0
    → count_threads t (emplace xs y) ≡ count_threads t xs + one y.tid t
unfolding emplace
count_threads-emplace t [] y e = omega arith
count_threads-emplace t (x ∷ xs) y e =
    ground (arith, e, count_threads-emplace t xs y (ground (arith, e)))

pub count-other_tids :
    (t u : ℕ) (xs : List Thread)
    → count t (other_tids xs u) ≡ (if u == t then 0 else count_threads t xs)
unfolding other_tids
count-other_tids t u [] = ground arith
count-other_tids t u (x ∷ xs) = ground (arith, count-other_tids t u xs)

-- Every thread is either the current one or suspended, once; thread 1 is there, and the counter
-- has passed all tids.
pub record IsValid {G : Type 0} (m : MultiThreading G) : Type 0 where
  pub balanced : (t : ℕ) → count_threads t m.threads ≡ one m.current t + count t m.suspended
  pub single : (t : ℕ) → count_threads t m.threads ≤ 1
  pub main : count_threads 1 m.threads ≡ 1
  pub fresh : (t : ℕ) → m.thread_counter < t → count_threads t m.threads ≡ 0
