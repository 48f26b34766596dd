-- ===== src/Mmap/CallsRun.antt =====
-- Histories of the guest's mmap without a file, munmap and brk.
use tinykvm.Prelude.{
  ℕ, ◌+◌, ◌*◌, ◌%◌, ◌^◌, ◌≤◌, ◌<◌, ◌≡◌, refl, Bool, false, not, ◌&&◌, List, [], ◌∷◌, done, throws,
  ◌>>=◌, ltb, leb, ◌==◌, if◌then◌else◌, add64, page_size, round_up, state_of, arith, inl, inr,
  Bool-cases,
}
use tinykvm.Prelude.Outcome.{Outcome}
use tinykvm.MmapCache.{Range, MmapCache, MmapError}
use tinykvm.Mmap.{mmap_unmap}
use tinykvm.Mmap.Invariant.{IsValid}
use tinykvm.Mmap.Allocate.{Roomy, mmap_allocate-Allocates}
use tinykvm.Mmap.Run.{placed_valid, allocated_valid, unmapped_valid}
use tinykvm.Mmap.Calls.{map_failed, page_down, place_anonymous, mmap_call, munmap_call, brk_call}

-- The address space of a machine: its mmap area and the end of its heap.
pub record Space : Type 0 where
  pub cache : MmapCache
  pub brk_address : ℕ
  pub brk_end_address : ℕ

pub data SpaceCall : Type 0 where
  maps : (rdi rsi : ℕ) → (is_fixed is_anon : Bool) → SpaceCall
  unmaps : (rdi rsi : ℕ) → SpaceCall
  breaks : (rdi : ℕ) → SpaceCall

-- The mmap area is valid, and the heap ends where it may.
pub record IsSound (s : Space) : Type 0 where
  pub valid : IsValid s.cache
  pub heap : s.brk_address ≤ s.brk_end_address

module _ (start : ℕ) (relocate_fixed : Bool) where
  -- The state that a call leaves, returned or thrown.
  unfoldable pub after_call : Space → SpaceCall → Space
  after_call s (maps rdi rsi is_fixed is_anon) = record s {
    cache = state_of (mmap_call start relocate_fixed s.cache rdi rsi is_fixed is_anon);
  }
  after_call s (unmaps rdi rsi) = record s { cache = state_of (munmap_call start s.cache rdi rsi) }
  after_call s (breaks rdi) = record s {
    brk_address = brk_call s.brk_address s.brk_end_address rdi;
  }

  unfoldable pub run_space : Space → List SpaceCall → Space
  run_space s [] = s
  run_space s (k ∷ ks) = run_space (after_call s k) ks

  -- The length is not 0, there is room for it, and no end wraps.
  abbrev pub MayCall : Space → SpaceCall → Type 0
  MayCall s (maps rdi rsi is_fixed is_anon) =
      (0 < rsi) × (rdi + rsi + 2 * 4096 < 2 ^ 64) × Roomy s.cache (rsi + 2 * 4096)
  MayCall s (unmaps rdi rsi) = (0 < rsi) × (rdi + rsi + 4096 < 2 ^ 64)
  MayCall s (breaks rdi) = Unit {0}

  abbrev pub AllMayCall : Space → List SpaceCall → Type 0
  AllMayCall s [] = Unit {0}
  AllMayCall s (k ∷ ks) = MayCall s k × AllMayCall (after_call s k) ks

  pub state_of-place :
      {A : Type 0} (o : Outcome MmapError MmapCache ℕ) (f : ℕ → A)
      → state_of (o >>= λ (a, c). done (f a) c) ≡ state_of o
  state_of-place (done a c) f = refl
  state_of-place (throws e c) f = refl

  pub state_of-unmap :
      (o : Outcome MmapError MmapCache Bool)
      → state_of (◌>>=◌ {B = ℕ} o (λ (_, c). done 0 c)) ≡ state_of o
  state_of-unmap (done a c) = refl
  state_of-unmap (throws e c) = refl

  pub brk-after_call :
      (s : Space) (k : SpaceCall) → IsSound s → s.brk_address ≤ (after_call s k).brk_address
  unfolding after_call brk_call
  brk-after_call s (maps rdi rsi is_fixed is_anon) sound = omega arith
  brk-after_call s (unmaps rdi rsi) sound = omega arith
  brk-after_call s (breaks rdi) sound = ground (arith, sound.heap)

  pub place_anonymous-IsValid :
      (c : MmapCache) (address length : ℕ) (is_fixed : Bool)
      → IsValid c
      → 0 < length
      → address % 4096 ≡ 0
      → address + length + 4096 < 2 ^ 64
      → Roomy c (length + 4096)
      → IsValid (state_of (place_anonymous start relocate_fixed c address length is_fixed))
  unfolding place_anonymous
  place_anonymous-IsValid c address length is_fixed v some_bytes aligned word room =
      let apart =
        allocated_valid start c _ _
          (mmap_allocate-Allocates start c length false v some_bytes (omega (arith, room))) in
      let placed =
        placed_valid start c address length is_fixed v (some_bytes, aligned, word, room) in
      elim (Bool-cases
        (not (address == 0) && (leb start address && leb (add64 address length) start))) [
          | inl below ↦ elim (Bool-cases is_fixed) [
            | inl fixed ↦ rw (below, fixed, place_anonymous, state_of) v
            | inr free ↦ rw (below, free, place_anonymous) apart
          ]
          | inr above ↦
              elim (Bool-cases
                (not (address == 0) && (leb start address && leb (add64 address length) c.mm))) [
                  | inl inside ↦ rw (above, inside, place_anonymous) placed
                  | inr outside ↦
                      elim (Bool-cases (
                        not (address == 0)
                        && (ltb c.mm (add64 address length) && not relocate_fixed))) [
                          | inl forced ↦ rw (above, outside, forced, place_anonymous) placed
                          | inr anywhere ↦ rw (above, outside, anywhere, place_anonymous) apart
                        ]
                ]
        ]

  pub after_call-IsSound :
      (s : Space) (k : SpaceCall) → IsSound s → MayCall s k → IsSound (after_call s k)
  unfolding after_call mmap_call munmap_call brk_call
  after_call-IsSound s (maps rdi rsi is_fixed is_anon) sound may = record {
    valid =
        rw
          (state_of-place {A = ℕ × List Range}
            (place_anonymous start relocate_fixed s.cache (page_down rdi) (round_up page_size rsi)
              is_fixed)
            (λ rax. (
              rax,
              if is_anon && not (rax == map_failed)
                  then record { addr = rax; size = round_up page_size rsi } ∷ []
                  else [],
            )))
          (place_anonymous-IsValid s.cache (page_down rdi) (round_up page_size rsi) is_fixed
            sound.valid (omega (arith, may.0, may.1)) (omega arith) (omega (arith, may.1))
            (omega (arith, may.1, may.2)));
    heap = sound.heap;
  }
  after_call-IsSound s (unmaps rdi rsi) sound may =
      let some_bytes : 0 < round_up page_size rsi = omega (arith, may.0, may.1) in
      let word : page_down rdi + round_up page_size rsi < 2 ^ 64 = omega (arith, may.1) in
      record {
        valid =
            rw (state_of-unmap (mmap_unmap start s.cache (page_down rdi) (round_up page_size rsi)))
              (unmapped_valid start s.cache (page_down rdi) (round_up page_size rsi) sound.valid
                some_bytes word);
        heap = sound.heap;
      }
  after_call-IsSound s (breaks rdi) sound may = record {
    valid = sound.valid;
    heap = ground (arith, sound.heap);
  }

  -- From a valid mmap area and a heap that ends where it may, after any history of the guest's mmap
  -- without a file, munmap and brk, with lengths that are not 0, ends that do not wrap and room for
  -- each mapping, whatever the address, the length and MAP_FIXED are and whether a call returned or
  -- threw, the area is valid (free and used ranges lie below `current()`, and no address is in two
  -- of them), the heap ends where it may, and its end has not moved down.
  pub run_space-IsSound :
      (s : Space) (ks : List SpaceCall)
      → IsSound s
      → AllMayCall s ks
      → IsSound (run_space s ks) × (s.brk_address ≤ (run_space s ks).brk_address)
  unfolding run_space
  run_space-IsSound s [] sound may = (sound, omega arith)
  run_space-IsSound s (k ∷ ks) sound may =
      let (after, grown) =
        run_space-IsSound (after_call s k) ks (after_call-IsSound s k sound may.0) may.1 in
      (after, omega (arith, grown, brk-after_call s k sound))
