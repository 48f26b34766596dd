-- ===== src/Mmap/Tests.antt =====
-- Runs of the mmap area, and the theorems at concrete inputs.
use tinykvm.Prelude.{◌+◌, ◌≤◌, ◌<◌, ◌≡◌, refl, true, false, [], ◌∷◌, arith, done, state_of}
use tinykvm.MmapCache.{
  MmapCache, find, find_in, find_collision, merge_free, push_free, extend_back, insert_free,
  insert_used, remove_one, remove_all, remove_used,
}
use tinykvm.MmapCache.Cover.{holds, cover, cover-find_in}
use tinykvm.MmapCache.Remove.{severed, cover-remove_all}
use tinykvm.MmapCache.Results.{range}
use tinykvm.Mmap.{
  track, reuse, grow, mmap_allocate, map_fixed, give_back, mmap_unmap, mmap_relax, allocation_size,
}
use tinykvm.Mmap.Invariant.{IsValid}
use tinykvm.Mmap.Allocate.{Allocates, mmap_allocate-Allocates}
use tinykvm.Mmap.Unmap.{Unmaps, mmap_unmap-Unmaps}
use tinykvm.Mmap.Fixed.{Fixes, map_fixed-Fixes, mmap_relax-IsValid}
use tinykvm.Mmap.Run.{run, run-IsValid, allocate_at, unmap}
use tinykvm.Mmap.Calls.{remapped, mremap_call}
use tinykvm.Mmap.CallsRun.{Space, maps, unmaps, breaks, IsSound, run_space, run_space-IsSound}

-- One free range below two used ones.
abbrev sample : MmapCache
sample = record {
  free_ranges = range 0x200000 0x3000 ∷ [];
  used_ranges = range 0x203000 0x2000 ∷ range 0x205000 0x1000 ∷ [];
  mm = 0x206000;
  track_used_ranges = true;
  max_tracked_ranges = 4096;
}

sample-IsValid : IsValid sample
sample-IsValid = record {
  bounded = omega arith;
  aligned = omega arith;
  tracks = refl;
  free_fit = omega arith;
  used_fit = omega arith;
  disjoint = λ x. ground arith;
}

first_fit :
    mmap_allocate 0x200000 sample 5000 false
    ≡ done 0x200000 (record sample {
      free_ranges = range 0x202000 0x1000 ∷ [];
      used_ranges = range 0x203000 0x2000 ∷ range 0x205000 0x1000 ∷ range 0x200000 0x2000 ∷ [];
    })
unfolding mmap_allocate reuse grow track find find_in find_collision insert_used extend_back
first_fit = refl

huge_from_the_top :
    mmap_allocate 0x200000 sample 1 true
    ≡ done 0x600000 (record sample {
      mm = 0x800000;
      used_ranges = range 0x203000 0x2000 ∷ range 0x205000 0x1000 ∷ range 0x600000 0x200000 ∷ [];
    })
unfolding mmap_allocate reuse grow track find find_in find_collision insert_used extend_back
huge_from_the_top = refl

unmapped_again :
    mmap_unmap 0x200000 sample 0x203000 0x2000
    ≡ done false (record sample {
      free_ranges = range 0x200000 0x5000 ∷ [];
      used_ranges = range 0x205000 0x1000 ∷ [];
    })
unfolding mmap_unmap give_back insert_free find_collision merge_free push_free remove_used
    remove_all remove_one
unmapped_again = refl

-- Unmapping the front of a used range forgets all of it.
front_severed : remove_all (range 0x203000 0x2000 ∷ []) 0x203000 0x1000 ≡ []
unfolding remove_all remove_one
front_severed = refl

cover-find_in_example :
    cover sample.free_ranges 0x200000
    ≡ cover (find_in sample.free_ranges 0x1000).1 0x200000
      + holds (find_in sample.free_ranges 0x1000).0 0x200000
cover-find_in_example = cover-find_in 0x206000 sample.free_ranges 0x1000 0x200000 (omega arith)

cover-remove_all_example :
    cover (remove_all sample.used_ranges 0x203000 0x1000) 0x204000
      + severed sample.used_ranges 0x203000 0x1000 0x204000
    ≡ 1
cover-remove_all_example =
    cover-remove_all 0x206000 0x203000 0x1000 (omega arith) sample.used_ranges 0x204000
      (omega arith)

mmap_allocate-Allocates_example :
    Allocates 0x200000 sample
      (allocation_size 5000 false)
      (mmap_allocate 0x200000 sample 5000 false)
mmap_allocate-Allocates_example =
    mmap_allocate-Allocates 0x200000 sample 5000 false sample-IsValid (omega arith) (omega arith)

unmap_bound : 0x203000 + 0x2000 < 18446744073709551616
unmap_bound = omega arith

unmap_pos : 0 < 0x2000
unmap_pos = omega arith

mmap_unmap-Unmaps_example :
    Unmaps 0x200000 sample 0x203000 0x2000 sample-IsValid unmap_pos unmap_bound
      (mmap_unmap 0x200000 sample 0x203000 0x2000)
mmap_unmap-Unmaps_example =
    mmap_unmap-Unmaps 0x200000 sample 0x203000 0x2000 sample-IsValid unmap_pos unmap_bound

fixed_below : 0x200000 + 0x2000 ≤ 0x206000
fixed_below = omega arith

map_fixed-Fixes_example :
    Fixes sample 0x200000 0x2000 sample-IsValid unmap_pos fixed_below
      (map_fixed sample 0x200000 0x2000)
map_fixed-Fixes_example =
    map_fixed-Fixes sample 0x200000 0x2000 sample-IsValid unmap_pos fixed_below

mmap_relax-IsValid_example : IsValid (state_of (mmap_relax sample 0x203000 0x3000 0x1000))
mmap_relax-IsValid_example =
    mmap_relax-IsValid sample 0x203000 0x3000 0x1000 sample-IsValid (omega arith) (omega arith)
      (λ x p. ground arith)

run-IsValid_example : IsValid (
    run 0x200000 sample
      (allocate_at 0x203000 100 true ∷ unmap 0x200000 1 ∷ unmap 0x205000 0x1000 ∷ []))
run-IsValid_example =
    run-IsValid 0x200000 sample
      (allocate_at 0x203000 100 true ∷ unmap 0x200000 1 ∷ unmap 0x205000 0x1000 ∷ []) sample-IsValid
      (omega arith)

abbrev space : Space
space = record { cache = sample; brk_address = 0x100000; brk_end_address = 0x122000 }

space-IsSound : IsSound space
space-IsSound = record { valid = sample-IsValid; heap = omega arith }

run_space-IsSound_example :
    IsSound (
      run_space 0x200000 false space
        (maps 0x203000 100 true true ∷ unmaps 0x205008 1 ∷ breaks 0x101000 ∷ []))
    × (0x100000
        ≤ (run_space 0x200000 false space
            (maps 0x203000 100 true true ∷ unmaps 0x205008 1 ∷ breaks 0x101000 ∷ [])).brk_address)
run_space-IsSound_example =
    run_space-IsSound 0x200000 false space
      (maps 0x203000 100 true true ∷ unmaps 0x205008 1 ∷ breaks 0x101000 ∷ []) space-IsSound
      (omega arith)

-- mremap shrinks the area below a range that stays recorded as used.
shrunk_below_used :
    mremap_call 0x200000 sample 0x205000 0x1000 0 false false false
    ≡ remapped 0x205000 [] (record sample { mm = 0x205000 })
unfolding mremap_call
shrunk_below_used = refl
