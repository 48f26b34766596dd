-- ===== src/Copies/Prefix.antt =====
-- gather_buffers_from_range of lib/tinykvm/machine_utils.cpp: the buffers that the vector has before.
use tinykvm.Prelude.{
  ℕ, zero, suc, ◌+◌, ◌-◌, ◌%◌, ◌≡◌, refl, ap, sym, ◌∙◌, inl, inr, false, List, [], ◌∷◌, ◌++◌,
  Option, none, some, ◌==◌, add64, page_size, arith, Bool-cases, Option-cases,
}
use mathlib.Core.List.{append_assoc, append-nil}
use tinykvm.Copies.{
  fetched, faults, too_large, out_of_buffers, out_of_fuel, Fetch, map_fetch, Buffer, page_of,
  chunk_size, for_chunks, for_range, add_buffer, all_buffers, gather_buffers_from_range,
}
use tinykvm.Copies.Limited.{State, for_chunks_turn, for_chunks_fault}

-- The same buffers behind others.
unfoldable pub behind : List Buffer → State → State
behind before (buffers, last) = (before ++ buffers, last)

add_buffer-behind :
    (before : List Buffer) (s : State) (chunk : Buffer)
    → add_buffer (behind before s) chunk ≡ behind before (add_buffer s chunk)
unfolding add_buffer behind
add_buffer-behind before (buffers, none) chunk = refl
add_buffer-behind before (buffers, some last) chunk =
    elim (Bool-cases (chunk.ptr == last.ptr + last.len)) [
      | inl adjacent ↦ rw (adjacent, add_buffer) refl
      | inr apart ↦
          rw (apart, add_buffer)
            (ap (λ bs. (bs, some chunk)) (append_assoc before buffers (last ∷ [])))
    ]

all_buffers-behind :
    (before : List Buffer) (s : State) → all_buffers (behind before s) ≡ before ++ all_buffers s
unfolding all_buffers behind
all_buffers-behind before (buffers, none) = refl
all_buffers-behind before (buffers, some last) = append_assoc before buffers (last ∷ [])

module _ (userpage : ℕ → Option ℕ) (before : List Buffer) where
  for_chunks-behind :
      (fuel : ℕ) (s : State) (addr len : ℕ)
      → for_chunks userpage add_buffer fuel (behind before s) addr len
        ≡ map_fetch (behind before) (for_chunks userpage add_buffer fuel s addr len)
  unfolding for_chunks map_fetch
  for_chunks-behind zero s addr zero = refl
  for_chunks-behind zero s addr (suc len) =
      let some_left : (suc len == 0) ≡ false = ground arith in rw (some_left, for_chunks) refl
  for_chunks-behind (suc fuel) s addr zero = refl
  for_chunks-behind (suc fuel) s addr (suc len) = elim (Option-cases (userpage (page_of addr))) [
    | inl unmapped ↦
        for_chunks_fault userpage fuel (behind before s) addr len unmapped
        ∙ sym (ap (map_fetch (behind before)) (for_chunks_fault userpage fuel s addr len unmapped))
    | inr (page, mapped) ↦
        let chunk : Buffer = record {
          ptr = page + addr % page_size;
          len = chunk_size addr (suc len);
        } in
        let next = add64 addr (chunk_size addr (suc len)) in
        let left = suc len - chunk_size addr (suc len) in
        for_chunks_turn userpage fuel (behind before s) addr len page mapped
        ∙ ap (λ t. for_chunks userpage add_buffer fuel t next left)
            (add_buffer-behind before s chunk)
        ∙ for_chunks-behind fuel (add_buffer s chunk) next left
        ∙ sym
            (ap (map_fetch (behind before)) (for_chunks_turn userpage fuel s addr len page mapped))
  ]

  map_fetch-behind :
      (r : Fetch State)
      → map_fetch all_buffers (map_fetch (behind before) r)
        ≡ map_fetch (λ bs. before ++ bs) (map_fetch all_buffers r)
  unfolding map_fetch
  map_fetch-behind (fetched s) = ap fetched (all_buffers-behind before s)
  map_fetch-behind (faults page) = refl
  map_fetch-behind too_large = refl
  map_fetch-behind out_of_buffers = refl
  map_fetch-behind out_of_fuel = refl

  -- The buffers before stay as they are, in front of those of an empty vector.
  pub gather_buffers_from_range-before :
      (addr len : ℕ)
      → gather_buffers_from_range userpage before addr len
        ≡ map_fetch (λ bs. before ++ bs) (gather_buffers_from_range userpage [] addr len)
  unfolding gather_buffers_from_range for_range behind
  gather_buffers_from_range-before addr len =
      ap (λ t. map_fetch all_buffers (for_chunks userpage add_buffer len t addr len)) start
      ∙ ap (map_fetch all_buffers) (for_chunks-behind len ([], none) addr len)
      ∙ map_fetch-behind (for_chunks userpage add_buffer len ([], none) addr len)
    where
      with_none : List Buffer → State
      with_none bs = (bs, none)

      start : with_none before ≡ with_none (before ++ [])
      start = ap with_none (sym (append-nil before))
