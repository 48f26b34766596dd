-- ===== src/Copies/Limited.antt =====
-- gather_buffers_from_range with an array against the same with a vector, of
-- lib/tinykvm/machine_utils.cpp.
use tinykvm.Prelude.{
  ℕ, zero, suc, ◌+◌, ◌-◌, ◌%◌, ◌≤◌, ◌<◌, ◌≡◌, refl, ap, sym, ◌∙◌, ◌⊎◌, inl, inr, false, List, [],
  ◌∷◌, ◌++◌, Option, none, some, ltb, ◌==◌, length, length-append, add64, page_size, arith,
  Bool-cases, Option-cases,
}
use tinykvm.Copies.{
  Fetch, fetched, faults, too_large, out_of_buffers, out_of_fuel, map_fetch, Buffer, page_of,
  chunk_size, for_chunks, for_range, add_buffer, all_buffers, gather_buffers_from_range,
  gather_limited, gather_array,
}

-- A chunk extends the last buffer or begins one.
pub length-add_buffer :
    (s : List Buffer × Option Buffer) (chunk : Buffer)
    → (length (all_buffers s) ≤ length (all_buffers (add_buffer s chunk)))
      × (length (all_buffers (add_buffer s chunk)) ≤ length (all_buffers s) + 1)
unfolding add_buffer all_buffers
length-add_buffer (buffers, none) chunk = (
  omega (arith, length-append buffers (chunk ∷ [])),
  omega (arith, length-append buffers (chunk ∷ [])),
)
length-add_buffer (buffers, some last) chunk =
    elim (Bool-cases (chunk.ptr == last.ptr + last.len)) [
      | inl adjacent ↦
          let grown : Buffer = record last { len = last.len + chunk.len } in
          let same : length (buffers ++ (grown ∷ [])) ≡ length (buffers ++ (last ∷ [])) =
            length-append buffers (grown ∷ []) ∙ sym (length-append buffers (last ∷ [])) in
          let step : add_buffer (buffers, some last) chunk ≡ (buffers, some grown) =
            rw (adjacent, add_buffer) refl in
          rw step (omega (arith, same), omega (arith, same))
      | inr apart ↦
          let step : add_buffer (buffers, some last) chunk ≡ (buffers ++ (last ∷ []), some chunk) =
            rw (apart, add_buffer) refl in
          let more = length-append (buffers ++ (last ∷ [])) (chunk ∷ []) in
          rw step (omega (arith, more), omega (arith, more))
    ]

abbrev pub State : Type 0
State = List Buffer × Option Buffer

-- The number of buffers of a result.
unfoldable pub count_of : Fetch State → ℕ
count_of (fetched s) = length (all_buffers s)
count_of _ = 0

-- The buffers of a result.
unfoldable buffers_of : Fetch (List Buffer) → List Buffer
buffers_of (fetched all) = all
buffers_of _ = []

pub fetched_same :
    (s s' : State) → fetched s ≡ fetched s' → length (all_buffers s) ≡ length (all_buffers s')
unfolding count_of
fetched_same s s' e = ap count_of e

module _ (userpage : ℕ → Option ℕ) where
  -- What one turn of the loop does.
  pub for_chunks_turn :
      (fuel : ℕ) (s : State) (addr len page : ℕ)
      → userpage (page_of addr) ≡ some page
      → for_chunks userpage add_buffer (suc fuel) s addr (suc len)
        ≡ for_chunks userpage add_buffer fuel
            (add_buffer s
              (record { ptr = page + addr % page_size; len = chunk_size addr (suc len) }))
            (add64 addr (chunk_size addr (suc len)))
            (suc len - chunk_size addr (suc len))
  unfolding for_chunks
  for_chunks_turn fuel s addr len page mapped =
      let some_left : (suc len == 0) ≡ false = ground arith in
      rw (some_left, mapped, for_chunks) refl

  pub for_chunks_fault :
      (fuel : ℕ) (s : State) (addr len : ℕ)
      → userpage (page_of addr) ≡ none
      → for_chunks userpage add_buffer (suc fuel) s addr (suc len) ≡ faults (page_of addr)
  unfolding for_chunks
  for_chunks_fault fuel s addr len unmapped =
      let some_left : (suc len == 0) ≡ false = ground arith in
      rw (some_left, unmapped, for_chunks) refl

  -- The buffers only become more.
  pub for_chunks-grows :
      (fuel : ℕ) (s s' : State) (addr len : ℕ)
      → for_chunks userpage add_buffer fuel s addr len ≡ fetched s'
      → length (all_buffers s) ≤ length (all_buffers s')
  unfolding for_chunks
  for_chunks-grows zero s s' addr zero e = omega (arith, fetched_same s s' e)
  for_chunks-grows zero s s' addr (suc len) e = absurd (ground (arith, e))
  for_chunks-grows (suc fuel) s s' addr zero e = omega (arith, fetched_same s s' e)
  for_chunks-grows (suc fuel) s s' addr (suc len) e =
      elim (Option-cases (userpage (page_of addr))) [
        | inl unmapped ↦
            absurd (ground (arith, sym (for_chunks_fault fuel s addr len unmapped) ∙ e))
        | inr (page, mapped) ↦
            let chunk : Buffer = record {
              ptr = page + addr % page_size;
              len = chunk_size addr (suc len);
            } in
            omega (
              arith,
              for_chunks-grows fuel (add_buffer s chunk) s' _ _
                  (sym (for_chunks_turn fuel s addr len page mapped) ∙ e),
              (length-add_buffer s chunk).0,
            )
      ]

  module _ (cnt : ℕ) where
    -- The array has room for all buffers, or is full while some of the range is left.
    abbrev pub Limits : Fetch (List Buffer) → List Buffer → Type 0
    Limits r all =
        ((r ≡ fetched all) × (length all ≤ cnt)) ⊎ ((r ≡ out_of_buffers) × (cnt ≤ length all))

    pub gather_limited-Limits :
        (fuel : ℕ) (s s' : State) (addr len : ℕ)
        → length (all_buffers s) ≤ cnt
        → for_chunks userpage add_buffer fuel s addr len ≡ fetched s'
        → Limits (gather_limited userpage cnt fuel s addr len) (all_buffers s')
    unfolding for_chunks gather_limited map_fetch
    gather_limited-Limits zero s s' addr zero fits e =
        inl (ap (map_fetch all_buffers) e, omega (arith, fetched_same s s' e, fits))
    gather_limited-Limits zero s s' addr (suc len) fits e = absurd (ground (arith, e))
    gather_limited-Limits (suc fuel) s s' addr zero fits e =
        inl (ap (map_fetch all_buffers) e, omega (arith, fetched_same s s' e, fits))
    gather_limited-Limits (suc fuel) s s' addr (suc len) fits e =
        elim (Bool-cases (ltb (length (all_buffers s)) cnt)) [
          | inr full ↦
              let some_left : (suc len == 0) ≡ false = ground arith in
              let stops : gather_limited userpage cnt (suc fuel) s addr (suc len) ≡ out_of_buffers =
                rw (some_left, full, gather_limited) refl in
              let many : cnt ≤ length (all_buffers s) = ground (arith, full) in
              inr (stops, omega (arith, many, for_chunks-grows (suc fuel) s s' addr (suc len) e))
          | inl room ↦ elim (Option-cases (userpage (page_of addr))) [
            | inl unmapped ↦
                absurd (ground (arith, sym (for_chunks_fault fuel s addr len unmapped) ∙ e))
            | inr (page, mapped) ↦
                let some_left : (suc len == 0) ≡ false = ground arith in
                let chunk : Buffer = record {
                  ptr = page + addr % page_size;
                  len = chunk_size addr (suc len);
                } in
                let turns : gather_limited userpage cnt (suc fuel) s addr (suc len)
                    ≡ gather_limited userpage cnt fuel (add_buffer s chunk)
                        (add64 addr (chunk_size addr (suc len)))
                        (suc len - chunk_size addr (suc len)) =
                  rw (some_left, room, mapped, gather_limited) refl in
                let fewer : length (all_buffers s) < cnt = ground (arith, room) in
                rw turns (
                  gather_limited-Limits fuel (add_buffer s chunk) s' _ _
                    (omega (arith, fewer, (length-add_buffer s chunk).1))
                    (sym (for_chunks_turn fuel s addr len page mapped) ∙ e))
          ]
        ]

    gather_limited_whole :
        (all : List Buffer) (addr len : ℕ) (r : Fetch State)
        → for_chunks userpage add_buffer len ([], none) addr len ≡ r
        → map_fetch all_buffers r ≡ fetched all
        → Limits (gather_limited userpage cnt len ([], none) addr len) all
    unfolding map_fetch all_buffers buffers_of
    gather_limited_whole all addr len (fetched s) q e =
        let same : all_buffers s ≡ all = ap buffers_of e in
        let limits = gather_limited-Limits len ([], none) s addr len (omega arith) q in
        rw (sym same) limits
    gather_limited_whole all addr len (faults page) q e = absurd (ground (arith, e))
    gather_limited_whole all addr len too_large q e = absurd (ground (arith, e))
    gather_limited_whole all addr len out_of_buffers q e = absurd (ground (arith, e))
    gather_limited_whole all addr len out_of_fuel q e = absurd (ground (arith, e))

    -- Where the same range is gathered in an empty vector, gathering it in an array of cnt buffers
    -- either gives the same buffers, which are then cnt at most, or runs out of buffers, where the
    -- vector has cnt of them or more.
    pub gather_array-Limits :
        (all : List Buffer) (addr len : ℕ)
        → gather_buffers_from_range userpage [] addr len ≡ fetched all
        → Limits (gather_array userpage cnt addr len) all
    unfolding gather_array gather_buffers_from_range for_range all_buffers map_fetch
    gather_array-Limits all addr len e = gather_limited_whole all addr len _ refl e
