-- ===== src/Copies/Tests.antt =====
-- Guest memory of three pages, two of them adjacent on the host, and the theorems at it.
use tinykvm.Prelude.{
  ℕ, ◌+◌, ◌-◌, ◌%◌, ◌≡◌, refl, true, false, List, [], ◌∷◌, ◌++◌, Option, none, some, ◌==◌,
  if◌then◌else◌, arith,
}
use tinykvm.Copies.{
  Buffer, fetched, map_fetch, MainMemory, safely_within, copy_from_guest, gather_buffers_from_range,
  string_or_view, memcstring, foreach_memory, for_range, for_chunks, add_view, end_views,
  out_of_buffers, add_buffer, all_buffers, gather_array, gather_limited,
}
use tinykvm.Copies.Limited.{Limits, gather_array-Limits}
use tinykvm.Copies.Bytewise.{read_bytes}
use tinykvm.Copies.Reads.{
  contents, characters, gather_buffers_from_range-Reads, string_or_view-Reads,
  copy_from_guest-Reads,
}
use tinykvm.Copies.Strings.{read_cstring, memcstring-Reads}

abbrev bytes_of : ℕ → ℕ
bytes_of addr = addr % 7

abbrev pages : ℕ → Option ℕ
pages page =
    if page == 0
    then some 0x10000
    else if page == 0x1000
    then some 0x11000
    else if page == 0x2000
    then some 0x30000
    else none

-- It ends where page 0 begins on the host.
abbrev one_buffer : List Buffer
one_buffer = record { ptr = 0x10fe0; len = 0x10 } ∷ []

gather_buffers_from_range-Reads_example :
    (gather_buffers_from_range pages one_buffer 0xff0 0x1020
      ≡ map_fetch (λ new. one_buffer ++ new) (gather_buffers_from_range pages [] 0xff0 0x1020))
    × (map_fetch (contents bytes_of) (gather_buffers_from_range pages one_buffer 0xff0 0x1020)
        ≡ map_fetch
            (λ bs. contents bytes_of one_buffer ++ bs)
            (read_bytes bytes_of pages 0xff0 0x1020))
gather_buffers_from_range-Reads_example =
    gather_buffers_from_range-Reads bytes_of pages one_buffer 0xff0 0x1020 (omega arith)

string_or_view-Reads_example :
    map_fetch (characters bytes_of) (string_or_view bytes_of pages 0x1ff0 0x20)
    ≡ read_bytes bytes_of pages 0x1ff0 0x20
string_or_view-Reads_example =
    string_or_view-Reads bytes_of pages 0x1ff0 0x20 (omega arith) (omega arith)

memcstring-Reads_example :
    memcstring bytes_of pages 0x1ffe 16 ≡ read_cstring bytes_of pages 0x1ffe 16
memcstring-Reads_example = memcstring-Reads bytes_of pages 0x1ffe 16 (omega arith)

-- 64 kB that are mapped one to one from 0x10000 on, at 0x500000 on the host.
abbrev memory : MainMemory
memory = record { physbase = 0; safebase = 0x10000; size = 0x20000; ptr = 0x500000 }

abbrev identity : ℕ → Option ℕ
identity page = some (0x500000 + page)

copy_from_guest-Reads_example :
    copy_from_guest bytes_of identity memory false 0x10ff0 0x20
    ≡ read_bytes bytes_of identity 0x10ff0 0x20
copy_from_guest-Reads_example =
    copy_from_guest-Reads bytes_of identity memory false 0x10ff0 0x20 (omega arith) (omega arith)
      (omega arith) (λ _ _ a from to. (0x500000 + (a - a % 4096), refl, omega arith))

-- An address at the end of the address space is safe, since the sum wraps.
wrapping_is_safe : safely_within memory 0xffffffffffffffff 2 ≡ true
unfolding safely_within
wrapping_is_safe = refl

-- The second chunk, which is not adjacent, is not passed on.
second_chunk_lost : foreach_memory pages 0x1ffe 4 ≡ fetched (record { ptr = 0x11ffe; len = 2 } ∷ [])
unfolding foreach_memory for_range for_chunks map_fetch add_view end_views
second_chunk_lost = refl

gather_array-Limits_example :
    Limits pages 1
      (gather_array pages 1 0x1ff0 0x20)
      (record { ptr = 0x11ff0; len = 0x10 } ∷ record { ptr = 0x30000; len = 0x10 } ∷ [])
unfolding gather_buffers_from_range for_range for_chunks map_fetch add_buffer all_buffers
gather_array-Limits_example =
    gather_array-Limits pages 1
      (record { ptr = 0x11ff0; len = 0x10 } ∷ record { ptr = 0x30000; len = 0x10 } ∷ []) 0x1ff0 0x20
      refl

-- Pages 0 and 1 are adjacent on the host, so one buffer would do.
one_buffer_would_do :
    (gather_buffers_from_range pages [] 0xff0 0x20
      ≡ fetched (record { ptr = 0x10ff0; len = 0x20 } ∷ []))
    × (gather_array pages 1 0xff0 0x20 ≡ out_of_buffers)
unfolding gather_buffers_from_range for_range for_chunks map_fetch add_buffer all_buffers
    gather_array gather_limited
one_buffer_would_do = (refl, refl)
