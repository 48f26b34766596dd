-- ===== src/Copies.antt =====
-- How a machine reads its guest's memory: copy_from_guest, gather_buffers_from_range with a vector
-- and with an array, string_or_view, foreach_memory, buffer_to_string and memcstring of
-- lib/tinykvm/machine_utils.cpp. The host's memory is a function from addresses to bytes, and the
-- lookup of a page of the guest (vMemory::get_userpage_at) is a function from the address of the page
-- to that of its data on the host, which has none where the lookup throws. What was passed to a
-- caller before such an exception is left out.
use tinykvm.Prelude.{
  ℕ, zero, suc, ◌+◌, ◌-◌, ◌%◌, ◌≤◌, min, Bool, true, false, not, ◌&&◌, ◌||◌, List, [], ◌∷◌, ◌++◌,
  Option, none, some, ltb, leb, ◌==◌, if◌then◌else◌, length, add64, sub64, page_size,
}
pub mod Bytewise
pub mod Reads
pub mod Strings
pub mod Limited
pub mod Prefix
mod Tests

pub data Fetch (A : Type 0) : Type 0 where
  fetched : A → Fetch A
  faults : (page : ℕ) → Fetch A
  too_large : Fetch A
  out_of_buffers : Fetch A
  out_of_fuel : Fetch A

-- Machine::Buffer.
pub record Buffer : Type 0 where
  pub ptr : ℕ
  pub len : ℕ

abbrev pub page_of : ℕ → ℕ
page_of addr = addr - addr % page_size

abbrev pub chunk_size : ℕ → ℕ → ℕ
chunk_size addr len = min (page_size - addr % page_size) len

-- The part of vMemory that is mapped at `ptr` on the host.
pub record MainMemory : Type 0 where
  pub physbase : ℕ
  pub safebase : ℕ
  pub size : ℕ
  pub ptr : ℕ

-- vMemory::safely_within; both sums wrap.
unfoldable pub safely_within : MainMemory → ℕ → ℕ → Bool
safely_within m addr asize = leb m.safebase addr && leb (add64 addr asize) (add64 m.physbase m.size)

-- The loops over the chunks of a range, one page at most each, with the state of their body.
module _ {S : Type 0} (userpage : ℕ → Option ℕ) (body : S → Buffer → S) where
  unfoldable pub for_chunks : ℕ → S → ℕ → ℕ → Fetch S
  for_chunks zero s addr len = if len == 0 then fetched s else out_of_fuel
  for_chunks (suc fuel) s addr len =
      if len == 0 then fetched s else elim (userpage (page_of addr)) [
        | none ↦ faults (page_of addr)
        | some page ↦
            for_chunks fuel
              (body s (record { ptr = page + addr % page_size; len = chunk_size addr len }))
              (add64 addr (chunk_size addr len)) (len - chunk_size addr len)
      ]

  -- Every chunk has a byte at least.
  unfoldable pub for_range : S → ℕ → ℕ → Fetch S
  for_range s addr len = for_chunks len s addr len

module _ (byte : ℕ → ℕ) where
  unfoldable pub bytes : ℕ → ℕ → List ℕ
  bytes ptr zero = []
  bytes ptr (suc n) = byte ptr ∷ bytes (ptr + 1) n

  unfoldable pub append_chunk : List ℕ → Buffer → List ℕ
  append_chunk dst chunk = dst ++ bytes chunk.ptr chunk.len

  unfoldable pub copy_from_guest :
      (ℕ → Option ℕ) → MainMemory → (uses_cow_memory : Bool) → ℕ → ℕ → Fetch (List ℕ)
  copy_from_guest userpage m uses_cow_memory addr len =
      if uses_cow_memory || not (safely_within m addr len)
      then for_range userpage append_chunk [] addr len
      else fetched (bytes (m.ptr + (addr - m.physbase)) len)

  unfoldable pub buffer_to_string :
      (ℕ → Option ℕ) → MainMemory → (uses_cow_memory : Bool) → (src len maxlen : ℕ) → Fetch (List ℕ)
  buffer_to_string userpage m uses_cow_memory src len maxlen =
      if ltb maxlen len then too_large else copy_from_guest userpage m uses_cow_memory src len

  -- std::string from the bytes up to a zero, as of strnlen.
  unfoldable pub until_zero : List ℕ → List ℕ
  until_zero [] = []
  until_zero (b ∷ bs) = let rest = until_zero bs in if b == 0 then [] else b ∷ rest

  unfoldable pub memcstring_on : (ℕ → Option ℕ) → ℕ → List ℕ → (src maxlen : ℕ) → Fetch (List ℕ)
  memcstring_on userpage zero result src maxlen =
      if ltb (length result) maxlen then out_of_fuel else fetched result
  memcstring_on userpage (suc fuel) result src maxlen =
      let max_size = chunk_size src (maxlen - length result) in
      if ltb (length result) maxlen
      then elim (userpage (page_of src)) [
        | none ↦ faults (page_of src)
        | some page ↦
            (let taken = until_zero (bytes (page + src % page_size) max_size) in
              let rest =
                memcstring_on userpage fuel (result ++ taken) (add64 src max_size) maxlen in
              if ltb (length taken) max_size then fetched (result ++ taken) else rest)
      ]
      else fetched result

  -- Every turn of the loop adds a byte or is the last.
  unfoldable pub memcstring : (ℕ → Option ℕ) → (src maxlen : ℕ) → Fetch (List ℕ)
  memcstring userpage src maxlen = memcstring_on userpage maxlen [] src maxlen

-- The buffers so far, the last of them apart: `none` before the first.
unfoldable pub add_buffer : List Buffer × Option Buffer → Buffer → List Buffer × Option Buffer
add_buffer (buffers, none) chunk = (buffers, some chunk)
add_buffer (buffers, some last) chunk =
    if chunk.ptr == last.ptr + last.len
    then (buffers, some (record last { len = last.len + chunk.len }))
    else (buffers ++ (last ∷ []), some chunk)

unfoldable pub all_buffers : List Buffer × Option Buffer → List Buffer
all_buffers (buffers, none) = buffers
all_buffers (buffers, some last) = buffers ++ (last ∷ [])

unfoldable pub map_fetch : {A B : Type 0} → (A → B) → Fetch A → Fetch B
map_fetch f (fetched a) = fetched (f a)
map_fetch f (faults page) = faults page
map_fetch f too_large = too_large
map_fetch f out_of_buffers = out_of_buffers
map_fetch f out_of_fuel = out_of_fuel

unfoldable pub gather_buffers_from_range :
    (ℕ → Option ℕ) → List Buffer → (addr len : ℕ) → Fetch (List Buffer)
gather_buffers_from_range userpage buffers addr len =
    map_fetch all_buffers (for_range userpage add_buffer (buffers, none) addr len)

-- gather_buffers_from_range with an array of cnt buffers: the loop ends when they are used up.
module _ (userpage : ℕ → Option ℕ) (cnt : ℕ) where
  unfoldable pub gather_limited :
      ℕ → List Buffer × Option Buffer → (addr len : ℕ) → Fetch (List Buffer)
  gather_limited zero s addr len = if len == 0 then fetched (all_buffers s) else out_of_fuel
  gather_limited (suc fuel) s addr len =
      if len == 0
      then fetched (all_buffers s)
      else if ltb (length (all_buffers s)) cnt
      then elim (userpage (page_of addr)) [
        | none ↦ faults (page_of addr)
        | some page ↦
            gather_limited fuel
              (add_buffer s (record { ptr = page + addr % page_size; len = chunk_size addr len }))
              (add64 addr (chunk_size addr len)) (len - chunk_size addr len)
      ]
      else out_of_buffers

  unfoldable pub gather_array : (addr len : ℕ) → Fetch (List Buffer)
  gather_array addr len = gather_limited len ([], none) addr len

-- StringOrView: a view of the host's memory, or a string of its own.
pub data StringOrView : Type 0 where
  view_of : Buffer → StringOrView
  string_of : List ℕ → StringOrView

module _ (byte : ℕ → ℕ) where
  unfoldable pub add_to_string : Buffer × List ℕ → Buffer → Buffer × List ℕ
  add_to_string (buf, str) chunk =
      if buf.len == 0
      then (buf, str ++ bytes byte chunk.ptr chunk.len)
      else if not (chunk.ptr == buf.ptr + buf.len)
      then (
        record buf { len = 0 },
        str ++ (bytes byte buf.ptr buf.len ++ bytes byte chunk.ptr chunk.len),
      )
      else (record buf { len = buf.len + chunk.len }, str)

  unfoldable pub end_string : Buffer × List ℕ → StringOrView
  end_string (buf, str) = if ltb 0 buf.len then view_of buf else string_of str

  -- The first chunk is looked up even where len is 0.
  unfoldable pub string_or_view : (ℕ → Option ℕ) → (src len : ℕ) → Fetch StringOrView
  string_or_view userpage src len = elim (userpage (page_of src)) [
    | none ↦ faults (page_of src)
    | some page ↦
        (let size = chunk_size src len in
          let buf : Buffer = record { ptr = page + src % page_size; len = size } in
          map_fetch end_string
            (for_range userpage add_to_string (buf, []) (add64 src size) (len - size)))
  ]

-- The views that were passed to the callback, and the one to extend.
unfoldable pub add_view : List Buffer × Buffer → Buffer → List Buffer × Buffer
add_view (called, view) chunk =
    if chunk.ptr == view.ptr + view.len
    then (called, record view { len = view.len + chunk.len })
    else (called ++ (view ∷ []), record { ptr = 0; len = 0 })

unfoldable pub end_views : List Buffer × Buffer → List Buffer
end_views (called, view) = if view.len == 0 then called else called ++ (view ∷ [])

unfoldable pub foreach_memory : (ℕ → Option ℕ) → (src len : ℕ) → Fetch (List Buffer)
foreach_memory userpage src len = elim (userpage (page_of src)) [
  | none ↦ faults (page_of src)
  | some page ↦
      (let size = chunk_size src len in
        let view : Buffer = record { ptr = page + src % page_size; len = size } in
        map_fetch end_views (for_range userpage add_view ([], view) (add64 src size) (len - size)))
]
