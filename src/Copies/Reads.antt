-- ===== src/Copies/Reads.antt =====
-- The reads by chunks, against reading byte by byte.
use tinykvm.Prelude.{
  ℕ, zero, suc, ◌+◌, ◌-◌, ◌%◌, ◌^◌, ◌≤◌, ◌<◌, ◌≡◌, ◌≢◌, refl, ap, sym, ◌∙◌, ◌⊎◌, inl, inr, Bool,
  true, false, not, ◌||◌, List, [], ◌∷◌, ◌++◌, Option, none, some, ltb, ◌==◌, add64, page_size,
  arith, Bool-cases, Option-cases,
}
use mathlib.Core.List.{append_assoc, append-nil}
use tinykvm.Copies.{
  Fetch, fetched, faults, too_large, out_of_buffers, out_of_fuel, map_fetch, Buffer, MainMemory,
  safely_within, page_of, chunk_size, bytes, for_chunks, for_range, append_chunk, copy_from_guest,
  add_buffer, all_buffers, gather_buffers_from_range, StringOrView, view_of, string_of,
  add_to_string, end_string, string_or_view,
}
use tinykvm.Copies.Prefix.{gather_buffers_from_range-before}
use tinykvm.Copies.Bytewise.{map_fetch-map_fetch, read_bytes, read_bytes-chunk}

pub map_fetch-ext :
    {A B : Type 0} (f g : A → B) (r : Fetch A)
    → ((a : A) → f a ≡ g a)
    → map_fetch f r ≡ map_fetch g r
unfolding map_fetch
map_fetch-ext f g (fetched a) same = ap fetched (same a)
map_fetch-ext f g (faults page) same = refl
map_fetch-ext f g too_large same = refl
map_fetch-ext f g out_of_buffers same = refl
map_fetch-ext f g out_of_fuel same = refl

pub map_fetch_same :
    {A : Type 0} (f : A → A) (r : Fetch A) → ((a : A) → f a ≡ a) → map_fetch f r ≡ r
unfolding map_fetch
map_fetch_same f (fetched a) same = ap fetched (same a)
map_fetch_same f (faults page) same = refl
map_fetch_same f too_large same = refl
map_fetch_same f out_of_buffers same = refl
map_fetch_same f out_of_fuel same = refl

module _ (byte : ℕ → ℕ) where
  pub bytes-add :
      (ptr m n : ℕ) → bytes byte ptr (m + n) ≡ bytes byte ptr m ++ bytes byte (ptr + m) n
  unfolding bytes
  bytes-add ptr zero n =
      let none : ptr + 0 ≡ ptr = omega arith in
      let count : 0 + n ≡ n = omega arith in rw (none, count) refl
  bytes-add ptr (suc m) n =
      let count : suc m + n ≡ suc (m + n) = omega arith in
      let place : ptr + suc m ≡ ptr + 1 + m = omega arith in
      rw (count, place) (ap (λ bs. byte ptr ∷ bs) (bytes-add (ptr + 1) m n))

  module _ (userpage : ℕ → Option ℕ) {S : Type 0} (body : S → Buffer → S) (meaning : S → List ℕ)
      (Good : S → Type 0)
      (adds : (s : S) (chunk : Buffer)
        → Good s
        → 0 < chunk.len
        → Good (body s chunk)
          × (meaning (body s chunk) ≡ meaning s ++ bytes byte chunk.ptr chunk.len)) where
    -- A loop over the chunks whose body adds the bytes of its chunk to what the state means reads
    -- the range, byte by byte.
    pub for_chunks-Reads :
        (fuel : ℕ) (s : S) (addr len : ℕ)
        → Good s
        → addr < 2 ^ 64
        → len ≤ fuel
        → map_fetch meaning (for_chunks userpage body fuel s addr len)
          ≡ map_fetch (λ bs. meaning s ++ bs) (read_bytes byte userpage addr len)
    unfolding for_chunks read_bytes map_fetch
    for_chunks-Reads zero s addr zero good word enough = ap fetched (sym (append-nil (meaning s)))
    for_chunks-Reads (suc fuel) s addr zero good word enough =
        ap fetched (sym (append-nil (meaning s)))
    for_chunks-Reads zero s addr (suc len) good word enough = absurd (omega (arith, enough))
    for_chunks-Reads (suc fuel) s addr (suc len) good word enough =
        let some_left : (suc len == 0) ≡ false = ground arith in
        elim (Option-cases (userpage (page_of addr))) [
          | inl unmapped ↦
              let stops : for_chunks userpage body (suc fuel) s addr (suc len)
                  ≡ faults (page_of addr) =
                rw (some_left, unmapped, for_chunks) refl in
              let faulty : read_bytes byte userpage addr (suc len) ≡ faults (page_of addr) =
                rw (unmapped, read_bytes) refl in
              ap (map_fetch meaning) stops ∙ sym (ap (map_fetch (λ bs. meaning s ++ bs)) faulty)
          | inr (page, mapped) ↦
              let chunk : Buffer = record {
                ptr = page + addr % page_size;
                len = chunk_size addr (suc len);
              } in
              let (still, added) = adds s chunk good (omega arith) in
              let rest = suc len - chunk_size addr (suc len) in
              let after : ℕ = add64 addr (chunk_size addr (suc len)) in
              let turn : for_chunks userpage body (suc fuel) s addr (suc len)
                  ≡ for_chunks userpage body fuel (body s chunk) after rest =
                rw (some_left, mapped, for_chunks) refl in
              let count : suc len ≡ chunk_size addr (suc len) + rest = omega arith in
              let split : read_bytes byte userpage addr (suc len)
                  ≡ map_fetch (λ bs. bytes byte chunk.ptr chunk.len ++ bs)
                      (read_bytes byte userpage after rest) =
                ap (read_bytes byte userpage addr) count
                ∙ read_bytes-chunk byte userpage addr (chunk_size addr (suc len)) rest page word
                    (omega arith) (omega arith) mapped in
              ap (map_fetch meaning) turn
              ∙ for_chunks-Reads fuel (body s chunk) after rest still (omega arith)
                  (omega (arith, enough))
              ∙ map_fetch-ext _ _ (read_bytes byte userpage after rest) (λ bs.
                ap (λ m. m ++ bs) added
                ∙ append_assoc (meaning s) (bytes byte chunk.ptr chunk.len) bs)
              ∙ sym (
                  map_fetch-map_fetch (λ bs. bytes byte chunk.ptr chunk.len ++ bs)
                    (λ bs. meaning s ++ bs) (read_bytes byte userpage after rest))
              ∙ ap (map_fetch (λ bs. meaning s ++ bs)) (sym split)
        ]

    pub for_range-Reads :
        (s : S) (addr len : ℕ)
        → Good s
        → addr < 2 ^ 64
        → map_fetch meaning (for_range userpage body s addr len)
          ≡ map_fetch (λ bs. meaning s ++ bs) (read_bytes byte userpage addr len)
    unfolding for_range
    for_range-Reads s addr len good word = for_chunks-Reads len s addr len good word (omega arith)

  -- The loop that appends the chunks.
  pub append_chunk-Reads :
      (userpage : ℕ → Option ℕ) (addr len : ℕ)
      → addr < 2 ^ 64
      → for_range userpage (append_chunk byte) [] addr len ≡ read_bytes byte userpage addr len
  unfolding append_chunk
  append_chunk-Reads userpage addr len word =
      sym (
        map_fetch_same (λ bs. bs) (for_range userpage (append_chunk byte) [] addr len) (λ bs. refl))
      ∙ for_range-Reads userpage (append_chunk byte) (λ bs. bs) (λ _. Unit)
          (λ s chunk _ _. (tt, refl)) [] addr len tt word
      ∙ map_fetch_same (λ bs. [] ++ bs) (read_bytes byte userpage addr len) (λ bs. refl)

  -- The bytes of a list of buffers, one after the other.
  unfoldable pub contents : List Buffer → List ℕ
  contents [] = []
  contents (b ∷ bs) = bytes byte b.ptr b.len ++ contents bs

  pub contents-append : (xs ys : List Buffer) → contents (xs ++ ys) ≡ contents xs ++ contents ys
  unfolding contents
  contents-append [] ys = refl
  contents-append (x ∷ xs) ys =
      ap (λ bs. bytes byte x.ptr x.len ++ bs) (contents-append xs ys)
      ∙ sym (append_assoc (bytes byte x.ptr x.len) (contents xs) (contents ys))

  pub contents-single :
      (xs : List Buffer) (b : Buffer)
      → contents (xs ++ (b ∷ [])) ≡ contents xs ++ bytes byte b.ptr b.len
  unfolding contents
  contents-single xs b =
      contents-append xs (b ∷ [])
      ∙ ap (λ bs. contents xs ++ bs) (append-nil (bytes byte b.ptr b.len))

  pub add_buffer-contents :
      (s : List Buffer × Option Buffer) (chunk : Buffer)
      → contents (all_buffers (add_buffer s chunk))
        ≡ contents (all_buffers s) ++ bytes byte chunk.ptr chunk.len
  unfolding add_buffer all_buffers
  add_buffer-contents (buffers, none) chunk = contents-single buffers chunk
  add_buffer-contents (buffers, some last) chunk =
      elim (Bool-cases (chunk.ptr == last.ptr + last.len)) [
        | inl adjacent ↦
            let place : chunk.ptr ≡ last.ptr + last.len = ground arith in
            let grown : add_buffer (buffers, some last) chunk
                ≡ (buffers, some (record last { len = last.len + chunk.len })) =
              rw (adjacent, add_buffer) refl in
            rw grown (
              contents-single buffers (record last { len = last.len + chunk.len })
              ∙ ap (λ bs. contents buffers ++ bs)
                  (bytes-add last.ptr last.len chunk.len
                    ∙ ap (λ p. bytes byte last.ptr last.len ++ bytes byte p chunk.len) (sym place))
              ∙ sym (
                  append_assoc (contents buffers) (bytes byte last.ptr last.len)
                    (bytes byte chunk.ptr chunk.len))
              ∙ ap (λ bs. bs ++ bytes byte chunk.ptr chunk.len)
                  (sym (contents-single buffers last)))
        | inr apart ↦
            let begun : add_buffer (buffers, some last) chunk
                ≡ (buffers ++ (last ∷ []), some chunk) =
              rw (apart, add_buffer) refl in
            rw begun (contents-single (buffers ++ (last ∷ [])) chunk)
      ]

  -- gather_buffers_from_range ends, for a 64-bit address: it faults on the first page of the range
  -- that is not mapped, or gives the buffers of the vector, as they were, followed by those that it
  -- gives for an empty vector; and the contents of all of them, one after the other, are those of
  -- the vector and then the bytes of the range as read one by one, with addresses that wrap.
  pub gather_buffers_from_range-Reads :
      (userpage : ℕ → Option ℕ) (buffers : List Buffer) (addr len : ℕ)
      → addr < 2 ^ 64
      → (gather_buffers_from_range userpage buffers addr len
          ≡ map_fetch (λ new. buffers ++ new) (gather_buffers_from_range userpage [] addr len))
        × (map_fetch contents (gather_buffers_from_range userpage buffers addr len)
            ≡ map_fetch (λ bs. contents buffers ++ bs) (read_bytes byte userpage addr len))
  unfolding gather_buffers_from_range all_buffers
  gather_buffers_from_range-Reads userpage buffers addr len word = (
    gather_buffers_from_range-before userpage buffers addr len,
    map_fetch-map_fetch all_buffers contents
          (for_range userpage add_buffer (buffers, none) addr len)
        ∙ for_range-Reads userpage add_buffer (λ s. contents (all_buffers s)) (λ _. Unit)
            (λ s chunk _ _. (tt, add_buffer-contents s chunk)) (buffers, none) addr len tt word,
  )

  -- What a StringOrView shows.
  unfoldable pub characters : StringOrView → List ℕ
  characters (view_of b) = bytes byte b.ptr b.len
  characters (string_of str) = str

  -- A view that is being extended has no string yet.
  abbrev pub IsExtending : Buffer × List ℕ → Type 0
  IsExtending (buf, str) = (buf.len ≡ 0) ⊎ (str ≡ [])

  pub add_to_string-characters :
      (s : Buffer × List ℕ) (chunk : Buffer)
      → IsExtending s
      → 0 < chunk.len
      → IsExtending (add_to_string byte s chunk)
        × (characters (end_string byte (add_to_string byte s chunk))
            ≡ characters (end_string byte s) ++ bytes byte chunk.ptr chunk.len)
  unfolding add_to_string end_string characters
  add_to_string-characters (buf, str) chunk extending some_bytes =
      elim (Bool-cases (buf.len == 0)) [
        | inl empty ↦
            let no_view : buf.len ≡ 0 = ground arith in
            let copied : add_to_string byte (buf, str) chunk
                ≡ (buf, str ++ bytes byte chunk.ptr chunk.len) =
              rw (empty, add_to_string) refl in
            rw copied (inl no_view, rw no_view refl)
        | inr viewing ↦
            let long : ltb 0 buf.len ≡ true = ground (arith, viewing) in
            let no_string : str ≡ [] = only extending (ground (arith, viewing)) in
            elim (Bool-cases (chunk.ptr == buf.ptr + buf.len)) [
              | inl adjacent ↦
                  let place : chunk.ptr ≡ buf.ptr + buf.len = ground arith in
                  let longer : ltb 0 (buf.len + chunk.len) ≡ true = ground (arith, some_bytes) in
                  let extended : add_to_string byte (buf, str) chunk
                      ≡ (record buf { len = buf.len + chunk.len }, str) =
                    rw (viewing, adjacent, add_to_string) refl in
                  rw extended (
                    inr no_string,
                    rw (longer, long)
                        (bytes-add buf.ptr buf.len chunk.len
                          ∙ ap (λ p. bytes byte buf.ptr buf.len ++ bytes byte p chunk.len)
                              (sym place)),
                  )
              | inr apart ↦
                  let converted : add_to_string byte (buf, str) chunk ≡ (
                    record buf { len = 0 },
                    str ++ (bytes byte buf.ptr buf.len ++ bytes byte chunk.ptr chunk.len),
                  ) =
                    rw (viewing, apart, add_to_string) refl in
                  rw converted (inl refl, rw (long, no_string) refl)
            ]
      ]
    where
      only : {A : Type 0} {x y : A} → (buf.len ≡ 0) ⊎ (x ≡ y) → buf.len ≢ 0 → x ≡ y
      only (inl empty) other = absurd (other empty)
      only (inr e) other = e

  -- string_or_view ends, for a 64-bit address and a range that is not empty: it faults on the first
  -- page of the range that is not mapped, or shows, as a view or as a string, the bytes of the range
  -- as read one by one, with addresses that wrap.
  pub string_or_view-Reads :
      (userpage : ℕ → Option ℕ) (src len : ℕ)
      → src < 2 ^ 64
      → 0 < len
      → map_fetch characters (string_or_view byte userpage src len)
        ≡ read_bytes byte userpage src len
  unfolding string_or_view read_bytes map_fetch end_string characters
  string_or_view-Reads userpage src zero word some_bytes = absurd (omega (arith, some_bytes))
  string_or_view-Reads userpage src (suc len) word some_bytes =
      elim (Option-cases (userpage (page_of src))) [
        | inl unmapped ↦
            let stops : string_or_view byte userpage src (suc len) ≡ faults (page_of src) =
              rw (unmapped, string_or_view) refl in
            let faulty : read_bytes byte userpage src (suc len) ≡ faults (page_of src) =
              rw (unmapped, read_bytes) refl in
            ap (map_fetch characters) stops ∙ sym faulty
        | inr (page, mapped) ↦
            let size : ℕ = chunk_size src (suc len) in
            let first : Buffer = record { ptr = page + src % page_size; len = size } in
            let rest = suc len - size in
            let body = add_to_string byte in
            let long : ltb 0 size ≡ true = ground arith in
            let turn : string_or_view byte userpage src (suc len)
                ≡ map_fetch (end_string byte)
                    (for_range userpage body (first, []) (add64 src size) rest) =
              rw (mapped, string_or_view) refl in
            let count : suc len ≡ size + rest = omega arith in
            let shown : characters (end_string byte (first, [])) ≡ bytes byte first.ptr size =
              rw (long, end_string, characters) refl in
            ap (map_fetch characters) turn
            ∙ map_fetch-map_fetch (end_string byte) characters
                (for_range userpage body (first, []) (add64 src size) rest)
            ∙ for_range-Reads userpage body (λ s. characters (end_string byte s)) IsExtending
                add_to_string-characters (first, []) (add64 src size) rest (inr refl) (omega arith)
            ∙ ap (λ cs. map_fetch (λ bs. cs ++ bs) (read_bytes byte userpage (add64 src size) rest))
                shown
            ∙ sym (
                ap (read_bytes byte userpage src) count
                ∙ read_bytes-chunk byte userpage src size rest page word (omega arith) (omega arith)
                    mapped)
      ]

  -- Memory that is mapped one to one, at `ptr` on the host.
  abbrev pub IsIdentity : (ℕ → Option ℕ) → MainMemory → ℕ → ℕ → Type 0
  IsIdentity userpage m addr len =
      (a : ℕ)
      → addr ≤ a
      → a < addr + len
      → (page : ℕ) × (userpage (page_of a) ≡ some page)
        × (page + a % page_size ≡ m.ptr + (a - m.physbase))

  pub identity-Reads :
      (userpage : ℕ → Option ℕ) (m : MainMemory) (addr len : ℕ)
      → addr + len ≤ 2 ^ 64
      → m.physbase ≤ addr
      → IsIdentity userpage m addr len
      → fetched (bytes byte (m.ptr + (addr - m.physbase)) len) ≡ read_bytes byte userpage addr len
  unfolding read_bytes bytes map_fetch
  identity-Reads userpage m addr zero word base identity = refl
  identity-Reads userpage m addr (suc zero) word base identity =
      let (page, mapped, same) = identity addr (omega arith) (omega arith) in
      let one : read_bytes byte userpage addr 1 ≡ fetched (byte (page + addr % page_size) ∷ []) =
        rw (mapped, read_bytes) refl in
      rw (one, same) refl
  identity-Reads userpage m addr (suc (suc len)) word base identity =
      let (page, mapped, same) = identity addr (omega arith) (omega arith) in
      let next : add64 addr 1 ≡ addr + 1 = omega (arith, word) in
      let place : m.ptr + (addr - m.physbase) + 1 ≡ m.ptr + (addr + 1 - m.physbase) =
        omega (arith, base) in
      let rest =
        identity-Reads userpage m (addr + 1) (suc len) (omega (arith, word)) (omega (arith, base))
          (λ a from to. identity a (omega (arith, from)) (omega (arith, to))) in
      let one : read_bytes byte userpage addr (suc (suc len))
          ≡ map_fetch (λ bs. byte (page + addr % page_size) ∷ bs)
              (read_bytes byte userpage (add64 addr 1) (suc len)) =
        rw (mapped, read_bytes) refl in
      rw place (
        ap (map_fetch (λ bs. byte (m.ptr + (addr - m.physbase)) ∷ bs)) rest
        ∙ sym (rw (one, next, same) refl))

  -- copy_from_guest ends and reads the same bytes on both of its paths, where the range does not
  -- wrap around 2^64 and, for a machine without copy-on-write memory, what lies in its main memory
  -- is mapped there one to one: it faults on the first page of the range that is not mapped, or
  -- copies the bytes of the range as read one by one.
  pub copy_from_guest-Reads :
      (userpage : ℕ → Option ℕ) (m : MainMemory) (uses_cow_memory : Bool) (addr len : ℕ)
      → addr < 2 ^ 64
      → addr + len ≤ 2 ^ 64
      → m.physbase ≤ m.safebase
      → (uses_cow_memory ≡ false → safely_within m addr len ≡ true → IsIdentity userpage m addr len)
      → copy_from_guest byte userpage m uses_cow_memory addr len ≡ read_bytes byte userpage addr len
  unfolding copy_from_guest safely_within
  copy_from_guest-Reads userpage m uses_cow_memory addr len word no_wrap base identity =
      elim (Bool-cases (uses_cow_memory || not (safely_within m addr len))) [
        | inl slow ↦
            let by_pages : copy_from_guest byte userpage m uses_cow_memory addr len
                ≡ for_range userpage (append_chunk byte) [] addr len =
              rw (slow, copy_from_guest) refl in
            by_pages ∙ append_chunk-Reads userpage addr len word
        | inr fast ↦
            let at_once : copy_from_guest byte userpage m uses_cow_memory addr len
                ≡ fetched (bytes byte (m.ptr + (addr - m.physbase)) len) =
              rw (fast, copy_from_guest) refl in
            let within : safely_within m addr len ≡ true = ground (arith, fast) in
            at_once
            ∙ identity-Reads userpage m addr len no_wrap (ground (arith, within, base))
                (identity (ground (arith, fast)) within)
      ]
