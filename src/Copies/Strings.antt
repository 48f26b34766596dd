-- ===== src/Copies/Strings.antt =====
-- memcstring, against reading byte by byte up to a zero.
use tinykvm.Prelude.{
  ℕ, zero, suc, ◌+◌, ◌-◌, ◌%◌, ◌^◌, ◌≤◌, ◌<◌, ◌≡◌, refl, ap, sym, ◌∙◌, inl, inr, true, false, List,
  [], ◌∷◌, ◌++◌, Option, none, some, ltb, ◌==◌, if◌then◌else◌, length, length-append, add64,
  page_size, arith, Bool-cases, Option-cases,
}
use mathlib.Core.List.{append_assoc, append-nil}
use tinykvm.Copies.{
  Fetch, fetched, faults, map_fetch, page_of, chunk_size, bytes, until_zero, memcstring_on,
  memcstring,
}
use tinykvm.Copies.Bytewise.{map_fetch-map_fetch}
use tinykvm.Copies.Reads.{map_fetch_same, map_fetch-ext}

module _ (byte : ℕ → ℕ) where
  pub length-bytes : (ptr n : ℕ) → length (bytes byte ptr n) ≡ n
  unfolding bytes
  length-bytes ptr zero = refl
  length-bytes ptr (suc n) = ap suc (length-bytes (ptr + 1) n)

  pub length-until_zero : (bs : List ℕ) → length (until_zero byte bs) ≤ length bs
  unfolding until_zero
  length-until_zero [] = omega arith
  length-until_zero (b ∷ bs) = ground (arith, length-until_zero bs)

  pub until_zero-stop :
      (ptr n : ℕ) → (byte ptr == 0) ≡ true → until_zero byte (bytes byte ptr (suc n)) ≡ []
  unfolding until_zero bytes
  until_zero-stop ptr n zero_byte = rw (zero_byte, until_zero) refl

  pub until_zero-more :
      (ptr n : ℕ)
      → (byte ptr == 0) ≡ false
      → until_zero byte (bytes byte ptr (suc n))
        ≡ byte ptr ∷ until_zero byte (bytes byte (ptr + 1) n)
  unfolding until_zero bytes
  until_zero-more ptr n other = rw (other, until_zero) refl

  module _ (userpage : ℕ → Option ℕ) where
    -- One byte at a time, until one is zero or the length is reached.
    unfoldable pub read_cstring : ℕ → ℕ → Fetch (List ℕ)
    read_cstring addr zero = fetched []
    read_cstring addr (suc n) =
        let rest = read_cstring (add64 addr 1) n in
        elim (userpage (page_of addr)) [
          | none ↦ faults (page_of addr)
          | some page ↦
              if byte (page + addr % page_size) == 0
              then fetched []
              else map_fetch (λ bs. byte (page + addr % page_size) ∷ bs) rest
        ]

    -- What a chunk makes of the rest.
    unfoldable pub after_chunk : List ℕ → ℕ → Fetch (List ℕ) → Fetch (List ℕ)
    after_chunk taken size rest =
        if ltb (length taken) size then fetched taken else map_fetch (λ bs. taken ++ bs) rest

    pub after_chunk-cons :
        (b : ℕ) (taken : List ℕ) (size : ℕ) (rest : Fetch (List ℕ))
        → map_fetch (λ bs. b ∷ bs) (after_chunk taken size rest)
          ≡ after_chunk (b ∷ taken) (suc size) rest
    unfolding after_chunk map_fetch
    after_chunk-cons b taken size rest = elim (Bool-cases (ltb (length taken) size)) [
      | inl short ↦
          let still : ltb (suc (length taken)) (suc size) ≡ true = ground (arith, short) in
          rw (short, still, after_chunk) refl
      | inr full ↦
          let still : ltb (suc (length taken)) (suc size) ≡ false = ground (arith, full) in
          rw (full, still, after_chunk) (map_fetch-map_fetch _ _ rest)
    ]

    pub after_chunk-stop :
        (size : ℕ) (rest : Fetch (List ℕ)) → 0 < size → after_chunk [] size rest ≡ fetched []
    unfolding after_chunk
    after_chunk-stop size rest some_size =
        let short : ltb 0 size ≡ true = ground (arith, some_size) in rw (short, after_chunk) refl

    pub read_cstring-stop :
        (addr n page : ℕ)
        → userpage (page_of addr) ≡ some page
        → (byte (page + addr % page_size) == 0) ≡ true
        → read_cstring addr (suc n) ≡ fetched []
    unfolding read_cstring
    read_cstring-stop addr n page mapped zero_byte = rw (mapped, read_cstring, zero_byte) refl

    pub read_cstring-more :
        (addr n page : ℕ)
        → userpage (page_of addr) ≡ some page
        → (byte (page + addr % page_size) == 0) ≡ false
        → read_cstring addr (suc n)
          ≡ map_fetch (λ bs. byte (page + addr % page_size) ∷ bs) (read_cstring (add64 addr 1) n)
    unfolding read_cstring
    read_cstring-more addr n page mapped other = rw (mapped, read_cstring, other) refl

    pub after_none :
        (n ptr : ℕ) (rest : Fetch (List ℕ))
        → after_chunk (until_zero byte (bytes byte ptr 0)) 0 rest ≡ rest
    unfolding after_chunk until_zero bytes
    after_none n ptr rest = map_fetch_same (λ bs. bs) rest (λ bs. refl)

    -- The rest of a chunk, after its first byte.
    pub onwards :
        (addr size rest page : ℕ)
        → addr < 2 ^ 64
        → addr % page_size + suc size ≤ page_size
        → userpage (page_of addr) ≡ some page
        → (add64 addr 1 < 2 ^ 64
            → add64 addr 1 % page_size + size ≤ page_size
            → 0 < size
            → userpage (page_of (add64 addr 1)) ≡ some page
            → read_cstring (add64 addr 1) (size + rest)
              ≡ after_chunk
                  (until_zero byte (bytes byte (page + add64 addr 1 % page_size) size))
                  size
                  (read_cstring (add64 (add64 addr 1) size) rest))
        → read_cstring (add64 addr 1) (size + rest)
          ≡ after_chunk
              (until_zero byte (bytes byte (page + addr % page_size + 1) size))
              size
              (read_cstring (add64 addr (suc size)) rest)
    onwards addr zero rest page word inside mapped chunk =
        let count : 0 + rest ≡ rest = omega arith in
        rw count
          (sym (after_none rest (page + addr % page_size + 1) (read_cstring (add64 addr 1) rest)))
    onwards addr (suc size) rest page word inside mapped chunk =
        let next : add64 addr 1 ≡ addr + 1 = omega (arith, word, inside) in
        let same_page : page_of (add64 addr 1) ≡ page_of addr = omega (arith, inside, next) in
        let same_offset : page + add64 addr 1 % page_size ≡ page + addr % page_size + 1 =
          omega (arith, inside, next) in
        let end : add64 (add64 addr 1) (suc size) ≡ add64 addr (suc (suc size)) = omega arith in
        chunk (omega arith) (omega (arith, inside, next)) (omega arith) (rw same_page mapped)
        ∙ rw (same_offset, end) refl

    -- The bytes of a chunk up to a zero come with one lookup.
    pub read_cstring-chunk :
        (addr size rest page : ℕ)
        → addr < 2 ^ 64
        → addr % page_size + size ≤ page_size
        → 0 < size
        → userpage (page_of addr) ≡ some page
        → read_cstring addr (size + rest)
          ≡ after_chunk
              (until_zero byte (bytes byte (page + addr % page_size) size))
              size
              (read_cstring (add64 addr size) rest)
    read_cstring-chunk addr zero rest page word inside some_size mapped =
        absurd (omega (arith, some_size))
    read_cstring-chunk addr (suc size) rest page word inside some_size mapped =
        let count : suc size + rest ≡ suc (size + rest) = omega arith in
        let at : ℕ = page + addr % page_size in
        elim (Bool-cases (byte (page + addr % page_size) == 0)) [
          | inl zero_byte ↦ rw count (
              read_cstring-stop addr (size + rest) page mapped zero_byte
              ∙ sym (
                  ap (λ t. after_chunk t (suc size) (read_cstring (add64 addr (suc size)) rest))
                    (until_zero-stop at size zero_byte)
                  ∙ after_chunk-stop (suc size) _ (omega arith)))
          | inr other ↦ rw count (
              read_cstring-more addr (size + rest) page mapped other
              ∙ ap (map_fetch (λ bs. byte at ∷ bs)) (
                  onwards addr size rest page word inside mapped
                    (read_cstring-chunk (add64 addr 1) size rest page))
              ∙ after_chunk-cons (byte at) (until_zero byte (bytes byte (at + 1) size)) size
                  (read_cstring (add64 addr (suc size)) rest)
              ∙ ap (λ t. after_chunk t (suc size) (read_cstring (add64 addr (suc size)) rest))
                  (sym (until_zero-more at size other)))
        ]

    -- What one turn of the loop takes.
    abbrev pub first_chunk : (page src left : ℕ) → List ℕ
    first_chunk page src left =
        until_zero byte (bytes byte (page + src % page_size) (chunk_size src left))

    pub memcstring_on-turn :
        (fuel : ℕ) (result : List ℕ) (src maxlen page : ℕ)
        → src < 2 ^ 64
        → ltb (length result) maxlen ≡ true
        → userpage (page_of src) ≡ some page
        → (add64 src (chunk_size src (maxlen - length result)) < 2 ^ 64
            → length (result ++ first_chunk page src (maxlen - length result)) ≤ maxlen
            → maxlen - length (result ++ first_chunk page src (maxlen - length result)) ≤ fuel
            → memcstring_on byte userpage fuel
                (result ++ first_chunk page src (maxlen - length result))
                (add64 src (chunk_size src (maxlen - length result)))
                maxlen
              ≡ map_fetch
                  (λ bs. (result ++ first_chunk page src (maxlen - length result)) ++ bs)
                  (read_cstring
                    (add64 src (chunk_size src (maxlen - length result)))
                    (maxlen - length (result ++ first_chunk page src (maxlen - length result)))))
        → maxlen - length result ≤ suc fuel
        → memcstring_on byte userpage (suc fuel) result src maxlen
          ≡ map_fetch (λ bs. result ++ bs) (read_cstring src (maxlen - length result))
    unfolding memcstring_on read_cstring map_fetch after_chunk until_zero
    memcstring_on-turn fuel result src maxlen page word room mapped after enough =
        let left : ℕ = maxlen - length result in
        let size : ℕ = chunk_size src left in
        let rest : ℕ = left - size in
        let taken : List ℕ = first_chunk page src left in
        let some_left : 0 < left = ground (arith, room) in
        let count : left ≡ size + rest = omega arith in
        let at_most : length taken ≤ size = omega (
          arith,
          length-until_zero (bytes byte (page + src % page_size) size),
          length-bytes (page + src % page_size) size,
        ) in
        let split : read_cstring src left
            ≡ after_chunk taken size (read_cstring (add64 src size) rest) =
          ap (read_cstring src) count
          ∙ read_cstring-chunk src size rest page word (omega arith) (omega (arith, some_left))
              mapped in
        elim (Bool-cases (ltb (length taken) size)) [
          | inl short ↦
              let ends : memcstring_on byte userpage (suc fuel) result src maxlen
                  ≡ fetched (result ++ taken) =
                rw (room, mapped, memcstring_on, short) refl in
              let ended : after_chunk taken size (read_cstring (add64 src size) rest)
                  ≡ fetched taken =
                rw (short, after_chunk) refl in
              ends ∙ sym (ap (map_fetch (λ bs. result ++ bs)) (split ∙ ended))
          | inr full ↦
              let turns : memcstring_on byte userpage (suc fuel) result src maxlen
                  ≡ memcstring_on byte userpage fuel (result ++ taken) (add64 src size) maxlen =
                rw (room, mapped, memcstring_on, full) refl in
              let goes_on : after_chunk taken size (read_cstring (add64 src size) rest)
                  ≡ map_fetch (λ bs. taken ++ bs) (read_cstring (add64 src size) rest) =
                rw (full, after_chunk) refl in
              let all : length taken ≡ size = ground (arith, full, at_most) in
              let longer : length (result ++ taken) ≡ length result + length taken =
                length-append result taken in
              let remaining : maxlen - length (result ++ taken) ≡ rest =
                omega (arith, longer, all) in
              let less : rest ≤ fuel = omega (arith, enough, some_left) in
              let next =
                after (omega arith) (omega (arith, longer, all, some_left))
                  (omega (arith, remaining, less)) in
              turns
              ∙ next
              ∙ ap
                  (λ k. map_fetch (λ bs. (result ++ taken) ++ bs) (read_cstring (add64 src size) k))
                  remaining
              ∙ map_fetch-ext _ _ (read_cstring (add64 src size) rest)
                  (λ bs. append_assoc result taken bs)
              ∙ sym (
                  map_fetch-map_fetch (λ bs. taken ++ bs) (λ bs. result ++ bs)
                    (read_cstring (add64 src size) rest))
              ∙ sym (ap (map_fetch (λ bs. result ++ bs)) (split ∙ goes_on))
        ]

    pub memcstring_on-Reads :
        (fuel : ℕ) (result : List ℕ) (src maxlen : ℕ)
        → src < 2 ^ 64
        → length result ≤ maxlen
        → maxlen - length result ≤ fuel
        → memcstring_on byte userpage fuel result src maxlen
          ≡ map_fetch (λ bs. result ++ bs) (read_cstring src (maxlen - length result))
    unfolding memcstring_on read_cstring map_fetch
    memcstring_on-Reads zero result src maxlen word fits enough =
        let full : ltb (length result) maxlen ≡ false = ground (arith, enough) in
        let none_left : maxlen - length result ≡ 0 = omega (arith, enough) in
        rw (full, none_left) (ap fetched (sym (append-nil result)))
    memcstring_on-Reads (suc fuel) result src maxlen word fits enough =
        elim (Bool-cases (ltb (length result) maxlen)) [
          | inr full ↦
              let none_left : maxlen - length result ≡ 0 = ground (arith, full, fits) in
              let ends : memcstring_on byte userpage (suc fuel) result src maxlen ≡ fetched result =
                rw (full, memcstring_on) refl in
              ends ∙ rw none_left (ap fetched (sym (append-nil result)))
          | inl room ↦ elim (Option-cases (userpage (page_of src))) [
            | inl unmapped ↦
                let n : maxlen - length result ≡ suc (maxlen - length result - 1) =
                  ground (arith, room) in
                let stops : memcstring_on byte userpage (suc fuel) result src maxlen
                    ≡ faults (page_of src) =
                  rw (room, unmapped, memcstring_on) refl in
                let faulty : read_cstring src (suc (maxlen - length result - 1))
                    ≡ faults (page_of src) =
                  rw (unmapped, read_cstring) refl in
                stops ∙ rw n (sym (ap (map_fetch (λ bs. result ++ bs)) faulty))
            | inr (page, mapped) ↦
                memcstring_on-turn fuel result src maxlen page word room mapped
                  (memcstring_on-Reads fuel
                    (result ++ first_chunk page src (maxlen - length result))
                    (add64 src (chunk_size src (maxlen - length result))) maxlen)
                  enough
          ]
        ]

    -- memcstring ends, for a 64-bit address: it gives the bytes from src up to the first zero, or
    -- maxlen of them where none of these is zero, as read one by one with addresses that wrap, or
    -- faults on the first page that is not mapped and that comes before the end of the string.
    pub memcstring-Reads :
        (src maxlen : ℕ)
        → src < 2 ^ 64
        → memcstring byte userpage src maxlen ≡ read_cstring src maxlen
    unfolding memcstring
    memcstring-Reads src maxlen word =
        let all : maxlen - 0 ≡ maxlen = omega arith in
        memcstring_on-Reads maxlen [] src maxlen word (omega arith) (omega arith)
        ∙ map_fetch_same (λ bs. [] ++ bs) (read_cstring src (maxlen - 0)) (λ bs. refl)
        ∙ ap (read_cstring src) all
