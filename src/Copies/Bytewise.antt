-- ===== src/Copies/Bytewise.antt =====
-- Reading the guest's memory byte by byte, with one lookup for each byte.
use tinykvm.Prelude.{
  ℕ, zero, suc, ◌+◌, ◌%◌, ◌^◌, ◌≤◌, ◌<◌, ◌≡◌, refl, ◌∙◌, List, [], ◌∷◌, ◌++◌, Option, none, some,
  add64, page_size, arith,
}
use tinykvm.Copies.{
  Fetch, fetched, faults, too_large, out_of_buffers, out_of_fuel, map_fetch, page_of, bytes,
}

pub map_fetch-map_fetch :
    {A B C : Type 0} (f : A → B) (g : B → C) (r : Fetch A)
    → map_fetch g (map_fetch f r) ≡ map_fetch (λ a. g (f a)) r
unfolding map_fetch
map_fetch-map_fetch f g (fetched a) = refl
map_fetch-map_fetch f g (faults page) = refl
map_fetch-map_fetch f g too_large = refl
map_fetch-map_fetch f g out_of_buffers = refl
map_fetch-map_fetch f g out_of_fuel = refl

module _ (byte : ℕ → ℕ) (userpage : ℕ → Option ℕ) where
  -- One byte, and then the rest.
  unfoldable pub read_bytes : ℕ → ℕ → Fetch (List ℕ)
  read_bytes addr zero = fetched []
  read_bytes addr (suc n) = elim (userpage (page_of addr)) [
    | none ↦ faults (page_of addr)
    | some page ↦
        map_fetch (λ bs. byte (page + addr % page_size) ∷ bs) (read_bytes (add64 addr 1) n)
  ]

  -- The bytes of a chunk come with one lookup.
  pub read_bytes-chunk :
      (addr size rest page : ℕ)
      → addr < 2 ^ 64
      → addr % page_size + size ≤ page_size
      → 0 < size
      → userpage (page_of addr) ≡ some page
      → read_bytes addr (size + rest)
        ≡ map_fetch
            (λ bs. bytes byte (page + addr % page_size) size ++ bs)
            (read_bytes (add64 addr size) rest)
  unfolding read_bytes bytes
  read_bytes-chunk addr zero rest page word inside some_size mapped =
      absurd (omega (arith, some_size))
  read_bytes-chunk addr (suc zero) rest page word inside some_size mapped =
      let count : 1 + rest ≡ suc rest = omega arith in rw count (rw (mapped, read_bytes) refl)
  read_bytes-chunk addr (suc (suc size)) rest page word inside some_size mapped =
      let next : add64 addr 1 ≡ addr + 1 = omega (arith, word, inside) in
      let same_page : page_of (addr + 1) ≡ page_of addr = omega (arith, inside) in
      let same_offset : page + (addr + 1) % page_size ≡ page + addr % page_size + 1 =
        omega (arith, inside) in
      let count : suc (suc size) + rest ≡ suc (suc size + rest) = omega arith in
      let end : add64 (addr + 1) (suc size) ≡ add64 addr (suc (suc size)) = omega arith in
      let here : read_bytes addr (suc (suc size + rest))
          ≡ map_fetch (λ bs. byte (page + addr % page_size) ∷ bs)
              (read_bytes (add64 addr 1) (suc size + rest)) =
        rw (mapped, read_bytes) refl in
      let there =
        read_bytes-chunk (addr + 1) (suc size) rest page (omega (arith, word, inside))
          (omega (arith, inside)) (omega arith) (rw same_page mapped) in
      rw count (here ∙ rw (next, there, same_offset, end) (map_fetch-map_fetch _ _ _))
