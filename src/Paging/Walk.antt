-- ===== src/Paging/Walk.antt =====
-- The walks of lib/tinykvm/amd64/paging.cpp that change nothing: page_at and readable_page_at.
use tinykvm.Prelude.{ℕ, ◌+◌, ◌*◌, ◌/◌, ◌%◌, ◌^◌, Bool, done, throws, ◌>>=◌, if◌then◌else◌}
use tinykvm.Paging.Entry.{Flags, is_flagged_page, pdpt_address}
use tinykvm.Paging.Memory.{
  Memory, PagingError, Result, page_at, pml4_not_present, directory_not_present, table_not_present,
  entry_not_present, not_readable,
}

-- The four table indices of an address.
abbrev pub pml4_index : ℕ → ℕ
pml4_index addr = addr / 2 ^ 39 % 512

abbrev pub pdpt_index : ℕ → ℕ
pdpt_index addr = addr / 2 ^ 30 % 512

abbrev pub pd_index : ℕ → ℕ
pd_index addr = addr / 2 ^ 21 % 512

abbrev pub pt_index : ℕ → ℕ
pt_index addr = addr / 2 ^ 12 % 512

-- A flagged entry of a table leads on to the page at `next`.
unfoldable pub follow : Memory → Bool → ℕ → PagingError → Result ℕ
follow m flagged next error = if flagged then page_at m next else throws error m

-- readable_page_at: the physical address of the page that the guest reads at `addr`.
unfoldable pub readable_page_at : Memory → ℕ → Flags → Result ℕ
unfolding follow
readable_page_at m addr flags = do
  (pml4, m₀) ← page_at m m.page_tables
  let e₁ = m₀.words pml4 (pml4_index addr)
  (pdpt, m₁) ← follow m₀ (is_flagged_page flags e₁) (pdpt_address e₁) not_readable
  let e₂ = m₁.words pdpt (pdpt_index addr)
  (pd, m₂) ← follow m₁ (is_flagged_page flags e₂) e₂.addr not_readable
  let e₃ = m₂.words pd (pd_index addr)
  (pt, m₃) ← follow m₂ (is_flagged_page flags e₃) e₃.addr not_readable
  let e₄ = m₃.words pt (pt_index addr)
  (if e₃.ps
      then done (pt + pt_index addr * 4096) m₃
      else follow m₃ (is_flagged_page flags e₄) e₄.addr not_readable)

-- Where the entry stands that page_at hands to its callback, and the size of its page.
pub record Found : Type 0 where
  pub table : ℕ
  pub index : ℕ
  pub page_size : ℕ

-- page_at of paging.cpp. (With `ignore_missing` a missing entry is no error.)
unfoldable pub find_entry : Memory → ℕ → Result Found
unfolding follow
find_entry m addr = do
  (pml4, m₀) ← page_at m m.page_tables
  let e₁ = m₀.words pml4 (pml4_index addr)
  (pdpt, m₁) ← follow m₀ e₁.present (pdpt_address e₁) pml4_not_present
  let e₂ = m₁.words pdpt (pdpt_index addr)
  (pd, m₂) ← follow m₁ e₂.present e₂.addr directory_not_present
  let e₃ = m₂.words pd (pd_index addr)
  (if e₃.present
      then (if e₃.ps
          then done (record { table = pd; index = pd_index addr; page_size = 2 ^ 21 }) m₂
          else (do
            (pt, m₃) ← page_at m₂ e₃.addr
            let e₄ = m₃.words pt (pt_index addr)
            (if e₄.present
                then done (record { table = pt; index = pt_index addr; page_size = 4096 }) m₃
                else throws entry_not_present m₃)))
      else throws table_not_present m₂)
