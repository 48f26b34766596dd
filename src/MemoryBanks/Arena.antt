-- ===== src/MemoryBanks/Arena.antt =====
-- The banks as one arena of guest-physical memory: they follow one another, and an address of the
-- arena is in use when it lies in the handed-out part of its bank.
use tinykvm.Prelude.{
  ℕ, zero, suc, ◌+◌, ◌*◌, ◌%◌, ◌^◌, ◌≤◌, ◌<◌, ◌≡◌, refl, ◌⊎◌, ◌&&◌, some, List, [], ◌∷◌, ◌++◌,
  arith, ltb, leb, if◌then◌else◌, All, length, get_elem?, set,
}
use mathlib.Core.Path.{subst, ap, sym, ◌∙◌}
use mathlib.Core.Option.{some-injective}
use tinykvm.MemoryBanks.{MemoryBank, bank_size}

abbrev pub handed_out : MemoryBank → ℕ → ℕ
handed_out b x = if leb b.addr x && ltb x (b.addr + 4096 * b.n_used) then 1 else 0

abbrev pub in_use : List MemoryBank → ℕ → ℕ
in_use [] x = 0
in_use (b ∷ bs) x = handed_out b x + in_use bs x

-- The banks fill the arena from `a` to `z`.
abbrev pub Chain : ℕ → ℕ → List MemoryBank → Type 0
Chain a z [] = a ≡ z
Chain a z (b ∷ bs) = (b.addr ≡ a) × Chain (a + bank_size b) z bs

abbrev pub total_pages : List MemoryBank → ℕ
total_pages [] = 0
total_pages (b ∷ bs) = b.n_pages + total_pages bs

-- A bank of whole huge pages, no dirtier than used.
pub record IsBank (b : MemoryBank) : Type 0 where
  pub used : b.n_used ≤ b.n_pages
  pub clean : b.n_dirty ≤ b.n_used
  pub whole : b.n_pages % 512 ≡ 0

pub Chain-le : (a z : ℕ) (bs : List MemoryBank) → Chain a z bs → a ≤ z
Chain-le a z [] c = omega arith
Chain-le a z (b ∷ bs) c = omega (arith, Chain-le (a + bank_size b) z bs c.1)

pub in_use_outside :
    (a z : ℕ) (bs : List MemoryBank) (x : ℕ)
    → Chain a z bs
    → All IsBank bs
    → (x < a) ⊎ (z ≤ x)
    → in_use bs x ≡ 0
in_use_outside a z [] x c w o = refl
in_use_outside a z (b ∷ bs) x c w o = ground (
  arith,
  w.0.used,
  Chain-le (a + bank_size b) z bs c.1,
  in_use_outside (a + bank_size b) z bs x c.1 w.1,
)

pub in_use-le-one :
    (a z : ℕ) (bs : List MemoryBank) (x : ℕ) → Chain a z bs → All IsBank bs → in_use bs x ≤ 1
in_use-le-one a z [] x c w = omega arith
in_use-le-one a z (b ∷ bs) x c w = ground (
  arith,
  w.0.used,
  in_use_outside (a + bank_size b) z bs x c.1 w.1,
  in_use-le-one (a + bank_size b) z bs x c.1 w.1,
)

-- A bank of the arena is inside it, and huge-page aligned if the arena is.
pub get_elem?-inside :
    (a z : ℕ) (bs : List MemoryBank) (i : ℕ) {b : MemoryBank}
    → Chain a z bs
    → All IsBank bs
    → get_elem? bs i ≡ some b
    → (a ≤ b.addr) × (b.addr + bank_size b ≤ z) × IsBank b × (a % 2 ^ 21 ≡ 0 → b.addr % 2 ^ 21 ≡ 0)
get_elem?-inside a z [] i c w e = cc
get_elem?-inside a z (d ∷ bs) zero c w e =
    subst
      (λ b.
        (a ≤ b.addr)
        × (b.addr + bank_size b ≤ z)
        × IsBank b
        × (a % 2 ^ 21 ≡ 0 → b.addr % 2 ^ 21 ≡ 0))
      (some-injective _ _ e)
      (omega arith, omega (arith, Chain-le (a + bank_size d) z bs c.1), w.0, λ h. omega arith)
get_elem?-inside a z (d ∷ bs) (suc i) c w e =
    let rest = get_elem?-inside (a + bank_size d) z bs i c.1 w.1 e in
    (omega (arith, rest), rest.1, rest.2, λ h. rest.3 (omega (arith, w.0.whole)))

-- One bank's change changes the use by that bank's share.
pub in_use-set :
    (bs : List MemoryBank) (i : ℕ) {b : MemoryBank} (b' : MemoryBank) (x : ℕ)
    → get_elem? bs i ≡ some b
    → in_use (set bs i b') x + handed_out b x ≡ in_use bs x + handed_out b' x
in_use-set [] i b' x e = cc
in_use-set (c ∷ bs) zero b' x e = ground arith
in_use-set (c ∷ bs) (suc i) b' x e = omega (arith, in_use-set bs i b' x e)

pub Chain-set :
    (a z : ℕ) (bs : List MemoryBank) (i : ℕ) {b : MemoryBank} (b' : MemoryBank)
    → Chain a z bs
    → get_elem? bs i ≡ some b
    → b'.addr ≡ b.addr
    → b'.n_pages ≡ b.n_pages
    → Chain a z (set bs i b')
Chain-set a z [] i b' c e p q = c
Chain-set a z (d ∷ bs) zero b' c e p q = (
  ground arith,
  subst (λ n. Chain (a + n * 4096) z bs) (ap (λ t. t.n_pages) (some-injective _ _ e) ∙ sym q) c.1,
)
Chain-set a z (d ∷ bs) (suc i) b' c e p q = (c.0, Chain-set (a + bank_size d) z bs i b' c.1 e p q)

pub All-set :
    (P : MemoryBank → Type 0) (bs : List MemoryBank) (i : ℕ) (b' : MemoryBank)
    → All P bs
    → P b'
    → All P (set bs i b')
All-set P [] i b' w p = tt
All-set P (d ∷ bs) zero b' w p = (p, w.1)
All-set P (d ∷ bs) (suc i) b' w p = (w.0, All-set P bs i b' w.1 p)

pub total_pages-set :
    (bs : List MemoryBank) (i : ℕ) {b : MemoryBank} (b' : MemoryBank)
    → get_elem? bs i ≡ some b
    → b'.n_pages ≡ b.n_pages
    → total_pages (set bs i b') ≡ total_pages bs
total_pages-set [] i b' e p = refl
total_pages-set (d ∷ bs) zero b' e p = ground arith
total_pages-set (d ∷ bs) (suc i) b' e p = omega (arith, total_pages-set bs i b' e p)

pub Chain-append :
    (a z : ℕ) (bs : List MemoryBank) (b : MemoryBank)
    → Chain a z bs
    → b.addr ≡ z
    → Chain a (z + bank_size b) (bs ++ b ∷ [])
Chain-append a z [] b c e = (omega arith, omega arith)
Chain-append a z (d ∷ bs) b c e = (c.0, Chain-append (a + bank_size d) z bs b c.1 e)

pub in_use-append :
    (bs : List MemoryBank) (b : MemoryBank) (x : ℕ)
    → in_use (bs ++ b ∷ []) x ≡ in_use bs x + handed_out b x
in_use-append [] b x = omega arith
in_use-append (d ∷ bs) b x = omega (arith, in_use-append bs b x)

pub total_pages-append :
    (bs : List MemoryBank) (b : MemoryBank)
    → total_pages (bs ++ b ∷ []) ≡ total_pages bs + b.n_pages
total_pages-append [] b = omega arith
total_pages-append (d ∷ bs) b = omega (arith, total_pages-append bs b)

pub All-push :
    (P : MemoryBank → Type 0) (bs : List MemoryBank) (b : MemoryBank)
    → All P bs
    → P b
    → All P (bs ++ b ∷ [])
All-push P [] b w p = (p, tt)
All-push P (d ∷ bs) b w p = (w.0, All-push P bs b w.1 p)

pub get_elem?-length :
    (bs : List MemoryBank) (b : MemoryBank) → get_elem? (bs ++ b ∷ []) (length bs) ≡ some b
get_elem?-length [] b = refl
get_elem?-length (d ∷ bs) b = get_elem?-length bs b
