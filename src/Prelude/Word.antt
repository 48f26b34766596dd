-- ===== src/Prelude/Word.antt =====
-- Unsigned machine words: a value is a native number, and each operation wraps where C++ does.
use Prim.Native.Nat.{ℕ, ◌+◌, ◌-◌, ◌%◌, ◌^◌}

abbrev pub u64 : ℕ → ℕ
u64 n = n % 2 ^ 64

abbrev pub u32 : ℕ → ℕ
u32 n = n % 2 ^ 32

abbrev pub u16 : ℕ → ℕ
u16 n = n % 2 ^ 16

abbrev pub add64 : ℕ → ℕ → ℕ
add64 a b = (a + b) % 2 ^ 64

-- `-` on ℕ stops at 0, so the modulus is added first.
abbrev pub sub64 : ℕ → ℕ → ℕ
sub64 a b = (a + 2 ^ 64 - b) % 2 ^ 64

-- vMemory::PageSize().
abbrev pub page_size : ℕ
page_size = 4096

-- `(x + (align - 1)) & ~(align - 1)` for a power of two `align`: the sum wraps, then the low bits go.
abbrev pub round_up : ℕ → ℕ → ℕ
round_up align x = add64 x (align - 1) - add64 x (align - 1) % align
