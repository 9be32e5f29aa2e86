-- ===== src/Wal/Bits.antt =====
-- The commit bit of a length below 2 ^ 15, by evaluation at every length.
use Prim.Native.Nat.{bit_or, bit_and}
use cdoc.Prelude.{ℕ, ◌+◌, ◌<◌, ◌≡◌, refl, arith, Bool, true, ◌&&◌, ◌==◌, ==→eq, each, each_lem}
use cdoc.Wal.{commit_bit}

abbrev set_bit : ℕ → Bool
set_bit n = bit_or n 0x8000 == n + 0x8000

abbrev clear_word : ℕ → Bool
clear_word n = bit_and n 0x8000 == 0 && bit_and n 0x7fff == n

abbrev marked_word : ℕ → Bool
marked_word n = bit_and (n + 0x8000) 0x8000 == 0x8000 && bit_and (n + 0x8000) 0x7fff == n

set_bit_table : each set_bit 0x8000 ≡ true
unfolding each
set_bit_table = refl

clear_word_table : each clear_word 0x8000 ≡ true
unfolding each
clear_word_table = refl

marked_word_table : each marked_word 0x8000 ≡ true
unfolding each
marked_word_table = refl

pub bit_or-commit : (n : ℕ) → n < 0x8000 → bit_or n commit_bit ≡ n + 0x8000
bit_or-commit n h = ==→eq _ _ (each_lem set_bit n 0x8000 h set_bit_table)

pub bit_and-clear : (n : ℕ) → n < 0x8000 → (bit_and n commit_bit ≡ 0) × (bit_and n 0x7fff ≡ n)
bit_and-clear n h = ground (arith, each_lem clear_word n 0x8000 h clear_word_table)

pub bit_and-marked :
    (n : ℕ)
    → n < 0x8000
    → (bit_and (n + 0x8000) commit_bit ≡ 0x8000) × (bit_and (n + 0x8000) 0x7fff ≡ n)
bit_and-marked n h = ground (arith, each_lem marked_word n 0x8000 h marked_word_table)
