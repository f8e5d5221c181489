-- ===== src/Data/Binary.antt =====
-- Instants written as binary texts, in place of ISO texts.
use mathlib.Core.Path.{subst}
use Prim.Native.Char.{Char, code}
use aquaops_copilot.Common.{
  ℕ, zero, suc, ◌+◌, ◌*◌, ◌/◌, ◌%◌, ◌≤◌, String, ◌≡◌, sym, ap, inl, inr, Bool-cases, true, false,
  some, arith, if◌then◌else◌, ◌==◌,
}
use aquaops_copilot.Data.Numbers.{Datetimes}

-- The binary digits of a number, the last one first.
unfoldable pub digit : ℕ → Char
digit n = if n % 2 == 0 then "0" else "1"

unfoldable pub write_bits : ℕ → ℕ → String
unfolding digit
write_bits zero t = ""
write_bits (suc n) t = elim (t == 0) [
  | true ↦ ""
  | false ↦ String.◌∷◌ (digit t) (write_bits n (t / 2))
]

unfoldable pub bit : ℕ → ℕ
bit c = if c == b'0' then 0 else 1

unfoldable pub read_bits : String → ℕ
unfolding bit
read_bits String.[] = 0
read_bits (String.◌∷◌ c s) = 2 * read_bits s + bit (code c)

bit-digit : (t : ℕ) → bit (code (digit t)) ≡ t % 2
unfolding bit digit
bit-digit t = elim (Bool-cases (t % 2 == 0)) [
  | inl y ↦ subst (λ b. bit (code (if b then "0" else "1")) ≡ t % 2) (sym y) (ground arith)
  | inr n ↦ subst (λ b. bit (code (if b then "0" else "1")) ≡ t % 2) (sym n) (ground arith)
]

pub bits : (n t : ℕ) → t ≤ n → read_bits (write_bits n t) ≡ t
unfolding read_bits write_bits
bits zero t h = omega arith
bits (suc n) t h = elim (Bool-cases (t == 0)) [
  | inl y ↦
      subst
        (λ b.
          read_bits (elim b [ true ↦ "" | false ↦ String.◌∷◌ (digit t) (write_bits n (t / 2)) ])
          ≡ t)
        (sym y) (ground arith)
  | inr m ↦
      subst
        (λ b.
          read_bits (elim b [ true ↦ "" | false ↦ String.◌∷◌ (digit t) (write_bits n (t / 2)) ])
          ≡ t)
        (sym m) (omega (arith, bits n (t / 2) (ground arith), bit-digit t))
]

abbrev pub binary : Datetimes
binary = record {
  read = λ s. some (read_bits s);
  write = λ t. write_bits t t;
  read_write = λ s t u e h. ap (λ x. some x) (bits t t (omega arith));
}
