-- ===== src/Storage/Log/Names.antt =====
-- The names of the segment files of crates/storage/src/lib.rs: two segments with different base
-- offsets have different files.
use sevlamq.Prelude.{bytes_eq, pair_eq}
use sevlamq.Prelude.{
  Bool-cases, [], ap, arith, false, inl, inr, pair_beq_iff, refl, suc, sym, zero, ℕ, ◌%◌, ◌*◌, ◌++◌,
  ◌+◌, ◌-◌, ◌/◌, ◌<◌, ◌^◌, ◌∙◌, ◌∷◌, ◌≟◌, ◌≡◌,
}
use sevlamq.Protocol.Types.{Bytes}
use sevlamq.Storage.Segment.{decimal, index_path, parse_digits, segment_path}
use sevlamq.Storage.Files.{FileName}

parse_digits-append :
    (n d : ℕ) (digits : Bytes)
    → parse_digits n (digits ++ d ∷ []) ≡ parse_digits n digits * 10 + (d - b'0')
unfolding parse_digits
parse_digits-append n d [] = refl
parse_digits-append n d (b ∷ digits) = parse_digits-append (n * 10 + (b - b'0')) d digits

pub parse_digits-decimal : (width n : ℕ) → n < 10 ^ width → parse_digits 0 (decimal width n) ≡ n
unfolding decimal parse_digits
parse_digits-decimal zero n h = omega arith
parse_digits-decimal (suc width) n h = omega (
  arith,
  parse_digits-append 0 (b'0' + n % 10) (decimal width (n / 10)),
  parse_digits-decimal width (n / 10) (omega arith),
)

pub segment_path_injective :
    (a b : ℕ) → a < 2 ^ 64 → b < 2 ^ 64 → segment_path a ≡ segment_path b → a ≡ b
segment_path_injective a b h k e =
    sym (parse_digits-decimal 20 a (omega arith))
    ∙ (ap (λ (stem, extension). parse_digits 0 stem) e ∙ parse_digits-decimal 20 b (omega arith))

pub segment_path_apart : (a b : ℕ) → a < b → b < 2 ^ 64 → (segment_path b ≟ segment_path a) ≡ false
segment_path_apart a b h small = elim (Bool-cases (segment_path b ≟ segment_path a)) [
  | inl e ↦
      let same = (pair_beq_iff (segment_path b) (segment_path a)).0 e in
      let equal = segment_path_injective b a small (omega arith) same in absurd (omega arith)
  | inr e ↦ e
]

pub index_path_apart : (a : FileName) (b : ℕ) → (index_path a ≟ segment_path b) ≡ false
index_path_apart a b = elim (Bool-cases (index_path a ≟ segment_path b)) [
  | inl e ↦
      let same =
        ap (λ (stem, extension). extension) ((pair_beq_iff (index_path a) (segment_path b)).0 e) in
      absurd (ground (arith, same))
  | inr e ↦ e
]
