-- ===== src/Bytes/Little.antt =====
-- A concrete little-endian codec, which shows that the laws of the interface can hold.
use cassettedb.Prelude.{
  ℕ, ◌+◌, ◌*◌, ◌/◌, ◌%◌, ◌≤◌, ◌<◌, ◌^◌, ◌≡◌, refl, ap, [], ◌∷◌, ◌++◌, length, arith,
}
use cassettedb.Prelude.Errors.{Result, ok, err, io, unexpected_eof}
use cassettedb.Bytes.{Bytes, ByteOrder}

abbrev put_u8 : ℕ → Bytes
put_u8 n = n % 256 ∷ []

abbrev put_u16 : ℕ → Bytes
put_u16 n = n % 256 ∷ n / 256 % 256 ∷ []

abbrev pub put_u32 : ℕ → Bytes
put_u32 n = n % 256 ∷ n / 256 % 256 ∷ n / 65536 % 256 ∷ n / 16777216 % 256 ∷ []

abbrev get_u8 : Bytes → Result (ℕ × Bytes)
get_u8 [] = err (io unexpected_eof)
get_u8 (a ∷ rest) = ok (a, rest)

abbrev get_u16 : Bytes → Result (ℕ × Bytes)
get_u16 (a ∷ b ∷ rest) = ok (a + 256 * b, rest)
get_u16 _ = err (io unexpected_eof)

abbrev pub get_u32 : Bytes → Result (ℕ × Bytes)
get_u32 (a ∷ b ∷ c ∷ d ∷ rest) = ok (a + 256 * b + 65536 * c + 16777216 * d, rest)
get_u32 _ = err (io unexpected_eof)

pub u8_range : (n : ℕ) → n < 256 → put_u8 n ≡ n ∷ []
u8_range n h = ap (λ k. k ∷ []) (omega arith)

pub u16_range : (n : ℕ) (rest : Bytes) → n < 2 ^ 16 → get_u16 (put_u16 n ++ rest) ≡ ok (n, rest)
u16_range n rest h = ap (λ (k : ℕ). ok (k, rest)) (omega arith)

pub u32_range : (n : ℕ) (rest : Bytes) → n < 2 ^ 32 → get_u32 (put_u32 n ++ rest) ≡ ok (n, rest)
u32_range n rest h = ap (λ (k : ℕ). ok (k, rest)) (omega arith)

pub u32_rest :
    (bytes : Bytes) {n : ℕ} {rest : Bytes}
    → get_u32 bytes ≡ ok (n, rest)
    → length rest ≤ length bytes
u32_rest (a ∷ b ∷ c ∷ d ∷ tail) {n} {rest} h =
    let same : tail ≡ rest = cc h in omega (arith, ap {B = ℕ} length same)
u32_rest [] h = cc h
u32_rest (a ∷ []) h = cc h
u32_rest (a ∷ b ∷ []) h = cc h
u32_rest (a ∷ b ∷ c ∷ []) h = cc h

abbrev pub little : ByteOrder
little = record {
  write_u8 = put_u8;
  write_u16 = put_u16;
  write_u32 = put_u32;
  read_u8 = get_u8;
  read_u16 = get_u16;
  read_u32 = get_u32;
  write_u8_lem = u8_range;
  read_u8_nil = refl;
  read_u8_cons = λ n rest. refl;
  length-write_u16 = λ n. refl;
  length-write_u32 = λ n. refl;
  read_u16-write_u16 = u16_range;
  read_u32-write_u32 = u32_range;
  read_u32_rest = u32_rest;
}
