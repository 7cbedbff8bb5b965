-- ===== src/Bytes.antt =====
-- Bytes as storage.rs and wal.rs use them: a file is the list of its bytes. Of std::io the calls
-- used are written out: read_exact, a write at an offset, Vec::resize. The number codecs of the
-- crate byteorder are an interface with its documented laws.
pub mod Little
pub mod Text
use Prim.Native.Nat.add
use native.Mathlib.Nat.{zero-add}
use cassettedb.Prelude.{
  ℕ, zero, suc, subst, ◌+◌, ◌-◌, ◌≤◌, ◌<◌, ◌^◌, ◌≡◌, refl, sym, ap, ◌∙◌, List, [], ◌∷◌, ◌++◌,
  length, take, drop, replicate, leb, ltb, if◌then◌else◌, arith, take-append_length,
  drop-append_length, length-append, false,
}
use cassettedb.Prelude.Errors.{Result, ok, err, io, unexpected_eof}

abbrev pub Bytes : Type 0
Bytes = List ℕ

-- `Read::read_exact`
unfoldable pub read_exact : ℕ → Bytes → Result (Bytes × Bytes)
read_exact n bytes =
    if leb n (length bytes) then ok (take n bytes, drop n bytes) else err (io unexpected_eof)

-- `Vec::resize`, with zeros
unfoldable pub resize : ℕ → Bytes → Bytes
resize n bytes =
    if leb (length bytes) n then bytes ++ replicate (n - length bytes) 0 else take n bytes

-- A seek to `offset` and a `write_all`: a gap before the offset reads as zeros.
unfoldable pub write_at : Bytes → ℕ → Bytes → Bytes
unfolding resize
write_at file offset written =
    resize offset file ++ (written ++ drop (offset + length written) file)

-- `LittleEndian` reads and writes.
pub record ByteOrder : Type 0 where
  pub write_u8 : ℕ → Bytes
  pub write_u16 : ℕ → Bytes
  pub write_u32 : ℕ → Bytes
  pub read_u8 : Bytes → Result (ℕ × Bytes)
  pub read_u16 : Bytes → Result (ℕ × Bytes)
  pub read_u32 : Bytes → Result (ℕ × Bytes)
  pub write_u8_lem : (n : ℕ) → n < 256 → write_u8 n ≡ n ∷ []
  pub read_u8_nil : read_u8 [] ≡ err (io unexpected_eof)
  pub read_u8_cons : (n : ℕ) (rest : Bytes) → read_u8 (n ∷ rest) ≡ ok (n, rest)
  pub length-write_u16 : (n : ℕ) → length (write_u16 n) ≡ 2
  pub length-write_u32 : (n : ℕ) → length (write_u32 n) ≡ 4
  pub read_u16-write_u16 :
      (n : ℕ) (rest : Bytes) → n < 2 ^ 16 → read_u16 (write_u16 n ++ rest) ≡ ok (n, rest)
  pub read_u32-write_u32 :
      (n : ℕ) (rest : Bytes) → n < 2 ^ 32 → read_u32 (write_u32 n ++ rest) ≡ ok (n, rest)
  pub read_u32_rest :
      (bytes : Bytes) {n : ℕ} {rest : Bytes}
      → read_u32 bytes ≡ ok (n, rest)
      → length rest ≤ length bytes

pub length-replicate : (n a : ℕ) → length (replicate n a) ≡ n
length-replicate zero a = refl
length-replicate (suc n) a = omega (arith, length-replicate n a)

pub length-drop : {A : Type 0} (n : ℕ) (xs : List A) → length (drop n xs) ≡ length xs - n
length-drop zero xs = omega arith
length-drop (suc n) [] = omega arith
length-drop (suc n) (x ∷ xs) = omega (arith, length-drop n xs)

pub length-take_le : (n : ℕ) (xs : Bytes) → n ≤ length xs → length (take n xs) ≡ n
length-take_le zero xs h = refl
length-take_le (suc n) [] h = absurd (omega arith)
length-take_le (suc n) (x ∷ xs) h = omega (arith, length-take_le n xs)

pub length-resize : (n : ℕ) (xs : Bytes) → length (resize n xs) ≡ n
unfolding resize
length-resize n xs = ground (
  arith,
  length-append xs (replicate (n - length xs) 0),
  length-replicate (n - length xs) 0,
  length-take_le n xs,
)

pub resize-append :
    (n : ℕ) (xs : Bytes) → length xs ≤ n → resize n xs ≡ xs ++ replicate (n - length xs) 0
unfolding resize
resize-append n xs h = ground arith

pub drop_all : {A : Type 0} (n : ℕ) (xs : List A) → length xs ≤ n → drop n xs ≡ []
drop_all zero [] h = refl
drop_all zero (x ∷ xs) h = absurd (omega arith)
drop_all (suc n) [] h = refl
drop_all (suc n) (x ∷ xs) h = drop_all n xs (omega arith)

-- Overwriting the last byte of a file.
pub write_at_last :
    (front : Bytes) (old new n : ℕ)
    → n ≡ length front
    → write_at (front ++ old ∷ []) n (new ∷ []) ≡ front ++ new ∷ []
unfolding write_at resize
write_at_last front old new n h =
    let longer = length-append front (old ∷ []) in
    let kept : take n (front ++ old ∷ []) ≡ front =
      ap (λ k. take k (front ++ old ∷ [])) h ∙ take-append_length front (old ∷ []) in
    let past : leb (length (front ++ old ∷ [])) n ≡ false = ground (arith, longer) in
    rw (past, kept, drop_all (n + 1) (front ++ old ∷ []) (omega (arith, longer))) refl

-- What was written is read.
pub read_exact-append :
    (written rest : Bytes) → read_exact (length written) (written ++ rest) ≡ ok (written, rest)
unfolding read_exact
read_exact-append written rest = ground (
  arith,
  take-append_length written rest,
  drop-append_length written rest,
  length-append written rest,
)

pub drop-add : (a b : ℕ) (xs : Bytes) → drop (a + b) xs ≡ drop b (drop a xs)
drop-add zero b xs = rw zero-add
drop-add (suc a) zero [] = rw add.suc
drop-add (suc a) (suc b) [] = rw add.suc
drop-add (suc a) b (x ∷ xs) = rw add.suc (drop-add a b xs)

-- At its offset a file continues with what was written there.
pub drop-write_at :
    (file : Bytes) (offset : ℕ) (written : Bytes)
    → drop offset (write_at file offset written) ≡ written ++ drop (offset + length written) file
unfolding write_at
drop-write_at file offset written =
    let rest = written ++ drop (offset + length written) file in
    subst (λ n. drop n (resize offset file ++ rest) ≡ rest) (length-resize offset file)
      (drop-append_length (resize offset file) rest)

resize_zero : (file : Bytes) → resize 0 file ≡ []
unfolding resize
resize_zero [] = refl
resize_zero (b ∷ file) = ground arith

pub write_at_start :
    (file : Bytes) (written : Bytes)
    → write_at file 0 written ≡ written ++ drop (length written) file
unfolding write_at
write_at_start file written =
    ap (λ b. b ++ (written ++ drop (0 + length written) file)) (resize_zero file)
    ∙ ap (λ n. written ++ drop n file) (zero-add (length written))

-- A write at the start leaves the bytes after it.
pub drop-write_at_start :
    (file : Bytes) (written : Bytes) (n : ℕ)
    → length written ≤ n
    → drop n (write_at file 0 written) ≡ drop n file
unfolding write_at
drop-write_at_start file written n h =
    let r = drop (0 + length written) file in
    let k = n - length written in
    let reached : n ≡ length written + k = omega arith in
    let start = ap {B = Bytes} (λ b. drop n (b ++ (written ++ r))) (resize_zero file) in
    let behind : drop (length written + k) (written ++ r) ≡ drop (length written + k) file =
      drop-add (length written) k (written ++ r)
      ∙ ap (drop k)
          (drop-append_length written r ∙ ap (λ l. drop l file) (zero-add (length written)))
      ∙ sym (drop-add (length written) k file) in
    start ∙ subst (λ m. drop m (written ++ r) ≡ drop m file) (sym reached) behind
