-- ===== src/Storage/Header.antt =====
-- storage.rs: the header in page 0 and its encoding.
use cassettedb.Prelude.{
  append_assoc, ℕ, ◌-◌, ◌<◌, ◌^◌, ◌≡◌, ap, [], ◌∷◌, ◌++◌, length, replicate, ltb, if◌then◌else◌,
  arith, length-append, Bool, true, false, ◌==◌, ◌&&◌, not, subst,
}
use cassettedb.Prelude.Errors.{Result, ok, err, corrupt, ◌>>=◌}
use cassettedb.Bytes.{
  Bytes, ByteOrder, read_exact, resize, length-resize, resize-append, read_exact-append,
}

abbrev pub page_size_const : ℕ
page_size_const = 4096

-- "CDB1"
abbrev pub magic_bytes : Bytes
magic_bytes = 67 ∷ 68 ∷ 66 ∷ 49 ∷ []

-- `==` on `[u8; 4]`
abbrev pub bytes_eq : Bytes → Bytes → Bool
bytes_eq [] [] = true
bytes_eq [] (y ∷ ys) = false
bytes_eq (x ∷ xs) [] = false
bytes_eq (x ∷ xs) (y ∷ ys) = (x == y) && bytes_eq xs ys

pub record Header : Type 0 where
  pub magic : Bytes
  pub version : ℕ
  pub page_size : ℕ
  pub num_pages : ℕ
  pub free_list_head : ℕ
  pub doc_count : ℕ

unfoldable pub new_header : Header
new_header = record {
  magic = magic_bytes;
  version = 1;
  page_size = page_size_const;
  num_pages = 1;
  free_list_head = 0;
  doc_count = 0;
}

-- The fields are of their Rust types, and the magic is the one that `decode` accepts.
pub record InRange (h : Header) : Type 0 where
  pub magic_ok : h.magic ≡ magic_bytes
  pub version_lt : h.version < 2 ^ 16
  pub page_size_lt : h.page_size < 2 ^ 16
  pub num_pages_lt : h.num_pages < 2 ^ 32
  pub free_list_head_lt : h.free_list_head < 2 ^ 32
  pub doc_count_lt : h.doc_count < 2 ^ 32

module _ (le : ByteOrder) where
  -- The bytes of the fields, before `resize`.
  abbrev fields_of : Header → Bytes
  fields_of h =
      h.magic
      ++ (le.write_u16 h.version
          ++ (le.write_u16 h.page_size
              ++ (le.write_u32 h.num_pages
                  ++ (le.write_u32 h.free_list_head ++ le.write_u32 h.doc_count))))

  unfoldable pub encode : Header → Bytes
  encode h = resize page_size_const (fields_of h)

  -- The reads of `decode` after the check of the magic.
  unfoldable pub decode_fields : Bytes → Bytes → Result Header
  decode_fields magic r = do
    (version, r1) ← le.read_u16 r
    (page_size, r2) ← le.read_u16 r1
    (num_pages, r3) ← le.read_u32 r2
    (free_list_head, r4) ← le.read_u32 r3
    (doc_count, r5) ← le.read_u32 r4
    ok (record {
      magic = magic;
      version = version;
      page_size = page_size;
      num_pages = num_pages;
      free_list_head = free_list_head;
      doc_count = doc_count;
    })

  abbrev checked_magic : Bytes × Bytes → Result Header
  checked_magic (magic, r) =
      if not (bytes_eq magic magic_bytes)
      then err (corrupt "Invalid magic")
      else decode_fields magic r

  unfoldable pub decode : Bytes → Result Header
  decode bytes =
      if ltb (length bytes) 64
      then err (corrupt "Header too short")
      else read_exact 4 bytes >>= checked_magic

  pub length-encode : (h : Header) → length (encode h) ≡ page_size_const
  unfolding encode
  length-encode h = length-resize page_size_const (fields_of h)

  decode_fields_lem :
      (h : Header) (rest : Bytes)
      → InRange h
      → decode_fields h.magic (
          le.write_u16 h.version
          ++ (le.write_u16 h.page_size
              ++ (le.write_u32 h.num_pages
                  ++ (le.write_u32 h.free_list_head ++ (le.write_u32 h.doc_count ++ rest)))))
        ≡ ok h
  unfolding decode_fields
  decode_fields_lem h rest i = rw (
    le.read_u16-write_u16 h.version _ i.version_lt,
    le.read_u16-write_u16 h.page_size _ i.page_size_lt,
    le.read_u32-write_u32 h.num_pages _ i.num_pages_lt,
    le.read_u32-write_u32 h.free_list_head _ i.free_list_head_lt,
    le.read_u32-write_u32 h.doc_count _ i.doc_count_lt,
  )

  length-fields_of : (h : Header) → InRange h → length (fields_of h) ≡ 20
  length-fields_of h i = rw (
    length-append h.magic _,
    length-append (le.write_u16 h.version) _,
    length-append (le.write_u16 h.page_size) _,
    length-append (le.write_u32 h.num_pages) _,
    length-append (le.write_u32 h.free_list_head) (le.write_u32 h.doc_count),
    le.length-write_u16 h.version,
    le.length-write_u16 h.page_size,
    le.length-write_u32 h.num_pages,
    le.length-write_u32 h.free_list_head,
    le.length-write_u32 h.doc_count,
    i.magic_ok,
  )

  -- The encoding starts with the fields.
  encode_fields :
      (h : Header)
      → InRange h
      → encode h ≡ fields_of h ++ replicate (page_size_const - length (fields_of h)) 0
  unfolding encode
  encode_fields h i =
      resize-append page_size_const (fields_of h) (omega (arith, length-fields_of h i))

  decode_fields_of :
      (h : Header) (rest : Bytes)
      → InRange h
      → read_exact 4 (fields_of h ++ rest) >>= checked_magic ≡ ok h
  decode_fields_of h rest i =
      let four : length h.magic ≡ 4 = ap {B = ℕ} length i.magic_ok in
      let tail =
        le.write_u16 h.version
        ++ (le.write_u16 h.page_size
            ++ (le.write_u32 h.num_pages
                ++ (le.write_u32 h.free_list_head ++ (le.write_u32 h.doc_count ++ rest)))) in
      let magic_read : read_exact 4 (h.magic ++ tail) ≡ ok (h.magic, tail) =
        subst (λ n. read_exact n (h.magic ++ tail) ≡ ok (h.magic, tail)) four
          (read_exact-append h.magic tail) in
      let matches : bytes_eq h.magic magic_bytes ≡ true =
        ap (λ m. bytes_eq m magic_bytes) i.magic_ok in
      rw
        (
          append_assoc h.magic _ rest,
          append_assoc (le.write_u16 h.version) _ rest,
          append_assoc (le.write_u16 h.page_size) _ rest,
          append_assoc (le.write_u32 h.num_pages) _ rest,
          append_assoc (le.write_u32 h.free_list_head) (le.write_u32 h.doc_count) rest,
          magic_read,
          matches,
        )
        (decode_fields_lem h rest i)

  -- A header with fields of their types and the magic number is decoded as it was encoded.
  pub decode-encode : (h : Header) → InRange h → decode (encode h) ≡ ok h
  unfolding decode
  decode-encode h i =
      rw (length-encode h, encode_fields h i)
        (decode_fields_of h (replicate (page_size_const - length (fields_of h)) 0) i)
