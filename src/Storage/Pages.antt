-- ===== src/Storage/Pages.antt =====
-- storage.rs: `Storage` and its operations on pages. The file is the list of its bytes, so that the
-- only error of a read is the end of the file; syncing to the disk is not modelled.
use cassettedb.Prelude.{
  ℕ, ◌+◌, ◌-◌, ◌*◌, ◌%◌, ◌^◌, [], ◌∷◌, length, drop, replicate, if◌then◌else◌, Bool, ◌==◌, not, min,
  Option, none, some,
}
use cassettedb.Prelude.Errors.{Result, ok, ◌>>=◌}
use cassettedb.Bytes.{Bytes, ByteOrder, read_exact, write_at}
use cassettedb.Storage.Header.{Header, page_size_const, new_header, encode, decode}

pub record Storage : Type 0 where
  pub file : Bytes
  pub header : Header

abbrev pub offset_of : ℕ → ℕ
offset_of page_id = page_id * page_size_const

module _ (le : ByteOrder) where
  -- `Storage::open` of a file with this content; a new file is empty.
  unfoldable pub open_at : Bytes → Result Storage
  open_at [] = ok (record { file = write_at [] 0 (encode le new_header); header = new_header })
  open_at (b ∷ bs) = do
    (page, rest) ← read_exact page_size_const (b ∷ bs)
    header ← decode le page
    ok (record { file = b ∷ bs; header = header })

  unfoldable pub sync_header : Storage → Storage
  sync_header s = record s { file = write_at s.file 0 (encode le s.header) }

  -- `num_pages += 1` on a `u32` wraps in a release build.
  unfoldable pub allocate_page : Storage → Result (Storage × ℕ)
  allocate_page s =
      if not (s.header.free_list_head == 0)
      then (do
        let page_id : ℕ = s.header.free_list_head
        (next, rest) ← le.read_u32 (drop (offset_of page_id) s.file)
        ok (sync_header (record s { header = record s.header { free_list_head = next } }), page_id))
      else (let page_id : ℕ = s.header.num_pages in
          let grown : Storage =
            sync_header
              (record s { header = record s.header { num_pages = (page_id + 1) % 2 ^ 32 } }) in
          ok (
            record grown {
              file = write_at grown.file (offset_of page_id) (replicate page_size_const 0);
            },
            page_id,
          ))

  unfoldable pub read_page : Storage → ℕ → Result Bytes
  read_page s page_id = do
    (page, rest) ← read_exact page_size_const (drop (offset_of page_id) s.file)
    ok page

  -- The assertion on the length panics: none.
  unfoldable pub write_page : Storage → ℕ → Bytes → Option Storage
  write_page s page_id page =
      if not (length page == page_size_const)
      then none
      else some (record s { file = write_at s.file (offset_of page_id) page })

  unfoldable pub free_page : Storage → ℕ → Storage
  unfolding sync_header
  free_page s page_id = sync_header (record s {
    file = write_at s.file (offset_of page_id) (le.write_u32 s.header.free_list_head);
    header = record s.header { free_list_head = page_id };
  })

  -- `delta` of type `i32` is given by its sign and its absolute value.
  abbrev pub shifted_count : ℕ → Bool → ℕ → ℕ
  shifted_count count negative size =
      if negative then count - size else min (count + size) (2 ^ 32 - 1)

  unfoldable pub increment_doc_count : Storage → Bool → ℕ → Storage
  unfolding sync_header
  increment_doc_count s negative size = sync_header (record s {
    header = record s.header { doc_count = shifted_count s.header.doc_count negative size };
  })
