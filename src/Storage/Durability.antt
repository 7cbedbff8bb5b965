-- ===== src/Storage/Durability.antt =====
-- storage.rs: what is read back of a storage, in memory and after opening its file again.
use cassettedb.Prelude.{
  ℕ, ◌+◌, ◌≤◌, ◌<◌, ◌^◌, ◌≡◌, refl, sym, ap, ◌∙◌, [], ◌∷◌, ◌++◌, length, drop, arith, length-append,
  Bool, true, false, ◌==◌, subst, some,
}
use cassettedb.Prelude.Errors.{ok, ◌>>=◌}
use cassettedb.Bytes.{
  Bytes, ByteOrder, read_exact, read_exact-append, write_at, drop-write_at, drop-write_at_start,
  write_at_start,
}
use cassettedb.Storage.Header.{
  new_header, Header, InRange, page_size_const, encode, decode, decode-encode, length-encode,
}
use cassettedb.Storage.Pages.{
  Storage, offset_of, open_at, sync_header, allocate_page, read_page, write_page, free_page,
  shifted_count, increment_doc_count,
}

module _ (le : ByteOrder) where
  -- A page of the file after page 0 is read as before a sync.
  drop-sync :
      (s : Storage) (n : ℕ) → page_size_const ≤ n → drop n (sync_header le s).file ≡ drop n s.file
  unfolding sync_header
  drop-sync s n h =
      drop-write_at_start s.file (encode le s.header) n
        (subst (λ l. l ≤ n) (sym (length-encode le s.header)) h)

  page_start : (page_id : ℕ) → 1 ≤ page_id → page_size_const ≤ offset_of page_id
  page_start page_id h = omega arith

  write_page-some :
      (s : Storage) (page_id : ℕ) (page : Bytes) {s' : Storage}
      → write_page le s page_id page ≡ some s'
      → (length page ≡ page_size_const)
        × (s' ≡ record s { file = write_at s.file (offset_of page_id) page })
  unfolding write_page
  write_page-some s page_id page h = ground arith

  -- A page that write_page accepts is read back as it was written, and the header stays.
  pub read_page-write_page :
      (s : Storage) (page_id : ℕ) (page : Bytes) {s' : Storage}
      → write_page le s page_id page ≡ some s'
      → (read_page le s' page_id ≡ ok page) × (s'.header ≡ s.header)
  unfolding read_page
  read_page-write_page s page_id page {s'} h =
      let (full, same) = write_page-some s page_id page h in
      let rest = drop (offset_of page_id + length page) s.file in
      let found : read_exact page_size_const (page ++ rest) ≡ ok (page, rest) =
        subst (λ n. read_exact n (page ++ rest) ≡ ok (page, rest)) full
          (read_exact-append page rest) in
      (rw (same, drop-write_at s.file (offset_of page_id) page, found), ap (λ t. t.header) same)

  -- What a freed page holds.
  freed_link :
      (s : Storage) (page_id : ℕ)
      → 1 ≤ page_id
      → s.header.free_list_head < 2 ^ 32
      → le.read_u32 (drop (offset_of page_id) (free_page le s page_id).file)
        ≡ ok (
          s.header.free_list_head,
          drop (offset_of page_id + length (le.write_u32 s.header.free_list_head)) s.file,
        )
  unfolding free_page
  freed_link s page_id h bound =
      let link = le.write_u32 s.header.free_list_head in
      let linked : Storage = record s {
        file = write_at s.file (offset_of page_id) link;
        header = record s.header { free_list_head = page_id };
      } in
      rw (
        drop-sync linked (offset_of page_id) (page_start page_id h),
        drop-write_at s.file (offset_of page_id) link,
        le.read_u32-write_u32 s.header.free_list_head _ bound,
      )

  free_page_header :
      (s : Storage) (page_id : ℕ)
      → (free_page le s page_id).header ≡ record s.header { free_list_head = page_id }
  unfolding free_page
  free_page_header s page_id = refl

  allocate_free :
      (s : Storage) (next : ℕ) (rest : Bytes)
      → 1 ≤ s.header.free_list_head
      → le.read_u32 (drop (offset_of s.header.free_list_head) s.file) ≡ ok (next, rest)
      → allocate_page le s
        ≡ ok (
          sync_header le (record s { header = record s.header { free_list_head = next } }),
          s.header.free_list_head,
        )
  unfolding allocate_page
  allocate_free s next rest h found =
      let used : (s.header.free_list_head == 0) ≡ false = ground arith in rw (used, found)

  sync_header_header : (s : Storage) → (sync_header le s).header ≡ s.header
  unfolding sync_header
  sync_header_header s = refl

  -- A page after page 0 that is freed is the page that the next allocation returns, with the
  -- header that was there before, for a free list head that is a u32.
  pub allocate_page-free_page :
      (s : Storage) (page_id : ℕ)
      → 1 ≤ page_id
      → s.header.free_list_head < 2 ^ 32
      → (s' : Storage) × (allocate_page le (free_page le s page_id) ≡ ok (s', page_id))
        × (s'.header ≡ s.header)
  allocate_page-free_page s page_id h bound =
      let freed = free_page le s page_id in
      let same = free_page_header s page_id in
      let now : freed.header.free_list_head ≡ page_id = ap (λ t. t.free_list_head) same in
      let link =
        subst
          (λ p.
            le.read_u32 (drop (offset_of p) freed.file)
            ≡ ok (
              s.header.free_list_head,
              drop (offset_of page_id + length (le.write_u32 s.header.free_list_head)) s.file,
            ))
          (sym now) (freed_link s page_id h bound) in
      let after : Storage = record freed {
        header = record freed.header { free_list_head = s.header.free_list_head };
      } in
      (
        sync_header le after,
        allocate_free freed s.header.free_list_head _ (subst (λ p. 1 ≤ p) (sym now) h) link
            ∙ ap (λ (p : ℕ). ok (sync_header le after, p)) now,
        sync_header_header after
            ∙ ap (λ (t : Header). record t { free_list_head = s.header.free_list_head }) same,
      )

  open_nonempty :
      (bytes : Bytes)
      → 1 ≤ length bytes
      → open_at le bytes ≡ (do
        (page, rest) ← read_exact page_size_const bytes
        header ← decode le page
        ok (record { file = bytes; header = header }))
  unfolding open_at
  open_nonempty [] h = absurd (omega arith)
  open_nonempty (b ∷ bytes) h = refl

  shifted_count_lt :
      (count : ℕ) (negative : Bool) (size : ℕ)
      → count < 2 ^ 32
      → shifted_count le count negative size < 2 ^ 32
  shifted_count_lt count true size h = omega arith
  shifted_count_lt count false size h = omega arith

  open-sync :
      (s : Storage) → InRange s.header → open_at le (sync_header le s).file ≡ ok (sync_header le s)
  unfolding sync_header
  open-sync s i =
      let page = encode le s.header in
      let rest = drop (length page) s.file in
      let file : write_at s.file 0 page ≡ page ++ rest = write_at_start s.file page in
      let found : read_exact page_size_const (page ++ rest) ≡ ok (page, rest) =
        subst (λ n. read_exact n (page ++ rest) ≡ ok (page, rest)) (length-encode le s.header)
          (read_exact-append page rest) in
      let long : 1 ≤ length (page ++ rest) =
        omega (arith, length-append page rest, length-encode le s.header) in
      rw file (open_nonempty (page ++ rest) long ∙ (rw (found, decode-encode le s.header i)))

  -- What freeing a page and counting documents leave in memory is what opening their file yields,
  -- for a header with fields of their types and a page number that is a u32.
  pub open_at_durable :
      (s : Storage) (page_id : ℕ) (negative : Bool) (size : ℕ)
      → InRange s.header
      → page_id < 2 ^ 32
      → (open_at le (free_page le s page_id).file ≡ ok (free_page le s page_id))
        × (open_at le (increment_doc_count le s negative size).file
            ≡ ok (increment_doc_count le s negative size))
  unfolding free_page increment_doc_count
  open_at_durable s page_id negative size i h =
      let linked : Storage = record s {
        file = write_at s.file (offset_of page_id) (le.write_u32 s.header.free_list_head);
        header = record s.header { free_list_head = page_id };
      } in
      let counted : Storage = record s {
        header = record s.header { doc_count = shifted_count le s.header.doc_count negative size };
      } in
      (
        open-sync linked (record {
          magic_ok = i.magic_ok;
          version_lt = i.version_lt;
          page_size_lt = i.page_size_lt;
          num_pages_lt = i.num_pages_lt;
          free_list_head_lt = h;
          doc_count_lt = i.doc_count_lt;
        }),
        open-sync counted (record {
          magic_ok = i.magic_ok;
          version_lt = i.version_lt;
          page_size_lt = i.page_size_lt;
          num_pages_lt = i.num_pages_lt;
          free_list_head_lt = i.free_list_head_lt;
          doc_count_lt = shifted_count_lt s.header.doc_count negative size i.doc_count_lt;
        }),
      )

  -- The header is in range, and opening the file gives the storage.
  pub record Sound (s : Storage) : Type 0 where
    pub range : InRange s.header
    pub opens : open_at le s.file ≡ ok s

  pub increment_doc_count-Sound :
      (s : Storage) (negative : Bool) (size : ℕ)
      → Sound s
      → Sound (increment_doc_count le s negative size)
  unfolding increment_doc_count sync_header
  increment_doc_count-Sound s negative size sound = record {
    range = record {
      magic_ok = sound.range.magic_ok;
      version_lt = sound.range.version_lt;
      page_size_lt = sound.range.page_size_lt;
      num_pages_lt = sound.range.num_pages_lt;
      free_list_head_lt = sound.range.free_list_head_lt;
      doc_count_lt = shifted_count_lt s.header.doc_count negative size sound.range.doc_count_lt;
    };
    opens = (open_at_durable s 0 negative size sound.range (omega arith)).1;
  }

  -- The storage of a new file.
  abbrev pub new_storage : Storage
  new_storage = record { file = write_at [] 0 (encode le new_header); header = new_header }

  new_header-InRange : InRange new_header
  unfolding new_header
  new_header-InRange = record {
    magic_ok = refl;
    version_lt = omega arith;
    page_size_lt = omega arith;
    num_pages_lt = omega arith;
    free_list_head_lt = omega arith;
    doc_count_lt = omega arith;
  }

  pub new_storage-Sound : Sound new_storage
  unfolding sync_header
  new_storage-Sound = record {
    range = new_header-InRange;
    opens = open-sync (record { file = []; header = new_header }) new_header-InRange;
  }
