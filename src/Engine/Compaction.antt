-- ===== src/Engine/Compaction.antt =====
-- engine.rs: compaction ends, and what it leaves.
use cassettedb.Prelude.{
  ℕ, zero, suc, ◌+◌, ◌^◌, ◌%◌, ◌<◌, ◌≡◌, refl, sym, ap, ◌∙◌, subst, List, [], ◌∷◌, length, All,
  take, drop, replicate, arith, Option, none, some, true, false, ltb,
}
use cassettedb.Prelude.Errors.{ok}
use cassettedb.Bytes.{Bytes, ByteOrder, resize, length-resize, write_at}
use cassettedb.Storage.Header.{Header, page_size_const}
use cassettedb.Storage.Pages.{Storage, allocate_page, read_page, write_page, offset_of, sync_header}
use cassettedb.Storage.Durability.{read_page-write_page}
use cassettedb.Wal.Records.{reset}
use cassettedb.Engine.Operations.{Services, Engine}
use cassettedb.Engine.Opening.{
  div_ceil, pages_of, usize_bytes, allocate_until, write_pages, reset_feeds, compact,
}

module _ (le : ByteOrder) where
  -- With an empty list of free pages a page is added at the end.
  allocate_page_end :
      (s : Storage)
      → s.header.free_list_head ≡ 0
      → (s' : Storage) × (allocate_page le s ≡ ok (s', s.header.num_pages))
        × (s'.header ≡ record s.header { num_pages = (s.header.num_pages + 1) % 2 ^ 32 })
  unfolding allocate_page sync_header
  allocate_page_end s free =
      let grown : Storage =
        sync_header le (record s {
          header = record s.header { num_pages = (s.header.num_pages + 1) % 2 ^ 32 };
        }) in
      let s' : Storage = record grown {
        file = write_at grown.file (offset_of s.header.num_pages) (replicate page_size_const 0);
      } in
      (s', rw free refl, refl)

  write_page-some :
      (s : Storage) (i : ℕ) (page : Bytes)
      → length page ≡ page_size_const
      → write_page le s i page ≡ some (record s { file = write_at s.file (offset_of i) page })
  unfolding write_page
  write_page-some s i page h = rw h

pages_of-length : (n : ℕ) (bytes : Bytes) → All (λ p. length p ≡ page_size_const) (pages_of n bytes)
pages_of-length zero bytes = tt
pages_of-length (suc n) [] = tt
pages_of-length (suc n) (b ∷ bytes) = (
  length-resize page_size_const (take page_size_const (b ∷ bytes)),
  pages_of-length n (drop page_size_const (b ∷ bytes)),
)

module _ {V C : Type 0} (svc : Services V C) where
  abbrev le : ByteOrder
  le = svc.codec.order

  allocate_until_ends :
      (n pages k : ℕ) (s : Storage)
      → s.header.free_list_head ≡ 0
      → s.header.num_pages + k ≡ pages
      → k < n
      → pages < 2 ^ 32
      → (s' : Storage) × (allocate_until svc n pages s ≡ some (s', ok tt))
        × (s'.header.num_pages ≡ pages)
  unfolding allocate_until
  allocate_until_ends zero pages k s free sum l fits = absurd (omega arith)
  allocate_until_ends (suc n) pages zero s free sum l fits =
      let full : ltb s.header.num_pages pages ≡ false = ground (arith, sum) in
      (s, rw full refl, omega (arith, sum))
  allocate_until_ends (suc n) pages (suc k) s free sum l fits =
      let short : ltb s.header.num_pages pages ≡ true = ground (arith, sum) in
      let (s', done, same) = allocate_page_end le s free in
      let (s'', rest, count) =
        allocate_until_ends n pages k s' (ap (λ (h : Header). h.free_list_head) same ∙ free)
          (omega (arith, ap (λ (h : Header). h.num_pages) same, sum, fits)) (omega arith) fits in
      (s'', rw (short, done, rest) refl, count)

  write_pages_header :
      (s : Storage) (i : ℕ) (pages : List Bytes)
      → All (λ p. length p ≡ page_size_const) pages
      → (s' : Storage) × (write_pages svc s i pages ≡ some s') × (s'.header ≡ s.header)
  unfolding write_pages
  write_pages_header s i [] h = (s, refl, refl)
  write_pages_header s i (p ∷ pages) (here, h) =
      let (s', done, same) =
        write_pages_header (record s { file = write_at s.file (offset_of i) p }) (suc i) pages h in
      (
        s',
        ap
              (λ o. elim o as (λ _. Option Storage) [
                | none ↦ none
                | some t ↦ write_pages svc t (suc i) pages
              ])
              (write_page-some le s i p here)
            ∙ done,
        same,
      )

  -- Let no page be free, and let the header count k pages fewer than one more than the encoding of
  -- all documents needs, which is below 2^32. With more fuel than k compact ends and succeeds: it
  -- keeps the documents, resets the log, and the header counts one page more than needed; the
  -- trailer with the length is read in the page after those that the header counts.
  pub compact_ends :
      (fuel k : ℕ) (e : Engine C) (payload : Bytes)
      → svc.docs_to_vec e.docs ≡ ok payload
      → e.storage.header.free_list_head ≡ 0
      → e.storage.header.num_pages + k ≡ div_ceil (length payload) page_size_const + 1
      → div_ceil (length payload) page_size_const + 1 < 2 ^ 32
      → k < fuel
      → (e' : Engine C) × (compact svc fuel e ≡ some (e', ok tt))
        × (e'.storage.header.num_pages ≡ div_ceil (length payload) page_size_const + 1)
        × (read_page svc.codec.order e'.storage e'.storage.header.num_pages
            ≡ ok (resize page_size_const (usize_bytes 8 (length payload))))
        × (e'.docs ≡ e.docs)
        × (e'.wal ≡ reset svc.codec e.wal)
  unfolding compact
  compact_ends fuel k e payload made free sum fits l =
      let needed : ℕ = div_ceil (length payload) page_size_const in
      let (s, allocated_lem, count) =
        allocate_until_ends fuel (needed + 1) k e.storage free sum l fits in
      let (s', written, same) =
        write_pages_header s 1 (pages_of (length payload) payload)
          (pages_of-length (length payload) payload) in
      let trailer = resize page_size_const (usize_bytes 8 (length payload)) in
      let last =
        write_page-some le s' (needed + 1) trailer
          (length-resize page_size_const (usize_bytes 8 (length payload))) in
      let e' : Engine C = record e {
        storage = record s' { file = write_at s'.file (offset_of (needed + 1)) trailer };
        wal = reset svc.codec e.wal;
        change_feed = reset_feeds svc e.change_feed;
      } in
      let counted : s'.header.num_pages ≡ needed + 1 =
        ap (λ (h : Header). h.num_pages) same ∙ count in
      (
        e',
        rw (made, allocated_lem, written, last) refl,
        counted,
        subst (λ i. read_page le e'.storage i ≡ ok trailer) (sym counted)
            (read_page-write_page le s' (needed + 1) trailer last).0,
        refl,
        refl,
      )
