-- ===== src/Storage/Examples.antt =====
-- storage.rs on a small storage with one page behind the header.
use cassettedb.Prelude.{◌≡◌, refl, replicate, false, some, arith}
use cassettedb.Prelude.Errors.{ok}
use cassettedb.Bytes.{Bytes, write_at}
use cassettedb.Bytes.Little.{little}
use cassettedb.Storage.Header.{Header, InRange, magic_bytes}
use cassettedb.Storage.Pages.{Storage, free_page, write_page, increment_doc_count, open_at}
use cassettedb.Storage.Durability.{open_at_durable}

abbrev small_header : Header
small_header = record {
  magic = magic_bytes;
  version = 1;
  page_size = 4096;
  num_pages = 3;
  free_list_head = 2;
  doc_count = 7;
}

small_header-InRange : InRange small_header
small_header-InRange = record {
  magic_ok = refl;
  version_lt = omega arith;
  page_size_lt = omega arith;
  num_pages_lt = omega arith;
  free_list_head_lt = omega arith;
  doc_count_lt = omega arith;
}

abbrev small : Storage
small = record { file = replicate 20 0; header = small_header }

abbrev ones : Bytes
ones = replicate 4096 1

open_at_durable_example :
    (open_at little (free_page little small 1).file ≡ ok (free_page little small 1))
    × (open_at little (increment_doc_count little small false 3).file
        ≡ ok (increment_doc_count little small false 3))
open_at_durable_example = open_at_durable little small 1 false 3 small_header-InRange (omega arith)

write_run :
    write_page little small 1 ones ≡ some (record small { file = write_at small.file 4096 ones })
unfolding write_page
write_run = refl
