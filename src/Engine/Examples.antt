-- ===== src/Engine/Examples.antt =====
-- engine.rs on three commands, with an encoding of documents that hold one text.
use cassettedb.Prelude.{
  true, ℕ, ◌+◌, ◌≡◌, ◌<◌, ◌^◌, refl, sym, ap, subst, ◌∙◌, List, [], ◌∷◌, ◌++◌, Option, none, some,
  String, arith, length, take, drop, take-append_length, drop-append_length,
}
use cassettedb.Prelude.Map
use cassettedb.Prelude.Map.{Map}
use cassettedb.Prelude.Errors.{Result, ok, err, serialization}
use cassettedb.Bytes.{Bytes, read_exact, resize}
use cassettedb.Bytes.Text.{text_bytes, text_of, text_of-text_bytes}
use cassettedb.Json.{exact_within, Value, text, array, object, null, boolean, number}
use cassettedb.Index.Inverted.{InvertedIndex}
use cassettedb.Wal.Records.{append_record, encode_raw, reset}
use cassettedb.Wal.Committed.{commit_record}
use cassettedb.Wal.Examples.{codec}
use cassettedb.Replication.Examples
use cassettedb.Engine.Operations.{Doc, is_exact, Services, Engine, insert, write_log}
use cassettedb.Engine.Opening.{open_engine, compact, div_ceil, usize_bytes}
use cassettedb.Engine.Compaction.{compact_ends}
use cassettedb.Storage.Header.{new_header, page_size_const}
use cassettedb.Storage.Pages.{read_page}
use cassettedb.Engine.Commands.{
  Command, insert_doc, update_doc, delete_doc, run_all, AllFit, AllNew,
}
use cassettedb.Engine.Recovery.{new_engine, reopened, run_all-open_engine}

abbrev doc_bytes : String → String → Bytes
doc_bytes id s = length (text_bytes id) ∷ (text_bytes id ++ text_bytes s)

abbrev pub text_doc : String → String → Doc
text_doc id s = record { id = id; content = text s; meta = [] }

abbrev fields_to_vec : String → Value → Map Value → Result Bytes
fields_to_vec id (text s) [] = ok (doc_bytes id s)
fields_to_vec id _ _ = err serialization

abbrev doc_to_vec : Doc → Result Bytes
doc_to_vec doc = fields_to_vec doc.id doc.content doc.meta

abbrev doc_from_slice : Bytes → Option Doc
doc_from_slice [] = none
doc_from_slice (n ∷ rest) = some (text_doc (text_of (take n rest)) (text_of (drop n rest)))

doc_from_slice-doc_bytes : (id s : String) → doc_from_slice (doc_bytes id s) ≡ some (text_doc id s)
doc_from_slice-doc_bytes id s =
    ap
      (λ (b : Bytes). some (
        text_doc (text_of b)
          (text_of (drop (length (text_bytes id)) (text_bytes id ++ text_bytes s)))))
      (take-append_length (text_bytes id) (text_bytes s))
    ∙ ap (λ (b : Bytes). some (text_doc (text_of (text_bytes id)) (text_of b)))
        (drop-append_length (text_bytes id) (text_bytes s))
    ∙ ap (λ (t : String). some (text_doc t (text_of (text_bytes s)))) (text_of-text_bytes id)
    ∙ ap (λ (t : String). some (text_doc id t)) (text_of-text_bytes s)

pub fields_from_slice_of :
    (id : String) (content : Value) (meta : Map Value) {bytes : Bytes}
    → fields_to_vec id content meta ≡ ok bytes
    → doc_from_slice bytes ≡ some (record { id = id; content = content; meta = meta })
fields_from_slice_of id (text s) [] {bytes} h =
    (let same : doc_bytes id s ≡ bytes = cc h in
      ap doc_from_slice (sym same) ∙ doc_from_slice-doc_bytes id s)
fields_from_slice_of id (text s) (m ∷ ms) h = cc h
fields_from_slice_of id null meta h = cc h
fields_from_slice_of id (boolean b) meta h = cc h
fields_from_slice_of id (number n) meta h = cc h
fields_from_slice_of id (array vs) meta h = cc h
fields_from_slice_of id (object fs) meta h = cc h

abbrev pub services : Services ℕ Unit
services = record {
  codec = codec;
  changes = Examples.codec;
  send = λ c r. some c;
  tokenize = λ s. s ∷ [];
  doc_to_vec = doc_to_vec;
  doc_from_slice = doc_from_slice;
  doc_from_slice-to_vec = λ doc exact h. fields_from_slice_of doc.id doc.content doc.meta h;
  docs_to_vec = λ docs. err serialization;
  docs_from_slice = λ bytes. none;
}

abbrev commands : List Command
commands = insert_doc (text_doc "a" "x") "" 0 ∷ update_doc "a" (text "y") 1 ∷ delete_doc "b" 2 ∷ []

abbrev pub new : Engine Unit
new = new_engine services none

abbrev one : Engine Unit
one = run_all services new (insert_doc (text_doc "a" "x") "" 0 ∷ [])

one_docs : one.docs ≡ ("a", text_doc "a" "x") ∷ []
unfolding insert write_log commit_record append_record Map.insert read_exact encode_raw
one_docs = refl

small_fits :
    (id s : String) {payload : Bytes}
    → ok (doc_bytes id s) ≡ ok payload
    → length (doc_bytes id s) < 2 ^ 32
    → length payload < 2 ^ 32
small_fits id s {payload} h k =
    (let same : doc_bytes id s ≡ payload = cc h in omega (arith, k, ap length same))

commands-AllFit : AllFit services new commands
unfolding Map.get exact_within
commands-AllFit = (
  (refl, λ payload h. (omega arith, small_fits "a" "x" h (omega arith))),
  (
    λ old found.
        (let got : ◌≡◌ {A = Option Doc} (some (text_doc "a" "x")) (some old) =
            ap (λ docs. Map.get docs "a") (sym one_docs) ∙ found in
          let same : text_doc "a" "x" ≡ old = cc got in
          (
            subst (λ (d : Doc). is_exact (record d { content = text "y" }) ≡ true) same refl,
            λ payload h.
                (let encoded : doc_to_vec (text_doc "a" "y") ≡ ok payload =
                    subst (λ (d : Doc). doc_to_vec (record d { content = text "y" }) ≡ ok payload)
                      (sym same) h in
                  (omega arith, small_fits "a" "y" encoded (omega arith))),
          )),
    ((omega arith, omega arith), tt),
  ),
)

run_all-open_engine_example :
    (ix : InvertedIndex) × (open_engine services
        (run_all services new commands).wal.file
        (run_all services new commands).storage.file
        none
      ≡ some (ok (reopened services (run_all services new commands) ix none)))
    × (AllNew services new commands → ix ≡ (run_all services new commands).index)
run_all-open_engine_example =
    run_all-open_engine services none commands none none commands-AllFit refl

-- The same with an encoding of all documents in one byte.
abbrev compacting : Services ℕ Unit
compacting = record services { docs_to_vec = λ docs. ok (1 ∷ []) }

new_free : new.storage.header.free_list_head ≡ 0
unfolding new_header
new_free = refl

new_pages : new.storage.header.num_pages + 1 ≡ div_ceil 1 page_size_const + 1
unfolding new_header
new_pages = refl

compact_ends_example :
    (e' : Engine Unit) × (compact compacting 2 new ≡ some (e', ok tt))
    × (e'.storage.header.num_pages ≡ div_ceil 1 page_size_const + 1)
    × (read_page compacting.codec.order e'.storage e'.storage.header.num_pages
        ≡ ok (resize page_size_const (usize_bytes 8 1)))
    × (e'.docs ≡ new.docs)
    × (e'.wal ≡ reset compacting.codec new.wal)
compact_ends_example =
    compact_ends compacting 2 1 new (1 ∷ []) refl new_free new_pages (omega arith) (omega arith)
