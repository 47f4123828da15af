-- ===== src/Event/Tests.antt =====
-- Events with their numbers stored least byte first.
mod Bytes
use knowledge_base.Base.{
  ℕ, suc, ◌+◌, ◌==◌, Bool, true, false, none, some, List, [], ◌∷◌, ◌++◌, ◌%◌, ◌^◌, length, ◌≡◌,
  refl, arith,
}
use knowledge_base.Event.{LogEvent, write, write_rotate, write_intvar, write_rand, write_xid}
use knowledge_base.Event.Tests.Bytes.{calls, reader, size_laws, checksum_laws, reader_laws}
use knowledge_base.Event.Framed.{write-Framed}
use knowledge_base.Event.Layout.{keep_all, event_bytes}
use knowledge_base.Event.Announced.{Announced, events-Announced}
use knowledge_base.Event.Context.{TransactionContext, get_context_size, write_context}
use knowledge_base.Event.Gtid.{
  GtidLogEvent, set_trx_length_by_cache_size, with_length_field, event_checksums,
  write_body_to_memory, write_post_header_to_memory, write_gtid, get_data_size,
}
use knowledge_base.Event.Gtid.Sizes.{transaction_length-Whole}
use knowledge_base.Event.Gtid.Fields.{read_body, read_body-write_body_to_memory}

-- An event of type 3 with a checksum, at position 4 of the log and marked as in use.
abbrev event : LogEvent
event = record {
  timestamp = 7;
  type_code = 3;
  server_id = 1;
  data_written = 0;
  log_pos = 4;
  flags = 1;
  has_checksum = true;
  crc = 0;
}

abbrev sixteen : List ℕ
sixteen = 1 ∷ 2 ∷ 3 ∷ 4 ∷ 5 ∷ 6 ∷ 7 ∷ 8 ∷ 9 ∷ 10 ∷ 11 ∷ 12 ∷ 13 ∷ 14 ∷ 15 ∷ 16 ∷ []

-- A transaction of another server, whose length is not known yet.
abbrev gtid : GtidLogEvent
gtid = record {
  may_have_sbr_stmts = true;
  sid = sixteen;
  gno = 300;
  last_committed = 4;
  sequence_number = 5;
  immediate_commit_timestamp = 1000;
  original_commit_timestamp = 900;
  transaction_length = 0;
  immediate_server_version = 80020;
  original_server_version = 80020;
}

-- Two rows written, one read.
abbrev context : TransactionContext
context = record {
  server_uuid = sixteen;
  thread_id = 12;
  gtid_specified = 0;
  snapshot_version = 0 ∷ 0 ∷ [];
  write_set = (1 ∷ 2 ∷ []) ∷ (3 ∷ []) ∷ [];
  read_set = (4 ∷ []) ∷ [];
}

write-Framed_example :
    let body : List ℕ = 10 ∷ 20 ∷ 30 ∷ [] in
    (e' : LogEvent) × (write calls keep_all 3 ((10 ∷ []) ∷ (20 ∷ 30 ∷ []) ∷ []) (event, 9 ∷ [])
      ≡ some (e', (9 ∷ []) ++ event_bytes calls event body))
    × (length (event_bytes calls event body) ≡ 26)
    × (e'.data_written ≡ 26)
    × (e'.log_pos ≡ 30)
    × (e'.flags ≡ 0)
write-Framed_example =
    write-Framed calls checksum_laws size_laws ((10 ∷ []) ∷ (20 ∷ 30 ∷ []) ∷ []) event (9 ∷ [])

events-Announced_example :
    Announced 10 [] event (write_rotate calls keep_all 4 (98 ∷ 49 ∷ []) (event, []))
    × Announced 9 [] event (write_intvar calls keep_all 2 40 (event, []))
    × Announced 16 [] event (write_rand calls keep_all 5 6 (event, []))
    × Announced 8 [] event (write_xid calls keep_all 77 (event, []))
    × Announced (get_data_size calls gtid) [] event (write_gtid calls keep_all gtid (event, []))
    × Announced
        (get_context_size context)
        []
        event
        (write_context calls keep_all context (event, []))
events-Announced_example =
    events-Announced calls checksum_laws size_laws event [] 4 (98 ∷ 49 ∷ []) 2 40 5 6 77 gtid
      context refl (omega arith, (omega arith, tt)) ((omega arith), tt)

-- A cache of 155 bytes in three events: 250 bytes without the field of the length, which takes three.
transaction_length-Whole_example :
    let e' = set_trx_length_by_cache_size calls 155 true 3 gtid in
    e'.transaction_length
    ≡ 155 + 16 + 19 + length (write_post_header_to_memory calls e' ++ write_body_to_memory calls e')
transaction_length-Whole_example =
    transaction_length-Whole calls size_laws 155 true 3 gtid refl (omega arith) (omega arith)

set_trx_length_by_cache_size_example :
    (set_trx_length_by_cache_size calls 155 true 3 gtid).transaction_length ≡ 253
unfolding set_trx_length_by_cache_size with_length_field event_checksums
set_trx_length_by_cache_size_example = refl

read_body-write_body_to_memory_example :
    read_body calls reader reader_laws (write_body_to_memory calls gtid ++ (5 ∷ []))
    ≡ (((1000, 900), 0, (80020, 80020)), 5 ∷ [])
read_body-write_body_to_memory_example =
    read_body-write_body_to_memory calls reader reader_laws gtid (5 ∷ []) (omega arith)
      (omega arith) (omega arith) (omega arith) (omega arith)

-- With 2^30 events the product of their checksums is 0 in an int.
event_checksums_example : event_checksums 1073741824 ≡ 0
unfolding event_checksums
event_checksums_example = refl
