-- ===== src/Event/Announced.antt =====
-- The events of log_event.cc whose data size is written out in it: the size that their headers announce.
use mathlib.Core.List.{append-nil}
use knowledge_base.Base.{
  ℕ, ◌+◌, Option, some, List, [], ◌∷◌, ◌++◌, length, length-append, if◌then◌else◌, ◌≡◌, refl, sym,
  ap, ◌∙◌,
}
use knowledge_base.Event.{
  Calls, LogEvent, header_length, checksum_length, write, write_rotate, write_intvar, write_rand,
  write_xid,
}
use knowledge_base.Event.Framed.{write-Framed}
use knowledge_base.Event.Layout.{ChecksumLaws, joined, keep_all}
use knowledge_base.Event.Context.{
  TransactionContext, get_context_size, context_header, write_data_set, write_context,
}
use knowledge_base.Event.Context.Sizes.{AreShort, length-context}
use knowledge_base.Event.Gtid.{
  GtidLogEvent, get_data_size, write_gtid, write_post_header_to_memory, write_body_to_memory,
}
use knowledge_base.Event.Gtid.Sizes.{SizeLaws, length-written}

-- The event was written in whole behind the stream, and its header's length is that of its bytes: the
-- data, the header, and a checksum if there is one.
pub Announced : ℕ → List ℕ → LogEvent → Option (LogEvent × List ℕ) → Type 0
Announced data_size o e r =
    (e' : LogEvent) × (bytes : List ℕ) × (r ≡ some (e', o ++ bytes))
    × (length bytes ≡ e'.data_written)
    × (e'.data_written
        ≡ data_size + header_length + (if e.has_checksum then checksum_length else 0))

module _ (calls : Calls) (sums : ChecksumLaws calls) (laws : SizeLaws calls) where
  write-Announced :
      (parts : List (List ℕ)) (e : LogEvent) (o : List ℕ)
      → Announced
          (length (joined parts))
          o
          e
          (write calls keep_all (length (joined parts)) parts (e, o))
  unfolding Announced
  write-Announced parts e o =
      let (e', written, whole, size, _, _) = write-Framed calls sums laws parts e o in
      (e', _, written, whole ∙ sym size, size)

  sized :
      (n : ℕ) (parts : List (List ℕ)) (e : LogEvent) (o : List ℕ)
      → length (joined parts) ≡ n
      → Announced n o e (write calls keep_all n parts (e, o))
  sized n parts e o size = rw (sym size) (write-Announced parts e o)

  -- A rotation, an INSERT_ID or LAST_INSERT_ID, the seeds of RAND, an XID, a GTID with a SID of 16
  -- bytes and the context of a transaction whose hashes are shorter than 2 ^ 16 bytes, each with any
  -- values, are written in whole by their write functions on a stream that takes every byte, and the
  -- data size that each function computes beforehand is exactly what it writes, so that the length in
  -- the header is the length of the event.
  pub events-Announced :
      (e : LogEvent) (o : List ℕ) (pos : ℕ) (new_log_ident : List ℕ) (type val seed1 seed2 xid : ℕ)
      (gtid : GtidLogEvent) (c : TransactionContext)
      → length gtid.sid ≡ 16
      → AreShort c.write_set
      → AreShort c.read_set
      → Announced
          (8 + length new_log_ident)
          o
          e
          (write_rotate calls keep_all pos new_log_ident (e, o))
        × Announced 9 o e (write_intvar calls keep_all type val (e, o))
        × Announced 16 o e (write_rand calls keep_all seed1 seed2 (e, o))
        × Announced 8 o e (write_xid calls keep_all xid (e, o))
        × Announced (get_data_size calls gtid) o e (write_gtid calls keep_all gtid (e, o))
        × Announced (get_context_size c) o e (write_context calls keep_all c (e, o))
  unfolding write_rotate write_intvar write_rand write_xid write_gtid write_context
  events-Announced e o pos new_log_ident type val seed1 seed2 xid gtid c sid ws rs = (
    sized (8 + length new_log_ident) (calls.int_store 8 pos ∷ new_log_ident ∷ []) e o
        (simp (length-append {A = ℕ}, append-nil, laws.length-int_store) refl),
    sized 9 ((type ∷ calls.int_store 8 val) ∷ []) e o
        (simp (length-append {A = ℕ}, laws.length-int_store) refl),
    sized 16 ((calls.int_store 8 seed1 ++ calls.int_store 8 seed2) ∷ []) e o
        (simp (length-append {A = ℕ}, append-nil, laws.length-int_store) refl),
    sized 8 (calls.int_store 8 xid ∷ []) e o (simp (append-nil, laws.length-int_store) refl),
    sized (get_data_size calls gtid)
        (write_post_header_to_memory calls gtid ∷ write_body_to_memory calls gtid ∷ []) e o
        (ap (λ (body : List ℕ). length (write_post_header_to_memory calls gtid ++ body))
            (append-nil (write_body_to_memory calls gtid))
          ∙ length-written calls laws gtid sid),
    sized (get_context_size c)
        (context_header calls c
          ∷ c.server_uuid
          ∷ c.snapshot_version
          ∷ write_data_set calls c.write_set (write_data_set calls c.read_set []))
        e o (length-context calls laws c ws rs),
  )
