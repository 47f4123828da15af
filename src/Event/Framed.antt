-- ===== src/Event/Framed.antt =====
-- Log_event::write: the bytes of an event, as a whole.
use mathlib.Core.List.{append-nil, append_assoc}
use mathlib.Core.Option
use knowledge_base.Base.{
  ℕ, ◌+◌, ◌*◌, ◌/◌, Bool, true, false, ◌&&◌, Option, some, List, [], ◌∷◌, ◌++◌, length,
  length-append, if◌then◌else◌, ◌≡◌, refl, sym, ap, ◌∙◌, arith,
}
use knowledge_base.Event.{
  Calls, LogEvent, header_length, checksum_length, write_header_to_memory, measured, cleared,
  header_sent, crc_after, is_in_use, not_in_use, write_header, wrapper_my_b_safe_write,
  write_footer, write_parts, write,
}
use knowledge_base.Event.Gtid.Sizes.{SizeLaws}
use knowledge_base.Event.Layout.{
  ChecksumLaws, joined, keep_all, added, lowest_cleared, placed, kept_flags, footer_bytes,
  header_bytes, total_of, end_of, event_bytes,
}

module _ (calls : Calls) (sums : ChecksumLaws calls) where
  crc_after-append :
      (b : Bool) (c : ℕ) (xs ys : List ℕ)
      → crc_after calls b (crc_after calls b c xs) ys ≡ crc_after calls b c (xs ++ ys)
  unfolding crc_after
  crc_after-append true c xs ys = sym (sums.checksum-append c xs ys)
  crc_after-append false c xs ys = refl

  crc_after-nil : (b : Bool) (c : ℕ) → crc_after calls b c [] ≡ c
  unfolding crc_after
  crc_after-nil true c = sums.checksum-nil c
  crc_after-nil false c = refl

  abbrev summed : LogEvent → List ℕ → LogEvent
  summed e bytes = record e { crc = crc_after calls e.has_checksum e.crc bytes }

  wrapper_my_b_safe_write-summed :
      (part : List ℕ) (e : LogEvent) (o : List ℕ)
      → wrapper_my_b_safe_write calls keep_all part (e, o) ≡ some (summed e part, o ++ part)
  unfolding wrapper_my_b_safe_write
  wrapper_my_b_safe_write-summed [] e o =
      ap (λ (c : ℕ). some (record e { crc = c }, o)) (sym (crc_after-nil e.has_checksum e.crc))
      ∙ ap (λ (o' : List ℕ). some (summed e [], o')) (sym (append-nil o))
  wrapper_my_b_safe_write-summed (b ∷ bytes) e o = refl

  write_parts-summed :
      (parts : List (List ℕ)) (e : LogEvent) (o : List ℕ)
      → write_parts calls keep_all parts (e, o) ≡ some (summed e (joined parts), o ++ joined parts)
  unfolding write_parts Option.bind
  write_parts-summed [] e o =
      ap (λ (c : ℕ). some (record e { crc = c }, o)) (sym (crc_after-nil e.has_checksum e.crc))
      ∙ ap (λ (o' : List ℕ). some (summed e [], o')) (sym (append-nil o))
  write_parts-summed (part ∷ parts) e o =
      ap
        (λ (r : Option (LogEvent × List ℕ)).
          Option.bind r (λ (s : LogEvent × List ℕ). write_parts calls keep_all parts s))
        (wrapper_my_b_safe_write-summed part e o)
      ∙ write_parts-summed parts (summed e part) (o ++ part)
      ∙ ap (λ (c : ℕ). some (record e { crc = c }, o ++ part ++ joined parts))
          (crc_after-append e.has_checksum e.crc part (joined parts))
      ∙ ap (λ (o' : List ℕ). some (summed e (part ++ joined parts), o'))
          (append_assoc o part (joined parts))

  footed :
      (b : Bool) (e : LogEvent) (o : List ℕ) (c : ℕ)
      → if◌then◌else◌ {A = Option (LogEvent × List ℕ)} b
          (some (e, o ++ calls.int_store 4 c))
          (some (e, o))
        ≡ some (e, o ++ (if b then calls.int_store 4 c else []))
  footed true e o c = refl
  footed false e o c = ap (λ (o' : List ℕ). some (e, o')) (sym (append-nil o))

  write_footer-footed :
      (e : LogEvent) (o : List ℕ)
      → write_footer calls keep_all (e, o)
        ≡ some (e, o ++ (if e.has_checksum then calls.int_store 4 e.crc else []))
  unfolding write_footer
  write_footer-footed e o = footed e.has_checksum e o e.crc

  -- The footer's checksum in one.
  footer_whole :
      (b : Bool) (z c : ℕ) (header body : List ℕ)
      → (if b
          then calls.int_store 4
              (crc_after calls b (calls.checksum_crc32 (if b then z else c) header) body)
          else [])
        ≡ (if b then calls.int_store 4 (calls.checksum_crc32 z (header ++ body)) else [])
  unfolding crc_after
  footer_whole true z c header body =
      ap (calls.int_store 4) (sym (sums.checksum-append z header body))
  footer_whole false z c header body = refl

  -- What the code's own functions make of an event.
  code_bytes : ℕ → List ℕ → LogEvent → List ℕ
  code_bytes data_size body e =
      let m = measured calls data_size e in
      write_header_to_memory calls m
      ++ body
      ++ footer_bytes calls e.has_checksum (write_header_to_memory calls (cleared calls m) ++ body)

  abbrev sent : ℕ → List ℕ → LogEvent → LogEvent
  sent data_size body e = summed (header_sent calls (measured calls data_size e)) body

  write-code_bytes :
      (data_size : ℕ) (parts : List (List ℕ)) (e : LogEvent) (o : List ℕ)
      → write calls keep_all data_size parts (e, o)
        ≡ some (sent data_size (joined parts) e, o ++ code_bytes data_size (joined parts) e)
  unfolding write write_header header_sent measured cleared code_bytes Option.bind
  write-code_bytes data_size parts e o =
      let m = measured calls data_size e in
      let header = write_header_to_memory calls m in
      let s = sent data_size (joined parts) e in
      let footer =
        footer_bytes calls e.has_checksum
          (write_header_to_memory calls (cleared calls m) ++ joined parts) in
      ap (λ (r : Option (LogEvent × List ℕ)). Option.bind r (write_footer calls keep_all))
        (write_parts-summed parts (header_sent calls m) (o ++ header))
      ∙ write_footer-footed s (o ++ header ++ joined parts)
      ∙ ap (λ (foot : List ℕ). some (s, o ++ header ++ joined parts ++ foot))
          (footer_whole e.has_checksum (calls.checksum_crc32 0 []) e.crc
            (write_header_to_memory calls (cleared calls m)) (joined parts))
      ∙ ap (λ (o' : List ℕ). some (s, o'))
          (ap (λ (x : List ℕ). x ++ footer) (append_assoc o header (joined parts))
            ∙ append_assoc o (header ++ joined parts) footer)

  end_of-measured :
      (e : LogEvent) (body : List ℕ)
      → (measured calls (length body) e).log_pos ≡ end_of calls e body
  unfolding measured
  end_of-measured e body =
      placed e.log_pos _ (total_of calls e body)
        (added e.has_checksum (length body + header_length))

  flagged :
      (b : Bool) (flags : ℕ) (covered : ℕ → List ℕ)
      → footer_bytes calls b (covered (if b && is_in_use flags then not_in_use flags else flags))
        ≡ footer_bytes calls b (covered (flags / 2 * 2))
  flagged true flags covered =
      ap (λ (n : ℕ). footer_bytes calls true (covered n)) (lowest_cleared flags)
  flagged false flags covered = refl

  code_bytes-event_bytes :
      (e : LogEvent) (body : List ℕ) → code_bytes (length body) body e ≡ event_bytes calls e body
  unfolding code_bytes measured cleared write_header_to_memory
  code_bytes-event_bytes e body =
      let m = measured calls (length body) e in
      let layout : ℕ → ℕ → List ℕ = λ total end_pos.
        header_bytes calls e total end_pos e.flags
        ++ body
        ++ footer_bytes calls e.has_checksum
            (header_bytes calls e total end_pos (e.flags / 2 * 2) ++ body) in
      ap (λ (foot : List ℕ). write_header_to_memory calls m ++ body ++ foot)
        (flagged e.has_checksum e.flags
          (λ (flags : ℕ). header_bytes calls e m.data_written m.log_pos flags ++ body))
      ∙ ap (λ (total : ℕ). layout total m.log_pos)
          (added e.has_checksum (length body + header_length))
      ∙ ap (layout (total_of calls e body)) (end_of-measured e body)

  module _ (laws : SizeLaws calls) where
    length-write_header_to_memory :
        (e : LogEvent) → length (write_header_to_memory calls e) ≡ header_length
    unfolding write_header_to_memory
    length-write_header_to_memory e = simp (length-append {A = ℕ}, laws.length-int_store) refl

    length-footer :
        (b : Bool) (covered : List ℕ)
        → length (footer_bytes calls b covered) ≡ (if b then checksum_length else 0)
    length-footer true covered = laws.length-int_store 4 _
    length-footer false covered = refl

    total_length :
        (b : Bool) (h f : ℕ) (n : ℕ)
        → h ≡ header_length
        → f ≡ (if b then checksum_length else 0)
        → h + n + f ≡ (if b then n + header_length + checksum_length else n + header_length)
    total_length true h f n e1 e2 = omega (arith, e1, e2)
    total_length false h f n e1 e2 = omega (arith, e1, e2)

    length-code_bytes :
        (body : List ℕ) (e : LogEvent)
        → length (code_bytes (length body) body e) ≡ (measured calls (length body) e).data_written
    unfolding code_bytes measured
    length-code_bytes body e =
        let m = measured calls (length body) e in
        let header = write_header_to_memory calls m in
        let footer =
          footer_bytes calls e.has_checksum
            (write_header_to_memory calls (cleared calls m) ++ body) in
        length-append (header ++ body) footer
        ∙ ap (λ n. n + length footer) (length-append header body)
        ∙ total_length e.has_checksum (length header) (length footer) (length body)
            (length-write_header_to_memory m)
            (length-footer e.has_checksum (write_header_to_memory calls (cleared calls m) ++ body))

    -- On a stream that takes every byte, an event whose announced data size is that of its parts is
    -- written as its header, its parts and, with a checksum, the checksum over the header and the parts.
    -- The header holds the time, the type and the server of the event, the length of all these bytes, the
    -- position behind them, if the event has a position and else 0, and its flags; the checksum is of the
    -- header with the in-use flag cleared. The event afterwards has this length and position, and with a
    -- checksum this flag is cleared in it.
    pub write-Framed :
        (parts : List (List ℕ)) (e : LogEvent) (o : List ℕ)
        → let body = joined parts in
          (e' : LogEvent) × (write calls keep_all (length body) parts (e, o)
            ≡ some (e', o ++ event_bytes calls e body))
          × (length (event_bytes calls e body) ≡ total_of calls e body)
          × (e'.data_written ≡ total_of calls e body)
          × (e'.log_pos ≡ end_of calls e body)
          × (e'.flags ≡ (if e.has_checksum then e.flags / 2 * 2 else e.flags))
    unfolding header_sent measured cleared
    write-Framed parts e o =
        let body = joined parts in
        let same = code_bytes-event_bytes e body in
        let sized = added e.has_checksum (length body + header_length) in
        (
          sent (length body) body e,
          write-code_bytes (length body) parts e o
              ∙ ap (λ (bytes : List ℕ). some (sent (length body) body e, o ++ bytes)) same,
          ap length (sym same) ∙ length-code_bytes body e ∙ sized,
          sized,
          end_of-measured e body,
          kept_flags e.has_checksum e.flags,
        )
