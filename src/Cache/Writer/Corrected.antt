-- ===== src/Cache/Writer/Corrected.antt =====
-- Binlog_event_writer, given a whole event: an account of its own of the bytes that reach the file.
use mathlib.Core.Option
use knowledge_base.Base.{
  ℕ, ◌+◌, ◌%◌, ◌^◌, ◌<◌, ◌≡◌, refl, sym, ap, ◌∙◌, Bool, true, false, some, List, [], ◌∷◌, ◌++◌,
  length, length-append, if◌then◌else◌, arith,
}
use mathlib.Core.List.{append_assoc}
use knowledge_base.Cache.Writer.{
  header_length, event_len_offset, log_pos_offset, checksum_length, Env, Writer, update_header,
  write,
}
use knowledge_base.Cache.Writer.Parts.{Laws}
use knowledge_base.Cache.Writer.Whole.{IsBetween, code_bytes, code_moved, write-code_bytes}

-- The four bytes of a number.
abbrev pub word : {F : Type 0} → Env F → ℕ → List ℕ
word env n = env.int4store 0 n (0 ∷ 0 ∷ 0 ∷ 0 ∷ [])

-- int4store writes the four bytes over four others, wherever these stand.
pub record StoreLaws {F : Type 0} (env : Env F) : Type 0 where
  pub length-word : (n : ℕ) → length (word env n) ≡ 4
  pub store-over :
      (n : ℕ) (before old after : List ℕ)
      → length old ≡ 4
      → env.int4store (length before) n (before ++ (old ++ after)) ≡ before ++ (word env n ++ after)

-- A header: nine bytes up to the length, the length, the position, and two bytes of flags.
pub record Header : Type 0 where
  pub front : List ℕ
  pub event_len : List ℕ
  pub log_pos : List ℕ
  pub flags : List ℕ

abbrev pub header_bytes : Header → List ℕ
header_bytes h = h.front ++ (h.event_len ++ (h.log_pos ++ h.flags))

abbrev pub IsHeader : Header → Type 0
IsHeader h =
    (length h.front ≡ 9) × (length h.event_len ≡ 4) × (length h.log_pos ≡ 4) × (length h.flags ≡ 2)

length-header : (h : Header) → IsHeader h → length (header_bytes h) ≡ header_length
length-header h (a, b, c, d) =
    length-append h.front (h.event_len ++ (h.log_pos ++ h.flags))
    ∙ ap (λ n. length h.front + n)
        (length-append h.event_len (h.log_pos ++ h.flags)
          ∙ ap (λ n. length h.event_len + n) (length-append h.log_pos h.flags))
    ∙ omega (arith, a, b, c, d)

module _ {F : Type 0} (env : Env F) where
  -- The length of the event with its checksum, if there is one, and the position behind it.
  abbrev pub total_of : Writer F → List ℕ → ℕ
  total_of w body = header_length + length body + (if w.have_checksum then checksum_length else 0)

  abbrev pub end_of : Writer F → List ℕ → ℕ
  end_of w body = (w.end_log_pos + total_of w body) % 2 ^ 32

  -- The header with that position and, with a checksum, that length.
  abbrev pub corrected : Writer F → Header → List ℕ → List ℕ
  corrected w h body = header_bytes (record h {
    event_len = if w.have_checksum then word env (total_of w body % 2 ^ 32) else h.event_len;
    log_pos = word env (end_of w body);
  })

  abbrev pub event_bytes : Writer F → Header → List ℕ → List ℕ
  event_bytes w h body =
      corrected w h body
      ++ (body
          ++ (if w.have_checksum
              then word env (env.my_checksum w.initial_checksum (corrected w h body ++ body))
              else []))

  abbrev pub moved_to : Writer F → List ℕ → F → Writer F
  moved_to w body f = record w { file = f; end_log_pos = end_of w body }

  moved :
      (b : Bool) (start len : ℕ)
      → (if b then ((start + len) % 2 ^ 32 + checksum_length) % 2 ^ 32 else (start + len) % 2 ^ 32)
        ≡ (start + (len + (if b then checksum_length else 0))) % 2 ^ 32
  moved true start len = omega arith
  moved false start len = omega arith

  size_field :
      (b : Bool) (len size : ℕ) (old : List ℕ)
      → len ≡ size
      → (if b then word env ((len + checksum_length) % 2 ^ 32) else old)
        ≡ (if b then word env ((size + (if b then checksum_length else 0)) % 2 ^ 32) else old)
  size_field true len size old e = ap (λ (n : ℕ). word env ((n + checksum_length) % 2 ^ 32)) e
  size_field false len size old e = refl

  module _ (stores : StoreLaws env) where
    -- The position is stored behind whatever stands as the length.
    position_stored :
        (n : ℕ) (front size pos flags : List ℕ)
        → length front ≡ 9
        → length size ≡ 4
        → length pos ≡ 4
        → env.int4store log_pos_offset n (front ++ (size ++ (pos ++ flags)))
          ≡ front ++ (size ++ (word env n ++ flags))
    position_stored n front size pos flags a b c =
        let offset : length (front ++ size) ≡ log_pos_offset =
          length-append front size ∙ omega (arith, a, b) in
        ap (λ (bytes : List ℕ). env.int4store log_pos_offset n bytes)
          (sym (append_assoc front size (pos ++ flags)))
        ∙ ap (λ (at : ℕ). env.int4store at n ((front ++ size) ++ (pos ++ flags))) (sym offset)
        ∙ stores.store-over n (front ++ size) pos flags c
        ∙ append_assoc front size (word env n ++ flags)

    both_stored :
        (b : Bool) (size n : ℕ) (h : Header)
        → IsHeader h
        → env.int4store log_pos_offset n
            (if b then env.int4store event_len_offset size (header_bytes h) else header_bytes h)
          ≡ header_bytes (record h {
            event_len = if b then word env size else h.event_len;
            log_pos = word env n;
          })
    both_stored true size n h (a, b, c, d) =
        ap (λ (bytes : List ℕ). env.int4store log_pos_offset n bytes)
          (ap (λ (at : ℕ). env.int4store at size (header_bytes h)) (sym a)
            ∙ stores.store-over size h.front h.event_len (h.log_pos ++ h.flags) b)
        ∙ position_stored n h.front (word env size) h.log_pos h.flags a (stores.length-word size) c
    both_stored false size n h (a, b, c, d) =
        position_stored n h.front h.event_len h.log_pos h.flags a b c

    -- What the code makes of the header and of the position.
    update_header-end_of :
        (w : Writer F) (h : Header) (body : List ℕ)
        → env.uint4korr event_len_offset (header_bytes h) ≡ header_length + length body
        → (update_header env (record w { header = header_bytes h })).end_log_pos ≡ end_of w body
    unfolding update_header
    update_header-end_of w h body sized =
        moved w.have_checksum w.end_log_pos _
        ∙ ap
            (λ (len : ℕ).
              (w.end_log_pos + (len + (if w.have_checksum then checksum_length else 0))) % 2 ^ 32)
            sized

    update_header-corrected :
        (w : Writer F) (h : Header) (body : List ℕ)
        → IsHeader h
        → env.uint4korr event_len_offset (header_bytes h) ≡ header_length + length body
        → (update_header env (record w { header = header_bytes h })).header ≡ corrected w h body
    unfolding update_header
    update_header-corrected w h body is_header sized =
        let len = env.uint4korr event_len_offset (header_bytes h) in
        both_stored w.have_checksum ((len + checksum_length) % 2 ^ 32) _ h is_header
        ∙ ap
            (λ (size : List ℕ). header_bytes (record h {
              event_len = size;
              log_pos =
                  word env (update_header env (record w { header = header_bytes h })).end_log_pos;
            }))
            (size_field w.have_checksum len (header_length + length body) h.event_len sized)
        ∙ ap
            (λ (n : ℕ). header_bytes (record h {
              event_len =
                  if w.have_checksum then word env (total_of w body % 2 ^ 32) else h.event_len;
              log_pos = word env n;
            }))
            (update_header-end_of w h body sized)

    module _ (laws : Laws env) where
      summed :
          (b : Bool) (c : ℕ) (header body : List ℕ)
          → (if b
              then word env (
                  if b
                  then env.my_checksum (if b then env.my_checksum c header else c) body
                  else (if b then env.my_checksum c header else c))
              else [])
            ≡ (if b then word env (env.my_checksum c (header ++ body)) else [])
      summed true c header body = ap (word env) (sym (laws.checksum-append c header body))
      summed false c header body = refl

      code_bytes-event_bytes :
          (w : Writer F) (h : Header) (body : List ℕ)
          → IsBetween w
          → IsHeader h
          → env.uint4korr event_len_offset (header_bytes h) ≡ header_length + length body
          → code_bytes env w (header_bytes h) body ≡ event_bytes w h body
      unfolding update_header
      code_bytes-event_bytes w h body (_, _, fresh) is_header sized =
          let header = (update_header env (record w { header = header_bytes h })).header in
          ap (λ (tail : List ℕ). header ++ (body ++ tail))
            (summed w.have_checksum w.checksum header body)
          ∙ ap
              (λ (c : ℕ).
                header
                ++ (body
                    ++ (if w.have_checksum
                        then word env (env.my_checksum c (header ++ body))
                        else [])))
              fresh
          ∙ ap
              (λ (bytes : List ℕ).
                bytes
                ++ (body
                    ++ (if w.have_checksum
                        then word env (env.my_checksum w.initial_checksum (bytes ++ body))
                        else [])))
              (update_header-corrected w h body is_header sized)

      -- Between two events, the writer that is given a whole event, a header with the true length and a
      -- body that is not empty, of fewer than 2^32 bytes, ends. What it writes is the header, the body
      -- and, if checksums are on, the four bytes of the checksum of both. In the header the position is
      -- that behind all these bytes, with checksums the length is that of all of them, and the rest is as
      -- it was given. The writer is then between two events again, at that position, unless the file
      -- reports an error.
      pub write_whole :
          (w : Writer F) (h : Header) (body : List ℕ)
          → IsBetween w
          → IsHeader h
          → 0 < length body
          → env.uint4korr event_len_offset (header_bytes h) ≡ header_length + length body
          → header_length + length body < 2 ^ 32
          → write env w (header_bytes h ++ body)
            ≡ some (Option.map (moved_to w body) (env.write w.file (event_bytes w h body)))
      write_whole w h body between is_header some_body sized small =
          write-code_bytes env laws w (header_bytes h) body between (length-header h is_header)
            some_body sized small
          ∙ ap
              (λ (bytes : List ℕ).
                some (Option.map (code_moved env w (header_bytes h)) (env.write w.file bytes)))
              (code_bytes-event_bytes w h body between is_header sized)
          ∙ ap
              (λ (n : ℕ). some (
                Option.map (λ (f : F). record w { file = f; end_log_pos = n })
                  (env.write w.file (event_bytes w h body))))
              (update_header-end_of w h body sized)
