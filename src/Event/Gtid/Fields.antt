-- ===== src/Event/Gtid/Fields.antt =====
-- Gtid_log_event: a reader finds in the body what was written.
use knowledge_base.Base.{
  ℕ, ◌+◌, ◌-◌, ◌/◌, ◌^◌, ◌<◌, ◌==◌, ==_iff, false, not, List, ◌++◌, if◌then◌else◌, if_cases, ◌≡◌,
  refl, ap, ◌∙◌, arith,
}
use mathlib.Core.List.{append_assoc}
use native.Mathlib.Nat.{div-eq_of_lt, add-div_right}
use knowledge_base.Event.{Calls}
use knowledge_base.Event.Gtid.{
  GtidLogEvent, set_bit, clear_bit, store_flagged, write_body_to_memory,
}

-- A reader of the calls' encodings: each gives the number at the front of the bytes and the bytes
-- behind it.
pub record Reader : Type 0 where
  pub int_korr : ℕ → List ℕ → ℕ × List ℕ
  pub net_field_length : List ℕ → ℕ × List ℕ

-- The reader inverts the calls, on numbers that fit.
pub record ReaderLaws (calls : Calls) (reader : Reader) : Type 0 where
  pub int_korr-int_store :
      (width n : ℕ) (rest : List ℕ)
      → n < 256 ^ width
      → reader.int_korr width (calls.int_store width n ++ rest) ≡ (n, rest)
  pub net_field_length-net_store_length :
      (n : ℕ) (rest : List ℕ)
      → n < 2 ^ 64
      → reader.net_field_length (calls.net_store_length n ++ rest) ≡ (n, rest)

equal : (a b : ℕ) → not (a == b) ≡ false → a ≡ b
equal a b h = ground (arith, h, ==_iff a b)

module _ (calls : Calls) (reader : Reader) (laws : ReaderLaws calls reader) where
  second : ℕ → ℕ × List ℕ → (ℕ × ℕ) × List ℕ
  second n (original, rest) = ((n, original), rest)

  first : ℕ → ℕ → ℕ × List ℕ → (ℕ × ℕ) × List ℕ
  first width bit (n, rest) =
      if n / 2 ^ bit == 0 then ((n, n), rest) else second (n - 2 ^ bit) (reader.int_korr width rest)

  -- A value of `width` bytes, whose bit of the value `2 ^ bit` says that another follows, which is
  -- else the same.
  pub read_flagged : ℕ → ℕ → List ℕ → (ℕ × ℕ) × List ℕ
  read_flagged width bit bytes = first width bit (reader.int_korr width bytes)

  read_flagged-store_flagged :
      (width bit immediate original : ℕ) (rest : List ℕ)
      → 2 ^ bit + 2 ^ bit ≡ 256 ^ width
      → immediate < 2 ^ bit
      → original < 2 ^ bit
      → read_flagged width bit (store_flagged calls width bit immediate original ++ rest)
        ≡ ((immediate, original), rest)
  unfolding read_flagged first second store_flagged set_bit clear_bit
  read_flagged-store_flagged width bit immediate original rest whole hi ho =
      let low : immediate / 2 ^ bit ≡ 0 = div-eq_of_lt hi in
      let high : (immediate + 2 ^ bit) / 2 ^ bit ≡ 1 =
        add-div_right immediate (omega (arith, hi)) ∙ ap (λ q. q + 1) low in
      let both : immediate + 2 ^ bit < 256 ^ width = omega (arith, whole, hi) in
      let fits : immediate < 256 ^ width = omega (arith, whole, hi) in
      let fits' : original < 256 ^ width = omega (arith, whole, ho) in
      let back : immediate + 2 ^ bit - 2 ^ bit ≡ immediate = omega arith in
      if_cases
        (λ (bytes : List ℕ). read_flagged width bit (bytes ++ rest) ≡ ((immediate, original), rest))
        (not (immediate == original))
        (λ differ.
          rw
            (
              low,
              append_assoc,
              laws.int_korr-int_store width (immediate + 2 ^ bit)
                  (calls.int_store width original ++ rest) both,
              high,
              laws.int_korr-int_store width original rest fits',
              back,
            )
            refl)
        (λ same.
          rw
            (
              low,
              laws.int_korr-int_store width immediate rest fits,
              low,
              equal immediate original same,
            )
            refl)

  -- The body's five values, and the bytes behind them.
  pub read_body : List ℕ → ((ℕ × ℕ) × ℕ × (ℕ × ℕ)) × List ℕ
  read_body bytes =
      let (timestamps, rest) = read_flagged 7 55 bytes in
      let (transaction_length, rest') = reader.net_field_length rest in
      let (versions, rest'') = read_flagged 4 31 rest' in
      ((timestamps, transaction_length, versions), rest'')

  -- With timestamps below 2 ^ 55, server versions below 2 ^ 31 and a 64-bit length, a reader that
  -- takes the top bits of the first timestamp and of the first version as the sign that the original
  -- values follow reads back all five values of the body, whatever follows the body.
  pub read_body-write_body_to_memory :
      (e : GtidLogEvent) (rest : List ℕ)
      → e.immediate_commit_timestamp < 2 ^ 55
      → e.original_commit_timestamp < 2 ^ 55
      → e.transaction_length < 2 ^ 64
      → e.immediate_server_version < 2 ^ 31
      → e.original_server_version < 2 ^ 31
      → read_body (write_body_to_memory calls e ++ rest) ≡ (
        (
          (e.immediate_commit_timestamp, e.original_commit_timestamp),
          e.transaction_length,
          (e.immediate_server_version, e.original_server_version),
        ),
        rest,
      )
  unfolding read_body write_body_to_memory
  read_body-write_body_to_memory e rest hi ho hl vi vo =
      let versions =
        store_flagged calls 4 31 e.immediate_server_version e.original_server_version in
      let stamps =
        store_flagged calls 7 55 e.immediate_commit_timestamp e.original_commit_timestamp in
      let len = calls.net_store_length e.transaction_length in
      ap read_body
        (append_assoc (stamps ++ len) versions rest ∙ append_assoc stamps len (versions ++ rest))
      ∙ rw
          (
            read_body,
            read_flagged-store_flagged 7 55 e.immediate_commit_timestamp e.original_commit_timestamp
                (len ++ (versions ++ rest)) refl hi ho,
            laws.net_field_length-net_store_length e.transaction_length (versions ++ rest) hl,
            read_flagged-store_flagged 4 31 e.immediate_server_version e.original_server_version
                rest refl vi vo,
          )
          refl
