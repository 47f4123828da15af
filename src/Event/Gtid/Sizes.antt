-- ===== src/Event/Gtid/Sizes.antt =====
-- Gtid_log_event: lengths.
use knowledge_base.Base.{
  ℕ, ◌≤◌, ◌+◌, ◌*◌, ◌%◌, ◌^◌, ◌<◌, ◌==◌, leb, ltb, Bool, true, false, not, List, ◌++◌, length,
  length-append, if◌then◌else◌, if_cases, ◌≡◌, refl, sym, ap, ◌∙◌, arith, leb→le, leb_false→lt,
}
use knowledge_base.Event.{Calls, header_length, checksum_length}
use knowledge_base.Event.Gtid.{
  GtidLogEvent, set_bit, clear_bit, post_header_length, store_flagged, write_post_header_to_memory,
  write_body_to_memory, get_data_size, with_length_field, set_trx_length_by_cache_size,
  event_checksums,
}

-- The lengths of what the calls store: a fixed width, and one, three, four or nine bytes for a packed
-- integer, by its size.
pub record SizeLaws (calls : Calls) : Type 0 where
  pub length-int_store : (width n : ℕ) → length (calls.int_store width n) ≡ width
  pub length-net_store_length :
      (n : ℕ) → length (calls.net_store_length n) ≡ calls.net_length_size n
  pub net_length_size_lem :
      (n : ℕ)
      → calls.net_length_size n
        ≡ (if ltb n 251 then 1 else if ltb n 65536 then 3 else if ltb n 16777216 then 4 else 9)
  pub get_commit_timestamp_length_lem :
      (immediate original : ℕ)
      → calls.get_commit_timestamp_length immediate original
        ≡ (if immediate == original then 7 else 14)
  pub get_server_version_length_lem :
      (immediate original : ℕ)
      → calls.get_server_version_length immediate original
        ≡ (if immediate == original then 4 else 8)

sum_of_parts :
    (k x y z : ℕ) (a b c : List ℕ)
    → length a ≡ x
    → length b ≡ y
    → length c ≡ z
    → k + length (a ++ b ++ c) ≡ k + x + y + z
sum_of_parts k x y z a b c e1 e2 e3 =
    ap (λ n. k + n) (length-append (a ++ b) c)
    ∙ ap (λ n. k + (n + length c)) (length-append a b)
    ∙ omega arith

event_checksums-small :
    (n : ℕ) → n * checksum_length < 2 ^ 31 → event_checksums n ≡ n * checksum_length
unfolding event_checksums
event_checksums-small n small = ground arith

-- The sum that set_trx_length_by_cache_size starts from.
abbrev base_length : Bool → ℕ → ℕ → ℕ → ℕ → ℕ
base_length is_checksum_enabled cache_size checksums timestamps versions =
    (if is_checksum_enabled then cache_size + checksums else cache_size)
    + header_length
    + post_header_length
    + timestamps
    + versions
    + (if is_checksum_enabled then checksum_length else 0)

base_length-small :
    (b : Bool) (cache_size checksums timestamps versions : ℕ)
    → timestamps ≤ 14
    → versions ≤ 8
    → cache_size + checksums + 128 < 2 ^ 64
    → base_length b cache_size checksums timestamps versions + 9 < 2 ^ 64
base_length-small true cache_size checksums timestamps versions = omega arith
base_length-small false cache_size checksums timestamps versions = omega arith

base_length_lem :
    (b : Bool) (cache_size checksums timestamps versions field : ℕ)
    → base_length b cache_size checksums timestamps versions + field
      ≡ cache_size
        + (if b then checksums + checksum_length else 0)
        + header_length
        + (post_header_length + timestamps + field + versions)
base_length_lem true cache_size checksums timestamps versions field = omega arith
base_length_lem false cache_size checksums timestamps versions field = omega arith

module _ (calls : Calls) (laws : SizeLaws calls) where
  length-if_not :
      (same : Bool) (xs ys : List ℕ)
      → length (if not same then xs else ys) ≡ (if same then length ys else length xs)
  length-if_not true xs ys = refl
  length-if_not false xs ys = refl

  length-store_flagged :
      (width bit immediate original : ℕ)
      → length (store_flagged calls width bit immediate original)
        ≡ (if immediate == original then width else width + width)
  unfolding store_flagged
  length-store_flagged width bit immediate original =
      rw
        (
          length-if_not (immediate == original),
          length-append {A = ℕ},
          laws.length-int_store width (set_bit bit immediate),
          laws.length-int_store width (clear_bit bit immediate),
          laws.length-int_store width original,
        )
        refl

  length-write_post_header_to_memory :
      (e : GtidLogEvent)
      → length e.sid ≡ 16
      → length (write_post_header_to_memory calls e) ≡ post_header_length
  unfolding write_post_header_to_memory
  length-write_post_header_to_memory e sid =
      simp (length-append {A = ℕ}, laws.length-int_store, sid) refl

  length-write_body_to_memory :
      (e : GtidLogEvent)
      → post_header_length + length (write_body_to_memory calls e) ≡ get_data_size calls e
  unfolding write_body_to_memory get_data_size
  length-write_body_to_memory e =
      sum_of_parts post_header_length _ _ _
        (store_flagged calls 7 55 e.immediate_commit_timestamp e.original_commit_timestamp)
        (calls.net_store_length e.transaction_length)
        (store_flagged calls 4 31 e.immediate_server_version e.original_server_version)
        (length-store_flagged 7 55 e.immediate_commit_timestamp e.original_commit_timestamp
          ∙ sym (
              laws.get_commit_timestamp_length_lem e.immediate_commit_timestamp
                e.original_commit_timestamp))
        (laws.length-net_store_length e.transaction_length)
        (length-store_flagged 4 31 e.immediate_server_version e.original_server_version
          ∙ sym (
              laws.get_server_version_length_lem e.immediate_server_version
                e.original_server_version))

  -- The post header has the SID of 16 bytes.
  pub length-written :
      (e : GtidLogEvent)
      → length e.sid ≡ 16
      → length (write_post_header_to_memory calls e ++ write_body_to_memory calls e)
        ≡ get_data_size calls e
  length-written e sid =
      length-append (write_post_header_to_memory calls e) (write_body_to_memory calls e)
      ∙ ap (λ n. n + length (write_body_to_memory calls e))
          (length-write_post_header_to_memory e sid)
      ∙ length-write_body_to_memory e

  -- What with_length_field computes where nothing wraps.
  grown : ℕ → ℕ
  grown n =
      if leb 251 (n + 1)
      then (if leb 65536 (n + 3) then (if leb 16777216 (n + 4) then n + 9 else n + 4) else n + 3)
      else n + 1

  with_length_field-grown : (n : ℕ) → n + 9 < 2 ^ 64 → with_length_field calls n ≡ grown n
  unfolding with_length_field grown
  with_length_field-grown n small =
      let one : (n + 1) % 2 ^ 64 ≡ n + 1 = omega arith in
      let three : (n + 1 + 2) % 2 ^ 64 ≡ n + 3 = omega arith in
      let four : (n + 3 + 1) % 2 ^ 64 ≡ n + 4 = omega arith in
      let nine : (n + 4 + 5) % 2 ^ 64 ≡ n + 9 = omega arith in rw (one, three, four, nine) refl

  grown_lem : (n : ℕ) → grown n ≡ n + calls.net_length_size (grown n)
  unfolding grown
  grown_lem n =
      if_cases (λ (g : ℕ). g ≡ n + calls.net_length_size g) (leb 251 (n + 1))
        (λ above.
          if_cases (λ (g : ℕ). g ≡ n + calls.net_length_size g) (leb 65536 (n + 3))
            (λ above'.
              if_cases (λ (g : ℕ). g ≡ n + calls.net_length_size g) (leb 16777216 (n + 4))
                (λ above''. ground (
                  arith,
                  laws.net_length_size_lem (n + 9),
                  leb→le _ _ above,
                  leb→le _ _ above',
                  leb→le _ _ above'',
                ))
                (λ below. ground (
                  arith,
                  laws.net_length_size_lem (n + 4),
                  leb→le _ _ above,
                  leb→le _ _ above',
                  leb_false→lt _ _ below,
                )))
            (λ below.
              ground (
                arith,
                laws.net_length_size_lem (n + 3),
                leb→le _ _ above,
                leb_false→lt _ _ below,
              )))
        (λ below. ground (arith, laws.net_length_size_lem (n + 1), leb_false→lt _ _ below))

  announced :
      (n : ℕ)
      → n + 9 < 2 ^ 64
      → let t = with_length_field calls (n % 2 ^ 64) in t ≡ n + calls.net_length_size t
  announced n small =
      let whole : n % 2 ^ 64 ≡ n = omega arith in
      rw (whole, with_length_field-grown n small) (grown_lem n)

  timestamps_bound :
      (immediate original : ℕ) → calls.get_commit_timestamp_length immediate original ≤ 14
  timestamps_bound immediate original =
      ground (arith, laws.get_commit_timestamp_length_lem immediate original)

  versions_bound : (immediate original : ℕ) → calls.get_server_version_length immediate original ≤ 8
  versions_bound immediate original =
      ground (arith, laws.get_server_version_length_lem immediate original)

  announced_sum :
      (cache_size : ℕ) (is_checksum_enabled : Bool) (event_counter : ℕ) (e : GtidLogEvent)
      → length e.sid ≡ 16
      → cache_size + event_checksums event_counter + 128 < 2 ^ 64
      → let e' =
          set_trx_length_by_cache_size calls cache_size is_checksum_enabled event_counter e in
        e'.transaction_length
        ≡ cache_size
          + (if is_checksum_enabled then event_checksums event_counter + checksum_length else 0)
          + header_length
          + length (write_post_header_to_memory calls e' ++ write_body_to_memory calls e')
  unfolding set_trx_length_by_cache_size get_data_size
  announced_sum cache_size is_checksum_enabled event_counter e sid small =
      let timestamps =
        calls.get_commit_timestamp_length e.immediate_commit_timestamp
          e.original_commit_timestamp in
      let versions =
        calls.get_server_version_length e.immediate_server_version e.original_server_version in
      let checksums = event_checksums event_counter in
      let base = base_length is_checksum_enabled cache_size checksums timestamps versions in
      let e' = set_trx_length_by_cache_size calls cache_size is_checksum_enabled event_counter e in
      let fits : base + 9 < 2 ^ 64 =
        base_length-small is_checksum_enabled cache_size checksums timestamps versions
          (timestamps_bound e.immediate_commit_timestamp e.original_commit_timestamp)
          (versions_bound e.immediate_server_version e.original_server_version) small in
      announced base fits
      ∙ base_length_lem is_checksum_enabled cache_size checksums timestamps versions _
      ∙ ap
          (λ n.
            cache_size
            + (if is_checksum_enabled then checksums + checksum_length else 0)
            + header_length
            + n)
          (sym (length-written e' sid))

  -- The event after set_trx_length_by_cache_size announces the length of the whole group as it is
  -- written: the cached events, their checksums if those are computed, the header of the GTID event,
  -- the bytes of its post header and body, in which the announced length itself stands, and its
  -- checksum. This holds for a SID of 16 bytes, events whose checksums together are shorter than 2^31
  -- bytes, as the int that holds their length demands, and a group whose length fits 64 bits with some
  -- bytes to spare.
  pub transaction_length-Whole :
      (cache_size : ℕ) (is_checksum_enabled : Bool) (event_counter : ℕ) (e : GtidLogEvent)
      → length e.sid ≡ 16
      → event_counter * checksum_length < 2 ^ 31
      → cache_size + event_counter * checksum_length + 128 < 2 ^ 64
      → let e' =
          set_trx_length_by_cache_size calls cache_size is_checksum_enabled event_counter e in
        let checksums =
          if is_checksum_enabled then event_counter * checksum_length + checksum_length else 0 in
        e'.transaction_length
        ≡ cache_size
          + checksums
          + header_length
          + length (write_post_header_to_memory calls e' ++ write_body_to_memory calls e')
  transaction_length-Whole cache_size is_checksum_enabled event_counter e sid few small =
      let exact = event_checksums-small event_counter few in
      let e' = set_trx_length_by_cache_size calls cache_size is_checksum_enabled event_counter e in
      announced_sum cache_size is_checksum_enabled event_counter e sid (omega (arith, exact, small))
      ∙ ap
          (λ (checksums : ℕ).
            cache_size
            + (if is_checksum_enabled then checksums + checksum_length else 0)
            + header_length
            + length (write_post_header_to_memory calls e' ++ write_body_to_memory calls e'))
          exact
