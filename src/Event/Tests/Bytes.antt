-- ===== src/Event/Tests/Bytes.antt =====
-- The byte functions that the events call, for tests: numbers with the least byte first, and a sum in
-- place of the cyclic checksum.
use native.Mathlib.Nat.{div-lt_iff_lt-mul, pow-suc, mod-add-div}
use knowledge_base.Base.{
  ℕ, zero, suc, ◌+◌, ◌*◌, ◌%◌, ◌/◌, ◌^◌, ◌<◌, ◌==◌, ltb, ltb→lt, List, [], ◌∷◌, ◌++◌, length,
  if◌then◌else◌, if_cases, ◌≡◌, refl, sym, ap, ◌∙◌, arith,
}
use knowledge_base.Event.{Calls}
use knowledge_base.Event.Layout.{ChecksumLaws}
use knowledge_base.Event.Gtid.Sizes.{SizeLaws}
use knowledge_base.Event.Gtid.Fields.{Reader, ReaderLaws}

abbrev pub int_store : ℕ → ℕ → List ℕ
int_store zero n = []
int_store (suc width) n = n % 256 ∷ int_store width (n / 256)

abbrev pub pushed : ℕ → ℕ × List ℕ → ℕ × List ℕ
pushed b (n, rest) = (b + 256 * n, rest)

abbrev pub int_korr : ℕ → List ℕ → ℕ × List ℕ
int_korr zero bytes = (0, bytes)
int_korr (suc width) [] = (0, [])
int_korr (suc width) (b ∷ bytes) = pushed b (int_korr width bytes)

length-int_store : (width n : ℕ) → length (int_store width n) ≡ width
length-int_store zero n = refl
length-int_store (suc width) n = ap suc (length-int_store width (n / 256))

int_korr-int_store :
    (width n : ℕ) (rest : List ℕ)
    → n < 256 ^ width
    → int_korr width (int_store width n ++ rest) ≡ (n, rest)
int_korr-int_store zero n rest small =
    let e : 0 ≡ n = omega (arith, small) in ap (λ (m : ℕ). (m, rest)) e
int_korr-int_store (suc width) n rest small =
    let below : n / 256 < 256 ^ width =
      (div-lt_iff_lt-mul (omega arith)).1 (rw (sym (pow-suc 256 width)) small) in
    ap (pushed (n % 256)) (int_korr-int_store width (n / 256) rest below)
    ∙ ap (λ (m : ℕ). (m, rest)) (mod-add-div n 256)

abbrev pub net_store_length : ℕ → List ℕ
net_store_length n =
    if ltb n 251
    then n ∷ []
    else if ltb n 65536
    then 252 ∷ int_store 2 n
    else if ltb n 16777216
    then 253 ∷ int_store 3 n
    else 254 ∷ int_store 8 n

abbrev pub net_length_size : ℕ → ℕ
net_length_size n =
    if ltb n 251 then 1 else if ltb n 65536 then 3 else if ltb n 16777216 then 4 else 9

abbrev pub net_field_length : List ℕ → ℕ × List ℕ
net_field_length [] = (0, [])
net_field_length (b ∷ bytes) =
    if ltb b 251
    then (b, bytes)
    else if b == 252
    then int_korr 2 bytes
    else if b == 253
    then int_korr 3 bytes
    else int_korr 8 bytes

length-net_store_length : (n : ℕ) → length (net_store_length n) ≡ net_length_size n
length-net_store_length n = ground arith

net_field_length-net_store_length :
    (n : ℕ) (rest : List ℕ) → n < 2 ^ 64 → net_field_length (net_store_length n ++ rest) ≡ (n, rest)
net_field_length-net_store_length n rest small =
    if_cases (λ (bytes : List ℕ). net_field_length (bytes ++ rest) ≡ (n, rest)) (ltb n 251)
      (λ one. rw one refl)
      (λ _.
        if_cases (λ (bytes : List ℕ). net_field_length (bytes ++ rest) ≡ (n, rest)) (ltb n 65536)
          (λ three. int_korr-int_store 2 n rest (ltb→lt _ _ three))
          (λ _.
            if_cases (λ (bytes : List ℕ). net_field_length (bytes ++ rest) ≡ (n, rest))
              (ltb n 16777216) (λ four. int_korr-int_store 3 n rest (ltb→lt _ _ four))
              (λ _. int_korr-int_store 8 n rest small)))

abbrev pub total : ℕ → List ℕ → ℕ
total c [] = c
total c (x ∷ xs) = total (c + x) xs

total-append : (c : ℕ) (a b : List ℕ) → total c (a ++ b) ≡ total (total c a) b
total-append c [] b = refl
total-append c (x ∷ a) b = total-append (c + x) a b

abbrev pub calls : Calls
calls = record {
  int_store = int_store;
  checksum_crc32 = total;
  net_store_length = net_store_length;
  net_length_size = net_length_size;
  get_commit_timestamp_length = λ immediate original. if immediate == original then 7 else 14;
  get_server_version_length = λ immediate original. if immediate == original then 4 else 8;
}

abbrev pub reader : Reader
reader = record { int_korr = int_korr; net_field_length = net_field_length }

pub size_laws : SizeLaws calls
size_laws = record {
  length-int_store = length-int_store;
  length-net_store_length = length-net_store_length;
  net_length_size_lem = λ n. refl;
  get_commit_timestamp_length_lem = λ immediate original. refl;
  get_server_version_length_lem = λ immediate original. refl;
}

pub checksum_laws : ChecksumLaws calls
checksum_laws = record { checksum-nil = λ c. refl; checksum-append = total-append }

pub reader_laws : ReaderLaws calls reader
reader_laws = record {
  int_korr-int_store = int_korr-int_store;
  net_field_length-net_store_length = net_field_length-net_store_length;
}
