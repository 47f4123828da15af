-- ===== src/Cache/Writer/Tests.antt =====
-- The writer on a file that is a list of bytes.
use mathlib.Core.List.{append_assoc}
use knowledge_base.Base.{
  ℕ, zero, suc, ◌+◌, ◌*◌, ◌/◌, ◌%◌, ◌≡◌, refl, sym, ap, true, Option, some, List, [], ◌∷◌, ◌++◌,
  take, drop, length, ◌∙◌, arith,
}
use knowledge_base.Cache.Writer.{Env, Writer, write}
use knowledge_base.Cache.Writer.Parts.{Laws}
use knowledge_base.Cache.Writer.Events.{write_parts, write_parts_lem}
use knowledge_base.Cache.Writer.Corrected.{Header, StoreLaws, moved_to, event_bytes, write_whole}

-- A number from its first four bytes, the least first, and back.
abbrev from_bytes : List ℕ → ℕ
from_bytes (a ∷ b ∷ c ∷ d ∷ bytes) = a + 256 * b + 65536 * c + 16777216 * d
from_bytes bytes = 0

abbrev to_bytes : ℕ → List ℕ
to_bytes n = n % 256 ∷ n / 256 % 256 ∷ n / 65536 % 256 ∷ n / 16777216 % 256 ∷ []

abbrev total : ℕ → List ℕ → ℕ
total c [] = c
total c (x ∷ xs) = total (c + x) xs

abbrev put_at : ℕ → ℕ → List ℕ → List ℕ
put_at zero n bytes = to_bytes n ++ drop 4 bytes
put_at (suc offset) n [] = to_bytes n
put_at (suc offset) n (x ∷ bytes) = x ∷ put_at offset n bytes

abbrev env : Env (List ℕ)
env = record {
  write = λ f bytes. some (f ++ bytes);
  uint4korr = λ offset bytes. from_bytes (drop offset bytes);
  int4store = put_at;
  my_checksum = total;
}

total-append : (c : ℕ) (a b : List ℕ) → total c (a ++ b) ≡ total (total c a) b
total-append c [] b = refl
total-append c (x ∷ a) b = total-append (c + x) a b

laws : Laws env
laws = record {
  write-append = λ f a b. ap some (sym (append_assoc f a b));
  checksum-append = total-append;
}

-- A writer at position 4, with checksums, and an event of 21 bytes.
abbrev writer : Writer (List ℕ)
writer = record {
  file = 1 ∷ 2 ∷ 3 ∷ 4 ∷ [];
  have_checksum = true;
  initial_checksum = 0;
  checksum = 0;
  end_log_pos = 4;
  header = [];
  event_len = 0;
}

abbrev header : List ℕ
header = 0 ∷ 0 ∷ 0 ∷ 0 ∷ 2 ∷ 0 ∷ 0 ∷ 0 ∷ 0 ∷ 21 ∷ 0 ∷ 0 ∷ 0 ∷ 0 ∷ 0 ∷ 0 ∷ 0 ∷ 0 ∷ 0 ∷ []

abbrev fields : Header
fields = record {
  front = take 9 header;
  event_len = 21 ∷ 0 ∷ 0 ∷ 0 ∷ [];
  log_pos = 0 ∷ 0 ∷ 0 ∷ 0 ∷ [];
  flags = 0 ∷ 0 ∷ [];
}

drop-append : (xs ys : List ℕ) → drop (length xs) (xs ++ ys) ≡ ys
drop-append [] ys = refl
drop-append (x ∷ xs) ys = drop-append xs ys

put_at-over :
    (n : ℕ) (before old after : List ℕ)
    → length old ≡ 4
    → put_at (length before) n (before ++ (old ++ after)) ≡ before ++ (to_bytes n ++ after)
put_at-over n [] old after four =
    ap (λ (rest : List ℕ). to_bytes n ++ rest)
      (ap (λ (k : ℕ). drop k (old ++ after)) (sym four) ∙ drop-append old after)
put_at-over n (x ∷ before) old after four = ap (◌∷◌ x) (put_at-over n before old after four)

stores : StoreLaws env
stores = record { length-word = λ n. refl; store-over = put_at-over }

write_whole_example :
    write env writer (header ++ 7 ∷ 8 ∷ [])
    ≡ some (
        some (
          moved_to env writer
            (7 ∷ 8 ∷ [])
            (writer.file ++ event_bytes env writer fields (7 ∷ 8 ∷ []))))
write_whole_example =
    write_whole env stores laws writer fields (7 ∷ 8 ∷ []) (refl, refl, refl)
      (refl, refl, refl, refl) (omega arith) refl (omega arith)

-- The length is 25 with the checksum, and the position 29.
event_bytes_example :
    take 19 (event_bytes env writer fields (7 ∷ 8 ∷ []))
    ≡ 0 ∷ 0 ∷ 0 ∷ 0 ∷ 2 ∷ 0 ∷ 0 ∷ 0 ∷ 0 ∷ 25 ∷ 0 ∷ 0 ∷ 0 ∷ 29 ∷ 0 ∷ 0 ∷ 0 ∷ 0 ∷ 0 ∷ []
event_bytes_example = refl

-- The event in two parts, cut in the header, and at once.
write_parts_lem_example :
    (r : Option (Writer (List ℕ))) × (write_parts env
        (take 5 header ∷ (drop 5 header ++ 7 ∷ 8 ∷ []) ∷ [])
        writer
      ≡ some r)
    × (write_parts env ((header ++ 7 ∷ 8 ∷ []) ∷ []) writer ≡ some r)
write_parts_lem_example =
    write_parts_lem env laws (take 5 header ∷ (drop 5 header ++ 7 ∷ 8 ∷ []) ∷ [])
      ((header ++ 7 ∷ 8 ∷ []) ∷ []) writer (omega arith) (omega arith, (omega arith, tt))
      (omega arith, tt) refl
