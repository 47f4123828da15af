-- ===== src/Index/Listing.antt =====
-- Reading the index from one entry to the next.
use knowledge_base.Base.{
  ℕ, zero, suc, ◌+◌, ◌<◌, true, Option, none, some, List, [], ◌∷◌, ◌++◌, drop, length, All, ◌≡◌,
  refl, sym, ap, ◌∙◌, arith, if_cases,
}
use mathlib.Core.List.{append_assoc}
use knowledge_base.Index.{
  LogName, IndexError, Index, LogInfo, new_info, end_of_index, matches, find_entry, find_log_pos,
  take_entry, find_next_log, first, list_entries, get_log_index,
}

pub drop-suc {ℓ} :
    {A : Type ℓ} (p : ℕ) (xs ys : List A) (x : A) → drop p xs ≡ x ∷ ys → drop (suc p) xs ≡ ys
drop-suc zero [] ys x h = cc
drop-suc zero (z ∷ xs) ys x h = cc
drop-suc (suc p) [] ys x h = cc
drop-suc (suc p) (z ∷ xs) ys x h = drop-suc p xs ys x h

-- The reader stands at the entry x, number p, with the entries xs behind it.
abbrev pub IsAt : Index → LogInfo → ℕ → LogName → List LogName → Type 0
IsAt i l p x xs =
    (drop p i.entries ≡ x ∷ xs)
    × (l.log_file_name ≡ some x)
    × (l.index_file_start_offset ≡ p)
    × (l.index_file_offset ≡ suc p)

-- The next entry is read if there is one, and otherwise the end is reported.
abbrev pub Next : Index → ℕ → List LogName → LogInfo × Option IndexError → Type 0
Next i p [] r = (r.0.index_file_start_offset ≡ suc p) × (r.1 ≡ some (end_of_index i))
Next i p (y ∷ xs) r = IsAt i r.0 (suc p) y xs × (r.1 ≡ none)

module _ (normalize : LogName → Option LogName) where
  -- The entries are full names already.
  abbrev pub IsFull : Index → Type 0
  IsFull i = All (λ (n : LogName). normalize n ≡ some n) i.entries

  next-entry :
      (i : Index) (l : LogInfo)
      → i.inited ≡ true
      → find_next_log normalize i l
        ≡ take_entry normalize i
            (record l { index_file_start_offset = l.index_file_offset })
            (first (drop l.index_file_offset i.entries))
  unfolding find_next_log
  next-entry i l opened =
      if_cases
        (λ (r : LogInfo × Option IndexError).
          r
          ≡ take_entry normalize i (record l { index_file_start_offset = l.index_file_offset })
              (first (drop l.index_file_offset i.entries)))
        i.inited (λ _. refl) (λ shut. absurd (ground (arith, opened, shut)))

  taken :
      (i : Index) (l : LogInfo) (p : ℕ) (x : LogName) (xs : List LogName)
      → All (λ (n : LogName). normalize n ≡ some n) xs
      → drop p i.entries ≡ x ∷ xs
      → l.index_file_offset ≡ suc p
      → l.index_file_start_offset ≡ suc p
      → Next i p xs (take_entry normalize i l (first xs))
  unfolding take_entry
  taken i l p x [] full entries at start = (start, refl)
  taken i l p x (y ∷ xs) full entries at start =
      rw full.0 ((drop-suc p i.entries (y ∷ xs) x entries, refl, start, ap suc at), refl)

  pub find_next_log-Next :
      (i : Index) (l : LogInfo) (p : ℕ) (x : LogName) (xs : List LogName)
      → i.inited ≡ true
      → All (λ (n : LogName). normalize n ≡ some n) xs
      → IsAt i l p x xs
      → Next i p xs (find_next_log normalize i l)
  find_next_log-Next i l p x xs opened full (entries, _, _, at) =
      let started = record l { index_file_start_offset = l.index_file_offset } in
      let line : first (drop l.index_file_offset i.entries) ≡ first xs =
        ap (λ (n : ℕ). first (drop n i.entries)) at
        ∙ ap first (drop-suc p i.entries xs x entries) in
      rw (next-entry i l opened, line) (taken i started p x xs full entries at at)

  abbrev Listed : Index → List LogName → Option (IndexError × List LogName) → Type 0
  Listed i all r = r ≡ some (end_of_index i, all)

  -- One round of the listing, where the reader stands at an entry.
  list-round :
      (fuel : ℕ) (i : Index) (r : LogInfo × Option IndexError) (x : LogName) (acc : List LogName)
      → r.1 ≡ none
      → r.0.log_file_name ≡ some x
      → list_entries normalize (suc fuel) i r acc
        ≡ list_entries normalize fuel i (find_next_log normalize i r.0) (acc ++ (x ∷ []))
  unfolding list_entries
  list-round fuel i (l, error) x acc e n = rw (e, n) refl

  list-end :
      (fuel : ℕ) (i : Index) (r : LogInfo × Option IndexError) (acc : List LogName)
      → r.1 ≡ some (end_of_index i)
      → list_entries normalize (suc fuel) i r acc ≡ some (end_of_index i, acc)
  unfolding list_entries
  list-end fuel i (l, error) acc e = rw e refl

  list_entries-Listed :
      (fuel : ℕ) (i : Index) (r : LogInfo × Option IndexError) (p : ℕ) (x : LogName)
      (xs acc : List LogName)
      → length xs + 1 < fuel
      → i.inited ≡ true
      → All (λ (n : LogName). normalize n ≡ some n) xs
      → r.1 ≡ none
      → IsAt i r.0 p x xs
      → Listed i (acc ++ (x ∷ xs)) (list_entries normalize fuel i r acc)
  list_entries-Listed zero i r p x xs acc h opened full e at = absurd (omega arith)
  list_entries-Listed (suc zero) i r p x xs acc h opened full e at = absurd (omega arith)
  list_entries-Listed (suc (suc f)) i r p x [] acc h opened full e at =
      let next = find_next_log-Next i r.0 p x [] opened full at in
      list-round (suc f) i r x acc e at.1
      ∙ list-end f i (find_next_log normalize i r.0) (acc ++ (x ∷ [])) next.1
  list_entries-Listed (suc (suc f)) i r p x (y ∷ xs) acc h opened full e at =
      let (at', e') = find_next_log-Next i r.0 p x (y ∷ xs) opened full at in
      list-round (suc f) i r x acc e at.1
      ∙ list_entries-Listed (suc f) i (find_next_log normalize i r.0) (suc p) y xs (acc ++ (x ∷ []))
          (omega arith) opened full.1 e' at'
      ∙ ap (λ (l : List LogName). some (end_of_index i, l)) (append_assoc acc (x ∷ []) (y ∷ xs))

  -- The reader stands at the first entry.
  abbrev Started : LogName → LogInfo × Option IndexError → Type 0
  Started x r =
      (r.0.log_file_name ≡ some x)
      × (r.0.index_file_start_offset ≡ 0)
      × (r.0.index_file_offset ≡ 1)
      × (r.1 ≡ none)

  find_entry-first :
      (i : Index) (l : LogInfo) (x : LogName) (xs : List LogName)
      → normalize x ≡ some x
      → Started x (find_entry normalize i none (x ∷ xs) 0 l)
  unfolding find_entry matches
  find_entry-first i l x xs full = rw (full, find_entry) (refl, refl, refl, refl)

  find-opened :
      (i : Index) (l : LogInfo)
      → i.inited ≡ true
      → find_log_pos normalize i l none
        ≡ find_entry normalize i none i.entries 0 (record l { log_file_name = none })
  unfolding find_log_pos
  find-opened i l opened =
      if_cases
        (λ (r : LogInfo × Option IndexError).
          r ≡ find_entry normalize i none i.entries 0 (record l { log_file_name = none }))
        i.inited (λ _. refl) (λ shut. absurd (ground (arith, opened, shut)))

  -- find_log_pos without a name stands at the first entry.
  pub find_log_pos-first :
      (i : Index) (l : LogInfo) (x : LogName) (xs : List LogName)
      → i.inited ≡ true
      → i.entries ≡ x ∷ xs
      → normalize x ≡ some x
      → let r = find_log_pos normalize i l none in IsAt i r.0 0 x xs × (r.1 ≡ none)
  find_log_pos-first i l x xs opened entries full =
      let cleared = record l { log_file_name = none } in
      let same : find_log_pos normalize i l none ≡ find_entry normalize i none (x ∷ xs) 0 cleared =
        find-opened i l opened
        ∙ ap (λ (es : List LogName). find_entry normalize i none es 0 cleared) entries in
      let (name, start, offset, quiet) = find_entry-first i cleared x xs full in
      rw same ((entries, name, start, offset), quiet)

  -- Reading an index of full names from the first entry to the end gives exactly its entries, in their
  -- order, and ends by the error of the end of the file (or by that of the index file, if it has one).
  pub get_log_index-Listed :
      (i : Index)
      → i.inited ≡ true
      → All (λ (n : LogName). normalize n ≡ some n) i.entries
      → get_log_index normalize i ≡ some (end_of_index i, i.entries)
  unfolding get_log_index find_entry
  get_log_index-Listed i opened full = by_entries i.entries refl full
    where
      by_entries :
          (es : List LogName)
          → es ≡ i.entries
          → All (λ (n : LogName). normalize n ≡ some n) es
          → get_log_index normalize i ≡ some (end_of_index i, i.entries)
      by_entries [] e all =
          list-end (suc (length i.entries)) i (find_log_pos normalize i new_info none) [] (
            ap (λ (r : LogInfo × Option IndexError). r.1)
              (find-opened i new_info opened
                ∙ ap (λ (xs : List LogName). find_entry normalize i none xs 0 new_info) (sym e)))
          ∙ ap (λ (l : List LogName). some (end_of_index i, l)) e
      by_entries (x ∷ xs) e all =
          let (at, quiet) = find_log_pos-first i new_info x xs opened (sym e) all.0 in
          list_entries-Listed (suc (suc (length i.entries))) i
            (find_log_pos normalize i new_info none) 0 x xs [] (omega (arith, ap length e)) opened
            all.1 quiet at
          ∙ ap (λ (l : List LogName). some (end_of_index i, l)) e
