-- ===== src/Index/Purge/Deleted.antt =====
-- What a purge deletes, and what it leaves in the index.
use mathlib.Core.List.{append-nil, append_assoc}
use knowledge_base.Base.{
  Option, none, some, List, [], ◌∷◌, ◌++◌, All, ◌≡◌, refl, sym, ap, ◌∙◌, if_cases,
}
use knowledge_base.Index.{
  LogName, IndexError, eof, io, fatal, emfile, file_error, Index, new_info, find_log_pos,
}
use knowledge_base.Index.Purge.{
  Files, Stat, present, missing, unreadable, Deletion, done, gone, too_many_files, failed, Purge,
  settle_entry, purge_entry, purge_entries, purge_index_entry, conclude_purge,
}

module _ (normalize : LogName → Option LogName) (f : Files) where
  -- find_log_pos finds the name nowhere in the index.
  abbrev pub IsUnlisted : Index → LogName → Type 0
  IsUnlisted i n = (find_log_pos normalize i new_info (some n)).1 ≡ some eof

  -- The index stays, and the files that were deleted since are such that P.
  abbrev pub Deletes : (LogName → Type 0) → Purge → Purge → Type 0
  Deletes P p p' =
      (p'.index ≡ p.index) × ((new : List LogName) × (p'.deleted ≡ p.deleted ++ new) × All P new)

  Deletes-refl : (P : LogName → Type 0) (p : Purge) → Deletes P p p
  Deletes-refl P p = (refl, ([], sym (append-nil p.deleted), tt))

  All-append :
      (P : LogName → Type 0) (xs ys : List LogName) → All P xs → All P ys → All P (xs ++ ys)
  All-append P [] ys h k = k
  All-append P (x ∷ xs) ys h k = (h.0, All-append P xs ys h.1 k)

  Deletes-trans :
      (P : LogName → Type 0) (a b c : Purge) → Deletes P a b → Deletes P b c → Deletes P a c
  Deletes-trans P a b c (i, (x, h, hs)) (j, (y, k, ks)) = (
    j ∙ i,
    (
      x ++ y,
      k ∙ ap (λ (l : List LogName). l ++ y) h ∙ append_assoc a.deleted x y,
      All-append P x y hs ks,
    ),
  )

  settle_entry-Deletes :
      (P : LogName → Type 0) (name : LogName) (p : Purge) (s : Stat) (found : Option IndexError)
      (d : Deletion)
      → (found ≡ some eof → P name)
      → Deletes P p (settle_entry normalize f name p s found d).0
  unfolding settle_entry
  settle_entry-Deletes P name p (present size) (some eof) done h =
      (refl, (name ∷ [], refl, (h refl, tt)))
  settle_entry-Deletes P name p missing found d h = Deletes-refl P p
  settle_entry-Deletes P name p unreadable found d h = Deletes-refl P p
  settle_entry-Deletes P name p (present size) none d h = Deletes-refl P p
  settle_entry-Deletes P name p (present size) (some eof) gone h = Deletes-refl P p
  settle_entry-Deletes P name p (present size) (some eof) too_many_files h = Deletes-refl P p
  settle_entry-Deletes P name p (present size) (some eof) failed h = Deletes-refl P p
  settle_entry-Deletes P name p (present size) (some io) d h = Deletes-refl P p
  settle_entry-Deletes P name p (present size) (some fatal) d h = Deletes-refl P p
  settle_entry-Deletes P name p (present size) (some emfile) d h = Deletes-refl P p
  settle_entry-Deletes P name p (present size) (some file_error) d h = Deletes-refl P p

  -- A deleted file satisfies Q, and the index i does not list it.
  abbrev pub Gone : (LogName → Type 0) → Index → LogName → Type 0
  Gone Q i n = Q n × IsUnlisted i n

  purge_entry-Deletes :
      (Q : LogName → Type 0) (name : LogName) (p : Purge) (i : Index)
      → Q name
      → p.index ≡ i
      → Deletes (Gone Q i) p (purge_entry normalize f name p).0
  unfolding purge_entry
  purge_entry-Deletes Q name p i q same =
      settle_entry-Deletes (Gone Q i) name p (f.stat name)
        (find_log_pos normalize p.index new_info (some name)).1 (f.delete name)
        (λ e.
          (q, ap (λ (j : Index). (find_log_pos normalize j new_info (some name)).1) (sym same) ∙ e))

  purge_entries-Deletes :
      (Q : LogName → Type 0) (names : List LogName) (p : Purge) (i : Index)
      → All Q names
      → p.index ≡ i
      → Deletes (Gone Q i) p (purge_entries normalize f names p).0
  unfolding purge_entries
  purge_entries-Deletes Q [] p i q same = Deletes-refl (Gone Q i) p
  purge_entries-Deletes Q (name ∷ names) p i q same =
      let (p', error) = purge_entry normalize f name p in
      let first = purge_entry-Deletes Q name p i q.0 same in
      by_error error
        (Deletes-trans (Gone Q i) p p' (purge_entries normalize f names p').0 first
          (purge_entries-Deletes Q names p' i q.1 (first.0 ∙ same)))
        first
    where
      by_error :
          (e : Option IndexError)
          → Deletes
              (Gone Q i)
              p
              (purge_entries normalize f names (purge_entry normalize f name p).0).0
          → Deletes (Gone Q i) p (purge_entry normalize f name p).0
          → Deletes
              (Gone Q i)
              p
              (elim e as (λ _. Purge × Option IndexError) [
                | none ↦ purge_entries normalize f names (purge_entry normalize f name p).0
                | some x ↦ ((purge_entry normalize f name p).0, some x)
              ]).0
      by_error none all one = all
      by_error (some x) all one = one

  pub conclude_purge-Deletes :
      (Q : LogName → Type 0) (e : Option IndexError) (p : Purge)
      → All Q p.registered
      → Deletes (Gone Q p.index) p (conclude_purge normalize f e p).0
  unfolding conclude_purge purge_index_entry
  conclude_purge-Deletes Q (some e) p q = Deletes-refl (Gone Q p.index) p
  conclude_purge-Deletes Q none p q =
      if_cases (λ (r : Purge × Option IndexError). Deletes (Gone Q p.index) p r.0) f.reinit_fails
        (λ _. Deletes-refl (Gone Q p.index) p)
        (λ _. purge_entries-Deletes Q p.registered p p.index q refl)
