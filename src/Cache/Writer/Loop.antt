-- ===== src/Cache/Writer/Loop.antt =====
-- The loop of Binlog_event_writer::write against the writer that takes one byte at a time.
use mathlib.Core.Option
use knowledge_base.Base.{
  ℕ, zero, suc, ◌+◌, ◌-◌, ◌^◌, ◌==◌, ==_iff, ◌≤◌, ◌<◌, ◌≡◌, ◌≢◌, refl, sym, ap, ◌∙◌, false, ◌&&◌,
  Option, none, some, List, [], ◌∷◌, ◌++◌, length, length-append, length-take, length-drop,
  take-drop, take, drop, if◌then◌else◌, if_cases, Bool-cases, inl, inr, arith,
}
use knowledge_base.Cache.Writer.{
  header_length, Env, Writer, update_header, complete, fill, finish, copy, taken, round, write_loop,
  write,
}
use knowledge_base.Cache.Writer.Parts.{
  Laws, IsValid, put_all, fill_all, copy_all, round-fill, round-copy,
}

not-equal : (n : ℕ) → (n == header_length) ≡ false → n ≢ header_length
not-equal n h = ground (arith, h, ==_iff n header_length)

module _ {F : Type 0} (env : Env F) where
  -- How many bytes a round may take.
  abbrev capacity : Writer F → ℕ
  capacity w = if w.event_len == 0 then header_length - length w.header else w.event_len

  taken_bounds :
      (w : Writer F) (buffer : List ℕ)
      → IsValid w
      → 0 < length buffer
      → length buffer < 2 ^ 32
      → (0 < taken env w buffer)
        × (taken env w buffer ≤ length buffer)
        × (taken env w buffer ≤ capacity w)
  unfolding taken
  taken_bounds w buffer v h₁ h₂ = ground (arith, ==_iff w.event_len 0)

  -- If there is a writer, its header is not full.
  abbrev StaysValid : Option (Writer F) → Type 0
  StaysValid none = Unit {0}
  StaysValid (some v) = IsValid v

  map-StaysValid :
      (f : F → Writer F) (o : Option F) → ((g : F) → IsValid (f g)) → StaysValid (Option.map f o)
  map-StaysValid f none h = tt
  map-StaysValid f (some g) h = h g

  complete-StaysValid : (w : Writer F) → StaysValid (complete env w)
  unfolding complete
  complete-StaysValid w =
      map-StaysValid _ (env.write (update_header env w).file (update_header env w).header)
        (λ g. omega arith)

  fill-StaysValid :
      (bytes : List ℕ) (w : Writer F)
      → length w.header + length bytes ≤ header_length
      → StaysValid (fill env bytes w)
  unfolding fill
  fill-StaysValid bytes w h =
      if_cases (λ (o : Option (Writer F)). StaysValid o)
        (length (w.header ++ bytes) == header_length)
        (λ _. complete-StaysValid (record w { header = w.header ++ bytes }))
        (λ n. omega (arith, length-append w.header bytes, not-equal (length (w.header ++ bytes)) n))

  finish-StaysValid : (w : Writer F) → IsValid w → StaysValid (finish env w)
  unfolding finish
  finish-StaysValid w v =
      if_cases (λ (o : Option (Writer F)). StaysValid o) (w.have_checksum && w.event_len == 0)
        (λ _.
          map-StaysValid _ (env.write w.file (env.int4store 0 w.checksum (0 ∷ 0 ∷ 0 ∷ 0 ∷ [])))
            (λ g. v))
        (λ _. v)

  copy-StaysValid : (bytes : List ℕ) (w : Writer F) → IsValid w → StaysValid (copy env bytes w)
  unfolding copy
  copy-StaysValid bytes w v = go (env.write w.file bytes)
    where
      go :
          (o : Option F)
          → StaysValid (elim o [
            | none ↦ none
            | some f ↦ finish env (record w {
              file = f;
              checksum = if w.have_checksum then env.my_checksum w.checksum bytes else w.checksum;
              event_len = w.event_len - length bytes;
            })
          ])
      go none = tt
      go (some f) = finish-StaysValid _ v

  stays : (o : Option (Writer F)) (v : Writer F) → StaysValid o → o ≡ some v → IsValid v
  stays none v s h = cc
  stays (some u) v s h =
      let e : u ≡ v = ap (λ (o : Option (Writer F)). elim o [ none ↦ u | some x ↦ x ]) h in
      rw (← e) s

  pub round-IsValid :
      (w v : Writer F) (bytes : List ℕ)
      → IsValid w
      → length bytes ≤ capacity w
      → round env w bytes ≡ some v
      → IsValid v
  unfolding round
  round-IsValid w v bytes valid small =
      if_cases (λ (o : Option (Writer F)). o ≡ some v → IsValid v) (w.event_len == 0)
        (λ e. stays (fill env bytes w) v (fill-StaysValid bytes w (ground (arith, e))))
        (λ _. stays (copy env bytes w) v (copy-StaysValid bytes w valid))

  module _ (laws : Laws env) where
    round_all :
        (b : ℕ) (bs rest : List ℕ) (w : Writer F)
        → IsValid w
        → suc (length bs) ≤ capacity w
        → put_all env ((b ∷ bs) ++ rest) w
          ≡ elim (round env w (b ∷ bs)) [ none ↦ none | some v ↦ put_all env rest v ]
    round_all b bs rest w v small = elim (Bool-cases (w.event_len == 0)) [
      | inl e ↦
          fill_all env b bs rest w ((==_iff w.event_len 0).0 e) (ground arith)
          ∙ ap (λ (o : Option (Writer F)). elim o [ none ↦ none | some v ↦ put_all env rest v ])
              (sym (round-fill env (b ∷ bs) w ((==_iff w.event_len 0).0 e)))
      | inr e ↦
          copy_all env laws b bs rest w (ground arith)
          ∙ ap (λ (o : Option (Writer F)). elim o [ none ↦ none | some v ↦ put_all env rest v ])
              (sym (round-copy env (b ∷ bs) w (ground (arith, ==_iff w.event_len 0))))
    ]

    -- A round on the first `n` bytes, and the rest of the loop.
    loop_round :
        (fuel n b : ℕ) (bs : List ℕ) (w : Writer F)
        → IsValid w
        → 0 < n
        → n ≤ suc (length bs)
        → n ≤ capacity w
        → ((v : Writer F)
            → IsValid v
            → write_loop env fuel v (drop n (b ∷ bs)) ≡ some (put_all env (drop n (b ∷ bs)) v))
        → elim (round env w (take n (b ∷ bs))) [
          | none ↦ some none
          | some v ↦ write_loop env fuel v (drop n (b ∷ bs))
        ]
          ≡ some (put_all env (b ∷ bs) w)
    loop_round fuel zero b bs w valid h₁ h₂ h₃ ih = absurd (omega arith)
    loop_round fuel (suc n) b bs w valid h₁ h₂ h₃ ih =
        go (round env w (b ∷ take n bs)) refl
        ∙ ap some (
            sym (
              ap (λ (xs : List ℕ). put_all env (b ∷ xs) w) (sym (take-drop n bs))
              ∙ round_all b (take n bs) (drop n bs) w valid (omega (arith, length-take n bs))))
      where
        go :
            (o : Option (Writer F))
            → round env w (b ∷ take n bs) ≡ o
            → elim o [ none ↦ some none | some v ↦ write_loop env fuel v (drop n bs) ]
              ≡ some (elim o [ none ↦ none | some v ↦ put_all env (drop n bs) v ])
        go none e = refl
        go (some v) e =
            ih v (round-IsValid w v (b ∷ take n bs) valid (omega (arith, length-take n bs)) e)

    write_loop_lem :
        (fuel : ℕ) (w : Writer F) (buffer : List ℕ)
        → IsValid w
        → length buffer ≤ fuel
        → length buffer < 2 ^ 32
        → write_loop env fuel w buffer ≡ some (put_all env buffer w)
    unfolding write_loop put_all
    write_loop_lem fuel w [] valid enough small = refl
    write_loop_lem zero w (b ∷ bs) valid enough small = absurd (omega arith)
    write_loop_lem (suc fuel) w (b ∷ bs) valid enough small =
        let (t₁, t₂, t₃) = taken_bounds w (b ∷ bs) valid (omega arith) small in
        loop_round fuel (taken env w (b ∷ bs)) b bs w valid t₁ t₂ t₃ λ v u.
          write_loop_lem fuel v (drop (taken env w (b ∷ bs)) (b ∷ bs)) u
            (omega (arith, length-drop (taken env w (b ∷ bs)) (b ∷ bs)))
            (omega (arith, length-drop (taken env w (b ∷ bs)) (b ∷ bs)))

    -- With a header that is not full, and fewer than 2^32 bytes, the loop ends, an error included, and it
    -- does what a writer does that is given the bytes one at a time.
    pub write-put_all :
        (w : Writer F) (buffer : List ℕ)
        → IsValid w
        → length buffer < 2 ^ 32
        → write env w buffer ≡ some (put_all env buffer w)
    unfolding write
    write-put_all w buffer valid small =
        write_loop_lem (length buffer) w buffer valid (omega arith) small

  pub put_all-IsValid :
      (bytes : List ℕ) (w v : Writer F) → IsValid w → put_all env bytes w ≡ some v → IsValid v
  unfolding put_all
  put_all-IsValid [] w v valid = stays (some w) v valid
  put_all-IsValid (b ∷ bs) w v valid = go (λ u. put_all-IsValid bs u v) (round env w (b ∷ [])) refl
    where
      go :
          ((u : Writer F) → IsValid u → put_all env bs u ≡ some v → IsValid v)
          → (o : Option (Writer F)) → round env w (b ∷ []) ≡ o
          → elim o [ none ↦ none | some u ↦ put_all env bs u ] ≡ some v
          → IsValid v
      go ih none e h = cc
      go ih (some u) e h =
          ih u (round-IsValid w u (b ∷ []) valid (ground (arith, ==_iff w.event_len 0)) e) h
