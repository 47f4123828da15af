-- ===== src/Cache/Writer/Whole.antt =====
-- Binlog_event_writer, given a whole event between two events.
use mathlib.Core.Option
use mathlib.Core.List.{append-nil}
use knowledge_base.Base.{
  ℕ, suc, ◌+◌, ◌-◌, ◌%◌, ◌^◌, ==_iff, ◌<◌, ◌≡◌, refl, sym, ap, ◌∙◌, Bool, true, false, Option, none,
  some, List, [], ◌∷◌, ◌++◌, length, length-append, if◌then◌else◌, arith,
}
use knowledge_base.Cache.Writer.{
  header_length, event_len_offset, Env, Writer, update_header, complete, fill, finish, copy, write,
}
use knowledge_base.Cache.Writer.Parts.{Laws, put_all, then_put, fill_all, copy_all}
use knowledge_base.Cache.Writer.Loop.{write-put_all}

kept :
    (have : Bool) (initial c x y : ℕ)
    → c ≡ initial
    → (if have then initial else (if have then x else (if have then y else c))) ≡ c
kept true initial c x y e = sym e
kept false initial c x y e = refl

-- The writer between two events.
abbrev pub IsBetween : {F : Type 0} → Writer F → Type 0
IsBetween w = (w.header ≡ []) × (w.event_len ≡ 0) × (w.checksum ≡ w.initial_checksum)

module _ {F : Type 0} (env : Env F) where
  abbrev checksum_bytes : ℕ → List ℕ
  checksum_bytes c = env.int4store 0 c (0 ∷ 0 ∷ 0 ∷ 0 ∷ [])

  abbrev tail : Bool → ℕ → List ℕ
  tail have c = if have then checksum_bytes c else []

  abbrev ended : Writer F → F → Writer F
  ended w f = record w {
    file = f;
    checksum = if w.have_checksum then w.initial_checksum else w.checksum;
  }

  abbrev write_tail : Bool → ℕ → F → Option F
  write_tail have c f = if have then env.write f (checksum_bytes c) else some f

  finish_last :
      (w : Writer F)
      → w.event_len ≡ 0
      → finish env w ≡ Option.map (ended w) (write_tail w.have_checksum w.checksum w.file)
  unfolding finish
  finish_last w h = ground (arith, ==_iff w.event_len 0)

  -- The header is complete, and the body may come.
  abbrev headed : Writer F → F → Writer F
  headed u f = record u {
    file = f;
    event_len = (u.event_len + 2 ^ 32 - header_length) % 2 ^ 32;
    header = [];
  }

  abbrev sum : Writer F → List ℕ → ℕ
  sum w body = if w.have_checksum then env.my_checksum w.checksum body else w.checksum

  abbrev emptied : Writer F → List ℕ → Writer F
  emptied w body = record w { checksum = sum w body; event_len = w.event_len - length body }

  abbrev then_write : (F → Option F) → Option F → Option F
  then_write k o = elim o [ none ↦ none | some f ↦ k f ]

  then_put-nil : (o : Option (Writer F)) → then_put env [] o ≡ o
  unfolding put_all
  then_put-nil none = refl
  then_put-nil (some v) = refl

  -- What the event adds to the file, by the code's own update_header.
  abbrev pub code_bytes : Writer F → List ℕ → List ℕ → List ℕ
  code_bytes w header body =
      let u = update_header env (record w { header = header }) in
      u.header ++ (body ++ tail w.have_checksum (sum u body))

  -- The writer after the event.
  abbrev pub code_moved : Writer F → List ℕ → F → Writer F
  code_moved w header f = record w {
    file = f;
    end_log_pos = (update_header env (record w { header = header })).end_log_pos;
  }

  again-IsBetween :
      (w : Writer F) (header body : List ℕ) (f : F)
      → IsBetween w
      → env.uint4korr event_len_offset header ≡ header_length + length body
      → header_length + length body < 2 ^ 32
      → ended (emptied (headed (update_header env (record w { header = header })) f) body) f
        ≡ code_moved w header f
  unfolding update_header
  again-IsBetween w header body f (empty, idle, fresh) sized small =
      let u = update_header env (record w { header = header }) in
      let build : ℕ → List ℕ → ℕ → Writer F = λ c h n. record w {
        file = f;
        checksum = c;
        end_log_pos = u.end_log_pos;
        header = h;
        event_len = n;
      } in
      let n : ℕ =
        (env.uint4korr event_len_offset header + 2 ^ 32 - header_length) % 2 ^ 32 - length body in
      let none_left : n ≡ w.event_len = omega (arith, sized, small, idle) in
      ap (λ (c : ℕ). build c [] n) (kept w.have_checksum w.initial_checksum w.checksum _ _ fresh)
      ∙ ap (λ (h : List ℕ). build w.checksum h n) (sym empty)
      ∙ ap (λ (k : ℕ). build w.checksum w.header k) none_left

  module _ (laws : Laws env) where
    written :
        (have : Bool) (c : ℕ) (f : F) (body : List ℕ)
        → then_write (write_tail have c) (env.write f body) ≡ env.write f (body ++ tail have c)
    written true c f body = sym (laws.write-append f body (checksum_bytes c))
    written false c f body = rw (append-nil body) (same (env.write f body))
      where
        same : (o : Option F) → elim o [ none ↦ none | some g ↦ some g ] ≡ o
        same none = refl
        same (some g) = refl

    copy_last :
        (w : Writer F) (body : List ℕ)
        → w.event_len ≡ length body
        → copy env body w
          ≡ Option.map
              (ended (emptied w body))
              (env.write w.file (body ++ tail w.have_checksum (sum w body)))
    unfolding copy
    copy_last w body h =
        go (env.write w.file body)
        ∙ ap (Option.map (ended (emptied w body)))
            (written w.have_checksum (sum w body) w.file body)
      where
        go :
            (o : Option F)
            → elim o [ none ↦ none | some f ↦ finish env (record (emptied w body) { file = f }) ]
              ≡ Option.map
                  (ended (emptied w body))
                  (then_write (write_tail w.have_checksum (sum w body)) o)
        go none = refl
        go (some f) = finish_last (record (emptied w body) { file = f }) (omega arith)

    body_put :
        (v : Writer F) (b : ℕ) (bs : List ℕ)
        → v.event_len ≡ suc (length bs)
        → put_all env (b ∷ bs) v
          ≡ Option.map
              (ended (emptied v (b ∷ bs)))
              (env.write v.file ((b ∷ bs) ++ tail v.have_checksum (sum v (b ∷ bs))))
    body_put v b bs h =
        ap (λ (xs : List ℕ). put_all env xs v) (sym (append-nil (b ∷ bs)))
        ∙ copy_all env laws b bs [] v (omega arith)
        ∙ then_put-nil (copy env (b ∷ bs) v)
        ∙ copy_last v (b ∷ bs) h

    headed_put :
        (u : Writer F) (b : ℕ) (bs : List ℕ)
        → (u.event_len + 2 ^ 32 - header_length) % 2 ^ 32 ≡ suc (length bs)
        → (final : F → Writer F) → ((f g : F) → ended (emptied (headed u f) (b ∷ bs)) g ≡ final g)
        → (o : Option F)
        → then_put env (b ∷ bs) (Option.map (headed u) o)
          ≡ Option.map final
              (then_write (λ f. env.write f ((b ∷ bs) ++ tail u.have_checksum (sum u (b ∷ bs)))) o)
    headed_put u b bs h final same none = refl
    headed_put u b bs h final same (some f) =
        body_put (headed u f) b bs h
        ∙ finals (env.write f ((b ∷ bs) ++ tail u.have_checksum (sum u (b ∷ bs))))
      where
        finals :
            (o : Option F)
            → Option.map (ended (emptied (headed u f) (b ∷ bs))) o ≡ Option.map final o
        finals none = refl
        finals (some g) = ap some (same f g)

    filled :
        (w : Writer F) (header : List ℕ)
        → w.header ≡ []
        → length header ≡ header_length
        → fill env header w ≡ complete env (record w { header = header })
    unfolding fill
    filled w header empty long = rw empty (ground (arith, ==_iff (length header) header_length))

    whole_put :
        (w : Writer F) (h b : ℕ) (hs bs : List ℕ)
        → IsBetween w
        → suc (length hs) ≡ header_length
        → env.uint4korr event_len_offset (h ∷ hs) ≡ header_length + suc (length bs)
        → header_length + suc (length bs) < 2 ^ 32
        → put_all env ((h ∷ hs) ++ (b ∷ bs)) w
          ≡ Option.map (code_moved w (h ∷ hs)) (env.write w.file (code_bytes w (h ∷ hs) (b ∷ bs)))
    unfolding complete update_header
    whole_put w h b hs bs (empty, idle, fresh) long sized small =
        let u = update_header env (record w { header = h ∷ hs }) in
        fill_all env h hs (b ∷ bs) w idle (rw empty (omega arith))
        ∙ ap (then_put env (b ∷ bs)) (filled w (h ∷ hs) empty long)
        ∙ headed_put u b bs (omega (arith, sized, small)) (code_moved w (h ∷ hs))
            (λ f g. again-IsBetween w (h ∷ hs) (b ∷ bs) g (empty, idle, fresh) sized small)
            (env.write u.file u.header)
        ∙ ap (Option.map (code_moved w (h ∷ hs))) (
            sym (
              laws.write-append w.file u.header
                ((b ∷ bs) ++ tail w.have_checksum (sum u (b ∷ bs)))))

    -- The writer on a whole event, by the code's own update_header.
    pub write-code_bytes :
        (w : Writer F) (header body : List ℕ)
        → IsBetween w
        → length header ≡ header_length
        → 0 < length body
        → env.uint4korr event_len_offset header ≡ header_length + length body
        → header_length + length body < 2 ^ 32
        → write env w (header ++ body)
          ≡ some (Option.map (code_moved w header) (env.write w.file (code_bytes w header body)))
    write-code_bytes w [] body between long some_body sized small = absurd (omega arith)
    write-code_bytes w (h ∷ hs) [] between long some_body sized small = absurd (omega arith)
    write-code_bytes w (h ∷ hs) (b ∷ bs) between long some_body sized small =
        write-put_all env laws w ((h ∷ hs) ++ (b ∷ bs)) (rw between.0 (omega arith))
          (omega (arith, length-append (h ∷ hs) (b ∷ bs)))
        ∙ ap some (whole_put w h b hs bs between long sized small)
