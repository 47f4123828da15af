-- ===== src/Cache/Writer/Events.antt =====
-- Binlog_event_writer, fed in parts by Binlog_cache_storage::copy_to.
use knowledge_base.Base.{
  ℕ, ◌^◌, ◌<◌, ◌≡◌, refl, sym, ap, ◌∙◌, Option, none, some, List, [], ◌∷◌, ◌++◌, length, All,
}
use knowledge_base.Cache.Writer.{Env, Writer, round, write}
use knowledge_base.Cache.Writer.Parts.{Laws, IsValid, put_all, then_put}
use knowledge_base.Cache.Writer.Loop.{write-put_all, put_all-IsValid}

abbrev pub concat : List (List ℕ) → List ℕ
concat [] = []
concat (part ∷ parts) = part ++ concat parts

module _ {F : Type 0} (env : Env F) where
  put_all-append :
      (a b : List ℕ) (w : Writer F) → put_all env (a ++ b) w ≡ then_put env b (put_all env a w)
  unfolding put_all
  put_all-append [] b w = refl
  put_all-append (x ∷ a) b w = go (put_all-append a b) (round env w (x ∷ []))
    where
      go :
          ((v : Writer F) → put_all env (a ++ b) v ≡ then_put env b (put_all env a v))
          → (o : Option (Writer F)) → then_put env (a ++ b) o ≡ then_put env b (then_put env a o)
      go ih none = refl
      go ih (some v) = ih v

  -- The parts of a stream of events are written one after the other, as copy_to does it.
  unfoldable pub write_parts : List (List ℕ) → Writer F → Option (Option (Writer F))
  write_parts [] w = some (some w)
  write_parts (part ∷ parts) w = elim (write env w part) [
    | none ↦ none
    | some o ↦ elim o [ none ↦ some none | some v ↦ write_parts parts v ]
  ]

  abbrev then_parts : List (List ℕ) → Option (Writer F) → Option (Option (Writer F))
  then_parts parts o = elim o [ none ↦ some none | some v ↦ write_parts parts v ]

  abbrev then_rest : List (List ℕ) → Option (Option (Writer F)) → Option (Option (Writer F))
  then_rest parts r = elim r [ none ↦ none | some o ↦ then_parts parts o ]

  module _ (laws : Laws env) where
    parts-put_all :
        (parts : List (List ℕ)) (w : Writer F)
        → IsValid w
        → All (λ (part : List ℕ). length part < 2 ^ 32) parts
        → write_parts parts w ≡ some (put_all env (concat parts) w)
    unfolding write_parts put_all
    parts-put_all [] w valid small = refl
    parts-put_all (part ∷ parts) w valid small =
        ap (then_rest parts) (write-put_all env laws w part valid small.0)
        ∙ go (λ v u. parts-put_all parts v u small.1) (put_all env part w) refl
        ∙ ap some (sym (put_all-append part (concat parts) w))
      where
        go :
            ((v : Writer F) → IsValid v → write_parts parts v ≡ some (put_all env (concat parts) v))
            → (o : Option (Writer F)) → put_all env part w ≡ o
            → then_parts parts o ≡ some (then_put env (concat parts) o)
        go ih none e = refl
        go ih (some v) e = ih v (put_all-IsValid env part w v valid e)

    -- However the same bytes are cut into parts of fewer than 2^32 bytes, the writer ends, and with the
    -- same result: the same file, or an error.
    pub write_parts_lem :
        (xs ys : List (List ℕ)) (w : Writer F)
        → IsValid w
        → All (λ (part : List ℕ). length part < 2 ^ 32) xs
        → All (λ (part : List ℕ). length part < 2 ^ 32) ys
        → concat xs ≡ concat ys
        → (r : Option (Writer F)) × (write_parts xs w ≡ some r) × (write_parts ys w ≡ some r)
    write_parts_lem xs ys w valid small_xs small_ys same = (
      put_all env (concat xs) w,
      parts-put_all xs w valid small_xs,
      parts-put_all ys w valid small_ys
          ∙ ap (λ (bytes : List ℕ). some (put_all env bytes w)) (sym same),
    )
