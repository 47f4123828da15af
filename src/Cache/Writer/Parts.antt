-- ===== src/Cache/Writer/Parts.antt =====
-- Binlog_event_writer: several bytes of a header or a body at once, and one at a time.
use mathlib.Core.List.{append_assoc}
use knowledge_base.Base.{
  ℕ, suc, ◌+◌, ◌-◌, ==_iff, ◌≤◌, ◌<◌, ◌≡◌, refl, sym, ap, ◌∙◌, Bool, true, false, Option, none,
  some, List, [], ◌∷◌, ◌++◌, length, length-append, if◌then◌else◌, arith,
}
use knowledge_base.Cache.Writer.{header_length, Env, Writer, fill, finish, copy, round}

-- What the writer relies on: to write bytes in two parts is to write them at once, and a checksum can
-- be computed in two parts.
pub record Laws {F : Type 0} (env : Env F) : Type 0 where
  pub write-append :
      (f : F) (a b : List ℕ)
      → env.write f (a ++ b) ≡ elim (env.write f a) [ none ↦ none | some g ↦ env.write g b ]
  pub checksum-append :
      (c : ℕ) (a b : List ℕ) → env.my_checksum c (a ++ b) ≡ env.my_checksum (env.my_checksum c a) b

sub-sub : (a b c : ℕ) → a - b - c ≡ a - (b + c)
sub-sub a b c = omega arith

-- The header is complete as soon as its last byte comes.
abbrev pub IsValid : {F : Type 0} → Writer F → Type 0
IsValid w = length w.header < header_length

module _ {F : Type 0} (env : Env F) where
  -- One byte at a time.
  unfoldable pub put_all : List ℕ → Writer F → Option (Writer F)
  put_all [] w = some w
  put_all (b ∷ bs) w = elim (round env w (b ∷ [])) [ none ↦ none | some v ↦ put_all bs v ]

  abbrev pub then_put : List ℕ → Option (Writer F) → Option (Writer F)
  then_put bs o = elim o [ none ↦ none | some v ↦ put_all bs v ]

  pub round-fill :
      (bytes : List ℕ) (w : Writer F) → w.event_len ≡ 0 → round env w bytes ≡ fill env bytes w
  unfolding round
  round-fill bytes w h = rw h refl

  pub round-copy :
      (bytes : List ℕ) (w : Writer F) → 0 < w.event_len → round env w bytes ≡ copy env bytes w
  unfolding round
  round-copy bytes w h = ground (arith, ==_iff w.event_len 0)

  abbrev more_header : List ℕ → Writer F → Writer F
  more_header bytes w = record w { header = w.header ++ bytes }

  fill-part :
      (bytes : List ℕ) (w : Writer F)
      → length w.header + length bytes < header_length
      → fill env bytes w ≡ some (more_header bytes w)
  unfolding fill
  fill-part bytes w h =
      ground
        (arith, length-append w.header bytes, ==_iff (length (w.header ++ bytes)) header_length)

  fill-append : (a b : List ℕ) (w : Writer F) → fill env b (more_header a w) ≡ fill env (a ++ b) w
  unfolding fill
  fill-append a b w = rw (append_assoc w.header a b) refl

  -- Several header bytes at once.
  pub fill_all :
      (b : ℕ) (bs rest : List ℕ) (w : Writer F)
      → w.event_len ≡ 0
      → length w.header + suc (length bs) ≤ header_length
      → put_all ((b ∷ bs) ++ rest) w ≡ then_put rest (fill env (b ∷ bs) w)
  unfolding put_all
  fill_all b [] rest w e h = ap (then_put rest) (round-fill (b ∷ []) w e)
  fill_all b (c ∷ bs) rest w e h =
      ap (then_put (c ∷ bs ++ rest)) (round-fill (b ∷ []) w e ∙ fill-part (b ∷ []) w (omega arith))
      ∙ fill_all c bs rest (more_header (b ∷ []) w) e
          (omega (arith, length-append w.header (b ∷ [])))
      ∙ ap (then_put rest) (fill-append (b ∷ []) (c ∷ bs) w)

  abbrev sum : Bool → ℕ → List ℕ → ℕ
  sum have c bytes = if have then env.my_checksum c bytes else c

  abbrev copied : List ℕ → Writer F → F → Writer F
  copied bytes w f = record w {
    file = f;
    checksum = sum w.have_checksum w.checksum bytes;
    event_len = w.event_len - length bytes;
  }

  finish_later : (w : Writer F) → 0 < w.event_len → finish env w ≡ some w
  unfolding finish
  finish_later w h = ground (arith, ==_iff w.event_len 0)

  module _ (laws : Laws env) where
    sum-append :
        (have : Bool) (c : ℕ) (a b : List ℕ) → sum have (sum have c a) b ≡ sum have c (a ++ b)
    sum-append true c a b = sym (laws.checksum-append c a b)
    sum-append false c a b = refl

    copied-append :
        (a b : List ℕ) (w : Writer F) (f g : F) → copied b (copied a w f) g ≡ copied (a ++ b) w g
    copied-append a b w f g =
        rw
          (
            sum-append w.have_checksum w.checksum a b,
            length-append a b,
            sub-sub w.event_len (length a) (length b),
          )
          refl

    abbrev into : List ℕ → Writer F → Option F → Option (Writer F)
    into bytes w o = elim o [ none ↦ none | some f ↦ finish env (copied bytes w f) ]

    abbrev then_copy : List ℕ → Option (Writer F) → Option (Writer F)
    then_copy b o = elim o [ none ↦ none | some v ↦ copy env b v ]

    into-append :
        (a b : List ℕ) (w : Writer F) (f : F) (o : Option F)
        → into b (copied a w f) o ≡ into (a ++ b) w o
    into-append a b w f none = refl
    into-append a b w f (some g) = ap (finish env) (copied-append a b w f g)

    into_later :
        (a b : List ℕ) (w : Writer F)
        → length a < w.event_len
        → (o : Option F)
        → then_copy b (into a w o)
          ≡ into (a ++ b) w (elim o [ none ↦ none | some g ↦ env.write g b ])
    unfolding copy
    into_later a b w h none = refl
    into_later a b w h (some f) =
        ap (then_copy b) (finish_later (copied a w f) (omega arith))
        ∙ into-append a b w f (env.write f b)

    copy-append :
        (a b : List ℕ) (w : Writer F)
        → length a < w.event_len
        → then_copy b (copy env a w) ≡ copy env (a ++ b) w
    unfolding copy
    copy-append a b w h =
        into_later a b w h (env.write w.file a)
        ∙ ap (into (a ++ b) w) (sym (laws.write-append w.file a b))

    copy_next :
        (a b rest : List ℕ) (w : Writer F)
        → length a < w.event_len
        → ((f : F) → put_all (b ++ rest) (copied a w f) ≡ then_put rest (copy env b (copied a w f)))
        → (o : Option F)
        → then_put (b ++ rest) (into a w o) ≡ then_put rest (then_copy b (into a w o))
    copy_next a b rest w h ih none = refl
    copy_next a b rest w h ih (some f) =
        let p = finish_later (copied a w f) (omega arith) in
        ap (then_put (b ++ rest)) p
        ∙ ih f
        ∙ sym (ap (λ (x : Option (Writer F)). then_put rest (then_copy b x)) p)

    -- Several body bytes at once.
    pub copy_all :
        (b : ℕ) (bs rest : List ℕ) (w : Writer F)
        → suc (length bs) ≤ w.event_len
        → put_all ((b ∷ bs) ++ rest) w ≡ then_put rest (copy env (b ∷ bs) w)
    unfolding put_all copy
    copy_all b [] rest w h = ap (then_put rest) (round-copy (b ∷ []) w (omega arith))
    copy_all b (c ∷ bs) rest w h =
        ap (then_put (c ∷ bs ++ rest)) (round-copy (b ∷ []) w (omega arith))
        ∙ copy_next (b ∷ []) (c ∷ bs) rest w (omega arith)
            (λ f. copy_all c bs rest (copied (b ∷ []) w f) (omega arith))
            (env.write w.file (b ∷ []))
        ∙ ap (then_put rest) (copy-append (b ∷ []) (c ∷ bs) w (omega arith))
