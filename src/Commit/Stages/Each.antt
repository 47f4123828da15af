-- ===== src/Commit/Stages/Each.antt =====
-- What a loop over a queue keeps or adds, from what it does for one session.
use knowledge_base.Base.{
  ℕ, ℤ, pos, ◌+◌, ◌+ℤ◌, +ℤ_parts, eq_of_parts, pos_part, neg_part, List, [], ◌∷◌, ◌++◌, All, ◌≡◌,
  refl, ap, ◌∙◌, arith,
}
use mathlib.Core.List.{append-nil, append_assoc}
use knowledge_base.Cache.Storage.{Storage}
use knowledge_base.Commit.Group.{Call, ha_commit_low, Session}
use knowledge_base.Commit.Group.Kept.{weight}
use knowledge_base.Commit.Stages.{Queue, State, each}

-- The sessions that the engines were asked to commit, in the order of the calls.
unfoldable pub engine_commits : List Call → List ℕ
engine_commits [] = []
engine_commits (ha_commit_low n ∷ cs) = n ∷ engine_commits cs
engine_commits (_ ∷ cs) = engine_commits cs

pub engine_commits-append :
    (cs ds : List Call) → engine_commits (cs ++ ds) ≡ engine_commits cs ++ engine_commits ds
unfolding engine_commits
engine_commits-append [] ds = refl
engine_commits-append (ha_commit_low n ∷ cs) ds = ap (◌∷◌ n) (engine_commits-append cs ds)
engine_commits-append (_ ∷ cs) ds = engine_commits-append cs ds

pub balance_add :
    (p p' p'' : ℤ) (w w' n n' : ℕ)
    → p' +ℤ pos w ≡ p +ℤ pos w'
    → p'' +ℤ pos n ≡ p' +ℤ pos n'
    → p'' +ℤ pos (w + n) ≡ p +ℤ pos (w' + n')
balance_add p p' p'' w w' n n' h k = eq_of_parts _ _ (
    omega (
      arith,
      +ℤ_parts p' (pos w),
      +ℤ_parts p (pos w'),
      +ℤ_parts p'' (pos n),
      +ℤ_parts p' (pos n'),
      +ℤ_parts p'' (pos (w + n)),
      +ℤ_parts p (pos (w' + n')),
      ap pos_part h,
      ap neg_part h,
      ap pos_part k,
      ap neg_part k,
    ))

module _ {S : Type 0} (st : Storage S) (extraction server_version unknown : ℕ) where
  abbrev pub Handler : Type 0
  Handler =
      State st extraction server_version unknown
      → Session st extraction server_version unknown
      → State st extraction server_version unknown × Session st extraction server_version unknown

  -- The lists that the sessions have, one after the other.
  abbrev pub gather :
      (Session st extraction server_version unknown → List ℕ)
      → Queue st extraction server_version unknown
      → List ℕ
  gather w [] = []
  gather w (s ∷ q) = w s ++ gather w q

  pub each-All :
      (P Q : Session st extraction server_version unknown → Type 0) (f : Handler)
      → ((b : State st extraction server_version unknown)
            (s : Session st extraction server_version unknown)
          → P s
          → Q (f b s).1)
      → (b : State st extraction server_version unknown)
        (q : Queue st extraction server_version unknown)
      → All P q
      → All Q (each st extraction server_version unknown f b q).1
  unfolding each
  each-All P Q f step b [] h = tt
  each-All P Q f step b (s ∷ q) h = (step b s h.0, each-All P Q f step (f b s).0 q h.1)

  pub each-gather :
      (g : List Call → List ℕ) (w : Session st extraction server_version unknown → List ℕ)
      (f : Handler)
      → ((b : State st extraction server_version unknown)
            (s : Session st extraction server_version unknown)
          → g (f b s).0.calls ≡ g b.calls ++ w s)
      → (b : State st extraction server_version unknown)
        (q : Queue st extraction server_version unknown)
      → g (each st extraction server_version unknown f b q).0.calls ≡ g b.calls ++ gather w q
  unfolding each
  each-gather g w f step b [] = rw append-nil
  each-gather g w f step b (s ∷ q) =
      each-gather g w f step (f b s).0 q
      ∙ ap (λ (l : List ℕ). l ++ gather w q) (step b s)
      ∙ append_assoc (g b.calls) (w s) (gather w q)

  -- What no session changes.
  pub each-same :
      {A : Type 0} (g : State st extraction server_version unknown → A) (f : Handler)
      → ((b : State st extraction server_version unknown)
            (s : Session st extraction server_version unknown)
          → g (f b s).0 ≡ g b)
      → (b : State st extraction server_version unknown)
        (q : Queue st extraction server_version unknown)
      → g (each st extraction server_version unknown f b q).0 ≡ g b
  unfolding each
  each-same g f step b [] = refl
  each-same g f step b (s ∷ q) = each-same g f step (f b s).0 q ∙ step b s

  -- The sessions whose XID is written and that still count in m_atomic_prep_xids.
  abbrev pub written : Queue st extraction server_version unknown → ℕ
  written [] = 0
  written (s ∷ q) = weight st extraction server_version unknown s + written q

  -- The counter has moved as the number of the sessions that it counts.
  abbrev pub Balanced :
      State st extraction server_version unknown
      → ℕ
      → State st extraction server_version unknown
      → ℕ
      → Type 0
  Balanced b n b' n' = b'.prep_xids +ℤ pos n ≡ b.prep_xids +ℤ pos n'

  pub each-Balanced :
      (f : Handler)
      → ((b : State st extraction server_version unknown)
            (s : Session st extraction server_version unknown)
          → Balanced b
              (weight st extraction server_version unknown s)
              (f b s).0
              (weight st extraction server_version unknown (f b s).1))
      → (b : State st extraction server_version unknown)
        (q : Queue st extraction server_version unknown)
      → let (b', q') = each st extraction server_version unknown f b q in
        Balanced b (written q) b' (written q')
  unfolding each
  each-Balanced f step b [] = refl
  each-Balanced f step b (s ∷ q) =
      let (b', s') = f b s in
      let (b'', q') = each st extraction server_version unknown f b' q in
      balance_add b.prep_xids b'.prep_xids b''.prep_xids
        (weight st extraction server_version unknown s)
        (weight st extraction server_version unknown s') (written q) (written q') (step b s)
        (each-Balanced f step b' q)
