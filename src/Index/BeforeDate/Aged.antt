-- ===== src/Index/BeforeDate/Aged.antt =====
-- The files up to the one that is chosen are old.
use knowledge_base.Base.{
  ℕ, zero, suc, ◌<◌, ltb, ltb→lt, true, false, Option, none, some, List, [], ◌∷◌, length, All, ◌≡◌,
  refl, ap, ◌⊎◌, inl, inr, arith, if_cases,
}
use knowledge_base.Index.{LogName, IndexError, Index, LogInfo, find_next_log}
use knowledge_base.Index.Listing.{IsAt, Next, find_next_log-Next}
use knowledge_base.Index.Purge.{Files, Stat, present, missing, unreadable}
use knowledge_base.Index.BeforeDate.{
  Verdict, ends, ends_fatally, goes_on, judge_stat, judge, follow, date_round, date_loop,
}

module _ (f : Files) (modified : LogName → ℕ) (purge_time : ℕ) where
  -- A file that the loop may pass: it is not written, and it does not exist or is old and unused.
  abbrev pub IsAged : LogName → Type 0
  IsAged n =
      (f.active n ≡ false)
      × ((f.stat n ≡ missing) ⊎ ((modified n < purge_time) × (f.in_use n ≡ false)))

  -- The chosen file is the old one, or the last of some names at the front that are all old.
  pub data UpTo : List LogName → Option LogName → Option LogName → Type 0 where
    unchanged : (names : List LogName) (to_log : Option LogName) → UpTo names to_log to_log
    passed :
        (x : LogName) (xs : List LogName) (to_log to_log' chosen : Option LogName)
        → IsAged x
        → (to_log' ≡ to_log) ⊎ (to_log' ≡ some x)
        → UpTo xs to_log' chosen
        → UpTo (x ∷ xs) to_log chosen

  -- What a verdict says of the file.
  data Judged : LogName → Option LogName → Verdict → Type 0 where
    ended : (name : LogName) (to_log : Option LogName) → Judged name to_log ends
    ended_fatally : (name : LogName) (to_log : Option LogName) → Judged name to_log ends_fatally
    aged :
        (name : LogName) (to_log to_log' : Option LogName)
        → IsAged name
        → (to_log' ≡ to_log) ⊎ (to_log' ≡ some name)
        → Judged name to_log (goes_on to_log')

  module _ (normalize : LogName → Option LogName) where
    judge_stat-Judged :
        (name : LogName) (to_log : Option LogName) (s : Stat)
        → f.active name ≡ false
        → f.stat name ≡ s
        → Judged name to_log (judge_stat normalize f modified purge_time name to_log s)
    unfolding judge_stat
    judge_stat-Judged name to_log missing a s = aged name to_log to_log (a, inl s) (inl refl)
    judge_stat-Judged name to_log unreadable a s = ended_fatally name to_log
    judge_stat-Judged name to_log (present size) a s =
        if_cases (Judged name to_log) (ltb (modified name) purge_time)
          (λ old.
            if_cases (Judged name to_log) (f.in_use name) (λ _. ended name to_log)
              (λ free. aged name to_log (some name) (a, inr (ltb→lt _ _ old, free)) (inr refl)))
          (λ _. ended name to_log)

    judge-Judged :
        (name : LogName) (to_log : Option LogName)
        → Judged name to_log (judge normalize f modified purge_time name to_log)
    unfolding judge
    judge-Judged name to_log =
        if_cases (Judged name to_log) (f.active name) (λ _. ended name to_log)
          (λ a. judge_stat-Judged name to_log (f.stat name) a refl)

    abbrev Rounds : Type 0
    Rounds = LogInfo → Option LogName → Option LogName × Option IndexError

    follow-UpTo :
        (continue : Rounds) (i : Index) (p : ℕ) (x : LogName) (xs : List LogName)
        (next : LogInfo × Option IndexError) (to_log : Option LogName) (v : Verdict)
        → Next i p xs next
        → ((y : LogName) (ys : List LogName) (l' : LogInfo) (to_log' : Option LogName)
            → xs ≡ y ∷ ys
            → IsAt i l' (suc p) y ys
            → UpTo xs to_log' (continue l' to_log').0)
        → Judged x to_log v
        → UpTo (x ∷ xs) to_log (follow normalize f modified purge_time continue next to_log v).0
    unfolding follow
    follow-UpTo continue i p x xs next to_log _ n further (ended _ _) = unchanged (x ∷ xs) to_log
    follow-UpTo continue i p x xs next to_log _ n further (ended_fatally _ _) =
        unchanged (x ∷ xs) to_log
    follow-UpTo continue i p x xs (l, some e) to_log _ n further (aged _ _ to_log' a c) =
        passed x xs to_log to_log' to_log' a c (unchanged xs to_log')
    follow-UpTo continue i p x [] (l, none) to_log _ n further (aged _ _ to_log' a c) = cc
    follow-UpTo continue i p x (y ∷ ys) (l, none) to_log _ n further (aged _ _ to_log' a c) =
        passed x (y ∷ ys) to_log to_log' _ a c (further y ys l to_log' refl n.0)

    pub loop-UpTo :
        (fuel : ℕ) (i : Index) (l : LogInfo) (p : ℕ) (x : LogName) (xs : List LogName)
        (to_log : Option LogName)
        → length xs < fuel
        → i.inited ≡ true
        → All (λ (n : LogName). normalize n ≡ some n) xs
        → IsAt i l p x xs
        → UpTo (x ∷ xs) to_log (date_loop normalize f modified purge_time fuel i l to_log).0
    unfolding date_loop date_round
    loop-UpTo zero i l p x xs to_log h opened full at = absurd (omega arith)
    loop-UpTo (suc fuel) i l p x xs to_log h opened full at =
        let continue : Rounds =
          λ l' to_log'. date_loop normalize f modified purge_time fuel i l' to_log' in
        let same : date_round normalize f modified purge_time continue i l to_log l.log_file_name
            ≡ date_round normalize f modified purge_time continue i l to_log (some x) =
          ap (date_round normalize f modified purge_time continue i l to_log) at.1 in
        rw same (
          follow-UpTo continue i p x xs (find_next_log normalize i l) to_log
            (judge normalize f modified purge_time x to_log)
            (find_next_log-Next normalize i l p x xs opened full at)
            (λ y ys l' to_log' e at'.
              let full' : All (λ (n : LogName). normalize n ≡ some n) (y ∷ ys) = rw e at full in
              rw e (
                loop-UpTo fuel i l' (suc p) y ys to_log' (omega (arith, ap length e)) opened full'.1
                  at'))
            (judge-Judged x to_log))
