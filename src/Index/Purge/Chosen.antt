-- ===== src/Index/Purge/Chosen.antt =====
-- Which files a purge takes from the index.
use mathlib.Core.List.{append-nil, append_assoc}
use knowledge_base.Base.{
  ℕ, zero, suc, ◌<◌, Bool, true, false, not, ◌&&◌, ◌||◌, Option, none, some, List, [], ◌∷◌, ◌++◌,
  drop, length, All, if◌then◌else◌, ◌≡◌, refl, sym, ap, ◌∙◌, ◌⊎◌, arith, if_cases, inl, inr,
}
use knowledge_base.Index.{LogName, IndexError, Index, LogInfo, same_name, find_next_log}
use knowledge_base.Index.Listing.{IsAt, Next, find_next_log-Next, drop-suc}
use knowledge_base.Index.Purge.{Files, busy, purge_round, purge_loop}

module _ (f : Files) (to_log : LogName) (included : Bool) where
  -- A purge up to to_log takes `removed` from the front of the index and leaves `kept`.
  pub data Purged : List LogName → List LogName → List LogName → Type 0 where
    at_end : Purged [] [] []
    stopped :
        (x : LogName) (xs : List LogName)
        → same_name to_log x ≡ true
        → included ≡ false
        → Purged (x ∷ xs) [] (x ∷ xs)
    held : (x : LogName) (xs : List LogName) → busy f x ≡ true → Purged (x ∷ xs) [] (x ∷ xs)
    last :
        (x : LogName) (xs : List LogName)
        → same_name to_log x ≡ true
        → included ≡ true
        → busy f x ≡ false
        → Purged (x ∷ xs) (x ∷ []) xs
    before :
        (x : LogName) (xs removed kept : List LogName)
        → same_name to_log x ≡ false
        → busy f x ≡ false
        → Purged xs removed kept
        → Purged (x ∷ xs) (x ∷ removed) kept

  module _ (normalize : LogName → Option LogName)
      (registers : (n : LogName) → f.register_fails n ≡ false) where
    abbrev pub Chosen :
        Index → List LogName → List LogName → LogInfo × List LogName × Option IndexError → Type 0
    Chosen i names registered r =
        (removed : List LogName) × ((kept : List LogName) × (Purged names removed kept
            × (r.1 ≡ registered ++ removed)
            × (drop r.0.index_file_start_offset i.entries ≡ kept)
            × (r.2 ≡ none)))

    abbrev Rounds : Type 0
    Rounds = LogInfo → List LogName → LogInfo × List LogName × Option IndexError

    stop_cases :
        (s k b : Bool) → ((s && not k) || b) ≡ true → ((s ≡ true) × (k ≡ false)) ⊎ (b ≡ true)
    stop_cases true false b h = inl (refl, refl)
    stop_cases true true b h = inr h
    stop_cases false k b h = inr h

    go_cases :
        (s k b : Bool)
        → ((s && not k) || b) ≡ false
        → (b ≡ false) × ((s ≡ false) ⊎ ((s ≡ true) × (k ≡ true)))
    go_cases true false b h = cc
    go_cases true true b h = (h, inr (refl, refl))
    go_cases false k b h = (h, inl refl)

    stays :
        (x : LogName) (xs : List LogName)
        → ((same_name to_log x && not included) || busy f x) ≡ true
        → Purged (x ∷ xs) [] (x ∷ xs)
    stays x xs h = elim (stop_cases (same_name to_log x) included (busy f x) h) [
      | inl (s, k) ↦ stopped x xs s k
      | inr b ↦ held x xs b
    ]

    -- What follows the registration of x, by what the next line is.
    round-end :
        (continue : Rounds) (i : Index) (p : ℕ) (x : LogName) (xs registered : List LogName)
        (r : LogInfo × Option IndexError)
        → drop p i.entries ≡ x ∷ xs
        → ((same_name to_log x && not included) || busy f x) ≡ false
        → Next i p xs r
        → ((y : LogName) (ys : List LogName) (l' : LogInfo)
            → xs ≡ y ∷ ys
            → IsAt i l' (suc p) y ys
            → Chosen i xs (registered ++ (x ∷ [])) (continue l' (registered ++ (x ∷ []))))
        → Chosen i
            (x ∷ xs)
            registered
            (elim r.1 as (λ _. LogInfo × List LogName × Option IndexError) [
              | some e ↦ (r.0, registered ++ (x ∷ []), none)
              | none ↦
                  if same_name to_log x
                  then (r.0, registered ++ (x ∷ []), none)
                  else continue r.0 (registered ++ (x ∷ []))
            ])
    round-end continue i p x [] registered (l', none) entries go next further = cc
    round-end continue i p x [] registered (l', some e) entries go (start, _) further = (
      x ∷ [],
      (
        [],
        (
          alone,
          refl,
          ap (λ (n : ℕ). drop n i.entries) start ∙ drop-suc p i.entries [] x entries,
          refl,
        ),
      ),
    )
      where
        alone : Purged (x ∷ []) (x ∷ []) []
        alone =
            let (free, how) = go_cases (same_name to_log x) included (busy f x) go in
            elim how [ inl s ↦ before x [] [] [] s free at_end | inr (s, k) ↦ last x [] s k free ]
    round-end continue i p x (y ∷ ys) registered (l', some e) entries go next further = cc
    round-end continue i p x (y ∷ ys) registered (l', none) entries go (at, _) further =
        let (free, how) = go_cases (same_name to_log x) included (busy f x) go in
        if_cases
          (λ (r : LogInfo × List LogName × Option IndexError). Chosen i (x ∷ y ∷ ys) registered r)
          (same_name to_log x)
          (λ s. (
            x ∷ [],
            (
              y ∷ ys,
              (
                last x (y ∷ ys) s (must how s) free,
                refl,
                ap (λ (n : ℕ). drop n i.entries) at.2 ∙ at.0,
                refl,
              ),
            ),
          ))
          (λ s.
            let (removed, (kept, (purged, grown, left, quiet))) = further y ys l' refl at in
            (
              x ∷ removed,
              (
                kept,
                (
                  before x (y ∷ ys) removed kept s free purged,
                  grown ∙ append_assoc registered (x ∷ []) removed,
                  left,
                  quiet,
                ),
              ),
            ))
      where
        must :
            ((same_name to_log x ≡ false) ⊎ ((same_name to_log x ≡ true) × (included ≡ true)))
            → same_name to_log x ≡ true
            → included ≡ true
        must (inl n) s = cc
        must (inr (_, k)) s = k

    -- A round at x whose further rounds do their part.
    round-Chosen :
        (continue : Rounds) (i : Index) (l : LogInfo) (p : ℕ) (x : LogName)
        (xs registered : List LogName)
        → i.inited ≡ true
        → All (λ (n : LogName). normalize n ≡ some n) xs
        → IsAt i l p x xs
        → ((y : LogName) (ys : List LogName) (l' : LogInfo)
            → xs ≡ y ∷ ys
            → IsAt i l' (suc p) y ys
            → Chosen i xs (registered ++ (x ∷ [])) (continue l' (registered ++ (x ∷ []))))
        → Chosen i
            (x ∷ xs)
            registered
            (purge_round normalize f continue i to_log included l registered (some x))
    unfolding purge_round
    round-Chosen continue i l p x xs registered opened full at further =
        if_cases
          (λ (r : LogInfo × List LogName × Option IndexError). Chosen i (x ∷ xs) registered r)
          ((same_name to_log x && not included) || busy f x)
          (λ stop. (
            [],
            (
              x ∷ xs,
              (
                stays x xs stop,
                sym (append-nil registered),
                ap (λ (n : ℕ). drop n i.entries) at.2 ∙ at.0,
                refl,
              ),
            ),
          ))
          (λ go.
            if_cases
              (λ (r : LogInfo × List LogName × Option IndexError). Chosen i (x ∷ xs) registered r)
              (f.register_fails x) (λ fails. absurd (ground (arith, fails, registers x)))
              (λ _.
                round-end continue i p x xs registered (find_next_log normalize i l) at.0 go
                  (find_next_log-Next normalize i l p x xs opened full at) further))

    pub loop-Chosen :
        (fuel : ℕ) (i : Index) (l : LogInfo) (p : ℕ) (x : LogName) (xs registered : List LogName)
        → length xs < fuel
        → i.inited ≡ true
        → All (λ (n : LogName). normalize n ≡ some n) xs
        → IsAt i l p x xs
        → Chosen i (x ∷ xs) registered (purge_loop normalize f fuel i to_log included l registered)
    unfolding purge_loop
    loop-Chosen zero i l p x xs registered h opened full at = absurd (omega arith)
    loop-Chosen (suc fuel) i l p x xs registered h opened full at =
        let continue : Rounds =
          λ l' registered'. purge_loop normalize f fuel i to_log included l' registered' in
        let same : purge_round normalize f continue i to_log included l registered l.log_file_name
            ≡ purge_round normalize f continue i to_log included l registered (some x) =
          ap (purge_round normalize f continue i to_log included l registered) at.1 in
        rw same (
          round-Chosen continue i l p x xs registered opened full at (λ y ys l' e at'.
            let full' : All (λ (n : LogName). normalize n ≡ some n) (y ∷ ys) = rw e at full in
            rw e (
              loop-Chosen fuel i l' (suc p) y ys (registered ++ (x ∷ []))
                (omega (arith, ap length e)) opened full'.1 at')))
