-- ===== src/Applier/Payload/Names.antt =====
-- Which databases a payload event is marked with.
use knowledge_base.Base.{
  ℕ, ◌+◌, ◌≤◌, ◌<◌, ◌==◌, ◌≡◌, refl, ap, Bool, true, false, not, ◌&&◌, ◌||◌, Option, none, some,
  List, [], ◌∷◌, length, contains, if◌then◌else◌, if_cases, arith,
}
use knowledge_base.Applier.Payload.{
  MtsDbNames, over_max, names, Inner, unfold_transaction_payload_event, insert_db, Dbs, add_names,
  add_dbs, add_event, add_events, set_multi_threaded_applier_context, payload_dbs,
  transaction_payload_event,
}

-- The names ascend strictly, so none is there twice.
abbrev pub Ascends : List ℕ → Type 0
Ascends [] = Unit {0}
Ascends (x ∷ []) = Unit {0}
Ascends (x ∷ y ∷ xs) = (x < y) × Ascends (y ∷ xs)

insert_db-Ascends : (k : ℕ) (xs : List ℕ) → Ascends xs → Ascends (insert_db k xs)
unfolding insert_db
insert_db-Ascends k [] a = tt
insert_db-Ascends k (x ∷ []) a = ground arith
insert_db-Ascends k (x ∷ y ∷ xs) a = ground (arith, insert_db-Ascends k (y ∷ xs) a.1)

length-insert_db : (k : ℕ) (xs : List ℕ) → length (insert_db k xs) ≤ length xs + 1
unfolding insert_db
length-insert_db k [] = omega arith
length-insert_db k (x ∷ xs) = ground (arith, length-insert_db k xs)

contains-insert_db :
    (k j : ℕ) (xs : List ℕ) → contains j (insert_db k xs) ≡ (k == j || contains j xs)
unfolding insert_db contains
contains-insert_db k j [] = ground arith
contains-insert_db k j (x ∷ xs) = ground (arith, contains-insert_db k j xs)

-- An event that forces the whole payload to run in isolation.
abbrev pub isolates : Inner → Bool
isolates e =
    e.contains_partition_info
    && ((e.is_query_event && (e.is_xa_commit || e.is_xa_rollback))
        || elim e.mts_dbs [ over_max ↦ true | names ks ↦ false ])

-- An event that touches the database.
abbrev pub touches : ℕ → Inner → Bool
touches k e =
    e.contains_partition_info && elim e.mts_dbs [ over_max ↦ false | names ks ↦ contains k ks ]

abbrev pub some_event : (Inner → Bool) → List Inner → Bool
some_event p [] = false
some_event p (e ∷ es) = p e || some_event p es

-- The set is sorted, and smaller than the limit.
abbrev IsSmall : ℕ → List ℕ → Type 0
IsSmall max_dbs dbs = Ascends dbs × (length dbs < max_dbs)

module _ (max_dbs : ℕ) where
  add_names-exact :
      (ks dbs : List ℕ)
      → (add_names max_dbs ks dbs).max_mts_dbs_in_event ≡ false
      → IsSmall max_dbs dbs
      → IsSmall max_dbs (add_names max_dbs ks dbs).dbs
        × ((j : ℕ) → contains j (add_names max_dbs ks dbs).dbs ≡ (contains j ks || contains j dbs))
  unfolding add_names contains
  add_names-exact [] dbs = λ h s. (s, λ j. refl)
  add_names-exact (k ∷ ks) dbs =
      if_cases
        (λ (d : Dbs).
          d.max_mts_dbs_in_event ≡ false
          → IsSmall max_dbs dbs
          → IsSmall max_dbs d.dbs
            × ((j : ℕ) → contains j d.dbs ≡ ((k == j || contains j ks) || contains j dbs)))
        (length (insert_db k dbs) == max_dbs) (λ _ h s. cc)
        λ full h s.
          let small : IsSmall max_dbs (insert_db k dbs) =
            (insert_db-Ascends k dbs s.0, ground (arith, s, full, length-insert_db k dbs)) in
          let (small', exact) = add_names-exact ks (insert_db k dbs) h small in
          (small', λ j. ground (arith, exact j, contains-insert_db k j dbs))

  -- What adding the event `e` to `s` has done, if the set `d` is not given up.
  abbrev Added : Inner → Dbs → Dbs → Type 0
  Added e s d =
      (s.max_mts_dbs_in_event ≡ false)
      × (isolates e ≡ false)
      × (IsSmall max_dbs s.dbs
          → IsSmall max_dbs d.dbs
            × ((j : ℕ) → contains j d.dbs ≡ (touches j e || contains j s.dbs)))

  add_dbs-exact :
      (e : Inner) (s : Dbs) (m : MtsDbNames)
      → e.mts_dbs ≡ m
      → (s.max_mts_dbs_in_event || not e.contains_partition_info) ≡ false
      → (e.is_query_event && (e.is_xa_commit || e.is_xa_rollback)) ≡ false
      → (add_dbs max_dbs m s).max_mts_dbs_in_event ≡ false
      → Added e s (add_dbs max_dbs m s)
  unfolding add_dbs
  add_dbs-exact e s over_max m seen plain h = cc
  add_dbs-exact e s (names ks) m seen plain h = (
    ground arith,
    ground arith,
    λ small.
        let (small', exact) = add_names-exact ks s.dbs h small in
        (small', λ j. ground (arith, exact j, m)),
  )

  -- Adding one event to a set that is not yet given up.
  add_event-exact :
      (e : Inner) (s : Dbs)
      → (add_event max_dbs e s).max_mts_dbs_in_event ≡ false
      → Added e s (add_event max_dbs e s)
  unfolding add_event
  add_event-exact e s =
      if_cases (λ (d : Dbs). d.max_mts_dbs_in_event ≡ false → Added e s d)
        (s.max_mts_dbs_in_event || not e.contains_partition_info)
        (λ skipped h. (h, ground (arith, h), λ small. (small, λ j. ground (arith, h))))
        λ seen.
          if_cases (λ (d : Dbs). d.max_mts_dbs_in_event ≡ false → Added e s d)
            (e.is_query_event && (e.is_xa_commit || e.is_xa_rollback)) (λ _ h. cc)
            λ plain h. add_dbs-exact e s e.mts_dbs refl seen plain h

  add_events-exact :
      (es : List Inner) (s : Dbs)
      → (add_events max_dbs es s).max_mts_dbs_in_event ≡ false
      → (s.max_mts_dbs_in_event ≡ false)
        × (some_event isolates es ≡ false)
        × (IsSmall max_dbs s.dbs
            → IsSmall max_dbs (add_events max_dbs es s).dbs
              × ((j : ℕ)
                  → contains j (add_events max_dbs es s).dbs
                    ≡ (some_event (touches j) es || contains j s.dbs)))
  unfolding add_events
  add_events-exact [] s h = (h, refl, λ small. (small, λ j. refl))
  add_events-exact (e ∷ es) s h =
      let (go, quiet, rest) = add_events-exact es (add_event max_dbs e s) h in
      let (go', quiet', this) = add_event-exact e s go in
      (
        go',
        ground (arith, quiet, quiet'),
        λ small.
            let (small', exact) = this small in
            let (small'', exact') = rest small' in
            (small'', λ j. ground (arith, exact j, exact' j)),
      )

marked :
    (max_dbs : ℕ) (events : List Inner) (s : Dbs) (dbs : List ℕ)
    → add_events max_dbs events (record { dbs = []; max_mts_dbs_in_event = false }) ≡ s
    → 0 < max_dbs
    → (if s.max_mts_dbs_in_event then over_max else names s.dbs) ≡ names dbs
    → (some_event isolates events ≡ false)
      × Ascends dbs
      × (length dbs < max_dbs)
      × ((j : ℕ) → contains j dbs ≡ some_event (touches j) events)
unfolding contains
marked max_dbs events s dbs e pos h =
    let found : s.dbs ≡ dbs = ground arith in
    let s₀ : Dbs = record { dbs = []; max_mts_dbs_in_event = false } in
    let (_, quiet, rest) = add_events-exact max_dbs events s₀ (rw e (ground arith)) in
    let (small, exact) = rest (tt, pos) in
    rw (← found, ← e) (quiet, small.0, small.1, λ j. ground (arith, exact j))

-- A payload event is marked with a list of databases only if that is right for the events in front of
-- the first that cannot be deserialized, which are all its events if each can be: none of them has to run
-- in isolation, and the list holds, in order and without repetition, exactly the databases that they
-- touch, fewer than the limit. Of the events behind it nothing is said.
pub set_multi_threaded_applier_context-exact :
    (max_dbs : ℕ) (payload : List (Option Inner)) (dbs : List ℕ)
    → 0 < max_dbs
    → (set_multi_threaded_applier_context max_dbs (transaction_payload_event payload)).0
      ≡ some (names dbs)
    → let events = (unfold_transaction_payload_event payload).0 in
      (some_event isolates events ≡ false)
      × Ascends dbs
      × (length dbs < max_dbs)
      × ((j : ℕ) → contains j dbs ≡ some_event (touches j) events)
unfolding set_multi_threaded_applier_context payload_dbs
set_multi_threaded_applier_context-exact max_dbs payload dbs pos h =
    let events = (unfold_transaction_payload_event payload).0 in
    let same : payload_dbs max_dbs events ≡ names dbs =
      ap (λ (o : Option MtsDbNames). elim o [ none ↦ over_max | some d ↦ d ]) h in
    marked max_dbs events (add_events max_dbs events _) dbs refl pos same
