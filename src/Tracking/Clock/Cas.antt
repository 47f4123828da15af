-- ===== src/Tracking/Clock/Cas.antt =====
-- The compare-and-exchange loop of Logical_clock::set_if_greater, under interference.
use knowledge_base.Base.{
  ℕ, zero, suc, ◌≤◌, ℤ, pos, ◌+ℤ◌, ◌-ℤ◌, ◌≤ℤ◌, ◌<ℤ◌, ltb_ℤ, leb_ℤ, eqb_ℤ, max_ℤ, ◌≡◌, refl, Option,
  some, arith, int_laws, ≤ℤ_trans, ltb_false→le, +ℤ_parts, -ℤ_parts, eqb_ℤ→eq, if◌then◌else◌, inl,
  inr, true, false, ltb→lt, Bool-cases, ◌-◌,
}
use knowledge_base.Tracking.Clock.{LogicalClock, cas_loop, set_if_greater, seq_uninit}

-- The other threads only ever move the clock forward.
abbrev pub IsForward : (ℕ → ℤ → ℤ) → Type 0
IsForward others = (f : ℕ) (s : ℤ) → s ≤ℤ others f s

-- The loop ended with the state that it returns, at or above the new value and the old state.
abbrev pub Raised : ℤ → ℤ → Option (ℤ × ℤ) → Type 0
Raised new_val state r = (s : ℤ) × (r ≡ some (s, s)) × (new_val ≤ℤ s) × (state ≤ℤ s)

closer :
    (seen state new_val : ℤ) (n : ℕ)
    → state ≤ℤ seen
    → eqb_ℤ seen state ≡ false
    → new_val ≤ℤ state +ℤ pos n
    → new_val ≤ℤ seen +ℤ pos (n - 1)
closer seen state new_val n h e near =
    ground (arith, +ℤ_parts state (pos n), +ℤ_parts seen (pos (n - 1)))

before :
    (seen state new_val : ℤ)
    → state ≤ℤ seen
    → eqb_ℤ seen (new_val -ℤ pos 1) ≡ true
    → state ≤ℤ new_val
before seen state new_val h e = ground (arith, -ℤ_parts new_val (pos 1))

-- One attempt: it succeeds, or it sees a state to go on from, or it sees one that is high enough.
attempt-Raised :
    (f : ℕ) (others : ℕ → ℤ → ℤ) (new_val state old_val : ℤ)
    → IsForward others
    → old_val <ℤ new_val
    → (eqb_ℤ (others f state) old_val ≡ true → state ≤ℤ new_val)
    → (eqb_ℤ (others f state) old_val ≡ false
        → others f state <ℤ new_val
        → Raised new_val
            (others f state)
            (cas_loop f others new_val (others f state) (others f state)))
    → Raised new_val state (cas_loop (suc f) others new_val state old_val)
unfolding cas_loop
attempt-Raised f others new_val state old_val fwd below hit more =
    elim (Bool-cases (eqb_ℤ (others f state) old_val)) [
      | inl e ↦ rw e (new_val, refl, omega arith, hit e)
      | inr e ↦ elim (Bool-cases (ltb_ℤ (others f state) new_val)) [
        | inl l ↦
            let (s, r, a, b) = more e (ltb→lt _ _ l) in
            rw (e, l) (s, r, a, ≤ℤ_trans state (others f state) s (fwd f state) b)
        | inr l ↦ rw (e, l) (others f state, refl, ltb_false→le _ _ l, fwd f state)
      ]
    ]

-- From the second attempt on, the expected value is the state that the attempt before saw.
retry-Raised :
    (f n : ℕ) (others : ℕ → ℤ → ℤ) (new_val state : ℤ)
    → IsForward others
    → state <ℤ new_val
    → new_val ≤ℤ state +ℤ pos n
    → n ≤ f
    → Raised new_val state (cas_loop f others new_val state state)
retry-Raised zero n others new_val state fwd below near enough = absurd (omega int_laws)
retry-Raised (suc f) n others new_val state fwd below near enough =
    attempt-Raised f others new_val state state fwd below (λ _. omega arith)
      λ e l.
        retry-Raised f (n - 1) others new_val (others f state) fwd l
          (closer (others f state) state new_val n (fwd f state) e near) (omega arith)

-- With at least the distance to the new value as fuel, the loop ends whatever the other threads do.
-- It returns the state that it leaves.
pub cas_loop-Raised :
    (n : ℕ) (others : ℕ → ℤ → ℤ) (new_val state : ℤ)
    → IsForward others
    → new_val ≤ℤ state +ℤ pos n
    → Raised new_val state (cas_loop (suc n) others new_val state (new_val -ℤ pos 1))
cas_loop-Raised n others new_val state fwd near =
    attempt-Raised n others new_val state (new_val -ℤ pos 1) fwd (omega int_laws)
      (λ e. before (others n state) state new_val (fwd n state) e)
      λ e l.
        retry-Raised n n others new_val (others n state) fwd l
          (≤ℤ_trans new_val (state +ℤ pos n) (others n state +ℤ pos n) near
            (omega (int_laws, fwd n state)))
          (omega arith)

-- Without interference two rounds suffice, and the state becomes the maximum.
cas_loop_alone :
    (new_val state : ℤ)
    → cas_loop 2 (λ f s. s) new_val state (new_val -ℤ pos 1)
      ≡ some (max_ℤ state new_val, max_ℤ state new_val)
unfolding cas_loop max_ℤ ◌-ℤ◌
cas_loop_alone new_val state = ground (arith, eqb_ℤ→eq state (new_val -ℤ pos 1))

-- Alone, two rounds suffice for any state and value, and a value above the offset leaves the maximum
-- of the two: state = max(state, new_value).
pub set_if_greater-max :
    (c : LogicalClock) (new_val : ℤ)
    → set_if_greater 2 (λ f s. s) c new_val ≡ (
        if leb_ℤ new_val c.offset
        then some (c, seq_uninit)
        else some (record c { state = max_ℤ c.state new_val }, max_ℤ c.state new_val))
unfolding set_if_greater
set_if_greater-max c new_val = rw (cas_loop_alone new_val c.state)
