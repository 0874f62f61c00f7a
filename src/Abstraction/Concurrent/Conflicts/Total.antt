-- ===== src/Abstraction/Concurrent/Conflicts/Total.antt =====
-- The check of the conflicts never breaks an assertion, stays in range, throws nothing and ends
-- within its fuel, and it keeps what it needs for the next time.
use liss.Common.{
  ℕ, zero, suc, ◌+◌, ◌%◌, ◌≤◌, ◌<◌, ◌≡◌, ◌⊎◌, inl, inr, refl, sym, ◌∙◌, Bool, true, false, ◌||◌,
  List, [], ◌∷◌, ◌++◌, Option, none, some, arith, ltb, ◌==◌, if◌then◌else◌, get_elem?, set, any,
  All, All-append, All-get_elem?, length, length-set, get_elem?-some, Bool-cases, subst,
}
use liss.Types.Tagged.{mask, max_payload, tagged_int, set_payload, tagged_set, tagged_test, payload}
use liss.Abstraction.Symbol.{Symbol, tag, op_eq, thread_id, symbol_eq, is_real_epsilon}
use liss.Abstraction.State.{ConcurrentState}
use liss.Abstraction.Concurrent.Defs.{ConflictInfo, ConcurrentAutomaton}
use liss.Abstraction.Concurrent.Conflicts.{
  Checked, forbidden, allowed, broken, out_of_fuel, covers, tick_bit, tick_lock, insert, contains,
  Verdict, keep, delete, escalate, tick, stop, judge_clean, judge_tagged, judge, conflict_loop,
  weight, fuel_for, start_conflicts, apply_bad_trace_dnf,
}

-- The word of a conflict that is one of `n`.
abbrev pub IsConflict : ℕ → ℕ → Type 0
IsConflict n c = (c < 0x10000) × (c % mask < n)

abbrev pub LockBelow : ℕ → Option ℕ → Type 0
LockBelow k none = Unit
LockBelow k (some l) = l < k

abbrev pub LockOf : ℕ → ConflictInfo → Type 0
LockOf k ci = LockBelow k ci.lock_id

-- A check that says yes or no, and in the first case gives `n`-conflicts and `k` bits.
abbrev pub Answers : ℕ → ℕ → Checked → Type 0
Answers n k forbidden = Unit
Answers n k (allowed cs vs) = All (IsConflict n) cs × (length vs ≡ k)
Answers n k broken = ⊥
Answers n k out_of_fuel = ⊥

tick_lock_cases :
    (patterns : List (List Bool)) (cs : List ℕ) (vs : List Bool) (lock : Option ℕ)
    → LockBelow (length vs) lock
    → (tick_lock patterns cs vs lock ≡ forbidden)
      ⊎ ((vs' : List Bool) × (tick_lock patterns cs vs lock ≡ allowed cs vs')
          × (length vs' ≡ length vs))
unfolding tick_lock
tick_lock_cases patterns cs vs none h = inl refl
tick_lock_cases patterns cs vs (some l) h = let (b, e) = get_elem?-some vs l h in go b e
  where
    go :
        (b : Bool)
        → get_elem? vs l ≡ some b
        → (tick_bit patterns cs vs l ≡ forbidden)
          ⊎ ((vs' : List Bool) × (tick_bit patterns cs vs l ≡ allowed cs vs')
              × (length vs' ≡ length vs))
    go true e = inr (vs, rw (e, tick_bit), refl)
    go false e = elim (Bool-cases (any (covers (set vs l true)) patterns)) [
      | inl bad ↦ inl (rw (e, tick_bit) (rw bad))
      | inr good ↦ inr (set vs l true, rw (e, tick_bit) (rw good), length-set vs l true)
    ]

All-insert {κ} : (P : ℕ → Type κ) (c : ℕ) (cs : List ℕ) → P c → All P cs → All P (insert c cs)
unfolding insert
All-insert P c [] p h = (p, tt)
All-insert P c (d ∷ ds) p h = elim (Bool-cases (ltb c d)) [
  | inl first ↦ rw first (p, h)
  | inr later ↦ elim (Bool-cases (c == d)) [
    | inl same ↦ rw (later, same) h
    | inr other ↦ rw (later, other) (h.0, All-insert P c ds p h.1)
  ]
]

fuel_for-insert : (c : ℕ) (cs : List ℕ) → fuel_for (insert c cs) ≤ weight c + fuel_for cs
unfolding insert
fuel_for-insert c [] = omega arith
fuel_for-insert c (d ∷ ds) = ground (arith, fuel_for-insert c ds)

-- What a verdict on a conflict of weight `w` can be.
abbrev Sound : ℕ → ℕ → ℕ → Verdict → Type 0
Sound n k w keep = Unit
Sound n k w delete = Unit
Sound n k w (escalate c') = IsConflict n c' × (weight c' < w)
Sound n k w (tick lock) = LockBelow k lock
Sound n k w stop = ⊥

judge_clean-Sound :
    (n k : ℕ) (ci : ConflictInfo) (sigma : Symbol) (c : ℕ)
    → n ≤ suc max_payload
    → IsConflict n c
    → c < mask
    → Sound n k (weight c) (judge_clean ci sigma c)
unfolding judge_clean tagged_set
judge_clean-Sound n k ci sigma c hn h lt =
    elim (Bool-cases (thread_id ci.next == thread_id sigma)) [
      | inl mine ↦ rw mine tt
      | inr other ↦ elim (Bool-cases (contains sigma ci.conflict)) [
        | inl hit ↦ rw (other, hit) (clean (Bool-cases (c == 0xffff)))
        | inr miss ↦ rw (other, miss) tt
      ]
    ]
  where
    clean :
        (c == 0xffff ≡ true) ⊎ (c == 0xffff ≡ false)
        → Sound n k (weight c) (elim (if c == 0xffff then none else some (c % mask + mask)) [
          | none ↦ stop
          | some c' ↦ escalate c'
        ])
    clean (inl e) = absurd (ground arith)
    clean (inr e) = rw e ((omega arith, omega arith), ground arith)

judge_tagged-Sound :
    (n k w : ℕ) (ci : ConflictInfo) (sigma : Symbol)
    → LockOf k ci
    → Sound n k w (judge_tagged ci sigma)
unfolding judge_tagged
judge_tagged-Sound n k w ci sigma h = elim (Bool-cases (thread_id ci.next == thread_id sigma)) [
  | inr other ↦ rw other tt
  | inl mine ↦ elim (Bool-cases (symbol_eq sigma ci.next)) [
    | inl hit ↦ rw (mine, hit) h
    | inr miss ↦ rw (mine, miss) tt
  ]
]

payload-some : (n c : ℕ) → n ≤ suc max_payload → IsConflict n c → payload c ≡ some (c % mask)
unfolding payload
payload-some n c hn h = ground arith

tagged_test-some :
    (n c : ℕ)
    → n ≤ suc max_payload
    → IsConflict n c
    → tagged_test c ≡ some (if ltb c mask then false else true)
unfolding tagged_test
tagged_test-some n c hn h = ground arith

if-Sound :
    (b : Bool) (n k w : ℕ) (x y : Verdict)
    → (b ≡ true → Sound n k w x)
    → Sound n k w y
    → Sound n k w (if (if b then false else true) then y else x)
if-Sound true n k w x y hx hy = hx refl
if-Sound false n k w x y hx hy = hy

judge-Sound :
    (k : ℕ) (infos : List ConflictInfo) (sigma : Symbol) (c : ℕ)
    → length infos ≤ suc max_payload
    → All (LockOf k) infos
    → IsConflict (length infos) c
    → Sound (length infos) k (weight c) (judge infos sigma c)
unfolding judge
judge-Sound k infos sigma c hn locks h =
    let n = length infos in
    let (ci, at_c) = get_elem?-some infos (c % mask) h.1 in
    rw (payload-some n c hn h, judge, at_c, judge, tagged_test-some n c hn h)
      (if-Sound (ltb c mask) n k (weight c) (judge_clean ci sigma c) (judge_tagged ci sigma)
        (λ e. judge_clean-Sound n k ci sigma c hn h (ground arith))
        (judge_tagged-Sound n k (weight c) ci sigma
          (All-get_elem? (LockOf k) infos (c % mask) ci locks at_c)))

module _ (infos : List ConflictInfo) (patterns : List (List Bool)) (sigma : Symbol) (k : ℕ) where
  abbrev TotalOn : ℕ → Type 0
  TotalOn fuel =
      (done rest : List ℕ) (violated : List Bool)
      → fuel_for rest ≤ fuel
      → All (IsConflict (length infos)) done
      → All (IsConflict (length infos)) rest
      → length violated ≡ k
      → Answers (length infos) k (conflict_loop infos patterns sigma fuel done rest violated)

  conflict_round :
      (fuel : ℕ) (v : Verdict) (done rest : List ℕ) (c : ℕ) (violated : List Bool)
      → TotalOn fuel
      → judge infos sigma c ≡ v
      → Sound (length infos) k (weight c) v
      → weight c + fuel_for rest ≤ suc fuel
      → All (IsConflict (length infos)) done
      → IsConflict (length infos) c
      → All (IsConflict (length infos)) rest
      → length violated ≡ k
      → Answers
          (length infos)
          k
          (conflict_loop infos patterns sigma (suc fuel) done (c ∷ rest) violated)
  unfolding conflict_loop
  conflict_round fuel keep done rest c violated ih e h hf hd hc hr hk =
      rw (e, conflict_loop)
        (ih (done ++ c ∷ []) rest violated (ground arith)
          (All-append (IsConflict (length infos)) done (c ∷ []) hd (hc, tt)) hr hk)
  conflict_round fuel delete done rest c violated ih e h hf hd hc hr hk =
      rw (e, conflict_loop) (ih done rest violated (ground arith) hd hr hk)
  conflict_round fuel (escalate c') done rest c violated ih e h hf hd hc hr hk =
      rw (e, conflict_loop)
        (ih done (insert c' rest) violated (omega (arith, fuel_for-insert c' rest, h.1)) hd
          (All-insert (IsConflict (length infos)) c' rest h.0 hr) hk)
  conflict_round fuel (tick lock) done rest c violated ih e h hf hd hc hr hk =
      rw (e, conflict_loop)
        (elim (tick_lock_cases patterns rest violated lock
          (subst (λ j. LockBelow j lock) (sym hk) h)) [
            | inl bad ↦ rw bad tt
            | inr good ↦
                let (vs, eq, len) = good in rw eq (ih done rest vs (ground arith) hd hr (len ∙ hk))
          ])
  conflict_round fuel stop done rest c violated ih e h hf hd hc hr hk = absurd h

  conflict_loop-Answers :
      length infos ≤ suc max_payload → All (LockOf k) infos → (fuel : ℕ) → TotalOn fuel
  unfolding conflict_loop
  conflict_loop-Answers few locks fuel done [] violated hf hd hr hk = (hd, hk)
  conflict_loop-Answers few locks zero done (c ∷ rest) violated hf hd hr hk = absurd (ground arith)
  conflict_loop-Answers few locks (suc fuel) done (c ∷ rest) violated hf hd hr hk =
      conflict_round fuel (judge infos sigma c) done rest c violated
        (conflict_loop-Answers few locks fuel) refl (judge-Sound k infos sigma c few locks hr.0) hf
        hd hr.0 hr.1 hk

abbrev pub InRange : ℕ → Symbol × ℕ → Type 0
InRange n (s, i) = i < n

tagged_int-some : (n i : ℕ) → n ≤ suc max_payload → i < n → tagged_int (i % 65536) ≡ some i
unfolding tagged_int set_payload
tagged_int-some n i hn h = ground arith

start_conflicts-Answers :
    (n k : ℕ) (m : List (Symbol × ℕ)) (sigma : Symbol) (cs : List ℕ) (vs : List Bool)
    → n ≤ suc max_payload
    → All (InRange n) m
    → All (IsConflict n) cs
    → length vs ≡ k
    → Answers n k (start_conflicts m sigma cs vs)
unfolding start_conflicts
start_conflicts-Answers n k [] sigma cs vs hn hm hc hk = (hc, hk)
start_conflicts-Answers n k ((s, i) ∷ m) sigma cs vs hn hm hc hk =
    elim (Bool-cases (symbol_eq s sigma)) [
      | inl hit ↦
          rw (hit, tagged_int-some n i hn hm.0)
            (start_conflicts-Answers n k m sigma (insert i cs) vs hn hm.1
              (All-insert (IsConflict n) i cs (omega arith, omega arith) hc) hk)
      | inr miss ↦ rw miss (start_conflicts-Answers n k m sigma cs vs hn hm.1 hc hk)
    ]

-- At most 0x7fff conflicts, numbers in the map that are in range, locks of conflicts among the
-- bits of the state and conflicts of the state in range: then the check answers, so it breaks no
-- assertion, reads nothing out of bounds, throws nothing and ends within its fuel; and when it
-- allows the successor, the new conflicts are in range and the bits are as many as before.
pub apply_bad_trace_dnf-Answers :
    (a : ConcurrentAutomaton) (sigma : Symbol) (s : ConcurrentState)
    → length a.conflicts ≤ suc max_payload
    → All (InRange (length a.conflicts)) a.conflict_map
    → All (LockOf (length s.locksviolated)) a.conflicts
    → All (IsConflict (length a.conflicts)) s.conflicts
    → Answers (length a.conflicts) (length s.locksviolated) (apply_bad_trace_dnf a sigma s)
unfolding apply_bad_trace_dnf
apply_bad_trace_dnf-Answers a sigma s few map_ok locks ok =
    elim (Bool-cases (is_real_epsilon sigma || op_eq sigma.operation tag)) [
      | inl skip ↦ rw skip (ok, refl)
      | inr real ↦ rw real (
          finish
            (conflict_loop a.conflicts a.locks sigma (fuel_for s.conflicts) [] s.conflicts
              s.locksviolated)
            (conflict_loop-Answers a.conflicts a.locks sigma (length s.locksviolated) few locks
              (fuel_for s.conflicts) [] s.conflicts s.locksviolated (omega arith) tt ok refl))
    ]
  where
    finish :
        (c : Checked)
        → Answers (length a.conflicts) (length s.locksviolated) c
        → Answers (length a.conflicts) (length s.locksviolated) (elim c [
          | allowed conflicts violated ↦ start_conflicts a.conflict_map sigma conflicts violated
          | forbidden ↦ forbidden
          | broken ↦ broken
          | out_of_fuel ↦ out_of_fuel
        ])
    finish (allowed cs vs) h =
        start_conflicts-Answers (length a.conflicts) (length s.locksviolated) a.conflict_map sigma
          cs vs few map_ok h.0 h.1
    finish forbidden h = tt
    finish broken h = h
    finish out_of_fuel h = h
