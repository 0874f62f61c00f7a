-- ===== src/Abstraction/Symbol/Equality.antt =====
-- The comparison of symbols is an equivalence that their hash respects, and independence is a
-- symmetric relation.
use liss.Common.{ℕ, ◌≡◌, ◌≢◌, ◌⊎◌, refl, ◌↔◌, true, false, arith, ◌∙◌, sym}
use liss.Common.Int.{ℤ, ==ℤ_iff}
use liss.Abstraction.Symbol.{
  Symbol, Location, write, no_tag, symbol_eq, symbol_hash, code, is_preemption_point,
  is_unlockable_point, independent, thread_id, yield,
}

-- What `symbol_eq` compares: two tags by place and branch, two others by place, operation and
-- variable.
abbrev pub Same : Symbol → Symbol → Type 0
Same s t =
    (s.loc.thread ≡ t.loc.thread)
    × (s.loc.state ≡ t.loc.state)
    × (s.tag_branch ≡ t.tag_branch)
    × (s.tag_branch ≡ no_tag → (code s.operation ≡ code t.operation) × (s.variable ≡ t.variable))

pub symbol_eq_iff : (s t : Symbol) → (symbol_eq s t ≡ true) ↔ Same s t
unfolding symbol_eq
symbol_eq_iff s t = ground (
  arith,
  ==ℤ_iff s.loc.state t.loc.state,
  ==ℤ_iff s.tag_branch no_tag,
  ==ℤ_iff t.tag_branch no_tag,
  ==ℤ_iff t.tag_branch s.tag_branch,
)

-- `symbol::operator==` is reflexive.
pub symbol_eq_refl : (s : Symbol) → symbol_eq s s ≡ true
symbol_eq_refl s = (symbol_eq_iff s s).1 (refl, refl, refl, λ _. (refl, refl))

pub symbol_eq_sym : (s t : Symbol) → symbol_eq s t ≡ true → symbol_eq t s ≡ true
symbol_eq_sym s t h =
    let (a, b, c, d) = (symbol_eq_iff s t).0 h in
    (symbol_eq_iff t s).1 (sym a, sym b, sym c, λ e. (sym (d (c ∙ e)).0, sym (d (c ∙ e)).1))

pub symbol_eq_trans :
    (s t u : Symbol) → symbol_eq s t ≡ true → symbol_eq t u ≡ true → symbol_eq s u ≡ true
symbol_eq_trans s t u h k =
    let (a, b, c, d) = (symbol_eq_iff s t).0 h in
    let (a', b', c', d') = (symbol_eq_iff t u).0 k in
    (symbol_eq_iff s u).1
      (a ∙ a', b ∙ b', c ∙ c', λ e. ((d e).0 ∙ (d' (sym c ∙ e)).0, (d e).1 ∙ (d' (sym c ∙ e)).1))

-- `symbol::operator==` is an equivalence relation.
pub symbol_eq_equivalence :
    (s t u : Symbol)
    → (symbol_eq s s ≡ true)
      × (symbol_eq s t ≡ true → symbol_eq t s ≡ true)
      × (symbol_eq s t ≡ true → symbol_eq t u ≡ true → symbol_eq s u ≡ true)
symbol_eq_equivalence s t u = (symbol_eq_refl s, symbol_eq_sym s t, symbol_eq_trans s t u)

-- Symbols that compare equal have the same hash, whatever the library's `hash_combine` and the
-- hashes of a place and of an integer are.
pub symbol_hash-respects :
    (combine : ℕ → ℕ → ℕ) (hash_loc : Location → ℕ) (hash_int : ℤ → ℕ) (s t : Symbol)
    → symbol_eq s t ≡ true
    → symbol_hash combine hash_loc hash_int s ≡ symbol_hash combine hash_loc hash_int t
unfolding symbol_hash
symbol_hash-respects combine hash_loc hash_int s t h =
    let (a, b, c, d) = (symbol_eq_iff s t).0 h in
    let place : s.loc ≡ t.loc = λ i. record { thread = a i; state = b i } in
    ground (arith, place, c, d, ==ℤ_iff s.tag_branch no_tag, ==ℤ_iff t.tag_branch no_tag)

-- A point at which no lock may be held is a point at which the scheduler may switch, and the only
-- other such points are yields.
pub preemption_points :
    (s : Symbol)
    → (is_unlockable_point s ≡ true → is_preemption_point s ≡ true)
      × (is_preemption_point s ≡ true → is_unlockable_point s ≡ false → s.operation ≡ yield)
unfolding is_unlockable_point is_preemption_point
preemption_points s = (ground arith, ground arith)

-- Independence is symmetric, and two dependent symbols of different threads touch one variable
-- and one of them writes it.
pub independent_lem :
    (a b : Symbol)
    → (independent a b ≡ independent b a)
      × (independent a b ≡ false
          → thread_id a ≢ thread_id b
          → (a.variable ≡ b.variable) × ((a.operation ≡ write) ⊎ (b.operation ≡ write)))
unfolding independent
independent_lem a b = (ground arith, ground arith)
