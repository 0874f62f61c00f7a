-- ===== src/Synthesis/Traces/Split.antt =====
-- Splitting at the preemption points: what `trim_list`, `split_list` and `remove_preemption` leave.
use liss.Common.{
  all-append, ◌≤◌, ◌≡◌, ◌≢◌, refl, ap, ◌↔◌, inl, inr, Bool, true, not, [], ◌∷◌, ◌++◌, arith, Option,
  none, some, leb, length, all, All, All-append, Bool-cases, Option-cases, subst, if◌then◌else◌,
}
use mathlib.Core.List.{reverse, reverse-append}
use liss.Types.{Disj}
use liss.Abstraction.Symbol.{Symbol, is_real_epsilon, is_preemption_point}
use liss.Synthesis.Traces.{
  LockList, LockLists, LockSymbols, ◌>>=◌, trim_front, pop_epsilons, trim_list, emit, split_from,
  split_list, split_lists, remove_from_disj, remove_preemption,
}

-- The rest of the front trim, and what it has cut.
trim_front_lem :
    (l : LockList) → (cut : LockList) × (l ≡ cut ++ trim_front l) × (all is_real_epsilon cut ≡ true)
unfolding trim_front
trim_front_lem [] = ([], refl, refl)
trim_front_lem (s ∷ l) = elim (Bool-cases (is_real_epsilon s)) [
  | inl e ↦
      let (cut, q, h) = trim_front_lem l in
      (s ∷ cut, rw (e, trim_front) (ap (λ t. s ∷ t) q), ground arith)
  | inr e ↦ ([], rw (e, trim_front), refl)
]

pop_epsilons-none : (l : LockList) → (pop_epsilons l ≡ none) ↔ (all is_real_epsilon l ≡ true)
unfolding pop_epsilons
pop_epsilons-none [] = (λ _. refl, λ _. refl)
pop_epsilons-none (s ∷ l) = ground (arith, pop_epsilons-none l)

pub all-reverse : (p : Symbol → Bool) (xs : LockList) → all p (reverse xs) ≡ all p xs
all-reverse p [] = refl
all-reverse p (x ∷ xs) = ground (
  arith,
  ap (all p) (reverse-append (x ∷ []) xs),
  all-append p (reverse xs) (x ∷ []),
  all-reverse p xs,
)

all-trim_front : (l : LockList) → all is_real_epsilon (trim_front l) ≡ all is_real_epsilon l
unfolding trim_front
all-trim_front [] = refl
all-trim_front (s ∷ l) = ground (arith, all-trim_front l)

-- The read of the last element of an empty vector in `trim_list` happens exactly on the lists that
-- hold nothing but epsilons.
pub trim_list-none : (l : LockList) → (trim_list l ≡ none) ↔ (all is_real_epsilon l ≡ true)
unfolding trim_list
trim_list-none l = ground (
  arith,
  pop_epsilons-none (reverse (trim_front l)),
  all-reverse is_real_epsilon (trim_front l),
  all-trim_front l,
)

abbrev no_switch : Symbol → Bool
no_switch s = not (is_preemption_point s)

-- A list in which the scheduler never switches, and that is not empty.
abbrev pub Uninterrupted : LockList → Type 0
Uninterrupted l = (all no_switch l ≡ true) × (l ≢ [])

all-trim_front_of :
    (p : Symbol → Bool) (l : LockList) → all p l ≡ true → all p (trim_front l) ≡ true
unfolding trim_front
all-trim_front_of p [] h = refl
all-trim_front_of p (s ∷ l) h = ground (arith, all-trim_front_of p l)

pop_epsilons-all :
    (p : Symbol → Bool) (l r : LockList) → pop_epsilons l ≡ some r → all p l ≡ true → all p r ≡ true
unfolding pop_epsilons
pop_epsilons-all p [] r e h = cc
pop_epsilons-all p (s ∷ l) r e h = ground (arith, pop_epsilons-all p l r)

trim_list-all :
    (p : Symbol → Bool) (l t : LockList) → trim_list l ≡ some t → all p l ≡ true → all p t ≡ true
unfolding trim_list
trim_list-all p l t e h = elim (Option-cases (pop_epsilons (reverse (trim_front l)))) [
  | inl q ↦ ground arith
  | inr (r, q) ↦ ground (
    arith,
    all-reverse p r,
    all-reverse p (trim_front l),
    all-trim_front_of p l h,
    pop_epsilons-all p (reverse (trim_front l)) r q,
  )
]

some-injective' {ℓ} : {A : Type ℓ} (a b : A) → some a ≡ some b → a ≡ b
some-injective' a b q = cc

emit-Uninterrupted :
    (segment : LockList) (result out : LockLists)
    → emit segment result ≡ some out
    → all no_switch segment ≡ true
    → All Uninterrupted result
    → All Uninterrupted out
unfolding emit
emit-Uninterrupted [] result out e h hr =
    subst (All Uninterrupted) (some-injective' result out e) hr
emit-Uninterrupted (s ∷ l) result out e h hr = elim (Option-cases (trim_list (s ∷ l))) [
  | inl q ↦ absurd (fails q)
  | inr (t, q) ↦ step t (rw q at e) (trim_list-all no_switch (s ∷ l) t q h)
]
  where
    fails : trim_list (s ∷ l) ≡ none → ⊥
    fails q = ground arith

    step :
        (t : LockList)
        → (some t >>= λ t'. some (elim t' [ [] ↦ result | x ∷ r ↦ result ++ (x ∷ r) ∷ [] ]))
          ≡ some out
        → all no_switch t ≡ true
        → All Uninterrupted out
    step [] q a = subst (All Uninterrupted) (some-injective' result out q) hr
    step (x ∷ r) q a =
        subst (All Uninterrupted) (some-injective' (result ++ (x ∷ r) ∷ []) out q)
          (All-append Uninterrupted result ((x ∷ r) ∷ []) hr ((a, λ z. cc), tt))

-- The inversion of a bind that gives a result.
>>=-eq-some {ℓ κ} :
    {A : Type ℓ} {B : Type κ} (m : Option A) (f : A → Option B) (b : B)
    → (m >>= f) ≡ some b
    → (a : A) × (m ≡ some a) × (f a ≡ some b)
>>=-eq-some none f b h = cc
>>=-eq-some (some a) f b h = (a, refl, h)

split_from-Uninterrupted :
    (segment list : LockList) (result out : LockLists)
    → split_from segment list result ≡ some out
    → all no_switch segment ≡ true
    → All Uninterrupted result
    → All Uninterrupted out
unfolding split_from
split_from-Uninterrupted segment [] result out e h hr = emit-Uninterrupted segment result out e h hr
split_from-Uninterrupted segment (s ∷ l) result out e h hr =
    elim (Bool-cases (is_preemption_point s)) [
      | inl q ↦
          let (mid, emitted, rest) =
            >>=-eq-some (emit segment result) (split_from [] l) out (rw (q, split_from) at e) in
          split_from-Uninterrupted [] l mid out rest refl
            (emit-Uninterrupted segment result mid emitted h hr)
      | inr q ↦
          split_from-Uninterrupted (segment ++ s ∷ []) l result out (rw (q, split_from) at e)
            (ground (arith, all-append no_switch segment (s ∷ []))) hr
    ]

split_lists-Uninterrupted :
    (lists result out : LockLists)
    → split_lists lists result ≡ some out
    → All Uninterrupted result
    → All Uninterrupted out
unfolding split_lists split_list
split_lists-Uninterrupted [] result out e h =
    subst (All Uninterrupted) (some-injective' result out e) h
split_lists-Uninterrupted (l ∷ lists) result out e h =
    let (mid, first, rest) = >>=-eq-some (split_list l result) (split_lists lists) out e in
    split_lists-Uninterrupted lists mid out rest
      (split_from-Uninterrupted [] l result mid first refl h)

-- A lock with at least two sides, none of which the scheduler can interrupt.
abbrev pub IsLock : LockLists → Type 0
IsLock lock = (2 ≤ length lock) × All Uninterrupted lock

remove_from_disj-IsLock :
    (dis out : Disj LockLists) → remove_from_disj dis ≡ some out → All IsLock out
unfolding remove_from_disj
remove_from_disj-IsLock [] out e = subst (All IsLock) (some-injective' [] out e) tt
remove_from_disj-IsLock (lock ∷ dis) out e =
    let (splitted, first, e') = >>=-eq-some (split_lists lock []) _ out e in
    let (rest, second, e'') = >>=-eq-some (remove_from_disj dis) _ out e' in
    let clean = split_lists-Uninterrupted lock [] splitted first tt in
    let tail = remove_from_disj-IsLock dis rest second in
    subst (All IsLock) (some-injective' _ out e'') (keep splitted rest clean tail)
  where
    keep :
        (lock' : LockLists) (rest : Disj LockLists)
        → All Uninterrupted lock'
        → All IsLock rest
        → All IsLock (if leb (length lock') 1 then rest else lock' ∷ rest)
    keep [] rest h t = t
    keep (a ∷ []) rest h t = t
    keep (a ∷ b ∷ l) rest h t = ground arith

-- When `remove_preemption` returns, every disjunction has a lock, every lock has at least two
-- sides, and no side is empty or holds a preemption point.
pub remove_preemption-IsLock :
    (locks out : LockSymbols)
    → remove_preemption locks ≡ some out
    → All (λ d. (d ≢ []) × All IsLock d) out
unfolding remove_preemption
remove_preemption-IsLock [] out e = subst (All _) (some-injective' [] out e) tt
remove_preemption-IsLock (dis ∷ locks) out e =
    let (d, first, e') = >>=-eq-some (remove_from_disj dis) _ out e in
    let (rest, second, e'') = >>=-eq-some (remove_preemption locks) _ out e' in
    subst (All _) (some-injective' _ out e'') (
      keep d rest (remove_from_disj-IsLock dis d first)
        (remove_preemption-IsLock locks rest second))
  where
    keep :
        (d : Disj LockLists) (rest : LockSymbols)
        → All IsLock d
        → All (λ x. (x ≢ []) × All IsLock x) rest
        → All (λ x. (x ≢ []) × All IsLock x) (elim d [ [] ↦ rest | x ∷ r ↦ (x ∷ r) ∷ rest ])
    keep [] rest h t = t
    keep (x ∷ r) rest h t = ((λ q. cc, h), t)
