-- ===== src/Abstraction/State.antt =====
-- abstraction/concurrent_state.h and abstraction/concurrent_state.cpp: the state of the concurrent
-- automaton. A bit set is the list of its bits; the ordered set of conflicts is the increasing list
-- of their words (`tagged_int16`); `none` as the current thread is `no_thread`.
pub mod Equality
use liss.Common.{
  ℕ, Bool, true, false, ◌&&◌, List, [], ◌∷◌, Option, none, some, ◌==◌, if◌then◌else◌, replicate,
}
use liss.Common.Int.{ℤ, pos, ◌==ℤ◌, ltbℤ}

-- `max_conditionals` and `max_locks` of types.h
abbrev pub max_conditionals : ℕ
max_conditionals = 64

abbrev pub max_locks : ℕ
max_locks = 64

abbrev pub no_state : ℤ
no_state = pos 0

pub record ConcurrentState : Type 0 where
  pub threads : List ℤ
  pub current : Option ℕ
  pub reward : ℤ
  pub conditionals : List Bool
  pub locks : List Bool
  pub locksviolated : List Bool
  pub conflicts : List ℕ

-- The constructor.
unfoldable pub new_state : ℕ → ℕ → ConcurrentState
new_state no_threads dnf_size = record {
  threads = replicate no_threads no_state;
  current = none;
  reward = pos 0;
  conditionals = replicate max_conditionals false;
  locks = replicate max_locks false;
  locksviolated = replicate dnf_size false;
  conflicts = [];
}

unfoldable pub list_eq {ℓ} : {A : Type ℓ} → (A → A → Bool) → List A → List A → Bool
list_eq eq [] [] = true
list_eq eq (x ∷ xs) (y ∷ ys) = eq x y && list_eq eq xs ys
list_eq eq _ _ = false

abbrev pub bit_eq : Bool → Bool → Bool
bit_eq true b = b
bit_eq false b = if b then false else true

abbrev pub current_eq : Option ℕ → Option ℕ → Bool
current_eq none none = true
current_eq (some a) (some b) = a == b
current_eq _ _ = false

-- `concurrent_state::operator==`, which leaves the reward out.
unfoldable pub state_eq : ConcurrentState → ConcurrentState → Bool
state_eq s other =
    list_eq ◌==ℤ◌ s.threads other.threads
    && list_eq bit_eq s.conditionals other.conditionals
    && list_eq bit_eq s.locks other.locks
    && current_eq s.current other.current
    && list_eq bit_eq s.locksviolated other.locksviolated
    && list_eq ◌==◌ s.conflicts other.conflicts

-- `concurrent_state::operator<`, the order of the frontier of `from_concurrent_automaton`.
unfoldable pub state_less : ConcurrentState → ConcurrentState → Bool
state_less s other = if s.reward ==ℤ other.reward then false else ltbℤ s.reward other.reward

-- The loop of `hash<concurrent_state>` over the threads.
unfoldable pub hash_threads : (ℕ → ℤ → ℕ) → ℕ → List ℤ → ℕ
hash_threads combine seed [] = seed
hash_threads combine seed (t ∷ ts) = hash_threads combine (combine seed t) ts

-- `hash<concurrent_state>`, over the library's `hash_combine` at a state number and at a bit set.
unfoldable pub state_hash : (ℕ → ℤ → ℕ) → (ℕ → List Bool → ℕ) → ConcurrentState → ℕ
unfolding hash_threads
state_hash combine combine_bits s =
    combine_bits (combine_bits (hash_threads combine 0 s.threads) s.conditionals) s.locks
