-- ===== src/Placement/System.antt =====
-- The threads with the locks of an assignment placed in them, as placement/print_program.cpp prints
-- them: before a state and after it, the locks are handled one by one, the highest first. A mutex
-- that is held by a thread cannot be taken, by no thread.
use liss.Common.{
  ℕ, zero, suc, ◌≡◌, Bool, true, false, ◌&&◌, ◌||◌, not, List, Option, none, some, ◌==◌,
  if◌then◌else◌, get_elem?,
}
use liss.Cfg.Graph.{AbstractCfg}
use liss.Placement.{Assignment, at}
use liss.Placement.Rules.{IsEdge}

-- Where a thread is: before state `i`, which it reached from `from`, or after it; the locks from
-- number `k` on have been handled there. Before the state with none left, it executes the state.
pub data Point : Type 0 where
  entering : (from : Option ℕ) (i k : ℕ) → Point
  leaving : (i k : ℕ) → Point

-- What the next step of thread `t` does to lock `l`.
abbrev pub takes : Assignment → ℕ → Point → ℕ → Bool
takes v t (entering from i zero) l = false
takes v t (entering from i (suc k)) l = k == l && v.lock_b (at t i) l
takes v t (leaving i zero) l = false
takes v t (leaving i (suc k)) l = k == l && v.lock_a (at t i) l

abbrev pub frees : Assignment → ℕ → Point → ℕ → Bool
frees v t (entering from i zero) l = false
frees v t (entering from i (suc k)) l = k == l && v.unlock_b (at t i) l
frees v t (leaving i zero) l = false
frees v t (leaving i (suc k)) l = k == l && v.unlock_a (at t i) l

-- The steps of a thread over the graph `g`, with `n` locks.
pub data Move (g : AbstractCfg) (n : ℕ) : Point → Point → Type 0 where
  handle_before :
      {from : Option ℕ} {i k : ℕ} → Move g n (entering from i (suc k)) (entering from i k)
  execute : {from : Option ℕ} {i : ℕ} → Move g n (entering from i zero) (leaving i n)
  handle_after : {i k : ℕ} → Move g n (leaving i (suc k)) (leaving i k)
  follow : {i j : ℕ} → IsEdge g i j → Move g n (leaving i zero) (entering (some i) j n)

-- The points of the threads, and the locks that each of them holds.
pub record Config : Type 0 where
  pub point : ℕ → Point
  pub held : ℕ → ℕ → Bool

abbrev pub update {ℓ} : {A : Type ℓ} → (ℕ → A) → ℕ → A → ℕ → A
update f t a u = if u == t then a else f u

abbrev pub moved : Assignment → Config → ℕ → Point → Config
moved v c t q = record {
  point = update c.point t q;
  held =
      update c.held t (λ l. takes v t (c.point t) l || c.held t l && not (frees v t (c.point t) l));
}

-- Every thread before state 1 of its graph, without locks.
abbrev pub started : ℕ → Config
started n = record { point = λ t. entering none 1 n; held = λ t l. false }

-- A lock is free if no thread holds it.
abbrev pub Available : Assignment → Config → ℕ → Type 0
Available v c t = (l u : ℕ) → takes v t (c.point t) l ≡ true → c.held u l ≡ false

pub data Reachable (v : Assignment) (n : ℕ) (threads : List AbstractCfg) : Config → Type 0 where
  start : Reachable v n threads (started n)
  later :
      {c : Config} {t : ℕ} {g : AbstractCfg} {q : Point}
      → Reachable v n threads c
      → get_elem? threads t ≡ some g
      → Move g n (c.point t) q
      → Available v c t
      → Reachable v n threads (moved v c t q)
