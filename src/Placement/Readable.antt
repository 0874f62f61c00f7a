-- ===== src/Placement/Readable.antt =====
-- What the model of placement/place_locks.cpp gives for the functions that say where locks are, and what
-- is read from it.
use mathlib.Core.List.Memᴰ
use liss.Common.{
  ℕ, zero, suc, ◌<◌, ◌≡◌, ◌∙◌, inl, inr, refl, sym, subst, Bool, true, false, List, [], ◌∷◌, ◌++◌,
  map, some, arith, Memᴰ, get_elem?,
}
use liss.Abstraction.Symbol.{Location}
use liss.Cfg.Graph.{AbstractCfg, State, get_state}
use liss.Placement.{
  Assignment, SinglePlacement, LockType, lock, unlock, PositionType, before, after, at,
}
use liss.Placement.Rules.{IsState}
use liss.Placement.Sites.{locks_at, unlocks_at}
use liss.Placement.Result.{
  FuncEntry, FuncInterp, Model, func_result_impl, read_placements, read_model, site, site_at,
}
use liss.Placement.Listed.{
  AreSeparate, value_at, placement_of, true_entries, read_placements-true_entries,
  true_entries-value_at, value_at-true_entries,
}
use liss.Placement.Duplicates.{IsPlaced}

-- The function for one kind of instruction, and its interpretation.
abbrev pub instruction : LockType → PositionType → Assignment → Location → ℕ → Bool
instruction lock position = locks_at position
instruction unlock position = unlocks_at position

abbrev pub interp_of : Model → LockType → PositionType → FuncInterp
interp_of m lock before = m.lock_b
interp_of m lock after = m.lock_a
interp_of m unlock before = m.unlock_b
interp_of m unlock after = m.unlock_a

-- A location that is a state of a thread.
pub record IsLocated (threads : List AbstractCfg) (x : Location) : Type 0 where
  pub thread : ℕ
  pub state : ℕ
  pub graph : AbstractCfg
  pub content : State
  pub same : x ≡ at thread state
  pub there : get_elem? threads thread ≡ some graph
  pub has : IsState graph state content

-- The interpretation gives the values of the function: with entries for different arguments, false
-- elsewhere, and true only at states and for the locks that there are.
pub record Represents (threads : List AbstractCfg) (n depth : ℕ) (m : Model) (f : FuncInterp)
    (fn : Location → ℕ → Bool) : Type 0 where
  pub entries : List FuncEntry
  pub result : func_result_impl m.others depth f ≡ some (entries, false)
  pub separate : AreSeparate entries
  pub values : (x : Location) (l : ℕ) → value_at entries x l ≡ fn x l
  pub located : (x : Location) (l : ℕ) → fn x l ≡ true → (l < n) × IsLocated threads x

abbrev pub AreResolved : List AbstractCfg → ℕ → ℕ → Model → Type 0
AreResolved threads n depth m =
    (which : LockType) (position : PositionType)
    → Represents threads n depth m (interp_of m which position)
        (instruction which position m.values)

mem_map-cases {ℓ κ} :
    {A : Type ℓ} {B : Type κ} (f : A → B) (xs : List A) (y : B)
    → Memᴰ y (map f xs)
    → (x : A) × Memᴰ x xs × (y ≡ f x)
mem_map-cases f [] y m = elim m [ ]
mem_map-cases f (a ∷ xs) y (Memᴰ.head e) = (a, Memᴰ.head refl, e)
mem_map-cases f (a ∷ xs) y (Memᴰ.tail m) =
    let (x, k, e) = mem_map-cases f xs y m in (x, Memᴰ.tail k, e)

pub site-at :
    (threads : List AbstractCfg) (position : PositionType) (t i : ℕ) (g : AbstractCfg) (s : State)
    → get_elem? threads t ≡ some g
    → IsState g i s
    → site threads position (at t i) ≡ some (site_at position s)
unfolding site get_state
site-at threads position t zero g s e (pos_i, h) = absurd (omega arith)
site-at threads position t (suc i) g s e (pos_i, h) = rw (e, h) refl

module _ (threads : List AbstractCfg) (n depth : ℕ) (m : Model)
    (readable : AreResolved threads n depth m) where
  listed : LockType → PositionType → List SinglePlacement
  listed which position =
      map (placement_of which position) (true_entries (readable which position).entries)

  pub everything : List SinglePlacement
  everything =
      listed lock after ++ (listed lock before ++ (listed unlock after ++ listed unlock before))

  pub read_model-everything : read_model depth m ≡ some everything
  unfolding read_model listed everything
  read_model-everything =
      rw (each lock after, each lock before, each unlock after, each unlock before) refl
    where
      each :
          (which : LockType) (position : PositionType)
          → read_placements m.others depth (interp_of m which position) which position
            ≡ some (listed which position)
      each which position =
          read_placements-true_entries m.others depth (interp_of m which position) which position
            (readable which position).entries (readable which position).result

  -- What is listed is where the function is true.
  pub everything-cases :
      (p : SinglePlacement)
      → Memᴰ p everything
      → (instruction p.lock_t p.position m.values p.location p.lock_number ≡ true)
  unfolding listed everything
  everything-cases p h = elim (Memᴰ.append_cases (listed lock after) h) [
    | inl a ↦ own lock after a
    | inr h1 ↦ elim (Memᴰ.append_cases (listed lock before) h1) [
      | inl a ↦ own lock before a
      | inr h2 ↦ elim (Memᴰ.append_cases (listed unlock after) h2) [
        | inl a ↦ own unlock after a
        | inr a ↦ own unlock before a
      ]
    ]
  ]
    where
      own :
          (which : LockType) (position : PositionType)
          → Memᴰ p (listed which position)
          → instruction p.lock_t p.position m.values p.location p.lock_number ≡ true
      own which position a =
          let (q, k, e) =
            mem_map-cases (placement_of which position)
              (true_entries (readable which position).entries) p a in
          subst
            (λ (p : SinglePlacement).
              instruction p.lock_t p.position m.values p.location p.lock_number ≡ true)
            (sym e)
            (sym ((readable which position).values q.1 q.0)
              ∙ true_entries-value_at (readable which position).entries q.1 q.0
                  (readable which position).separate k)

  -- Where a function is true, its placement is listed.
  pub everything-mem :
      (which : LockType) (position : PositionType) (x : Location) (l : ℕ)
      → instruction which position m.values x l ≡ true
      → Memᴰ (placement_of which position (l, x)) everything
  unfolding listed everything
  everything-mem which position x l h = put which position inside
    where
      inside : Memᴰ (placement_of which position (l, x)) (listed which position)
      inside = Memᴰ.map (placement_of which position) (
          value_at-true_entries (readable which position).entries x l
            ((readable which position).values x l ∙ h))

      put :
          (which : LockType) (position : PositionType) {p : SinglePlacement}
          → Memᴰ p (listed which position)
          → Memᴰ p everything
      put lock after a = Memᴰ.append_left _ a
      put lock before a = Memᴰ.append_right (listed lock after) (Memᴰ.append_left _ a)
      put unlock after a =
          Memᴰ.append_right (listed lock after)
            (Memᴰ.append_right (listed lock before) (Memᴰ.append_left _ a))
      put unlock before a =
          Memᴰ.append_right (listed lock after)
            (Memᴰ.append_right (listed lock before) (Memᴰ.append_right (listed unlock after) a))

  pub everything-IsLocated :
      (p : SinglePlacement) → Memᴰ p everything → (p.lock_number < n) × IsLocated threads p.location
  everything-IsLocated p h =
      (readable p.lock_t p.position).located p.location p.lock_number (everything-cases p h)

  pub IsLocated-IsPlaced : (p : SinglePlacement) → IsLocated threads p.location → IsPlaced threads p
  IsLocated-IsPlaced p loc = (
    site_at p.position loc.content,
    subst (λ x. site threads p.position x ≡ some (site_at p.position loc.content)) (sym loc.same)
        (site-at threads p.position loc.thread loc.state loc.graph loc.content loc.there loc.has),
  )
