-- ===== src/Placement/Listed.antt =====
-- The placements that placement/place_locks.cpp reads from a model are those where the functions of
-- the model are true.
use liss.Common.{
  ℕ, ◌≡◌, inl, inr, refl, sym, subst, Bool, true, false, ◌&&◌, not, List, [], ◌∷◌, map, some, arith,
  ◌==◌, ==_iff, ==_refl, if◌then◌else◌, Bool-cases, Memᴰ, keep, any,
}
use liss.Common.Int.{==ℤ_iff}
use liss.Abstraction.Symbol.{Location, location_eq}
use liss.Placement.{SinglePlacement, LockType, PositionType, equal}
use liss.Placement.Result.{
  FuncEntry, FuncInterp, func_result_impl, func_result, result_to_locklist, read_placements,
}

abbrev pub is_entry : Location → ℕ → FuncEntry → Bool
is_entry x l e = location_eq e.location x && e.lock_number == l

-- The value of a function at a location and a lock: that of the first entry for them, else `false`.
abbrev pub value_at : List FuncEntry → Location → ℕ → Bool
value_at [] x l = false
value_at (e ∷ es) x l = let rest = value_at es x l in if is_entry x l e then e.value else rest

-- No two entries are for the same location and lock.
abbrev pub AreSeparate : List FuncEntry → Type 0
AreSeparate [] = Unit
AreSeparate (e ∷ es) = (any (is_entry e.location e.lock_number) es ≡ false) × AreSeparate es

abbrev pub placement_of : LockType → PositionType → ℕ × Location → SinglePlacement
placement_of which position p = record {
  lock_number = p.0;
  lock_t = which;
  position = position;
  location = p.1;
}

-- The entries that are true, as what is put in the list of locks.
abbrev pub true_entries : List FuncEntry → List (ℕ × Location)
true_entries [] = []
true_entries (e ∷ es) =
    let rest = true_entries es in if e.value then (e.lock_number, e.location) ∷ rest else rest

pub result_to_locklist-true :
    (es : List FuncEntry)
    → result_to_locklist (keep (λ (e : FuncEntry). not (equal e.value false)) es)
      ≡ some (true_entries es)
unfolding result_to_locklist
result_to_locklist-true [] = refl
result_to_locklist-true (e ∷ es) = elim (Bool-cases e.value) [
  | inl h ↦ rw (h, result_to_locklist-true es) refl
  | inr h ↦ rw (h, result_to_locklist-true es) refl
]

is_entry-same :
    (x : Location) (l : ℕ) (e : FuncEntry)
    → is_entry x l e ≡ true
    → ◌≡◌ {A = ℕ × Location} (l, x) (e.lock_number, e.location)
unfolding location_eq
is_entry-same x l e h =
    let s : e.location.state ≡ x.state = (==ℤ_iff e.location.state x.state).0 (ground arith) in
    let t : e.location.thread ≡ x.thread = (==_iff e.location.thread x.thread).0 (ground arith) in
    let n : e.lock_number ≡ l = (==_iff e.lock_number l).0 (ground arith) in cc

is_entry_self : (e : FuncEntry) → is_entry e.location e.lock_number e ≡ true
unfolding location_eq
is_entry_self e = ground (
  arith,
  ==_refl e.lock_number,
  ==_refl e.location.thread,
  (==ℤ_iff e.location.state e.location.state).1 refl,
)

value_at-absent :
    (es : List FuncEntry) (x : Location) (l : ℕ)
    → any (is_entry x l) es ≡ false
    → value_at es x l ≡ false
value_at-absent [] x l h = refl
value_at-absent (e ∷ es) x l h = elim (Bool-cases (is_entry x l e)) [
  | inl same ↦ absurd (true_not_false (rw same at h))
  | inr other ↦ rw other (value_at-absent es x l (rw other at h))
]
  where
    true_not_false : ◌≡◌ {A = Bool} true false → ⊥
    true_not_false k = cc

-- An entry for a place that no later entry is for.
value_at-own :
    (es : List FuncEntry) (e : FuncEntry) (x : Location) (l : ℕ)
    → any (is_entry e.location e.lock_number) es ≡ false
    → is_entry x l e ≡ true
    → value_at es x l ≡ false
value_at-own es e x l sep same =
    let p = is_entry-same x l e same in
    subst (λ (p : ℕ × Location). value_at es p.1 p.0 ≡ false) (sym p)
      (value_at-absent es e.location e.lock_number sep)

pub true_entries-value_at :
    (es : List FuncEntry) (x : Location) (l : ℕ)
    → AreSeparate es
    → Memᴰ (l, x) (true_entries es)
    → value_at es x l ≡ true
true_entries-value_at [] x l sep m = elim m [ ]
true_entries-value_at (e ∷ es) x l (sep, more) m = elim (Bool-cases e.value) [
  | inl h ↦ listed (true_entries-value_at es x l more) h (rw h at m)
  | inr h ↦ skipped (true_entries-value_at es x l more (rw h at m))
]
  where
    skipped : value_at es x l ≡ true → value_at (e ∷ es) x l ≡ true
    skipped k = elim (Bool-cases (is_entry x l e)) [
      | inl same ↦ ground (arith, value_at-own es e x l sep same)
      | inr other ↦ rw other k
    ]

    listed :
        (Memᴰ (l, x) (true_entries es) → value_at es x l ≡ true)
        → e.value ≡ true
        → Memᴰ (l, x) ((e.lock_number, e.location) ∷ true_entries es)
        → value_at (e ∷ es) x l ≡ true
    listed again h (Memᴰ.tail k) = skipped (again k)
    listed again h (Memᴰ.head k) =
        subst (λ (p : ℕ × Location). value_at (e ∷ es) p.1 p.0 ≡ true) (sym k)
          (rw (is_entry_self e) h)

pub value_at-true_entries :
    (es : List FuncEntry) (x : Location) (l : ℕ)
    → value_at es x l ≡ true
    → Memᴰ (l, x) (true_entries es)
value_at-true_entries [] x l h = cc
value_at-true_entries (e ∷ es) x l h = elim (Bool-cases (is_entry x l e)) [
  | inl same ↦ rw (rw same at h) (Memᴰ.head (is_entry-same x l e same))
  | inr other ↦ later (value_at-true_entries es x l (rw other at h))
]
  where
    later : Memᴰ (l, x) (true_entries es) → Memᴰ (l, x) (true_entries (e ∷ es))
    later m = elim (Bool-cases e.value) [ inl k ↦ rw k (Memᴰ.tail m) | inr k ↦ rw k m ]

pub read_placements-true_entries :
    (others : ℕ → FuncInterp) (fuel : ℕ) (f : FuncInterp) (which : LockType)
    (position : PositionType) (es : List FuncEntry)
    → func_result_impl others fuel f ≡ some (es, false)
    → read_placements others fuel f which position
      ≡ some (map (placement_of which position) (true_entries es))
unfolding read_placements func_result
read_placements-true_entries others fuel f which position es e =
    rw (e, result_to_locklist-true es) refl
