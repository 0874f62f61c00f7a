-- ===== src/Placement/Interpreted.antt =====
-- What a model of the optimiser of placement/place_locks.cpp means: the value of a function for some
-- arguments is that of the entry for them, and else the one at the end of the chain of interpretations.
use mathlib.Core.List.Memᴰ
use liss.Common.{
  ℕ, zero, suc, ◌<◌, ◌≡◌, ◌⊎◌, ◌∙◌, inl, inr, refl, sym, subst, ap, Bool, true, false, List, [],
  ◌∷◌, ◌++◌, Option, none, some, some-inj, if◌then◌else◌, Bool-cases, Option-cases, Memᴰ, map,
}
use liss.Abstraction.Symbol.{Location}
use liss.Cfg.Graph.{AbstractCfg}
use liss.Placement.{LockType, lock, unlock, PositionType, before, after}
use liss.Placement.Result.{
  FuncEntry, FuncInterp, ElseValue, constant, function, conditional, Model, func_result_impl,
  func_result, read_placements, read_model,
}
use liss.Placement.Listed.{
  AreSeparate, is_entry, value_at, true_entries, placement_of, value_at-true_entries,
  read_placements-true_entries,
}
use liss.Placement.Readable.{IsLocated, Represents, AreResolved, instruction, interp_of}

-- At most `n` interpretations from `f` on have the entries `es`, and the last has the value `b` elsewhere.
pub data Ends (others : ℕ → FuncInterp) : ℕ → FuncInterp → List FuncEntry → Bool → Type 0 where
  at_once :
      (n : ℕ) (f : FuncInterp) (b : Bool)
      → f.else_value ≡ constant b
      → Ends others (suc n) f f.entries b
  goes_on :
      (n name : ℕ) (f : FuncInterp) (es : List FuncEntry) (b : Bool)
      → f.else_value ≡ function name
      → Ends others n (others name) es b
      → Ends others (suc n) f (f.entries ++ es) b

-- The value of a function with these entries and this value elsewhere.
abbrev pub value_or : Bool → List FuncEntry → Location → ℕ → Bool
value_or b [] x l = b
value_or b (e ∷ es) x l = let rest = value_or b es x l in if is_entry x l e then e.value else rest

-- The interpretation is one of the function: no two entries are for the same arguments, the entries are
-- for locks and states that there are, and with the value elsewhere they give the values of the function.
pub record IsInterp (threads : List AbstractCfg) (n : ℕ) (m : Model) (f : FuncInterp)
    (fn : Location → ℕ → Bool) : Type 0 where
  pub separate : (k : ℕ) (es : List FuncEntry) (b : Bool) → Ends m.others k f es b → AreSeparate es
  pub values :
      (k : ℕ) (es : List FuncEntry) (b : Bool)
      → Ends m.others k f es b
      → (x : Location) (l : ℕ) → value_or b es x l ≡ fn x l
  pub located :
      (k : ℕ) (es : List FuncEntry) (b : Bool)
      → Ends m.others k f es b
      → (e : FuncEntry) → Memᴰ e es
      → (e.lock_number < n) × IsLocated threads e.location

-- The four interpretations that are read are those of the functions.
abbrev pub IsInterpreted : List AbstractCfg → ℕ → Model → Type 0
IsInterpreted threads n m =
    (which : LockType) (position : PositionType)
    → IsInterp threads n m (interp_of m which position) (instruction which position m.values)

-- The function is false outside of its entries, which the code asserts.
abbrev pub EndsFalse : ℕ → Model → LockType → PositionType → Type 0
EndsFalse depth m which position =
    (es : List FuncEntry) × Ends m.others depth (interp_of m which position) es false

func_result_impl-Ends :
    (others : ℕ → FuncInterp) (n : ℕ) (f : FuncInterp) (es : List FuncEntry) (b : Bool)
    → func_result_impl others n f ≡ some (es, b)
    → Ends others n f es b
unfolding func_result_impl
func_result_impl-Ends others zero f es b e = absurd (none_not_some e)
  where
    none_not_some : ◌≡◌ {A = Option (List FuncEntry × Bool)} none (some (es, b)) → ⊥
    none_not_some q = cc
func_result_impl-Ends others (suc n) f es b e =
    by_else f.else_value refl e (func_result_impl-Ends others n)
  where
    by_else :
        (v : ElseValue)
        → f.else_value ≡ v
        → func_result_impl others (suc n) f ≡ some (es, b)
        → ((g : FuncInterp) (es' : List FuncEntry) (b' : Bool)
            → func_result_impl others n g ≡ some (es', b')
            → Ends others n g es' b')
        → Ends others (suc n) f es b
    by_else (constant c) q h again =
        subst (λ (r : List FuncEntry × Bool). Ends others (suc n) f r.0 r.1) (some-inj (rw q at h))
          (Ends.at_once n f c q)
    by_else (function name) q h again =
        elim (Option-cases (func_result_impl others n (others name))) [
          | inl none_there ↦ absurd (nothing (rw (q, none_there) at h))
          | inr (r, there) ↦
              subst (λ (r' : List FuncEntry × Bool). Ends others (suc n) f r'.0 r'.1)
                (some-inj (rw (q, there) at h))
                (Ends.goes_on n name f r.0 r.1 q (again (others name) r.0 r.1 there))
        ]
      where
        nothing : ◌≡◌ {A = Option (List FuncEntry × Bool)} none (some (es, b)) → ⊥
        nothing q = cc
    by_else conditional q h again = absurd (nothing (rw q at h))
      where
        nothing : ◌≡◌ {A = Option (List FuncEntry × Bool)} none (some (es, b)) → ⊥
        nothing q = cc

Ends-func_result_impl :
    (others : ℕ → FuncInterp) (n : ℕ) (f : FuncInterp) (es : List FuncEntry) (b : Bool)
    → Ends others n f es b
    → func_result_impl others n f ≡ some (es, b)
unfolding func_result_impl
Ends-func_result_impl others n f es b (Ends.at_once k g c q) = rw q refl
Ends-func_result_impl others n f es b (Ends.goes_on k name g fs c q h) =
    rw (q, Ends-func_result_impl others k (others name) fs c h) refl

value_or-value_at :
    (es : List FuncEntry) (x : Location) (l : ℕ) → value_or false es x l ≡ value_at es x l
value_or-value_at [] x l = refl
value_or-value_at (e ∷ es) x l =
    ap (λ rest. if is_entry x l e then e.value else rest) (value_or-value_at es x l)

true_entries-mem :
    (es : List FuncEntry) (l : ℕ) (x : Location)
    → Memᴰ (l, x) (true_entries es)
    → (e : FuncEntry) × Memᴰ e es × (e.lock_number ≡ l) × (e.location ≡ x)
true_entries-mem [] l x m = elim m [ ]
true_entries-mem (e ∷ es) l x m = elim (Bool-cases e.value) [
  | inl h ↦ elim (Memᴰ.cases_cons (rw h at m)) [
    | inl q ↦ (e, Memᴰ.head refl, sym (ap (λ p. p.0) q), sym (ap (λ p. p.1) q))
    | inr k ↦ let (f, k', a, b) = true_entries-mem es l x k in (f, Memᴰ.tail k', a, b)
  ]
  | inr h ↦ let (f, k', a, b) = true_entries-mem es l x (rw h at m) in (f, Memᴰ.tail k', a, b)
]

-- One function, read or refused.
Resolved : List AbstractCfg → ℕ → ℕ → Model → LockType → PositionType → Type 0
Resolved threads n depth m which position =
    Represents threads n depth m (interp_of m which position) (instruction which position m.values)

abbrev Refused : ℕ → Model → LockType → PositionType → Type 0
Refused depth m which position =
    (read_placements m.others depth (interp_of m which position) which position ≡ none)
    × (¬ EndsFalse depth m which position)

resolved_or_refused :
    (threads : List AbstractCfg) (n depth : ℕ) (m : Model) (which : LockType)
    (position : PositionType)
    → IsInterp threads n m (interp_of m which position) (instruction which position m.values)
    → (Resolved threads n depth m which position × EndsFalse depth m which position)
      ⊎ Refused depth m which position
unfolding Resolved read_placements func_result
resolved_or_refused threads n depth m which position h =
    elim (Option-cases (func_result_impl m.others depth f)) [
      | inl q ↦ inr (
        rw q refl,
        λ (es, ends). clash (sym q ∙ Ends-func_result_impl m.others depth f es false ends),
      )
      | inr (r, q) ↦ elim (Bool-cases r.1) [
        | inl up ↦ inr (
          rw (q, up) refl,
          λ (es, ends).
              let e : r ≡ (es, false) =
                some-inj (sym q ∙ Ends-func_result_impl m.others depth f es false ends) in
              true_not_false (sym up ∙ ap (λ (p : List FuncEntry × Bool). p.1) e),
        )
        | inr down ↦
            let found : func_result_impl m.others depth f ≡ some (r.0, false) =
              q ∙ ap (λ (b : Bool). some (r.0, b)) down in
            let ends = func_result_impl-Ends m.others depth f r.0 false found in
            inl (
              record {
                entries = r.0;
                result = found;
                separate = h.separate depth r.0 false ends;
                values = λ x l. sym (value_or-value_at r.0 x l) ∙ h.values depth r.0 false ends x l;
                located = λ x l on.
                    let (e, k, at_l, at_x) = true_entries-mem r.0 l x (
                      value_at-true_entries r.0 x l (
                        sym (value_or-value_at r.0 x l)
                        ∙ (h.values depth r.0 false ends x l ∙ on))) in
                    let (lt, there) = h.located depth r.0 false ends e k in
                    (subst (λ (i : ℕ). i < n) at_l lt, subst (IsLocated threads) at_x there);
              },
              (r.0, ends),
            )
      ]
    ]
  where
    f : FuncInterp
    f = interp_of m which position

    clash : {r : List FuncEntry × Bool} → ◌≡◌ {A = Option (List FuncEntry × Bool)} none (some r) → ⊥
    clash e = cc

    true_not_false : ◌≡◌ {A = Bool} true false → ⊥
    true_not_false e = cc

-- The model can be read, or an assertion on one of the functions fails.
pub resolved_or_broken :
    (threads : List AbstractCfg) (n depth : ℕ) (m : Model)
    → IsInterpreted threads n m
    → (AreResolved threads n depth m
        × ((which : LockType) (position : PositionType) → EndsFalse depth m which position))
      ⊎ ((read_model depth m ≡ none)
          × ((which : LockType) × (position : PositionType) × (¬ EndsFalse depth m which position)))
unfolding Resolved read_model
resolved_or_broken threads n depth m h = elim (one lock after) [
  | inr (e, refused) ↦ inr (rw e refl, (lock, after, refused))
  | inl (a, a') ↦ elim (one lock before) [
    | inr (e, refused) ↦ inr (rw (read lock after a, e) refl, (lock, before, refused))
    | inl (b, b') ↦ elim (one unlock after) [
      | inr (e, refused) ↦
          inr (rw (read lock after a, read lock before b, e) refl, (unlock, after, refused))
      | inl (c, c') ↦ elim (one unlock before) [
        | inr (e, refused) ↦ inr (
          rw (read lock after a, read lock before b, read unlock after c, e) refl,
          (unlock, before, refused),
        )
        | inl (d, d') ↦ inl (
          λ which position. all_four a b c d which position,
          λ which position. all_ends a' b' c' d' which position,
        )
      ]
    ]
  ]
]
  where
    one :
        (which : LockType) (position : PositionType)
        → (Resolved threads n depth m which position × EndsFalse depth m which position)
          ⊎ Refused depth m which position
    one which position = resolved_or_refused threads n depth m which position (h which position)

    read :
        (which : LockType) (position : PositionType) (a : Resolved threads n depth m which position)
        → read_placements m.others depth (interp_of m which position) which position
          ≡ some (map (placement_of which position) (true_entries a.entries))
    read which position a =
        read_placements-true_entries m.others depth (interp_of m which position) which position
          a.entries a.result

    all_four :
        Resolved threads n depth m lock after
        → Resolved threads n depth m lock before
        → Resolved threads n depth m unlock after
        → Resolved threads n depth m unlock before
        → AreResolved threads n depth m
    all_four a b c d lock after = a
    all_four a b c d lock before = b
    all_four a b c d unlock after = c
    all_four a b c d unlock before = d

    all_ends :
        EndsFalse depth m lock after
        → EndsFalse depth m lock before
        → EndsFalse depth m unlock after
        → EndsFalse depth m unlock before
        → (which : LockType) (position : PositionType) → EndsFalse depth m which position
    all_ends a b c d lock after = a
    all_ends a b c d lock before = b
    all_ends a b c d unlock after = c
    all_ends a b c d unlock before = d
