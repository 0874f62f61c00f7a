-- ===== src/Synthesis/Reorderings/Conditions.antt =====
-- `prepare_trace`: the formulas for the waits on a conditional.
use mathlib.Core.List.Memᴰ
use liss.Common.{
  ◌≤◌, ◌<◌, ◌≡◌, ◌≢◌, ◌⊎◌, inl, inr, refl, ap, Bool, true, false, ◌&&◌, ◌||◌, not, List, [], ◌∷◌,
  arith, ltb, ◌==◌, if◌then◌else◌, any, all, any_mem, any_exists, Bool-cases, Memᴰ,
}
use liss.Abstraction.Symbol.{Symbol, op_eq, wait_not}
use liss.Synthesis.Constraint.{TraceLocation, Model, Expr, less}
use liss.Synthesis.Reorderings.{holds_always}
use liss.Synthesis.Reorderings.Prepare.{
  both, either, never, no_reset_between, wait_holds, before_all, no_notify_between, wait_not_holds,
  condition_of,
}
use liss.Synthesis.Reorderings.Core.{all-mem, all-of_mem}

module _ (v : Model) where
  -- The location `r` does not lie between `n` and `w`.
  abbrev misses : TraceLocation → TraceLocation → TraceLocation → Bool
  misses w n r = less r n v || less w r v

  abbrev not_reset : TraceLocation → TraceLocation → List TraceLocation → Bool
  not_reset w n resets = all (λ (r : TraceLocation). w.name == r.name || misses w n r) resets

  no_reset_between_lem :
      (w n : TraceLocation) (rs : List TraceLocation) (one : Expr)
      → no_reset_between w n rs one v ≡ (one v && not_reset w n rs)
  unfolding no_reset_between
  no_reset_between_lem w n [] one = ground arith
  no_reset_between_lem w n (r ∷ rs) one = elim (Bool-cases (w.name == r.name)) [
    | inl same ↦ rw (same, no_reset_between_lem w n rs one) refl
    | inr other ↦
        rw other
          (ground (arith, no_reset_between_lem w n rs (both one (either (less r n) (less w r)))))
  ]

  -- The conditional is set before `w`: a notification comes before it, and no reset between them.
  abbrev pub is_set : TraceLocation → List TraceLocation → List TraceLocation → Bool
  is_set w notifies resets =
      any (λ (n : TraceLocation). less n w v && not_reset w n resets) notifies

  wait_holds_lem :
      (w : TraceLocation) (ns rs : List TraceLocation) (e : Expr)
      → wait_holds w ns rs e v ≡ (e v || is_set w ns rs)
  unfolding wait_holds
  wait_holds_lem w [] rs e = ground arith
  wait_holds_lem w (n ∷ ns) rs e = ground (
    arith,
    wait_holds_lem w ns rs (either e (no_reset_between w n rs (less n w))),
    no_reset_between_lem w n rs (less n w),
  )

  before_all_lem :
      (w : TraceLocation) (ns : List TraceLocation) (one : Expr)
      → before_all w ns one v ≡ (one v && all (λ (n : TraceLocation). less w n v) ns)
  unfolding before_all
  before_all_lem w [] one = ground arith
  before_all_lem w (n ∷ ns) one = ground (arith, before_all_lem w ns (both one (less w n)))

  abbrev not_notified : TraceLocation → TraceLocation → List TraceLocation → Bool
  not_notified w r notifies = all (misses w r) notifies

  no_notify_between_lem :
      (w r : TraceLocation) (ns : List TraceLocation) (one : Expr)
      → no_notify_between w r ns one v ≡ (one v && not_notified w r ns)
  unfolding no_notify_between
  no_notify_between_lem w r [] one = ground arith
  no_notify_between_lem w r (n ∷ ns) one =
      ground (arith, no_notify_between_lem w r ns (both one (either (less n r) (less w n))))

  -- The conditional is clear before `w`: no notification comes before it, or a reset does and no
  -- notification between them.
  abbrev pub is_clear : TraceLocation → List TraceLocation → List TraceLocation → Bool
  is_clear w notifies resets =
      all (λ (n : TraceLocation). less w n v) notifies
      || any (λ (r : TraceLocation). less r w v && not_notified w r notifies) resets

  wait_not_holds_lem :
      (w : TraceLocation) (ns rs : List TraceLocation) (e : Expr)
      → wait_not_holds w ns rs e v
        ≡ (e v || any (λ (r : TraceLocation). less r w v && not_notified w r ns) rs)
  unfolding wait_not_holds
  wait_not_holds_lem w ns [] e = ground arith
  wait_not_holds_lem w ns (r ∷ rs) e = ground (
    arith,
    wait_not_holds_lem w ns rs (either e (no_notify_between w r ns (less r w))),
    no_notify_between_lem w r ns (less r w),
  )

  -- The formula of a wait is that the conditional is set before it, that of a wait for the negation
  -- that it is clear.
  pub condition_of_lem :
      (ns rs : List TraceLocation) (w : TraceLocation)
      → condition_of ns rs w v
        ≡ (if op_eq w.symbol.operation wait_not then is_clear w ns rs else is_set w ns rs)
  unfolding condition_of
  condition_of_lem ns rs w = elim (Bool-cases (op_eq w.symbol.operation wait_not)) [
    | inl negated ↦ rw negated (
        ground (
          arith,
          wait_not_holds_lem w ns rs (either never (before_all w ns holds_always)),
          before_all_lem w ns holds_always,
        ))
    | inr plain ↦ rw plain (ground (arith, wait_holds_lem w ns rs never))
  ]

  -- The last location of a list before `w`.
  abbrev LastBefore : TraceLocation → List TraceLocation → TraceLocation → Type 0
  LastBefore w ls l =
      Memᴰ l ls
      × (v l.name < v w.name)
      × ((m : TraceLocation) → Memᴰ m ls → v m.name < v w.name → v m.name ≤ v l.name)

  abbrev NoneBefore : TraceLocation → List TraceLocation → Type 0
  NoneBefore w ls = (m : TraceLocation) → Memᴰ m ls → v w.name ≤ v m.name

  last_before :
      (w : TraceLocation) (ls : List TraceLocation)
      → NoneBefore w ls ⊎ ((l : TraceLocation) × LastBefore w ls l)
  last_before w [] = inl (λ m h. elim h [ ])
  last_before w (k ∷ ls) = step (last_before w ls) (Bool-cases (ltb (v k.name) (v w.name)))
    where
      name_of : {m : TraceLocation} → m ≡ k → v m.name ≡ v k.name
      name_of e = ap (λ (x : TraceLocation). v x.name) e

      step :
          NoneBefore w ls ⊎ ((l : TraceLocation) × LastBefore w ls l)
          → (ltb (v k.name) (v w.name) ≡ true) ⊎ (ltb (v k.name) (v w.name) ≡ false)
          → NoneBefore w (k ∷ ls) ⊎ ((l : TraceLocation) × LastBefore w (k ∷ ls) l)
      step (inl free) (inr late) =
          inl (λ m h. elim (Memᴰ.cases_cons h) [
            | inl e ↦ ground (arith, name_of e)
            | inr n ↦ free m n
          ])
      step (inl free) (inl early) = inr (
        k,
        (
          Memᴰ.head refl,
          ground arith,
          λ m h lt. elim (Memᴰ.cases_cons h) [
            | inl e ↦ omega (arith, name_of e)
            | inr n ↦ absurd (omega (arith, free m n, lt))
          ],
        ),
      )
      step (inr (l, (at_l, lt_l, last))) (inr late) = inr (
        l,
        (
          Memᴰ.tail at_l,
          lt_l,
          λ m h lt. elim (Memᴰ.cases_cons h) [
            | inl e ↦ absurd (ground (arith, name_of e, lt))
            | inr n ↦ last m n lt
          ],
        ),
      )
      step (inr (l, (at_l, lt_l, last))) (inl early) =
          elim (Bool-cases (ltb (v l.name) (v k.name))) [
            | inl later ↦ inr (
              k,
              (
                Memᴰ.head refl,
                ground arith,
                λ m h lt. elim (Memᴰ.cases_cons h) [
                  | inl e ↦ omega (arith, name_of e)
                  | inr n ↦ ground (arith, last m n lt)
                ],
              ),
            )
            | inr earlier ↦ inr (
              l,
              (
                Memᴰ.tail at_l,
                lt_l,
                λ m h lt. elim (Memᴰ.cases_cons h) [
                  | inl e ↦ ground (arith, name_of e)
                  | inr n ↦ last m n lt
                ],
              ),
            )
          ]

  module _ (w : TraceLocation) (ns rs : List TraceLocation)
      (apart_n : (n : TraceLocation) → Memᴰ n ns → v n.name ≢ v w.name)
      (apart_r : (r : TraceLocation) → Memᴰ r rs → v r.name ≢ v w.name)
      (apart : (n r : TraceLocation) → Memᴰ n ns → Memᴰ r rs → v n.name ≢ v r.name) where
    not_both : is_set w ns rs ≡ true → is_clear w ns rs ≡ true → ⊥
    not_both set clear =
        let (n, at_n, both_n) =
          any_exists (λ (m : TraceLocation). less m w v && not_reset w m rs) ns set in
        elim (Bool-cases (all (λ (m : TraceLocation). less w m v) ns)) [
          | inl after ↦ unset n both_n (all-mem (λ (m : TraceLocation). less w m v) ns n after at_n)
          | inr some_before ↦
              let (r, at_r, both_r) =
                any_exists (λ (m : TraceLocation). less m w v && not_notified w m ns) rs
                  (ground arith) in
              between n r both_n both_r (at_reset n r at_r both_n)
                (all-mem (misses w r) ns n (ground arith) at_n)
        ]
      where
        unset :
            (n : TraceLocation) → (less n w v && not_reset w n rs) ≡ true → less w n v ≡ true → ⊥
        unset n h k = ground arith

        at_reset :
            (n r : TraceLocation)
            → Memᴰ r rs
            → (less n w v && not_reset w n rs) ≡ true
            → (w.name == r.name || misses w n r) ≡ true
        at_reset n r m h =
            all-mem (λ (x : TraceLocation). w.name == x.name || misses w n x) rs r (ground arith) m

        same_number : (r : TraceLocation) → (w.name == r.name) ≡ true → v w.name ≡ v r.name
        same_number r e = ap v (ground arith)

        between :
            (n r : TraceLocation)
            → (less n w v && not_reset w n rs) ≡ true
            → (less r w v && not_notified w r ns) ≡ true
            → (w.name == r.name || misses w n r) ≡ true
            → misses w r n ≡ true
            → ⊥
        between n r h k a b = elim (Bool-cases (w.name == r.name)) [
          | inl same ↦ ground (arith, same_number r same)
          | inr other ↦ ground arith
        ]

    clear_or_set : is_set w ns rs ≡ false → is_clear w ns rs ≡ true
    clear_or_set unset = elim (last_before w ns) [
      | inl free ↦
          ground
            (arith, all-of_mem (λ (n : TraceLocation). less w n v) ns (λ n m. late n m (free n m)))
      | inr (n, (at_n, lt_n, last_n)) ↦ elim (last_before w rs) [
        | inl free ↦ absurd (set_by n at_n lt_n (λ r m. inr (free r m)))
        | inr (r, (at_r, lt_r, last_r)) ↦ elim (Bool-cases (ltb (v n.name) (v r.name))) [
          | inl reset_later ↦ ground (
            arith,
            any_mem (λ (x : TraceLocation). less x w v && not_notified w x ns) rs r at_r
                (ground (
                  arith,
                  all-of_mem (misses w r) ns
                      (λ m h. missed n r m reset_later (last_n m h) (apart_n m h)),
                )),
          )
          | inr notified_later ↦
              absurd (set_by n at_n lt_n (λ x m. before n r x at_n m notified_later (last_r x m)))
        ]
      ]
    ]
      where
        late : (n : TraceLocation) → Memᴰ n ns → v w.name ≤ v n.name → less w n v ≡ true
        late n m le = ground (arith, apart_n n m)

        missed :
            (n r m : TraceLocation)
            → ltb (v n.name) (v r.name) ≡ true
            → (v m.name < v w.name → v m.name ≤ v n.name)
            → v m.name ≢ v w.name
            → misses w r m ≡ true
        missed n r m h k d = ground arith

        before :
            (n r x : TraceLocation)
            → Memᴰ n ns
            → Memᴰ x rs
            → ltb (v n.name) (v r.name) ≡ false
            → (v x.name < v w.name → v x.name ≤ v r.name)
            → (v x.name < v n.name) ⊎ (v w.name ≤ v x.name)
        before n r x m k h lt = ground (arith, apart n x m k)

        set_by :
            (n : TraceLocation)
            → Memᴰ n ns
            → v n.name < v w.name
            → ((r : TraceLocation) → Memᴰ r rs → (v r.name < v n.name) ⊎ (v w.name ≤ v r.name))
            → ⊥
        set_by n m lt h = clash (
            any_mem (λ (x : TraceLocation). less x w v && not_reset w x rs) ns n m
              (ground (
                arith,
                all-of_mem (λ (r : TraceLocation). w.name == r.name || misses w n r) rs
                    (λ r k. outside r k (h r k)),
              )))
          where
            clash : is_set w ns rs ≡ true → ⊥
            clash set = cc

            outside :
                (r : TraceLocation)
                → Memᴰ r rs
                → (v r.name < v n.name) ⊎ (v w.name ≤ v r.name)
                → (w.name == r.name || misses w n r) ≡ true
            outside r k c = ground (arith, apart_r r k)

    pub is_clear_lem : is_clear w ns rs ≡ not (is_set w ns rs)
    is_clear_lem = elim (Bool-cases (is_set w ns rs)) [
      | inl set ↦ elim (Bool-cases (is_clear w ns rs)) [
        | inl clear ↦ absurd (not_both set clear)
        | inr unclear ↦ rw (set, unclear) refl
      ]
      | inr unset ↦ rw (unset, clear_or_set unset) refl
    ]

-- Where a wait is apart from the notifications and the resets of its conditional, and these from one
-- another, the formula for a wait for the negation, in its place, is the negation of its formula.
pub condition_of-wait_not :
    (v : Model) (w : TraceLocation) (s : Symbol) (ns rs : List TraceLocation)
    → op_eq w.symbol.operation wait_not ≡ false
    → op_eq s.operation wait_not ≡ true
    → ((n : TraceLocation) → Memᴰ n ns → v n.name ≢ v w.name)
    → ((r : TraceLocation) → Memᴰ r rs → v r.name ≢ v w.name)
    → ((n r : TraceLocation) → Memᴰ n ns → Memᴰ r rs → v n.name ≢ v r.name)
    → condition_of ns rs (record w { symbol = s }) v ≡ not (condition_of ns rs w v)
condition_of-wait_not v w s ns rs plain negated apart_n apart_r apart =
    rw
      (
        condition_of_lem v ns rs w,
        condition_of_lem v ns rs (record w { symbol = s }),
        plain,
        negated,
      )
      (is_clear_lem v w ns rs apart_n apart_r apart)
