-- ===== src/Synthesis/Reorderings/Conflicts.antt =====
-- What `find_order` says: it fails no assertion, and it holds in its own model.
use liss.Common.{
  ◌≡◌, ◌≢◌, ◌⊎◌, inl, inr, refl, sym, ap, subst, Bool, true, false, List, [], ◌∷◌, ◌++◌, Option,
  some, arith, ltb, ◌==◌, all, Bool-cases, All, All-append, All-of_mem, length, ◌∙◌, Memᴰ, &&-true,
}
use liss.Types.{Conj}
use liss.Synthesis.Constraint.{TraceLocation, ConstraintAtom, Model, thread_of}
use liss.Synthesis.Traces.{◌>>=◌}
use liss.Synthesis.Reorderings.{
  SeparatedTrace, atom, orders, sort_by, relate, find_order2, wait_notify_order, find_order,
}
use liss.Synthesis.Reorderings.Sorted.{IsDistinct, sort_by_mem, sort_by-IsSorted}
use liss.Synthesis.Reorderings.Prepare.{differs, all_distinct}
use liss.Synthesis.Reorderings.Accesses.{Located, IsOrdered, Grounded, orders-Grounded}

-- Locations of different threads have different numbers.
abbrev pub Apart : Model → List TraceLocation → Type 0
Apart u full =
    (a b : TraceLocation)
    → Memᴰ a full
    → Memᴰ b full
    → (thread_of a == thread_of b) ≡ false
    → u a.name ≢ u b.name

-- The assertion of `find_order2` holds.
abbrev Related : Model → List TraceLocation → Option (Conj ConstraintAtom) → Type 0
Related u full o = (c : Conj ConstraintAtom) × (o ≡ some c) × Grounded u full c

module _ (u : Model) (full : List TraceLocation) (apart : Apart u full) where
  relate-Grounded :
      (a : TraceLocation) (two : List TraceLocation)
      → Located full a
      → All (Located full) two
      → Related u full (relate u a two)
  unfolding relate
  relate-Grounded a [] at_a h = ([], refl, tt)
  relate-Grounded a (b ∷ two) at_a (at_b, h) =
      let (c, e, g) = relate-Grounded a two at_a h in
      elim (Bool-cases (thread_of a == thread_of b)) [
        | inl same ↦ (c, rw (e, same) refl, g)
        | inr other ↦ elim (Bool-cases (ltb (u a.name) (u b.name))) [
          | inl lt ↦ (atom a b ∷ c, rw (e, other, lt) refl, ((at_a, at_b, ground arith), g))
          | inr ge ↦ (
            atom b a ∷ c,
            rw (e, other, ge, turned ge (apart a b at_a.0 at_b.0 other)) refl,
            ((at_b, at_a, ground (arith, apart a b at_a.0 at_b.0 other)), g),
          )
        ]
      ]
    where
      turned :
          ltb (u a.name) (u b.name) ≡ false → u a.name ≢ u b.name → ltb (u b.name) (u a.name) ≡ true
      turned ge ne = ground arith

  Related-join :
      (o p : Option (Conj ConstraintAtom))
      → Related u full o
      → Related u full p
      → Related u full (o >>= λ c. p >>= λ d. some (c ++ d))
  Related-join o p (c, e, g) (d, e', g') =
      (c ++ d, rw (e, e') refl, All-append (IsOrdered u full) c d g g')

  find_order2-Grounded :
      (one two : List TraceLocation)
      → All (Located full) one
      → All (Located full) two
      → Related u full (find_order2 u one two)
  unfolding find_order2
  find_order2-Grounded [] two h k = ([], refl, tt)
  find_order2-Grounded (a ∷ one) two h k =
      Related-join (relate u a two) (find_order2 u one two) (relate-Grounded a two h.0 k)
        (find_order2-Grounded one two h.1 k)

-- As many lists of waits, resets and notifications.
abbrev pub SameLengths : SeparatedTrace → Type 0
SameLengths s = (length s.resets ≡ length s.waits) × (length s.notifies ≡ length s.waits)

wait_notify_order-Grounded :
    (u : Model) (full : List TraceLocation) (apart : Apart u full)
    (waits resets notifies : List (List TraceLocation))
    → length resets ≡ length waits
    → length notifies ≡ length waits
    → All (All (Located full)) waits
    → All (All (Located full)) resets
    → All (All (Located full)) notifies
    → Related u full (wait_notify_order u waits resets notifies)
unfolding wait_notify_order
wait_notify_order-Grounded u full apart [] resets notifies e e' w r n = ([], refl, tt)
wait_notify_order-Grounded u full apart (w ∷ ws) [] notifies e e' hw hr hn = absurd (omega arith)
wait_notify_order-Grounded u full apart (w ∷ ws) (r ∷ rs) [] e e' hw hr hn = absurd (omega arith)
wait_notify_order-Grounded u full apart (w ∷ ws) (r ∷ rs) (n ∷ ns) e e' hw hr hn =
    let (c, p, g) = find_order2-Grounded u full apart w r hw.0 hr.0 in
    let (c', p', g') = find_order2-Grounded u full apart w n hw.0 hn.0 in
    let (d, q, k) = find_order2-Grounded u full apart r n hr.0 hn.0 in
    let (d', q', k') =
      wait_notify_order-Grounded u full apart ws rs ns (omega arith) (omega arith) hw.1 hr.1 hn.1 in
    (
      c ++ (c' ++ (d ++ d')),
      rw (p, p', q, q') refl,
      All-append (IsOrdered u full) c (c' ++ (d ++ d')) g
          (All-append (IsOrdered u full) c' (d ++ d') g' (All-append (IsOrdered u full) d d' k k')),
    )

-- The lists of waits, resets and notifications hold locations of the trace, and there are as many.
pub record IsRecorded (s : SeparatedTrace) : Type 0 where
  pub waits_located : All (All (Located s.trace)) s.waits
  pub resets_located : All (All (Located s.trace)) s.resets
  pub notifies_located : All (All (Located s.trace)) s.notifies
  pub same_lengths : SameLengths s

differs_mem :
    (u : Model) (l : TraceLocation) (ls : List TraceLocation) (b : TraceLocation)
    → Memᴰ b ls
    → all (differs u l) ls ≡ true
    → u l.name ≢ u b.name
differs_mem u l [] b m h = elim m [ ]
differs_mem u l (k ∷ ls) b (Memᴰ.tail m) h = differs_mem u l ls b m (ground arith)
differs_mem u l (k ∷ ls) b (Memᴰ.head e) h =
    subst (λ (x : TraceLocation). u l.name ≢ u x.name) (sym e) (ground arith)

pub IsDistinct-mem :
    (u : Model) (ls : List TraceLocation) (a b : TraceLocation)
    → IsDistinct u ls
    → Memᴰ a ls
    → Memᴰ b ls
    → (a ≡ b) ⊎ (u a.name ≢ u b.name)
unfolding all_distinct
IsDistinct-mem u [] a b d ma mb = elim ma [ ]
IsDistinct-mem u (l ∷ ls) a b d (Memᴰ.head p) (Memᴰ.head q) = inl (p ∙ sym q)
IsDistinct-mem u (l ∷ ls) a b d (Memᴰ.tail ma) (Memᴰ.tail mb) =
    IsDistinct-mem u ls a b (&&-true (all (differs u l) ls) (all_distinct ls u) d).1 ma mb
IsDistinct-mem u (l ∷ ls) a b d (Memᴰ.head p) (Memᴰ.tail mb) = inr (λ e.
    differs_mem u l ls b mb (&&-true (all (differs u l) ls) (all_distinct ls u) d).0
      (sym (ap (λ (m : TraceLocation). u m.name) p) ∙ e))
IsDistinct-mem u (l ∷ ls) a b d (Memᴰ.tail ma) (Memᴰ.head q) = inr (λ e.
    differs_mem u l ls a ma (&&-true (all (differs u l) ls) (all_distinct ls u) d).0
      (sym (ap (λ (m : TraceLocation). u m.name) q) ∙ sym e))

IsDistinct-Apart : (u : Model) (ls : List TraceLocation) → IsDistinct u ls → Apart u ls
IsDistinct-Apart u ls d a b ma mb other e = elim (IsDistinct-mem u ls a b d ma mb) [
  | inl same ↦ clash same
  | inr apart ↦ apart e
]
  where
    clash : a ≡ b → ⊥
    clash q = ground (arith, ap thread_of q)

sorted_orders :
    (u : Model) (s : SeparatedTrace)
    → IsDistinct u s.trace
    → Grounded u s.trace (orders (sort_by u s.trace))
sorted_orders u s d =
    orders-Grounded u s.trace (sort_by u s.trace)
      (All-of_mem (λ m. Memᴰ m s.trace) (sort_by u s.trace) (λ m h. sort_by_mem u s.trace m h))
      (sort_by-IsSorted u s.trace d)

-- Where the waits, resets and notifications that are recorded are locations of the trace, and the
-- numbers of its locations differ, `find_order` fails no assertion and returns how the model
-- orders some locations of the trace.
pub find_order-Grounded :
    (s : SeparatedTrace) (u : Model) (wait_notify : Bool)
    → IsRecorded s
    → IsDistinct u s.trace
    → (c : Conj ConstraintAtom) × (find_order s u wait_notify ≡ some c) × Grounded u s.trace c
unfolding find_order
find_order-Grounded s u false r d = (orders (sort_by u s.trace), refl, sorted_orders u s d)
find_order-Grounded s u true r d =
    let (c, e, g) =
      wait_notify_order-Grounded u s.trace (IsDistinct-Apart u s.trace d) s.waits s.resets
        s.notifies r.same_lengths.0 r.same_lengths.1 r.waits_located r.resets_located
        r.notifies_located in
    (
      orders (sort_by u s.trace) ++ c,
      rw e refl,
      All-append (IsOrdered u s.trace) (orders (sort_by u s.trace)) c (sorted_orders u s d) g,
    )
