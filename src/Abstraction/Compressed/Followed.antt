-- ===== src/Abstraction/Compressed/Followed.antt =====
-- abstraction/compressed_automaton.cpp, the successors in `from_concurrent_automaton`: their numbers,
-- and what the vectors and maps keep.
use liss.Common.{
  ℕ, ◌+◌, ◌≤◌, ◌<◌, ◌≡◌, ◌⊎◌, ◌∙◌, inl, inr, refl, sym, subst, ap, Bool, true, false, not, List, [],
  ◌∷◌, none, some, arith, if◌then◌else◌, length, get_elem?, Memᴰ, append-nil,
}
use liss.Abstraction.Compressed.{Inner}
use liss.Abstraction.Compressed.Explore.{
  Building, Insertion, insert_next, grow, state_limit, add_successor, add_successors, push, is_seen,
}
use liss.Abstraction.Compressed.Operations.{find_key, Row}
use liss.Abstraction.Compressed.Interned.{
  Decides, keys, IsInserted, insert_next-IsInserted, unseen, length-inserted, room-inserted,
}
use liss.Abstraction.Compressed.Grown.{
  IsMapped, Grows, IsEntry, AreStates, no_states, one_state, get_elem?-grow, length-grow,
  grow-cases, grow-append, AreStates-append, Grows-refl, Grows-trans, known_kept,
}
use liss.Abstraction.Compressed.Added.{push-mem, mem-push, length-push}

module _ {ℓ κ} {S : Type ℓ} {A : Type κ} (same : A → A → Bool) (equal : S → S → Bool)
    (less : S → S → Bool) (ca : Inner S A) (us : List S) (vs : List A) (decS : Decides equal)
    (small : length us < state_limit) where
  abbrev pub with_successor : S → Building S A → Insertion S → Bool → Building S A
  with_successor next b r old = record b {
    final = grow r.is_new false b.final;
    transitions = grow r.is_new [] b.transitions;
    states = r.pairs;
    seen = grow (not old) next b.seen;
    frontier = if old then b.frontier else push less next b.frontier;
  }

  module _ (b : Building S A) (h : IsMapped same equal ca us vs b) (next : S) (r : Insertion S)
      (ins : IsInserted equal decS state_limit next b.states r) where
    old_state :
        (j : ℕ) (s : S) → get_elem? (keys b.states) j ≡ some s → get_elem? (keys r.pairs) j ≡ some s
    old_state j s e = rw ins.extended (get_elem?-grow r.is_new next (keys b.states) j e)

    old-IsEntry :
        (s : S) (c : ℕ) (ids : List ℕ)
        → IsEntry same equal ca us vs (keys b.states) (keys b.table.symbol_map) s c ids
        → IsEntry same equal ca us vs (keys r.pairs) (keys b.table.symbol_map) s c ids
    old-IsEntry s c ids (a, e, m, hs) =
        let (more, q) = grow-append r.is_new next (keys b.states) in
        (
          a,
          e,
          m,
          subst (λ known. AreStates known ids (ca.successors s a)) (sym (ins.extended ∙ q))
              (AreStates-append (keys b.states) more hs),
        )

    -- What the frontier then holds.
    on_frontier :
        (old : Bool) (s : S)
        → Memᴰ s (if old then b.frontier else push less next b.frontier)
        → (s ≡ next) ⊎ Memᴰ s b.frontier
    on_frontier true s m = inr m
    on_frontier false s m = push-mem less next s b.frontier m

    pub with_successor-IsMapped :
        (old : Bool)
        → old ≡ not r.is_new
        → Memᴰ next us
        → IsMapped same equal ca us vs (with_successor next b r old)
    with_successor-IsMapped old q m = record {
      indexed_states = ins.indexed;
      unique_states = ins.unique;
      indexed_symbols = h.indexed_symbols;
      unique_symbols = h.unique_symbols;
      seen =
          ap (λ c. grow (not c) next b.seen) q
          ∙ (by_case r.is_new ∙ (ap (grow r.is_new next) h.seen ∙ sym ins.extended));
      symbols = h.symbols;
      finals = omega (
        arith,
        length-grow r.is_new false b.final,
        h.finals,
        length-inserted equal decS state_limit next b.states r ins,
      );
      rows = omega (
        arith,
        length-grow r.is_new [] b.transitions,
        h.rows,
        length-inserted equal decS state_limit next b.states r ins,
      );
      marks = h.marks;
      room_states = omega (
        arith,
        h.room_states,
        length-inserted equal decS state_limit next b.states r ins,
        room-inserted equal decS state_limit next b.states r us ins m,
      );
      room_symbols = h.room_symbols;
      inside = λ s on. elim (on_frontier old s on) [
        | inl e ↦ (
          subst (λ t. Memᴰ t us) (sym e) m,
          (r.number, subst (λ t. get_elem? (keys r.pairs) r.number ≡ some t) (sym e) ins.placed),
        )
        | inr on0 ↦ let (in_us, (k, at_k)) = h.inside s on0 in (in_us, (k, old_state k s at_k))
      ];
      sound_marks = h.sound_marks;
      sound_finals = λ j e. elim (grow-cases r.is_new false b.final j e) [
        | inl e1 ↦ let (s, at_j, f) = h.sound_finals j e1 in (s, old_state j s at_j, f)
        | inr (_, f) ↦ cc
      ];
      sound_rows = λ j row c ids e f. elim (grow-cases r.is_new [] b.transitions j e) [
        | inl e1 ↦
            let (s, at_j, solid, entry) = h.sound_rows j row c ids e1 f in
            (s, old_state j s at_j, solid, old-IsEntry s c ids entry)
        | inr (_, g) ↦
            let p : none ≡ some ids = subst (λ (row' : Row). find_key c row' ≡ some ids) g f in cc
      ];
    }
      where
        by_case : (c : Bool) → grow (not (not c)) next b.seen ≡ grow c next b.seen
        by_case true = refl
        by_case false = refl

    with_successor-Grows :
        (old : Bool)
        → old ≡ not r.is_new
        → Memᴰ next us
        → Grows same equal ca us vs b (with_successor next b r old)
    with_successor-Grows old q m = record {
      mapped = with_successor-IsMapped old q m;
      states =
          let (more, e) = grow-append r.is_new next (keys b.states) in (more, ins.extended ∙ e);
      symbols = ([], sym (append-nil (keys b.table.symbol_map)));
      marks = λ k e. e;
      finals = λ j e. get_elem?-grow r.is_new false b.final j e;
      rows = λ j row e. (row, get_elem?-grow r.is_new [] b.transitions j e, λ c ids p. p);
      kept = λ s on. kept_by old s on;
      fresh = λ j s e.
          elim (grow-cases r.is_new next (keys b.states) j
            (subst (λ xs. get_elem? xs j ≡ some s) ins.extended e)) [
              | inl e1 ↦ inl e1
              | inr (new, e1) ↦ inr (at_front old s (q ∙ ap not new) e1)
            ];
      work = work_by old r.is_new q (room-inserted equal decS state_limit next b.states r us ins m);
      initial = refl;
    }
      where
        kept_by :
            (c : Bool) (s : S)
            → Memᴰ s b.frontier
            → Memᴰ s (if c then b.frontier else push less next b.frontier)
        kept_by true s on = on
        kept_by false s on = mem-push less next s b.frontier (inr on)

        at_front :
            (c : Bool) (s : S)
            → c ≡ false
            → s ≡ next
            → Memᴰ s (if c then b.frontier else push less next b.frontier)
        at_front true s p e = cc
        at_front false s p e = mem-push less next s b.frontier (inl e)

        work_by :
            (c d : Bool)
            → c ≡ not d
            → (if d then 1 else 0) + unseen equal us (keys r.pairs)
              ≤ unseen equal us (keys b.states)
            → length (if c then b.frontier else push less next b.frontier)
                + unseen equal us (keys r.pairs)
              ≤ length b.frontier + unseen equal us (keys b.states)
        work_by true d p room = ground arith
        work_by false d p room = ground (arith, length-push less next b.frontier)

  add_successor-Grows :
      (next : S) (b : Building S A)
      → IsMapped same equal ca us vs b
      → Memᴰ next us
      → let r = add_successor same equal less ca next b in
        Grows same equal ca us vs b r.0 × (get_elem? (keys r.0.states) r.1 ≡ some next)
  unfolding add_successor
  add_successor-Grows next b h m =
      let r = insert_next equal state_limit next b.states in
      let ins =
        insert_next-IsInserted equal decS state_limit next b.states
          (omega (arith, h.room_states, small)) h.indexed_states h.unique_states in
      (
        with_successor-Grows b h next r ins (is_seen equal next b.seen)
            (ap (is_seen equal next) h.seen ∙ ground (arith, ins.fresh)) m,
        ins.placed,
      )

  pub add_successors-Grows :
      (ss : List S) (b : Building S A)
      → IsMapped same equal ca us vs b
      → ((t : S) → Memᴰ t ss → Memᴰ t us)
      → let r = add_successors same equal less ca ss b in
        Grows same equal ca us vs b r.0 × AreStates (keys r.0.states) r.1 ss
  unfolding add_successors
  add_successors-Grows [] b h m = (Grows-refl same equal ca us vs b h, no_states)
  add_successors-Grows (next ∷ rest) b h m =
      let (g, e) = add_successor-Grows next b h (m next (Memᴰ.head refl)) in
      let b1 = (add_successor same equal less ca next b).0 in
      let (g2, hs) = add_successors-Grows rest b1 g.mapped (λ t on. m t (Memᴰ.tail on)) in
      (
        Grows-trans same equal ca us vs g g2,
        one_state
            (known_kept same equal ca us vs g2 (add_successor same equal less ca next b).1 next e)
            hs,
      )
