-- ===== src/Abstraction/Compressed/Started.antt =====
-- abstraction/compressed_automaton.cpp, what `from_concurrent_automaton` does before the loop over the
-- frontier: the symbols that are known already, and the initial states.
use liss.Common.{
  ℕ, ◌+◌, ◌%◌, ◌≤◌, ◌<◌, ◌≡◌, ◌⊎◌, ◌∙◌, inl, inr, refl, sym, subst, ap, Bool, true, false, not,
  List, [], ◌∷◌, ◌++◌, some, arith, if◌then◌else◌, length, get_elem?, Memᴰ, append-nil,
  append_assoc,
}
use liss.Abstraction.Compressed.{Inner}
use liss.Abstraction.Compressed.Explore.{
  Building, Insertion, insert_next, grow, is_seen, push, state_limit, symbol_limit, start_state,
  start_states, known_symbols, nothing_built, start_building,
}
use liss.Abstraction.Compressed.Operations.{CompressedAutomaton}
use liss.Abstraction.Compressed.Interned.{
  Decides, keys, length-keys, IsIndexed, AreUnique, get_elem?-append_cases, unseen, unseen-nil,
  insert_next-IsInserted, room-inserted,
}
use liss.Abstraction.Compressed.Grown.{IsMapped, AreStates, no_states, one_state, AreStates-append}
use liss.Abstraction.Compressed.Added.{mem-push, length-push}
use liss.Abstraction.Compressed.Followed.{with_successor, with_successor-IsMapped}
use liss.Abstraction.Compressed.Known.{has_no_number, insert_new, known_symbols_lem}

module _ {ℓ κ} {S : Type ℓ} {A : Type κ} (same : A → A → Bool) (ca : Inner S A) (vs : List A) where
  -- What the automaton that is given holds: symbols without duplicates, with their marks, and room for
  -- the symbols `vs`.
  pub record IsGiven (concurrent : CompressedAutomaton A) : Type κ where
    pub unique : AreUnique concurrent.table.symbol_translation
    pub marks : length concurrent.epsilon ≡ length concurrent.table.symbol_translation
    pub sound :
        (k : ℕ)
        → get_elem? concurrent.epsilon k ≡ some true
        → (a : A) × (get_elem? concurrent.table.symbol_translation k ≡ some a)
          × (ca.is_epsilon a ≡ true)
    pub room :
        length concurrent.table.symbol_translation
          + unseen same vs concurrent.table.symbol_translation
        < symbol_limit

AreStates_snoc {ℓ} :
    {S : Type ℓ} {known : List S} {ids : List ℕ} {ss : List S} (k : ℕ) {s : S}
    → AreStates known ids ss
    → get_elem? known k ≡ some s
    → AreStates known (ids ++ k ∷ []) (ss ++ s ∷ [])
AreStates_snoc k no_states e = one_state e no_states
AreStates_snoc k (one_state f h) e = one_state f (AreStates_snoc k h e)

module _ {ℓ κ} {S : Type ℓ} {A : Type κ} (same : A → A → Bool) (equal : S → S → Bool)
    (less : S → S → Bool) (ca : Inner S A) (us : List S) (vs : List A) (decA : Decides same)
    (decS : Decides equal) (small : length us < state_limit) where
  with_initial-IsMapped :
      (b : Building S A) (ids : List ℕ)
      → IsMapped same equal ca us vs b
      → IsMapped same equal ca us vs (record b { initial_states = ids })
  with_initial-IsMapped b ids h = record {
    indexed_states = h.indexed_states;
    unique_states = h.unique_states;
    indexed_symbols = h.indexed_symbols;
    unique_symbols = h.unique_symbols;
    seen = h.seen;
    symbols = h.symbols;
    finals = h.finals;
    rows = h.rows;
    marks = h.marks;
    room_states = h.room_states;
    room_symbols = h.room_symbols;
    inside = h.inside;
    sound_marks = h.sound_marks;
    sound_finals = h.sound_finals;
    sound_rows = h.sound_rows;
  }

  start_state_lem :
      (s : S) (initial : List S) (b : Building S A)
      → IsMapped same equal ca us vs b
      → Memᴰ s us
      → AreUnique (keys b.states ++ s ∷ initial)
      → let b' = start_state same equal less ca s b in
        IsMapped same equal ca us vs b'
        × (keys b'.states ≡ keys b.states ++ s ∷ [])
        × (get_elem? (keys b'.states) (length b.states % state_limit) ≡ some s)
        × (length b'.frontier + unseen equal us (keys b'.states)
            ≤ length b.frontier + unseen equal us (keys b.states))
  start_state_lem s initial b h in_us u =
      let few : length b.states < state_limit = omega (arith, h.room_states, small) in
      let r = insert_next equal state_limit s b.states in
      let ins =
        insert_next-IsInserted equal decS state_limit s b.states few h.indexed_states
          h.unique_states in
      let (new, all, placed) =
        insert_new equal decS state_limit b.states s initial few h.indexed_states h.unique_states
          u in
      let old : is_seen equal s b.seen ≡ false =
        ap (is_seen equal s) h.seen
        ∙ (has_no_number equal decS b.states s initial h.indexed_states u).1 in
      let ids = b.initial_states ++ (length b.states % state_limit) ∷ [] in
      let mapped =
        with_initial-IsMapped
          (with_successor same equal less ca us vs decS small s b r (is_seen equal s b.seen)) ids
          (with_successor-IsMapped same equal less ca us vs decS small b h s r ins
            (is_seen equal s b.seen) (old ∙ sym (ap not new)) in_us) in
      (
        subst (λ c. IsMapped same equal ca us vs (started ids r c false)) new
            (subst (λ c. IsMapped same equal ca us vs (started ids r r.is_new c)) old mapped),
        all,
        placed,
        omega (
          arith,
          length-push less s b.frontier,
          room-inserted equal decS state_limit s b.states r us ins in_us,
          ap {B = ℕ} (λ (c : Bool). if c then 1 else 0) new,
        ),
      )
    where
      started : List ℕ → Insertion S → Bool → Bool → Building S A
      started ids r c d = record b {
        initial_states = ids;
        final = grow c false b.final;
        transitions = grow c [] b.transitions;
        states = r.pairs;
        seen = grow (not (is_seen equal s b.seen)) s b.seen;
        frontier = if d then b.frontier else push less s b.frontier;
      }

  -- The initial states `done` have numbers, and are on the frontier.
  pub record IsStarted (done : List S) (b : Building S A) : Type (ℓ ⊔ κ) where
    pub mapped : IsMapped same equal ca us vs b
    pub waiting : (j : ℕ) (t : S) → get_elem? (keys b.states) j ≡ some t → Memᴰ t b.frontier
    pub numbers : AreStates (keys b.states) b.initial_states done
    pub work : length b.frontier + unseen equal us (keys b.states) ≤ length us

  start_states-IsStarted :
      (done initial : List S) (b : Building S A)
      → IsStarted done b
      → ((s : S) → Memᴰ s initial → Memᴰ s us)
      → AreUnique (keys b.states ++ initial)
      → IsStarted (done ++ initial) (start_states same equal less ca initial b)
  unfolding start_states
  start_states-IsStarted done [] b h in_us u =
      subst (λ xs. IsStarted xs b) (sym (append-nil done)) h
  start_states-IsStarted done (s ∷ initial) b h in_us u =
      let (mapped, all, placed, work) =
        start_state_lem s initial b h.mapped (in_us s (Memᴰ.head refl)) u in
      let b' = start_state same equal less ca s b in
      let h' : IsStarted (done ++ s ∷ []) b' = record {
        mapped = mapped;
        waiting = λ j t e.
            mem-push less s t b.frontier (from j t (subst (λ xs. get_elem? xs j ≡ some t) all e));
        numbers =
            AreStates_snoc (length b.states % state_limit)
              (subst (λ xs. AreStates xs b.initial_states done) (sym all)
                (AreStates-append (keys b.states) (s ∷ []) h.numbers))
              placed;
        work = omega (arith, work, h.work);
      } in
      subst (λ xs. IsStarted xs (start_states same equal less ca initial b'))
        (append_assoc done (s ∷ []) initial)
        (start_states-IsStarted (done ++ s ∷ []) initial b' h' (λ t m. in_us t (Memᴰ.tail m))
          (subst AreUnique
            (sym (append_assoc (keys b.states) (s ∷ []) initial)
              ∙ sym (ap (λ xs. xs ++ initial) all))
            u))
    where
      from :
          (j : ℕ) (t : S)
          → get_elem? (keys b.states ++ s ∷ []) j ≡ some t
          → (t ≡ s) ⊎ Memᴰ t b.frontier
      from j t e = elim (get_elem?-append_cases (keys b.states) s j e) [
        | inl old ↦ inr (h.waiting j t old)
        | inr (_, q) ↦ inl q
      ]

  pub start_building-IsStarted :
      (concurrent : CompressedAutomaton A)
      → IsGiven same ca vs concurrent
      → ((s : S) → Memᴰ s ca.initial_states → Memᴰ s us)
      → AreUnique ca.initial_states
      → IsStarted ca.initial_states (start_building same equal less ca concurrent)
  unfolding start_building
  start_building-IsStarted concurrent given in_us u =
      start_states-IsStarted [] ca.initial_states (nothing_built same equal less ca concurrent)
        nothing in_us u
    where
      translation : List A
      translation = concurrent.table.symbol_translation

      known : List (A × ℕ)
      known = known_symbols same equal less ca 0 translation []

      numbered : (keys known ≡ translation) × IsIndexed (keys known) known
      numbered =
          known_symbols_lem same equal less ca us vs decA decS small translation []
            (omega (arith, given.room)) tt given.unique

      nothing : IsStarted [] (nothing_built same equal less ca concurrent)
      nothing = record {
        mapped = record {
          indexed_states = tt;
          unique_states = λ i j c e f. cc;
          indexed_symbols = numbered.1;
          unique_symbols = subst AreUnique (sym numbered.0) given.unique;
          seen = refl;
          symbols = sym numbered.0;
          finals = refl;
          rows = refl;
          marks = given.marks ∙ (ap length (sym numbered.0) ∙ length-keys known);
          room_states = omega (arith, unseen-nil equal us);
          room_symbols =
              subst (λ (n : ℕ). n + unseen same vs (keys known) < symbol_limit) (length-keys known)
                (subst (λ xs. length xs + unseen same vs xs < symbol_limit) (sym numbered.0)
                  given.room);
          inside = λ s m. elim m [ ];
          sound_marks = λ k e.
              let (a, at_k, m) = given.sound k e in
              (a, subst (λ xs. get_elem? xs k ≡ some a) (sym numbered.0) at_k, m);
          sound_finals = λ j e. cc;
          sound_rows = λ j row c ids e f. cc;
        };
        waiting = λ j t e. cc;
        numbers = no_states;
        work = omega (arith, unseen-nil equal us);
      }

  start_states-table :
      (initial : List S) (b : Building S A)
      → (start_states same equal less ca initial b).table ≡ b.table
  unfolding start_states
  start_states-table [] b = refl
  start_states-table (s ∷ initial) b =
      start_states-table initial (start_state same equal less ca s b)

  pub start_building_translation :
      (concurrent : CompressedAutomaton A)
      → (start_building same equal less ca concurrent).table.symbol_translation
        ≡ concurrent.table.symbol_translation
  unfolding start_building
  start_building_translation concurrent =
      ap (λ t. t.symbol_translation)
        (start_states-table ca.initial_states (nothing_built same equal less ca concurrent))
