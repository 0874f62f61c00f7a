-- ===== src/Abstraction/Compressed/Faithful.antt =====
-- abstraction/compressed_automaton.cpp, `from_concurrent_automaton` as a whole.
use liss.Common.{
  ℕ, ◌≤◌, ◌<◌, ◌≡◌, ◌∙◌, inl, sym, subst, ap, Bool, List, ◌++◌, Option, none, some, arith,
  if◌then◌else◌, length, Memᴰ,
}
use liss.Cfg.Graph.{◌>>=◌}
use liss.Abstraction.Compressed.{Inner}
use liss.Abstraction.Compressed.Explore.{
  Building, state_limit, start_building, sizes_agree, finished_automaton, from_concurrent_automaton,
}
use liss.Abstraction.Compressed.Operations.{CompressedAutomaton}
use liss.Abstraction.Compressed.Interned.{Decides, keys, AreUnique}
use liss.Abstraction.Compressed.Grown.{AreStates, AreStates-append}
use liss.Abstraction.Compressed.Explored.{IsClosed}
use liss.Abstraction.Compressed.Worklist.{explore-IsExplored}
use liss.Abstraction.Compressed.Started.{
  IsGiven, start_building-IsStarted, start_building_translation,
}
use liss.Abstraction.Compressed.Represented.{
  Represents, sizes_agree-true, finished_automaton-Represents,
}

module _ {ℓ κ} {S : Type ℓ} {A : Type κ} (same : A → A → Bool) (equal : S → S → Bool)
    (less : S → S → Bool) (ca : Inner S A) (us : List S) (vs : List A) (decA : Decides same)
    (decS : Decides equal) (small : length us < state_limit) where
  -- When the states that can be reached are among `us`, which are at most as many as the fuel and fewer
  -- than a `com_state` can count, when the symbols of the given table occur once, are marked as epsilon
  -- symbols only if they are, and leave room for `vs`, the symbols that are offered, when the equality
  -- tests decide equality and no initial state occurs twice, then the function returns, and what it
  -- returns is the automaton with numbers: no state and no symbol has two numbers, the initial states are
  -- the same, and so are the final states, the epsilon symbols among those that are offered, and the
  -- successors of each state under each symbol. The symbols that are offered at a number are those with
  -- successors there. The symbols of the given table keep their numbers.
  from_concurrent_automaton-Represents :
      (concurrent : CompressedAutomaton A) (fuel : ℕ)
      → IsClosed ca us vs
      → IsGiven same ca vs concurrent
      → ((s : S) → Memᴰ s ca.initial_states → Memᴰ s us)
      → AreUnique ca.initial_states
      → length us ≤ fuel
      → (r : CompressedAutomaton A) × (known : List S) × (from_concurrent_automaton same equal less
            ca fuel concurrent
          ≡ some r)
        × Represents ca known r
        × ((more : List A) × (r.table.symbol_translation
              ≡ concurrent.table.symbol_translation ++ more))
  unfolding from_concurrent_automaton
  from_concurrent_automaton-Represents concurrent fuel closed given in_us u enough =
      let start =
        start_building-IsStarted same equal less ca us vs decA decS small concurrent given in_us
          u in
      let b = start_building same equal less ca concurrent in
      let (b', e, done, front, initial, (more, known), (new, letters)) =
        explore-IsExplored same equal less ca us vs decA decS small closed fuel b
          (record { mapped = start.mapped; each = λ j t at_j. inl (start.waiting j t at_j) })
          (omega (arith, start.work, enough)) in
      (
        finished_automaton same equal less ca b',
        keys b'.states,
        ap (λ (o : Option (Building S A)). o >>= checked) e
            ∙ ap (λ (c : Bool). if c then some (finished_automaton same equal less ca b') else none)
                (sizes_agree-true same equal less ca us vs decA decS small b' done.mapped),
        finished_automaton-Represents same equal less ca us vs decA decS small b' done front (
            subst (λ xs. AreStates xs b'.initial_states ca.initial_states) (sym known)
              (AreStates-append (keys b.states) more (
                subst (λ ids. AreStates (keys b.states) ids ca.initial_states) (sym initial)
                  start.numbers))),
        (
          new,
          done.mapped.symbols
              ∙ (letters
                  ∙ ap (λ xs. xs ++ new)
                      (sym start.mapped.symbols
                        ∙ start_building_translation same equal less ca us vs decA decS small
                            concurrent)),
        ),
      )
    where
      checked : Building S A → Option (CompressedAutomaton A)
      checked b =
          if sizes_agree same equal less ca b
          then some (finished_automaton same equal less ca b)
          else none
