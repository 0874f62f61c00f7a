-- ===== src/Cfg/Automaton/Agree.antt =====
-- On a well-formed graph the automaton of a thread never fails, stays inside the graph, has at most
-- one successor for a symbol, and has one for each symbol that it offers.
use mathlib.Core.List.Memᴰ
use liss.Common.{
  ℕ, zero, suc, ◌≤◌, ◌<◌, ◌≡◌, ◌≢◌, ◌⊎◌, refl, sym, ◌∙◌, true, false, List, [], ◌∷◌, Option, none,
  some, length, arith, All, All-get_elem?, get_elem?-some, Bool-cases, Option-cases, inl, inr, Memᴰ,
  subst,
}
use liss.Common.Int.{ℤ, pos, negsuc, neg}
use liss.Abstraction.Symbol.{Symbol, symbol_eq}
use liss.Abstraction.Symbol.Equality.{symbol_eq_refl}
use liss.Cfg.Graph.{State, Edge, AbstractCfg, get_state, get_successors}
use liss.Cfg.Graph.WellFormed.{IsWellFormed, Targets}
use liss.Cfg.Automaton.{
  RewardState, points_to, after_action, edge_reward, action_reward, edge_successors, successors,
  edge_symbol, push_symbol, edge_symbols, next_symbols,
}

-- A state of the automaton: before or after a state of the graph other than state 0.
abbrev pub IsPlace : AbstractCfg → ℤ → Type 0
IsPlace g (pos n) = (1 ≤ n) × (n < length g.states)
IsPlace g (negsuc n) = suc n < length g.states

module _ (g : AbstractCfg) (w : IsWellFormed g) where
  get_state-some :
      (n : ℕ) → 1 ≤ n → n < length g.states → (s : State) × (get_state g (pos n) ≡ some s)
  unfolding get_state
  get_state-some zero h k = absurd (omega arith)
  get_state-some (suc n) h k = get_elem?-some g.states (suc n) k

  get_successors-some :
      (n : ℕ)
      → n < length g.states
      → (es : List Edge) × (get_successors g n ≡ some es) × All (Targets (length g.states)) es
  unfolding get_successors
  get_successors-some n h =
      let (es, e) = get_elem?-some g.edges n (omega (arith, w.paired)) in
      (es, e, All-get_elem? _ g.edges n es w.targets e)

  abbrev Inside : List RewardState → Type 0
  Inside rs = All (λ (r : RewardState). IsPlace g r.state) rs

  IsPlace-neg : (n : ℕ) → 1 ≤ n → n < length g.states → IsPlace g (neg (pos n))
  IsPlace-neg zero h k = absurd (omega arith)
  IsPlace-neg (suc n) h k = k

  after_action-some :
      (n : ℕ) (reward : ℤ)
      → 1 ≤ n
      → n < length g.states
      → (r : RewardState) × (after_action g n reward ≡ some (r ∷ [])) × IsPlace g r.state
  unfolding after_action
  after_action-some n reward h k = let (es, e, ts) = get_successors-some n k in go es e ts
    where
      go :
          (es : List Edge)
          → get_successors g n ≡ some es
          → All (Targets (length g.states)) es
          → (r : RewardState) × (after_action g n reward ≡ some (r ∷ [])) × IsPlace g r.state
      go [] e ts =
          (record { reward = reward; state = neg (pos n) }, rw (e, after_action), IsPlace-neg n h k)
      go (a ∷ []) e ts = (record { reward = reward; state = pos a.to }, rw (e, after_action), ts.0)
      go (a ∷ b ∷ es) e ts =
          (record { reward = reward; state = neg (pos n) }, rw (e, after_action), IsPlace-neg n h k)

  -- What a list of successors can be.
  record IsStep (out : List RewardState) : Type 0 where
    inside : Inside out
    single : length out ≤ 1

  -- The three ways through one round of the loop.
  round_tagged :
      (sigma : Symbol) (e : Edge) (es : List Edge)
      → points_to e.tag sigma ≡ true
      → edge_successors g sigma (e ∷ es)
        ≡ some (record { reward = edge_reward e; state = pos e.to } ∷ [])
  unfolding edge_successors
  round_tagged sigma e es hit = rw (hit, edge_successors)

  round_acting :
      (sigma : Symbol) (e : Edge) (es : List Edge) (s : State)
      → points_to e.tag sigma ≡ false
      → get_state g (pos e.to) ≡ some s
      → points_to s.action sigma ≡ true
      → edge_successors g sigma (e ∷ es) ≡ after_action g e.to (action_reward e)
  unfolding edge_successors
  round_acting sigma e es s miss at_to acts = ground arith

  round_passing :
      (sigma : Symbol) (e : Edge) (es : List Edge) (s : State)
      → points_to e.tag sigma ≡ false
      → get_state g (pos e.to) ≡ some s
      → points_to s.action sigma ≡ false
      → edge_successors g sigma (e ∷ es) ≡ edge_successors g sigma es
  unfolding edge_successors
  round_passing sigma e es s miss at_to acts = ground arith

  edge_successors-some :
      (sigma : Symbol) (es : List Edge)
      → All (Targets (length g.states)) es
      → (out : List RewardState) × (edge_successors g sigma es ≡ some out) × IsStep out
  unfolding edge_successors
  edge_successors-some sigma [] ts = ([], refl, record { inside = tt; single = omega arith })
  edge_successors-some sigma (e ∷ es) ts = elim (Bool-cases (points_to e.tag sigma)) [
    | inl hit ↦ (
      record { reward = edge_reward e; state = pos e.to } ∷ [],
      round_tagged sigma e es hit,
      record { inside = (ts.0, tt); single = omega arith },
    )
    | inr miss ↦
        let (s, at_to) = get_state-some e.to ts.0.0 ts.0.1 in
        elim (Bool-cases (points_to s.action sigma)) [
          | inl acts ↦
              let (r, eq, place) = after_action-some e.to (action_reward e) ts.0.0 ts.0.1 in
              (
                r ∷ [],
                round_acting sigma e es s miss at_to acts ∙ eq,
                record { inside = (place, tt); single = omega arith },
              )
          | inr none_acts ↦
              let (out, eq, st) = edge_successors-some sigma es ts.1 in
              (out, round_passing sigma e es s miss at_to none_acts ∙ eq, st)
        ]
  ]

  -- At a place of the graph `successors` never fails, gives at most one state, and that state is a
  -- place of the graph.
  pub successors_some :
      (z : ℤ) (sigma : Symbol)
      → IsPlace g z
      → (out : List RewardState) × (successors g z sigma ≡ some out) × Inside out × (length out ≤ 1)
  unfolding successors
  successors_some (pos n) sigma h =
      let (s, e) = get_state-some n h.0 h.1 in
      elim (Bool-cases (points_to s.action sigma)) [
        | inl hit ↦
            let (r, eq, place) = after_action-some n (pos 1) h.0 h.1 in
            (r ∷ [], rw (e, hit) eq, (place, tt), omega arith)
        | inr miss ↦ ([], rw (e, miss), tt, omega arith)
      ]
  successors_some (negsuc n) sigma h =
      let (es, e, ts) = get_successors-some (suc n) h in
      let (out, eq, st) = edge_successors-some sigma es ts in (out, rw e eq, st.inside, st.single)

  edge_symbol-some :
      (e : Edge) → Targets (length g.states) e → (o : Option Symbol) × (edge_symbol g e ≡ some o)
  unfolding edge_symbol
  edge_symbol-some e t = elim (Option-cases e.tag) [
    | inl untagged ↦
        let (s, at_to) = get_state-some e.to t.0 t.1 in (s.action, rw (untagged, at_to))
    | inr (x, tagged) ↦ (some x, rw tagged)
  ]

  edge_symbols-some :
      (es : List Edge)
      → All (Targets (length g.states)) es
      → (out : List Symbol) × (edge_symbols g es ≡ some out)
  unfolding edge_symbols
  edge_symbols-some [] ts = ([], refl)
  edge_symbols-some (e ∷ es) ts =
      let (o, eq) = edge_symbol-some e ts.0 in
      let (out, eq') = edge_symbols-some es ts.1 in (push_symbol o out, rw (eq, eq'))

  -- At a place of the graph `next_symbols` never fails.
  pub next_symbols_some :
      (z : ℤ) → IsPlace g z → (out : List Symbol) × (next_symbols g z ≡ some out)
  unfolding next_symbols
  next_symbols_some (pos n) h =
      let (s, e) = get_state-some n h.0 h.1 in (push_symbol s.action [], rw e)
  next_symbols_some (negsuc n) h =
      let (es, e, ts) = get_successors-some (suc n) h in
      let (out, eq) = edge_symbols-some es ts in (out, rw e eq)

  mem-push_symbol :
      (o : Option Symbol) (rest : List Symbol) (sigma : Symbol)
      → Memᴰ sigma (push_symbol o rest)
      → (points_to o sigma ≡ true) ⊎ Memᴰ sigma rest
  mem-push_symbol none rest sigma m = inr m
  mem-push_symbol (some a) rest sigma m = elim (Memᴰ.cases_cons m) [
    | inl e ↦ inl (subst (λ x. symbol_eq x sigma ≡ true) e (symbol_eq_refl sigma))
    | inr m' ↦ inr m'
  ]

  singleton-ne : (r : RewardState) (out : List RewardState) → some (r ∷ []) ≡ some out → out ≢ []
  singleton-ne r out e n = cc

  -- A round stops the loop with a state, or leaves the result to the rest.
  round_cases :
      (sigma : Symbol) (e : Edge) (es : List Edge) (out : List RewardState)
      → All (Targets (length g.states)) (e ∷ es)
      → edge_successors g sigma (e ∷ es) ≡ some out
      → (out ≢ [])
        ⊎ ((edge_successors g sigma es ≡ some out)
            × ((o : Option Symbol) → edge_symbol g e ≡ some o → points_to o sigma ≡ false))
  round_cases sigma e es out ts eq =
      let (s, at_to) = get_state-some e.to ts.0.0 ts.0.1 in
      elim (Bool-cases (points_to e.tag sigma)) [
        | inl hit ↦ inl (singleton-ne _ out (sym (round_tagged sigma e es hit) ∙ eq))
        | inr miss ↦ elim (Bool-cases (points_to s.action sigma)) [
          | inl acts ↦
              let (r, acted, _) = after_action-some e.to (action_reward e) ts.0.0 ts.0.1 in
              inl (
                singleton-ne r out
                  (sym acted ∙ sym (round_acting sigma e es s miss at_to acts) ∙ eq))
          | inr passes ↦ inr (
            sym (round_passing sigma e es s miss at_to passes) ∙ eq,
            λ o eo. misses s o at_to miss passes eo,
          )
        ]
      ]
    where
      misses :
          (s : State) (o : Option Symbol)
          → get_state g (pos e.to) ≡ some s
          → points_to e.tag sigma ≡ false
          → points_to s.action sigma ≡ false
          → edge_symbol g e ≡ some o
          → points_to o sigma ≡ false
      misses s o at_to miss passes eo = unfold edge_symbol in ground arith

  edge_symbols-edge_successors :
      (es : List Edge) (sigma : Symbol) (symbols : List Symbol) (out : List RewardState)
      → All (Targets (length g.states)) es
      → edge_symbols g es ≡ some symbols
      → Memᴰ sigma symbols
      → edge_successors g sigma es ≡ some out
      → out ≢ []
  unfolding edge_symbols
  edge_symbols-edge_successors [] sigma symbols out ts e m eq =
      absurd (Memᴰ.not-nil (subst (Memᴰ sigma) (nil_of symbols e) m))
    where
      nil_of : (l : List Symbol) → some [] ≡ some l → l ≡ []
      nil_of l q = cc
  edge_symbols-edge_successors (a ∷ es) sigma symbols out ts e m eq =
      let (o, eo) = edge_symbol-some a ts.0 in
      let (rest, er) = edge_symbols-some es ts.1 in
      elim (round_cases sigma a es out ts eq) [
        | inl stops ↦ stops
        | inr (later, misses) ↦
            edge_symbols-edge_successors es sigma rest out ts.1 er
              (remains o rest eo er (misses o eo)) later
      ]
    where
      remains :
          (o : Option Symbol) (rest : List Symbol)
          → edge_symbol g a ≡ some o
          → edge_symbols g es ≡ some rest
          → points_to o sigma ≡ false
          → Memᴰ sigma rest
      remains o rest eo er miss =
          elim (mem-push_symbol o rest sigma
            (subst (Memᴰ sigma) (listed symbols (rw (eo, er) at e)) m)) [
              | inl hit ↦ cc
              | inr m' ↦ m'
            ]
        where
          listed : (l : List Symbol) → some (push_symbol o rest) ≡ some l → l ≡ push_symbol o rest
          listed l q = cc

  -- For each symbol that `next_symbols` offers at a place of the graph, `successors` has a state:
  -- the assertion of the concurrent automaton on its threads.
  pub next_symbols-successors :
      (z : ℤ) (sigma : Symbol) (symbols : List Symbol) (out : List RewardState)
      → IsPlace g z
      → next_symbols g z ≡ some symbols
      → Memᴰ sigma symbols
      → successors g z sigma ≡ some out
      → out ≢ []
  unfolding next_symbols successors
  next_symbols-successors (negsuc n) sigma symbols out h e m eq =
      let (es, ee, ts) = get_successors-some (suc n) h in
      edge_symbols-edge_successors es sigma symbols out ts (rw ee at e) m (rw ee at eq)
  next_symbols-successors (pos n) sigma symbols out h e m eq =
      let (s, at_n) = get_state-some n h.0 h.1 in
      let (r, acted, _) = after_action-some n (pos 1) h.0 h.1 in
      elim (mem-push_symbol s.action [] sigma
        (subst (Memᴰ sigma) (listed s symbols (rw at_n at e)) m)) [
          | inl hit ↦ singleton-ne r out (sym acted ∙ (rw (at_n, hit) at eq))
          | inr m' ↦ absurd (Memᴰ.not-nil m')
        ]
    where
      listed :
          (s : State) (l : List Symbol)
          → some (push_symbol s.action []) ≡ some l
          → l ≡ push_symbol s.action []
      listed s l q = cc
