-- ===== src/Cfg/Graph/WellFormed.antt =====
-- The invariant of a control flow graph under construction, and that every operation keeps it.
use Prim.Native.String.{String}
use liss.Common.{
  ℕ, zero, suc, ◌+◌, ◌%◌, ◌≤◌, ◌<◌, ◌≡◌, ◌⊎◌, refl, sym, ◌∙◌, Bool, true, List, [], ◌∷◌, ◌++◌,
  Option, none, some, ltb, leb, ◌==◌, length, get_elem?, set, arith, All, All-append, All-map,
  All-set, All-get_elem?, length-append, length-set, get_elem?-set_self, get_elem?-some,
  lt_of_get_elem?, subst, Bool-cases, inl, inr, ◌&&◌, not,
}
use liss.Common.Int.{ℤ, pos}
use liss.Abstraction.Symbol.{Symbol, tag_symbol, epsilon_symbol}
use liss.Cfg.Graph.{
  State, Edge, AbstractCfg, max_states, action_state, new_edge, placed, add_state, new_cfg,
  tag_edge, push_edge, tag_if, add_edge,
}

-- A symbol stands at a place of the thread.
abbrev pub At : ℕ → ℕ → Symbol → Type 0
At thread i s = (s.loc.thread ≡ thread) × (s.loc.state ≡ pos i)

abbrev SymbolAt : ℕ → ℕ → Option Symbol → Option Symbol → Type 0
SymbolAt thread i (some a) other = At thread i a
SymbolAt thread i none (some n) = At thread i n
SymbolAt thread i none none = ⊥

-- The symbol of a state, of either kind, has the number of the state.
abbrev pub Numbered : ℕ → ℕ → List State → Type 0
Numbered thread i [] = Unit
Numbered thread i (s ∷ ss) =
    SymbolAt thread i s.action s.non_action_symbol × Numbered thread (suc i) ss

abbrev pub Targets : ℕ → Edge → Type 0
Targets n e = (1 ≤ e.to) × (e.to < n)

pub record IsWellFormed (g : AbstractCfg) : Type 0 where
  pub rooted : 1 ≤ length g.states
  pub bounded : length g.states ≤ max_states
  pub paired : length g.edges ≡ length g.states
  pub numbered : Numbered g.thread_id 0 g.states
  pub targets : All (All (Targets (length g.states))) g.edges

Numbered-append :
    (thread i : ℕ) (ss : List State) (s : State)
    → Numbered thread i ss
    → SymbolAt thread (i + length ss) s.action s.non_action_symbol
    → Numbered thread i (ss ++ s ∷ [])
Numbered-append thread i [] s h hs =
    (subst (λ n. SymbolAt thread n s.action s.non_action_symbol) (omega arith) hs, tt)
Numbered-append thread i (r ∷ ss) s h hs = (
  h.0,
  Numbered-append thread (suc i) ss s h.1
      (subst (λ n. SymbolAt thread n s.action s.non_action_symbol) (omega arith) hs),
)

-- A state at the end, with no edges: what the two `add_state` have in common.
grow-IsWellFormed :
    (g : AbstractCfg) (s : State)
    → IsWellFormed g
    → length g.states < max_states
    → SymbolAt g.thread_id (length g.states) s.action s.non_action_symbol
    → IsWellFormed (record g { states = g.states ++ s ∷ []; edges = g.edges ++ [] ∷ [] })
grow-IsWellFormed g s w room place = record {
  rooted = omega (arith, length-append g.states (s ∷ []), w.rooted);
  bounded = omega (arith, length-append g.states (s ∷ []));
  paired =
      omega (arith, length-append g.states (s ∷ []), length-append g.edges ([] ∷ []), w.paired);
  numbered =
      Numbered-append g.thread_id 0 g.states s w.numbered
        (subst (λ n. SymbolAt g.thread_id n s.action s.non_action_symbol) (omega arith) place);
  targets =
      All-append _ g.edges ([] ∷ [])
        (All-map _ _ g.edges
          (λ es. All-map _ _ es (λ e t. (t.0, omega (arith, t.1, length-append g.states (s ∷ [])))))
          w.targets)
        (tt, tt);
}

-- `add_state` fails exactly when the graph has `max_states` states. Otherwise it keeps a graph
-- well-formed and returns the number of the new state, which is the last one.
pub add_state-IsWellFormed :
    (symbol : Symbol) (g : AbstractCfg)
    → IsWellFormed g
    → ((add_state symbol g ≡ none) × (length g.states ≡ max_states))
      ⊎ ((g' : AbstractCfg) × (add_state symbol g ≡ some (g', length g.states))
          × IsWellFormed g'
          × (length g'.states ≡ suc (length g.states)))
unfolding add_state
add_state-IsWellFormed symbol g w = elim (Bool-cases (leb max_states (length g.states))) [
  | inl full ↦ inl (rw full, ground (arith, w.bounded))
  | inr room ↦
      let s = action_state (placed symbol g) in
      inr (
        record g { states = g.states ++ s ∷ []; edges = g.edges ++ [] ∷ [] },
        rw room,
        grow-IsWellFormed g s w (ground arith) (refl, refl),
        omega (arith, length-append g.states (s ∷ [])),
      )
]

-- The graph that the constructor makes is well-formed once state 0 is there.
pub new_cfg-IsWellFormed :
    (name : String) (thread : ℕ)
    → (g : AbstractCfg) × (new_cfg name thread ≡ some g) × IsWellFormed g × (g.thread_id ≡ thread)
unfolding new_cfg
new_cfg-IsWellFormed name thread = (
  _,
  refl,
  record {
    rooted = omega arith;
    bounded = omega arith;
    paired = refl;
    numbered = unfold epsilon_symbol in ((refl, refl), tt);
    targets = (tt, tt);
  },
  refl,
)

Numbered-final :
    (thread i k : ℕ) (ss : List State) (s : State)
    → get_elem? ss k ≡ some s
    → Numbered thread i ss
    → Numbered thread i (set ss k (record s { final = true }))
Numbered-final thread i k [] s e h = tt
Numbered-final thread i zero (r ∷ ss) s e h = ground arith
Numbered-final thread i (suc k) (r ∷ ss) s e h = (h.0, Numbered-final thread (suc i) k ss s e h.1)

-- What changes only the edges of one state, and keeps their targets in range.
edges-IsWellFormed :
    (g : AbstractCfg) (from : ℕ) (es : List Edge)
    → IsWellFormed g
    → All (Targets (length g.states)) es
    → IsWellFormed (record g { edges = set g.edges from es })
edges-IsWellFormed g from es w h = record {
  rooted = w.rooted;
  bounded = w.bounded;
  paired = length-set g.edges from es ∙ w.paired;
  numbered = w.numbered;
  targets = All-set _ g.edges from es w.targets h;
}

-- One step of `add_edge`: the graph stays well-formed, the states stay, and the state has `k` edges.
record EdgeStep (g g' : AbstractCfg) (from k : ℕ) : Type 0 where
  valid : IsWellFormed g'
  states_kept : g'.states ≡ g.states
  edges_of : (es : List Edge) × (get_elem? g'.edges from ≡ some es) × (length es ≡ k)

push_edge-EdgeStep :
    (g : AbstractCfg) (from : ℕ) (es : List Edge) (e : Edge)
    → IsWellFormed g
    → get_elem? g.edges from ≡ some es
    → Targets (length g.states) e
    → (g' : AbstractCfg) × (push_edge from e g ≡ some g') × EdgeStep g g' from (length es + 1)
unfolding push_edge
push_edge-EdgeStep g from es e w at_from t = (
  record g { edges = set g.edges from (es ++ e ∷ []) },
  rw at_from,
  record {
    valid =
        edges-IsWellFormed g from (es ++ e ∷ []) w
          (All-append _ es (e ∷ []) (All-get_elem? _ g.edges from es w.targets at_from) (t, tt));
    states_kept = refl;
    edges_of = (
      es ++ e ∷ [],
      get_elem?-set_self g.edges from (es ++ e ∷ []) (lt_of_get_elem? g.edges from at_from),
      length-append es (e ∷ []),
    );
  },
)

tag_edge-EdgeStep :
    (g : AbstractCfg) (from k : ℕ) (es : List Edge)
    → IsWellFormed g
    → get_elem? g.edges from ≡ some es
    → k % 256 < length es
    → (g' : AbstractCfg) × (tag_edge from k g ≡ some g') × EdgeStep g g' from (length es)
unfolding tag_edge
tag_edge-EdgeStep g from k es w at_from h =
    let (e, at_k) = get_elem?-some es (k % 256) h in
    let ts = All-get_elem? _ g.edges from es w.targets at_from in
    let e' = record e { tag = some (tag_symbol g.thread_id (pos from) (k % 256)) } in
    let es' = set es (k % 256) e' in
    (
      record g { edges = set g.edges from es' },
      rw (at_from, at_k),
      record {
        valid =
            edges-IsWellFormed g from es' w
              (All-set _ es (k % 256) e' ts (All-get_elem? _ es (k % 256) e ts at_k));
        states_kept = refl;
        edges_of = (
          es',
          get_elem?-set_self g.edges from es' (lt_of_get_elem? g.edges from at_from),
          length-set es (k % 256) e',
        );
      },
    )

tag_if-EdgeStep :
    (test : Bool) (g : AbstractCfg) (from k : ℕ) (es : List Edge)
    → IsWellFormed g
    → get_elem? g.edges from ≡ some es
    → (test ≡ true → k % 256 < length es)
    → (g' : AbstractCfg) × (tag_if test from k g ≡ some g') × EdgeStep g g' from (length es)
unfolding tag_if
tag_if-EdgeStep test g from k es w at_from h =
    let (s, at_s) =
      get_elem?-some g.states from
        (omega (arith, w.paired, lt_of_get_elem? g.edges from at_from)) in
    elim (Bool-cases (test && not s.non_det)) [
      | inl yes_tag ↦
          let (g', e, st) = tag_edge-EdgeStep g from k es w at_from (h (ground arith)) in
          (g', rw (at_s, yes_tag) e, st)
      | inr no_tag ↦ (
        g,
        rw (at_s, no_tag),
        record { valid = w; states_kept = refl; edges_of = (es, at_from, refl) },
      )
    ]

kept : (a b c d : List State) → a ≡ b → b ≡ c → c ≡ d → a ≡ d
kept a b c d p q r = p ∙ q ∙ r

add_edge_steps :
    (from to : ℕ) (back_edge auto_tag : Bool) (cost : ℤ) (g g1 g2 g3 : AbstractCfg) (es : List Edge)
    → get_elem? g.edges from ≡ some es
    → tag_if (auto_tag && length es == 1) from 0 g ≡ some g1
    → push_edge from (new_edge to back_edge cost) g1 ≡ some g2
    → tag_if (auto_tag && ltb 1 (length es + 1)) from (length es) g2 ≡ some g3
    → add_edge from to back_edge auto_tag cost g ≡ some g3
unfolding add_edge
add_edge_steps from to back_edge auto_tag cost g g1 g2 g3 es e0 e1 e2 e3 = rw (e0, e1, e2) e3

-- Between two states of a well-formed graph `add_edge` never fails, whatever its flags are; the
-- graph stays well-formed, keeps its states, and the first state has one edge more.
pub add_edge-IsWellFormed :
    (from to : ℕ) (back_edge auto_tag : Bool) (cost : ℤ) (g : AbstractCfg) (es : List Edge)
    → IsWellFormed g
    → get_elem? g.edges from ≡ some es
    → 1 ≤ to
    → to < length g.states
    → (g' : AbstractCfg) × (add_edge from to back_edge auto_tag cost g ≡ some g')
      × IsWellFormed g'
      × (g'.states ≡ g.states)
      × ((es' : List Edge) × (get_elem? g'.edges from ≡ some es') × (length es' ≡ length es + 1))
unfolding new_edge
add_edge-IsWellFormed from to back_edge auto_tag cost g es w at_from h1 h2 =
    let (g1, e1, s1) =
      tag_if-EdgeStep (auto_tag && length es == 1) g from 0 es w at_from (λ q. ground arith) in
    let (es1, at1, n1) = s1.edges_of in
    let (g2, e2, s2) =
      push_edge-EdgeStep g1 from es1 (new_edge to back_edge cost) s1.valid at1
        (h1, subst (λ (ss : List State). to < length ss) (sym s1.states_kept) h2) in
    let (es2, at2, n2) = s2.edges_of in
    let (g3, e3, s3) =
      tag_if-EdgeStep (auto_tag && ltb 1 (length es + 1)) g2 from (length es) es2 s2.valid at2
        (λ q. omega (arith, n1, n2)) in
    let (es3, at3, n3) = s3.edges_of in
    (
      g3,
      add_edge_steps from to back_edge auto_tag cost g g1 g2 g3 es at_from e1 e2 e3,
      s3.valid,
      kept g3.states g2.states g1.states g.states s3.states_kept s2.states_kept s1.states_kept,
      (es3, at3, omega (arith, n1, n2, n3)),
    )
