-- ===== src/Synthesis/Traces/Content.antt =====
-- On lists without epsilon symbols, which are all that a trace of the minimised threads gives,
-- splitting does not fail and loses the preemption points only.
use mathlib.Core.List.{reverse, reverse-reverse}
use liss.Common.{
  all-append, ◌≡◌, ◌≢◌, inl, inr, refl, sym, ap, ◌∙◌, Bool, true, not, [], ◌∷◌, ◌++◌, arith, some,
  all, append_assoc, append-nil, Bool-cases, if◌then◌else◌,
}
use liss.Abstraction.Symbol.{Symbol, is_real_epsilon, is_preemption_point}
use liss.Synthesis.Traces.{
  LockList, LockLists, trim_front, pop_epsilons, trim_list, emit, split_from, split_list,
}
use liss.Synthesis.Traces.Split.{all-reverse}

abbrev solid : Symbol → Bool
solid s = not (is_real_epsilon s)

pub join : LockLists → LockList
join [] = []
join (l ∷ ls) = l ++ join ls

pub drop_switches : LockList → LockList
drop_switches [] = []
drop_switches (s ∷ l) = if is_preemption_point s then drop_switches l else s ∷ drop_switches l

join-append : (a b : LockLists) → join (a ++ b) ≡ join a ++ join b
unfolding join
join-append [] b = refl
join-append (x ∷ a) b = ap (λ t. x ++ t) (join-append a b) ∙ sym (append_assoc x (join a) (join b))

trim_front-solid : (l : LockList) → all solid l ≡ true → trim_front l ≡ l
unfolding trim_front
trim_front-solid [] h = refl
trim_front-solid (s ∷ l) h = ground arith

pop_epsilons-solid : (l : LockList) → all solid l ≡ true → l ≢ [] → pop_epsilons l ≡ some l
unfolding pop_epsilons
pop_epsilons-solid [] h n = absurd (n refl)
pop_epsilons-solid (s ∷ l) h n = ground arith

reverse_ne_nil : (l : LockList) → l ≢ [] → reverse l ≢ []
reverse_ne_nil l n e = n (sym (reverse-reverse l) ∙ ap reverse e)

trim_list-solid : (l : LockList) → all solid l ≡ true → l ≢ [] → trim_list l ≡ some l
unfolding trim_list
trim_list-solid l h n = rw (
  trim_front-solid l h,
  pop_epsilons-solid (reverse l) (all-reverse solid l ∙ h) (reverse_ne_nil l n),
  reverse-reverse l,
)

emit-solid :
    (segment : LockList) (result : LockLists)
    → all solid segment ≡ true
    → (out : LockLists) × (emit segment result ≡ some out) × (join out ≡ join result ++ segment)
unfolding emit
emit-solid [] result h = (result, refl, sym (append-nil (join result)))
emit-solid (s ∷ l) result h = (
  result ++ (s ∷ l) ∷ [],
  rw (trim_list-solid (s ∷ l) h (λ q. cc)),
  join-append result ((s ∷ l) ∷ [])
      ∙ ap (λ t. join result ++ t) (unfold join in append-nil (s ∷ l)),
)

split_from-solid :
    (segment list : LockList) (result : LockLists)
    → all solid segment ≡ true
    → all solid list ≡ true
    → (out : LockLists) × (split_from segment list result ≡ some out)
      × (join out ≡ join result ++ (segment ++ drop_switches list))
unfolding split_from drop_switches
split_from-solid segment [] result h k =
    let (out, e, q) = emit-solid segment result h in
    (out, e, q ∙ ap (λ t. join result ++ t) (sym (append-nil segment)))
split_from-solid segment (s ∷ l) result h k = elim (Bool-cases (is_preemption_point s)) [
  | inl p ↦
      let (mid, e, q) = emit-solid segment result h in
      let (out, e', q') = split_from-solid [] l mid refl (ground arith) in
      (
        out,
        rw (p, split_from, e) e',
        rw p (
            q'
            ∙ ap (λ t. t ++ drop_switches l) q
            ∙ append_assoc (join result) segment (drop_switches l)),
      )
  | inr p ↦
      let (out, e, q) =
        split_from-solid (segment ++ s ∷ []) l result
          (ground (arith, all-append solid segment (s ∷ []))) (ground arith) in
      (
        out,
        rw (p, split_from) e,
        rw p (q ∙ ap (λ t. join result ++ t) (append_assoc segment (s ∷ []) (drop_switches l))),
      )
]

-- On a list without epsilon symbols `split_list` returns, and the segments that it adds, one after
-- the other, are the list without its preemption points.
pub split_list-solid :
    (list : LockList) (result : LockLists)
    → all solid list ≡ true
    → (out : LockLists) × (split_list list result ≡ some out)
      × (join out ≡ join result ++ drop_switches list)
unfolding split_list
split_list-solid list result h = split_from-solid [] list result refl h
