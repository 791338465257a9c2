-- ===== src/LoopAgents/Validator/Depth.antt =====
-- What the memo of `depth` in evoagent/loop_agents/planning/validator.py holds whenever it returns.
use evo_review_agent.Base.{
  ℕ, zero, suc, max, String, ◌≡◌, refl, sym, ap, ◌∙◌, inl, inr, Option, none, some, List, [], ◌∷◌,
  Bool-cases, some_inj, if_rule,
}
use evo_review_agent.Base.Key.{◌==◌, text_key, number_key}
use evo_review_agent.Base.Dict.{Dict, get, put, get-put, get-put_self, keys}
use mathlib.Core.Path.{subst}
use evo_review_agent.Base.Result.{ok, >>=_returned, ok_inj}
use evo_review_agent.LoopAgents.TaskGraph.{AgentTaskNode, CoordinatorTaskGraph}
use evo_review_agent.LoopAgents.Validator.{
  Depths, deepest, noted, depth_new, depth_known, depth, max_depth_of,
}

-- `m` is the largest of the depths that the memo has for the nodes.
unfoldable pub Deepest : Dict String ℕ → List String → ℕ → Type 0
Deepest memo [] m = m ≡ 0
Deepest memo (d ∷ ds) m =
    (a : ℕ) × (b : ℕ) × (get memo d ≡ some a) × Deepest memo ds b × (m ≡ max a b)

-- Every depth in the memo is one more than the largest of the node's dependencies, which stand in the
-- memo as well.
unfoldable pub IsExact : Dict String AgentTaskNode → Dict String ℕ → Type 0
IsExact nodes memo =
    (id : String) (k : ℕ)
    → get memo id ≡ some k
    → (n : AgentTaskNode) × (m : ℕ) × (get nodes id ≡ some n)
      × Deepest memo n.dependencies m
      × (k ≡ suc m)

pub Extends : Dict String ℕ → Dict String ℕ → Type 0
Extends memo memo' = (id : String) (k : ℕ) → get memo id ≡ some k → get memo' id ≡ some k

Deepest-unique :
    (memo : Dict String ℕ) (ds : List String) (m n : ℕ)
    → Deepest memo ds m
    → Deepest memo ds n
    → m ≡ n
unfolding Deepest
Deepest-unique memo [] m n h k = h ∙ sym k
Deepest-unique memo (d ∷ ds) m n (a, b, fa, ha, ea) (a', b', fb, hb, eb) =
    let same_a : a ≡ a' = some_inj (sym fa ∙ fb) in
    let same_b = Deepest-unique memo ds b b' ha hb in cc

Deepest-Extends :
    (memo memo' : Dict String ℕ) (ds : List String) (m : ℕ)
    → Extends memo memo'
    → Deepest memo ds m
    → Deepest memo' ds m
unfolding Deepest Extends
Deepest-Extends memo memo' [] m x h = h
Deepest-Extends memo memo' (d ∷ ds) m x (a, b, f, h, e) =
    (a, b, x d a f, Deepest-Extends memo memo' ds b x h, e)

-- What a call keeps and gives.
pub record Gives (nodes : Dict String AgentTaskNode) (memo memo' : Dict String ℕ) : Type 0 where
  pub exact : IsExact nodes memo'
  pub extends : Extends memo memo'

module _ (nodes : Dict String AgentTaskNode) where
  IsSound : (Dict String ℕ → String → Depths) → Type 0
  IsSound step =
      (memo : Dict String ℕ) (id : String) (memo' : Dict String ℕ) (k : ℕ)
      → step memo id ≡ ok (memo', k)
      → IsExact nodes memo
      → Gives nodes memo memo' × (get memo' id ≡ some k)

  deepest-Gives :
      (step : Dict String ℕ → String → Depths)
      → IsSound step
      → (ds : List String) (memo memo' : Dict String ℕ) (m : ℕ)
      → deepest step memo ds ≡ ok (memo', m)
      → IsExact nodes memo
      → Gives nodes memo memo' × Deepest memo' ds m
  unfolding deepest IsSound Deepest Extends
  deepest-Gives step sound [] memo memo' m e exact =
      let same = ok_inj e in
      let same_memo : memo ≡ memo' = ap (λ r. r.0) same in
      (
        subst (Gives nodes memo) same_memo (record { exact = exact; extends = λ id k h. h }),
        sym (ap (λ r. r.1) same),
      )
  deepest-Gives step sound (d ∷ ds) memo memo' m e exact =
      let (r, here, e1) = >>=_returned (step memo d) _ e in
      let (s, there, e2) = >>=_returned (deepest step (r.0) ds) _ e1 in
      let (g1, found) = sound memo d (r.0) (r.1) here exact in
      let (g2, rest) = deepest-Gives step sound ds (r.0) (s.0) (s.1) there g1.exact in
      let same = ok_inj e2 in
      let same_memo : s.0 ≡ memo' = ap (λ p. p.0) same in
      (
        subst (Gives nodes memo) same_memo
            (record { exact = g2.exact; extends = λ id k h. g2.extends id k (g1.extends id k h) }),
        subst (λ x. Deepest x (d ∷ ds) m) same_memo
            (r.1, s.1, g2.extends d (r.1) found, rest, sym (ap (λ p. p.1) same)),
      )

  -- Writing the depth of a node that its dependencies give changes no depth that is there.
  noted-Extends :
      (memo : Dict String ℕ) (id : String) (n : AgentTaskNode) (m : ℕ)
      → IsExact nodes memo
      → get nodes id ≡ some n
      → Deepest memo n.dependencies m
      → Extends memo (put memo id (suc m))
  unfolding IsExact Extends
  noted-Extends memo id n m exact here deps j k found =
      get-put memo id j (suc m)
      ∙ if_rule (λ o. o ≡ some k) (id == j) (some (suc m)) (get memo j)
          (λ same.
            let at_id : get memo id ≡ some k =
              ap (get memo) ((text_key.same_iff id j).0 same) ∙ found in
            let (n', m', here', deps', e) = exact id k at_id in
            let one : n' ≡ n = some_inj (sym here' ∙ here) in
            let depth_same =
              Deepest-unique memo n.dependencies m' m
                (subst (λ x. Deepest memo x.dependencies m') one deps') deps in
            cc)
          (λ other. found)

  noted-IsExact :
      (memo : Dict String ℕ) (id : String) (n : AgentTaskNode) (m : ℕ)
      → IsExact nodes memo
      → get nodes id ≡ some n
      → Deepest memo n.dependencies m
      → IsExact nodes (put memo id (suc m))
  unfolding IsExact
  noted-IsExact memo id n m exact here deps j k found =
      let wider = noted-Extends memo id n m exact here deps in
      let memo' = put memo id (suc m) in
      elim (Bool-cases (id == j)) [
        | inl same ↦
            let at_j = (text_key.same_iff id j).0 same in
            (
              n,
              m,
              subst (λ x. get nodes x ≡ some n) at_j here,
              Deepest-Extends memo memo' n.dependencies m wider deps,
              some_inj (sym found ∙ (get-put memo id j (suc m) ∙ rw same refl)),
            )
        | inr other ↦
            let before : get memo j ≡ some k =
              rw other at (sym (get-put memo id j (suc m)) ∙ found) in
            let (n', m', here', deps', e) = exact j k before in
            (n', m', here', Deepest-Extends memo memo' n'.dependencies m' wider deps', e)
      ]

  depth_new-Gives :
      (step : Dict String ℕ → String → Depths)
      → IsSound step
      → (found : Option AgentTaskNode) (memo : Dict String ℕ) (id : String) (memo' : Dict String ℕ)
        (k : ℕ)
      → get nodes id ≡ found
      → depth_new step found memo id ≡ ok (memo', k)
      → IsExact nodes memo
      → Gives nodes memo memo' × (get memo' id ≡ some k)
  unfolding depth_new noted Extends
  depth_new-Gives step sound none memo id memo' k here e exact = cc
  depth_new-Gives step sound (some n) memo id memo' k here e exact =
      let (r, inner, e1) = >>=_returned (deepest step memo n.dependencies) _ e in
      let (g, deps) = deepest-Gives step sound n.dependencies memo (r.0) (r.1) inner exact in
      let wider = noted-Extends (r.0) id n (r.1) g.exact here deps in
      let same = ok_inj e1 in
      let same_memo : put (r.0) id (suc (r.1)) ≡ memo' = ap (λ p. p.0) same in
      (
        subst (Gives nodes memo) same_memo (record {
          exact = noted-IsExact (r.0) id n (r.1) g.exact here deps;
          extends = λ j i h. wider j i (g.extends j i h);
        }),
        subst (λ x. get x id ≡ some k) same_memo
            (get-put_self (r.0) id (suc (r.1)) ∙ ap some (ap (λ p. p.1) same)),
      )

  depth_known-Gives :
      (known : Option ℕ) (new : Depths) (memo : Dict String ℕ) (id : String) (memo' : Dict String ℕ)
      (k : ℕ)
      → get memo id ≡ known
      → depth_known known new memo ≡ ok (memo', k)
      → (new ≡ ok (memo', k) → Gives nodes memo memo' × (get memo' id ≡ some k))
      → IsExact nodes memo
      → Gives nodes memo memo' × (get memo' id ≡ some k)
  unfolding depth_known Extends
  depth_known-Gives none new memo id memo' k here e f exact = f e
  depth_known-Gives (some i) new memo id memo' k here e f exact =
      let same = ok_inj e in
      let same_memo : memo ≡ memo' = ap (λ r. r.0) same in
      (
        subst (Gives nodes memo) same_memo (record { exact = exact; extends = λ j l h. h }),
        subst (λ x. get x id ≡ some k) same_memo (here ∙ ap some (ap (λ r. r.1) same)),
      )

  depth-IsSound : (fuel : ℕ) → IsSound (depth fuel nodes)
  unfolding depth IsSound
  depth-IsSound zero memo id memo' k e exact = cc
  depth-IsSound (suc fuel) memo id memo' k e exact =
      depth_known-Gives (get memo id) _ memo id memo' k refl e
        (λ new.
          depth_new-Gives (depth fuel nodes) (depth-IsSound fuel) (get nodes id) memo id memo' k
            refl new exact)
        exact

nothing-IsExact : (nodes : Dict String AgentTaskNode) → IsExact nodes []
unfolding IsExact get
nothing-IsExact nodes id k found = cc

-- What `_max_depth` has computed when it returns: an exact memo with every node of the graph.
pub max_depth_of-memo :
    (fuel : ℕ) (g : CoordinatorTaskGraph) (d : ℕ)
    → max_depth_of fuel g ≡ ok d
    → (memo : Dict String ℕ) × IsExact g.nodes memo × Deepest memo (keys g.nodes) d
unfolding max_depth_of IsExact
max_depth_of-memo fuel g d e =
    let (r, inner, e1) = >>=_returned (deepest (depth fuel g.nodes) [] (keys g.nodes)) _ e in
    let (gives, deps) =
      deepest-Gives g.nodes (depth fuel g.nodes) (depth-IsSound g.nodes fuel) (keys g.nodes) []
        (r.0) (r.1) inner (nothing-IsExact g.nodes) in
    (r.0, gives.exact, subst (Deepest (r.0) (keys g.nodes)) (ok_inj e1) deps)
