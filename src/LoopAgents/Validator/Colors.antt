-- ===== src/LoopAgents/Validator/Colors.antt =====
-- When the search for a cycle in evoagent/loop_agents/planning/validator.py returns.
use evo_review_agent.Base.{
  ℕ, zero, suc, String, ◌≡◌, refl, sym, ◌∙◌, inl, inr, Bool, true, false, Option, none, some, List,
  [], ◌∷◌, arith, Bool-cases, contains, All, if_rule,
}
use evo_review_agent.Base.Key.{◌==◌, text_key, number_key}
use evo_review_agent.Base.Dict.{Dict, get, put, get-put, keys}
use mathlib.Core.Path.{subst}
use evo_review_agent.Base.Result.{Result, ok, ◌>>=◌}
use evo_review_agent.LoopAgents.TaskGraph.{AgentTaskNode}
use evo_review_agent.LoopAgents.Validator.{
  Raised, Color, white, grey, black, Visited, look, scan, blacken, visit_found, visit, visit_all,
  whiten,
}
use evo_review_agent.LoopAgents.Validator.Acyclic.{IsRanked, contains-keys}
use evo_review_agent.LoopAgents.Validator.Within.{IsThere, Within, dependencies-Within}

module _ (nodes : Dict String AgentTaskNode) (rank : String → ℕ)
    (ranked : IsRanked nodes rank) where
  pub IsColored : Dict String Color → Type 0
  IsColored colors = (d : String) → IsThere nodes d → (c : Color) × (get colors d ≡ some c)

  IsColored-put :
      (colors : Dict String Color) (id : String) (c : Color)
      → IsColored colors
      → IsColored (put colors id c)
  unfolding IsColored
  IsColored-put colors id c h d there = elim (Bool-cases (id == d)) [
    | inl same ↦ (c, get-put colors id d c ∙ rw same refl)
    | inr other ↦ ((h d there).0, get-put colors id d c ∙ rw other (h d there).1)
  ]

  Ends : Visited → Type 0
  Ends v = (r : Dict String Color × Bool) × (v ≡ ok r) × IsColored (r.0)

  bind-Ends :
      (v : Visited) (f : Dict String Color × Bool → Visited)
      → Ends v
      → ((r : Dict String Color × Bool) → IsColored (r.0) → Ends (f r))
      → Ends (v >>= f)
  unfolding Ends
  bind-Ends v f (r, e, c) h = rw e (h r c)

  look-Ends :
      (visit : Dict String Color → String → Visited) (found : Option Color)
      (colors : Dict String Color) (d : String) (rest : Dict String Color → Visited)
      → ((c : Color) × (found ≡ some c))
      → IsColored colors
      → Ends (visit colors d)
      → ((c : Dict String Color) → IsColored c → Ends (rest c))
      → Ends (look visit found colors d rest)
  unfolding look Ends
  look-Ends visit none colors d rest (c, e) h v k = cc
  look-Ends visit (some grey) colors d rest e h v k = ((colors, true), refl, h)
  look-Ends visit (some black) colors d rest e h v k = k colors h
  look-Ends visit (some white) colors d rest e h v k =
      bind-Ends (visit colors d) _ v
        (λ r c. if_rule Ends (r.1) _ _ (λ back. ((r.0, true), refl, c)) (λ on. k (r.0) c))

  scan-Ends :
      (fuel : ℕ)
      → ((colors : Dict String Color) (id : String)
          → Within nodes rank ranked fuel id
          → IsColored colors
          → Ends (visit fuel nodes colors id))
      → (ds : List String) (colors : Dict String Color) → All (Within nodes rank ranked fuel) ds
      → IsColored colors
      → Ends (scan (visit fuel nodes) colors ds)
  unfolding scan Ends Within IsColored
  scan-Ends fuel step [] colors h c = ((colors, false), refl, c)
  scan-Ends fuel step (d ∷ ds) colors h c =
      look-Ends (visit fuel nodes) (get colors d) colors d _ (c d h.0.0) c (step colors d h.0 c)
        (λ c' k. scan-Ends fuel step ds c' h.1 k)

  visit-Ends :
      (fuel : ℕ) (colors : Dict String Color) (id : String)
      → Within nodes rank ranked fuel id
      → IsColored colors
      → Ends (visit fuel nodes colors id)
  unfolding visit visit_found Within IsThere blacken Ends
  visit-Ends zero colors id h c = absurd (omega (arith, h.1))
  visit-Ends (suc fuel) colors id ((n, here), low) c =
      subst (λ o. Ends (visit_found (visit fuel nodes) o colors id)) (sym here)
        (bind-Ends _ (blacken id)
          (scan-Ends fuel (visit-Ends fuel) n.dependencies (put colors id grey)
            (dependencies-Within nodes rank ranked fuel id n here low)
            (IsColored-put colors id grey c))
          (λ r k.
            if_rule Ends (r.1) _ _ (λ back. ((r.0, true), refl, k))
              (λ done. ((put (r.0) id black, false), refl, IsColored-put (r.0) id black k))))

  pub visit_all-returns :
      (fuel : ℕ) (ids : List String) (colors : Dict String Color)
      → All (Within nodes rank ranked fuel) ids
      → IsColored colors
      → (b : Bool) × (visit_all fuel nodes colors ids ≡ ok b)
  unfolding visit_all Ends
  visit_all-returns fuel [] colors h c = (false, refl)
  visit_all-returns fuel (id ∷ ids) colors h c =
      let (r, e, k) = visit-Ends fuel colors id h.0 c in
      rw e (
        if_rule (λ (o : Result Raised Bool). (b : Bool) × (o ≡ ok b)) (r.1) _ _
          (λ back. (true, refl)) (λ on. visit_all-returns fuel ids (r.0) h.1 k))

  whiten-get :
      (ks : List String) (d : String)
      → contains ks d ≡ true
      → (c : Color) × (get (whiten ks) d ≡ some c)
  unfolding whiten get
  whiten-get [] d h = cc
  whiten-get (k ∷ ks) d h = elim (Bool-cases (k == d)) [
    | inl same ↦ (white, rw same refl)
    | inr other ↦ let (c, e) = whiten-get ks d (rw other at h) in (c, rw other e)
  ]

  pub whiten-IsColored : IsColored (whiten (keys nodes))
  unfolding IsColored IsThere
  whiten-IsColored d (n, here) = whiten-get (keys nodes) d (contains-keys nodes d n here)
