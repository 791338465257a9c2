-- ===== src/Recovery/NoProgress/Detection.antt =====
-- What the detector of evoagent/recovery/no_progress.py detects.
use evo_review_agent.Base.{
  ℕ, zero, suc, ◌+◌, ◌≤◌, String, ◌≡◌, refl, sym, ap, ◌∙◌, true, ◌&&◌, List, [], ◌∷◌, ◌++◌, map,
  arith, leb, eqb, length, length-append, if_rule,
}
use evo_review_agent.Base.Key.{text_key}
use evo_review_agent.Base.Slices.{
  last_items, set_of, replicate, last_items-map, last_items-last_items, last_items-behind,
  length-replicate, set_of-replicate, last_items-length,
}
use evo_review_agent.Recovery.NoProgress.{
  NoProgressDetector, AgentAction, fingerprint, looks_stuck, detect,
}

set-length : (n : ℕ) (f : String) → 1 ≤ n → length (set_of (replicate n f)) ≡ 1
set-length zero f h = absurd (omega (arith, h))
set-length (suc n) f h = ap length (set_of-replicate n f)

-- The recent fingerprints end in enough copies of one.
looks_stuck-repeats :
    (d : NoProgressDetector) (recent : List String) (f : String)
    → 1 ≤ d.max_duplicates
    → d.max_duplicates ≤ length recent
    → last_items d.max_duplicates recent ≡ replicate d.max_duplicates f
    → looks_stuck d recent ≡ true
unfolding looks_stuck
looks_stuck-repeats d [] f positive enough same = absurd (omega (arith, positive, enough))
looks_stuck-repeats d (x ∷ recent) f positive enough same =
    let copies : length (set_of (last_items d.max_duplicates (x ∷ recent))) ≡ 1 =
      ap (λ l. length (set_of l)) same ∙ set-length d.max_duplicates f positive in
    if_rule (λ b. b ≡ true)
      (leb d.max_duplicates (suc (length recent))
        && eqb (length (set_of (last_items d.max_duplicates (x ∷ recent)))) 1)
      _ _ (λ stuck. refl) (λ free. ground (arith, free, copies, enough))

-- An agent whose last actions, as many as the detector's limit, have one fingerprint is stuck, if the
-- window holds as many.
pub detect-repeats :
    {A : Type 0} (stable_args : A → String) (d : NoProgressDetector)
    (actions : List (AgentAction A)) (before : List String) (f : String)
    → 1 ≤ d.max_duplicates
    → d.max_duplicates ≤ d.window
    → map (fingerprint stable_args) actions ≡ before ++ replicate d.max_duplicates f
    → detect stable_args d actions ≡ true
unfolding detect
detect-repeats stable_args d actions before f positive fits h =
    let m = d.max_duplicates in
    let prints = map (fingerprint stable_args) actions in
    let same_length =
      length-append before (replicate m f) ∙ ap (λ n. length before + n) (length-replicate m f) in
    let long : length prints ≡ length before + m = ap length h ∙ same_length in
    let end : last_items m prints ≡ replicate m f =
      ap (last_items m) h
      ∙ ap (λ n. last_items n (before ++ replicate m f)) (sym (length-replicate m f))
      ∙ last_items-behind before (replicate m f) in
    let recent = last_items-map (fingerprint stable_args) d.window actions in
    ap (looks_stuck d) recent
    ∙ looks_stuck-repeats d (last_items d.window prints) f positive
        (omega (arith, last_items-length d.window prints, long, fits))
        (last_items-last_items m d.window prints fits ∙ end)
