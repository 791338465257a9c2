-- ===== src/Runtime/Nodes/Saved.antt =====
-- What one node of AgentRuntime of evoagent/runtime.py leaves in the checkpoint store.
use evo_review_agent.Base.{
  ℕ, zero, suc, ◌+◌, ◌≤◌, String, ◌≡◌, refl, sym, ap, ◌∙◌, ◌⊎◌, inl, inr, Bool, true, false, ◌||◌,
  Option, none, some, [], arith, ltb, leb, if_rule,
}
use evo_review_agent.Base.Key.{text_key}
use evo_review_agent.Base.Dict.{Dict, get, put, get-put, get-put_self}
use mathlib.Core.Path.{subst}
use evo_review_agent.Base.Result.{err, ok}
use evo_review_agent.Runtime.Nodes.{
  AgentRuntime, HandlerResult, output, not_a_dict, raises, RuntimeNode, Checkpoint, Run,
  Surroundings, Executed, emit, save_in, save, succeed, recover, fail, settle, guarded, ended,
  attempt_node, attempts, retries_of, run_from, run_node, loaded, update, node_started, node_failed,
}

unfoldable pub is_some : {A : Type 0} → Option A → Bool
is_some none = false
is_some (some x) = true

-- With a store and without a recovery manager.
pub record IsPlain {A M : Type 0} (r : Run A M) : Type 0 where
  pub stored : is_some r.store ≡ true
  pub unmanaged : r.manager ≡ none

-- Since a run had this state and this store, a node was completed: its checkpoint holds what was added
-- to the state, and the checkpoints of the others are as before.
pub record Saved {A M : Type 0} (name : String) (state : Dict String A)
    (store : Dict String (Checkpoint A)) (q : Run A M) : Type 0 where
  pub checkpoint : Checkpoint A
  pub found : get (loaded q.store) name ≡ some checkpoint
  pub complete : checkpoint.is_completed ≡ true
  pub merged : q.state ≡ update state checkpoint.state
  pub others : (k : String) → (name ≡ k → ⊥) → get (loaded q.store) k ≡ get store k
  pub plain : IsPlain q

unfoldable pub Keeps :
    {A E M : Type 0} → String → Dict String A → Dict String (Checkpoint A) → Executed A E M → Type 0
Keeps name state store (q, ok done) = Saved name state store q
Keeps name state store (q, err e) = Unit

-- As before, up to the checkpoint of one node.
record Kept {A M : Type 0} (name : String) (state : Dict String A)
    (store : Dict String (Checkpoint A)) (q : Run A M) : Type 0 where
  same : q.state ≡ state
  pub others : (k : String) → (name ≡ k → ⊥) → get (loaded q.store) k ≡ get store k
  pub plain : IsPlain q

Keeps-after :
    {A E M : Type 0} (name : String) (state : Dict String A) (store : Dict String (Checkpoint A))
    (q : Run A M) (x : Executed A E M)
    → Kept name state store q
    → Keeps name q.state (loaded q.store) x
    → Keeps name state store x
unfolding Keeps
Keeps-after name state store q (r, ok done) h k = record {
  checkpoint = k.checkpoint;
  found = k.found;
  complete = k.complete;
  merged = k.merged ∙ ap (λ t. update t k.checkpoint.state) h.same;
  others = λ key other. k.others key other ∙ h.others key other;
  plain = k.plain;
}
Keeps-after name state store q (r, err e) h k = tt

save_in-loaded :
    {A : Type 0} (name : String) (c : Checkpoint A) (o : Option (Dict String (Checkpoint A)))
    → is_some o ≡ true
    → (loaded (save_in name c o) ≡ put (loaded o) name c) × (is_some (save_in name c o) ≡ true)
unfolding save_in loaded is_some
save_in-loaded name c none h = ground arith
save_in-loaded name c (some store) h = (refl, refl)

save-loaded :
    {A E M : Type 0} (node : RuntimeNode A E) (c : Checkpoint A) (r : Run A M)
    → node.checkpoint ≡ true
    → is_some r.store ≡ true
    → (loaded (save node c r).store ≡ put (loaded r.store) node.name c)
      × (is_some (save node c r).store ≡ true)
unfolding save
save-loaded node c r on h = rw on (save_in-loaded node.name c r.store h)

put-others :
    {A : Type 0} (store : Dict String A) (name k : String) (c : A)
    → (name ≡ k → ⊥)
    → get (put store name c) k ≡ get store k
put-others store name k c other = ground (arith, get-put store name k c, text_key.same_iff name k)

succeed-Keeps :
    {A E M : Type 0} (node : RuntimeNode A E) (attempt : ℕ) (out : Dict String A) (r : Run A M)
    → node.checkpoint ≡ true
    → IsPlain r
    → Keeps node.name r.state (loaded r.store) (succeed {E = E} node attempt out r)
unfolding succeed Keeps emit save
succeed-Keeps {A} {E} {M} node attempt out r on h =
    let c : Checkpoint A = record { state = out; is_completed = true; attempt = attempt } in
    let saved = save-loaded {M = M} node c (record r { state = update r.state out }) on h.stored in
    record {
      checkpoint = c;
      found = ap (λ d. get d node.name) saved.0 ∙ get-put_self (loaded r.store) node.name c;
      complete = refl;
      merged = refl;
      others =
          λ k other. ap (λ d. get d k) saved.0 ∙ put-others (loaded r.store) node.name k c other;
      plain = record { stored = saved.1; unmanaged = h.unmanaged };
    }

recover-none :
    {A E M : Type 0} (s : Surroundings A E M) (config : AgentRuntime) (manager : Option M)
    (node : RuntimeNode A E) (attempt : ℕ) (e : E) (r : Run A M) (again : Run A M → Executed A E M)
    → manager ≡ none
    → recover s config manager node attempt e r again ≡ again r
unfolding recover
recover-none s config none node attempt e r again h = refl
recover-none s config (some m) node attempt e r again h = ground arith

module _ {A E M : Type 0} (s : Surroundings A E M) (config : AgentRuntime) where
  fail-Keeps :
      (node : RuntimeNode A E) (attempt : ℕ) (e : E) (r : Run A M)
      (again : Run A M → Executed A E M)
      → node.checkpoint ≡ true
      → IsPlain r
      → ((q : Run A M) → IsPlain q → Keeps node.name q.state (loaded q.store) (again q))
      → Keeps node.name r.state (loaded r.store) (fail s config node attempt e r again)
  unfolding fail save emit Keeps
  fail-Keeps node attempt e r again on h k =
      let c : Checkpoint A = record { state = []; is_completed = false; attempt = attempt } in
      let q : Run A M = emit node_failed node.name attempt (save node c r) in
      let saved = save-loaded {M = M} node c r on h.stored in
      let plain : IsPlain q = record { stored = saved.1; unmanaged = h.unmanaged } in
      let kept : Kept node.name r.state (loaded r.store) q = record {
        same = refl;
        others = λ key other.
            ap (λ d. get d key) saved.0 ∙ put-others (loaded r.store) node.name key c other;
        plain = plain;
      } in
      if_rule (Keeps node.name r.state (loaded r.store)) (s.non_retryable e) _ _ (λ final. tt)
        (λ retry.
          subst (Keeps node.name r.state (loaded r.store))
            (sym (recover-none s config r.manager node attempt e q again h.unmanaged))
            (Keeps-after node.name r.state (loaded r.store) q (again q) kept (k q plain)))

  settle-Keeps :
      (result : HandlerResult A E) (node : RuntimeNode A E) (attempt : ℕ) (r : Run A M)
      (again : E → Run A M → Executed A E M)
      → node.checkpoint ≡ true
      → IsPlain r
      → ((e : E) (q : Run A M) → IsPlain q → Keeps node.name q.state (loaded q.store) (again e q))
      → Keeps node.name r.state (loaded r.store) (settle s config result node attempt r again)
  unfolding settle
  settle-Keeps (output out) node attempt r again on h k = succeed-Keeps node attempt out r on h
  settle-Keeps not_a_dict node attempt r again on h k = fail-Keeps node attempt _ r _ on h (k _)
  settle-Keeps (raises e) node attempt r again on h k = fail-Keeps node attempt e r _ on h (k e)

  attempts-Keeps :
      (node : RuntimeNode A E) (left attempt : ℕ) (last : Option E) (r : Run A M)
      → node.checkpoint ≡ true
      → IsPlain r
      → 1 ≤ left ⊎ is_some last ≡ true
      → Keeps node.name r.state (loaded r.store) (attempts s config node left attempt last r)
  unfolding attempts attempt_node guarded ended Keeps emit is_some
  attempts-Keeps node zero attempt none r on h k = ground (arith, k)
  attempts-Keeps node zero attempt (some e) r on h k = tt
  attempts-Keeps node (suc left) attempt last r on h k =
      let Good : Executed A E M → Type 0 = Keeps node.name r.state (loaded r.store) in
      let q : Run A M = emit node_started node.name attempt (record r { steps = r.steps + 1 }) in
      if_rule Good (s.is_cancelled r.steps) _ _ (λ stop. tt)
        (λ alive.
          if_rule Good
            (leb config.max_steps r.steps || ltb config.timeout_seconds (s.elapsed r.steps)) _ _
            (λ over. tt)
            (λ within.
              settle-Keeps (node.handler (r.steps + 1) r.state) node attempt q _ on
                (record { stored = h.stored; unmanaged = h.unmanaged })
                (λ e x plain.
                  attempts-Keeps node left (attempt + 1) (some e) x on plain (inr refl))))

  run_from-Keeps :
      (cached : Option (Checkpoint A)) (node : RuntimeNode A E) (r : Run A M)
      → node.checkpoint ≡ true
      → IsPlain r
      → get (loaded r.store) node.name ≡ cached
      → Keeps node.name r.state (loaded r.store) (run_from s config cached node r)
  unfolding run_from Keeps emit
  run_from-Keeps none node r on h found =
      attempts-Keeps node (retries_of s config node.retries + 1) 1 none r on h (inl (omega arith))
  run_from-Keeps (some c) node r on h found =
      if_rule (Keeps node.name r.state (loaded r.store)) c.is_completed _ _
        (λ restored. record {
          checkpoint = c;
          found = found;
          complete = restored;
          merged = refl;
          others = λ key other. refl;
          plain = record { stored = h.stored; unmanaged = h.unmanaged };
        })
        (λ again.
          attempts-Keeps node (retries_of s config node.retries + 1) (c.attempt + 1) none r on h
            (inl (omega arith)))

  pub run_node-Keeps :
      (checkpoints : Dict String (Checkpoint A)) (node : RuntimeNode A E) (r : Run A M)
      → node.checkpoint ≡ true
      → IsPlain r
      → get (loaded r.store) node.name ≡ get checkpoints node.name
      → Keeps node.name r.state (loaded r.store) (run_node s config checkpoints node r)
  unfolding run_node
  run_node-Keeps checkpoints node r on h found =
      if_rule (λ o. Keeps node.name r.state (loaded r.store) (run_from s config o node r))
        node.checkpoint _ _ (λ kept. run_from-Keeps (get checkpoints node.name) node r on h found)
        (λ dropped. cc)
