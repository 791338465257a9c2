-- ===== src/TaskQueue/Taken.antt =====
-- What stays behind when evoagent/task_queue.py takes an envelope from its work or from its timers.
use evo_review_agent.Base.{
  ℕ, zero, suc, ◌+◌, ◌≡◌, refl, Option, none, some, List, [], ◌∷◌, ◌++◌, arith, All,
}
use evo_review_agent.Base.Key.{text_key}
use evo_review_agent.TaskQueue.{put_back, take_at}

-- The sum of a number for each item.
unfoldable pub total : {A : Type 0} → (A → ℕ) → List A → ℕ
total w [] = 0
total w (x ∷ xs) = w x + total w xs

pub total-append :
    {A : Type 0} (w : A → ℕ) (xs : List A) (a : A) → total w (xs ++ (a ∷ [])) ≡ total w xs + w a
unfolding total
total-append w [] a = omega arith
total-append w (x ∷ xs) a = omega (arith, total-append w xs a)

-- Which items were taken out, and what stayed behind.
unfoldable pub Taken : {A : Type 0} → (A → ℕ) → List A → Option (A × List A) → Type 0
Taken w l none = Unit
Taken w l (some (x, others)) = total w l ≡ w x + total w others

put_back-Taken :
    {A : Type 0} (w : A → ℕ) (x : A) (xs : List A) (o : Option (A × List A))
    → Taken w xs o
    → Taken w (x ∷ xs) (put_back x o)
unfolding Taken put_back total
put_back-Taken w x xs none h = tt
put_back-Taken w x xs (some (y, ys)) h = omega (arith, h)

pub take_at-Taken : {A : Type 0} (w : A → ℕ) (n : ℕ) (l : List A) → Taken w l (take_at n l)
unfolding Taken take_at total
take_at-Taken w zero [] = tt
take_at-Taken w (suc n) [] = tt
take_at-Taken w zero (x ∷ xs) = refl
take_at-Taken w (suc n) (x ∷ xs) = put_back-Taken w x xs (take_at n xs) (take_at-Taken w n xs)

pub All-append {ℓ κ} :
    {A : Type ℓ} (Q : A → Type κ) (xs : List A) (a : A) → All Q xs → Q a → All Q (xs ++ (a ∷ []))
All-append Q [] a h k = (k, tt)
All-append Q (x ∷ xs) a h k = (h.0, All-append Q xs a h.1 k)

-- What was taken out and what stayed behind still satisfy the predicate.
unfoldable pub Split : {A : Type 0} → (A → Type 0) → Option (A × List A) → Type 0
Split Q none = Unit
Split Q (some (x, others)) = Q x × All Q others

put_back-Split :
    {A : Type 0} (Q : A → Type 0) (x : A) (o : Option (A × List A))
    → Q x
    → Split Q o
    → Split Q (put_back x o)
unfolding Split put_back
put_back-Split Q x none h k = tt
put_back-Split Q x (some (y, ys)) h k = (k.0, (h, k.1))

pub take_at-Split :
    {A : Type 0} (Q : A → Type 0) (n : ℕ) (l : List A) → All Q l → Split Q (take_at n l)
unfolding Split take_at
take_at-Split Q zero [] h = tt
take_at-Split Q (suc n) [] h = tt
take_at-Split Q zero (x ∷ xs) h = h
take_at-Split Q (suc n) (x ∷ xs) h =
    put_back-Split Q x (take_at n xs) h.0 (take_at-Split Q n xs h.1)
