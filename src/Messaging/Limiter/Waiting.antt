-- ===== src/Messaging/Limiter/Waiting.antt =====
-- messaging/limiter.py: how often a future waits, and what resolving futures does.
use bailian_free_claude_code.Base.{
  ℕ, ◌+◌, String, ◌≡◌, refl, ◌∙◌, inl, inr, Option, none, some, List, [], ◌∷◌, ◌++◌, arith, leb,
  if◌then◌else◌, Bool-cases, ◌==◌, nat_eq, string_eq, contains, count, Dict, get, put, remove, has,
}
use bailian_free_claude_code.Base.{nat_beq_iff}
use bailian_free_claude_code.Keys.{IsUnique, remove_absent}
use bailian_free_claude_code.Messaging.Limiter.{resolve}

-- How often a future waits.
unfoldable pub waiting : Dict String (ℕ × List ℕ) → ℕ → ℕ
waiting [] n = 0
waiting ((k, (func, futures)) ∷ d) n = count n futures + waiting d n

abbrev entry_count : Option (ℕ × List ℕ) → ℕ → ℕ
entry_count none n = 0
entry_count (some (func, futures)) n = count n futures

pub waiting-put :
    (d : Dict String (ℕ × List ℕ)) (k : String) (func : ℕ) (futures : List ℕ) (n : ℕ)
    → waiting (put d k (func, futures)) n + entry_count (get d k) n ≡ waiting d n + count n futures
unfolding waiting put get
waiting-put [] k func futures n = omega arith
waiting-put ((j, (g, gs)) ∷ d) k func futures n = elim (Bool-cases (j == k)) [
  | inl here ↦ rw here (omega arith)
  | inr there ↦ rw there (omega (arith, waiting-put d k func futures n))
]

pub waiting-remove :
    (d : Dict String (ℕ × List ℕ)) (k : String) (n : ℕ)
    → IsUnique d
    → waiting d n ≡ waiting (remove d k) n + entry_count (get d k) n
unfolding waiting remove get
waiting-remove [] k n u = omega arith
waiting-remove ((j, (g, gs)) ∷ d) k n u = elim (Bool-cases (j == k)) [
  | inl here ↦
      let absent = remove_absent d k (ground (arith, u k, here)) in rw (here, absent) (omega arith)
  | inr there ↦ rw there (omega (arith, waiting-remove d k n (λ i. omega (arith, u i))))
]

pub get-resolve :
    (resolved : List (ℕ × ℕ)) (func : ℕ) (futures : List ℕ) (n : ℕ)
    → get (resolve resolved func futures) n
      ≡ (if has resolved n then get resolved n else if contains futures n then some func else none)
unfolding resolve get
get-resolve resolved func [] n = ground arith
get-resolve resolved func (f ∷ futures) n = elim (Bool-cases (has resolved f)) [
  | inl done ↦
      rw (resolve, done)
        (get-resolve resolved func futures n ∙ ground (arith, done, nat_beq_iff f n))
  | inr left ↦
      rw (resolve, left)
        (get-resolve ((f, func) ∷ resolved) func futures n ∙ ground (arith, left, nat_beq_iff f n))
]

pub contains-count : (xs : List ℕ) (n : ℕ) → contains xs n ≡ leb 1 (count n xs)
contains-count [] n = refl
contains-count (x ∷ xs) n = ground (arith, contains-count xs n)

pub count_list-append :
    (xs ys : List String) (k : String) → count k (xs ++ ys) ≡ count k xs + count k ys
count_list-append [] ys k = omega arith
count_list-append (x ∷ xs) ys k = omega (arith, count_list-append xs ys k)

pub count_futures-append : (xs ys : List ℕ) (n : ℕ) → count n (xs ++ ys) ≡ count n xs + count n ys
count_futures-append [] ys n = omega arith
count_futures-append (x ∷ xs) ys n = omega (arith, count_futures-append xs ys n)
