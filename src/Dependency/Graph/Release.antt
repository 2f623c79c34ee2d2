-- ===== src/Dependency/Graph/Release.antt =====
-- The inner loop of `install_order`, over the dependents of one node.
use mathlib.Core.List.{append_assoc, append-nil}
use mitos_pkg.Prelude.{
  ℕ, zero, suc, ◌+◌, ◌-◌, ◌<◌, String, string_eq, Bool, true, false, List, [], ◌∷◌, ◌++◌, some, ◌≡◌,
  refl, sym, ◌∙◌, inl, inr, arith, ◌==◌, if◌then◌else◌, contains, IsSetList, eqb, filter,
  Option-cases,
}
use mitos_pkg.Prelude.HashMap
use mitos_pkg.Prelude.HashMap.{HashMap, keys, get-update, keys-update}
use mitos_pkg.Dependency.Graph.{Work, release}

abbrev pub degree : Work → String → ℕ
degree w n = HashMap.get_or n 0 w.in_degree

-- What the loop over `nodes` does to the work `w`.
pub record Released (nodes : List String) (w w' : Work) : Type 0 where
  pub returns : release nodes w ≡ some w'
  pub keys_kept : keys w'.in_degree ≡ keys w.in_degree
  pub lowered : (n : String) → degree w' n + (if contains nodes n then 1 else 0) ≡ degree w n
  pub queued : w'.queue ≡ w.queue ++ filter (λ n. eqb (degree w n) 1) nodes
  pub order_kept : w'.order ≡ w.order

degree_pos :
    (m : HashMap String ℕ) (n : String)
    → 0 < HashMap.get_or n 0 m
    → (k : ℕ) × (HashMap.get n m ≡ some (suc k))
degree_pos m n h = elim (Option-cases (HashMap.get n m)) [
  | inl e ↦ absurd (ground arith)
  | inr (zero, e) ↦ absurd (ground arith)
  | inr (suc k, e) ↦ (k, e)
]

filter-congr :
    (p q : String → Bool) (xs : List String)
    → ((a : String) → contains xs a ≡ true → p a ≡ q a)
    → filter p xs ≡ filter q xs
filter-congr p q [] h = refl
filter-congr p q (x ∷ xs) h =
    rw (h x (ground arith), filter-congr p q xs (λ a m. h a (ground arith))) refl

abbrev lowered_work : Work → String → ℕ → Work
lowered_work w n deg = record {
  in_degree = HashMap.update n (λ d. d - 1) w.in_degree;
  queue = if eqb deg 0 then w.queue ++ n ∷ [] else w.queue;
  order = w.order;
}

degree-lowered_work :
    (w : Work) (n : String) (deg : ℕ) (m : String)
    → HashMap.get n w.in_degree ≡ some (suc deg)
    → degree (lowered_work w n deg) m ≡ (if m == n then deg else degree w m)
degree-lowered_work w n deg m h = ground (arith, get-update m n (λ d. d - 1) w.in_degree)

queue_step :
    (queue : List String) (x : String) (deg d : ℕ) (later : List String)
    → d ≡ suc deg
    → (if eqb deg 0 then queue ++ x ∷ [] else queue) ++ later
      ≡ queue ++ (if eqb d 1 then x ∷ later else later)
queue_step queue x zero d later e = rw e (append_assoc queue (x ∷ []) later)
queue_step queue x (suc deg) d later e = rw e (ground arith)

Released-cons :
    (x : String) (nodes : List String) (w w' : Work) (deg : ℕ)
    → HashMap.get x w.in_degree ≡ some (suc deg)
    → contains nodes x ≡ false
    → Released nodes (lowered_work w x deg) w'
    → Released (x ∷ nodes) w w'
unfolding release
Released-cons x nodes w w' deg found fresh r =
    let w1 = lowered_work w x deg in
    let d1 = λ (m : String). degree-lowered_work w x deg m found in
    record {
      returns = rw (found, release) r.returns;
      keys_kept = r.keys_kept ∙ keys-update x (λ d. d - 1) w.in_degree;
      lowered = λ n. ground (arith, r.lowered n, d1 n, found, fresh);
      queued =
          r.queued
          ∙ rw
              (filter-congr (λ n. eqb (degree w1 n) 1) (λ n. eqb (degree w n) 1) nodes
                (λ m i. ground (arith, d1 m, fresh)))
              (queue_step w.queue x deg (degree w x) _ (ground arith));
      order_kept = r.order_kept;
    }

pub release_lem :
    (nodes : List String) (w : Work)
    → IsSetList nodes
    → ((n : String) → contains nodes n ≡ true → 0 < degree w n)
    → (w' : Work) × Released nodes w w'
unfolding release
release_lem [] w h pos = (
  w,
  record {
    returns = refl;
    keys_kept = refl;
    lowered = λ n. omega arith;
    queued = sym (append-nil w.queue);
    order_kept = refl;
  },
)
release_lem (x ∷ nodes) w h pos =
    let (deg, found) = degree_pos w.in_degree x (pos x (ground arith)) in
    let (w', r) =
      release_lem nodes (lowered_work w x deg) h.1
        (λ m i. ground (arith, degree-lowered_work w x deg m found, pos m, h.0)) in
    (w', Released-cons x nodes w w' deg found h.0 r)
