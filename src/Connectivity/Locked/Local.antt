-- ===== src/Connectivity/Locked/Local.antt =====
-- dynamic_connectivity_b.cpp: what a thread knows of the trees, whatever the others do.
use wt_lab_efficient_paral.Common.{ℕ, ◌<◌, ◌≡◌, ◌⊎◌, inl, inr, List, [], ◌∷◌, ◌++◌, length, arith}
use wt_lab_efficient_paral.Connectivity.Joined.{Joined, edge, flip, chain, Joined-map}
use wt_lab_efficient_paral.Connectivity.Concurrent.{Job, Event, requested, united, answered}
use wt_lab_efficient_paral.Connectivity.Concurrent.Local.{Asked, Asked-append}
use wt_lab_efficient_paral.Connectivity.Locked.{
  Pc, Next, then_b, then_pair, idle, walk, condition, reread, lock_node, redirect, unlock_node,
  pair, lock_a, check_a, lock_b, check_b, release_b, release_a, link, ranked_a, ranked, raise,
  unlock_b, unlock_a,
}
use wt_lab_efficient_paral.Connectivity.Locked.Trees.{Up, Joins}

-- What calls returned holds of the trees.
abbrev pub Holds : List ℕ → List Event → Type 0
Holds parents [] = Unit
Holds parents (requested job ∷ log) = Holds parents log
Holds parents (united job flag ∷ log) = Joins parents job.0 job.1 × Holds parents log
Holds parents (answered job flag ∷ log) = Holds parents log

-- Two nodes in range that the trees join with those of the job, in some order.
pub record Paired (parents : List ℕ) (job : Job) (a b : ℕ) : Type 0 where
  pub nodes :
      (Joins parents job.0 a × Joins parents job.1 b)
      ⊎ (Joins parents job.0 b × Joins parents job.1 a)
  pub in_a : a < length parents
  pub in_b : b < length parents

-- The trees keep what they join.
pub record Extends (parents parents' : List ℕ) : Type 0 where
  pub size : length parents' ≡ length parents
  pub joined : {u v : ℕ} → Joins parents u v → Joins parents' u v

module _ {parents : List ℕ} {job : Job} where
  pub Paired-joined :
      {a b : ℕ} → Paired parents job a b → Joins parents a b → Joins parents job.0 job.1
  Paired-joined p j = elim p.nodes [
    | inl (f, t) ↦ chain f (chain j (flip t))
    | inr (f, t) ↦ chain f (chain (flip j) (flip t))
  ]

  pub Paired-flip : {a b : ℕ} → Paired parents job a b → Paired parents job b a
  Paired-flip p = record {
    nodes = elim p.nodes [ inl h ↦ inr h | inr h ↦ inl h ];
    in_a = p.in_b;
    in_b = p.in_a;
  }

  -- The first node is exchanged for one that the trees join with it.
  pub Paired-go :
      {a b c : ℕ}
      → Joins parents a c
      → c < length parents
      → Paired parents job a b
      → Paired parents job c b
  Paired-go j inside p = record {
    nodes = elim p.nodes [ inl (f, t) ↦ inl (chain f j, t) | inr (f, t) ↦ inr (f, chain t j) ];
    in_a = inside;
    in_b = p.in_b;
  }

  -- What is true when both roots of an edge that was asked for are joined.
  pub Paired-Asked :
      {a b : ℕ} {R : ℕ → ℕ → Type 0}
      → ((x p : ℕ) → Up parents x p → Joined R x p)
      → R job.0 job.1
      → Paired parents job a b
      → Joined R a b
  Paired-Asked {a} {b} {R} sound asked p = elim p.nodes [
    | inl (f, t) ↦ chain (flip (Joined-map sound f)) (chain (edge asked) (Joined-map sound t))
    | inr (f, t) ↦
        chain (flip (Joined-map sound t)) (chain (flip (edge asked)) (Joined-map sound f))
  ]

abbrev pub OfNext : List ℕ → Job → ℕ → Next → Type 0
OfNext parents job node (then_b stage b) = Paired parents job node b
OfNext parents job node (then_pair stage a) = Paired parents job a node

module _ (parents : List ℕ) (log : List Event) where
  -- In this build no thread compresses or reads ranks.
  abbrev pub Local : Pc → Type 0
  Local idle = Unit
  Local (walk job x node next) = Asked log job.0 job.1 × OfNext parents job node next
  Local (condition job node root next) = ⊥
  Local (reread job node root next) = ⊥
  Local (lock_node job node p root next) = ⊥
  Local (redirect job node p root next) = ⊥
  Local (unlock_node job node p root next) = ⊥
  Local (pair job stage a b) = Asked log job.0 job.1 × Paired parents job a b
  Local (lock_a job a b) = Asked log job.0 job.1 × Paired parents job a b
  Local (check_a job a b) = Asked log job.0 job.1 × Paired parents job a b
  Local (lock_b job a b) = Asked log job.0 job.1 × Paired parents job a b
  Local (check_b job a b) = Asked log job.0 job.1 × Paired parents job a b
  Local (release_b job a b) = Asked log job.0 job.1 × Paired parents job a b
  Local (release_a job a b) = Asked log job.0 job.1 × Paired parents job a b
  Local (link job a b) = Asked log job.0 job.1 × Paired parents job a b
  Local (ranked_a job a b rank_a) = ⊥
  Local (ranked job a b rank_a rank_b) = ⊥
  Local (raise job a b) = ⊥
  Local (unlock_b job a b) = Joins parents job.0 job.1
  Local (unlock_a job a b) = Joins parents job.0 job.1

module _ (parents parents' : List ℕ) (e : Extends parents parents') where
  pub Holds-extends : (log : List Event) → Holds parents log → Holds parents' log
  Holds-extends [] h = tt
  Holds-extends (requested job ∷ log) h = Holds-extends log h
  Holds-extends (united job flag ∷ log) (j, h) = (e.joined j, Holds-extends log h)
  Holds-extends (answered job flag ∷ log) h = Holds-extends log h

  Paired-extends : {job : Job} {a b : ℕ} → Paired parents job a b → Paired parents' job a b
  Paired-extends p = record {
    nodes = elim p.nodes [
      | inl (f, t) ↦ inl (e.joined f, e.joined t)
      | inr (f, t) ↦ inr (e.joined f, e.joined t)
    ];
    in_a = omega (arith, p.in_a, e.size);
    in_b = omega (arith, p.in_b, e.size);
  }

  module _ (events log : List Event) where
    Known-extends :
        {job : Job} {a b : ℕ}
        → Asked log job.0 job.1 × Paired parents job a b
        → Asked (events ++ log) job.0 job.1 × Paired parents' job a b
    Known-extends (asked, p) = (Asked-append events log _ _ asked, Paired-extends p)

    pub Local-extends : (p : Pc) → Local parents log p → Local parents' (events ++ log) p
    Local-extends idle l = tt
    Local-extends (walk job x node (then_b stage b)) l = Known-extends l
    Local-extends (walk job x node (then_pair stage a)) l = Known-extends l
    Local-extends (condition job node root next) l = l
    Local-extends (reread job node root next) l = l
    Local-extends (lock_node job node p root next) l = l
    Local-extends (redirect job node p root next) l = l
    Local-extends (unlock_node job node p root next) l = l
    Local-extends (pair job stage a b) l = Known-extends l
    Local-extends (lock_a job a b) l = Known-extends l
    Local-extends (check_a job a b) l = Known-extends l
    Local-extends (lock_b job a b) l = Known-extends l
    Local-extends (check_b job a b) l = Known-extends l
    Local-extends (release_b job a b) l = Known-extends l
    Local-extends (release_a job a b) l = Known-extends l
    Local-extends (link job a b) l = Known-extends l
    Local-extends (ranked_a job a b rank_a) l = l
    Local-extends (ranked job a b rank_a rank_b) l = l
    Local-extends (raise job a b) l = l
    Local-extends (unlock_b job a b) l = e.joined l
    Local-extends (unlock_a job a b) l = e.joined l
