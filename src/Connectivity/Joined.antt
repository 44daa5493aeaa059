-- ===== src/Connectivity/Joined.antt =====
-- What the edges of a relation connect, and how it changes when one edge of a forest is redirected.
use wt_lab_efficient_paral.Common.{
  ℕ, ◌≡◌, ◌≢◌, ◌<◌, ◌⊎◌, inl, inr, Option, none, some, ap, ◌==◌, if◌then◌else◌, arith,
}
use native.Mathlib.Decide.{ℕ_discrete}

-- The equivalence that a relation generates.
pub data Joined (R : ℕ → ℕ → Type 0) : ℕ → ℕ → Type 0 where
  self : {x : ℕ} → Joined R x x
  edge : {x y : ℕ} → R x y → Joined R x y
  flip : {x y : ℕ} → Joined R x y → Joined R y x
  chain : {x y z : ℕ} → Joined R x y → Joined R y z → Joined R x z

pub Joined-map :
    {R S : ℕ → ℕ → Type 0}
    → ((x y : ℕ) → R x y → Joined S x y)
    → {x y : ℕ} → Joined R x y
    → Joined S x y
Joined-map f self = self
Joined-map f (edge r) = f _ _ r
Joined-map f (flip j) = flip (Joined-map f j)
Joined-map f (chain j k) = chain (Joined-map f j) (Joined-map f k)

-- The order of union by rank: first by rank, then by number.
abbrev pub Less : (ℕ → ℕ) → ℕ → ℕ → Type 0
Less rank x y = (rank x < rank y) ⊎ ((rank x ≡ rank y) × (x < y))

pub Less-trans : (rank : ℕ → ℕ) (x y z : ℕ) → Less rank x y → Less rank y z → Less rank x z
Less-trans rank x y z h k = ground arith

pub Less-ne : (rank : ℕ → ℕ) (x y : ℕ) → Less rank x y → x ≢ y
Less-ne rank x y (inl h) e = omega (arith, rw e at h)
Less-ne rank x y (inr h) e = omega (arith, h.1)

-- `parent` gives the parent of a node that is not a root.
abbrev pub Edge : (ℕ → Option ℕ) → ℕ → ℕ → Type 0
Edge parent x y = parent x ≡ some y

-- The edges that start above `k`.
abbrev pub EdgeAbove : (ℕ → ℕ) → (ℕ → Option ℕ) → ℕ → ℕ → ℕ → Type 0
EdgeAbove rank parent k x y = (parent x ≡ some y) × Less rank k x

module _ (rank : ℕ → ℕ) (parent parent' : ℕ → Option ℕ) (x : ℕ) where
  pub above-Joined : {k u v : ℕ} → Joined (EdgeAbove rank parent k) u v → Joined (Edge parent) u v
  above-Joined j = Joined-map (λ a b r. edge r.0) j

  module _ (y : ℕ) (written : (c : ℕ) → parent' c ≡ (if x == c then some y else parent c)) where
    elsewhere : (c d : ℕ) → x ≢ c → parent c ≡ some d → parent' c ≡ some d
    elsewhere c d ne e = ground (arith, written c)

    -- A root becomes a child: all edges stay.
    pub link-Joined :
        parent x ≡ none → {u v : ℕ} → Joined (Edge parent) u v → Joined (Edge parent') u v
    link-Joined root j = Joined-map (λ a b r. edge (ground (arith, written a))) j

    pub link-above :
        parent x ≡ none
        → {k u v : ℕ} → Joined (EdgeAbove rank parent k) u v
        → Joined (EdgeAbove rank parent' k) u v
    link-above root j = Joined-map (λ a b r. edge (ground (arith, written a), r.1)) j

    -- A child is redirected to a node that the edges above it join with its parent.
    module _ (p : ℕ) (at_x : parent x ≡ some p) (above : Joined (EdgeAbove rank parent x) p y) where
      kept :
          {u v : ℕ} → Joined (EdgeAbove rank parent x) u v → Joined (EdgeAbove rank parent' x) u v
      kept j = Joined-map (λ a b r. edge (elsewhere a b (Less-ne rank x a r.1) r.0, r.1)) j

      written_self : parent' x ≡ some y
      written_self = ground (arith, written x)

      redirected : {k : ℕ} → Less rank k x → Joined (EdgeAbove rank parent' k) x p
      redirected {k} less =
          chain (edge (written_self, less))
            (flip (Joined-map (λ a b r. edge (r.0, Less-trans rank k x a less r.1)) (kept above)))

      pub compress-above :
          {k u v : ℕ} → Joined (EdgeAbove rank parent k) u v → Joined (EdgeAbove rank parent' k) u v
      compress-above {k} j =
          Joined-map
            (λ a b r. elim (ℕ_discrete x a) [
              | yes e ↦
                  let there : b ≡ p = cc (ap parent e) in
                  let less : Less rank k x = rw (← e) at r.1 in rw (← e, there) (redirected less)
              | no ne ↦ edge (elsewhere a b ne r.0, r.1)
            ])
            j

      pub compress-Joined : {u v : ℕ} → Joined (Edge parent) u v → Joined (Edge parent') u v
      compress-Joined j =
          Joined-map
            (λ a b r. elim (ℕ_discrete x a) [
              | yes e ↦
                  let there : b ≡ p = cc (ap parent e) in
                  rw (← e, there)
                    (chain (edge written_self) (flip (Joined-map (λ c d s. edge s.0) (kept above))))
              | no ne ↦ edge (elsewhere a b ne r)
            ])
            j
