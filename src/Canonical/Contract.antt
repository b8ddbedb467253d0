-- ===== src/Canonical/Contract.antt =====
-- The contract of include/msearch/backend.h determines the match, and names the lowest id.
use mathlib.Core.Logic.{◌⊎◌}
use mpi_local_lab.Base.{
  ℕ, ◌≡◌, refl, sym, ◌∙◌, arith, inl, inr, List, [], ◌∷◌, zero, suc, All-get_elem?, get_elem?, some,
}
use mpi_local_lab.Base.Int.{pos, ◌≤ℤ◌}
use mpi_local_lab.Floating.{Floating}
use mpi_local_lab.Problem.Sort.{IsSorted}
use mathlib.Core.Path.{subst}
use mathlib.Core.Option.{some-injective}
use mpi_local_lab.Types.{Picture, Object, Match}
use mpi_local_lab.Canonical.{Earlier, Occurs, First, IsCanonical}

Earlier-total : (r' c' r c : ℕ) → Earlier r' c' r c ⊎ Earlier r c r' c' ⊎ ((r' ≡ r) × (c' ≡ c))
Earlier-total r' c' r c = grind arith

module _ (F : Floating) (threshold zero_eps : F.Double) where
  First-unique :
      {p : Picture} {o : Object} {r c r' c' : ℕ}
      → First F threshold zero_eps p o r c
      → First F threshold zero_eps p o r' c'
      → (r ≡ r') × (c ≡ c')
  First-unique {r} {c} {r'} {c'} f g = elim (Earlier-total r c r' c') [
    | inl before ↦ absurd (g.least r c before f.occurs)
    | inr (inl after) ↦ absurd (f.least r' c' after g.occurs)
    | inr (inr same) ↦ same
  ]

  -- The contract leaves no choice: two matches that satisfy it are equal.
  pub IsCanonical-unique :
      (p : Picture) (os : List Object) (a b : Match)
      → IsCanonical F threshold zero_eps p os a
      → IsCanonical F threshold zero_eps p os b
      → a ≡ b
  IsCanonical-unique p [] a b f g = f ∙ sym g
  IsCanonical-unique p (o ∷ os) a b (inl (out, f)) (inl (_, g)) = IsCanonical-unique p os a b f g
  IsCanonical-unique p (o ∷ os) a b (inl (out, f)) (inr (r, c, g, e)) = absurd (out r c g.occurs)
  IsCanonical-unique p (o ∷ os) a b (inr (r, c, f, e)) (inl (out, g)) = absurd (out r c f.occurs)
  IsCanonical-unique p (o ∷ os) a b (inr (r, c, f, e)) (inr (r', c', g, e')) =
      let (same_r, same_c) = First-unique f g in cc

  -- Where some object occurs, the match names an object
  -- of the array that has the lowest id of all that occur, at its row-major-first placement.
  pub IsCanonical-lowest :
      (p : Picture) (os : List Object) (match : Match) (i : ℕ) (q : Object) (r c : ℕ)
      → IsSorted os
      → IsCanonical F threshold zero_eps p os match
      → get_elem? os i ≡ some q
      → Occurs F threshold zero_eps p q r c
      → (j : ℕ) × (o : Object) × (r' : ℕ) × (c' : ℕ) × (get_elem? os j ≡ some o)
        × First F threshold zero_eps p o r' c'
        × (match ≡ record { picture_id = p.id; object_id = o.id; row = pos r'; col = pos c' })
        × (o.id ≤ℤ q.id)
  IsCanonical-lowest p [] match i q r c s f at h = absurd (ground arith)
  IsCanonical-lowest p (o ∷ os) match zero q r c s (inl (out, f)) at h =
      absurd
        (out r c (subst (λ x. Occurs F threshold zero_eps p x r c) (sym (some-injective _ _ at)) h))
  IsCanonical-lowest p (o ∷ os) match (suc i) q r c s (inl (out, f)) at h =
      let (j, o', r', c', at', first, e, le) = IsCanonical-lowest p os match i q r c s.1 f at h in
      (suc j, o', r', c', at', first, e, le)
  IsCanonical-lowest p (o ∷ os) match zero q r c s (inr (r', c', first, e)) at h = (
    0,
    o,
    r',
    c',
    refl,
    first,
    e,
    subst (λ (x : Object). o.id ≤ℤ x.id) (some-injective _ _ at) (omega arith),
  )
  IsCanonical-lowest p (o ∷ os) match (suc i) q r c s (inr (r', c', first, e)) at h =
      (0, o, r', c', refl, first, e, All-get_elem? (λ (x : Object). o.id ≤ℤ x.id) os i at s.0)
