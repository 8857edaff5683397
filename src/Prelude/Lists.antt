-- ===== src/Prelude/Lists.antt =====
-- Lists: lengths over the native numbers, membership and predicates by recursion, absent values.
use Prim.Native.Nat.{ℕ, suc}
use mathlib.Core.Path.{◌≡◌, refl, subst}
use mathlib.Core.Logic.{◌⊎◌, inl, inr}
use mathlib.Core.Option.{Option, none, some}
use mathlib.Core.List.{List, [], ◌∷◌, ◌++◌}

module _ {ℓ} {A : Type ℓ} where
  abbrev pub length : List A → ℕ
  length [] = 0
  length (x ∷ xs) = suc (length xs)

  -- The values that are there, in their order.
  abbrev pub present : List (Option A) → List A
  present [] = []
  present (none ∷ xs) = present xs
  present (some x ∷ xs) = x ∷ present xs

  -- A list, or nothing where it is empty.
  abbrev pub unless_empty : List A → Option (List A)
  unless_empty [] = none
  unless_empty (x ∷ xs) = some (x ∷ xs)

module _ {A : Type 0} where
  -- The member's place is kept, so that tactics can take a membership apart.
  abbrev pub In : A → List A → Type 0
  In a [] = ⊥
  In a (x ∷ xs) = (a ≡ x) ⊎ In a xs

  abbrev pub NoDup : List A → Type 0
  NoDup [] = Unit
  NoDup (x ∷ xs) = (¬ In x xs) × NoDup xs

module _ {ℓ κ} {A : Type ℓ} (P : A → Type κ) where
  abbrev pub All : List A → Type κ
  All [] = Unit
  All (x ∷ xs) = P x × All xs

  pub All-append : (xs ys : List A) → All xs → All ys → All (xs ++ ys)
  All-append [] ys hx hy = hy
  All-append (x ∷ xs) ys hx hy = (hx.0, All-append xs ys hx.1 hy)

module _ {A : Type 0} where
  pub In-append : (a : A) (xs ys : List A) → In a (xs ++ ys) → In a xs ⊎ In a ys
  In-append a [] ys m = inr m
  In-append a (x ∷ xs) ys (inl e) = inl (inl e)
  In-append a (x ∷ xs) ys (inr m) = elim (In-append a xs ys m) [
    | inl l ↦ inl (inr l)
    | inr r ↦ inr r
  ]

  pub In-append_left : (a : A) (xs ys : List A) → In a xs → In a (xs ++ ys)
  In-append_left a [] ys m = absurd m
  In-append_left a (x ∷ xs) ys (inl e) = inl e
  In-append_left a (x ∷ xs) ys (inr m) = inr (In-append_left a xs ys m)

  pub In-append_right : (a : A) (xs ys : List A) → In a ys → In a (xs ++ ys)
  In-append_right a [] ys m = m
  In-append_right a (x ∷ xs) ys m = inr (In-append_right a xs ys m)

  -- The values of the second list differ from one another and from those seen before. A loop that
  -- collects what it has seen at the end of a list checks this.
  abbrev pub Distinct : List A → List A → Type 0
  Distinct seen [] = Unit
  Distinct seen (x ∷ xs) = (¬ In x seen) × Distinct (seen ++ x ∷ []) xs

  pub Distinct-fresh : (seen xs : List A) (a : A) → Distinct seen xs → In a seen → ¬ In a xs
  Distinct-fresh seen [] a d m n = n
  Distinct-fresh seen (x ∷ xs) a (new, d) m (inl e) = new (subst (λ y. In y seen) e m)
  Distinct-fresh seen (x ∷ xs) a (new, d) m (inr n) =
      Distinct-fresh (seen ++ x ∷ []) xs a d (In-append_left a seen (x ∷ []) m) n

  pub Distinct-NoDup : (seen xs : List A) → Distinct seen xs → NoDup xs
  Distinct-NoDup seen [] d = tt
  Distinct-NoDup seen (x ∷ xs) (new, d) = (
    Distinct-fresh (seen ++ x ∷ []) xs x d (In-append_right x seen (x ∷ []) (inl refl)),
    Distinct-NoDup (seen ++ x ∷ []) xs d,
  )

  pub NoDup-Distinct :
      (seen xs : List A) → NoDup xs → ((a : A) → In a xs → ¬ In a seen) → Distinct seen xs
  NoDup-Distinct seen [] n h = tt
  NoDup-Distinct seen (x ∷ xs) (new, n) h = (
    h x (inl refl),
    NoDup-Distinct (seen ++ x ∷ []) xs n λ a m seen'. elim (In-append a seen (x ∷ []) seen') [
      | inl old ↦ h a (inr m) old
      | inr (inl e) ↦ new (subst (λ y. In y xs) e m)
      | inr (inr no_way) ↦ no_way
    ],
  )
