-- ===== src/Slice.antt =====
-- The helpers on slices of pkg/slice/slice.go. Go's nil slice and its empty one are both `[]`.
use sesame_operator.Prelude.{
  ℕ, String, Bool, true, false, List, [], ◌∷◌, ◌++◌, ◌≡◌, refl, ◌≢◌, inl, inr, In, arith, ◌==◌,
  eq_iff, nat_eq, nat_eq_iff, if◌then◌else◌, Bool-cases, ==_refl,
}

unfoldable pub remove_string : List String → String → List String
remove_string [] s = []
remove_string (item ∷ slice) s =
    let rest = remove_string slice s in if item == s then rest else item ∷ rest

unfoldable pub contains_string : List String → String → Bool
contains_string [] s = false
contains_string (item ∷ slice) s =
    let rest = contains_string slice s in if item == s then true else rest

unfoldable pub contains_int32 : List ℕ → ℕ → Bool
contains_int32 [] i = false
contains_int32 (item ∷ slice) i =
    let rest = contains_int32 slice i in if nat_eq item i then true else rest

pub contains_string_sound : (l : List String) (s : String) → contains_string l s ≡ true → In s l
unfolding contains_string
contains_string_sound [] s h = cc
contains_string_sound (x ∷ xs) s h = elim (Bool-cases (x == s)) [
  | inl e ↦ inl (cc ((eq_iff x s).0 e))
  | inr e ↦ inr (contains_string_sound xs s (rw (e, contains_string) at h))
]

pub contains_string_complete : (l : List String) (s : String) → In s l → contains_string l s ≡ true
unfolding contains_string
contains_string_complete [] s h = absurd h
contains_string_complete (x ∷ xs) s (inl e) = ground (arith, (eq_iff x s).1 (cc))
contains_string_complete (x ∷ xs) s (inr m) = ground (arith, contains_string_complete xs s m)

pub contains_int32_sound : (l : List ℕ) (i : ℕ) → contains_int32 l i ≡ true → In i l
unfolding contains_int32
contains_int32_sound [] i h = cc
contains_int32_sound (x ∷ xs) i h = elim (Bool-cases (nat_eq x i)) [
  | inl e ↦ inl (cc ((nat_eq_iff x i).0 e))
  | inr e ↦ inr (contains_int32_sound xs i (rw (e, contains_int32) at h))
]

pub contains_int32_complete : (l : List ℕ) (i : ℕ) → In i l → contains_int32 l i ≡ true
unfolding contains_int32
contains_int32_complete [] i h = absurd h
contains_int32_complete (x ∷ xs) i (inl e) = ground (arith, (nat_eq_iff x i).1 (cc))
contains_int32_complete (x ∷ xs) i (inr m) = ground (arith, contains_int32_complete xs i m)

-- What is removed is gone.
pub contains-remove : (l : List String) (s : String) → contains_string (remove_string l s) s ≡ false
unfolding contains_string remove_string
contains-remove [] s = refl
contains-remove (x ∷ xs) s = ground (arith, contains-remove xs s)

-- Nothing else is.
pub contains-remove_ne :
    (l : List String) (s t : String)
    → s ≢ t
    → contains_string (remove_string l s) t ≡ contains_string l t
unfolding contains_string remove_string
contains-remove_ne [] s t h = refl
contains-remove_ne (x ∷ xs) s t h =
    ground (arith, contains-remove_ne xs s t h, eq_iff x s, eq_iff x t, eq_iff s t)

pub remove_absent :
    (l : List String) (s : String) → contains_string l s ≡ false → remove_string l s ≡ l
unfolding contains_string remove_string
remove_absent [] s h = refl
remove_absent (x ∷ xs) s h = ground (arith, remove_absent xs s)

-- Removing what was appended to a list without it gives the list back.
pub remove-append :
    (l : List String) (s : String) → contains_string l s ≡ false → remove_string (l ++ s ∷ []) s ≡ l
unfolding contains_string remove_string
remove-append [] s h = ground (arith, ==_refl s)
remove-append (x ∷ xs) s h = ground (arith, remove-append xs s)

pub contains-append : (l : List String) (s : String) → contains_string (l ++ s ∷ []) s ≡ true
unfolding contains_string
contains-append [] s = ground (arith, ==_refl s)
contains-append (x ∷ xs) s = ground (arith, contains-append xs s)
