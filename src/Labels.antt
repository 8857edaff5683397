-- ===== src/Labels.antt =====
-- pkg/labels/labels.go, and the owner labels of internal/objects/sesame/sesame.go.
use sesame_operator.Prelude.{
  String, Bool, true, false, [], ◌∷◌, Option, none, some, StringMap, lookup, ◌≡◌, refl, arith, ◌==◌,
  eq_iff, if◌then◌else◌, All, ◌↔◌, ==_refl, Option-cases, Bool-cases, inl, inr, ap, ◌∙◌,
}
use sesame_operator.Api.{Sesame, owning_sesame_name_label, owning_sesame_ns_label}

-- The loop of `Exist` over the entries of `m`.
all_found : StringMap → StringMap → Bool
all_found labels [] = true
all_found labels ((key, val) ∷ m) =
    let rest = all_found labels m in
    elim (lookup key labels) [ none ↦ false | some found ↦ if found == val then rest else false ]

unfoldable pub exist : Option StringMap → StringMap → Bool
unfolding all_found
exist none m = false
exist (some labels) m = all_found labels m

unfoldable pub owner_labels : Sesame → StringMap
owner_labels s = (owning_sesame_name_label, s.name) ∷ (owning_sesame_ns_label, s.namespace) ∷ []

-- An object belongs to a sesame if it carries its owner labels.
abbrev pub Owned : Sesame → Option StringMap → Type 0
Owned s labels = exist labels (owner_labels s) ≡ true

abbrev pub Carries : StringMap → String × String → Type 0
Carries labels (key, val) = lookup key labels ≡ some val

all_found_sound : (l m : StringMap) → all_found l m ≡ true → All (Carries l) m
unfolding all_found
all_found_sound l [] h = tt
all_found_sound l ((k, v) ∷ m) h = elim (Option-cases (lookup k l)) [
  | inl e ↦ cc (rw (e, all_found) at h)
  | inr (found, e) ↦ elim (Bool-cases (found == v)) [
    | inl same ↦
        (e ∙ ap some ((eq_iff found v).0 same), all_found_sound l m (rw (e, same, all_found) at h))
    | inr other ↦ cc (rw (e, other, all_found) at h)
  ]
]

all_found_complete : (l m : StringMap) → All (Carries l) m → all_found l m ≡ true
unfolding all_found
all_found_complete l [] h = refl
all_found_complete l ((k, v) ∷ m) (p, q) = ground (arith, all_found_complete l m q, ==_refl v)

-- `Exist` is true exactly if the label map has every entry of `m`.
pub exist_iff : (l m : StringMap) → (exist (some l) m ≡ true) ↔ All (Carries l) m
unfolding exist
exist_iff l m = (all_found_sound l m, all_found_complete l m)

-- The owner labels of a sesame, as every desired object has them, are found again.
pub owner_labels-Owned : (s : Sesame) → Owned s (some (owner_labels s))
unfolding exist owner_labels
owner_labels-Owned s = ground (arith, ==_refl s.name, ==_refl s.namespace)
