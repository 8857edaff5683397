-- ===== src/Status/Merge.antt =====
-- What `mergeConditions` does with one update, as the status synchronisation calls it.
use sesame_operator.Prelude.{
  ℕ, String, Bool, true, false, ◌||◌, List, [], ◌∷◌, ◌++◌, ◌≡◌, refl, sym, inl, inr, In, In-append,
  NoDup, Bool-cases, String-cases, ◌==◌, eq_iff, ==_refl, ==_ne, arith, if◌then◌else◌,
}
use mathlib.Core.List.{append-nil}
use sesame_operator.Api.{Condition}
use sesame_operator.Status.{condition_changed, overwrite, merge_one, merge_from, merge_conditions}

abbrev pub types : List Condition → List String
types [] = []
types (c ∷ cs) = c.type ∷ types cs

-- The reference: every condition of the type of the update takes its status, reason and message, and
-- the time where the status changes; and if there is none, the update is added with the time.
abbrev pub stamped : ℕ → Condition → Condition → Condition
stamped now u c = record {
  type = c.type;
  status = u.status;
  reason = u.reason;
  message = u.message;
  last_transition_time = if c.status == u.status then c.last_transition_time else now;
}

abbrev pub restamp : ℕ → Condition → Condition → Condition
restamp now u c = if c.type == u.type then stamped now u c else c

abbrev pub restamp_all : ℕ → Condition → List Condition → List Condition
restamp_all now u [] = []
restamp_all now u (c ∷ cs) = restamp now u c ∷ restamp_all now u cs

abbrev pub has_type : Condition → List Condition → Bool
has_type u [] = false
has_type u (c ∷ cs) = c.type == u.type || has_type u cs

abbrev pub merged : ℕ → Condition → List Condition → List Condition
merged now u cs =
    if has_type u cs
    then restamp_all now u cs
    else cs ++ record u { last_transition_time = now } ∷ []

stamped_unchanged :
    (now : ℕ) (c u : Condition) → condition_changed c u ≡ false → stamped now u c ≡ c
unfolding condition_changed
stamped_unchanged now c u h =
    ground (arith, eq_iff c.status u.status, eq_iff c.reason u.reason, eq_iff c.message u.message)

overwrite_lem : (now : ℕ) (c u : Condition) → overwrite now c u ≡ stamped now u c
unfolding overwrite
overwrite_lem now c u = ground arith

absent :
    (now : ℕ) (u : Condition) (cs : List Condition)
    → ¬ In u.type (types cs)
    → (has_type u cs ≡ false) × (restamp_all now u cs ≡ cs)
absent now u [] h = (refl, refl)
absent now u (c ∷ cs) h =
    let other : (c.type == u.type) ≡ false = ==_ne c.type u.type (λ e. h (inl (sym e))) in
    let (a, b) = absent now u cs (λ m. h (inr m)) in (rw (other, a), rw (other, b))

merge_one_lem :
    (now : ℕ) (u : Condition) (cs : List Condition)
    → NoDup (types cs)
    → merge_one now u cs ≡ (restamp_all now u cs, has_type u cs)
unfolding merge_one
merge_one_lem now u [] h = refl
merge_one_lem now u (c ∷ cs) (new, h) = elim (String-cases c.type u.type) [
  | inl e ↦
      let (a, b) = absent now u cs (λ m. new (rw e m)) in
      let same : (c.type == u.type) ≡ true = (eq_iff c.type u.type).1 e in
      elim (Bool-cases (condition_changed c u)) [
        | inl changed ↦ rw (same, changed, b, merge_one, overwrite_lem now c u) refl
        | inr kept ↦
            rw (same, kept, merge_one_lem now u cs h, b, stamped_unchanged now c u kept, merge_one)
              refl
      ]
  | inr d ↦ rw (==_ne c.type u.type d, merge_one_lem now u cs h, merge_one) refl
]

no_type :
    (now : ℕ) (u : Condition) (cs : List Condition)
    → has_type u cs ≡ false
    → restamp_all now u cs ≡ cs
no_type now u [] h = refl
no_type now u (c ∷ cs) h = elim (Bool-cases (c.type == u.type)) [
  | inl e ↦ cc (rw (e, has_type) at h)
  | inr e ↦ rw (e, no_type now u cs (rw (e, has_type) at h))
]

-- If no two conditions have one type, then merging one update is the reference: each condition of
-- its type is overwritten, with a new time exactly where the status changes, and all others are as
-- before; and an update of a new type is added at the end with the time.
pub merge_conditions_lem :
    (now : ℕ) (u : Condition) (cs : List Condition)
    → NoDup (types cs)
    → merge_conditions now cs (u ∷ []) ≡ merged now u cs
unfolding merge_conditions
merge_conditions_lem now u cs h =
    rw (merge_one_lem now u cs h, merge_from)
      (elim (Bool-cases (has_type u cs)) [
        | inl e ↦ rw e (append-nil _)
        | inr e ↦ rw (e, no_type now u cs e)
      ])

types-restamp :
    (now : ℕ) (u : Condition) (cs : List Condition) → types (restamp_all now u cs) ≡ types cs
types-restamp now u [] = refl
types-restamp now u (c ∷ cs) = elim (Bool-cases (c.type == u.type)) [
  | inl e ↦ rw (e, types-restamp now u cs)
  | inr e ↦ rw (e, types-restamp now u cs)
]

types-append : (cs ds : List Condition) → types (cs ++ ds) ≡ types cs ++ types ds
types-append [] ds = refl
types-append (c ∷ cs) ds = rw (types-append cs ds)

fresh_type : (u : Condition) (cs : List Condition) → has_type u cs ≡ false → ¬ In u.type (types cs)
fresh_type u [] h = λ m. m
fresh_type u (c ∷ cs) h = λ m. elim m [
  | inl e ↦ ground (arith, (eq_iff c.type u.type).1 (sym e))
  | inr r ↦ fresh_type u cs (ground arith) r
]

NoDup-snoc : (xs : List String) (x : String) → NoDup xs → ¬ In x xs → NoDup (xs ++ x ∷ [])
NoDup-snoc [] x n h = ((λ m. m), tt)
NoDup-snoc (y ∷ xs) x (new, n) h = (
  λ m. elim (In-append y xs (x ∷ []) m) [
    | inl old ↦ new old
    | inr (inl e) ↦ h (inl (sym e))
    | inr (inr no_way) ↦ no_way
  ],
  NoDup-snoc xs x n (λ m. h (inr m)),
)

merged-NoDup :
    (now : ℕ) (u : Condition) (cs : List Condition)
    → NoDup (types cs)
    → NoDup (types (merged now u cs))
merged-NoDup now u cs h = elim (Bool-cases (has_type u cs)) [
  | inl e ↦ rw (e, types-restamp now u cs) h
  | inr e ↦
      rw (e, types-append cs (record u { last_transition_time = now } ∷ []))
        (NoDup-snoc (types cs) u.type h (fresh_type u cs e))
]

-- A merge keeps the condition types distinct.
pub merge_conditions-NoDup :
    (now : ℕ) (u : Condition) (cs : List Condition)
    → NoDup (types cs)
    → NoDup (types (merge_conditions now cs (u ∷ [])))
merge_conditions-NoDup now u cs h = rw (merge_conditions_lem now u cs h) (merged-NoDup now u cs h)

stamped_again :
    (now later : ℕ) (u c : Condition) → restamp later u (restamp now u c) ≡ restamp now u c
stamped_again now later u c = elim (Bool-cases (c.type == u.type)) [
  | inl e ↦ rw (e, e, ==_refl u.status)
  | inr e ↦ rw (e, e)
]

restamp_again :
    (now later : ℕ) (u : Condition) (cs : List Condition)
    → restamp_all later u (restamp_all now u cs) ≡ restamp_all now u cs
restamp_again now later u [] = refl
restamp_again now later u (c ∷ cs) = rw (stamped_again now later u c, restamp_again now later u cs)

restamp_snoc :
    (now later : ℕ) (u : Condition) (cs : List Condition)
    → restamp_all later u (cs ++ record u { last_transition_time = now } ∷ [])
      ≡ restamp_all later u cs ++ record u { last_transition_time = now } ∷ []
restamp_snoc now later u [] = rw (==_refl u.type, ==_refl u.status)
restamp_snoc now later u (c ∷ cs) = rw (restamp_snoc now later u cs)

has_type-restamp :
    (now : ℕ) (u : Condition) (cs : List Condition)
    → has_type u (restamp_all now u cs) ≡ has_type u cs
has_type-restamp now u [] = refl
has_type-restamp now u (c ∷ cs) = elim (Bool-cases (c.type == u.type)) [
  | inl e ↦ rw (e, e)
  | inr e ↦ rw (e, e, has_type-restamp now u cs)
]

has_type-snoc :
    (now : ℕ) (u : Condition) (cs : List Condition)
    → has_type u (cs ++ record u { last_transition_time = now } ∷ []) ≡ true
has_type-snoc now u [] = rw (==_refl u.type)
has_type-snoc now u (c ∷ cs) = elim (Bool-cases (c.type == u.type)) [
  | inl e ↦ rw e
  | inr e ↦ rw (e, has_type-snoc now u cs)
]

has_type-merged :
    (now : ℕ) (u : Condition) (cs : List Condition) → has_type u (merged now u cs) ≡ true
has_type-merged now u cs = elim (Bool-cases (has_type u cs)) [
  | inl e ↦ rw (e, has_type-restamp now u cs, e)
  | inr e ↦ rw (e, has_type-snoc now u cs)
]

merged_again :
    (now later : ℕ) (u : Condition) (cs : List Condition)
    → merged later u (merged now u cs) ≡ merged now u cs
merged_again now later u cs = rw (has_type-merged now u cs) (elim (Bool-cases (has_type u cs)) [
  | inl e ↦ rw (e, restamp_again now later u cs)
  | inr e ↦ rw (e, restamp_snoc now later u cs, no_type later u cs e)
])

-- Merging the same update again at a later time changes nothing, the times included.
pub merge_conditions_stable :
    (now later : ℕ) (u : Condition) (cs : List Condition)
    → NoDup (types cs)
    → merge_conditions later (merge_conditions now cs (u ∷ [])) (u ∷ [])
      ≡ merge_conditions now cs (u ∷ [])
merge_conditions_stable now later u cs h =
    rw
      (
        merge_conditions_lem now u cs h,
        merge_conditions_lem later u (merged now u cs) (merged-NoDup now u cs h),
      )
      (merged_again now later u cs)
