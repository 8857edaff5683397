-- ===== src/Workloads/Replaces.antt =====
-- What the deployment and the daemon set have in common on a cluster that works as a store: an object
-- with another selector is deleted, any other is updated.
use sesame_operator.Prelude.{
  String, Bool, true, false, Option, none, some, ◌≡◌, refl, sym, ap, ◌∙◌, if◌then◌else◌, Bool-cases,
  inl, inr, Option-cases,
}
use sesame_operator.Errors.{Err}
use sesame_operator.Api.{Sesame}
use sesame_operator.Labels.{exist, owner_labels}
use sesame_operator.Cluster.{pure, wrapping, ◌>>=◌}
use sesame_operator.Owned.{delete_owned}
use sesame_operator.Owned.Ensure.{Kind, update_object_if_needed}
use sesame_operator.Owned.Tables.{
  Table, KeepsKey, Part, IsStore, over, erase_here, put_some, put_here,
}
use sesame_operator.Owned.Runs.{Leaves, wrapping-Runs, bind-Runs, pure-Runs}
use sesame_operator.Owned.Deletes.{with_deleted, deleted_some, delete_owned-Runs}
use sesame_operator.Owned.Refines.{
  or_else, rewritten, written, with_written, update_object_if_needed-Runs,
}
use sesame_operator.Owned.Settles.{
  Settling, IsSettled, written-IsSettled, settled_stays, written-key, rewritten-some,
}

module _ {C K : Type 0} (k : Kind C K) (key : K → String × String) (differs : K → K → Bool)
    (s : Sesame) (desired : K) where
  abbrev replaced_by : Option K → Table K → Table K
  replaced_by none t = with_written k key s desired t
  replaced_by (some current) t =
      if differs current desired
      then with_deleted k.labels_of s (key desired).0 (key desired).1 t
      else with_written k key s desired t

  -- What a run makes of the table.
  abbrev pub with_replaced : Table K → Table K
  with_replaced t = replaced_by (t (key desired).0 (key desired).1) t

-- The test of the selectors finds none between the desired object and itself, nor between it and what
-- the comparison answered with for an object of its selector.
pub record KeepsSelector {K : Type 0} (changed : K → K → Option K) (differs : K → K → Bool)
    (desired : K) : Type 0 where
  pub same : differs desired desired ≡ false
  pub kept :
      (a u : K) → changed a desired ≡ some u → differs a desired ≡ false → differs u desired ≡ false

module _ {C W K : Type 0} (k : Kind C K) (key : K → String × String) (view : C → W)
    (part : Part W K) (store : IsStore k.access key view part) (differs : K → K → Bool) (s : Sesame)
    (desired : K) (keeps : KeepsKey key k.changed) where
  pub over_replaced :
      (w : W) (o : Option K)
      → part.table w (key desired).0 (key desired).1 ≡ o
      → over part (with_replaced k key differs s desired) w
        ≡ over part (replaced_by k key differs s desired o) w
  over_replaced w o found =
      ap (λ x. part.set (replaced_by k key differs s desired x (part.table w)) w) found

  over_decided :
      (w : W) (current : K) (b : Bool)
      → part.table w (key desired).0 (key desired).1 ≡ some current
      → differs current desired ≡ b
      → over part (with_replaced k key differs s desired) w
        ≡ part.set
            (if b
              then with_deleted k.labels_of s (key desired).0 (key desired).1 (part.table w)
              else with_written k key s desired (part.table w))
            w
  over_decided w current b found test =
      over_replaced w (some current) found
      ∙ ap
          (λ x.
            part.set
              (if x
                then with_deleted k.labels_of s (key desired).0 (key desired).1 (part.table w)
                else with_written k key s desired (part.table w))
              w)
          test

  -- What follows a read that finds an object.
  pub replace-Runs :
      (f : Err → Err) (current : K) (c : C) (w : W)
      → view c ≡ w
      → part.table w (key desired).0 (key desired).1 ≡ some current
      → Leaves view
          (if differs current desired
            then delete_owned k.labels_of k.access s (k.access.get (key desired).0 (key desired).1)
            else wrapping f (update_object_if_needed k s current desired >>= (λ _. pure tt)))
          c
          (over part (with_replaced k key differs s desired) w)
  replace-Runs f current c w seen found = elim (Bool-cases (differs current desired)) [
    | inl other ↦
        rw (over_decided w current true found other, other)
          (delete_owned-Runs k.labels_of store.erasable s _ _ c w seen)
    | inr same ↦
        rw (over_decided w current false found same, same)
          (wrapping-Runs view f _ c _ (
            bind-Runs view _ _ c _ _
              (update_object_if_needed-Runs k key view part store s desired keeps current c w seen
                found)
              (λ _ c' _ after. pure-Runs view tt c' _ tt after)))
  ]

module _ {C K : Type 0} (k : Kind C K) (key : K → String × String) (differs : K → K → Bool)
    (s : Sesame) (desired : K) (settling : Settling k.changed desired)
    (keeps : KeepsKey key k.changed) (selector : KeepsSelector k.changed differs desired) where
  abbrev IsFixed : Table K → Type 0
  IsFixed t = with_replaced k key differs s desired t ≡ t

  replaced_some :
      (t : Table K) (current : K) (b : Bool)
      → t (key desired).0 (key desired).1 ≡ some current
      → differs current desired ≡ b
      → with_replaced k key differs s desired t ≡ (
          if b
          then with_deleted k.labels_of s (key desired).0 (key desired).1 t
          else with_written k key s desired t)
  replaced_some t current b found test =
      ap (λ x. replaced_by k key differs s desired x t) found
      ∙ ap
          (λ x.
            if x
            then with_deleted k.labels_of s (key desired).0 (key desired).1 t
            else with_written k key s desired t)
          test

  -- A settled table whose object has the selector stays as it is.
  settled-IsFixed :
      (t : Table K) (o : K)
      → t (key desired).0 (key desired).1 ≡ some o
      → differs o desired ≡ false
      → IsSettled k s desired settling key t
      → IsFixed t
  settled-IsFixed t o found same settled =
      replaced_some t o false found same ∙ settled_stays k s desired settling key t settled

  missing-IsFixed :
      (t : Table K)
      → t (key desired).0 (key desired).1 ≡ none
      → IsFixed (with_written k key s desired t)
  missing-IsFixed t missing =
      let there =
        ap (λ x. put_some key (written k s desired x) t (key desired).0 (key desired).1) missing
        ∙ put_here key (key desired).0 (key desired).1 desired t refl in
      settled-IsFixed (with_written k key s desired t) desired there selector.same (
        written-IsSettled k s desired settling key t
          (written-key k s desired settling key keeps _ (λ current found. cc)))

  rewritten_there :
      (t : Table K) (current : K) (o : Option K)
      → t (key desired).0 (key desired).1 ≡ some current
      → ((u : K) → o ≡ some u → key u ≡ key desired)
      → put_some key o t (key desired).0 (key desired).1 ≡ some (or_else current o)
  rewritten_there t current none found named = found
  rewritten_there t current (some u) found named = put_here key _ _ u t (named u refl)

  rewritten_same :
      (current : K) (o : Option K)
      → rewritten k s desired current ≡ o
      → differs current desired ≡ false
      → differs (or_else current o) desired ≡ false
  rewritten_same current none e same = same
  rewritten_same current (some u) e same =
      selector.kept current u (rewritten-some k s desired settling current u e) same

  found-IsFixed :
      (t : Table K) (current : K)
      → t (key desired).0 (key desired).1 ≡ some current
      → key current ≡ key desired
      → differs current desired ≡ false
      → IsFixed (with_written k key s desired t)
  found-IsFixed t current found named same =
      let written-named =
        written-key k s desired settling key keeps (some current)
          (λ o h. let e : current ≡ o = cc in rw (sym e) named) in
      let there =
        ap (λ x. put_some key (written k s desired x) t (key desired).0 (key desired).1) found
        ∙ rewritten_there t current (rewritten k s desired current) found written-named in
      settled-IsFixed (with_written k key s desired t) _ there
        (rewritten_same current (rewritten k s desired current) refl same)
        (written-IsSettled k s desired settling key t
          (λ u h. written-named u (ap (written k s desired) (sym found) ∙ h)))

  abbrev once : Table K → Table K
  once = with_replaced k key differs s desired

  at-IsFixed : (t u : Table K) → t ≡ u → IsFixed u → IsFixed t
  at-IsFixed t u e fixed = ap once e ∙ fixed ∙ sym e

  deleted_thrice :
      (t : Table K) (current : K)
      → t (key desired).0 (key desired).1 ≡ some current
      → differs current desired ≡ true
      → IsFixed (once (once t))
  deleted_thrice t current found other =
      let e = replaced_some t current true found other in
      elim (Bool-cases (exist (k.labels_of current) (owner_labels s))) [
        | inl owned ↦
            let gone = e ∙ deleted_some k.labels_of s _ _ t current true found owned in
            let missing =
              ap (λ x. x (key desired).0 (key desired).1) gone
              ∙ erase_here (key desired).0 (key desired).1 t in
            at-IsFixed (once (once t)) (with_written k key s desired (once t))
              (ap (λ x. replaced_by k key differs s desired x (once t)) missing)
              (missing-IsFixed (once t) missing)
        | inr foreign ↦
            ap once (ap once (e ∙ deleted_some k.labels_of s _ _ t current false found foreign))
      ]

  -- A third run leaves the table of the second: where the selector was another one, the first run
  -- deletes the object, and the second creates it.
  pub replaced_thrice :
      (t : Table K)
      → ((o : K) → t (key desired).0 (key desired).1 ≡ some o → key o ≡ key desired)
      → IsFixed (once (once t))
  replaced_thrice t keyed = elim (Option-cases (t (key desired).0 (key desired).1)) [
    | inl missing ↦ ap once (
        at-IsFixed (once t) (with_written k key s desired t)
          (ap (λ x. replaced_by k key differs s desired x t) missing) (missing-IsFixed t missing))
    | inr (current, found) ↦ elim (Bool-cases (differs current desired)) [
      | inl other ↦ deleted_thrice t current found other
      | inr same ↦ ap once (
          at-IsFixed (once t) (with_written k key s desired t)
            (replaced_some t current false found same)
            (found-IsFixed t current found (keyed current found) same))
    ]
  ]
