-- ===== src/Owned/Deletes.antt =====
-- What the functions `Ensure…Deleted` come to on a cluster that works as a store: they erase one entry
-- of a table.
use sesame_operator.Prelude.{
  String, Option, none, some, StringMap, Bool, true, false, ◌≡◌, ap, ◌∙◌, if◌then◌else◌, Bool-cases,
  inl, inr,
}
use sesame_operator.Api.{Sesame}
use sesame_operator.Labels.{exist, owner_labels}
use sesame_operator.Cluster.{Access}
use sesame_operator.Owned.{delete_owned, unless_not_found}
use sesame_operator.Owned.Tables.{Table, Part, IsErasable, over, erase}
use sesame_operator.Owned.Runs.{Leaves, pure-Runs, read-Runs, delete-Runs}

module _ {K : Type 0} (labels_of : K → Option StringMap) (s : Sesame) (ns name : String) where
  abbrev pub removed : Option K → Table K → Table K
  removed none t = t
  removed (some o) t = if exist (labels_of o) (owner_labels s) then erase ns name t else t

  -- The table without the object of a name, if this carries the owner labels.
  abbrev pub with_deleted : Table K → Table K
  with_deleted t = removed (t ns name) t

  pub deleted_some :
      (t : Table K) (o : K) (b : Bool)
      → t ns name ≡ some o
      → exist (labels_of o) (owner_labels s) ≡ b
      → with_deleted t ≡ (if b then erase ns name t else t)
  deleted_some t o b found test =
      ap (λ x. removed x t) found ∙ ap (λ x. if x then erase ns name t else t) test

module _ {C W K : Type 0} (labels_of : K → Option StringMap) {objects : Access C K}
    {key : K → String × String} {view : C → W} {part : Part W K}
    (store : IsErasable objects key view part) (s : Sesame) where
  over_deleted :
      (ns name : String) (w : W) (o : Option K)
      → part.table w ns name ≡ o
      → over part (with_deleted labels_of s ns name) w ≡ over part (removed labels_of s ns name o) w
  over_deleted ns name w o found =
      ap (λ x. part.set (removed labels_of s ns name x (part.table w)) w) found

  over_tested :
      (ns name : String) (w : W) (o : K) (b : Bool)
      → part.table w ns name ≡ some o
      → exist (labels_of o) (owner_labels s) ≡ b
      → over part (with_deleted labels_of s ns name) w
        ≡ part.set (if b then erase ns name (part.table w) else part.table w) w
  over_tested ns name w o b found test =
      ap (λ x. part.set x w) (deleted_some labels_of s ns name (part.table w) o b found test)

  pub delete_owned-Runs :
      (ns name : String) (c : C) (w : W)
      → view c ≡ w
      → Leaves view
          (delete_owned labels_of objects s (objects.get ns name))
          c
          (over part (with_deleted labels_of s ns name) w)
  unfolding delete_owned unless_not_found
  delete_owned-Runs ns name c w seen =
      read-Runs store ns name _ _ c w _ seen
        (λ e c' gone missing after.
          rw (over_deleted ns name w none missing, gone, part.unchanged w)
            (pure-Runs view tt c' w tt after))
        (λ o c' found after.
          let same : key o ≡ (ns, name) = store.keyed ns name c' o (rw after found) in
          elim (Bool-cases (exist (labels_of o) (owner_labels s))) [
            | inl owned ↦
                rw (over_tested ns name w o true found owned, owned)
                  (rw same at (delete-Runs store o o c' w after (rw same found)))
            | inr foreign ↦
                rw (over_tested ns name w o false found foreign, foreign, part.unchanged w)
                  (pure-Runs view tt c' w tt after)
          ])
