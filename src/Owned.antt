-- ===== src/Owned.antt =====
-- The steps that the packages below internal/objects share: a call whose answer "not found" is no
-- error, and the deletion of an object that belongs to a sesame.
pub mod Ensure
pub mod Confined
pub mod Tables
pub mod Runs
pub mod Deletes
pub mod Refines
pub mod Settles
use sesame_operator.Prelude.{String, false, Option, StringMap, ◌≡◌, if◌then◌else◌}
use sesame_operator.Errors.{ClientError, ok, client}
use sesame_operator.Api.{Sesame}
use sesame_operator.Labels.{exist, owner_labels, Owned}
use sesame_operator.Cluster.{answer, Request, Access, Exec, pure, fail, call, ◌>>=◌, on_answer}
use sesame_operator.Cluster.Keeps.{Harmless, Keeps, keeps_rules}

module _ {C : Type 0} where
  -- `if errors.IsNotFound(err) { return nil }; return err`
  unfoldable pub unless_not_found : ClientError → Exec C Unit
  unless_not_found e = if e.is_not_found then pure tt else fail (client e)

  unfoldable pub ignoring_not_found : Request C Unit → Exec C Unit
  ignoring_not_found m = do done ← call m; on_answer (λ _. pure tt) unless_not_found done

module _ {C K : Type 0} (labels_of : K → Option StringMap) (objects : Access C K) (s : Sesame) where
  -- `Ensure…Deleted`: the object that `current` answers with is deleted if it has the owner labels.
  unfoldable pub delete_owned : Request C K → Exec C Unit
  delete_owned current = do
    found ← call current
    on_answer
        (λ o.
          if exist (labels_of o) (owner_labels s)
          then ignoring_not_found (objects.delete o)
          else pure tt)
        unless_not_found found

-- What a program for the sesame `s` may do to the objects of one kind, and `P` still holds: it may
-- read them, and it may delete, create and update those that carry the owner labels of `s`.
pub record Guards {C K : Type 0} (P : C → Type 0) (labels_of : K → Option StringMap) (s : Sesame)
    (objects : Access C K) : Type 0 where
  pub reads : (ns name : String) → Harmless P (objects.get ns name)
  pub creates : (o : K) → Owned s (labels_of o) → Harmless P (objects.create o)
  pub updates : (o : K) → Owned s (labels_of o) → Harmless P (objects.update o)
  pub deletes : (o : K) → Owned s (labels_of o) → Harmless P (objects.delete o)

module _ {C K : Type 0} (labels_of : K → Option StringMap) (objects : Access C K) (s : Sesame) where
  -- An object without the owner labels is read and left alone, and that is no error.
  pub delete_owned_foreign :
      (current : Request C K) (c c' : C) (o : K)
      → current c ≡ (answer o, c')
      → exist (labels_of o) (owner_labels s) ≡ false
      → delete_owned labels_of objects s current c ≡ (ok tt, c')
  unfolding delete_owned ◌>>=◌ on_answer
  delete_owned_foreign current c c' o found foreign = rw (found, foreign)

  -- One with the owner labels is deleted, unless the client fails otherwise than by not finding it.
  pub delete_owned_lem :
      (current : Request C K) (c c' : C) (o : K)
      → current c ≡ (answer o, c')
      → Owned s (labels_of o)
      → delete_owned labels_of objects s current c ≡ ignoring_not_found (objects.delete o) c'
  unfolding delete_owned ◌>>=◌ on_answer
  delete_owned_lem current c c' o found owned = rw (found, owned)

  module _ {P : C → Type 0} (g : Guards P labels_of s objects) where
    pub ignoring_not_found-Keeps :
        {m : Request C Unit} → Harmless P m → Keeps P (ignoring_not_found m)
    unfolding ignoring_not_found unless_not_found
    ignoring_not_found-Keeps h = search keeps_rules

    pub delete_owned-Keeps :
        (current : Request C K)
        → Harmless P current
        → Keeps P (delete_owned labels_of objects s current)
    unfolding delete_owned unless_not_found
    delete_owned-Keeps current h = search (keeps_rules, ignoring_not_found-Keeps, g.deletes)
