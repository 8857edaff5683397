-- ===== src/Namespaces/Safety.antt =====
-- Which namespaces are left alone.
use sesame_operator.Prelude.{
  String, Bool, none, some, if◌then◌else◌, true, false, List, [], ◌∷◌, ◌≡◌, ◌⊎◌, inl, inr, In,
  eq_iff, Bool-cases, arith,
}
use sesame_operator.Errors.{ClientError, Err, ok}
use sesame_operator.Api.{Sesame}
use sesame_operator.Equality.{Semantic, namespace_config_changed}
use sesame_operator.Kube.{Namespace}
use sesame_operator.Labels.{exist, owner_labels, Owned, owner_labels-Owned}
use sesame_operator.Cluster.{Client, answer, pure, attempt, ◌>>=◌, on_answer, wrapping, when_some}
use sesame_operator.Cluster.Keeps.{
  Harmless, Keeps, keeps_rules, Keeps-if, Keeps-bind, Keeps-wrapping, Keeps-pure, Keeps-attempt,
  Keeps-call, Keeps-on_answer, Keeps-fail,
}
use sesame_operator.Owned.{Guards}
use sesame_operator.Sesames.{other_sesames_exist_in_spec_ns, other_sesames_exist}
use sesame_operator.Sesames.Others.{HasRival, Lists, other_sesames_exist_in_spec_ns_iff}
use sesame_operator.Namespaces.{
  desired_namespace, create_namespace, update_namespace_if_needed, ensure_namespace,
  namespace_core_list, is_core, current_spec_ns_name, delete_namespace, ensure_namespace_deleted,
}

is_core_complete : (name : String) (l : List String) → In name l → is_core name l ≡ true
unfolding is_core
is_core_complete name [] m = absurd m
is_core_complete name (ns ∷ l) (inl e) = rw ((eq_iff name ns).1 e)
is_core_complete name (ns ∷ l) (inr m) = ground (arith, is_core_complete name l m)

module _ {C : Type 0} (cli : Client C) (s : Sesame) where
  -- If the spec does not ask for the removal of the namespace, or the namespace is one of the core
  -- namespaces, then nothing is called, and the result says that no deletion was expected.
  ensure_namespace_deleted_bypassed :
      (c : C)
      → (s.spec.namespace.remove_on_deletion ≡ false) ⊎ In s.spec.namespace.name namespace_core_list
      → ensure_namespace_deleted cli s c ≡ (ok false, c)
  unfolding ensure_namespace_deleted pure
  ensure_namespace_deleted_bypassed c (inl kept) = rw kept
  ensure_namespace_deleted_bypassed c (inr core) =
      elim (Bool-cases s.spec.namespace.remove_on_deletion) [
        | inl asked ↦ rw (asked, is_core_complete s.spec.namespace.name namespace_core_list core)
        | inr kept ↦ rw kept
      ]

  -- A namespace that carries the owner labels of the sesame is not deleted, if the sesames that the
  -- client lists include the sesame and another one with its resources in the namespace: after the
  -- list there is no call, and the result is no error.
  pub ensure_namespace_deleted_shared :
      (c c' c'' : C) (ns : Namespace) (items : List Sesame)
      → s.spec.namespace.remove_on_deletion ≡ true
      → is_core s.spec.namespace.name namespace_core_list ≡ false
      → current_spec_ns_name cli s.spec.namespace.name c ≡ (answer ns, c')
      → Owned s ns.labels
      → cli.list_sesames c' ≡ (answer items, c'')
      → Lists s items
      → HasRival s items
      → ensure_namespace_deleted cli s c ≡ (ok true, c'')
  unfolding ensure_namespace_deleted delete_namespace ◌>>=◌ on_answer wrapping
      other_sesames_exist_in_spec_ns
  ensure_namespace_deleted_shared c c' c'' ns items asked other found owned listed itself rival =
      rw (
        asked,
        other,
        found,
        owned,
        (other_sesames_exist_in_spec_ns_iff cli s items listed itself).1 rival,
      )

  module _ {P : C → Type 0} (g : Guards P (λ ns. ns.labels) s cli.namespaces)
      (lists : Harmless P cli.list_sesames) where
    pub others-Keeps : Keeps P (other_sesames_exist_in_spec_ns cli s)
    unfolding other_sesames_exist_in_spec_ns other_sesames_exist
    others-Keeps = search (keeps_rules, lists)

    delete_namespace-Keeps : (ns : Namespace) → Keeps P (delete_namespace cli s ns)
    unfolding delete_namespace
    delete_namespace-Keeps ns =
        Keeps-if _ _ _
          (λ owned.
            Keeps-bind _ _ (Keeps-wrapping _ others-Keeps)
              (λ shared. search (keeps_rules, g.deletes ns owned)))
          (λ _. Keeps-pure true)

    -- Whatever the deletion of the namespace meets, it keeps each property that reads, lists of
    -- sesames, and writes of namespaces with the owner labels of the sesame keep.
    pub ensure_namespace_deleted-Keeps : Keeps P (ensure_namespace_deleted cli s)
    unfolding ensure_namespace_deleted current_spec_ns_name
    ensure_namespace_deleted-Keeps = search (keeps_rules, delete_namespace-Keeps, g.reads)

module _ {C : Type 0} (cli : Client C) (eq : Semantic) (s : Sesame) {P : C → Type 0}
    (g : Guards P (λ ns. ns.labels) s cli.namespaces) where
  desired_namespace-Owned : Owned s (desired_namespace s).labels
  unfolding desired_namespace
  desired_namespace-Owned = owner_labels-Owned s

  create_namespace-Keeps : Keeps P (create_namespace cli (desired_namespace s))
  unfolding create_namespace
  create_namespace-Keeps = Keeps-attempt _ (g.creates _ desired_namespace-Owned)

  -- The comparison answers with the desired namespace.
  changed_namespace-Keeps :
      (f : Namespace → ClientError → Err) (current : Namespace) (test : Bool)
      → Keeps P (
          when_some
            (λ ns. attempt (f ns) (cli.namespaces.update ns))
            (if test then none else some (desired_namespace s)))
  unfolding when_some
  changed_namespace-Keeps f current true = Keeps-pure tt
  changed_namespace-Keeps f current false = Keeps-attempt _ (g.updates _ desired_namespace-Owned)

  update_namespace-Keeps :
      (current : Namespace)
      → Keeps P (update_namespace_if_needed cli eq s current (desired_namespace s))
  unfolding update_namespace_if_needed namespace_config_changed
  update_namespace-Keeps current =
      Keeps-if (exist current.labels (owner_labels s)) _ _
        (λ owned. changed_namespace-Keeps _ current _) (λ _. Keeps-pure tt)

  -- Whatever the run for the namespace meets, it keeps each property that reads of namespaces, and
  -- writes of those with the owner labels of the sesame, keep.
  pub ensure_namespace-Keeps : Keeps P (ensure_namespace cli eq s)
  unfolding ensure_namespace current_spec_ns_name
  ensure_namespace-Keeps = Keeps-bind _ _ (Keeps-call (g.reads _ _)) λ found.
      Keeps-on_answer _ _ found (λ current. Keeps-wrapping _ (update_namespace-Keeps current))
        (λ e. search (Keeps-if, create_namespace-Keeps, Keeps-fail))
