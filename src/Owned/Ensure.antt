-- ===== src/Owned/Ensure.antt =====
-- What the functions `Ensure…` of internal/objects have in common for the kinds of objects that a
-- sesame has one or more of: read the object, create it where there is none, and update it where it
-- differs and carries the owner labels. A kind is given by its calls, its comparison and its texts.
use sesame_operator.Prelude.{
  String, [], ◌∷◌, Option, none, some, StringMap, if◌then◌else◌, sprintf, ◌≡◌, refl,
}
use sesame_operator.Errors.{Err, client, wrap}
use sesame_operator.Api.{Sesame}
use sesame_operator.Labels.{exist, owner_labels, Owned}
use sesame_operator.Cluster.{
  Request, Access, Exec, pure, fail, attempt, call, ◌>>=◌, ◌>>◌, on_answer, wrapping,
}
use sesame_operator.Cluster.Keeps.{
  Harmless, Keeps, Keeps-pure, Keeps-attempt, Keeps-if, Keeps-bind, Keeps-call, Keeps-on_answer,
  Keeps-wrapping, Keeps-fail,
}
use sesame_operator.Owned.{Guards}

-- A kind of objects. The comparison answers with the object to write, or with nothing where the two
-- match. `title` is how the messages name an object, and `update_title` how that of an update does.
pub record Kind (C K : Type 0) : Type 0 where
  pub access : Access C K
  pub labels_of : K → Option StringMap
  pub changed : K → K → Option K
  pub title : K → String
  pub update_title : K → String

-- `fmt.Errorf("failed to …: %w", …)`
abbrev pub failed_to : String → String → Err → Err
failed_to verb title = wrap (sprintf ("failed to " ∷ verb ∷ " " ∷ title ∷ []))

-- The text of an object with a namespace.
abbrev pub titled : String → String → String → String
titled kind ns name = sprintf (kind ∷ " " ∷ ns ∷ "/" ∷ name ∷ [])

module _ {C K : Type 0} (k : Kind C K) where
  unfoldable pub create_object : K → Exec C Unit
  create_object desired =
      attempt (λ e. failed_to "create" (k.title desired) (client e)) (k.access.create desired)

  -- The object that is written, and which is returned.
  unfoldable pub update_object : K → Exec C K
  update_object updated = do
    attempt (λ e. failed_to "update" (k.update_title updated) (client e)) (k.access.update updated)
    pure updated

  -- What follows the comparison.
  unfoldable pub update_changed : K → Option K → Exec C K
  unfolding update_object
  update_changed current none = pure current
  update_changed current (some updated) = update_object updated

  unfoldable pub update_object_if_needed : Sesame → K → K → Exec C K
  unfolding update_changed
  update_object_if_needed s current desired =
      if exist (k.labels_of current) (owner_labels s)
      then update_changed current (k.changed current desired)
      else pure current

  -- What follows where there is none yet.
  unfoldable pub create_missing : K → Exec C K
  unfolding create_object
  create_missing desired = do
    wrapping (failed_to "create" (k.title desired)) (create_object desired)
    pure desired

  -- The first part of a function `Ensure…`: what follows an object that is found, what follows where
  -- there is none, and the error of any other failure.
  unfoldable pub on_current : {A : Type 0} → Request C K → K → (K → Exec C A) → Exec C A → Exec C A
  on_current get desired present missing = do
    found ← call get
    on_answer present
        (λ e.
          if e.is_not_found then missing else fail (failed_to "get" (k.title desired) (client e)))
        found

  -- The object that is in the cluster afterwards is the result.
  unfoldable pub ensure_object : Sesame → Request C K → K → Exec C K
  unfolding on_current update_object_if_needed create_missing
  ensure_object s get desired =
      on_current get desired
        (λ current.
          wrapping (failed_to "update" (k.title desired))
            (update_object_if_needed s current desired))
        (create_missing desired)

-- A comparison that never hands an object on to a sesame or takes one away from it: what it answers
-- with is the current or the expected object, as far as the labels go.
pub record KeepsOwner {K : Type 0} (labels_of : K → Option StringMap) (changed : K → K → Option K)
    : Type 0 where
  pub owner :
      (s : Sesame) (current expected updated : K)
      → changed current expected ≡ some updated
      → Owned s (labels_of current)
      → Owned s (labels_of expected)
      → Owned s (labels_of updated)

module _ {C K : Type 0} {P : C → Type 0} (k : Kind C K) where
  pub on_current-Keeps :
      {A : Type 0} (get : Request C K) (desired : K) (present : K → Exec C A) (missing : Exec C A)
      → Harmless P get
      → ((current : K) → Keeps P (present current))
      → Keeps P missing
      → Keeps P (on_current k get desired present missing)
  unfolding on_current
  on_current-Keeps get desired present missing reads one none_yet =
      Keeps-bind (call get) _ (Keeps-call reads)
        λ found. Keeps-on_answer present _ found one (λ e. search (Keeps-if, none_yet, Keeps-fail))

module _ {C K : Type 0} {P : C → Type 0} (k : Kind C K) {s : Sesame}
    (g : Guards P k.labels_of s k.access) where
  pub create_object-Keeps :
      (desired : K) → Owned s (k.labels_of desired) → Keeps P (create_object k desired)
  unfolding create_object
  create_object-Keeps desired owned = Keeps-attempt _ (g.creates desired owned)

  create_missing-Keeps :
      (desired : K) → Owned s (k.labels_of desired) → Keeps P (create_missing k desired)
  unfolding create_missing
  create_missing-Keeps desired owned =
      Keeps-bind _ _
        (Keeps-wrapping (failed_to "create" (k.title desired)) (create_object-Keeps desired owned))
        (λ _. Keeps-pure desired)

  update_object-Keeps :
      (updated : K) → Owned s (k.labels_of updated) → Keeps P (update_object k updated)
  unfolding update_object
  update_object-Keeps updated owned =
      Keeps-bind _ _ (Keeps-attempt _ (g.updates updated owned)) (λ _. Keeps-pure updated)

  module _ (keeps : KeepsOwner k.labels_of k.changed) where
    update_changed-Keeps :
        (current desired : K) (changed : Option K)
        → k.changed current desired ≡ changed
        → Owned s (k.labels_of current)
        → Owned s (k.labels_of desired)
        → Keeps P (update_changed k current changed)
    unfolding update_changed
    update_changed-Keeps current desired none h owned wanted = Keeps-pure current
    update_changed-Keeps current desired (some updated) h owned wanted =
        update_object-Keeps updated (keeps.owner s current desired updated h owned wanted)

    pub update_object_if_needed-Keeps :
        (current desired : K)
        → Owned s (k.labels_of desired)
        → Keeps P (update_object_if_needed k s current desired)
    unfolding update_object_if_needed
    update_object_if_needed-Keeps current desired wanted =
        Keeps-if (exist (k.labels_of current) (owner_labels s)) _ _
          (λ owned.
            update_changed-Keeps current desired (k.changed current desired) refl owned wanted)
          (λ _. Keeps-pure current)

    -- Whatever the run for one object meets, it keeps each property that reads of its kind, and
    -- writes of its kind with the owner labels of the sesame, keep.
    pub ensure_object-Keeps :
        (get : Request C K) (desired : K)
        → Harmless P get
        → Owned s (k.labels_of desired)
        → Keeps P (ensure_object k s get desired)
    unfolding ensure_object
    ensure_object-Keeps get desired reads wanted =
        on_current-Keeps k get desired _ _ reads
          (λ current. Keeps-wrapping _ (update_object_if_needed-Keeps current desired wanted))
          (create_missing-Keeps desired wanted)
