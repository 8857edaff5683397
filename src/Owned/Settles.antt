-- ===== src/Owned/Settles.antt =====
-- A second run of a function `Ensure…` on a cluster that works as a store: it finds nothing to write.
use sesame_operator.Prelude.{
  String, Option, none, some, ◌≡◌, refl, sym, ap, ==_refl, Bool-cases, inl, inr,
}
use sesame_operator.Api.{Sesame}
use sesame_operator.Labels.{exist, owner_labels}
use sesame_operator.Owned.Ensure.{Kind}
use sesame_operator.Owned.Tables.{Part, IsStore, KeepsKey, Table, put_some}
use sesame_operator.Owned.Refines.{rewritten, written, with_written}

-- A comparison finds no difference between the desired object and itself, nor between what it answered
-- with and the desired object.
pub record Settling {K : Type 0} (changed : K → K → Option K) (desired : K) : Type 0 where
  pub same : changed desired desired ≡ none
  pub answered : (a u : K) → changed a desired ≡ some u → changed u desired ≡ none

module _ {C K : Type 0} (k : Kind C K) (s : Sesame) (desired : K)
    (settling : Settling k.changed desired) where
  rewritten-none : (o : K) → k.changed o desired ≡ none → rewritten k s desired o ≡ none
  rewritten-none o h = elim (Bool-cases (exist (k.labels_of o) (owner_labels s))) [
    | inl owned ↦ rw (owned, h) refl
    | inr foreign ↦ rw foreign refl
  ]

  pub rewritten-some :
      (current u : K) → rewritten k s desired current ≡ some u → k.changed current desired ≡ some u
  rewritten-some current u h = elim (Bool-cases (exist (k.labels_of current) (owner_labels s))) [
    | inl owned ↦ rw owned at h
    | inr foreign ↦ cc (rw foreign at h)
  ]

  -- What was written is not written again.
  pub written_once :
      (o : Option K) (u : K) → written k s desired o ≡ some u → written k s desired (some u) ≡ none
  written_once none u h =
      let same : desired ≡ u = cc in rw (sym same) (rewritten-none desired (settling.same))
  written_once (some current) u h =
      rewritten-none u (settling.answered current u (rewritten-some current u h))

  module _ (key : K → String × String) where
    -- What is written has the name of the desired object.
    pub written-key :
        KeepsKey key k.changed
        → (o : Option K) → ((current : K) → o ≡ some current → key current ≡ key desired)
        → (u : K) → written k s desired o ≡ some u
        → key u ≡ key desired
    written-key keeps none named u h = let same : desired ≡ u = cc in ap key (sym same)
    written-key keeps (some current) named u h =
        keeps current desired u (rewritten-some current u h) (named current refl)

    -- There is nothing to write to the table.
    abbrev pub IsSettled : Table K → Type 0
    IsSettled t = written k s desired (t (key desired).0 (key desired).1) ≡ none

    put_settles :
        (t : Table K) (o : Option K)
        → written k s desired (t (key desired).0 (key desired).1) ≡ o
        → ((u : K) → o ≡ some u → key u ≡ key desired)
        → IsSettled (put_some key o t)
    put_settles t none h named = h
    put_settles t (some u) h named =
        rw (named u refl, ==_refl (key desired).0, ==_refl (key desired).1) (written_once _ u h)

    -- Once the object is written, the table is settled.
    pub written-IsSettled :
        (t : Table K)
        → ((u : K)
            → written k s desired (t (key desired).0 (key desired).1) ≡ some u
            → key u ≡ key desired)
        → IsSettled (with_written k key s desired t)
    written-IsSettled t named = put_settles t _ refl named

    -- A settled table stays as it is.
    pub settled_stays : (t : Table K) → IsSettled t → with_written k key s desired t ≡ t
    settled_stays t h = rw h refl

    -- On a table whose object of the name has it, a second run leaves the table of the first.
    pub settled_twice :
        KeepsKey key k.changed
        → (t : Table K)
        → ((o : K) → t (key desired).0 (key desired).1 ≡ some o → key o ≡ key desired)
        → with_written k key s desired (with_written k key s desired t)
          ≡ with_written k key s desired t
    settled_twice keeps t named =
        settled_stays (with_written k key s desired t)
          (written-IsSettled t (written-key keeps _ named))

module _ {C W K : Type 0} (k : Kind C K) (key : K → String × String) (view : C → W)
    (part : Part W K) (store : IsStore k.access key view part) (s : Sesame) (desired : K)
    (settling : Settling k.changed desired) (keeps : KeepsKey key k.changed) where
  -- On the tables of a store, too.
  pub store_settles :
      (c : C)
      → with_written k key s desired (with_written k key s desired (part.table (view c)))
        ≡ with_written k key s desired (part.table (view c))
  store_settles c =
      settled_twice k s desired settling key keeps (part.table (view c))
        (λ o h. store.erasable.keyed _ _ c o h)
