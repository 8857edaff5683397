-- ===== src/Owned/Refines.antt =====
-- What the functions `Ensure…` come to on a cluster that works as a store: a table of the objects of
-- a kind, in which they write one entry.
use sesame_operator.Prelude.{
  String, Option, none, some, ◌≡◌, refl, sym, ap, if◌then◌else◌, Bool-cases, inl, inr,
}
use sesame_operator.Errors.{ClientError, Err}
use sesame_operator.Api.{Sesame}
use sesame_operator.Labels.{exist, owner_labels}
use sesame_operator.Cluster.{Exec, pure, attempt, when_some}
use sesame_operator.Owned.Ensure.{
  Kind, create_object, create_missing, update_object, update_changed, update_object_if_needed,
  on_current, ensure_object,
}
use sesame_operator.Owned.Tables.{Table, put_some, Part, over, IsStore, KeepsKey}
use sesame_operator.Owned.Runs.{
  Runs, Leaves, wrapping-Runs, bind-Runs, pure-Runs, read-Runs, create-Runs, update-Runs,
  when_some-Runs,
}

abbrev pub or_else : {K : Type 0} → K → Option K → K
or_else current none = current
or_else current (some updated) = updated

module _ {C K : Type 0} (k : Kind C K) (s : Sesame) (desired : K) where
  -- The object that is written where there is one already, if any is.
  abbrev pub rewritten : K → Option K
  rewritten current =
      if exist (k.labels_of current) (owner_labels s) then k.changed current desired else none

  -- What is there afterwards.
  abbrev pub ensured : Option K → K
  ensured none = desired
  ensured (some current) = or_else current (rewritten current)

  -- What is written.
  abbrev pub written : Option K → Option K
  written none = some desired
  written (some current) = rewritten current

module _ {C K : Type 0} (k : Kind C K) (key : K → String × String) (s : Sesame) (desired : K) where
  -- The table with what is written.
  abbrev pub with_written : Table K → Table K
  with_written t = put_some key (written k s desired (t (key desired).0 (key desired).1)) t

module _ {C W K : Type 0} (k : Kind C K) (key : K → String × String) (view : C → W)
    (part : Part W K) (store : IsStore k.access key view part) (s : Sesame) (desired : K) where
  -- The current object of the name of `desired`.
  abbrev found_in : W → Option K
  found_in w = part.table w (key desired).0 (key desired).1

  pub over-written :
      (w : W) (o : Option K)
      → found_in w ≡ o
      → over part (with_written k key s desired) w
        ≡ over part (put_some key (written k s desired o)) w
  over-written w o found = ap (λ x. over part (put_some key (written k s desired x)) w) found

  module _ (keeps : KeepsKey key k.changed) where
    rewritten-key :
        (current updated : K)
        → key current ≡ key desired
        → rewritten k s desired current ≡ some updated
        → key updated ≡ key desired
    rewritten-key current updated same h =
        elim (Bool-cases (exist (k.labels_of current) (owner_labels s))) [
          | inl owned ↦ keeps current desired updated (rw owned at h) same
          | inr foreign ↦ cc (rw foreign at h)
        ]

    or_else-key :
        (current : K) (o : Option K)
        → key current ≡ key desired
        → ((u : K) → o ≡ some u → key u ≡ key desired)
        → key (or_else current o) ≡ key desired
    or_else-key current none same named = same
    or_else-key current (some u) same named = named u refl

    pub found-key :
        (current : K) (c : C) (w : W)
        → view c ≡ w
        → found_in w ≡ some current
        → key current ≡ key desired
    found-key current c w seen found =
        store.erasable.keyed (key desired).0 (key desired).1 c current (rw seen found)

    ensured_key :
        (o : Option K) (c : C) → found_in (view c) ≡ o → key (ensured k s desired o) ≡ key desired
    ensured_key none c e = refl
    ensured_key (some current) c e =
        let same = found-key current c (view c) refl e in
        or_else-key current (rewritten k s desired current) same
          (λ u h. rewritten-key current u same h)

    -- The object that is there afterwards has the name of the desired one.
    pub ensured-key :
        (c : C) (w : W) → view c ≡ w → key (ensured k s desired (found_in w)) ≡ key desired
    ensured-key c w seen = rw (sym seen) (ensured_key (found_in (view c)) c refl)

    changed-Runs :
        (current : K) (o : Option K) (c : C) (w : W)
        → view c ≡ w
        → found_in w ≡ some current
        → ((u : K) → o ≡ some u → key u ≡ key desired)
        → Runs view
            (update_changed k current o)
            c
            (λ r. r ≡ or_else current o)
            (over part (put_some key o) w)
    unfolding update_changed update_object
    changed-Runs current none c w seen found named =
        pure-Runs view current c _ refl (rw (part.unchanged w) seen)
    changed-Runs current (some u) c w seen found named =
        bind-Runs view _ _ c _ _ (update-Runs store _ u current c w seen (rw (named u refl) found))
          (λ _ c' _ after. pure-Runs view u c' _ refl after)

    -- The update of an object that is in the table.
    pub update_object_if_needed-Runs :
        (current : K) (c : C) (w : W)
        → view c ≡ w
        → found_in w ≡ some current
        → Runs view
            (update_object_if_needed k s current desired)
            c
            (λ r. r ≡ or_else current (rewritten k s desired current))
            (over part (with_written k key s desired) w)
    unfolding update_object_if_needed pure
    update_object_if_needed-Runs current c w seen found =
        let same = found-key current c w seen found in
        elim (Bool-cases (exist (k.labels_of current) (owner_labels s))) [
          | inl owned ↦
              rw (over-written w _ found, owned)
                (changed-Runs current (k.changed current desired) c w seen found
                  (λ u h. keeps current desired u h same))
          | inr foreign ↦
              rw (over-written w _ found, foreign, part.unchanged w) (current, refl, refl, seen)
        ]

    -- An update that returns nothing, of an object that is in the table.
    pub if_owned-Runs :
        (f : K → ClientError → Err) (current : K) (c : C) (w : W)
        → view c ≡ w
        → found_in w ≡ some current
        → Leaves view
            (if exist (k.labels_of current) (owner_labels s)
              then when_some (λ u. attempt (f u) (k.access.update u)) (k.changed current desired)
              else pure tt)
            c
            (over part (with_written k key s desired) w)
    if_owned-Runs f current c w seen found =
        let same = found-key current c w seen found in
        elim (Bool-cases (exist (k.labels_of current) (owner_labels s))) [
          | inl owned ↦
              rw (over-written w _ found, owned)
                (when_some-Runs store _ _ f (k.changed current desired) current c w seen found
                  (λ u h. keeps current desired u h same))
          | inr foreign ↦
              rw (over-written w _ found, foreign, part.unchanged w) (pure-Runs view tt c w tt seen)
        ]

  -- The first part of a function `Ensure…`.
  pub on_current-Runs :
      {A : Type 0} {Q : A → Type 0} (present : K → Exec C A) (missing : Exec C A) (c : C) (w w' : W)
      → view c ≡ w
      → ((c' : C) → found_in w ≡ none → view c' ≡ w → Runs view missing c' Q w')
      → ((current : K) (c' : C)
          → found_in w ≡ some current
          → view c' ≡ w
          → Runs view (present current) c' Q w')
      → Runs view
          (on_current k (k.access.get (key desired).0 (key desired).1) desired present missing)
          c
          Q
          w'
  unfolding on_current
  on_current-Runs present missing c w w' seen none_yet one =
      read-Runs store.erasable _ _ present _ c w w' seen
        (λ e c' gone h after. rw gone (none_yet c' h after)) one

  -- A creation of an object that is not in the table.
  pub create_missing-Runs :
      (f : ClientError → Err) (c : C) (w : W)
      → view c ≡ w
      → found_in w ≡ none
      → Leaves view
          (attempt f (k.access.create desired))
          c
          (over part (with_written k key s desired) w)
  create_missing-Runs f c w seen missing =
      rw (over-written w _ missing) (create-Runs store f desired c w seen missing)

  pub create_object-Runs :
      (c : C) (w : W)
      → view c ≡ w
      → found_in w ≡ none
      → Leaves view (create_object k desired) c (over part (with_written k key s desired) w)
  unfolding create_object
  create_object-Runs c w seen missing = create_missing-Runs _ c w seen missing

  module _ (keeps : KeepsKey key k.changed) where
    -- On a store, `Ensure…` returns without an error the object that is there afterwards: the desired
    -- one where there was none, what the comparison answers with where it carries the owner labels
    -- and differs, and else the current one; and this object is all that it writes.
    pub ensure_object-Runs :
        (c : C) (w : W)
        → view c ≡ w
        → Runs view
            (ensure_object k s (k.access.get (key desired).0 (key desired).1) desired)
            c
            (λ r. r ≡ ensured k s desired (found_in w))
            (over part (with_written k key s desired) w)
    unfolding ensure_object create_missing
    ensure_object-Runs c w seen =
        on_current-Runs _ _ c w _ seen
          (λ c' missing after.
            bind-Runs view _ _ c' _ _
              (wrapping-Runs view _ _ c' _ (create_object-Runs c' w after missing))
              (λ _ c'' _ end. pure-Runs view desired c'' _ (rw missing refl) end))
          (λ current c' found after.
            wrapping-Runs view _ _ c' _
              (rw found (update_object_if_needed-Runs keeps current c' w after found)))
