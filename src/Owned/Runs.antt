-- ===== src/Owned/Runs.antt =====
-- What a program returns on a cluster that works as a store, and what it makes of the tables.
use sesame_operator.Prelude.{String, true, Option, none, some, ◌≡◌, refl, sym, ◌∙◌}
use sesame_operator.Errors.{Err, ClientError, ok}
use sesame_operator.Cluster.{
  Answer, answer, failed, Access, Exec, continue, pure, call, attempt, ◌>>=◌, on_answer, wrapping,
  when_some,
}
use sesame_operator.Owned.{ignoring_not_found}
use sesame_operator.Owned.Tables.{Part, IsErasable, IsStore, Reads, over, put_at, put_some, erase}

module _ {C W : Type 0} (view : C → W) where
  -- Run from `c`, the program returns a value with `Q`, and leaves the tables `w`.
  abbrev pub Runs : {A : Type 0} → Exec C A → C → (A → Type 0) → W → Type 0
  Runs {A} m c Q w = (a : A) × ((m c).0 ≡ ok a) × Q a × (view (m c).1 ≡ w)

  -- Run from `c`, the program returns no error, and leaves the tables `w`.
  abbrev pub Leaves : Exec C Unit → C → W → Type 0
  Leaves m c w = Runs m c (λ _. Unit {0}) w

  pub wrapping-Runs :
      {A : Type 0} {Q : A → Type 0} (f : Err → Err) (m : Exec C A) (c : C) (w : W)
      → Runs m c Q w
      → Runs (wrapping f m) c Q w
  unfolding wrapping
  wrapping-Runs f m c w (a, h, q, seen) = (a, rw h refl, q, seen)

  pub bind-Runs :
      {A B : Type 0} {Q : A → Type 0} {R : B → Type 0} (first : Exec C A) (next : A → Exec C B)
      (c : C) (w w' : W)
      → Runs first c Q w
      → ((a : A) (c' : C) → Q a → view c' ≡ w → Runs (next a) c' R w')
      → Runs (first >>= next) c R w'
  unfolding ◌>>=◌ continue
  bind-Runs first next c w w' (a, h, q, seen) rest = rw h (rest a (first c).1 q seen)

  pub pure-Runs :
      {A : Type 0} {Q : A → Type 0} (a : A) (c : C) (w : W) → Q a → view c ≡ w → Runs (pure a) c Q w
  unfolding pure
  pure-Runs a c w q seen = (a, refl, q, seen)

module _ {C W K : Type 0} {objects : Access C K} {key : K → String × String} {view : C → W}
    {part : Part W K} (store : IsErasable objects key view part) where
  after_answer :
      {A : Type 0} {Q : A → Type 0} (present : K → Exec C A) (absent : ClientError → Exec C A)
      (o : Option K) (a : Answer K) (c : C) (w : W)
      → Reads o a
      → ((e : ClientError) → e.is_not_found ≡ true → o ≡ none → Runs view (absent e) c Q w)
      → ((current : K) → o ≡ some current → Runs view (present current) c Q w)
      → Runs view (on_answer present absent a) c Q w
  unfolding on_answer
  after_answer present absent none (failed e) c w read missing found = missing e read refl
  after_answer present absent none (answer o) c w read missing found = absurd read
  after_answer present absent (some current) (failed e) c w read missing found = absurd read
  after_answer present absent (some current) (answer o) c w read missing found =
      rw read (found current refl)

  -- A read, and what follows it.
  pub read-Runs :
      {A : Type 0} {Q : A → Type 0} (ns name : String) (present : K → Exec C A)
      (absent : ClientError → Exec C A) (c : C) (w w' : W)
      → view c ≡ w
      → ((e : ClientError) (c' : C)
          → e.is_not_found ≡ true
          → part.table w ns name ≡ none
          → view c' ≡ w
          → Runs view (absent e) c' Q w')
      → ((current : K) (c' : C)
          → part.table w ns name ≡ some current
          → view c' ≡ w
          → Runs view (present current) c' Q w')
      → Runs view (call (objects.get ns name) >>= (λ found. on_answer present absent found)) c Q w'
  unfolding ◌>>=◌ call continue
  read-Runs ns name present absent c w w' seen missing found =
      let (read, kept) = store.reads ns name c in
      let after = kept ∙ seen in
      after_answer present absent (part.table w ns name) (objects.get ns name c).0
        (objects.get ns name c).1 w' (rw seen at read)
        (λ e gone h. missing e (objects.get ns name c).1 gone h after)
        (λ current h. found current (objects.get ns name c).1 h after)

  pub delete-Runs :
      (o old : K) (c : C) (w : W)
      → view c ≡ w
      → part.table w (key o).0 (key o).1 ≡ some old
      → Leaves view
          (ignoring_not_found (objects.delete o))
          c
          (over part (erase (key o).0 (key o).1) w)
  unfolding ignoring_not_found ◌>>=◌ call continue on_answer pure
  delete-Runs o old c w seen found =
      let (done, after) = store.deletes o old c (rw seen found) in
      rw done (tt, refl, tt, rw (sym seen) after)

module _ {C W K : Type 0} {objects : Access C K} {key : K → String × String} {view : C → W}
    {part : Part W K} (store : IsStore objects key view part) where
  pub create-Runs :
      (f : ClientError → Err) (o : K) (c : C) (w : W)
      → view c ≡ w
      → part.table w (key o).0 (key o).1 ≡ none
      → Leaves view (attempt f (objects.create o)) c (over part (put_at key o) w)
  unfolding attempt
  create-Runs f o c w seen missing =
      let (done, after) = store.creates o c (rw seen missing) in
      (tt, rw done refl, tt, rw (sym seen) after)

  pub update-Runs :
      (f : ClientError → Err) (o old : K) (c : C) (w : W)
      → view c ≡ w
      → part.table w (key o).0 (key o).1 ≡ some old
      → Leaves view (attempt f (objects.update o)) c (over part (put_at key o) w)
  unfolding attempt
  update-Runs f o old c w seen found =
      let (done, after) = store.updates o old c (rw seen found) in
      (tt, rw done refl, tt, rw (sym seen) after)

  -- The write of what a comparison answered with.
  pub when_some-Runs :
      (ns name : String) (f : K → ClientError → Err) (o : Option K) (old : K) (c : C) (w : W)
      → view c ≡ w
      → part.table w ns name ≡ some old
      → ((u : K) → o ≡ some u → key u ≡ (ns, name))
      → Leaves view
          (when_some (λ u. attempt (f u) (objects.update u)) o)
          c
          (over part (put_some key o) w)
  unfolding when_some
  when_some-Runs ns name f none old c w seen found named =
      rw (part.unchanged w) (pure-Runs view tt c w tt seen)
  when_some-Runs ns name f (some u) old c w seen found named =
      update-Runs (f u) u old c w seen (rw (named u refl) found)
