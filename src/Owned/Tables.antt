-- ===== src/Owned/Tables.antt =====
-- A cluster that works as a store: for each kind of objects a table, on which the calls of the client
-- work.
use sesame_operator.Prelude.{
  Bool, false, ==_refl, fun_ext, String, true, Option, none, some, ◌≡◌, refl, ◌==◌, ◌&&◌,
  if◌then◌else◌,
}
use sesame_operator.Errors.{ClientError}
use sesame_operator.Cluster.{Answer, answer, failed, Access}

-- The objects of a kind by namespace and name.
abbrev pub Table : Type 0 → Type 0
Table K = String → String → Option K

module _ {K : Type 0} where
  abbrev pub put : String → String → K → Table K → Table K
  put ns name o table = λ ns' name'. if ns == ns' && name == name' then some o else table ns' name'

  abbrev pub erase : String → String → Table K → Table K
  erase ns name table = λ ns' name'. if ns == ns' && name == name' then none else table ns' name'

  -- `key` is the namespace and the name of an object.
  abbrev pub put_at : (K → String × String) → K → Table K → Table K
  put_at key o table = put (key o).0 (key o).1 o table

  abbrev pub put_some : (K → String × String) → Option K → Table K → Table K
  put_some key none table = table
  put_some key (some o) table = put_at key o table

-- The answer to a read says what the table has.
abbrev pub Reads : {K : Type 0} → Option K → Answer K → Type 0
Reads none (failed e) = e.is_not_found ≡ true
Reads none (answer o) = ⊥
Reads (some o) (answer o') = o' ≡ o
Reads (some o) (failed e) = ⊥

-- The table of one kind as a part of the tables of all kinds.
pub record Part (W K : Type 0) : Type 0 where
  pub table : W → Table K
  pub set : Table K → W → W
  pub unchanged : (w : W) → set (table w) w ≡ w

-- The tables, with another one of this kind.
abbrev pub over : {W K : Type 0} → Part W K → (Table K → Table K) → W → W
over part f w = part.set (f (part.table w)) w

-- The reads and deletions of a kind of objects work on its table among those that `view` shows, and on
-- nothing else of them.
pub record IsErasable {C W K : Type 0} (objects : Access C K) (key : K → String × String)
    (view : C → W) (part : Part W K) : Type 0 where
  pub reads :
      (ns name : String) (c : C)
      → Reads (part.table (view c) ns name) (objects.get ns name c).0
        × (view (objects.get ns name c).1 ≡ view c)
  pub deletes :
      (o old : K) (c : C)
      → part.table (view c) (key o).0 (key o).1 ≡ some old
      → ((objects.delete o c).0 ≡ answer tt)
        × (view (objects.delete o c).1 ≡ over part (erase (key o).0 (key o).1) (view c))
  pub keyed :
      (ns name : String) (c : C) (o : K) → part.table (view c) ns name ≡ some o → key o ≡ (ns, name)

-- So do the writes, and each object is kept as it was written.
pub record IsStore {C W K : Type 0} (objects : Access C K) (key : K → String × String)
    (view : C → W) (part : Part W K) : Type 0 where
  pub erasable : IsErasable objects key view part
  pub creates :
      (o : K) (c : C)
      → part.table (view c) (key o).0 (key o).1 ≡ none
      → ((objects.create o c).0 ≡ answer tt)
        × (view (objects.create o c).1 ≡ over part (put_at key o) (view c))
  pub updates :
      (o old : K) (c : C)
      → part.table (view c) (key o).0 (key o).1 ≡ some old
      → ((objects.update o c).0 ≡ answer tt)
        × (view (objects.update o c).1 ≡ over part (put_at key o) (view c))

-- A kind of objects outside the tables: an object that is not found can be created, and one that is
-- found can be updated. Nothing is said of what is kept of it.
pub record IsAnswering {C W K : Type 0} (objects : Access C K) (key : K → String × String)
    (view : C → W) : Type 0 where
  pub reads : (ns name : String) (c : C) → view (objects.get ns name c).1 ≡ view c
  pub missing :
      (ns name : String) (c : C) (e : ClientError)
      → (objects.get ns name c).0 ≡ failed e
      → e.is_not_found ≡ true
  pub creates :
      (o : K) (c : C) (e : ClientError)
      → (objects.get (key o).0 (key o).1 c).0 ≡ failed e
      → ((objects.create o (objects.get (key o).0 (key o).1 c).1).0 ≡ answer tt)
        × (view (objects.create o (objects.get (key o).0 (key o).1 c).1).1 ≡ view c)
  pub updates :
      (o old : K) (c : C)
      → (objects.get (key o).0 (key o).1 c).0 ≡ answer old
      → ((objects.update o (objects.get (key o).0 (key o).1 c).1).0 ≡ answer tt)
        × (view (objects.update o (objects.get (key o).0 (key o).1 c).1).1 ≡ view c)

-- A comparison of two objects of one name answers with an object of that name.
abbrev pub KeepsKey : {K : Type 0} → (K → String × String) → (K → K → Option K) → Type 0
KeepsKey {K} key changed =
    (current desired updated : K)
    → changed current desired ≡ some updated
    → key current ≡ key desired
    → key updated ≡ key desired

module _ {K : Type 0} (key : K → String × String) (ns name other : String) where
  -- A write under another name of the namespace leaves what is found under a name.
  pub put_elsewhere :
      (o : Option K) (t : Table K)
      → ((u : K) → o ≡ some u → key u ≡ (ns, other))
      → (other == name) ≡ false
      → put_some key o t ns name ≡ t ns name
  put_elsewhere none t named apart = refl
  put_elsewhere (some u) t named apart = rw (named u refl, ==_refl ns, apart) refl

-- What is written is found.
pub put_here :
    {K : Type 0} (key : K → String × String) (ns name : String) (u : K) (t : Table K)
    → key u ≡ (ns, name)
    → put_some key (some u) t ns name ≡ some u
put_here key ns name u t named = rw (named, ==_refl ns, ==_refl name) refl

pub erase_here : {K : Type 0} (ns name : String) (t : Table K) → erase ns name t ns name ≡ none
erase_here ns name t = rw (==_refl ns, ==_refl name) refl

put_over :
    {K : Type 0} (test : Bool) (o : K) (old : Option K)
    → (if test then some o else if test then none else old) ≡ (if test then some o else old)
put_over true o old = refl
put_over false o old = refl

-- A write after a deletion of the same name.
pub put-erase :
    {K : Type 0} (ns name : String) (o : K) (t : Table K)
    → put ns name o (erase ns name t) ≡ put ns name o t
put-erase ns name o t =
    fun_ext (λ ns'. fun_ext (λ name'. put_over (ns == ns' && name == name') o (t ns' name')))
