-- ===== src/Datastore/Db.antt =====
-- The database behind the interface of store/store.go, as store/dbstore.go implements it over LMDB:
-- the keys of datastore/dbkeys.go, reads and writes that may fail, and atomic transactions.
use mender.Prelude.{ℕ, ◌+◌, String, Option, none, some, Error, not_exist, other, Result, ok, err}

pub data Key : Type 0 where
  artifact_name artifact_group artifact_type_info_provides auth_token : Key
  standalone_state state_data state_data_uncommitted : Key

-- `B` is the type of the stored byte strings.
pub record Db (B : Type 0) : Type 0 where
  pub name_entry : Option B
  pub group_entry : Option B
  pub provides_entry : Option B
  pub token_entry : Option B
  pub standalone_entry : Option B
  pub state_entry : Option B
  pub uncommitted_entry : Option B

-- `ops` counts the operations that the database was asked for.
pub record Store (B : Type 0) : Type 0 where
  pub db : Db B
  pub ops : ℕ

-- The fault, if any, that LMDB answers to each operation with. It is never one of the sentinel
-- errors that the client compares with.
abbrev pub Faults : Type 0
Faults = ℕ → Option String

-- A running transaction: the variables that its closure captures, and the database as it sees it.
pub record Run (L B : Type 0) : Type 0 where
  pub vars : L
  pub store : Store B

abbrev pub Txn : Type 0 → Type 0 → Type 0 → Type 0
Txn L B A = Run L B → Result A × Run L B

module _ {B : Type 0} where
  abbrev pub get : Db B → Key → Option B
  get d Key.artifact_name = d.name_entry
  get d Key.artifact_group = d.group_entry
  get d Key.artifact_type_info_provides = d.provides_entry
  get d Key.auth_token = d.token_entry
  get d Key.standalone_state = d.standalone_entry
  get d Key.state_data = d.state_entry
  get d Key.state_data_uncommitted = d.uncommitted_entry

  abbrev pub put : Db B → Key → Option B → Db B
  put d Key.artifact_name v = record d { name_entry = v }
  put d Key.artifact_group v = record d { group_entry = v }
  put d Key.artifact_type_info_provides v = record d { provides_entry = v }
  put d Key.auth_token v = record d { token_entry = v }
  put d Key.standalone_state v = record d { standalone_entry = v }
  put d Key.state_data v = record d { state_entry = v }
  put d Key.state_data_uncommitted v = record d { uncommitted_entry = v }

  abbrev pub spend : Store B → Store B
  spend s = record s { ops = s.ops + 1 }

  abbrev pub found : Option B → Result B
  found none = err not_exist
  found (some b) = ok b

  -- (*DBStore).ReadAll
  unfoldable pub read_store : Faults → Key → Store B → Result B × Store B
  read_store faults k s = elim (faults s.ops) [
    | some e ↦ (err (other e), spend s)
    | none ↦ (found (get s.db k), spend s)
  ]

  -- (*DBStore).WriteAll and (*DBStore).Remove, each a transaction of its own; nil is `none`.
  unfoldable pub put_store : Faults → Key → Option B → Store B → Option Error × Store B
  put_store faults k v s = elim (faults s.ops) [
    | some e ↦ (some (other e), spend s)
    | none ↦ (none, spend (record s { db = put s.db k v }))
  ]

module _ {L B A : Type 0} where
  unfoldable pub pure : A → Txn L B A
  pure a r = (ok a, r)

  unfoldable pub throw : Error → Txn L B A
  throw e r = (err e, r)

  -- A call whose error is looked at by the caller.
  unfoldable pub try : Txn L B A → Txn L B (Result A)
  try m r = let (a, r') = m r in (ok a, r')

  unfoldable pub lift : Result A → Txn L B A
  lift a r = (a, r)

module _ {L B A C : Type 0} where
  abbrev pub continue : Result A → (A → Txn L B C) → Txn L B C
  continue (ok a) f r = f a r
  continue (err e) f r = (err e, r)

  infixl 5 ◌>>=◌
  abbrev pub ◌>>=◌ : Txn L B A → (A → Txn L B C) → Txn L B C
  ◌>>=◌ m f r = continue (m r).0 f (m r).1

module _ {L B A : Type 0} where
  infixl 5 ◌>>◌
  abbrev pub ◌>>◌ : Txn L B (Unit {0}) → Txn L B A → Txn L B A
  m >> n = m >>= λ _. n

module _ {L B : Type 0} where
  unfoldable pub set_vars : L → Txn L B (Unit {0})
  set_vars l r = (ok tt, record r { vars = l })

  -- The methods of dbTransaction. Removing a missing key is no error.
  unfoldable pub read_all : Faults → Key → Txn L B B
  unfolding read_store
  read_all faults k r = let (b, s) = read_store faults k r.store in (b, record r { store = s })

  put_entry : Faults → Key → Option B → Txn L B (Unit {0})
  put_entry faults k v r = elim (faults r.store.ops) [
    | some e ↦ (err (other e), record r { store = spend r.store })
    | none ↦ (ok tt, record r { store = spend (record r.store { db = put r.store.db k v }) })
  ]

  unfoldable pub write_all : Faults → Key → B → Txn L B (Unit {0})
  unfolding put_entry
  write_all faults k b = put_entry faults k (some b)

  unfoldable pub remove : Faults → Key → Txn L B (Unit {0})
  unfolding put_entry
  remove faults k = put_entry faults k none

  -- The end of env.Update: an error of the closure aborts, and so does a failing commit.
  finish : Faults → Db B → Result (Unit {0}) → Run L B → Option Error × Run L B
  finish faults before (err e) r = (some e, record r { store = record r.store { db = before } })
  finish faults before (ok _) r = elim (faults r.store.ops) [
    | some e ↦ (some (other e), record r { store = record (spend r.store) { db = before } })
    | none ↦ (none, record r { store = spend r.store })
  ]

  -- (*DBStore).WriteTransaction
  unfoldable pub write_transaction :
      Faults → L → Txn L B (Unit {0}) → Store B → Option Error × Run L B
  unfolding finish
  write_transaction faults vars body s = elim (faults s.ops) [
    | some e ↦ (some (other e), record { vars = vars; store = spend s })
    | none ↦ let (a, r) = body (record { vars = vars; store = spend s }) in finish faults s.db a r
  ]
