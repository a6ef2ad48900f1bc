-- ===== src/Table/Lock.antt =====
-- What `table_init` of table.c calls for the lock of a table, whose attributes all tables share.
use fping.Base.{
  ℕ, zero, suc, ◌≡◌, refl, Bool, true, false, not, if◌then◌else◌, List, [], ◌∷◌, ◌++◌, replicate,
}

-- the calls of `pthread_rwlockattr_init`, `pthread_rwlockattr_setkind_np` and `pthread_rwlock_init`
pub data LockCall : Type 0 where
  attr_init attr_setkind lock_init : LockCall

-- `m_rwlock_attr_initialized` at the start
abbrev pub attr_initialized : Bool
attr_initialized = false

-- the flag and the calls behind a `table_init`; `given` says that the table is not NULL
unfoldable pub init_lock : Bool → Bool → Bool × List LockCall
init_lock given initialized =
    if not given
    then (initialized, [])
    else if initialized
    then (true, lock_init ∷ [])
    else (true, attr_init ∷ attr_setkind ∷ lock_init ∷ [])

-- one `table_init` after the other
unfoldable pub init_locks : List Bool → Bool → List LockCall
unfolding init_lock
init_locks [] initialized = []
init_locks (given ∷ rest) initialized =
    let s = init_lock given initialized in s.1 ++ init_locks rest s.0

abbrev given_count : List Bool → ℕ
given_count [] = 0
given_count (true ∷ rest) = suc (given_count rest)
given_count (false ∷ rest) = given_count rest

-- what initialises the locks of `n` tables
abbrev pub calls_for : ℕ → List LockCall
calls_for zero = []
calls_for (suc n) = attr_init ∷ attr_setkind ∷ lock_init ∷ replicate n lock_init

init_locks-replicate : (gs : List Bool) → init_locks gs true ≡ replicate (given_count gs) lock_init
unfolding init_locks
init_locks-replicate [] = refl
init_locks-replicate (true ∷ gs) = rw (init_locks-replicate gs) refl
init_locks-replicate (false ∷ gs) = init_locks-replicate gs

-- However often `table_init` is called, the shared attributes are set up once, with the first table and
-- before the first lock, and every table has its lock initialised once.
pub init_locks-calls_for :
    (gs : List Bool) → init_locks gs attr_initialized ≡ calls_for (given_count gs)
unfolding init_locks
init_locks-calls_for [] = refl
init_locks-calls_for (true ∷ gs) = rw (init_locks-replicate gs) refl
init_locks-calls_for (false ∷ gs) = init_locks-calls_for gs
