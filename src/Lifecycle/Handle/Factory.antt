-- ===== src/Lifecycle/Handle/Factory.antt =====
-- `_AgentRunFactory` of inkfoot/_run_lifecycle.py as a context manager. It keeps one handle, that of the block
-- entered last.
use ink_foot.Prelude.{String, Option, none, some}
use ink_foot.Value.{Value, Fields}
use ink_foot.Lifecycle.{Process, Stamp, Signal, returned}
use ink_foot.Lifecycle.Handle.{Handle, new_handle, start, exit_handle}

pub record Factory (F : Type 0) : Type 0 where
  pub task : Option String
  pub metadata : Fields F
  pub handle : Option (Handle F)

module _ {F : Type 0} (dumps : Value F → String) where
  -- `__enter__`
  unfoldable pub factory_enter :
      Stamp → String → Factory F → Process F → Factory F × (Process F × Signal)
  unfolding start
  factory_enter stamp ulid fac p =
      let (h, result) = start dumps stamp ulid (new_handle fac.task fac.metadata) p in
      (record fac { handle = some h }, result)

  -- The handle is dropped unless its `__exit__` raises.
  abbrev pub dropped_handle :
      Factory F → Handle F × (Process F × Signal) → Factory F × (Process F × Signal)
  dropped_handle fac (h, (p, returned)) = (record fac { handle = none }, (p, returned))
  dropped_handle fac (h, (p, signal)) = (record fac { handle = some h }, (p, signal))

  -- `__exit__`; `none` is its failing `assert`.
  unfoldable pub factory_exit :
      Stamp → Option String → Factory F → Process F → Option (Factory F × (Process F × Signal))
  unfolding exit_handle
  factory_exit stamp message fac p = elim fac.handle [
    | none ↦ none
    | some h ↦ some (dropped_handle fac (exit_handle dumps stamp message h p))
  ]
