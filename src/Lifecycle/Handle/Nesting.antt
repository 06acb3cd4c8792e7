-- ===== src/Lifecycle/Handle/Nesting.antt =====
-- A `with` block of inkfoot/_run_lifecycle.py restores the run that was current before it.
use ink_foot.Prelude.{String, ◌≡◌, ◌≢◌, false, Option, some, arith}
use ink_foot.Float.{Float}
use ink_foot.Value.{Value, Fields}
use ink_foot.Contracts.Runtime.{Runtime}
use ink_foot.Lifecycle.{Process, Stamp, Signal, returned, storage_error, emit_event}
use ink_foot.Lifecycle.Handle.{Handle, new_handle}
use ink_foot.Lifecycle.Handle.Program.{Program}

module _ {F : Type 0} where
  emit_event-current_run :
      (dumps : Value F → String) (stamp : Stamp) (run_id kind : String) (payload : Value F)
      (p : Process F)
      → (emit_event dumps stamp run_id kind payload p).0.current_run ≡ p.current_run
  unfolding emit_event
  emit_event-current_run dumps stamp run_id kind payload p = ground arith

  -- A handle whose run was started over the run `prior`, or what the storage raised instead.
  abbrev Opened : Option String → Handle F × (Process F × Signal) → Type 0
  Opened prior (h, (p, returned)) =
      (r : String) × (h.run_id ≡ some r) × (h.token ≡ some prior) × (h.ended ≡ false)
  Opened prior (h, (p, signal)) = signal ≡ storage_error

  abbrev opened_by : Option String → Fields F → String → Option String → Handle F
  opened_by task metadata ulid prior = record (new_handle task metadata) {
    run_id = some ulid;
    token = some prior;
  }

  -- What is left of an operation that the storage did not refuse.
  abbrev Restored : Option String → Process F × Signal → Type 0
  Restored prior (p, signal) = signal ≢ storage_error → p.current_run ≡ prior
