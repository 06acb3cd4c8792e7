-- ===== src/Lifecycle/Handle/Program.antt =====
-- What runs in a context under inkfoot/_run_lifecycle.py: marks on the active run and `with` blocks, each
-- with what its ULIDs and the clock give.
use ink_foot.Prelude.{ℕ, String, Option, none, some}
use ink_foot.Float.{Float}
use ink_foot.Value.{Value, Fields}
use ink_foot.Storage.{Store, Event}
use ink_foot.Contracts.Enforcer.{ContractViolation}
use ink_foot.Lifecycle.{Process, Stamp, Signal, returned, user_error}
use ink_foot.Lifecycle.Marks.{tag, checkpoint, tag_node, tag_retrieval, set_outcome}
use ink_foot.Lifecycle.Handle.{Handle, new_handle, start, exit_handle}

pub data Mark (F : Type 0) : Type 0 where
  outcome : Stamp → String → Option F → Mark F
  tagged : Stamp → String → Value F → Mark F
  node : Option String → Mark F
  checkpointed : Stamp → String → Mark F
  retrieved : String → Mark F

-- The block of a `with` carries its body, the stamps of its first and last event, its new run id and the
-- text of an exception of the body; `raising` is an exception of the user's code.
pub data Program (F : Type 0) : Type 0 where
  done : Program F
  raising : Program F
  marking : Mark F → Program F → Program F
  within :
      Option String → Fields F → String → Stamp → Stamp → String → Program F → Program F → Program F

-- What the code around the model computes.
pub record Outside (F : Type 0) : Type 0 where
  pub loads : String → Option (Value F)
  pub dumps : Value F → String
  pub event_of : String → ContractViolation F → Store → Event
  pub strip : String → String
  pub encode : String → ℕ

-- `__exit__` swallows no exception, and its own takes the place of one.
abbrev pub after_exit : Signal → Signal → Signal
after_exit signal returned = signal
after_exit signal raised = raised

abbrev pub left : {F : Type 0} → Signal → Process F × Signal → Process F × Signal
left signal (p, exit) = (p, after_exit signal exit)

-- The exception that reaches `__exit__`, if any.
abbrev pub message_of : String → Signal → Option String
message_of txt returned = none
message_of txt signal = some txt

module _ (f : Float) (o : Outside (f.F)) where
  open f use {F}

  unfoldable pub mark : Mark F → Process F → Process F × Signal
  unfolding set_outcome tag tag_node checkpoint tag_retrieval
  mark (outcome stamp name score) p = set_outcome f o.loads o.event_of o.dumps stamp name score p
  mark (tagged stamp key value) p = tag o.dumps stamp key value p
  mark (node name) p = tag_node name p
  mark (checkpointed stamp label) p = checkpoint o.dumps o.strip stamp label p
  mark (retrieved txt) p = tag_retrieval o.encode txt p

  abbrev pub block_end : Stamp → String → Handle F → Process F × Signal → Process F × Signal
  block_end stamp txt h (p, signal) =
      left signal (exit_handle o.dumps stamp (message_of txt signal) h p).1

  abbrev pub block :
      Stamp
      → String
      → (Process F → Process F × Signal)
      → Handle F × (Process F × Signal)
      → Process F × Signal
  block stamp txt body (h, (p, returned)) = block_end stamp txt h (body p)
  block stamp txt body (h, (p, signal)) = (p, signal)

  abbrev pub and_then : (Process F → Process F × Signal) → Process F × Signal → Process F × Signal
  and_then next (p, returned) = next p
  and_then next (p, signal) = (p, signal)

  unfoldable pub exec : Program F → Process F → Process F × Signal
  unfolding mark start exit_handle
  exec done p = (p, returned)
  exec raising p = (p, user_error)
  exec (marking m rest) p = and_then (exec rest) (mark m p)
  exec (within task metadata ulid first last txt body rest) p =
      and_then (exec rest)
        (block last txt (exec body) (start o.dumps first ulid (new_handle task metadata) p))
