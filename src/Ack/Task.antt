-- ===== src/Ack/Task.antt =====
-- `waitForTask` of src/ack/task.ts: the wait for an asynchronous task of ACK. `lower` is
-- `toLowerCase`.
pub mod Reads
pub mod Ends
use Prim.Native.String.{◌++◌ as ◌<>◌}
use alchemy_alibaba.Prelude.{String, Bool, false, ◌||◌, Option, none, some, str_eq, if◌then◌else◌}
use alchemy_alibaba.Effect.{Effect, succeed, raise, fmap}
use alchemy_alibaba.Effect.Chain.{◌>>=◌}
use alchemy_alibaba.Errors.{Failure, ack}
use alchemy_alibaba.Errors.Pattern.{is_safe_code}
use alchemy_alibaba.Errors.Classify.{SdkCause, get_or}
use alchemy_alibaba.Lifecycle.Identity.{invariant_error}
use alchemy_alibaba.Lifecycle.Observe.{WaitOptions}
use alchemy_alibaba.Lifecycle.Wait.{WaitLabel, wait_for}
use alchemy_alibaba.Provider.{Context, call, widen, unless_missing}

-- The parts of a task that the code reads: its state, and the code of its error.
pub record SdkTask : Type 0 where
  pub state : Option String
  pub error_code : Option String

-- The operation of the ACK client that the wait calls. The answer is the body, if there is one.
pub record AckClients (W : Type 0) : Type 0 where
  pub describe_task_info : String → Effect W SdkCause (Option SdkTask)

-- The options of the wait, less the client.
pub record TaskWait : Type 0 where
  pub operation : String
  pub task_id : Option String
  pub wait : WaitOptions

-- `task?.state?.toLowerCase()`
abbrev pub state_passes : (String → Bool) → (String → String) → Option SdkTask → Bool
state_passes test lower none = false
state_passes test lower (some task) = elim task.state [ none ↦ false | some s ↦ test (lower s) ]

unfoldable pub has_failed : (String → String) → Option SdkTask → Bool
has_failed lower task =
    state_passes (λ s. str_eq s "fail" || str_eq s "failed" || str_eq s "error") lower task

unfoldable pub has_succeeded : (String → String) → Option SdkTask → Bool
has_succeeded lower task = state_passes (λ s. str_eq s "success") lower task

abbrev code_of : Option SdkTask → Option String
code_of none = none
code_of (some task) = task.error_code

-- ` (${code})`, if there is a code that looks like one.
abbrev code_note : Option String → String
code_note none = ""
code_note (some code) = if is_safe_code code then " (" <> code <> ")" else ""

-- The error of a task that failed.
unfoldable pub task_error : String → String → Option SdkTask → Failure
unfolding is_safe_code
task_error operation task_id task =
    invariant_error "Alibaba.ACK.Task" operation
      (task_id <> code_note (code_of task) <> ": ACK asynchronous task failed")

module _ {W : Type 0} (c : Context (AckClients W) W) where
  -- The task as the API shows it, or nothing where the API finds none.
  unfoldable pub describe_task : String → Effect W Failure (Option SdkTask)
  describe_task task_id =
      widen
        (unless_missing none (call c ack "DescribeTaskInfo" (c.clients.describe_task_info task_id)))

  abbrev pub judge :
      (String → String) → String → String → Option SdkTask → Effect W Failure (Option SdkTask)
  judge lower operation task_id task =
      if has_failed lower task then raise (task_error operation task_id task) else succeed task

  -- `read`
  unfoldable pub read_task : (String → String) → String → String → Effect W Failure (Option SdkTask)
  unfolding describe_task has_failed task_error
  read_task lower operation task_id = describe_task task_id >>= judge lower operation task_id

  -- The labels of the wait, which makes twice as many attempts as the others.
  abbrev pub task_label : TaskWait → WaitLabel (Option SdkTask)
  task_label o = record {
    service = ack;
    resource_type = none;
    operation = o.operation;
    describe = none;
    wait = record { attempts = some (get_or o.wait.attempts 240); interval = o.wait.interval };
  }

  -- The wait for a task whose id is known.
  unfoldable pub wait_for_known :
      (String → String) → TaskWait → String → Effect W Failure (Unit {0})
  unfolding read_task has_succeeded
  wait_for_known lower o task_id =
      wait_for c.runtime (task_label o) (has_succeeded lower) (read_task lower o.operation task_id)
      >>= λ task. succeed tt

  -- `waitForTask`
  unfoldable pub wait_for_task : (String → String) → TaskWait → Effect W Failure (Unit {0})
  unfolding wait_for_known
  wait_for_task lower o = elim o.task_id [
    | none ↦ succeed tt
    | some task_id ↦ wait_for_known lower o task_id
  ]
