-- ===== src/Worker/Surface.antt =====
-- inspectio/scheduler_surface.py: the three functions of the scheduler, over the runtime that the worker
-- has configured. `loop_runs` says whether the caller is inside a running event loop.
use nitzan_shinnies_inspecti.Prelude.{
  Bool, true, false, Option, none, some, List, [], ◌∷◌, ◌++◌, if◌then◌else◌,
}
use nitzan_shinnies_inspecti.Prelude.Result.{Done, runtime_error, Result, ok, err}
use nitzan_shinnies_inspecti.Models.{Message}
use nitzan_shinnies_inspecti.Worker.Runtime.{World, Runtime, async_send}

-- The configured runtime, and the tasks that wait for the loop.
pub data Task : Type 0 where
  dispatch : Message → Task
  wake : Task

pub record Surface : Type 0 where
  pub runtime : Option Runtime
  pub tasks : List Task

unfoldable pub configure_runtime : Runtime → Surface → Surface
configure_runtime rt s = record s { runtime = some rt }

unfoldable pub require_runtime : Surface → Result Runtime
require_runtime s = elim s.runtime [ none ↦ err runtime_error | some rt ↦ ok rt ]

-- dispatch_new_message
unfoldable pub dispatch_new_message : World → Message → Runtime → Done × Runtime
dispatch_new_message world message rt =
    let (r, rt') = async_send world message rt in
    elim r [ ok sent ↦ (ok tt, rt') | err e ↦ (err e, rt') ]

abbrev after_send : Surface → Result Bool × Runtime → Result Bool × Surface
after_send s (r, rt) = (r, record s { runtime = some rt })

-- A call inside a running loop is refused before anything is sent.
unfoldable pub send : World → Bool → Message → Surface → Result Bool × Surface
send world loop_runs message s = elim (require_runtime s) [
  | err e ↦ (err e, s)
  | ok rt ↦ elim loop_runs [
    | true ↦ (err runtime_error, s)
    | false ↦ after_send s (async_send world message rt)
  ]
]

-- `create_task` needs a running loop; its argument is evaluated first, and asks for the runtime.
abbrev create_task : Bool → Task → Surface → Done × Surface
create_task loop_runs task s =
    if loop_runs
    then elim (require_runtime s) [
      | err e ↦ (err e, s)
      | ok rt ↦ (ok tt, record s { tasks = s.tasks ++ task ∷ [] })
    ]
    else (err runtime_error, s)

unfoldable pub new_message : Bool → Message → Surface → Done × Surface
new_message loop_runs message = create_task loop_runs (dispatch message)

unfoldable pub wakeup : Bool → Surface → Done × Surface
wakeup loop_runs = create_task loop_runs wake
