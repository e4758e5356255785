-- ===== src/Node/Service/Tasks.antt =====
-- The tasks of a started node: node/src/service.rs.
use paseo_node.Base.{
  ◌≡◌, refl, ap, ◌∙◌, Bool, true, false, not, Option, none, some, List, [], ◌∷◌, ◌++◌,
}
use paseo_node.Node.Effect.{Mode, fallible, done, Oracle}
use paseo_node.Node.Effect.Laws.{planned, steps, steps-append}
use paseo_node.Node.Effect.Made.{done_steps}
use paseo_node.Node.Service
use paseo_node.Node.Service.Laws.{
  partial_plan_for, partial_plan, authoring_plan, grandpa_plan, main_plan, plan, new_full-Follows,
}

abbrev pub task_of : Service.Step → Option Service.Task
task_of (Service.spawn task) = some task
task_of _ = none

abbrev prepend : Option Service.Task → List Service.Task → List Service.Task
prepend none tasks = tasks
prepend (some task) tasks = task ∷ tasks

-- The tasks that steps hand to the task manager.
unfoldable pub spawned : List Service.Step → List Service.Task
spawned [] = []
spawned (step ∷ steps) = prepend (task_of step) (spawned steps)

prepend-append :
    (task : Option Service.Task) (xs ys : List Service.Task)
    → prepend task (xs ++ ys) ≡ prepend task xs ++ ys
prepend-append none xs ys = refl
prepend-append (some task) xs ys = refl

pub spawned-append : (xs ys : List Service.Step) → spawned (xs ++ ys) ≡ spawned xs ++ spawned ys
unfolding spawned
spawned-append [] ys = refl
spawned-append (step ∷ xs) ys = rw (spawned-append xs ys, prepend-append (task_of step)) refl

-- The tasks of a block of steps that is run on a condition, before other steps.
pub spawned-planned :
    (test : Bool) (xs ys : List (Mode × Service.Step))
    → spawned (steps (planned test xs ++ ys))
      ≡ planned test (spawned (steps xs)) ++ spawned (steps ys)
unfolding spawned steps
spawned-planned true xs ys = ap spawned (steps-append xs ys) ∙ spawned-append (steps xs) (steps ys)
spawned-planned false xs ys = refl

-- The tasks that a started node is to have.
abbrev pub expected_tasks : Service.Configuration → List Service.Task
expected_tasks config =
    planned (Service.has_endpoints config.telemetry_endpoints) (Service.telemetry_task ∷ [])
    ++ (planned config.offchain_worker_enabled (Service.offchain_task ∷ [])
        ++ (planned config.is_authority (Service.aura_task ∷ [])
            ++ planned (not config.disable_grandpa) (Service.grandpa_task ∷ [])))

spawned-planned_block :
    (test : Bool) (xs : List (Mode × Service.Step))
    → spawned (steps (planned test xs)) ≡ planned test (spawned (steps xs))
unfolding spawned steps
spawned-planned_block true xs = refl
spawned-planned_block false xs = refl

pub partial_tasks :
    (is_authority telemetry : Bool)
    → spawned (steps (partial_plan_for is_authority telemetry))
      ≡ planned telemetry (Service.telemetry_task ∷ [])
unfolding spawned steps
partial_tasks is_authority true = refl
partial_tasks is_authority false = refl

module _ (config : Service.Configuration) where
  abbrev after_offchain : List (Mode × Service.Step)
  after_offchain =
      (fallible, Service.spawn_tasks (Service.has_endpoints config.telemetry_endpoints))
      ∷ (authoring_plan config ++ grandpa_plan config)

  main_tasks :
      spawned (steps (main_plan config))
      ≡ planned config.offchain_worker_enabled (Service.offchain_task ∷ [])
        ++ (planned config.is_authority (Service.aura_task ∷ [])
            ++ planned (not config.disable_grandpa) (Service.grandpa_task ∷ []))
  unfolding spawned steps
  main_tasks =
      spawned-planned config.offchain_worker_enabled _ after_offchain
      ∙ ap (λ r. planned config.offchain_worker_enabled (Service.offchain_task ∷ []) ++ r)
          (spawned-planned config.is_authority _ (grandpa_plan config)
            ∙ ap (λ r. planned config.is_authority (Service.aura_task ∷ []) ++ r)
                (spawned-planned_block (not config.disable_grandpa) _))

  plan_tasks : spawned (steps (plan config)) ≡ expected_tasks config
  plan_tasks =
      ap spawned (steps-append (partial_plan config) (main_plan config))
      ∙ spawned-append (steps (partial_plan config)) (steps (main_plan config))
      ∙ rw
          (
            partial_tasks config.is_authority (Service.has_endpoints config.telemetry_endpoints),
            main_tasks,
          )
          refl

-- A node that is started has the telemetry task when endpoints are given, the offchain workers'
-- task when they are enabled, Aura's when it is an authority and the Grandpa voter's unless
-- Grandpa is disabled, in this order and no other tasks of its own.
pub new_full_tasks :
    {E : Type 0} (config : Service.Configuration) (o : Oracle Service.Step E)
    → (Service.new_full E config o []).0 ≡ done tt
    → spawned (Service.new_full E config o []).1 ≡ expected_tasks config
new_full_tasks config o h =
    ap spawned (done_steps (new_full-Follows config) o h) ∙ plan_tasks config
