-- ===== src/Consumer/Main.antt =====
-- src/consumer/__main__.py, over the consumers of the process and the event loop.
pub mod Laws
pub mod Failing
pub mod Fleet
pub mod Balance
use message_deduplication_id.Prelude.{ℕ, List, [], ◌∷◌, map, String}
use message_deduplication_id.Prelude.Exec.{
  Exn, base_exception, Exec, Result, ok, pure, raise, ◌>>=◌, ◌>>◌,
}
use message_deduplication_id.Consumer.Lifecycle.{BaseConsumer}

-- A task when `asyncio.wait` returns: not done, or done, with its exception.
pub data Task : Type 0 where
  pending returned cancelled : Task
  crashed : Exn → Task

-- The event loop, over the state of the process. `wait` runs the tasks until one of them is done or
-- a signal asks for a stop; `cancel_all` cancels them and gathers them, and takes no exception.
pub record EventLoop (W : Type 0) : Type 0 where
  pub wait : List (Exec W Unit) → W → List Task × W
  pub cancel_all : List (Exec W Unit) → W → W

-- The loop over `run_tasks`, which need not be done. `exception()` of a cancelled task raises.
unfoldable pub exit_code : {W : Type 0} → List Task → ℕ → Exec W ℕ
exit_code [] n = pure n
exit_code (pending ∷ tasks) n = exit_code tasks n
exit_code (returned ∷ tasks) n = exit_code tasks n
exit_code (cancelled ∷ tasks) n = raise (base_exception "CancelledError" "")
exit_code (crashed e ∷ tasks) n = exit_code tasks 1

abbrev pub metrics_port : ℕ
metrics_port = 9090

module _ {W I : Type 0} (consumer : I → BaseConsumer W) where
  unfoldable pub start_all : List I → Exec W Unit
  start_all [] = pure tt
  start_all (i ∷ is) = (consumer i).start >> start_all is

  unfoldable pub stop_all : List I → Exec W Unit
  stop_all [] = pure tt
  stop_all (i ∷ is) = (consumer i).stop >> stop_all is

  abbrev pub run_tasks : List I → List (Exec W Unit)
  run_tasks is = map (λ i. (consumer i).run) is

  unfoldable pub shut_down : EventLoop W → List I → Exec W Unit
  shut_down loop is w = stop_all is (loop.cancel_all (run_tasks is) w)

  unfoldable pub main : EventLoop W → List I → Exec W ℕ
  main loop is = do
    start_all is
    tasks ← λ w. let (tasks, w') = loop.wait (run_tasks is) w in (ok tasks, w')
    code ← exit_code tasks 0
    shut_down loop is
    pure code

  -- `if __name__ == "__main__"`: the process ends with this code. `setup_logging` is the function of
  -- src/logging_config.py, and `start_http_server` the one of the Prometheus client.
  pub program :
      (setup_logging : Exec W Unit) (start_http_server : ℕ → Exec W Unit)
      → EventLoop W
      → List I
      → Exec W ℕ
  program setup_logging start_http_server loop is = do
    setup_logging
    start_http_server metrics_port
    main loop is
