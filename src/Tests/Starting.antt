-- ===== src/Tests/Starting.antt =====
-- The process of the three handlers, and the theorems on it at concrete inputs.
use message_deduplication_id.Prelude.{
  ℕ, ◌+◌, ◌≡◌, refl, true, false, String, some, [], ◌∷◌, All, arith, string_discrete,
}
use message_deduplication_id.Prelude.Exec.{Exn, exception, Exec, ok, raised, pure, raise}
use message_deduplication_id.Dedup.{Value}
use message_deduplication_id.Consumer.Handlers.{Handler, orders, payments, shipments, dlq_topic}
use message_deduplication_id.Settings.{Settings, default_settings}
use message_deduplication_id.Consumer.Lifecycle.{Clients, start, stop}
use message_deduplication_id.Consumer.Lifecycle.Laws.{Counts}
use message_deduplication_id.Consumer.Main.{
  pending, crashed, EventLoop, main, exit_code, start_all, stop_all, shut_down,
}
use message_deduplication_id.Consumer.Main.Laws.{any_crashed}
use message_deduplication_id.Consumer.Main.Failing.{main_start_raises}
use message_deduplication_id.Consumer.Main.Fleet.{
  Fleet, fleet, handlers, built, running, consumer, consumer-Flags,
}
use message_deduplication_id.Consumer.Main.Balance.{IsQuiet, main_closes}

-- how many clients were opened, and how many closed
abbrev Env : Type 0
Env = ℕ × ℕ

abbrev opens : Exec Env Unit
opens (o, c) = pure tt (o + 1, c)

abbrev closes : Exec Env Unit
closes (o, c) = pure tt (o, c + 1)

abbrev clients : Handler → Clients Env
clients h = record {
  new_consumer = λ topics b g. pure tt;
  start_consumer = opens;
  stop_consumer = closes;
  new_producer = λ b. pure tt;
  start_producer = opens;
  stop_producer = closes;
  connect = some opens;
  close = closes;
}

abbrev runs : Handler → Exec (Fleet Env) Unit
runs h = pure tt

abbrev name_of : Value → String
name_of v = "str"

abbrev lost : Exn
lost = exception "ConnectionError" "redis"

-- The run of the second handler crashes.
abbrev loop : EventLoop (Fleet Env)
loop = record {
  wait = λ tasks w. (pending ∷ crashed lost ∷ pending ∷ [], w);
  cancel_all = λ tasks w. w;
}

abbrev settings : Settings
settings = record default_settings { dedup_processing_timeout_seconds = 60 }

counted : (h : Handler) → Counts (clients h) (λ e. e.0) (λ e. e.1)
counted h = record {
  new_consumer = λ t b g e r. (omega arith, omega arith);
  start_consumer = λ e r. (omega arith, omega arith);
  stop_consumer = λ e r. (omega arith, omega arith);
  new_producer = λ b e r. (omega arith, omega arith);
  start_producer = λ e r. (omega arith, omega arith);
  stop_producer = λ e r. (omega arith, omega arith);
  connect = opens;
  connects = refl;
  connected = λ e r. (omega arith, omega arith);
  close = λ e r. (omega arith, omega arith);
}

quiet : IsQuiet clients runs name_of (λ e. e.0) (λ e. e.1) counted loop
quiet = record {
  same_fields = λ h is w. refl;
  same_opened = λ is w. refl;
  same_closed = λ is w. refl;
}

abbrev begin : Fleet Env
begin = fleet settings (0, 0)

main_crashed :
    main (consumer clients runs name_of) loop handlers begin
    ≡ (ok 1, (main (consumer clients runs name_of) loop handlers begin).1)
unfolding main start_all start fleet built string_discrete dlq_topic exit_code shut_down stop_all
    stop
main_crashed = refl

main_closes_example :
    let one : ℕ = 1 in
    let last = (main (consumer clients runs name_of) loop handlers begin).1 in
    (last.env.0 ≡ 9) × (last.env.1 ≡ 9) × All (λ h. running h last ≡ false) handlers × (one ≡ one)
unfolding main start_all start fleet built string_discrete dlq_topic exit_code shut_down stop_all
    stop any_crashed
main_closes_example =
    main_closes clients runs name_of (λ e. e.0) (λ e. e.1) counted loop settings (0, 0) 1 quiet refl

-- The payments consumer does not reach its broker.
abbrev broken_clients : Handler → Clients Env
broken_clients payments = record (clients payments) { start_consumer = raise lost }
broken_clients _ = clients orders

main_start_raises_example :
    let last = main (consumer broken_clients runs name_of) loop handlers begin in
    let ready = (start_all (consumer broken_clients runs name_of) (orders ∷ []) begin).1 in
    (last ≡ (raised lost, ((consumer broken_clients runs name_of payments).start ready).1))
    × All (λ i. running i last.1 ≡ true) (orders ∷ [])
unfolding start_all start fleet built string_discrete dlq_topic
main_start_raises_example =
    main_start_raises (consumer broken_clients runs name_of) running
      (consumer-Flags broken_clients runs name_of) loop (orders ∷ []) (shipments ∷ []) payments
      begin lost refl refl
