-- ===== src/TransactionService/Tests/Retries.antt =====
-- A message that always fails, to try the retries on.
use proyecto_sa_b.Prelude.{ℕ, ◌≡◌, ◌⊎◌, Option, none, some, arith}
use proyecto_sa_b.TransactionService.Retries.{Delivery, done, dead, deliver}
use proyecto_sa_b.TransactionService.Retries.Bounded.{DeadLetter, deliver_ends}

abbrev poison : Delivery
poison = record {
  routing_key = 1;
  content = 2;
  count = none;
  original_routing_key = none;
  last_error = none;
  final_error = none;
}

abbrev failing : Delivery → Option ℕ
failing d = some 9

deliver_ends_example :
    (deliver 4 3 failing poison ≡ some done)
    ⊎ ((d' : Delivery) × (deliver 4 3 failing poison ≡ some (dead d')) × DeadLetter 3 poison d')
deliver_ends_example = deliver_ends 3 3 failing poison (omega arith)
