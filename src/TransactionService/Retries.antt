-- ===== src/TransactionService/Retries.antt =====
-- What becomes of a message whose handling throws: the consumer's callback and `handleFailedMessage`
-- of apps/transaction-service/src/transaction/infrastructure/messaging/rabbitmq.service.ts. The
-- broker gives a message of the retry exchange back after a while. Texts are numbers; a message's
-- other properties pass through unchanged.
pub mod Bounded
use proyecto_sa_b.Prelude.{ℕ, zero, suc, ◌+◌, Bool, Option, none, some, ltb, get_or, if◌then◌else◌}

-- `count` is the header `x-retry-count`.
pub record Delivery : Type 0 where
  pub routing_key : ℕ
  pub content : ℕ
  pub count : Option ℕ
  pub original_routing_key : Option ℕ
  pub last_error : Option ℕ
  pub final_error : Option ℕ

-- Every message is acknowledged, and published again to one of the two exchanges if it failed.
pub data Fate : Type 0 where
  done : Fate
  retried : Delivery → Fate
  dead : Delivery → Fate

abbrev pub retry_count : Delivery → ℕ
retry_count d = get_or d.count 0

-- `handleFailedMessage`
unfoldable pub handle_failed_message : (max_retries : ℕ) → (error : ℕ) → Delivery → Fate
handle_failed_message max_retries error d =
    if ltb (retry_count d) max_retries
    then retried (record d {
      count = some (retry_count d + 1);
      original_routing_key = some d.routing_key;
      last_error = some error;
    })
    else dead (record d {
      count = some (retry_count d);
      original_routing_key = some d.routing_key;
      final_error = some error;
    })

abbrev pub after_handler : (max_retries : ℕ) → Option ℕ → Delivery → Fate
after_handler max_retries none d = done
after_handler max_retries (some error) d = handle_failed_message max_retries error d

-- The callback of `channel.consume`; the handler gives the error that it throws, if it does.
unfoldable pub consume : (max_retries : ℕ) → (Delivery → Option ℕ) → Delivery → Fate
consume max_retries handler d = after_handler max_retries (handler d) d

-- What the broker does next: it gives a retried message back.
abbrev pub redeliver : (Delivery → Option Fate) → Fate → Option Fate
redeliver again done = some done
redeliver again (retried d) = again d
redeliver again (dead d) = some (dead d)

-- One message until it is done or dead, in at most so many deliveries.
unfoldable pub deliver :
    (fuel : ℕ) → (max_retries : ℕ) → (Delivery → Option ℕ) → Delivery → Option Fate
deliver zero max_retries handler d = none
deliver (suc n) max_retries handler d =
    redeliver (λ d'. deliver n max_retries handler d') (consume max_retries handler d)
