-- ===== src/TransactionService/Retries/Bounded.antt =====
-- How often a message is delivered.
use proyecto_sa_b.Prelude.{
  ℕ, zero, suc, ◌+◌, ◌≤◌, max, ◌≡◌, refl, ap, ◌∙◌, ◌⊎◌, inl, inr, Option, some, ltb, arith,
  Bool-cases, Option-cases,
}
use proyecto_sa_b.TransactionService.Retries.{
  Delivery, done, retried, dead, retry_count, handle_failed_message, consume, deliver,
}

-- The message that ends in the dead-letter queue for `d`.
pub record DeadLetter (limit : ℕ) (d d' : Delivery) : Type 0 where
  pub content : d'.content ≡ d.content
  pub routing_key : d'.routing_key ≡ d.routing_key
  pub count : d'.count ≡ some (max limit (retry_count d))

-- The message as `handleFailedMessage` gives it to the retry exchange.
abbrev again_of : ℕ → Delivery → Delivery
again_of error d = record d {
  count = some (retry_count d + 1);
  original_routing_key = some d.routing_key;
  last_error = some error;
}

consume_cases :
    (limit : ℕ) (handler : Delivery → Option ℕ) (d : Delivery)
    → (consume limit handler d ≡ done)
      ⊎ ((error : ℕ) × (retry_count d + 1 ≤ limit)
          × (consume limit handler d ≡ retried (again_of error d)))
      ⊎ ((d' : Delivery) × (consume limit handler d ≡ dead d') × DeadLetter limit d d')
unfolding consume handle_failed_message
consume_cases limit handler d = elim (Option-cases (handler d)) [
  | inl fine ↦ inl (rw fine refl)
  | inr (error, failed) ↦ elim (Bool-cases (ltb (retry_count d) limit)) [
    | inl more ↦ inr (inl (error, ground arith, rw (failed, more) refl))
    | inr last ↦ inr (
        inr (
          record d {
            count = some (retry_count d);
            original_routing_key = some d.routing_key;
            final_error = some error;
          },
          rw (failed, last) refl,
          record { content = refl; routing_key = refl; count = ap some (ground arith) },
        ))
  ]
]

-- Where the message is after at most `n` deliveries.
abbrev Ends : (n limit : ℕ) → (Delivery → Option ℕ) → (d now : Delivery) → Type 0
Ends n limit handler d now =
    (deliver n limit handler now ≡ some done)
    ⊎ ((d' : Delivery) × (deliver n limit handler now ≡ some (dead d')) × DeadLetter limit d d')

step_Ends :
    (n limit : ℕ) (handler : Delivery → Option ℕ) (d : Delivery)
    → ((error : ℕ) → retry_count d + 1 ≤ limit → Ends n limit handler d (again_of error d))
    → Ends (suc n) limit handler d d
unfolding deliver
step_Ends n limit handler d next = elim (consume_cases limit handler d) [
  | inl fine ↦ inl (rw fine refl)
  | inr (inr (d', last, letter)) ↦ inr (d', rw last refl, letter)
  | inr (inl (error, more, again)) ↦ rw again (next error more)
]

retry_Ends :
    (n limit : ℕ) (handler : Delivery → Option ℕ) (d : Delivery) (error : ℕ)
    → retry_count d + 1 ≤ limit
    → Ends n limit handler (again_of error d) (again_of error d)
    → Ends n limit handler d (again_of error d)
retry_Ends n limit handler d error more (inl fine) = inl fine
retry_Ends n limit handler d error more (inr (d', e, letter)) = inr (
  d',
  e,
  record {
    content = letter.content;
    routing_key = letter.routing_key;
    count = letter.count ∙ ap some (omega arith);
  },
)

-- A message is done or in the dead-letter queue, with its content and its routing key, after at most
-- one delivery more than there are retries left, whatever the handler does; in the dead-letter queue
-- its count is the limit, or its own if that was more.
pub deliver_ends :
    (n limit : ℕ) (handler : Delivery → Option ℕ) (d : Delivery)
    → limit ≤ n + retry_count d
    → (deliver (suc n) limit handler d ≡ some done)
      ⊎ ((d' : Delivery) × (deliver (suc n) limit handler d ≡ some (dead d'))
          × DeadLetter limit d d')
deliver_ends zero limit handler d b =
    step_Ends zero limit handler d (λ error more. absurd (omega arith))
deliver_ends (suc n) limit handler d b = step_Ends (suc n) limit handler d (λ error more.
    retry_Ends (suc n) limit handler d error more
      (deliver_ends n limit handler (again_of error d) (omega arith)))
