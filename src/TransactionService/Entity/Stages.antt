-- ===== src/TransactionService/Entity/Stages.antt =====
-- What the methods of the aggregate change, and from where to where.
use proyecto_sa_b.Prelude.{ℕ, ◌<◌, ◌≤◌, ◌≡◌, String, true, false, Option, none, some, arith}
use proyecto_sa_b.Prelude.Action.{ok}
use proyecto_sa_b.TransactionService.Status.{
  InterbankState, saga_stage, interbank_stage, is_final_interbank_state,
}
use proyecto_sa_b.TransactionService.Entity.{
  Transaction, mark_as_processing, mark_as_completed, mark_as_failed, mark_as_compensating,
  mark_as_compensated, advance_interbank, settle_interbank, Settlement, is_closed,
}

-- What no event may change: the parties, the amount and the creation.
pub record SameTransfer (t t' : Transaction) : Type 0 where
  pub transaction_id : t'.transaction_id ≡ t.transaction_id
  pub source_account : t'.source_account ≡ t.source_account
  pub target_account : t'.target_account ≡ t.target_account
  pub amount : t'.amount ≡ t.amount
  pub correlation_id : t'.correlation_id ≡ t.correlation_id
  pub created_at : t'.created_at ≡ t.created_at
  pub destination_bank_code : t'.destination_bank_code ≡ t.destination_bank_code
  pub origin_bank_code : t'.origin_bank_code ≡ t.origin_bank_code

-- A step of the internal saga that succeeds.
pub record Forward (t t' : Transaction) : Type 0 where
  pub same : SameTransfer t t'
  pub later : saga_stage t.status < saga_stage t'.status
  pub interbank : t'.interbank_state ≡ t.interbank_state

-- Whenever one of the five `markAs…` does not throw, the saga is at a strictly later stage than
-- before, and the parties, the amount and the interbank state are as they were.
pub mark-Forward :
    (now : ℕ) (reason : Option String) (t t' : Transaction)
    → (mark_as_processing now t ≡ ok t' → Forward t t')
      × (mark_as_completed now t ≡ ok t' → Forward t t')
      × (mark_as_failed now reason t ≡ ok t' → Forward t t')
      × (mark_as_compensating now reason t ≡ ok t' → Forward t t')
      × (mark_as_compensated now t ≡ ok t' → Forward t t')
unfolding mark_as_processing mark_as_completed mark_as_failed mark_as_compensating
    mark_as_compensated
mark-Forward now reason t t' =
    (λ e. ground arith, λ e. ground arith, λ e. ground arith, λ e. ground arith, λ e. ground arith)

abbrev pub stage_of : Option InterbankState → ℕ
stage_of none = 0
stage_of (some state) = interbank_stage state

-- An advance that is taken leaves the asked interbank state at a stage not below the old one, and
-- never replaces a final state; one that is not taken leaves the whole transaction as it was.
pub advance_interbank-Forward :
    (now : ℕ) (state : InterbankState) (reason : Option String) (t : Transaction)
    → let (t', changed) = advance_interbank now state reason t in
      SameTransfer t t'
      × (changed ≡ false → t' ≡ t)
      × (changed ≡ true
          → (t'.interbank_state ≡ some state)
            × (stage_of t.interbank_state ≤ interbank_stage state)
            × (is_final_interbank_state t.interbank_state ≡ false))
unfolding advance_interbank
advance_interbank-Forward now InterbankState.pending reason t = ground arith
advance_interbank-Forward now InterbankState.sent reason t = ground arith
advance_interbank-Forward now InterbankState.timeout reason t = ground arith
advance_interbank-Forward now InterbankState.accepted reason t = ground arith
advance_interbank-Forward now InterbankState.rejected reason t = ground arith
advance_interbank-Forward now InterbankState.reversed reason t = ground arith

-- A settlement leaves a closed transaction alone, and closes any other with a final interbank
-- state, which is the old one if that was final.
pub settle_interbank-closes :
    (now : ℕ) (how : Settlement) (t : Transaction)
    → let (t', changed) = settle_interbank now how t in
      SameTransfer t t'
      × (is_closed t.status ≡ true → (t' ≡ t) × (changed ≡ false))
      × (is_closed t.status ≡ false
          → (changed ≡ true)
            × (is_closed t'.status ≡ true)
            × (is_final_interbank_state t'.interbank_state ≡ true)
            × (is_final_interbank_state t.interbank_state ≡ true
                → t'.interbank_state ≡ t.interbank_state))
unfolding settle_interbank
settle_interbank-closes now Settlement.debited t = ground arith
settle_interbank-closes now Settlement.released t = ground arith
