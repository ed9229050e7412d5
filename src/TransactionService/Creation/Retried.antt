-- ===== src/TransactionService/Creation/Retried.antt =====
-- A saga that is opened again when the first one has moved on: the table of transactions through any
-- sequence of the operations of Updates and Creation.
use proyecto_sa_b.Prelude.{
  ℕ, String, ◌≡◌, refl, ap, inl, inr, Option, none, some, [], arith, Option-cases,
}
use proyecto_sa_b.Prelude.Dict.{lookup}
use proyecto_sa_b.Prelude.Action.{Result, ok, err}
use proyecto_sa_b.TransactionService.Status.{TransactionStatus, InterbankState}
use proyecto_sa_b.TransactionService.Entity
use proyecto_sa_b.TransactionService.Entity.{Transaction, Failure, Settlement, check_transaction}
use proyecto_sa_b.TransactionService.Entity.Stages.{
  mark-Forward, advance_interbank-Forward, settle_interbank-closes,
}
use proyecto_sa_b.TransactionService.Creation.Correlation.{find_by_correlation_id-insert}
use proyecto_sa_b.TransactionService.Updates.{
  Repository, mark_as_processing, mark_as_completed, mark_as_failed, mark_as_compensating,
  mark_as_compensated, advance_interbank, settle_interbank,
}
use proyecto_sa_b.TransactionService.Creation.{
  CreateTransactionCommand, RecordIncomingInterbankCommand, execute, record_incoming_interbank,
  find_by_correlation_id, new_transaction, incoming_transaction, save_new, created,
}
use proyecto_sa_b.TransactionService.Creation.Rows.{
  Holds, Keeps, unchanged, mark-Keeps, move-Keeps, save_new-Keeps,
}

-- An operation on the table; `fresh` is the id of `randomUUID`.
pub data Operation : Type 0 where
  processing completed compensated : (now id : ℕ) → Operation
  failed compensating : (now : ℕ) → (reason : Option String) → (id : ℕ) → Operation
  advance : (now : ℕ) → InterbankState → (reason : Option String) → (id : ℕ) → Operation
  settle : (now : ℕ) → Settlement → (id : ℕ) → Operation
  open_saga : (fresh now : ℕ) → CreateTransactionCommand → Operation
  record_incoming : (fresh now : ℕ) → RecordIncomingInterbankCommand → Operation

abbrev pub perform : Operation → Repository → Repository
perform (processing now id) repo = (mark_as_processing now id repo).1
perform (completed now id) repo = (mark_as_completed now id repo).1
perform (compensated now id) repo = (mark_as_compensated now id repo).1
perform (failed now reason id) repo = (mark_as_failed now reason id repo).1
perform (compensating now reason id) repo = (mark_as_compensating now reason id repo).1
perform (advance now state reason id) repo = (advance_interbank now state reason id repo).1
perform (settle now how id) repo = (settle_interbank now how id repo).1
perform (open_saga fresh now c) repo = (execute fresh now c repo).1
perform (record_incoming fresh now c) repo = (record_incoming_interbank fresh now c repo).1

-- `randomUUID` gives no id that is in the table.
abbrev pub IsFresh : Operation → Repository → Type 0
IsFresh (open_saga fresh now c) repo = lookup fresh repo ≡ none
IsFresh (record_incoming fresh now c) repo = lookup fresh repo ≡ none
IsFresh _ repo = Unit

pub data Changes : Repository → Repository → Type 0 where
  start : {b : Repository} → Changes b b
  step : {b w : Repository} → Changes b w → (o : Operation) → IsFresh o w → Changes b (perform o w)

created_same : (x : Result Failure Transaction × Repository) → (created x).1 ≡ x.1
created_same (ok t, repo) = refl
created_same (err e, repo) = refl

perform-Keeps : (o : Operation) (repo : Repository) → IsFresh o repo → Keeps repo (perform o repo)
unfolding mark_as_processing mark_as_completed mark_as_failed mark_as_compensating
    mark_as_compensated advance_interbank settle_interbank execute record_incoming_interbank
perform-Keeps (processing now id) repo fresh =
    mark-Keeps TransactionStatus.processing (Entity.mark_as_processing now) id repo
      (λ t u e. ((mark-Forward now none t u).0 e).same)
perform-Keeps (completed now id) repo fresh =
    mark-Keeps TransactionStatus.completed (Entity.mark_as_completed now) id repo
      (λ t u e. ((mark-Forward now none t u).1 e).same)
perform-Keeps (compensated now id) repo fresh =
    mark-Keeps TransactionStatus.compensated (Entity.mark_as_compensated now) id repo
      (λ t u e. ((mark-Forward now none t u).4 e).same)
perform-Keeps (failed now reason id) repo fresh =
    mark-Keeps TransactionStatus.failed (Entity.mark_as_failed now reason) id repo
      (λ t u e. ((mark-Forward now reason t u).2 e).same)
perform-Keeps (compensating now reason id) repo fresh =
    mark-Keeps TransactionStatus.compensating (Entity.mark_as_compensating now reason) id repo
      (λ t u e. ((mark-Forward now reason t u).3 e).same)
perform-Keeps (advance now state reason id) repo fresh =
    move-Keeps (Entity.advance_interbank now state reason) id repo
      (λ t. (advance_interbank-Forward now state reason t).0)
perform-Keeps (settle now how id) repo fresh =
    move-Keeps (Entity.settle_interbank now how) id repo
      (λ t. (settle_interbank-closes now how t).0)
perform-Keeps (open_saga fresh now c) repo new =
    elim (Option-cases (find_by_correlation_id c.correlation_id repo)) [
      | inl none_yet ↦
          rw (perform, none_yet) (save_new-Keeps (new_transaction fresh now c) repo new)
      | inr (t, found) ↦ rw (perform, found) (unchanged repo)
    ]
perform-Keeps (record_incoming fresh now c) repo new =
    elim (Option-cases (find_by_correlation_id c.correlation_id repo)) [
      | inl none_yet ↦
          rw (perform, none_yet, created_same (save_new (incoming_transaction fresh now c) repo))
            (save_new-Keeps (incoming_transaction fresh now c) repo new)
      | inr (t, found) ↦ rw (perform, found) (unchanged repo)
    ]

Changes-Keeps : {b w : Repository} → Changes b w → Keeps b w
Changes-Keeps start h = unchanged _ h
Changes-Keeps (step next o fresh) h =
    let (keyed, held) = Changes-Keeps next h in
    let (keyed', held') = perform-Keeps o _ fresh keyed in
    (keyed', λ c id holds. held' c id (held c id holds))

execute-Holds :
    (fresh now : ℕ) (c : CreateTransactionCommand) (repo : Repository) (t : Transaction)
    → lookup fresh repo ≡ none
    → (execute fresh now c repo).0 ≡ ok t
    → Holds c.correlation_id t.transaction_id (execute fresh now c repo).1
unfolding execute
execute-Holds fresh now c repo t new e =
    elim (Option-cases (find_by_correlation_id c.correlation_id repo)) [
      | inl none_yet ↦ elim (Option-cases (check_transaction (new_transaction fresh now c))) [
        | inl sound ↦
            let ended : ok (new_transaction fresh now c) ≡ ok t =
              rw (none_yet, execute, save_new, sound) at e in
            let same : new_transaction fresh now c ≡ t = ground arith in
            rw (execute, none_yet, save_new, sound)
              (
                new_transaction fresh now c,
                find_by_correlation_id-insert c.correlation_id (new_transaction fresh now c) repo
                    new none_yet refl,
                ap (λ (x : Transaction). x.transaction_id) same,
              )
        | inr (f, bad) ↦ let never : err f ≡ ok t = rw (none_yet, execute, save_new, bad) at e in cc
      ]
      | inr (old, found) ↦
          let same : ok old ≡ ok t = rw (found, execute) at e in
          rw (found, execute) (old, found, ground arith)
    ]

-- A saga that has been opened is not opened again under its correlation id, whatever the other
-- command says and however far the sagas of the table have moved on, be they running, closed, failed
-- or compensated: the answer is the transaction of the first time, as it is by then, and no row changes.
pub execute_again :
    (fresh now fresh' now' : ℕ) (c c' : CreateTransactionCommand) (repo later : Repository)
    (t : Transaction)
    → Changes [] repo
    → lookup fresh repo ≡ none
    → c'.correlation_id ≡ c.correlation_id
    → (execute fresh now c repo).0 ≡ ok t
    → Changes (execute fresh now c repo).1 later
    → (t' : Transaction) × (execute fresh' now' c' later ≡ (ok t', later))
      × (t'.transaction_id ≡ t.transaction_id)
unfolding execute
execute_again fresh now fresh' now' c c' repo later t past new same e next =
    let keyed = (Changes-Keeps (step past (open_saga fresh now c) new) tt).0 in
    let (t', found, named) =
      (Changes-Keeps next keyed).1 c.correlation_id t.transaction_id
        (execute-Holds fresh now c repo t new e) in
    let again : find_by_correlation_id c'.correlation_id later ≡ some t' = rw same found in
    (t', rw (execute, again), named)
