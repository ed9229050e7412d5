-- ===== src/TransactionService/Creation/Correlation.antt =====
-- The transaction that is found under a correlation id.
use proyecto_sa_b.Prelude.{ℕ, ◌≡◌, none, some, [], ◌∷◌, arith}
use proyecto_sa_b.Prelude.Dict.{lookup}
use proyecto_sa_b.TransactionService.Entity.{Transaction}
use proyecto_sa_b.TransactionService.Updates.{Repository, save}
use proyecto_sa_b.TransactionService.Creation.{find_by_correlation_id}

pub find_by_correlation_id-insert :
    (c : ℕ) (t : Transaction) (repo : Repository)
    → lookup t.transaction_id repo ≡ none
    → find_by_correlation_id c repo ≡ none
    → t.correlation_id ≡ c
    → find_by_correlation_id c (save t repo) ≡ some t
find_by_correlation_id-insert c t [] fresh new e = ground arith
find_by_correlation_id-insert c t (x ∷ repo) fresh new e =
    ground (arith, find_by_correlation_id-insert c t repo)
