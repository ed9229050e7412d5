-- ===== src/TransactionService/Creation/Rows.antt =====
-- What saving a transaction leaves of the table: the ids of the rows, and which transaction a
-- correlation id has. The services are those of Updates and Creation.
use proyecto_sa_b.Prelude.{
  ℕ, ◌≡◌, refl, sym, ◌∙◌, inl, inr, Bool, true, false, none, some, [], ◌∷◌, ◌==◌, arith, All,
  Bool-cases, Option-cases, ==_iff,
}
use proyecto_sa_b.Prelude.Dict.{lookup, insert}
use proyecto_sa_b.Prelude.Action.{Result, ok, err}
use proyecto_sa_b.TransactionService.Status.{TransactionStatus, is_stale}
use proyecto_sa_b.TransactionService.Entity.{Transaction, Failure, check_transaction}
use proyecto_sa_b.TransactionService.Entity.Stages.{SameTransfer}
use proyecto_sa_b.TransactionService.Updates.{Repository, save, store, mark, move}
use proyecto_sa_b.TransactionService.Creation.{find_by_correlation_id, save_new}

-- The transaction of the correlation id is the one of the id.
abbrev pub Holds : ℕ → ℕ → Repository → Type 0
Holds c id repo =
    (t : Transaction) × (find_by_correlation_id c repo ≡ some t) × (t.transaction_id ≡ id)

abbrev pub HasKey : ℕ × Transaction → Type 0
HasKey (key, t) = t.transaction_id ≡ key

abbrev pub Keyed : Repository → Type 0
Keyed repo = All HasKey repo

insert-Keyed :
    (key : ℕ) (u : Transaction) (repo : Repository)
    → u.transaction_id ≡ key
    → Keyed repo
    → Keyed (insert key u repo)
insert-Keyed key u [] e h = (e, tt)
insert-Keyed key u ((k, t) ∷ repo) e h = elim (Bool-cases (key == k)) [
  | inl same ↦ rw same (e, h.1)
  | inr other ↦ rw other (h.0, insert-Keyed key u repo e h.1)
]

lookup-Keyed :
    (key : ℕ) (t : Transaction) (repo : Repository)
    → Keyed repo
    → lookup key repo ≡ some t
    → t.transaction_id ≡ key
lookup-Keyed key t [] h e = cc
lookup-Keyed key t ((k, u) ∷ repo) h e = elim (Bool-cases (key == k)) [
  | inl same ↦
      let found : u ≡ t = ground arith in let equal = (==_iff key k).0 same in let own = h.0 in cc
  | inr other ↦ lookup-Keyed key t repo h.1 (rw other at e)
]

-- A row that is replaced keeps its correlation id.
insert-Holds :
    (c id key : ℕ) (u old : Transaction) (repo : Repository)
    → u.transaction_id ≡ key
    → u.correlation_id ≡ old.correlation_id
    → lookup key repo ≡ some old
    → Keyed repo
    → Holds c id repo
    → Holds c id (insert key u repo)
insert-Holds c id key u old [] e same found h holds = cc
insert-Holds c id key u old ((k, t) ∷ repo) e same found h (x, at, named) =
    elim (Bool-cases (key == k)) [
      | inl here ↦
          let equal = (==_iff key k).0 here in
          let first : t ≡ old = ground arith in
          let own = h.0 in
          elim (Bool-cases (u.correlation_id == c)) [
            | inl mine ↦
                let was : t.correlation_id == c ≡ true = rw (first, sym same) mine in
                let tx : some t ≡ some x = rw was at at in
                let found : t ≡ x = ground arith in rw (here, mine) (u, refl, cc)
            | inr foreign ↦
                let was : t.correlation_id == c ≡ false = rw (first, sym same) foreign in
                rw (here, foreign) (x, rw was at at, named)
          ]
      | inr other ↦ elim (Bool-cases (t.correlation_id == c)) [
        | inl mine ↦
            let tx : some t ≡ some x = rw mine at at in
            let found : t ≡ x = ground arith in rw (other, mine) (t, refl, cc)
        | inr foreign ↦
            rw (other, foreign)
              (insert-Holds c id key u old repo e same (rw other at found) h.1
                (x, rw foreign at at, named))
      ]
    ]

insert_new-Holds :
    (c id key : ℕ) (u : Transaction) (repo : Repository)
    → lookup key repo ≡ none
    → Holds c id repo
    → Holds c id (insert key u repo)
insert_new-Holds c id key u [] new holds = cc
insert_new-Holds c id key u ((k, t) ∷ repo) new (x, at, named) = elim (Bool-cases (key == k)) [
  | inl here ↦ absurd (ground arith)
  | inr other ↦ elim (Bool-cases (t.correlation_id == c)) [
    | inl mine ↦
        let tx : some t ≡ some x = rw mine at at in
        let found : t ≡ x = ground arith in rw (other, mine) (t, refl, cc)
    | inr foreign ↦
        rw (other, foreign)
          (insert_new-Holds c id key u repo (rw other at new) (x, rw foreign at at, named))
  ]
]

-- The rows stand under their ids, and a correlation id keeps its transaction.
abbrev pub Keeps : Repository → Repository → Type 0
Keeps repo repo' = Keyed repo → Keyed repo' × ((c id : ℕ) → Holds c id repo → Holds c id repo')

pub unchanged : (repo : Repository) → Keeps repo repo
unchanged repo h = (h, λ c id holds. holds)

save-Keeps :
    (key : ℕ) (old u : Transaction) (repo : Repository)
    → lookup key repo ≡ some old
    → SameTransfer old u
    → Keeps repo (save u repo)
save-Keeps key old u repo found same h =
    let own : u.transaction_id ≡ key = same.transaction_id ∙ lookup-Keyed key old repo h found in
    (
      insert-Keyed u.transaction_id u repo refl h,
      λ c id holds.
          insert-Holds c id u.transaction_id u old repo refl same.correlation_id (rw own found) h
            holds,
    )

store-Keeps :
    (key : ℕ) (old : Transaction) (repo : Repository) (r : Result Failure Transaction)
    → lookup key repo ≡ some old
    → ((u : Transaction) → r ≡ ok u → SameTransfer old u)
    → Keeps repo (store repo r).1
store-Keeps key old repo (ok u) found same = save-Keeps key old u repo found (same u refl)
store-Keeps key old repo (err e) found same = unchanged repo

pub mark-Keeps :
    (target : TransactionStatus) (method : Transaction → Result Failure Transaction) (key : ℕ)
    (repo : Repository)
    → ((t u : Transaction) → method t ≡ ok u → SameTransfer t u)
    → Keeps repo (mark target method (lookup key repo) repo).1
mark-Keeps target method key repo same = elim (Option-cases (lookup key repo)) [
  | inl e ↦ rw e (unchanged repo)
  | inr (t, e) ↦ elim (Bool-cases (is_stale t.status target)) [
    | inl late ↦ rw (e, late) (unchanged repo)
    | inr due ↦ rw (e, due) (store-Keeps key t repo (method t) e (same t))
  ]
]

pub move-Keeps :
    (method : Transaction → Transaction × Bool) (key : ℕ) (repo : Repository)
    → ((t : Transaction) → SameTransfer t (method t).0)
    → Keeps repo (move method (lookup key repo) repo).1
move-Keeps method key repo same = elim (Option-cases (lookup key repo)) [
  | inl e ↦ rw e (unchanged repo)
  | inr (t, e) ↦ elim (Bool-cases (method t).1) [
    | inl changed ↦ rw (e, changed) (save-Keeps key t (method t).0 repo e (same t))
    | inr as_was ↦ rw (e, as_was) (unchanged repo)
  ]
]

pub save_new-Keeps :
    (t : Transaction) (repo : Repository)
    → lookup t.transaction_id repo ≡ none
    → Keeps repo (save_new t repo).1
save_new-Keeps t repo new h = elim (Option-cases (check_transaction t)) [
  | inl sound ↦
      rw (sound, save_new)
        (
          insert-Keyed t.transaction_id t repo refl h,
          λ c id holds. insert_new-Holds c id t.transaction_id t repo new holds,
        )
  | inr (f, bad) ↦ rw (bad, save_new) (unchanged repo h)
]
