-- ===== src/Source/Wal/Assembler/Added.antt =====
-- What each event adds to the changes of an open transaction (crates/source-postgres/src/wal.rs), and
-- that the code computes it.
use etl_server_cloudberry.Prelude.{
  ◌%◌, ◌==◌, ◌/◌, ◌*◌, ◌+◌, ◌⊎◌, ◌*◌, ◌+◌, any, sym, ℕ, ◌≡◌, refl, inl, inr, Bool-cases, Bool, true,
  false, Option, none, some, List, [], ◌∷◌, ◌++◌, if◌then◌else◌, arith, ap,
}
use mathlib.Core.List.{Memᴰ}
use etl_server_cloudberry.Core.Change.{
  TransactionChange, row, truncate, ddl, DdlMessage, DdlMessage-discrete, RowChange, insert, update,
  delete,
}
use etl_server_cloudberry.Source.Wal.{
  SourceResult, AssembledEvent, RelationEvent, DecodedMessage, begin, commit, relation, keepalive,
  PendingTransaction, TransactionAssembler, to_transaction_change,
}
use etl_server_cloudberry.Source.Wal
use etl_server_cloudberry.Source.Wal.Assembler.{is_same_ddl, repeats_ddl}

-- One event's part of the transaction, as the code computes it.
abbrev pub collect_one : List TransactionChange → Option TransactionChange → List TransactionChange
collect_one cs none = cs
collect_one cs (some c) = if repeats_ddl cs c then cs else cs ++ c ∷ []

abbrev pub collect : List TransactionChange → List DecodedMessage → List TransactionChange
collect cs [] = cs
collect cs (e ∷ es) = collect (collect_one cs (to_transaction_change e)) es

-- Neither the beginning nor the end of a transaction.
abbrev pub is_inner : DecodedMessage → Bool
is_inner (begin f t x) = false
is_inner (commit c e t f) = false
is_inner _ = true

abbrev pub AllInner : List DecodedMessage → Type 0
AllInner [] = Unit {0}
AllInner (e ∷ es) = (is_inner e ≡ true) × AllInner es

-- The specification: what an event makes of the changes `cs` of the open transaction. A DDL message
-- that they have already adds nothing. The options of a TRUNCATE are CASCADE in the lowest bit and
-- RESTART IDENTITY in the next.
abbrev pub AddsRow : List TransactionChange → ℕ → ℕ → RowChange → List TransactionChange → Type 0
AddsRow cs r g change ds =
    ds ≡ cs ++ row (record { relation_id = r; generation = g; change = change }) ∷ []

abbrev pub bit : Bool → ℕ
bit b = if b then 1 else 0

abbrev pub Adds : List TransactionChange → DecodedMessage → List TransactionChange → Type 0
Adds cs (Wal.insert_row r g new) ds = AddsRow cs r g (insert new) ds
Adds cs (Wal.update_row r g old_key new) ds = AddsRow cs r g (update old_key new) ds
Adds cs (Wal.delete_row r g old_key) ds = AddsRow cs r g (delete old_key) ds
Adds cs (Wal.truncate_tables relation_ids options) ds =
    (cascade restart : Bool) × (others : ℕ) × (options ≡ bit cascade + 2 * bit restart + 4 * others)
    × (ds ≡ cs ++ truncate relation_ids cascade restart ∷ [])
Adds cs (Wal.ddl_message m) ds =
    (Memᴰ (ddl m) cs × (ds ≡ cs)) ⊎ ((¬ Memᴰ (ddl m) cs) × (ds ≡ cs ++ ddl m ∷ []))
Adds cs (begin f t x) ds = ⊥
Adds cs (commit c e t f) ds = ⊥
Adds cs (relation r) ds = ds ≡ cs
Adds cs (keepalive w t r) ds = ds ≡ cs
Adds cs (Wal.type t) ds = ds ≡ cs

abbrev pub AddsAll : List TransactionChange → List DecodedMessage → List TransactionChange → Type 0
AddsAll cs [] ds = ds ≡ cs
AddsAll cs (e ∷ es) ds = (mid : List TransactionChange) × Adds cs e mid × AddsAll mid es ds

module _ (m : DdlMessage) where
  any_same-Mem : (cs : List TransactionChange) → any (is_same_ddl m) cs ≡ true → Memᴰ (ddl m) cs
  unfolding is_same_ddl
  any_same-Mem [] h = absurd (cc)
  any_same-Mem (row c ∷ cs) h = Memᴰ.tail (any_same-Mem cs h)
  any_same-Mem (truncate r c i ∷ cs) h = Memᴰ.tail (any_same-Mem cs h)
  any_same-Mem (ddl n ∷ cs) h = elim (DdlMessage-discrete n m) [
    | yes e ↦ Memᴰ.head (ap ddl (sym e))
    | no k ↦ Memᴰ.tail (any_same-Mem cs (ground arith))
  ]

  Mem-any_same : (cs : List TransactionChange) → Memᴰ (ddl m) cs → any (is_same_ddl m) cs ≡ true
  unfolding is_same_ddl
  Mem-any_same [] h = elim h [ ]
  Mem-any_same (c ∷ cs) (Memᴰ.head e) = ground arith
  Mem-any_same (c ∷ cs) (Memᴰ.tail h) = ground (arith, Mem-any_same cs h)

truncate_bits :
    (options : ℕ)
    → options ≡ bit (options % 2 == 1) + 2 * bit (options / 2 % 2 == 1) + 4 * (options / 4)
truncate_bits options = ground arith

pub Adds-collect_one :
    (cs : List TransactionChange) (e : DecodedMessage)
    → is_inner e ≡ true
    → Adds cs e (collect_one cs (to_transaction_change e))
unfolding to_transaction_change repeats_ddl
Adds-collect_one cs (begin f t x) i = absurd (cc)
Adds-collect_one cs (commit c e t f) i = absurd (cc)
Adds-collect_one cs (relation r) i = refl
Adds-collect_one cs (keepalive w t r) i = refl
Adds-collect_one cs (Wal.type t) i = refl
Adds-collect_one cs (Wal.insert_row r g new) i = refl
Adds-collect_one cs (Wal.update_row r g old_key new) i = refl
Adds-collect_one cs (Wal.delete_row r g old_key) i = refl
Adds-collect_one cs (Wal.truncate_tables relation_ids options) i =
    (_, _, options / 4, truncate_bits options, refl)
Adds-collect_one cs (Wal.ddl_message m) i = elim (Bool-cases (any (is_same_ddl m) cs)) [
  | inl twice ↦ rw twice (inl (any_same-Mem m cs twice, refl))
  | inr once ↦ rw once (inr (λ h. cc (once, Mem-any_same m cs h), refl))
]

pub AddsAll-collect :
    (es : List DecodedMessage) (cs : List TransactionChange)
    → AllInner es
    → AddsAll cs es (collect cs es)
AddsAll-collect [] cs i = refl
AddsAll-collect (e ∷ es) cs i = (_, Adds-collect_one cs e i.0, AddsAll-collect es _ i.1)
