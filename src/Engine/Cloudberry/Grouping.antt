-- ===== src/Engine/Cloudberry/Grouping.antt =====
-- The row changes of a batch by table, in crates/engine/src/adapters/cloudberry.rs.
use etl_server_cloudberry.Prelude.{
  ◌≡◌, refl, sym, ap, ◌∙◌, inl, inr, List, [], ◌∷◌, ◌++◌, Bool-cases, is_yes,
}
use mathlib.Core.List.{append_assoc, append-nil}
use etl_server_cloudberry.Core.Change.{
  TableChange, TransactionChange, row, truncate, ddl, SourceTransaction,
}
use etl_server_cloudberry.Engine.Cloudberry.{
  TableKey, TableKey-discrete, Grouped, change_key, group_push, group_changes, group_batch,
}
use etl_server_cloudberry.Engine.Cloudberry.Groups.{
  rows_in, batch_rows, rows_of, changes_at, IsOrdered, group_push-IsOrdered, changes_at-group_push,
}

rows_of-append :
    (k : TableKey) (xs ys : List TableChange) → rows_of k (xs ++ ys) ≡ rows_of k xs ++ rows_of k ys
rows_of-append k [] ys = refl
rows_of-append k (x ∷ xs) ys = elim (Bool-cases (is_yes (TableKey-discrete (change_key x) k))) [
  | inl e ↦ rw e (ap (λ zs. x ∷ zs) (rows_of-append k xs ys))
  | inr e ↦ rw e (rows_of-append k xs ys)
]

-- A map that is ordered and has, for each table, its changes among those of a list.
record IsGroupedFrom (g : Grouped) (cs : List TableChange) (h : Grouped) : Type 0 where
  ordered : IsOrdered h
  content : (k : TableKey) → changes_at k h ≡ changes_at k g ++ rows_of k cs

group_changes-IsGroupedFrom :
    (cs : List TransactionChange) (g : Grouped)
    → IsOrdered g
    → IsGroupedFrom g (rows_in cs) (group_changes g cs)
unfolding group_changes
group_changes-IsGroupedFrom [] g h = record {
  ordered = h;
  content = λ k. sym (append-nil (changes_at k g));
}
group_changes-IsGroupedFrom (row c ∷ cs) g h =
    let r = group_changes-IsGroupedFrom cs (group_push c g) (group_push-IsOrdered c g h) in
    record {
      ordered = r.ordered;
      content = λ k.
          r.content k
          ∙ (ap (λ x. x ++ rows_of k (rows_in cs)) (changes_at-group_push k c g h)
              ∙ (append_assoc (changes_at k g) (rows_of k (c ∷ [])) (rows_of k (rows_in cs))
                  ∙ ap (λ x. changes_at k g ++ x) (sym (rows_of-append k (c ∷ []) (rows_in cs)))));
    }
group_changes-IsGroupedFrom (truncate r c i ∷ cs) g h = group_changes-IsGroupedFrom cs g h
group_changes-IsGroupedFrom (ddl m ∷ cs) g h = group_changes-IsGroupedFrom cs g h

group_batch-IsGroupedFrom :
    (ts : List SourceTransaction) (g : Grouped)
    → IsOrdered g
    → IsGroupedFrom g (batch_rows ts) (group_batch g ts)
unfolding group_batch
group_batch-IsGroupedFrom [] g h = record {
  ordered = h;
  content = λ k. sym (append-nil (changes_at k g));
}
group_batch-IsGroupedFrom (t ∷ ts) g h =
    let r = group_changes-IsGroupedFrom t.changes g h in
    let s = group_batch-IsGroupedFrom ts (group_changes g t.changes) r.ordered in
    record {
      ordered = s.ordered;
      content = λ k.
          s.content k
          ∙ (ap (λ x. x ++ rows_of k (batch_rows ts)) (r.content k)
              ∙ (append_assoc (changes_at k g) (rows_of k (rows_in t.changes))
                    (rows_of k (batch_rows ts))
                  ∙ ap (λ x. changes_at k g ++ x)
                      (sym (rows_of-append k (rows_in t.changes) (batch_rows ts)))));
    }

-- The row changes of a batch are grouped by relation and generation in ascending order of these, each
-- group with the changes of its table in the order of the batch: none is lost, repeated or reordered.
pub group_batch-content :
    (ts : List SourceTransaction)
    → IsOrdered (group_batch [] ts)
      × ((k : TableKey) → changes_at k (group_batch [] ts) ≡ rows_of k (batch_rows ts))
group_batch-content ts = let r = group_batch-IsGroupedFrom ts [] tt in (r.ordered, r.content)
