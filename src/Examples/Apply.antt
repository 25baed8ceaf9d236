-- ===== src/Examples/Apply.antt =====
-- Instances of the theorems on crates/target-cloudberry/src/copy.rs and apply.rs.
use etl_server_cloudberry.Prelude.{
  ℕ, ◌+◌, ◌≡◌, ◌≢◌, refl, false, some, List, [], ◌∷◌, Bytes, length, ok,
}
use etl_server_cloudberry.Core.Change.{Cell, null, text_cell}
use etl_server_cloudberry.Target.Copy.{
  encode_row, encode_rest, encode_field, encode_text_bytes, escape,
}
use etl_server_cloudberry.Target.Copy.RoundTrip.{read_row, read_row-encode_row}
use etl_server_cloudberry.Target.Checkpoint.{TargetMeta}
use etl_server_cloudberry.Target.Apply.{Database, ApplyRequest, execute_apply}
use etl_server_cloudberry.Target.Apply.Executed.{
  activate, apply, serve_all, execute_apply-fenced_out,
}
use etl_server_cloudberry.Examples.Target.{at_100-IsPast, at_100, fence_with, checkpoint_at}

-- A null value, a backslash with a tabulator, and an empty text.
abbrev three_cells : List Cell
three_cells = null ∷ text_cell (92 ∷ 9 ∷ []) ∷ text_cell [] ∷ []

abbrev three_fields : Bytes
three_fields = 92 ∷ 78 ∷ 9 ∷ 92 ∷ 92 ∷ 92 ∷ 116 ∷ 9 ∷ 10 ∷ []

three_encoded : encode_row three_cells ≡ ok three_fields
unfolding encode_row encode_rest encode_field encode_text_bytes escape
three_encoded = refl

read_row-encode_row_example : read_row three_fields ≡ some three_cells
read_row-encode_row_example = read_row-encode_row three_cells three_fields three_encoded

-- A database whose data is the number of rows that were copied in.
abbrev pub counting : Database ℕ
counting = record {
  batch_execute = λ sql d. ok d;
  copy_in = λ sql d. ok d;
  finish_copy = λ rows d. ok (length rows, d + length rows);
  query_bool = λ sql d. ok false;
  execute = λ sql d. ok (1, d);
  commit = λ d. ok d;
}

-- Of the owner with the token.
abbrev request_of : ℕ → ApplyRequest
request_of token = record { fence = fence_with token; checkpoint = checkpoint_at 200; tables = [] }

execute_apply-fenced_out_example :
    execute_apply counting
      (serve_all counting (at_100, 0) (apply (request_of 2) ∷ activate (fence_with 3) ∷ [])).0
      (serve_all counting (at_100, 0) (apply (request_of 2) ∷ activate (fence_with 3) ∷ [])).1
      (request_of 1)
    ≢ ok (
      record {
        counts = record {
          staged_rows = 0;
          deleted_rows = 0;
          moved_rows = 0;
          updated_rows = 0;
          inserted_rows = 0;
        };
        checkpoint = etl_server_cloudberry.Target.Checkpoint.unchanged;
      },
      (at_100, 0),
    )
execute_apply-fenced_out_example =
    execute_apply-fenced_out counting (apply (request_of 2) ∷ activate (fence_with 3) ∷ [])
      (at_100, 0) (request_of 1) at_100-IsPast _
