-- ===== src/Node/Batch.antt =====
-- `_load_batch_file` of node/verifier_node.py.
pub mod Found
use noethrion.Base.{ℕ, Bool, true, false, Option, none, some, if◌then◌else◌}
use noethrion.Base.Int.{pos, int_eq}
use noethrion.Python.Result.{
  Exn, Result, ok, raise, json_decode_error, os_error, unicode_decode_error, malformed_batch, ◌>>=◌,
}
use noethrion.Python.Text.{codes}
use noethrion.Python.Json.{Json, Fields, int, obj, get}
use noethrion.Node.{File, absent, present, DataDir}

-- `except (JSONDecodeError, OSError, UnicodeDecodeError)`
abbrev pub is_unreadable : Exn → Bool
is_unreadable json_decode_error = true
is_unreadable os_error = true
is_unreadable unicode_decode_error = true
is_unreadable _ = false

-- The test on the file's `epoch`, which must be a JSON integer. `named` is the name with the epoch.
unfoldable pub accept_epoch : ℕ → Bool → Fields → Option Json → Result (Option Fields)
accept_epoch epoch named d (some (int file_epoch)) =
    if int_eq file_epoch (pos epoch)
    then ok (some d)
    else if named
    then raise malformed_batch
    else ok none
accept_epoch epoch named d _ = raise malformed_batch

-- One round of the loop over the two names: `none` goes on to the next name.
unfoldable pub load_candidate : ℕ → Bool → File Json → Result (Option Fields)
unfolding accept_epoch
load_candidate epoch named absent = ok none
load_candidate epoch named (present (raise e)) =
    if is_unreadable e then raise malformed_batch else raise e
load_candidate epoch named (present (ok (obj d))) =
    accept_epoch epoch named d (get (codes "epoch") d)
load_candidate epoch named (present (ok _)) = raise malformed_batch

unfoldable pub load_batch_file : DataDir → ℕ → Result (Option Fields)
unfolding load_candidate
load_batch_file data_dir epoch = do
  first ← load_candidate epoch true (data_dir.batch_named epoch)
  elim first [ some d ↦ ok (some d) | none ↦ load_candidate epoch false data_dir.batch ]
