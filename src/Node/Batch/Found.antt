-- ===== src/Node/Batch/Found.antt =====
-- Which file `_load_batch_file` (node/verifier_node.py) takes, and that the file names the epoch.
use noethrion.Base.{
  ℕ, ◌≡◌, ◌≢◌, refl, sym, ap, ◌∙◌, true, false, Bool, Option, none, some, Bool-cases, inl, inr,
}
use mathlib.Core.Option.{some-injective}
use noethrion.Base.Int.{pos, int_eq, int_eq_iff}
use noethrion.Python.Result.{ok, raise, >>=-eq-ok, >>=-ok, ok_injective}
use noethrion.Python.Text.{codes}
use noethrion.Python.Json.{Json, Fields, null, boolean, int, float, str, arr, obj, get}
use noethrion.Node.{File, absent, present, DataDir}
use noethrion.Node.Batch.{is_unreadable, accept_epoch, load_candidate, load_batch_file}

-- The published batch of an epoch: the object in the file with the epoch's name, or in batch.json
-- where there is no such file.
pub data IsFound (data_dir : DataDir) (epoch : ℕ) (batch : Fields) : Type 0 where
  by_name : data_dir.batch_named epoch ≡ present (ok (obj batch)) → IsFound data_dir epoch batch
  shared :
      data_dir.batch_named epoch ≡ absent
      → data_dir.batch ≡ present (ok (obj batch))
      → IsFound data_dir epoch batch

-- The batch's own `epoch` is this integer.
abbrev pub NamesEpoch : ℕ → Fields → Type 0
NamesEpoch epoch batch = get (codes "epoch") batch ≡ some (int (pos epoch))

accept_epoch-some :
    (epoch : ℕ) (named : Bool) (d batch : Fields) (e : Option Json)
    → accept_epoch epoch named d e ≡ ok (some batch)
    → (e ≡ some (int (pos epoch))) × (d ≡ batch)
unfolding accept_epoch
accept_epoch-some epoch named d batch (some (int z)) h = elim (Bool-cases (int_eq z (pos epoch))) [
  | inl same ↦ (
    ap (λ k. some (int k)) ((int_eq_iff z (pos epoch)).0 same),
    some-injective _ _ (ok_injective (rw same at h)),
  )
  | inr other ↦ elim (Bool-cases named) [
    | inl n ↦ cc (rw (other, n) at h)
    | inr n ↦ cc (rw (other, n) at h)
  ]
]
accept_epoch-some epoch named d batch none h = cc
accept_epoch-some epoch named d batch (some null) h = cc
accept_epoch-some epoch named d batch (some (boolean b)) h = cc
accept_epoch-some epoch named d batch (some (float f)) h = cc
accept_epoch-some epoch named d batch (some (str s)) h = cc
accept_epoch-some epoch named d batch (some (arr js)) h = cc
accept_epoch-some epoch named d batch (some (obj o)) h = cc

-- The file with the epoch's name is taken or refused, never passed over.
accept_epoch_named :
    (epoch : ℕ) (d : Fields) (e : Option Json) → accept_epoch epoch true d e ≢ ok none
unfolding accept_epoch
accept_epoch_named epoch d (some (int z)) h = elim (Bool-cases (int_eq z (pos epoch))) [
  | inl same ↦ cc (rw same at h)
  | inr other ↦ cc (rw other at h)
]
accept_epoch_named epoch d none h = cc
accept_epoch_named epoch d (some null) h = cc
accept_epoch_named epoch d (some (boolean b)) h = cc
accept_epoch_named epoch d (some (float f)) h = cc
accept_epoch_named epoch d (some (str s)) h = cc
accept_epoch_named epoch d (some (arr js)) h = cc
accept_epoch_named epoch d (some (obj o)) h = cc

load_candidate-some :
    (epoch : ℕ) (named : Bool) (file : File Json) {batch : Fields}
    → load_candidate epoch named file ≡ ok (some batch)
    → (file ≡ present (ok (obj batch))) × NamesEpoch epoch batch
unfolding load_candidate
load_candidate-some epoch named absent h = cc
load_candidate-some epoch named (present (raise e)) h = elim (Bool-cases (is_unreadable e)) [
  | inl u ↦ cc (rw u at h)
  | inr u ↦ cc (rw u at h)
]
load_candidate-some epoch named (present (ok (obj d))) {batch} h =
    let (names, same) = accept_epoch-some epoch named d batch (get (codes "epoch") d) h in
    (ap (λ o. present (ok (obj o))) same, ap (λ o. get (codes "epoch") o) (sym same) ∙ names)
load_candidate-some epoch named (present (ok null)) h = cc
load_candidate-some epoch named (present (ok (boolean b))) h = cc
load_candidate-some epoch named (present (ok (int n))) h = cc
load_candidate-some epoch named (present (ok (float f))) h = cc
load_candidate-some epoch named (present (ok (str s))) h = cc
load_candidate-some epoch named (present (ok (arr js))) h = cc

load_candidate-none :
    (epoch : ℕ) (file : File Json) → load_candidate epoch true file ≡ ok none → file ≡ absent
unfolding load_candidate
load_candidate-none epoch absent h = refl
load_candidate-none epoch (present (raise e)) h = elim (Bool-cases (is_unreadable e)) [
  | inl u ↦ cc (rw u at h)
  | inr u ↦ cc (rw u at h)
]
load_candidate-none epoch (present (ok (obj d))) h =
    absurd (accept_epoch_named epoch d (get (codes "epoch") d) h)
load_candidate-none epoch (present (ok null)) h = cc
load_candidate-none epoch (present (ok (boolean b))) h = cc
load_candidate-none epoch (present (ok (int n))) h = cc
load_candidate-none epoch (present (ok (float f))) h = cc
load_candidate-none epoch (present (ok (str s))) h = cc
load_candidate-none epoch (present (ok (arr js))) h = cc

-- A batch is taken only from the epoch's file, and names the epoch.
pub load_batch_file-IsFound :
    (data_dir : DataDir) (epoch : ℕ) {batch : Fields}
    → load_batch_file data_dir epoch ≡ ok (some batch)
    → IsFound data_dir epoch batch × NamesEpoch epoch batch
unfolding load_batch_file
load_batch_file-IsFound data_dir epoch {batch} h =
    let (first, hf, h₁) = >>=-eq-ok (load_candidate epoch true (data_dir.batch_named epoch)) _ h in
    go first hf h₁
  where
    go :
        (first : Option Fields)
        → load_candidate epoch true (data_dir.batch_named epoch) ≡ ok first
        → (elim first [ some d ↦ ok (some d) | none ↦ load_candidate epoch false data_dir.batch ])
          ≡ ok (some batch)
        → IsFound data_dir epoch batch × NamesEpoch epoch batch
    go (some d) hf k =
        let (at, names) =
          load_candidate-some epoch true (data_dir.batch_named epoch) {batch = batch} (hf ∙ k) in
        (by_name at, names)
    go none hf k =
        let (at, names) = load_candidate-some epoch false data_dir.batch k in
        (shared (load_candidate-none epoch (data_dir.batch_named epoch) hf) at, names)

load_candidate-NamesEpoch :
    (epoch : ℕ) (named : Bool) (batch : Fields)
    → NamesEpoch epoch batch
    → load_candidate epoch named (present (ok (obj batch))) ≡ ok (some batch)
unfolding load_candidate accept_epoch
load_candidate-NamesEpoch epoch named batch names =
    let same : int_eq (pos epoch) (pos epoch) ≡ true =
      (int_eq_iff (pos epoch) (pos epoch)).1 refl in
    rw (names, same, accept_epoch) refl

-- A batch in the epoch's file that names the epoch is taken.
pub IsFound-load_batch_file :
    (data_dir : DataDir) (epoch : ℕ) (batch : Fields)
    → IsFound data_dir epoch batch
    → NamesEpoch epoch batch
    → load_batch_file data_dir epoch ≡ ok (some batch)
unfolding load_batch_file
IsFound-load_batch_file data_dir epoch batch (by_name at) names =
    >>=-ok _ (ap (load_candidate epoch true) at ∙ load_candidate-NamesEpoch epoch true batch names)
IsFound-load_batch_file data_dir epoch batch (shared gone at) names =
    >>=-ok _ (ap (load_candidate epoch true) gone ∙ (unfold load_candidate in refl))
    ∙ ap (load_candidate epoch false) at
    ∙ load_candidate-NamesEpoch epoch false batch names
