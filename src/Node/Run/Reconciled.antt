-- ===== src/Node/Run/Reconciled.antt =====
-- `run` (node/verifier_node.py) with `verify_epoch` in its loop: what the node has checked of the
-- epochs that it leaves behind.
use noethrion.Base.{
  ℕ, ◌≡◌, ◌≢◌, ◌≤◌, ◌<◌, subst, sym, Bool, true, false, ◌⊎◌, inl, inr, some, List, ◌==◌, Bool-cases,
  ==_iff,
}
use noethrion.Python.Result.{Result, ok, >>=-eq-ok}
use noethrion.Python.Bytes.{Bytes}
use noethrion.Python.Text.{Text}
use noethrion.Crypto.{Crypto}
use noethrion.Node.{Web3, OnChainBatch, DataDir, Detail, skip, Report}
use noethrion.Python.Json.{str}
use noethrion.Node.Epoch.{read_batch, verify_epoch}
use noethrion.Node.Epoch.Sound.{IsReconciled, verify_epoch-IsReconciled}
use noethrion.Node.Epoch.Closed.{IsClosed, verify_epoch-IsClosed}
use noethrion.Node.Run.{RunState, exit, round, run, initial, exited}
use noethrion.Node.Run.Invariant.{Reach, IsSound, Reach-IsSound}
use noethrion.Node.Run.Exit.{once_exit}

module _ (W : Web3) (sha256 : Bytes → Bytes) (C : Crypto) (attester_addr : Text) (chain_id : ℕ)
    (chain : ℕ → ℕ → Result OnChainBatch) (published : ℕ → DataDir) where
  -- The report of the round `t` on the epoch `e`, where `chain t e` is what `batches(e)` gives then and
  -- `published t` is what the directory holds then.
  abbrev pub watched : ℕ → ℕ → Result Report
  watched t e =
      verify_epoch W sha256 C attester_addr chain_id
        (read_batch W sha256 C attester_addr chain_id (chain t e)) e (published t)

  read_batch-ok :
      (call : Result OnChainBatch) {b : OnChainBatch}
      → read_batch W sha256 C attester_addr chain_id call ≡ ok b
      → call ≡ ok b
  read_batch-ok call h = (>>=-eq-ok (W.to_checksum_address (str attester_addr)) _ h).2

  -- The epoch `e` was final on the chain and reconciled in some round in front of the round `t`.
  pub record ReconciledBy (t e : ℕ) : Type 0 where
    pub at : ℕ
    pub before : at < t
    pub b : OnChainBatch
    pub read : chain at e ≡ ok b
    pub proposed : b.timestamp ≢ 0
    pub final : b.finalized ≡ true
    pub reconciled : IsReconciled W sha256 C attester_addr chain_id e (published at) b

  IsSound-ReconciledBy :
      (once : Bool) (start t : ℕ) {s : RunState}
      → IsSound once watched start t s
      → (e : ℕ) → start ≤ e
      → e < s.epoch
      → ReconciledBy t e
  IsSound-ReconciledBy once start t v e lo hi =
      let w = v.verified e lo hi in
      let (b, read, proposed, final, rec) =
        verify_epoch-IsReconciled W sha256 C attester_addr chain_id
          (read_batch W sha256 C attester_addr chain_id (chain w.at e)) e (published w.at)
          w.reports in
      record {
        at = w.at;
        before = w.before;
        b = b;
        read = read_batch-ok (chain w.at e) read;
        proposed = proposed;
        final = final;
        reconciled = rec;
      }

  -- The node as a whole, under `--once` and as a daemon: in whatever order the chain and the published
  -- directory change between the rounds, each epoch from the first up to the current one was final on
  -- the chain and reconciled with the directory in one of the rounds so far.
  pub Reach-ReconciledBy :
      (once : Bool) (start : ℕ) {t : ℕ} {s : RunState}
      → Reach once watched 0 (initial start) t s
      → (e : ℕ) → start ≤ e
      → e < s.epoch
      → ReconciledBy t e
  Reach-ReconciledBy once start {t} r =
      IsSound-ReconciledBy once start t (Reach-IsSound once watched start r)

  -- An epoch that is not final yet, as the chain was read.
  pub record IsOpen (read : Result OnChainBatch) : Type 0 where
    pub b : OnChainBatch
    pub is_read : read ≡ ok b
    pub pending : (b.timestamp ≡ 0) ⊎ (b.finalized ≡ false)

  called-IsOpen :
      (call : Result OnChainBatch)
      → IsOpen (read_batch W sha256 C attester_addr chain_id call)
      → IsOpen call
  called-IsOpen call v = record {
    b = v.b;
    is_read = read_batch-ok call v.is_read;
    pending = v.pending;
  }

  verify_epoch-IsOpen :
      (read : Result OnChainBatch) (epoch : ℕ) (data_dir : DataDir) {details : List Detail}
      → verify_epoch W sha256 C attester_addr chain_id read epoch data_dir ≡ ok (skip, details)
      → IsOpen read
  unfolding verify_epoch
  verify_epoch-IsOpen read epoch data_dir h =
      let (b, hb, h₁) = >>=-eq-ok read _ h in
      elim (Bool-cases (b.timestamp == 0)) [
        | inl e ↦ record { b = b; is_read = hb; pending = inl ((==_iff b.timestamp 0).0 e) }
        | inr proposed ↦ elim (Bool-cases b.finalized) [
          | inr not_final ↦ record { b = b; is_read = hb; pending = inr not_final }
          | inl final ↦ absurd (
              subst IsClosed h₁ (
                verify_epoch-IsClosed W sha256 C attester_addr chain_id b epoch data_dir
                  (λ z. cc ((==_iff b.timestamp 0).1 z, proposed)) final))
        ]
      ]

  -- What exit code 0 of a connected `--once` run of at most `rounds` rounds with this final state
  -- stands for; `time` is the round that ended it.
  pub record UpToDate (start rounds : ℕ) (final : RunState) : Type 0 where
    pub time : ℕ
    pub in_time : time < rounds
    pub state : RunState
    pub reached : Reach true watched 0 (initial start) time state
    pub exits : round true state (watched time state.epoch) ≡ exit 0 final
    pub same_epoch : state.epoch ≡ final.epoch
    pub from_start : start ≤ final.epoch
    pub reconciled : (e : ℕ) → start ≤ e → e < final.epoch → ReconciledBy time e
    pub still_open : IsOpen (chain time final.epoch)

  -- Exit code 0 of a connected `--once` run is earned: the run ended in one of its rounds, which the
  -- rounds before it lead to; every epoch from the first up to the one of the final state was final on
  -- the chain and was reconciled in one of those earlier rounds; and the epoch of the final state was
  -- read from the chain in the last round and is not proposed or not final yet.
  pub once_zero-UpToDate :
      (start rounds : ℕ) {s : RunState}
      → run true true start watched rounds ≡ some (exited 0 s)
      → UpToDate start rounds s
  once_zero-UpToDate start rounds h =
      let x = once_exit watched start rounds 0 h in
      record {
        time = x.time;
        in_time = x.in_time;
        state = x.state;
        reached = x.reached;
        exits = x.exits;
        same_epoch = x.same_epoch;
        from_start = subst (λ e. start ≤ e) x.same_epoch x.sound.from_start;
        reconciled = λ e lo hi.
            IsSound-ReconciledBy true start x.time x.sound e lo
              (subst (λ l. e < l) (sym x.same_epoch) hi);
        still_open =
            subst (λ e. IsOpen (chain x.time e)) x.same_epoch
              (called-IsOpen (chain x.time x.state.epoch) (
                verify_epoch-IsOpen
                  (read_batch W sha256 C attester_addr chain_id (chain x.time x.state.epoch))
                  x.state.epoch (published x.time) x.explained.1));
      }
