-- ===== src/Publish/Accepted/Share.antt =====
-- The entries of an honest batch (`LEAVES_INPUT` of examples/lifecycle/03_build_merkle_tree.py) with
-- the claims behind them.
use noethrion.Base.{ℕ, List, map}
use noethrion.Python.Bytes.{Bytes}
use noethrion.Python.Text.{Text}
use noethrion.Leaf.Encoding.{Claim, IsClaim}
use noethrion.Leaf.Casing.{IsWritten}
use noethrion.Publish.{Entry}

-- A beneficiary's part of the batch: the address, the text that it is written as, and the amount.
pub record Share : Type 0 where
  pub beneficiary : Bytes
  pub address : Text
  pub amount : ℕ

abbrev pub entry_of : Share → Entry
entry_of x = record { beneficiary = x.address; amount_wei = x.amount }

abbrev pub entries_of : List Share → List Entry
entries_of shares = map entry_of shares

module _ (chain_id : ℕ) (attester : Bytes) (epoch : ℕ) where
  abbrev pub claim_of : Share → Claim
  claim_of x = record {
    chain_id = chain_id;
    attester = attester;
    beneficiary = x.beneficiary;
    amount = x.amount;
    epoch = epoch;
  }

  -- The claim fits the contract's types, and the text is the address in any mix of cases.
  pub record IsShare (x : Share) : Type 0 where
    pub claim : IsClaim (claim_of x)
    pub written : IsWritten x.address x.beneficiary
