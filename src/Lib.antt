-- ===== src/Lib.antt =====
-- Noethrion: hardware-attested energy certificates. This library models the off-chain Python code:
-- the key and signing helper, the builder of a batch, the two verifiers of single claims, the
-- verifier node, the script that compares leaves, and the script that draws the social cards.
--
-- The parts and how they interact. A device's key and test attestations come from
-- tools/provision_atecc.py. The builder (examples/lifecycle/03_build_merkle_tree.py) hashes
-- claims into leaves and the leaves into a Merkle root with one proof for each leaf; the root goes on
-- the chain, the batch is published. An integrator checks one claim with the library
-- (examples/integrators/python_verifier_library.py) or the tool (tools/verify_attestation.py). The
-- node (node/verifier_node.py) takes epoch after epoch, reads the root and the total from the chain,
-- re-derives all published leaves, and calls the tool for the proofs and the device's signature. The
-- script node/_leaf_equiv_test.py runs the tool's command line and compares its leaf with the node's.
-- tools/render_social_assets.py stands alone.
--
--   Base, Base/*      natural numbers, lists, integers: names passed on, and the lemmas shared
--   Python, Python/*  what the code uses of Python: Result (exceptions), Bytes, Hex, Text, Utf8, Json,
--                     Number (int), Split, Print (str(n), json.dumps), Decimal (int(str(n))), and
--                     Options and Argparse: parse_args on the texts of a command line
--   Crypto            the package cryptography as a record of operations
--   Leaf              _addr_to_32, abi_encode_leaf, leaf_hash of the builder; _compute_leaf of the
--                     library; Leaf/Tool: _addr_to_32, _compute_leaf_impl of the tool
--   Merkle            hash_pair, build_tree of the builder, a function for each loop
--   Tool/Proof        _verify_merkle_proof_impl; Tool/Signature: _load_attestation, _load_pubkey,
--                     _verify_signature; Tool/Commands: the cmd_* functions and the exit status;
--                     Tool/Main: build_parser and main
--   Library           NoethrionVerifier: __init__, verify_signature, verify_merkle, verify
--   Node              the node's values; Node/Batch: _load_batch_file; Node/Leaves: compute_leaf and
--                     the loop over the leaves; Node/Epoch: _verify_finalized_epoch, verify_epoch;
--                     Node/Run: run, with verify_epoch in Node/Run/Reconciled; Node/Main: main
--   Provision         tools/provision_atecc.py: the key files as a disk, cmd_generate_key,
--                     cmd_show_pubkey, cmd_sign_test, cmd_export_onchain; Provision/Main:
--                     build_parser and main
--   LeafEquiv         node/_leaf_equiv_test.py, on any vector
--   Render            tools/render_social_assets.py: images as lists of drawing calls
--   Publish           main of the builder: the sample entries, the document and batch.json as a run
--                     leaves it; Publish/Accepted, Publish/Sample: with the node on that file
--   Tests/*           concrete values, runs and examples
--
-- Data. Bytes are lists of numbers, texts are lists of code points, JSON values are a data type. The
-- case functions are ASCII: other letters are no hexadecimal digits, so that only the class of an error
-- can differ. int() of a text reads the decimal digits and the white space of Unicode 15.0, as Python
-- 3.12 does. A float is what int() makes of it.
-- An epoch is a natural number. A file is absent or gives the result of opening and reading it. The
-- texts of messages are constructors that say which message it is; prints and logs are left out, save
-- the tool's checksum warning, which is a result.
--
-- Parameters. keccak256 and sha256 (pycryptodome, hashlib), the package cryptography (the records
-- Crypto and Signer), web3 and eth_abi (the record Web3) are arguments of the definitions. Of
-- keccak256 some theorems assume that a digest is 32 bytes (IsDigest); of eth_abi that it encodes as
-- the contract's abi.encode does and refuses other values (IsAbi in Node/Abi), or encodes every
-- claim (IsEncoder in Publish/Accepted, where web3 takes the cases of an address to one checksum
-- form); of cryptography that PEM is read back and that a signature is good under the public key of
-- its maker (IsEcdsa in Provision/Lifecycle), and that an uncompressed point is 0x04, x and y
-- (IsPoint in Provision/Show). Pillow and the operating system are the record Computer in Render.
-- What sign-test prints is taken as the object that the tool loads. No theorem assumes that there is
-- no collision: where two inputs may collide, the theorem says which ones (Collision, among the
-- inputs hashed on the way).
--
-- Fuel. The padding loop gets one round for each leaf and the level loop one for each padded leaf;
-- both end by their own tests. `while True` of the node gets a number of rounds, and `none` says that
-- the run goes on after them.
--
-- The command line. argparse is written out as Python 3.12.0 has it, for parsers like the ones here:
-- abbreviated flags, `--flag=value`, negative numbers as values, `-h`, an ambiguous abbreviation
-- refused before any option is looked at, and no `--`. A usage error is status 2. Which arguments
-- are negative numbers is told by ASCII digits.
--
-- Not modelled: the PASS and FAIL lines, the logs and the notes that are printed; the tool's refusal
-- where pycryptodome is not installed (`except ImportError`), since the digest is a parameter; what
-- verify_epoch reports on a negative epoch or chain id, which the ABI does not encode (an argument
-- of Node/Main); the time between the node's rounds, so that its interval is taken as one that
-- time.sleep accepts; the Go, TypeScript, Solidity and C++ code.
pub mod Base
pub mod Python
pub mod Leaf
pub mod Merkle
pub mod Tool
pub mod Crypto
pub mod Library
pub mod Node
pub mod Provision
pub mod LeafEquiv
pub mod Render
pub mod Publish
mod Tests
