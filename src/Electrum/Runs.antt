-- ===== src/Electrum/Runs.antt =====
-- Concrete calls of internal/electrum, and the theorems on them.
use electrum_go.Base.{
  reverse, ℕ, ◌+◌, ◌-◌, ◌%◌, ◌≤◌, ◌<◌, ◌≡◌, ◌↔◌, refl, true, List, [], ◌∷◌, length, arith,
  replicate, All,
}
use electrum_go.Base.Int.{pos}
use electrum_go.Base.Bytes.{Bytes, IsBytes, all_bytes, all_bytes-IsBytes}
use electrum_go.Base.Map.{nat_eq, bytes_key, has}
use electrum_go.Base.Result.{ok}
use electrum_go.Electrum.StatusCache.{get_if_clean, found}
use electrum_go.Electrum.StatusCache.History.{
  Step, clean, stale, stale_many, latest, get_if_clean-run,
}
use electrum_go.Electrum.Subscriptions.{is_scripthash_subscribed, notify_scripthash}
use electrum_go.Electrum.Subscriptions.{status_value, notify_new_block}
use electrum_go.Electrum.Subscriptions.Notify.{
  is_addressed, is_header_addressed, notify_scripthash-run, notify_new_block-run,
}
use electrum_go.Base.Sets.{NoneEmpty}
use electrum_go.Electrum.Subscriptions.History.{
  Call, subscribe, leave, subscribe_to_headers, disconnect, wanted, headers_wanted, in_subs,
  in_conn, membership-run, is_scripthash_subscribed-run,
}
use electrum_go.Electrum.Merkle.{
  MerkleProof, branch_loop, build_merkle_branch, get_transaction_merkle_proof,
}
use electrum_go.Electrum.Merkle.Branch.{merkle_root}
use electrum_go.Electrum.Merkle.Tree.{
  leaf, tree, neighbours, get_transaction_merkle_proof-neighbours,
}
use electrum_go.Electrum.Merkle.Client.{client_root, climb, client_root-climb}
use electrum_go.Electrum.Merkle.Edge.{depth, last_of_odd_block_is_short}
use electrum_go.Electrum.Merkle.Proof.{rounds_are_enough}
use electrum_go.Electrum.Subscriptions.History as Calls
use electrum_go.Electrum.StatusCache.History as Steps
use electrum_go.Electrum.Subscriptions.{SubscriptionManager}
use electrum_go.Storage.Keys.{first}

abbrev a : Bytes
a = 97 ∷ 97 ∷ []

abbrev c : Bytes
c = 98 ∷ 98 ∷ []

abbrev steps : List Step
steps = clean a (120 ∷ []) ∷ stale_many (a ∷ c ∷ []) ∷ clean c (121 ∷ []) ∷ []

get_if_clean-run_example : get_if_clean (Steps.run steps) a ≡ found (latest a steps)
get_if_clean-run_example = get_if_clean-run steps a

-- The latest call first.
abbrev calls : List Call
calls =
    disconnect 2
    ∷ leave 1 a
    ∷ subscribe_to_headers 1
    ∷ subscribe 2 a
    ∷ subscribe 1 c
    ∷ subscribe 1 a
    ∷ []

abbrev after : SubscriptionManager
after = Calls.run calls

membership-run_example :
    (in_subs after 1 c ≡ wanted 1 c calls)
    × (in_conn after 1 c ≡ wanted 1 c calls)
    × (has after.header_subs 1 ≡ headers_wanted 1 calls)
membership-run_example = membership-run calls 1 c

is_scripthash_subscribed-run_example :
    ((is_scripthash_subscribed after c ≡ true) ↔ ((w : ℕ) × (wanted w c calls ≡ true)))
    × NoneEmpty after.scripthash_subs
    × NoneEmpty after.conn_scripthash
is_scripthash_subscribed-run_example = is_scripthash_subscribed-run calls c

notify_scripthash-run_example :
    (is_addressed 1 (notify_scripthash after c (120 ∷ [])) ≡ wanted 1 c calls)
    × All
        (λ n. (n.scripthash ≡ c) × (n.status ≡ status_value (120 ∷ [])))
        (notify_scripthash after c (120 ∷ []))
notify_scripthash-run_example = notify_scripthash-run calls c (120 ∷ []) 1

notify_new_block-run_example :
    (is_header_addressed 1 (notify_new_block after (pos 8) a) ≡ headers_wanted 1 calls)
    × All (λ n. (n.height ≡ pos 8) × (n.hex ≡ a)) (notify_new_block after (pos 8) a)
notify_new_block-run_example = notify_new_block-run calls (pos 8) a 1

-- A hash function that returns 32 bytes.
abbrev toy_hash : Bytes → Bytes
toy_hash bs = (length bs + first bs) % 256 ∷ replicate 31 1

toy_hash-IsBytes : (bs : Bytes) → IsBytes (toy_hash bs)
toy_hash-IsBytes bs = (omega arith, all_bytes-IsBytes (replicate 31 1) (unfold all_bytes in refl))

abbrev t1 : Bytes
t1 = replicate 32 1

abbrev t2 : Bytes
t2 = replicate 32 2

abbrev t3 : Bytes
t3 = replicate 32 3

abbrev four : List Bytes
four = t1 ∷ t2 ∷ t3 ∷ t2 ∷ []

abbrev three : List Bytes
three = t1 ∷ t2 ∷ t3 ∷ []

replicate-IsBytes : (n : ℕ) → n < 256 → IsBytes (replicate 32 n)
replicate-IsBytes n h = omega arith

four-IsBytes : All IsBytes four
four-IsBytes = (
  replicate-IsBytes 1 (omega arith),
  (
    replicate-IsBytes 2 (omega arith),
    (replicate-IsBytes 3 (omega arith), (replicate-IsBytes 2 (omega arith), tt)),
  ),
)

toy_hash-sized : (bs : Bytes) → length (toy_hash bs) ≡ 32
toy_hash-sized bs = refl

get_transaction_merkle_proof-neighbours_example :
    (m : ℕ) × (m ≤ 2)
    × (leaf three m ≡ leaf three 2)
    × (get_transaction_merkle_proof toy_hash (ok three) (leaf three 2) (pos 8)
        ≡ ok (record {
          block_height = pos 8;
          pos = m;
          merkle = neighbours toy_hash three (depth (length three) (length three)) 0 m;
        }))
get_transaction_merkle_proof-neighbours_example =
    get_transaction_merkle_proof-neighbours toy_hash toy_hash-sized three 2 (pos 8)
      (refl, (refl, (refl, tt))) (omega arith)

client_root-climb_example :
    (proof : MerkleProof) × (get_transaction_merkle_proof toy_hash (ok four) (leaf four 3) (pos 8)
      ≡ ok proof)
    × (client_root toy_hash proof.merkle proof.pos (leaf four 3)
        ≡ ok (climb toy_hash four reverse 2 0 proof.pos (leaf four 3)))
    × (climb toy_hash four (λ b. b) 2 0 proof.pos (leaf four 3) ≡ tree toy_hash four 2 0)
client_root-climb_example =
    client_root-climb toy_hash toy_hash-IsBytes toy_hash-sized four 2 3 (pos 8) four-IsBytes
      (refl, (refl, (refl, (refl, tt)))) refl (omega arith)

last_of_odd_block_is_short_example :
    length (build_merkle_branch toy_hash three (length three - 1))
    < depth (length three) (length three)
last_of_odd_block_is_short_example = last_of_odd_block_is_short toy_hash three 0 refl

rounds_are_enough_example :
    (branch_loop toy_hash (length three + 5) three 2 ≡ branch_loop toy_hash (length three) three 2)
    × (merkle_root toy_hash (length three + 5) three ≡ merkle_root toy_hash (length three) three)
rounds_are_enough_example = rounds_are_enough toy_hash three 2 5
