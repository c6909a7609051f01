-- ===== src/Tide.antt =====
-- src/core/consensus/tide.rs: the operations of the finality gadget. A call is a function from the
-- state to its result and the new state: what was written before an error stays written. The clock
-- (`now`, what `now_ms` returns), the `ring` verifier and the `bincode` encoder are parameters.
pub mod State
pub mod Count
pub mod Gather
pub mod Steps
pub mod Effects
pub mod Invariant
pub mod Justified
pub mod Agreement
pub mod Certificates
pub mod Accountable
pub mod Replay
pub mod Offences
pub mod Equivocation
pub mod Quorum
pub mod Freshness
use amunchain.Base.{
  ℕ, ◌+◌, ◌-◌, ◌*◌, ◌/◌, Bytes, Option, none, some, Bool, true, false, not, ◌&&◌, ◌||◌, List, [],
  ◌∷◌, Result, ok, err, ok_or, length, ltb, leb, ◌==◌, if◌then◌else◌, sat_add, u64_max,
}
use amunchain.Order.{Ord, ◌=?◌, nat_ord, pair_ord}
use amunchain.BtreeMap.{BtreeMap, BtreeSet, get, get_or, contains, insert}
use amunchain.Types.{
  H256, Signature, ValidatorId, Vote, Commit, hash_ord, validator_ord, as_public_key_bytes,
}
use amunchain.Keystore.{verify_pubkey_bytes}
use amunchain.Signing.{vote_signing_bytes_auto}
use State.{
  TideError, replay, unknown_validator, bad_signature, double_vote, not_enough_votes, signing,
  Slashing, TideConfig, VoteMeta, meta_ord, ReplayState, Entry, VoteMap, Votes, TideFinalizer,
  Outside, Action, ◌>>=◌, ◌>>◌, lift, gets, ensure,
}

-- `check_freshness`; a legacy message has neither a timestamp nor a time to live.
unfoldable pub check_freshness : ℕ → TideConfig → ℕ → ℕ → Result TideError (Unit {0})
check_freshness now cfg sent_ts_ms ttl_ms =
    let skew = if leb sent_ts_ms now then now - sent_ts_ms else sent_ts_ms - now in
    let expiry = sat_add u64_max sent_ts_ms ttl_ms in
    if sent_ts_ms == 0 && ttl_ms == 0
    then ok tt
    else if not (ttl_ms == 0) && ltb cfg.max_ttl_ms ttl_ms
    then err replay
    else if now == 0
    then err replay
    else if not (sent_ts_ms == 0) && ltb cfg.max_clock_skew_ms skew
    then err replay
    else if (not (sent_ts_ms == 0) && not (ttl_ms == 0))
        && ltb (sat_add u64_max expiry cfg.max_clock_skew_ms) now
    then err replay
    else ok tt

-- The test of `check_replay_counter` against the stored state of the voter.
unfoldable pub is_replayed : Option ReplayState → ℕ → ℕ → ℕ → Bool
is_replayed none epoch msg_counter sent_ts_ms = false
is_replayed (some prev) epoch msg_counter sent_ts_ms =
    prev.epoch == epoch
    && ((not (msg_counter == 0) && leb msg_counter prev.last_counter)
        || (not (sent_ts_ms == 0)
            && (not (prev.last_sent_ts_ms == 0) && ltb sent_ts_ms prev.last_sent_ts_ms)))

-- The number of votes that a commit needs.
unfoldable pub threshold : TideConfig → ℕ
threshold cfg = 2 * length cfg.validators / 3 + 1

-- `*counts.entry(key).or_insert(0) += 1`
abbrev pub bump {ℓ} : {K : Type ℓ} ⦃o : Ord K⦄ → K → BtreeMap K ℕ → BtreeMap K ℕ
bump k counts = insert k (get_or 0 k counts + 1) counts

-- The loops of `try_build_commit`: count the votes, look for a key with enough of them, and
-- gather its signatures.
unfoldable pub count_votes : VoteMap → BtreeMap (H256 × VoteMeta) ℕ → BtreeMap (H256 × VoteMeta) ℕ
count_votes [] counts = counts
count_votes ((vid, e) ∷ rm) counts = count_votes rm (bump (e.hash, e.meta) counts)

unfoldable pub find_quorum {ℓ} : {K : Type ℓ} → ℕ → BtreeMap K ℕ → Option K
find_quorum needed [] = none
find_quorum needed ((k, c) ∷ counts) = if leb needed c then some k else find_quorum needed counts

unfoldable pub gather :
    H256 → VoteMeta → VoteMap → BtreeMap ValidatorId Signature → BtreeMap ValidatorId Signature
gather hash meta [] sigs = sigs
gather hash meta ((vid, e) ∷ rm) sigs =
    gather hash meta rm
      (if (e.hash =? hash) && (e.meta =? meta) then insert vid e.signature sigs else sigs)

unfoldable pub make_commit : ℕ → ℕ → H256 → VoteMeta → VoteMap → Commit
make_commit height round hash meta rm = record {
  height = height;
  round = round;
  epoch = meta.epoch;
  msg_counter = meta.msg_counter;
  sent_ts_ms = meta.sent_ts_ms;
  ttl_ms = meta.ttl_ms;
  block_hash = hash;
  signatures = gather hash meta rm [];
}

unfoldable pub build_from : TideConfig → ℕ → ℕ → VoteMap → Option Commit
build_from cfg height round rm = elim (find_quorum (threshold cfg) (count_votes rm [])) [
  | none ↦ none
  | some (hash, meta) ↦ some (make_commit height round hash meta rm)
]

-- `try_build_commit`: both maps must have their key.
unfoldable pub try_build_commit : TideConfig → Votes → ℕ → ℕ → Option Commit
unfolding build_from
try_build_commit cfg votes height round = elim (get height votes) [
  | none ↦ none
  | some hm ↦ elim (get round hm) [ none ↦ none | some rm ↦ build_from cfg height round rm ]
]

abbrev pub meta_of : Vote → VoteMeta
meta_of v = record {
  epoch = v.epoch;
  msg_counter = v.msg_counter;
  sent_ts_ms = v.sent_ts_ms;
  ttl_ms = v.ttl_ms;
}

abbrev pub entry_of : Vote → Entry
entry_of v = record { hash = v.block_hash; signature = v.signature; meta = meta_of v }

-- The votes stored for a height and a round; `entry(..).or_default()` finds an empty map.
abbrev pub round_votes : ℕ → ℕ → Votes → VoteMap
round_votes height round votes = get_or [] round (get_or [] height votes)

abbrev pub set_round : ℕ → ℕ → VoteMap → Votes → Votes
set_round height round rm votes = insert height (insert round rm (get_or [] height votes)) votes

-- The vote for which a commit carries a validator's signature.
abbrev pub vote_in : Commit → ValidatorId → Signature → Vote
vote_in c vid sig = record {
  height = c.height;
  round = c.round;
  epoch = c.epoch;
  msg_counter = c.msg_counter;
  sent_ts_ms = c.sent_ts_ms;
  ttl_ms = c.ttl_ms;
  block_hash = c.block_hash;
  voter = vid;
  signature = sig;
}

-- The first loop of `process_commit_verified`, over the signers.
unfoldable pub all_known : TideConfig → BtreeMap ValidatorId Signature → Bool
all_known cfg [] = true
all_known cfg ((vid, sig) ∷ sigs) = contains vid cfg.validators && all_known cfg sigs

module _ (out : Outside) where
  -- The signature check that votes and commits share: the key, the signed bytes, the verifier.
  unfoldable pub check_signature : Vote → Result TideError (Unit {0})
  unfolding as_public_key_bytes vote_signing_bytes_auto verify_pubkey_bytes
  check_signature v = elim (as_public_key_bytes v.voter) [
    | none ↦ err bad_signature
    | some pk_bytes ↦
        elim (vote_signing_bytes_auto out.bincode v.height v.round v.epoch v.msg_counter
          v.sent_ts_ms v.ttl_ms v.block_hash v.voter) [
            | err _ ↦ err signing
            | ok msg ↦ elim (verify_pubkey_bytes out.verify pk_bytes msg v.signature) [
              | err _ ↦ err bad_signature
              | ok _ ↦ ok tt
            ]
          ]
  ]

  -- The second loop of `process_commit_verified`, over the signatures.
  unfoldable pub check_signatures :
      Commit → BtreeMap ValidatorId Signature → Result TideError (Unit {0})
  check_signatures c [] = ok tt
  check_signatures c ((vid, sig) ∷ sigs) =
      let rest = check_signatures c sigs in
      elim (check_signature (vote_in c vid sig)) [ err e ↦ err e | ok _ ↦ rest ]

  -- `process_commit_verified`; it reads the state and leaves it alone.
  unfoldable pub process_commit_verified : ℕ → Commit → TideConfig → Result TideError (Unit {0})
  unfolding check_freshness all_known check_signatures
  process_commit_verified now c cfg = elim (check_freshness now cfg c.sent_ts_ms c.ttl_ms) [
    | err e ↦ err e
    | ok _ ↦
        if cfg.require_epoch && c.epoch == 0
        then err replay
        else if not (all_known cfg c.signatures)
        then err unknown_validator
        else if ltb (length c.signatures) (threshold cfg)
        then err not_enough_votes
        else check_signatures c c.signatures
  ]

module _ {S : Type 0} ⦃slashes : Slashing S⦄ where
  -- `check_replay_counter`
  unfoldable pub check_replay_counter : ValidatorId → ℕ → ℕ → ℕ → Action S (Unit {0})
  unfolding is_replayed
  check_replay_counter voter epoch msg_counter sent_ts_ms t =
      if epoch == 0 && (msg_counter == 0 && sent_ts_ms == 0)
      then (if t.cfg.require_epoch then err replay else ok tt, t)
      else if t.cfg.require_epoch && epoch == 0
      then (err replay, t)
      else if is_replayed (get voter t.replay) epoch msg_counter sent_ts_ms
      then (err replay, t)
      else (
        ok tt,
        record t {
          replay =
              insert voter
                (record { epoch = epoch; last_counter = msg_counter; last_sent_ts_ms = sent_ts_ms })
                t.replay;
        },
      )

  -- `process_vote_inner`; the empty maps that `or_default` makes stay.
  unfoldable pub process_vote_inner : Vote → Action S (Option Commit)
  process_vote_inner v t =
      let rm = round_votes v.height v.round t.votes in
      elim (get v.voter rm) [
        | some prev ↦ (
          if not (prev.hash =? v.block_hash) || not (prev.meta =? meta_of v)
              then err double_vote
              else ok none,
          record t {
            slashing =
                if not (prev.hash =? v.block_hash) || not (prev.meta =? meta_of v)
                then slashes.on_double_vote v.voter t.slashing
                else t.slashing;
            votes = set_round v.height v.round rm t.votes;
          },
        )
        | none ↦
            let votes = set_round v.height v.round (insert v.voter (entry_of v) rm) t.votes in
            (ok (try_build_commit t.cfg votes v.height v.round), record t { votes = votes })
      ]

  -- `process_vote_verified`
  unfoldable pub process_vote_verified : Outside → ℕ → Vote → Action S (Option Commit)
  unfolding check_freshness check_replay_counter check_signature process_vote_inner
  process_vote_verified out now v = do
    cfg ← gets (λ t. t.cfg)
    ensure (contains v.voter cfg.validators) unknown_validator
    lift (check_freshness now cfg v.sent_ts_ms v.ttl_ms)
    check_replay_counter v.voter v.epoch v.msg_counter v.sent_ts_ms
    lift (check_signature out v)
    process_vote_inner v
