-- ===== src/Replication/Feed.antt =====
-- replication.rs: `ChangeFeed` and `Follower`. A channel of crossbeam is a parameter: `send` gives
-- the channel after a message, or none if its receiver is gone.
use cassettedb.Prelude.{
  ℕ, suc, ◌+◌, ◌%◌, List, [], ◌∷◌, ◌++◌, length, drop, Option, none, some, String,
}
use cassettedb.Prelude.Errors.{Result, ok, err, ◌>>=◌}
use cassettedb.Prelude.Integers.{pos}
use cassettedb.Bytes.{Bytes}
use cassettedb.Wal.Records.{WalOp}
use cassettedb.Replication.Log.{
  ChangeRecord, ChangeCodec, ReplicationLog, append_change, reset_log, for_changes, open_log,
  u64_mod,
}

pub record ChangeFeed (C : Type 0) : Type 0 where
  pub log : ReplicationLog
  pub subscribers : List C

-- `subscribers.retain(|tx| tx.send(record.clone()).is_ok())`
unfoldable pub notify :
    {C : Type 0} → (C → ChangeRecord → Option C) → List C → ChangeRecord → List C
notify send [] r = []
notify send (c ∷ cs) r = elim (send c r) [
  | none ↦ notify send cs r
  | some c' ↦ c' ∷ notify send cs r
]

module _ (codec : ChangeCodec) where
  module _ {C : Type 0} (send : C → ChangeRecord → Option C) where
    -- The clock is read for the log and for the subscribers; both readings are `now`.
    unfoldable pub publish : ChangeFeed C → WalOp → String → Bytes → ℕ → Result (ChangeFeed C × ℕ)
    publish feed op doc_id payload now = do
      (log, seq) ← append_change codec feed.log op doc_id payload now
      ok (
        record {
          log = log;
          subscribers = notify send feed.subscribers (record {
            sequence = seq;
            op = op;
            doc_id = doc_id;
            payload = payload;
            timestamp = pos now;
          });
        },
        seq,
      )

  unfoldable pub subscribe : {C : Type 0} → ChangeFeed C → C → ChangeFeed C
  subscribe feed channel = record feed { subscribers = feed.subscribers ++ channel ∷ [] }

  unfoldable pub reset_feed : {C : Type 0} → ChangeFeed C → ChangeFeed C
  reset_feed feed = record feed { log = reset_log codec feed.log }

  abbrev pub push : List ChangeRecord → ChangeRecord → List ChangeRecord
  push changes r = changes ++ r ∷ []

  -- `Ok(changes)` after the loop; an error in it is returned, and the changes are dropped.
  abbrev pub all_or_error : List ChangeRecord → Result (Unit {0}) → Result (List ChangeRecord)
  all_or_error changes (err e) = err e
  all_or_error changes (ok _) = ok changes

  abbrev pub since :
      Option (List ChangeRecord × Result (Unit {0})) → Option (Result (List ChangeRecord))
  since none = none
  since (some (changes, end)) = some (all_or_error changes end)

  -- `ChangeFeed::changes_since`
  unfoldable pub changes_since :
      {C : Type 0} → ChangeFeed C → ℕ → Option (Result (List ChangeRecord))
  changes_since feed sequence =
      since (for_changes codec push (suc (length feed.log.file)) sequence [] (drop 6 feed.log.file))

  -- The `last_sequence` of a follower and the changes gathered so far.
  abbrev pub follow : ℕ × List ChangeRecord → ChangeRecord → ℕ × List ChangeRecord
  follow (last_sequence, changes) r = (r.sequence, changes ++ r ∷ [])

  abbrev pub followed :
      Option ((ℕ × List ChangeRecord) × Result (Unit {0})) → Option (ℕ × Result (List ChangeRecord))
  followed none = none
  followed (some ((last_sequence, changes), end)) = some (last_sequence, all_or_error changes end)

  abbrev pub polled : ℕ → Option (Result ReplicationLog) → Option (ℕ × Result (List ChangeRecord))
  polled last_sequence none = none
  polled last_sequence (some (err e)) = some (last_sequence, err e)
  polled last_sequence (some (ok log)) = followed (
      for_changes codec follow (suc (length log.file)) ((last_sequence + 1) % u64_mod)
        (last_sequence, []) (drop 6 log.file))

  -- `Follower::poll` of the log in this file: the new `last_sequence`, which an error leaves where
  -- it stands, and the changes.
  unfoldable pub poll : ℕ → Bytes → Option (ℕ × Result (List ChangeRecord))
  poll last_sequence file = polled last_sequence (open_log codec file)
