-- ===== src/Wal/Recovery.antt =====
-- wal.rs: the transactions of a log and what their recovery applies.
use mathlib.Core.Path.{fun_ext}
use cassettedb.Prelude.{
  ==_iff, Bool-cases, inl, inr, ℕ, ◌≡◌, refl, sym, ap, ◌∙◌, List, [], ◌∷◌, ◌++◌, length,
  append_assoc, append_nil, if◌then◌else◌, Bool, true, false, Option, none, some, All,
}
use cassettedb.Prelude.Errors.{Result, ok, ◌>>=◌, >>=-assoc}
use cassettedb.Bytes.{Bytes}
use cassettedb.Wal.Records.{WalEntry, begin, insert, update, delete, commit, abort, Codec, Wal}
use cassettedb.Wal.Replay.{ReplayState, idle, apply_all, on_entry, replay, run_entries}
use cassettedb.Wal.Logged.{Holds, replay_entries}

abbrev pub is_operation : {V : Type 0} → WalEntry V → Bool
is_operation (begin tx_id) = false
is_operation (commit tx_id) = false
is_operation (abort tx_id) = false
is_operation _ = true

pub record Transaction (V : Type 0) : Type 0 where
  pub id : ℕ
  pub body : List (WalEntry V)
  pub committed : Bool

module _ {V : Type 0} where
  abbrev pub ending : Transaction V → WalEntry V
  ending t = if t.committed then commit t.id else abort t.id

  abbrev pub log_of : List (Transaction V) → List (WalEntry V)
  log_of [] = []
  log_of (t ∷ ts) = begin t.id ∷ (t.body ++ (ending t ∷ log_of ts))

  -- The operations of the committed transactions, in their order.
  abbrev pub committed_ops : List (Transaction V) → List (WalEntry V)
  committed_ops [] = []
  committed_ops (t ∷ ts) = (if t.committed then t.body else []) ++ committed_ops ts

  -- The entries of a transaction that has neither committed nor aborted.
  abbrev pub unfinished : Option (Transaction V) → List (WalEntry V)
  unfinished none = []
  unfinished (some t) = begin t.id ∷ t.body

  abbrev pub Operations : Transaction V → Type 0
  Operations t = All (λ e. is_operation e ≡ true) t.body

  abbrev OperationsOf : Option (Transaction V) → Type 0
  OperationsOf none = Unit
  OperationsOf (some t) = Operations t

module _ {V S : Type 0} (f : S → WalEntry V → Result S) where
  on_operation_within :
      (t : ℕ) (pending : List (WalEntry V)) (s : S) (e : WalEntry V)
      → is_operation e ≡ true
      → on_entry f (record { current_tx = some t; pending = pending }) s e
        ≡ ok (record { current_tx = some t; pending = pending ++ e ∷ [] }, s)
  unfolding on_entry
  on_operation_within t pending s (begin tx_id) h = cc h
  on_operation_within t pending s (commit tx_id) h = cc h
  on_operation_within t pending s (abort tx_id) h = cc h
  on_operation_within t pending s (insert tx_id collection doc) h = refl
  on_operation_within t pending s (update tx_id collection id doc) h = refl
  on_operation_within t pending s (delete tx_id collection id) h = refl

  body_run :
      (t : ℕ) (pending : List (WalEntry V)) (s : S) (body es : List (WalEntry V))
      → All (λ e. is_operation e ≡ true) body
      → run_entries f (record { current_tx = some t; pending = pending }) s (body ++ es)
        ≡ run_entries f (record { current_tx = some t; pending = pending ++ body }) s es
  body_run t pending s [] es h =
      ap
        (λ (p : List (WalEntry V)).
          run_entries f (record { current_tx = some t; pending = p }) s es)
        (sym (append_nil pending))
  body_run t pending s (e ∷ body) es h = rw (on_operation_within t pending s e h.0) (
      body_run t (pending ++ e ∷ []) s body es h.1
      ∙ ap
          (λ (p : List (WalEntry V)).
            run_entries f (record { current_tx = some t; pending = p }) s es)
          (append_assoc pending (e ∷ []) body))

  apply_all-append :
      (s : S) (xs ys : List (WalEntry V))
      → apply_all f s (xs ++ ys) ≡ (apply_all f s xs >>= λ s'. apply_all f s' ys)
  unfolding apply_all
  apply_all-append s [] ys = refl
  apply_all-append s (x ∷ xs) ys =
      ap (λ (k : S → Result S). f s x >>= k) (fun_ext (λ s'. apply_all-append s' xs ys))
      ∙ sym (>>=-assoc (f s x) (λ s'. apply_all f s' xs) (λ s'. apply_all f s' ys))

  commit_run :
      (t : ℕ) (pending : List (WalEntry V)) (s : S) (es : List (WalEntry V))
      → run_entries f (record { current_tx = some t; pending = pending }) s (commit t ∷ es)
        ≡ (apply_all f s pending >>= λ s'. run_entries f idle s' es)
  unfolding on_entry
  commit_run t pending s es = rw ((==_iff t t).1 refl) (
      >>=-assoc (apply_all f s pending) (λ s'. ok (idle, s'))
        (λ (st', s'). run_entries f st' s' es))

  -- An ended transaction is applied as a whole or not at all.
  transaction_run :
      (t : Transaction V) (st : ReplayState V) (s : S) (es : List (WalEntry V))
      → Operations t
      → run_entries f st s (begin t.id ∷ (t.body ++ (ending t ∷ es)))
        ≡ (apply_all f s (if t.committed then t.body else []) >>= λ s'. run_entries f idle s' es)
  unfolding on_entry apply_all
  transaction_run t st s es h =
      let body = body_run t.id [] s t.body (ending t ∷ es) h in
      elim (Bool-cases t.committed) [
        | inl e ↦ body ∙ (rw e (commit_run t.id t.body s es))
        | inr e ↦ body ∙ (rw e refl)
      ]

  -- The log of the transactions applies the committed ones.
  pub log_run :
      (ts : List (Transaction V)) (tail : Option (Transaction V)) (st : ReplayState V) (s : S)
      → All Operations ts
      → OperationsOf tail
      → run_entries f st s (log_of ts ++ unfinished tail) ≡ apply_all f s (committed_ops ts)
  unfolding on_entry apply_all
  log_run [] none st s h k = refl
  log_run [] (some t) st s h k =
      ap (run_entries f (record { current_tx = some t.id; pending = [] }) s)
        (sym (append_nil t.body))
      ∙ body_run t.id [] s t.body [] k
  log_run (t ∷ ts) tail st s h k =
      let rest : (s' : S)
          → run_entries f idle s' (log_of ts ++ unfinished tail)
            ≡ apply_all f s' (committed_ops ts) =
        λ s'. log_run ts tail idle s' h.1 k in
      ap (λ (es : List (WalEntry V)). run_entries f st s (begin t.id ∷ es))
        (append_assoc t.body (ending t ∷ log_of ts) (unfinished tail))
      ∙ transaction_run t st s (log_of ts ++ unfinished tail) h.0
      ∙ ap (λ (g : S → Result S). apply_all f s (if t.committed then t.body else []) >>= g)
          (fun_ext rest)
      ∙ sym (apply_all-append s (if t.committed then t.body else []) (committed_ops ts))

  module _ (codec : Codec V) where
    -- For a file whose bytes after the header are records of the entries of ended transactions,
    -- and of at most one that has not ended, replay ends and applies the operations of the
    -- committed transactions, in their order, and nothing else.
    pub replay_committed :
        (w : Wal) (s : S) (header bytes : Bytes) (ts : List (Transaction V))
        (tail : Option (Transaction V))
        → length header ≡ 6
        → w.file ≡ header ++ bytes
        → Holds codec bytes (log_of ts ++ unfinished tail)
        → All Operations ts
        → OperationsOf tail
        → replay f codec w s ≡ some (apply_all f s (committed_ops ts))
    replay_committed w s header bytes ts tail six same h ops k =
        replay_entries codec f w s header bytes (log_of ts ++ unfinished tail) six same h
        ∙ ap some (log_run ts tail idle s ops k)
