-- ===== src/DistTx/Invariant.antt =====
-- dist_tx.rs: what holds of every transaction in the log.
use cassettedb.Prelude.{
  String, ◌≡◌, refl, sym, ap, ◌∙◌, inl, inr, true, Option, none, some, List, [], ◌∷◌, any, All, all,
  arith, eq_iff, str_eq, Bool-cases, subst, All-append, ◌++◌,
}
use cassettedb.Prelude.Names.{Among, Distinct, Distinct-append}
use cassettedb.Prelude.Map.{get, get-insert}
use cassettedb.Prelude.Errors.{Result, ok, dist_tx, ok_or, ◌>>=◌, >>=-ok, ok_or-ok}
use cassettedb.Raft.Types.{NodeId}
use cassettedb.DistTx.Types
use cassettedb.DistTx.Types.{
  TxPhase, voting, prepared, committed, aborted, TxOp, DistributedTransaction, PrepareResponse,
  Participant, names, is_yes, is_some, ParticipantVote, yes_vote, no_vote, outcome,
  all_votes_received, add_unless_known,
}
use cassettedb.DistTx.Coordinator.{TwoPhaseCoordinator, decide, record_votes, add_all, is_voting}
use cassettedb.DistTx.Votes.{with_votes, record_votes_known, record_votes_ok}
use cassettedb.DistTx.Changes.{written}

abbrev pub VotedYes : List Participant → Type 0
VotedYes = All (λ p. p.vote ≡ some yes_vote)

abbrev pub Unvoted : List Participant → Type 0
Unvoted = All (λ p. p.vote ≡ none)

-- The votes that a phase asks for.
abbrev pub VotesOf : TxPhase → List Participant → Type 0
VotesOf voting ps = Unvoted ps
VotesOf prepared ps = VotedYes ps
VotesOf committed ps = VotedYes ps
VotesOf aborted ps = Unit

pub record Sound {V : Type 0} (id : String) (tx : DistributedTransaction V) : Type 0 where
  pub keyed : tx.tx_id ≡ id
  pub distinct : Distinct (names tx.participants)
  pub voted : VotesOf tx.phase tx.participants

abbrev pub Consistent : {V : Type 0} → TwoPhaseCoordinator V → Type 0
Consistent {V} c =
    (id : String) (tx : DistributedTransaction V) → get c.log id ≡ some tx → Sound id tx

is_yes-some : (o : Option ParticipantVote) → is_yes o ≡ true → o ≡ some yes_vote
is_yes-some none h = cc
is_yes-some (some yes_vote) h = refl
is_yes-some (some no_vote) h = cc

pub all-VotedYes : (ps : List Participant) → all (λ p. is_yes p.vote) ps ≡ true → VotedYes ps
all-VotedYes [] h = tt
all-VotedYes (p ∷ ps) h =
    (is_yes-some p.vote (ground arith), all-VotedYes ps (ground (arith, is_yes-some p.vote)))

any-Among :
    (ps : List Participant) (n : NodeId)
    → Among n (names ps)
    → any (λ p. str_eq p.node_id n) ps ≡ true
any-Among [] n a = absurd a
any-Among (p ∷ ps) n (inl e) = rw ((eq_iff p.node_id n).1 (sym e))
any-Among (p ∷ ps) n (inr a) = ground (arith, any-Among ps n a)

names-append : (ps qs : List Participant) → names (ps ++ qs) ≡ names ps ++ names qs
names-append [] qs = refl
names-append (p ∷ ps) qs = ap (◌∷◌ p.node_id) (names-append ps qs)

-- A participant added keeps the names distinct and has no vote yet.
add_unless_known-Distinct :
    (ps : List Participant) (n : NodeId)
    → Distinct (names ps)
    → Unvoted ps
    → Distinct (names (add_unless_known ps n)) × Unvoted (add_unless_known ps n)
unfolding add_unless_known
add_unless_known-Distinct ps n d u = elim (Bool-cases (any (λ p. str_eq p.node_id n) ps)) [
  | inl known ↦ rw known (d, u)
  | inr unknown ↦
      let p : Participant = record { node_id = n; vote = none } in
      let one : Distinct (n ∷ []) = ((λ a. a), tt) in
      let apart : (v : NodeId) → Among v (names ps) → ¬ (Among v (n ∷ [])) = λ v a. elim [
        | inl e ↦ cc (unknown, any-Among ps n (subst (λ u. Among u (names ps)) e a))
        | inr b ↦ b
      ] in
      rw unknown (
        subst Distinct (sym (names-append ps (p ∷ [])))
            (Distinct-append (names ps) (n ∷ []) d one apart),
        All-append (λ q. q.vote ≡ none) ps (p ∷ []) (u, (refl, tt)),
      )
]

module _ {V : Type 0} where
  pub add_all-Sound :
      (tx : DistributedTransaction V) (ns : List NodeId)
      → tx.phase ≡ voting
      → Sound tx.tx_id tx
      → Sound tx.tx_id (add_all tx ns)
  unfolding add_all Types.add_participant
  add_all-Sound tx [] v s = s
  add_all-Sound tx (n ∷ ns) v s =
      let unvoted = subst (λ ph. VotesOf ph tx.participants) v s.voted in
      let (d, u) = add_unless_known-Distinct tx.participants n s.distinct unvoted in
      add_all-Sound (Types.add_participant tx n) ns v (record {
        keyed = refl;
        distinct = d;
        voted = subst (λ ph. VotesOf ph (add_unless_known tx.participants n)) (sym v) u;
      })

  pub written-Consistent :
      (c : TwoPhaseCoordinator V) (tx : DistributedTransaction V)
      → Consistent c
      → Sound tx.tx_id tx
      → Consistent (written c tx)
  written-Consistent c tx h s id tx' found =
      let seen = sym (get-insert c.log tx.tx_id id tx) ∙ found in
      elim (Bool-cases (str_eq tx.tx_id id)) [
        | inl same ↦
            let stored : some tx ≡ some tx' = rw same at seen in
            subst (λ i. Sound i tx') ((eq_iff tx.tx_id id).0 same)
              (subst (Sound tx.tx_id) (cc stored) s)
        | inr other ↦ h id tx' (rw other at seen)
      ]

  pub decide-ok :
      (tx : DistributedTransaction V) (rs : List PrepareResponse) {tx' : DistributedTransaction V}
      → decide tx rs ≡ ok tx'
      → Distinct (names tx.participants)
      → (phase : TxPhase) × (is_voting tx.phase ≡ true)
        × All (λ r. Among r.node_id (names tx.participants)) rs
        × (outcome (record tx { participants = with_votes rs tx.participants }) ≡ some phase)
        × (tx' ≡ record tx { participants = with_votes rs tx.participants; phase = phase })
  unfolding decide
  decide-ok tx rs {tx'} h d = elim (Bool-cases (is_voting tx.phase)) [
    | inr not_voting ↦ cc (h, not_voting)
    | inl is_voting ↦
        let finish : DistributedTransaction V → Result (DistributedTransaction V) = λ t. (do
          phase ← ok_or (outcome t) (dist_tx "votes not complete")
          ok (record t { phase = phase })) in
        let k : (record_votes tx rs >>= finish) ≡ ok tx' = rw is_voting at h in
        let (t, recorded, l) = >>=-ok (record_votes tx rs) finish k in
        let known = record_votes_ok tx rs d recorded in
        let votes = record_votes_known tx rs d known in
        let same : t ≡ record tx { participants = with_votes rs tx.participants } =
          cc (recorded, votes) in
        let (phase, out, m) =
          >>=-ok (ok_or (outcome t) (dist_tx "votes not complete"))
            (λ phase. ok (record t { phase = phase })) l in
        let result : record t { phase = phase } ≡ tx' = cc m in
        (
          phase,
          is_voting,
          known,
          ap outcome (sym same) ∙ ok_or-ok (outcome t) _ out,
          sym result ∙ ap (λ (t : DistributedTransaction V). record t { phase = phase }) same,
        )
  ]

  pub outcome-VotesOf :
      (tx : DistributedTransaction V) (phase : TxPhase)
      → outcome tx ≡ some phase
      → VotesOf phase tx.participants
  unfolding outcome
  outcome-VotesOf tx voting h = absurd (ground arith)
  outcome-VotesOf tx prepared h = all-VotedYes tx.participants (ground arith)
  outcome-VotesOf tx committed h = absurd (ground arith)
  outcome-VotesOf tx aborted h = tt
