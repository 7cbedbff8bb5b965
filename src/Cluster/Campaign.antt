-- ===== src/Cluster/Campaign.antt =====
-- cluster.rs: the election in `tick`, in which a node answers its own requests for votes.
use cassettedb.Prelude.{
  ℕ, ◌+◌, ◌≡◌, ◌<◌, ◌≤◌, refl, sym, ap, subst, ◌∙◌, Bool, true, false, not, List, [], ◌∷◌, ◌++◌,
  length, length-append, str_eq, str_eq_self, arith, eq_iff, Bool-cases, inl, inr, ◌≢◌,
}
use cassettedb.Raft.Types.{
  NodeId, RaftRole, follower, candidate, leader, RequestVoteRequest, RaftNode, PersistentState,
  is_leader_role,
}
use cassettedb.Raft.Log.{last_index, last_term}
use cassettedb.Raft.Node.{is_leader, start_election, count_vote, election_due, quorum, contains}
use cassettedb.Cluster.Node.{ClusterNode, collect_votes, campaign, candidates, tick, tick_as}
use cassettedb.Cluster.Votes.{
  Asking, granted, granted-Asking, handle_request_vote-Asking, record_vote_candidate,
  record_vote_leader, count_vote_new,
}

-- A leader stays one.
collect_votes_leader :
    (now : ℕ) (req : RequestVoteRequest) (ps : List NodeId) (m : RaftNode)
    → Asking m req
    → m.volatile.role ≡ leader
    → (collect_votes now req ps m).0.volatile.role ≡ leader
unfolding collect_votes
collect_votes_leader now req [] m a role = role
collect_votes_leader now req (p ∷ ps) m a role =
    rw (handle_request_vote-Asking now m req a, record_vote_leader (granted now req m) p role)
      (collect_votes_leader now req ps (granted now req m) (granted-Asking now m req a) role)

-- The names are new one after the other: distinct, and not among the first ones.
abbrev pub EachNew : List NodeId → List NodeId → Type 0
EachNew seen [] = Unit
EachNew seen (p ∷ ps) = (contains seen p ≡ false) × EachNew (seen ++ p ∷ []) ps

-- With enough peers left the candidate is elected.
collect_votes_elected :
    (now : ℕ) (req : RequestVoteRequest) (ps : List NodeId) (m : RaftNode)
    → Asking m req
    → m.volatile.role ≡ candidate
    → EachNew m.volatile.votes_received ps
    → length m.volatile.votes_received < quorum m
    → quorum m ≤ length m.volatile.votes_received + length ps
    → ((collect_votes now req ps m).1 ≡ true)
      × ((collect_votes now req ps m).0.volatile.role ≡ leader)
unfolding collect_votes
collect_votes_elected now req [] m a role new short enough = absurd (omega arith)
collect_votes_elected now req (p ∷ ps) m a role (fresh, new) short enough =
    let g = granted now req m in
    let votes = m.volatile.votes_received in
    rw (handle_request_vote-Asking now m req a, record_vote_candidate g p role)
      (elim (count_vote_new g p fresh) [
        | inl (reached, elected, leads, same) ↦ (
          rw elected,
          collect_votes_leader now req ps (count_vote g p true).0
              (record {
                same_term = ap (λ (s : PersistentState). s.current_term) same ∙ a.same_term;
                same_vote = ap (λ (s : PersistentState). s.voted_for) same;
                same_last_term =
                    ap (λ (s : PersistentState). last_term s.log) same ∙ a.same_last_term;
                same_last_index =
                    ap (λ (s : PersistentState). last_index s.log) same ∙ a.same_last_index;
              })
              leads,
        )
        | inr (missing, counted) ↦
            (let m' : RaftNode = record g {
              volatile = record g.volatile { votes_received = votes ++ p ∷ [] };
            } in
              let asking : Asking m' req = record {
                same_term = a.same_term;
                same_vote = refl;
                same_last_term = a.same_last_term;
                same_last_index = a.same_last_index;
              } in
              let long : length (votes ++ p ∷ []) ≡ length votes + 1 =
                omega (arith, length-append votes (p ∷ [])) in
              let (elected, leads) =
                collect_votes_elected now req ps m' asking role new (omega (arith, missing, long))
                  (omega (arith, enough, long)) in
              rw counted (elected, leads))
      ])

started_Asking : (now : ℕ) (m : RaftNode) → Asking (start_election now m).0 (start_election now m).1
unfolding start_election
started_Asking now m = record {
  same_term = refl;
  same_vote = refl;
  same_last_term = refl;
  same_last_index = refl;
}

contains_more :
    (seen : List NodeId) (p x : NodeId)
    → contains seen x ≡ true
    → contains (seen ++ p ∷ []) x ≡ true
contains_more [] p x h = cc h
contains_more (y ∷ seen) p x h = ground (arith, h, contains_more seen p x)

candidates_all :
    (x : NodeId) (seen ps : List NodeId)
    → contains seen x ≡ true
    → EachNew seen ps
    → candidates x ps ≡ ps
candidates_all x seen [] h new = refl
candidates_all x seen (p ∷ ps) h (fresh, new) = elim (Bool-cases (str_eq p x)) [
  | inl same ↦
      (let seen_p : contains seen p ≡ true =
          subst (λ y. contains seen y ≡ true) (sym ((eq_iff p x).0 same)) h in
        cc (fresh, seen_p))
  | inr apart ↦
      ap
        (λ b. elim (not b) as (λ _. List NodeId) [
          | true ↦ p ∷ candidates x ps
          | false ↦ candidates x ps
        ])
        apart
      ∙ ap (◌∷◌ p) (candidates_all x (seen ++ p ∷ []) ps (contains_more seen p x h) new)
]

tick_as_due :
    (now : ℕ) (n : ClusterNode) (r : RaftRole)
    → r ≢ leader
    → election_due now n.raft ≡ true
    → tick_as now n r ≡ campaign now n
tick_as_due now n leader not_leader due = absurd (not_leader refl)
tick_as_due now n follower not_leader due = rw due
tick_as_due now n candidate not_leader due = rw due

campaign_leader :
    (now : ℕ) (n : ClusterNode)
    → n.local_id ≡ n.raft.node_id
    → EachNew (n.local_id ∷ []) n.raft.peers
    → 1 ≤ length n.raft.peers
    → ((campaign now n).1 ≡ true) × (is_leader (campaign now n).0.raft ≡ true)
unfolding start_election is_leader
campaign_leader now n same new some_peer =
    let (m, req) = start_election now n.raft in
    let alone : contains (n.local_id ∷ []) n.local_id ≡ true = rw (str_eq_self n.local_id) refl in
    let ps_lem = candidates_all n.local_id (n.local_id ∷ []) n.raft.peers alone new in
    let (elected, leads) =
      collect_votes_elected now req n.raft.peers m (started_Asking now n.raft) refl
        (subst (λ i. EachNew (i ∷ []) n.raft.peers) same new) (omega (arith, some_peer))
        (omega (arith, some_peer)) in
    rw ps_lem (elected, ap is_leader_role leads)

-- A node that is not the leader, whose election is due, and which has at least one peer, the peers
-- distinct and none the node itself, is the leader after its own tick: the answers that tick takes
-- for the peers' come from the node itself.
pub tick_leader :
    (now : ℕ) (n : ClusterNode)
    → n.raft.volatile.role ≢ leader
    → election_due now n.raft ≡ true
    → n.local_id ≡ n.raft.node_id
    → EachNew (n.local_id ∷ []) n.raft.peers
    → 1 ≤ length n.raft.peers
    → ((tick now n).1 ≡ true) × (is_leader (tick now n).0.raft ≡ true)
unfolding tick
tick_leader now n role due same new some_peer =
    subst (λ (r : ClusterNode × Bool). (r.1 ≡ true) × (is_leader r.0.raft ≡ true))
      (sym (tick_as_due now n n.raft.volatile.role role due))
      (campaign_leader now n same new some_peer)
