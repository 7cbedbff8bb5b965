-- ===== src/Raft/Elections/Change.antt =====
-- raft.rs: the invariant of the elections when one node changes or an answer is sent.
use cassettedb.Prelude.{
  ◌+◌, ◌≤◌, ◌≡◌, sym, ap, ◌∙◌, subst, inl, inr, true, Option, some, List, length, arith, eq_iff,
  str_eq, ◌==◌, Bool-cases,
}
use cassettedb.Raft.Types.{NodeId, Term, leader, RaftNode}
use cassettedb.Raft.Node.{quorum}
use cassettedb.Raft.Steps.{KeepsVote}
use cassettedb.Prelude.Names.{Among, Distinct}
use cassettedb.Raft.Elections.Local.{IsRunning, KeepsRun}
use cassettedb.Raft.Elections.Invariant.{Reply, System, update, cast, becomes, sends, Voted, Inv}

update_at :
    {A : Type 0} (P : A → Type 0) (f : NodeId → A) (i : NodeId) (a : A) (j : NodeId)
    → (i ≡ j → P a)
    → P (f j)
    → P (update f i a j)
update_at P f i a j there elsewhere = elim (Bool-cases (str_eq i j)) [
  | inl e ↦ rw e (there ((eq_iff i j).0 e))
  | inr e ↦ rw e elsewhere
]

cast_keeps :
    (b : Term → Option NodeId) {n m : RaftNode} {t : Term} {c : NodeId}
    → KeepsVote n m
    → b n.persistent.current_term ≡ n.persistent.voted_for
    → t ≤ n.persistent.current_term
    → b t ≡ some c
    → cast b m t ≡ some c
cast_keeps b {n} {m} {t} {c} k now past h = elim (Bool-cases (m.persistent.current_term == t)) [
  | inl e ↦
      let same : m.persistent.current_term ≡ n.persistent.current_term =
        ground (arith, k.term_le) in
      let at : n.persistent.current_term ≡ t = ground (arith, k.term_le) in
      rw e (k.vote_kept c same (sym now ∙ ap b at ∙ h))
  | inr e ↦ rw e h
]

module _ {members : List NodeId} {s : System} (inv : Inv members s) (i : NodeId)
    (m : RaftNode) where
  -- A ballot once cast stays in the record.
  pub Voted-becomes :
      KeepsVote (s.nodes i) m
      → {v : NodeId} {t : Term} {c : NodeId} → Voted members s v t c
      → Voted members (becomes s i m) v t c
  Voted-becomes k {v} {t} {c} h = record {
    member = h.member;
    past =
        update_at (λ n. t ≤ n.persistent.current_term) s.nodes i m v
          (λ e.
            omega (
              arith,
              k.term_le,
              subst (λ u. t ≤ (s.nodes u).persistent.current_term) (sym e) h.past,
            ))
          h.past;
    ballot =
        update_at (λ f. f t ≡ some c) s.ballots i (cast (s.ballots i) m) v
          (λ e.
            cast_keeps (s.ballots i) k (inv.current i)
              (subst (λ u. t ≤ (s.nodes u).persistent.current_term) (sym e) h.past)
              (subst (λ u. s.ballots u t ≡ some c) (sym e) h.ballot))
          h.ballot;
  }

  -- What the new state of node `i` has to satisfy.
  pub record Fits : Type 0 where
    pub named : m.node_id ≡ i
    pub sized : length m.peers + 1 ≡ length members
    pub keeps : KeepsVote (s.nodes i) m
    pub counted :
        (v : NodeId)
        → IsRunning m
        → Among v m.volatile.votes_received
        → Voted members (becomes s i m) v m.persistent.current_term i
    pub distinct : IsRunning m → Distinct m.volatile.votes_received
    pub won : m.volatile.role ≡ leader → quorum m ≤ length m.volatile.votes_received

  pub becomes-Inv : Fits → Inv members (becomes s i m)
  becomes-Inv f = record {
    named = λ j. update_at (λ n. n.node_id ≡ j) s.nodes i m j (λ e. f.named ∙ e) (inv.named j);
    sized = λ j.
        update_at (λ n. length n.peers + 1 ≡ length members) s.nodes i m j (λ _. f.sized)
          (inv.sized j);
    current = λ j. current_at j;
    replied = λ r h granted. Voted-becomes f.keeps (inv.replied r h granted);
    counted = λ j v.
        update_at
          (λ n.
            IsRunning n
            → Among v n.volatile.votes_received
            → Voted members (becomes s i m) v n.persistent.current_term j)
          s.nodes i m j
          (λ e.
            subst
              (λ u.
                IsRunning m
                → Among v m.volatile.votes_received
                → Voted members (becomes s i m) v m.persistent.current_term u)
              e (f.counted v))
          (λ run h. Voted-becomes f.keeps (inv.counted j v run h));
    distinct = λ j.
        update_at (λ n. IsRunning n → Distinct n.volatile.votes_received) s.nodes i m j
          (λ _. f.distinct) (inv.distinct j);
    won = λ j.
        update_at (λ n. n.volatile.role ≡ leader → quorum n ≤ length n.volatile.votes_received)
          s.nodes i m j (λ _. f.won) (inv.won j);
  }
    where
      current_at :
          (j : NodeId)
          → (becomes s i m).ballots j ((becomes s i m).nodes j).persistent.current_term
            ≡ ((becomes s i m).nodes j).persistent.voted_for
      current_at j = elim (Bool-cases (str_eq i j)) [
        | inl e ↦ rw e (ground arith)
        | inr e ↦ rw e (inv.current j)
      ]

  -- An operation that starts no run and counts no vote.
  pub quiet-Fits : KeepsVote (s.nodes i) m → KeepsRun (s.nodes i) m → Fits
  quiet-Fits k r = record {
    named = r.place.node_id ∙ inv.named i;
    sized = ap (λ (ps : List NodeId). length ps + 1) r.place.peers ∙ inv.sized i;
    keeps = k;
    counted = λ v run h.
        let ran : IsRunning (s.nodes i) = λ e. run (r.role run ∙ e) in
        subst (λ t. Voted members (becomes s i m) v t i) (sym (r.term run))
          (Voted-becomes k (inv.counted i v ran (subst (Among v) (r.votes run) h)));
    distinct =
        λ run. subst Distinct (sym (r.votes run)) (inv.distinct i (λ e. run (r.role run ∙ e)));
    won = λ lead.
        let run : IsRunning m = λ e. cc (lead, e) in
        rw (r.place.peers, r.votes run) (inv.won i (sym (r.role run) ∙ lead));
  }

Voted-sends :
    {members : List NodeId} {s : System} (r : Reply) {v : NodeId} {t : Term} {c : NodeId}
    → Voted members s v t c
    → Voted members (sends s r) v t c
Voted-sends r h = record { member = h.member; past = h.past; ballot = h.ballot }

pub sends-Inv :
    {members : List NodeId} {s : System}
    → Inv members s
    → (r : Reply) → (r.response.vote_granted ≡ true → Voted members s r.voter r.response.term r.to)
    → Inv members (sends s r)
sends-Inv {members} {s} inv r h = record {
  named = inv.named;
  sized = inv.sized;
  current = inv.current;
  replied = λ q among. elim among [
    | inl e ↦
        subst
          (λ u.
            u.response.vote_granted ≡ true → Voted members (sends s r) u.voter u.response.term u.to)
          (sym e) (λ granted. Voted-sends r (h granted))
    | inr old ↦ λ granted. Voted-sends r (inv.replied q old granted)
  ];
  counted = λ i v run a. Voted-sends r (inv.counted i v run a);
  distinct = inv.distinct;
  won = inv.won;
}
