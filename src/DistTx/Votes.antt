-- ===== src/DistTx/Votes.antt =====
-- dist_tx.rs: what the responses to a prepare request make of the votes.
use cassettedb.Prelude.{
  ◌≡◌, refl, sym, ap, ◌∙◌, ◌⊎◌, inl, inr, false, Option, none, some, List, [], ◌∷◌, map, All, arith,
  eq_iff, str_eq, if◌then◌else◌, Bool-cases, subst, str_eq_ne,
}
use mathlib.Core.Path.{ap₂}
use cassettedb.Prelude.Names.{Among, Distinct}
use cassettedb.Prelude.Errors.{ok}
use cassettedb.Raft.Types.{NodeId}
use cassettedb.DistTx.Types.{
  ParticipantVote, Participant, PrepareResponse, DistributedTransaction, names, set_vote,
  record_vote,
}
use cassettedb.DistTx.Coordinator.{record_votes}

-- The last response of a participant.
abbrev pub last_vote : List PrepareResponse → NodeId → Option ParticipantVote
last_vote [] n = none
last_vote (r ∷ rs) n = elim (last_vote rs n) [
  | some v ↦ some v
  | none ↦ if str_eq r.node_id n then some r.vote else none
]

abbrev pub overridden : Option ParticipantVote → Option ParticipantVote → Option ParticipantVote
overridden (some v) old = some v
overridden none old = old

abbrev pub with_votes : List PrepareResponse → List Participant → List Participant
with_votes rs =
    map {A = Participant} {B = Participant}
      (λ p. record p { vote = overridden (last_vote rs p.node_id) p.vote })

abbrev with_vote : NodeId → ParticipantVote → List Participant → List Participant
with_vote n v =
    map {A = Participant} {B = Participant}
      (λ p. record p { vote = if str_eq p.node_id n then some v else p.vote })

with_vote_absent :
    (ps : List Participant) (n : NodeId) (v : ParticipantVote)
    → ¬ (Among n (names ps))
    → with_vote n v ps ≡ ps
with_vote_absent [] n v h = refl
with_vote_absent (p ∷ ps) n v h =
    let rest = with_vote_absent ps n v (λ a. h (inr a)) in
    let other : str_eq p.node_id n ≡ false = str_eq_ne p.node_id n (λ e. h (inl (sym e))) in
    rw (other, rest)

set_vote_known :
    (ps : List Participant) (n : NodeId) (v : ParticipantVote)
    → Distinct (names ps)
    → Among n (names ps)
    → set_vote ps n v ≡ some (with_vote n v ps)
unfolding set_vote
set_vote_known [] n v d a = absurd a
set_vote_known (p ∷ ps) n v d a = elim (Bool-cases (str_eq p.node_id n)) [
  | inl e ↦
      let same : p.node_id ≡ n = (eq_iff p.node_id n).0 e in
      let rest =
        with_vote_absent ps n v (λ h. d.0 (subst (λ u. Among u (names ps)) (sym same) h)) in
      rw (e, rest)
  | inr e ↦ elim a [
    | inl same ↦ cc (e, (eq_iff p.node_id n).1 (sym same))
    | inr later ↦ rw (e, set_vote_known ps n v d.1 later)
  ]
]

set_vote_unknown :
    (ps : List Participant) (n : NodeId) (v : ParticipantVote)
    → (set_vote ps n v ≡ none) ⊎ Among n (names ps)
unfolding set_vote
set_vote_unknown [] n v = inl refl
set_vote_unknown (p ∷ ps) n v = elim (Bool-cases (str_eq p.node_id n)) [
  | inl e ↦ inr (inl (sym ((eq_iff p.node_id n).0 e)))
  | inr e ↦ elim (set_vote_unknown ps n v) [
    | inl missing ↦ inl (rw (e, missing))
    | inr a ↦ inr (inr a)
  ]
]

names-with_vote :
    (n : NodeId) (v : ParticipantVote) (ps : List Participant) → names (with_vote n v ps) ≡ names ps
names-with_vote n v [] = refl
names-with_vote n v (p ∷ ps) = ap (◌∷◌ p.node_id) (names-with_vote n v ps)

pub names-with_votes :
    (rs : List PrepareResponse) (ps : List Participant) → names (with_votes rs ps) ≡ names ps
names-with_votes rs [] = refl
names-with_votes rs (p ∷ ps) = ap (◌∷◌ p.node_id) (names-with_votes rs ps)

with_votes_nil : (ps : List Participant) → with_votes [] ps ≡ ps
with_votes_nil [] = refl
with_votes_nil (p ∷ ps) = ap (◌∷◌ p) (with_votes_nil ps)

overridden_step :
    (r : PrepareResponse) (rs : List PrepareResponse) (n : NodeId) (old : Option ParticipantVote)
    → overridden (last_vote rs n) (if str_eq n r.node_id then some r.vote else old)
      ≡ overridden (last_vote (r ∷ rs) n) old
overridden_step r rs n old = ground (arith, eq_iff n r.node_id, eq_iff r.node_id n)

with_votes_cons :
    (r : PrepareResponse) (rs : List PrepareResponse) (ps : List Participant)
    → with_votes rs (with_vote r.node_id r.vote ps) ≡ with_votes (r ∷ rs) ps
with_votes_cons r rs [] = refl
with_votes_cons r rs (p ∷ ps) =
    ap₂ ◌∷◌
      (ap (λ (v : Option ParticipantVote). record p { vote = v })
        (overridden_step r rs p.node_id p.vote))
      (with_votes_cons r rs ps)

module _ {V : Type 0} where
  -- Responses of participants set the votes to the last response of each.
  pub record_votes_known :
      (tx : DistributedTransaction V) (rs : List PrepareResponse)
      → Distinct (names tx.participants)
      → All (λ r. Among r.node_id (names tx.participants)) rs
      → record_votes tx rs ≡ ok (record tx { participants = with_votes rs tx.participants })
  unfolding record_votes record_vote
  record_votes_known tx [] d known = rw with_votes_nil
  record_votes_known tx (r ∷ rs) d known =
      let ps = with_vote r.node_id r.vote tx.participants in
      let same = names-with_vote r.node_id r.vote tx.participants in
      rw (set_vote_known tx.participants r.node_id r.vote d known.0) (
        record_votes_known (record tx { participants = ps }) rs (subst Distinct (sym same) d)
          (subst (λ ns. All (λ q. Among q.node_id ns) rs) (sym same) known.1)
        ∙ ap (λ (qs : List Participant). ok (record tx { participants = qs }))
            (with_votes_cons r rs tx.participants))

  -- A response of an unknown participant is an error.
  pub record_votes_ok :
      (tx : DistributedTransaction V) (rs : List PrepareResponse) {tx' : DistributedTransaction V}
      → Distinct (names tx.participants)
      → record_votes tx rs ≡ ok tx'
      → All (λ r. Among r.node_id (names tx.participants)) rs
  unfolding record_votes record_vote
  record_votes_ok tx [] {tx'} d h = tt
  record_votes_ok tx (r ∷ rs) {tx'} d h = elim (set_vote_unknown tx.participants r.node_id r.vote) [
    | inl missing ↦ cc (h, missing)
    | inr known ↦
        let ps = with_vote r.node_id r.vote tx.participants in
        let same = names-with_vote r.node_id r.vote tx.participants in
        let rest : record_votes (record tx { participants = ps }) rs ≡ ok tx' =
          rw (set_vote_known tx.participants r.node_id r.vote d known) at h in
        (
          known,
          subst (λ ns. All (λ q. Among q.node_id ns) rs) same
              (record_votes_ok (record tx { participants = ps }) rs (subst Distinct (sym same) d)
                rest),
        )
  ]
