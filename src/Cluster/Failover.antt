-- ===== src/Cluster/Failover.antt =====
-- cluster.rs: what a failover does to the roles.
use cassettedb.Prelude.{
  ℕ, ◌≡◌, ◌-◌, ◌<◌, refl, sym, ap, subst, ◌∙◌, Bool, true, false, Option, some, List, [], ◌∷◌, map,
  All, find?, str_eq, arith, eq_iff, Bool-cases, inl, inr,
}
use cassettedb.Prelude.Errors.{Result, ok, err, cluster}
use cassettedb.Bytes.{Bytes}
use cassettedb.Raft.Types.{NodeId}
use cassettedb.Cluster.Config.{
  NodeInfo, ClusterConfig, is_primary, find_node, ConfigCodec, load_config, loaded,
}
use cassettedb.Cluster.Node.{
  ClusterNode, reassign, should_failover, perform_failover, is_failed_primary, cooled,
}

-- Of the nodes the one with this identifier is primary, and no other.
abbrev pub SolePrimary : NodeId → List NodeInfo → Type 0
SolePrimary p nodes = All (λ (n : NodeInfo). is_primary n.role ≡ str_eq n.id p) nodes

reassign_role :
    (failed local : NodeId) (n : NodeInfo)
    → str_eq local failed ≡ false
    → is_primary n.role ≡ str_eq n.id failed
    → (is_primary (reassign failed local n).role ≡ str_eq (reassign failed local n).id local)
reassign_role failed local n apart h = elim (Bool-cases (str_eq n.id local)) [
  | inl here ↦ rw here (sym here)
  | inr there ↦ elim (Bool-cases (str_eq n.id failed)) [
    | inl old ↦ rw (there, old) (sym there)
    | inr other ↦ rw (there, other) (h ∙ other ∙ sym there)
  ]
]

reassign-SolePrimary :
    (failed local : NodeId) (nodes : List NodeInfo)
    → str_eq local failed ≡ false
    → SolePrimary failed nodes
    → SolePrimary local (map {A = NodeInfo} {B = NodeInfo} (reassign failed local) nodes)
reassign-SolePrimary failed local [] apart h = tt
reassign-SolePrimary failed local (n ∷ nodes) apart (first, h) =
    (reassign_role failed local n apart first, reassign-SolePrimary failed local nodes apart h)

-- A primary that is found is the sole one.
found-SolePrimary :
    (p failed : NodeId) (nodes : List NodeInfo)
    → SolePrimary p nodes
    → is_failed_primary (find? (λ (n : NodeInfo). str_eq n.id failed) nodes) ≡ true
    → p ≡ failed
found-SolePrimary p failed [] s h = cc h
found-SolePrimary p failed (n ∷ nodes) (first, s) h =
    let rest = find? (λ (m : NodeInfo). str_eq m.id failed) nodes in
    let looked : Bool → Bool =
      λ b. is_failed_primary (elim b as (λ _. Option NodeInfo) [ true ↦ some n | false ↦ rest ]) in
    elim (Bool-cases (str_eq n.id failed)) [
      | inl here ↦
          (let now : is_primary n.role ≡ true = ap looked (sym here) ∙ h in
            sym ((eq_iff n.id p).0 (sym first ∙ now)) ∙ (eq_iff n.id failed).0 here)
      | inr there ↦ found-SolePrimary p failed nodes s (ap looked (sym there) ∙ h)
    ]

-- What `should_failover` has tested.
record Allowed (now : ℕ) (n : ClusterNode) (failed : NodeId) : Type 0 where
  found : is_failed_primary (find? (λ (m : NodeInfo). str_eq m.id failed) n.config.nodes) ≡ true
  apart : str_eq n.local_id failed ≡ false

should_failover-Allowed :
    (now : ℕ) (n : ClusterNode) (failed : NodeId)
    → should_failover now n failed ≡ true
    → Allowed now n failed
unfolding should_failover find_node
should_failover-Allowed now n failed h = record {
  found = ground (arith, h);
  apart = ground (arith, h);
}

module _ (codec : ConfigCodec) where
  -- The configuration after a failover.
  abbrev pub promoted : ClusterNode → NodeId → ClusterConfig
  promoted n failed = record n.config {
    nodes = map {A = NodeInfo} {B = NodeInfo} (reassign failed n.local_id) n.config.nodes;
  }

  load_saved :
      (cfg : ClusterConfig) (file : Bytes)
      → codec.to_vec_pretty cfg ≡ ok file
      → load_config codec file ≡ ok cfg
  unfolding load_config
  load_saved cfg file h = ap loaded (codec.from_slice-to_vec_pretty cfg h)

  too_early :
      (now : ℕ) (n : ClusterNode) (t : ℕ) (failed : NodeId)
      → n.last_failover ≡ some t
      → now - t < n.failover_cooldown
      → should_failover now n failed ≡ false
  unfolding should_failover
  too_early now n t failed last early =
      let hot : cooled now n.failover_cooldown n.last_failover ≡ false =
        ap (cooled now n.failover_cooldown) last ∙ ground (arith, early) in
      ground (arith, hot)

  -- What a failover gives where its preconditions are not met, and where they are; `later` is a
  -- time at which another one is asked for.
  abbrev pub Outcome :
      ℕ → NodeId → ClusterNode → NodeId → NodeId → ClusterNode × Result (Unit {0}) → Bool → Type 0
  Outcome later other n failed p (n', result) false =
      (n' ≡ n) × (result ≡ err (cluster "failover preconditions not met"))
  Outcome later other n failed p (n', result) true =
      (result ≡ ok tt)
      × (p ≡ failed)
      × SolePrimary n.local_id n'.config.nodes
      × (load_config codec n'.config_file ≡ ok n'.config)
      × (should_failover later n' other ≡ false)

  -- Let p be the id of the sole primary in the node's configuration, and let the configuration
  -- after the failover be encodable. Where should_failover is false, perform_failover fails and
  -- leaves the node as it is. Where it is true, perform_failover succeeds; the failed node was p,
  -- a node of the new configuration is primary exactly if it is the local one, the file loads as
  -- the new configuration, and no other failover is allowed at a later time before the cooldown is
  -- over.
  pub perform_failover-SolePrimary :
      (now later : ℕ) (n : ClusterNode) (failed other p : NodeId) (file : Bytes)
      → SolePrimary p n.config.nodes
      → codec.to_vec_pretty (promoted n failed) ≡ ok file
      → later - now < n.failover_cooldown
      → Outcome later other n failed p
          (perform_failover codec now n failed)
          (should_failover now n failed)
  unfolding perform_failover
  perform_failover-SolePrimary now later n failed other p file s made early =
      elim (Bool-cases (should_failover now n failed)) [
        | inl h ↦
            (let a = should_failover-Allowed now n failed h in
              let old : p ≡ failed = found-SolePrimary p failed n.config.nodes s a.found in
              let n' : ClusterNode = record n {
                config = promoted n failed;
                config_file = file;
                last_failover = some now;
              } in
              rw (h, made)
                (
                  refl,
                  old,
                  reassign-SolePrimary failed n.local_id n.config.nodes a.apart
                      (subst (λ q. SolePrimary q n.config.nodes) old s),
                  load_saved (promoted n failed) file made,
                  too_early later n' now other refl early,
                ))
        | inr h ↦ rw h (refl, refl)
      ]
