-- ===== src/Operator/Members.antt =====
-- What the check of a Nacos cluster has established when it does not panic.
use nacos_operator.Prelude.{
  ℕ, String, ◌≡◌, refl, sym, ap, ◌∙◌, subst, true, ◌||◌, Option, some, List, [], ◌∷◌, ◌++◌, ◌==◌,
  eq_iff, eq_refl, ℤ, pos, negsuc, int_eq, length, show_nat, itoa, arith,
}
use nacos_operator.Errors.{code_cluster_faile}
use nacos_operator.Go.{
  Reply, ok, fail, Go, Outcome, done, panics, continue, ◌>>=◌, ensure_normal_my_error,
}
use nacos_operator.Types.{Pod}
use nacos_operator.Api.{NacosSpec, NacosCondition}
use nacos_operator.NacosClient.{Server, get_cluster_nodes}
use nacos_operator.Operator.Inversion.{continue-done, dereference-done, ensure_equal-done}
use nacos_operator.Operator.Services.{Services, State}
use nacos_operator.Operator.Check.{
  check_servers, check_pod, check_pods, check_nacos, condition_of, ensure_servers, check_answer,
  check_members, finish_pod, resolve_identity_header,
}
use nacos_operator.Operator.Agreed.{agree_on, agree_on-weaken, check_servers-agree}

pos_of : (k : ℕ) (n : ℤ) → int_eq (pos k) n ≡ true → n ≡ pos k
pos_of k (pos m) h = ground arith
pos_of k (negsuc m) h = cc

-- The pods that the conditions name.
abbrev pub condition_pods : List NacosCondition → List String
condition_pods [] = []
condition_pods (c ∷ cs) = c.pod_name ∷ condition_pods cs

abbrev pub pod_names : List Pod → List String
pod_names [] = []
pod_names (p ∷ ps) = p.name ∷ pod_names ps

append-nil : (names : List String) → names ++ [] ≡ names
append-nil [] = refl
append-nil (n ∷ ns) = ap (λ ms. n ∷ ms) (append-nil ns)

condition_pods-snoc :
    (cs : List NacosCondition) (c : NacosCondition) (names : List String)
    → condition_pods (cs ++ c ∷ []) ++ names ≡ condition_pods cs ++ c.pod_name ∷ names
condition_pods-snoc [] c names = refl
condition_pods-snoc (d ∷ cs) c names = ap (λ ns. d.pod_name ∷ ns) (condition_pods-snoc cs c names)

module _ {W : Type 0} (services : Services W) where
  answer-done :
      {B : Type 0} (reply : Reply (List Server)) (f : List Server → Go (State W) B) (b : B)
      (s s' : State W)
      → continue (ensure_servers services reply s) f ≡ (done b, s')
      → (servers : List Server) × (reply ≡ ok servers) × (f servers s ≡ (done b, s'))
  unfolding ensure_normal_my_error
  answer-done (ok servers) f b s s' h = (servers, refl, h)
  answer-done (fail e) f b s s' h = cc

  -- The pod answers, in the world `w`, with as many servers as the resource has replicas, and they
  -- agree on the leader.
  abbrev pub Answers : String × String → Option ℤ → W → String → Pod → Type 0
  Answers identity replicas w leader pod =
      (servers : List Server) × (get_cluster_nodes services.http pod.pod_ip identity w ≡ ok servers)
      × (replicas ≡ some (pos (length servers)))
      × (agree_on leader servers ≡ true)

  -- The end of the round of one pod.
  finish_pod-done :
      (pod : Pod) (leader found : String) (s s' : State W)
      → finish_pod services pod leader s ≡ (done found, s')
      → (found ≡ leader)
        × (s'.nacos.spec ≡ s.nacos.spec)
        × (s'.nacos.status.conditions
            ≡ s.nacos.status.conditions ++ condition_of services found pod ∷ [])
        × (s'.world ≡ s.world)
  finish_pod-done pod leader found s s' h =
      let same : found ≡ leader =
        ap (λ (r : Outcome String × State W). elim r.0 [ done l ↦ l | panics _ ↦ found ]) (sym h) in
      let kept : s' ≡ (finish_pod services pod leader s).1 =
        ap (λ (r : Outcome String × State W). r.1) (sym h) in
      (
        same,
        ap (λ (x : State W). x.nacos.spec) kept,
        ap (λ (x : State W). x.nacos.status.conditions) kept
            ∙ ap (λ (l : String). s.nacos.status.conditions ++ condition_of services l pod ∷ [])
                (sym same),
        ap (λ (x : State W). x.world) kept,
      )

  check_pod-Answers :
      (identity : String × String) (pod : Pod) (leader found : String) (s s' : State W)
      → check_pod services identity pod leader s ≡ (done found, s')
      → Answers identity s.nacos.spec.replicas s.world found pod
        × ((leader == "" || leader == found) ≡ true)
        × (s'.nacos.spec ≡ s.nacos.spec)
        × (s'.nacos.status.conditions
            ≡ s.nacos.status.conditions ++ condition_of services found pod ∷ [])
        × (s'.world ≡ s.world)
  unfolding check_pod
  check_pod-Answers identity pod leader found s s' h =
      let (servers, answered, h1) =
        answer-done (get_cluster_nodes services.http pod.pod_ip identity s.world)
          (check_answer services pod leader) found s s' h in
      let (n, replicas, h2) =
        dereference-done s.nacos.spec.replicas (check_members services pod leader servers) found s
          s' h1 in
      let (same, h3) =
        ensure_equal-done (int_eq (pos (length servers)) n) (show_nat (length servers)) (itoa n)
          code_cluster_faile "server num is not equal"
          (λ _. check_servers services servers leader >>= finish_pod services pod) found s s' h2 in
      let (leader', s1, checked, h4) =
        continue-done (check_servers services servers leader s) (finish_pod services pod) found s'
          h3 in
      let (is_found, spec, conditions, world) = finish_pod-done pod leader' found s1 s' h4 in
      let (a, b, c, d, w) = check_servers-agree services servers leader leader' s s1 checked in
      (
        (
          servers,
          answered,
          replicas ∙ ap some (pos_of (length servers) n same),
          ap (λ (l : String). agree_on l servers) is_found ∙ a,
        ),
        ap (λ (l : String). leader == "" || leader == l) is_found ∙ b,
        spec ∙ c,
        conditions
            ∙ ap (λ (cs : List NacosCondition). cs ++ condition_of services found pod ∷ []) d,
        world ∙ w,
      )

  -- `Answers` for each pod of a list.
  abbrev pub AllAnswer : String × String → Option ℤ → W → String → List Pod → Type 0
  AllAnswer identity replicas w leader [] = Unit
  AllAnswer identity replicas w leader (pod ∷ pods) =
      Answers identity replicas w leader pod × AllAnswer identity replicas w leader pods

  check_pods-Answers :
      (identity : String × String) (pods : List Pod) (leader : String) (s s' : State W)
      → check_pods services identity pods leader s ≡ (done tt, s')
      → (final : String) × AllAnswer identity s.nacos.spec.replicas s.world final pods
        × ((leader == "" || leader == final) ≡ true)
        × (condition_pods s'.nacos.status.conditions
            ≡ condition_pods s.nacos.status.conditions ++ pod_names pods)
  unfolding check_pods
  check_pods-Answers identity [] leader s s' h = (
    leader,
    tt,
    rw (eq_refl leader) (ground arith),
    ap (λ (r : Outcome Unit × State W). condition_pods r.1.nacos.status.conditions) (sym h)
        ∙ sym (append-nil (condition_pods s.nacos.status.conditions)),
  )
  check_pods-Answers identity (pod ∷ pods) leader s s' h =
      let (found, s1, checked, rest) =
        continue-done (check_pod services identity pod leader s) (check_pods services identity pods)
          tt s' h in
      let ((servers, answered, replicas, agree), b, c, d, w) =
        check_pod-Answers identity pod leader found s s1 checked in
      let (final, all, same, names) = check_pods-Answers identity pods found s1 s' rest in
      (
        final,
        (
          (servers, answered, replicas, agree_on-weaken servers found final agree same),
          subst (λ (v : W). AllAnswer identity s.nacos.spec.replicas v final pods) w
              (subst (λ (r : Option ℤ). AllAnswer identity r s1.world final pods)
                (ap (λ (x : NacosSpec). x.replicas) c) all),
        ),
        ground (arith, b, same, eq_iff leader "", eq_iff leader found, eq_iff found ""),
        names
            ∙ ap (λ (cs : List NacosCondition). condition_pods cs ++ pod_names pods) d
            ∙ condition_pods-snoc s.nacos.status.conditions (condition_of services found pod)
                (pod_names pods),
      )

  -- If the check of the cluster ends, there is one leader such that each pod answers with as many
  -- servers as the resource has replicas, all of them up and naming no other leader than that one;
  -- and the conditions of the status are those of the pods, one for each, in their order.
  pub check_nacos-AllAnswer :
      (pods : List Pod) (s s' : State W)
      → check_nacos services pods s ≡ (done tt, s')
      → (leader : String) × AllAnswer
          (resolve_identity_header services s.nacos s.world)
          s.nacos.spec.replicas
          s.world
          leader
          pods
        × (condition_pods s'.nacos.status.conditions ≡ pod_names pods)
  unfolding check_nacos resolve_identity_header
  check_nacos-AllAnswer pods s s' h =
      let cleared : State W = record s {
        nacos = record s.nacos { status = record s.nacos.status { conditions = [] } };
      } in
      let (leader, all, same, names) =
        check_pods-Answers (resolve_identity_header services s.nacos s.world) pods "" cleared s'
          h in
      (leader, all, names)
