-- ===== src/Operator/Quorum.antt =====
-- What the check of the stateful set and its pods has established when it does not panic.
use nacos_operator.Prelude.{
  ℕ, ◌*◌, ◌≤◌, ◌≡◌, refl, sym, ap, subst, ◌∙◌, Bool, true, false, not, ◌&&◌, Option, some, List, [],
  ◌∷◌, ℤ, pos, negsuc, int_eq, int_lt, length, arith, inl, inr, Bool-cases,
}
use nacos_operator.Go.{Reply, ok, fail, Outcome, done, panics, continue, pure, ◌>>=◌}
use nacos_operator.Types.{Pod, StatefulSet}
use nacos_operator.K8s.{
  is_ready, ready_pods, get_stateful_set_read_pod, get_stateful_set_pods, dereference,
}
use nacos_operator.Operator.Inversion.{
  continue-done, dereference-done, ensure_reply-done, when-panic-done,
}
use nacos_operator.Operator.Services.{Services, State}
use nacos_operator.Operator.Check.{
  check_kind, check_stored, same_replicas, enough_pods, read_pods, pods_of, half_up,
}

abbrev pub all_ready : List Pod → Bool
all_ready [] = true
all_ready (p ∷ ps) = is_ready p.conditions && all_ready ps

ready_pods-all_ready : (ps : List Pod) → all_ready (ready_pods ps) ≡ true
unfolding ready_pods
ready_pods-all_ready [] = refl
ready_pods-all_ready (p ∷ ps) = elim (Bool-cases (is_ready p.conditions)) [
  | inl e ↦ rw (e, e) (ready_pods-all_ready ps)
  | inr e ↦ rw e (ready_pods-all_ready ps)
]

module _ {W : Type 0} (services : Services W) where
  -- The pods that a read leaves are ready.
  abbrev AreReady : State W → Outcome (List Pod) × State W → Type 0
  AreReady s (done pods, s') = (all_ready pods ≡ true) × (s'.nacos ≡ s.nacos)
  AreReady s (panics p, s') = Unit

  pods_of-AreReady :
      (s : State W) (x : Outcome (Reply (List Pod)) × W)
      → AreReady s (
          pods_of services s (
            continue x
              λ reply. pure (elim reply [ ok pods ↦ ok (ready_pods pods) | fail e ↦ fail e ])))
  pods_of-AreReady s (done (ok pods), w) = (ready_pods-all_ready pods, refl)
  pods_of-AreReady s (done (fail e), w) = (refl, refl)
  pods_of-AreReady s (panics p, w) = tt

  read_pods-AreReady : (s : State W) → AreReady s (read_pods services s.nacos s)
  unfolding get_stateful_set_read_pod
  read_pods-AreReady s =
      pods_of-AreReady s
        (get_stateful_set_pods services.order services.api s.nacos.namespace s.nacos.name s.world)

  half_bound : (l n : ℕ) → int_lt (pos l) (half_up (pos n)) ≡ false → n ≤ 2 * l
  half_bound l n h = ground arith

  same_of : (a : ℤ) (n : ℕ) → not (int_eq a (pos n)) ≡ false → a ≡ pos n
  same_of (pos m) n h = ground arith
  same_of (negsuc m) n h = cc

  -- What is established after the comparison of the replicas.
  counted :
      (n : ℕ) (a : ℤ) (s s' : State W) (pods : List Pod)
      → same_replicas services s.nacos a (pos n) s ≡ (done pods, s')
      → (a ≡ pos n) × (n ≤ 2 * length pods) × (all_ready pods ≡ true) × (s'.nacos ≡ s.nacos)
  counted n a s s' pods h =
      let (same, h1) =
        when-panic-done (not (int_eq a (pos n))) _
          (λ _. read_pods services s.nacos >>= enough_pods services (pos n)) pods s s' h in
      let (read, s1, reads, h2) =
        continue-done (read_pods services s.nacos s) (enough_pods services (pos n)) pods s' h1 in
      let (enough, h3) =
        when-panic-done (int_lt (pos (length read)) (half_up (pos n))) _ (λ _. pure read) pods s1 s'
          h2 in
      let are_ready : AreReady s (done read, s1) =
        subst (AreReady s) reads (read_pods-AreReady s) in
      let found : read ≡ pods =
        ap (λ (r : Outcome (List Pod) × State W). elim r.0 [ done l ↦ l | panics _ ↦ read ]) h3 in
      (
        same_of a n same,
        subst (λ (l : List Pod). n ≤ 2 * length l) found (half_bound (length read) n enough),
        ap all_ready (sym found) ∙ are_ready.0,
        ap (λ (r : Outcome (List Pod) × State W). r.1.nacos) (sym h3) ∙ are_ready.1,
      )

  -- If the check ends with the list `pods`, for a resource that wants `n` replicas, the stored
  -- stateful set wants `n` as well, the listed pods are at least half of `n`, and each of them is
  -- ready; the resource is as it was.
  pub check_kind-quorum :
      (n : ℕ) (s s' : State W) (pods : List Pod)
      → s.nacos.spec.replicas ≡ some (pos n)
      → check_kind services s ≡ (done pods, s')
      → (ss : StatefulSet) × (services.api.stateful_sets.get s.nacos.namespace s.nacos.name s.world
          ≡ ok ss)
        × (ss.spec.replicas ≡ some (pos n))
        × (n ≤ 2 * length pods)
        × (all_ready pods ≡ true)
        × (s'.nacos ≡ s.nacos)
  unfolding check_kind
  check_kind-quorum n s s' pods replicas h =
      let (ss, stored, h1) =
        ensure_reply-done (services.api.stateful_sets.get s.nacos.namespace s.nacos.name s.world)
          (check_stored services s.nacos) pods s s' h in
      let (a, wanted, h2) =
        dereference-done ss.spec.replicas
          (λ a. dereference s.nacos.spec.replicas >>= same_replicas services s.nacos a) pods s s'
          h1 in
      let h3 : same_replicas services s.nacos a (pos n) s ≡ (done pods, s') =
        subst
          (λ (o : Option ℤ).
            continue (dereference o s) (same_replicas services s.nacos a) ≡ (done pods, s'))
          replicas h2 in
      let (same, bound, are_ready, kept) = counted n a s s' pods h3 in
      (ss, stored, wanted ∙ ap some same, bound, are_ready, kept)
