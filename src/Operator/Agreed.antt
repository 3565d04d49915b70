-- ===== src/Operator/Agreed.antt =====
-- What the loop over the servers of one pod has established when it ends.
use nacos_operator.Prelude.{
  String, ◌≡◌, refl, sym, ap, Bool, true, ◌||◌, ◌&&◌, List, [], ◌∷◌, ◌==◌, eq_iff, eq_refl, arith,
  if◌then◌else◌,
}
use nacos_operator.Go.{Outcome, done, panics, ensure_equal}
use nacos_operator.NacosClient.{Server}
use nacos_operator.Operator.Services.{Services, State}
use nacos_operator.Operator.Check.{check_servers}

-- All servers are up, and each that names a leader names `leader`.
abbrev pub agree_on : String → List Server → Bool
agree_on leader [] = true
agree_on leader (svc ∷ servers) =
    svc.state == "UP" && (svc.leader == "" || svc.leader == leader) && agree_on leader servers

pub agree_on-weaken :
    (servers : List Server) (found leader : String)
    → agree_on found servers ≡ true
    → (found == "" || found == leader) ≡ true
    → agree_on leader servers ≡ true
agree_on-weaken [] found leader h e = refl
agree_on-weaken (svc ∷ servers) found leader h e = ground (
  arith,
  eq_iff found "",
  eq_iff svc.leader "",
  eq_iff found leader,
  eq_iff svc.leader found,
  eq_iff svc.leader leader,
  agree_on-weaken servers found leader (ground arith) e,
)

module _ {W : Type 0} (services : Services W) where
  abbrev reported : Server → State W → State W
  reported svc s = record s {
    nacos = record s.nacos { status = record s.nacos.status { version = svc.version } };
  }

  check_servers-first :
      (svc : Server) (servers : List Server) (leader found : String) (s s' : State W)
      → check_servers services (svc ∷ servers) leader s ≡ (done found, s')
      → ((svc.state == "UP") ≡ true)
        × ((leader == "" || leader == svc.leader) ≡ true)
        × (check_servers services servers
              (if leader == "" then svc.leader else leader)
              (reported svc s)
            ≡ (done found, s'))
  unfolding check_servers ensure_equal
  check_servers-first svc servers leader found s s' h = ground arith

  -- If the loop over the servers of one pod ends, with the leader `found`, all servers are up,
  -- each of them that names a leader names `found`, and so did `leader` if it was set; the
  -- specification, the conditions and the world are unchanged.
  pub check_servers-agree :
      (servers : List Server) (leader found : String) (s s' : State W)
      → check_servers services servers leader s ≡ (done found, s')
      → (agree_on found servers ≡ true)
        × ((leader == "" || leader == found) ≡ true)
        × (s'.nacos.spec ≡ s.nacos.spec)
        × (s'.nacos.status.conditions ≡ s.nacos.status.conditions)
        × (s'.world ≡ s.world)
  unfolding check_servers ensure_equal
  check_servers-agree [] leader found s s' h =
      let same : leader ≡ found =
        ap (λ (r : Outcome String × State W). elim r.0 [ done a ↦ a | panics _ ↦ leader ]) h in
      let kept : s ≡ s' = ap (λ (r : Outcome String × State W). r.1) h in
      (
        refl,
        rw (same, eq_refl found) (ground arith),
        ap (λ (x : State W). x.nacos.spec) (sym kept),
        ap (λ (x : State W). x.nacos.status.conditions) (sym kept),
        ap (λ (x : State W). x.world) (sym kept),
      )
  check_servers-agree (svc ∷ servers) leader found s s' h =
      let (up, same, rest) = check_servers-first svc servers leader found s s' h in
      let (a, b, c, d, w) =
        check_servers-agree servers (if leader == "" then svc.leader else leader) found
          (reported svc s) s' rest in
      (
        ground (arith, eq_iff svc.leader found, eq_iff leader svc.leader, eq_iff leader found),
        ground (arith, eq_iff svc.leader found, eq_iff leader svc.leader, eq_iff leader found),
        c,
        d,
        w,
      )
