-- ===== src/Operator/Session/Worked.antt =====
-- The whole of a session that ended: opened, found writable, worked in, closed.
use nacos_operator.Prelude.{◌≡◌, refl, sym, ap, ◌∙◌}
use nacos_operator.Go.{Go, Outcome, done, ◌>>◌}
use nacos_operator.Operator.Services.{Services, State}
use nacos_operator.Operator.Pg.{open_connection, with_connection, check_writable, closing}
use nacos_operator.Operator.Inversion.{continue-done}
use nacos_operator.Operator.Session.Opened.{open_connection-Keeps}
use nacos_operator.Operator.Session.Ran.{IsWritable, check_writable-done}

module _ {W : Type 0} (services : Services W) where
  -- `work` ran on the resource as it was, from a world in which the database could just be
  -- written, and left the state `left`; then the connection was closed.
  pub record Worked (work : Go (State W) (Unit {0})) (s left s' : State W) : Type 0 where
    pub opened : State W
    pub ready : State W
    pub opens : open_connection services s ≡ (done tt, opened)
    pub writable : IsWritable services opened.world ready.world
    pub same : ready.nacos ≡ s.nacos
    pub works : work ready ≡ (done tt, left)
    pub closes : s' ≡ record left { world = services.postgres.close left.world }

  closing-done :
      (m : Go (State W) (Unit {0})) (s s' : State W)
      → closing services m s ≡ (done tt, s')
      → (left : State W) × (m s ≡ (done tt, left))
        × (s' ≡ record left { world = services.postgres.close left.world })
  closing-done m s s' h = (
    (m s).1,
    ap (λ (r : Outcome Unit × State W). (r.0, (m s).1)) h,
    ap (λ (r : Outcome Unit × State W). r.1) (sym h),
  )

  pub with_connection-Worked :
      (work : Go (State W) (Unit {0})) (s s' : State W)
      → with_connection services work s ≡ (done tt, s')
      → (left : State W) × Worked work s left s'
  unfolding with_connection
  with_connection-Worked work s s' h =
      let (_, opened, e1, h1) = continue-done (open_connection services s) _ tt s' h in
      let (left, e2, closes) = closing-done (check_writable services >> work) opened s' h1 in
      let (_, ready, e3, works) = continue-done (check_writable services opened) _ tt left e2 in
      let (writable, kept) = check_writable-done services opened ready e3 in
      (
        left,
        record {
          opened = opened;
          ready = ready;
          opens = e1;
          writable = writable;
          same =
              kept
              ∙ ap (λ (r : Outcome Unit × State W). r.1.nacos) (sym e1)
              ∙ (open_connection-Keeps services {Q = λ (x : State W). x.nacos ≡ s.nacos}
                    λ x w e. e).at
                  s refl;
          works = works;
          closes = closes;
        },
      )
