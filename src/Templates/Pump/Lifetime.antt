-- ===== src/Templates/Pump/Lifetime.antt =====
-- exercises/templatelab/session.h: the life of a session that pumps and is moved, over any policy.
use going_unmanaged.Prelude.{
  ℕ, ◌≡◌, refl, ap, List, [], ◌++◌, Option, none, some, true, false, Bytes, length, arith,
}
use going_unmanaged.Templates.Pump.{
  Policy, View, Laws, Session, new_session, end_session, move_session, is_open, pump_session,
}

module _ (P : Policy) where
  new_session-opened :
      (name : Bytes) (w w' : P.World) (h : P.Handle)
      → P.open_handle name w ≡ some (h, w')
      → new_session P name w ≡ some (record { handle = h; samples = [] }, w')
  unfolding new_session
  new_session-opened name w w' h e = rw (new_session, e) refl

  pump-open :
      (s : Session P) (w w' : P.World) (ss : List P.Sample)
      → P.differs s.handle P.no_handle ≡ true
      → P.poll_handle s.handle w ≡ some (ss, w')
      → pump_session P s w
        ≡ some (length (s.samples ++ ss), record s { samples = s.samples ++ ss }, w')
  unfolding pump_session is_open
  pump-open s w w' ss d e = rw (pump_session, d, e) refl

  pump-closed :
      (s : Session P) (w : P.World)
      → P.differs s.handle P.no_handle ≡ false
      → pump_session P s w ≡ some (length s.samples, s, w)
  unfolding pump_session is_open
  pump-closed s w d = rw (pump_session, d) refl

  -- A session is made, pumped and moved; both it and the new one are pumped; both end.
  abbrev pub life : Bytes → P.World → Option (ℕ × ℕ × P.World)
  life name w = elim (new_session P name w) [
    | none ↦ none
    | some (a, w₁) ↦ elim (pump_session P a w₁) [
      | none ↦ none
      | some (n, a₁, w₂) ↦
          let (b, left) = move_session P a₁ in
          elim (pump_session P left w₂) [
            | none ↦ none
            | some (zero', left', w₃) ↦ elim (pump_session P b w₃) [
              | none ↦ none
              | some (m, b', w₄) ↦ some (zero', m, end_session P left' (end_session P b' w₄))
            ]
          ]
    ]
  ]

module _ (P : Policy) (V : View P) (L : Laws P V) where
  -- A life ends, with nothing pumped into the session that was moved from, and leaves as many handles open
  -- as there were.
  pub life_lem :
      (name : Bytes) (w : P.World)
      → V.Room name w
      → (m : ℕ) × (w' : P.World) × (life P name w ≡ some (0, m, w')) × (V.live w' ≡ V.live w)
  unfolding end_session move_session
  life_lem name w room =
      let (h, w₁, e₁, d, o₁, l₁) = L.opens name w room in
      let (ss, w₂, e₂, o₂, l₂) = L.polls h w₁ o₁ in
      let (ss', w₃, e₃, o₃, l₃) = L.polls h w₂ o₂ in
      (
        length (ss ++ ss'),
        P.close_handle h w₃,
        rw (life, new_session-opened P name w w₁ h e₁)
            (rw (pump-open P (record { handle = h; samples = [] }) w₁ w₂ ss d e₂) (
              rw (pump-closed P (record { handle = P.no_handle; samples = [] }) w₂ L.none_closed) (
                rw (pump-open P (record { handle = h; samples = ss }) w₂ w₃ ss' d e₃) (
                  ap (λ z. some (0, length (ss ++ ss'), z))
                    (L.closes_none (P.close_handle h w₃)))))),
        omega (arith, L.closes h w₃ o₃),
      )
