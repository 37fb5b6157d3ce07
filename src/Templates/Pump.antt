-- ===== src/Templates/Pump.antt =====
-- exercises/templatelab/session.h: Session<Sdk>. A policy is a record: its static functions over the state
-- `World` that they share, and what a Session counts on. An exception is `none`.
pub mod Lifetime
pub mod Device
pub mod Recording
use going_unmanaged.Prelude.{
  ℕ, ◌+◌, ◌≡◌, List, [], ◌++◌, Option, none, some, Bool, true, false, not, if◌then◌else◌, Bytes,
  length,
}

pub record Policy : Type 1 where
  pub World : Type 0
  pub Handle : Type 0
  pub Sample : Type 0
  -- `Handle{}`, and `!=`.
  pub no_handle : Handle
  pub differs : Handle → Handle → Bool
  pub open_handle : Bytes → World → Option (Handle × World)
  pub close_handle : Handle → World → World
  -- What the sink is called with.
  pub poll_handle : Handle → World → Option (List Sample × World)

-- How a policy's world is looked at: `Room name w` is where Open of the name succeeds, `IsOpen h w` that the
-- handle is open, and `live` counts the open handles.
pub record View (P : Policy) : Type 1 where
  pub Room : Bytes → P.World → Type 0
  pub IsOpen : P.Handle → P.World → Type 0
  pub live : P.World → ℕ

-- What a policy promises.
pub record Laws (P : Policy) (V : View P) : Type 0 where
  pub opens :
      (name : Bytes) (w : P.World)
      → V.Room name w
      → (h : P.Handle) × (w' : P.World) × (P.open_handle name w ≡ some (h, w'))
        × (P.differs h P.no_handle ≡ true)
        × V.IsOpen h w'
        × (V.live w' ≡ V.live w + 1)
  pub closes :
      (h : P.Handle) (w : P.World) → V.IsOpen h w → V.live (P.close_handle h w) + 1 ≡ V.live w
  pub closes_none : (w : P.World) → P.close_handle P.no_handle w ≡ w
  pub none_closed : P.differs P.no_handle P.no_handle ≡ false
  pub polls :
      (h : P.Handle) (w : P.World)
      → V.IsOpen h w
      → (ss : List P.Sample) × (w' : P.World) × (P.poll_handle h w ≡ some (ss, w'))
        × V.IsOpen h w'
        × (V.live w' ≡ V.live w)

module _ (P : Policy) where
  pub record Session : Type 0 where
    pub handle : P.Handle
    pub samples : List P.Sample

  unfoldable pub new_session : Bytes → P.World → Option (Session × P.World)
  new_session name w = elim (P.open_handle name w) [
    | none ↦ none
    | some (h, w') ↦ some (record { handle = h; samples = [] }, w')
  ]

  -- The destructor.
  unfoldable pub end_session : Session → P.World → P.World
  end_session s w = P.close_handle s.handle w

  -- The move constructor: the new session, and what is left of the other; a std::vector that was moved
  -- from by its constructor is empty.
  unfoldable pub move_session : Session → Session × Session
  move_session other = (other, record { handle = P.no_handle; samples = [] })

  unfoldable pub is_open : Session → Bool
  is_open s = P.differs s.handle P.no_handle

  -- Pump: what it returns, the session and the world.
  unfoldable pub pump_session : Session → P.World → Option (ℕ × Session × P.World)
  unfolding is_open
  pump_session s w =
      let polled = elim (P.poll_handle s.handle w) as (λ r. Option (ℕ × Session × P.World)) [
        | none ↦ none
        | some (ss, w') ↦
            some (length (s.samples ++ ss), record s { samples = s.samples ++ ss }, w')
      ] in
      if not (is_open s) then some (length s.samples, s, w) else polled
