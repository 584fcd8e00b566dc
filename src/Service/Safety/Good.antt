-- ===== src/Service/Safety/Good.antt =====
-- The states of the connection that every part of backend/pc_client/ble_service.py keeps, and the
-- transitions that keep them.
use ece4880_project.Prelude.{ℕ, ◌≡◌, refl, Bool, true, false, some, ok, err, ◌>>=◌, if◌then◌else◌}
use ece4880_project.Lifecycle.{
  ConnectionPhase, ControllerState, Changes, is_connected_phase, is_stopped, or_keep, replaced,
  transition_state,
}
use ece4880_project.Lifecycle.Consistency.{
  IsConsistent, transition_state-replaced, connected_iff, stopped_iff,
}
use ece4880_project.Service.Controller.{Controller, Act, Raise, violation, become}
use ece4880_project.Service.Manager.{Place, Turn, moved}

-- Consistent, and, where `wanted`, ready only while a connection is desired.
pub record IsGood (wanted : Bool) (s : ControllerState) : Type 0 where
  pub consistent : IsConsistent s
  pub desired : wanted ≡ true → s.ready ≡ true → s.desired_connected ≡ true

-- A part of a handler raises no violation and leaves a good state.
abbrev pub IsFine : Bool → Act Controller → Type 0
IsFine w (ok s) = IsGood w s.state
IsFine w (err (violation v, s)) = ⊥
IsFine w (err (r, s)) = IsGood w s.state

abbrev pub IsFineTurn : Bool → Turn → Type 0
IsFineTurn w (ok (place, s)) = IsGood w s.state
IsFineTurn w (err (violation v, s)) = ⊥
IsFineTurn w (err (r, s)) = IsGood w s.state

module _ (w : Bool) where
  pub become-IsFine :
      (c : Changes) (s : Controller) → IsGood w (replaced s.state s.clock c) → IsFine w (become c s)
  unfolding become
  become-IsFine c s g =
      let e : transition_state s.state s.clock c ≡ ok (replaced s.state s.clock c) =
        (transition_state-replaced s.state s.clock c (replaced s.state s.clock c)).1
          (refl, g.consistent) in
      rw e g

  -- A transition out of CONNECTED and not into STOPPED, to a service that is not ready.
  pub IsGood-calm :
      (c : Changes) (s : ControllerState) (now : ℕ) (p : ConnectionPhase)
      → c.phase ≡ some p
      → is_connected_phase p ≡ false
      → is_stopped p ≡ false
      → c.ready ≡ some false
      → IsGood w (replaced s now c)
  unfolding replaced
  IsGood-calm c s now p e f g r =
      let phase : or_keep c.phase s.phase ≡ p = rw e refl in
      let ready : or_keep c.ready s.ready ≡ false = rw r refl in
      record {
        consistent = record {
          ready_connected = λ h. cc (h, ready);
          connected_ready = λ h. cc ((connected_iff p).1 (h' h phase), f);
          stopped_idle = λ h. cc ((stopped_iff p).1 (h' h phase), g);
        };
        desired = λ u h. cc (h, ready);
      }
    where
      h' : {a b c : ConnectionPhase} → a ≡ b → a ≡ c → c ≡ b
      h' x y = cc (x, y)

  pub calm-IsFine :
      (c : Changes) (s : Controller) (p : ConnectionPhase)
      → c.phase ≡ some p
      → is_connected_phase p ≡ false
      → is_stopped p ≡ false
      → c.ready ≡ some false
      → IsFine w (become c s)
  calm-IsFine c s p e f g r = become-IsFine c s (IsGood-calm c s.state s.clock p e f g r)

  pub become-IsConsistent :
      (c : Changes) (s : Controller)
      → IsConsistent (replaced s.state s.clock c)
      → become c s ≡ ok (record s { state = replaced s.state s.clock c })
  unfolding become
  become-IsConsistent c s h =
      let e : transition_state s.state s.clock c ≡ ok (replaced s.state s.clock c) =
        (transition_state-replaced s.state s.clock c (replaced s.state s.clock c)).1 (refl, h) in
      rw e refl

  -- Such a transition is granted.
  pub become-calm :
      (c : Changes) (s : Controller) (p : ConnectionPhase)
      → c.phase ≡ some p
      → is_connected_phase p ≡ false
      → is_stopped p ≡ false
      → c.ready ≡ some false
      → become c s ≡ ok (record s { state = replaced s.state s.clock c })
  become-calm c s p e f g r =
      become-IsConsistent c s (IsGood-calm c s.state s.clock p e f g r).consistent

  pub moved-IsFineTurn : (p : Place) (a : Act Controller) → IsFine w a → IsFineTurn w (moved p a)
  moved-IsFineTurn p (ok s) h = h
  moved-IsFineTurn p (err (Raise.violation v, s)) h = h
  moved-IsFineTurn p (err (Raise.authentication_required, s)) h = h
  moved-IsFineTurn p (err (Raise.conflict, s)) h = h
  moved-IsFineTurn p (err (Raise.invalid_value, s)) h = h

  -- A part that goes on after a transition.
  pub >>=-IsFine :
      (a : Act Controller) (f : Controller → Act Controller)
      → IsFine w a
      → ((s : Controller) → IsGood w s.state → IsFine w (f s))
      → IsFine w (a >>= f)
  >>=-IsFine (ok s) f h k = k s h
  >>=-IsFine (err (Raise.violation v, s)) f h k = h
  >>=-IsFine (err (Raise.authentication_required, s)) f h k = h
  >>=-IsFine (err (Raise.conflict, s)) f h k = h
  >>=-IsFine (err (Raise.invalid_value, s)) f h k = h

  pub >>=-IsFineTurn :
      (a : Act Controller) (f : Controller → Turn)
      → IsFine w a
      → ((s : Controller) → IsGood w s.state → IsFineTurn w (f s))
      → IsFineTurn w (a >>= f)
  >>=-IsFineTurn (ok s) f h k = k s h
  >>=-IsFineTurn (err (Raise.violation v, s)) f h k = h
  >>=-IsFineTurn (err (Raise.authentication_required, s)) f h k = h
  >>=-IsFineTurn (err (Raise.conflict, s)) f h k = h
  >>=-IsFineTurn (err (Raise.invalid_value, s)) f h k = h

  -- A test: both branches are fine.
  pub if-IsFineTurn :
      (b : Bool) (x y : Turn)
      → (b ≡ true → IsFineTurn w x)
      → (b ≡ false → IsFineTurn w y)
      → IsFineTurn w (if b then x else y)
  if-IsFineTurn true x y h k = h refl
  if-IsFineTurn false x y h k = k refl

  pub >>=-IsFineTurn_of_turn :
      (m : Turn) (f : Place × Controller → Turn)
      → IsFineTurn w m
      → ((p : Place) (s : Controller) → IsGood w s.state → IsFineTurn w (f (p, s)))
      → IsFineTurn w (m >>= f)
  >>=-IsFineTurn_of_turn (ok (p, s)) f h k = k p s h
  >>=-IsFineTurn_of_turn (err (Raise.violation v, s)) f h k = h
  >>=-IsFineTurn_of_turn (err (Raise.authentication_required, s)) f h k = h
  >>=-IsFineTurn_of_turn (err (Raise.conflict, s)) f h k = h
  >>=-IsFineTurn_of_turn (err (Raise.invalid_value, s)) f h k = h
