-- ===== src/Lifecycle/Consistency.antt =====
-- Every snapshot that the controller of backend/pc_client/service_state.py publishes is consistent.
use mathlib.Core.Path.{subst}
use ece4880_project.Prelude.{
  ℕ, ◌+◌, ◌≤◌, ◌≡◌, ◌↔◌, refl, true, false, ok, err, Result, sym, ap, ◌∙◌, Option, none, some, List,
  [], ◌∷◌, arith, length,
}
use ece4880_project.Lifecycle.{
  ConnectionPhase, ControllerState, Changes, Violation, is_connected_phase, is_stopped, replaced,
  checked, transition_state, transition, transitions, stopped, or_keep,
}

pub record IsConsistent (s : ControllerState) : Type 0 where
  pub ready_connected : s.ready ≡ true → s.connected ≡ true
  pub connected_ready :
      s.phase ≡ ConnectionPhase.connected → (s.connected ≡ true) × (s.ready ≡ true)
  pub stopped_idle : s.phase ≡ stopped → s.desired_connected ≡ false

pub connected_iff :
    (p : ConnectionPhase) → (is_connected_phase p ≡ true) ↔ (p ≡ ConnectionPhase.connected)
connected_iff p = ground arith

pub stopped_iff : (p : ConnectionPhase) → (is_stopped p ≡ true) ↔ (p ≡ stopped)
stopped_iff p = ground arith

checked_sound : (s t : ControllerState) → checked s ≡ ok t → (t ≡ s) × IsConsistent s
unfolding checked
checked_sound s t h = (
  ground arith,
  record {
    ready_connected = λ r. ground arith;
    connected_ready = λ p. ground (arith, connected_iff s.phase);
    stopped_idle = λ p. ground (arith, stopped_iff s.phase);
  },
)

checked_complete : (s : ControllerState) → IsConsistent s → checked s ≡ ok s
unfolding checked
checked_complete s c = ground (
  arith,
  c.ready_connected,
  c.connected_ready,
  c.stopped_idle,
  connected_iff s.phase,
  stopped_iff s.phase,
)

-- The snapshot that the changes ask for: each field is the one that was given, or else the one before;
-- the revision is the next one.
pub record IsRequested (previous : ControllerState) (now : ℕ) (changes : Changes)
    (next : ControllerState) : Type 0 where
  pub phase : next.phase ≡ elim changes.phase [ none ↦ previous.phase | some p ↦ p ]
  pub desired_connected :
      next.desired_connected
      ≡ elim changes.desired_connected [ none ↦ previous.desired_connected | some b ↦ b ]
  pub target : next.target ≡ elim changes.target [ none ↦ previous.target | some t ↦ t ]
  pub connected : next.connected ≡ elim changes.connected [ none ↦ previous.connected | some b ↦ b ]
  pub ready : next.ready ≡ elim changes.ready [ none ↦ previous.ready | some b ↦ b ]
  pub credential_state :
      next.credential_state
      ≡ elim changes.credential_state [ none ↦ previous.credential_state | some c ↦ c ]
  pub retry_count :
      next.retry_count ≡ elim changes.retry_count [ none ↦ previous.retry_count | some n ↦ n ]
  pub next_retry_at_utc :
      next.next_retry_at_utc
      ≡ elim changes.next_retry_at_utc [ none ↦ previous.next_retry_at_utc | some t ↦ t ]
  pub last_seen_utc :
      next.last_seen_utc ≡ elim changes.last_seen_utc [ none ↦ previous.last_seen_utc | some t ↦ t ]
  pub last_error :
      next.last_error ≡ elim changes.last_error [ none ↦ previous.last_error | some e ↦ e ]
  pub revision : next.revision ≡ previous.revision + 1
  pub changed_at_utc : next.changed_at_utc ≡ now
  pub reason : next.reason ≡ changes.reason

kept_or_given {ℓ} :
    {A : Type ℓ} (o : Option A) (old : A) → or_keep o old ≡ elim o [ none ↦ old | some new ↦ new ]
kept_or_given none old = refl
kept_or_given (some new) old = refl

replaced-IsRequested :
    (previous : ControllerState) (now : ℕ) (changes : Changes)
    → IsRequested previous now changes (replaced previous now changes)
unfolding replaced
replaced-IsRequested previous now changes = record {
  phase = kept_or_given changes.phase previous.phase;
  desired_connected = kept_or_given changes.desired_connected previous.desired_connected;
  target = kept_or_given changes.target previous.target;
  connected = kept_or_given changes.connected previous.connected;
  ready = kept_or_given changes.ready previous.ready;
  credential_state = kept_or_given changes.credential_state previous.credential_state;
  retry_count = kept_or_given changes.retry_count previous.retry_count;
  next_retry_at_utc = kept_or_given changes.next_retry_at_utc previous.next_retry_at_utc;
  last_seen_utc = kept_or_given changes.last_seen_utc previous.last_seen_utc;
  last_error = kept_or_given changes.last_error previous.last_error;
  revision = refl;
  changed_at_utc = refl;
  reason = refl;
}

requested_once :
    (previous : ControllerState) (now : ℕ) (changes : Changes) (s t : ControllerState)
    → IsRequested previous now changes s
    → IsRequested previous now changes t
    → s ≡ t
requested_once previous now changes s t h k = λ i. record {
  phase = (h.phase ∙ sym k.phase) i;
  desired_connected = (h.desired_connected ∙ sym k.desired_connected) i;
  target = (h.target ∙ sym k.target) i;
  connected = (h.connected ∙ sym k.connected) i;
  ready = (h.ready ∙ sym k.ready) i;
  credential_state = (h.credential_state ∙ sym k.credential_state) i;
  retry_count = (h.retry_count ∙ sym k.retry_count) i;
  next_retry_at_utc = (h.next_retry_at_utc ∙ sym k.next_retry_at_utc) i;
  last_seen_utc = (h.last_seen_utc ∙ sym k.last_seen_utc) i;
  last_error = (h.last_error ∙ sym k.last_error) i;
  revision = (h.revision ∙ sym k.revision) i;
  changed_at_utc = (h.changed_at_utc ∙ sym k.changed_at_utc) i;
  reason = (h.reason ∙ sym k.reason) i;
}

pub transition_state-replaced :
    (previous : ControllerState) (now : ℕ) (changes : Changes) (next : ControllerState)
    → (transition_state previous now changes ≡ ok next)
      ↔ ((next ≡ replaced previous now changes) × IsConsistent (replaced previous now changes))
unfolding transition_state
transition_state-replaced previous now changes next = (
  checked_sound (replaced previous now changes) next,
  λ h. rw (h.0) (checked_complete (replaced previous now changes) h.1),
)

-- `transition_state` returns a snapshot exactly where it is consistent and the requested one: each
-- field is the one that was given, or else the one before, with the time, the reason and the next
-- revision.
pub transition_state_iff :
    (previous : ControllerState) (now : ℕ) (changes : Changes) (next : ControllerState)
    → (transition_state previous now changes ≡ ok next)
      ↔ (IsRequested previous now changes next × IsConsistent next)
transition_state_iff previous now changes next =
    let asked = replaced-IsRequested previous now changes in
    (
      λ h.
          let (e, c) = (transition_state-replaced previous now changes next).0 h in
          (subst (IsRequested previous now changes) (sym e) asked, subst IsConsistent (sym e) c),
      λ (r, c).
          let e =
            requested_once previous now changes next (replaced previous now changes) r asked in
          (transition_state-replaced previous now changes next).1 (e, subst IsConsistent e c),
    )

abbrev revision_of : ControllerState → ℕ
revision_of s = s.revision

abbrev IsNext : ControllerState → ControllerState → Type 0
IsNext s t = IsConsistent t × (s.revision ≤ t.revision) × (t.revision ≤ s.revision + 1)

accepted :
    (s : ControllerState) (now : ℕ) (changes : Changes) (r : Result Violation ControllerState)
    → ((t : ControllerState)
        → r ≡ ok t
        → (t ≡ replaced s now changes) × IsConsistent (replaced s now changes))
    → IsConsistent s
    → IsNext s (elim r [ ok next ↦ next | err _ ↦ s ])
unfolding replaced
accepted s now changes (err e) sound h = (h, omega arith, omega arith)
accepted s now changes (ok t) sound h =
    let (e, c) = sound t refl in
    (subst IsConsistent (sym e) c, omega (arith, ap revision_of e), omega (arith, ap revision_of e))

transition-IsNext :
    (s : ControllerState) (c : ℕ × Changes) → IsConsistent s → IsNext s (transition s c)
unfolding transition
transition-IsNext s (now, changes) h =
    accepted s now changes (transition_state s now changes)
      (λ t. (transition_state-replaced s now changes t).0) h

-- From a consistent snapshot, whatever is requested, the controller's snapshot stays consistent, and its revision never falls
-- and grows by at most one for each request.
pub transitions-IsConsistent :
    (s : ControllerState) (cs : List (ℕ × Changes))
    → IsConsistent s
    → IsConsistent (transitions s cs)
      × (s.revision ≤ (transitions s cs).revision)
      × ((transitions s cs).revision ≤ s.revision + length cs)
unfolding transitions
transitions-IsConsistent s [] h = (h, omega arith, omega arith)
transitions-IsConsistent s (c ∷ cs) h =
    let (kept, lo, hi) = transition-IsNext s c h in
    let (later, lo', hi') = transitions-IsConsistent (transition s c) cs kept in
    (later, omega arith, omega arith)
