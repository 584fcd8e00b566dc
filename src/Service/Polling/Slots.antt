-- ===== src/Service/Polling/Slots.antt =====
-- The slots of the poll of backend/pc_client/ble_service.py, and the rows for them.
use ece4880_project.Prelude.{
  ℕ, suc, ◌+◌, ◌*◌, ◌≤◌, ◌<◌, ◌≡◌, ◌⊎◌, refl, String, Bool, true, false, Option, none, some, List,
  [], ◌∷◌, ◌++◌, length, get_or, leb, Result, ok, err, arith, length-append, Bool-cases, inl, inr,
}
use ece4880_project.Service.Polling.{
  Row, sampled, missed, Poll, Cycle, catch_up, due, or_not_connected, advanced, cycle, cycles,
  polling,
}

-- A row that says that a sample is missing gives the time of its slot: slot `k` is `k` intervals after
-- the anchor.
abbrev pub IsOfSlot : ℕ → ℕ → ℕ → Row → Type 0
IsOfSlot interval utc_anchor k (sampled observed_at) = Unit {0}
IsOfSlot interval utc_anchor k (missed at reason) = at ≡ utc_anchor + k * interval

abbrev pub AreOfSlots : ℕ → ℕ → ℕ → List Row → Type 0
AreOfSlots interval utc_anchor k [] = Unit {0}
AreOfSlots interval utc_anchor k (r ∷ rs) =
    IsOfSlot interval utc_anchor k r × AreOfSlots interval utc_anchor (suc k) rs

-- The rows are those of the slots 1, 2, and so on up to the one before the next deadline.
pub record IsOnGrid (interval utc_anchor : ℕ) (p : Poll) : Type 0 where
  pub slots : AreOfSlots interval utc_anchor 1 p.rows
  pub next_slot : p.next_deadline ≡ suc (length p.rows) * interval

module _ (interval utc_anchor : ℕ) where
  IsOfSlot-eq :
      (r : Row) {j k : ℕ}
      → j ≡ k
      → IsOfSlot interval utc_anchor j r
      → IsOfSlot interval utc_anchor k r
  IsOfSlot-eq (sampled observed_at) e h = tt
  IsOfSlot-eq (missed at reason) e h = rw⁻¹ e h

  AreOfSlots-++ :
      (k : ℕ) (rs : List Row) (r : Row)
      → AreOfSlots interval utc_anchor k rs
      → IsOfSlot interval utc_anchor (k + length rs) r
      → AreOfSlots interval utc_anchor k (rs ++ (r ∷ []))
  AreOfSlots-++ k [] r h e = (IsOfSlot-eq r (omega arith) e, tt)
  AreOfSlots-++ k (q ∷ rs) r (g, h) e =
      (g, AreOfSlots-++ (suc k) rs r h (IsOfSlot-eq r (omega arith) e))

  -- A row for the slot that is due, and then the next slot
  with_row :
      (p : Poll) (r : Row) (lost : List String)
      → IsOnGrid interval utc_anchor p
      → IsOfSlot interval utc_anchor (suc (length p.rows)) r
      → IsOnGrid interval utc_anchor (record p {
        next_deadline = p.next_deadline + interval;
        rows = p.rows ++ (r ∷ []);
        link_lost = lost;
      })
  with_row p r lost g h = record {
    slots = AreOfSlots-++ 1 p.rows r g.slots (IsOfSlot-eq r (omega arith) h);
    next_slot = rw (length-append p.rows (r ∷ []), g.next_slot) (grind arith);
  }

  due_now :
      (p : Poll) (reason : String)
      → IsOnGrid interval utc_anchor p
      → IsOfSlot interval utc_anchor
          (suc (length p.rows))
          (missed (utc_anchor + p.next_deadline) reason)
  due_now p reason g = rw (g.next_slot) refl

  catch_up-IsOnGrid :
      (readings : List ℕ) (p p' : Poll)
      → IsOnGrid interval utc_anchor p
      → catch_up interval utc_anchor readings p ≡ some p'
      → IsOnGrid interval utc_anchor p'
        × (length p.rows ≤ length p'.rows)
        × (p'.link_lost ≡ p.link_lost)
  unfolding catch_up
  catch_up-IsOnGrid [] p p' g e = absurd (cc e)
  catch_up-IsOnGrid (now ∷ readings) p p' g e =
      elim (Bool-cases (leb (p.next_deadline + interval) now)) [
        | inl late ↦
            let q = record p {
              next_deadline = p.next_deadline + interval;
              rows =
                  p.rows
                  ++ (missed (utc_anchor + p.next_deadline) "current polling deadline was missed"
                      ∷ []);
            } in
            let (g', l, k) =
              catch_up-IsOnGrid readings q p'
                (with_row p _ p.link_lost g (due_now p "current polling deadline was missed" g))
                (ground (arith, e, late)) in
            (
              g',
              omega (
                arith,
                l,
                length-append p.rows (
                    missed (utc_anchor + p.next_deadline) "current polling deadline was missed"
                    ∷ []),
              ),
              k,
            )
        | inr due_next ↦
            let same : p ≡ p' = ground (arith, e, due_next) in
            (rw⁻¹ same g, rw⁻¹ same (omega arith), rw⁻¹ same refl)
      ]

  due-IsOnGrid :
      (ready : Bool) (sample : Result String ℕ) (last_error : Option String) (p : Poll)
      → IsOnGrid interval utc_anchor p
      → IsOnGrid interval utc_anchor (advanced interval (due utc_anchor ready sample last_error p))
  unfolding due
  due-IsOnGrid false sample last_error p g =
      with_row p _ p.link_lost g (due_now p (or_not_connected last_error) g)
  due-IsOnGrid true (ok observed_at) last_error p g =
      with_row p (sampled observed_at) p.link_lost g tt
  due-IsOnGrid true (err message) last_error p g = with_row p _ _ g (due_now p message g)

  length-due :
      (ready : Bool) (sample : Result String ℕ) (last_error : Option String) (p : Poll)
      → length (due utc_anchor ready sample last_error p).rows ≡ suc (length p.rows)
  unfolding due
  length-due false sample last_error p =
      rw
        (length-append p.rows
          (missed (utc_anchor + p.next_deadline) (or_not_connected last_error) ∷ []))
        (omega arith)
  length-due true (ok observed_at) last_error p =
      rw (length-append p.rows (sampled observed_at ∷ [])) (omega arith)
  length-due true (err message) last_error p =
      rw (length-append p.rows (missed (utc_anchor + p.next_deadline) message ∷ [])) (omega arith)

  cycle_goes_on :
      (m : Option Poll) (c : Cycle) (p p' : Poll)
      → ((q : Poll) → m ≡ some q → IsOnGrid interval utc_anchor q × (length p.rows ≤ length q.rows))
      → elim m [
        | none ↦ none
        | some q ↦ some (advanced interval (due utc_anchor c.is_ready c.sample c.last_error q))
      ]
        ≡ some p'
      → IsOnGrid interval utc_anchor p' × (suc (length p.rows) ≤ length p'.rows)
  cycle_goes_on none c p p' k e = absurd (cc e)
  cycle_goes_on (some q) c p p' k e =
      let same : advanced interval (due utc_anchor c.is_ready c.sample c.last_error q) ≡ p' =
        cc e in
      let (g, l) = k q refl in
      (
        rw⁻¹ same (due-IsOnGrid c.is_ready c.sample c.last_error q g),
        rw⁻¹ same (omega (arith, l, length-due c.is_ready c.sample c.last_error q)),
      )

  cycle-IsOnGrid :
      (c : Cycle) (p p' : Poll)
      → IsOnGrid interval utc_anchor p
      → cycle interval utc_anchor c p ≡ some p'
      → IsOnGrid interval utc_anchor p' × (suc (length p.rows) ≤ length p'.rows)
  unfolding cycle
  cycle-IsOnGrid c p p' g e =
      cycle_goes_on (catch_up interval utc_anchor c.readings p) c p p'
        (λ q f. let (h, l, k) = catch_up-IsOnGrid c.readings p q g f in (h, l)) e

  cycles_go_on :
      (m : Option Poll) (cs : List Cycle) (p p' : Poll)
      → ((q : Poll)
          → m ≡ some q
          → IsOnGrid interval utc_anchor q × (suc (length p.rows) ≤ length q.rows))
      → ((q : Poll)
          → IsOnGrid interval utc_anchor q
          → cycles interval utc_anchor cs q ≡ some p'
          → IsOnGrid interval utc_anchor p' × (length cs + length q.rows ≤ length p'.rows))
      → elim m [ none ↦ none | some q ↦ cycles interval utc_anchor cs q ] ≡ some p'
      → IsOnGrid interval utc_anchor p' × (suc (length cs) + length p.rows ≤ length p'.rows)
  cycles_go_on none cs p p' k r e = absurd (cc e)
  cycles_go_on (some q) cs p p' k r e =
      let (g, l) = k q refl in let (h, b) = r q g e in (h, omega arith)

  cycles-IsOnGrid_from :
      (cs : List Cycle) (p p' : Poll)
      → IsOnGrid interval utc_anchor p
      → cycles interval utc_anchor cs p ≡ some p'
      → IsOnGrid interval utc_anchor p' × (length cs + length p.rows ≤ length p'.rows)
  unfolding cycles
  cycles-IsOnGrid_from [] p p' g e =
      let same : p ≡ p' = cc e in (rw⁻¹ same g, rw⁻¹ same (omega arith))
  cycles-IsOnGrid_from (c ∷ cs) p p' g e =
      cycles_go_on (cycle interval utc_anchor c p) cs p p' (λ q f. cycle-IsOnGrid c p q g f)
        (λ q h f. cycles-IsOnGrid_from cs q p' h f) e

-- However late its cycles are, the poll records each slot once and in order: row `k` is a sample, or
-- the missing interval at `k` intervals after the anchor; the next deadline is the slot behind the last
-- row; and every cycle has recorded at least one.
pub cycles-IsOnGrid :
    (interval utc_anchor : ℕ) (cs : List Cycle) (p : Poll)
    → cycles interval utc_anchor cs (polling interval) ≡ some p
    → IsOnGrid interval utc_anchor p × (length cs ≤ length p.rows)
cycles-IsOnGrid interval utc_anchor cs p e =
    let (g, l) =
      cycles-IsOnGrid_from interval utc_anchor cs (polling interval) p
        (record { slots = tt; next_slot = omega arith }) e in
    (g, omega arith)

abbrev pub AllUpTo : ℕ → List ℕ → Type 0
AllUpTo limit [] = Unit {0}
AllUpTo limit (now ∷ readings) = (now ≤ limit) × AllUpTo limit readings

-- The inner loop has ended at a reading of the clock at which no more than one slot is due; at each
-- reading before it one slot had passed altogether, and was recorded; and it has not gone beyond the
-- clock.
pub record HasCaughtUp (interval limit : ℕ) (readings : List ℕ) (p p' : Poll) : Type 0 where
  pub passed : ℕ
  pub is_read : passed < length readings
  pub moved_on : p'.next_deadline ≡ p.next_deadline + passed * interval
  pub recorded : length p'.rows ≡ length p.rows + passed
  pub newest_due : get_or readings passed 0 < p'.next_deadline + interval
  pub all_late : (j : ℕ) → j < passed → p.next_deadline + suc j * interval ≤ get_or readings j 0
  pub not_ahead : (p'.next_deadline ≤ p.next_deadline) ⊎ (p'.next_deadline ≤ limit)
