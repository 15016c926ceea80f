-- ===== src/Edge/Sessions.antt =====
-- internal/edge/server.go: the Agent's session and the slots of the visitors, as their goroutines
-- change them. A session is a number. set_session and watch_ends are what setSession and its
-- goroutine do one after the other, with nothing of another goroutine in between.
use faketunnel.Base.{
  ℕ, ◌+◌, ◌-◌, ◌≤◌, ◌≡◌, refl, Bool, true, false, ◌&&◌, ◌||◌, Option, none, some, List, [], ◌∷◌,
  arith, leb, ◌==◌, if◌then◌else◌,
}

-- `ended` are the sessions whose CloseChan is closed; `watched` those that a goroutine of
-- setSession still waits for; `hub_closings` counts the calls of closeUDPHubs.
pub record State : Type 0 where
  pub session : Option ℕ
  pub ended : List ℕ
  pub watched : List ℕ
  pub agent_connected : Bool
  pub hub_closings : ℕ

abbrev pub is_in : ℕ → List ℕ → Bool
is_in x [] = false
is_in x (y ∷ ys) = y == x || is_in x ys

abbrev pub is_current : ℕ → State → Bool
is_current n s = elim (s.session) [ none ↦ false | some m ↦ m == n ]

abbrev end_session : ℕ → State → State
end_session n s = record s { ended = n ∷ s.ended }

-- setSession: the old session is closed, if it is another
unfoldable pub set_session : ℕ → State → State
set_session n s =
    let replaced = record s {
      session = some n;
      watched = n ∷ s.watched;
      agent_connected = true;
      hub_closings = s.hub_closings + 1;
    } in
    elim (s.session) [
      | none ↦ replaced
      | some old ↦ if old == n then replaced else end_session old replaced
    ]

-- the goroutine session-watch, once the session has ended
unfoldable pub watch_ends : ℕ → State → State
watch_ends n s =
    if is_in n s.watched && is_in n s.ended
    then record s {
      session = if is_current n s then none else s.session;
      agent_connected = false;
      hub_closings = s.hub_closings + 1;
    }
    else s

unfoldable pub get_session : State → Option ℕ
get_session s = elim (s.session) [ none ↦ none | some n ↦ if is_in n s.ended then none else some n ]

-- Where a session that has not ended replaces another that is watched, the watcher of the old
-- one leaves the new session in place, marks the Agent as not connected and closes the UDP hubs
-- a second time.
pub watch_ends-set_session :
    (s : State) (old new : ℕ)
    → s.session ≡ some old
    → is_in old s.watched ≡ true
    → (old == new) ≡ false
    → is_in new s.ended ≡ false
    → (get_session (watch_ends old (set_session new s)) ≡ some new)
      × ((watch_ends old (set_session new s)).agent_connected ≡ false)
      × ((watch_ends old (set_session new s)).hub_closings ≡ s.hub_closings + 2)
unfolding set_session watch_ends get_session
watch_ends-set_session s old new here w ne alive = ground (arith, here, w, ne, alive)

-- The slots that handlePublic, spliceHTTP and http1Handler share, and the gauge of sessions:
-- `opening` are the visitors that hold a slot and have no stream yet, `relaying` those that have.
pub record Slots : Type 0 where
  pub opening : ℕ
  pub relaying : ℕ
  pub gauge : ℕ

pub data Visit : Type 0 where
  arrives fails opens leaves : Visit

abbrev pub taken : Slots → ℕ
taken s = s.opening + s.relaying

-- AddSessions stops at 0; a step that no visitor can take does nothing
unfoldable pub on_visit : ℕ → Visit → Slots → Slots
on_visit capacity arrives s =
    if leb capacity (taken s) then s else record s { opening = s.opening + 1 }
on_visit capacity fails s = record s { opening = s.opening - 1 }
on_visit capacity opens s =
    if s.opening == 0
    then s
    else record { opening = s.opening - 1; relaying = s.relaying + 1; gauge = s.gauge + 1 }
on_visit capacity leaves s =
    if s.relaying == 0 then s else record s { relaying = s.relaying - 1; gauge = s.gauge - 1 }

abbrev pub on_visits : ℕ → List Visit → Slots → Slots
on_visits capacity [] s = s
on_visits capacity (v ∷ vs) s = on_visits capacity vs (on_visit capacity v s)

abbrev pub no_visitors : Slots
no_visitors = record { opening = 0; relaying = 0; gauge = 0 }

abbrev Counted : ℕ → Slots → Type 0
Counted capacity s = (taken s ≤ capacity) × (s.gauge ≡ s.relaying)

on_visit_counts :
    (capacity : ℕ) (v : Visit) (s : Slots)
    → Counted capacity s
    → Counted capacity (on_visit capacity v s)
unfolding on_visit
on_visit_counts capacity arrives s h = ground (arith, h)
on_visit_counts capacity fails s h = ground (arith, h)
on_visit_counts capacity opens s h = ground (arith, h)
on_visit_counts capacity leaves s h = ground (arith, h)

counts_on_visits :
    (capacity : ℕ) (vs : List Visit) (s : Slots)
    → Counted capacity s
    → Counted capacity (on_visits capacity vs s)
counts_on_visits capacity [] s h = h
counts_on_visits capacity (v ∷ vs) s h =
    counts_on_visits capacity vs (on_visit capacity v s) (on_visit_counts capacity v s h)

-- In every order in which visitors come, get a stream or fail, and leave, no more than the cap
-- hold a slot, and the gauge of sessions is the number that have a stream.
pub on_visits_bounded :
    (capacity : ℕ) (vs : List Visit)
    → (taken (on_visits capacity vs no_visitors) ≤ capacity)
      × ((on_visits capacity vs no_visitors).gauge ≡ (on_visits capacity vs no_visitors).relaying)
on_visits_bounded capacity vs = counts_on_visits capacity vs no_visitors (omega arith, refl)
