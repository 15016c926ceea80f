-- ===== src/Edge/Evictions.antt =====
-- internal/edge/server.go and internal/edge/http.go: the connections that are tracked for their
-- eviction, trackTCP, evictTCPConns and closeTCPConns there, and trackConn, evictDisallowed and
-- closeAll of an HTTP listener. What isAllowed says at present is a function of the address.
use faketunnel.Base.{
  ℕ, ◌≡◌, refl, sym, ◌⊎◌, inl, inr, Bool, true, false, not, ◌&&◌, ◌||◌, List, [], ◌∷◌, ◌++◌, map,
  all, arith, ◌==◌, if◌then◌else◌, Bool-cases,
}
use mathlib.Core.Path.{subst}
use faketunnel.Net.{Ip}

-- `passed` is whether publicAllowed has let the visitor in; a connection is a number.
pub record Conn : Type 0 where
  pub id : ℕ
  pub ip : Ip
  pub passed : Bool
  pub is_open : Bool

-- `closing` are those that an eviction has collected and not closed yet; `stale` is whether the
-- lists have changed since the last eviction began.
pub record State : Type 0 where
  pub allows : Ip → Bool
  pub conns : List Conn
  pub closing : List ℕ
  pub stale : Bool

abbrev pub is_one_of : ℕ → List ℕ → Bool
is_one_of id [] = false
is_one_of id (i ∷ is) = i == id || is_one_of id is

unfoldable pub untracked : ℕ → List Conn → List Conn
untracked id [] = []
untracked id (c ∷ cs) = let rest = untracked id cs in if c.id == id then rest else c ∷ rest

-- the accept loop tracks a connection before its handler runs
unfoldable pub track_conn : ℕ → Ip → State → State
track_conn id ip s = record s {
  conns = record { id = id; ip = ip; passed = false; is_open = true } ∷ untracked id s.conns;
}

-- and takes it out when the handler, which closes it, is through
unfoldable pub untrack_conn : ℕ → State → State
untrack_conn id s = record s { conns = untracked id s.conns }

-- the first test of the handler
abbrev judge : ℕ → (Ip → Bool) → Conn → Conn
judge id allows c =
    if c.id == id
    then (if allows c.ip then record c { passed = true } else record c { is_open = false })
    else c

unfoldable pub check_conn : ℕ → State → State
check_conn id s = record s { conns = map (judge id s.allows) s.conns }

-- an eviction collects under the lock
unfoldable pub disallowed : (Ip → Bool) → List Conn → List ℕ
disallowed allows [] = []
disallowed allows (c ∷ cs) =
    let rest = disallowed allows cs in if allows c.ip then rest else c.id ∷ rest

unfoldable pub collect : State → State
collect s = record s { closing = disallowed s.allows s.conns ++ s.closing; stale = false }

abbrev closed_if : ℕ → Conn → Conn
closed_if id c = if c.id == id then record c { is_open = false } else c

-- and closes what it has collected behind it, one after the other
unfoldable pub close_next : State → State
close_next s = elim (s.closing) [
  | [] ↦ s
  | id ∷ rest ↦ record s { conns = map (closed_if id) s.conns; closing = rest }
]

-- the shutdown
unfoldable pub close_conns : State → State
close_conns s = record s { conns = [] }

pub data Event : Type 0 where
  tracks : ℕ → Ip → Event
  checks untracks : ℕ → Event
  changes : (Ip → Bool) → Event
  collects closes shuts : Event

unfoldable pub on_event : Event → State → State
on_event (tracks id ip) s = track_conn id ip s
on_event (checks id) s = check_conn id s
on_event (untracks id) s = untrack_conn id s
on_event (changes allows) s = record s { allows = allows; stale = true }
on_event collects s = collect s
on_event closes s = close_next s
on_event shuts s = close_conns s

abbrev pub on_events : List Event → State → State
on_events [] s = s
on_events (e ∷ es) s = on_events es (on_event e s)

abbrev pub no_conns : (Ip → Bool) → State
no_conns allows = record { allows = allows; conns = []; closing = []; stale = false }

-- a connection that is served is allowed
abbrev pub is_rightful : (Ip → Bool) → Conn → Bool
is_rightful allows c = not (c.passed && c.is_open) || allows c.ip

-- or about to be closed
abbrev is_settled : (Ip → Bool) → List ℕ → Conn → Bool
is_settled allows closing c = is_rightful allows c || is_one_of c.id closing

module _ (allows : Ip → Bool) where
  settled_untracked :
      (closing : List ℕ) (id : ℕ) (cs : List Conn)
      → all (is_settled allows closing) cs ≡ true
      → all (is_settled allows closing) (untracked id cs) ≡ true
  unfolding untracked
  settled_untracked closing id [] h = refl
  settled_untracked closing id (c ∷ cs) h =
      ground (arith, h, settled_untracked closing id cs (ground (arith, h)))

  settled_judged :
      (closing : List ℕ) (id : ℕ) (cs : List Conn)
      → all (is_settled allows closing) cs ≡ true
      → all (is_settled allows closing) (map (judge id allows) cs) ≡ true
  settled_judged closing id [] h = refl
  settled_judged closing id (c ∷ cs) h =
      ground (arith, h, settled_judged closing id cs (ground (arith, h)))

  settled_closed :
      (id : ℕ) (rest : List ℕ) (cs : List Conn)
      → all (is_settled allows (id ∷ rest)) cs ≡ true
      → all (is_settled allows rest) (map (closed_if id) cs) ≡ true
  settled_closed id rest [] h = refl
  settled_closed id rest (c ∷ cs) h =
      ground (arith, h, settled_closed id rest cs (ground (arith, h)))

  is_one_of-append :
      (id : ℕ) (is js : List ℕ) → is_one_of id (is ++ js) ≡ (is_one_of id is || is_one_of id js)
  is_one_of-append id [] js = refl
  is_one_of-append id (i ∷ is) js = ground (arith, is_one_of-append id is js)

  settled_more :
      (i : ℕ) (closing : List ℕ) (cs : List Conn)
      → all (is_settled allows closing) cs ≡ true
      → all (is_settled allows (i ∷ closing)) cs ≡ true
  settled_more i closing [] h = refl
  settled_more i closing (c ∷ cs) h =
      ground (arith, h, settled_more i closing cs (ground (arith, h)))

  settled_collected :
      (closing : List ℕ) (cs : List Conn)
      → all (is_settled allows (disallowed allows cs ++ closing)) cs ≡ true
  unfolding disallowed
  settled_collected closing [] = refl
  settled_collected closing (c ∷ cs) =
      let rest = settled_collected closing cs in
      elim (Bool-cases (allows c.ip)) [
        | inl e ↦ ground (arith, rest, e)
        | inr e ↦
            let more = settled_more c.id (disallowed allows cs ++ closing) cs rest in
            ground (arith, e, more)
      ]

abbrev Settled : State → Type 0
Settled s = (s.stale ≡ true) ⊎ (all (is_settled s.allows s.closing) s.conns ≡ true)

closing_settles : (s : State) (ids : List ℕ) → s.closing ≡ ids → Settled s → Settled (close_next s)
unfolding close_next
closing_settles s [] e h =
    let same : close_next s ≡ s = ground (arith, e) in subst Settled (sym same) h
closing_settles s (id ∷ rest) e h =
    let after = record s { conns = map (closed_if id) s.conns; closing = rest } in
    let same : close_next s ≡ after = ground (arith, e) in
    subst Settled (sym same) (elim h [
      | inl f ↦ inl f
      | inr ok ↦ inr (
          settled_closed s.allows id rest s.conns
            (subst (λ ids. all (is_settled s.allows ids) s.conns ≡ true) e ok))
    ])

settled_rightful :
    (allows : Ip → Bool) (cs : List Conn)
    → all (is_settled allows []) cs ≡ true
    → all (is_rightful allows) cs ≡ true
settled_rightful allows [] h = refl
settled_rightful allows (c ∷ cs) h =
    ground (arith, h, settled_rightful allows cs (ground (arith, h)))

on_event_settles : (e : Event) (s : State) → Settled s → Settled (on_event e s)
unfolding on_event track_conn untrack_conn check_conn collect close_next close_conns
on_event_settles (tracks id ip) s (inl f) = inl f
on_event_settles (tracks id ip) s (inr h) =
    inr (ground (arith, settled_untracked s.allows s.closing id s.conns h))
on_event_settles (checks id) s (inl f) = inl f
on_event_settles (checks id) s (inr h) = inr (settled_judged s.allows s.closing id s.conns h)
on_event_settles (untracks id) s (inl f) = inl f
on_event_settles (untracks id) s (inr h) = inr (settled_untracked s.allows s.closing id s.conns h)
on_event_settles (changes allows) s h = inl refl
on_event_settles collects s h = inr (settled_collected s.allows s.closing s.conns)
on_event_settles closes s h = closing_settles s s.closing refl h
on_event_settles shuts s h = inr refl

on_events_settle : (es : List Event) (s : State) → Settled s → Settled (on_events es s)
on_events_settle [] s h = h
on_events_settle (e ∷ es) s h = on_events_settle es (on_event e s) (on_event_settles e s h)

-- In every order in which visitors are accepted, tested and done with, the lists change,
-- evictions collect and close connections and the server shuts down, once an eviction has begun
-- since the last change and all that it collected is closed, every connection that is tracked,
-- has passed its test and is open comes from an address that is allowed at present.
pub evictions_keep_rightful :
    (allows : Ip → Bool) (es : List Event)
    → (on_events es (no_conns allows)).stale ≡ false
    → (on_events es (no_conns allows)).closing ≡ []
    → all
        (is_rightful (on_events es (no_conns allows)).allows)
        (on_events es (no_conns allows)).conns
      ≡ true
evictions_keep_rightful allows es fresh done =
    let s = on_events es (no_conns allows) in
    elim (on_events_settle es (no_conns allows) (inr refl)) [
      | inl late ↦ absurd (ground (arith, fresh, late))
      | inr h ↦
          settled_rightful s.allows s.conns
            (subst (λ ids. all (is_settled s.allows ids) s.conns ≡ true) done h)
    ]
