-- ===== src/Transport/Connection.antt =====
-- engine/transport/connection_state.h and connection_state.cpp: the life of a peer connection.
use veritas_sync_next.Prelude.{
  ◌≡◌, refl, Bool, true, false, Result, ok, err, logic_error, List, [], ◌∷◌, arith, if◌then◌else◌,
  ◌⊎◌, inl, inr, Bool-cases, ◌∙◌, ap, sym,
}

pub data ConnectionState : Type 0 where
  new signaling connecting connected reconnecting failed closed : ConnectionState

unfoldable pub is_valid_transition : ConnectionState → ConnectionState → Bool
is_valid_transition new signaling = true
is_valid_transition new closed = true
is_valid_transition new _ = false
is_valid_transition signaling connecting = true
is_valid_transition signaling failed = true
is_valid_transition signaling closed = true
is_valid_transition signaling _ = false
is_valid_transition connecting connected = true
is_valid_transition connecting reconnecting = true
is_valid_transition connecting failed = true
is_valid_transition connecting closed = true
is_valid_transition connecting _ = false
is_valid_transition connected reconnecting = true
is_valid_transition connected failed = true
is_valid_transition connected closed = true
is_valid_transition connected _ = false
is_valid_transition reconnecting connecting = true
is_valid_transition reconnecting failed = true
is_valid_transition reconnecting closed = true
is_valid_transition reconnecting _ = false
is_valid_transition failed closed = true
is_valid_transition failed _ = false
is_valid_transition closed _ = false

-- ConnectionStateMachine, with the calls that its observer has had, the newest first.
pub record Machine : Type 0 where
  pub state : ConnectionState
  pub observed : List (ConnectionState × ConnectionState)

abbrev pub start : Machine
start = record { state = new; observed = [] }

unfoldable pub transition_to : Machine → ConnectionState → Result Machine
transition_to m to =
    if is_valid_transition m.state to
    then ok (record { state = to; observed = (m.state, to) ∷ m.observed })
    else err (logic_error "invalid peer connection state transition")

-- A caller that catches the exception keeps the machine as it was.
abbrev pub attempt : Machine → Result Machine → Machine
attempt m (ok n) = n
attempt m (err e) = m

unfoldable pub drive : Machine → List ConnectionState → Machine
drive m [] = m
drive m (to ∷ rest) = drive (attempt m (transition_to m to)) rest

-- The calls link up from `new` to the state, each by a step that the protocol allows.
abbrev pub Links : ConnectionState → List (ConnectionState × ConnectionState) → Type 0
Links s [] = s ≡ new
Links s ((from, to) ∷ rest) = (to ≡ s) × (is_valid_transition from to ≡ true) × Links from rest

transition_to-Links :
    (m : Machine) (to : ConnectionState)
    → Links m.state m.observed
    → Links (attempt m (transition_to m to)).state (attempt m (transition_to m to)).observed
unfolding transition_to
transition_to-Links m to h = elim (Bool-cases (is_valid_transition m.state to)) [
  | inl valid ↦ rw valid (refl, valid, h)
  | inr refused ↦ rw refused h
]

drive-Links :
    (m : Machine) (tos : List ConnectionState)
    → Links m.state m.observed
    → Links (drive m tos).state (drive m tos).observed
unfolding drive
drive-Links m [] h = h
drive-Links m (to ∷ rest) h =
    drive-Links (attempt m (transition_to m to)) rest (transition_to-Links m to h)

-- Whatever transitions a caller asks for, the observer is told a chain of allowed transitions that
-- begins in `new` and ends in the state of the machine: none is skipped and none is made up.
pub drive-start-Links :
    (tos : List ConnectionState) → Links (drive start tos).state (drive start tos).observed
drive-start-Links tos = drive-Links start tos refl

closed_refuses : (to : ConnectionState) → is_valid_transition closed to ≡ false
unfolding is_valid_transition
closed_refuses new = refl
closed_refuses _ = refl

-- Nothing leads out of `closed`.
pub drive_closed : (m : Machine) (tos : List ConnectionState) → m.state ≡ closed → drive m tos ≡ m
unfolding drive
drive_closed m [] h = refl
drive_closed m (to ∷ rest) h = rw (refused to) (drive_closed m rest h)
  where
    refused : (to : ConnectionState) → attempt m (transition_to m to) ≡ m
    refused to = unfold transition_to in rw (h, closed_refuses to)

-- The signaling handshake stands in the observed calls.
abbrev pub Signaled : List (ConnectionState × ConnectionState) → Type 0
Signaled [] = ⊥
Signaled ((from, to) ∷ rest) = ((from ≡ signaling) × (to ≡ connecting)) ⊎ Signaled rest

-- The states of a peer that has begun to connect and has not given up.
unfoldable pub is_live : ConnectionState → Bool
is_live connecting = true
is_live connected = true
is_live reconnecting = true
is_live _ = false

not_live_new : (s : ConnectionState) → s ≡ new → is_live s ≡ true → false ≡ true
unfolding is_live
not_live_new s h live = ap is_live (sym h) ∙ live

-- The last call led into a live state: from a live state, or out of signaling.
live_from :
    (from to : ConnectionState)
    → is_valid_transition from to ≡ true
    → is_live to ≡ true
    → ((from ≡ signaling) × (to ≡ connecting)) ⊎ (is_live from ≡ true)
unfolding is_live is_valid_transition
live_from from to valid live = ground arith

Links-Signaled :
    (s : ConnectionState) (obs : List (ConnectionState × ConnectionState))
    → Links s obs
    → is_live s ≡ true
    → Signaled obs
Links-Signaled s [] h live = cc (not_live_new s h live)
Links-Signaled s ((from, to) ∷ rest) h live = elim (live_from from to h.1 (ap is_live h.0 ∙ live)) [
  | inl shaken ↦ inl shaken
  | inr earlier ↦ inr (Links-Signaled from rest h.2 earlier)
]

-- A peer that is connecting, connected or reconnecting has been through signaling.
pub drive-Signaled :
    (tos : List ConnectionState)
    → is_live (drive start tos).state ≡ true
    → Signaled (drive start tos).observed
drive-Signaled tos live = Links-Signaled _ _ (drive-start-Links tos) live
