-- ===== src/TorClient/Lifecycle.antt =====
-- The life of a connection, as the order of its states.
use flashflow_research.Prelude.{
  suc, ◌≡◌, ◌≢◌, ◌⊎◌, ◌<◌, refl, sym, true, List, [], ◌∷◌, ◌++◌, arith, Result, ok, err, assertion,
  inl, inr, Bool-cases, Ensures, ◌>>=◌, >>=-eq-ok,
}
use mathlib.Core.List.{append_assoc, append-nil}
use flashflow_research.Meta.{
  CsmState, invalid, connected, authing, authed, told_connect_target, connected_target, setting_bw,
  bw_set, measuring, done, failed, Meta, state_number,
}
use flashflow_research.TorClient.State.{good_change, tc_change_state}

-- The edges: the next state of the handshake, failure of whatever is in use, and release at the end.
pub data Step (s t : CsmState) : Type 0 where
  advance : state_number s < 9 → state_number t ≡ suc (state_number s) → Step s t
  give_up : s ≢ invalid → s ≢ failed → t ≡ failed → Step s t
  release : (s ≡ done) ⊎ (s ≡ failed) → t ≡ invalid → Step s t

good-Step : (s t : CsmState) → good_change s t ≡ true → Step s t
unfolding good_change
good-Step s t h = grind (arith, advance, give_up, release)

Step-good : {s t : CsmState} → Step s t → good_change s t ≡ true
unfolding good_change
Step-good (advance h e) = ground arith
Step-good (give_up h k e) = ground arith
Step-good (release h e) = ground arith

-- The changes of state that the code makes, one after the other.
unfoldable pub change_all : Meta → List CsmState → Result Meta
change_all m [] = ok m
change_all m (s ∷ ss) = tc_change_state m s >>= λ m'. change_all m' ss

-- What must have come before a state, with the state itself: the handshake up to it.
unfoldable pub handshake : CsmState → List CsmState
handshake invalid = []
handshake failed = []
handshake connected = connected ∷ []
handshake authing = connected ∷ authing ∷ []
handshake authed = connected ∷ authing ∷ authed ∷ []
handshake told_connect_target = connected ∷ authing ∷ authed ∷ told_connect_target ∷ []
handshake connected_target =
    connected ∷ authing ∷ authed ∷ told_connect_target ∷ connected_target ∷ []
handshake setting_bw =
    connected ∷ authing ∷ authed ∷ told_connect_target ∷ connected_target ∷ setting_bw ∷ []
handshake bw_set =
    connected ∷ authing ∷ authed ∷ told_connect_target ∷ connected_target ∷ setting_bw ∷ bw_set ∷ []
handshake measuring =
    connected ∷ authing ∷ authed ∷ told_connect_target ∷ connected_target ∷ setting_bw ∷ bw_set
    ∷ measuring ∷ []
handshake done =
    connected ∷ authing ∷ authed ∷ told_connect_target ∷ connected_target ∷ setting_bw ∷ bw_set
    ∷ measuring ∷ done ∷ []

-- A legal change extends the handshake by the new state, or ends it.
handshake_step :
    (s t : CsmState)
    → good_change s t ≡ true
    → (handshake t ≡ handshake s ++ t ∷ []) ⊎ (handshake t ≡ [])
unfolding good_change handshake
handshake_step s t h = ground arith

abbrev pub EndsWith : List CsmState → List CsmState → Type 0
EndsWith all last = (before : List CsmState) × (all ≡ before ++ last)

history_step :
    (s t : CsmState) (all : List CsmState)
    → good_change s t ≡ true
    → EndsWith all (handshake s)
    → EndsWith (all ++ t ∷ []) (handshake t)
history_step s t all h (before, e) = elim (handshake_step s t h) [
  | inl more ↦ (before, rw (more, e) (append_assoc before _ _))
  | inr ended ↦ (all ++ t ∷ [], rw ended (sym (append-nil _)))
]

change_state-eq-ok :
    (m : Meta) (t : CsmState) {m' : Meta}
    → tc_change_state m t ≡ ok m'
    → (good_change m.state t ≡ true) × (m'.state ≡ t)
unfolding tc_change_state
change_state-eq-ok m t h = ground arith

-- If the change goes through, it sets the state.
pub change_state_then :
    (m : Meta) (t : CsmState) (Q : Meta → Type 0)
    → (good_change m.state t ≡ true → Q (record m { state = t }))
    → Ensures (tc_change_state m t) Q
unfolding tc_change_state
change_state_then m t Q h = elim (Bool-cases (good_change m.state t)) [
  | inl good ↦ rw good (h good)
  | inr bad ↦ rw bad tt
]

history :
    (m : Meta) (past next : List CsmState) {m' : Meta}
    → EndsWith past (handshake m.state)
    → change_all m next ≡ ok m'
    → EndsWith (past ++ next) (handshake m'.state)
unfolding change_all
history m past [] h e = (h.0, ground (arith, append-nil past, h.1))
history m past (t ∷ ts) h e =
    let (m1, first, rest) = >>=-eq-ok (tc_change_state m t) _ e in
    let (good, now) = change_state-eq-ok m t first in
    let longer : EndsWith (past ++ t ∷ []) (handshake m1.state) =
      rw now (history_step m.state t past good h) in
    rw append_assoc at (history m1 (past ++ t ∷ []) ts longer rest)

-- tc_change_state lets a change through exactly when it is an edge of the life cycle, and then the
-- state is all that changes; any other change is a failed assertion.
pub tc_change_state_lem :
    (m : Meta) (t : CsmState)
    → (Step m.state t × (tc_change_state m t ≡ ok (record m { state = t })))
      ⊎ ((¬ Step m.state t) × (tc_change_state m t ≡ err assertion))
unfolding tc_change_state
tc_change_state_lem m t = elim (Bool-cases (good_change m.state t)) [
  | inl good ↦ rw good (inl (good-Step m.state t good, refl))
  | inr bad ↦ rw bad (inr (λ st. cc (Step-good st), refl))
]

-- Whatever changes of state the code makes on an unused connection, when none fails an assertion the
-- changes end with the whole handshake up to the present state, in order.
pub change_all-handshake :
    (m : Meta) (changes : List CsmState) {m' : Meta}
    → m.state ≡ invalid
    → change_all m changes ≡ ok m'
    → EndsWith changes (handshake m'.state)
unfolding handshake
change_all-handshake m changes h e = history m [] changes ([], rw h) e
