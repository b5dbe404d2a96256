-- ===== src/Nacos/Watcher/Laws.antt =====
-- What Next returns after changes, refusals and a stop.
use kratos_micro_layout.Prelude.{
  ◌≡◌, ◌≢◌, refl, arith, Bool, true, false, none, some, List, [], ◌∷◌, Text,
}
use kratos_micro_layout.Prelude.Result.{ok}
use kratos_micro_layout.Nacos.{document}
use kratos_micro_layout.Nacos.Watcher.{
  Watcher, on_change, listen, receive, next, stop_watcher, Meanwhile, idle, changed, stopped,
}

-- The changes of a list, in order, while no Next runs.
abbrev pub changes : List Text → Watcher → Watcher
changes [] w = w
changes (c ∷ cs) w = changes cs (on_change true c w)

on_change-full : (w : Watcher) (c c' : Text) → w.notify ≡ some c → on_change true c' w ≡ w
unfolding on_change
on_change-full w c c' full = ground arith

changes-full : (cs : List Text) (w : Watcher) (c : Text) → w.notify ≡ some c → changes cs w ≡ w
changes-full [] w c full = refl
changes-full (c' ∷ cs) w c full = rw (on_change-full w c c' full) (changes-full cs w c full)

-- Of several changes before a call of Next, Next returns the first, and the later ones are
-- lost: the next call blocks.
pub next-changes :
    (w : Watcher) (first : Text) (later : List Text) (accepted pick : Bool)
    → w.listening ≡ true
    → w.stop ≡ false
    → w.notify ≡ none
    → (w' : Watcher) × (next accepted pick (changes (first ∷ later) w)
        ≡ some (w', ok (document w.data_id w.format first)))
      × (w' ≡ w)
      × (next accepted pick w' ≡ none)
unfolding next receive listen on_change
next-changes w first later accepted pick on running empty =
    let queued : on_change true first w ≡ record w { notify = some first } =
      rw (empty, running, on_change) refl in
    let same : changes later (on_change true first w) ≡ record w { notify = some first } =
      rw queued (changes-full later (record w { notify = some first }) first refl) in
    let restored : record w { notify = none } ≡ w = rw⁻¹ empty refl in
    (record w { notify = none }, rw same (ground arith), restored, ground arith)

-- After Stop, no call of Next blocks.
pub next-stop_watcher :
    (w : Watcher) (cancelled accepted pick : Bool)
    → next accepted pick (stop_watcher cancelled w) ≢ none
unfolding next receive listen stop_watcher
next-stop_watcher w cancelled accepted pick = ground arith

-- The watcher takes the listener for registered, but no change can reach it.
record IsDeaf (w : Watcher) : Type 0 where
  on : w.listening ≡ true
  off : w.subscribed ≡ false
  empty : w.notify ≡ none

Meanwhile-IsDeaf : {w v : Watcher} → Meanwhile w v → IsDeaf w → IsDeaf v
unfolding stop_watcher
Meanwhile-IsDeaf idle h = h
Meanwhile-IsDeaf (changed pick content told rest) h = absurd (cc (h.off, told))
Meanwhile-IsDeaf {w} (stopped cancelled rest) h =
    Meanwhile-IsDeaf rest (record { on = h.on; off = ground (arith, h.off); empty = h.empty })

listen-IsDeaf : (w : Watcher) → w.listening ≡ false → w.notify ≡ none → IsDeaf (listen false w).0
unfolding listen
listen-IsDeaf w off empty = record { on = ground arith; off = ground arith; empty = ground arith }

-- Once Nacos has refused the listener, no later call of Next asks again: whatever happens
-- meanwhile, a call blocks until the watcher is stopped.
pub next-refused :
    (w v : Watcher) (accepted pick : Bool)
    → w.listening ≡ false
    → w.notify ≡ none
    → Meanwhile (listen false w).0 v
    → v.stop ≡ false
    → next accepted pick v ≡ none
unfolding next receive listen
next-refused w v accepted pick off empty happened running =
    let deaf = Meanwhile-IsDeaf happened (listen-IsDeaf w off empty) in
    ground (arith, deaf.on, deaf.empty)
