-- ===== src/Nacos/Watcher.antt =====
-- The watcher of pkg/nacos/source.go: a channel for one notification between the listener of Nacos
-- and Next. Where a `select` has two ready cases, a Boolean is its choice.
pub mod Laws
use kratos_micro_layout.Prelude.{
  ◌≡◌, Bool, true, false, Option, none, some, List, [], ◌∷◌, Text, if◌then◌else◌,
}
use kratos_micro_layout.Prelude.Result.{Result, ok, err}
use kratos_micro_layout.Nacos.{KeyValue, ConfigSource, document}

-- `subscribed` is the client's: the listener is registered at it.
pub record Watcher : Type 0 where
  pub data_id : Text
  pub format : Text
  pub notify : Option Text
  pub stop : Bool
  pub listening : Bool
  pub subscribed : Bool

pub data NextError : Type 0 where
  refused canceled : NextError

-- Watch
unfoldable pub watch : ConfigSource → Watcher
watch s = record {
  data_id = s.data_id;
  format = s.format;
  notify = none;
  stop = false;
  listening = false;
  subscribed = false;
}

-- The callback OnChange: it sends, or drops the content if one is queued; once stopped it may do
-- either with an empty channel.
unfoldable pub on_change : Bool → Text → Watcher → Watcher
on_change pick content w = elim w.notify [
  | some queued ↦ w
  | none ↦
      if w.stop
      then if pick then record w { notify = some content } else w
      else record w { notify = some content }
]

-- The first half of Next, for the answer of ListenConfig: its error.
unfoldable pub listen : Bool → Watcher → Watcher × Option NextError
listen accepted w = if w.listening then (w, none) else (
  record w { listening = true; subscribed = accepted },
  if accepted then none else some refused,
)

-- The second half of Next: none while it blocks.
unfoldable pub receive : Bool → Watcher → Option (Watcher × Result NextError (List KeyValue))
receive pick w = elim w.notify [
  | none ↦ if w.stop then some (w, err canceled) else none
  | some content ↦
      let taken : Watcher × Result NextError (List KeyValue) =
        (record w { notify = none }, ok (document w.data_id w.format content)) in
      if w.stop then if pick then some taken else some (w, err canceled) else some taken
]

-- Next
unfoldable pub next : Bool → Bool → Watcher → Option (Watcher × Result NextError (List KeyValue))
unfolding listen receive
next accepted pick w =
    let (w', failure) = listen accepted w in
    elim failure [ some e ↦ some (w', err e) | none ↦ receive pick w' ]

-- Stop, for the answer of CancelListenConfig
unfoldable pub stop_watcher : Bool → Watcher → Watcher
stop_watcher cancelled w = record w {
  stop = true;
  subscribed = if cancelled then false else w.subscribed;
}

-- What can happen between two calls of Next: the client tells a registered listener of a change, or
-- the watcher is stopped.
pub data Meanwhile : Watcher → Watcher → Type 0 where
  idle : {w : Watcher} → Meanwhile w w
  changed :
      {w w' : Watcher} (pick : Bool) (content : Text)
      → w.subscribed ≡ true
      → Meanwhile (on_change pick content w) w'
      → Meanwhile w w'
  stopped :
      {w w' : Watcher} (cancelled : Bool) → Meanwhile (stop_watcher cancelled w) w' → Meanwhile w w'
