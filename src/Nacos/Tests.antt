-- ===== src/Nacos/Tests.antt =====
-- The theorems on the watcher at concrete notifications.
use kratos_micro_layout.Prelude.{◌≡◌, refl, true, false, none, some, [], ◌∷◌, codes}
use kratos_micro_layout.Prelude.Result.{ok}
use kratos_micro_layout.Nacos.{document}
use kratos_micro_layout.Nacos.Watcher.{Watcher, next, listen, idle}
use kratos_micro_layout.Nacos.Watcher.Laws.{changes, next-changes, next-refused}

abbrev listening : Watcher
listening = record {
  data_id = codes "user.yaml";
  format = codes "yaml";
  notify = none;
  stop = false;
  listening = true;
  subscribed = true;
}

next-changes_example :
    (w : Watcher) × (next true true (changes (codes "a: 1" ∷ codes "a: 2" ∷ []) listening)
      ≡ some (w, ok (document (codes "user.yaml") (codes "yaml") (codes "a: 1"))))
    × (w ≡ listening)
    × (next true true w ≡ none)
next-changes_example =
    next-changes listening (codes "a: 1") (codes "a: 2" ∷ []) true true refl refl refl

abbrev quiet : Watcher
quiet = record listening { listening = false; subscribed = false }

abbrev deaf : Watcher
deaf = record listening { subscribed = false }

refused_once : (listen false quiet).0 ≡ deaf
unfolding listen
refused_once = refl

next-refused_example : next true true deaf ≡ none
next-refused_example = next-refused quiet deaf true true refl refl (rw refused_once idle) refl
