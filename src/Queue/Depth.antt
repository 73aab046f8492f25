-- ===== src/Queue/Depth.antt =====
-- QueueDepthProbe of internal/servicebusqueue/queue.go, and NewSafeDLQDepthProbe of deadletter.go.
pub mod Gauged
use password_hook_service.Prelude.{
  ℕ, ℤ, Bool, not, Option, none, some, List, [], ◌∷◌, if◌then◌else◌, is_empty, Text, codes,
  trim_space, Result, ok, err,
}
use password_hook_service.Prelude.Effects.{Exec, call, pure, tell, ◌>>=◌, ◌>>◌}
use password_hook_service.Monitor.{Labels}

pub record QueueDepthProbe : Type 0 where
  pub has_reader : Bool
  pub queue : Text
  pub kind : Text

unfoldable pub new_queue_depth_probe :
    (has_reader : Bool) (queue_name kind : Text) → QueueDepthProbe
new_queue_depth_probe has_reader queue_name kind = record {
  has_reader = has_reader;
  queue = trim_space queue_name;
  kind = trim_space kind;
}

unfoldable pub new_safe_dlq_depth_probe : (has_reader : Bool) (queue_name : Text) → QueueDepthProbe
unfolding new_queue_depth_probe
new_safe_dlq_depth_probe has_reader queue_name =
    new_queue_depth_probe has_reader queue_name (codes "safe_dlq")

pub data DepthError : Type 0 where
  reader_required queue_name_required : DepthError
  read_failed : Text → DepthError

pub data DepthCall : Type 0 where
  active_message_count : (queue : Text) → DepthCall
  set_gauge : (depth : ℤ) → Labels → DepthCall

unfoldable pub depth_labels : QueueDepthProbe → Labels
depth_labels p =
    (codes "queue", p.queue)
    ∷ (codes "kind", if is_empty p.kind then codes "active" else p.kind)
    ∷ []

read_depth : QueueDepthProbe → Result Text ℤ → Exec DepthCall (Result DepthError ℤ)
unfolding depth_labels
read_depth p (err e) = pure (err (read_failed e))
read_depth p (ok depth) = do _ ← tell (set_gauge depth (depth_labels p)); pure (ok depth)

-- Probe; `reader` is what ActiveMessageCount returns after a history.
unfoldable pub probe :
    (reader : List DepthCall → Result Text ℤ)
    → Option QueueDepthProbe
    → Exec DepthCall (Result DepthError ℤ)
unfolding read_depth
probe reader none = pure (err reader_required)
probe reader (some p) =
    if not p.has_reader
    then pure (err reader_required)
    else if is_empty p.queue
    then pure (err queue_name_required)
    else (do count ← call (active_message_count p.queue) reader; read_depth p count)
