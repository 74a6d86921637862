-- ===== src/LocalTelemetry.antt =====
-- src/pqc_bench/api/local_telemetry.py: the synthetic inference that only loopback clients may start.
--
-- The lock, the counters and the histogram are the state. An inference begins when the lock is taken
-- and ends with what the model and the clock gave; requests may come in between. A duration is in
-- ticks of the clock, or not finite. The resident pages come from the text of /proc/self/statm, whose
-- parser is a parameter. Setting up the model and printing the metrics are not modelled.
pub mod Runs
mod Examples
use post_quantum_cryptograph.Common.{
  ℕ, suc, ◌+◌, ◌-◌, ◌*◌, Bool, true, false, not, ◌&&◌, ◌||◌, Option, none, some, List, [], ◌∷◌,
  ◌++◌, if◌then◌else◌, ◌==◌,
}
use post_quantum_cryptograph.Common.Int.{ℤ, pos, pos_part, ltb_ℤ, leb_ℤ}
use post_quantum_cryptograph.Common.Bytes.{Bytes}

pub record App : Type 0 where
  pub is_locked : Bool
  pub successes : ℕ
  pub failures : ℕ
  pub durations : List ℤ

pub data Elapsed : Type 0 where
  finite : ℤ → Elapsed
  not_finite : Elapsed

-- What the model gave: an exception, or logits with their shape's and values' tests and the
-- predictions.
pub data Logits : Type 0 where
  failed : Logits
  logits : Bool → Bool → List ℕ → Logits

pub data Reply : Type 0 where
  busy : Reply
  inference_failed : Reply
  predicted : List ℕ → ℤ → Reply

-- inference_lock.acquire(blocking=False)
abbrev pub take_lock : Bool → App → Option App
take_lock true app = none
take_lock false app = some (record app { is_locked = true })

abbrev pub begin : App → Option App
begin app = take_lock app.is_locked app

abbrev pub fail : App → Reply × App
fail app = (inference_failed, record app { is_locked = false; failures = suc app.failures })

abbrev pub succeed : List ℕ → ℤ → App → Reply × App
succeed predictions elapsed app = (
  predicted predictions elapsed,
  record app {
    is_locked = false;
    successes = suc app.successes;
    durations = app.durations ++ (elapsed ∷ []);
  },
)

-- The rest of `infer`, with its exception handler and the release of the lock.
unfoldable pub finish : Logits → Elapsed → App → Reply × App
finish failed elapsed app = fail app
finish (logits is_square is_finite predictions) not_finite app = fail app
finish (logits is_square is_finite predictions) (finite t) app =
    if not is_square || not is_finite || ltb_ℤ t (pos 0)
    then fail app
    else succeed predictions t app

-- `infer`: the reply of a request that does not get the lock.
abbrev pub reply_of : Option App → Option Reply
reply_of none = some busy
reply_of (some app) = none

pub record Request : Type 0 where
  pub client_host : Option Bytes
  pub query : Bytes
  pub chunks : List Bytes

pub data Gate : Type 0 where
  loopback_required query_refused body_refused accepted : Gate

unfoldable pub any_chunk : List Bytes → Bool
any_chunk [] = false
any_chunk ([] ∷ chunks) = any_chunk chunks
any_chunk ((c ∷ cs) ∷ chunks) = true

abbrev pub is_empty : Bytes → Bool
is_empty [] = true
is_empty (c ∷ cs) = false

abbrev pub or_false : Option Bool → Bool
or_false none = false
or_false (some b) = b

-- ipaddress.ip_address(host).is_loopback, where none is a ValueError.
abbrev pub is_local : (Bytes → Option Bool) → Option Bytes → Bool
is_local is_loopback none = false
is_local is_loopback (some host) = or_false (is_loopback host)

abbrev pub local_only : (Bytes → Option Bool) → Request → Gate
local_only is_loopback r =
    if not (is_local is_loopback r.client_host)
    then loopback_required
    else if not (is_empty r.query)
    then query_refused
    else if any_chunk r.chunks
    then body_refused
    else accepted

abbrev pub is_accepted : Gate → Bool
is_accepted accepted = true
is_accepted g = false

-- The pages and the size of a page, where they could be read.
unfoldable pub read_process_rss_bytes : Option (ℤ × ℤ) → Option ℕ
read_process_rss_bytes none = none
read_process_rss_bytes (some (pages, page_size)) =
    if ltb_ℤ pages (pos 0) || leb_ℤ page_size (pos 0)
    then none
    else some (pos_part pages * pos_part page_size)

-- The application with its requests: how many inferences run, and how many have begun.
pub record World : Type 0 where
  pub app : App
  pub running : ℕ
  pub begun : ℕ

pub data Event : Type 0 where
  arrives : Request → Event
  ends : Logits → Elapsed → Event

abbrev pub started : Option App → World → World
started none w = w
started (some app) w = record { app = app; running = suc w.running; begun = suc w.begun }

unfoldable pub step : (Bytes → Option Bool) → Event → World → World
step is_loopback (arrives r) w =
    if is_accepted (local_only is_loopback r) then started (begin w.app) w else w
step is_loopback (ends l elapsed) w =
    if w.running == 0
    then w
    else record w { app = (finish l elapsed w.app).1; running = w.running - 1 }

unfoldable pub run : (Bytes → Option Bool) → List Event → World → World
run is_loopback [] w = w
run is_loopback (e ∷ es) w = run is_loopback es (step is_loopback e w)

abbrev pub new_app : App
new_app = record { is_locked = false; successes = 0; failures = 0; durations = [] }

abbrev pub new_world : World
new_world = record { app = new_app; running = 0; begun = 0 }
