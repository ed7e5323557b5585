-- ===== src/Supervisor/Logs.antt =====
-- process_manager.py: the output of a managed process as log records (`_stream_logs`), and stopping
-- every managed endpoint at the end (`cleanup`).

use mcp_mux_2_0_dev.Base.{ℕ, String, List, [], ◌∷◌, if◌then◌else◌, All}
use mcp_mux_2_0_dev.Base.Text.{rstrip}
use mcp_mux_2_0_dev.Config.{is_managed}
use mcp_mux_2_0_dev.Runtime.{EndpointRuntime, stopped}
use mcp_mux_2_0_dev.Server.Registry.{drain_and_stop}

-- how the reading ends, if no empty line ends it before
pub data ReadEnd : Type 0 where
  task_cancelled : ReadEnd
  read_error : String → ReadEnd

pub data LogRecord : Type 0 where
  info : String → String → LogRecord
  error : String → String → LogRecord

abbrev pub at_end : (String → String) → String → ReadEnd → List LogRecord
at_end redact prefix task_cancelled = []
at_end redact prefix (read_error message) = error prefix (redact message) ∷ []

-- `_stream_logs`, the records written: the lines come undecoded, and `decode` replaces what is not
-- UTF-8
unfoldable pub stream_logs :
    (String → String) → (List ℕ → String) → String → ReadEnd → List (List ℕ) → List LogRecord
unfolding rstrip
stream_logs redact decode prefix ending [] = at_end redact prefix ending
stream_logs redact decode prefix ending ([] ∷ lines) = []
stream_logs redact decode prefix ending ((byte ∷ line) ∷ lines) =
    info prefix (redact (rstrip (decode (byte ∷ line))))
    ∷ stream_logs redact decode prefix ending lines

-- `cleanup`
unfoldable pub cleanup : List EndpointRuntime → List EndpointRuntime
unfolding drain_and_stop
cleanup [] = []
cleanup (runtime ∷ runtimes) =
    (if is_managed runtime.config then drain_and_stop stopped runtime else runtime)
    ∷ cleanup runtimes

-- a record whose text is a redacted one
pub data IsRedacted (redact : String → String) (prefix : String) : LogRecord → Type 0 where
  redacted_info : (text : String) → IsRedacted redact prefix (info prefix (redact text))
  redacted_error : (text : String) → IsRedacted redact prefix (error prefix (redact text))

-- Every text that is logged of a process's output, and of an error in reading it, is one that the
-- redactor returned.
pub stream_logs-IsRedacted :
    (redact : String → String) (decode : List ℕ → String) (prefix : String) (ending : ReadEnd)
    (lines : List (List ℕ))
    → All (IsRedacted redact prefix) (stream_logs redact decode prefix ending lines)
unfolding stream_logs
stream_logs-IsRedacted redact decode prefix task_cancelled [] = tt
stream_logs-IsRedacted redact decode prefix (read_error message) [] = (redacted_error message, tt)
stream_logs-IsRedacted redact decode prefix ending ([] ∷ lines) = tt
stream_logs-IsRedacted redact decode prefix ending ((byte ∷ line) ∷ lines) = (
  redacted_info (rstrip (decode (byte ∷ line))),
  stream_logs-IsRedacted redact decode prefix ending lines,
)
