-- ===== src/Network/Logger.antt =====
-- src/network/PayloadLogger.h and PayloadLogger.cpp. `_epochNow` reads the system clock: the reading
-- is the argument `now`. The `int` that numbers the payloads is unbounded here.
pub mod Traces
use understory.Base.{ℕ, ◌+◌}
use understory.Network.Payloads.{PayloadType, unknown}
use understory.Network.Queue.{AtomicQueue, new_queue, push}

pub record PayloadTrace : Type 0 where
  pub payload_id : ℕ
  pub started_at : ℕ
  pub ended_at : ℕ
  pub payload_type : PayloadType
  pub expected_size : ℕ

pub record NetworkLoadSpeedTrace : Type 0 where
  pub payload_id : ℕ
  pub done_at : ℕ
  pub bytes_exchanged : ℕ

pub record PayloadLogger : Type 0 where
  pub traces_queue : AtomicQueue PayloadTrace
  pub speed_queue : AtomicQueue NetworkLoadSpeedTrace
  pub trace_buf : PayloadTrace

unfoldable pub new_logger : PayloadLogger
new_logger = record {
  traces_queue = new_queue;
  speed_queue = new_queue;
  trace_buf = record {
    payload_id = 0;
    started_at = 0;
    ended_at = 0;
    payload_type = unknown;
    expected_size = 0;
  };
}

unfoldable pub log_new_payload : ℕ → PayloadLogger → PayloadLogger
log_new_payload now l = record l {
  trace_buf = record l.trace_buf { payload_id = l.trace_buf.payload_id + 1; started_at = now };
}

unfoldable pub log_payload_type : PayloadType → PayloadLogger → PayloadLogger
log_payload_type t l = record l { trace_buf = record l.trace_buf { payload_type = t } }

unfoldable pub log_payload_size : ℕ → PayloadLogger → PayloadLogger
log_payload_size expected l = record l {
  trace_buf = record l.trace_buf { expected_size = expected };
}

unfoldable pub commit_payload_speed : ℕ → ℕ → PayloadLogger → PayloadLogger
commit_payload_speed now loaded l = record l {
  speed_queue =
      push l.speed_queue
        (record { payload_id = l.trace_buf.payload_id; done_at = now; bytes_exchanged = loaded });
}

unfoldable pub commit_log : ℕ → PayloadLogger → PayloadLogger
commit_log now l =
    let trace = record l.trace_buf { ended_at = now } in
    record l { trace_buf = trace; traces_queue = push l.traces_queue trace }
