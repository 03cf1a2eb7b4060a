-- ===== src/Gateway/Process.antt =====
-- The gateway's process: cmd/gateway/main.go. Two goroutines run: one serves, and main waits for
-- a signal and then shuts the server down. What happens to them, in the order in which it
-- happens, is a list of happenings.
pub mod Exits
mod Tests
use voxplatform.Prelude.{ℕ, ◌*◌, String, Option, List, [], ◌∷◌, ◌+s◌}
use voxplatform.Gateway.Config.{Config, load_config}
use voxplatform.Gateway.Stream.{second}

-- The fields of the http.Server that main sets, without the handler.
pub record HttpServer : Type 0 where
  pub addr : String
  pub read_timeout : ℕ
  pub write_timeout : ℕ
  pub idle_timeout : ℕ

pub http_server : Config → HttpServer
http_server cfg = record {
  addr = ":" +s cfg.port;
  read_timeout = 30 * second;
  write_timeout = 120 * second;
  idle_timeout = 60 * second;
}

-- ListenAndServe fails, or returns because the server was closed; SIGINT or SIGTERM arrives; and
-- Shutdown, which is called once a signal has arrived, returns, with an error if ten seconds
-- passed before the requests had ended.
pub data Happening : Type 0 where
  serve_failed : String → Happening
  serve_closed : Happening
  signal : Happening
  shut_down : Option String → Happening

pub data Process : Type 0 where
  serving : Process
  shutting_down : Process
  exited : ℕ → Process

-- What the happening makes of the process. An error of Shutdown is logged only, and a process that
-- has exited stays so.
pub step : Process → Happening → Process
step serving (serve_failed e) = exited 1
step serving signal = shutting_down
step serving serve_closed = serving
step serving (shut_down r) = serving
step shutting_down (serve_failed e) = exited 1
step shutting_down (shut_down r) = exited 0
step shutting_down serve_closed = shutting_down
step shutting_down signal = shutting_down
step (exited code) h = exited code

abbrev pub steps : Process → List Happening → Process
unfolding step
steps p [] = p
steps p (h ∷ hs) = steps (step p h) hs
