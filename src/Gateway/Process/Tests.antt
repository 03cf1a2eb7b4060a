-- ===== src/Gateway/Process/Tests.antt =====
-- A gateway that is stopped.
use voxplatform.Prelude.{◌≡◌, ◌↔◌, none, List, [], ◌∷◌}
use voxplatform.Gateway.Process.{Happening, serve_closed, signal, shut_down, serving, exited, steps}
use voxplatform.Gateway.Process.Exits.{IsStopped, exits_iff}

abbrev stop : List Happening
stop = signal ∷ serve_closed ∷ shut_down none ∷ []

exits_iff_example : (steps serving stop ≡ exited 0) ↔ IsStopped stop
exits_iff_example = exits_iff stop
