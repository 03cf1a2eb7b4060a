-- ===== src/Gateway/Process/Exits.antt =====
-- When the gateway stops, and with which code.
use voxplatform.Prelude.{ℕ, ◌≡◌, ◌↔◌, refl, String, Option, List, [], ◌∷◌, ◌++◌, All}
use voxplatform.Gateway.Process.{
  Happening, serve_failed, serve_closed, signal, shut_down, serving, shutting_down, exited, step,
  steps,
}

-- The server has not failed by itself.
abbrev pub IsOrderly : Happening → Type 0
IsOrderly (serve_failed e) = ⊥
IsOrderly _ = Unit

-- Shutdown returns, and until then the server has not failed.
pub data IsDone : List Happening → Type 0 where
  done :
      (before after : List Happening) (r : Option String)
      → All IsOrderly before
      → IsDone (before ++ shut_down r ∷ after)

-- A signal arrives and then Shutdown returns, and until then the server has not failed.
pub data IsStopped : List Happening → Type 0 where
  stopped :
      (before after : List Happening)
      → All IsOrderly before
      → IsDone after
      → IsStopped (before ++ signal ∷ after)

steps-exited : (code : ℕ) (hs : List Happening) → steps (exited code) hs ≡ exited code
unfolding step
steps-exited code [] = refl
steps-exited code (h ∷ hs) = steps-exited code hs

earlier_done : (h : Happening) (hs : List Happening) → IsOrderly h → IsDone hs → IsDone (h ∷ hs)
earlier_done h hs o (done before after r a) = done (h ∷ before) after r (o, a)

earlier_stop :
    (h : Happening) (hs : List Happening) → IsOrderly h → IsStopped hs → IsStopped (h ∷ hs)
earlier_stop h hs o (stopped before after a d) = stopped (h ∷ before) after (o, a) d

-- While it shuts down, the process ends with code 0 exactly if Shutdown returns first.
done_of : (hs : List Happening) → steps shutting_down hs ≡ exited 0 → IsDone hs
unfolding step
done_of [] e = cc
done_of (serve_failed x ∷ hs) e = cc (steps-exited 1 hs, e)
done_of (shut_down r ∷ hs) e = done [] hs r tt
done_of (serve_closed ∷ hs) e = earlier_done serve_closed hs tt (done_of hs e)
done_of (signal ∷ hs) e = earlier_done signal hs tt (done_of hs e)

stop_of : (hs : List Happening) → steps serving hs ≡ exited 0 → IsStopped hs
unfolding step
stop_of [] e = cc
stop_of (serve_failed x ∷ hs) e = cc (steps-exited 1 hs, e)
stop_of (signal ∷ hs) e = stopped [] hs tt (done_of hs e)
stop_of (serve_closed ∷ hs) e = earlier_stop serve_closed hs tt (stop_of hs e)
stop_of (shut_down r ∷ hs) e = earlier_stop (shut_down r) hs tt (stop_of hs e)

shuts :
    (before after : List Happening) (r : Option String)
    → All IsOrderly before
    → steps shutting_down (before ++ shut_down r ∷ after) ≡ exited 0
unfolding step
shuts [] after r o = steps-exited 0 after
shuts (serve_failed x ∷ before) after r o = absurd o.0
shuts (serve_closed ∷ before) after r o = shuts before after r o.1
shuts (signal ∷ before) after r o = shuts before after r o.1
shuts (shut_down r' ∷ before) after r o = steps-exited 0 (before ++ shut_down r ∷ after)

exits_done : (hs : List Happening) → IsDone hs → steps shutting_down hs ≡ exited 0
exits_done hs (done before after r o) = shuts before after r o

-- What precedes a stop while the process shuts down changes nothing of it.
skips :
    (before after : List Happening)
    → All IsOrderly before
    → IsDone after
    → steps shutting_down (before ++ signal ∷ after) ≡ exited 0
unfolding step
skips [] after o d = exits_done after d
skips (serve_failed x ∷ before) after o d = absurd o.0
skips (serve_closed ∷ before) after o d = skips before after o.1 d
skips (signal ∷ before) after o d = skips before after o.1 d
skips (shut_down r ∷ before) after o d = steps-exited 0 (before ++ signal ∷ after)

serves :
    (before after : List Happening)
    → All IsOrderly before
    → IsDone after
    → steps serving (before ++ signal ∷ after) ≡ exited 0
unfolding step
serves [] after o d = exits_done after d
serves (serve_failed x ∷ before) after o d = absurd o.0
serves (serve_closed ∷ before) after o d = serves before after o.1 d
serves (signal ∷ before) after o d = skips before after o.1 d
serves (shut_down r ∷ before) after o d = serves before after o.1 d

exits_stopped : (hs : List Happening) → IsStopped hs → steps serving hs ≡ exited 0
exits_stopped hs (stopped before after o d) = serves before after o d

-- Whatever happens and in whatever order, the process ends with code 0 exactly if a signal arrives
-- and Shutdown returns after it, in time or not, before the server fails by itself.
pub exits_iff : (hs : List Happening) → (steps serving hs ≡ exited 0) ↔ IsStopped hs
exits_iff hs = (stop_of hs, exits_stopped hs)
